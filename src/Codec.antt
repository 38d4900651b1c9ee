-- ===== src/Codec.antt =====
-- What a pair of a `write_into` and a `read_into` for one type promises: volt_net/include/volt/net/
-- serialization/net_serialize.hpp asks for both of every type that goes through a message. The
-- writer and the reader may run on different machines.
pub mod Scalars
pub mod Containers
pub mod Floats
pub mod Series
use volt_net.Common.{◌+◌, ◌≡◌, List, ◌++◌, ℕ, Option, some}
use volt_net.Defs.{Message}
use volt_net.Serialize.Escaping.{escape}

-- `write` appends some bytes in escaped form, and `read` turns those bytes back into `v` and leaves
-- the iterator behind them.
abbrev pub Transfers {ℓ} :
    {A : Type ℓ} → (Message → Message) → (Message → Option (A × Message)) → A → Type ℓ
Transfers write read v =
    (bytes : List ℕ) × ((msg : Message) → write msg ≡ msg ++ escape bytes)
    × ((rest : Message) → read (bytes ++ rest) ≡ some (v, rest))

pub record Codec {ℓ} (A : Type ℓ) : Type (ℓ + 1) where
  pub write : A → Message → Message
  pub read : A → Message → Option (A × Message)
  pub fresh : A
  pub IsValid : A → Type ℓ
  pub transfers : (v : A) → IsValid v → Transfers (write v) (read fresh) v
