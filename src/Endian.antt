-- ===== src/Endian.antt =====
-- volt_net/include/volt/net/volt_endian.hpp, and what the code relies on of the machine: how an
-- integer stands in memory, and whether the floating point types are IEC 559.
pub mod Memory
use volt_net.Common.{
  ℕ, zero, suc, ◌+◌, ◌*◌, ◌/◌, ◌%◌, ◌==◌, get_elem?, Bool, true, false, none, some, List, [], ◌∷◌,
  reverse,
}

pub data Layout : Type 0 where
  little big : Layout

-- The machine that runs the code: its byte order and `numeric_limits<...>::is_iec559`.
pub record Host : Type 0 where
  pub layout : Layout
  pub float_iec559 : Bool
  pub double_iec559 : Bool

-- The `k` low bytes of a number, the lowest first.
unfoldable pub store_le : ℕ → ℕ → List ℕ
store_le zero n = []
store_le (suc k) n = (n % 256) ∷ store_le k (n / 256)

unfoldable pub load_le : List ℕ → ℕ
load_le [] = 0
load_le (b ∷ bs) = b + 256 * load_le bs

-- The bytes of a `k`-byte integer by rising address.
unfoldable pub memory : Layout → ℕ → ℕ → List ℕ
unfolding store_le
memory little k n = store_le k n
memory big k n = reverse (store_le k n)

-- The integer whose bytes these are.
unfoldable pub load : Layout → List ℕ → ℕ
unfolding load_le
load little bs = load_le bs
load big bs = load_le (reverse bs)

-- The test writes 0x01020304 into a union and looks at the byte with the lowest address.
unfoldable pub is_big_endian : Host → Bool
unfolding memory
is_big_endian h = elim (get_elem? (memory h.layout 4 0x01020304) 0) [
  | none ↦ false
  | some c ↦ c == 1
]
