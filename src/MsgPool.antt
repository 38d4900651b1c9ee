-- ===== src/MsgPool.antt =====
-- volt_net/include/volt/net/messages/msg_pool.hpp and volt_net/src/volt/net/messages/msg_pool.cpp:
-- the store of used messages. A vector carries the deleter of the shared_ptr that owns it, which
-- runs when the last reference is dropped. The lock is held during each access to the store, so a
-- call is one step.
pub mod Bounds
pub mod Aliasing
use volt_net.Common.{
  ℕ, zero, suc, ◌+◌, leb, if◌then◌else◌, length, get_elem?, Bool, true, false, Option, none, some,
  List, [], ◌∷◌,
}
use volt_net.Defs.{Message}

pub record Vector : Type 0 where
  pub address : ℕ
  pub content : Message
  -- Whether the deleter is return_message, and not the default one.
  pub returns : Bool

abbrev pub max_messages : ℕ
max_messages = 50

-- The store, its back first; the vectors that somebody holds, each once however many copies of its
-- shared_ptr there are; and counts of what has been done. New vectors get new addresses.
pub record MsgPool : Type 0 where
  pub msg_vec : List Vector
  pub held : List Vector
  pub allocated : ℕ
  pub deleted : ℕ
  pub reused : ℕ

abbrev pub empty_pool : MsgPool
empty_pool = record { msg_vec = []; held = []; allocated = 0; deleted = 0; reused = 0 }

-- The newest held vector is the one that is returned.
unfoldable pub get_message : MsgPool → MsgPool
get_message p = elim p.msg_vec [
  | [] ↦ record p {
    held = record { address = p.allocated; content = []; returns = true } ∷ p.held;
    allocated = p.allocated + 1;
  }
  | msg ∷ rest ↦ record p { msg_vec = rest; held = msg ∷ p.held; reused = p.reused + 1 }
]

-- `msg->resize(0)`; the new shared_ptr has the default deleter.
unfoldable pub return_message : ℕ → MsgPool → MsgPool
return_message msg p =
    if leb (length p.msg_vec) max_messages
    then record p { msg_vec = record { address = msg; content = []; returns = false } ∷ p.msg_vec }
    else record p { deleted = p.deleted + 1 }

-- The last reference to a vector is dropped.
unfoldable pub delete_vector : Vector → MsgPool → MsgPool
unfolding return_message
delete_vector v p =
    if v.returns then return_message v.address p else record p { deleted = p.deleted + 1 }

-- The held vectors, but for the one at a place.
unfoldable pub erase_idx {ℓ} : {A : Type ℓ} → List A → ℕ → List A
erase_idx [] i = []
erase_idx (x ∷ xs) zero = xs
erase_idx (x ∷ xs) (suc i) = x ∷ erase_idx xs i

-- What the holders of messages do: take one, write into one, drop one.
pub data Use : Type 0 where
  get : Use
  write_to : ℕ → Message → Use
  drop_at : ℕ → Use

pub write_at : List Vector → ℕ → Message → List Vector
write_at [] i m = []
write_at (v ∷ vs) zero m = record v { content = m } ∷ vs
write_at (v ∷ vs) (suc i) m = v ∷ write_at vs i m

unfoldable pub use_pool : MsgPool → Use → MsgPool
unfolding get_message delete_vector
use_pool p get = get_message p
use_pool p (write_to i m) = record p { held = write_at p.held i m }
use_pool p (drop_at i) = elim (get_elem? p.held i) [
  | none ↦ p
  | some v ↦ delete_vector v (record p { held = erase_idx p.held i })
]

unfoldable pub use_all : MsgPool → List Use → MsgPool
use_all p [] = p
use_all p (u ∷ us) = use_all (use_pool p u) us
