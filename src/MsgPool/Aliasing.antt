-- ===== src/MsgPool/Aliasing.antt =====
-- A vector of the pool has one owner at a time (volt_net/src/volt/net/messages/msg_pool.cpp).
use mathlib.Core.Bool.{true}
use volt_net.Common.{
  ℕ, zero, suc, ◌+◌, ◌≤◌, ◌==◌, ltb, if◌then◌else◌, ◌≡◌, refl, get_elem?, some, List, [], ◌∷◌,
  arith, Option-cases, inl, inr,
}
use volt_net.Defs.{Message}
use volt_net.MsgPool.{
  Vector, MsgPool, empty_pool, get_message, return_message, delete_vector, erase_idx, write_at, Use,
  get, write_to, drop_at, use_pool, use_all,
}
use volt_net.MsgPool.Bounds.{IsValid, use_all-IsValid}

-- How often an address stands in a list of vectors.
abbrev pub times : ℕ → List Vector → ℕ
times a [] = 0
times a (v ∷ vs) = (if v.address == a then 1 else 0) + times a vs

-- No address is in use twice, and none that was not given out.
abbrev OneOwner : MsgPool → Type 0
OneOwner p = (a : ℕ) → times a p.msg_vec + times a p.held ≤ (if ltb a p.allocated then 1 else 0)

times-erase_idx :
    (a : ℕ) (vs : List Vector) (i : ℕ) (v : Vector)
    → get_elem? vs i ≡ some v
    → times a vs ≡ times a (erase_idx vs i) + (if v.address == a then 1 else 0)
unfolding erase_idx
times-erase_idx a [] i v e = cc
times-erase_idx a (x ∷ xs) zero v e = ground arith
times-erase_idx a (x ∷ xs) (suc i) v e = ground (arith, times-erase_idx a xs i v e)

times-write_at :
    (a : ℕ) (vs : List Vector) (i : ℕ) (m : Message) → times a (write_at vs i m) ≡ times a vs
unfolding write_at
times-write_at a [] i m = refl
times-write_at a (v ∷ vs) zero m = refl
times-write_at a (v ∷ vs) (suc i) m = ground (arith, times-write_at a vs i m)

get_message-OneOwner : (p : MsgPool) → OneOwner p → OneOwner (get_message p)
unfolding get_message
get_message-OneOwner p one a = go p.msg_vec refl
  where
    go :
        (vs : List Vector)
        → p.msg_vec ≡ vs
        → times a (get_message p).msg_vec + times a (get_message p).held
          ≤ (if ltb a (get_message p).allocated then 1 else 0)
    go [] e = ground (arith, one a, e)
    go (x ∷ xs) e = ground (arith, one a, e)

drop_at-OneOwner :
    (p : MsgPool) (i : ℕ) (w : Vector)
    → get_elem? p.held i ≡ some w
    → OneOwner p
    → OneOwner (delete_vector w (record p { held = erase_idx p.held i }))
unfolding delete_vector return_message
drop_at-OneOwner p i w e one a = ground (arith, one a, times-erase_idx a p.held i w e)

use_pool-OneOwner : (p : MsgPool) (u : Use) → OneOwner p → OneOwner (use_pool p u)
unfolding use_pool
use_pool-OneOwner p get one = get_message-OneOwner p one
use_pool-OneOwner p (write_to i m) one = λ a. omega (arith, one a, times-write_at a p.held i m)
use_pool-OneOwner p (drop_at i) one = elim (Option-cases (get_elem? p.held i)) [
  | inl e ↦ rw (e, use_pool) one
  | inr (w, e) ↦ rw (e, use_pool) (drop_at-OneOwner p i w e one)
]

use_all_from-OneOwner : (p : MsgPool) (us : List Use) → OneOwner p → OneOwner (use_all p us)
unfolding use_all
use_all_from-OneOwner p [] one = one
use_all_from-OneOwner p (u ∷ us) one =
    use_all_from-OneOwner (use_pool p u) us (use_pool-OneOwner p u one)

use_all-OneOwner : (us : List Use) → OneOwner (use_all empty_pool us)
use_all-OneOwner us = use_all_from-OneOwner empty_pool us (λ a. ground arith)

-- After any use of the pool from the start of the program: the message that it hands out next is
-- empty, whatever its last holder wrote into it, nobody else holds its vector, and the pool does not
-- hand that vector out again before it is dropped, since it is not in the pool any more.
pub get_message_unshared :
    (us : List Use)
    → let p = use_all empty_pool us in
      (v : Vector) × ((get_message p).held ≡ v ∷ p.held)
      × (v.content ≡ [])
      × (times v.address p.held ≡ 0)
      × (times v.address (get_message p).msg_vec ≡ 0)
unfolding get_message
get_message_unshared us =
    let p = use_all empty_pool us in
    go p p.msg_vec refl (use_all-IsValid us) (get_message-OneOwner p (use_all-OneOwner us))
  where
    go :
        (p : MsgPool) (vs : List Vector)
        → p.msg_vec ≡ vs
        → IsValid p
        → OneOwner (get_message p)
        → (v : Vector) × ((get_message p).held ≡ v ∷ p.held)
          × (v.content ≡ [])
          × (times v.address p.held ≡ 0)
          × (times v.address (get_message p).msg_vec ≡ 0)
    go p [] e v one = (
      record { address = p.allocated; content = []; returns = true },
      ground arith,
      refl,
      ground (arith, one p.allocated),
      ground (arith, one p.allocated),
    )
    go p (x ∷ xs) e v one = (
      x,
      ground arith,
      ground (arith, v.pooled),
      ground (arith, one x.address),
      ground (arith, one x.address),
    )
