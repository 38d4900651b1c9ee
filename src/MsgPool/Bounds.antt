-- ===== src/MsgPool/Bounds.antt =====
-- What holds of the pool after any use of it.
use volt_net.Common.{
  ℕ, zero, suc, ◌+◌, ◌≤◌, ◌≡◌, refl, ◌∙◌, if◌then◌else◌, length, get_elem?, replicate, All, true,
  false, some, List, [], ◌∷◌, ◌++◌, arith, Option-cases, inl, inr,
}
use Prim.Native.Nat.{min}
use volt_net.Defs.{Message}
use volt_net.MsgPool.{
  Vector, max_messages, MsgPool, empty_pool, get_message, return_message, delete_vector, erase_idx,
  write_at, Use, get, write_to, drop_at, use_pool, use_all,
}

-- How many of some vectors will come back to the pool.
abbrev pub returning : List Vector → ℕ
returning [] = 0
returning (v ∷ vs) = (if v.returns then 1 else 0) + returning vs

-- Pooled vectors are empty and will not come back; the pool holds at most one more than
-- `max_messages`; no vector is lost or deleted twice; and none is reused more than once.
pub record IsValid (p : MsgPool) : Type 0 where
  pub pooled : All (λ (v : Vector). (v.content ≡ []) × (v.returns ≡ false)) p.msg_vec
  pub bounded : length p.msg_vec ≤ max_messages + 1
  pub balanced : p.allocated ≡ p.deleted + length p.msg_vec + length p.held
  pub once : p.reused + length p.msg_vec + returning p.held ≤ p.allocated

length-erase_idx :
    (vs : List Vector) (i : ℕ) {v : Vector}
    → get_elem? vs i ≡ some v
    → (length vs ≡ length (erase_idx vs i) + 1)
      × (returning vs ≡ returning (erase_idx vs i) + (if v.returns then 1 else 0))
unfolding erase_idx
length-erase_idx [] i e = cc
length-erase_idx (x ∷ xs) zero e = ground arith
length-erase_idx (x ∷ xs) (suc i) {v} e = ground (arith, length-erase_idx xs i {v = v} e)

write_at_lem :
    (vs : List Vector) (i : ℕ) (m : Message)
    → (length (write_at vs i m) ≡ length vs) × (returning (write_at vs i m) ≡ returning vs)
unfolding write_at
write_at_lem [] i m = (refl, refl)
write_at_lem (v ∷ vs) zero m = (refl, refl)
write_at_lem (v ∷ vs) (suc i) m = ground (arith, write_at_lem vs i m)

get_message-IsValid : (p : MsgPool) → IsValid p → IsValid (get_message p)
unfolding get_message
get_message-IsValid p v = go p.msg_vec refl
  where
    go : (vs : List Vector) → p.msg_vec ≡ vs → IsValid (get_message p)
    go [] e = ground (arith, v.pooled, v.bounded, v.balanced, v.once)
    go (x ∷ xs) e = ground (arith, v.pooled, v.bounded, v.balanced, v.once)

drop_at-IsValid :
    (p : MsgPool) (i : ℕ) (w : Vector)
    → get_elem? p.held i ≡ some w
    → IsValid p
    → IsValid (delete_vector w (record p { held = erase_idx p.held i }))
unfolding delete_vector return_message
drop_at-IsValid p i w e v =
    ground (arith, v.pooled, v.bounded, v.balanced, v.once, length-erase_idx p.held i {v = w} e)

use_pool-IsValid : (p : MsgPool) (u : Use) → IsValid p → IsValid (use_pool p u)
unfolding use_pool
use_pool-IsValid p get v = get_message-IsValid p v
use_pool-IsValid p (write_to i m) v =
    let (len, same) = write_at_lem p.held i m in
    record {
      pooled = v.pooled;
      bounded = v.bounded;
      balanced = rw len v.balanced;
      once = rw same v.once;
    }
use_pool-IsValid p (drop_at i) v = elim (Option-cases (get_elem? p.held i)) [
  | inl e ↦ rw (e, use_pool) v
  | inr (w, e) ↦ rw (e, use_pool) (drop_at-IsValid p i w e v)
]

use_all_from-IsValid : (p : MsgPool) (us : List Use) → IsValid p → IsValid (use_all p us)
unfolding use_all
use_all_from-IsValid p [] v = v
use_all_from-IsValid p (u ∷ us) v = use_all_from-IsValid (use_pool p u) us (use_pool-IsValid p u v)

-- After any use of the pool from the start of the program: the vectors in it are empty and none comes
-- back to it once it is taken out; it holds at most max_messages + 1 of them; every vector that was
-- allocated is deleted, in the pool or held; and the reuses so far, the vectors in the pool and the
-- held ones that will come back are no more than were allocated.
pub use_all-IsValid : (us : List Use) → IsValid (use_all empty_pool us)
use_all-IsValid us =
    use_all_from-IsValid empty_pool us
      (record { pooled = tt; bounded = omega arith; balanced = omega arith; once = omega arith })

-- Taking some messages, and dropping as many.
abbrev pub fill : ℕ → List Use
fill n = replicate n get ++ replicate n (drop_at 0)

abbrev AllReturn : List Vector → Type 0
AllReturn vs = All (λ (v : Vector). v.returns ≡ true) vs

use_all-append : (p : MsgPool) (us vs : List Use) → use_all p (us ++ vs) ≡ use_all (use_all p us) vs
unfolding use_all
use_all-append p [] vs = refl
use_all-append p (u ∷ us) vs = use_all-append (use_pool p u) us vs

take_new :
    (n : ℕ) (p : MsgPool)
    → p.msg_vec ≡ []
    → AllReturn p.held
    → ((use_all p (replicate n get)).msg_vec ≡ [])
      × (length (use_all p (replicate n get)).held ≡ n + length p.held)
      × AllReturn (use_all p (replicate n get)).held
unfolding use_all use_pool get_message
take_new zero p e all = (e, omega arith, all)
take_new (suc n) p e all =
    let (empty, size, later) = take_new n (get_message p) (ground arith) (ground arith) in
    (empty, ground (arith, size), later)

drop_new :
    (n : ℕ) (p : MsgPool) (vs : List Vector)
    → p.held ≡ vs
    → n ≤ length vs
    → AllReturn vs
    → length p.msg_vec ≤ max_messages + 1
    → length (use_all p (replicate n (drop_at 0))).msg_vec
      ≡ min (length p.msg_vec + n) (max_messages + 1)
unfolding use_all
drop_new zero p vs e enough all h = omega arith
drop_new (suc n) p [] e enough all h = absurd (omega arith)
drop_new (suc n) p (v ∷ vs) e enough all h =
    let d = use_pool p (drop_at 0) in
    let (held, size) = step in
    omega (arith, drop_new n d vs held (omega arith) all.1 (omega (arith, size)), size)
  where
    step :
        ((use_pool p (drop_at 0)).held ≡ vs)
        × (length (use_pool p (drop_at 0)).msg_vec ≡ min (length p.msg_vec + 1) (max_messages + 1))
    step = unfold use_pool delete_vector return_message erase_idx in ground (arith, all.0)

-- When `n` messages are taken from a new pool and then dropped, it keeps all of them up to one more
-- than `max_messages`.
pub length-fill : (n : ℕ) → length (use_all empty_pool (fill n)).msg_vec ≡ min n (max_messages + 1)
length-fill n =
    let (none_left, size, all) = take_new n empty_pool refl tt in
    let taken = use_all empty_pool (replicate n get) in
    rw (use_all-append empty_pool (replicate n get) (replicate n (drop_at 0))) (
      drop_new n taken taken.held refl (omega (arith, size)) all (rw none_left (omega arith))
      ∙ rw none_left (omega arith))
