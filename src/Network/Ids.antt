-- ===== src/Network/Ids.antt =====
-- The ids that network::get_next_id gives out.
use volt_net.Common.{
  ℕ, zero, suc, ◌+◌, ◌%◌, ◌≤◌, ◌<◌, ◌≡◌, ◌↔◌, ap, ◌∙◌, ◌==◌, get_elem?, Bool-cases, inl, inr, some,
  List, [], ◌∷◌, arith,
}
use mathlib.Core.Option.{some-injective}
use volt_net.Defs.{con_id_mod}
use volt_net.Network.{Attempt, spurious, raced, get_next_id}

-- How many ids the other threads take in all.
abbrev pub total : List Attempt → ℕ
total [] = 0
total (spurious ∷ rest) = total rest
total (raced n ∷ rest) = n + total rest

-- Whatever the other threads took in between, a call returns a value that the counter had after it
-- was moved on by no more than they took, and leaves it one further, both modulo 2 ^ 16.
get_next_id_lem :
    (attempts : List Attempt) (next_id : ℕ)
    → next_id < con_id_mod
    → (taken : ℕ) × (taken ≤ total attempts)
      × ((get_next_id attempts next_id).0 ≡ (next_id + taken) % con_id_mod)
      × ((get_next_id attempts next_id).1 ≡ (next_id + taken + 1) % con_id_mod)
unfolding get_next_id
get_next_id_lem [] next_id h = (0, omega arith, omega arith, omega arith)
get_next_id_lem (spurious ∷ rest) next_id h = get_next_id_lem rest next_id h
get_next_id_lem (raced n ∷ rest) next_id h =
    let (taken, most, id, next) = get_next_id_lem rest ((next_id + n) % con_id_mod) (omega arith) in
    elim (Bool-cases ((next_id + n) % con_id_mod == next_id)) [
      | inl same ↦ (0, omega arith, rw same (omega arith), rw same (omega arith))
      | inr other ↦ (
        n + taken,
        omega (arith, most),
        rw other (omega (arith, id)),
        rw other (omega (arith, next)),
      )
    ]

-- The ids of some calls in a row.
unfoldable pub ids : ℕ → ℕ → List ℕ
ids zero next_id = []
ids (suc n) next_id = (get_next_id [] next_id).0 ∷ ids n (get_next_id [] next_id).1

ids_at :
    (n i next_id : ℕ)
    → next_id < con_id_mod
    → i < n
    → get_elem? (ids n next_id) i ≡ some ((next_id + i) % con_id_mod)
unfolding ids get_next_id
ids_at zero i next_id h lt = elim lt [ ]
ids_at (suc n) zero next_id h lt = ap some (omega arith)
ids_at (suc n) (suc i) next_id h lt =
    ids_at n i ((next_id + 1) % con_id_mod) (omega arith) (omega arith) ∙ ap some (omega arith)

-- Of some undisturbed calls in a row, two get the same id exactly when the distance between them is
-- a multiple of 2 ^ 16.
pub ids_eq_iff :
    (n i j next_id : ℕ)
    → next_id < con_id_mod
    → i < n
    → j < n
    → (get_elem? (ids n next_id) i ≡ get_elem? (ids n next_id) j)
      ↔ (i % con_id_mod ≡ j % con_id_mod)
ids_eq_iff n i j next_id h hi hj =
    rw (ids_at n i next_id h hi, ids_at n j next_id h hj)
      ((λ e. omega (arith, some-injective _ _ e)), (λ e. ap some (omega arith)))

-- As long as the counter does not wrap, the id is one that was never given out.
pub get_next_id_fresh :
    (attempts : List Attempt) (next_id : ℕ)
    → next_id + total attempts + 1 < con_id_mod
    → let (id, next) = get_next_id attempts next_id in
      (next_id ≤ id) × (id ≤ next_id + total attempts) × (next ≡ id + 1)
unfolding get_next_id
get_next_id_fresh [] next_id h = omega arith
get_next_id_fresh (spurious ∷ rest) next_id h = get_next_id_fresh rest next_id h
get_next_id_fresh (raced n ∷ rest) next_id h =
    let plain : (next_id + n) % con_id_mod ≡ next_id + n = omega arith in
    rw plain (ground (arith, get_next_id_fresh rest (next_id + n) (omega arith)))
