-- ===== src/Network/Locks/Ends.antt =====
-- Threads that take the mutexes of a network (volt_net/src/volt/net/network.cpp) in order all come to
-- their end.
use volt_net.Common.{
  ℕ, zero, suc, ◌≤◌, ◌<◌, ◌⊎◌, ◌≡◌, ◌≢◌, refl, sym, ap, subst, ◌∙◌, true, inl, inr, get_elem?,
  length, All, All-get_elem?, some, List, [], ◌∷◌, ◌>>=◌, arith,
}
use mathlib.Core.Option.{some-injective}
use native.Mathlib.Decide.{dec_lt}
use volt_net.Network.Locks.{Mutex, connections_mut, rec_mut, pool_mut, Thread, holds, lock_run}
use volt_net.Network.Locks.Order.{Ordered, has, count, total, IsGood}
use volt_net.Network.Locks.Progress.{
  IsFinished, find_holder, find_unfinished, Moves, release-Moves, leaf_release, free-Moves,
  rest_cases,
}
use volt_net.Network.Locks.Steps.{lock_step-IsGood}

module _ (ts : List Thread) (v : IsGood ts) where
  leaf-Moves : (m : Mutex) → m ≢ connections_mut → 0 < count m ts → (k : ℕ) × Moves k ts
  leaf-Moves m leaf some_holder =
      let (k, t, at, mine) = find_holder m ts some_holder in
      let ordered = All-get_elem? (λ t. Ordered t.held t.rest) ts k t at v.ordered in
      let (x, acts, e) = leaf_release m t.held t.rest leaf mine ordered in
      (k, release-Moves k ts t t.held x acts at refl e (subst (Ordered t.held) e ordered))

  top-Moves :
      count rec_mut ts ≡ 0
      → count pool_mut ts ≡ 0
      → (k : ℕ) (t : Thread) → get_elem? ts k ≡ some t
      → 0 < length t.rest
      → count connections_mut ts ≤ has connections_mut t
      → Moves k ts
  top-Moves r p k t at more c =
      free-Moves k ts t t.rest at refl more
        (All-get_elem? (λ t. Ordered t.held t.rest) ts k t at v.ordered) r p c

  -- Either all threads are done or one of them can go on.
  finished_or_Moves : (All IsFinished ts) ⊎ ((k : ℕ) × Moves k ts)
  finished_or_Moves = elim (dec_lt 0 (count rec_mut ts)) [
    | yes some_rec ↦ inr (leaf-Moves rec_mut (λ e. cc) some_rec)
    | no no_rec ↦ elim (dec_lt 0 (count pool_mut ts)) [
      | yes some_pool ↦ inr (leaf-Moves pool_mut (λ e. cc) some_pool)
      | no no_pool ↦ elim (dec_lt 0 (count connections_mut ts)) [
        | yes some_holder ↦
            let (k, t, at, mine) = find_holder connections_mut ts some_holder in
            let ordered = All-get_elem? (λ t. Ordered t.held t.rest) ts k t at v.ordered in
            inr (
              k,
              top-Moves (omega arith) (omega arith) k t at (unfinished t mine ordered)
                  (ground (arith, mine, v.exclusive connections_mut)),
            )
        | no nobody ↦ elim (find_unfinished ts) [
          | inl all ↦ inl all
          | inr (k, t, at, more) ↦
              inr (k, top-Moves (omega arith) (omega arith) k t at more (omega arith))
        ]
      ]
    ]
  ]
    where
      unfinished :
          (t : Thread)
          → holds connections_mut t.held ≡ true
          → Ordered t.held t.rest
          → 0 < length t.rest
      unfinished t mine ordered = elim (rest_cases t.rest) [
        | inl done ↦
            let none_held : t.held ≡ [] = subst (Ordered t.held) done ordered in
            let none = ap (holds connections_mut) none_held in absurd (cc)
        | inr more ↦ more
      ]

-- From every such state there is a way on in which all threads come to their end.
pub finish :
    (n : ℕ) (ts : List Thread)
    → total ts ≡ n
    → IsGood ts
    → (more : List ℕ) × (done : List Thread) × (lock_run more ts ≡ some done) × All IsFinished done
unfolding lock_run
finish zero ts e v = elim (finished_or_Moves ts v) [
  | inl all ↦ ([], ts, refl, all)
  | inr (k, moves) ↦ elim (lock_step-IsGood k ts v) [
    | inl stuck ↦ absurd (moves stuck)
    | inr (ts', eq, w, less) ↦ absurd (omega (arith, less))
  ]
]
finish (suc n) ts e v = elim (finished_or_Moves ts v) [
  | inl all ↦ ([], ts, refl, all)
  | inr (k, moves) ↦ elim (lock_step-IsGood k ts v) [
    | inl stuck ↦ absurd (moves stuck)
    | inr (ts', eq, w, less) ↦
        let (more, done, run, all) = finish n ts' (omega (arith, less)) w in
        (k ∷ more, done, rw (eq, ◌>>=◌) run, all)
  ]
]

pub run-IsGood :
    (ks : List ℕ) (ts ts' : List Thread) → IsGood ts → lock_run ks ts ≡ some ts' → IsGood ts'
unfolding lock_run
run-IsGood [] ts ts' v e = subst IsGood (some-injective ts ts' e) v
run-IsGood (k ∷ ks) ts ts' v e = elim (lock_step-IsGood k ts v) [
  | inl stuck ↦ let never = sym (ap (λ o. o >>= lock_run ks) stuck) ∙ e in cc
  | inr (mid, eq, w, less) ↦ run-IsGood ks mid ts' w (sym (ap (λ o. o >>= lock_run ks) eq) ∙ e)
]
