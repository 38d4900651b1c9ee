-- ===== src/Network/Locks/Progress.antt =====
-- Threads that take the mutexes of a network (volt_net/src/volt/net/network.cpp) in order do not block
-- each other for good.
use volt_net.Common.{
  ℕ, suc, ◌≤◌, ◌<◌, ◌⊎◌, ◌≡◌, ◌≢◌, refl, ap, subst, ◌∙◌, true, false, not, ◌||◌, Bool-cases, inl,
  inr, get_elem?, length, All, none, some, List, [], ◌∷◌, ◌>>=◌, arith,
}
use volt_net.Network.Locks.{
  Mutex, connections_mut, rec_mut, pool_mut, is_recursive, Act, acquire, release, Thread,
  same_mutex, holds, held_elsewhere, set_thread, act, next_act, lock_step,
}
use volt_net.Network.Locks.Order.{
  Ordered, has, count, same_mutex-≡, same_mutex_refl, has-count, elsewhere-count,
}

abbrev pub IsFinished : Thread → Type 0
IsFinished t = t.rest ≡ []

pub find_holder :
    (m : Mutex) (ts : List Thread)
    → 0 < count m ts
    → (k : ℕ) × (t : Thread) × (get_elem? ts k ≡ some t) × (holds m t.held ≡ true)
find_holder m [] h = absurd (omega arith)
find_holder m (t ∷ ts) h = elim (Bool-cases (holds m t.held)) [
  | inl mine ↦ (0, t, refl, mine)
  | inr other ↦
      let (k, u, at, holding) = find_holder m ts (ground (arith, other)) in (suc k, u, at, holding)
]

pub rest_cases : (rest : List Act) → (rest ≡ []) ⊎ (0 < length rest)
rest_cases [] = inl refl
rest_cases (a ∷ acts) = inr (omega arith)

pub find_unfinished :
    (ts : List Thread)
    → (All IsFinished ts)
      ⊎ ((k : ℕ) × (t : Thread) × (get_elem? ts k ≡ some t) × (0 < length t.rest))
find_unfinished [] = inl tt
find_unfinished (t ∷ ts) = elim (rest_cases t.rest) [
  | inl e ↦ elim (find_unfinished ts) [
    | inl all ↦ inl (e, all)
    | inr (k, u, at, more) ↦ inr (suc k, u, at, more)
  ]
  | inr more ↦ inr (0, t, refl, more)
]

-- The operation that comes next is possible.
abbrev pub Moves : ℕ → List Thread → Type 0
Moves k ts = lock_step k ts ≢ none

moves_lem :
    (k : ℕ) (ts : List Thread) (t t' : Thread) (rest : List Act)
    → get_elem? ts k ≡ some t
    → t.rest ≡ rest
    → next_act k ts t rest ≡ some t'
    → Moves k ts
unfolding lock_step
moves_lem k ts t t' rest at er eq =
    let step : lock_step k ts ≡ some (set_thread ts k t') =
      rw (at, lock_step, ◌>>=◌, ap (next_act k ts t) er ∙ eq) refl in
    λ e. cc

pub release-Moves :
    (k : ℕ) (ts : List Thread) (t : Thread) (held : List Mutex) (m : Mutex) (acts : List Act)
    → get_elem? ts k ≡ some t
    → t.held ≡ held
    → t.rest ≡ release m ∷ acts
    → Ordered held (release m ∷ acts)
    → Moves k ts
unfolding next_act act
release-Moves k ts t [] m acts at eh er ordered = absurd (ordered tt)
release-Moves k ts t (h ∷ hs) m acts at eh er ordered =
    let same : same_mutex h m ≡ true =
      subst (λ x. same_mutex h x ≡ true) ordered.0 (same_mutex_refl h) in
    moves_lem k ts t (record { held = hs; rest = acts }) (release m ∷ acts) at er
      (rw (eh, same) refl)

acquire-Moves :
    (k : ℕ) (ts : List Thread) (t : Thread) (m : Mutex) (acts : List Act)
    → get_elem? ts k ≡ some t
    → t.rest ≡ acquire m ∷ acts
    → held_elsewhere m k ts ≡ false
    → (is_recursive m || not (holds m t.held)) ≡ true
    → Moves k ts
unfolding next_act act
acquire-Moves k ts t m acts at er alone may =
    moves_lem k ts t (record { held = m ∷ t.held; rest = acts }) (acquire m ∷ acts) at er
      (rw (alone, may) refl)

only_connections :
    (m : Mutex) (held : List Mutex)
    → All (λ x. x ≡ connections_mut) held
    → holds m held ≡ true
    → m ≡ connections_mut
only_connections m [] all h = cc
only_connections m (y ∷ ys) all h = elim (Bool-cases (same_mutex m y)) [
  | inl same ↦ same_mutex-≡ m y same ∙ all.0
  | inr other ↦ only_connections m ys all.1 (ground (arith, other))
]

-- A thread that has one of the other mutexes releases the last one that it took next.
pub leaf_release :
    (m : Mutex) (held : List Mutex) (rest : List Act)
    → m ≢ connections_mut
    → holds m held ≡ true
    → Ordered held rest
    → (x : Mutex) × (acts : List Act) × (rest ≡ release x ∷ acts)
leaf_release m held [] leaf h ordered = let none_held = ap (holds m) ordered in cc
leaf_release m held (acquire x ∷ acts) leaf h ordered =
    absurd (leaf (only_connections m held ordered.0 h))
leaf_release m held (release x ∷ acts) leaf h ordered = (x, acts, refl)

-- Where nobody has one of the other mutexes, and nobody else has `connections_mut`.
pub free-Moves :
    (k : ℕ) (ts : List Thread) (t : Thread) (rest : List Act)
    → get_elem? ts k ≡ some t
    → t.rest ≡ rest
    → 0 < length rest
    → Ordered t.held rest
    → count rec_mut ts ≡ 0
    → count pool_mut ts ≡ 0
    → count connections_mut ts ≤ has connections_mut t
    → Moves k ts
free-Moves k ts t [] at er more ordered r p c = absurd (omega arith)
free-Moves k ts t (release m ∷ acts) at er more ordered r p c =
    release-Moves k ts t t.held m acts at refl er ordered
free-Moves k ts t (acquire connections_mut ∷ acts) at er more ordered r p c =
    acquire-Moves k ts t connections_mut acts at er (elsewhere-count connections_mut k ts t at c)
      (unfold is_recursive in refl)
free-Moves k ts t (acquire rec_mut ∷ acts) at er more ordered r p c =
    acquire-Moves k ts t rec_mut acts at er (elsewhere-count rec_mut k ts t at (omega arith))
      (unfold is_recursive in ground (arith, has-count rec_mut k ts t at))
free-Moves k ts t (acquire pool_mut ∷ acts) at er more ordered r p c =
    acquire-Moves k ts t pool_mut acts at er (elsewhere-count pool_mut k ts t at (omega arith))
      (unfold is_recursive in ground (arith, has-count pool_mut k ts t at))
