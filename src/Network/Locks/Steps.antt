-- ===== src/Network/Locks/Steps.antt =====
-- One operation of a thread on the mutexes of a network (volt_net/src/volt/net/network.cpp): what it
-- keeps, and when there is one.
use volt_net.Common.{
  ℕ, ◌+◌, ◌≤◌, ◌⊎◌, ◌≡◌, refl, sym, ap, subst, true, false, not, ◌||◌, Bool-cases, Option-cases,
  inl, inr, get_elem?, length, All-get_elem?, none, some, List, [], ◌∷◌, ◌>>=◌, arith,
}
use volt_net.Network.Locks.{
  Mutex, is_recursive, Act, acquire, release, Thread, same_mutex, holds, held_elsewhere, set_thread,
  act, next_act, lock_step,
}
use volt_net.Network.Locks.Order.{
  Ordered, has, count, total, IsGood, same_mutex-≡, same_mutex_refl, count-elsewhere,
  count-set_thread, total-set_thread, All-set_thread,
}

-- What an operation makes of its thread.
pub record Acted (k : ℕ) (ts : List Thread) (t t' : Thread) : Type 0 where
  pub ordered : Ordered t'.held t'.rest
  pub shorter : length t'.rest + 1 ≡ length t.rest
  pub exclusive : (m : Mutex) → (has m t' ≤ has m t) ⊎ (count m ts ≡ has m t)

acquire-Acted :
    (k : ℕ) (ts : List Thread) (t : Thread) (m : Mutex) (acts : List Act)
    → get_elem? ts k ≡ some t
    → t.rest ≡ acquire m ∷ acts
    → Ordered t.held (acquire m ∷ acts)
    → held_elsewhere m k ts ≡ false
    → Acted k ts t (record { held = m ∷ t.held; rest = acts })
acquire-Acted k ts t m acts at rest ordered alone = record {
  ordered = ordered.1;
  shorter = omega (arith, ap length rest);
  exclusive = λ m'. elim (Bool-cases (same_mutex m' m)) [
    | inl same ↦ inr (
        subst (λ x. count x ts ≡ has x t) (sym (same_mutex-≡ m' m same))
          (count-elsewhere m k ts t at alone))
    | inr other ↦ inl (ground (arith, other))
  ];
}

release-Acted :
    (k : ℕ) (ts : List Thread) (t : Thread) (m h : Mutex) (hs : List Mutex) (acts : List Act)
    → t.held ≡ h ∷ hs
    → t.rest ≡ release m ∷ acts
    → Ordered (h ∷ hs) (release m ∷ acts)
    → Acted k ts t (record { held = hs; rest = acts })
release-Acted k ts t m h hs acts held rest ordered = record {
  ordered = ordered.1;
  shorter = omega (arith, ap length rest);
  exclusive = λ m'. inl (ground (arith, held));
}

-- A thread whose next operation is possible: it is the one that the order asks for.
next_act-Acted :
    (k : ℕ) (ts : List Thread) (t : Thread) (held : List Mutex) (rest : List Act)
    → t.held ≡ held
    → t.rest ≡ rest
    → Ordered held rest
    → get_elem? ts k ≡ some t
    → (next_act k ts t rest ≡ none)
      ⊎ ((t' : Thread) × (next_act k ts t rest ≡ some t') × Acted k ts t t')
unfolding next_act act
next_act-Acted k ts t held [] eh er ordered at = inl refl
next_act-Acted k ts t held (acquire m ∷ acts) eh er ordered at =
    elim (Bool-cases (held_elsewhere m k ts)) [
      | inl taken ↦ inl (ground (arith, taken))
      | inr alone ↦ elim (Bool-cases (is_recursive m || not (holds m t.held))) [
        | inl may ↦ inr (
          _,
          rw (alone, may) refl,
          acquire-Acted k ts t m acts at er
              (subst (λ l. Ordered l (acquire m ∷ acts)) (sym eh) ordered) alone,
        )
        | inr may_not ↦ inl (rw (alone, may_not) refl)
      ]
    ]
next_act-Acted k ts t [] (release m ∷ acts) eh er ordered at = absurd (ordered tt)
next_act-Acted k ts t (h ∷ hs) (release m ∷ acts) eh er ordered at =
    let same : same_mutex h m ≡ true =
      subst (λ x. same_mutex h x ≡ true) ordered.0 (same_mutex_refl h) in
    inr (_, rw (eh, same) refl, release-Acted k ts t m h hs acts eh er ordered)

-- An operation keeps the order and the exclusion, and makes what is left one less.
pub lock_step-IsGood :
    (k : ℕ) (ts : List Thread)
    → IsGood ts
    → (lock_step k ts ≡ none)
      ⊎ ((ts' : List Thread) × (lock_step k ts ≡ some ts')
          × IsGood ts'
          × (total ts' + 1 ≡ total ts))
unfolding lock_step
lock_step-IsGood k ts v = elim (Option-cases (get_elem? ts k)) [
  | inl e ↦ inl (rw e refl)
  | inr (t, at) ↦
      elim (next_act-Acted k ts t t.held t.rest refl refl
        (All-get_elem? (λ t. Ordered t.held t.rest) ts k t at v.ordered) at) [
          | inl waits ↦ inl (rw (at, ◌>>=◌, waits) refl)
          | inr (t', eq, a) ↦ inr (
            set_thread ts k t',
            rw (at, ◌>>=◌, eq) refl,
            record {
              ordered = All-set_thread (λ t. Ordered t.held t.rest) k ts t' a.ordered v.ordered;
              exclusive = λ m. elim (a.exclusive m) [
                | inl fewer ↦ omega (arith, count-set_thread m k ts t t' at, fewer, v.exclusive m)
                | inr only ↦ ground (arith, count-set_thread m k ts t t' at, only)
              ];
            },
            omega (arith, total-set_thread k ts t t' at, a.shorter),
          )
        ]
]
