-- ===== src/Network/Owners/Destruction.antt =====
-- How the destructor of a network ends (volt_net/src/volt/net/network.cpp).
use volt_net.Common.{
  ℕ, ◌==◌, ◌≡◌, ◌≢◌, refl, sym, ap, subst, ◌∙◌, ◌⊎◌, inl, inr, if_false, Bool-cases, true, false,
  ◌||◌, not, none, some, List, [], ◌∷◌, ◌++◌, All, arith, ==_iff,
}
use volt_net.MsgRecPool.{is_empty}
use volt_net.Network.Owners.{
  main_thread, pool_thread, Ending, joined, terminated, is_thread, join_all, Owners, Event, locks,
  releases, drops, holds, without, drop_last, step, run, start, Before, OnPool,
}

is_empty-nil : (ts : List ℕ) → is_empty ts ≡ true → ts ≡ []
is_empty-nil [] e = refl
is_empty-nil (t ∷ ts) e = cc

join_all-main : (pool : List ℕ) → join_all main_thread pool ≡ joined
unfolding join_all is_thread
join_all-main [] = refl
join_all-main (t ∷ ts) = join_all-main ts

join_all_own :
    (t : ℕ) (pool : List ℕ) → holds t pool ≡ true → join_all (pool_thread t) pool ≡ terminated
unfolding join_all is_thread holds
join_all_own t [] h = cc
join_all_own t (s ∷ ss) h = ground (arith, join_all_own t ss)

abbrev InPool : List ℕ → List ℕ → Type 0
InPool pool ts = All (λ t. holds t pool ≡ true) ts

without-InPool : (pool : List ℕ) (t : ℕ) (ts : List ℕ) → InPool pool ts → InPool pool (without t ts)
unfolding without
without-InPool pool t [] all = tt
without-InPool pool t (s ∷ ss) all = elim (Bool-cases (s == t)) [
  | inl hit ↦ rw hit all.1
  | inr miss ↦ rw miss (all.0, without-InPool pool t ss all.1)
]

holds-InPool :
    (pool : List ℕ) (t : ℕ) (ts : List ℕ) → holds t ts ≡ true → InPool pool ts → holds t pool ≡ true
unfolding holds
holds-InPool pool t [] h all = cc
holds-InPool pool t (s ∷ ss) h all = elim (Bool-cases (s == t)) [
  | inl hit ↦ subst (λ k. holds k pool ≡ true) ((==_iff s t).0 hit) all.0
  | inr miss ↦ holds-InPool pool t ss (ground (arith, miss, h)) all.1
]

run-append : (es fs : List Event) (o : Owners) → run (es ++ fs) o ≡ run fs (run es o)
unfolding run
run-append [] fs o = refl
run-append (e ∷ es) fs o = run-append es fs (step e o)

-- While the program holds the network.
record Held (pool : List ℕ) (o : Owners) : Type 0 where
  same_pool : o.thr_pool ≡ pool
  main : o.main_holds ≡ true
  on_pool : InPool pool o.holders
  alive : o.ended ≡ none

step-Held :
    (pool : List ℕ) (e : Event) (o : Owners) → Before pool e → Held pool o → Held pool (step e o)
unfolding step drop_last
step-Held pool (locks t) o b h = record {
  same_pool = ground (arith, h.same_pool);
  main = ground (arith, h.main);
  on_pool = rw (h.main) (b, h.on_pool);
  alive = ground (arith, h.alive, h.main);
}
step-Held pool (releases t) o b h = elim (Bool-cases (holds t o.holders)) [
  | inl there ↦
      rw (there, h.main)
        (record {
          same_pool = h.same_pool;
          main = refl;
          on_pool = without-InPool pool t o.holders h.on_pool;
          alive = h.alive;
        })
  | inr absent ↦ rw absent h
]
step-Held pool drops o b h = absurd b

run-Held :
    (pool : List ℕ) (es : List Event) (o : Owners)
    → All (Before pool) es
    → Held pool o
    → Held pool (run es o)
unfolding run
run-Held pool [] o b h = h
run-Held pool (e ∷ es) o b h = run-Held pool es (step e o) b.1 (step-Held pool e o b.0 h)

-- Nobody holds the network, and its destructor has run.
record Gone (o : Owners) (ending : Ending) : Type 0 where
  main : o.main_holds ≡ false
  nobody : o.holders ≡ []
  over : o.ended ≡ some ending

nobody_holds :
    (o : Owners) (ending : Ending)
    → Gone o ending
    → (o.main_holds || not (is_empty o.holders)) ≡ false
nobody_holds o ending g =
    ap (λ b. b || not (is_empty o.holders)) g.main ∙ ap (λ hs. not (is_empty hs)) g.nobody

step-Gone : (e : Event) (o : Owners) (ending : Ending) → Gone o ending → step e o ≡ o
unfolding step
step-Gone (locks t) o ending g = if_false _ _ (nobody_holds o ending g)
step-Gone (releases t) o ending g = if_false _ _ (ap (holds t) g.nobody ∙ (unfold holds in refl))
step-Gone drops o ending g = if_false _ _ g.main

run-Gone : (es : List Event) (o : Owners) (ending : Ending) → Gone o ending → run es o ≡ o
unfolding run
run-Gone [] o ending g = refl
run-Gone (e ∷ es) o ending g = rw (step-Gone e o ending g) (run-Gone es o ending g)

-- The program has dropped the network while handlers hold it.
record Left (pool : List ℕ) (o : Owners) : Type 0 where
  same_pool : o.thr_pool ≡ pool
  main : o.main_holds ≡ false
  on_pool : InPool pool o.holders
  alive : o.ended ≡ none
  someone : is_empty o.holders ≡ false

-- An event then leaves it so, or is the end of the program.
step-Left :
    (pool : List ℕ) (e : Event) (o : Owners)
    → OnPool pool e
    → Left pool o
    → Left pool (step e o) ⊎ Gone (step e o) terminated
unfolding step drop_last
step-Left pool (locks t) o b l = inl (record {
  same_pool = ground (arith, l.same_pool);
  main = ground (arith, l.main);
  on_pool = rw (l.main, l.someone) (b, l.on_pool);
  alive = ground (arith, l.alive);
  someone = ground (arith, l.someone, l.main);
})
step-Left pool (releases t) o b l = elim (Bool-cases (holds t o.holders)) [
  | inl there ↦ elim (Bool-cases (is_empty (without t o.holders))) [
    | inl last ↦ inr (
        rw (there, l.main, last)
          (record {
            main = refl;
            nobody = is_empty-nil _ last;
            over = ap some (
                ap (join_all (pool_thread t)) l.same_pool
                ∙ join_all_own t pool (holds-InPool pool t o.holders there l.on_pool));
          }))
    | inr others ↦ inl (
        rw (there, l.main, others)
          (record {
            same_pool = l.same_pool;
            main = refl;
            on_pool = without-InPool pool t o.holders l.on_pool;
            alive = l.alive;
            someone = others;
          }))
  ]
  | inr absent ↦ inl (rw absent l)
]
step-Left pool drops o b l = inl (subst (Left pool) (sym (if_false _ _ l.main)) l)

run-Left :
    (pool : List ℕ) (es : List Event) (o : Owners)
    → All (OnPool pool) es
    → Left pool o
    → Left pool (run es o) ⊎ Gone (run es o) terminated
unfolding run
run-Left pool [] o b l = inl l
run-Left pool (e ∷ es) o b l = elim (step-Left pool e o b.0 l) [
  | inl l' ↦ run-Left pool es (step e o) b.1 l'
  | inr g ↦ inr (subst (λ p. Gone p terminated) (sym (run-Gone es (step e o) terminated g)) g)
]

-- The program drops the network.
drop-Held :
    (pool : List ℕ) (o : Owners)
    → Held pool o
    → ((o.holders ≡ []) × Gone (step drops o) joined)
      ⊎ ((o.holders ≢ []) × Left pool (step drops o))
unfolding step drop_last
drop-Held pool o h = elim (Bool-cases (is_empty o.holders)) [
  | inl nobody ↦ inl (
    is_empty-nil o.holders nobody,
    rw (h.main, nobody)
        (record {
          main = refl;
          nobody = is_empty-nil o.holders nobody;
          over = ap some (join_all-main o.thr_pool);
        }),
  )
  | inr someone ↦ inr (
    (λ e. cc (sym someone ∙ ap is_empty e)),
    rw (h.main, someone)
        (record {
          same_pool = h.same_pool;
          main = refl;
          on_pool = h.on_pool;
          alive = h.alive;
          someone = someone;
        }),
  )
]

-- A program that keeps its network while handlers on the threads of the pool lock and release it, and
-- then drops it: if no handler holds the network at that moment, the destructor joins all threads;
-- if one does, then, whatever follows, the destructor has not run as long as a handler holds the
-- network, and when none does any more, it has terminated the program, since the last handler's
-- thread ran it and joined itself.
pub destruction :
    (pool : List ℕ) (before after : List Event)
    → All (Before pool) before
    → All (OnPool pool) after
    → let held = (run before (start pool)).holders in
      let final = run (before ++ (drops ∷ after)) (start pool) in
      ((held ≡ []) × (final.ended ≡ some joined))
      ⊎ ((held ≢ [])
          × (((final.holders ≢ []) × (final.ended ≡ none))
              ⊎ ((final.holders ≡ []) × (final.ended ≡ some terminated))))
unfolding run
destruction pool before after b a =
    let o = run before (start pool) in
    let h =
      run-Held pool before (start pool) b
        (record { same_pool = refl; main = refl; on_pool = tt; alive = refl }) in
    rw (run-append before (drops ∷ after) (start pool)) (elim (drop-Held pool o h) [
      | inl (nobody, g) ↦
          inl
            (nobody, ap (λ (p : Owners). p.ended) (run-Gone after (step drops o) joined g) ∙ g.over)
      | inr (someone, l) ↦ inr (
        someone,
        elim (run-Left pool after (step drops o) a l) [
          | inl l' ↦ inl ((λ e. cc (sym l'.someone ∙ ap is_empty e)), l'.alive)
          | inr g ↦ inr (g.nobody, g.over)
        ],
      )
    ])
