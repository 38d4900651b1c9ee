-- ===== src/NetCon/Closing/Turns.antt =====
-- What holds of a connection between the steps of threads that close it (close_con of
-- volt_net/src/volt/net/net_con.cpp).
use volt_net.Common.{
  ℕ, zero, suc, ◌+◌, ◌≤◌, ◌<◌, ◌⊎◌, ◌≡◌, refl, sym, ap, ◌∙◌, if_true, true, false, Bool-cases, inl,
  inr, get_elem?, replicate, length, Option, none, some, List, [], ◌∷◌, ◌++◌, append-nil,
  append_assoc, arith,
}
use mathlib.Core.Option.{some-injective}
use native.Mathlib.Decide.{dec_lt}
use volt_net.NetCon.{NetCon, ok, ◌>>=◌}
use volt_net.NetCon.Closing.{
  Point, loads, stores, cancels, closes, calls, called, skipped, move, Closing, set_point, turn,
  turns,
}

-- A sum over the threads.
abbrev pub total : (Point → ℕ) → List Point → ℕ
total f [] = 0
total f (p ∷ ps) = f p + total f ps

abbrev pub is_called : Point → ℕ
is_called called = 1
is_called _ = 0

abbrev pub is_past : Point → ℕ
is_past cancels = 1
is_past closes = 1
is_past calls = 1
is_past called = 1
is_past _ = 0

abbrev pub is_skipped : Point → ℕ
is_skipped skipped = 1
is_skipped _ = 0

total-set_point :
    (f : Point → ℕ) (ps : List Point) (k : ℕ) (p q : Point)
    → get_elem? ps k ≡ some p
    → total f (set_point ps k q) + f p ≡ total f ps + f q
total-set_point f [] k p q e = cc
total-set_point f (x ∷ xs) zero p q e =
    let same : f x ≡ f p = ap f (some-injective x p e) in omega arith
total-set_point f (x ∷ xs) (suc k) p q e = omega (arith, total-set_point f xs k p q e)

-- Not past the test, or never to be.
abbrev pub is_out : Point → ℕ
is_out loads = 1
is_out skipped = 1
is_out _ = 0

length-set_point : (ps : List Point) (k : ℕ) (q : Point) → length (set_point ps k q) ≡ length ps
length-set_point [] k q = refl
length-set_point (x ∷ xs) zero q = refl
length-set_point (x ∷ xs) (suc k) q = ap suc (length-set_point xs k q)

-- Between the steps of `n` threads of which at most `out` are not past the test, and at least `least`
-- never will be.
pub record Invariant (c : NetCon) (n out least : ℕ) (s : Closing) : Type 0 where
  pub same_id : s.con.id ≡ c.id
  pub can_close : s.con.has_closed_callback ≡ true
  pub made : s.con.closed_calls ≡ c.closed_calls ++ replicate (total is_called s.threads) c.id
  pub while_open : s.con.con_open ≡ true → total is_past s.threads ≡ 0
  pub when_closed : s.con.con_open ≡ false → 0 < total is_past s.threads
  pub skips : 0 < total is_skipped s.threads → s.con.con_open ≡ false
  pub as_many : length s.threads ≡ n
  pub few_out : total is_out s.threads ≤ out
  pub kept : 0 < least → (s.con.con_open ≡ false) × (least ≤ total is_out s.threads)

replicate-add : (n m : ℕ) (a : ℕ) → replicate (n + m) a ≡ replicate n a ++ replicate m a
replicate-add zero m a = let same : 0 + m ≡ m = omega arith in ap (λ k. replicate k a) same
replicate-add (suc n) m a =
    let same : suc n + m ≡ suc (n + m) = omega arith in
    ap (λ k. replicate k a) same ∙ ap (◌∷◌ a) (replicate-add n m a)

-- One step of a thread, by what it does to the connection.
module _ (c : NetCon) (n out least k : ℕ) (s : Closing) (v : Invariant c n out least s) where
  moved :
      (p q : Point) (d : NetCon) (extra : ℕ)
      → get_elem? s.threads k ≡ some p
      → move p s.con ≡ ok (d, q)
      → d.id ≡ s.con.id
      → d.has_closed_callback ≡ s.con.has_closed_callback
      → d.closed_calls ≡ s.con.closed_calls ++ replicate extra s.con.id
      → is_called q ≡ is_called p + extra
      → is_past p ≤ is_past q
      → is_out q ≤ is_out p
      → (d.con_open ≡ true → (s.con.con_open ≡ true) × (is_past q ≡ is_past p))
      → (d.con_open ≡ false → (s.con.con_open ≡ false) ⊎ (is_past p < is_past q))
      → (s.con.con_open ≡ false → d.con_open ≡ false)
      → (is_skipped p < is_skipped q → d.con_open ≡ false)
      → (s.con.con_open ≡ false → is_out p ≤ is_out q)
      → (after : Closing) × (turn k s ≡ ok after) × Invariant c n out least after
  unfolding turn
  moved p q d extra at eq same_id same_handler made count mono fewer opens shuts keeps skip stays =
      let called_sum = total-set_point is_called s.threads k p q at in
      let past_sum = total-set_point is_past s.threads k p q at in
      let skipped_sum = total-set_point is_skipped s.threads k p q at in
      let out_sum = total-set_point is_out s.threads k p q at in
      let more : total is_called (set_point s.threads k q) ≡ total is_called s.threads + extra =
        omega (arith, called_sum, count) in
      (
        record { con = d; threads = set_point s.threads k q },
        rw (at, turn, ◌>>=◌, eq),
        record {
          same_id = same_id ∙ v.same_id;
          can_close = same_handler ∙ v.can_close;
          made =
              made
              ∙ ap (λ l. l ++ replicate extra s.con.id) v.made
              ∙ append_assoc c.closed_calls _ _
              ∙ ap (◌++◌ c.closed_calls) (
                  ap (λ i. replicate (total is_called s.threads) c.id ++ replicate extra i)
                    v.same_id
                  ∙ sym (replicate-add (total is_called s.threads) extra c.id)
                  ∙ ap (λ n. replicate n c.id) (sym more));
          while_open = λ e.
              (let (was, same) = opens e in
                let zero_past = v.while_open was in omega (arith, past_sum));
          when_closed = λ e. elim (shuts e) [
            | inl was ↦ let some_past = v.when_closed was in omega (arith, past_sum, mono)
            | inr grown ↦ omega (arith, past_sum)
          ];
          skips = λ h. elim (dec_lt (is_skipped p) (is_skipped q)) [
            | yes grown ↦ skip grown
            | no not_grown ↦ keeps (v.skips (omega (arith, skipped_sum)))
          ];
          as_many = length-set_point s.threads k q ∙ v.as_many;
          few_out = omega (arith, out_sum, fewer, v.few_out);
          kept = λ h.
              let (shut, low) = v.kept h in
              let same = stays shut in (keeps shut, omega (arith, out_sum, same, low));
        },
      )

  turn-Invariant : (after : Closing) × (turn k s ≡ ok after) × Invariant c n out least after
  unfolding move
  turn-Invariant = go (get_elem? s.threads k) refl
    where
      go :
          (found : Option Point)
          → get_elem? s.threads k ≡ found
          → (after : Closing) × (turn k s ≡ ok after) × Invariant c n out least after
      go none at = (s, (unfold turn in rw (at, turn)), v)
      go (some loads) at = elim (Bool-cases s.con.con_open) [
        | inl open_ ↦
            moved loads stores s.con 0 at (rw (open_, move)) refl refl (sym (append-nil _))
              (omega arith) (omega arith) (omega arith) (λ e. (e, refl)) (λ e. inl e) (λ e. e)
              (λ h. absurd (omega arith)) (λ e. cc)
        | inr shut ↦
            moved loads skipped s.con 0 at (rw (shut, move)) refl refl (sym (append-nil _))
              (omega arith) (omega arith) (omega arith) (λ e. (e, refl)) (λ e. inl e) (λ e. e)
              (λ h. shut) (λ e. omega arith)
      ]
      go (some stores) at =
          moved stores cancels (record s.con { con_open = false }) 0 at refl refl refl
            (sym (append-nil _)) (omega arith) (omega arith) (omega arith) (λ e. cc)
            (λ e. inr (omega arith)) (λ e. refl) (λ h. refl) (λ e. omega arith)
      go (some cancels) at =
          moved cancels closes s.con 0 at refl refl refl (sym (append-nil _)) (omega arith)
            (omega arith) (omega arith) (λ e. (e, refl)) (λ e. inl e) (λ e. e)
            (λ h. absurd (omega arith)) (λ e. omega arith)
      go (some closes) at =
          moved closes calls (record s.con { sock_open = false }) 0 at refl refl refl
            (sym (append-nil _)) (omega arith) (omega arith) (omega arith) (λ e. (e, refl))
            (λ e. inl e) (λ e. e) (λ h. absurd (omega arith)) (λ e. omega arith)
      go (some calls) at =
          moved calls called (record s.con { closed_calls = s.con.closed_calls ++ (s.con.id ∷ []) })
            1 at (if_true _ _ v.can_close) refl refl refl (omega arith) (omega arith) (omega arith)
            (λ e. (e, refl)) (λ e. inl e) (λ e. e) (λ h. absurd (omega arith)) (λ e. omega arith)
      go (some called) at =
          moved called called s.con 0 at refl refl refl (sym (append-nil _)) (omega arith)
            (omega arith) (omega arith) (λ e. (e, refl)) (λ e. inl e) (λ e. e)
            (λ h. absurd (omega arith)) (λ e. omega arith)
      go (some skipped) at =
          moved skipped skipped s.con 0 at refl refl refl (sym (append-nil _)) (omega arith)
            (omega arith) (omega arith) (λ e. (e, refl)) (λ e. inl e) (λ e. e)
            (λ h. absurd (omega arith)) (λ e. omega arith)

pub turns-Invariant :
    (c : NetCon) (n out least : ℕ) (ks : List ℕ) (s : Closing)
    → Invariant c n out least s
    → (after : Closing) × (turns ks s ≡ ok after) × Invariant c n out least after
unfolding turns
turns-Invariant c n out least [] s v = (s, refl, v)
turns-Invariant c n out least (k ∷ ks) s v =
    let (mid, eq, w) = turn-Invariant c n out least k s v in
    let (after, eq', w') = turns-Invariant c n out least ks mid w in (after, rw eq eq', w')
