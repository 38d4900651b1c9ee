-- ===== src/NetCon/Closing/Callers.antt =====
-- How often threads that close one connection call its handler (close_con of volt_net/src/volt/net/
-- net_con.cpp).
use volt_net.Common.{
  ℕ, zero, suc, ◌+◌, ◌<◌, ◌≡◌, refl, sym, ap, ◌∙◌, if◌then◌else◌, true, false, Bool-cases, inl, inr,
  replicate, length, length-replicate, All, List, [], ◌∷◌, ◌++◌, append-nil, arith,
}
use native.Mathlib.Decide.{dec_lt}
use volt_net.NetCon.{NetCon, ok}
use volt_net.NetCon.Closing.{
  Point, loads, stores, cancels, closes, calls, called, skipped, move, Closing, turn, turns,
}
use volt_net.NetCon.Closing.Turns.{
  total, is_called, is_past, is_skipped, is_out, Invariant, turns-Invariant,
}

-- A thread that is back from close_con.
abbrev pub Returned : Point → Type 0
Returned p = is_called p + is_skipped p ≡ 1

Returned-is_past : (p : Point) → Returned p → (is_past p ≡ is_called p) × (is_skipped p ≡ is_out p)
Returned-is_past loads h = absurd (omega arith)
Returned-is_past stores h = absurd (omega arith)
Returned-is_past cancels h = absurd (omega arith)
Returned-is_past closes h = absurd (omega arith)
Returned-is_past calls h = absurd (omega arith)
Returned-is_past called h = omega arith
Returned-is_past skipped h = omega arith

total-Returned :
    (ps : List Point)
    → All Returned ps
    → (total is_past ps ≡ total is_called ps)
      × (total is_called ps + total is_skipped ps ≡ length ps)
      × (total is_skipped ps ≡ total is_out ps)
total-Returned [] h = omega arith
total-Returned (p ∷ ps) h =
    let one : is_called p + is_skipped p ≡ 1 = h.0 in
    omega (arith, total-Returned ps h.1, Returned-is_past p h.0)

total-replicate : (f : Point → ℕ) (n : ℕ) (p : Point) → f p ≡ 0 → total f (replicate n p) ≡ 0
total-replicate f zero p e = refl
total-replicate f (suc n) p e = omega (arith, total-replicate f n p e)

-- Before any thread has done anything.
pub start-Invariant :
    (c : NetCon) (n : ℕ)
    → c.con_open ≡ true
    → c.has_closed_callback ≡ true
    → Invariant c n
        (total is_out (replicate n loads))
        0
        (record { con = c; threads = replicate n loads })
start-Invariant c n open_ handler = record {
  same_id = refl;
  can_close = handler;
  made =
      sym (append-nil c.closed_calls)
      ∙ ap (λ m. c.closed_calls ++ replicate m c.id) (sym (total-replicate is_called n loads refl));
  while_open = λ e. total-replicate is_past n loads refl;
  when_closed = λ e. cc;
  skips = λ h. absurd (omega (arith, total-replicate is_skipped n loads refl));
  as_many = length-replicate n loads;
  few_out = omega arith;
  kept = λ h. absurd (omega arith);
}

-- From a state on: where the connection is closed there, the threads that are not past the test stay
-- there.
later-Invariant :
    (c : NetCon) (n out : ℕ) (s : Closing)
    → Invariant c n out 0 s
    → Invariant c n
        (total is_out s.threads)
        (if s.con.con_open then 0 else total is_out s.threads)
        s
later-Invariant c n out s v = record {
  same_id = v.same_id;
  can_close = v.can_close;
  made = v.made;
  while_open = v.while_open;
  when_closed = v.when_closed;
  skips = v.skips;
  as_many = v.as_many;
  few_out = omega arith;
  kept = elim (Bool-cases s.con.con_open) [
    | inl still ↦ λ h.
        let none_kept : (if s.con.con_open then 0 else total is_out s.threads) ≡ 0 = rw still in
        absurd (omega arith)
    | inr shut ↦ λ h.
        let all_kept : (if s.con.con_open then 0 else total is_out s.threads)
            ≡ total is_out s.threads =
          rw shut in
        (shut, omega arith)
  ];
}

-- Any number of threads that call close_con on an open connection with a handler, in any interleaving,
-- looked at in two states: nothing is thrown, and the handler has been called once for each thread
-- that made its call. When all are back in the second state the connection is closed, and if there was
-- any thread the handler has been called. If moreover the connection was already closed in the first
-- state, the calls are exactly as many as the threads that were past the test of `con_open` there: no
-- thread that looks at it later calls the handler.
pub closers_lem :
    (c : NetCon) (n : ℕ) (ks more : List ℕ)
    → c.con_open ≡ true
    → c.has_closed_callback ≡ true
    → (mid after : Closing) × (turns ks (record { con = c; threads = replicate n loads }) ≡ ok mid)
      × (turns more mid ≡ ok after)
      × (after.con.closed_calls ≡ c.closed_calls ++ replicate (total is_called after.threads) c.id)
      × (0 < n
          → All Returned after.threads
          → (after.con.con_open ≡ false) × (0 < total is_called after.threads))
      × (mid.con.con_open ≡ false
          → All Returned after.threads
          → total is_called after.threads + total is_out mid.threads ≡ n)
closers_lem c n ks more open_ handler =
    let (mid, eq, m) = turns-Invariant c n _ 0 ks _ (start-Invariant c n open_ handler) in
    let (after, eq', v) = turns-Invariant c n _ _ more mid (later-Invariant c n _ mid m) in
    (
      mid,
      after,
      eq,
      eq',
      v.made,
      λ some_thread back.
          (let sums = total-Returned after.threads back in
            elim (Bool-cases after.con.con_open) [
              | inl still ↦
                  let none_past = v.while_open still in
                  let shut = v.skips (omega (arith, v.as_many, sums)) in cc
              | inr shut ↦ let some_past = v.when_closed shut in (shut, omega (arith, sums))
            ]),
      λ shut back.
          let sums = total-Returned after.threads back in
          let least : (if mid.con.con_open then 0 else total is_out mid.threads)
              ≡ total is_out mid.threads =
            rw shut in
          elim (dec_lt 0 (total is_out mid.threads)) [
            | yes some_out ↦
                let kept = v.kept (omega arith) in omega (arith, sums, kept, v.as_many, v.few_out)
            | no none_out ↦ omega (arith, sums, v.as_many, v.few_out)
          ],
    )

-- Two threads that call close_con on an open connection with a handler: if both look at `con_open` before
-- one of them writes it, then however they go on, when both are back the handler has been called
-- twice.
pub close_race :
    (c : NetCon) (ks : List ℕ)
    → c.con_open ≡ true
    → c.has_closed_callback ≡ true
    → (after : Closing) × (turns (0 ∷ 1 ∷ ks) (record { con = c; threads = loads ∷ loads ∷ [] })
        ≡ ok after)
      × (All Returned after.threads → after.con.closed_calls ≡ c.closed_calls ++ (c.id ∷ c.id ∷ []))
unfolding turns turn move
close_race c ks open_ handler =
    let two : Closing = record { con = c; threads = stores ∷ stores ∷ [] } in
    let v : Invariant c 2 0 0 two = record {
      same_id = refl;
      can_close = handler;
      made = sym (append-nil c.closed_calls);
      while_open = λ e. refl;
      when_closed = λ e. cc;
      skips = λ h. absurd (omega arith);
      as_many = refl;
      few_out = omega arith;
      kept = λ h. absurd (omega arith);
    } in
    let (after, eq, w) = turns-Invariant c 2 0 0 ks two v in
    (
      after,
      ap
            (λ b. turns ks (record {
              con = c;
              threads = (if b then stores else skipped) ∷ (if b then stores else skipped) ∷ [];
            }))
            open_
          ∙ eq,
      λ back.
          let sums = total-Returned after.threads back in
          let twice : total is_called after.threads ≡ 2 =
            omega (arith, sums, w.as_many, w.few_out) in
          w.made ∙ ap (λ m. c.closed_calls ++ replicate m c.id) twice,
    )
