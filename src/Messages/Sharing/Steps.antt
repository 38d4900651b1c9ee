-- ===== src/Messages/Sharing/Steps.antt =====
-- One step of the writes of a connection (volt_net/src/volt/net/net_con.cpp), on shared vectors and on
-- values.
use volt_net.Common.{
  ℕ, ◌+◌, ◌-◌, ◌≤◌, ◌==◌, ◌≡◌, refl, sym, ap, ◌∙◌, leb, ltb, if◌then◌else◌, not, Bool-cases,
  Option-cases, false, inl, inr, length, length-drop, take, take_all, drop, drop-drop, get_elem?,
  get_elem?-map, map, All, All-get_elem?, none, some, List, [], ◌++◌, arith,
}
use volt_net.NetCon.{Outcome, ErrorCode, success, handle_write}
use volt_net.NetCon.Writing
use volt_net.NetCon.Writing.{Write, Event, set_left, finish}
use volt_net.Messages.Sharing.{
  MsgVector, Store, Result, runs, BufferWrite, SharedSending, SharedEvent, sends, fails,
  finish_shared, send_part, on_write, shared_step,
}
use mathlib.Core.Option
use volt_net.Messages.Sharing.Values.{content_of, view, view_all, Safe}
use volt_net.Messages.Sharing.Outstanding.{
  erase_idx-map, All-erase_idx, set_sent-map, All-set_sent, AgreeWith,
}

module _ (es : List SharedEvent) where
  -- After a step that leaves the vectors as they are.
  abbrev pub StillSafe : Store → SharedSending → Type 0
  StillSafe store s = (s.store ≡ store) × All (Safe es store) s.outstanding

  pub finish_agrees :
      (err : ErrorCode) (i n : ℕ) (v : MsgVector) (w : Write) (s : SharedSending)
      → w.msg ≡ v.content
      → length v.content - length w.left ≡ n
      → All (Safe es s.store) s.outstanding
      → AgreeWith (StillSafe s.store) (finish_shared err i n v s) (finish err i w (view_all s))
  unfolding finish_shared finish handle_write
  finish_agrees err i n v w s same sent safe = elim (Bool-cases (ltb n (length v.content))) [
    | inl short ↦ rw (same, sent, finish_shared, short) (refl, refl)
    | inr full ↦
        rw (same, sent, finish_shared, full)
          (
            ap (λ ws. record { con = s.con; sent = s.sent; outstanding = ws })
                (erase_idx-map s.store s.outstanding i),
            (refl, All-erase_idx (Safe es s.store) s.outstanding i safe),
          )
  ]

  pub part_agrees :
      (i n : ℕ) (w : BufferWrite) (v : MsgVector) (s : SharedSending)
      → get_elem? s.outstanding i ≡ some w
      → get_elem? s.store.vectors w.pointer ≡ some v
      → v.storage ≡ w.storage
      → length v.content ≡ w.size
      → w.sent ≤ w.size
      → All (Safe es s.store) s.outstanding
      → AgreeWith (StillSafe s.store) (send_part i n w v s) (
          let left = drop w.sent v.content in
          let s' = record (view_all s) { sent = s.sent ++ take n left } in
          if leb (length left) n
          then finish success i (record { msg = v.content; left = [] }) s'
          else Outcome.ok (record s' { outstanding = set_left s'.outstanding i (drop n left) }))
  unfolding send_part
  part_agrees i n w v s e at same size few safe =
      let there : not (v.storage == w.storage) ≡ false = ground (arith, same) in
      let whole : take w.size v.content ≡ v.content = take_all w.size v.content size in
      let some_left : length (drop w.sent v.content) ≡ w.size - w.sent =
        omega (arith, length-drop w.sent v.content) in
      let s' = record s { sent = s.sent ++ take n (drop w.sent v.content) } in
      elim (Bool-cases (leb (w.size - w.sent) n)) [
        | inl last ↦
            rw (send_part, there, whole, some_left, last)
              (finish_agrees success i w.size v (record { msg = v.content; left = [] }) s' refl
                (omega arith) safe)
        | inr more ↦
            let not_all : w.sent + n ≤ w.size = ground (arith, more) in
            let new : Safe es s.store (record w { sent = w.sent + n }) = (
              (v, at, same, size, not_all),
              (All-get_elem? (Safe es s.store) s.outstanding i w e safe).1,
            ) in
            rw (send_part, there, whole, some_left, more)
              (
                ap (λ ws. record { con = s.con; sent = s'.sent; outstanding = ws })
                    (set_sent-map s.store s.outstanding i (w.sent + n) w v e at
                      ∙ ap (set_left (map (view s.store) s.outstanding) i)
                          (sym (drop-drop w.sent n v.content))),
                (refl, All-set_sent (Safe es s.store) s.outstanding i (w.sent + n) w e new safe),
              )
      ]

module _ (es : List SharedEvent) where
  -- Where the write at a place is, in both views.
  found_view :
      (i : ℕ) (w : BufferWrite) (v : MsgVector) (s : SharedSending)
      → get_elem? s.outstanding i ≡ some w
      → get_elem? s.store.vectors w.pointer ≡ some v
      → get_elem? (view_all s).outstanding i
        ≡ some (record { msg = v.content; left = drop w.sent v.content })
  found_view i w v s e at =
      get_elem?-map (view s.store) s.outstanding i
      ∙ ap (Option.map (view s.store)) e
      ∙ ap (λ o. some (record { msg = content_of o; left = drop w.sent (content_of o) })) at

  -- One step of either view, where there is no such write and where there is one.
  no_write :
      (action : BufferWrite → MsgVector → Result SharedSending) (i : ℕ) (s : SharedSending)
      → get_elem? s.outstanding i ≡ none
      → on_write i action s ≡ runs s
  no_write action i s e = rw (e, on_write) refl

  on_write_lem :
      (action : BufferWrite → MsgVector → Result SharedSending) (i : ℕ) (w : BufferWrite)
      (v : MsgVector) (s : SharedSending)
      → get_elem? s.outstanding i ≡ some w
      → get_elem? s.store.vectors w.pointer ≡ some v
      → on_write i action s ≡ action w v
  on_write_lem action i w v s e at = rw (e, at, on_write) refl

  no_view :
      (i : ℕ) (s : SharedSending)
      → get_elem? s.outstanding i ≡ none
      → get_elem? (view_all s).outstanding i ≡ none
  no_view i s e = get_elem?-map (view s.store) s.outstanding i ∙ ap (Option.map (view s.store)) e

  pub sends_agrees :
      (grown : ℕ → ℕ) (i n : ℕ) (s : SharedSending)
      → All (Safe es s.store) s.outstanding
      → AgreeWith
          (StillSafe es s.store)
          (shared_step grown (sends i n) s)
          (Writing.step (Event.sends i n) (view_all s))
  sends_agrees grown i n s safe = elim (Option-cases (get_elem? s.outstanding i)) [
    | inl e ↦
        let shared : shared_step grown (sends i n) s ≡ runs s =
          unfold shared_step in no_write (λ w v. send_part i n w v s) i s e in
        let value : Writing.step (Event.sends i n) (view_all s) ≡ Outcome.ok (view_all s) =
          unfold Writing.step in rw (no_view i s e, Writing.step) refl in
        rw (shared, value) (refl, (refl, safe))
    | inr (w, e) ↦
        let ((v, at, same, size, few), quiet) =
          All-get_elem? (Safe es s.store) s.outstanding i w e safe in
        let shared : shared_step grown (sends i n) s ≡ send_part i n w v s =
          unfold shared_step in on_write_lem (λ w v. send_part i n w v s) i w v s e at in
        let left = drop w.sent v.content in
        let s' = record (view_all s) { sent = s.sent ++ take n left } in
        let value : Writing.step (Event.sends i n) (view_all s) ≡ (
            if leb (length left) n
            then finish success i (record { msg = v.content; left = [] }) s'
            else Outcome.ok (record s' { outstanding = set_left s'.outstanding i (drop n left) })) =
          unfold Writing.step in rw (Writing.step, found_view i w v s e at) refl in
        rw (shared, value) (part_agrees es i n w v s e at same size few safe)
  ]

  pub fails_agrees :
      (grown : ℕ → ℕ) (i : ℕ) (err : ErrorCode) (s : SharedSending)
      → All (Safe es s.store) s.outstanding
      → AgreeWith
          (StillSafe es s.store)
          (shared_step grown (fails i err) s)
          (Writing.step (Event.fails i err) (view_all s))
  fails_agrees grown i err s safe = elim (Option-cases (get_elem? s.outstanding i)) [
    | inl e ↦
        let shared : shared_step grown (fails i err) s ≡ runs s =
          unfold shared_step in no_write (λ w v. finish_shared err i w.sent v s) i s e in
        let value : Writing.step (Event.fails i err) (view_all s) ≡ Outcome.ok (view_all s) =
          unfold Writing.step in rw (no_view i s e, Writing.step) refl in
        rw (shared, value) (refl, (refl, safe))
    | inr (w, e) ↦
        let ((v, at, same, size, few), quiet) =
          All-get_elem? (Safe es s.store) s.outstanding i w e safe in
        let shared : shared_step grown (fails i err) s ≡ finish_shared err i w.sent v s =
          unfold shared_step in on_write_lem (λ w v. finish_shared err i w.sent v s) i w v s e at in
        let write : Write = record { msg = v.content; left = drop w.sent v.content } in
        let value : Writing.step (Event.fails i err) (view_all s)
            ≡ finish err i write (view_all s) =
          unfold Writing.step in rw (Writing.step, found_view i w v s e at) refl in
        rw (shared, value)
          (finish_agrees es err i w.sent v write s refl
            (omega (arith, length-drop w.sent v.content, size, few)) safe)
  ]
