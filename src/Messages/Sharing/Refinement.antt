-- ===== src/Messages/Sharing/Refinement.antt =====
-- The shared vectors behind the messages of volt_net/src/volt/net/net_con.cpp and the messages as values.
use volt_net.Common.{
  ℕ, ◌≡◌, refl, sym, ap, subst, ◌∙◌, Option-cases, inl, inr, length, drop, get_elem?,
  get_elem?-append, map, All, All-append, some, List, [], ◌∷◌, ◌++◌, arith,
}
use mathlib.Core.List.{map-append}
use volt_net.NetCon.{send_msg}
use volt_net.NetCon.Writing
use volt_net.NetCon.Writing.{Event, run}
use volt_net.Messages.Sharing.{
  MsgVector, Store, make_vector, write_onto, BufferWrite, SharedSending, SharedEvent, makes, writes,
  begins, sends, fails, send_shared, shared_step, shared_run,
}
use volt_net.Messages.Sharing.Values.{
  content_of, view, view_all, Settled, values, Agree, Keeps, Safe, get_elem?-set_vector, view-Keeps,
  Safe-Keeps,
}
use volt_net.Messages.Sharing.Outstanding.{Agree-bind}
use volt_net.Messages.Sharing.Steps.{StillSafe, sends_agrees, fails_agrees}

Safe-tail :
    (e : SharedEvent) (es : List SharedEvent) (store : Store) (ws : List BufferWrite)
    → All (Safe (e ∷ es) store) ws
    → All (Safe es store) ws
Safe-tail e es store [] h = tt
Safe-tail e es store (w ∷ ws) h = ((h.0.0, h.0.1.1), Safe-tail e es store ws h.1)

-- A store may change where no outstanding write has its vector.
store_agrees :
    (grown : ℕ → ℕ) (es : List SharedEvent) (s : SharedSending) (store : Store)
    → All (Keeps s.store store) s.outstanding
    → Agree
        (shared_run grown es (record s { store = store }))
        (run (values grown es store) (view_all (record s { store = store })))
    → Agree
        (shared_run grown es (record s { store = store }))
        (run (values grown es store) (view_all s))
store_agrees grown es s store keeps h =
    subst
      (λ ws.
        Agree (shared_run grown es (record s { store = store }))
          (run (values grown es store) (record { con = s.con; sent = s.sent; outstanding = ws })))
      (view-Keeps es s.store store s.outstanding keeps) h

makes-Keeps :
    (es : List SharedEvent) (capacity : ℕ) (store : Store) (ws : List BufferWrite)
    → All (Safe es store) ws
    → All (Keeps store (make_vector capacity store)) ws
unfolding make_vector
makes-Keeps es capacity store [] safe = tt
makes-Keeps es capacity store (w ∷ ws) safe =
    let ((v, at, same, size, few), quiet) = safe.0 in
    (
      get_elem?-append store.vectors _ w.pointer v at ∙ sym at,
      makes-Keeps es capacity store ws safe.1,
    )

writes-Keeps :
    (grown : ℕ → ℕ) (a : ℕ) (bytes : List ℕ) (es : List SharedEvent) (store : Store)
    (ws : List BufferWrite)
    → All (Safe (writes a bytes ∷ es) store) ws
    → All (Keeps store (write_onto grown a bytes store)) ws
unfolding write_onto
writes-Keeps grown a bytes es store [] safe = tt
writes-Keeps grown a bytes es store (w ∷ ws) safe = (
  elim (Option-cases (get_elem? store.vectors a)) [
    | inl e ↦ rw (write_onto, e) refl
    | inr (v, e) ↦ rw (write_onto, e) (get_elem?-set_vector store.vectors a w.pointer _ safe.0.1.0)
  ],
  writes-Keeps grown a bytes es store ws safe.1,
)

-- The rest of a run, after a step that leaves the vectors as they are.
still_agrees :
    (grown : ℕ → ℕ) (es : List SharedEvent) (store : Store)
    → ((t : SharedSending)
        → Settled es
        → All (Safe es t.store) t.outstanding
        → Agree (shared_run grown es t) (run (values grown es t.store) (view_all t)))
    → Settled es
    → (t : SharedSending) → StillSafe es store t
    → Agree (shared_run grown es t) (run (values grown es store) (view_all t))
still_agrees grown es store later settled t p =
    subst (λ st. Agree (shared_run grown es t) (run (values grown es st) (view_all t))) p.0
      (later t settled (subst (λ st. All (Safe es st) t.outstanding) (sym p.0) p.1))

-- The writes that are outstanding when one more has been begun.
begun_view :
    (s : SharedSending) (w : BufferWrite) (v : MsgVector)
    → get_elem? s.store.vectors w.pointer ≡ some v
    → w.sent ≡ 0
    → map (view s.store) (s.outstanding ++ (w ∷ []))
      ≡ map (view s.store) s.outstanding ++ (record { msg = v.content; left = v.content } ∷ [])
begun_view s w v at none_sent =
    map-append (view s.store) s.outstanding (w ∷ [])
    ∙ ap
        (λ o.
          map (view s.store) s.outstanding
          ++ (record { msg = content_of o; left = drop w.sent (content_of o) } ∷ []))
        at
    ∙ ap
        (λ n.
          map (view s.store) s.outstanding
          ++ (record { msg = v.content; left = drop n v.content } ∷ []))
        none_sent

sharing_from :
    (grown : ℕ → ℕ) (es : List SharedEvent) (s : SharedSending)
    → Settled es
    → All (Safe es s.store) s.outstanding
    → Agree (shared_run grown es s) (run (values grown es s.store) (view_all s))
unfolding shared_run values run shared_step send_shared Writing.step
sharing_from grown [] s settled safe = refl
sharing_from grown (makes capacity ∷ es) s settled safe =
    let store = make_vector capacity s.store in
    let keeps = makes-Keeps (makes capacity ∷ es) capacity s.store s.outstanding safe in
    store_agrees grown es s store keeps (
      sharing_from grown es (record s { store = store }) settled
        (Safe-Keeps es s.store store s.outstanding keeps
          (Safe-tail (makes capacity) es s.store s.outstanding safe)))
sharing_from grown (writes a bytes ∷ es) s settled safe =
    let store = write_onto grown a bytes s.store in
    let keeps = writes-Keeps grown a bytes es s.store s.outstanding safe in
    store_agrees grown es s store keeps (
      sharing_from grown es (record s { store = store }) settled
        (Safe-Keeps es s.store store s.outstanding keeps
          (Safe-tail (writes a bytes) es s.store s.outstanding safe)))
sharing_from grown (begins a ∷ es) s settled safe =
    elim (Option-cases (get_elem? s.store.vectors a)) [
      | inl e ↦
          rw (values, send_shared, e)
            (sharing_from grown es s settled.1 (Safe-tail (begins a) es s.store s.outstanding safe))
      | inr (v, e) ↦
          let new : BufferWrite = record {
            pointer = a;
            storage = v.storage;
            size = length v.content;
            sent = 0;
          } in
          let begun : SharedSending = record s {
            con = send_msg v.content s.con;
            outstanding = s.outstanding ++ (new ∷ []);
          } in
          rw (values, send_shared, e)
            (subst
              (λ ws. Agree (shared_run grown es begun) (
                run (values grown es s.store)
                  (record { con = begun.con; sent = s.sent; outstanding = ws })))
              (begun_view s new v e refl)
              (sharing_from grown es begun settled.1 (
                All-append (Safe es s.store) s.outstanding (new ∷ [])
                  (Safe-tail (begins a) es s.store s.outstanding safe)
                  (((v, e, refl, refl, omega arith), settled.0), tt))))
    ]
sharing_from grown (sends i n ∷ es) s settled safe =
    Agree-bind (StillSafe es s.store) (shared_step grown (sends i n) s)
      (Writing.step (Event.sends i n) (view_all s)) (shared_run grown es)
      (run (values grown es s.store))
      (sends_agrees es grown i n s (Safe-tail (sends i n) es s.store s.outstanding safe))
      (still_agrees grown es s.store (sharing_from grown es) settled)
sharing_from grown (fails i err ∷ es) s settled safe =
    Agree-bind (StillSafe es s.store) (shared_step grown (fails i err) s)
      (Writing.step (Event.fails i err) (view_all s)) (shared_run grown es)
      (run (values grown es s.store))
      (fails_agrees es grown i err s (Safe-tail (fails i err) es s.store s.outstanding safe))
      (still_agrees grown es s.store (sharing_from grown es) settled)

-- A connection with no write outstanding, and vectors, writers and connection that are used in any
-- order, so that nothing is written to a message after it was sent: whatever the capacities of the
-- vectors are, no buffer is read after its storage is gone, and the connection does, sends and throws
-- just what it does when each message is the bytes that it held when it was sent.
pub sharing_lem :
    (grown : ℕ → ℕ) (es : List SharedEvent) (s : SharedSending)
    → Settled es
    → s.outstanding ≡ []
    → Agree (shared_run grown es s) (run (values grown es s.store) (view_all s))
sharing_lem grown es s settled idle = sharing_from grown es s settled (rw idle tt)
