-- ===== src/Messages/Sharing/Programs.antt =====
-- A new writer for each message, and each message sent when the one before it has gone, on shared
-- vectors (msg_writer, net_con::send_msg and net_con::handle_write).
use volt_net.Common.{
  ℕ, suc, ◌<◌, ◌≡◌, refl, sym, ap, subst, ◌∙◌, length, length-map, map, flatten, All, All-append,
  List, [], ◌∷◌, ◌++◌, arith,
}
use volt_net.Defs.{Message}
use volt_net.NetCon.{Outcome}
use volt_net.NetCon.Writing.{Sending, Event, run, schedule, Covers, send_msgs, schedule_lem}
use volt_net.Messages.Sharing.{
  Store, Result, runs, throws, undefined, make_vector, write_onto, BufferWrite, SharedSending,
  SharedEvent, makes, writes, begins, sends, shared_run,
}
use volt_net.Messages.Sharing.Values.{Spares, Settled, values, view, view_all, Agree}
use volt_net.Messages.Sharing.Vectors.{written_vector}
use volt_net.Messages.Sharing.Refinement.{sharing_lem}

-- A schedule on one connection, where each write is finished before the next message is made: each
-- message gets a vector of some capacity, is written and sent, and goes off in parts of some sizes; the
-- next vector is at the address `a`.
abbrev pub sends_each : ℕ → List (ℕ × Message × List ℕ) → List SharedEvent
sends_each a [] = []
sends_each a ((capacity, bytes, ns) ∷ rest) =
    makes capacity ∷ writes a bytes ∷ begins a ∷ (map (sends 0) ns ++ sends_each (suc a) rest)

Spares-sends : (a : ℕ) (ns : List ℕ) → All (Spares a) (map (sends 0) ns)
Spares-sends a [] = tt
Spares-sends a (n ∷ ns) = (tt, Spares-sends a ns)

sends_each-Spares :
    (a b : ℕ) (ms : List (ℕ × Message × List ℕ)) → a < b → All (Spares a) (sends_each b ms)
sends_each-Spares a b [] h = tt
sends_each-Spares a b ((capacity, bytes, ns) ∷ rest) h = (
  tt,
  (
    (λ e. omega (arith, e)),
    (
      tt,
      All-append (Spares a) (map (sends 0) ns) (sends_each (suc b) rest) (Spares-sends a ns)
          (sends_each-Spares a (suc b) rest (omega arith)),
    ),
  ),
)

Settled-sends :
    (ns : List ℕ) (es : List SharedEvent) → Settled es → Settled (map (sends 0) ns ++ es)
Settled-sends [] es h = h
Settled-sends (n ∷ ns) es h = Settled-sends ns es h

sends_each-Settled : (a : ℕ) (ms : List (ℕ × Message × List ℕ)) → Settled (sends_each a ms)
sends_each-Settled a [] = tt
sends_each-Settled a ((capacity, bytes, ns) ∷ rest) = (
  All-append (Spares a) (map (sends 0) ns) (sends_each (suc a) rest) (Spares-sends a ns)
      (sends_each-Spares a (suc a) rest (omega arith)),
  Settled-sends ns (sends_each (suc a) rest) (sends_each-Settled (suc a) rest),
)

values-sends :
    (grown : ℕ → ℕ) (ns : List ℕ) (es : List SharedEvent) (store : Store)
    → values grown (map (sends 0) ns ++ es) store ≡ map (Event.sends 0) ns ++ values grown es store
unfolding values
values-sends grown [] es store = refl
values-sends grown (n ∷ ns) es store = ap (◌∷◌ (Event.sends 0 n)) (values-sends grown ns es store)

-- A message and its parts.
abbrev pub parts_of : ℕ × Message × List ℕ → Message × List ℕ
parts_of (capacity, bytes, ns) = (bytes, ns)

values-sends_each :
    (grown : ℕ → ℕ) (a : ℕ) (ms : List (ℕ × Message × List ℕ)) (store : Store)
    → length store.vectors ≡ a
    → values grown (sends_each a ms) store ≡ schedule (map parts_of ms)
unfolding values
values-sends_each grown a [] store e = refl
values-sends_each grown a ((capacity, bytes, ns) ∷ rest) store e =
    let after = write_onto grown a bytes (make_vector capacity store) in
    let (v, at, holds, longer) = written_vector grown a capacity bytes store e in
    let later =
      values-sends grown ns (sends_each (suc a) rest) after
      ∙ ap (◌++◌ (map (Event.sends 0) ns)) (values-sends_each grown (suc a) rest after longer) in
    rw (values, at, holds, later) refl

-- Where the values return, so do the shared vectors.
Agree-runs :
    (o : Result SharedSending) (u : Sending)
    → Agree o (Outcome.ok u)
    → (t : SharedSending) × (o ≡ runs t) × (view_all t ≡ u)
Agree-runs (runs t) u h = (t, refl, h)
Agree-runs (throws x c) u h = absurd (h tt)
Agree-runs undefined u h = absurd (h tt)

nothing_left : (t : SharedSending) → length (view_all t).outstanding ≡ 0 → t.outstanding ≡ []
nothing_left t e = go t.outstanding (sym (length-map t.outstanding (view t.store)) ∙ e)
  where
    go : (ws : List BufferWrite) → length ws ≡ 0 → ws ≡ []
    go [] e = refl
    go (w ∷ ws) e = absurd (omega (arith, e))

-- On one connection with no write outstanding, each message has a new writer, is not empty, and is sent
-- when the one before it has gone; the program waits for that. Then, whatever the capacities of the
-- vectors and however the messages are cut into parts, all handlers run and none throws, and the peer
-- gets what was written, one message after the other.
pub programs_lem :
    (grown : ℕ → ℕ) (ms : List (ℕ × Message × List ℕ)) (s : SharedSending)
    → s.outstanding ≡ []
    → All Covers (map parts_of ms)
    → (t : SharedSending) × (shared_run grown (sends_each (length s.store.vectors) ms) s ≡ runs t)
      × (t.con ≡ send_msgs (map (λ w. w.0) (map parts_of ms)) s.con)
      × (t.sent ≡ s.sent ++ flatten (map (λ w. w.0) (map parts_of ms)))
      × (t.outstanding ≡ [])
programs_lem grown ms s idle covered =
    let es = sends_each (length s.store.vectors) ms in
    let agree = sharing_lem grown es s (sends_each-Settled (length s.store.vectors) ms) idle in
    let value : run (values grown es s.store) (view_all s)
        ≡ run (schedule (map parts_of ms))
            (record { con = s.con; sent = s.sent; outstanding = [] }) =
      rw (idle, values-sends_each grown (length s.store.vectors) ms s.store refl) refl in
    let (t, eq, seen) = Agree-runs _ _ (
      subst (Agree (shared_run grown es s))
        (value ∙ schedule_lem (map parts_of ms) s.con s.sent covered) agree) in
    (
      t,
      eq,
      ap (λ u. u.con) seen,
      ap (λ u. u.sent) seen,
      nothing_left t (ap (λ u. length u.outstanding) seen),
    )
