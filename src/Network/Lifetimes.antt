-- ===== src/Network/Lifetimes.antt =====
-- Handlers and the connections that they are bound to: net_con::schedule_read_handler binds `this`, and
-- network::add_connection lets the closed callback destroy a connection (volt_net/src/volt/net/net_con.cpp,
-- network.cpp). Boost.Asio documents that the handler of a cancelled read is still called.
pub mod Orphans
use volt_net.Common.{
  ℕ, zero, suc, ◌+◌, ◌<◌, ◌==◌, ◌≡◌, ◌≢◌, refl, sym, ap, subst, ◌∙◌, if◌then◌else◌, if_true,
  if_false, length, Bool-cases, inl, inr, true, false, get_elem?, none, some, Option, List, [], ◌∷◌,
  All, All-get_elem?, arith,
}
use volt_net.Defs.{con_id_mod}
use volt_net.NetCon.{NetCon, Outcome, ErrorCode, success, complete_read}
use volt_net.NetCon.Reading.{IsReady}
use volt_net.NetCon.Lifecycle.{ClosedBy, complete_read_error}
use volt_net.Network.{
  Network, NetOutcome, ok, throws, undefined_behaviour, ◌>>=◌, set_con, on_closed, close_connection,
}
use volt_net.Network.Connections.{
  IsValid, AllBelow, Distinct, on_closed_first, close_connection_lem,
}
use volt_net.Network.Traffic.{Event, Fits, taken, never, step}
use volt_net.Network.Delivery.Steps.{step-Moved}
use volt_net.Network.Delivery.Queueing.{Delivers}
use volt_net.Network.Delivery.Moves.{Moved}

-- The outstanding read of the connection at a place ends with an error, and its handler closes the
-- connection.
unfoldable pub fail_read : ErrorCode → ℕ → Network → NetOutcome Network
unfolding on_closed set_con
fail_read err index net = elim (get_elem? net.connections index) [
  | none ↦ ok net
  | some con ↦ elim (complete_read never err [] con) [
    | Outcome.ok closed ↦
        let after = record net { connections = set_con net.connections index closed } in
        if con.con_open then on_closed con.id after else ok after
    | Outcome.throws x closed ↦ throws x
    | Outcome.stuck ↦ undefined_behaviour
  ]
]

-- The handler of a cancelled read whose connection was destroyed is called: its `this` dangles.
unfoldable pub run_orphan : Network → NetOutcome Network
run_orphan net = if net.orphans == 0 then ok net else undefined_behaviour

-- handle_read at the end of a message, when the program closes the connection in its handler: the
-- next statement assigns to `recv_msg` of the connection, which is gone if the vector got shorter.
unfoldable pub close_in_handler : ℕ → Network → NetOutcome Network
unfolding close_connection
close_in_handler index net = close_connection index net >>= (λ after.
    if length after.connections == length net.connections then ok after else undefined_behaviour)

-- A connection is made, a read finishes or messages are asked for, or the read of the connection at a
-- place ends with an error.
pub data Happening : Type 0 where
  traffic : Event → Happening
  read_failed : ErrorCode → ℕ → Happening

unfoldable pub happen : Happening → Network → NetOutcome Network
happen (traffic e) net = step e net
happen (read_failed err index) net = fail_read err index net

unfoldable pub happen_all : List Happening → Network → NetOutcome Network
happen_all [] net = ok net
happen_all (h ∷ hs) net = happen h net >>= happen_all hs

-- A read fits the buffer, and an error is none.
abbrev pub Possible : Happening → Type 0
Possible (traffic e) = Fits e
Possible (read_failed err index) = err ≢ success

-- How many ids are taken, with those of other threads.
abbrev pub ids_taken : Happening → ℕ
ids_taken (traffic e) = taken e
ids_taken (read_failed err index) = 0

abbrev pub ids_taken_by : List Happening → ℕ
ids_taken_by [] = 0
ids_taken_by (h ∷ hs) = ids_taken h + ids_taken_by hs

-- What happens to a network with a defined result while its program closes no connection.
pub data Step (net after : Network) : Type 0 where
  happened :
      (h : Happening)
      → Possible h
      → net.next_id + ids_taken h < con_id_mod
      → happen h net ≡ ok after
      → Step net after

pub data Reach (net : Network) : Network → Type 0 where
  here : Reach net net
  next : {mid after : Network} → Reach net mid → Step mid after → Reach net after

-- A valid network that runs, with a handler for messages and none for connections.
pub record Runs (net : Network) : Type 0 where
  pub valid : IsValid net
  pub delivers : Delivers net
  pub running : net.running ≡ true
  pub quiet : net.has_closed_connection_callback ≡ false

fail_read_at :
    (err : ErrorCode) (index : ℕ) (net : Network) (c d : NetCon)
    → get_elem? net.connections index ≡ some c
    → complete_read never err [] c ≡ Outcome.ok d
    → c.con_open ≡ true
    → fail_read err index net
      ≡ on_closed c.id (record net { connections = set_con net.connections index d })
unfolding fail_read
fail_read_at err index net c d found failed open_ =
    rw (fail_read, found, failed) (if_true _ _ open_)

-- A failed read of the first connection removes it and leaves no read behind; one of any other
-- connection has no defined result.
pub fail_read_lem :
    (err : ErrorCode) (index : ℕ) (net : Network) (c x : NetCon) (xs : List NetCon)
    → err ≢ success
    → Runs net
    → net.connections ≡ x ∷ xs
    → get_elem? net.connections index ≡ some c
    → fail_read err index net
      ≡ (if index == 0 then ok (record net { connections = xs }) else undefined_behaviour)
unfolding set_con
fail_read_lem err zero net c x xs fails v e found =
    let ready = (subst (All IsReady) e v.valid.ready).0 in
    let (d, failed, shut, sock, pending, closed, same) =
      complete_read_error never err [] x ready fails in
    fail_read_at err 0 net x d (ap (λ cs. get_elem? cs 0) e) failed ready.is_open
    ∙ on_closed_first x.id (record net { connections = set_con net.connections 0 d }) d xs
        (ap (λ cs. set_con cs 0 d) e) v.running v.quiet
    ∙ if_false _ _ shut
    ∙ ap (λ n. ok (record net { connections = xs; orphans = n })) (omega (arith, pending))
fail_read_lem err (suc i) net c x xs fails v e found =
    let (front, others) = subst (All IsReady) e v.valid.ready in
    let not_front : (suc i == 0) ≡ false = ground arith in
    let ready = All-get_elem? IsReady net.connections (suc i) c found v.valid.ready in
    let (d, failed, shut, sock, pending, closed, same) =
      complete_read_error never err [] c ready fails in
    fail_read_at err (suc i) net c d found failed ready.is_open
    ∙ on_closed_first c.id (record net { connections = set_con net.connections (suc i) d }) x
        (set_con xs i d) (ap (λ cs. set_con cs (suc i) d) e) v.running v.quiet
    ∙ if_true _ _ front.is_open
    ∙ sym (if_false _ _ not_front)

pub without_first-Runs :
    (net : Network) (x : NetCon) (xs : List NetCon) (n : ℕ)
    → Runs net
    → net.connections ≡ x ∷ xs
    → Runs (record net { connections = xs; orphans = n })
without_first-Runs net x xs n v e = record {
  valid = record {
    ready = (subst (All IsReady) e v.valid.ready).1;
    below = (subst (AllBelow net.next_id) e v.valid.below).1;
    distinct = (subst Distinct e v.valid.distinct).1;
  };
  delivers = record {
    same_size = v.delivers.same_size;
    waits = v.delivers.waits;
    has_handler = v.delivers.has_handler;
    quiet = v.delivers.quiet;
  };
  running = v.running;
  quiet = v.quiet;
}
