-- ===== src/Network/Calls/Effects.antt =====
-- What a program gets and what it sends, whatever it calls and whatever happens in between
-- (volt_net/src/volt/net/network.cpp, net_con.cpp and messages/msg_rec_pool.cpp together).
use volt_net.Common.{
  ℕ, ◌+◌, ◌≤◌, ◌≡◌, refl, sym, ap, ◌∙◌, some, List, [], ◌∷◌, ◌++◌, append-nil, arith,
}
use volt_net.NetCon.{NetCon}
use volt_net.NetCon.Parser.{parse, state_after}
use volt_net.NetCon.Bytes.{parser_of}
use volt_net.NetCon.Streams.{tagged}
use volt_net.Network.{Network, get_con_loop}
use volt_net.Network.Ids.{total}
use volt_net.Network.Connections.{IsValid}
use volt_net.Network.Traffic.{Fits, taken, bytes_in, bytes_of, from_con}
use volt_net.Network.Delivery.Lookups.{Extends, same-Extends}
use volt_net.Network.Delivery.Queueing.{Delivers, messages}
use volt_net.Network.Delivery.Moves.{same-IsValid}
use volt_net.Network.Calls.{
  Call, send_to, send_all, listens, closes, takes_id, sets_new_msg, sets_new_connection,
  sets_closed_connection, connects, adds, closes_con, read_fails, runs, sent_in, events,
}

-- How many ids a call takes, with those of other threads.
abbrev pub uses : Call → ℕ
uses (takes_id attempts) = total attempts + 1
uses (connects resolve_err connect_err attempts) = total attempts + 1
uses (adds con) = 0
uses (closes_con index) = 0
uses (read_fails err index) = 0
uses (runs e) = taken e
uses (send_to i msg) = 0
uses (send_all msg) = 0
uses (listens constructed) = 0
uses closes = 0
uses sets_new_msg = 0
uses sets_new_connection = 0
uses sets_closed_connection = 0

abbrev pub uses_all : List Call → ℕ
uses_all [] = 0
uses_all (c ∷ cs) = uses c + uses_all cs

-- Reads that fit the buffer, and no read that fails; the program sets no handler for new connections (which
-- is given a null connection), closes no connection (Network.Lifetimes says what follows from that) and
-- adds none but through the listener and server_connect, which give them new ids.
abbrev pub Proper : Call → Type 0
Proper sets_new_connection = ⊥
Proper (adds con) = ⊥
Proper (closes_con index) = ⊥
Proper (read_fails err index) = ⊥
Proper (connects resolve_err connect_err attempts) = Unit {0}
Proper (runs e) = Fits e
Proper (takes_id attempts) = Unit {0}
Proper (send_to i msg) = Unit {0}
Proper (send_all msg) = Unit {0}
Proper (listens constructed) = Unit {0}
Proper closes = Unit {0}
Proper sets_new_msg = Unit {0}
Proper sets_closed_connection = Unit {0}

-- The bytes that arrive on a connection during a call.
abbrev pub bytes_on : ℕ → Call → List ℕ
bytes_on id (connects resolve_err connect_err attempts) = []
bytes_on id (adds con) = []
bytes_on id (closes_con index) = []
bytes_on id (read_fails err index) = []
bytes_on id (runs e) = bytes_in id e
bytes_on id (takes_id attempts) = []
bytes_on id (send_to i msg) = []
bytes_on id (send_all msg) = []
bytes_on id (listens constructed) = []
bytes_on id closes = []
bytes_on id sets_new_msg = []
bytes_on id sets_new_connection = []
bytes_on id sets_closed_connection = []

pub bytes_of-events :
    (id : ℕ) (c : Call) (cs : List Call)
    → bytes_of id (events (c ∷ cs)) ≡ bytes_on id c ++ bytes_of id (events cs)
unfolding bytes_of
bytes_of-events id (connects resolve_err connect_err attempts) cs = refl
bytes_of-events id (adds con) cs = refl
bytes_of-events id (closes_con index) cs = refl
bytes_of-events id (read_fails err index) cs = refl
bytes_of-events id (runs e) cs = refl
bytes_of-events id (takes_id attempts) cs = refl
bytes_of-events id (send_to i msg) cs = refl
bytes_of-events id (send_all msg) cs = refl
bytes_of-events id (listens constructed) cs = refl
bytes_of-events id closes cs = refl
bytes_of-events id sets_new_msg cs = refl
bytes_of-events id sets_new_connection cs = refl
bytes_of-events id sets_closed_connection cs = refl

-- What a call does to a connection, `con` before it and found by its id afterwards.
abbrev pub OnCon : Network → Call → Network → ℕ → NetCon → Type 0
OnCon net c after id con =
    (d : NetCon) × (get_con_loop id after.connections ≡ some d)
    × (parser_of d ≡ state_after (parser_of con) (bytes_on id c))
    × (d.writes ≡ con.writes ++ sent_in id c)
    × (from_con id (messages after)
        ≡ from_con id (messages net) ++ tagged id (parse (parser_of con) (bytes_on id c)))

pub record Effect (net : Network) (c : Call) (after : Network) : Type 0 where
  pub valid : IsValid after
  pub next : after.next_id ≤ net.next_id + uses c
  pub still : Delivers after
  pub extends : Extends net.connections after.connections
  pub each :
      (id : ℕ) (con : NetCon)
      → get_con_loop id net.connections ≡ some con
      → OnCon net c after id con

-- A call that sends nothing and brings nothing.
pub quiet-Effect :
    (net after : Network) (c : Call)
    → IsValid net
    → Delivers after
    → after.connections ≡ net.connections
    → after.next_id ≡ net.next_id
    → messages after ≡ messages net
    → ((id : ℕ) → bytes_on id c ≡ [])
    → ((id : ℕ) → sent_in id c ≡ [])
    → Effect net c after
quiet-Effect net after c valid still cons next same brings sends = record {
  valid = same-IsValid net after valid cons next;
  next = omega (arith, next);
  still = still;
  extends = same-Extends net.connections after.connections cons;
  each = λ id con found. (
    con,
    ap (get_con_loop id) cons ∙ found,
    unfold state_after in rw (brings id),
    sym (rw (sends id) (append-nil con.writes)),
    ap (from_con id) same ∙ (unfold parse in rw (brings id) (sym (append-nil _))),
  );
}
