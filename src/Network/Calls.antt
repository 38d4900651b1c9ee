-- ===== src/Network/Calls.antt =====
-- A program that uses a network: the member functions that volt_net/include/volt/net/network.hpp offers
-- it, between which connections are made and read (Network.Traffic). Functions that only look at the
-- network leave it as it is.
pub mod Sending
pub mod Effects
pub mod Each
pub mod Any
pub mod Served
pub mod Links
pub mod Sequences
use volt_net.Common.{
  ℕ, Bool, zero, suc, ◌+◌, ◌==◌, if◌then◌else◌, none, some, Option, List, [], ◌∷◌, ◌++◌,
}
use volt_net.Defs.{Message}
use volt_net.NetCon.{NetCon, ErrorCode, send_msg}
use volt_net.Listener.{Listener}
use volt_net.Network.{
  Network, NetOutcome, ok, ◌>>=◌, Attempt, get_next_id, get_con, get_con_index, get_con_count,
  set_con, close, start_listening, set_new_msg_handler, set_new_connection_callback,
  set_closed_connection_callback, add_connection, close_connection,
}
use volt_net.Network.Lifetimes.{Happening, traffic, read_failed, fail_read}
use volt_net.Connect.{server_connect, connect_task}
use volt_net.Network.Traffic
use volt_net.Network.Traffic.{Event, update_con}

-- What both test programs do to send to everybody: `for (i = 0; i < net->get_con_count(net_lock); i++)`
-- with get_con_index(i)->send_msg(msg); the number is what is left.
unfoldable pub send_loop : ℕ → ℕ → Message → Network → NetOutcome Network
unfolding get_con_index set_con
send_loop zero i msg net = ok net
send_loop (suc left) i msg net = get_con_index i net >>= (λ con.
    send_loop left (i + 1) msg
      (record net { connections = set_con net.connections i (send_msg msg con) }))

-- A message goes to the connection with an id, where get_con finds one (it is a null pointer otherwise, which
-- the program has to test), or to all; the network is told to listen or to stop; an id is taken; a
-- handler is set; the task of server_connect runs, with what the resolver and the connection report; a
-- connection that the program made itself is added; the connection at a place is closed, or its read
-- fails; or the network runs.
pub data Call : Type 0 where
  send_to : ℕ → Message → Call
  send_all : Message → Call
  listens : Option Listener → Call
  closes : Call
  takes_id : List Attempt → Call
  sets_new_msg : Call
  sets_new_connection : Call
  sets_closed_connection : Call
  connects : Bool → Bool → List Attempt → Call
  adds : NetCon → Call
  closes_con : ℕ → Call
  read_fails : ErrorCode → ℕ → Call
  runs : Event → Call

-- The task of server_connect on a network that is still there.
unfoldable pub connect_alive : Bool → Bool → List Attempt → Network → NetOutcome Network
connect_alive resolve_err connect_err attempts net =
    connect_task resolve_err connect_err attempts (some net) server_connect
    >>= (λ r. elim r.0 [ none ↦ ok net | some after ↦ ok after ])

unfoldable pub call : Call → Network → NetOutcome Network
unfolding send_loop update_con connect_alive
call (send_to id msg) net = elim (get_con id net) [
  | none ↦ ok net
  | some con ↦ ok (record net { connections = update_con id (send_msg msg con) net.connections })
]
call (send_all msg) net = send_loop (get_con_count net) 0 msg net
call (listens constructed) net = ok (start_listening constructed net)
call closes net = ok (close net)
call (takes_id attempts) net = ok (record net { next_id = (get_next_id attempts net.next_id).1 })
call sets_new_msg net = ok (set_new_msg_handler net)
call sets_new_connection net = ok (set_new_connection_callback net)
call sets_closed_connection net = ok (set_closed_connection_callback net)
call (connects resolve_err connect_err attempts) net =
    connect_alive resolve_err connect_err attempts net
call (adds con) net = add_connection con net
call (closes_con index) net = close_connection index net
call (read_fails err index) net = fail_read err index net
call (runs e) net = Traffic.step e net

unfoldable pub call_all : List Call → Network → NetOutcome Network
call_all [] net = ok net
call_all (c ∷ cs) net = call c net >>= call_all cs

-- What happens to the network, among the calls.
abbrev pub does : Happening → Call
does (traffic e) = runs e
does (read_failed err index) = read_fails err index

-- What a program sends on the connection with an id.
unfoldable pub sent_in : ℕ → Call → List Message
sent_in id (send_to i msg) = if i == id then msg ∷ [] else []
sent_in id (send_all msg) = msg ∷ []
sent_in id (listens constructed) = []
sent_in id closes = []
sent_in id (takes_id attempts) = []
sent_in id sets_new_msg = []
sent_in id sets_new_connection = []
sent_in id sets_closed_connection = []
sent_in id (connects resolve_err connect_err attempts) = []
sent_in id (adds con) = []
sent_in id (closes_con index) = []
sent_in id (read_fails err index) = []
sent_in id (runs e) = []

unfoldable pub sent_on : ℕ → List Call → List Message
sent_on id [] = []
sent_on id (c ∷ cs) = sent_in id c ++ sent_on id cs

-- The events among the calls.
abbrev pub events : List Call → List Event
events [] = []
events (runs e ∷ cs) = e ∷ events cs
events (send_to i msg ∷ cs) = events cs
events (send_all msg ∷ cs) = events cs
events (listens constructed ∷ cs) = events cs
events (closes ∷ cs) = events cs
events (takes_id attempts ∷ cs) = events cs
events (sets_new_msg ∷ cs) = events cs
events (sets_new_connection ∷ cs) = events cs
events (sets_closed_connection ∷ cs) = events cs
events (connects resolve_err connect_err attempts ∷ cs) = events cs
events (adds con ∷ cs) = events cs
events (closes_con index ∷ cs) = events cs
events (read_fails err index ∷ cs) = events cs
