-- ===== src/Network/Traffic.antt =====
-- A network that runs: connections are accepted, reads of connections finish, in any order, and the
-- program calls process_new_msgs in between. It joins net_con::handle_read, the handler that
-- network::add_connection gives to a connection, and the pool of received messages
-- (volt_net/src/volt/net/network.cpp, net_con.cpp, messages/msg_rec_pool.cpp).
use volt_net.Common.{
  ℕ, ◌+◌, ◌≤◌, ◌==◌, if◌then◌else◌, length, drop, Bool, false, none, some, List, [], ◌∷◌, ◌++◌,
}
use volt_net.Defs.{Message, max_buffer_size}
use volt_net.NetCon.{NetCon, Outcome, success, complete_read}
use volt_net.Network.{
  Network, NetOutcome, ok, throws, undefined_behaviour, ◌>>=◌, on_new_msg, get_con_loop,
  process_new_msgs, Attempt, accept_connection,
}
use volt_net.Network.Ids.{total}

-- A read of the connection with an id finishes, a connection is made, or the program asks for its
-- messages.
pub data Event : Type 0 where
  accepted : List Attempt → Event
  arrived : ℕ → List ℕ → Event
  processed : Event

abbrev pub Fits : Event → Type 0
Fits (accepted attempts) = Unit {0}
Fits (arrived id received) = length received ≤ max_buffer_size
Fits processed = Unit {0}

-- How many ids are taken, with those of the other threads.
abbrev pub taken : Event → ℕ
taken (accepted attempts) = total attempts + 1
taken (arrived id received) = 0
taken processed = 0

abbrev pub taken_by : List Event → ℕ
taken_by [] = 0
taken_by (e ∷ es) = taken e + taken_by es

-- The messages that a connection's handler is called with, one after the other.
unfoldable pub submit_calls : List (ℕ × Message) → Network → Network
submit_calls [] net = net
submit_calls ((id, msg) ∷ rest) net = submit_calls rest (on_new_msg id msg net)

-- The connection with an id in its new state.
unfoldable pub update_con : ℕ → NetCon → List NetCon → List NetCon
update_con id d [] = []
update_con id d (c ∷ cs) = let rest = update_con id d cs in if c.id == id then d ∷ cs else c ∷ rest

-- No connection is closed in its handler for messages: a network that defers its messages calls nothing
-- of the program's there, and otherwise the program's handler is taken to close none.
abbrev pub never : List (ℕ × Message) → Bool
never calls = false

unfoldable pub step : Event → Network → NetOutcome Network
unfolding submit_calls update_con
step (accepted attempts) net = accept_connection attempts net
step (arrived id received) net = elim (get_con_loop id net.connections) [
  | none ↦ ok net
  | some con ↦ elim (complete_read never success received con) [
    | Outcome.ok d ↦ ok (
        submit_calls (drop (length con.new_msg_calls) d.new_msg_calls)
          (record net { connections = update_con id d net.connections }))
    | Outcome.throws x d ↦ throws x
    | Outcome.stuck ↦ undefined_behaviour
  ]
]
step processed net = process_new_msgs [] net

unfoldable pub run : List Event → Network → NetOutcome Network
run [] net = ok net
run (e ∷ es) net = step e net >>= run es

-- The bytes of one connection.
unfoldable pub bytes_in : ℕ → Event → List ℕ
bytes_in id (arrived i received) = if i == id then received else []
bytes_in id (accepted attempts) = []
bytes_in id processed = []

unfoldable pub bytes_of : ℕ → List Event → List ℕ
bytes_of id [] = []
bytes_of id (e ∷ es) = bytes_in id e ++ bytes_of id es

-- The messages of one connection.
unfoldable pub from_con : ℕ → List (ℕ × Message) → List (ℕ × Message)
from_con id [] = []
from_con id (m ∷ ms) = let rest = from_con id ms in if m.0 == id then m ∷ rest else rest
