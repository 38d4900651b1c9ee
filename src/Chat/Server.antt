-- ===== src/Chat/Server.antt =====
-- tests/single_server/single_server.cpp: the handler for messages, and a server that runs. The network
-- does not defer, so the handler is called by handle_read.
use volt_net.Common.{
  ℕ, if◌then◌else◌, length, drop, Bool, true, false, Option, none, some, List, [], ◌∷◌,
}
use volt_net.Defs.{Message}
use volt_net.Endian.{Host}
use volt_net.NetCon.{Outcome, success, complete_read}
use volt_net.Listener.{Listener}
use volt_net.Network.{
  Network, NetOutcome, ok, throws, undefined_behaviour, ◌>>=◌, create, set_new_msg_handler,
  start_listening, on_new_msg, get_con_loop, get_con_count,
}
use volt_net.Network.Calls.{send_loop}
use volt_net.Network.Traffic.{update_con, never}
use volt_net.Chat.Objects.{understood, written}

-- The server's network.
unfoldable pub start_server : Option Listener → Network
unfolding create set_new_msg_handler start_listening
start_server constructed = start_listening constructed (set_new_msg_handler (create false))

-- The server's handler for messages. A network that is being destroyed is not `alive`: the weak
-- reference to it cannot be locked.
unfoldable pub reflect : Host → ℕ → ℕ → Bool → Message → Network → NetOutcome Network
unfolding understood written
reflect h m n alive msg net = elim (understood h m n msg) [
  | none ↦ undefined_behaviour
  | some t ↦ if alive then send_loop (get_con_count net) 0 (written h t) net else ok net
]

-- The network's calls of the server's handler.
unfoldable pub reflect_all : Host → ℕ → ℕ → List (ℕ × Message) → Network → NetOutcome Network
unfolding reflect
reflect_all h m n [] net = ok net
reflect_all h m n ((id, msg) ∷ rest) net = reflect h m n true msg net >>= reflect_all h m n rest

-- The messages that a read gives to the connection's handler, each with the calls that come of it.
unfoldable pub handle_msgs : Host → ℕ → ℕ → List (ℕ × Message) → Network → NetOutcome Network
unfolding reflect_all
handle_msgs h m n [] net = ok net
handle_msgs h m n ((id, msg) ∷ rest) net =
    let after = on_new_msg id msg net in
    reflect_all h m n (drop (length net.read_calls) after.read_calls) after
    >>= handle_msgs h m n rest

-- Bytes arrive on the connection with an id. The server's handler begins writes, which the loop of
-- handle_read does not look at.
unfoldable pub arrive : Host → ℕ → ℕ → ℕ → List ℕ → Network → NetOutcome Network
unfolding handle_msgs update_con
arrive h m n id received net = elim (get_con_loop id net.connections) [
  | none ↦ ok net
  | some con ↦ elim (complete_read never success received con) [
    | Outcome.ok d ↦
        handle_msgs h m n (drop (length con.new_msg_calls) d.new_msg_calls)
          (record net { connections = update_con id d net.connections })
    | Outcome.throws x d ↦ throws x
    | Outcome.stuck ↦ undefined_behaviour
  ]
]

-- What arrives at the server, in order: the ids of connections with bytes.
unfoldable pub run_server : Host → ℕ → ℕ → List (ℕ × List ℕ) → Network → NetOutcome Network
run_server h m n [] net = ok net
run_server h m n ((id, received) ∷ rest) net =
    arrive h m n id received net >>= run_server h m n rest
