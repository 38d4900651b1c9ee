-- ===== src/Network.antt =====
-- volt_net/include/volt/net/network.hpp and volt_net/src/volt/net/network.cpp: the connections, the
-- listener and the received messages of a program. Each function runs under the network's lock, so
-- it is one step. Threads, the io_context and the program's three callbacks are not this file's
-- code; the calls of the callback for messages are recorded.
pub mod Ids
pub mod Connections
pub mod Messages
pub mod Shutdown
pub mod Traffic
pub mod Delivery
pub mod Lifetimes
pub mod Owners
pub mod Locks
pub mod Calls
use volt_net.Common.{
  ℕ, zero, suc, ◌+◌, ◌%◌, ◌==◌, if◌then◌else◌, length, get_elem?, take, drop, Bool, true, false,
  not, ◌&&◌, Option, none, some, List, [], ◌∷◌, ◌++◌,
}
use volt_net.Defs.{Message, con_id_mod}
use volt_net.NetCon.{
  NetCon, Exception, out_of_range, Outcome, new_connection, close_con, set_closed_callback,
  set_new_msg_callback,
}
use volt_net.MsgPool.{erase_idx}
use volt_net.MsgRecPool.{MsgRecPool, new_rec_pool, submit_message, Notified, notify_listeners}
use volt_net.Listener.{Listener, close_listener}

pub record Network : Type 0 where
  pub running : Bool
  pub connections : List NetCon
  pub next_id : ℕ
  pub net_listener : Option Listener
  pub received_msgs : MsgRecPool
  -- Whether the three std::function members hold a function.
  pub has_new_msg_callback : Bool
  pub has_new_connection_callback : Bool
  pub has_closed_connection_callback : Bool
  -- The calls of new_msg_callback, oldest first.
  pub read_calls : List (ℕ × Message)
  -- The cancelled reads whose connection was destroyed before their handler ran.
  pub orphans : ℕ

-- What a call ends in: a null or dangling reference that is followed, and a container that is
-- changed while it is being changed, have no defined result.
pub data NetOutcome {ℓ} (A : Type ℓ) : Type ℓ where
  ok : A → NetOutcome A
  throws : Exception → NetOutcome A
  undefined_behaviour : NetOutcome A

infixl 5 ◌>>=◌
abbrev pub ◌>>=◌ {ℓ κ} :
    {A : Type ℓ} {B : Type κ} → NetOutcome A → (A → NetOutcome B) → NetOutcome B
ok a >>= f = f a
throws x >>= f = throws x
undefined_behaviour >>= f = undefined_behaviour

unfoldable pub create : Bool → Network
create defer_received_msgs = record {
  running = true;
  connections = [];
  next_id = 0;
  net_listener = none;
  received_msgs = new_rec_pool defer_received_msgs;
  has_new_msg_callback = false;
  has_new_connection_callback = false;
  has_closed_connection_callback = false;
  read_calls = [];
  orphans = 0;
}

-- How a round of get_next_id's loop fails: for no reason, or because other threads took some ids
-- after the load.
pub data Attempt : Type 0 where
  spurious : Attempt
  raced : ℕ → Attempt

-- The id, and the counter afterwards. The list holds the rounds before an undisturbed one; a race
-- that brings the counter back to the value loaded goes unnoticed.
unfoldable pub get_next_id : List Attempt → ℕ → ℕ × ℕ
get_next_id [] next_id = (next_id, (next_id + 1) % con_id_mod)
get_next_id (spurious ∷ rest) next_id = get_next_id rest next_id
get_next_id (raced n ∷ rest) next_id =
    let moved = (next_id + n) % con_id_mod in
    let again = get_next_id rest moved in
    if moved == next_id then (next_id, (next_id + 1) % con_id_mod) else again

-- The handler for messages that add_connection gives to a connection.
unfoldable pub on_new_msg : ℕ → Message → Network → Network
on_new_msg id msg net =
    let pool = submit_message id msg net.received_msgs in
    let called = drop (length net.received_msgs.calls) pool.calls in
    record net {
      received_msgs = pool;
      read_calls = if net.has_new_msg_callback then net.read_calls ++ called else net.read_calls;
    }

-- process_new_msgs: the handler of the pool passes each message on.
unfoldable pub process_new_msgs : List (List (ℕ × Message)) → Network → NetOutcome Network
process_new_msgs arrivals net = elim (notify_listeners arrivals net.received_msgs) [
  | Notified.done pool left ↦
      let called = drop (length net.received_msgs.calls) pool.calls in
      ok (record net {
        received_msgs = pool;
        read_calls = if net.has_new_msg_callback then net.read_calls ++ called else net.read_calls;
      })
  | Notified.undefined_behaviour ↦ undefined_behaviour
  | Notified.stuck ↦ undefined_behaviour
]

-- `con` has been moved into the vector when the callback for new connections is handed `*con`.
unfoldable pub add_connection : NetCon → Network → NetOutcome Network
add_connection con net =
    let ready = set_closed_callback (set_new_msg_callback con) in
    let added = record net { connections = net.connections ++ (ready ∷ []) } in
    if net.has_new_connection_callback then undefined_behaviour else ok added

-- What the listener and server_connect do with a connected socket.
unfoldable pub accept_connection : List Attempt → Network → NetOutcome Network
unfolding add_connection
accept_connection attempts net =
    let (id, next_id) = get_next_id attempts net.next_id in
    add_connection (new_connection id) (record net { next_id = next_id })

-- std::find_if: the place of the first hit in a range, or the range's end.
unfoldable pub find_if : (NetCon → Bool) → List NetCon → ℕ
find_if test [] = 0
find_if test (c ∷ cs) = if test c then 0 else suc (find_if test cs)

-- The erased connection's destructor closes it: if it is still open, its callback erases from the
-- vector while the vector erases. Asynchronous reads are bound to the connection's address.
unfoldable pub erase_connection : ℕ → Network → NetOutcome Network
erase_connection pos net = elim (get_elem? net.connections pos) [
  | none ↦ undefined_behaviour
  | some con ↦
      if con.con_open
      then undefined_behaviour
      else ok (record net {
        connections = erase_idx net.connections pos;
        orphans = net.orphans + con.pending_reads;
      })
]

-- The handler that add_connection gives to a connection for its end. Its `con` refers to the
-- parameter of a call that has returned; the range searched is from begin() to begin().
unfoldable pub on_closed : ℕ → Network → NetOutcome Network
unfolding erase_connection
on_closed id net =
    let con_pos = find_if (λ con. con.id == id) (take 0 net.connections) in
    if net.has_closed_connection_callback
    then undefined_behaviour
    else if not net.running
    then ok net
    else if con_pos == length net.connections
    then ok net
    else erase_connection con_pos net

unfoldable pub set_con : List NetCon → ℕ → NetCon → List NetCon
set_con [] i con = []
set_con (c ∷ cs) zero con = con ∷ cs
set_con (c ∷ cs) (suc i) con = c ∷ set_con cs i con

-- close_con on the connection at a place, with its callback.
unfoldable pub close_connection : ℕ → Network → NetOutcome Network
close_connection index net = elim (get_elem? net.connections index) [
  | none ↦ undefined_behaviour
  | some con ↦ elim (close_con con) [
    | Outcome.ok closed ↦
        let after = record net { connections = set_con net.connections index closed } in
        if con.con_open then on_closed con.id after else ok after
    | Outcome.throws x closed ↦ throws x
    | Outcome.stuck ↦ undefined_behaviour
  ]
]

-- `none` is the null connection.
unfoldable pub get_con_loop : ℕ → List NetCon → Option NetCon
get_con_loop id [] = none
get_con_loop id (con ∷ cons) = if con.id == id then some con else get_con_loop id cons

unfoldable pub get_con : ℕ → Network → Option NetCon
get_con id net = get_con_loop id net.connections

unfoldable pub get_con_index : ℕ → Network → NetOutcome NetCon
get_con_index index net = elim (get_elem? net.connections index) [
  | none ↦ throws out_of_range
  | some con ↦ ok con
]

unfoldable pub get_con_count : Network → ℕ
get_con_count net = length net.connections

unfoldable pub is_running : Network → Bool
is_running net = net.running

unfoldable pub close : Network → Network
close net = record net { running = false }

-- The listener's constructor throws if a port cannot be bound, which is `none`; the exception is
-- caught and dropped.
unfoldable pub start_listening : Option Listener → Network → Network
start_listening constructed net = elim net.net_listener [
  | some l ↦ net
  | none ↦ record net { net_listener = constructed }
]

unfoldable pub set_new_msg_handler : Network → Network
set_new_msg_handler net = record net { has_new_msg_callback = true }

unfoldable pub set_new_connection_callback : Network → Network
set_new_connection_callback net = record net { has_new_connection_callback = true }

unfoldable pub set_closed_connection_callback : Network → Network
set_closed_connection_callback net = record net { has_closed_connection_callback = true }

-- The loop of the destructor. `running` is false by then.
unfoldable pub close_all : Bool → List NetCon → NetOutcome (List NetCon)
close_all has_callback [] = ok []
close_all has_callback (con ∷ cons) = elim (close_con con) [
  | Outcome.ok closed ↦
      if con.con_open && has_callback
      then undefined_behaviour
      else close_all has_callback cons >>= (λ rest. ok (closed ∷ rest))
  | Outcome.throws x closed ↦ throws x
  | Outcome.stuck ↦ undefined_behaviour
]

abbrev pub close_optional : Option Listener → Option Listener
close_optional none = none
close_optional (some l) = some (close_listener l)

-- The destructor, up to the end of the threads.
unfoldable pub destroy : Network → NetOutcome Network
unfolding close_all
destroy net = close_all net.has_closed_connection_callback net.connections >>= (λ cons.
    ok (record net {
      running = false;
      connections = cons;
      net_listener = close_optional net.net_listener;
    }))
