-- ===== src/Network/Locks.antt =====
-- The mutexes that the functions of volt_net/src/volt/net/network.cpp, net_con.cpp, listener.cpp,
-- messages/msg_rec_pool.cpp and messages/msg_pool.cpp take, in the order in which they take them, and
-- threads that run these functions. What lies between two operations on a mutex is left out. A
-- std::recursive_mutex may be taken again by the thread that has it, a std::mutex may not.
pub mod Order
pub mod Steps
pub mod Progress
pub mod Ends
pub mod Library
use volt_net.Common.{
  ℕ, zero, suc, if◌then◌else◌, Bool, true, false, not, ◌&&◌, ◌||◌, get_elem?, flatten, map, Option,
  none, some, List, [], ◌∷◌, ◌++◌, ◌>>=◌,
}
use volt_net.NetCon.{ErrorCode, success, eof, other_error}

-- network::connections_mut, msg_rec_pool::mut and the mutex of msg_pool.
pub data Mutex : Type 0 where
  connections_mut rec_mut pool_mut : Mutex

unfoldable pub is_recursive : Mutex → Bool
is_recursive connections_mut = true
is_recursive rec_mut = false
is_recursive pool_mut = false

pub data Act : Type 0 where
  acquire release : Mutex → Act

-- A std::lock_guard and what stands in its scope.
abbrev pub guard : Mutex → List Act → List Act
guard m body = acquire m ∷ (body ++ (release m ∷ []))

-- What the program's three handlers do with mutexes.
pub record Handlers : Type 0 where
  pub new_msg : List Act
  pub new_connection : List Act
  pub closed_connection : List Act

unfoldable pub get_message_locks : List Act
get_message_locks = guard pool_mut []

unfoldable pub return_message_locks : List Act
return_message_locks = guard pool_mut []

-- A message_ptr is dropped, which may be the last one of its message.
unfoldable pub drop_message_locks : Bool → List Act
unfolding return_message_locks
drop_message_locks last = if last then return_message_locks else []

unfoldable pub submit_message_locks : Handlers → Bool → List Act
submit_message_locks h defer_msg_signal = if defer_msg_signal then guard rec_mut [] else h.new_msg

-- The rounds of the loop, by whether they drop the last pointer to their message.
unfoldable pub notify_listeners_locks : Handlers → Bool → List Bool → List Act
unfolding drop_message_locks
notify_listeners_locks h defer_msg_signal rounds =
    if not defer_msg_signal
    then []
    else flatten (map (λ last. guard rec_mut [] ++ (h.new_msg ++ drop_message_locks last)) rounds)

-- The handler of new messages that add_connection sets.
unfoldable pub on_new_msg_locks : Handlers → Bool → Bool → List Act
unfolding submit_message_locks drop_message_locks
on_new_msg_locks h defer_received_msgs last =
    guard connections_mut (submit_message_locks h defer_received_msgs) ++ drop_message_locks last

-- The handler of closed connections: ~net_con finds the connection closed and drops its recv_msg.
unfoldable pub on_closed_locks : Handlers → Bool → List Act
unfolding drop_message_locks
on_closed_locks h erases = guard connections_mut (h.closed_connection ++ drop_message_locks erases)

unfoldable pub close_con_locks : Handlers → Bool → Bool → List Act
unfolding on_closed_locks
close_con_locks h con_open erases = if con_open then on_closed_locks h erases else []

-- handle_read, with the messages that it delivers: each is followed by a new one from the pool.
unfoldable pub handle_read_locks : Handlers → Bool → ErrorCode → List Bool → Bool → Bool → List Act
unfolding on_new_msg_locks get_message_locks close_con_locks
handle_read_locks h defer_received_msgs err messages con_open erases = elim err [
  | success ↦
      flatten
        (map (λ last. on_new_msg_locks h defer_received_msgs last ++ get_message_locks) messages)
  | eof ↦ close_con_locks h con_open erases
  | other_error ↦ close_con_locks h con_open erases
]

-- The callback of the listener: get_guard, and new_connection as an argument of add_connection.
unfoldable pub accept_locks : Handlers → List Act
unfolding get_message_locks
accept_locks h = guard connections_mut (get_message_locks ++ h.new_connection)

-- The task of server_connect: new_connection comes before get_guard.
unfoldable pub connect_locks : Handlers → Bool → Bool → List Act
unfolding get_message_locks
connect_locks h connected network_there =
    if connected && network_there
    then get_message_locks ++ guard connections_mut h.new_connection
    else []

-- ~network: the connections are closed under the lock, by whether they are open; none is erased.
unfoldable pub destroy_locks : Handlers → List Bool → List Act
unfolding close_con_locks
destroy_locks h connections =
    guard connections_mut (flatten (map (λ con_open. close_con_locks h con_open false) connections))

-- What a thread calls; `own` is code of the program.
pub data LockCall : Type 0 where
  reads : ErrorCode → List Bool → Bool → Bool → LockCall
  accepts : LockCall
  connects : Bool → Bool → LockCall
  processes : List Bool → LockCall
  closes : Bool → Bool → LockCall
  destroys : List Bool → LockCall
  own : List Act → LockCall

unfoldable pub call_locks : Handlers → Bool → LockCall → List Act
unfolding handle_read_locks accept_locks connect_locks notify_listeners_locks close_con_locks
    destroy_locks
call_locks h defer (reads err messages con_open erases) =
    handle_read_locks h defer err messages con_open erases
call_locks h defer accepts = accept_locks h
call_locks h defer (connects connected network_there) = connect_locks h connected network_there
call_locks h defer (processes rounds) = notify_listeners_locks h defer rounds
call_locks h defer (closes con_open erases) = close_con_locks h con_open erases
call_locks h defer (destroys connections) = destroy_locks h connections
call_locks h defer (own acts) = acts

-- A thread: the mutexes that it has, the last one first, and what it is still to do.
pub record Thread : Type 0 where
  pub held : List Mutex
  pub rest : List Act

unfoldable pub thread_of : Handlers → Bool → List LockCall → Thread
unfolding call_locks
thread_of h defer calls = record { held = []; rest = flatten (map (call_locks h defer) calls) }

abbrev pub same_mutex : Mutex → Mutex → Bool
same_mutex connections_mut connections_mut = true
same_mutex rec_mut rec_mut = true
same_mutex pool_mut pool_mut = true
same_mutex _ _ = false

abbrev pub holds : Mutex → List Mutex → Bool
holds m [] = false
holds m (x ∷ xs) = same_mutex m x || holds m xs

abbrev pub held_by : Mutex → List Thread → Bool
held_by m [] = false
held_by m (t ∷ ts) = holds m t.held || held_by m ts

-- Whether a thread other than that at a place has a mutex.
abbrev pub held_elsewhere : Mutex → ℕ → List Thread → Bool
held_elsewhere m k [] = false
held_elsewhere m zero (t ∷ ts) = held_by m ts
held_elsewhere m (suc k) (t ∷ ts) = holds m t.held || held_elsewhere m k ts

abbrev pub set_thread : List Thread → ℕ → Thread → List Thread
set_thread [] k t = []
set_thread (x ∷ xs) zero t = t ∷ xs
set_thread (x ∷ xs) (suc k) t = x ∷ set_thread xs k t

-- The next operation of a thread; `none` where it waits, has nothing to do, or releases a mutex that is
-- not the last one that it took.
unfoldable pub act : Bool → Thread → Act → List Act → Option Thread
unfolding is_recursive
act elsewhere t (acquire m) acts =
    if not elsewhere && (is_recursive m || not (holds m t.held))
    then some (record { held = m ∷ t.held; rest = acts })
    else none
act elsewhere t (release m) acts = elim t.held [
  | [] ↦ none
  | h ∷ hs ↦ if same_mutex h m then some (record { held = hs; rest = acts }) else none
]

abbrev pub wants : Act → ℕ → List Thread → Bool
wants (acquire m) k ts = held_elsewhere m k ts
wants (release m) k ts = false

unfoldable pub next_act : ℕ → List Thread → Thread → List Act → Option Thread
unfolding act
next_act k ts t [] = none
next_act k ts t (a ∷ acts) = act (wants a k ts) t a acts

unfoldable pub lock_step : ℕ → List Thread → Option (List Thread)
unfolding next_act
lock_step k ts = do t ← get_elem? ts k; t' ← next_act k ts t t.rest; some (set_thread ts k t')

-- A schedule: which thread makes its next operation, again and again.
unfoldable pub lock_run : List ℕ → List Thread → Option (List Thread)
unfolding lock_step
lock_run [] ts = some ts
lock_run (k ∷ ks) ts = do ts' ← lock_step k ts; lock_run ks ts'
