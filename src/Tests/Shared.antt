-- ===== src/Tests/Shared.antt =====
-- Shared vectors and mutexes.
use volt_net.Common.{
  ℕ, ◌*◌, ◌≡◌, refl, true, false, leb, if◌then◌else◌, length, drop, map, flatten, All, some, List,
  [], ◌∷◌, ◌++◌, arith,
}
use volt_net.Defs.{Message}
use volt_net.NetCon.{runtime_error, success, send_msg}
use volt_net.NetCon.Lifecycle.{attached}
use volt_net.NetCon.Writing.{run, send_msgs}
use volt_net.Messages.Sharing.{
  MsgVector, SharedEvent, SharedSending, makes, writes, begins, sends, shared_run, throws, runs,
  undefined,
}
use volt_net.Messages.Sharing.Values.{values, view_all, Agree}
use volt_net.Messages.Sharing.Refinement.{sharing_lem}
use volt_net.Messages.Sharing.Programs.{sends_each, parts_of, programs_lem}
use volt_net.Messages.Sharing.Late.{one_message, late_write}
use volt_net.Network.Locks.{
  Handlers, guard, connections_mut, pool_mut, reads, accepts, destroys, own, LockCall, Thread,
  thread_of, lock_run, lock_step, next_act, act, is_recursive, call_locks, destroy_locks,
  close_con_locks, on_closed_locks, drop_message_locks, return_message_locks,
}
use volt_net.Network.Locks.Progress.{IsFinished}
use volt_net.Network.Locks.Library.{NestedHandlers, locks_lem}

abbrev doubled : ℕ → ℕ
doubled n = n * 2

-- Two writers; the second one writes while the message of the first is on its way.
abbrev two_writers : List SharedEvent
two_writers =
    makes 0
    ∷ writes 0 (1 ∷ 255 ∷ 0 ∷ [])
    ∷ begins 0
    ∷ makes 4
    ∷ sends 0 2
    ∷ writes 1 (2 ∷ 255 ∷ 0 ∷ [])
    ∷ begins 1
    ∷ sends 0 1
    ∷ sends 0 3
    ∷ []

abbrev no_messages : SharedSending
no_messages = record {
  con = attached 2;
  store = record { vectors = []; next_storage = 0 };
  sent = [];
  outstanding = [];
}

sharing_lem_example :
    Agree
      (shared_run doubled two_writers no_messages)
      (run (values doubled two_writers no_messages.store) (view_all no_messages))
sharing_lem_example =
    sharing_lem doubled two_writers no_messages
      ((tt, (tt, ((λ e. omega (arith, e)), (tt, (tt, (tt, tt)))))), ((tt, (tt, tt)), tt)) refl

-- Two messages in vectors of capacity 2 and 8, cut into parts.
abbrev in_turn : List (ℕ × Message × List ℕ)
in_turn = (2, (5 ∷ 255 ∷ 0 ∷ []), (1 ∷ 2 ∷ [])) ∷ (8, (6 ∷ 255 ∷ 0 ∷ []), (9 ∷ [])) ∷ []

programs_lem_example :
    (t : SharedSending) × (shared_run doubled (sends_each 0 in_turn) no_messages ≡ runs t)
    × (t.con ≡ send_msgs (map (λ w. w.0) (map parts_of in_turn)) no_messages.con)
    × (t.sent ≡ no_messages.sent ++ flatten (map (λ w. w.0) (map parts_of in_turn)))
    × (t.outstanding ≡ [])
programs_lem_example =
    programs_lem doubled in_turn no_messages refl
      ((omega arith, omega arith), ((omega arith, omega arith), tt))

abbrev full_vector : MsgVector
full_vector = record { content = 1 ∷ 255 ∷ 0 ∷ []; capacity = 4; storage = 0 }

late_write_example :
    shared_run doubled
      (begins 0 ∷ writes 0 (9 ∷ []) ∷ sends 0 (length full_vector.content) ∷ [])
      (one_message (attached 2) full_vector 1)
    ≡ (if leb (length (full_vector.content ++ (9 ∷ []))) full_vector.capacity
        then throws runtime_error (send_msg full_vector.content (attached 2))
        else undefined)
late_write_example =
    late_write doubled (attached 2) full_vector 1 (9 ∷ []) (omega arith) (omega arith)

-- The handlers of the chat server: it takes a message from the pool and then the lock.
abbrev relaying : Handlers
relaying = record {
  new_msg = guard pool_mut [] ++ guard connections_mut [];
  new_connection = [];
  closed_connection = [];
}

relaying-Nested : NestedHandlers relaying
relaying-Nested = (
  record { nested = λ held more only h. (only, (refl, (only, (refl, h)))) },
  record { nested = λ held more only h. h },
  record { nested = λ held more only h. h },
)

-- A thread of the pool, and the program, which uses its network and destroys it.
abbrev pool_thread : List LockCall
pool_thread = reads success (true ∷ false ∷ []) true false ∷ accepts ∷ []

abbrev main_thread : List LockCall
main_thread = own (guard connections_mut []) ∷ destroys (true ∷ []) ∷ []

-- The program has the lock twice, in the destructor and in the handler of a connection that it closes.
abbrev in_destructor : List Thread
in_destructor =
    thread_of relaying false pool_thread
    ∷ record {
      held = connections_mut ∷ connections_mut ∷ [];
      rest = drop 4 (thread_of relaying false main_thread).rest;
    }
    ∷ []

locks_lem_example :
    (more : List ℕ) × (done : List Thread) × (lock_run more in_destructor ≡ some done)
    × All IsFinished done
unfolding lock_run lock_step next_act act is_recursive thread_of call_locks destroy_locks
    close_con_locks on_closed_locks drop_message_locks return_message_locks
locks_lem_example =
    locks_lem relaying relaying-Nested false (pool_thread ∷ main_thread ∷ []) (1 ∷ 1 ∷ 1 ∷ 1 ∷ [])
      in_destructor
      ((tt, (tt, tt)), ((record { nested = λ held more only h. (only, (refl, h)) }, (tt, tt)), tt))
      refl
