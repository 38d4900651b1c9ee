-- ===== src/Network/Locks/Library.antt =====
-- The functions of volt_net/src/volt/net/ take their mutexes in order, so that threads which run them do
-- not block each other for good.
use volt_net.Common.{
  ℕ, ◌≡◌, refl, subst, if◌then◌else◌, Bool, true, false, not, ◌&&◌, flatten, map, All, append_assoc,
  some, List, [], ◌∷◌, ◌++◌, append-nil, arith,
}
use volt_net.NetCon.{success, eof, other_error}
use volt_net.Network.Locks.{
  Mutex, connections_mut, rec_mut, pool_mut, Act, release, guard, Handlers, get_message_locks,
  return_message_locks, drop_message_locks, submit_message_locks, notify_listeners_locks,
  on_new_msg_locks, on_closed_locks, close_con_locks, handle_read_locks, accept_locks,
  connect_locks, destroy_locks, LockCall, reads, accepts, connects, processes, closes, destroys,
  own, call_locks, Thread, thread_of, lock_run,
}
use volt_net.Network.Locks.Order.{Ordered, count, total, IsGood}
use volt_net.Network.Locks.Progress.{IsFinished}
use volt_net.Network.Locks.Ends.{finish, run-IsGood}

-- Code that may stand wherever a thread has no mutex but `connections_mut`: it takes its mutexes in order
-- and releases them again.
pub record Nested (acts : List Act) : Type 0 where
  pub nested :
      (held : List Mutex) (more : List Act)
      → All (λ x. x ≡ connections_mut) held
      → Ordered held more
      → Ordered held (acts ++ more)

Nested-append : (xs ys : List Act) → Nested xs → Nested ys → Nested (xs ++ ys)
Nested-append xs ys hx hy = record {
  nested = λ held more only h.
      rw (append_assoc xs ys more) (hx.nested held (ys ++ more) only (hy.nested held more only h));
}

Nested-nil : Nested []
Nested-nil = record { nested = λ held more only h. h }

Nested-flatten :
    {A : Type 0} (f : A → List Act) (xs : List A)
    → ((x : A) → Nested (f x))
    → Nested (flatten (map f xs))
Nested-flatten f [] h = Nested-nil
Nested-flatten f (x ∷ xs) h = Nested-append (f x) (flatten (map f xs)) (h x) (Nested-flatten f xs h)

Nested-leaf : (m : Mutex) → Nested (guard m [])
Nested-leaf m = record { nested = λ held more only h. (only, (refl, h)) }

Nested-guard : (body : List Act) → Nested body → Nested (guard connections_mut body)
Nested-guard body hb = record {
  nested = λ held more only h. (
    only,
    rw (append_assoc body (release connections_mut ∷ []) more) (
        hb.nested (connections_mut ∷ held) (release connections_mut ∷ more) (refl, only) (refl, h)),
  );
}

Nested-if : (b : Bool) (xs ys : List Act) → Nested xs → Nested ys → Nested (if b then xs else ys)
Nested-if true xs ys hx hy = hx
Nested-if false xs ys hx hy = hy

-- What is asked of the program's handlers.
abbrev pub NestedHandlers : Handlers → Type 0
NestedHandlers h = Nested h.new_msg × Nested h.new_connection × Nested h.closed_connection

drop_message_locks-Nested : (last : Bool) → Nested (drop_message_locks last)
unfolding drop_message_locks return_message_locks
drop_message_locks-Nested last = Nested-if last _ [] (Nested-leaf pool_mut) Nested-nil

module _ (h : Handlers) (hv : NestedHandlers h) (defer : Bool) where
  on_new_msg_locks-Nested : (last : Bool) → Nested (on_new_msg_locks h defer last)
  unfolding on_new_msg_locks submit_message_locks
  on_new_msg_locks-Nested last =
      Nested-append _ (drop_message_locks last)
        (Nested-guard _ (Nested-if defer _ h.new_msg (Nested-leaf rec_mut) hv.0))
        (drop_message_locks-Nested last)

  close_con_locks-Nested : (con_open erases : Bool) → Nested (close_con_locks h con_open erases)
  unfolding close_con_locks on_closed_locks
  close_con_locks-Nested con_open erases =
      Nested-if con_open _ []
        (Nested-guard _
          (Nested-append h.closed_connection _ hv.2 (drop_message_locks-Nested erases)))
        Nested-nil

  get_message_locks-Nested : Nested get_message_locks
  unfolding get_message_locks
  get_message_locks-Nested = Nested-leaf pool_mut

  -- The program's own code is as asked.
  abbrev OwnNested : LockCall → Type 0
  OwnNested (own acts) = Nested acts
  OwnNested _ = Unit

  call_locks-Nested : (call : LockCall) → OwnNested call → Nested (call_locks h defer call)
  unfolding call_locks handle_read_locks accept_locks connect_locks notify_listeners_locks
      destroy_locks
  call_locks-Nested (reads success messages con_open erases) o = Nested-flatten _ messages (λ last.
      Nested-append _ get_message_locks (on_new_msg_locks-Nested last) get_message_locks-Nested)
  call_locks-Nested (reads eof messages con_open erases) o = close_con_locks-Nested con_open erases
  call_locks-Nested (reads other_error messages con_open erases) o =
      close_con_locks-Nested con_open erases
  call_locks-Nested accepts o =
      Nested-guard _
        (Nested-append get_message_locks h.new_connection get_message_locks-Nested hv.1)
  call_locks-Nested (connects connected network_there) o =
      Nested-if (connected && network_there) _ []
        (Nested-append get_message_locks _ get_message_locks-Nested
          (Nested-guard h.new_connection hv.1))
        Nested-nil
  call_locks-Nested (processes rounds) o = Nested-if (not defer) [] _ Nested-nil (
      Nested-flatten _ rounds (λ last.
        Nested-append (guard rec_mut []) _ (Nested-leaf rec_mut)
          (Nested-append h.new_msg _ hv.0 (drop_message_locks-Nested last))))
  call_locks-Nested (closes con_open erases) o = close_con_locks-Nested con_open erases
  call_locks-Nested (destroys connections) o =
      Nested-guard _
        (Nested-flatten _ connections (λ con_open. close_con_locks-Nested con_open false))
  call_locks-Nested (own acts) o = o

  calls-Nested :
      (calls : List LockCall)
      → All OwnNested calls
      → Nested (flatten (map (call_locks h defer) calls))
  calls-Nested [] o = Nested-nil
  calls-Nested (call ∷ calls) o =
      Nested-append _ _ (call_locks-Nested call o.0) (calls-Nested calls o.1)

  thread_of-Ordered :
      (calls : List LockCall)
      → All OwnNested calls
      → Ordered (thread_of h defer calls).held (thread_of h defer calls).rest
  unfolding thread_of
  thread_of-Ordered calls o =
      subst (Ordered []) (append-nil (flatten (map (call_locks h defer) calls)))
        ((calls-Nested calls o).nested [] [] tt refl)

  start-count :
      (m : Mutex) (threads : List (List LockCall)) → count m (map (thread_of h defer) threads) ≡ 0
  unfolding thread_of
  start-count m [] = refl
  start-count m (calls ∷ threads) = omega (arith, start-count m threads)

  start-IsGood :
      (threads : List (List LockCall))
      → All (All OwnNested) threads
      → IsGood (map (thread_of h defer) threads)
  start-IsGood threads o = record {
    ordered = all_ordered threads o;
    exclusive = λ m. omega (arith, start-count m threads);
  }
    where
      all_ordered :
          (threads : List (List LockCall))
          → All (All OwnNested) threads
          → All (λ t. Ordered t.held t.rest) (map (thread_of h defer) threads)
      all_ordered [] o = tt
      all_ordered (calls ∷ threads) o = (thread_of-Ordered calls o.0, all_ordered threads o.1)

  -- Any number of threads that run functions of the library and code of the program, where that code and
  -- the program's three handlers take their mutexes in order and release them again: whatever has
  -- happened so far, there is a way on in which every thread comes to its end, so that no threads wait
  -- for each other for good.
  pub locks_lem :
      (threads : List (List LockCall)) (ks : List ℕ) (ts : List Thread)
      → All (All OwnNested) threads
      → lock_run ks (map (thread_of h defer) threads) ≡ some ts
      → (more : List ℕ) × (done : List Thread) × (lock_run more ts ≡ some done)
        × All IsFinished done
  locks_lem threads ks ts o e =
      finish (total ts) ts refl (run-IsGood ks _ ts (start-IsGood threads o) e)
