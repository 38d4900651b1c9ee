-- ===== src/Listener/Accepting.antt =====
-- Which sockets a listener hands on, and which accepts it leaves behind.
use volt_net.Common.{
  ℕ, ◌≡◌, refl, sym, ◌∙◌, if◌then◌else◌, Bool, true, false, ◌&&◌, List, [], ◌∷◌, ◌++◌, append_assoc,
  append-nil, arith,
}
use volt_net.Listener.{
  Listener, new_listener, Event, done_v4, done_v6, close, close_listener, destroy_listener,
  handle_event, handle_events,
}

-- The sockets of the accepts that succeed before the listener is closed.
abbrev pub accepted : List Event → List ℕ
accepted [] = []
accepted (done_v4 err socket ∷ es) = (if err then [] else socket ∷ []) ++ accepted es
accepted (done_v6 err socket ∷ es) = (if err then [] else socket ∷ []) ++ accepted es
accepted (close ∷ es) = []

-- Both acceptors have one accept outstanding, and are open as long as the listener is.
pub record IsListening (l : Listener) : Type 0 where
  pub one_v4 : l.ipv4_acceptor.pending ≡ 1
  pub one_v6 : l.ipv6_acceptor.pending ≡ 1
  pub open_v4 : l.listener_open ≡ true → l.ipv4_acceptor.is_open ≡ true
  pub open_v6 : l.listener_open ≡ true → l.ipv6_acceptor.is_open ≡ true

new_listener-IsListening : (open4 open6 : Bool) → IsListening (new_listener open4 open6)
unfolding new_listener
new_listener-IsListening open4 open6 = ground arith

handle_event-IsListening :
    (l : Listener) (e : Event) → IsListening l → IsListening (handle_event l e)
unfolding handle_event
handle_event-IsListening l (done_v4 err socket) v =
    ground (arith, v.one_v4, v.one_v6, v.open_v4, v.open_v6)
handle_event-IsListening l (done_v6 err socket) v =
    ground (arith, v.one_v4, v.one_v6, v.open_v4, v.open_v6)
handle_event-IsListening l close v = ground (arith, v.one_v4, v.one_v6, v.open_v4, v.open_v6)

handle_events-IsListening :
    (l : Listener) (es : List Event) → IsListening l → IsListening (handle_events l es)
unfolding handle_events
handle_events-IsListening l [] v = v
handle_events-IsListening l (e ∷ es) v =
    handle_events-IsListening (handle_event l e) es (handle_event-IsListening l e v)

-- At any time each acceptor has exactly one accept outstanding. That is so after the listener was
-- closed, too: the handler of each cancelled or failed accept begins another one.
pub handle_events_pending :
    (open4 open6 : Bool) (es : List Event)
    → let l = handle_events (new_listener open4 open6) es in
      (l.ipv4_acceptor.pending ≡ 1) × (l.ipv6_acceptor.pending ≡ 1)
handle_events_pending open4 open6 es =
    let v =
      handle_events-IsListening (new_listener open4 open6) es
        (new_listener-IsListening open4 open6) in
    (v.one_v4, v.one_v6)

closed_step :
    (l : Listener) (e : Event)
    → l.listener_open ≡ false
    → ((handle_event l e).new_cons ≡ l.new_cons) × ((handle_event l e).listener_open ≡ false)
unfolding handle_event
closed_step l (done_v4 err socket) h = ground arith
closed_step l (done_v6 err socket) h = ground arith
closed_step l close h = ground arith

closed_stays :
    (l : Listener) (es : List Event)
    → l.listener_open ≡ false
    → (handle_events l es).new_cons ≡ l.new_cons
unfolding handle_events
closed_stays l [] h = refl
closed_stays l (e ∷ es) h =
    let (same, shut) = closed_step l e h in closed_stays (handle_event l e) es shut ∙ same

open_step :
    (l : Listener) (err : Bool) (socket : ℕ)
    → l.listener_open ≡ true
    → (((handle_event l (done_v4 err socket)).new_cons
          ≡ l.new_cons ++ (if err then [] else socket ∷ []))
        × ((handle_event l (done_v4 err socket)).listener_open ≡ true))
      × (((handle_event l (done_v6 err socket)).new_cons
            ≡ l.new_cons ++ (if err then [] else socket ∷ []))
          × ((handle_event l (done_v6 err socket)).listener_open ≡ true))
unfolding handle_event
open_step l err socket h = ground (arith, append-nil l.new_cons)

close_step :
    (l : Listener)
    → l.listener_open ≡ true
    → ((handle_event l close).new_cons ≡ l.new_cons)
      × ((handle_event l close).listener_open ≡ false)
unfolding handle_event
close_step l h = ground arith

open_accepts :
    (l : Listener) (es : List Event)
    → l.listener_open ≡ true
    → (handle_events l es).new_cons ≡ l.new_cons ++ accepted es
unfolding handle_events
open_accepts l [] h = sym (append-nil l.new_cons)
open_accepts l (done_v4 err socket ∷ es) h =
    let (same, still) = (open_step l err socket h).0 in
    open_accepts (handle_event l (done_v4 err socket)) es still
    ∙ rw same (append_assoc l.new_cons _ (accepted es))
open_accepts l (done_v6 err socket ∷ es) h =
    let (same, still) = (open_step l err socket h).1 in
    open_accepts (handle_event l (done_v6 err socket)) es still
    ∙ rw same (append_assoc l.new_cons _ (accepted es))
open_accepts l (close ∷ es) h =
    let (same, shut) = close_step l h in
    closed_stays (handle_event l close) es shut ∙ same ∙ sym (append-nil l.new_cons)

-- The sockets handed on are those of the accepts that succeed while the listener is open, in order
-- and each once, if both acceptors could be opened; and none if not.
pub handle_events_new_cons :
    (open4 open6 : Bool) (es : List Event)
    → (handle_events (new_listener open4 open6) es).new_cons
      ≡ (if open4 && open6 then accepted es else [])
unfolding new_listener
handle_events_new_cons true true es = open_accepts (new_listener true true) es refl
handle_events_new_cons true false es = closed_stays (new_listener true false) es refl
handle_events_new_cons false true es = closed_stays (new_listener false true) es refl
handle_events_new_cons false false es = closed_stays (new_listener false false) es refl

-- After the destructor a listener is closed, and it does nothing to one that is closed already.
destroy_listener_lem :
    (l : Listener)
    → ((destroy_listener l).listener_open ≡ false)
      × (destroy_listener (close_listener l) ≡ close_listener l)
unfolding destroy_listener close_listener
destroy_listener_lem l = ground arith
