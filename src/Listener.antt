-- ===== src/Listener.antt =====
-- volt_net/include/volt/net/listener.hpp and volt_net/src/volt/net/listener.cpp. The acceptors are
-- not this file's code: what is kept of one is whether it is open and how many accepts wait for
-- their handler. A socket is known by a number; the handler that gets the new sockets is recorded.
pub mod Accepting
use volt_net.Common.{
  ℕ, ◌+◌, ◌-◌, if◌then◌else◌, Bool, true, false, not, ◌&&◌, ◌||◌, List, [], ◌∷◌, ◌++◌,
}

pub record Acceptor : Type 0 where
  pub is_open : Bool
  pub pending : ℕ

pub record Listener : Type 0 where
  pub listener_open : Bool
  pub ipv4_acceptor : Acceptor
  pub ipv6_acceptor : Acceptor
  -- The sockets given to new_con_callback, oldest first.
  pub new_cons : List ℕ

abbrev pub async_accept : Acceptor → Acceptor
async_accept a = record a { pending = a.pending + 1 }

abbrev pub close_acceptor : Acceptor → Acceptor
close_acceptor a = record a { is_open = false }

-- The arguments tell whether the two acceptors are open once they are constructed.
unfoldable pub new_listener : Bool → Bool → Listener
new_listener open4 open6 =
    let ipv4 = async_accept (record { is_open = open4; pending = 0 }) in
    let ipv6 = async_accept (record { is_open = open6; pending = 0 }) in
    record {
      listener_open = ipv4.is_open && ipv6.is_open;
      ipv4_acceptor = ipv4;
      ipv6_acceptor = ipv6;
      new_cons = [];
    }

unfoldable pub accept_new_connection : Bool → ℕ → Listener → Listener
accept_new_connection err socket l =
    if not l.listener_open || err then l else record l { new_cons = l.new_cons ++ (socket ∷ []) }

-- The handler moves the socket out, and begins the next accept whatever the error says.
unfoldable pub accept_v4 : Bool → ℕ → Listener → Listener
unfolding accept_new_connection
accept_v4 err new_sock_ipv4 l =
    let accepted = accept_new_connection err new_sock_ipv4 l in
    record accepted { ipv4_acceptor = async_accept accepted.ipv4_acceptor }

unfoldable pub accept_v6 : Bool → ℕ → Listener → Listener
unfolding accept_new_connection
accept_v6 err new_sock_ipv6 l =
    let accepted = accept_new_connection err new_sock_ipv6 l in
    record accepted { ipv6_acceptor = async_accept accepted.ipv6_acceptor }

-- A cancelled accept still gets its handler.
unfoldable pub close_listener : Listener → Listener
close_listener l = if not l.listener_open then l else record l {
  listener_open = false;
  ipv4_acceptor = close_acceptor l.ipv4_acceptor;
  ipv6_acceptor = close_acceptor l.ipv6_acceptor;
}

-- The destructor.
unfoldable pub destroy_listener : Listener → Listener
unfolding close_listener
destroy_listener l = close_listener l

-- What happens to a listener: an accept is done, with an error or with a socket, or it is closed.
pub data Event : Type 0 where
  done_v4 done_v6 : Bool → ℕ → Event
  close : Event

take_pending : Acceptor → Acceptor
take_pending a = record a { pending = a.pending - 1 }

-- The acceptor takes the accept that is done off those that wait, and calls the handler.
unfoldable pub handle_event : Listener → Event → Listener
unfolding take_pending accept_v4 accept_v6 close_listener
handle_event l (done_v4 err socket) =
    accept_v4 err socket (record l { ipv4_acceptor = take_pending l.ipv4_acceptor })
handle_event l (done_v6 err socket) =
    accept_v6 err socket (record l { ipv6_acceptor = take_pending l.ipv6_acceptor })
handle_event l close = close_listener l

unfoldable pub handle_events : Listener → List Event → Listener
handle_events l [] = l
handle_events l (e ∷ es) = handle_events (handle_event l e) es
