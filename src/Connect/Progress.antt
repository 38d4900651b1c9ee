-- ===== src/Connect/Progress.antt =====
-- What a program sees of server_connect.
use volt_net.Common.{
  ◌+◌, ◌<◌, ◌≡◌, refl, if◌then◌else◌, Bool, true, false, ◌||◌, Option, none, some, List, [], ◌∷◌,
  ◌++◌,
}
use volt_net.Defs.{con_id_mod}
use volt_net.NetCon.Lifecycle.{attached}
use volt_net.Network.{Network, ok, Attempt, get_next_id}
use volt_net.Network.Ids.{total}
use volt_net.Network.Connections.{IsValid, accept_connection_lem}
use volt_net.Connect.{
  ServerConnectStatus, connecting, connected, failed, AsyncStateHandler, set_state, get_state,
  server_connect, connect_task,
}

-- A state that was set is the state that is read, whatever stood there before.
pub get_state-set_state :
    (state : ServerConnectStatus) (h : AsyncStateHandler)
    → get_state (set_state state h) ≡ some state
unfolding get_state set_state
get_state-set_state connecting h = refl
get_state-set_state connected h = refl
get_state-set_state failed h = refl

-- Where the network is still there, it is valid.
abbrev pub IsValidIfThere : Option Network → Type 0
IsValidIfThere none = Unit
IsValidIfThere (some net) = IsValid net

-- Where the network is still there, it is valid, has no handler for new connections and ids left.
abbrev pub Accepts : List Attempt → Option Network → Type 0
Accepts attempts none = Unit
Accepts attempts (some net) =
    IsValid net
    × (net.next_id + total attempts + 1 < con_id_mod)
    × (net.has_new_connection_callback ≡ false)

-- Where the network is still there, it has one more connection, under the next id.
abbrev pub with_connection : List Attempt → Option Network → Option Network
with_connection attempts none = none
with_connection attempts (some net) =
    let (id, next_id) = get_next_id attempts net.next_id in
    some (record net { next_id = next_id; connections = net.connections ++ (attached id ∷ []) })

still_there :
    (attempts : List Attempt) (net : Option Network) → Accepts attempts net → IsValidIfThere net
still_there attempts none p = tt
still_there attempts (some net) p = p.0

-- The task that server_connect posts, with the network still there or gone by then; a network that is
-- there is valid, without a handler for new connections and with ids left. The task returns on every
-- branch. If the resolver or the connection reports an error it ends in `failed` and the network is as
-- it was. Else it ends in `connected`, a network that is there has one more connection, under the next
-- id, and is valid, and for one that is gone nothing is added.
pub connect_task_lem :
    (resolve_err connect_err : Bool) (attempts : List Attempt) (net : Option Network)
    → Accepts attempts net
    → let error = resolve_err || connect_err in
      (after : Option Network) × (state : AsyncStateHandler) × (connect_task resolve_err connect_err
          attempts net server_connect
        ≡ ok (after, state))
      × (get_state state ≡ (if error then some failed else some connected))
      × (after ≡ (if error then net else with_connection attempts net))
      × IsValidIfThere after
unfolding connect_task
connect_task_lem true connect_err attempts net p = (
  net,
  set_state failed server_connect,
  refl,
  get_state-set_state failed server_connect,
  refl,
  still_there attempts net p,
)
connect_task_lem false true attempts net p = (
  net,
  set_state failed server_connect,
  refl,
  get_state-set_state failed server_connect,
  refl,
  still_there attempts net p,
)
connect_task_lem false false attempts none p = (
  none,
  set_state connected server_connect,
  refl,
  get_state-set_state connected server_connect,
  refl,
  tt,
)
connect_task_lem false false attempts (some net) (v, room, quiet) =
    let (eq, v', found) = accept_connection_lem attempts net v room quiet in
    (
      _,
      set_state connected server_connect,
      rw eq,
      get_state-set_state connected server_connect,
      refl,
      v',
    )
