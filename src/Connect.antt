-- ===== src/Connect.antt =====
-- volt_net/include/volt/net/AsyncStateHandler.hpp, the enumeration of net_con.hpp, and
-- network::server_connect of volt_net/src/volt/net/network.cpp.
pub mod Progress
use volt_net.Common.{
  ℕ, ◌%◌, ◌==◌, if◌then◌else◌, Bool, true, false, Option, none, some, List, [], ◌∷◌, ◌++◌,
}
use volt_net.Network.{
  Network, NetOutcome, ok, throws, undefined_behaviour, ◌>>=◌, Attempt, accept_connection,
}

pub data ServerConnectStatus : Type 0 where
  connecting connected failed : ServerConnectStatus

-- The values of the enumerators.
unfoldable pub to_value : ServerConnectStatus → ℕ
to_value connecting = 0
to_value connected = 1
to_value failed = 2

-- `none` is a value that no enumerator has.
unfoldable pub from_value : ℕ → Option ServerConnectStatus
from_value n =
    if n == 0
    then some connecting
    else if n == 1
    then some connected
    else if n == 2
    then some failed
    else none

-- The atomic byte, with all values that were stored in it, oldest first.
pub record AsyncStateHandler : Type 0 where
  pub status : ℕ
  pub history : List ℕ

unfoldable pub create_handler : AsyncStateHandler
create_handler = record { status = 0; history = [] }

unfoldable pub set_state : ServerConnectStatus → AsyncStateHandler → AsyncStateHandler
unfolding to_value
set_state state h =
    let value = to_value state % 256 in
    record { status = value; history = h.history ++ (value ∷ []) }

unfoldable pub get_state : AsyncStateHandler → Option ServerConnectStatus
unfolding from_value
get_state h = from_value h.status

-- What server_connect returns before the posted task runs.
unfoldable pub server_connect : AsyncStateHandler
unfolding create_handler set_state
server_connect = set_state connecting create_handler

-- The posted task: whether the resolver and the connection report an error, and the network unless
-- it is gone.
unfoldable pub connect_task :
    Bool
    → Bool
    → List Attempt
    → Option Network
    → AsyncStateHandler
    → NetOutcome (Option Network × AsyncStateHandler)
unfolding set_state
connect_task resolve_err connect_err attempts net state =
    let add : NetOutcome (Option Network × AsyncStateHandler) = elim net [
      | none ↦ ok (none, set_state connected state)
      | some n ↦ accept_connection attempts n >>= (λ n'. ok (some n', set_state connected state))
    ] in
    if resolve_err
    then ok (net, set_state failed state)
    else if connect_err
    then ok (net, set_state failed state)
    else add
