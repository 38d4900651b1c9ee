-- ===== src/Network/Calls/Any.antt =====
-- What the proper calls of volt_net/include/volt/net/network.hpp do to the connections of a network.
use volt_net.Common.{
  List, Bool, true, false, sym, ◌∙◌, append-nil, ◌+◌, ◌<◌, ◌≡◌, refl, Option, none, some, arith,
}
use volt_net.Defs.{con_id_mod}
use volt_net.NetCon.{NetCon}
use volt_net.Listener.{Listener}
use volt_net.Network.{
  Network, Attempt, get_con_loop, close, start_listening, set_new_msg_handler,
  set_closed_connection_callback,
}
use volt_net.Network.Connections.{IsValid}
use volt_net.Network.Delivery.Queueing.{Delivers}
use volt_net.Connect.{connect_task}
use volt_net.Network.Ids.{total}
use volt_net.Network.Traffic.{accepted, step, bytes_in}
use volt_net.Network.Delivery.Steps.{step-Moved}
use volt_net.Network.Calls.{
  connect_alive, Call, send_to, send_all, listens, closes, takes_id, sets_new_msg,
  sets_new_connection, sets_closed_connection, connects, adds, closes_con, read_fails, runs, call,
  sent_in,
}
use volt_net.Network.Calls.Effects.{uses, Proper, quiet-Effect}
use volt_net.Network.Calls.Each.{
  Succeeds, send_to-Effect, send_to_none-Effect, send_all-Effect, takes_id-Effect, runs-Effect,
}

listens-Effect :
    (constructed : Option Listener) (net : Network)
    → IsValid net
    → Delivers net
    → Succeeds (listens constructed) net
unfolding call sent_in start_listening
listens-Effect constructed net valid v = go net.net_listener refl
  where
    go : (l : Option Listener) → net.net_listener ≡ l → Succeeds (listens constructed) net
    go (some l) e = (
      net,
      simp (e, call, start_listening),
      quiet-Effect net net (listens constructed) valid v refl refl refl (λ id. refl) (λ id. refl),
    )
    go none e =
        let after = record net { net_listener = constructed } in
        (
          after,
          rw (e, call, start_listening),
          quiet-Effect net after (listens constructed) valid
              (record {
                same_size = v.same_size;
                waits = v.waits;
                has_handler = v.has_handler;
                quiet = v.quiet;
              })
              refl refl refl (λ id. refl) (λ id. refl),
        )

-- A failure leaves the network as it is, and else it is an accept.
connects-Effect :
    (resolve_err connect_err : Bool) (attempts : List Attempt) (net : Network)
    → IsValid net
    → Delivers net
    → net.next_id + (total attempts + 1) < con_id_mod
    → Succeeds (connects resolve_err connect_err attempts) net
unfolding call sent_in connect_task connect_alive step bytes_in
connects-Effect true connect_err attempts net valid v room = (
  net,
  refl,
  quiet-Effect net net (connects true connect_err attempts) valid v refl refl refl (λ id. refl)
      (λ id. refl),
)
connects-Effect false true attempts net valid v room = (
  net,
  refl,
  quiet-Effect net net (connects false true attempts) valid v refl refl refl (λ id. refl)
      (λ id. refl),
)
connects-Effect false false attempts net valid v room =
    let (after, eq, m) = step-Moved (accepted attempts) net valid v tt room in
    (
      after,
      rw (connect_task, eq),
      record {
        valid = m.valid;
        next = m.next;
        still = m.still;
        extends = m.extends;
        each = λ id c found.
            let (d, there, got, parser, writes) = m.each id c found in
            (d, there, parser, writes ∙ sym (append-nil c.writes), got);
      },
    )

-- Every proper call.
pub call-Effect :
    (c : Call) (net : Network)
    → IsValid net
    → Delivers net
    → Proper c
    → net.next_id + uses c < con_id_mod
    → Succeeds c net
unfolding call sent_in close set_new_msg_handler set_closed_connection_callback
call-Effect (send_to i msg) net valid v proper room = go (get_con_loop i net.connections) refl
  where
    go :
        (found : Option NetCon)
        → get_con_loop i net.connections ≡ found
        → Succeeds (send_to i msg) net
    go (some con) at = send_to-Effect i msg net con valid v at
    go none at = send_to_none-Effect i msg net valid v at
call-Effect (send_all msg) net valid v proper room = send_all-Effect msg net valid v
call-Effect (listens constructed) net valid v proper room = listens-Effect constructed net valid v
call-Effect closes net valid v proper room = (
  close net,
  refl,
  quiet-Effect net (close net) closes valid
      (record {
        same_size = v.same_size;
        waits = v.waits;
        has_handler = v.has_handler;
        quiet = v.quiet;
      })
      refl refl refl (λ id. refl) (λ id. refl),
)
call-Effect (takes_id attempts) net valid v proper room =
    takes_id-Effect attempts net valid v (omega arith)
call-Effect sets_new_msg net valid v proper room = (
  set_new_msg_handler net,
  refl,
  quiet-Effect net (set_new_msg_handler net) sets_new_msg valid
      (record { same_size = v.same_size; waits = v.waits; has_handler = refl; quiet = v.quiet })
      refl refl refl (λ id. refl) (λ id. refl),
)
call-Effect sets_new_connection net valid v proper room = elim proper [ ]
call-Effect sets_closed_connection net valid v proper room = (
  set_closed_connection_callback net,
  refl,
  quiet-Effect net (set_closed_connection_callback net) sets_closed_connection valid
      (record {
        same_size = v.same_size;
        waits = v.waits;
        has_handler = v.has_handler;
        quiet = v.quiet;
      })
      refl refl refl (λ id. refl) (λ id. refl),
)
call-Effect (connects resolve_err connect_err attempts) net valid v proper room =
    connects-Effect resolve_err connect_err attempts net valid v room
call-Effect (adds con) net valid v proper room = elim proper [ ]
call-Effect (closes_con index) net valid v proper room = elim proper [ ]
call-Effect (read_fails err index) net valid v proper room = elim proper [ ]
call-Effect (runs e) net valid v proper room = runs-Effect e net valid v proper room
