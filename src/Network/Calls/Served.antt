-- ===== src/Network/Calls/Served.antt =====
-- What a program gets and what it sends while its connections last (volt_net/src/volt/net/network.cpp,
-- net_con.cpp and messages/msg_rec_pool.cpp together).
use volt_net.Common.{
  ℕ, ◌+◌, ◌≤◌, ◌<◌, ◌≡◌, refl, sym, ap, ◌∙◌, All, some, List, [], ◌∷◌, ◌++◌, append_assoc,
  append-nil, arith,
}
use mathlib.Core.List.{map-append}
use volt_net.Defs.{Message, con_id_mod}
use volt_net.NetCon.{NetCon}
use volt_net.NetCon.Parser.{Parser, parse, state_after, parse-append}
use volt_net.NetCon.Bytes.{parser_of}
use volt_net.NetCon.Streams.{tagged}
use volt_net.Network.{Network, ok, get_con_loop}
use volt_net.Network.Connections.{IsValid}
use volt_net.Network.Traffic.{bytes_of, from_con}
use volt_net.Network.Delivery.Lookups.{Extends, same-Extends, Extends-trans}
use volt_net.Network.Delivery.Queueing.{Delivers, messages}
use volt_net.Network.Calls.{Call, call_all, sent_on, events}
use volt_net.Network.Calls.Effects.{uses_all, Proper, bytes_on, bytes_of-events}
use volt_net.Network.Calls.Any.{call-Effect}

-- A valid network with a handler for messages, which calls nothing of the network, and none for new
-- connections, while ids are left; it may keep messages for process_new_msgs or not, but then none
-- waits. In any order the program sends, to one connection that is there or to all, listens, stops,
-- takes ids, sets its other handlers and connects, which may fail, and connections are accepted, reads
-- that fit the buffer finish and messages are asked for. As long as no connection ends, that is no read
-- fails and the program closes none, and the program adds none of its own, no call fails, the network
-- stays valid, no other ids are taken and new connections stand behind the others. Each connection is
-- still found by its id; the program's messages to it, those to all included, and nothing else, have
-- been handed to its socket in the order of the calls; and the program's messages from it, those that
-- wait included, grew by what the parser finds in the bytes of that connection alone.
pub call_all_lem :
    (cs : List Call) (net : Network)
    → IsValid net
    → Delivers net
    → All Proper cs
    → net.next_id + uses_all cs < con_id_mod
    → (after : Network) × (call_all cs net ≡ ok after)
      × IsValid after
      × Delivers after
      × (after.next_id ≤ net.next_id + uses_all cs)
      × Extends net.connections after.connections
      × ((id : ℕ) (c : NetCon)
          → get_con_loop id net.connections ≡ some c
          → (d : NetCon) × (get_con_loop id after.connections ≡ some d)
            × (d.writes ≡ c.writes ++ sent_on id cs)
            × (from_con id (messages after)
                ≡ from_con id (messages net)
                  ++ tagged id (parse (parser_of c) (bytes_of id (events cs)))))
unfolding call_all sent_on bytes_of
call_all_lem [] net valid v proper room = (
  net,
  refl,
  valid,
  v,
  omega arith,
  same-Extends net.connections net.connections refl,
  λ id c found. (c, found, sym (append-nil c.writes), unfold parse in sym (append-nil _)),
)
call_all_lem (call ∷ cs) net valid v proper room =
    let (mid, eq, m) = call-Effect call net valid v proper.0 (omega arith) in
    let (after, eq', valid', v', next, extends, each) =
      call_all_lem cs mid m.valid m.still proper.1 (omega (arith, m.next)) in
    (
      after,
      rw eq eq',
      valid',
      v',
      omega (arith, m.next),
      Extends-trans net.connections mid.connections after.connections m.extends extends,
      λ id c found.
          let (d, there, parser, writes, got) = m.each id c found in
          let (last, found', writes', got') = each id d there in
          (
            last,
            found',
            writes' ∙ rw writes (append_assoc c.writes _ _),
            got' ∙ rw (got, parser) (joined id (parser_of c)),
          ),
    )
  where
    joined :
        (id : ℕ) (p : Parser)
        → (from_con id (messages net) ++ tagged id (parse p (bytes_on id call)))
            ++ tagged id (parse (state_after p (bytes_on id call)) (bytes_of id (events cs)))
          ≡ from_con id (messages net) ++ tagged id (parse p (bytes_of id (events (call ∷ cs))))
    joined id p =
        append_assoc (from_con id (messages net)) _ _
        ∙ ap (λ ms. from_con id (messages net) ++ ms)
            (sym (map-append {B = ℕ × Message} (λ m. (id, m)) (parse p (bytes_on id call)) _))
        ∙ ap (λ ms. from_con id (messages net) ++ tagged id ms)
            (sym (parse-append p (bytes_on id call) (bytes_of id (events cs)))
              ∙ ap (parse p) (sym (bytes_of-events id call cs)))
