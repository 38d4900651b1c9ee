-- ===== src/Network/Delivery.antt =====
-- What arrives on the connections of a running network reaches the program: network.cpp, net_con.cpp
-- and messages/msg_rec_pool.cpp together, under volt_net/src/volt/net/.
pub mod Lookups
pub mod Queueing
pub mod Moves
pub mod Steps
use volt_net.Common.{
  map, flatten, ℕ, ◌+◌, ◌<◌, ◌≡◌, refl, sym, ap, ◌∙◌, some, List, [], ◌∷◌, ◌++◌, All, append_assoc,
  append-nil, arith,
}
use mathlib.Core.List.{map-append}
use volt_net.Defs.{Message, con_id_mod}
use volt_net.NetCon.{NetCon}
use volt_net.NetCon.Parser.{Parser, parse, state_after, parse-append, start, frame, parse-frames}
use volt_net.NetCon.Bytes.{parser_of}
use volt_net.NetCon.Streams.{tagged}
use volt_net.Network.{Network, ok, get_con_loop}
use volt_net.Network.Connections.{IsValid}
use volt_net.Network.Traffic.{Event, taken_by, Fits, run, bytes_in, bytes_of, from_con}
use volt_net.Network.Delivery.Queueing.{Delivers, messages}
use volt_net.Network.Delivery.Steps.{step-Moved}

-- A valid network with a handler for messages and none for new connections, in which none waits if
-- it does not keep them for process_new_msgs, while ids are left: whatever the order in which
-- connections are accepted, reads of connections finish and the program asks for messages, no step
-- fails and the network stays valid. The messages of each connection, those that the program got and
-- behind them those that wait, grow by what the parser finds in the bytes of that connection alone,
-- in order and each once.
pub run-Delivered :
    (es : List Event) (net : Network)
    → IsValid net
    → Delivers net
    → All Fits es
    → net.next_id + taken_by es < con_id_mod
    → (after : Network) × (run es net ≡ ok after)
      × IsValid after
      × Delivers after
      × ((id : ℕ) (c : NetCon)
          → get_con_loop id net.connections ≡ some c
          → from_con id (messages after)
            ≡ from_con id (messages net) ++ tagged id (parse (parser_of c) (bytes_of id es)))
unfolding run bytes_of
run-Delivered [] net valid v fits room =
    (net, refl, valid, v, λ id c found. unfold parse in sym (append-nil _))
run-Delivered (e ∷ es) net valid v fits room =
    let (mid, eq, m) = step-Moved e net valid v fits.0 (omega arith) in
    let (after, eq', valid', v', each) =
      run-Delivered es mid m.valid m.still fits.1 (omega (arith, m.next)) in
    (
      after,
      rw eq eq',
      valid',
      v',
      λ id c found.
          let (d, there, first, parser, writes) = m.each id c found in
          each id d there ∙ rw (first, parser) (joined id (parser_of c)),
    )
  where
    joined :
        (id : ℕ) (p : Parser)
        → (from_con id (messages net) ++ tagged id (parse p (bytes_in id e)))
            ++ tagged id (parse (state_after p (bytes_in id e)) (bytes_of id es))
          ≡ from_con id (messages net) ++ tagged id (parse p (bytes_in id e ++ bytes_of id es))
    joined id p =
        append_assoc (from_con id (messages net)) _ _
        ∙ ap (λ ms. from_con id (messages net) ++ ms)
            (sym (map-append {B = ℕ × Message} (λ m. (id, m)) (parse p (bytes_in id e)) _))
        ∙ ap (λ ms. from_con id (messages net) ++ tagged id ms)
            (sym (parse-append p (bytes_in id e) (bytes_of id es)))

-- A valid network with a handler for messages and none for new connections, in which none waits if
-- it does not keep them for process_new_msgs, while ids are left, and a connection of it that is
-- between two messages: if the bytes that arrive on it are whole messages in escaped form, cut
-- anywhere, then whatever happens in between, those messages are added to what the program got from
-- it and what waits, in order and each once.
pub run-frames :
    (es : List Event) (net : Network) (id : ℕ) (c : NetCon) (ms : List Message)
    → IsValid net
    → Delivers net
    → All Fits es
    → net.next_id + taken_by es < con_id_mod
    → get_con_loop id net.connections ≡ some c
    → parser_of c ≡ start
    → bytes_of id es ≡ flatten (map frame ms)
    → (after : Network) × (run es net ≡ ok after)
      × (from_con id (messages after) ≡ from_con id (messages net) ++ tagged id ms)
run-frames es net id c ms valid v fits room found between framed =
    let (after, eq, valid', v', each) = run-Delivered es net valid v fits room in
    (after, eq, each id c found ∙ rw (between, framed, parse-frames ms))
