-- ===== src/Network/Calls/Links.antt =====
-- Two programs on two machines, each with its network (volt_net/src/volt/net/network.cpp, net_con.cpp and
-- messages/ on both sides), and a connection between them.
use volt_net.Common.{
  ℕ, ◌+◌, ◌<◌, ◌≡◌, refl, sym, ap, ◌∙◌, All, map, flatten, Option, none, some, List, [], ◌++◌,
}
use volt_net.Defs.{Message, con_id_mod}
use volt_net.NetCon.{NetCon}
use volt_net.NetCon.Parser.{start, frame, parse, state_after, parse-append, parse-frames}
use volt_net.NetCon.Bytes.{parser_of}
use volt_net.NetCon.Streams.{tagged}
use volt_net.Codec.{Codec}
use volt_net.Messages.Exchange.{Pairs, write_message, Holds, write_messages-frames}
use volt_net.Network.{
  Network, NetOutcome, ok, throws, undefined_behaviour, get_con_loop, process_new_msgs,
}
use volt_net.Network.Connections.{IsValid}
use volt_net.Network.Traffic.{bytes_of, from_con}
use volt_net.Network.Delivery.Queueing.{Delivers, messages, process_new_msgs-Added}
use volt_net.Network.Calls.{Call, call_all, sent_on, events}
use volt_net.Network.Calls.Effects.{uses_all, Proper}
use volt_net.Network.Calls.Served.{call_all_lem}

-- A valid network with a handler for messages and none for new connections, in which none waits if it does
-- not keep them for process_new_msgs, and with ids enough for some calls, which are proper.
pub record Prepared (cs : List Call) (net : Network) : Type 0 where
  pub valid : IsValid net
  pub delivers : Delivers net
  pub proper : All Proper cs
  pub room : net.next_id + uses_all cs < con_id_mod

abbrev written_by : Option NetCon → List ℕ
written_by none = []
written_by (some c) = flatten c.writes

-- All that a network has handed to the socket of a connection, after some calls.
abbrev pub wrote : ℕ → NetOutcome Network → List ℕ
wrote id (ok net) = written_by (get_con_loop id net.connections)
wrote id (throws x) = []
wrote id undefined_behaviour = []

-- All that is written on a connection on which nothing was written before is what is sent there.
pub wrote-sent_on :
    (i : ℕ) (cs : List Call) (net : Network) (a : NetCon)
    → Prepared cs net
    → get_con_loop i net.connections ≡ some a
    → a.writes ≡ []
    → wrote i (call_all cs net) ≡ flatten (sent_on i cs)
wrote-sent_on i cs net a p found idle =
    let (after, ran, v, w, next, extends, each) =
      call_all_lem cs net p.valid p.delivers p.proper p.room in
    let (d, at, writes, got) = each i a found in
    ap (wrote i) ran ∙ ap written_by at ∙ ap flatten (writes ∙ ap (λ l. l ++ sent_on i cs) idle)

-- What is sent are messages in frames, of which a part is still on its way.
pub cross_frames :
    (i j : ℕ) (cs ds : List Call) (sender receiver : Network) (a b : NetCon) (ms : List Message)
    (in_flight : List ℕ)
    → Prepared cs sender
    → Prepared ds receiver
    → get_con_loop i sender.connections ≡ some a
    → get_con_loop j receiver.connections ≡ some b
    → a.writes ≡ []
    → parser_of b ≡ start
    → sent_on i cs ≡ map frame ms
    → bytes_of j (events ds) ++ in_flight ≡ wrote i (call_all cs sender)
    → (sent : Network) × (after : Network) × (done : Network) × (got : List Message) × (later : List
        Message)
      × (call_all cs sender ≡ ok sent)
      × (call_all ds receiver ≡ ok after)
      × (process_new_msgs [] after ≡ ok done)
      × (from_con j done.read_calls ≡ from_con j (messages receiver) ++ tagged j got)
      × (got ++ later ≡ ms)
      × (in_flight ≡ [] → later ≡ [])
cross_frames i j cs ds sender receiver a b ms in_flight s r found there idle between sends carried =
    let (sent, ran, v, w, next, extends, each) =
      call_all_lem cs sender s.valid s.delivers s.proper s.room in
    let (after, ran', v', w', next', extends', each') =
      call_all_lem ds receiver r.valid r.delivers r.proper r.room in
    let (done, asked, added, handed) = process_new_msgs-Added after w' in
    let (e, at', writes', got') = each' j b there in
    let bytes = bytes_of j (events ds) in
    let on_wire : bytes ++ in_flight ≡ flatten (map frame ms) =
      carried ∙ wrote-sent_on i cs sender a s found idle ∙ ap flatten sends in
    (
      sent,
      after,
      done,
      parse start bytes,
      parse (state_after start bytes) in_flight,
      ran,
      ran',
      asked,
      ap (from_con j) handed ∙ got' ∙ rw between,
      sym (parse-append start bytes in_flight) ∙ ap (parse start) on_wire ∙ parse-frames ms,
      λ e. rw e (unfold parse in refl),
    )

module _ {ℓ} {A : Type ℓ} (k : Codec A) where
  -- Two programs on two machines run valid networks, each with a handler for messages that calls
  -- nothing of the network; each may keep messages for process_new_msgs, or not, but then none waits;
  -- ids are left on both sides. In any order each program sends, listens, stops, takes ids, connects
  -- and sets handlers, but none for new connections, while connections are accepted and reads that fit
  -- the buffer finish. Meanwhile no connection ends: no read fails and no program closes or adds a
  -- connection itself. What the first sends on one of its connections, on which it had written
  -- nothing, are lists of values of a type with a codec, each in a message of its own. The other end
  -- is a connection of the second, between two messages, and its reads bring the bytes of those
  -- messages one message after the other, but for some bytes that are still on their way: that is a
  -- condition, which writes that are under way at the same time need not meet. Then no call fails on
  -- either side, and when the second program asks for its messages once more it has got from that
  -- connection messages that hold the first of those lists, in order and each once; and all of them if
  -- nothing is on its way.
  pub cross :
      (i j : ℕ) (cs ds : List Call) (sender receiver : Network) (a b : NetCon)
      (batches : List (List A)) (in_flight : List ℕ)
      → Prepared cs sender
      → Prepared ds receiver
      → get_con_loop i sender.connections ≡ some a
      → get_con_loop j receiver.connections ≡ some b
      → a.writes ≡ []
      → parser_of b ≡ start
      → All (All k.IsValid) batches
      → sent_on i cs ≡ map (write_message k.write) batches
      → bytes_of j (events ds) ++ in_flight ≡ wrote i (call_all cs sender)
      → (sent : Network) × (after : Network) × (done : Network) × (got : List Message)
        × (later : List Message) × (call_all cs sender ≡ ok sent)
        × (call_all ds receiver ≡ ok after)
        × (process_new_msgs [] after ≡ ok done)
        × (from_con j done.read_calls ≡ from_con j (messages receiver) ++ tagged j got)
        × Pairs (Holds k) batches (got ++ later)
        × (in_flight ≡ [] → later ≡ [])
  cross i j cs ds sender receiver a b batches in_flight s r found there idle between valid sends
        carried =
      let (ms, framed, all) = write_messages-frames k batches valid in
      let (sent, after, done, got, later, ran, ran', asked, from, whole, landed) =
        cross_frames i j cs ds sender receiver a b ms in_flight s r found there idle between
          (sends ∙ framed) carried in
      (sent, after, done, got, later, ran, ran', asked, from, rw whole all, landed)
