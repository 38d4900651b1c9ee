-- ===== src/Chat/Relaying.antt =====
-- One arrival at a chat server (tests/single_server/single_server.cpp on volt_net/src/volt/net/network.cpp
-- and net_con.cpp): what it sends to its clients.
use volt_net.Common.{
  ℕ, ◌≤◌, ◌==◌, ◌≡◌, refl, sym, ap, ◌∙◌, if_false, length, drop, drop-append_length, map, All,
  false, none, some, List, [], ◌∷◌, ◌++◌, append-nil, arith,
}
use mathlib.Core.Option.{some-injective}
use volt_net.Defs.{Message, max_buffer_size}
use volt_net.Endian.{Host}
use volt_net.NetCon.{NetCon, send_msg}
use volt_net.NetCon.Parser.{parse, state_after}
use volt_net.NetCon.Bytes.{parser_of}
use volt_net.NetCon.Reading.{IsReady}
use volt_net.NetCon.Streams.{tagged, Received, complete_read-Received}
use volt_net.NetCon.Writing.{send_msgs, send_msgs-writes}
use volt_net.Messages.Exchange.{Pairs}
use volt_net.Network.{Network, ok, get_con_loop}
use volt_net.Network.Traffic.{Event, arrived, bytes_in, from_con, update_con, never}
use volt_net.Network.Delivery.Lookups.{
  get_con_loop-id, get_con_loop-All, get_con_loop-update_con, update_con-All,
}
use volt_net.Network.Delivery.Moves.{from_con-new, moved_con}
use volt_net.Network.Calls.Sending.{get_con_loop-map}
use volt_net.Chat.Objects.{Test, written}
use volt_net.Chat.Server.{handle_msgs, arrive}
use volt_net.Chat.Sending.{Serves, Reads, handle_msgs_lem}

abbrev pub Readable : Host → ℕ → ℕ → Message → Type 0
Readable h m n msg = (t : Test) × Reads h m n msg t

-- Messages that can be read are read as some objects.
objects :
    (h : Host) (m n id : ℕ) (ms : List Message)
    → All (Readable h m n) ms
    → (ts : List Test) × Pairs (λ msg t. Reads h m n msg.1 t) (tagged id ms) ts
objects h m n id [] all = ([], tt)
objects h m n id (x ∷ xs) ((t, reads), all) =
    let (ts, others) = objects h m n id xs all in (t ∷ ts, (reads, others))

send_msgs-id : (ms : List Message) (c : NetCon) → (send_msgs ms c).id ≡ c.id
unfolding send_msgs send_msg
send_msgs-id [] c = refl
send_msgs-id (m ∷ ms) c = send_msgs-id ms (send_msg m c)

send_msgs-parser_of : (ms : List Message) (c : NetCon) → parser_of (send_msgs ms c) ≡ parser_of c
unfolding send_msgs send_msg
send_msgs-parser_of [] c = refl
send_msgs-parser_of (m ∷ ms) c = send_msgs-parser_of ms (send_msg m c)

-- What one arrival at a server does: its program gets the messages `ms`, which are read as `ts`.
pub record Relayed (h : Host) (net : Network) (e : Event) (ms : List (ℕ × Message)) (ts : List Test)
    (after : Network) : Type 0 where
  pub serves : Serves after
  pub calls : after.read_calls ≡ net.read_calls ++ ms
  pub each :
      (id : ℕ) (c : NetCon)
      → get_con_loop id net.connections ≡ some c
      → (d : NetCon) × (get_con_loop id after.connections ≡ some d)
        × (parser_of d ≡ state_after (parser_of c) (bytes_in id e))
        × (d.writes ≡ c.writes ++ map (written h) ts)
        × (from_con id ms ≡ tagged id (parse (parser_of c) (bytes_in id e)))
  pub none_new :
      (id : ℕ) → get_con_loop id net.connections ≡ none → get_con_loop id after.connections ≡ none

pub absent-Relayed :
    (h : Host) (m n i : ℕ) (received : List ℕ) (net : Network)
    → Serves net
    → get_con_loop i net.connections ≡ none
    → (arrive h m n i received net ≡ ok net) × Relayed h net (arrived i received) [] [] net
unfolding bytes_in from_con arrive
absent-Relayed h m n i received net v at = (
  rw (arrive, at),
  record {
    serves = v;
    calls = sym (append-nil net.read_calls);
    each = λ id c found.
        let other : (i == id) ≡ false = ground (arith, at, found) in
        (
          c,
          found,
          unfold state_after in rw other,
          sym (append-nil c.writes),
          unfold parse in rw other,
        );
    none_new = λ id e. e;
  },
)

-- A connection after an arrival, where the one that the bytes came on is `d` by itself.
relayed_con :
    (h : Host) (i : ℕ) (received : List ℕ) (cons after : List NetCon) (con d : NetCon)
    (ts : List Test)
    → get_con_loop i cons ≡ some con
    → con.id ≡ i
    → Received con received d
    → after ≡ map (send_msgs (map (written h) ts)) (update_con i d cons)
    → (id : ℕ) (c : NetCon) → get_con_loop id cons ≡ some c
    → (e : NetCon) × (get_con_loop id after ≡ some e)
      × (parser_of e ≡ state_after (parser_of c) (bytes_in id (arrived i received)))
      × (e.writes ≡ c.writes ++ map (written h) ts)
      × (from_con id (tagged i (parse (parser_of con) received))
          ≡ tagged id (parse (parser_of c) (bytes_in id (arrived i received))))
relayed_con h i received cons after con d ts at named r whole id c found =
    let outs = map (written h) ts in
    let (e, there, parser, writes) =
      moved_con i received cons con d at (r.same_id ∙ named) r.parser r.same_writes id c found in
    let one : i ≡ id → c ≡ con =
      λ same. some-injective c con (sym found ∙ ap (λ j. get_con_loop j cons) (sym same) ∙ at) in
    (
      send_msgs outs e,
      ap (get_con_loop id) whole
          ∙ get_con_loop-map (send_msgs outs) (send_msgs-id outs) id (update_con i d cons)
          ∙ (rw there),
      send_msgs-parser_of outs e ∙ parser,
      send_msgs-writes outs e ∙ ap (λ l. l ++ outs) writes,
      unfold from_con in
          from_con-new id i received [] (tagged i (parse (parser_of con) received))
            (tagged i (parse (parser_of con) received)) c con one refl refl,
    )

relayed_none :
    (i : ℕ) (cons after : List NetCon) (con d : NetCon) (outs : List Message)
    → get_con_loop i cons ≡ some con
    → d.id ≡ i
    → after ≡ map (send_msgs outs) (update_con i d cons)
    → (id : ℕ) → get_con_loop id cons ≡ none
    → get_con_loop id after ≡ none
relayed_none i cons after con d outs at named whole id missing =
    let other : (i == id) ≡ false = ground (arith, at, missing) in
    let there = get_con_loop-update_con i d cons con named at id ∙ if_false _ _ other ∙ missing in
    ap (get_con_loop id) whole
    ∙ get_con_loop-map (send_msgs outs) (send_msgs-id outs) id (update_con i d cons)
    ∙ (rw there)

-- A read calls the handler with the messages that the parser finds.
pub arrive_lem :
    (h : Host) (m n i : ℕ) (received : List ℕ) (net : Network) (con : NetCon)
    → All IsReady net.connections
    → length received ≤ max_buffer_size
    → get_con_loop i net.connections ≡ some con
    → (d : NetCon) × (arrive h m n i received net
        ≡ handle_msgs h m n
            (tagged i (parse (parser_of con) received))
            (record net { connections = update_con i d net.connections }))
      × Received con received d
      × (con.id ≡ i)
unfolding arrive
arrive_lem h m n i received net con ready fits at =
    let named = get_con_loop-id i net.connections con at in
    let (d, eq, r) =
      complete_read-Received never (λ calls. refl) received con
        (get_con_loop-All IsReady i net.connections con at ready) fits in
    let news : drop (length con.new_msg_calls) d.new_msg_calls
        ≡ tagged i (parse (parser_of con) received) =
      ap (drop (length con.new_msg_calls)) r.messages
      ∙ drop-append_length con.new_msg_calls _
      ∙ ap (λ id. tagged id (parse (parser_of con) received)) named in
    (d, rw (arrive, at, eq, news), r, named)

pub update_con-Serves :
    (i : ℕ) (d : NetCon) (net : Network)
    → Serves net
    → IsReady d
    → Serves (record net { connections = update_con i d net.connections })
update_con-Serves i d net v ready = record {
  ready = update_con-All IsReady i d net.connections ready v.ready;
  same_size = v.same_size;
  direct = v.direct;
  has_handler = v.has_handler;
}

pub arrive-Relayed :
    (h : Host) (m n i : ℕ) (received : List ℕ) (net : Network) (con : NetCon)
    → Serves net
    → length received ≤ max_buffer_size
    → get_con_loop i net.connections ≡ some con
    → All (Readable h m n) (parse (parser_of con) received)
    → (after : Network) × (ms : List (ℕ × Message)) × (ts : List Test) × (arrive h m n i received
          net
        ≡ ok after)
      × Pairs (λ msg t. Reads h m n msg.1 t) ms ts
      × Relayed h net (arrived i received) ms ts after
arrive-Relayed h m n i received net con v fits at readable =
    let (d, eq, r, named) = arrive_lem h m n i received net con v.ready fits at in
    let new = tagged i (parse (parser_of con) received) in
    let moved = record net { connections = update_con i d net.connections } in
    let (ts, reads) = objects h m n i (parse (parser_of con) received) readable in
    let (after, handled, s) =
      handle_msgs_lem h m n new ts moved (update_con-Serves i d net v r.ready) reads in
    (
      after,
      new,
      ts,
      eq ∙ handled,
      reads,
      record {
        serves = s.serves;
        calls = s.calls;
        each =
            relayed_con h i received net.connections after.connections con d ts at named r s.cons;
        none_new =
            relayed_none i net.connections after.connections con d (map (written h) ts) at
              (r.same_id ∙ named) s.cons;
      },
    )
