-- ===== src/Chat/Sending.antt =====
-- What the chat server's handler for messages does to the connections (tests/single_server/
-- single_server.cpp).
use volt_net.Common.{
  ℕ, ◌≡◌, refl, sym, ap, ◌∙◌, length, drop, drop-append_length, map, All, true, false, some, List,
  [], ◌∷◌, ◌++◌, append_assoc, append-nil, arith,
}
use volt_net.Defs.{Message}
use volt_net.Endian.{Host}
use volt_net.NetCon.{NetCon, send_msg}
use volt_net.NetCon.Reading.{IsReady}
use volt_net.NetCon.Writing.{send_msgs}
use volt_net.MsgRecPool.{submit_message, on_msg_received}
use volt_net.MsgRecPool.Order.{SameSize, submit_message_lem}
use volt_net.Messages.Exchange.{Pairs}
use volt_net.Network.{Network, ok, ◌>>=◌, on_new_msg, get_con_count}
use volt_net.Network.Calls.Sending.{send_loop_lem, map-send_msg-IsReady}
use volt_net.Network.Messages.{on_new_msg_direct}
use volt_net.Chat.Objects.{Test, understood, written}
use volt_net.Chat.Server.{reflect, reflect_all, handle_msgs}

-- A network that hands a message to its program as it comes in.
pub record Serves (net : Network) : Type 0 where
  pub ready : All IsReady net.connections
  pub same_size : SameSize net.received_msgs
  pub direct : net.received_msgs.defer_msg_signal ≡ false
  pub has_handler : net.has_new_msg_callback ≡ true

-- A message is read as an object.
abbrev pub Reads : Host → ℕ → ℕ → Message → Test → Type 0
Reads h m n msg t = understood h m n msg ≡ some t

-- The handler sends what it read to every connection.
reflect_lem :
    (h : Host) (m n : ℕ) (msg : Message) (t : Test) (net : Network)
    → Reads h m n msg t
    → reflect h m n true msg net
      ≡ ok (record net { connections = map (send_msg (written h t)) net.connections })
unfolding get_con_count reflect
reflect_lem h m n msg t net reads =
    rw (reflect, reads) (send_loop_lem (written h t) [] net.connections net 0 refl refl)

map-send_msgs_nil : (cs : List NetCon) → map (send_msgs []) cs ≡ cs
unfolding send_msgs
map-send_msgs_nil [] = refl
map-send_msgs_nil (c ∷ cs) = ap (◌∷◌ c) (map-send_msgs_nil cs)

map-send_msgs_cons :
    (msg : Message) (msgs : List Message) (cs : List NetCon)
    → map (send_msgs msgs) (map (send_msg msg) cs) ≡ map (send_msgs (msg ∷ msgs)) cs
unfolding send_msgs
map-send_msgs_cons msg msgs [] = refl
map-send_msgs_cons msg msgs (c ∷ cs) =
    ap (◌∷◌ (send_msgs msgs (send_msg msg c))) (map-send_msgs_cons msg msgs cs)

-- The handler runs for some messages, which are read as the objects `ts`.
pub record Reflected (h : Host) (ms : List (ℕ × Message)) (ts : List Test) (net after : Network)
    : Type 0 where
  pub serves : Serves after
  pub calls : after.read_calls ≡ net.read_calls ++ ms
  pub cons : after.connections ≡ map (send_msgs (map (written h) ts)) net.connections

-- The network after one message.
abbrev reflected : Host → ℕ → Message → Test → Network → Network
reflected h id msg t net = record (on_new_msg id msg net) {
  connections = map (send_msg (written h t)) net.connections;
}

reflected-Serves :
    (h : Host) (id : ℕ) (msg : Message) (t : Test) (net : Network)
    → Serves net
    → Serves (reflected h id msg t net)
unfolding on_new_msg submit_message on_msg_received
reflected-Serves h id msg t net v = record {
  ready = map-send_msg-IsReady (written h t) net.connections v.ready;
  same_size = (submit_message_lem net.received_msgs id msg v.same_size).0;
  direct = ground (arith, v.direct);
  has_handler = v.has_handler;
}

-- The network calls the handler once for a message.
pub reflect_all_lem :
    (h : Host) (m n id : ℕ) (msg : Message) (net : Network)
    → Serves net
    → let after = on_new_msg id msg net in
      reflect_all h m n (drop (length net.read_calls) after.read_calls) after
      ≡ (reflect h m n true msg after >>= reflect_all h m n [])
reflect_all_lem h m n id msg net v =
    let after = on_new_msg id msg net in
    let one : drop (length net.read_calls) after.read_calls ≡ (id, msg) ∷ [] =
      ap (drop (length net.read_calls))
        (on_new_msg_direct id msg net v.same_size v.direct v.has_handler)
      ∙ drop-append_length net.read_calls _ in
    ap (λ calls. reflect_all h m n calls after) one ∙ (unfold reflect_all in refl)

pub handle_msgs_lem :
    (h : Host) (m n : ℕ) (ms : List (ℕ × Message)) (ts : List Test) (net : Network)
    → Serves net
    → Pairs (λ msg t. Reads h m n msg.1 t) ms ts
    → (after : Network) × (handle_msgs h m n ms net ≡ ok after) × Reflected h ms ts net after
unfolding handle_msgs on_new_msg reflect_all
handle_msgs_lem h m n [] [] net v reads = (
  net,
  refl,
  record {
    serves = v;
    calls = sym (append-nil net.read_calls);
    cons = sym (map-send_msgs_nil net.connections);
  },
)
handle_msgs_lem h m n [] (t ∷ ts) net v reads = absurd (reads tt)
handle_msgs_lem h m n (x ∷ ms) [] net v reads = absurd (reads tt)
handle_msgs_lem h m n ((id, msg) ∷ ms) (t ∷ ts) net v (reads, others) =
    let mid = reflected h id msg t net in
    let (after, eq, r) =
      handle_msgs_lem h m n ms ts mid (reflected-Serves h id msg t net v) others in
    (
      after,
      ap (λ o. o >>= handle_msgs h m n ms)
            (reflect_all_lem h m n id msg net v
              ∙ ap (λ o. o >>= reflect_all h m n [])
                  (reflect_lem h m n msg t (on_new_msg id msg net) reads))
          ∙ eq,
      record {
        serves = r.serves;
        calls =
            r.calls
            ∙ ap (λ made. made ++ ms)
                (on_new_msg_direct id msg net v.same_size v.direct v.has_handler)
            ∙ append_assoc net.read_calls ((id, msg) ∷ []) ms;
        cons = r.cons ∙ map-send_msgs_cons (written h t) (map (written h) ts) net.connections;
      },
    )
