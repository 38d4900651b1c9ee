-- ===== src/Chat/Malformed.antt =====
-- A client of the chat server that sends something else (tests/single_server/single_server.cpp on
-- volt_net/src/volt/net/network.cpp and net_con.cpp).
use volt_net.Common.{
  ℕ, true, length-append, arith, ◌≤◌, ◌<◌, ◌≡◌, refl, ap, ◌∙◌, length, none, some, [], ◌∷◌, ◌++◌,
  append-nil, sym,
}
use volt_net.Defs.{Message, max_buffer_size}
use volt_net.Endian.{Host}
use volt_net.Serialize.{end_msg}
use volt_net.Serialize.Escaping.{escape, length-escape}
use volt_net.Deserialize.{read_into_string, read_into_array, read_into_uint32, read_into_int}
use volt_net.Deserialize.Bytes.{take_bytes_short}
use volt_net.Messages.{read_msg, make_reader_with}
use volt_net.NetCon.{NetCon}
use volt_net.NetCon.Parser.{start, frame, parse, parse-frame}
use volt_net.NetCon.Bytes.{parser_of}
use volt_net.Network.{Network, undefined_behaviour, ◌>>=◌, get_con_loop}
use volt_net.Chat.Objects.{read_test, understood}
use volt_net.Chat.Server.{reflect, reflect_all, handle_msgs, arrive}
use volt_net.Chat.Sending.{Serves, reflect_all_lem}
use volt_net.Chat.Relaying.{arrive_lem, update_con-Serves}
use volt_net.Network.Traffic.{update_con}

-- Nothing is read from a message that is shorter than the size of a string.
understood_short :
    (h : Host) (m n : ℕ) (msg : Message) → length msg < 4 → understood h m n msg ≡ none
unfolding understood read_msg make_reader_with read_test read_into_string read_into_array
    read_into_uint32 read_into_int
understood_short h m n msg short = rw (
  understood,
  read_msg,
  make_reader_with,
  read_test,
  read_into_string,
  read_into_array,
  read_into_uint32,
  read_into_int,
  take_bytes_short 4 msg short,
)

reflect_undefined :
    (h : Host) (m n : ℕ) (msg : Message) (net : Network)
    → understood h m n msg ≡ none
    → reflect h m n true msg net ≡ undefined_behaviour
unfolding reflect
reflect_undefined h m n msg net unread = rw (reflect, unread)

frame_short : (msg : Message) → length msg < 4 → length (frame msg) ≤ max_buffer_size
unfolding end_msg
frame_short msg short = omega (
  arith,
  length-escape msg,
  length-append (escape msg ++ (255 ∷ [])) (0 ∷ []),
  length-append (escape msg) (255 ∷ []),
)

-- A server that calls its handler as messages come in, with ready connections: a message of fewer than
-- four bytes, from any client that is between two messages, leaves it without a defined result, since
-- it reads behind the end of the message.
pub short_message_undefined :
    (h : Host) (m n i : ℕ) (msg : Message) (net : Network) (con : NetCon)
    → Serves net
    → length msg < 4
    → get_con_loop i net.connections ≡ some con
    → parser_of con ≡ start
    → arrive h m n i (frame msg) net ≡ undefined_behaviour
unfolding handle_msgs reflect
short_message_undefined h m n i msg net con v short at clean =
    let (d, eq, r, named) =
      arrive_lem h m n i (frame msg) net con v.ready (frame_short msg short) at in
    let one : parse (parser_of con) (frame msg) ≡ msg ∷ [] = rw clean (
      ap (parse start) (sym (append-nil (frame msg)))
      ∙ parse-frame msg []
      ∙ unfold parse in refl) in
    eq
    ∙ rw one (
        ap (λ o. o >>= handle_msgs h m n [])
          (reflect_all_lem h m n i msg (record net { connections = update_con i d net.connections })
              (update_con-Serves i d net v r.ready)
            ∙ ap (λ o. o >>= reflect_all h m n [])
                (reflect_undefined h m n msg _ (understood_short h m n msg short))))
