-- ===== src/Tests/Chats.antt =====
-- Chats of two clients.
use volt_net.Common.{
  ℕ, zero, suc, ◌≡◌, refl, none, some, List, [], ◌∷◌, ◌++◌, map, flatten, All, arith,
}
use volt_net.Common.Int.{pos, negsuc}
use volt_net.Defs.{Message}
use volt_net.Endian.{Host, is_big_endian, load}
use volt_net.Serialize
use volt_net.Deserialize.{
  read_into_string, append_chars, read_into_array, read_elements, read_into_uint32, read_into_int,
  read_into_char, read_into_signed, take_bytes, net_to_host_endian, copy_backwards,
}
use volt_net.Messages.{write_msg, end_msg, get_msg, make_writer, read_msg, make_reader_with}
use volt_net.Messages.Exchange.{Pairs}
use volt_net.NetCon.{NetCon, ok, receive, set_closed_callback, set_new_msg_callback, new_connection}
use volt_net.NetCon.Parser.{start, frame, parse, completed, advance}
use volt_net.NetCon.Bytes.{parser_of}
use volt_net.NetCon.Streams.{tagged}
use volt_net.NetCon.Lifecycle.{attached, attached-IsReady}
use volt_net.Network.{Network, NetOutcome, get_con_loop}
use volt_net.Network.Traffic.{bytes_in, bytes_of}
use volt_net.Network.Delivery.Lookups.{get_con_loop-All}
use volt_net.Chat.Objects.{Test, write_test, read_test, written, understood}
use volt_net.Chat.Server.{start_server, arrive, run_server}
use volt_net.Chat.Sending.{Serves, Reads}
use volt_net.Chat.Relaying.{Readable}
use volt_net.Chat.Reading.{IsTest, said_by}
use volt_net.Chat.Broadcast.{arrivals}
use volt_net.Chat.Malformed.{short_message_undefined}
use volt_net.Chat.Talk.{talk, listen}
use volt_net.Tests.Data.{pc, mainframe, keeps_open}

abbrev ann : Test
ann = record { user = pos 65 ∷ []; chat_msg = pos 72 ∷ negsuc 0 ∷ [] }

abbrev bob : Test
bob = record { user = pos 66 ∷ []; chat_msg = [] }

abbrev wrote : ℕ → List (Host × Test)
wrote zero = (pc, ann) ∷ []
wrote (suc zero) = (mainframe, bob) ∷ []
wrote (suc (suc id)) = []

-- What the second client writes arrives in the middle of what the first one does.
abbrev reads : List (ℕ × List ℕ)
reads =
    (0, 0 ∷ 0 ∷ 0 ∷ 1 ∷ 65 ∷ 0 ∷ 0 ∷ [])
    ∷ (1, 0 ∷ 0 ∷ 0 ∷ 1 ∷ 66 ∷ 0 ∷ 0 ∷ 0 ∷ 0 ∷ 255 ∷ 0 ∷ [])
    ∷ (0, 0 ∷ 2 ∷ 72 ∷ 255 ∷ 255 ∷ 255 ∷ 0 ∷ [])
    ∷ []

abbrev server : Network
server = record (start_server none) { connections = attached 0 ∷ attached 1 ∷ []; next_id = 2 }

server-Serves : Serves server
unfolding start_server
server-Serves = record {
  ready = (attached-IsReady 0, (attached-IsReady 1, tt));
  same_size = refl;
  direct = refl;
  has_handler = refl;
}

server-clean :
    (id : ℕ) (c : NetCon) → get_con_loop id server.connections ≡ some c → parser_of c ≡ start
unfolding set_closed_callback set_new_msg_callback new_connection
server-clean id c found =
    get_con_loop-All (λ c. parser_of c ≡ start) id server.connections c found (refl, (refl, tt))

reads-wrote :
    (id : ℕ)
    → bytes_of id (arrivals reads) ≡ flatten (map (λ (x : Host × Test). written x.0 x.1) (wrote id))
unfolding bytes_of bytes_in written write_test write_msg end_msg get_msg make_writer
    Serialize.write_into_string Serialize.push_chars Serialize.write_into_array
    Serialize.write_elements Serialize.write_into_char Serialize.write_into_uint32
    Serialize.write_into_byte_array Serialize.end_msg is_big_endian Serialize.write_into_uint8
reads-wrote zero = refl
reads-wrote (suc zero) = refl
reads-wrote (suc (suc id)) = ground arith

wrote-valid : (id : ℕ) → All (λ (x : Host × Test). IsTest x.1) (wrote id)
wrote-valid zero = omega arith
wrote-valid (suc zero) = omega arith
wrote-valid (suc (suc id)) = tt

talk_example :
    (after : Network) × (chat : List (ℕ × Test)) × (run_server pc 5 0 reads server
      ≡ NetOutcome.ok after)
    × ((id : ℕ) (c : NetCon)
        → get_con_loop id server.connections ≡ some c
        → (d : NetCon) × (get_con_loop id after.connections ≡ some d)
          × (d.writes ≡ c.writes ++ map (λ (x : ℕ × Test). written pc x.1) chat)
          × (said_by id chat ≡ map (λ (x : Host × Test). x.1) (wrote id)))
talk_example =
    talk pc 5 0 reads server wrote refl server-Serves (omega arith) wrote-valid
      (λ id c found. (server-clean id c found, reads-wrote id))

nothing_read : (id : ℕ) → bytes_of (suc (suc id)) (arrivals reads) ≡ []
unfolding bytes_of bytes_in
nothing_read id = ground arith

reads-Readable : (id : ℕ) → All (Readable pc 5 0) (parse start (bytes_of id (arrivals reads)))
unfolding parse completed advance bytes_of bytes_in understood read_msg make_reader_with read_test
    read_into_string append_chars read_into_array read_elements read_into_uint32 read_into_int
    read_into_char read_into_signed take_bytes net_to_host_endian copy_backwards is_big_endian load
reads-Readable zero = ((ann, refl), tt)
reads-Readable (suc zero) = ((bob, refl), tt)
reads-Readable (suc (suc id)) = rw (nothing_read id) tt

short_message_undefined_example :
    arrive mainframe 5 0 1 (frame (7 ∷ 255 ∷ [])) server ≡ NetOutcome.undefined_behaviour
unfolding get_con_loop set_closed_callback set_new_msg_callback new_connection
short_message_undefined_example =
    short_message_undefined mainframe 5 0 1 (7 ∷ 255 ∷ []) server (attached 1) server-Serves
      (omega arith) refl refl

-- What the second client gets of a chat.
abbrev chat : List (ℕ × Test)
chat = (0, ann) ∷ (1, bob) ∷ []

chat-carried :
    flatten (
      (0 ∷ 0 ∷ 0 ∷ 1 ∷ 65 ∷ 0 ∷ 0 ∷ 0 ∷ 2 ∷ 72 ∷ 255 ∷ 255 ∷ [])
      ∷ (255 ∷ 0 ∷ 0 ∷ 0 ∷ 0 ∷ 1 ∷ 66 ∷ 0 ∷ 0 ∷ 0 ∷ 0 ∷ 255 ∷ 0 ∷ [])
      ∷ [])
    ≡ flatten (map (λ (x : ℕ × Test). written pc x.1) chat)
unfolding written write_test write_msg end_msg get_msg make_writer Serialize.write_into_string
    Serialize.write_into_array Serialize.write_into_char Serialize.write_into_uint32
    Serialize.write_into_byte_array Serialize.end_msg is_big_endian Serialize.write_into_uint8
chat-carried = refl

listen_example :
    (after : NetCon) × (ms : List Message) × (receive keeps_open
        ((0 ∷ 0 ∷ 0 ∷ 1 ∷ 65 ∷ 0 ∷ 0 ∷ 0 ∷ 2 ∷ 72 ∷ 255 ∷ 255 ∷ [])
          ∷ (255 ∷ 0 ∷ 0 ∷ 0 ∷ 0 ∷ 1 ∷ 66 ∷ 0 ∷ 0 ∷ 0 ∷ 0 ∷ 255 ∷ 0 ∷ [])
          ∷ [])
        (attached 7)
      ≡ ok after)
    × (after.new_msg_calls ≡ (attached 7).new_msg_calls ++ tagged (attached 7).id ms)
    × Pairs (Reads pc 3 4) ms (map (λ (x : ℕ × Test). x.1) chat)
unfolding set_closed_callback set_new_msg_callback new_connection
listen_example =
    listen pc pc 3 4 keeps_open _ (attached 7) chat refl (λ calls. refl) (omega arith)
      (attached-IsReady 7) refl (omega arith) chat-carried
