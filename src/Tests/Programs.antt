-- ===== src/Tests/Programs.antt =====
-- Programs on their networks, and types that they add.
use volt_net.Common.{
  ℕ, ◌+◌, ◌≤◌, ◌==◌, ◌≡◌, refl, some, List, [], ◌∷◌, ◌++◌, map, flatten, length, All, arith, sym,
  ap, ◌∙◌, append-nil,
}
use volt_net.Common.Int.{pos, negsuc}
use volt_net.Defs.{Message, max_buffer_size}
use volt_net.Serialize
use volt_net.Serialize.{
  write_into_uint16, write_into_uint32, write_into_uint8, write_into_int32, write_into_char,
  write_into_string, write_into_vector, push_chars,
}
use volt_net.Endian.{is_big_endian}
use volt_net.Codec.{Transfers}
use volt_net.Codec.Scalars.{uint16_codec}
use volt_net.Overloads.{Object, char, int32, string, plain, vector, array, element, pair, uint16}
use volt_net.Overloads.Objects.{Peers}
use volt_net.Overloads.Fields.{Struct, write_struct, read_struct, fresh_struct, struct-Transfers}
use volt_net.NetCon.{NetCon, send_msg, set_closed_callback, set_new_msg_callback, new_connection}
use volt_net.NetCon.Parser.{parse, frame}
use volt_net.NetCon.Bytes.{parser_of}
use volt_net.NetCon.Streams.{tagged}
use volt_net.NetCon.Lifecycle.{attached}
use volt_net.Messages.{make_writer, write_msg, end_msg, get_msg}
use volt_net.Messages.Exchange.{Pairs, Holds, write_values, write_message}
use volt_net.Network.{
  Network, ok, raced, get_con, get_con_loop, get_con_count, get_con_index, set_con, get_next_id,
  process_new_msgs, set_closed_connection_callback,
}
use volt_net.Network.Connections.{IsValid}
use volt_net.Network.Traffic.{
  arrived, accepted, processed, bytes_in, bytes_of, from_con, update_con,
}
use volt_net.Network.Delivery.Lookups.{Extends}
use volt_net.Network.Delivery.Queueing.{Delivers, messages}
use volt_net.Network.Calls.{
  Call, send_to, send_all, closes, takes_id, sets_closed_connection, runs, send_loop, call,
  call_all, sent_on, sent_in, events,
}
use volt_net.Network.Calls.Effects.{uses_all}
use volt_net.Network.Calls.Served.{call_all_lem}
use volt_net.Network.Calls.Links.{Prepared, wrote, wrote-sent_on, cross}
use volt_net.ClientServer.{Test, basic, written, printed, Around, send_rounds, sending, write_test}
use volt_net.ClientServer.Rounds.{rounds, sent_on-sending}
use volt_net.ClientServer.Talking.{self_talk}
use volt_net.Tests.Data.{pc, mainframe}
use volt_net.Tests.Networks.{two_cons, two_cons-IsValid}
use volt_net.Tests.Receiving.{attached_clean, attached_idle, batches}

peers : Peers mainframe pc
peers = record { reader = refl; from = refl; to = refl }

-- An int, a char and a string; an array of two vectors of words; and a pair of strings.
abbrev shape : List Object
shape =
    element (plain int32)
    ∷ element (plain char)
    ∷ element (plain string)
    ∷ element (array 2 (vector uint16))
    ∷ pair string
    ∷ []

abbrev shaped : Struct shape
shaped = (
  negsuc 103,
  (pos 112, (pos 77 ∷ pos 115 ∷ [], ((256 ∷ 7 ∷ []) ∷ [] ∷ [], ((negsuc 0 ∷ [], []), tt)))),
)

struct-Transfers_example :
    Transfers
      (write_struct mainframe [] shape shaped)
      (read_struct pc 9 shape (fresh_struct shape))
      shaped
struct-Transfers_example = struct-Transfers mainframe pc peers [] 9 shape shaped (omega arith)

two_cons-Delivers : Delivers two_cons
two_cons-Delivers = record { same_size = refl; waits = λ e. cc; has_handler = refl; quiet = refl }

-- A program that answers on one connection, tells all, and takes an id, while bytes come in.
abbrev answering : List Call
answering =
    runs (arrived 1 (5 ∷ 255 ∷ []))
    ∷ send_to 1 (frame (6 ∷ []))
    ∷ runs (accepted (raced 3 ∷ []))
    ∷ takes_id []
    ∷ runs (arrived 1 (0 ∷ 8 ∷ []))
    ∷ send_all (frame (7 ∷ []))
    ∷ runs processed
    ∷ send_to 9 (frame [])
    ∷ closes
    ∷ []

call_all_lem_example :
    (after : Network) × (call_all answering two_cons ≡ ok after)
    × IsValid after
    × Delivers after
    × (after.next_id ≤ two_cons.next_id + uses_all answering)
    × Extends two_cons.connections after.connections
    × ((id : ℕ) (c : NetCon)
        → get_con_loop id two_cons.connections ≡ some c
        → (d : NetCon) × (get_con_loop id after.connections ≡ some d)
          × (d.writes ≡ c.writes ++ sent_on id answering)
          × (from_con id (messages after)
              ≡ from_con id (messages two_cons)
                ++ tagged id (parse (parser_of c) (bytes_of id (events answering)))))
call_all_lem_example =
    call_all_lem answering two_cons two_cons-IsValid two_cons-Delivers (omega arith) (omega arith)

answering_sends : sent_on 1 answering ≡ frame (6 ∷ []) ∷ frame (7 ∷ []) ∷ []
unfolding sent_on sent_in
answering_sends = refl

-- Two messages of words to one connection, the second sent to all; seven bytes are read before the others
-- arrive.
abbrev telling : List Call
telling =
    takes_id []
    ∷ send_to 0 (write_message (write_into_uint16 mainframe) (255 ∷ 65535 ∷ []))
    ∷ sets_closed_connection
    ∷ send_all (write_message (write_into_uint16 mainframe) (7 ∷ []))
    ∷ []

abbrev hearing : List Call
hearing =
    runs (arrived 1 (0 ∷ 255 ∷ 255 ∷ []))
    ∷ runs processed
    ∷ send_all (frame [])
    ∷ runs (arrived 1 (255 ∷ 255 ∷ 255 ∷ 255 ∷ 255 ∷ 0 ∷ 0 ∷ []))
    ∷ []

telling_sends : sent_on 0 telling ≡ map (write_message (write_into_uint16 mainframe)) batches
unfolding sent_on sent_in
telling_sends = refl

telling-hearing :
    bytes_of 1 (events hearing) ++ (7 ∷ 255 ∷ 0 ∷ []) ≡ wrote 0 (call_all telling two_cons)
unfolding bytes_of bytes_in call_all call get_con get_con_loop send_msg update_con send_loop
    get_con_count get_con_index set_con set_closed_connection_callback get_next_id write_message
    write_values write_msg end_msg get_msg make_writer write_into_uint16
    Serialize.write_into_byte_array Serialize.end_msg is_big_endian write_into_uint8
    set_closed_callback set_new_msg_callback new_connection
telling-hearing = refl

cross_example :
    (sent : Network) × (after : Network) × (done : Network) × (got : List Message) × (later : List
      Message)
    × (call_all telling two_cons ≡ ok sent)
    × (call_all hearing two_cons ≡ ok after)
    × (process_new_msgs [] after ≡ ok done)
    × (from_con 1 done.read_calls ≡ from_con 1 (messages two_cons) ++ tagged 1 got)
    × Pairs (Holds (uint16_codec mainframe pc refl)) batches (got ++ later)
    × (◌≡◌ {A = List ℕ} (7 ∷ 255 ∷ 0 ∷ []) [] → later ≡ [])
unfolding get_con_loop set_closed_callback set_new_msg_callback new_connection
cross_example =
    cross (uint16_codec mainframe pc refl) 0 1 telling hearing two_cons two_cons (attached 0)
      (attached 1) batches (7 ∷ 255 ∷ 0 ∷ [])
      (record {
        valid = two_cons-IsValid;
        delivers = two_cons-Delivers;
        proper = omega arith;
        room = omega arith;
      })
      (record {
        valid = two_cons-IsValid;
        delivers = two_cons-Delivers;
        proper = omega arith;
        room = omega arith;
      })
      refl refl (attached_idle 0) (attached_clean 1) (omega arith) telling_sends telling-hearing

-- The sending of tests/client_server/client_server.cpp, with a shorter string.
abbrev send_val : Test
send_val = record { a = negsuc 103; b = 0; c = pos b'p'; s = pos b'M' ∷ pos b's' ∷ [] }

-- Ctrl + C is pressed after two rounds; each time the message is read at once at the other end.
abbrev two_rounds : ℕ → Around
two_rounds i = record {
  error_quit = i == 2;
  before = [];
  between = arrived 1 (written pc send_val) ∷ [];
}

send_val_short : length (written pc send_val) ≤ max_buffer_size
unfolding written write_msg write_test end_msg get_msg make_writer write_into_string write_into_char
    write_into_int32 write_into_vector push_chars write_into_uint32 write_into_uint16
    Serialize.write_into_byte_array Serialize.end_msg is_big_endian write_into_uint8
    Serialize.write_into_array
send_val_short = omega arith

sending-Prepared : Prepared (sending (written pc send_val) two_rounds []) two_cons
unfolding sending send_rounds
sending-Prepared = record {
  valid = two_cons-IsValid;
  delivers = two_cons-Delivers;
  proper = omega (arith, send_val_short);
  room = omega arith;
}

sending-carried :
    bytes_of 1 (events (sending (written pc send_val) two_rounds [])) ++ []
    ≡ wrote 0 (call_all (sending (written pc send_val) two_rounds []) two_cons)
unfolding bytes_of bytes_in sending send_rounds rounds get_con_loop set_closed_callback
    set_new_msg_callback new_connection
sending-carried =
    append-nil _
    ∙ sym (
        wrote-sent_on 0 (sending (written pc send_val) two_rounds []) two_cons (attached 0)
          sending-Prepared refl (attached_idle 0)
        ∙ ap flatten (sent_on-sending (written pc send_val) two_rounds [] 0))

self_talk_example :
    (after : Network) × (done : Network) × (got : List Message) × (later : List Message) × (call_all
        (sending (written pc send_val) two_rounds [])
        two_cons
      ≡ ok after)
    × (process_new_msgs [] after ≡ ok done)
    × (from_con 1 done.read_calls ≡ from_con 1 (messages two_cons) ++ tagged 1 got)
    × All (λ msg. printed pc 9 msg ≡ some (send_val.a, send_val.c, basic ++ send_val.s)) got
    × (length got + length later ≡ rounds two_rounds 10 0)
    × (◌≡◌ {A = List ℕ} [] [] → later ≡ [])
unfolding get_con_loop set_closed_callback set_new_msg_callback new_connection
self_talk_example =
    self_talk pc 9 0 1 send_val two_rounds [] two_cons (attached 0) (attached 1) [] refl
      (omega arith) sending-Prepared refl refl (attached_idle 0) (attached_clean 1) sending-carried
