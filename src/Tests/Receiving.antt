-- ===== src/Tests/Receiving.antt =====
-- Connections: receiving, closing, and the exchange of messages between two of them.
use volt_net.Common.{ℕ, ◌≡◌, refl, true, false, List, [], ◌∷◌, ◌++◌, map, flatten, arith}
use volt_net.Defs.{Message}
use volt_net.Serialize
use volt_net.Serialize.{write_into_uint16, write_into_uint8}
use volt_net.Serialize.Escaping.{escape}
use volt_net.Endian.{is_big_endian}
use volt_net.NetCon.{
  NetCon, ok, throws, bad_function_call, success, eof, new_connection, complete_read, receive,
  send_msg, set_closed_callback, set_new_msg_callback,
}
use volt_net.NetCon.Parser.{Parser, start, parse, state_after, frame}
use volt_net.NetCon.Bytes.{parser_of, calls_of, deliver}
use volt_net.NetCon.Reading.{IsReady, read_con, complete_read_lem}
use volt_net.NetCon.Streams.{Received, tagged, receive_lem}
use volt_net.NetCon.Lifecycle.{attached, attached-IsReady, complete_read_early_error}
use volt_net.Codec.Scalars.{uint16_codec}
use volt_net.Messages.Exchange.{Holds, Pairs, write_message, write_values, exchange}
use volt_net.NetCon.Writing.{send_msgs}
use volt_net.Messages.{write_msg, end_msg, get_msg, make_writer}
use volt_net.Tests.Data.{pc, mainframe, keeps_open, closes_at_once}

-- The frame of 1, 255 comes in two pieces, cut between the two bytes of an escape sequence, with
-- the start of another message behind it.
abbrev two_pieces : List (List ℕ)
two_pieces = (1 ∷ 255 ∷ []) ∷ (255 ∷ 255 ∷ 0 ∷ 7 ∷ []) ∷ []

complete_read_lem_example :
    let s =
      deliver closes_at_once 3
        (calls_of (attached 3))
        (parse (parser_of (attached 3)) (5 ∷ 255 ∷ 0 ∷ 6 ∷ [])) in
    (i : ℕ) × (p : Parser) × (complete_read closes_at_once success
        (5 ∷ 255 ∷ 0 ∷ 6 ∷ [])
        (attached 3)
      ≡ ok (read_con (attached 3) (5 ∷ 255 ∷ 0 ∷ 6 ∷ []) s i p))
    × (s.open_now ≡ true
        → (i ≡ 0) × (p ≡ state_after (parser_of (attached 3)) (5 ∷ 255 ∷ 0 ∷ 6 ∷ [])))
unfolding set_closed_callback set_new_msg_callback new_connection
complete_read_lem_example =
    complete_read_lem closes_at_once (5 ∷ 255 ∷ 0 ∷ 6 ∷ []) (attached 3) (attached-IsReady 3)

receive_lem_example :
    (d : NetCon) × (receive keeps_open two_pieces (attached 3) ≡ ok d)
    × Received (attached 3) (flatten two_pieces) d
receive_lem_example =
    receive_lem keeps_open (λ calls. refl) two_pieces (attached 3) (attached-IsReady 3)
      (omega arith)

frames-cut :
    flatten ((1 ∷ 255 ∷ []) ∷ (255 ∷ 255 ∷ 0 ∷ []) ∷ []) ≡ flatten (map frame ((1 ∷ 255 ∷ []) ∷ []))
unfolding Serialize.end_msg escape
frames-cut = refl

pub attached_clean : (id : ℕ) → parser_of (attached id) ≡ start
unfolding set_closed_callback set_new_msg_callback new_connection
attached_clean id = refl

pub attached_idle : (id : ℕ) → (attached id).writes ≡ []
unfolding set_closed_callback set_new_msg_callback new_connection
attached_idle id = refl

-- Two messages, of the values 255 and 65535 and of the value 7, cut after the first byte.
abbrev pub batches : List (List ℕ)
batches = (255 ∷ 65535 ∷ []) ∷ (7 ∷ []) ∷ []

abbrev cut : List (List ℕ)
cut = (0 ∷ []) ∷ (255 ∷ 255 ∷ 255 ∷ 255 ∷ 255 ∷ 255 ∷ 255 ∷ 0 ∷ 0 ∷ 7 ∷ 255 ∷ 0 ∷ []) ∷ []

batches-cut :
    flatten cut
    ≡ flatten
        (send_msgs (map (write_message (write_into_uint16 mainframe)) batches) (attached 1)).writes
unfolding send_msgs write_message write_values send_msg write_msg end_msg get_msg make_writer
    write_into_uint16 Serialize.write_into_byte_array Serialize.end_msg is_big_endian
    write_into_uint8 set_closed_callback set_new_msg_callback new_connection
batches-cut = refl

exchange_example :
    (after : NetCon) × (ms : List Message) × (receive keeps_open cut (attached 5) ≡ ok after)
    × (after.new_msg_calls ≡ (attached 5).new_msg_calls ++ tagged (attached 5).id ms)
    × Pairs (Holds (uint16_codec mainframe pc refl)) batches ms
    × IsReady after
    × (parser_of after ≡ start)
exchange_example =
    exchange (uint16_codec mainframe pc refl) keeps_open batches cut (attached 1) (attached 5)
      (λ calls. refl) (omega arith) (attached_idle 1) (attached-IsReady 5) (attached_clean 5)
      (omega arith) batches-cut

complete_read_early_error_example :
    (d : NetCon) × (complete_read keeps_open eof [] (set_new_msg_callback (new_connection 4))
      ≡ throws bad_function_call d)
    × (d.con_open ≡ false)
    × (d.closed_calls ≡ [])
complete_read_early_error_example = complete_read_early_error keeps_open eof [] 4 (λ e. cc)
