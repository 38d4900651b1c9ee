-- ===== src/Messages/Events.antt =====
-- What a program can read from an event for a received message.
use volt_net.Common.{ℕ, ◌<◌, ◌≡◌, none, []}
use volt_net.Endian.{Host}
use volt_net.Deserialize.{read_into_int}
use volt_net.Deserialize.Bytes.{take_bytes_short}
use volt_net.Messages.{EReceivedMsg, get_reader, read_msg, read_msg_int}

-- Whatever message the event carries, reading an integer of one byte or more from its reader runs
-- behind the end.
get_reader_empty :
    (h : Host) (k old : ℕ) (e : EReceivedMsg) → 0 < k → read_msg_int h k old (get_reader e) ≡ none
unfolding get_reader read_msg_int read_msg read_into_int
get_reader_empty h k old e pos = rw (take_bytes_short k [] pos)
