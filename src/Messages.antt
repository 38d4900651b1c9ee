-- ===== src/Messages.antt =====
-- volt_net/include/volt/net/messages/msg_writer.hpp and msg_reader.hpp with their .cpp files, and
-- the events of volt_net/include/volt/net/event_types/. A message that comes from the pool is empty.
pub mod Exchange
pub mod Sharing
pub mod Events
use volt_net.Common.{ℕ, Option, none, some, ◌>>=◌, List, []}
use volt_net.Defs.{Message}
use volt_net.Serialize
use volt_net.Deserialize.{read_into_int}
use volt_net.Endian.{Host}

pub record MsgWriter : Type 0 where
  pub msg : Message

unfoldable pub make_writer : MsgWriter
make_writer = record { msg = [] }

unfoldable pub make_writer_with : Message → MsgWriter
make_writer_with message = record { msg = message }

-- `write` is the `write_into` of the value's type.
unfoldable pub write_msg {ℓ} : {A : Type ℓ} → (A → Message → Message) → A → MsgWriter → MsgWriter
write_msg write instance_ w = record w { msg = write instance_ w.msg }

unfoldable pub end_msg : MsgWriter → MsgWriter
end_msg w = record w { msg = Serialize.end_msg w.msg }

unfoldable pub get_msg : MsgWriter → Message
get_msg w = w.msg

-- The iterator is what is left of the message.
pub record MsgReader : Type 0 where
  pub msg : Message
  pub iter : Message

unfoldable pub make_reader : MsgReader
make_reader = record { msg = []; iter = [] }

unfoldable pub make_reader_with : Message → MsgReader
make_reader_with message = record { msg = message; iter = message }

-- `read` is the `read_into` of the value's type; `none` is a read behind the end.
unfoldable pub read_msg {ℓ} :
    {A : Type ℓ} → (A → Message → Option (A × Message)) → A → MsgReader → Option (A × MsgReader)
read_msg read instance_ r = do (v, rest) ← read instance_ r.iter; some (v, record r { iter = rest })

unfoldable pub read_msg_int : Host → ℕ → ℕ → MsgReader → Option (ℕ × MsgReader)
read_msg_int h k instance_ r = read_msg (read_into_int h k) instance_ r

-- The three events.
pub record EClosedCon : Type 0 where
  pub id : ℕ

pub record ENewCon : Type 0 where
  pub id : ℕ

pub record EReceivedMsg : Type 0 where
  pub msg : Message

unfoldable pub closed_con_id : EClosedCon → ℕ
closed_con_id e = e.id

unfoldable pub new_con_id : ENewCon → ℕ
new_con_id e = e.id

-- The reader is made without the event's message.
unfoldable pub get_reader : EReceivedMsg → MsgReader
unfolding make_reader
get_reader e = make_reader
