-- ===== src/Chat/Objects.antt =====
-- The object that the chat's programs send (tests/single_server/single_server.cpp and
-- tests/single_client/single_client.cpp declare the same). `m` and `n` are what the uninitialised sizes
-- of two calls of read_into hold.
use volt_net.Common.Int.{ℤ}
use volt_net.Common.{ℕ, Option, some, ◌>>=◌, List, []}
use volt_net.Defs.{Message}
use volt_net.Endian.{Host}
use volt_net.Serialize.{write_into_string}
use volt_net.Deserialize.{read_into_string}
use volt_net.Messages.{make_writer, write_msg, end_msg, get_msg, make_reader_with, read_msg}

pub record Test : Type 0 where
  pub user : List ℤ
  pub chat_msg : List ℤ

abbrev pub new_test : Test
new_test = record { user = []; chat_msg = [] }

unfoldable pub write_test : Host → Test → Message → Message
write_test h v msg = write_into_string h v.chat_msg (write_into_string h v.user msg)

unfoldable pub read_test : Host → ℕ → ℕ → Test → Message → Option (Test × Message)
read_test h m n instance_ iter = do
  (user, rest) ← read_into_string h m instance_.user iter
  (chat_msg, end) ← read_into_string h n instance_.chat_msg rest
  some (record { user = user; chat_msg = chat_msg }, end)

-- What server and client hand to send_msg for an object.
unfoldable pub written : Host → Test → Message
written h t = get_msg (end_msg (write_msg (write_test h) t make_writer))

-- What both read from a message that they receive.
unfoldable pub understood : Host → ℕ → ℕ → Message → Option Test
understood h m n msg = do
  (t, r) ← read_msg (read_test h m n) new_test (make_reader_with msg)
  some t
