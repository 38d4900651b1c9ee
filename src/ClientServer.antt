-- ===== src/ClientServer.antt =====
-- tests/client_server/client_server.cpp: a program whose one network listens, connects ten times to itself
-- and ten times sends an object on every connection that it has, both ends of each included.
-- Modelled are the object, both handlers, and main from its second loop on; printing, and the loop that
-- connects and waits for that, are not. The double is its bit pattern.
pub mod Reading
pub mod Rounds
pub mod Talking
use volt_net.Common.{
  ◌>>=◌, ℕ, zero, suc, ◌+◌, ◌==◌, if◌then◌else◌, Bool, true, false, ◌&&◌, map, Option, some, List,
  [], ◌∷◌, ◌++◌,
}
use volt_net.Common.Int.{ℤ, pos, negsuc}
use volt_net.Defs.{Message}
use volt_net.Endian.{Host}
use volt_net.Serialize.{write_into_int32, write_into_char, write_into_string}
use volt_net.Deserialize.{read_into_int32, read_into_char, read_into_string}
use volt_net.Messages.{make_writer, write_msg, end_msg, get_msg, make_reader_with, read_msg}
use volt_net.Network.Traffic.{Event, processed}
use volt_net.Network.Calls.{Call, send_all, closes, runs}

pub record Test : Type 0 where
  pub a : ℤ
  pub b : ℕ
  pub c : ℤ
  pub s : List ℤ

-- "!A basic test string!"
abbrev pub basic : List ℤ
basic = map pos (
    b'!' ∷ b'A' ∷ b' ' ∷ b'b' ∷ b'a' ∷ b's' ∷ b'i' ∷ b'c' ∷ b' ' ∷ b't' ∷ b'e' ∷ b's' ∷ b't' ∷ b' '
    ∷ b's' ∷ b't' ∷ b'r' ∷ b'i' ∷ b'n' ∷ b'g' ∷ b'!' ∷ [])

-- `b` is the double 3.141592658.
abbrev pub new_test : Test
new_test = record { a = pos 1; b = 4614256656561976751; c = pos b'c'; s = basic }

unfoldable pub int_eq : ℤ → ℤ → Bool
int_eq (pos m) (pos n) = m == n
int_eq (pos m) (negsuc n) = false
int_eq (negsuc m) (pos n) = false
int_eq (negsuc m) (negsuc n) = m == n

unfoldable pub string_eq : List ℤ → List ℤ → Bool
string_eq [] [] = true
string_eq [] (y ∷ ys) = false
string_eq (x ∷ xs) [] = false
string_eq (x ∷ xs) (y ∷ ys) = int_eq x y && string_eq xs ys

-- operator==, which leaves `b` aside.
unfoldable pub test_eq : Test → Test → Bool
unfolding int_eq string_eq
test_eq v rhs = int_eq v.a rhs.a && int_eq v.c rhs.c && string_eq v.s rhs.s

unfoldable pub write_test : Host → Test → Message → Message
write_test h v msg = write_into_string h v.s (write_into_char h v.c (write_into_int32 h v.a msg))

-- `size` is what the uninitialised size of the string's read_into holds.
unfoldable pub read_test : Host → ℕ → Test → Message → Option (Test × Message)
read_test h size instance_ iter = do
  (a, rest) ← read_into_int32 h instance_.a iter
  (c, rest') ← read_into_char h instance_.c rest
  (s, end) ← read_into_string h size instance_.s rest'
  some (record instance_ { a = a; c = c; s = s }, end)

-- What one round hands to send_msg.
unfoldable pub written : Host → Test → Message
written h send_val = get_msg (end_msg (write_msg (write_test h) send_val make_writer))

-- What the handler for messages prints: a, c and s.
unfoldable pub printed : Host → ℕ → Message → Option (ℤ × ℤ × List ℤ)
unfolding read_test
printed h size msg = do
  (t, r) ← read_msg (read_test h size) new_test (make_reader_with msg)
  some (t.a, t.c, t.s)

pub record Globals : Type 0 where
  pub error_quit : Bool
  pub msgs_recieved : ℕ

-- A handler that main does not set.
unfoldable pub msg_event : Host → ℕ → Test → Message → Globals → Option Globals
unfolding read_test test_eq
msg_event h size send_val msg globals = do
  (rec_val, r) ← read_msg (read_test h size) new_test (make_reader_with msg)
  some (record { error_quit = test_eq rec_val send_val; msgs_recieved = globals.msgs_recieved + 1 })

-- What goes on outside main while a loop is in a round: whether its test finds error_quit set, and the
-- network's events before the round's lock and behind it.
pub record Around : Type 0 where
  pub error_quit : Bool
  pub before : List Event
  pub between : List Event

-- Main's second loop: `left` is how many rounds are left, `send_i` the number of this one.
unfoldable pub send_rounds : Message → (ℕ → Around) → ℕ → ℕ → List Call
send_rounds msg around zero send_i = []
send_rounds msg around (suc left) send_i =
    let rest = send_rounds msg around left (send_i + 1) in
    if (around send_i).error_quit
    then []
    else map runs (around send_i).before
      ++ (send_all msg ∷ (map runs (around send_i).between ++ (runs processed ∷ rest)))

-- Main's second loop and what is behind it.
unfoldable pub sending : Message → (ℕ → Around) → List Event → List Call
sending msg around late =
    send_rounds msg around 10 0 ++ (map runs late ++ (runs processed ∷ closes ∷ []))
