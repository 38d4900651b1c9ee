-- ===== src/ClientServer/Reading.antt =====
-- What tests/client_server/client_server.cpp reads of the objects that it sends.
use volt_net.Common.{
  ℕ, ◌+◌, ◌^◌, ◌<◌, ◌≡◌, refl, sym, ap, ◌∙◌, Bool-cases, inl, inr, true, false, length,
  length-append, All, some, List, [], ◌∷◌, ◌++◌, append-nil, append_assoc, arith,
}
use volt_net.Common.Int.{ℤ, IsSigned}
use volt_net.Defs.{Message}
use volt_net.Endian.{Host, little}
use volt_net.Serialize
use volt_net.Serialize.Escaping.{escape, escape-append}
use volt_net.Codec.Scalars.{char-Transfers, int32-Transfers}
use volt_net.Codec.Containers.{string-Transfers}
use volt_net.Messages.{write_msg, end_msg, get_msg, make_writer, read_msg, make_reader_with}
use volt_net.NetCon.Parser.{frame}
use volt_net.ClientServer.{
  Test, basic, new_test, string_eq, test_eq, write_test, read_test, written, printed, Globals,
  msg_event,
}

-- An int of 32 bits, a signed char and a string of such that fits a message.
abbrev pub IsTest : Test → Type 0
IsTest t =
    IsSigned (2 ^ 31) t.a
    × IsSigned (2 ^ 7) t.c
    × (length t.s < 2 ^ 32)
    × All (IsSigned (2 ^ 7)) t.s

-- What is read for an object that was sent: the string stands behind the one that was there.
abbrev pub received : Test → Test
received t = record new_test { a = t.a; c = t.c; s = basic ++ t.s }

pub read_test-written :
    (w r : Host) (size : ℕ) (t : Test)
    → r.layout ≡ little
    → IsTest t
    → (msg : Message) × (written w t ≡ frame msg)
      × (read_test r size new_test msg ≡ some (received t, []))
unfolding written write_test write_msg end_msg get_msg make_writer read_test
read_test-written w r size t e (int, char, fits, chars) =
    let first = int32-Transfers w r e t.a new_test.a int in
    let second = char-Transfers w r e t.c new_test.c char in
    let third = string-Transfers w r e t.s new_test.s size fits chars in
    (
      first.0 ++ (second.0 ++ third.0),
      ap Serialize.end_msg (
          rw (first.1 [], second.1 (escape first.0), third.1 (escape first.0 ++ escape second.0))
            (simp (escape-append, append_assoc))),
      ap (λ bytes. read_test r size new_test (first.0 ++ (second.0 ++ bytes)))
            (sym (append-nil third.0))
          ∙ rw (first.2 (second.0 ++ (third.0 ++ [])), second.2 (third.0 ++ []), third.2 []),
    )

-- What the handler prints of an object that a machine of any kind sent, on a little endian machine: the
-- int and the char that were sent, but behind the text of the fresh object's own string.
pub printed-written :
    (w r : Host) (size : ℕ) (t : Test)
    → r.layout ≡ little
    → IsTest t
    → (msg : Message) × (written w t ≡ frame msg)
      × (printed r size msg ≡ some (t.a, t.c, basic ++ t.s))
unfolding printed read_msg make_reader_with
printed-written w r size t e valid =
    let (msg, framed, read) = read_test-written w r size t e valid in
    (msg, framed, rw (printed, read_msg, make_reader_with, read))

length-string_eq : (xs ys : List ℤ) → string_eq xs ys ≡ true → length xs ≡ length ys
unfolding string_eq
length-string_eq [] [] h = refl
length-string_eq [] (y ∷ ys) h = cc
length-string_eq (x ∷ xs) [] h = cc
length-string_eq (x ∷ xs) (y ∷ ys) h = ground (arith, length-string_eq xs ys)

test_eq-received : (t : Test) → test_eq (received t) t ≡ false
unfolding test_eq
test_eq-received t = elim (Bool-cases (string_eq (basic ++ t.s) t.s)) [
  | inl same ↦
      absurd (omega (arith, length-string_eq (basic ++ t.s) t.s same, length-append basic t.s))
  | inr other ↦ ground (arith, other)
]

-- The handler that compares, on a little endian machine: whichever object it is that a machine of any
-- kind sent and that it compares with, it finds them different and clears error_quit, and it counts
-- the message.
pub msg_event_lem :
    (w r : Host) (size : ℕ) (t : Test) (globals : Globals)
    → r.layout ≡ little
    → IsTest t
    → (msg : Message) × (written w t ≡ frame msg)
      × (msg_event r size t msg globals
          ≡ some (record { error_quit = false; msgs_recieved = globals.msgs_recieved + 1 }))
unfolding msg_event read_msg make_reader_with
msg_event_lem w r size t globals e valid =
    let (msg, framed, read) = read_test-written w r size t e valid in
    (msg, framed, rw (msg_event, read_msg, make_reader_with, read, test_eq-received t))
