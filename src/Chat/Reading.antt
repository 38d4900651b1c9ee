-- ===== src/Chat/Reading.antt =====
-- The objects that the chat's messages are read as (tests/single_server/single_server.cpp and
-- tests/single_client/single_client.cpp).
use volt_net.Common.{
  ℕ, ◌^◌, ◌<◌, ◌==◌, ◌≡◌, refl, sym, ap, ◌∙◌, if◌then◌else◌, Bool-cases, inl, inr, length, map, All,
  List, [], ◌∷◌, ◌++◌, append-nil,
}
use mathlib.Core.Option.{some-injective}
use volt_net.Common.Int.{IsSigned}
use volt_net.Defs.{Message}
use volt_net.Endian.{Host, little}
use volt_net.Serialize
use volt_net.Serialize.Escaping.{escape, escape-append}
use volt_net.Codec.Containers.{string-Transfers}
use volt_net.Messages.{write_msg, end_msg, get_msg, make_writer, read_msg, make_reader_with}
use volt_net.Messages.Exchange.{Pairs}
use volt_net.NetCon.Parser.{frame}
use volt_net.NetCon.Streams.{tagged}
use volt_net.Network.Traffic.{from_con}
use volt_net.Chat.Objects.{Test, write_test, read_test, written, understood}
use volt_net.Chat.Sending.{Reads}
use volt_net.Chat.Relaying.{Readable}

-- Two strings of signed chars that fit a message.
abbrev pub IsTest : Test → Type 0
IsTest t =
    (length t.user < 2 ^ 32)
    × All (IsSigned (2 ^ 7)) t.user
    × (length t.chat_msg < 2 ^ 32)
    × All (IsSigned (2 ^ 7)) t.chat_msg

-- An object is sent in the frame of a message that is read as this object.
pub written-Reads :
    (w r : Host) (m n : ℕ) (t : Test)
    → r.layout ≡ little
    → IsTest t
    → (msg : Message) × (written w t ≡ frame msg) × Reads r m n msg t
unfolding written write_test write_msg end_msg get_msg make_writer understood read_msg
    make_reader_with read_test
written-Reads w r m n t e (fits, chars, fits', chars') =
    let first = string-Transfers w r e t.user [] m fits chars in
    let second = string-Transfers w r e t.chat_msg [] n fits' chars' in
    (
      first.0 ++ second.0,
      ap Serialize.end_msg
          (rw (first.1 [], second.1 (escape first.0)) (sym (escape-append first.0 second.0))),
      ap (λ bytes. understood r m n (first.0 ++ bytes)) (sym (append-nil second.0))
          ∙ rw (
            understood,
            read_msg,
            make_reader_with,
            read_test,
            first.2 (second.0 ++ []),
            second.2 [],
          ),
    )

-- What machines wrote, as the server and every client read it.
pub written-frames :
    {A : Type 0} (host : A → Host) (object : A → Test) (r : Host) (m n : ℕ) (xs : List A)
    → r.layout ≡ little
    → All (λ x. IsTest (object x)) xs
    → (ms : List Message) × (map (λ x. written (host x) (object x)) xs ≡ map frame ms)
      × Pairs (Reads r m n) ms (map object xs)
written-frames host object r m n [] e valid = ([], refl, tt)
written-frames host object r m n (x ∷ xs) e (is, valid) =
    let (msg, framed, reads) = written-Reads (host x) r m n (object x) e is in
    let (ms, others, all) = written-frames host object r m n xs e valid in
    (msg ∷ ms, rw (framed, others), (reads, all))

pub Pairs-Readable :
    (h : Host) (m n : ℕ) (ms : List Message) (ts : List Test)
    → Pairs (Reads h m n) ms ts
    → All (Readable h m n) ms
Pairs-Readable h m n [] ts p = tt
Pairs-Readable h m n (x ∷ ms) [] p = absurd (p tt)
Pairs-Readable h m n (x ∷ ms) (t ∷ ts) (reads, p) = ((t, reads), Pairs-Readable h m n ms ts p)

pub Pairs-tagged :
    (h : Host) (m n id : ℕ) (ms : List Message) (ts : List Test)
    → Pairs (Reads h m n) ms ts
    → Pairs (λ msg t. Reads h m n msg.1 t) (tagged id ms) ts
Pairs-tagged h m n id [] [] p = tt
Pairs-tagged h m n id [] (t ∷ ts) p = p
Pairs-tagged h m n id (x ∷ ms) [] p = p
Pairs-tagged h m n id (x ∷ ms) (t ∷ ts) (reads, p) = (reads, Pairs-tagged h m n id ms ts p)

-- A message is read as one object only.
pub Pairs-unique :
    (h : Host) (m n : ℕ) (ms : List (ℕ × Message)) (ts us : List Test)
    → Pairs (λ msg t. Reads h m n msg.1 t) ms ts
    → Pairs (λ msg t. Reads h m n msg.1 t) ms us
    → ts ≡ us
Pairs-unique h m n [] [] [] p q = refl
Pairs-unique h m n [] [] (u ∷ us) p q = absurd (q tt)
Pairs-unique h m n [] (t ∷ ts) us p q = absurd (p tt)
Pairs-unique h m n (x ∷ ms) [] us p q = absurd (p tt)
Pairs-unique h m n (x ∷ ms) (t ∷ ts) [] p q = absurd (q tt)
Pairs-unique h m n (x ∷ ms) (t ∷ ts) (u ∷ us) (reads, p) (reads', q) =
    ap (λ y. y ∷ ts) (some-injective t u (sym reads ∙ reads'))
    ∙ ap (◌∷◌ u) (Pairs-unique h m n ms ts us p q)

-- The chat: who said what. It is what a list of messages says with what it was read as.
pub said : List (ℕ × Message) → List Test → List (ℕ × Test)
said [] ts = []
said (x ∷ ms) [] = []
said (x ∷ ms) (t ∷ ts) = (x.0, t) ∷ said ms ts

abbrev pub said_by : ℕ → List (ℕ × Test) → List Test
said_by id [] = []
said_by id ((i, t) ∷ chat) = let rest = said_by id chat in if i == id then t ∷ rest else rest

pub said-written :
    (h w : Host) (m n : ℕ) (ms : List (ℕ × Message)) (ts : List Test)
    → Pairs (λ msg t. Reads h m n msg.1 t) ms ts
    → map (written w) ts ≡ map (λ (x : ℕ × Test). written w x.1) (said ms ts)
unfolding said
said-written h w m n [] [] p = refl
said-written h w m n [] (t ∷ ts) p = absurd (p tt)
said-written h w m n (x ∷ ms) [] p = absurd (p tt)
said-written h w m n (x ∷ ms) (t ∷ ts) p = ap (◌∷◌ (written w t)) (said-written h w m n ms ts p.1)

pub said_by-from_con :
    (h : Host) (m n id : ℕ) (ms : List (ℕ × Message)) (ts : List Test)
    → Pairs (λ msg t. Reads h m n msg.1 t) ms ts
    → Pairs (λ msg t. Reads h m n msg.1 t) (from_con id ms) (said_by id (said ms ts))
unfolding said from_con
said_by-from_con h m n id [] [] p = tt
said_by-from_con h m n id [] (t ∷ ts) p = tt
said_by-from_con h m n id (x ∷ ms) [] p = absurd (p tt)
said_by-from_con h m n id (x ∷ ms) (t ∷ ts) p = elim (Bool-cases (x.0 == id)) [
  | inl hit ↦ rw hit (p.0, said_by-from_con h m n id ms ts p.1)
  | inr miss ↦ rw miss (said_by-from_con h m n id ms ts p.1)
]
