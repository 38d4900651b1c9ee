-- ===== src/NetCon/Parser.antt =====
-- What the receiving side of a connection computes from a stream of bytes, apart from buffers,
-- callbacks and sockets; and that it inverts the escaping of the serializer.
use volt_net.Common.{
  ℕ, ◌==◌, if◌then◌else◌, ◌≡◌, ◌≢◌, refl, sym, ap, Bool, true, false, List, [], ◌∷◌, ◌++◌, map,
  flatten, append_assoc, append-nil, arith,
}
use volt_net.Defs.{Message, escape_val, msg_origi_char, msg_end_escaped}
use volt_net.Serialize.{end_msg}
use volt_net.Serialize.Escaping.{escape, end_msg-append}

-- The message under construction, and whether an escape value has just been read.
pub record Parser : Type 0 where
  pub partial : Message
  pub escaped : Bool

abbrev pub start : Parser
start = record { partial = []; escaped = false }

after_escape : Parser → ℕ → Parser
after_escape p b =
    if b == msg_origi_char
    then record { partial = p.partial ++ (escape_val ∷ []); escaped = false }
    else if b == msg_end_escaped
    then start
    else record { partial = p.partial; escaped = false }

unfoldable pub advance : Parser → ℕ → Parser
unfolding after_escape
advance p b =
    if p.escaped
    then after_escape p b
    else if b == escape_val
    then record { partial = p.partial; escaped = true }
    else record { partial = p.partial ++ (b ∷ []); escaped = false }

-- The message that a byte completes, if it does.
unfoldable pub completed : Parser → ℕ → List Message
completed p b = if p.escaped then (if b == msg_end_escaped then p.partial ∷ [] else []) else []

unfoldable pub parse : Parser → List ℕ → List Message
parse p [] = []
parse p (b ∷ bs) = completed p b ++ parse (advance p b) bs

unfoldable pub state_after : Parser → List ℕ → Parser
state_after p [] = p
state_after p (b ∷ bs) = state_after (advance p b) bs

pub parse-append :
    (p : Parser) (xs ys : List ℕ) → parse p (xs ++ ys) ≡ parse p xs ++ parse (state_after p xs) ys
unfolding parse state_after
parse-append p [] ys = refl
parse-append p (x ∷ xs) ys =
    rw (parse-append (advance p x) xs ys) (sym (append_assoc (completed p x) _ _))

pub state_after-append :
    (p : Parser) (xs ys : List ℕ) → state_after p (xs ++ ys) ≡ state_after (state_after p xs) ys
unfolding state_after
state_after-append p [] ys = refl
state_after-append p (x ∷ xs) ys = state_after-append (advance p x) xs ys

-- Escaped bytes complete no message and add the plain bytes to the one under construction.
pub parse-escape :
    (bs : List ℕ) (m : Message)
    → (parse (record { partial = m; escaped = false }) (escape bs) ≡ [])
      × (state_after (record { partial = m; escaped = false }) (escape bs)
          ≡ record { partial = m ++ bs; escaped = false })
unfolding parse state_after escape advance completed
parse-escape [] m = (refl, rw (append-nil m))
parse-escape (b ∷ bs) m =
    ground (arith, parse-escape bs (m ++ (b ∷ [])), append_assoc m (b ∷ []) bs)

-- What the serializer ends a message with completes it.
parse-end :
    (m : Message) (rest : List ℕ)
    → parse (record { partial = m; escaped = false }) (escape_val ∷ msg_end_escaped ∷ rest)
      ≡ m ∷ parse start rest
unfolding parse advance completed
parse-end m rest = refl

state_after-end :
    (m : Message) (rest : List ℕ)
    → state_after (record { partial = m; escaped = false }) (escape_val ∷ msg_end_escaped ∷ rest)
      ≡ state_after start rest
unfolding state_after advance
state_after-end m rest = refl

-- A message in the form in which it travels.
abbrev pub frame : Message → List ℕ
frame m = end_msg (escape m)

pub frame-cons : (b : ℕ) (m : Message) → b ≢ escape_val → frame (b ∷ m) ≡ b ∷ frame m
unfolding escape end_msg
frame-cons b m plain = ground (arith, plain)

-- A message in its escaped form completes what the parser has of one.
pub parse-frame_onto :
    (part m : Message) (rest : List ℕ)
    → parse (record { partial = part; escaped = false }) (frame m ++ rest)
      ≡ (part ++ m) ∷ parse start rest
parse-frame_onto part m rest =
    let (none_yet, state) = parse-escape m part in
    rw
      (
        end_msg-append (escape m),
        append_assoc,
        parse-append (record { partial = part; escaped = false }) (escape m)
            (escape_val ∷ msg_end_escaped ∷ rest),
        none_yet,
        state,
      )
      (parse-end (part ++ m) rest)

pub parse-frame :
    (m : Message) (rest : List ℕ) → parse start (frame m ++ rest) ≡ m ∷ parse start rest
parse-frame m rest = parse-frame_onto [] m rest

pub state_after-frame :
    (m : Message) (rest : List ℕ) → state_after start (frame m ++ rest) ≡ state_after start rest
state_after-frame m rest =
    let (none_yet, state) = parse-escape m [] in
    rw
      (
        end_msg-append (escape m),
        append_assoc,
        state_after-append start (escape m) (escape_val ∷ msg_end_escaped ∷ rest),
        state,
      )
      (state_after-end m rest)

-- Messages that follow one another are found again, and nothing is left over.
pub parse-frames : (ms : List Message) → parse start (flatten (map frame ms)) ≡ ms
parse-frames [] = unfold parse in refl
parse-frames (m ∷ ms) = rw (parse-frame m (flatten (map frame ms))) (ap (◌∷◌ m) (parse-frames ms))

pub state_after-frames : (ms : List Message) → state_after start (flatten (map frame ms)) ≡ start
state_after-frames [] = unfold state_after in refl
state_after-frames (m ∷ ms) =
    rw (state_after-frame m (flatten (map frame ms))) (state_after-frames ms)
