-- ===== src/NetCon/Recovery.antt =====
-- The receiving side of a connection (handle_read of volt_net/src/volt/net/net_con.cpp) on bytes that
-- no serializer wrote: how much of what follows is lost.
use volt_net.Common.{
  ℕ, ◌≤◌, ◌==◌, if◌then◌else◌, All, ◌≡◌, ◌≢◌, ap, ◌∙◌, Bool, true, false, if_true, if_false, length,
  flatten, map, List, [], ◌∷◌, ◌++◌, Bool-cases, inl, inr, arith,
}
use volt_net.Defs.{Message, escape_val, msg_end_escaped, max_buffer_size}
use volt_net.NetCon.{NetCon, ok, receive}
use volt_net.NetCon.Bytes.{parser_of}
use volt_net.NetCon.Reading.{IsReady}
use volt_net.NetCon.Streams.{tagged, receive_lem}
use volt_net.NetCon.Parser.{
  start, advance, completed, parse, frame, frame-cons, parse-frame_onto, parse-frame, parse-frames,
}

from_escaped :
    (part : Message) (b : ℕ) (m : Message) (rest : List ℕ)
    → b ≢ escape_val
    → parse (record { partial = part; escaped = true }) (b ∷ (frame m ++ rest)) ≡ (
        if b == msg_end_escaped
        then part ∷ m ∷ parse start rest
        else (part ++ m) ∷ parse start rest)
unfolding parse completed advance
from_escaped part b m rest plain =
    ground (arith, plain, parse-frame_onto part m rest, parse-frame m rest)

-- From any state of the parser.
resync :
    (partial : Message) (escaped : Bool) (b : ℕ) (m : Message) (ms : List Message)
    → b ≢ escape_val
    → (damaged : List Message) × (length damaged ≤ 2)
      × (parse
            (record { partial = partial; escaped = escaped })
            (frame (b ∷ m) ++ flatten (map frame ms))
          ≡ damaged ++ ms)
resync partial false b m ms plain = (
  (partial ++ (b ∷ m)) ∷ [],
  omega arith,
  parse-frame_onto partial (b ∷ m) (flatten (map frame ms))
      ∙ ap (◌∷◌ (partial ++ (b ∷ m))) (parse-frames ms),
)
resync partial true b m ms plain = elim (Bool-cases (b == msg_end_escaped)) [
  | inl ends ↦ (
    partial ∷ m ∷ [],
    omega arith,
    rw (frame-cons b m plain) (
        from_escaped partial b m (flatten (map frame ms)) plain
        ∙ if_true _ _ ends
        ∙ ap (λ l. partial ∷ m ∷ l) (parse-frames ms)),
  )
  | inr other ↦ (
    (partial ++ m) ∷ [],
    omega arith,
    rw (frame-cons b m plain) (
        from_escaped partial b m (flatten (map frame ms)) plain
        ∙ if_false _ _ other
        ∙ ap (◌∷◌ (partial ++ m)) (parse-frames ms)),
  )
]

-- A ready connection whose handler does not close it, in the middle of any message or escape: when a
-- message arrives in escaped form that begins with a byte other than 255, and others behind it, then
-- however they are cut into reads that fit the buffer, the handler gets at most two damaged messages,
-- and all messages behind as they were, in order and each once.
pub receive-recovers :
    (closes : List (ℕ × Message) → Bool) (pieces : List (List ℕ)) (b : ℕ) (m : Message)
    (ms : List Message) (c : NetCon)
    → ((calls : List (ℕ × Message)) → closes calls ≡ false)
    → IsReady c
    → All (λ piece. length piece ≤ max_buffer_size) pieces
    → b ≢ escape_val
    → flatten pieces ≡ frame (b ∷ m) ++ flatten (map frame ms)
    → (d : NetCon) × (damaged : List Message) × (receive closes pieces c ≡ ok d)
      × IsReady d
      × (length damaged ≤ 2)
      × (d.new_msg_calls ≡ c.new_msg_calls ++ tagged c.id (damaged ++ ms))
receive-recovers closes pieces b m ms c never v fit plain whole =
    let (d, eq, r) = receive_lem closes never pieces c v fit in
    let (damaged, few, parsed) = resync c.recv_msg c.next_is_escape b m ms plain in
    (
      d,
      damaged,
      eq,
      r.ready,
      few,
      r.messages
          ∙ ap (λ bytes. c.new_msg_calls ++ tagged c.id (parse (parser_of c) bytes)) whole
          ∙ ap (λ found. c.new_msg_calls ++ tagged c.id found) parsed,
    )
