-- ===== src/NetCon/Overlap.antt =====
-- What the peer of a connection makes of several messages that net_con::send_msg is given: one after
-- the other, and two at once (volt_net/src/volt/net/net_con.cpp).
use volt_net.Common.{
  ℕ, ◌<◌, length-append, ◌≡◌, ◌≢◌, refl, sym, ap, ◌∙◌, length, List, [], ◌∷◌, ◌++◌, append-nil,
  arith, take_of_le,
}
use volt_net.Defs.{Message, escape_val, msg_end_escaped}
use volt_net.MsgPool.{erase_idx}
use volt_net.Serialize.Escaping.{escape, end_msg-append}
use volt_net.NetCon.{NetCon, ok, send_msg}
use volt_net.NetCon.Parser.{start, parse, frame, frame-cons, parse-frames}
use volt_net.NetCon.Writing.{Sending, begins, sends, finish, set_left, step, run}

-- One byte of the first message, the whole second one, the rest of the first.
overlap_lem :
    (a : ℕ) (rest second : List ℕ) (c : NetCon)
    → 0 < length rest
    → run
        (begins (a ∷ rest)
          ∷ begins second
          ∷ sends 0 1
          ∷ sends 1 (length second)
          ∷ sends 0 (length rest)
          ∷ [])
        (record { con = c; sent = []; outstanding = [] })
      ≡ ok (record {
        con = send_msg second (send_msg (a ∷ rest) c);
        sent = a ∷ (second ++ rest);
        outstanding = [];
      })
unfolding run step finish set_left erase_idx
overlap_lem a rest second c some_left = ground (
  arith,
  take_of_le (length second) second (omega arith),
  take_of_le (length rest) rest (omega arith),
)

-- Two messages that are sent at once, the first of which begins with a byte other than 255: if one
-- byte of the first is sent before the second and the others after it, then both handlers run, none
-- throws, and the receiver makes out two messages: the first byte before the second message, and the
-- rest of the first.
pub overlap_mixes :
    (b : ℕ) (first second : Message) (c : NetCon)
    → b ≢ escape_val
    → (after : Sending) × (run
          (begins (frame (b ∷ first))
            ∷ begins (frame second)
            ∷ sends 0 1
            ∷ sends 1 (length (frame second))
            ∷ sends 0 (length (frame first))
            ∷ [])
          (record { con = c; sent = []; outstanding = [] })
        ≡ ok after)
      × (after.con ≡ send_msg (frame second) (send_msg (frame (b ∷ first)) c))
      × (parse start after.sent ≡ (b ∷ second) ∷ first ∷ [])
overlap_mixes b first second c plain =
    let some_left : 0 < length (frame first) = omega (
      arith,
      ap length (end_msg-append (escape first)),
      length-append (escape first) (escape_val ∷ msg_end_escaped ∷ []),
    ) in
    (
      record {
        con = send_msg (frame second) (send_msg (frame (b ∷ first)) c);
        sent = b ∷ (frame second ++ frame first);
        outstanding = [];
      },
      rw (frame-cons b first plain) (overlap_lem b (frame first) (frame second) c some_left),
      refl,
      ap (parse start) (
            ap (λ l. l ++ frame first) (sym (frame-cons b second plain))
            ∙ ap (◌++◌ (frame (b ∷ second))) (sym (append-nil (frame first))))
          ∙ parse-frames ((b ∷ second) ∷ first ∷ []),
    )
