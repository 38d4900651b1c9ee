-- ===== src/Messages/Exchange.antt =====
-- From a writer on one machine to a reader on another: values, messages, connections.
use volt_net.Common.{
  ℕ, zero, suc, ◌≤◌, ◌≡◌, refl, sym, ap, ◌∙◌, Bool, false, Option, some, ◌>>=◌, List, [], ◌∷◌, ◌++◌,
  map, flatten, length, All, append_assoc, append-nil,
}
use volt_net.Defs.{Message, max_buffer_size}
use volt_net.Serialize
use volt_net.Serialize.Escaping.{escape, escape-append}
use volt_net.Codec.{Codec}
use volt_net.NetCon.{NetCon, ok, receive}
use volt_net.NetCon.Parser.{start, frame}
use volt_net.NetCon.Bytes.{parser_of}
use volt_net.NetCon.Reading.{IsReady}
use volt_net.NetCon.Writing.{send_msgs, send_msgs-writes}
use volt_net.NetCon.Streams.{tagged, receive-frames}
use volt_net.Messages.{
  MsgWriter, make_writer, write_msg, end_msg, get_msg, MsgReader, make_reader_with, read_msg,
}

-- The entries of two lists are related in pairs.
abbrev pub Pairs {ℓ κ μ} : {A : Type ℓ} {B : Type κ} → (A → B → Type μ) → List A → List B → Type μ
Pairs P [] [] = Unit
Pairs P [] (y ∷ ys) = Unit → ⊥
Pairs P (x ∷ xs) [] = Unit → ⊥
Pairs P (x ∷ xs) (y ∷ ys) = P x y × Pairs P xs ys

-- A program that writes some values of one type, one after the other.
unfoldable pub write_values {ℓ} :
    {A : Type ℓ} → (A → Message → Message) → List A → MsgWriter → MsgWriter
write_values write [] w = w
write_values write (v ∷ vs) w = write_values write vs (write_msg write v w)

unfoldable pub write_message {ℓ} : {A : Type ℓ} → (A → Message → Message) → List A → Message
write_message write vs = get_msg (end_msg (write_values write vs make_writer))

-- A program that reads as many into fresh objects.
unfoldable pub read_values {ℓ} :
    {A : Type ℓ}
    → (A → Message → Option (A × Message))
    → A
    → ℕ
    → MsgReader
    → Option (List A × MsgReader)
read_values read fresh zero r = some ([], r)
read_values read fresh (suc n) r = do
  (v, r') ← read_msg read fresh r
  (vs, end) ← read_values read fresh n r'
  some (v ∷ vs, end)

module _ {ℓ} {A : Type ℓ} (c : Codec A) where
  -- The message holds exactly the values: reading them leaves the reader at its end.
  abbrev pub Holds : List A → Message → Type ℓ
  Holds vs m =
      read_values c.read c.fresh (length vs) (make_reader_with m)
      ≡ some (vs, record { msg = m; iter = [] })

  values-Transfers :
      (vs : List A)
      → All c.IsValid vs
      → (bytes : Message) × ((w : MsgWriter)
          → (write_values c.write vs w).msg ≡ w.msg ++ escape bytes)
        × ((m rest : Message)
            → read_values c.read c.fresh (length vs) (record { msg = m; iter = bytes ++ rest })
              ≡ some (vs, record { msg = m; iter = rest }))
  unfolding write_values write_msg read_values read_msg
  values-Transfers [] h = ([], (λ w. unfold escape in sym (append-nil w.msg)), λ m rest. refl)
  values-Transfers (v ∷ vs) h =
      let t = c.transfers v h.0 in
      let ts = values-Transfers vs h.1 in
      (
        t.0 ++ ts.0,
        (λ w. ts.1 (write_msg c.write v w) ∙ rw (t.1 w.msg, append_assoc, escape-append t.0 ts.0)),
        λ m rest. rw (append_assoc, t.2 (ts.0 ++ rest), ts.2 m rest),
      )

  -- What is written and ended is the frame of a message that holds the values.
  pub write_message-frame :
      (vs : List A)
      → All c.IsValid vs
      → (m : Message) × (write_message c.write vs ≡ frame m) × Holds vs m
  unfolding write_message get_msg end_msg make_writer make_reader_with
  write_message-frame vs h =
      let (bytes, written, read) = values-Transfers vs h in
      (
        bytes,
        ap Serialize.end_msg (written make_writer),
        ap (λ iter. read_values c.read c.fresh (length vs) (record { msg = bytes; iter = iter }))
              (sym (append-nil bytes))
            ∙ read bytes [],
      )

  pub write_messages-frames :
      (batches : List (List A))
      → All (All c.IsValid) batches
      → (ms : List Message) × (map (write_message c.write) batches ≡ map frame ms)
        × Pairs Holds batches ms
  write_messages-frames [] h = ([], refl, tt)
  write_messages-frames (vs ∷ batches) h =
      let (m, eq, holds) = write_message-frame vs h.0 in
      let (ms, eqs, all) = write_messages-frames batches h.1 in (m ∷ ms, rw (eq, eqs), (holds, all))

  -- Programs on two machines exchange lists of values of a type with a codec. A sender that has not
  -- written yet writes each list into a message of its own, ends it and sends it; the bytes of its
  -- writes reach a ready receiver that is between two messages and whose handler does not close the
  -- connection, in order and cut into reads in any way that fits the buffer. Then the receiver's
  -- handler is called with one message for each list, in order; reading a message gives back its list
  -- and ends at the end of the message; and the receiver is ready and between two messages again.
  pub exchange :
      (closes : List (ℕ × Message) → Bool) (batches : List (List A)) (pieces : List (List ℕ))
      (sender receiver : NetCon)
      → ((calls : List (ℕ × Message)) → closes calls ≡ false)
      → All (All c.IsValid) batches
      → sender.writes ≡ []
      → IsReady receiver
      → parser_of receiver ≡ start
      → All (λ piece. length piece ≤ max_buffer_size) pieces
      → flatten pieces ≡ flatten (send_msgs (map (write_message c.write) batches) sender).writes
      → (after : NetCon) × (ms : List Message) × (receive closes pieces receiver ≡ ok after)
        × (after.new_msg_calls ≡ receiver.new_msg_calls ++ tagged receiver.id ms)
        × Pairs Holds batches ms
        × IsReady after
        × (parser_of after ≡ start)
  exchange closes batches pieces sender receiver never valid idle ready clean fit carried =
      let (ms, framed, all) = write_messages-frames batches valid in
      let sent =
        send_msgs-writes (map (write_message c.write) batches) sender
        ∙ ap (λ l. l ++ map (write_message c.write) batches) idle
        ∙ framed in
      let (after, eq, still, clean', calls, open_) =
        receive-frames closes never pieces ms receiver ready clean fit
          (carried ∙ ap flatten sent) in
      (after, ms, eq, calls, all, still, clean')
