-- ===== src/NetCon/Streams.antt =====
-- A stream that arrives in pieces: how it is cut makes no difference to the messages received.
use volt_net.Common.{
  ℕ, zero, suc, ◌≤◌, ◌≡◌, refl, sym, ap, ◌∙◌, Bool, false, List, [], ◌∷◌, ◌++◌, if_true, length,
  drop, map, flatten, All, append_assoc, append-nil, arith,
}
use mathlib.Core.List.{map-append}
use volt_net.Defs.{Message, max_buffer_size}
use volt_net.NetCon.{NetCon, ok, success, complete_read, receive}
use volt_net.NetCon.Parser.{
  start, parse, state_after, parse-append, state_after-append, frame, parse-frames,
  state_after-frames,
}
use volt_net.NetCon.Bytes.{Calls, parser_of, calls_of, deliver}
use volt_net.NetCon.Reading.{IsReady, read_con, complete_read_lem}

-- A message with the connection that it came from.
abbrev pub tagged : ℕ → List Message → List (ℕ × Message)
tagged id ms = map (λ m. (id, m)) ms

pub deliver_all :
    (closes : List (ℕ × Message) → Bool) (id : ℕ) (s : Calls) (ms : List Message)
    → ((calls : List (ℕ × Message)) → closes calls ≡ false)
    → deliver closes id s ms ≡ record s { made = s.made ++ tagged id ms }
unfolding deliver
deliver_all closes id s [] never = rw append-nil
deliver_all closes id s (m ∷ ms) never = rw (
  never (s.made ++ ((id, m) ∷ [])),
  deliver_all closes id (record s { made = s.made ++ ((id, m) ∷ []) }) ms never,
  append_assoc,
)

pub length-refill :
    (received buff : List ℕ) (n : ℕ)
    → length buff ≡ n
    → length received ≤ n
    → length (received ++ drop (length received) buff) ≡ n
length-refill [] buff n e h = e
length-refill (x ∷ xs) [] n e h = absurd (omega arith)
length-refill (x ∷ xs) (y ∷ ys) zero e h = absurd (omega arith)
length-refill (x ∷ xs) (y ∷ ys) (suc n) e h =
    ap suc (length-refill xs ys n (omega arith) (omega arith))

-- What a connection has received, and that it can go on.
pub record Received (c : NetCon) (bytes : List ℕ) (d : NetCon) : Type 0 where
  pub ready : IsReady d
  pub messages : d.new_msg_calls ≡ c.new_msg_calls ++ tagged c.id (parse (parser_of c) bytes)
  pub parser : parser_of d ≡ state_after (parser_of c) bytes
  pub same_id : d.id ≡ c.id
  pub not_closed : d.closed_calls ≡ c.closed_calls
  pub same_writes : d.writes ≡ c.writes

module _ (closes : List (ℕ × Message) → Bool)
    (never : (calls : List (ℕ × Message)) → closes calls ≡ false) where
  pub complete_read-Received :
      (received : List ℕ) (c : NetCon)
      → IsReady c
      → length received ≤ max_buffer_size
      → (d : NetCon) × (complete_read closes success received c ≡ ok d) × Received c received d
  complete_read-Received received c v fits =
      let all = deliver_all closes c.id (calls_of c) (parse (parser_of c) received) never in
      let (i, p, eq, after) = complete_read_lem closes received c v in
      let still = ap (λ s. s.open_now) all ∙ v.is_open in
      let (at_start, parsed) = after still in
      (
        read_con c received (deliver closes c.id (calls_of c) (parse (parser_of c) received)) i p,
        eq,
        record {
          ready = record {
            is_open = still;
            can_close = v.can_close;
            can_deliver = v.can_deliver;
            at_start = at_start;
            full = length-refill received c.buff max_buffer_size v.full fits;
            reading = v.reading;
            one_read = if_true 1 0 still;
          };
          messages = ap (λ s. s.made) all;
          parser = parsed;
          same_id = refl;
          not_closed = ap (λ s. s.closed) all;
          same_writes = refl;
        },
      )

  -- A ready connection whose handler does not close it: however a stream is cut into reads that fit
  -- the buffer, the handler gets the messages that the parser finds in the whole stream, and the
  -- connection is ready for more.
  pub receive_lem :
      (pieces : List (List ℕ)) (c : NetCon)
      → IsReady c
      → All (λ piece. length piece ≤ max_buffer_size) pieces
      → (d : NetCon) × (receive closes pieces c ≡ ok d) × Received c (flatten pieces) d
  unfolding receive
  receive_lem [] c v fit = (
    c,
    refl,
    record {
      ready = v;
      messages = unfold parse in sym (append-nil c.new_msg_calls);
      parser = unfold state_after in refl;
      same_id = refl;
      not_closed = refl;
      same_writes = refl;
    },
  )
  receive_lem (piece ∷ pieces) c v fit =
      let (d, eq, r) = complete_read-Received piece c v fit.0 in
      let (d', eq', r') = receive_lem pieces d r.ready fit.1 in (d', rw eq eq', join r r')
    where
      found : List ℕ → List Message
      found bytes = parse (state_after (parser_of c) piece) bytes

      join :
          {d d' : NetCon}
          → Received c piece d
          → Received d (flatten pieces) d'
          → Received c (piece ++ flatten pieces) d'
      join {d} r r' = record {
        ready = r'.ready;
        messages =
            r'.messages
            ∙ ap (λ p. d.new_msg_calls ++ tagged d.id (parse p (flatten pieces))) r.parser
            ∙ ap (λ id. d.new_msg_calls ++ tagged id (found (flatten pieces))) r.same_id
            ∙ ap (λ calls. calls ++ tagged c.id (found (flatten pieces))) r.messages
            ∙ rw
                (
                  parse-append (parser_of c) piece (flatten pieces),
                  map-append {B = ℕ × Message} (λ m. (c.id, m)) (parse (parser_of c) piece)
                      (found (flatten pieces)),
                )
                (append_assoc c.new_msg_calls _ _);
        parser =
            r'.parser
            ∙ ap (λ p. state_after p (flatten pieces)) r.parser
            ∙ sym (state_after-append (parser_of c) piece (flatten pieces));
        same_id = r'.same_id ∙ r.same_id;
        not_closed = r'.not_closed ∙ r.not_closed;
        same_writes = r'.same_writes ∙ r.same_writes;
      }

  -- A ready connection that is between two messages and whose handler does not close it: whole
  -- messages in escaped form, cut anywhere into reads that fit the buffer, arrive as they were, in
  -- order and each once, and the connection is left as it was found, between two messages.
  pub receive-frames :
      (pieces : List (List ℕ)) (ms : List Message) (c : NetCon)
      → IsReady c
      → parser_of c ≡ start
      → All (λ piece. length piece ≤ max_buffer_size) pieces
      → flatten pieces ≡ flatten (map frame ms)
      → (d : NetCon) × (receive closes pieces c ≡ ok d)
        × IsReady d
        × (parser_of d ≡ start)
        × (d.new_msg_calls ≡ c.new_msg_calls ++ tagged c.id ms)
        × (d.closed_calls ≡ c.closed_calls)
  receive-frames pieces ms c v clean fit cut =
      let (d, eq, r) = receive_lem pieces c v fit in
      (
        d,
        eq,
        r.ready,
        r.parser ∙ rw (clean, cut) (state_after-frames ms),
        r.messages
            ∙ ap (λ found. c.new_msg_calls ++ tagged c.id found)
                (rw (clean, cut) (parse-frames ms)),
        r.not_closed,
      )
