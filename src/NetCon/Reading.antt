-- ===== src/NetCon/Reading.antt =====
-- net_con::handle_read on a buffer of any length: it ends, and does what the parser says.
use volt_net.Common.{
  ℕ, zero, suc, ◌+◌, ◌-◌, ◌≤◌, ◌<◌, ◌≡◌, refl, sym, ap, ◌∙◌, Bool, true, false, List, [], ◌∷◌, ◌++◌,
  if◌then◌else◌, if_true, if_false, length, drop, length-append, append_assoc, arith, Bool-cases,
  inl, inr,
}
use volt_net.Defs.{Message, max_buffer_size}
use volt_net.NetCon.{NetCon, Outcome, ok, ◌>>=◌, read_loop, handle_read, success, complete_read}
use volt_net.NetCon.Parser.{Parser, advance, completed, parse, state_after}
use volt_net.NetCon.Bytes.{
  Calls, parser_of, calls_of, put, deliver, deliver-append, handle_byte_lem, get_next_byte_more,
  get_next_byte_end,
}

-- The connection after the bytes `bs`: `i` and `p` are free only where a handler closed it.
abbrev pub Absorbs : (List (ℕ × Message) → Bool) → NetCon → List ℕ → Outcome NetCon → Type 0
Absorbs closes c bs result =
    let s = deliver closes c.id (calls_of c) (parse (parser_of c) bs) in
    (i : ℕ) × (p : Parser) × (result ≡ ok (record (put c s p) { current_index = i }))
    × (s.open_now ≡ true → (i ≡ 0) × (p ≡ state_after (parser_of c) bs))

-- The connection after one byte.
abbrev next_con : (List (ℕ × Message) → Bool) → ℕ → NetCon → NetCon
next_con closes b c =
    put (record c { current_index = c.current_index + 1 })
      (deliver closes c.id (calls_of c) (completed (parser_of c) b)) (advance (parser_of c) b)

read_loop_step :
    (closes : List (ℕ × Message) → Bool) (fuel b : ℕ) (c : NetCon) (front back : List ℕ)
    → c.con_open ≡ true
    → c.has_closed_callback ≡ true
    → c.has_new_msg_callback ≡ true
    → c.buff ≡ front ++ (b ∷ back)
    → c.current_index ≡ length front
    → c.current_index < c.msg_size
    → read_loop closes (suc fuel) c ≡ read_loop closes fuel (next_con closes b c)
unfolding read_loop
read_loop_step closes fuel b c front back o h1 h2 e i n =
    if_true _ (ok c) o
    ∙ rw (get_next_byte_more c front back b o e i n) (
        ap (λ r. r >>= (λ d. read_loop closes fuel d))
          (handle_byte_lem closes b (record c { current_index = c.current_index + 1 }) o h1 h2))

read_loop_closed :
    (closes : List (ℕ × Message) → Bool) (fuel : ℕ) (c : NetCon)
    → 0 < fuel
    → c.con_open ≡ false
    → read_loop closes fuel c ≡ ok c
unfolding read_loop
read_loop_closed closes zero c f o = elim f [ ]
read_loop_closed closes (suc fuel) c f o = if_false _ (ok c) o

read_loop_end :
    (closes : List (ℕ × Message) → Bool) (fuel : ℕ) (c : NetCon)
    → c.con_open ≡ true
    → c.msg_size ≤ c.current_index
    → read_loop closes (suc fuel) c ≡ ok (record c { current_index = 0 })
unfolding read_loop
read_loop_end closes fuel c o n = if_true _ (ok c) o ∙ rw (get_next_byte_end c n)

-- What a byte and the bytes after it do together.
deliver_next :
    (closes : List (ℕ × Message) → Bool) (c : NetCon) (b : ℕ) (bs : List ℕ)
    → c.con_open ≡ true
    → let s = deliver closes c.id (calls_of c) (completed (parser_of c) b) in
      deliver closes c.id (calls_of c) (parse (parser_of c) (b ∷ bs))
      ≡ (if s.open_now then deliver closes c.id s (parse (advance (parser_of c) b) bs) else s)
unfolding parse
deliver_next closes c b bs o =
    deliver-append closes c.id (calls_of c) (completed (parser_of c) b)
      (parse (advance (parser_of c) b) bs) o

pub read_loop-Absorbs :
    (closes : List (ℕ × Message) → Bool) (bs : List ℕ) (fuel : ℕ) (c : NetCon) (front tail : List ℕ)
    → length bs < fuel
    → c.con_open ≡ true
    → c.has_closed_callback ≡ true
    → c.has_new_msg_callback ≡ true
    → c.buff ≡ front ++ (bs ++ tail)
    → c.current_index ≡ length front
    → c.msg_size ≡ length front + length bs
    → Absorbs closes c bs (read_loop closes fuel c)
unfolding state_after
read_loop-Absorbs closes bs zero c front tail f o h1 h2 e i n = elim f [ ]
read_loop-Absorbs closes [] (suc fuel) c front tail f o h1 h2 e i n =
    unfold deliver parse in
    (0, parser_of c, read_loop_end closes fuel c o (omega arith), λ _. (refl, refl))
read_loop-Absorbs closes (b ∷ bs) (suc fuel) c front tail f o h1 h2 e i n =
    let d = next_con closes b c in
    let step = read_loop_step closes fuel b c front (bs ++ tail) o h1 h2 e i (omega arith) in
    let split = deliver_next closes c b bs o in
    elim (Bool-cases d.con_open) [
      | inl more ↦
          let (j, p, eq, after) =
            read_loop-Absorbs closes bs fuel d (front ++ (b ∷ [])) tail (omega arith) more h1 h2
              (e ∙ sym (append_assoc front (b ∷ []) (bs ++ tail)))
              (omega (arith, length-append front (b ∷ [])))
              (omega (arith, length-append front (b ∷ []))) in
          let whole = split ∙ if_true _ _ more in
          (
            j,
            p,
            step ∙ eq ∙ ap (λ s. ok (record (put c s p) { current_index = j })) (sym whole),
            λ still. after (ap (λ s. s.open_now) (sym whole) ∙ still),
          )
      | inr stop ↦
          let whole = split ∙ if_false _ _ stop in
          (
            c.current_index + 1,
            advance (parser_of c) b,
            step
                ∙ read_loop_closed closes fuel d (omega arith) stop
                ∙ ap
                    (λ s. ok (record (put c s (advance (parser_of c) b)) {
                      current_index = c.current_index + 1;
                    }))
                    (sym whole),
            λ still. cc (sym still ∙ ap (λ s. s.open_now) whole ∙ stop),
          )
    ]

-- A connection whose one read is outstanding, as it is whenever no handler runs.
pub record IsReady (c : NetCon) : Type 0 where
  pub is_open : c.con_open ≡ true
  pub can_close : c.has_closed_callback ≡ true
  pub can_deliver : c.has_new_msg_callback ≡ true
  pub at_start : c.current_index ≡ 0
  pub full : length c.buff ≡ max_buffer_size
  pub reading : c.is_reading ≡ true
  pub one_read : c.pending_reads ≡ 1

-- The connection after a read of `received`.
abbrev pub read_con : NetCon → List ℕ → Calls → ℕ → Parser → NetCon
read_con c received s i p = record (put c s p) {
  buff = received ++ drop (length received) c.buff;
  current_index = i;
  msg_size = length received;
  pending_reads = if s.open_now then 1 else 0;
}

handle_read_success :
    (closes : List (ℕ × Message) → Bool) (n : ℕ) (c d : NetCon)
    → read_loop closes (suc n) (record c { msg_size = n }) ≡ ok d
    → handle_read closes success n c
      ≡ ok
          (record d { pending_reads = if d.con_open then d.pending_reads + 1 else d.pending_reads })
unfolding handle_read
handle_read_success closes n c d e = rw e (ground arith)

-- The handler of a successful read of a ready connection returns and does not throw: the messages
-- that the parser completes go to the callback in order until a handler closes the connection, and
-- one read is outstanding afterwards unless one does. In that case none is; otherwise all bytes are
-- parsed and the next buffer is taken from its start.
pub complete_read_lem :
    (closes : List (ℕ × Message) → Bool) (received : List ℕ) (c : NetCon)
    → IsReady c
    → let s = deliver closes c.id (calls_of c) (parse (parser_of c) received) in
      (i : ℕ) × (p : Parser) × (complete_read closes success received c
        ≡ ok (read_con c received s i p))
      × (s.open_now ≡ true → (i ≡ 0) × (p ≡ state_after (parser_of c) received))
unfolding complete_read
complete_read_lem closes received c v =
    let filled = record c {
      buff = received ++ drop (length received) c.buff;
      pending_reads = c.pending_reads - 1;
      msg_size = length received;
    } in
    let s = deliver closes c.id (calls_of c) (parse (parser_of c) received) in
    let reads : (if s.open_now then c.pending_reads - 1 + 1 else c.pending_reads - 1)
        ≡ (if s.open_now then 1 else 0) =
      rw v.one_read in
    let (i, p, eq, after) =
      read_loop-Absorbs closes received (suc (length received)) filled []
        (drop (length received) c.buff) (omega arith) v.is_open v.can_close v.can_deliver refl
        v.at_start (omega arith) in
    (
      i,
      p,
      handle_read_success closes (length received) _ _ eq
          ∙ ap (λ n. ok (record (read_con c received s i p) { pending_reads = n })) reads,
      after,
    )
