-- ===== src/NetCon.antt =====
-- volt_net/include/volt/net/net_con.hpp and volt_net/src/volt/net/net_con.cpp: one connection.
-- The socket, the executor and the two callbacks are not this file's code: a call of theirs is
-- recorded in the last fields of the state. What the handler of a new message does to the
-- connection is the argument `closes`: from the calls made so far, the present one last, it tells
-- whether the handler closes this connection before it returns.
pub mod Parser
pub mod Bytes
pub mod Reading
pub mod Streams
pub mod Lifecycle
pub mod Writing
pub mod Overlap
pub mod Closing
pub mod Racing
pub mod Recovery
use volt_net.Common.{
  ℕ, zero, suc, ◌+◌, ◌-◌, ◌==◌, ltb, leb, if◌then◌else◌, length, get_elem?, drop, replicate, Bool,
  true, false, not, ◌&&◌, ◌||◌, Option, none, some, List, [], ◌∷◌, ◌++◌,
}
use volt_net.Defs.{Message, escape_val, msg_origi_char, msg_end_escaped, max_buffer_size}

pub record NetCon : Type 0 where
  pub con_open : Bool
  pub buff : List ℕ
  pub recv_msg : Message
  pub next_is_escape : Bool
  pub current_index : ℕ
  pub msg_size : ℕ
  pub id : ℕ
  pub is_reading : Bool
  -- Whether the two std::function members hold a function.
  pub has_closed_callback : Bool
  pub has_new_msg_callback : Bool
  -- The socket, and the asynchronous reads that wait for their handler.
  pub sock_open : Bool
  pub pending_reads : ℕ
  -- The asynchronous writes begun and the callbacks made, oldest first.
  pub writes : List Message
  pub new_msg_calls : List (ℕ × Message)
  pub closed_calls : List ℕ

pub data Exception : Type 0 where
  bad_function_call out_of_range runtime_error : Exception

-- What a call of a member function ends in. `stuck` is none of the program's: the model of a loop
-- ran out of fuel.
pub data Outcome {ℓ} (A : Type ℓ) : Type ℓ where
  ok : A → Outcome A
  throws : Exception → NetCon → Outcome A
  stuck : Outcome A

infixl 5 ◌>>=◌
abbrev pub ◌>>=◌ {ℓ κ} : {A : Type ℓ} {B : Type κ} → Outcome A → (A → Outcome B) → Outcome B
ok a >>= f = f a
throws x c >>= f = throws x c
stuck >>= f = stuck

-- What the error argument of a handler says.
pub data ErrorCode : Type 0 where
  success eof other_error : ErrorCode

-- The constructor; `recv_msg` is an empty message of the pool.
unfoldable pub new_connection : ℕ → NetCon
new_connection connection_id = record {
  con_open = true;
  buff = replicate max_buffer_size 0;
  recv_msg = [];
  next_is_escape = false;
  current_index = 0;
  msg_size = 0;
  id = connection_id;
  is_reading = false;
  has_closed_callback = false;
  has_new_msg_callback = false;
  sock_open = true;
  pending_reads = 0;
  writes = [];
  new_msg_calls = [];
  closed_calls = [];
}

-- An empty std::function throws when it is called. The cancelled read still gets its handler.
unfoldable pub close_con : NetCon → Outcome NetCon
close_con c =
    let closed = record c { con_open = false; sock_open = false } in
    if not c.con_open
    then ok c
    else if c.has_closed_callback
    then ok (record closed { closed_calls = c.closed_calls ++ (c.id ∷ []) })
    else throws bad_function_call closed

-- The destructor.
unfoldable pub destroy_con : NetCon → Outcome NetCon
unfolding close_con
destroy_con c = close_con c

-- The byte is none where the function returns false.
unfoldable pub get_next_byte : NetCon → Outcome (NetCon × Option ℕ)
get_next_byte c =
    if (c.msg_size == 0) || leb c.msg_size c.current_index || not c.con_open
    then ok (record c { current_index = 0 }, none)
    else elim (get_elem? c.buff c.current_index) [
      | none ↦ throws out_of_range c
      | some next_byte ↦ ok (record c { current_index = c.current_index + 1 }, some next_byte)
    ]

unfoldable pub schedule_read_handler : NetCon → NetCon
schedule_read_handler c = record c { pending_reads = c.pending_reads + 1 }

-- The end of a message: its callback, which may close the connection, and an empty message next.
unfoldable pub end_of_message : (List (ℕ × Message) → Bool) → NetCon → Outcome NetCon
unfolding close_con
end_of_message closes c =
    let calls = c.new_msg_calls ++ ((c.id, c.recv_msg) ∷ []) in
    let called = record c { new_msg_calls = calls } in
    let returned = if closes calls then close_con called else ok called in
    if c.has_new_msg_callback
    then returned >>= (λ d. ok (record d { recv_msg = [] }))
    else throws bad_function_call c

-- The `switch` on the byte after an escape.
unfoldable pub escape_sequence : (List (ℕ × Message) → Bool) → ℕ → NetCon → Outcome NetCon
unfolding end_of_message
escape_sequence closes next_byte c =
    if next_byte == msg_origi_char
    then ok (record c { recv_msg = c.recv_msg ++ (escape_val ∷ []) })
    else if next_byte == msg_end_escaped
    then end_of_message closes c
    else ok c

-- The body of the loop.
unfoldable pub handle_byte : (List (ℕ × Message) → Bool) → ℕ → NetCon → Outcome NetCon
unfolding escape_sequence
handle_byte closes next_byte c =
    if not (next_byte == escape_val) && not c.next_is_escape
    then ok (record c { recv_msg = c.recv_msg ++ (next_byte ∷ []) })
    else if (next_byte == escape_val) && not c.next_is_escape
    then ok (record c { next_is_escape = true })
    else if c.next_is_escape
    then escape_sequence closes next_byte c >>= (λ d. ok (record d { next_is_escape = false }))
    else ok c

-- `while (is_open() && get_next_byte(next_byte))`
unfoldable pub read_loop : (List (ℕ × Message) → Bool) → ℕ → NetCon → Outcome NetCon
read_loop closes zero c = stuck
read_loop closes (suc fuel) c =
    let round = get_next_byte c >>= (λ p. elim p.1 [
      | none ↦ ok p.0
      | some next_byte ↦ handle_byte closes next_byte p.0 >>= read_loop closes fuel
    ]) in
    if c.con_open then round else ok c

-- Each round but the last moves `current_index`, so `bytes_transferred + 1` rounds are enough.
unfoldable pub handle_read : (List (ℕ × Message) → Bool) → ErrorCode → ℕ → NetCon → Outcome NetCon
unfolding schedule_read_handler
handle_read closes err bytes_transferred c =
    let sized = record c { msg_size = bytes_transferred } in
    elim err [
      | success ↦
          read_loop closes (suc bytes_transferred) sized
          >>= (λ d. if d.con_open then ok (schedule_read_handler d) else ok d)
      | eof ↦ close_con sized
      | other_error ↦ close_con sized
    ]

unfoldable pub send_msg : Message → NetCon → NetCon
send_msg m c = record c { writes = c.writes ++ (m ∷ []) }

-- The error code is looked at and ignored.
unfoldable pub handle_write : ErrorCode → ℕ → Message → NetCon → Outcome NetCon
handle_write err bytes_transferred msg c =
    if ltb bytes_transferred (length msg) then throws runtime_error c else ok c

unfoldable pub set_closed_callback : NetCon → NetCon
set_closed_callback c = record c { has_closed_callback = true }

unfoldable pub set_new_msg_callback : NetCon → NetCon
unfolding schedule_read_handler
set_new_msg_callback c =
    let set = record c { has_new_msg_callback = true } in
    if not c.is_reading then record (schedule_read_handler set) { is_reading = true } else set

-- What the socket does when a read is done: the bytes stand at the start of the buffer, and the
-- handler that waited is called.
unfoldable pub complete_read :
    (List (ℕ × Message) → Bool) → ErrorCode → List ℕ → NetCon → Outcome NetCon
complete_read closes err received c = handle_read closes err (length received) (record c {
  buff = received ++ drop (length received) c.buff;
  pending_reads = c.pending_reads - 1;
})

-- The pieces in which a stream arrives, one read after the other.
unfoldable pub receive : (List (ℕ × Message) → Bool) → List (List ℕ) → NetCon → Outcome NetCon
receive closes [] c = ok c
receive closes (piece ∷ pieces) c = complete_read closes success piece c >>= receive closes pieces
