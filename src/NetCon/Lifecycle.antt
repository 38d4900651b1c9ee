-- ===== src/NetCon/Lifecycle.antt =====
-- Opening, closing and writing: the rest of net_con.cpp, on every branch.
use volt_net.Common.{
  ℕ, ◌-◌, ◌≤◌, ◌<◌, ◌≡◌, ◌≢◌, refl, sym, append-nil, Bool, true, false, List, [], ◌∷◌, ◌++◌, length,
  drop, ◌⊎◌, inl, inr, Bool-cases, length-replicate, arith, if◌then◌else◌,
}
use volt_net.Defs.{Message, max_buffer_size}
use volt_net.NetCon.{
  NetCon, bad_function_call, runtime_error, Outcome, ok, throws, ErrorCode, success, eof,
  other_error, new_connection, close_con, destroy_con, handle_read, complete_read, handle_write,
  set_closed_callback, set_new_msg_callback,
}
use volt_net.NetCon.Reading.{IsReady}

-- The two calls of network::add_connection on a new connection.
abbrev pub attached : ℕ → NetCon
attached id = set_closed_callback (set_new_msg_callback (new_connection id))

-- A new connection with both callbacks set is open, can deliver messages and be closed, and has one
-- read outstanding into a buffer of max_buffer_size that is taken from its start.
pub attached-IsReady : (id : ℕ) → IsReady (attached id)
unfolding set_closed_callback set_new_msg_callback new_connection
attached-IsReady id = record {
  is_open = refl;
  can_close = refl;
  can_deliver = refl;
  at_start = refl;
  full = length-replicate {A = ℕ} max_buffer_size 0;
  reading = refl;
  one_read = refl;
}

pub attached-id : (id : ℕ) → (attached id).id ≡ id
unfolding set_closed_callback set_new_msg_callback new_connection
attached-id id = refl

pub attached-can_close : (id : ℕ) → (attached id).has_closed_callback ≡ true
attached-can_close id = (attached-IsReady id).can_close

-- A later handler for new messages takes the place of the first and begins no second read.
set_new_msg_callback_again : (c : NetCon) → IsReady c → set_new_msg_callback c ≡ c
unfolding set_new_msg_callback
set_new_msg_callback_again c v = ground (arith, v.reading, v.can_deliver)

-- A connection whose closed callback is set: close_con leaves it closed, makes the closed callback
-- once with its id if it was open and not at all if it was not, and makes no callback for a message;
-- closing it again changes nothing.
pub close_con-close_con :
    (c : NetCon)
    → c.has_closed_callback ≡ true
    → (d : NetCon) × (close_con c ≡ ok d)
      × (d.con_open ≡ false)
      × (d.closed_calls ≡ (if c.con_open then c.closed_calls ++ (c.id ∷ []) else c.closed_calls))
      × (d.new_msg_calls ≡ c.new_msg_calls)
      × (close_con d ≡ ok d)
unfolding close_con
close_con-close_con c h = elim (Bool-cases c.con_open) [
  | inl o ↦ (
    record c { con_open = false; sock_open = false; closed_calls = c.closed_calls ++ (c.id ∷ []) },
    ground arith,
    refl,
    ground arith,
    refl,
    refl,
  )
  | inr o ↦ (c, ground arith, o, ground arith, refl, ground arith)
]

-- The connection after a read with an error.
abbrev failed_con : List ℕ → NetCon → NetCon
failed_con received c = record c {
  buff = received ++ drop (length received) c.buff;
  pending_reads = c.pending_reads - 1;
  msg_size = length received;
  con_open = false;
  sock_open = false;
  closed_calls = c.closed_calls ++ (c.id ∷ []);
}

abbrev pub ClosedBy : NetCon → Outcome NetCon → Type 0
ClosedBy c result =
    (d : NetCon) × (result ≡ ok d)
    × (d.con_open ≡ false)
    × (d.sock_open ≡ false)
    × (d.pending_reads ≡ 0)
    × (d.closed_calls ≡ c.closed_calls ++ (c.id ∷ []))
    × (d.new_msg_calls ≡ c.new_msg_calls)

ClosedBy-error :
    (received : List ℕ) (c : NetCon)
    → IsReady c
    → ClosedBy c (
        close_con (record c {
          buff = received ++ drop (length received) c.buff;
          pending_reads = c.pending_reads - 1;
          msg_size = length received;
        }))
unfolding close_con
ClosedBy-error received c v = (
  failed_con received c,
  simp (v.is_open, v.can_close),
  refl,
  refl,
  omega (arith, v.one_read),
  refl,
  refl,
)

-- A read of a ready connection that fails, at the end of the stream or otherwise, closes the
-- connection and its socket, makes the closed callback once and no callback for a message, and leaves
-- no read outstanding.
pub complete_read_error :
    (closes : List (ℕ × Message) → Bool) (err : ErrorCode) (received : List ℕ) (c : NetCon)
    → IsReady c
    → err ≢ success
    → ClosedBy c (complete_read closes err received c)
unfolding complete_read handle_read
complete_read_error closes success received c v h = absurd (h refl)
complete_read_error closes eof received c v h = ClosedBy-error received c v
complete_read_error closes other_error received c v h = ClosedBy-error received c v

-- The closed callback is set after the first read has begun: if that read fails in between, its
-- handler ends in an exception, with the connection closed and no closed callback made.
pub complete_read_early_error :
    (closes : List (ℕ × Message) → Bool) (err : ErrorCode) (received : List ℕ) (id : ℕ)
    → err ≢ success
    → (d : NetCon) × (complete_read closes err received (set_new_msg_callback (new_connection id))
        ≡ throws bad_function_call d)
      × (d.con_open ≡ false)
      × (d.closed_calls ≡ [])
unfolding complete_read handle_read close_con set_new_msg_callback new_connection
complete_read_early_error closes success received id h = absurd (h refl)
complete_read_early_error closes eof received id h = (_, refl, refl, refl)
complete_read_early_error closes other_error received id h = (_, refl, refl, refl)

-- A write whose handler reports fewer bytes than the message has ends in an exception, whatever the
-- error code; any other changes nothing.
handle_write_lem :
    (err : ErrorCode) (n : ℕ) (m : Message) (c : NetCon)
    → ((n < length m) × (handle_write err n m c ≡ throws runtime_error c))
      ⊎ ((length m ≤ n) × (handle_write err n m c ≡ ok c))
unfolding handle_write
handle_write_lem err n m c = ground arith

-- After the destructor a connection with a closed handler is closed, and the handler has been called
-- just if the connection was open.
destroy_con_lem :
    (c : NetCon)
    → c.has_closed_callback ≡ true
    → (d : NetCon) × (destroy_con c ≡ ok d)
      × (d.con_open ≡ false)
      × (d.closed_calls ≡ c.closed_calls ++ (if c.con_open then c.id ∷ [] else []))
unfolding destroy_con close_con
destroy_con_lem c handler = elim (Bool-cases c.con_open) [
  | inl open_now ↦ rw (open_now, handler) (_, refl, refl, refl)
  | inr shut_now ↦ (c, rw shut_now refl, shut_now, rw shut_now (sym (append-nil c.closed_calls)))
]
