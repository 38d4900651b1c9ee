-- ===== src/Messages/Sharing.antt =====
-- What is behind a message_ptr: a std::vector that a msg_writer and the writes of net_con::send_msg
-- share (volt_net/include/volt/net/messages/msg_writer.hpp, volt_net/src/volt/net/net_con.cpp).
-- boost::asio::buffer(*m) is the address of the vector's storage and its size at that time; std::vector
-- keeps its storage while the size is at most the capacity and otherwise moves to a new one, whose
-- capacity is the argument `grown`. No vector is used twice here: what the pool does is MsgPool.
pub mod Values
pub mod Outstanding
pub mod Steps
pub mod Refinement
pub mod Late
pub mod Vectors
pub mod Programs
use volt_net.Common.{
  ℕ, zero, suc, ◌+◌, ◌-◌, ◌==◌, leb, if◌then◌else◌, not, length, take, drop, get_elem?, Option,
  none, some, List, [], ◌∷◌, ◌++◌,
}
use volt_net.Defs.{Message}
use volt_net.MsgPool.{erase_idx}
use volt_net.NetCon.{NetCon, Exception, Outcome, ErrorCode, success, send_msg, handle_write}

pub record MsgVector : Type 0 where
  pub content : Message
  pub capacity : ℕ
  -- Which piece of memory is its storage.
  pub storage : ℕ

-- The vectors that there are, each at its address, and the next piece of memory.
pub record Store : Type 0 where
  pub vectors : List MsgVector
  pub next_storage : ℕ

pub data Result {ℓ} (A : Type ℓ) : Type ℓ where
  runs : A → Result A
  throws : Exception → NetCon → Result A
  undefined : Result A

infixl 5 ◌>>=◌
abbrev pub ◌>>=◌ {ℓ κ} : {A : Type ℓ} {B : Type κ} → Result A → (A → Result B) → Result B
runs a >>= f = f a
throws x c >>= f = throws x c
undefined >>= f = undefined

abbrev pub set_vector : List MsgVector → ℕ → MsgVector → List MsgVector
set_vector [] a v = []
set_vector (w ∷ ws) zero v = v ∷ ws
set_vector (w ∷ ws) (suc a) v = w ∷ set_vector ws a v

-- A writer takes an empty vector, of any capacity, from the pool.
unfoldable pub make_vector : ℕ → Store → Store
make_vector capacity store = record {
  vectors =
      store.vectors
      ++ (record { content = []; capacity = capacity; storage = store.next_storage } ∷ []);
  next_storage = store.next_storage + 1;
}

-- The vector after some calls of push_back.
unfoldable pub push_onto : (ℕ → ℕ) → List ℕ → MsgVector → Store → MsgVector
push_onto grown bytes v store =
    let longer = v.content ++ bytes in
    if leb (length longer) v.capacity
    then record v { content = longer }
    else record { content = longer; capacity = grown (length longer); storage = store.next_storage }

-- msg_writer::write_msg or end_msg: bytes are pushed onto the vector of the writer.
unfoldable pub write_onto : (ℕ → ℕ) → ℕ → List ℕ → Store → Store
unfolding push_onto
write_onto grown a bytes store = elim (get_elem? store.vectors a) [
  | none ↦ store
  | some v ↦ record {
    vectors = set_vector store.vectors a (push_onto grown bytes v store);
    next_storage = store.next_storage + 1;
  }
]

-- A write that is outstanding: the pointer that its handler keeps, the buffer, and how many bytes of
-- it have been sent.
pub record BufferWrite : Type 0 where
  pub pointer : ℕ
  pub storage : ℕ
  pub size : ℕ
  pub sent : ℕ

-- A connection, what its peer gets, and its outstanding writes.
pub record SharedSending : Type 0 where
  pub con : NetCon
  pub store : Store
  pub sent : List ℕ
  pub outstanding : List BufferWrite

-- A writer is made or writes; its message is given to send_msg; some bytes of an outstanding write
-- are sent; or it fails.
pub data SharedEvent : Type 0 where
  makes : ℕ → SharedEvent
  writes : ℕ → List ℕ → SharedEvent
  begins : ℕ → SharedEvent
  sends : ℕ → ℕ → SharedEvent
  fails : ℕ → ErrorCode → SharedEvent

unfoldable pub set_sent : List BufferWrite → ℕ → ℕ → List BufferWrite
set_sent [] i n = []
set_sent (w ∷ ws) zero n = record w { sent = n } ∷ ws
set_sent (w ∷ ws) (suc i) n = w ∷ set_sent ws i n

-- send_msg(writer->get_msg()): the buffer is the vector's storage with its present size.
unfoldable pub send_shared : ℕ → SharedSending → SharedSending
unfolding send_msg
send_shared a s = elim (get_elem? s.store.vectors a) [
  | none ↦ s
  | some v ↦ record s {
    con = send_msg v.content s.con;
    outstanding =
        s.outstanding
        ++ (record { pointer = a; storage = v.storage; size = length v.content; sent = 0 } ∷ []);
  }
]

-- The write at a place is over, and its handler is called: `msg->size()` is the size at this time.
unfoldable pub finish_shared : ErrorCode → ℕ → ℕ → MsgVector → SharedSending → Result SharedSending
unfolding handle_write erase_idx
finish_shared err i bytes_transferred v s =
    elim (handle_write err bytes_transferred v.content s.con) [
      | Outcome.ok c ↦ runs (record s { con = c; outstanding = erase_idx s.outstanding i })
      | Outcome.throws x c ↦ throws x c
      | Outcome.stuck ↦ undefined
    ]

-- Up to `n` more bytes of a write are read from the storage of its buffer, which must still be there.
unfoldable pub send_part : ℕ → ℕ → BufferWrite → MsgVector → SharedSending → Result SharedSending
unfolding finish_shared set_sent
send_part i n w v s =
    let s' = record s { sent = s.sent ++ take n (drop w.sent (take w.size v.content)) } in
    if not (v.storage == w.storage)
    then undefined
    else if leb (w.size - w.sent) n
    then finish_shared success i w.size v s'
    else runs (record s' { outstanding = set_sent s.outstanding i (w.sent + n) })

-- What is done with an outstanding write and the vector that its handler's pointer leads to.
abbrev pub on_write :
    ℕ → (BufferWrite → MsgVector → Result SharedSending) → SharedSending → Result SharedSending
on_write i action s = elim (get_elem? s.outstanding i) [
  | none ↦ runs s
  | some w ↦ elim (get_elem? s.store.vectors w.pointer) [ none ↦ undefined | some v ↦ action w v ]
]

unfoldable pub shared_step : (ℕ → ℕ) → SharedEvent → SharedSending → Result SharedSending
unfolding make_vector write_onto send_shared send_part
shared_step grown (makes capacity) s = runs (record s { store = make_vector capacity s.store })
shared_step grown (writes a bytes) s = runs (record s { store = write_onto grown a bytes s.store })
shared_step grown (begins a) s = runs (send_shared a s)
shared_step grown (sends i n) s = on_write i (λ w v. send_part i n w v s) s
shared_step grown (fails i err) s = on_write i (λ w v. finish_shared err i w.sent v s) s

unfoldable pub shared_run : (ℕ → ℕ) → List SharedEvent → SharedSending → Result SharedSending
shared_run grown [] s = runs s
shared_run grown (e ∷ es) s = shared_step grown e s >>= shared_run grown es
