-- ===== src/NetCon/Bytes.antt =====
-- One round of the loop of net_con::handle_read, as a change of the parser and of the calls made.
use volt_net.Common.{
  ℕ, ◌+◌, ◌≤◌, ◌<◌, if◌then◌else◌, ◌≡◌, refl, Bool, true, false, List, [], ◌∷◌, ◌++◌, none, some,
  length, get_elem?, arith, Bool-cases, inl, inr,
}
use volt_net.Defs.{Message}
use volt_net.NetCon.{NetCon, ok, handle_byte, get_next_byte}
use volt_net.NetCon.Parser.{Parser, advance, completed}

-- The parts of a connection that the bytes decide.
pub record Calls : Type 0 where
  pub open_now : Bool
  pub socket : Bool
  pub made : List (ℕ × Message)
  pub closed : List ℕ

abbrev pub parser_of : NetCon → Parser
parser_of c = record { partial = c.recv_msg; escaped = c.next_is_escape }

abbrev pub calls_of : NetCon → Calls
calls_of c = record {
  open_now = c.con_open;
  socket = c.sock_open;
  made = c.new_msg_calls;
  closed = c.closed_calls;
}

abbrev pub put : NetCon → Calls → Parser → NetCon
put c s p = record c {
  con_open = s.open_now;
  sock_open = s.socket;
  new_msg_calls = s.made;
  closed_calls = s.closed;
  recv_msg = p.partial;
  next_is_escape = p.escaped;
}

-- The callbacks for some messages: in order, each once, until a handler closes the connection.
unfoldable pub deliver : (List (ℕ × Message) → Bool) → ℕ → Calls → List Message → Calls
deliver closes id s [] = s
deliver closes id s (m ∷ ms) =
    let made = s.made ++ ((id, m) ∷ []) in
    let rest = deliver closes id (record s { made = made }) ms in
    if closes made
    then record { open_now = false; socket = false; made = made; closed = s.closed ++ (id ∷ []) }
    else rest

pub deliver-append :
    (closes : List (ℕ × Message) → Bool) (id : ℕ) (s : Calls) (xs ys : List Message)
    → s.open_now ≡ true
    → deliver closes id s (xs ++ ys) ≡ (
        if (deliver closes id s xs).open_now
        then deliver closes id (deliver closes id s xs) ys
        else deliver closes id s xs)
unfolding deliver
deliver-append closes id s [] ys e = ground arith
deliver-append closes id s (x ∷ xs) ys e = elim (Bool-cases (closes (s.made ++ ((id, x) ∷ [])))) [
  | inl stop ↦ rw stop
  | inr go ↦ rw go (deliver-append closes id (record s { made = s.made ++ ((id, x) ∷ []) }) xs ys e)
]

-- With both callbacks set no byte makes the loop's body throw.
pub handle_byte_lem :
    (closes : List (ℕ × Message) → Bool) (b : ℕ) (c : NetCon)
    → c.con_open ≡ true
    → c.has_closed_callback ≡ true
    → c.has_new_msg_callback ≡ true
    → handle_byte closes b c
      ≡ ok (
          put c
            (deliver closes c.id (calls_of c) (completed (parser_of c) b))
            (advance (parser_of c) b))
unfolding handle_byte deliver completed advance
handle_byte_lem closes b c o h1 h2 = ground arith

pub get_elem?-middle : (xs ys : List ℕ) (b : ℕ) → get_elem? (xs ++ (b ∷ ys)) (length xs) ≡ some b
get_elem?-middle [] ys b = refl
get_elem?-middle (x ∷ xs) ys b = get_elem?-middle xs ys b

-- While bytes are left, the next one is found in the buffer.
pub get_next_byte_more :
    (c : NetCon) (front back : List ℕ) (b : ℕ)
    → c.con_open ≡ true
    → c.buff ≡ front ++ (b ∷ back)
    → c.current_index ≡ length front
    → c.current_index < c.msg_size
    → get_next_byte c ≡ ok (record c { current_index = c.current_index + 1 }, some b)
unfolding get_next_byte
get_next_byte_more c front back b o e i h = ground (arith, get_elem?-middle front back b)

-- When they are used up, the index goes back to the start.
pub get_next_byte_end :
    (c : NetCon)
    → c.msg_size ≤ c.current_index
    → get_next_byte c ≡ ok (record c { current_index = 0 }, none)
unfolding get_next_byte
get_next_byte_end c h = ground arith
