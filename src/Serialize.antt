-- ===== src/Serialize.antt =====
-- The `serialize` halves of volt_net/include/volt/net/serialization/net_serialize.hpp and
-- serialization_ext.hpp, and of volt_net/src/volt/net/serialization/serialization_ext.cpp.
-- `msg` is the message behind the `message_ptr &`; each function returns it as it is afterwards.
-- An object of an integer type is read as its bytes in memory, so the host is an argument.
pub mod Escaping
pub mod Wire
use volt_net.Common.{
  ℕ, zero, suc, ◌%◌, ◌^◌, ◌==◌, if◌then◌else◌, length, get_or, Bool, true, false, not, ◌||◌, List,
  [], ◌∷◌, ◌++◌,
}
use volt_net.Common.Int.{ℤ, to_word}
use volt_net.Defs.{Message, escape_val, msg_end_escaped, msg_origi_char, message_array_size_mod}
use volt_net.Endian.{Host, memory, is_big_endian}

unfoldable pub write_byte : ℕ → Message → Message
write_byte v msg =
    let pushed = msg ++ (v ∷ []) in
    if v == escape_val then pushed ++ (msg_origi_char ∷ []) else pushed

unfoldable pub end_msg : Message → Message
end_msg msg = (msg ++ (escape_val ∷ [])) ++ (msg_end_escaped ∷ [])

-- write_into<net_word>
unfoldable pub write_into_uint8 : ℕ → Message → Message
unfolding write_byte
write_into_uint8 v msg = write_byte v msg

-- `for (it = begin; it < end; it++)`
unfoldable pub write_up : List ℕ → Message → Message
write_up [] msg = msg
write_up (v ∷ vs) msg = write_up vs (write_into_uint8 v msg)

-- `for (it = end - 1; it >= begin; it--)`; the number is that of the bytes still to write.
unfoldable pub write_down : ℕ → List ℕ → Message → Message
write_down zero bytes msg = msg
write_down (suc n) bytes msg = write_down n bytes (write_into_uint8 (get_or bytes n 0) msg)

-- The two loops over the bytes of an object.
unfoldable pub write_range : Host → List ℕ → Message → Bool → Message
unfolding write_up write_down
write_range h bytes msg correct_endianness =
    if is_big_endian h || not correct_endianness
    then write_up bytes msg
    else write_down (length bytes) bytes msg

-- write_into<message_array_size>, the uint32_t that counts the elements that follow.
unfoldable pub write_into_uint32 : Host → ℕ → Message → Message
unfolding write_range
write_into_uint32 h v msg = write_range h (memory h.layout 4 v) msg true

-- The conversion (message_array_size)n.
abbrev pub array_size : ℕ → ℕ
array_size n = n % message_array_size_mod

-- `bytes` are those from `begin` to `end`.
unfoldable pub write_into_byte_array : Host → List ℕ → Message → Bool → Bool → Message
unfolding write_range write_into_uint32
write_into_byte_array h bytes msg correct_endianness write_size =
    let sized = if write_size then write_into_uint32 h (array_size (length bytes)) msg else msg in
    write_range h bytes sized correct_endianness

unfoldable pub write_into_char : Host → ℤ → Message → Message
write_into_char h v msg =
    write_into_byte_array h (memory h.layout 1 (to_word (2 ^ 7) v)) msg true false

unfoldable pub write_into_int8 : Host → ℤ → Message → Message
write_into_int8 h v msg =
    write_into_byte_array h (memory h.layout 1 (to_word (2 ^ 7) v)) msg true false

unfoldable pub write_into_uint16 : Host → ℕ → Message → Message
write_into_uint16 h v msg = write_into_byte_array h (memory h.layout 2 v) msg true false

unfoldable pub write_into_int16 : Host → ℤ → Message → Message
write_into_int16 h v msg =
    write_into_byte_array h (memory h.layout 2 (to_word (2 ^ 15) v)) msg true false

unfoldable pub write_into_int32 : Host → ℤ → Message → Message
write_into_int32 h v msg =
    write_into_byte_array h (memory h.layout 4 (to_word (2 ^ 31) v)) msg true false

unfoldable pub write_into_uint64 : Host → ℕ → Message → Message
write_into_uint64 h v msg = write_into_byte_array h (memory h.layout 8 v) msg true false

unfoldable pub write_into_int64 : Host → ℤ → Message → Message
write_into_int64 h v msg =
    write_into_byte_array h (memory h.layout 8 (to_word (2 ^ 63) v)) msg true false

unfoldable pub write_into_bool : Bool → Message → Message
write_into_bool v msg = write_into_uint8 (if v then 1 else 0) msg

-- `for (T inst : v) write_into<T>(inst, data)`
unfoldable pub write_elements {ℓ} :
    {A : Type ℓ} → (A → Message → Message) → List A → Message → Message
write_elements write [] msg = msg
write_elements write (v ∷ vs) msg = write_elements write vs (write v msg)

unfoldable pub write_into_array {ℓ} :
    {A : Type ℓ} → Host → (A → Message → Message) → List A → Message → Bool → Message
unfolding write_elements
write_into_array h write v msg write_size =
    let sized = if write_size then write_into_uint32 h (array_size (length v)) msg else msg in
    write_elements write v sized

unfoldable pub write_into_vector {ℓ} :
    {A : Type ℓ} → Host → (A → Message → Message) → List A → Message → Message
write_into_vector h write v msg = write_into_array h write v msg true

-- std::array: the elements and no size.
unfoldable pub write_into_std_array {ℓ} :
    {A : Type ℓ} → (A → Message → Message) → List A → Message → Message
unfolding write_elements
write_into_std_array write v msg = write_elements write v msg

unfoldable pub write_into_pair {ℓ κ} :
    {A : Type ℓ} {B : Type κ}
    → (A → Message → Message)
    → (B → Message → Message)
    → A × B
    → Message
    → Message
write_into_pair write_a write_b v msg = write_b v.1 (write_a v.0 msg)

-- A string is copied into a vector of char first.
unfoldable pub push_chars : List ℤ → List ℤ → List ℤ
push_chars [] char_vec = char_vec
push_chars (c ∷ cs) char_vec = push_chars cs (char_vec ++ (c ∷ []))

unfoldable pub write_into_string : Host → List ℤ → Message → Message
unfolding push_chars
write_into_string h v msg = write_into_array h (write_into_char h) (push_chars v []) msg true

-- `v` is the bit pattern of the float, and `beyond` the four bytes that follow it in memory: the
-- range that is written is sizeof(double) long.
unfoldable pub write_into_float : Host → ℕ → List ℕ → Message → Message
write_into_float h v beyond msg =
    if h.float_iec559
    then write_into_byte_array h (memory h.layout 4 v ++ beyond) msg true false
    else msg

unfoldable pub write_into_double : Host → ℕ → Message → Message
write_into_double h v msg =
    if h.double_iec559 then write_into_byte_array h (memory h.layout 8 v) msg true false else msg

-- serialize::write_new
unfoldable pub write_new {ℓ} : {A : Type ℓ} → (A → Message → Message) → A → Message
write_new write v = write v []
