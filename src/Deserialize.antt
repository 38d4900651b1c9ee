-- ===== src/Deserialize.antt =====
-- The `deserialize` halves of volt_net/include/volt/net/serialization/net_serialize.hpp and
-- serialization_ext.hpp, and of volt_net/src/volt/net/serialization/serialization_ext.cpp.
-- An iterator is the part of the message from it to the end. A function takes the object that it
-- reads into, and returns it as it is afterwards with the advanced iterator; `none` is an access
-- behind the end of the message, which the code does not guard against.
pub mod Bytes
use volt_net.Common.{
  ℕ, zero, suc, ◌^◌, ◌==◌, if◌then◌else◌, ◌>>=◌, get_or, Bool, true, false, not, List, [], ◌∷◌,
  ◌++◌, Option, none, some,
}
use volt_net.Common.Int.{ℤ, pos, to_word, of_word}
use volt_net.Defs.{Message}
use volt_net.Endian.{Host, memory, load, is_big_endian}

-- The `k` bytes at the iterator, and the iterator advanced by `k`.
unfoldable pub take_bytes : ℕ → Message → Option (List ℕ × Message)
take_bytes zero iter = some ([], iter)
take_bytes (suc k) [] = none
take_bytes (suc k) (b ∷ iter) = do (bytes, rest) ← take_bytes k iter; some (b ∷ bytes, rest)

-- `for (i = 0; i < size; i++) dest[i] = ptr[(size - 1) - i]`; the number is `size - i`.
unfoldable pub copy_backwards : ℕ → List ℕ → List ℕ
copy_backwards zero ptr = []
copy_backwards (suc n) ptr = get_or ptr n 0 ∷ copy_backwards n ptr

-- The bytes at `dest_ptr` afterwards, and the bytes at the pointer that is returned.
unfoldable pub net_to_host_endian : Host → List ℕ → ℕ → List ℕ → List ℕ × List ℕ
unfolding copy_backwards
net_to_host_endian h ptr size dest =
    if is_big_endian h then (dest, ptr) else (copy_backwards size ptr, ptr)

-- `malloced` are the bytes of the block that malloc returns.
unfoldable pub read_into_raw : Host → ℕ → List ℕ → List ℕ → ℕ
read_into_raw h k ptr malloced = load h.layout (net_to_host_endian h ptr k malloced).1

-- For an integer of `k` bytes, as its bit pattern.
unfoldable pub read_into_int : Host → ℕ → ℕ → Message → Option (ℕ × Message)
read_into_int h k instance_ iter = do
  (ptr, rest) ← take_bytes k iter
  some (load h.layout (net_to_host_endian h ptr k (memory h.layout k instance_)).0, rest)

-- For a signed integer with `2 * half` values in `k` bytes.
unfoldable pub read_into_signed : Host → ℕ → ℕ → ℤ → Message → Option (ℤ × Message)
read_into_signed h k half instance_ iter = do
  (w, rest) ← read_into_int h k (to_word half instance_) iter
  some (of_word half w, rest)

unfoldable pub read_into_char : Host → ℤ → Message → Option (ℤ × Message)
read_into_char h instance_ iter = read_into_signed h 1 (2 ^ 7) instance_ iter

unfoldable pub read_into_uint8 : Host → ℕ → Message → Option (ℕ × Message)
read_into_uint8 h instance_ iter = read_into_int h 1 instance_ iter

unfoldable pub read_into_int8 : Host → ℤ → Message → Option (ℤ × Message)
read_into_int8 h instance_ iter = read_into_signed h 1 (2 ^ 7) instance_ iter

unfoldable pub read_into_uint16 : Host → ℕ → Message → Option (ℕ × Message)
read_into_uint16 h instance_ iter = read_into_int h 2 instance_ iter

unfoldable pub read_into_int16 : Host → ℤ → Message → Option (ℤ × Message)
read_into_int16 h instance_ iter = read_into_signed h 2 (2 ^ 15) instance_ iter

unfoldable pub read_into_uint32 : Host → ℕ → Message → Option (ℕ × Message)
read_into_uint32 h instance_ iter = read_into_int h 4 instance_ iter

unfoldable pub read_into_int32 : Host → ℤ → Message → Option (ℤ × Message)
read_into_int32 h instance_ iter = read_into_signed h 4 (2 ^ 31) instance_ iter

unfoldable pub read_into_uint64 : Host → ℕ → Message → Option (ℕ × Message)
read_into_uint64 h instance_ iter = read_into_int h 8 instance_ iter

unfoldable pub read_into_int64 : Host → ℤ → Message → Option (ℤ × Message)
read_into_int64 h instance_ iter = read_into_signed h 8 (2 ^ 63) instance_ iter

-- `val` is the uninitialised local that the byte is read into.
unfoldable pub read_into_bool : Host → ℕ → Bool → Message → Option (Bool × Message)
read_into_bool h val instance_ iter = do
  (v, rest) ← read_into_uint8 h val iter
  some (not (v == 0), rest)

-- `for (i = 0; i < array_size; i++)`; the number is `array_size - i`, and `fresh` is `T()`.
unfoldable pub read_elements {ℓ} :
    {A : Type ℓ}
    → (A → Message → Option (A × Message))
    → A
    → ℕ
    → List A
    → Message
    → Option (List A × Message)
read_elements read fresh zero array iter = some (array, iter)
read_elements read fresh (suc n) array iter = do
  (val, rest) ← read fresh iter
  read_elements read fresh n (array ++ (val ∷ [])) rest

-- `size` is the uninitialised local `array_size`.
unfoldable pub read_into_array {ℓ} :
    {A : Type ℓ}
    → Host
    → (A → Message → Option (A × Message))
    → A
    → ℕ
    → List A
    → Message
    → Option (List A × Message)
unfolding read_elements
read_into_array h read fresh size array iter = do
  (array_size, rest) ← read_into_uint32 h size iter
  read_elements read fresh array_size array rest

unfoldable pub read_into_vector {ℓ} :
    {A : Type ℓ}
    → Host
    → (A → Message → Option (A × Message))
    → A
    → ℕ
    → List A
    → Message
    → Option (List A × Message)
read_into_vector h read fresh size instance_ iter = read_into_array h read fresh size instance_ iter

-- std::array: each element is read in place.
unfoldable pub read_into_std_array {ℓ} :
    {A : Type ℓ}
    → (A → Message → Option (A × Message))
    → List A
    → Message
    → Option (List A × Message)
read_into_std_array read [] iter = some ([], iter)
read_into_std_array read (x ∷ xs) iter = do
  (v, rest) ← read x iter
  (vs, end) ← read_into_std_array read xs rest
  some (v ∷ vs, end)

-- An object of a type that has a read_into.
pub record Slot : Type 1 where
  pub T : Type 0
  pub value : T
  pub read : T → Message → Option (T × Message)

-- `read_into(iterator, instance, Is...)`: the first object is read into; the others are parameters by
-- value, so what is read next goes into copies.
unfoldable pub read_into_series : Slot → List Slot → Message → Option ((Slot × List Slot) × Message)
read_into_series instance_ [] iter = do
  (v, rest) ← instance_.read instance_.value iter
  some ((record instance_ { value = v }, []), rest)
read_into_series instance_ (other ∷ others) iter = do
  (v, rest) ← instance_.read instance_.value iter
  (copies, end) ← read_into_series other others rest
  some ((record instance_ { value = v }, other ∷ others), end)

-- Both components are read as the first component's type, so this is the pair of one type.
unfoldable pub read_into_pair {ℓ} :
    {A : Type ℓ}
    → (A → Message → Option (A × Message))
    → A × A
    → Message
    → Option ((A × A) × Message)
read_into_pair read instance_ iter = do
  (a, rest) ← read instance_.0 iter
  (b, end) ← read instance_.1 rest
  some ((a, b), end)

-- `for (char c : char_vec) instance += c`
unfoldable pub append_chars : List ℤ → List ℤ → List ℤ
append_chars [] string = string
append_chars (c ∷ cs) string = append_chars cs (string ++ (c ∷ []))

unfoldable pub read_into_string : Host → ℕ → List ℤ → Message → Option (List ℤ × Message)
unfolding append_chars
read_into_string h size instance_ iter = do
  (char_vec, rest) ← read_into_array h (read_into_char h) (pos 0) size [] iter
  some (append_chars char_vec instance_, rest)

unfoldable pub read_into_float : Host → ℕ → Message → Option (ℕ × Message)
read_into_float h instance_ iter =
    if h.float_iec559 then read_into_int h 4 instance_ iter else some (instance_, iter)

unfoldable pub read_into_double : Host → ℕ → Message → Option (ℕ × Message)
read_into_double h instance_ iter =
    if h.double_iec559 then read_into_int h 8 instance_ iter else some (instance_, iter)

-- deserialize::read_new; `fresh` is what `new T()` holds.
unfoldable pub read_new {ℓ} :
    {A : Type ℓ} → (A → Message → Option (A × Message)) → A → Message → Option (A × Message)
read_new read fresh iter = read fresh iter

unfoldable pub read_new_array {ℓ} :
    {A : Type ℓ}
    → Host
    → (A → Message → Option (A × Message))
    → A
    → ℕ
    → Message
    → Option (List A × Message)
read_new_array h read fresh size iter = read_into_array h read fresh size [] iter
