-- ===== src/Overloads.antt =====
-- The overloads of serialize::write_into and deserialize::read_into that
-- volt_net/include/volt/net/serialization/serialization_ext.hpp declares, by the types that they are for.
-- write_into_array and read_into_array of net_serialize.hpp name the element type, `write_into<T>(inst,
-- data)`, and so find the specializations of the primary template only; the overload for std::array
-- finds itself and those above it. The types here are those for which all calls are resolved.
pub mod Objects
pub mod Fields
use volt_net.Common.{ℕ, Bool, false, Option, List, [], replicate}
use volt_net.Common.Int.{ℤ, pos}
use volt_net.Defs.{Message}
use volt_net.Endian.{Host}
use volt_net.Serialize.{
  write_into_char, write_into_int8, write_into_int16, write_into_int32, write_into_int64,
  write_into_uint8, write_into_uint16, write_into_uint32, write_into_uint64, write_into_bool,
  write_into_string, write_into_float, write_into_double, write_into_vector, write_into_std_array,
  write_into_pair,
}
use volt_net.Deserialize.{
  read_into_char, read_into_int8, read_into_int16, read_into_int32, read_into_int64,
  read_into_uint8, read_into_uint16, read_into_uint32, read_into_uint64, read_into_bool,
  read_into_string, read_into_float, read_into_double, read_into_vector, read_into_std_array,
  read_into_pair,
}

-- The types with a specialization.
pub data Plain : Type 0 where
  char int8 int16 int32 int64 uint8 uint16 uint32 uint64 bool string float double : Plain

-- Their objects; floats and doubles by their bits.
abbrev pub PlainValue : Plain → Type 0
PlainValue char = ℤ
PlainValue int8 = ℤ
PlainValue int16 = ℤ
PlainValue int32 = ℤ
PlainValue int64 = ℤ
PlainValue uint8 = ℕ
PlainValue uint16 = ℕ
PlainValue uint32 = ℕ
PlainValue uint64 = ℕ
PlainValue bool = Bool
PlainValue string = List ℤ
PlainValue float = ℕ
PlainValue double = ℕ

-- `beyond` is what stands in memory behind a float.
unfoldable pub write_plain : Host → List ℕ → (p : Plain) → PlainValue p → Message → Message
write_plain h beyond char v msg = write_into_char h v msg
write_plain h beyond int8 v msg = write_into_int8 h v msg
write_plain h beyond int16 v msg = write_into_int16 h v msg
write_plain h beyond int32 v msg = write_into_int32 h v msg
write_plain h beyond int64 v msg = write_into_int64 h v msg
write_plain h beyond uint8 v msg = write_into_uint8 v msg
write_plain h beyond uint16 v msg = write_into_uint16 h v msg
write_plain h beyond uint32 v msg = write_into_uint32 h v msg
write_plain h beyond uint64 v msg = write_into_uint64 h v msg
write_plain h beyond bool v msg = write_into_bool v msg
write_plain h beyond string v msg = write_into_string h v msg
write_plain h beyond float v msg = write_into_float h v beyond msg
write_plain h beyond double v msg = write_into_double h v msg

-- `junk` is what an uninitialised local holds.
unfoldable pub read_plain :
    Host → ℕ → (p : Plain) → PlainValue p → Message → Option (PlainValue p × Message)
read_plain h junk char instance_ iter = read_into_char h instance_ iter
read_plain h junk int8 instance_ iter = read_into_int8 h instance_ iter
read_plain h junk int16 instance_ iter = read_into_int16 h instance_ iter
read_plain h junk int32 instance_ iter = read_into_int32 h instance_ iter
read_plain h junk int64 instance_ iter = read_into_int64 h instance_ iter
read_plain h junk uint8 instance_ iter = read_into_uint8 h instance_ iter
read_plain h junk uint16 instance_ iter = read_into_uint16 h instance_ iter
read_plain h junk uint32 instance_ iter = read_into_uint32 h instance_ iter
read_plain h junk uint64 instance_ iter = read_into_uint64 h instance_ iter
read_plain h junk bool instance_ iter = read_into_bool h junk instance_ iter
read_plain h junk string instance_ iter = read_into_string h junk instance_ iter
read_plain h junk float instance_ iter = read_into_float h instance_ iter
read_plain h junk double instance_ iter = read_into_double h instance_ iter

-- `T()`
abbrev pub fresh_plain : (p : Plain) → PlainValue p
fresh_plain char = pos 0
fresh_plain int8 = pos 0
fresh_plain int16 = pos 0
fresh_plain int32 = pos 0
fresh_plain int64 = pos 0
fresh_plain uint8 = 0
fresh_plain uint16 = 0
fresh_plain uint32 = 0
fresh_plain uint64 = 0
fresh_plain bool = false
fresh_plain string = []
fresh_plain float = 0
fresh_plain double = 0

-- What a std::array can hold: std::vector, and std::array with its length.
pub data Element : Type 0 where
  plain : Plain → Element
  vector : Plain → Element
  array : ℕ → Element → Element

abbrev pub ElementValue : Element → Type 0
ElementValue (plain p) = PlainValue p
ElementValue (vector p) = List (PlainValue p)
ElementValue (array n e) = List (ElementValue e)

unfoldable pub write_element : Host → List ℕ → (e : Element) → ElementValue e → Message → Message
unfolding write_plain
write_element h beyond (plain p) v msg = write_plain h beyond p v msg
write_element h beyond (vector p) v msg = write_into_vector h (write_plain h beyond p) v msg
write_element h beyond (array n e) v msg = write_into_std_array (write_element h beyond e) v msg

unfoldable pub read_element :
    Host → ℕ → (e : Element) → ElementValue e → Message → Option (ElementValue e × Message)
unfolding read_plain
read_element h junk (plain p) instance_ iter = read_plain h junk p instance_ iter
read_element h junk (vector p) instance_ iter =
    read_into_vector h (read_plain h junk p) (fresh_plain p) junk instance_ iter
read_element h junk (array n e) instance_ iter =
    read_into_std_array (read_element h junk e) instance_ iter

unfoldable pub fresh_element : (e : Element) → ElementValue e
fresh_element (plain p) = fresh_plain p
fresh_element (vector p) = []
fresh_element (array n e) = replicate n (fresh_element e)

-- A std::pair's components are both read as the first one's type, by its specialization.
pub data Object : Type 0 where
  element : Element → Object
  pair : Plain → Object

abbrev pub Value : Object → Type 0
Value (element e) = ElementValue e
Value (pair p) = PlainValue p × PlainValue p

unfoldable pub write_object : Host → List ℕ → (o : Object) → Value o → Message → Message
unfolding write_plain write_element
write_object h beyond (element e) v msg = write_element h beyond e v msg
write_object h beyond (pair p) v msg =
    write_into_pair (write_plain h beyond p) (write_plain h beyond p) v msg

unfoldable pub read_object :
    Host → ℕ → (o : Object) → Value o → Message → Option (Value o × Message)
unfolding read_plain read_element
read_object h junk (element e) instance_ iter = read_element h junk e instance_ iter
read_object h junk (pair p) instance_ iter = read_into_pair (read_plain h junk p) instance_ iter

unfoldable pub fresh_object : (o : Object) → Value o
unfolding fresh_element
fresh_object (element e) = fresh_element e
fresh_object (pair p) = (fresh_plain p, fresh_plain p)
