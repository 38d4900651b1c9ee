-- ===== src/Overloads/Fields.antt =====
-- Types that a program adds to the overload set: a specialization that writes the members one after the
-- other and one that reads them in the same order, as those of tests/client_server/client_server.cpp and
-- of the chat do.
use volt_net.Common.{
  ℕ, refl, sym, Option, some, ◌>>=◌, List, [], ◌∷◌, ◌++◌, append_assoc, append-nil,
}
use volt_net.Defs.{Message}
use volt_net.Endian.{Host}
use volt_net.Serialize.Escaping.{escape, escape-append}
use volt_net.Codec.{Transfers, Codec}
use volt_net.Overloads.{Object, Value, write_object, read_object, fresh_object}
use volt_net.Overloads.Objects.{IsObject, Peers, object-Transfers}

-- The members of an object.
abbrev pub Struct : List Object → Type 0
Struct [] = Unit {0}
Struct (o ∷ os) = Value o × Struct os

unfoldable pub write_struct : Host → List ℕ → (os : List Object) → Struct os → Message → Message
unfolding write_object
write_struct h beyond [] v msg = msg
write_struct h beyond (o ∷ os) v msg =
    write_struct h beyond os v.1 (write_object h beyond o v.0 msg)

unfoldable pub read_struct :
    Host → ℕ → (os : List Object) → Struct os → Message → Option (Struct os × Message)
unfolding read_object
read_struct h junk [] instance_ iter = some (instance_, iter)
read_struct h junk (o ∷ os) instance_ iter = do
  (v, rest) ← read_object h junk o instance_.0 iter
  (vs, end) ← read_struct h junk os instance_.1 rest
  some ((v, vs), end)

unfoldable pub fresh_struct : (os : List Object) → Struct os
unfolding fresh_object
fresh_struct [] = tt
fresh_struct (o ∷ os) = (fresh_object o, fresh_struct os)

abbrev pub IsStruct : (os : List Object) → Struct os → Type 0
IsStruct [] v = Unit {0}
IsStruct (o ∷ os) v = IsObject o v.0 × IsStruct os v.1

module _ (w r : Host) (peers : Peers w r) (beyond : List ℕ) (junk : ℕ) where
  -- A type with any number of members, of any types that the library can write and read (integers of
  -- every width, char, bool, string, double, vectors of these, arrays, also of vectors and arrays, and
  -- pairs of one type): what a machine writes of an object whose strings and vectors are shorter than
  -- 2 ^ 32, a little endian machine reads into a new object, where both have IEC 559 doubles.
  pub struct-Transfers :
      (os : List Object) (v : Struct os)
      → IsStruct os v
      → Transfers (write_struct w beyond os v) (read_struct r junk os (fresh_struct os)) v
  unfolding write_struct read_struct fresh_struct
  struct-Transfers [] v h = ([], (λ msg. unfold escape in sym (append-nil msg)), λ rest. refl)
  struct-Transfers (o ∷ os) v h =
      let t = object-Transfers w r peers beyond junk o v.0 h.0 in
      let u = struct-Transfers os v.1 h.1 in
      (
        t.0 ++ u.0,
        (λ msg. rw (t.1 msg, u.1 (msg ++ escape t.0), append_assoc, escape-append t.0 u.0)),
        λ rest. rw (append_assoc, t.2 (u.0 ++ rest), u.2 rest),
      )

  -- So all that is shown of codecs holds of it.
  abbrev pub struct_codec : (os : List Object) → Codec (Struct os)
  struct_codec os = record {
    write = write_struct w beyond os;
    read = read_struct r junk os;
    fresh = fresh_struct os;
    IsValid = IsStruct os;
    transfers = struct-Transfers os;
  }
