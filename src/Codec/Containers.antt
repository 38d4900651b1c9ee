-- ===== src/Codec/Containers.antt =====
-- Vectors, std::array, pairs and strings of volt_net/include/volt/net/serialization/
-- serialization_ext.hpp: they keep the promise of the codec if their elements do.
use volt_net.Common.{
  ℕ, ◌^◌, ◌<◌, ◌≡◌, refl, sym, ◌∙◌, true, List, [], ◌∷◌, ◌++◌, Option, some, ◌>>=◌, length,
  replicate, All, append_assoc, append-nil,
}
use volt_net.Common.Int.{ℤ, pos, IsSigned}
use volt_net.Defs.{Message}
use volt_net.Endian.{Host, little}
use volt_net.Serialize.{
  write_elements, write_into_uint32, write_into_array, write_into_vector, write_into_std_array,
  write_into_pair, push_chars, write_into_char, write_into_string,
}
use volt_net.Serialize.Escaping.{escape, escape-append}
use volt_net.Deserialize.{
  read_elements, read_into_uint32, read_into_array, read_into_vector, read_into_std_array,
  read_into_pair, append_chars, read_into_char, read_into_string,
}
use native.Mathlib.Nat.{mod-eq_of_lt}
use volt_net.Codec.{Transfers, Codec}
use volt_net.Codec.Scalars.{uint32-Transfers, char-Transfers}

-- One value after the other.
module _ {ℓ κ} {A : Type ℓ} {B : Type κ} where
  then-Transfers :
      (write_a write_b : Message → Message) (read_a : Message → Option (A × Message))
      (read_b : A → Message → Option (B × Message)) (a : A) (b : B)
      → Transfers write_a read_a a
      → Transfers write_b (read_b a) b
      → Transfers (λ msg. write_b (write_a msg)) (λ iter. read_a iter >>= λ p. read_b p.0 p.1) b
  then-Transfers write_a write_b read_a read_b a b ta tb = (
    ta.0 ++ tb.0,
    λ msg. rw (ta.1 msg, tb.1 (msg ++ escape ta.0), append_assoc, escape-append ta.0 tb.0) refl,
    λ rest. rw (append_assoc, ta.2 (tb.0 ++ rest)) (tb.2 rest),
  )

module _ {ℓ} {A : Type ℓ} (c : Codec A) where
  -- The loop over the elements, into an array that holds `array` already.
  elements-Transfers :
      (vs array : List A)
      → All c.IsValid vs
      → Transfers
          (write_elements c.write vs)
          (read_elements c.read c.fresh (length vs) array)
          (array ++ vs)
  unfolding write_elements read_elements
  elements-Transfers [] array h =
      ([], λ msg. unfold escape in sym (append-nil msg), λ rest. rw (append-nil array))
  elements-Transfers (v ∷ vs) array h = rw (← append_assoc array (v ∷ []) vs) (
      then-Transfers (c.write v) (write_elements c.write vs) (c.read c.fresh)
        (λ val rest. read_elements c.read c.fresh (length vs) (array ++ (val ∷ [])) rest) v
        ((array ++ (v ∷ [])) ++ vs) (c.transfers v h.0)
        (elements-Transfers vs (array ++ (v ∷ [])) h.1))

  module _ (w r : Host) (e : r.layout ≡ little) where
    array-Transfers :
        (vs array : List A) (size : ℕ)
        → length vs < 2 ^ 32
        → All c.IsValid vs
        → Transfers
            (λ msg. write_into_array w c.write vs msg true)
            (read_into_array r c.read c.fresh size array)
            (array ++ vs)
    unfolding write_into_array read_into_array
    array-Transfers vs array size fits h = rw (mod-eq_of_lt fits) (
        then-Transfers (write_into_uint32 w (length vs)) (write_elements c.write vs)
          (read_into_uint32 r size) (λ n rest. read_elements c.read c.fresh n array rest)
          (length vs) (array ++ vs) (uint32-Transfers w r e (length vs) size fits)
          (elements-Transfers vs array h))

    -- A vector of fewer than 2 ^ 32 elements whose type has a codec: what any machine writes, a
    -- little endian one reads behind the elements that its vector holds.
    pub vector-Transfers :
        (vs old : List A) (size : ℕ)
        → length vs < 2 ^ 32
        → All c.IsValid vs
        → Transfers
            (write_into_vector w c.write vs)
            (read_into_vector r c.read c.fresh size old)
            (old ++ vs)
    unfolding write_into_vector read_into_vector
    vector-Transfers vs old size fits h = array-Transfers vs old size fits h

  -- A std::array whose elements' type has a codec is read back by a reader that knows its length,
  -- which is not in the message.
  pub std_array-Transfers :
      (vs : List A)
      → All c.IsValid vs
      → Transfers
          (write_into_std_array c.write vs)
          (read_into_std_array c.read (replicate (length vs) c.fresh))
          vs
  unfolding write_into_std_array write_elements read_into_std_array
  std_array-Transfers [] h = ([], λ msg. unfold escape in sym (append-nil msg), λ rest. refl)
  std_array-Transfers (v ∷ vs) h =
      then-Transfers (c.write v) (write_elements c.write vs) (c.read c.fresh)
        (λ a rest. read_into_std_array c.read (replicate (length vs) c.fresh) rest >>= λ p.
          some (a ∷ p.0, p.1))
        v (v ∷ vs) (c.transfers v h.0)
        (keep v (write_elements c.write vs)
          (read_into_std_array c.read (replicate (length vs) c.fresh)) (std_array-Transfers vs h.1))
    where
      keep :
          (a : A) (write : Message → Message) (read : Message → Option (List A × Message))
          {us : List A}
          → Transfers write read us
          → Transfers write (λ iter. read iter >>= λ p. some (a ∷ p.0, p.1)) (a ∷ us)
      keep a write read t = (t.0, t.1, λ rest. rw (t.2 rest))

  -- A pair of two values of one type that has a codec is read back.
  pub pair-Transfers :
      (v : A × A)
      → c.IsValid v.0
      → c.IsValid v.1
      → Transfers (write_into_pair c.write c.write v) (read_into_pair c.read (c.fresh, c.fresh)) v
  unfolding write_into_pair read_into_pair
  pair-Transfers v h0 h1 =
      let t0 = c.transfers v.0 h0 in
      let t1 = c.transfers v.1 h1 in
      (
        t0.0 ++ t1.0,
        λ msg. rw (t0.1 msg, t1.1 (msg ++ escape t0.0), append_assoc, escape-append t0.0 t1.0),
        λ rest. rw (append_assoc, t0.2 (t1.0 ++ rest), t1.2 rest),
      )

push_chars-append : (cs char_vec : List ℤ) → push_chars cs char_vec ≡ char_vec ++ cs
unfolding push_chars
push_chars-append [] char_vec = sym (append-nil char_vec)
push_chars-append (c ∷ cs) char_vec =
    push_chars-append cs (char_vec ++ (c ∷ [])) ∙ append_assoc char_vec (c ∷ []) cs

append_chars-append : (cs string : List ℤ) → append_chars cs string ≡ string ++ cs
unfolding append_chars
append_chars-append [] string = sym (append-nil string)
append_chars-append (c ∷ cs) string =
    append_chars-append cs (string ++ (c ∷ [])) ∙ append_assoc string (c ∷ []) cs

module _ (w r : Host) (e : r.layout ≡ little) where
  abbrev pub char_codec : Codec ℤ
  char_codec = record {
    write = write_into_char w;
    read = read_into_char r;
    fresh = pos 0;
    IsValid = IsSigned (2 ^ 7);
    transfers = λ v h. char-Transfers w r e v (pos 0) h;
  }

  -- A string of fewer than 2 ^ 32 chars: what any machine writes, a little endian one reads behind
  -- the chars that its string holds.
  pub string-Transfers :
      (v old : List ℤ) (size : ℕ)
      → length v < 2 ^ 32
      → All (IsSigned (2 ^ 7)) v
      → Transfers (write_into_string w v) (read_into_string r size old) (old ++ v)
  unfolding write_into_string read_into_string
  string-Transfers v old size fits h =
      let t = array-Transfers char_codec w r e v [] size fits h in
      (
        t.0,
        λ msg. rw (push_chars-append v []) (t.1 msg),
        λ rest. rw (t.2 rest, append_chars-append v old),
      )
