-- ===== src/Serialize/Escaping.antt =====
-- What the writing functions append, in one description: the bytes of the value, each 255 doubled.
use volt_net.Common.{
  ℕ, zero, suc, ◌*◌, ◌≤◌, ◌==◌, if◌then◌else◌, ◌≡◌, refl, sym, ap, ◌∙◌, true, List, [], ◌∷◌, ◌++◌,
  length, take, take_all, get_or, reverse, reverse-take, arith, append_assoc, append-nil,
  Bool-cases, inl, inr,
}
use volt_net.Defs.{Message, escape_val, msg_end_escaped, msg_origi_char}
use volt_net.Endian.{Layout, little, big, Host, store_le, memory}
use volt_net.Endian.Memory.{net_order, is_big_endian-little, is_big_endian-big}
use volt_net.Serialize.{write_byte, end_msg, write_into_uint8, write_up, write_down, write_range}

-- The bytes of a message between two connections: 255 stands for itself only when doubled.
unfoldable pub escape : List ℕ → List ℕ
escape [] = []
escape (b ∷ bs) = if b == escape_val then escape_val ∷ msg_origi_char ∷ escape bs else b ∷ escape bs

pub escape-append : (xs ys : List ℕ) → escape (xs ++ ys) ≡ escape xs ++ escape ys
unfolding escape
escape-append [] ys = refl
escape-append (x ∷ xs) ys = ground (arith, escape-append xs ys)

-- An escaped message is at most twice as long.
pub length-escape :
    (xs : List ℕ) → (length xs ≤ length (escape xs)) × (length (escape xs) ≤ 2 * length xs)
unfolding escape
length-escape [] = omega arith
length-escape (x ∷ xs) = ground (arith, length-escape xs)

pub write_byte-escape : (v : ℕ) (msg : Message) → write_byte v msg ≡ msg ++ escape (v ∷ [])
unfolding write_byte escape
write_byte-escape v msg = elim (Bool-cases (v == escape_val)) [
  | inl e ↦ rw e (append_assoc msg (v ∷ []) (msg_origi_char ∷ []) ∙ ground arith)
  | inr e ↦ rw e
]

pub end_msg-append : (msg : Message) → end_msg msg ≡ msg ++ (escape_val ∷ msg_end_escaped ∷ [])
unfolding end_msg
end_msg-append msg = append_assoc msg (escape_val ∷ []) (msg_end_escaped ∷ [])

pub write_up-escape : (vs : List ℕ) (msg : Message) → write_up vs msg ≡ msg ++ escape vs
unfolding write_up write_into_uint8
write_up-escape [] msg = unfold escape in sym (append-nil msg)
write_up-escape (v ∷ vs) msg =
    write_up-escape vs (write_byte v msg)
    ∙ rw (write_byte-escape v msg, append_assoc) (ap (◌++◌ msg) (sym (escape-append (v ∷ []) vs)))

write_down-take :
    (n : ℕ) (bytes : List ℕ) (msg : Message)
    → n ≤ length bytes
    → write_down n bytes msg ≡ msg ++ escape (reverse (take n bytes))
unfolding write_down write_into_uint8
write_down-take zero bytes msg h = unfold escape in sym (append-nil msg)
write_down-take (suc n) bytes msg h =
    write_down-take n bytes (write_byte (get_or bytes n 0) msg) (omega arith)
    ∙ rw (write_byte-escape (get_or bytes n 0) msg, append_assoc, reverse-take n bytes 0 h)
        (ap (◌++◌ msg) (sym (escape-append (get_or bytes n 0 ∷ []) (reverse (take n bytes)))))

pub write_down-escape :
    (bytes : List ℕ) (msg : Message)
    → write_down (length bytes) bytes msg ≡ msg ++ escape (reverse bytes)
write_down-escape bytes msg =
    write_down-take (length bytes) bytes msg (omega arith) ∙ rw (take_all (length bytes) bytes refl)

-- The loops that correct the byte order write an integer in network order on every machine.
pub write_range-net_order :
    (h : Host) (k n : ℕ) (msg : Message)
    → write_range h (memory h.layout k n) msg true ≡ msg ++ escape (net_order k n)
unfolding write_range
write_range-net_order h k n msg = go h.layout refl
  where
    go :
        (l : Layout)
        → h.layout ≡ l
        → write_range h (memory h.layout k n) msg true ≡ msg ++ escape (net_order k n)
    go little e =
        rw (is_big_endian-little h e, e)
          (unfold memory net_order in write_down-escape (store_le k n) msg)
    go big e =
        rw (is_big_endian-big h e, e)
          (unfold memory net_order in write_up-escape (reverse (store_le k n)) msg)
