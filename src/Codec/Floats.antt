-- ===== src/Codec/Floats.antt =====
-- `float` in volt_net/src/volt/net/serialization/serialization_ext.cpp: write_into writes
-- sizeof(double) bytes from the float's address, and read_into reads sizeof(float).
use volt_net.Common.{
  ℕ, ◌≡◌, ap, ◌∙◌, true, List, ◌++◌, some, length, length-reverse, reverse, reverse-append,
  reverse-reverse, append_assoc,
}
use volt_net.Defs.{Message}
use volt_net.Endian.{Host, little, memory, load, store_le}
use volt_net.Endian.Memory.{net_order}
use volt_net.Serialize.{write_into_float}
use volt_net.Serialize.Escaping.{escape}
use volt_net.Serialize.Wire.{write_into_byte_array_little}
use volt_net.Deserialize.{read_into_float, read_into_int}
use volt_net.Deserialize.Bytes.{read_into_int_little}

reverse-memory :
    (h : Host) (v : ℕ) (beyond : List ℕ)
    → h.layout ≡ little
    → reverse (memory h.layout 4 v ++ beyond) ≡ reverse beyond ++ net_order 4 v
unfolding memory net_order
reverse-memory h v beyond e = rw e (reverse-append (store_le 4 v) beyond)

-- Between two little endian machines with IEC 559 floats the reader gets the four bytes that follow
-- the float in the writer's memory, and the float's own four bytes stay in the message, in front of
-- what comes next.
pub float_reads_beyond :
    (w r : Host) (v old : ℕ) (beyond : List ℕ) (msg rest : Message)
    → w.layout ≡ little
    → r.layout ≡ little
    → w.float_iec559 ≡ true
    → r.float_iec559 ≡ true
    → length beyond ≡ 4
    → (bytes : List ℕ) × (write_into_float w v beyond msg ≡ msg ++ escape bytes)
      × (read_into_float r old (bytes ++ rest) ≡ some (load little beyond, net_order 4 v ++ rest))
unfolding write_into_float read_into_float
float_reads_beyond w r v old beyond msg rest ew er iw ir len = (
  reverse beyond ++ net_order 4 v,
  simp iw (
      write_into_byte_array_little w (memory w.layout 4 v ++ beyond) msg ew
      ∙ ap (λ b. msg ++ escape b) (reverse-memory w v beyond ew)),
  simp ir (read ∙ ap (λ (n : ℕ). some (n, net_order 4 v ++ rest)) back),
)
  where
    read :
        read_into_int r 4 old ((reverse beyond ++ net_order 4 v) ++ rest)
        ≡ some (load little (reverse (reverse beyond)), net_order 4 v ++ rest)
    read = rw (append_assoc (reverse beyond) (net_order 4 v) rest) (
        read_into_int_little r 4 old (reverse beyond) (net_order 4 v ++ rest) er
          (length-reverse beyond ∙ len))

    back : load little (reverse (reverse beyond)) ≡ load little beyond
    back = ap (load little) (reverse-reverse beyond)
