-- ===== src/Serialize/Wire.antt =====
-- The bytes that each integer writing function puts into a message, before escaping.
use volt_net.Common.{ℕ, ◌≡◌, true, false, List, [], ◌∷◌, ◌++◌, reverse}
use volt_net.Defs.{Message}
use volt_net.Endian.{Host, little, memory}
use volt_net.Endian.Memory.{net_order, is_big_endian-little}
use volt_net.Serialize.{write_range, write_into_uint8, write_into_uint32, write_into_byte_array}
use volt_net.Serialize.Escaping.{
  escape, write_byte-escape, write_down-escape, write_range-net_order,
}

pub write_into_uint8-escape :
    (v : ℕ) (msg : Message) → write_into_uint8 v msg ≡ msg ++ escape (v ∷ [])
unfolding write_into_uint8
write_into_uint8-escape v msg = write_byte-escape v msg

pub write_into_uint32-escape :
    (h : Host) (v : ℕ) (msg : Message) → write_into_uint32 h v msg ≡ msg ++ escape (net_order 4 v)
unfolding write_into_uint32
write_into_uint32-escape h v msg = write_range-net_order h 4 v msg

-- Whichever machine writes an integer of `k` bytes with the order corrected and without its size, the
-- message grows by the integer's bytes in network order, in escaped form.
pub write_into_byte_array-escape :
    (h : Host) (k v : ℕ) (msg : Message)
    → write_into_byte_array h (memory h.layout k v) msg true false ≡ msg ++ escape (net_order k v)
unfolding write_into_byte_array
write_into_byte_array-escape h k v msg = write_range-net_order h k v msg

-- A little endian machine writes any bytes backwards.
pub write_into_byte_array_little :
    (h : Host) (bytes : List ℕ) (msg : Message)
    → h.layout ≡ little
    → write_into_byte_array h bytes msg true false ≡ msg ++ escape (reverse bytes)
unfolding write_into_byte_array write_range
write_into_byte_array_little h bytes msg e =
    rw (is_big_endian-little h e) (write_down-escape bytes msg)
