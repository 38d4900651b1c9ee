-- ===== src/Tests/Wire.antt =====
-- The serializer and the deserializer.
use volt_net.Common.{ℕ, ◌≡◌, refl, true, false, some, List, [], ◌∷◌, ◌++◌, arith}
use volt_net.Endian.{memory, load, is_big_endian}
use volt_net.Endian.Memory.{net_order}
use volt_net.Serialize.{
  write_into_uint8, write_into_uint16, write_into_byte_array, write_into_float,
}
use volt_net.Serialize.Escaping.{escape}
use volt_net.Serialize.Wire.{write_into_byte_array-escape}
use volt_net.Deserialize.{read_into_int, read_into_float}
use volt_net.Deserialize.Bytes.{read_into_int_big}
use volt_net.Codec.Floats.{float_reads_beyond}
use volt_net.Tests.Data.{pc, mainframe}

-- 0x01ff in network order, with its second byte doubled.
write_uint16 : write_into_uint16 pc 0x01ff [] ≡ 1 ∷ 255 ∷ 255 ∷ []
unfolding write_into_uint16 write_into_byte_array is_big_endian write_into_uint8
write_uint16 = refl

write_into_byte_array-escape_example :
    write_into_byte_array mainframe (memory mainframe.layout 2 0x01ff) (9 ∷ []) true false
    ≡ 9 ∷ escape (net_order 2 0x01ff)
write_into_byte_array-escape_example = write_into_byte_array-escape mainframe 2 0x01ff (9 ∷ [])

float_reads_beyond_example :
    (bytes : List ℕ) × (write_into_float pc 0x3f80_0000 (1 ∷ 2 ∷ 3 ∷ 4 ∷ []) [] ≡ escape bytes)
    × (read_into_float pc 0 (bytes ++ [])
        ≡ some (load pc.layout (1 ∷ 2 ∷ 3 ∷ 4 ∷ []), net_order 4 0x3f80_0000 ++ []))
float_reads_beyond_example =
    float_reads_beyond pc pc 0x3f80_0000 0 (1 ∷ 2 ∷ 3 ∷ 4 ∷ []) [] [] refl refl refl refl refl

read_into_int_big_example : read_into_int mainframe 2 7 (1 ∷ 255 ∷ 9 ∷ []) ≡ some (7, 9 ∷ [])
read_into_int_big_example =
    read_into_int_big mainframe 2 7 (1 ∷ 255 ∷ []) (9 ∷ []) refl (omega arith) refl
