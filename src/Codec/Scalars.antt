-- ===== src/Codec/Scalars.antt =====
-- Integers, booleans and doubles, read on a little endian machine: each width of
-- volt_net/src/volt/net/serialization/serialization_ext.cpp.
use volt_net.Common.{ℕ, ◌^◌, ◌<◌, ◌≡◌, subst, Bool, true, false, [], ◌∷◌, ◌++◌, some, arith}
use volt_net.Common.Int.{ℤ, IsSigned, to_word}
use volt_net.Defs.{Message}
use volt_net.Endian.{Host, little, store_le}
use volt_net.Endian.Memory.{net_order}
use volt_net.Serialize.{
  write_into_uint8, write_into_uint32, write_into_char, write_into_int8, write_into_uint16,
  write_into_int16, write_into_int32, write_into_uint64, write_into_int64, write_into_bool,
  write_into_double,
}
use volt_net.Serialize.Wire.{
  write_into_uint8-escape, write_into_uint32-escape, write_into_byte_array-escape,
}
use volt_net.Deserialize.{
  read_into_int, read_into_char, read_into_uint8, read_into_int8, read_into_uint16, read_into_int16,
  read_into_uint32, read_into_int32, read_into_uint64, read_into_int64, read_into_bool,
  read_into_double,
}
use volt_net.Deserialize.Bytes.{read_into_int-net_order, read_into_signed-net_order}
use volt_net.Codec.{Transfers, Codec}

-- One byte in network order is the byte.
net_order_byte : (v : ℕ) → v < 256 → net_order 1 v ≡ v ∷ []
unfolding net_order store_le
net_order_byte v h = ground arith

module _ (w r : Host) (e : r.layout ≡ little) where
  read_into_uint8-byte :
      (v old : ℕ) (rest : Message) → v < 2 ^ 8 → read_into_uint8 r old (v ∷ rest) ≡ some (v, rest)
  unfolding read_into_uint8
  read_into_uint8-byte v old rest h =
      subst (λ bytes. read_into_int r 1 old (bytes ++ rest) ≡ some (v, rest)) (net_order_byte v h)
        (read_into_int-net_order r 1 v old rest e h)

  pub uint8-Transfers :
      (v old : ℕ) → v < 2 ^ 8 → Transfers (write_into_uint8 v) (read_into_uint8 r old) v
  uint8-Transfers v old h =
      (v ∷ [], λ msg. write_into_uint8-escape v msg, λ rest. read_into_uint8-byte v old rest h)

  pub uint16-Transfers :
      (v old : ℕ) → v < 2 ^ 16 → Transfers (write_into_uint16 w v) (read_into_uint16 r old) v
  unfolding write_into_uint16 read_into_uint16
  uint16-Transfers v old h = (
    net_order 2 v,
    λ msg. write_into_byte_array-escape w 2 v msg,
    λ rest. read_into_int-net_order r 2 v old rest e h,
  )

  pub uint32-Transfers :
      (v old : ℕ) → v < 2 ^ 32 → Transfers (write_into_uint32 w v) (read_into_uint32 r old) v
  unfolding read_into_uint32
  uint32-Transfers v old h = (
    net_order 4 v,
    λ msg. write_into_uint32-escape w v msg,
    λ rest. read_into_int-net_order r 4 v old rest e h,
  )

  pub uint64-Transfers :
      (v old : ℕ) → v < 2 ^ 64 → Transfers (write_into_uint64 w v) (read_into_uint64 r old) v
  unfolding write_into_uint64 read_into_uint64
  uint64-Transfers v old h = (
    net_order 8 v,
    λ msg. write_into_byte_array-escape w 8 v msg,
    λ rest. read_into_int-net_order r 8 v old rest e h,
  )

  pub char-Transfers :
      (v old : ℤ) → IsSigned (2 ^ 7) v → Transfers (write_into_char w v) (read_into_char r old) v
  unfolding write_into_char read_into_char
  char-Transfers v old h = (
    net_order 1 (to_word (2 ^ 7) v),
    λ msg. write_into_byte_array-escape w 1 (to_word (2 ^ 7) v) msg,
    λ rest. read_into_signed-net_order r 1 (2 ^ 7) v old rest e (omega arith) h,
  )

  pub int8-Transfers :
      (v old : ℤ) → IsSigned (2 ^ 7) v → Transfers (write_into_int8 w v) (read_into_int8 r old) v
  unfolding write_into_int8 read_into_int8
  int8-Transfers v old h = (
    net_order 1 (to_word (2 ^ 7) v),
    λ msg. write_into_byte_array-escape w 1 (to_word (2 ^ 7) v) msg,
    λ rest. read_into_signed-net_order r 1 (2 ^ 7) v old rest e (omega arith) h,
  )

  pub int16-Transfers :
      (v old : ℤ) → IsSigned (2 ^ 15) v → Transfers (write_into_int16 w v) (read_into_int16 r old) v
  unfolding write_into_int16 read_into_int16
  int16-Transfers v old h = (
    net_order 2 (to_word (2 ^ 15) v),
    λ msg. write_into_byte_array-escape w 2 (to_word (2 ^ 15) v) msg,
    λ rest. read_into_signed-net_order r 2 (2 ^ 15) v old rest e (omega arith) h,
  )

  pub int32-Transfers :
      (v old : ℤ) → IsSigned (2 ^ 31) v → Transfers (write_into_int32 w v) (read_into_int32 r old) v
  unfolding write_into_int32 read_into_int32
  int32-Transfers v old h = (
    net_order 4 (to_word (2 ^ 31) v),
    λ msg. write_into_byte_array-escape w 4 (to_word (2 ^ 31) v) msg,
    λ rest. read_into_signed-net_order r 4 (2 ^ 31) v old rest e (omega arith) h,
  )

  pub int64-Transfers :
      (v old : ℤ) → IsSigned (2 ^ 63) v → Transfers (write_into_int64 w v) (read_into_int64 r old) v
  unfolding write_into_int64 read_into_int64
  int64-Transfers v old h = (
    net_order 8 (to_word (2 ^ 63) v),
    λ msg. write_into_byte_array-escape w 8 (to_word (2 ^ 63) v) msg,
    λ rest. read_into_signed-net_order r 8 (2 ^ 63) v old rest e (omega arith) h,
  )

  -- A boolean is read back, whatever the reader's local `val` and its object held before.
  pub bool-Transfers :
      (v : Bool) (val : ℕ) (old : Bool) → Transfers (write_into_bool v) (read_into_bool r val old) v
  unfolding write_into_bool read_into_bool
  bool-Transfers true val old = (
    1 ∷ [],
    λ msg. write_into_uint8-escape 1 msg,
    λ rest. rw (read_into_uint8-byte 1 val rest (omega arith)),
  )
  bool-Transfers false val old = (
    0 ∷ [],
    λ msg. write_into_uint8-escape 0 msg,
    λ rest. rw (read_into_uint8-byte 0 val rest (omega arith)),
  )

  -- The 64 bits of a double are read back by a little endian machine, where both machines have IEC
  -- 559 doubles.
  pub double-Transfers :
      (v old : ℕ)
      → w.double_iec559 ≡ true
      → r.double_iec559 ≡ true
      → v < 2 ^ 64
      → Transfers (write_into_double w v) (read_into_double r old) v
  unfolding write_into_double read_into_double
  double-Transfers v old iw ir h = (
    net_order 8 v,
    λ msg. simp iw (write_into_byte_array-escape w 8 v msg),
    λ rest. simp ir (read_into_int-net_order r 8 v old rest e h),
  )

  -- Each unsigned integer type: any value of the type is written by any machine so that a little
  -- endian one reads it back, whatever its object held before.
  pub unsigned-Transfers :
      (a b c d old : ℕ)
      → a < 2 ^ 8
      → b < 2 ^ 16
      → c < 2 ^ 32
      → d < 2 ^ 64
      → Transfers (write_into_uint8 a) (read_into_uint8 r old) a
        × Transfers (write_into_uint16 w b) (read_into_uint16 r old) b
        × Transfers (write_into_uint32 w c) (read_into_uint32 r old) c
        × Transfers (write_into_uint64 w d) (read_into_uint64 r old) d
  unsigned-Transfers a b c d old ha hb hc hd = (
    uint8-Transfers a old ha,
    uint16-Transfers b old hb,
    uint32-Transfers c old hc,
    uint64-Transfers d old hd,
  )

  -- Each signed integer type: any value of the type is written by any machine so that a little
  -- endian one reads it back, whatever its object held before.
  pub signed-Transfers :
      (x a b c d old : ℤ)
      → IsSigned (2 ^ 7) x
      → IsSigned (2 ^ 7) a
      → IsSigned (2 ^ 15) b
      → IsSigned (2 ^ 31) c
      → IsSigned (2 ^ 63) d
      → Transfers (write_into_char w x) (read_into_char r old) x
        × Transfers (write_into_int8 w a) (read_into_int8 r old) a
        × Transfers (write_into_int16 w b) (read_into_int16 r old) b
        × Transfers (write_into_int32 w c) (read_into_int32 r old) c
        × Transfers (write_into_int64 w d) (read_into_int64 r old) d
  signed-Transfers x a b c d old hx ha hb hc hd = (
    char-Transfers x old hx,
    int8-Transfers a old ha,
    int16-Transfers b old hb,
    int32-Transfers c old hc,
    int64-Transfers d old hd,
  )

  abbrev pub uint16_codec : Codec ℕ
  uint16_codec = record {
    write = write_into_uint16 w;
    read = read_into_uint16 r;
    fresh = 0;
    IsValid = λ v. v < 2 ^ 16;
    transfers = λ v h. uint16-Transfers v 0 h;
  }
