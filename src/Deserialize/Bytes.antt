-- ===== src/Deserialize/Bytes.antt =====
-- How an integer is read back from its bytes in network order, on each kind of machine.
use volt_net.Common.{
  ℕ, zero, suc, ◌*◌, ◌^◌, ◌≤◌, ◌<◌, ◌≡◌, refl, ap, ◌∙◌, List, [], ◌∷◌, ◌++◌, none, some, length,
  take, take_all, get_or, reverse, reverse-take, reverse-reverse, arith,
}
use volt_net.Common.Int.{ℤ, IsSigned, to_word, to_word-lt, of_word-to_word}
use volt_net.Defs.{Message}
use volt_net.Endian.{little, big, Host, store_le, load}
use volt_net.Endian.Memory.{
  net_order, length-net_order, is_big_endian-little, is_big_endian-big, load_le-store_le,
  load-memory,
}
use volt_net.Deserialize.{
  take_bytes, copy_backwards, net_to_host_endian, read_into_raw, read_into_int, read_into_signed,
}

take_bytes-append_length :
    (xs rest : List ℕ) → take_bytes (length xs) (xs ++ rest) ≡ some (xs, rest)
unfolding take_bytes
take_bytes-append_length [] rest = refl
take_bytes-append_length (x ∷ xs) rest = rw (take_bytes-append_length xs rest)

pub take_bytes-append :
    (k : ℕ) (xs rest : List ℕ) → length xs ≡ k → take_bytes k (xs ++ rest) ≡ some (xs, rest)
take_bytes-append k xs rest h = rw (← h) (take_bytes-append_length xs rest)

-- `take_bytes` fails exactly when fewer bytes are left.
pub take_bytes_short : (k : ℕ) (iter : Message) → length iter < k → take_bytes k iter ≡ none
unfolding take_bytes
take_bytes_short zero iter h = elim h [ ]
take_bytes_short (suc k) [] h = refl
take_bytes_short (suc k) (b ∷ iter) h = rw (take_bytes_short k iter (omega arith))

copy_backwards-take :
    (n : ℕ) (ptr : List ℕ) → n ≤ length ptr → copy_backwards n ptr ≡ reverse (take n ptr)
unfolding copy_backwards
copy_backwards-take zero ptr h = refl
copy_backwards-take (suc n) ptr h =
    rw (reverse-take n ptr 0 h)
      (ap (◌∷◌ (get_or ptr n 0)) (copy_backwards-take n ptr (omega arith)))

pub copy_backwards-reverse :
    (k : ℕ) (ptr : List ℕ) → length ptr ≡ k → copy_backwards k ptr ≡ reverse ptr
copy_backwards-reverse k ptr h =
    copy_backwards-take k ptr (omega arith) ∙ ap reverse (take_all k ptr h)

-- On a little endian machine the next bytes are read as an integer, the first one as the highest.
pub read_into_int_little :
    (h : Host) (k old : ℕ) (bytes rest : Message)
    → h.layout ≡ little
    → length bytes ≡ k
    → read_into_int h k old (bytes ++ rest) ≡ some (load little (reverse bytes), rest)
unfolding read_into_int net_to_host_endian
read_into_int_little h k old bytes rest e len = rw (
  take_bytes-append k bytes rest len,
  is_big_endian-little h e,
  copy_backwards-reverse k bytes len,
  e,
)

-- On a little endian machine an integer that fits is read back, whatever the object held.
pub read_into_int-net_order :
    (h : Host) (k n old : ℕ) (rest : Message)
    → h.layout ≡ little
    → n < 256 ^ k
    → read_into_int h k old (net_order k n ++ rest) ≡ some (n, rest)
read_into_int-net_order h k n old rest e fits =
    read_into_int_little h k old (net_order k n) rest e (length-net_order k n)
    ∙ ap (λ (m : ℕ). some (m, rest)) loaded
  where
    loaded : load little (reverse (net_order k n)) ≡ n
    loaded =
        unfold net_order load in rw (reverse-reverse (store_le k n)) (load_le-store_le k n fits)

pub read_into_signed-net_order :
    (h : Host) (k half : ℕ) (z old : ℤ) (rest : Message)
    → h.layout ≡ little
    → 2 * half ≤ 256 ^ k
    → IsSigned half z
    → read_into_signed h k half old (net_order k (to_word half z) ++ rest) ≡ some (z, rest)
unfolding read_into_signed
read_into_signed-net_order h k half z old rest e fits s = rw (
  read_into_int-net_order h k (to_word half z) (to_word half old) rest e
      (omega (arith, to_word-lt half z s)),
  of_word-to_word half z s,
)

-- A big endian machine that reads an integer of `k` bytes moves the iterator behind them and leaves
-- the object as it was.
pub read_into_int_big :
    (h : Host) (k old : ℕ) (bytes rest : Message)
    → h.layout ≡ big
    → old < 256 ^ k
    → length bytes ≡ k
    → read_into_int h k old (bytes ++ rest) ≡ some (old, rest)
unfolding read_into_int net_to_host_endian
read_into_int_big h k old bytes rest e fits len =
    rw (take_bytes-append k bytes rest len, is_big_endian-big h e, load-memory h.layout k old fits)

-- `read_into_raw` returns the bytes as they stand in the message, on both kinds of machine.
read_into_raw_lem :
    (h : Host) (k : ℕ) (ptr malloced : List ℕ) → read_into_raw h k ptr malloced ≡ load h.layout ptr
unfolding read_into_raw net_to_host_endian
read_into_raw_lem h k ptr malloced = ground arith
