-- ===== src/Endian/Memory.antt =====
-- Laws of the byte images of integers, and what the byte order test answers.
use volt_net.Common.{
  ℕ, zero, suc, ◌/◌, ◌^◌, ◌<◌, ◌≡◌, refl, ap, ◌∙◌, true, false, List, [], ◌∷◌, reverse,
  reverse-reverse, length, length-reverse, All, arith, All-append, reverse-cons,
}
use volt_net.Defs.{IsWord}
use volt_net.Endian.{Layout, little, big, Host, store_le, load_le, memory, load, is_big_endian}
use native.Mathlib.Nat.{pow-suc}

-- Most significant byte first, as the integers stand in a message.
unfoldable pub net_order : ℕ → ℕ → List ℕ
unfolding store_le
net_order k n = reverse (store_le k n)

pub length-store_le : (k n : ℕ) → length (store_le k n) ≡ k
unfolding store_le
length-store_le zero n = refl
length-store_le (suc k) n = ap suc (length-store_le k (n / 256))

pub length-net_order : (k n : ℕ) → length (net_order k n) ≡ k
unfolding net_order
length-net_order k n = length-reverse (store_le k n) ∙ length-store_le k n

store_le-IsWord : (k n : ℕ) → All IsWord (store_le k n)
unfolding store_le
store_le-IsWord zero n = tt
store_le-IsWord (suc k) n = (omega arith, store_le-IsWord k (n / 256))

All-reverse {ℓ} : (P : ℕ → Type ℓ) (xs : List ℕ) → All P xs → All P (reverse xs)
All-reverse P [] h = tt
All-reverse P (x ∷ xs) h =
    rw (reverse-cons x xs) (All-append P (reverse xs) (x ∷ []) (All-reverse P xs h.1) (h.0, tt))

pub net_order-IsWord : (k n : ℕ) → All IsWord (net_order k n)
unfolding net_order
net_order-IsWord k n = All-reverse IsWord (store_le k n) (store_le-IsWord k n)

-- Reading back the bytes of a number that fits.
pub load_le-store_le : (k n : ℕ) → n < 256 ^ k → load_le (store_le k n) ≡ n
unfolding store_le load_le
load_le-store_le zero n h = omega arith
load_le-store_le (suc k) n h =
    omega (arith, load_le-store_le k (n / 256) (omega (arith, pow-suc 256 k)), pow-suc 256 k)

pub load-memory : (l : Layout) (k n : ℕ) → n < 256 ^ k → load l (memory l k n) ≡ n
unfolding load memory
load-memory little k n h = load_le-store_le k n h
load-memory big k n h = rw (reverse-reverse (store_le k n)) (load_le-store_le k n h)

pub length-memory : (l : Layout) (k n : ℕ) → length (memory l k n) ≡ k
unfolding memory
length-memory little k n = length-store_le k n
length-memory big k n = length-reverse (store_le k n) ∙ length-store_le k n

pub is_big_endian-little : (h : Host) → h.layout ≡ little → is_big_endian h ≡ false
unfolding is_big_endian
is_big_endian-little h e = rw e

pub is_big_endian-big : (h : Host) → h.layout ≡ big → is_big_endian h ≡ true
unfolding is_big_endian
is_big_endian-big h e = rw e
