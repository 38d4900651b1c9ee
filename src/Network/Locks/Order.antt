-- ===== src/Network/Locks/Order.antt =====
-- Threads that take the mutexes of a network (volt_net/src/volt/net/network.cpp) in one order, and what
-- holds between their operations.
use volt_net.Common.{
  ℕ, zero, suc, ◌+◌, ◌≤◌, ◌≡◌, refl, ap, if◌then◌else◌, true, false, get_elem?, length, All, some,
  List, [], ◌∷◌, arith,
}
use mathlib.Core.Option.{some-injective}
use volt_net.Network.Locks.{
  Mutex, connections_mut, rec_mut, pool_mut, Act, acquire, release, Thread, same_mutex, holds,
  held_by, held_elsewhere, set_thread,
}

-- A mutex is only taken while a thread has none but `connections_mut`; each is released in its turn, and all
-- are at the end.
abbrev pub Ordered : List Mutex → List Act → Type 0
Ordered held [] = held ≡ []
Ordered held (acquire m ∷ acts) = All (λ x. x ≡ connections_mut) held × Ordered (m ∷ held) acts
Ordered [] (release m ∷ acts) = Unit → ⊥
Ordered (h ∷ hs) (release m ∷ acts) = (h ≡ m) × Ordered hs acts

abbrev pub has : Mutex → Thread → ℕ
has m t = if holds m t.held then 1 else 0

-- How many threads have a mutex.
abbrev pub count : Mutex → List Thread → ℕ
count m [] = 0
count m (t ∷ ts) = has m t + count m ts

-- The operations that are left.
abbrev pub total : List Thread → ℕ
total [] = 0
total (t ∷ ts) = length t.rest + total ts

pub record IsGood (ts : List Thread) : Type 0 where
  pub ordered : All (λ t. Ordered t.held t.rest) ts
  pub exclusive : (m : Mutex) → count m ts ≤ 1

pub same_mutex-≡ : (m x : Mutex) → same_mutex m x ≡ true → m ≡ x
same_mutex-≡ connections_mut connections_mut h = refl
same_mutex-≡ rec_mut rec_mut h = refl
same_mutex-≡ pool_mut pool_mut h = refl
same_mutex-≡ connections_mut rec_mut h = cc
same_mutex-≡ connections_mut pool_mut h = cc
same_mutex-≡ rec_mut connections_mut h = cc
same_mutex-≡ rec_mut pool_mut h = cc
same_mutex-≡ pool_mut connections_mut h = cc
same_mutex-≡ pool_mut rec_mut h = cc

pub same_mutex_refl : (m : Mutex) → same_mutex m m ≡ true
same_mutex_refl connections_mut = refl
same_mutex_refl rec_mut = refl
same_mutex_refl pool_mut = refl

count-held_by : (m : Mutex) (ts : List Thread) → held_by m ts ≡ false → count m ts ≡ 0
count-held_by m [] h = refl
count-held_by m (t ∷ ts) h = ground (arith, count-held_by m ts)

held_by-count : (m : Mutex) (ts : List Thread) → count m ts ≡ 0 → held_by m ts ≡ false
held_by-count m [] h = refl
held_by-count m (t ∷ ts) h = ground (arith, held_by-count m ts)

-- Whoever has a mutex has it alone.
pub count-elsewhere :
    (m : Mutex) (k : ℕ) (ts : List Thread) (t : Thread)
    → get_elem? ts k ≡ some t
    → held_elsewhere m k ts ≡ false
    → count m ts ≡ has m t
count-elsewhere m k [] t e h = cc
count-elsewhere m zero (x ∷ ts) t e h =
    let same : has m x ≡ has m t = ap (has m) (some-injective x t e) in
    omega (arith, count-held_by m ts h)
count-elsewhere m (suc k) (x ∷ ts) t e h = ground (arith, count-elsewhere m k ts t e)

pub has-count :
    (m : Mutex) (k : ℕ) (ts : List Thread) (t : Thread)
    → get_elem? ts k ≡ some t
    → has m t ≤ count m ts
has-count m k [] t e = cc
has-count m zero (x ∷ ts) t e =
    let same : has m x ≡ has m t = ap (has m) (some-injective x t e) in omega arith
has-count m (suc k) (x ∷ ts) t e = omega (arith, has-count m k ts t e)

pub elsewhere-count :
    (m : Mutex) (k : ℕ) (ts : List Thread) (t : Thread)
    → get_elem? ts k ≡ some t
    → count m ts ≤ has m t
    → held_elsewhere m k ts ≡ false
elsewhere-count m k [] t e h = cc
elsewhere-count m zero (x ∷ ts) t e h =
    let same : has m x ≡ has m t = ap (has m) (some-injective x t e) in
    held_by-count m ts (omega arith)
elsewhere-count m (suc k) (x ∷ ts) t e h =
    ground (arith, has-count m k ts t e, elsewhere-count m k ts t e)

pub count-set_thread :
    (m : Mutex) (k : ℕ) (ts : List Thread) (t t' : Thread)
    → get_elem? ts k ≡ some t
    → count m (set_thread ts k t') + has m t ≡ count m ts + has m t'
count-set_thread m k [] t t' e = cc
count-set_thread m zero (x ∷ ts) t t' e =
    let same : has m x ≡ has m t = ap (has m) (some-injective x t e) in omega arith
count-set_thread m (suc k) (x ∷ ts) t t' e = omega (arith, count-set_thread m k ts t t' e)

pub total-set_thread :
    (k : ℕ) (ts : List Thread) (t t' : Thread)
    → get_elem? ts k ≡ some t
    → total (set_thread ts k t') + length t.rest ≡ total ts + length t'.rest
total-set_thread k [] t t' e = cc
total-set_thread zero (x ∷ ts) t t' e =
    let same : length x.rest ≡ length t.rest = ap (λ y. length y.rest) (some-injective x t e) in
    omega arith
total-set_thread (suc k) (x ∷ ts) t t' e = omega (arith, total-set_thread k ts t t' e)

pub All-set_thread :
    (P : Thread → Type 0) (k : ℕ) (ts : List Thread) (t' : Thread)
    → P t'
    → All P ts
    → All P (set_thread ts k t')
All-set_thread P k [] t' h all = tt
All-set_thread P zero (x ∷ ts) t' h all = (h, all.1)
All-set_thread P (suc k) (x ∷ ts) t' h all = (all.0, All-set_thread P k ts t' h all.1)
