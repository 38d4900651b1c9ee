-- ===== src/Network/Owners.antt =====
-- Which thread destroys a network: network::~network and the handlers that lock the weak reference to
-- the network (volt_net/src/volt/net/network.cpp, server_connect and start_listening). They run on the
-- threads of the pool, which the destructor joins.
pub mod Destruction
use volt_net.Common.{
  ℕ, ◌==◌, ◌≡◌, ◌≢◌, refl, sym, ap, subst, ◌∙◌, ◌⊎◌, inl, inr, if◌then◌else◌, if_true, if_false,
  Bool-cases, Bool, true, false, ◌||◌, not, Option, none, some, List, [], ◌∷◌, ◌++◌, All, arith,
  ==_iff,
}
use volt_net.MsgRecPool.{is_empty}

pub data Thread : Type 0 where
  main_thread : Thread
  pool_thread : ℕ → Thread

-- What the destructor ends in. A thread that joins itself gets an exception, and one that leaves a
-- destructor terminates the program.
pub data Ending : Type 0 where
  joined terminated : Ending

unfoldable pub is_thread : Thread → ℕ → Bool
is_thread main_thread t = false
is_thread (pool_thread s) t = s == t

-- `for (auto &thr : thr_pool) thr.join()`
unfoldable pub join_all : Thread → List ℕ → Ending
unfolding is_thread
join_all self [] = joined
join_all self (thr ∷ thrs) =
    let rest = join_all self thrs in if is_thread self thr then terminated else rest

-- The threads of the pool; the shared_ptr of the program, and those of handlers, by their threads; and
-- how the destructor ended, once it has run.
pub record Owners : Type 0 where
  pub thr_pool : List ℕ
  pub main_holds : Bool
  pub holders : List ℕ
  pub ended : Option Ending

-- A handler locks the weak reference; it returns; the program drops its shared_ptr.
pub data Event : Type 0 where
  locks : ℕ → Event
  releases : ℕ → Event
  drops : Event

unfoldable pub holds : ℕ → List ℕ → Bool
holds t [] = false
holds t (s ∷ ss) = (s == t) || holds t ss

unfoldable pub without : ℕ → List ℕ → List ℕ
without t [] = []
without t (s ∷ ss) = let rest = without t ss in if s == t then ss else s ∷ rest

-- The last shared_ptr is gone if there is no other.
unfoldable pub drop_last : Thread → Owners → Owners
unfolding join_all
drop_last self o =
    if o.main_holds || not (is_empty o.holders)
    then o
    else record o { ended = some (join_all self o.thr_pool) }

-- A weak reference to a network that is gone locks nothing.
unfoldable pub step : Event → Owners → Owners
unfolding holds without drop_last
step (locks t) o =
    if o.main_holds || not (is_empty o.holders) then record o { holders = t ∷ o.holders } else o
step (releases t) o =
    if holds t o.holders
    then drop_last (pool_thread t) (record o { holders = without t o.holders })
    else o
step drops o = if o.main_holds then drop_last main_thread (record o { main_holds = false }) else o

unfoldable pub run : List Event → Owners → Owners
run [] o = o
run (e ∷ es) o = run es (step e o)

abbrev pub start : List ℕ → Owners
start thr_pool = record { thr_pool = thr_pool; main_holds = true; holders = []; ended = none }

-- An event before the program drops its shared_ptr, on a thread of the pool.
abbrev pub Before : List ℕ → Event → Type 0
Before pool (locks t) = holds t pool ≡ true
Before pool (releases t) = Unit {0}
Before pool drops = ⊥

-- Any event; handlers run on the threads of the pool.
abbrev pub OnPool : List ℕ → Event → Type 0
OnPool pool (locks t) = holds t pool ≡ true
OnPool pool (releases t) = Unit {0}
OnPool pool drops = Unit {0}
