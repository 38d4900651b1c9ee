-- ===== src/NetCon/Racing.antt =====
-- net_con::handle_read (volt_net/src/volt/net/net_con.cpp) after a read that succeeded, while other
-- threads close the connection. The loads of the atomic `con_open` are where the handler sees what
-- they do, so the steps of the other threads are taken before these loads. A handler of a message
-- that closes the connection is such a thread too: it is back before the next load.
pub mod Frame
pub mod Loop
pub mod Loads
pub mod Rounds
pub mod Reading
pub mod Alone
use volt_net.Common.{
  ℕ, zero, suc, ◌+◌, ◌==◌, leb, if◌then◌else◌, get_elem?, Bool, true, false, ◌||◌, Option, none,
  some, List, [], ◌∷◌,
}
use volt_net.NetCon.{
  NetCon, out_of_range, Outcome, ok, throws, stuck, ◌>>=◌, handle_byte, schedule_read_handler,
}
use volt_net.NetCon.Closing.{Closing, turns}

-- The connection and the closing threads; and for each load that is to come, the steps that those
-- threads take before it. They take none before the loads that no list is left for.
pub record Racing : Type 0 where
  pub now : Closing
  pub ahead : List (List ℕ)

abbrev pub put_con : Racing → NetCon → Racing
put_con r c = record r { now = record { con = c; threads = r.now.threads } }

-- The threads that close the connection make their next steps.
unfoldable pub others : Closing → List (List ℕ) → Outcome Racing
others s [] = ok (record { now = s; ahead = [] })
others s (ks ∷ rest) = turns ks s >>= (λ t. ok (record { now = t; ahead = rest }))

-- `is_open()`: what it returns is `con_open` afterwards.
unfoldable pub load_open : Racing → Outcome Racing
unfolding others
load_open r = others r.now r.ahead

-- The test of `con_open` stands last in the condition.
unfoldable pub race_next_byte : Racing → Outcome (Racing × Option ℕ)
unfolding load_open
race_next_byte r =
    let c = r.now.con in
    let reset : Racing → Outcome (Racing × Option ℕ) =
      λ t. ok (put_con t (record t.now.con { current_index = 0 }), none) in
    if (c.msg_size == 0) || leb c.msg_size c.current_index
    then reset r
    else load_open r >>= (λ t.
      if t.now.con.con_open
      then (elim (get_elem? t.now.con.buff t.now.con.current_index) [
        | none ↦ throws out_of_range t.now.con
        | some next_byte ↦ ok (
          put_con t (record t.now.con { current_index = t.now.con.current_index + 1 }),
          some next_byte,
        )
      ])
      else reset t)

-- The body of the loop; a handler that closes the connection is one of the threads.
unfoldable pub race_byte : ℕ → Racing → Outcome Racing
race_byte next_byte r = handle_byte (λ calls. false) next_byte r.now.con >>= (λ d. ok (put_con r d))

-- `while (is_open() && get_next_byte(next_byte))`
unfoldable pub race_loop : ℕ → Racing → Outcome Racing
unfolding race_next_byte race_byte
race_loop zero r = stuck
race_loop (suc fuel) r = load_open r >>= (λ t.
    let round = race_next_byte t >>= (λ p. elim p.1 [
      | none ↦ ok p.0
      | some next_byte ↦ race_byte next_byte p.0 >>= race_loop fuel
    ]) in
    if t.now.con.con_open then round else ok t)

-- handle_read without an error.
unfoldable pub race_read : ℕ → Racing → Outcome Racing
unfolding race_loop
race_read bytes_transferred r =
    race_loop (suc bytes_transferred)
      (put_con r (record r.now.con { msg_size = bytes_transferred }))
    >>= load_open
    >>= (λ t. if t.now.con.con_open then ok (put_con t (schedule_read_handler t.now.con)) else ok t)
