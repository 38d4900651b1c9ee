-- ===== src/NetCon/Racing/Reading.antt =====
-- net_con::handle_read (volt_net/src/volt/net/net_con.cpp) while other threads close the connection:
-- what the program gets of the bytes of the read, and what is left of the connection.
use volt_net.Common.{
  ℕ, suc, ◌-◌, ◌≤◌, ◌≡◌, refl, subst, ap, ◌∙◌, if◌then◌else◌, if_true, if_false, Bool-cases, inl,
  inr, true, false, length, take, take_of_le, drop, List, [], ◌++◌, arith, replicate,
}
use volt_net.Defs.{max_buffer_size}
use volt_net.NetCon.{NetCon, ok, ◌>>=◌, schedule_read_handler}
use volt_net.NetCon.Parser.{parse, state_after}
use volt_net.NetCon.Bytes.{parser_of}
use volt_net.NetCon.Reading.{IsReady}
use volt_net.NetCon.Streams.{tagged, length-refill}
use volt_net.NetCon.Closing.{loads}
use volt_net.NetCon.Closing.Turns.{total, is_called}
use volt_net.NetCon.Closing.Callers.{start-Invariant}
use volt_net.NetCon.Racing.{Racing, put_con, load_open, race_loop, race_read}
use volt_net.NetCon.Racing.Loads.{quiet, load_open_lem}
use volt_net.NetCon.Racing.Rounds.{race_loop-Reads}
use volt_net.NetCon.Racing.Loop.{HasRead, HasRead-then}

-- What a read has put into the buffer.
abbrev pub begun : NetCon → List ℕ → NetCon
begun c received = record c {
  buff = received ++ drop (length received) c.buff;
  pending_reads = c.pending_reads - 1;
}

-- The connection when the loop begins.
abbrev sized : NetCon → List ℕ → NetCon
sized c received = record (begun c received) { msg_size = length received }

-- A connection that has read all bytes and is still open is ready when the next read is begun.
IsReady-again :
    (c : NetCon) (received : List ℕ) (k : ℕ) (d : NetCon)
    → IsReady c
    → length received ≤ max_buffer_size
    → k ≡ length received
    → HasRead (sized c received) (take k received) 0 d
    → d.con_open ≡ true
    → d.has_closed_callback ≡ true
    → IsReady (schedule_read_handler d) × (parser_of d ≡ state_after (parser_of c) received)
unfolding schedule_read_handler
IsReady-again c received k d v fits all_read read open_now can_close =
    let all_taken : take k received ≡ received = take_of_le k received (omega arith) in
    let none_left : d.pending_reads ≡ c.pending_reads - 1 = ap (λ x. x.pending_reads) read in
    (
      record {
        is_open = open_now;
        can_close = can_close;
        can_deliver = ap (λ x. x.has_new_msg_callback) read ∙ v.can_deliver;
        at_start = ap (λ x. x.current_index) read;
        full =
            ap (λ x. length x.buff) read
            ∙ length-refill received c.buff max_buffer_size v.full fits;
        reading = ap (λ x. x.is_reading) read ∙ v.reading;
        one_read = omega (arith, v.one_read);
      },
      ap parser_of read ∙ ap (state_after (parser_of c)) all_taken,
    )

-- What follows the loop.
race_read_ends :
    (size : ℕ) (r t u : Racing)
    → race_loop (suc size) (put_con r (record r.now.con { msg_size = size })) ≡ ok t
    → load_open t ≡ ok u
    → race_read size r
      ≡ (if u.now.con.con_open then ok (put_con u (schedule_read_handler u.now.con)) else ok u)
unfolding race_read
race_read_ends size r t u eq eq' = rw (eq, ◌>>=◌, eq') refl

-- The handler of a successful read of a ready connection, with any number of threads that are in close_con
-- at the same time, in any interleaving with the loads of `con_open`: it returns and nothing is thrown;
-- the messages that it delivers, in order, are those that the parser completes from the first `k` bytes,
-- which are at least the bytes that are read before another thread takes a step; and the closed handler
-- is called once for each thread that has come to its call. If the connection is closed by the last
-- load, no read is outstanding; if not, all bytes are parsed and it is ready again.
pub race_read_lem :
    (c : NetCon) (n j : ℕ) (received : List ℕ) (later : List (List ℕ))
    → IsReady c
    → j ≤ length received
    → length received ≤ max_buffer_size
    → (t : Racing) × (k : ℕ) × (race_read (length received) (record {
      now = record { con = begun c received; threads = replicate n loads };
      ahead = quiet j later;
    })
        ≡ ok t)
      × (t.now.con.new_msg_calls
          ≡ c.new_msg_calls ++ tagged c.id (parse (parser_of c) (take k received)))
      × (t.now.con.closed_calls ≡ c.closed_calls ++ replicate (total is_called t.now.threads) c.id)
      × (j ≤ k)
      × (t.now.con.con_open ≡ false → t.now.con.pending_reads ≡ 0)
      × (t.now.con.con_open ≡ true
          → (k ≡ length received)
            × IsReady t.now.con
            × (parser_of t.now.con ≡ state_after (parser_of c) received))
unfolding schedule_read_handler
race_read_lem c n j received later v few fits =
    let r : Racing = record {
      now = record { con = sized c received; threads = replicate n loads };
      ahead = quiet j later;
    } in
    let start = start-Invariant (sized c received) n v.is_open v.can_close in
    let (t, k, i, eq, w, read, whole, prompt) =
      race_loop-Reads (sized c received) n _ received (suc (length received)) r []
        (drop (length received) c.buff) start (omega arith) v.can_deliver refl v.at_start
        (omega arith) in
    let (u, eq', w', same, stays) = load_open_lem (sized c received) n _ t w in
    let ends = race_read_ends (length received) _ t u eq eq' in
    let read' = HasRead-then (sized c received) t.now.con u.now.con (take k received) i read same in
    elim (Bool-cases u.now.con.con_open) [
      | inl open_now ↦
          let (all_read, back) = whole (same.1 open_now) in
          let at_start =
            subst (λ x. HasRead (sized c received) (take k received) x u.now.con) back read' in
          let (ready, parsed) =
            IsReady-again c received k u.now.con v fits all_read at_start open_now w'.can_close in
          (
            put_con u (schedule_read_handler u.now.con),
            k,
            ends ∙ if_true _ (ok u) open_now,
            ap (λ x. x.new_msg_calls) read',
            w'.made,
            prompt j later few v.is_open refl,
            λ closed. absurd (cc),
            λ still. (all_read, ready, parsed),
          )
      | inr shut_now ↦ (
        u,
        k,
        ends ∙ if_false _ (ok u) shut_now,
        ap (λ x. x.new_msg_calls) read',
        w'.made,
        prompt j later few v.is_open refl,
        λ closed. ap (λ x. x.pending_reads) read' ∙ omega (arith, v.one_read),
        λ still. cc,
      )
    ]
