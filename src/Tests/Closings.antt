-- ===== src/Tests/Closings.antt =====
-- Threads that close one connection, and one that reads from it.
use volt_net.Common.{
  ℕ, ◌+◌, ◌≤◌, ◌<◌, true, length, take, arith, ◌≡◌, refl, false, replicate, List, [], ◌∷◌, ◌++◌,
  All,
}
use volt_net.NetCon.{ok, set_closed_callback, set_new_msg_callback, new_connection}
use volt_net.NetCon.Lifecycle.{attached, attached-IsReady}
use volt_net.NetCon.Closing.{loads, Closing, turns}
use volt_net.NetCon.Closing.Turns.{total, is_called, is_out}
use volt_net.NetCon.Parser.{parse, state_after}
use volt_net.NetCon.Bytes.{parser_of}
use volt_net.NetCon.Reading.{IsReady}
use volt_net.NetCon.Streams.{tagged}
use volt_net.NetCon.Racing.{Racing, race_read}
use volt_net.NetCon.Racing.Loads.{quiet}
use volt_net.NetCon.Racing.Reading.{begun, race_read_lem}
use volt_net.NetCon.Closing.Callers.{Returned, closers_lem, close_race}

-- What the three threads do before the connection is closed, and after it.
abbrev early : List ℕ
early = 0 ∷ 2 ∷ 0 ∷ []

abbrev late : List ℕ
late = 1 ∷ 2 ∷ 0 ∷ 2 ∷ 0 ∷ 2 ∷ 2 ∷ 0 ∷ []

closers_lem_example :
    (mid after : Closing) × (turns early (record { con = attached 4; threads = replicate 3 loads })
      ≡ ok mid)
    × (turns late mid ≡ ok after)
    × (after.con.closed_calls
        ≡ (attached 4).closed_calls ++ replicate (total is_called after.threads) (attached 4).id)
    × (0 < 3
        → All Returned after.threads
        → (after.con.con_open ≡ false) × (0 < total is_called after.threads))
    × (mid.con.con_open ≡ false
        → All Returned after.threads
        → total is_called after.threads + total is_out mid.threads ≡ 3)
unfolding set_closed_callback set_new_msg_callback new_connection
closers_lem_example = closers_lem (attached 4) 3 early late refl refl

close_race_example :
    (after : Closing) × (turns
        (0 ∷ 1 ∷ 0 ∷ 0 ∷ 0 ∷ 0 ∷ 1 ∷ 1 ∷ 1 ∷ 1 ∷ [])
        (record { con = attached 4; threads = loads ∷ loads ∷ [] })
      ≡ ok after)
    × (All Returned after.threads
        → after.con.closed_calls
          ≡ (attached 4).closed_calls ++ ((attached 4).id ∷ (attached 4).id ∷ []))
unfolding set_closed_callback set_new_msg_callback new_connection
close_race_example = close_race (attached 4) (0 ∷ 0 ∷ 0 ∷ 0 ∷ 1 ∷ 1 ∷ 1 ∷ 1 ∷ []) refl refl

-- Two messages, and two threads: neither takes a step while the first three bytes are read.
abbrev two_messages : List ℕ
two_messages = 5 ∷ 255 ∷ 0 ∷ 6 ∷ 255 ∷ 0 ∷ []

abbrev later : List (List ℕ)
later = (0 ∷ []) ∷ [] ∷ (0 ∷ 1 ∷ []) ∷ []

race_read_lem_example :
    (t : Racing) × (k : ℕ) × (race_read (length two_messages) (record {
      now = record { con = begun (attached 4) two_messages; threads = replicate 2 loads };
      ahead = quiet 3 later;
    })
      ≡ ok t)
    × (t.now.con.new_msg_calls
        ≡ (attached 4).new_msg_calls
          ++ tagged (attached 4).id (parse (parser_of (attached 4)) (take k two_messages)))
    × (t.now.con.closed_calls
        ≡ (attached 4).closed_calls ++ replicate (total is_called t.now.threads) (attached 4).id)
    × (3 ≤ k)
    × (t.now.con.con_open ≡ false → t.now.con.pending_reads ≡ 0)
    × (t.now.con.con_open ≡ true
        → (k ≡ length two_messages)
          × IsReady t.now.con
          × (parser_of t.now.con ≡ state_after (parser_of (attached 4)) two_messages))
race_read_lem_example =
    race_read_lem (attached 4) 2 3 two_messages later (attached-IsReady 4) (omega arith)
      (omega arith)
