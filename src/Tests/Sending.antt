-- ===== src/Tests/Sending.antt =====
-- Writes that are outstanding, streams that are damaged, and series of values.
use volt_net.Common.{ℕ, true, ◌^◌, ◌≤◌, ◌<◌, ◌≡◌, refl, arith, length, List, [], ◌∷◌, ◌++◌}
use volt_net.Defs.{Message}
use volt_net.Serialize.{end_msg}
use volt_net.Serialize.Escaping.{escape}
use volt_net.NetCon.{NetCon, ok, send_msg, receive}
use volt_net.NetCon.Parser.{start, parse, frame}
use volt_net.NetCon.Reading.{IsReady}
use volt_net.NetCon.Streams.{tagged}
use volt_net.NetCon.Lifecycle.{attached, attached-IsReady}
use volt_net.NetCon.Writing.{Sending, begins, sends, run, schedule, send_msgs, schedule_lem}
use volt_net.NetCon.Overlap.{overlap_mixes}
use volt_net.NetCon.Recovery.{receive-recovers}
use volt_net.Codec.Series.{Item}
use volt_net.Codec.Scalars.{uint16_codec}
use volt_net.Tests.Data.{pc, mainframe, keeps_open}

schedule_lem_example :
    run
      (schedule ((1 ∷ 2 ∷ 3 ∷ [], 2 ∷ 0 ∷ 5 ∷ []) ∷ (4 ∷ [], 1 ∷ []) ∷ []))
      (record { con = attached 3; sent = []; outstanding = [] })
    ≡ ok (record {
      con = send_msgs ((1 ∷ 2 ∷ 3 ∷ []) ∷ (4 ∷ []) ∷ []) (attached 3);
      sent = 1 ∷ 2 ∷ 3 ∷ 4 ∷ [];
      outstanding = [];
    })
schedule_lem_example =
    schedule_lem ((1 ∷ 2 ∷ 3 ∷ [], 2 ∷ 0 ∷ 5 ∷ []) ∷ (4 ∷ [], 1 ∷ []) ∷ []) (attached 3) []
      ((omega arith, omega arith), ((omega arith, omega arith), tt))

overlap_mixes_example :
    (after : Sending) × (run
        (begins (frame (1 ∷ 2 ∷ []))
          ∷ begins (frame (3 ∷ []))
          ∷ sends 0 1
          ∷ sends 1 (length (frame (3 ∷ [])))
          ∷ sends 0 (length (frame (2 ∷ [])))
          ∷ [])
        (record { con = attached 3; sent = []; outstanding = [] })
      ≡ ok after)
    × (after.con ≡ send_msg (frame (3 ∷ [])) (send_msg (frame (1 ∷ 2 ∷ [])) (attached 3)))
    × (parse start after.sent ≡ (1 ∷ 3 ∷ []) ∷ (2 ∷ []) ∷ [])
overlap_mixes_example =
    overlap_mixes 1 (2 ∷ []) (3 ∷ []) (attached 3) (λ e. absurd (omega (arith, e)))

-- A connection in the middle of an escape.
abbrev damaged_con : NetCon
damaged_con = record (attached 3) { recv_msg = 8 ∷ []; next_is_escape = true }

damaged_con-IsReady : IsReady damaged_con
damaged_con-IsReady =
    let v = attached-IsReady 3 in
    record {
      is_open = v.is_open;
      can_close = v.can_close;
      can_deliver = v.can_deliver;
      at_start = v.at_start;
      full = v.full;
      reading = v.reading;
      one_read = v.one_read;
    }

receive-recovers_example :
    (d : NetCon) × (damaged : List Message) × (receive keeps_open
        ((1 ∷ 2 ∷ []) ∷ (255 ∷ 0 ∷ 9 ∷ []) ∷ (255 ∷ 0 ∷ []) ∷ [])
        damaged_con
      ≡ ok d)
    × IsReady d
    × (length damaged ≤ 2)
    × (d.new_msg_calls
        ≡ damaged_con.new_msg_calls ++ tagged damaged_con.id (damaged ++ ((9 ∷ []) ∷ [])))
unfolding escape end_msg
receive-recovers_example =
    receive-recovers keeps_open ((1 ∷ 2 ∷ []) ∷ (255 ∷ 0 ∷ 9 ∷ []) ∷ (255 ∷ 0 ∷ []) ∷ []) 1 (2 ∷ [])
      ((9 ∷ []) ∷ []) damaged_con (λ calls. refl) damaged_con-IsReady (omega arith)
      (λ e. absurd (omega (arith, e))) refl

abbrev word_item : (v : ℕ) → v < 2 ^ 16 → Item
word_item v fits = record { T = ℕ; codec = uint16_codec mainframe pc refl; value = v; valid = fits }
