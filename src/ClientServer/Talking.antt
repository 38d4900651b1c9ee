-- ===== src/ClientServer/Talking.antt =====
-- The second loop of tests/client_server/client_server.cpp.
use volt_net.Common.{
  ℕ, ◌+◌, ◌≡◌, sym, ap, ◌∙◌, map, replicate, length, length-append, length-replicate, All,
  All-replicate, All-split, map-replicate, subst, some, List, [], ◌++◌,
}
use volt_net.Defs.{Message}
use volt_net.Endian.{Host, little}
use volt_net.NetCon.{NetCon}
use volt_net.NetCon.Parser.{start, frame}
use volt_net.NetCon.Bytes.{parser_of}
use volt_net.NetCon.Streams.{tagged}
use volt_net.Network.{Network, ok, get_con_loop, process_new_msgs}
use volt_net.Network.Traffic.{Event, bytes_of, from_con}
use volt_net.Network.Delivery.Queueing.{messages}
use volt_net.Network.Calls.{call_all, sent_on, events}
use volt_net.Network.Calls.Links.{Prepared, wrote, cross_frames}
use volt_net.ClientServer.{Test, basic, written, printed, Around, sending}
use volt_net.ClientServer.Reading.{IsTest, printed-written}
use volt_net.ClientServer.Rounds.{rounds, sent_on-sending}

-- Main's second loop and what is behind it, with a little endian machine, on a network that is
-- valid, has a handler for messages and none for new connections, with reads that fit the buffer,
-- ids left and an object that fits a message: take any two ends i and j of a connection, on the
-- first of which nothing was written yet while the second is between two messages, and let the bytes
-- written at i come in order at j, but for some that are still on their way. Then no call fails, and
-- when messages are asked for once more, the handler has got at j as many messages as rounds of the
-- loop were begun, or fewer while bytes are on their way; and it prints of each the int and the char
-- that were sent, and the string that was sent behind the text of the default string.
pub self_talk :
    (h : Host) (size i j : ℕ) (t : Test) (around : ℕ → Around) (late : List Event) (net : Network)
    (a b : NetCon) (in_flight : List ℕ)
    → h.layout ≡ little
    → IsTest t
    → Prepared (sending (written h t) around late) net
    → get_con_loop i net.connections ≡ some a
    → get_con_loop j net.connections ≡ some b
    → a.writes ≡ []
    → parser_of b ≡ start
    → bytes_of j (events (sending (written h t) around late)) ++ in_flight
      ≡ wrote i (call_all (sending (written h t) around late) net)
    → (after : Network) × (done : Network) × (got : List Message) × (later : List Message)
      × (call_all (sending (written h t) around late) net ≡ ok after)
      × (process_new_msgs [] after ≡ ok done)
      × (from_con j done.read_calls ≡ from_con j (messages net) ++ tagged j got)
      × All (λ msg. printed h size msg ≡ some (t.a, t.c, basic ++ t.s)) got
      × (length got + length later ≡ rounds around 10 0)
      × (in_flight ≡ [] → later ≡ [])
self_talk h size i j t around late net a b in_flight e valid runs found there idle between carried =
    let (msg, framed, prints) = printed-written h h size t e valid in
    let n = rounds around 10 0 in
    let sends : sent_on i (sending (written h t) around late) ≡ map frame (replicate n msg) =
      sent_on-sending (written h t) around late i
      ∙ ap (replicate n) framed
      ∙ sym (map-replicate frame n msg) in
    let (sent, after, done, got, later, ran, ran', asked, from, whole, landed) =
      cross_frames i j (sending (written h t) around late) (sending (written h t) around late) net
        net a b (replicate n msg) in_flight runs runs found there idle between sends carried in
    (
      after,
      done,
      got,
      later,
      ran',
      asked,
      from,
      (All-split _ got later (subst (All _) (sym whole) (All-replicate _ n msg prints))).0,
      sym (length-append got later) ∙ ap length whole ∙ length-replicate n msg,
      landed,
    )
