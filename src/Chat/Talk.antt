-- ===== src/Chat/Talk.antt =====
-- The whole chat (tests/single_server/single_server.cpp and tests/single_client/single_client.cpp): what
-- its clients write, and what they get.
use volt_net.Common.{ℕ, ◌≤◌, ◌≡◌, ap, ◌∙◌, length, map, flatten, All, Bool, false, some, List, ◌++◌}
use volt_net.Defs.{Message, max_buffer_size}
use volt_net.Endian.{Host, little}
use volt_net.Messages.Exchange.{Pairs}
use volt_net.NetCon.{NetCon, ok, receive}
use volt_net.NetCon.Parser.{start, parse, parse-frames}
use volt_net.NetCon.Bytes.{parser_of}
use volt_net.NetCon.Reading.{IsReady}
use volt_net.NetCon.Streams.{tagged, receive-frames}
use volt_net.Network.{Network, NetOutcome, get_con_loop}
use volt_net.Network.Traffic.{bytes_of, from_con}
use volt_net.Chat.Objects.{Test, written}
use volt_net.Chat.Server.{run_server}
use volt_net.Chat.Sending.{Serves, Reads}
use volt_net.Chat.Reading.{
  IsTest, written-frames, Pairs-Readable, Pairs-tagged, Pairs-unique, said, said_by, said-written,
  said_by-from_con,
}
use volt_net.Chat.Broadcast.{arrivals, broadcast}

-- The messages of a connection on which objects arrive.
heard :
    (r : Host) (m n : ℕ) (c : NetCon) (bytes : List ℕ) (xs : List (Host × Test))
    → r.layout ≡ little
    → All (λ (x : Host × Test). IsTest x.1) xs
    → parser_of c ≡ start
    → bytes ≡ flatten (map (λ (x : Host × Test). written x.0 x.1) xs)
    → Pairs (Reads r m n) (parse (parser_of c) bytes) (map (λ (x : Host × Test). x.1) xs)
heard r m n c bytes xs e valid clean carried =
    let (ms, framed, reads) =
      written-frames (λ (x : Host × Test). x.0) (λ x. x.1) r m n xs e valid in
    let parsed : parse (parser_of c) bytes ≡ ms = rw (clean, carried, framed) (parse-frames ms) in
    rw parsed reads

-- A server on a little endian machine that calls its handler as messages come in, with connections that
-- are ready and between two messages, and reads that fit the buffer, on any of its connections and in
-- any order: if what arrives on each connection are objects that were written on machines of any kind,
-- with strings of signed chars shorter than 2 ^ 32, then no step fails, and there is one chat, in which
-- each connection said what was written there, in order, and which the server gives to send_msg from
-- beginning to end on every connection.
pub talk :
    (r : Host) (m n : ℕ) (es : List (ℕ × List ℕ)) (net : Network) (wrote : ℕ → List (Host × Test))
    → r.layout ≡ little
    → Serves net
    → All (λ (e : ℕ × List ℕ). length e.1 ≤ max_buffer_size) es
    → ((id : ℕ) → All (λ (x : Host × Test). IsTest x.1) (wrote id))
    → ((id : ℕ) (c : NetCon)
        → get_con_loop id net.connections ≡ some c
        → (parser_of c ≡ start)
          × (bytes_of id (arrivals es)
              ≡ flatten (map (λ (x : Host × Test). written x.0 x.1) (wrote id))))
    → (after : Network) × (chat : List (ℕ × Test)) × (run_server r m n es net ≡ NetOutcome.ok after)
      × ((id : ℕ) (c : NetCon)
          → get_con_loop id net.connections ≡ some c
          → (d : NetCon) × (get_con_loop id after.connections ≡ some d)
            × (d.writes ≡ c.writes ++ map (λ (x : ℕ × Test). written r x.1) chat)
            × (said_by id chat ≡ map (λ (x : Host × Test). x.1) (wrote id)))
talk r m n es net wrote e v fit valid arrived_all =
    let (after, ms, ts, eq, v', calls, reads, each) = broadcast r m n es net v fit (λ id c found.
      let (clean, carried) = arrived_all id c found in
      Pairs-Readable r m n _ _ (heard r m n c _ (wrote id) e (valid id) clean carried)) in
    (
      after,
      said ms ts,
      eq,
      λ id c found.
          let (d, there, writes, own) = each id c found in
          let (clean, carried) = arrived_all id c found in
          let mine = heard r m n c _ (wrote id) e (valid id) clean carried in
          (
            d,
            there,
            writes ∙ ap (◌++◌ c.writes) (said-written r r m n ms ts reads),
            Pairs-unique r m n (from_con id ms) _ _ (said_by-from_con r m n id ms ts reads)
                (rw own (Pairs-tagged r m n id _ _ mine)),
          ),
    )

-- A client on a little endian machine that is ready and between two messages, whose handler does not
-- close the connection: if it gets the bytes of a chat that a machine of any kind wrote, with strings
-- of signed chars shorter than 2 ^ 32, cut in any way that fits the buffer, its handler is called with
-- one message for each object of the chat, in order, from which it reads the object.
pub listen :
    (k w : Host) (m n : ℕ) (closes : List (ℕ × Message) → Bool) (pieces : List (List ℕ))
    (client : NetCon) (chat : List (ℕ × Test))
    → k.layout ≡ little
    → ((calls : List (ℕ × Message)) → closes calls ≡ false)
    → All (λ (x : ℕ × Test). IsTest x.1) chat
    → IsReady client
    → parser_of client ≡ start
    → All (λ piece. length piece ≤ max_buffer_size) pieces
    → flatten pieces ≡ flatten (map (λ (x : ℕ × Test). written w x.1) chat)
    → (after : NetCon) × (ms : List Message) × (receive closes pieces client ≡ ok after)
      × (after.new_msg_calls ≡ client.new_msg_calls ++ tagged client.id ms)
      × Pairs (Reads k m n) ms (map (λ (x : ℕ × Test). x.1) chat)
listen k w m n closes pieces client chat e never valid ready clean fit carried =
    let (ms, framed, reads) = written-frames (λ (x : ℕ × Test). w) (λ x. x.1) k m n chat e valid in
    let (after, eq, still, clean', calls, open_) =
      receive-frames closes never pieces ms client ready clean fit (carried ∙ ap flatten framed) in
    (after, ms, eq, calls, reads)
