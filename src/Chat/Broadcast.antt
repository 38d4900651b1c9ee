-- ===== src/Chat/Broadcast.antt =====
-- A chat server that runs (tests/single_server/single_server.cpp on volt_net/src/volt/net/network.cpp
-- and net_con.cpp): the chat that its clients see.
use volt_net.Common.{
  ℕ, ◌≤◌, ◌≡◌, refl, sym, ap, subst, ◌∙◌, length, map, All, All-split, Option, none, some, List, [],
  ◌∷◌, ◌++◌, append_assoc, append-nil, arith,
}
use mathlib.Core.List.{map-append}
use mathlib.Core.Option.{some-injective}
use volt_net.Defs.{Message, max_buffer_size}
use volt_net.Endian.{Host}
use volt_net.NetCon.{NetCon}
use volt_net.NetCon.Parser.{Parser, parse, state_after, parse-append}
use volt_net.NetCon.Bytes.{parser_of}
use volt_net.NetCon.Streams.{tagged}
use volt_net.Messages.Exchange.{Pairs}
use volt_net.Network.{Network, ok, get_con_loop}
use volt_net.Network.Traffic.{Event, arrived, bytes_in, bytes_of, from_con}
use volt_net.Network.Delivery.Moves.{from_con-append}
use volt_net.Chat.Objects.{Test, written}
use volt_net.Chat.Server.{arrive, run_server}
use volt_net.Chat.Sending.{Serves, Reads}
use volt_net.Chat.Relaying.{Readable, Relayed, absent-Relayed, arrive-Relayed}

abbrev pub arrivals : List (ℕ × List ℕ) → List Event
arrivals [] = []
arrivals ((id, received) ∷ rest) = arrived id received ∷ arrivals rest

Pairs-append {ℓ κ μ} :
    {A : Type ℓ} {B : Type κ} (P : A → B → Type μ) (xs xs' : List A) (ys ys' : List B)
    → Pairs P xs ys
    → Pairs P xs' ys'
    → Pairs P (xs ++ xs') (ys ++ ys')
Pairs-append P [] xs' [] ys' h h' = h'
Pairs-append P [] xs' (y ∷ ys) ys' h h' = absurd (h tt)
Pairs-append P (x ∷ xs) xs' [] ys' h h' = absurd (h tt)
Pairs-append P (x ∷ xs) xs' (y ∷ ys) ys' h h' = (h.0, Pairs-append P xs xs' ys ys' h.1 h')

-- Whether or not there is a connection with the id.
relay :
    (h : Host) (m n i : ℕ) (received : List ℕ) (net : Network)
    → Serves net
    → length received ≤ max_buffer_size
    → ((c : NetCon)
        → get_con_loop i net.connections ≡ some c
        → All (Readable h m n) (parse (parser_of c) received))
    → (after : Network) × (ms : List (ℕ × Message)) × (ts : List Test) × (arrive h m n i received
          net
        ≡ ok after)
      × Pairs (λ msg t. Reads h m n msg.1 t) ms ts
      × Relayed h net (arrived i received) ms ts after
relay h m n i received net v fits readable = go (get_con_loop i net.connections) refl
  where
    go :
        (found : Option NetCon)
        → get_con_loop i net.connections ≡ found
        → (after : Network) × (ms : List (ℕ × Message)) × (ts : List Test) × (arrive h m n i
              received net
            ≡ ok after)
          × Pairs (λ msg t. Reads h m n msg.1 t) ms ts
          × Relayed h net (arrived i received) ms ts after
    go none at = let (eq, r) = absent-Relayed h m n i received net v at in (net, [], [], eq, tt, r)
    go (some con) at = arrive-Relayed h m n i received net con v fits at (readable con at)

Readable-split :
    (h : Host) (m n id : ℕ) (e : Event) (es : List Event) (p : Parser)
    → All (Readable h m n) (parse p (bytes_of id (e ∷ es)))
    → All (Readable h m n) (parse p (bytes_in id e))
      × All (Readable h m n) (parse (state_after p (bytes_in id e)) (bytes_of id es))
unfolding bytes_of
Readable-split h m n id e es p all =
    All-split (Readable h m n) (parse p (bytes_in id e)) _
      (subst (All (Readable h m n)) (parse-append p (bytes_in id e) (bytes_of id es)) all)

own_bytes : (id : ℕ) (received : List ℕ) → bytes_in id (arrived id received) ≡ received
unfolding bytes_in
own_bytes id received = ground arith

-- The messages that are still to come on a connection can be read, if all were to begin with.
still-Readable :
    (h : Host) (m n : ℕ) (e : Event) (es : List Event) (net mid : Network) (ms : List (ℕ × Message))
    (ts : List Test)
    → Relayed h net e ms ts mid
    → ((id : ℕ) (c : NetCon)
        → get_con_loop id net.connections ≡ some c
        → All (Readable h m n) (parse (parser_of c) (bytes_of id (e ∷ es))))
    → (id : ℕ) (d : NetCon) → get_con_loop id mid.connections ≡ some d
    → All (Readable h m n) (parse (parser_of d) (bytes_of id es))
still-Readable h m n e es net mid ms ts r readable id d there =
    go (get_con_loop id net.connections) refl
  where
    go :
        (found : Option NetCon)
        → get_con_loop id net.connections ≡ found
        → All (Readable h m n) (parse (parser_of d) (bytes_of id es))
    go none missing = cc (r.none_new id missing)
    go (some c) found =
        let (d', there', parser, writes, own) = r.each id c found in
        let same : parser_of d ≡ state_after (parser_of c) (bytes_in id e) =
          ap parser_of (some-injective d d' (sym there ∙ there')) ∙ parser in
        subst (λ p. All (Readable h m n) (parse p (bytes_of id es))) (sym same)
          (Readable-split h m n id e es (parser_of c) (readable id c found)).1

-- A server that calls its handler as messages come in, with ready connections, and reads that fit the
-- buffer, on any of its connections and in any order, where every message that completes on a
-- connection can be read as an object: no step fails, and there is one sequence of objects, those that
-- the handler read from the messages as it got them, that it gives to send_msg in this order on every
-- connection, the senders' too; the messages of each connection are among those that it got as the
-- parser finds them in the connection's bytes, in order and each once.
pub broadcast :
    (h : Host) (m n : ℕ) (es : List (ℕ × List ℕ)) (net : Network)
    → Serves net
    → All (λ (e : ℕ × List ℕ). length e.1 ≤ max_buffer_size) es
    → ((id : ℕ) (c : NetCon)
        → get_con_loop id net.connections ≡ some c
        → All (Readable h m n) (parse (parser_of c) (bytes_of id (arrivals es))))
    → (after : Network) × (ms : List (ℕ × Message)) × (ts : List Test) × (run_server h m n es net
        ≡ ok after)
      × Serves after
      × (after.read_calls ≡ net.read_calls ++ ms)
      × Pairs (λ msg t. Reads h m n msg.1 t) ms ts
      × ((id : ℕ) (c : NetCon)
          → get_con_loop id net.connections ≡ some c
          → (d : NetCon) × (get_con_loop id after.connections ≡ some d)
            × (d.writes ≡ c.writes ++ map (written h) ts)
            × (from_con id ms ≡ tagged id (parse (parser_of c) (bytes_of id (arrivals es)))))
unfolding run_server bytes_of
broadcast h m n [] net v fit readable = (
  net,
  [],
  [],
  refl,
  v,
  sym (append-nil net.read_calls),
  tt,
  λ id c found. (c, found, sym (append-nil c.writes), unfold parse from_con in refl),
)
broadcast h m n ((i, received) ∷ es) net v (fits, fit) readable =
    let e = arrived i received in
    let (mid, ms, ts, eq, reads, r) = relay h m n i received net v fits (λ c found.
      subst (λ bytes. All (Readable h m n) (parse (parser_of c) bytes)) (own_bytes i received)
        (Readable-split h m n i e (arrivals es) (parser_of c) (readable i c found)).0) in
    let (after, ms', ts', eq', v', calls, reads', each) =
      broadcast h m n es mid r.serves fit
        (still-Readable h m n e (arrivals es) net mid ms ts r readable) in
    (
      after,
      ms ++ ms',
      ts ++ ts',
      rw eq eq',
      v',
      calls ∙ ap (λ l. l ++ ms') r.calls ∙ append_assoc net.read_calls ms ms',
      Pairs-append (λ msg t. Reads h m n msg.1 t) ms ms' ts ts' reads reads',
      λ id c found.
          let (d, there, parser, writes, own) = r.each id c found in
          let (d', there', writes', own') = each id d there in
          (
            d',
            there',
            writes'
                ∙ ap (λ l. l ++ map (written h) ts') writes
                ∙ append_assoc c.writes _ _
                ∙ ap (λ l. c.writes ++ l) (sym (map-append (written h) ts ts')),
            from_con-append id ms ms'
                ∙ rw (own, own', parser)
                    (sym (
                        map-append {B = ℕ × Message} (λ m. (id, m))
                          (parse (parser_of c) (bytes_in id e)) _)
                      ∙ ap (tagged id) (
                          sym (
                            parse-append (parser_of c) (bytes_in id e)
                              (bytes_of id (arrivals es))))),
          ),
    )
