-- ===== src/NetCon/Writing.antt =====
-- net_con::send_msg and net_con::handle_write of volt_net/src/volt/net/net_con.cpp, with the socket
-- beneath. Boost.Asio documents that async_write sends a message by any number of async_write_some,
-- each of which sends some of the bytes that are left, and then calls the handler; it does not order
-- the parts of several writes that are outstanding on one stream.
use volt_net.Common.{
  ℕ, zero, suc, ◌+◌, ◌-◌, ◌≤◌, ◌<◌, leb, if◌then◌else◌, ◌≡◌, refl, sym, ap, ◌∙◌, length, take, drop,
  get_elem?, flatten, map, All, none, some, List, [], ◌∷◌, ◌++◌, append_assoc, append-nil,
  Bool-cases, inl, inr, arith, if_true, if_false, leb→le, true, false, take_of_le, take-append-drop,
  length-drop,
}
use volt_net.Defs.{Message}
use volt_net.MsgPool.{erase_idx}
use volt_net.NetCon.{NetCon, Outcome, ok, ◌>>=◌, ErrorCode, success, send_msg, handle_write}

-- A write that is outstanding: its message, and the bytes of it that are left.
pub record Write : Type 0 where
  pub msg : Message
  pub left : List ℕ

-- A connection, what its peer gets, and its outstanding writes.
pub record Sending : Type 0 where
  pub con : NetCon
  pub sent : List ℕ
  pub outstanding : List Write

-- A message is given to send_msg; some bytes of an outstanding write are sent; or it fails.
pub data Event : Type 0 where
  begins : Message → Event
  sends : ℕ → ℕ → Event
  fails : ℕ → ErrorCode → Event

unfoldable pub set_left : List Write → ℕ → List ℕ → List Write
set_left [] i left = []
set_left (w ∷ ws) zero left = record w { left = left } ∷ ws
set_left (w ∷ ws) (suc i) left = w ∷ set_left ws i left

-- The write at a place is over, and its handler is called.
unfoldable pub finish : ErrorCode → ℕ → Write → Sending → Outcome Sending
unfolding handle_write erase_idx
finish err i w s =
    handle_write err (length w.msg - length w.left) w.msg s.con
    >>= (λ c. ok (record s { con = c; outstanding = erase_idx s.outstanding i }))

unfoldable pub step : Event → Sending → Outcome Sending
unfolding send_msg finish set_left
step (begins m) s = ok (record s {
  con = send_msg m s.con;
  outstanding = s.outstanding ++ (record { msg = m; left = m } ∷ []);
})
step (sends i n) s = elim (get_elem? s.outstanding i) [
  | none ↦ ok s
  | some w ↦
      let s' = record s { sent = s.sent ++ take n w.left } in
      if leb (length w.left) n
      then finish success i (record w { left = [] }) s'
      else ok (record s' { outstanding = set_left s.outstanding i (drop n w.left) })
]
step (fails i err) s = elim (get_elem? s.outstanding i) [ none ↦ ok s | some w ↦ finish err i w s ]

unfoldable pub run : List Event → Sending → Outcome Sending
run [] s = ok s
run (e ∷ es) s = step e s >>= run es

run-append : (xs ys : List Event) (s : Sending) → run (xs ++ ys) s ≡ (run xs s >>= run ys)
unfolding run
run-append [] ys s = refl
run-append (x ∷ xs) ys s = go (step x s) (run-append xs ys)
  where
    go :
        (o : Outcome Sending)
        → ((t : Sending) → run (xs ++ ys) t ≡ (run xs t >>= run ys))
        → (o >>= run (xs ++ ys)) ≡ ((o >>= run xs) >>= run ys)
    go (ok t) ih = ih t
    go (Outcome.throws x c) ih = refl
    go Outcome.stuck ih = refl

abbrev sum : List ℕ → ℕ
sum [] = 0
sum (n ∷ ns) = n + sum ns

-- A message and the sizes of the parts in which it is sent, before the next message is begun.
abbrev pub schedule : List (Message × List ℕ) → List Event
schedule [] = []
schedule ((m, ns) ∷ rest) = begins m ∷ (map (sends 0) ns ++ schedule rest)

-- The message is not empty and the parts are enough.
abbrev pub Covers : Message × List ℕ → Type 0
Covers (m, ns) = (0 < length m) × (length m ≤ sum ns)

abbrev idle : NetCon → List ℕ → Sending
idle c bytes = record { con = c; sent = bytes; outstanding = [] }

abbrev busy : NetCon → List ℕ → Message → List ℕ → Sending
busy c bytes m left = record {
  con = c;
  sent = bytes;
  outstanding = record { msg = m; left = left } ∷ [];
}

idle_lem :
    (ns : List ℕ) (c : NetCon) (bytes : List ℕ)
    → run (map (sends 0) ns) (idle c bytes) ≡ ok (idle c bytes)
unfolding run step
idle_lem [] c bytes = refl
idle_lem (n ∷ ns) c bytes = idle_lem ns c bytes

finish_lem :
    (c : NetCon) (bytes : List ℕ) (m : Message) (w : Write)
    → finish success 0
        (record { msg = m; left = [] })
        (record { con = c; sent = bytes; outstanding = w ∷ [] })
      ≡ ok (idle c bytes)
unfolding finish
finish_lem c bytes m w = ground arith

last_lem :
    (n : ℕ) (c : NetCon) (bytes : List ℕ) (m left : Message)
    → leb (length left) n ≡ true
    → step (sends 0 n) (busy c bytes m left) ≡ ok (idle c (bytes ++ left))
unfolding step
last_lem n c bytes m left last =
    if_true _ _ last
    ∙ finish_lem c (bytes ++ take n left) m (record { msg = m; left = left })
    ∙ ap (λ part. ok (idle c (bytes ++ part))) (take_of_le n left (leb→le (length left) n last))

part_lem :
    (n : ℕ) (c : NetCon) (bytes : List ℕ) (m left : Message)
    → leb (length left) n ≡ false
    → step (sends 0 n) (busy c bytes m left) ≡ ok (busy c (bytes ++ take n left) m (drop n left))
unfolding step
part_lem n c bytes m left more = if_false _ _ more

sends_lem :
    (ns : List ℕ) (c : NetCon) (bytes : List ℕ) (m left : Message)
    → 0 < length left
    → length left ≤ sum ns
    → run (map (sends 0) ns) (busy c bytes m left) ≡ ok (idle c (bytes ++ left))
unfolding run
sends_lem [] c bytes m left some_left enough = absurd (omega arith)
sends_lem (n ∷ ns) c bytes m left some_left enough = elim (Bool-cases (leb (length left) n)) [
  | inl last ↦ rw (last_lem n c bytes m left last) (idle_lem ns c (bytes ++ left))
  | inr more ↦
      let later =
        sends_lem ns c (bytes ++ take n left) m (drop n left) (ground (arith, length-drop n left))
          (ground (arith, length-drop n left)) in
      rw (part_lem n c bytes m left more) (
        later
        ∙ ap (λ l. ok (idle c l))
            (append_assoc bytes (take n left) (drop n left)
              ∙ ap (◌++◌ bytes) (take-append-drop n left)))
]

unfoldable pub send_msgs : List Message → NetCon → NetCon
unfolding send_msg
send_msgs [] c = c
send_msgs (m ∷ ms) c = send_msgs ms (send_msg m c)

pub send_msgs-writes : (ms : List Message) (c : NetCon) → (send_msgs ms c).writes ≡ c.writes ++ ms
unfolding send_msgs send_msg
send_msgs-writes [] c = sym (append-nil c.writes)
send_msgs-writes (m ∷ ms) c = send_msgs-writes ms (send_msg m c) ∙ append_assoc c.writes (m ∷ []) ms

-- A connection with no write outstanding, and messages that are not empty, each begun when the one
-- before it has been sent: however the messages are cut into parts, all handlers run and none throws,
-- and the peer gets the bytes of the messages one after the other.
pub schedule_lem :
    (ws : List (Message × List ℕ)) (c : NetCon) (bytes : List ℕ)
    → All Covers ws
    → run (schedule ws) (record { con = c; sent = bytes; outstanding = [] })
      ≡ ok (record {
        con = send_msgs (map (λ w. w.0) ws) c;
        sent = bytes ++ flatten (map (λ w. w.0) ws);
        outstanding = [];
      })
unfolding run step send_msgs
schedule_lem [] c bytes covered = ap (λ l. ok (idle c l)) (sym (append-nil bytes))
schedule_lem ((m, ns) ∷ rest) c bytes covered =
    run-append (map (sends 0) ns) (schedule rest) (busy (send_msg m c) bytes m m)
    ∙ ap (λ o. o >>= run (schedule rest))
        (sends_lem ns (send_msg m c) bytes m m covered.0.0 covered.0.1)
    ∙ schedule_lem rest (send_msg m c) (bytes ++ m) covered.1
    ∙ ap (λ l. ok (idle (send_msgs (map (λ w. w.0) rest) (send_msg m c)) l))
        (append_assoc bytes m _)
