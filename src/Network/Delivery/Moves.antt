-- ===== src/Network/Delivery/Moves.antt =====
-- What one event of a running network does to the connections, each by itself.
use volt_net.Common.{
  ℕ, ◌+◌, ◌≤◌, ◌==◌, ◌≡◌, refl, sym, ap, subst, ◌∙◌, if◌then◌else◌, if_true, if_false, length, drop,
  Bool-cases, inl, inr, some, List, [], ◌∷◌, ◌++◌, All, arith, ==_iff,
}
use mathlib.Core.Option.{some-injective}
use volt_net.Defs.{Message}
use volt_net.NetCon.{NetCon, Outcome, success, complete_read}
use volt_net.NetCon.Parser.{parse, state_after}
use volt_net.NetCon.Bytes.{parser_of}
use volt_net.NetCon.Reading.{IsReady}
use volt_net.NetCon.Streams.{tagged}
use volt_net.Network.{Network, ok, get_con_loop}
use volt_net.Network.Connections.{IsValid, AllBelow, Distinct}
use volt_net.Network.Traffic.{
  Event, taken, arrived, submit_calls, update_con, never, step, bytes_in, from_con,
}
use volt_net.Network.Delivery.Lookups.{get_con_loop-update_con, Extends, same-Extends}
use volt_net.Network.Delivery.Queueing.{SameRest, Delivers, messages, Added}

pub from_con-append :
    (id : ℕ) (xs ys : List (ℕ × Message))
    → from_con id (xs ++ ys) ≡ from_con id xs ++ from_con id ys
unfolding from_con
from_con-append id [] ys = refl
from_con-append id (x ∷ xs) ys = ground (arith, from_con-append id xs ys)

from_con-tagged :
    (id i : ℕ) (ms : List Message)
    → from_con id (tagged i ms) ≡ (if i == id then tagged i ms else [])
unfolding from_con
from_con-tagged id i [] = ground arith
from_con-tagged id i (m ∷ ms) = ground (arith, from_con-tagged id i ms)

-- What one event does to the connection with an id, `c`, and to its messages.
pub record Moved (net : Network) (e : Event) (after : Network) : Type 0 where
  pub valid : IsValid after
  pub next : after.next_id ≤ net.next_id + taken e
  pub still : Delivers after
  pub rest : SameRest net after
  pub extends : Extends net.connections after.connections
  pub each :
      (id : ℕ) (c : NetCon)
      → get_con_loop id net.connections ≡ some c
      → (d : NetCon) × (get_con_loop id after.connections ≡ some d)
        × (from_con id (messages after)
            ≡ from_con id (messages net) ++ tagged id (parse (parser_of c) (bytes_in id e)))
        × (parser_of d ≡ state_after (parser_of c) (bytes_in id e))
        × (d.writes ≡ c.writes)

pub same-IsValid :
    (net after : Network)
    → IsValid net
    → after.connections ≡ net.connections
    → after.next_id ≡ net.next_id
    → IsValid after
same-IsValid net after valid cons next = record {
  ready = subst (All IsReady) (sym cons) valid.ready;
  below =
      subst (AllBelow after.next_id) (sym cons)
        (subst (λ n. AllBelow n net.connections) (sym next) valid.below);
  distinct = subst Distinct (sym cons) valid.distinct;
}

-- An event that brings no bytes for any connection.
pub quiet-Moved :
    (net after : Network) (e : Event)
    → IsValid net
    → Added net [] after
    → ((id : ℕ) (c : NetCon) → get_con_loop id net.connections ≡ some c → bytes_in id e ≡ [])
    → Moved net e after
unfolding parse state_after from_con
quiet-Moved net after e valid a none_in = record {
  valid = same-IsValid net after valid a.same_cons a.same_next;
  next = omega (arith, a.same_next);
  still = a.still;
  rest = a.rest;
  extends = same-Extends net.connections after.connections a.same_cons;
  each = λ id c found. (
    c,
    ap (get_con_loop id) a.same_cons ∙ found,
    rw (none_in id c found, parse) (ap (from_con id) a.all ∙ from_con-append id (messages net) []),
    rw (none_in id c found, state_after),
    refl,
  );
}

pub step_arrived :
    (i : ℕ) (received : List ℕ) (net : Network) (con d : NetCon)
    → get_con_loop i net.connections ≡ some con
    → complete_read never success received con ≡ Outcome.ok d
    → step (arrived i received) net
      ≡ ok (
          submit_calls
            (drop (length con.new_msg_calls) d.new_msg_calls)
            (record net { connections = update_con i d net.connections }))
unfolding step
step_arrived i received net con d at eq = rw (step, at, eq)

-- What the messages of one connection are to the connections of the network.
pub from_con-new :
    (id i : ℕ) (received : List ℕ) (old new calls : List (ℕ × Message)) (c con : NetCon)
    → (i ≡ id → c ≡ con)
    → calls ≡ old ++ new
    → new ≡ tagged i (parse (parser_of con) received)
    → from_con id calls
      ≡ from_con id old ++ tagged id (parse (parser_of c) (bytes_in id (arrived i received)))
unfolding bytes_in
from_con-new id i received old new calls c con one all news =
    ap (from_con id) all
    ∙ from_con-append id old new
    ∙ ap (◌++◌ (from_con id old)) (ap (from_con id) news ∙ from_con-tagged id i _ ∙ own)
  where
    own :
        (if i == id then tagged i (parse (parser_of con) received) else [])
        ≡ tagged id (parse (parser_of c) (if i == id then received else []))
    own = elim (Bool-cases (i == id)) [
      | inl hit ↦ let same = (==_iff i id).0 hit in rw (hit, one same, same)
      | inr miss ↦ unfold parse in rw miss
    ]

pub moved_con :
    (i : ℕ) (received : List ℕ) (cons : List NetCon) (con d : NetCon)
    → get_con_loop i cons ≡ some con
    → d.id ≡ i
    → parser_of d ≡ state_after (parser_of con) received
    → d.writes ≡ con.writes
    → (id : ℕ) (c : NetCon) → get_con_loop id cons ≡ some c
    → (e : NetCon) × (get_con_loop id (update_con i d cons) ≡ some e)
      × (parser_of e ≡ state_after (parser_of c) (bytes_in id (arrived i received)))
      × (e.writes ≡ c.writes)
unfolding bytes_in
moved_con i received cons con d at named parser writes id c found =
    let there = get_con_loop-update_con i d cons con named at id in
    elim (Bool-cases (i == id)) [
      | inl hit ↦
          let same = (==_iff i id).0 hit in
          let one : con ≡ c =
            some-injective con c (sym at ∙ ap (λ j. get_con_loop j cons) same ∙ found) in
          (
            d,
            there ∙ if_true _ _ hit,
            rw hit (parser ∙ ap (λ x. state_after (parser_of x) received) one),
            writes ∙ ap (λ (c : NetCon). c.writes) one,
          )
      | inr miss ↦ (c, there ∙ if_false _ _ miss ∙ found, unfold state_after in rw miss, refl)
    ]
