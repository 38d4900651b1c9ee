-- ===== src/Network/Lifetimes/Orphans.antt =====
-- Whether a read's handler can be called for a connection that is gone (volt_net/src/volt/net/network.cpp
-- and net_con.cpp together).
use volt_net.Common.{
  Bool, ◌&&◌, ◌||◌, ltb, ◌<◌, ◌≤◌, ◌⊎◌, inl, inr, All, ℕ, zero, suc, ◌+◌, ◌==◌, ◌≡◌, ◌≢◌, refl, sym,
  ap, subst, ◌∙◌, if_false, true, length, get_elem?, false, Option, none, some, List, [], ◌∷◌,
  arith,
}
use volt_net.Defs.{con_id_mod}
use volt_net.NetCon.{NetCon, ErrorCode, success}
use volt_net.Network.{Network, NetOutcome, ok, throws, undefined_behaviour, close_connection}
use volt_net.Network.Connections.{IsValid, close_connection_lem}
use volt_net.Network.Delivery.Steps.{step-Moved}
use volt_net.Network.Lifetimes.{
  fail_read, run_orphan, close_in_handler, Happening, traffic, read_failed, happen, happen_all,
  Possible, ids_taken, ids_taken_by, Step, happened, Reach, here, next, Runs, fail_read_lem,
  without_first-Runs,
}

-- What a step keeps.
abbrev Kept : Network → Network → Type 0
Kept net after = Runs after × (after.orphans ≡ net.orphans)

ok-injective : {a b : Network} → ◌≡◌ {A = NetOutcome Network} (ok a) (ok b) → a ≡ b
ok-injective e = cc

not_undefined : {b : Network} → ◌≡◌ {A = NetOutcome Network} undefined_behaviour (ok b) → ⊥
not_undefined e = cc

suc-ne-zero : (i : ℕ) → (suc i == 0) ≡ false
suc-ne-zero i = ground arith

get_elem?-some : (cs : List NetCon) (i : ℕ) (c : NetCon) → get_elem? cs i ≡ some c → i < length cs
get_elem?-some [] i c e = cc
get_elem?-some (x ∷ xs) zero c e = omega arith
get_elem?-some (x ∷ xs) (suc i) c e = omega (arith, get_elem?-some xs i c e)

get_elem?-none : (cs : List NetCon) (i : ℕ) → get_elem? cs i ≡ none → length cs ≤ i
get_elem?-none [] i e = omega arith
get_elem?-none (x ∷ xs) zero e = cc
get_elem?-none (x ∷ xs) (suc i) e = omega (arith, get_elem?-none xs i e)

-- The read of a connection that is not the first one fails.
abbrev pub fails_behind : Happening → Network → Bool
fails_behind (traffic e) net = false
fails_behind (read_failed err index) net = ltb 0 index && ltb index (length net.connections)

-- Whether that is among some happenings, up to one without a defined result.
abbrev pub some_fails_behind : List Happening → Network → Bool
some_fails_behind [] net = false
some_fails_behind (h ∷ hs) net = fails_behind h net || elim (happen h net) [
  | ok mid ↦ some_fails_behind hs mid
  | throws x ↦ false
  | undefined_behaviour ↦ false
]

-- What one happening leads to.
abbrev Leads : Happening → Network → Type 0
Leads h net =
    ((happen h net ≡ undefined_behaviour) × (fails_behind h net ≡ true))
    ⊎ ((after : Network) × (happen h net ≡ ok after)
        × (fails_behind h net ≡ false)
        × Kept net after
        × (after.next_id ≤ net.next_id + ids_taken h))

failed-Leads :
    (err : ErrorCode) (index : ℕ) (net : Network) (cons : List NetCon)
    → net.connections ≡ cons
    → err ≢ success
    → Runs net
    → Leads (read_failed err index) net
unfolding happen
failed-Leads err index net [] e fails v = inr (
  net,
  (unfold fail_read in rw (fail_read, ap (λ cs. get_elem? cs index) e)),
  ground (arith, ap length e),
  (v, refl),
  omega arith,
)
failed-Leads err zero net (x ∷ xs) e fails v = inr (
  record net { connections = xs },
  fail_read_lem err 0 net x x xs fails v e (ap (λ cs. get_elem? cs 0) e),
  refl,
  (without_first-Runs net x xs net.orphans v e, refl),
  omega arith,
)
failed-Leads err (suc i) net (x ∷ xs) e fails v = go (get_elem? net.connections (suc i)) refl
  where
    go :
        (found : Option NetCon)
        → get_elem? net.connections (suc i) ≡ found
        → Leads (read_failed err (suc i)) net
    go none missing = inr (
      net,
      (unfold fail_read in rw (fail_read, missing)),
      ground (arith, get_elem?-none net.connections (suc i) missing),
      (v, refl),
      omega arith,
    )
    go (some c) found = inl (
      fail_read_lem err (suc i) net c x xs fails v e found ∙ if_false _ _ (suc-ne-zero i),
      ground (arith, get_elem?-some net.connections (suc i) c found),
    )

happen-Leads :
    (h : Happening) (net : Network)
    → Possible h
    → net.next_id + ids_taken h < con_id_mod
    → Runs net
    → Leads h net
unfolding happen
happen-Leads (traffic e) net fits room v =
    let (after, eq, m) = step-Moved e net v.valid v.delivers fits room in
    inr (
      after,
      eq,
      refl,
      (
        record {
          valid = m.valid;
          delivers = m.still;
          running = m.rest.0 ∙ v.running;
          quiet = m.rest.1 ∙ v.quiet;
        },
        m.rest.2,
      ),
      m.next,
    )
happen-Leads (read_failed err index) net fails room v =
    failed-Leads err index net net.connections refl fails v

Step-Kept : (net after : Network) → Runs net → Step net after → Kept net after
Step-Kept net after v (happened h possible room eq) = elim (happen-Leads h net possible room v) [
  | inl (undefined_, behind) ↦ absurd (not_undefined (sym undefined_ ∙ eq))
  | inr (mid, eq', behind, kept, ids) ↦ subst (Kept net) (ok-injective (sym eq' ∙ eq)) kept
]

Reach-Kept : {net after : Network} → Runs net → Reach net after → Kept net after
Reach-Kept v here = (v, refl)
Reach-Kept {net} v (next {mid} {after} r st) =
    let (v', same) = Reach-Kept v r in
    let (v'', same') = Step-Kept mid after v' st in (v'', same' ∙ same)

-- A valid network that runs, with a handler for messages, which calls nothing of the network, and none
-- for connections, that no destroyed connection has left a read behind of, and whose program closes
-- no connection: connections are made, reads finish, reads fail and messages are asked for, in any
-- order, with reads that fit the buffer and ids left. If at some point the read of a connection that
-- is not the first one fails, what follows has no defined result. Else all of it has one, the network
-- goes on as such a network, and no read's handler is called for a connection that is gone. The
-- handlers of writes are not counted.
pub no_orphan :
    (net : Network) (hs : List Happening)
    → Runs net
    → net.orphans ≡ 0
    → All Possible hs
    → net.next_id + ids_taken_by hs < con_id_mod
    → ((happen_all hs net ≡ undefined_behaviour) × (some_fails_behind hs net ≡ true))
      ⊎ ((after : Network) × (happen_all hs net ≡ ok after)
          × (some_fails_behind hs net ≡ false)
          × Runs after
          × (run_orphan after ≡ ok after))
unfolding happen_all run_orphan
no_orphan net [] v none_left possible room = inr (net, refl, refl, v, ground (arith, none_left))
no_orphan net (h ∷ hs) v none_left possible room =
    elim (happen-Leads h net possible.0 (omega arith) v) [
      | inl (undefined_, behind) ↦ inl (rw undefined_, rw behind)
      | inr (mid, eq, behind, (v', same), ids) ↦
          elim (no_orphan mid hs v' (same ∙ none_left) possible.1 (omega arith)) [
            | inl (undefined_, later) ↦ inl (rw eq undefined_, rw (behind, eq) later)
            | inr (after, eq', later, v'', gone) ↦
                inr (after, rw eq eq', rw (behind, eq) later, v'', gone)
          ]
    ]

-- If the program closes the first connection, which is the only one that it can close with a
-- defined result, then however the network goes on with defined results, the handler of the read
-- that was cancelled finds its connection destroyed.
pub close_dangles :
    (net after later : Network) (x : NetCon) (xs : List NetCon)
    → Runs net
    → net.connections ≡ x ∷ xs
    → close_connection 0 net ≡ ok after
    → Reach after later
    → run_orphan later ≡ undefined_behaviour
unfolding run_orphan
close_dangles net after later x xs v e closed r =
    let first = ap (λ cs. get_elem? cs 0) e in
    let is : record net { connections = xs; orphans = net.orphans + 1 } ≡ after =
      ok-injective
        (sym (close_connection_lem 0 net x x xs v.valid v.running v.quiet e first) ∙ closed) in
    let v' = subst Runs is (without_first-Runs net x xs (net.orphans + 1) v e) in
    let (v'', same) = Reach-Kept v' r in ground (arith, same, ap (λ (n : Network). n.orphans) is)

-- A valid, running network without a handler for closed connections, whose program closes a
-- connection in the handler of a message that came on it: handle_read has no defined result, for any
-- connection. The closed connection is destroyed before handle_read goes on, or, where another one
-- stands at the front, the closing itself has no defined result.
pub close_in_handler_undefined :
    (index : ℕ) (net : Network) (c x : NetCon) (xs : List NetCon)
    → IsValid net
    → net.running ≡ true
    → net.has_closed_connection_callback ≡ false
    → net.connections ≡ x ∷ xs
    → get_elem? net.connections index ≡ some c
    → close_in_handler index net ≡ undefined_behaviour
unfolding close_in_handler
close_in_handler_undefined zero net c x xs v run quiet e found =
    let shorter : (length xs == length net.connections) ≡ false = ground (arith, ap length e) in
    rw (close_connection_lem 0 net c x xs v run quiet e found) (if_false _ _ shorter)
close_in_handler_undefined (suc i) net c x xs v run quiet e found =
    let undefined_ =
      close_connection_lem (suc i) net c x xs v run quiet e found ∙ if_false _ _ (suc-ne-zero i) in
    rw undefined_
