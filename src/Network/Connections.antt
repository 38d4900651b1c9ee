-- ===== src/Network/Connections.antt =====
-- The list of connections: which ones are found, added and removed.
use volt_net.Common.{
  ℕ, zero, suc, ◌+◌, ◌≤◌, ◌<◌, ◌≡◌, ◌≢◌, refl, sym, ap, subst, ◌∙◌, ◌⊎◌, inl, inr, if◌then◌else◌,
  if_true, if_false, ◌==◌, get_elem?, All, All-append, All-get_elem?, true, false, none, some, List,
  [], ◌∷◌, ◌++◌, arith, Bool-cases, ==_iff,
}
use volt_net.Defs.{con_id_mod}
use volt_net.NetCon.{NetCon, Outcome, close_con}
use volt_net.NetCon.Reading.{IsReady}
use volt_net.NetCon.Lifecycle.{attached, attached-IsReady, attached-id}
use volt_net.MsgPool.{erase_idx}
use volt_net.Network.{
  Network, ok, undefined_behaviour, Attempt, get_next_id, accept_connection, find_if, on_closed,
  set_con, close_connection, get_con_loop, get_con,
}
use volt_net.Network.Ids.{total, get_next_id_fresh}

-- `get_con` finds the first connection with the id, and fails exactly when there is none.
get_con_loop_lem :
    (id : ℕ) (cons : List NetCon)
    → ((get_con_loop id cons ≡ none) × All (λ (c : NetCon). c.id ≢ id) cons)
      ⊎ ((front : List NetCon) × (con : NetCon) × (back : List NetCon) × (get_con_loop id cons
            ≡ some con)
          × (cons ≡ front ++ (con ∷ back))
          × (con.id ≡ id)
          × All (λ (c : NetCon). c.id ≢ id) front)
unfolding get_con_loop
get_con_loop_lem id [] = inl (refl, tt)
get_con_loop_lem id (c ∷ cs) = elim (Bool-cases (c.id == id)) [
  | inl hit ↦ inr ([], c, cs, rw hit, refl, (==_iff c.id id).0 hit, tt)
  | inr miss ↦ elim (get_con_loop_lem id cs) [
    | inl (e, all) ↦ inl (rw miss e, (λ same. cc (sym miss ∙ (==_iff c.id id).1 same), all))
    | inr (front, con, back, e, split, same, others) ↦ inr (
      c ∷ front,
      con,
      back,
      rw miss e,
      ap (◌∷◌ c) split,
      same,
      (λ is. cc (sym miss ∙ (==_iff c.id id).1 is), others),
    )
  ]
]

-- The connections that a running network holds: each has one read outstanding, and their ids are
-- different from one another and from those still to be given out.
abbrev pub AllBelow : ℕ → List NetCon → Type 0
AllBelow n [] = Unit {0}
AllBelow n (c ∷ cs) = (c.id < n) × AllBelow n cs

abbrev pub Distinct : List NetCon → Type 0
Distinct [] = Unit {0}
Distinct (c ∷ cs) = All (λ (d : NetCon). d.id ≢ c.id) cs × Distinct cs

pub record IsValid (net : Network) : Type 0 where
  pub ready : All IsReady net.connections
  pub below : AllBelow net.next_id net.connections
  pub distinct : Distinct net.connections

AllBelow-append :
    (m n : ℕ) (cs : List NetCon) (c : NetCon)
    → m ≤ n
    → c.id < n
    → AllBelow m cs
    → AllBelow n (cs ++ (c ∷ []))
AllBelow-append m n [] c h lt b = (lt, tt)
AllBelow-append m n (d ∷ ds) c h lt b = (omega arith, AllBelow-append m n ds c h lt b.1)

Distinct-append :
    (m : ℕ) (cs : List NetCon) (c : NetCon)
    → AllBelow m cs
    → m ≤ c.id
    → Distinct cs
    → Distinct (cs ++ (c ∷ []))
Distinct-append m [] c b h d = (tt, tt)
Distinct-append m (x ∷ xs) c b h d = (
  All-append (λ (d : NetCon). d.id ≢ x.id) xs (c ∷ []) d.0 ((λ e. absurd (omega arith)), tt),
  Distinct-append m xs c b.1 h d.1,
)

get_con_loop-append :
    (m : ℕ) (cs : List NetCon) (c : NetCon)
    → AllBelow m cs
    → m ≤ c.id
    → (id : ℕ)
    → get_con_loop id (cs ++ (c ∷ [])) ≡ (if c.id == id then some c else get_con_loop id cs)
unfolding get_con_loop
get_con_loop-append m [] c b h id = refl
get_con_loop-append m (x ∷ xs) c b h id = ground (arith, get_con_loop-append m xs c b.1 h id)

-- As long as the ids that are taken do not wrap, and without a handler for new connections: accepting
-- a connection adds it behind the others, with an id that none of them has, moves the counter of ids
-- on and changes nothing else; the invariant is kept, and get_con finds the new connection by its id
-- and any other as before.
pub accept_connection_lem :
    (attempts : List Attempt) (net : Network)
    → IsValid net
    → net.next_id + total attempts + 1 < con_id_mod
    → net.has_new_connection_callback ≡ false
    → let (id, next_id) = get_next_id attempts net.next_id in
      let con = attached id in
      let after = record net { next_id = next_id; connections = net.connections ++ (con ∷ []) } in
      (accept_connection attempts net ≡ ok after)
      × IsValid after
      × ((other : ℕ)
          → get_con other after ≡ (if con.id == other then some con else get_con other net))
unfolding accept_connection get_con
accept_connection_lem attempts net v room quiet =
    let (low, high, moved) = get_next_id_fresh attempts net.next_id room in
    let id = (get_next_id attempts net.next_id).0 in
    let named = attached-id id in
    (
      if_false _ _ quiet,
      record {
        ready =
            All-append IsReady net.connections (attached id ∷ []) v.ready (attached-IsReady id, tt);
        below =
            AllBelow-append net.next_id _ net.connections (attached id) (omega arith) (omega arith)
              v.below;
        distinct =
            Distinct-append net.next_id net.connections (attached id) v.below (omega arith)
              v.distinct;
      },
      get_con_loop-append net.next_id net.connections (attached id) v.below (omega arith),
    )

-- With a handler for new connections set, accepting one follows a null pointer.
pub accept_connection_undefined :
    (attempts : List Attempt) (net : Network)
    → net.has_new_connection_callback ≡ true
    → accept_connection attempts net ≡ undefined_behaviour
unfolding accept_connection
accept_connection_undefined attempts net h = if_true _ _ h

-- A connection that has been closed.
abbrev closed_con : NetCon → NetCon
closed_con c = record c {
  con_open = false;
  sock_open = false;
  closed_calls = c.closed_calls ++ (c.id ∷ []);
}

close_con_open : (c : NetCon) → IsReady c → close_con c ≡ Outcome.ok (closed_con c)
unfolding close_con
close_con_open c v = rw (v.is_open, v.can_close)

close_connection_at :
    (index : ℕ) (net : Network) (c d : NetCon)
    → get_elem? net.connections index ≡ some c
    → close_con c ≡ Outcome.ok d
    → c.con_open ≡ true
    → close_connection index net
      ≡ on_closed c.id (record net { connections = set_con net.connections index d })
unfolding close_connection
close_connection_at index net c d found closed open_ =
    rw (found, closed, close_connection) (if_true _ _ open_)

-- Whichever connection has ended, it is the first one that is erased.
pub on_closed_first :
    (id : ℕ) (net : Network) (x : NetCon) (xs : List NetCon)
    → net.connections ≡ x ∷ xs
    → net.running ≡ true
    → net.has_closed_connection_callback ≡ false
    → on_closed id net ≡ (
        if x.con_open
        then undefined_behaviour
        else ok (record net { connections = xs; orphans = net.orphans + x.pending_reads }))
unfolding on_closed find_if erase_idx
on_closed_first id net x xs e run quiet = simp (run, quiet, e) (ground (arith, e))

-- Closing a connection of a valid, running network that has no handler for closed connections: if it
-- is the one at the front it is removed, its outstanding read is left without a connection, and
-- nothing else changes; closing any other one has no defined result, since the open connection at the
-- front is erased in its stead, whose destructor changes the vector that is being changed.
pub close_connection_lem :
    (index : ℕ) (net : Network) (c x : NetCon) (xs : List NetCon)
    → IsValid net
    → net.running ≡ true
    → net.has_closed_connection_callback ≡ false
    → net.connections ≡ x ∷ xs
    → get_elem? net.connections index ≡ some c
    → close_connection index net ≡ (
        if index == 0
        then ok (record net { connections = xs; orphans = net.orphans + 1 })
        else undefined_behaviour)
unfolding set_con
close_connection_lem zero net c x xs v run quiet e found =
    let ready = (subst (All IsReady) e v.ready).0 in
    close_connection_at 0 net x (closed_con x) (ap (λ cs. get_elem? cs 0) e)
      (close_con_open x ready) ready.is_open
    ∙ on_closed_first x.id (record net { connections = set_con net.connections 0 (closed_con x) })
        (closed_con x) xs (ap (λ cs. set_con cs 0 (closed_con x)) e) run quiet
    ∙ ap (λ n. ok (record net { connections = xs; orphans = net.orphans + n })) ready.one_read
close_connection_lem (suc i) net c x xs v run quiet e found =
    let (front, others) = subst (All IsReady) e v.ready in
    let not_front : (suc i == 0) ≡ false = ground arith in
    let ready = All-get_elem? IsReady net.connections (suc i) c found v.ready in
    let d = closed_con c in
    close_connection_at (suc i) net c d found (close_con_open c ready) ready.is_open
    ∙ on_closed_first c.id (record net { connections = set_con net.connections (suc i) d }) x
        (set_con xs i d) (ap (λ cs. set_con cs (suc i) d) e) run quiet
    ∙ if_true _ _ front.is_open
    ∙ sym (if_false _ _ not_front)
