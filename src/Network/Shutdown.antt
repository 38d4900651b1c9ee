-- ===== src/Network/Shutdown.antt =====
-- The destructor of a network.
use volt_net.Common.{
  ◌≡◌, refl, ◌∙◌, if_true, if_false, Bool, true, false, ◌&&◌, All, List, [], ◌∷◌, ◌++◌, arith,
}
use volt_net.NetCon.{NetCon}
use volt_net.NetCon.Reading.{IsReady}
use volt_net.NetCon.Lifecycle.{close_con-close_con}
use volt_net.Network.{Network, ok, undefined_behaviour, close_all, close_optional, destroy}

-- Each connection is closed, and its closed callback was made once.
abbrev pub AllClosed : List NetCon → List NetCon → Type 0
AllClosed [] [] = Unit {0}
AllClosed [] (d ∷ ds) = ⊥
AllClosed (c ∷ cs) [] = ⊥
AllClosed (c ∷ cs) (d ∷ ds) =
    (d.con_open ≡ false) × (d.closed_calls ≡ c.closed_calls ++ (c.id ∷ [])) × AllClosed cs ds

close_all-AllClosed :
    (has_callback : Bool) (cons : List NetCon)
    → has_callback ≡ false
    → All IsReady cons
    → (closed : List NetCon) × (close_all has_callback cons ≡ ok closed) × AllClosed cons closed
unfolding close_all
close_all-AllClosed has_callback [] quiet v = ([], refl, tt)
close_all-AllClosed has_callback (c ∷ cs) quiet v =
    let (d, eq, shut, calls, same, again) = close_con-close_con c v.0.can_close in
    let safe : (c.con_open && has_callback) ≡ false = ground (arith, quiet) in
    let (ds, eqs, all) = close_all-AllClosed has_callback cs quiet v.1 in
    (
      d ∷ ds,
      rw (eq, close_all) (if_false _ _ safe ∙ (rw eqs)),
      (shut, calls ∙ if_true _ _ v.0.is_open, all),
    )

-- Without a handler for closed connections, and with connections that are ready, the destructor
-- returns; the network no longer runs, the vector keeps its length, and the connection at each place
-- is closed and its closed callback was made once, with its id.
pub destroy_lem :
    (net : Network)
    → All IsReady net.connections
    → net.has_closed_connection_callback ≡ false
    → (after : Network) × (destroy net ≡ ok after)
      × (after.running ≡ false)
      × AllClosed net.connections after.connections
unfolding destroy
destroy_lem net v quiet =
    let (ds, eq, all) =
      close_all-AllClosed net.has_closed_connection_callback net.connections quiet v in
    (
      record net {
        running = false;
        connections = ds;
        net_listener = close_optional net.net_listener;
      },
      rw eq,
      refl,
      all,
    )

close_all_undefined :
    (has_callback : Bool) (c : NetCon) (cs : List NetCon)
    → IsReady c
    → has_callback ≡ true
    → close_all has_callback (c ∷ cs) ≡ undefined_behaviour
unfolding close_all
close_all_undefined has_callback c cs v set =
    let r = close_con-close_con c v.can_close in
    let unsafe : (c.con_open && has_callback) ≡ true = ground (arith, v.is_open) in
    rw (r.1, close_all) (if_true _ _ unsafe)

-- With a handler for closed connections the destructor has no defined result as soon as the network
-- holds a connection and the first one is ready: that one's closed callback follows a dangling
-- reference.
pub destroy_undefined :
    (net : Network) (c : NetCon) (cs : List NetCon)
    → net.connections ≡ c ∷ cs
    → IsReady c
    → net.has_closed_connection_callback ≡ true
    → destroy net ≡ undefined_behaviour
unfolding destroy
destroy_undefined net c cs e v set =
    rw (e, close_all_undefined net.has_closed_connection_callback c cs v set)
