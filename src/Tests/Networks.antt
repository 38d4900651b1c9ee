-- ===== src/Tests/Networks.antt =====
-- Networks of connections, and the making of connections.
use volt_net.Common.{
  ℕ, ◌%◌, ◌≡◌, ◌↔◌, refl, true, false, ◌==◌, none, some, Option, List, [], ◌∷◌, ◌++◌, flatten, map,
  get_elem?, arith, ◌≢◌, ◌⊎◌, if◌then◌else◌,
}
use volt_net.Defs.{con_id_mod}
use volt_net.NetCon.{eof}
use volt_net.NetCon.Lifecycle.{attached, attached-IsReady, attached-id}
use volt_net.Network.{
  Network, ok, undefined_behaviour, raced, get_next_id, accept_connection, close_connection,
  get_con,
}
use volt_net.Network.Ids.{ids, ids_eq_iff}
use volt_net.Network.Connections.{IsValid, accept_connection_lem, close_connection_lem}
use volt_net.Serialize.{end_msg}
use volt_net.Serialize.Escaping.{escape}
use volt_net.NetCon.Parser.{frame}
use volt_net.Network.Traffic.{Event, arrived, accepted, processed, bytes_in, bytes_of}
use volt_net.Network.Lifetimes.{run_orphan, here, Happening, read_failed, happen_all, Runs}
use volt_net.Network.Lifetimes.Orphans.{some_fails_behind, no_orphan, close_dangles}
use volt_net.Network.Owners
use volt_net.Network.Owners.{joined, terminated, locks, releases, drops}
use volt_net.Network.Owners.Destruction.{destruction}
use volt_net.Connect.{AsyncStateHandler, connected, get_state, server_connect, connect_task}
use volt_net.Connect.Progress.{IsValidIfThere, with_connection, connect_task_lem}

-- A network that defers its messages, with two connections and one message that waits.
abbrev pub two_cons : Network
two_cons = record {
  running = true;
  connections = attached 0 ∷ attached 1 ∷ [];
  next_id = 2;
  net_listener = none;
  received_msgs = record {
    rec_msg_vec = (8 ∷ []) ∷ [];
    rec_msg_ids = 1 ∷ [];
    defer_msg_signal = true;
    calls = [];
  };
  has_new_msg_callback = true;
  has_new_connection_callback = false;
  has_closed_connection_callback = false;
  read_calls = [];
  orphans = 0;
}

pub two_cons-IsValid : IsValid two_cons
two_cons-IsValid = record {
  ready = (attached-IsReady 0, (attached-IsReady 1, tt));
  below = (omega (arith, attached-id 0), (omega (arith, attached-id 1), tt));
  distinct = (((omega (arith, attached-id 0, attached-id 1)), tt), (tt, tt));
}

ids_eq_iff_example :
    (get_elem? (ids 3 65535) 0 ≡ get_elem? (ids 3 65535) 2) ↔ (0 % con_id_mod ≡ 2 % con_id_mod)
ids_eq_iff_example = ids_eq_iff 3 0 2 65535 (omega arith) (omega arith) (omega arith)

accept_connection_lem_example :
    let (id, next_id) = get_next_id (raced 2 ∷ []) 2 in
    let con = attached id in
    let after = record two_cons {
      next_id = next_id;
      connections = two_cons.connections ++ (con ∷ []);
    } in
    (accept_connection (raced 2 ∷ []) two_cons ≡ ok after)
    × IsValid after
    × ((other : ℕ)
        → get_con other after ≡ (if con.id == other then some con else get_con other two_cons))
accept_connection_lem_example =
    accept_connection_lem (raced 2 ∷ []) two_cons two_cons-IsValid (omega arith) refl

close_connection_lem_example : close_connection 1 two_cons ≡ undefined_behaviour
close_connection_lem_example =
    close_connection_lem 1 two_cons (attached 1) (attached 0) (attached 1 ∷ []) two_cons-IsValid
      refl refl refl refl

connect_task_lem_example :
    (after : Option Network) × (state : AsyncStateHandler) × (connect_task false false []
        (some two_cons)
        server_connect
      ≡ ok (after, state))
    × (get_state state ≡ some connected)
    × (after ≡ with_connection [] (some two_cons))
    × IsValidIfThere after
connect_task_lem_example =
    connect_task_lem false false [] (some two_cons) (two_cons-IsValid, omega arith, refl)

-- Bytes of two connections that arrive in turns, with a connection made and messages asked for in
-- between.
abbrev traffic : List Event
traffic =
    arrived 1 (5 ∷ [])
    ∷ accepted []
    ∷ arrived 0 (9 ∷ 255 ∷ 0 ∷ [])
    ∷ processed
    ∷ arrived 1 (255 ∷ 0 ∷ 6 ∷ [])
    ∷ []

traffic-frames : bytes_of 0 traffic ≡ flatten (map frame ((9 ∷ []) ∷ []))
unfolding bytes_of bytes_in escape end_msg
traffic-frames = refl

two_cons-Runs : Runs two_cons
two_cons-Runs = record {
  valid = two_cons-IsValid;
  delivers = record { same_size = refl; waits = λ e. cc; has_handler = refl; quiet = refl };
  running = refl;
  quiet = refl;
}

-- The first connection's read fails, a connection is made, and the read of that one fails.
abbrev failing : List Happening
failing = read_failed eof 0 ∷ Happening.traffic (accepted []) ∷ read_failed eof 1 ∷ []

no_orphan_example :
    ((happen_all failing two_cons ≡ undefined_behaviour)
      × (some_fails_behind failing two_cons ≡ true))
    ⊎ ((after : Network) × (happen_all failing two_cons ≡ ok after)
        × (some_fails_behind failing two_cons ≡ false)
        × Runs after
        × (run_orphan after ≡ ok after))
no_orphan_example =
    no_orphan two_cons failing two_cons-Runs refl ((λ e. cc), (tt, ((λ e. cc), tt))) (omega arith)

close_dangles_example :
    run_orphan (record two_cons { connections = attached 1 ∷ []; orphans = 1 })
    ≡ undefined_behaviour
close_dangles_example =
    close_dangles two_cons (record two_cons { connections = attached 1 ∷ []; orphans = 1 })
      (record two_cons { connections = attached 1 ∷ []; orphans = 1 }) (attached 0)
      (attached 1 ∷ []) two_cons-Runs refl
      (close_connection_lem 0 two_cons (attached 0) (attached 0) (attached 1 ∷ []) two_cons-IsValid
        refl refl refl refl)
      here

-- A handler on the second of two threads holds the network when the program drops it.
destruction_example :
    let before = locks 1 ∷ [] in
    let after = releases 1 ∷ [] in
    let pool : List ℕ = 0 ∷ 1 ∷ [] in
    let held = (Owners.run before (Owners.start pool)).holders in
    let final = Owners.run (before ++ (drops ∷ after)) (Owners.start pool) in
    ((held ≡ []) × (final.ended ≡ some joined))
    ⊎ ((held ≢ [])
        × (((final.holders ≢ []) × (final.ended ≡ none))
            ⊎ ((final.holders ≡ []) × (final.ended ≡ some terminated))))
unfolding Owners.holds
destruction_example = destruction (0 ∷ 1 ∷ []) (locks 1 ∷ []) (releases 1 ∷ []) (refl, tt) (tt, tt)
