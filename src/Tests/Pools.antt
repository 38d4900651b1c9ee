-- ===== src/Tests/Pools.antt =====
-- The two pools of messages, and the listener.
use volt_net.Common.{ℕ, ◌≡◌, refl, true, false, none, some, List, [], ◌∷◌, ◌++◌}
use volt_net.Defs.{Message}
use volt_net.MsgPool.{Vector, empty_pool, get_message, Use, get, write_to, drop_at, use_all}
use volt_net.MsgPool.Aliasing.{times, get_message_unshared}
use volt_net.MsgPool.Bounds.{IsValid, use_all-IsValid}
use volt_net.MsgRecPool.{MsgRecPool, notify_listeners}
use volt_net.MsgRecPool.Order.{Drained, notify_listeners-Drained}
use volt_net.MsgRecPool.Races.{
  messages, Threads, testing, returned, first_moves, second_moves, submits, run, run_alone,
  run_race,
}
use volt_net.Listener.{new_listener, Event, done_v4, done_v6, close, handle_events}
use volt_net.Listener.Accepting.{handle_events_new_cons}

-- A message is written into, dropped, and taken again.
abbrev reuse : List Use
reuse = get ∷ write_to 0 (1 ∷ 2 ∷ []) ∷ drop_at 0 ∷ []

use_all-IsValid_example : IsValid (use_all empty_pool reuse)
use_all-IsValid_example = use_all-IsValid reuse

get_message_unshared_example :
    let p = use_all empty_pool reuse in
    (v : Vector) × ((get_message p).held ≡ v ∷ p.held)
    × (v.content ≡ [])
    × (times v.address p.held ≡ 0)
    × (times v.address (get_message p).msg_vec ≡ 0)
get_message_unshared_example = get_message_unshared reuse

abbrev waiting : MsgRecPool
waiting = record {
  rec_msg_vec = (1 ∷ []) ∷ [];
  rec_msg_ids = 4 ∷ [];
  defer_msg_signal = true;
  calls = [];
}

-- One message waits, and two come in while the first is handed over.
abbrev late : List (List (ℕ × Message))
late = [] ∷ ((5, 2 ∷ []) ∷ (4, 3 ∷ []) ∷ []) ∷ []

notify_listeners-Drained_example : Drained waiting late (notify_listeners late waiting)
notify_listeners-Drained_example = notify_listeners-Drained late waiting refl refl

run_alone_example :
    (t : Threads) × (run
        (first_moves ∷ submits 5 (7 ∷ []) ∷ first_moves ∷ [])
        (record { first = testing; second = returned; pool = waiting })
      ≡ some t)
    × (messages t.pool ≡ messages waiting ++ ((5, 7 ∷ []) ∷ []))
run_alone_example =
    run_alone (first_moves ∷ submits 5 (7 ∷ []) ∷ first_moves ∷ []) waiting refl refl

run_race_example :
    run
      (first_moves ∷ second_moves ∷ first_moves ∷ second_moves ∷ [])
      (record { first = testing; second = testing; pool = waiting })
    ≡ none
run_race_example = run_race waiting 4 (1 ∷ []) refl refl

-- A socket on each port, a failed accept, and an accept that ends after the listener was closed.
abbrev history : List Event
history = done_v4 false 1 ∷ done_v6 false 2 ∷ done_v4 true 3 ∷ close ∷ done_v6 false 4 ∷ []

handle_events_new_cons_example :
    (handle_events (new_listener true true) history).new_cons ≡ 1 ∷ 2 ∷ []
handle_events_new_cons_example = handle_events_new_cons true true history
