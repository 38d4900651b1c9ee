-- ===== src/MsgRecPool.antt =====
-- volt_net/include/volt/net/messages/msg_rec_pool.hpp and volt_net/src/volt/net/messages/
-- msg_rec_pool.cpp: the messages received but not yet handed to the program. The handler is not
-- this file's code; its calls are recorded. `notify_listeners` looks at the queue without the lock,
-- so other threads may submit messages between its rounds: a list of such arrivals, one for each
-- round, is an argument.
pub mod Order
pub mod Races
use volt_net.Common.{
  ℕ, zero, suc, ◌+◌, if◌then◌else◌, length, flatten, Bool, true, false, not, Option, none, some,
  List, [], ◌∷◌, ◌++◌,
}
use volt_net.Defs.{Message}

-- Each queue's front is its list's head. `calls` are the calls of on_msg_received, oldest first.
pub record MsgRecPool : Type 0 where
  pub rec_msg_vec : List Message
  pub rec_msg_ids : List ℕ
  pub defer_msg_signal : Bool
  pub calls : List (ℕ × Message)

abbrev pub new_rec_pool : Bool → MsgRecPool
new_rec_pool defer = record {
  rec_msg_vec = [];
  rec_msg_ids = [];
  defer_msg_signal = defer;
  calls = [];
}

unfoldable pub on_msg_received : ℕ → Message → MsgRecPool → MsgRecPool
on_msg_received id msg p = record p { calls = p.calls ++ ((id, msg) ∷ []) }

unfoldable pub submit_message : ℕ → Message → MsgRecPool → MsgRecPool
unfolding on_msg_received
submit_message id msg p =
    if p.defer_msg_signal
    then record p {
      rec_msg_vec = p.rec_msg_vec ++ (msg ∷ []);
      rec_msg_ids = p.rec_msg_ids ++ (id ∷ []);
    }
    else on_msg_received id msg p

unfoldable pub submit_all : List (ℕ × Message) → MsgRecPool → MsgRecPool
submit_all [] p = p
submit_all ((id, msg) ∷ rest) p = submit_all rest (submit_message id msg p)

-- What the body of the loop does under the lock. `none` is front() or pop() on an empty queue,
-- which std::queue leaves undefined.
unfoldable pub take_front : MsgRecPool → Option ((ℕ × Message) × MsgRecPool)
take_front p = elim p.rec_msg_vec [
  | [] ↦ none
  | msg ∷ msgs ↦ elim p.rec_msg_ids [
    | [] ↦ none
    | id ∷ ids ↦ some ((id, msg), record p { rec_msg_vec = msgs; rec_msg_ids = ids })
  ]
]

abbrev pub is_empty {ℓ} : {A : Type ℓ} → List A → Bool
is_empty [] = true
is_empty (x ∷ xs) = false

-- `stuck` is none of the program's results: the model of the loop ran out of fuel.
pub data Notified : Type 0 where
  done : MsgRecPool → List (List (ℕ × Message)) → Notified
  undefined_behaviour : Notified
  stuck : Notified

abbrev first_arrivals : List (List (ℕ × Message)) → List (ℕ × Message)
first_arrivals [] = []
first_arrivals (a ∷ rest) = a

abbrev later_arrivals : List (List (ℕ × Message)) → List (List (ℕ × Message))
later_arrivals [] = []
later_arrivals (a ∷ rest) = rest

-- Before each test of the queue the next arrivals are submitted.
unfoldable pub notify_loop : ℕ → List (List (ℕ × Message)) → MsgRecPool → Notified
notify_loop zero arrivals p = stuck
notify_loop (suc fuel) arrivals p =
    let q = submit_all (first_arrivals arrivals) p in
    let round : Notified = elim (take_front q) [
      | none ↦ undefined_behaviour
      | some (front, rest) ↦
          notify_loop fuel (later_arrivals arrivals) (on_msg_received front.0 front.1 rest)
    ] in
    if is_empty q.rec_msg_vec then done q (later_arrivals arrivals) else round

-- Each round but the last takes one of the messages that are queued or arrive.
unfoldable pub notify_listeners : List (List (ℕ × Message)) → MsgRecPool → Notified
notify_listeners arrivals p =
    let looped = notify_loop (length p.rec_msg_vec + length (flatten arrivals) + 1) arrivals p in
    if not p.defer_msg_signal then done p arrivals else looped
