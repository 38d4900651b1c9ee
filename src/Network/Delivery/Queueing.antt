-- ===== src/Network/Delivery/Queueing.antt =====
-- The way of a message through the handler that network::add_connection gives to a connection, the
-- pool of received messages and network::process_new_msgs.
use volt_net.Common.{
  ℕ, ◌≡◌, refl, sym, ap, ◌∙◌, if◌then◌else◌, if_true, if_false, Bool-cases, inl, inr, drop-length,
  length, flatten, drop, drop-append_length, true, false, not, List, [], ◌∷◌, ◌++◌, append_assoc,
  append-nil, arith,
}
use volt_net.Defs.{Message}
use volt_net.MsgRecPool.{MsgRecPool, done, submit_message, on_msg_received, notify_listeners}
use volt_net.MsgRecPool.Order.{SameSize, queued, submit_message_lem, notify_listeners-Drained}
use volt_net.Network.{Network, ok, on_new_msg, process_new_msgs}
use volt_net.Network.Messages.{on_new_msg_direct, on_new_msg_deferred}
use volt_net.Network.Traffic.{submit_calls}

-- A network with a handler for messages and none for new connections. If it does not keep messages for
-- process_new_msgs, none waits. (What the handler itself calls of the network is not looked at: it calls
-- nothing that changes it.)
pub record Delivers (net : Network) : Type 0 where
  pub same_size : SameSize net.received_msgs
  pub waits : net.received_msgs.defer_msg_signal ≡ false → queued net.received_msgs ≡ []
  pub has_handler : net.has_new_msg_callback ≡ true
  pub quiet : net.has_new_connection_callback ≡ false

-- The messages that the program got, and those that wait for it.
abbrev pub messages : Network → List (ℕ × Message)
messages net = net.read_calls ++ queued net.received_msgs

-- What no event of a running network changes.
abbrev pub SameRest : Network → Network → Type 0
SameRest net after =
    (after.running ≡ net.running)
    × (after.has_closed_connection_callback ≡ net.has_closed_connection_callback)
    × (after.orphans ≡ net.orphans)

-- The messages that one network has beyond another, and what stays the same.
pub record Added (net : Network) (new : List (ℕ × Message)) (after : Network) : Type 0 where
  pub same_cons : after.connections ≡ net.connections
  pub same_next : after.next_id ≡ net.next_id
  pub still : Delivers after
  pub rest : SameRest net after
  pub all : messages after ≡ messages net ++ new

submit_message-defers :
    (id : ℕ) (msg : Message) (p : MsgRecPool)
    → (submit_message id msg p).defer_msg_signal ≡ p.defer_msg_signal
unfolding submit_message on_msg_received
submit_message-defers id msg p = ground arith

queued-on_new_msg :
    (id : ℕ) (msg : Message) (net : Network)
    → Delivers net
    → net.received_msgs.defer_msg_signal ≡ false
    → queued (on_new_msg id msg net).received_msgs ≡ []
unfolding on_new_msg
queued-on_new_msg id msg net v direct =
    (submit_message_lem net.received_msgs id msg v.same_size).1
    ∙ if_false _ _ direct
    ∙ v.waits direct

on_new_msg-messages :
    (id : ℕ) (msg : Message) (net : Network)
    → Delivers net
    → messages (on_new_msg id msg net) ≡ messages net ++ ((id, msg) ∷ [])
on_new_msg-messages id msg net v = elim (Bool-cases net.received_msgs.defer_msg_signal) [
  | inl defers ↦
      let (waiting, calls) = on_new_msg_deferred id msg net v.same_size defers in
      ap (λ made. made ++ queued (on_new_msg id msg net).received_msgs) calls
      ∙ ap (◌++◌ net.read_calls) waiting
      ∙ sym (append_assoc net.read_calls (queued net.received_msgs) ((id, msg) ∷ []))
  | inr direct ↦
      ap (◌++◌ (on_new_msg id msg net).read_calls) (queued-on_new_msg id msg net v direct)
      ∙ append-nil _
      ∙ on_new_msg_direct id msg net v.same_size direct v.has_handler
      ∙ ap (λ l. l ++ ((id, msg) ∷ []))
          (sym (ap (◌++◌ net.read_calls) (v.waits direct) ∙ append-nil net.read_calls))
]

on_new_msg-Added :
    (id : ℕ) (msg : Message) (net : Network)
    → Delivers net
    → Added net ((id, msg) ∷ []) (on_new_msg id msg net)
unfolding on_new_msg submit_message on_msg_received
on_new_msg-Added id msg net v = record {
  same_cons = refl;
  rest = (refl, refl, refl);
  same_next = refl;
  still = record {
    same_size = (submit_message_lem net.received_msgs id msg v.same_size).0;
    waits = λ e.
        queued-on_new_msg id msg net v (sym (submit_message-defers id msg net.received_msgs) ∙ e);
    has_handler = v.has_handler;
    quiet = v.quiet;
  };
  all = on_new_msg-messages id msg net v;
}

pub submit_calls-Added :
    (new : List (ℕ × Message)) (net : Network) → Delivers net → Added net new (submit_calls new net)
unfolding submit_calls
submit_calls-Added [] net v = record {
  same_cons = refl;
  same_next = refl;
  still = v;
  rest = (refl, refl, refl);
  all = sym (append-nil _);
}
submit_calls-Added ((id, msg) ∷ rest) net v =
    let a = on_new_msg-Added id msg net v in
    let b = submit_calls-Added rest (on_new_msg id msg net) a.still in
    record {
      same_cons = b.same_cons ∙ a.same_cons;
      same_next = b.same_next ∙ a.same_next;
      still = b.still;
      rest = (b.rest.0 ∙ a.rest.0, b.rest.1 ∙ a.rest.1, b.rest.2 ∙ a.rest.2);
      all = b.all ∙ ap (λ l. l ++ rest) a.all ∙ append_assoc (messages net) ((id, msg) ∷ []) rest;
    }

process_deferred :
    (net : Network)
    → Delivers net
    → net.received_msgs.defer_msg_signal ≡ true
    → (after : Network) × (process_new_msgs [] net ≡ ok after)
      × Added net [] after
      × (after.read_calls ≡ messages net)
unfolding process_new_msgs
process_deferred net v defers =
    let d = notify_listeners-Drained [] net.received_msgs v.same_size defers in
    let called = drop (length net.received_msgs.calls) d.final.calls in
    let made : d.made ≡ queued net.received_msgs =
      sym (append-nil d.made)
      ∙ ap (λ left. d.made ++ flatten left) (sym (d.none_left refl))
      ∙ d.in_order
      ∙ append-nil _ in
    let handed : (if net.has_new_msg_callback then net.read_calls ++ called else net.read_calls)
        ≡ messages net =
      if_true _ _ v.has_handler
      ∙ ap (λ calls. net.read_calls ++ drop (length net.received_msgs.calls) calls) d.called
      ∙ ap (◌++◌ net.read_calls) (drop-append_length net.received_msgs.calls d.made ∙ made) in
    (
      record net {
        received_msgs = d.final;
        read_calls = if net.has_new_msg_callback then net.read_calls ++ called else net.read_calls;
      },
      rw (d.ended, process_new_msgs),
      record {
        same_cons = refl;
        same_next = refl;
        rest = (refl, refl, refl);
        still = record {
          same_size = ap length d.no_id ∙ sym (ap length d.no_message);
          waits = λ e. rw d.no_id;
          has_handler = v.has_handler;
          quiet = v.quiet;
        };
        all = rw d.no_id (ap (λ l. l ++ []) handed);
      },
      handed,
    )

process_direct :
    (net : Network)
    → Delivers net
    → net.received_msgs.defer_msg_signal ≡ false
    → (after : Network) × (process_new_msgs [] net ≡ ok after)
      × Added net [] after
      × (after.read_calls ≡ messages net)
unfolding process_new_msgs notify_listeners
process_direct net v direct =
    let stop : notify_listeners [] net.received_msgs ≡ done net.received_msgs [] =
      if_true _ _ (ap not direct) in
    let called = drop (length net.received_msgs.calls) net.received_msgs.calls in
    let same : (if net.has_new_msg_callback then net.read_calls ++ called else net.read_calls)
        ≡ net.read_calls =
      if_true _ _ v.has_handler
      ∙ ap (◌++◌ net.read_calls) (drop-length net.received_msgs.calls)
      ∙ append-nil net.read_calls in
    (
      record net {
        read_calls = if net.has_new_msg_callback then net.read_calls ++ called else net.read_calls;
      },
      rw (stop, process_new_msgs),
      record {
        same_cons = refl;
        same_next = refl;
        rest = (refl, refl, refl);
        still = record {
          same_size = v.same_size;
          waits = v.waits;
          has_handler = v.has_handler;
          quiet = v.quiet;
        };
        all = ap (λ l. l ++ queued net.received_msgs) same ∙ sym (append-nil (messages net));
      },
      same ∙ sym (ap (◌++◌ net.read_calls) (v.waits direct) ∙ append-nil net.read_calls),
    )

-- When the program asks for its messages it gets all that wait.
pub process_new_msgs-Added :
    (net : Network)
    → Delivers net
    → (after : Network) × (process_new_msgs [] net ≡ ok after)
      × Added net [] after
      × (after.read_calls ≡ messages net)
process_new_msgs-Added net v = elim (Bool-cases net.received_msgs.defer_msg_signal) [
  | inl defers ↦ process_deferred net v defers
  | inr direct ↦ process_direct net v direct
]
