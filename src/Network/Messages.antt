-- ===== src/Network/Messages.antt =====
-- The messages of all connections, from the connection's handler to the program's.
use volt_net.Common.{
  ℕ, ◌≡◌, refl, ap, ◌∙◌, if◌then◌else◌, if_true, if_false, length, flatten, drop, drop-length,
  drop-append_length, Bool, true, false, List, [], ◌∷◌, ◌++◌, append-nil,
}
use volt_net.Defs.{Message}
use volt_net.MsgRecPool.Order.{SameSize, queued, submit_message_lem, notify_listeners-Drained}
use volt_net.Network.{Network, ok, on_new_msg, process_new_msgs}

-- A network that does not defer hands a message to the program as it comes in.
pub on_new_msg_direct :
    (id : ℕ) (msg : Message) (net : Network)
    → SameSize net.received_msgs
    → net.received_msgs.defer_msg_signal ≡ false
    → net.has_new_msg_callback ≡ true
    → (on_new_msg id msg net).read_calls ≡ net.read_calls ++ ((id, msg) ∷ [])
unfolding on_new_msg
on_new_msg_direct id msg net same direct set =
    let (sizes, waiting, calls) = submit_message_lem net.received_msgs id msg same in
    if_true _ _ set
    ∙ ap (λ made. net.read_calls ++ drop (length net.received_msgs.calls) made)
        (calls ∙ if_false _ _ direct)
    ∙ ap (◌++◌ net.read_calls) (drop-append_length net.received_msgs.calls _)

-- A network that defers keeps it, behind those that wait already.
pub on_new_msg_deferred :
    (id : ℕ) (msg : Message) (net : Network)
    → SameSize net.received_msgs
    → net.received_msgs.defer_msg_signal ≡ true
    → (queued (on_new_msg id msg net).received_msgs ≡ queued net.received_msgs ++ ((id, msg) ∷ []))
      × ((on_new_msg id msg net).read_calls ≡ net.read_calls)
unfolding on_new_msg
on_new_msg_deferred id msg net same defers =
    let (sizes, waiting, calls) = submit_message_lem net.received_msgs id msg same in
    (
      waiting ∙ if_true _ _ defers,
      ap
            (λ made.
              if net.has_new_msg_callback
              then net.read_calls ++ drop (length net.received_msgs.calls) made
              else net.read_calls)
            (calls ∙ if_true _ _ defers)
          ∙ unchanged net.has_new_msg_callback,
    )
  where
    unchanged :
        (b : Bool)
        → (if b
            then net.read_calls ++ drop (length net.received_msgs.calls) net.received_msgs.calls
            else net.read_calls)
          ≡ net.read_calls
    unchanged true = rw (drop-length net.received_msgs.calls) (append-nil net.read_calls)
    unchanged false = refl

-- A network that defers, with a handler for messages and queues of the same size: `process_new_msgs`
-- returns with an empty queue, and hands over the messages that waited and those that arrived
-- meanwhile, oldest first and each once; `left` are those that had not arrived when it returned.
pub process_new_msgs_lem :
    (arrivals : List (List (ℕ × Message))) (net : Network)
    → SameSize net.received_msgs
    → net.received_msgs.defer_msg_signal ≡ true
    → net.has_new_msg_callback ≡ true
    → (after : Network) × (left : List (List (ℕ × Message))) × (made : List (ℕ × Message))
      × (process_new_msgs arrivals net ≡ ok after)
      × (after.read_calls ≡ net.read_calls ++ made)
      × (made ++ flatten left ≡ queued net.received_msgs ++ flatten arrivals)
      × (queued after.received_msgs ≡ [])
unfolding process_new_msgs
process_new_msgs_lem arrivals net same defers set =
    let d = notify_listeners-Drained arrivals net.received_msgs same defers in
    let called = drop (length net.received_msgs.calls) d.final.calls in
    (
      record net {
        received_msgs = d.final;
        read_calls = if net.has_new_msg_callback then net.read_calls ++ called else net.read_calls;
      },
      d.left,
      d.made,
      rw (d.ended, process_new_msgs),
      if_true _ _ set
          ∙ ap (λ calls. net.read_calls ++ drop (length net.received_msgs.calls) calls) d.called
          ∙ ap (◌++◌ net.read_calls) (drop-append_length net.received_msgs.calls d.made),
      d.in_order,
      rw d.no_id,
    )
