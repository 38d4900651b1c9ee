-- ===== src/MsgRecPool/Order.antt =====
-- Messages reach the handler in the order in which they were submitted.
use volt_net.Common.{
  ℕ, zero, suc, ◌+◌, ◌<◌, ◌≡◌, refl, sym, ap, subst, ◌∙◌, if_true, if_false, Bool-cases, inl, inr,
  not, if◌then◌else◌, length, length-append, flatten, true, List, [], ◌∷◌, ◌++◌, append_assoc,
  append-nil, arith,
}
use volt_net.Defs.{Message}
use volt_net.MsgRecPool.{
  MsgRecPool, on_msg_received, submit_message, submit_all, take_front, Notified, done,
  first_arrivals, later_arrivals, notify_loop, notify_listeners,
}

-- The two queues side by side.
abbrev pub zip_queues : List ℕ → List Message → List (ℕ × Message)
zip_queues [] msgs = []
zip_queues (id ∷ ids) [] = []
zip_queues (id ∷ ids) (msg ∷ msgs) = (id, msg) ∷ zip_queues ids msgs

abbrev pub queued : MsgRecPool → List (ℕ × Message)
queued p = zip_queues p.rec_msg_ids p.rec_msg_vec

-- The source's assumption on the two queues.
abbrev pub SameSize : MsgRecPool → Type 0
SameSize p = length p.rec_msg_ids ≡ length p.rec_msg_vec

zip_queues-append :
    (ids : List ℕ) (msgs : List Message) (id : ℕ) (msg : Message)
    → length ids ≡ length msgs
    → zip_queues (ids ++ (id ∷ [])) (msgs ++ (msg ∷ [])) ≡ zip_queues ids msgs ++ ((id, msg) ∷ [])
zip_queues-append [] [] id msg e = refl
zip_queues-append [] (m ∷ ms) id msg e = absurd (omega arith)
zip_queues-append (i ∷ is) [] id msg e = absurd (omega arith)
zip_queues-append (i ∷ is) (m ∷ ms) id msg e =
    ap (◌∷◌ (i, m)) (zip_queues-append is ms id msg (omega arith))

-- What submitting to a deferring pool does.
record Submitted (p : MsgRecPool) (new : List (ℕ × Message)) (q : MsgRecPool) : Type 0 where
  same_size : SameSize q
  defers : q.defer_msg_signal ≡ true
  same_calls : q.calls ≡ p.calls
  longer : length q.rec_msg_vec ≡ length p.rec_msg_vec + length new
  behind : queued q ≡ queued p ++ new

submit_message-Submitted :
    (p : MsgRecPool) (id : ℕ) (msg : Message)
    → SameSize p
    → p.defer_msg_signal ≡ true
    → Submitted p ((id, msg) ∷ []) (submit_message id msg p)
unfolding submit_message
submit_message-Submitted p id msg same defers = rw defers record {
  same_size =
      omega (
        arith,
        length-append p.rec_msg_ids (id ∷ []),
        length-append p.rec_msg_vec (msg ∷ []),
        same,
      );
  defers = refl;
  same_calls = refl;
  longer = omega (arith, length-append p.rec_msg_vec (msg ∷ []));
  behind = zip_queues-append p.rec_msg_ids p.rec_msg_vec id msg same;
}

submit_all-Submitted :
    (new : List (ℕ × Message)) (p : MsgRecPool)
    → SameSize p
    → p.defer_msg_signal ≡ true
    → Submitted p new (submit_all new p)
unfolding submit_all
submit_all-Submitted [] p same defers = record {
  same_size = same;
  defers = defers;
  same_calls = refl;
  longer = omega arith;
  behind = sym (append-nil (queued p));
}
submit_all-Submitted ((id, msg) ∷ new) p same defers =
    let s = submit_message-Submitted p id msg same defers in
    let r = submit_all-Submitted new (submit_message id msg p) s.same_size s.defers in
    record {
      same_size = r.same_size;
      defers = r.defers;
      same_calls = r.same_calls ∙ s.same_calls;
      longer = omega (arith, r.longer, s.longer);
      behind =
          r.behind ∙ ap (λ l. l ++ new) s.behind ∙ append_assoc (queued p) ((id, msg) ∷ []) new;
    }

-- The loop ended and the queue is empty. `made` are the calls of the handler: every message that was
-- queued or arrived in time, once and in order; `left` is what had not arrived by then.
pub record Drained (p : MsgRecPool) (arrivals : List (List (ℕ × Message))) (result : Notified)
    : Type 0 where
  pub final : MsgRecPool
  pub left : List (List (ℕ × Message))
  pub ended : result ≡ done final left
  pub no_message : final.rec_msg_vec ≡ []
  pub no_id : final.rec_msg_ids ≡ []
  pub made : List (ℕ × Message)
  pub called : final.calls ≡ p.calls ++ made
  pub in_order : made ++ flatten left ≡ queued p ++ flatten arrivals
  pub defers_still : final.defer_msg_signal ≡ true
  pub none_left : arrivals ≡ [] → left ≡ []

flatten-arrivals :
    (arrivals : List (List (ℕ × Message)))
    → flatten arrivals ≡ first_arrivals arrivals ++ flatten (later_arrivals arrivals)
flatten-arrivals [] = refl
flatten-arrivals (a ∷ rest) = refl

-- A round that finds a message.
notify_loop_step :
    (fuel : ℕ) (arrivals : List (List (ℕ × Message))) (p : MsgRecPool) (id : ℕ) (msg : Message)
    (ids : List ℕ) (msgs : List Message)
    → let q = submit_all (first_arrivals arrivals) p in
      q.rec_msg_ids ≡ id ∷ ids
      → q.rec_msg_vec ≡ msg ∷ msgs
      → notify_loop (suc fuel) arrivals p
        ≡ notify_loop fuel (later_arrivals arrivals) (record q {
          rec_msg_vec = msgs;
          rec_msg_ids = ids;
          calls = q.calls ++ ((id, msg) ∷ []);
        })
unfolding notify_loop take_front on_msg_received
notify_loop_step fuel arrivals p id msg ids msgs ei em = rw (em, ei)

notify_loop_end :
    (fuel : ℕ) (arrivals : List (List (ℕ × Message))) (p : MsgRecPool)
    → let q = submit_all (first_arrivals arrivals) p in
      q.rec_msg_vec ≡ [] → notify_loop (suc fuel) arrivals p ≡ done q (later_arrivals arrivals)
unfolding notify_loop
notify_loop_end fuel arrivals p em = ground arith

notify_loop-Drained :
    (fuel : ℕ) (arrivals : List (List (ℕ × Message))) (p : MsgRecPool)
    → SameSize p
    → p.defer_msg_signal ≡ true
    → length p.rec_msg_vec + length (flatten arrivals) < fuel
    → Drained p arrivals (notify_loop fuel arrivals p)
notify_loop-Drained zero arrivals p same defers f = elim f [ ]
notify_loop-Drained (suc fuel) arrivals p same defers f =
    go q.rec_msg_ids q.rec_msg_vec refl refl
      (λ d same' defers' f'. notify_loop-Drained fuel (later_arrivals arrivals) d same' defers' f')
  where
    q : MsgRecPool
    q = submit_all (first_arrivals arrivals) p

    s : Submitted p (first_arrivals arrivals) q
    s = submit_all-Submitted (first_arrivals arrivals) p same defers

    fewer :
        length (flatten arrivals)
        ≡ length (first_arrivals arrivals) + length (flatten (later_arrivals arrivals))
    fewer = ap length (flatten-arrivals arrivals) ∙ length-append (first_arrivals arrivals) _

    ordered : queued p ++ flatten arrivals ≡ queued q ++ flatten (later_arrivals arrivals)
    ordered =
        ap (λ l. queued p ++ l) (flatten-arrivals arrivals)
        ∙ sym (append_assoc (queued p) (first_arrivals arrivals) _)
        ∙ ap (λ l. l ++ flatten (later_arrivals arrivals)) (sym s.behind)

    front_queued :
        {i : ℕ} {is : List ℕ} {m : Message} {ms : List Message}
        → q.rec_msg_ids ≡ i ∷ is
        → q.rec_msg_vec ≡ m ∷ ms
        → (i, m) ∷ (zip_queues is ms ++ flatten (later_arrivals arrivals))
          ≡ queued q ++ flatten (later_arrivals arrivals)
    front_queued ei em = rw (ei, em)

    go :
        (ids : List ℕ) (msgs : List Message)
        → q.rec_msg_ids ≡ ids
        → q.rec_msg_vec ≡ msgs
        → ((d : MsgRecPool)
            → SameSize d
            → d.defer_msg_signal ≡ true
            → length d.rec_msg_vec + length (flatten (later_arrivals arrivals)) < fuel
            → Drained d (later_arrivals arrivals) (notify_loop fuel (later_arrivals arrivals) d))
        → Drained p arrivals (notify_loop (suc fuel) arrivals p)
    go [] [] ei em rec = record {
      final = q;
      left = later_arrivals arrivals;
      ended = notify_loop_end fuel arrivals p em;
      no_message = em;
      no_id = ei;
      made = [];
      called = s.same_calls ∙ sym (append-nil p.calls);
      in_order = sym (ordered ∙ rw ei refl);
      defers_still = s.defers;
      none_left = ap later_arrivals;
    }
    go [] (m ∷ ms) ei em rec = absurd (omega (arith, s.same_size, ap length ei, ap length em))
    go (i ∷ is) [] ei em rec = absurd (omega (arith, s.same_size, ap length ei, ap length em))
    go (i ∷ is) (m ∷ ms) ei em rec =
        let d = record q { rec_msg_vec = ms; rec_msg_ids = is; calls = q.calls ++ ((i, m) ∷ []) } in
        let r =
          rec d (omega (arith, s.same_size, ap length ei, ap length em)) s.defers
            (omega (arith, s.longer, fewer, ap length em)) in
        record {
          final = r.final;
          left = r.left;
          ended = notify_loop_step fuel arrivals p i m is ms ei em ∙ r.ended;
          no_message = r.no_message;
          no_id = r.no_id;
          made = (i, m) ∷ r.made;
          called =
              r.called
              ∙ append_assoc q.calls ((i, m) ∷ []) r.made
              ∙ ap (λ calls. calls ++ ((i, m) ∷ r.made)) s.same_calls;
          in_order = ap (◌∷◌ (i, m)) r.in_order ∙ front_queued ei em ∙ sym ordered;
          defers_still = r.defers_still;
          none_left = λ e. r.none_left (ap later_arrivals e);
        }

-- A pool that defers and whose two queues have the same size: `notify_listeners` ends whatever
-- arrives meanwhile, with empty queues, never looks at the front of an empty queue, and hands over
-- the messages that waited and those that arrived in time, each once, in the order of submission.
pub notify_listeners-Drained :
    (arrivals : List (List (ℕ × Message))) (p : MsgRecPool)
    → SameSize p
    → p.defer_msg_signal ≡ true
    → Drained p arrivals (notify_listeners arrivals p)
unfolding notify_listeners
notify_listeners-Drained arrivals p same defers =
    subst (Drained p arrivals) (sym (if_false _ _ (ap not defers)))
      (notify_loop-Drained _ arrivals p same defers (omega arith))

-- Submitting keeps the two queues the same size; a pool that does not defer calls the handler at
-- once and queues nothing.
pub submit_message_lem :
    (p : MsgRecPool) (id : ℕ) (msg : Message)
    → SameSize p
    → SameSize (submit_message id msg p)
      × (queued (submit_message id msg p)
          ≡ (if p.defer_msg_signal then queued p ++ ((id, msg) ∷ []) else queued p))
      × ((submit_message id msg p).calls
          ≡ (if p.defer_msg_signal then p.calls else p.calls ++ ((id, msg) ∷ [])))
submit_message_lem p id msg same = elim (Bool-cases p.defer_msg_signal) [
  | inl defers ↦
      let s = submit_message-Submitted p id msg same defers in
      (s.same_size, s.behind ∙ sym (if_true _ _ defers), s.same_calls ∙ sym (if_true _ _ defers))
  | inr direct ↦ unfold submit_message on_msg_received in (ground arith, ground arith, ground arith)
]
