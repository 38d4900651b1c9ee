-- ===== src/MsgRecPool/Races.antt =====
-- Several threads in msg_rec_pool::notify_listeners at once: the test of the queue and the taking
-- of its front are two steps, and only the second holds the lock.
use volt_net.Common.{
  ℕ, ◌<◌, ◌≡◌, refl, sym, ap, ◌∙◌, if_true, append_assoc, append-nil, length-append, true, length,
  Option, none, some, List, [], ◌∷◌, ◌++◌, ◌>>=◌, if◌then◌else◌, arith,
}
use volt_net.Defs.{Message}
use volt_net.MsgRecPool.{MsgRecPool, take_front, on_msg_received, submit_message, is_empty}
use volt_net.MsgRecPool.Order.{SameSize, queued, submit_message_lem}

-- Where a thread stands: before the test, behind a test that found a message, or returned.
pub data Phase : Type 0 where
  testing taking returned : Phase

-- One step of a thread; `none` is the use of an empty queue's front.
unfoldable pub thread_step : Phase → MsgRecPool → Option (Phase × MsgRecPool)
thread_step testing p = if is_empty p.rec_msg_vec then some (returned, p) else some (taking, p)
thread_step taking p = do
  (front, rest) ← take_front p
  some (testing, on_msg_received front.0 front.1 rest)
thread_step returned p = some (returned, p)

pub record Threads : Type 0 where
  pub first : Phase
  pub second : Phase
  pub pool : MsgRecPool

-- Who moves next: one of the two threads, or a thread that submits a message.
pub data Move : Type 0 where
  first_moves second_moves : Move
  submits : ℕ → Message → Move

unfoldable pub move : Move → Threads → Option Threads
unfolding thread_step
move first_moves t = do
  (phase, pool) ← thread_step t.first t.pool
  some (record t { first = phase; pool = pool })
move second_moves t = do
  (phase, pool) ← thread_step t.second t.pool
  some (record t { second = phase; pool = pool })
move (submits id msg) t = some (record t { pool = submit_message id msg t.pool })

unfoldable pub run : List Move → Threads → Option Threads
run [] t = some t
run (m ∷ ms) t = do t' ← move m t; run ms t'

-- A thread behind its test finds a message.
abbrev Finds : Phase → MsgRecPool → Type 0
Finds phase p = phase ≡ taking → 0 < length p.rec_msg_vec

abbrev CanStep : Phase → MsgRecPool → Type 0
CanStep phase p =
    (phase' : Phase) × (p' : MsgRecPool) × (thread_step phase p ≡ some (phase', p'))
    × SameSize p'
    × Finds phase' p'
    × (p'.defer_msg_signal ≡ true)
    × (p'.calls ++ queued p' ≡ p.calls ++ queued p)

taking_step :
    (p : MsgRecPool) (ids : List ℕ) (msgs : List Message)
    → p.rec_msg_ids ≡ ids
    → p.rec_msg_vec ≡ msgs
    → SameSize p
    → 0 < length p.rec_msg_vec
    → p.defer_msg_signal ≡ true
    → CanStep taking p
unfolding thread_step take_front on_msg_received
taking_step p ids [] ei em same found defers = absurd (omega (arith, ap length em))
taking_step p [] (m ∷ ms) ei em same found defers =
    absurd (omega (arith, same, ap length ei, ap length em))
taking_step p (i ∷ is) (m ∷ ms) ei em same found defers = (
  testing,
  record p { rec_msg_vec = ms; rec_msg_ids = is; calls = p.calls ++ ((i, m) ∷ []) },
  rw (em, ei),
  omega (arith, same, ap length ei, ap length em),
  λ e. cc,
  defers,
  append_assoc p.calls ((i, m) ∷ []) _ ∙ ap (◌++◌ p.calls) (rw (ei, em)),
)

thread_step-CanStep :
    (phase : Phase) (p : MsgRecPool)
    → SameSize p
    → Finds phase p
    → p.defer_msg_signal ≡ true
    → CanStep phase p
thread_step-CanStep testing p same found defers = test p.rec_msg_vec refl
  where
    test : (msgs : List Message) → p.rec_msg_vec ≡ msgs → CanStep testing p
    test [] em = (returned, p, unfold thread_step in ground arith, same, (λ e. cc), defers, refl)
    test (m ∷ ms) em = (
      taking,
      p,
      unfold thread_step in ground arith,
      same,
      (λ e. omega (arith, ap length em)),
      defers,
      refl,
    )
thread_step-CanStep taking p same found defers =
    taking_step p p.rec_msg_ids p.rec_msg_vec refl refl same (found refl) defers
thread_step-CanStep returned p same found defers =
    (returned, p, unfold thread_step in refl, same, (λ e. cc), defers, refl)

idle_step :
    (t : Threads)
    → t.second ≡ returned
    → move second_moves t ≡ some (record t { second = returned })
unfolding move thread_step
idle_step t e = ground arith

-- The messages that are submitted, oldest first.
abbrev pub submitted : List Move → List (ℕ × Message)
submitted [] = []
submitted (first_moves ∷ ms) = submitted ms
submitted (second_moves ∷ ms) = submitted ms
submitted (submits id msg ∷ ms) = (id, msg) ∷ submitted ms

-- What was handed over, and behind it what waits.
abbrev pub messages : MsgRecPool → List (ℕ × Message)
messages p = p.calls ++ queued p

submit-messages :
    (id : ℕ) (msg : Message) (p : MsgRecPool)
    → SameSize p
    → p.defer_msg_signal ≡ true
    → messages (submit_message id msg p) ≡ messages p ++ ((id, msg) ∷ [])
submit-messages id msg p same defers =
    let (sizes, waiting, calls) = submit_message_lem p id msg same in
    ap (λ made. made ++ queued (submit_message id msg p)) (calls ∙ if_true _ _ defers)
    ∙ ap (◌++◌ p.calls) (waiting ∙ if_true _ _ defers)
    ∙ sym (append_assoc p.calls (queued p) ((id, msg) ∷ []))

run_from_alone :
    (ms : List Move) (t : Threads)
    → SameSize t.pool
    → Finds t.first t.pool
    → t.second ≡ returned
    → t.pool.defer_msg_signal ≡ true
    → (t' : Threads) × (run ms t ≡ some t') × (messages t'.pool ≡ messages t.pool ++ submitted ms)
unfolding run move
run_from_alone [] t same found alone defers = (t, refl, sym (append-nil (messages t.pool)))
run_from_alone (first_moves ∷ ms) t same found alone defers =
    let (phase, pool, eq, same', found', defers', kept) =
      thread_step-CanStep t.first t.pool same found defers in
    let (t', eq', all) =
      run_from_alone ms (record t { first = phase; pool = pool }) same' found' alone defers' in
    (t', rw eq eq', all ∙ ap (λ l. l ++ submitted ms) kept)
run_from_alone (second_moves ∷ ms) t same found alone defers =
    let (t', eq', all) =
      run_from_alone ms (record t { second = returned }) same found refl defers in
    (t', ap (λ o. o >>= run ms) (idle_step t alone) ∙ eq', all)
run_from_alone (submits id msg ∷ ms) t same found alone defers =
    let (t', eq, all) =
      run_from_alone ms (record t { pool = submit_message id msg t.pool })
        (submit_message_lem t.pool id msg same).0
        (λ e.
          unfold submit_message in
          ground (arith, found e, length-append t.pool.rec_msg_vec (msg ∷ [])))
        alone (unfold submit_message in ground arith) in
    (
      t',
      eq,
      all
          ∙ ap (λ l. l ++ submitted ms) (submit-messages id msg t.pool same defers)
          ∙ append_assoc (messages t.pool) ((id, msg) ∷ []) (submitted ms),
    )

-- A pool that defers and whose queues have the same size, one thread that drains it, and any number
-- that submit: whatever the order of their steps, the front of an empty queue is never used, and the
-- pool is a queue at any time: what was handed over, and behind it what waits, is what was there at
-- the start and behind it what was submitted since, in order and each message once.
pub run_alone :
    (ms : List Move) (p : MsgRecPool)
    → SameSize p
    → p.defer_msg_signal ≡ true
    → (t : Threads) × (run ms (record { first = testing; second = returned; pool = p }) ≡ some t)
      × (messages t.pool ≡ messages p ++ submitted ms)
run_alone ms p same defers =
    run_from_alone ms (record { first = testing; second = returned; pool = p }) same (λ e. cc) refl
      defers

-- Two threads that drain a queue of one message: if both test before either takes, the second uses
-- the front of an empty queue.
pub run_race :
    (p : MsgRecPool) (id : ℕ) (msg : Message)
    → p.rec_msg_ids ≡ id ∷ []
    → p.rec_msg_vec ≡ msg ∷ []
    → run
        (first_moves ∷ second_moves ∷ first_moves ∷ second_moves ∷ [])
        (record { first = testing; second = testing; pool = p })
      ≡ none
unfolding run move thread_step take_front on_msg_received
run_race p id msg ei em = rw (em, ei)
