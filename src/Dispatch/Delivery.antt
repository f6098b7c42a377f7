-- ===== src/Dispatch/Delivery.antt =====
-- What ProcessMessages and Run of a dispatcher do with the messages.
use mathlib.Core.Path.{subst}
use holder.Prelude.{
  ℕ, zero, suc, ◌-◌, ◌^◌, ◌≤◌, ◌<◌, ◌≡◌, ◌↔◌, refl, ap, sym, ◌∙◌, List, [], ◌∷◌, ◌++◌, inl, inr,
  true, length, length-append, ltb, if◌then◌else◌, nat_eq, arith, Option-cases, Bool-cases,
}
use holder.Startup.Manager.{suspend, end}
use holder.Dispatch.{
  MessageEnvelope, Event, Dispatcher, DispatcherCall, split_back, take_queues, process_one,
  process_creates, process_queue, process_requests, process_messages, limit, MqdExecutor, run,
}
use holder.Dispatch.Posting.{sents, handled, Holds, split_back-eq_none, split_back-eq_some}
use holder.Dispatch.Queues.{
  process_creates-Holds, process_removes-Holds, IsQueued, pending, Holds-IsQueued, IsQueued-Holds,
  take_queues-Holds, take_queues-IsQueued, process_queue-Holds,
}

module _ (react : List Event → List DispatcherCall) where
  -- Fuel for all the messages, and no limit below their number: all are handled.
  process_queue_all :
      (fuel to_process : ℕ) (d : Dispatcher)
      → length d.local_queue ≤ fuel
      → length d.local_queue ≤ to_process
      → (process_queue react fuel to_process d).local_queue ≡ []
  unfolding process_queue process_one
  process_queue_all zero to_process d f l = ground arith
  process_queue_all (suc fuel) to_process d f l = elim (Option-cases (split_back d.local_queue)) [
    | inl e ↦ rw (e, process_queue) (split_back-eq_none d.local_queue e)
    | inr ((rest, m), e) ↦
        let all = ap length (split_back-eq_some d.local_queue e) ∙ length-append rest (m ∷ []) in
        let more : ltb 0 to_process ≡ true = ground (arith, all) in
        rw (e, process_queue)
          (rw more (
            process_queue_all fuel (to_process - 1) (process_one react rest m d)
              (omega (arith, all)) (omega (arith, all))))
  ]

module _ (react : List Event → List DispatcherCall) (d : Dispatcher)
    {base local : List MessageEnvelope} where
  process_requests-Holds :
      Holds base local local 0 (take_queues d) → Holds base local local 0 (process_requests react d)
  unfolding process_requests
  process_requests-Holds h =
      let d1 = take_queues d in
      let d2 = process_creates react (length d1.local_create_queue) d1 in
      process_removes-Holds react (length d2.local_remove_queue) d2
        (process_creates-Holds react (length d1.local_create_queue) d1 h)

  process_messages-Holds :
      (to_process : ℕ)
      → Holds base local local 0 (take_queues d)
      → let d' = (process_messages react to_process d).1 in
        Holds base d'.local_queue d'.local_queue 0 d'
  unfolding process_messages
  process_messages-Holds to_process h =
      let d1 = process_requests react d in
      let h1 = process_requests-Holds h in
      process_queue-Holds react (length d1.local_queue) (limit to_process) d1
        (subst (λ ms. Holds base ms ms 0 d1) (sym h1.kept) h1)

process_messages_all :
    (react : List Event → List DispatcherCall) (d : Dispatcher)
    → IsQueued d
    → pending d < 2 ^ 64
    → (process_messages react 0 d).1.local_queue ≡ []
unfolding process_messages limit take_queues
process_messages_all react d v few =
    let d1 = process_requests react d in
    let h =
      process_requests-Holds react d (IsQueued-Holds (take_queues d) (take_queues-IsQueued d v)) in
    let taken : length (take_queues d).local_queue < 2 ^ 64 = ground arith in
    process_queue_all react (length d1.local_queue) (limit 0) d1 (omega arith)
      (omega (arith, ap length h.kept, taken))

-- ProcessMessages keeps the queues of the dispatcher right, whatever listeners and other threads
-- call meanwhile and however many messages it may process: the messages handled, then those taken
-- over, then those in the queue are the messages sent in the order of their sending, and the counter
-- is the number of those that are not handled, modulo 2^64.
pub process_messages-IsQueued :
    (react : List Event → List DispatcherCall) (to_process : ℕ) (d : Dispatcher)
    → IsQueued d
    → IsQueued (process_messages react to_process d).1
process_messages-IsQueued react to_process d v =
    let d1 = take_queues d in
    Holds-IsQueued (process_messages react to_process d).1
      (process_messages-Holds react d to_process (IsQueued-Holds d1 (take_queues-IsQueued d v)))

process_messages-count :
    (react : List Event → List DispatcherCall) (to_process : ℕ) (d : Dispatcher)
    → let (msgs_remaining, d') = process_messages react to_process d in
      msgs_remaining ≡ d'.total_size
unfolding process_messages
process_messages-count react to_process d = refl

abbrev pub IsIdle : MqdExecutor → Type 0
IsIdle e = IsQueued e.dispatcher × (e.dispatcher.local_queue ≡ []) × (pending e.dispatcher < 2 ^ 64)

-- Run on a dispatcher whose queues are right, with no message left over from the run before and
-- fewer than 2^64 waiting, handles the messages that were sent before it, all of them and no others,
-- in the order of their sending, leaves none over for the next run, and keeps the queues right.
pub run-handled :
    (react : List Event → List DispatcherCall) (e : MqdExecutor)
    → IsIdle e
    → let d' = (run react e).1.dispatcher in
      (handled d'.events ≡ sents e.dispatcher.events) × (d'.local_queue ≡ []) × IsQueued d'
unfolding run
run-handled react e (v, idle, few) =
    let d = e.dispatcher in
    let d' = (process_messages react 0 d).1 in
    let h = process_messages-Holds react d 0 (take_queues-Holds d v idle) in
    let none_left = process_messages_all react d v few in
    (sym (h.before ∙ ap (λ ms. ms ++ handled d'.events) none_left), none_left, Holds-IsQueued d' h)

-- Run on such a dispatcher that nobody asked to end suspends the executor exactly when no message is
-- waiting after it, provided that fewer than 2^64 are; asked to end, it ends.
pub run-state :
    (react : List Event → List DispatcherCall) (e : MqdExecutor)
    → IsIdle e
    → pending (run react e).1.dispatcher < 2 ^ 64
    → let (state, e') = run react e in
      if e.end_requested then state ≡ end else ((state ≡ suspend) ↔ (pending e'.dispatcher ≡ 0))
unfolding run
run-state react e (v, idle, few) bound =
    let d' = (process_messages react 0 e.dispatcher).1 in
    let v' = process_messages-IsQueued react 0 e.dispatcher v in
    let all : d'.total_size ≡ pending d' = omega (arith, v'.counted) in
    elim (Bool-cases e.end_requested) [
      | inl asked ↦ rw asked refl
      | inr free ↦ rw free (
        λ h. ground (arith, all, process_messages-count react 0 e.dispatcher),
        λ h. ground (arith, all, process_messages-count react 0 e.dispatcher),
      )
    ]
