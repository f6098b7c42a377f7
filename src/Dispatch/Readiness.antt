-- ===== src/Dispatch/Readiness.antt =====
-- Listeners and the receivers of a dispatcher, and what holds in every state it can reach.
use holder.Prelude.{
  ℕ, zero, suc, ◌-◌, ◌≡◌, ◌⊎◌, refl, List, [], ◌∷◌, none, some, inl, inr, length, lookup,
  lookup-emplace, lookup-erase, nat_beq, ltb, if◌then◌else◌, nat_eq, arith, Option-cases,
  Bool-cases,
}
use holder.Dispatch.{
  MessageEnvelope, CreateReceiverEnvelope, Receiver, Event, sent, delivered, lost, receiver_ready,
  signalled, Dispatcher, DispatcherCall, send, create, remove, new_dispatcher, perform, perform_all,
  split_back, notify, take_queues, register, act_message, act_create, act_remove, process_creates,
  process_removes, process_one, process_queue, process_requests, process_messages, limit,
}
use holder.Dispatch.Posting.{sents, handled}
use holder.Dispatch.Queues.{IsQueued, perform-IsQueued}
use holder.Dispatch.Delivery.{process_messages-IsQueued}

-- The receiver's listener was told that it is ready, among events of which the latest is the first.
abbrev pub WasReady : Receiver → List Event → Type 0
WasReady r [] = ⊥
WasReady r (sent m ∷ es) = WasReady r es
WasReady r (delivered s m ∷ es) = WasReady r es
WasReady r (lost m ∷ es) = WasReady r es
WasReady r (receiver_ready e ∷ es) =
    ((e.receiver_id ≡ r.id) × (e.dispatch_id ≡ r.dispatch_id) × (e.p_listener ≡ r.p_listener))
    ⊎ WasReady r es
WasReady r (signalled ∷ es) = WasReady r es

-- Each message is delivered to the receiver that it names, after its listener was told.
abbrev pub InTurn : List Event → Type 0
InTurn [] = Unit {0}
InTurn (sent m ∷ es) = InTurn es
InTurn (delivered r m ∷ es) = (r.id ≡ m.receiver_id) × WasReady r es × InTurn es
InTurn (lost m ∷ es) = InTurn es
InTurn (receiver_ready e ∷ es) = InTurn es
InTurn (signalled ∷ es) = InTurn es

pub record IsReady (d : Dispatcher) : Type 0 where
  pub in_turn : InTurn d.events
  pub registered :
      (id : ℕ) (r : Receiver)
      → lookup id d.receiver_map ≡ some r
      → (r.id ≡ id) × WasReady r d.events

perform-IsReady : (c : DispatcherCall) (d : Dispatcher) → IsReady d → IsReady (perform c d)
unfolding perform
perform-IsReady (send rcvr_id p_message) d v = record {
  in_turn = v.in_turn;
  registered = λ id r h. v.registered id r h;
}
perform-IsReady (create none dispatch_id) d v = v
perform-IsReady (create (some l) dispatch_id) d v = record {
  in_turn = v.in_turn;
  registered = λ id r h. v.registered id r h;
}
perform-IsReady (remove rcv_id) d v = record {
  in_turn = v.in_turn;
  registered = λ id r h. v.registered id r h;
}

perform_all-IsReady :
    (cs : List DispatcherCall) (d : Dispatcher) → IsReady d → IsReady (perform_all cs d)
unfolding perform_all
perform_all-IsReady [] d v = v
perform_all-IsReady (c ∷ cs) d v = perform_all-IsReady cs (perform c d) (perform-IsReady c d v)

module _ (react : List Event → List DispatcherCall) where
  notify-IsReady :
      (event : Event) (d : Dispatcher)
      → IsReady (record d { events = event ∷ d.events })
      → IsReady (notify react event d)
  unfolding notify
  notify-IsReady event d v =
      perform_all-IsReady (react (event ∷ d.events)) (record d { events = event ∷ d.events }) v

  act_message-IsReady :
      (m : MessageEnvelope) (d : Dispatcher) → IsReady d → IsReady (act_message react m d)
  unfolding act_message
  act_message-IsReady m d v = elim (Option-cases (lookup m.receiver_id d.receiver_map)) [
    | inl e ↦
        rw (e, act_message)
          (record { in_turn = v.in_turn; registered = λ id r h. v.registered id r h })
    | inr (r, e) ↦
        let (is, was) = v.registered m.receiver_id r e in
        rw (e, act_message)
          (notify-IsReady (delivered r m) d
            (record { in_turn = (is, was, v.in_turn); registered = λ id r h. v.registered id r h }))
  ]

  act_create-IsReady :
      (e : CreateReceiverEnvelope) (d : Dispatcher) → IsReady d → IsReady (act_create react e d)
  unfolding act_create register
  act_create-IsReady e d v =
      notify-IsReady (receiver_ready e) (register e d)
        (record { in_turn = v.in_turn; registered = registered })
    where
      receiver : Receiver
      receiver = record {
        id = e.receiver_id;
        dispatch_id = e.dispatch_id;
        p_listener = e.p_listener;
      }

      registered :
          (id : ℕ) (r : Receiver)
          → lookup id (register e d).receiver_map ≡ some r
          → (r.id ≡ id) × WasReady r (receiver_ready e ∷ d.events)
      registered id r h = elim (Option-cases (lookup id d.receiver_map)) [
        | inl none_yet ↦
            let at : (if nat_beq e.receiver_id id then some receiver else none) ≡ some r =
              ground (arith, lookup-emplace e.receiver_id id receiver d.receiver_map) in
            (ground arith, inl (ground arith, ground arith, ground arith))
        | inr (s, there) ↦
            let same : s ≡ r =
              ground (arith, lookup-emplace e.receiver_id id receiver d.receiver_map) in
            let (is, was) = v.registered id r (rw there (rw same refl)) in (is, inr was)
      ]

  process_creates-IsReady :
      (fuel : ℕ) (d : Dispatcher) → IsReady d → IsReady (process_creates react fuel d)
  unfolding process_creates
  process_creates-IsReady zero d v = v
  process_creates-IsReady (suc fuel) d v = elim (Option-cases (split_back d.local_create_queue)) [
    | inl e ↦ rw (e, process_creates) v
    | inr ((rest, m), e) ↦
        let v' = act_create-IsReady m d v in
        rw (e, process_creates)
          (process_creates-IsReady fuel
            (record (act_create react m d) { local_create_queue = rest })
            (record { in_turn = v'.in_turn; registered = λ id r h. v'.registered id r h }))
  ]

  process_queue-IsReady :
      (fuel to_process : ℕ) (d : Dispatcher)
      → IsReady d
      → IsReady (process_queue react fuel to_process d)
  unfolding process_queue process_one
  process_queue-IsReady zero to_process d v = v
  process_queue-IsReady (suc fuel) to_process d v = elim (Option-cases (split_back d.local_queue)) [
    | inl e ↦ rw (e, process_queue) v
    | inr ((rest, m), e) ↦ elim (Bool-cases (ltb 0 to_process)) [
      | inl more ↦
          let v' = act_message-IsReady m d v in
          rw (e, process_queue)
            (rw more (
              process_queue-IsReady fuel (to_process - 1) (process_one react rest m d)
                (record { in_turn = v'.in_turn; registered = λ id r h. v'.registered id r h })))
      | inr full ↦ rw (e, process_queue) (rw full v)
    ]
  ]

process_removes-IsReady : (fuel : ℕ) (d : Dispatcher) → IsReady d → IsReady (process_removes fuel d)
unfolding process_removes act_remove
process_removes-IsReady zero d v = v
process_removes-IsReady (suc fuel) d v = elim (Option-cases (split_back d.local_remove_queue)) [
  | inl e ↦ rw (e, process_removes) v
  | inr ((rest, id), e) ↦
      rw (e, process_removes)
        (process_removes-IsReady fuel (record (act_remove id d) { local_remove_queue = rest })
          (record {
            in_turn = v.in_turn;
            registered =
                λ j r h. v.registered j r (ground (arith, h, lookup-erase id j d.receiver_map));
          }))
]

take_queues-IsReady : (d : Dispatcher) → IsReady d → IsReady (take_queues d)
unfolding take_queues
take_queues-IsReady d v = by_local d.local_queue refl
  where
    by_local : (ms : List MessageEnvelope) → d.local_queue ≡ ms → IsReady (take_queues d)
    by_local [] e =
        rw e (record { in_turn = v.in_turn; registered = λ id r h. v.registered id r h })
    by_local (m ∷ ms) e =
        rw e (record { in_turn = v.in_turn; registered = λ id r h. v.registered id r h })

process_messages-IsReady :
    (react : List Event → List DispatcherCall) (to_process : ℕ) (d : Dispatcher)
    → IsReady d
    → IsReady (process_messages react to_process d).1
unfolding process_messages process_requests
process_messages-IsReady react to_process d v =
    let d1 = take_queues d in
    let d2 = process_creates react (length d1.local_create_queue) d1 in
    let d3 = process_requests react d in
    process_queue-IsReady react (length d3.local_queue) (limit to_process) d3 (
      process_removes-IsReady (length d2.local_remove_queue) d2
        (process_creates-IsReady react (length d1.local_create_queue) d1 (take_queues-IsReady d v)))

-- The states that calls, from any thread, and runs of ProcessMessages lead to.
pub data Reachable (react : List Event → List DispatcherCall) : Dispatcher → Type 0 where
  start : Reachable react new_dispatcher
  called : {d : Dispatcher} (c : DispatcherCall) → Reachable react d → Reachable react (perform c d)
  processed :
      {d : Dispatcher} (to_process : ℕ)
      → Reachable react d
      → Reachable react (process_messages react to_process d).1

-- In every state that calls and runs of ProcessMessages lead to, whatever listeners do when they are
-- called, the messages handled, taken over and queued are, in this order, the messages sent, and the
-- counter is the number of those not handled, modulo 2^64; and each message that was delivered went
-- to the receiver that it names, whose listener had been told before that it is ready.
pub Reachable-IsQueued :
    {react : List Event → List DispatcherCall} {d : Dispatcher}
    → Reachable react d
    → IsQueued d × IsReady d
unfolding new_dispatcher lookup sents handled
Reachable-IsQueued start = (
  record { in_order = refl; counted = omega arith },
  record { in_turn = tt; registered = λ id r h. absurd (ground arith) },
)
Reachable-IsQueued (called {d} c reached) =
    let (v, w) = Reachable-IsQueued reached in (perform-IsQueued c d v, perform-IsReady c d w)
Reachable-IsQueued {react} (processed {d} to_process reached) =
    let (v, w) = Reachable-IsQueued reached in
    (process_messages-IsQueued react to_process d v, process_messages-IsReady react to_process d w)
