-- ===== src/Dispatch/Queues.antt =====
-- The queue of a dispatcher keeps the messages in the order of their sending.
use mathlib.Core.List.{append_assoc}
use mathlib.Core.Path.{subst}
use holder.Prelude.{
  ℕ, zero, suc, ◌+◌, ◌-◌, ◌%◌, ◌^◌, ◌≡◌, refl, ap, sym, ◌∙◌, List, [], ◌∷◌, ◌++◌, some, inl, inr,
  length, length-append, lookup, ltb, nat_eq, arith, Option-cases, Bool-cases,
}
use holder.Dispatch.{
  register, act_remove, MessageEnvelope, CreateReceiverEnvelope, Event, Dispatcher, DispatcherCall,
  perform, split_back, take_queues, process_one, act_message, act_create, process_creates,
  process_removes, process_queue, delivered, receiver_ready,
}
use holder.Dispatch.Posting.{sents, handled, Holds, perform-Holds, notify-Holds, split_back-eq_some}

-- The messages handled, those taken from the queue and those in the queue are, in this order, the
-- messages sent, and the counter says how many are not handled.
pub record IsQueued (d : Dispatcher) : Type 0 where
  pub in_order : sents d.events ≡ d.queue ++ (d.local_queue ++ handled d.events)
  pub counted : d.total_size ≡ (length d.queue + length d.local_queue) % 2 ^ 64

-- The messages that are sent and not handled.
abbrev pub pending : Dispatcher → ℕ
pending d = length d.queue + length d.local_queue

pub Holds-IsQueued :
    (d : Dispatcher) {base : List MessageEnvelope}
    → Holds base d.local_queue d.local_queue 0 d
    → IsQueued d
Holds-IsQueued d h = record {
  in_order = h.since ∙ ap (λ ms. d.queue ++ ms) h.before;
  counted = omega (arith, h.counted);
}

pub IsQueued-Holds :
    (d : Dispatcher)
    → IsQueued d
    → Holds (d.local_queue ++ handled d.events) d.local_queue d.local_queue 0 d
IsQueued-Holds d v = record {
  kept = refl;
  since = v.in_order;
  before = refl;
  counted = omega (arith, v.counted);
}

pub perform-IsQueued : (c : DispatcherCall) (d : Dispatcher) → IsQueued d → IsQueued (perform c d)
perform-IsQueued c d v =
    let h = perform-Holds c d (IsQueued-Holds d v) in
    Holds-IsQueued (perform c d)
      (subst (λ ms. Holds (d.local_queue ++ handled d.events) ms ms 0 (perform c d)) (sym h.kept) h)

-- Also what is sent meanwhile goes behind all that was sent before.
pub take_queues-Holds :
    (d : Dispatcher)
    → IsQueued d
    → d.local_queue ≡ []
    → Holds
        (sents d.events)
        (take_queues d).local_queue
        (take_queues d).local_queue
        0
        (take_queues d)
unfolding take_queues
take_queues-Holds d v e = rw e (record {
  kept = refl;
  since = refl;
  before = ground (arith, v.in_order);
  counted = ground (arith, v.counted);
})

pub take_queues-IsQueued : (d : Dispatcher) → IsQueued d → IsQueued (take_queues d)
unfolding take_queues
take_queues-IsQueued d v = by_local d.local_queue refl
  where
    by_local : (ms : List MessageEnvelope) → d.local_queue ≡ ms → IsQueued (take_queues d)
    by_local [] e =
        rw e (record { in_order = ground (arith, v.in_order); counted = ground (arith, v.counted) })
    by_local (m ∷ ms) e = rw e (record { in_order = v.in_order; counted = v.counted })

module _ (react : List Event → List DispatcherCall) {base : List MessageEnvelope} where
  act_message-Holds :
      (m : MessageEnvelope) (rest local : List MessageEnvelope) (d : Dispatcher)
      → Holds base local (rest ++ m ∷ []) 0 d
      → Holds base local rest 1 (act_message react m d)
  unfolding act_message sents handled
  act_message-Holds m rest local d h = elim (Option-cases (lookup m.receiver_id d.receiver_map)) [
    | inl e ↦
        rw (e, act_message)
          (record {
            kept = h.kept;
            since = h.since;
            before = h.before ∙ append_assoc rest (m ∷ []) (handled d.events);
            counted = omega (arith, h.counted, length-append rest (m ∷ []));
          })
    | inr (r, e) ↦
        rw (e, act_message)
          (notify-Holds react (delivered r m) d (record {
            kept = h.kept;
            since = h.since;
            before = h.before ∙ append_assoc rest (m ∷ []) (handled d.events);
            counted = omega (arith, h.counted, length-append rest (m ∷ []));
          }))
  ]

  module _ {local : List MessageEnvelope} where
    act_create-Holds :
        (e : CreateReceiverEnvelope) (d : Dispatcher)
        → Holds base local local 0 d
        → Holds base local local 0 (act_create react e d)
    unfolding act_create sents handled register
    act_create-Holds e d h =
        notify-Holds react (receiver_ready e) (register e d)
          (record { kept = h.kept; since = h.since; before = h.before; counted = h.counted })

    pub process_creates-Holds :
        (fuel : ℕ) (d : Dispatcher)
        → Holds base local local 0 d
        → Holds base local local 0 (process_creates react fuel d)
    unfolding process_creates
    process_creates-Holds zero d h = h
    process_creates-Holds (suc fuel) d h = elim (Option-cases (split_back d.local_create_queue)) [
      | inl e ↦ rw (e, process_creates) h
      | inr ((rest, m), e) ↦
          let h' = act_create-Holds m d h in
          rw (e, process_creates)
            (process_creates-Holds fuel
              (record (act_create react m d) { local_create_queue = rest })
              (record {
                kept = h'.kept;
                since = h'.since;
                before = h'.before;
                counted = h'.counted;
              }))
    ]

    pub process_removes-Holds :
        (fuel : ℕ) (d : Dispatcher)
        → Holds base local local 0 d
        → Holds base local local 0 (process_removes fuel d)
    unfolding process_removes act_remove
    process_removes-Holds zero d h = h
    process_removes-Holds (suc fuel) d h = elim (Option-cases (split_back d.local_remove_queue)) [
      | inl e ↦ rw (e, process_removes) h
      | inr ((rest, r), e) ↦
          rw (e, process_removes)
            (process_removes-Holds fuel (record (act_remove r d) { local_remove_queue = rest })
              (record { kept = h.kept; since = h.since; before = h.before; counted = h.counted }))
    ]

  process_one-Holds :
      (rest : List MessageEnvelope) (m : MessageEnvelope) (d : Dispatcher)
      → split_back d.local_queue ≡ some (rest, m)
      → Holds base d.local_queue d.local_queue 0 d
      → Holds base rest rest 0 (process_one react rest m d)
  unfolding process_one
  process_one-Holds rest m d e h =
      let all = split_back-eq_some d.local_queue e in
      let h' =
        act_message-Holds m rest d.local_queue d
          (subst (λ ms. Holds base d.local_queue ms 0 d) all h) in
      record {
        kept = refl;
        since = h'.since;
        before = h'.before;
        counted = ground (arith, h'.counted);
      }

  pub process_queue-Holds :
      (fuel to_process : ℕ) (d : Dispatcher)
      → Holds base d.local_queue d.local_queue 0 d
      → let d' = process_queue react fuel to_process d in
        Holds base d'.local_queue d'.local_queue 0 d'
  unfolding process_queue process_one
  process_queue-Holds zero to_process d h = h
  process_queue-Holds (suc fuel) to_process d h = elim (Option-cases (split_back d.local_queue)) [
    | inl e ↦ rw (e, process_queue) h
    | inr ((rest, m), e) ↦ elim (Bool-cases (ltb 0 to_process)) [
      | inl more ↦
          rw (e, process_queue)
            (rw more (
              process_queue-Holds fuel (to_process - 1) (process_one react rest m d)
                (process_one-Holds rest m d e h)))
      | inr full ↦ rw (e, process_queue) (rw full h)
    ]
  ]
