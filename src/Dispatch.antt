-- ===== src/Dispatch.antt =====
-- MessageDequeDispatcher (Holder/MessageDequeDispatcher.h and .cpp) and MQDExecutor
-- (Holder/MQDExecutor.h and .cpp). A deque is the list of its elements from the front on. Listeners
-- are client code: `react` answers with the calls that a listener makes on the dispatcher when it is
-- called, and that other threads make meanwhile, from all that the dispatcher has done until then,
-- the newest first. A listener throws nothing.
pub mod Posting
pub mod Queues
pub mod Delivery
pub mod Readiness
pub mod Tests
use holder.Prelude.{
  ℕ, zero, suc, ◌+◌, ◌-◌, ◌^◌, Bool, true, false, List, [], ◌∷◌, ◌++◌, Option, none, some, length,
  lookup, emplace, erase, nat_beq, ltb, if◌then◌else◌, inc_u32, inc_u64, dec_u64, nat_eq, ◌&&◌,
}
use holder.Startup.Manager.{ExecutionState, continue, suspend, end}
use holder.Execution.{exec_wildcard}

pub record MessageEnvelope : Type 0 where
  pub receiver_id : ℕ
  pub p_message : ℕ

pub record CreateReceiverEnvelope : Type 0 where
  pub receiver_id : ℕ
  pub p_listener : ℕ
  pub dispatch_id : ℕ

pub record Receiver : Type 0 where
  pub id : ℕ
  pub dispatch_id : ℕ
  pub p_listener : ℕ

-- What others see of the dispatcher.
pub data Event : Type 0 where
  sent : MessageEnvelope → Event
  delivered : Receiver → MessageEnvelope → Event
  lost : MessageEnvelope → Event
  receiver_ready : CreateReceiverEnvelope → Event
  signalled : Event

pub record Dispatcher : Type 0 where
  pub queue : List MessageEnvelope
  pub create_queue : List CreateReceiverEnvelope
  pub remove_queue : List ℕ
  pub total_size : ℕ
  pub local_queue : List MessageEnvelope
  pub local_create_queue : List CreateReceiverEnvelope
  pub local_remove_queue : List ℕ
  pub free_rcv_id : ℕ
  pub receiver_map : List (ℕ × Receiver)
  pub events : List Event

unfoldable pub new_dispatcher : Dispatcher
new_dispatcher = record {
  queue = [];
  create_queue = [];
  remove_queue = [];
  total_size = 0;
  local_queue = [];
  local_create_queue = [];
  local_remove_queue = [];
  free_rcv_id = 0;
  receiver_map = [];
  events = [];
}

-- DoSignal.
unfoldable pub do_signal : Dispatcher → Dispatcher
do_signal d = record d { events = signalled ∷ d.events }

unfoldable pub send_message : ℕ → ℕ → Dispatcher → Dispatcher
unfolding do_signal
send_message rcvr_id p_message d =
    let envelope : MessageEnvelope = record { receiver_id = rcvr_id; p_message = p_message } in
    do_signal (record d {
      total_size = inc_u64 d.total_size;
      queue = envelope ∷ d.queue;
      events = sent envelope ∷ d.events;
    })

-- A null listener throws before anything is changed.
unfoldable pub create_receiver : Option ℕ → ℕ → Dispatcher → Option (ℕ × Dispatcher)
unfolding do_signal
create_receiver none dispatch_id d = none
create_receiver (some p_listener) dispatch_id d = some (
  d.free_rcv_id,
  do_signal (record d {
    free_rcv_id = inc_u32 d.free_rcv_id;
    create_queue =
        record { receiver_id = d.free_rcv_id; p_listener = p_listener; dispatch_id = dispatch_id }
        ∷ d.create_queue;
  }),
)

unfoldable pub remove_receiver : ℕ → Dispatcher → Dispatcher
unfolding do_signal
remove_receiver rcv_id d = do_signal (record d { remove_queue = rcv_id ∷ d.remove_queue })

-- A call on the dispatcher, from a listener or from another thread.
pub data DispatcherCall : Type 0 where
  send : ℕ → ℕ → DispatcherCall
  create : Option ℕ → ℕ → DispatcherCall
  remove : ℕ → DispatcherCall

unfoldable pub perform : DispatcherCall → Dispatcher → Dispatcher
unfolding send_message create_receiver remove_receiver
perform (send rcvr_id p_message) d = send_message rcvr_id p_message d
perform (create p_listener dispatch_id) d = elim (create_receiver p_listener dispatch_id d) [
  | none ↦ d
  | some (id, d') ↦ d'
]
perform (remove rcv_id) d = remove_receiver rcv_id d

unfoldable pub perform_all : List DispatcherCall → Dispatcher → Dispatcher
perform_all [] d = d
perform_all (c ∷ cs) d = perform_all cs (perform c d)

-- `back()`, with what `pop_back()` leaves.
unfoldable pub split_back {ℓ} : {A : Type ℓ} → List A → Option (List A × A)
split_back [] = none
split_back (x ∷ xs) = elim (split_back xs) [
  | none ↦ some ([], x)
  | some (rest, last) ↦ some (x ∷ rest, last)
]

-- The first critical section of ProcessMessages.
unfoldable pub take_queues : Dispatcher → Dispatcher
take_queues d =
    let swapped : Dispatcher = elim d.local_queue [
      | [] ↦ record d { local_queue = d.queue; queue = [] }
      | _ ∷ _ ↦ d
    ] in
    record swapped {
      local_create_queue = d.create_queue;
      create_queue = d.local_create_queue;
      local_remove_queue = d.remove_queue;
      remove_queue = d.local_remove_queue;
    }

-- The receiver of a create request.
unfoldable pub register : CreateReceiverEnvelope → Dispatcher → Dispatcher
register envelope d = record d {
  receiver_map =
      emplace envelope.receiver_id
        (record {
          id = envelope.receiver_id;
          dispatch_id = envelope.dispatch_id;
          p_listener = envelope.p_listener;
        })
        d.receiver_map;
}

module _ (react : List Event → List DispatcherCall) where
  -- A listener is called.
  unfoldable pub notify : Event → Dispatcher → Dispatcher
  notify event d = perform_all (react (event ∷ d.events)) (record d { events = event ∷ d.events })

  -- MQDMessageEnvelope::Act.
  unfoldable pub act_message : MessageEnvelope → Dispatcher → Dispatcher
  act_message envelope d = elim (lookup envelope.receiver_id d.receiver_map) [
    | none ↦ record d { events = lost envelope ∷ d.events }
    | some receiver ↦ notify (delivered receiver envelope) d
  ]

  -- MQDCreateReceiverEnvelope::Act.
  unfoldable pub act_create : CreateReceiverEnvelope → Dispatcher → Dispatcher
  act_create envelope d = notify (receiver_ready envelope) (register envelope d)

  -- The loop over the create requests.
  unfoldable pub process_creates : ℕ → Dispatcher → Dispatcher
  process_creates zero d = d
  process_creates (suc fuel) d = elim (split_back d.local_create_queue) [
    | none ↦ d
    | some (rest, envelope) ↦
        process_creates fuel (record (act_create envelope d) { local_create_queue = rest })
  ]

  -- One round of the loop over the messages.
  unfoldable pub process_one : List MessageEnvelope → MessageEnvelope → Dispatcher → Dispatcher
  process_one rest envelope d =
      let d' = act_message envelope d in
      record d' { local_queue = rest; total_size = dec_u64 d'.total_size }

  -- The loop, `to_process` rounds at most.
  unfoldable pub process_queue : ℕ → ℕ → Dispatcher → Dispatcher
  process_queue zero to_process d = d
  process_queue (suc fuel) to_process d = elim (split_back d.local_queue) [
    | none ↦ d
    | some (rest, envelope) ↦
        let others = process_queue fuel (to_process - 1) (process_one rest envelope d) in
        if ltb 0 to_process then others else d
  ]

-- MQDRemoveReceiverEnvelope::Act.
unfoldable pub act_remove : ℕ → Dispatcher → Dispatcher
act_remove rcv_id d = record d { receiver_map = erase rcv_id d.receiver_map }

-- The loop over the remove requests.
unfoldable pub process_removes : ℕ → Dispatcher → Dispatcher
process_removes zero d = d
process_removes (suc fuel) d = elim (split_back d.local_remove_queue) [
  | none ↦ d
  | some (rest, rcv_id) ↦
      process_removes fuel (record (act_remove rcv_id d) { local_remove_queue = rest })
]

-- `msgsToProcess` of the work state, where zero is no limit.
unfoldable pub limit : ℕ → ℕ
limit msgs_to_process = if ltb 0 msgs_to_process then msgs_to_process else 2 ^ 64 - 1

-- ProcessMessages up to the loop over the messages. No listener is called while receivers are
-- removed, and a local queue only shrinks, so its length is fuel enough.
unfoldable pub process_requests : (List Event → List DispatcherCall) → Dispatcher → Dispatcher
process_requests react d =
    let d1 = take_queues d in
    let d2 = process_creates react (length d1.local_create_queue) d1 in
    process_removes (length d2.local_remove_queue) d2

-- The answer is `msgsRemaining`.
unfoldable pub process_messages :
    (List Event → List DispatcherCall) → ℕ → Dispatcher → ℕ × Dispatcher
process_messages react msgs_to_process d =
    let d1 = process_requests react d in
    let d2 = process_queue react (length d1.local_queue) (limit msgs_to_process) d1 in
    (d2.total_size, d2)

pub record MqdExecutor : Type 0 where
  pub dispatcher : Dispatcher
  pub my_executor : ℕ
  pub end_requested : Bool

-- `added` is the id that ExecutionManager::AddExecutor answers with.
unfoldable pub init_executor : ℕ → MqdExecutor → MqdExecutor
init_executor added e =
    if nat_beq e.my_executor exec_wildcard then record e { my_executor = added } else e

unfoldable pub run : (List Event → List DispatcherCall) → MqdExecutor → ExecutionState × MqdExecutor
run react e =
    let (msgs_remaining, d) = process_messages react 0 e.dispatcher in
    let state : ExecutionState =
      if e.end_requested then end else if ltb 0 msgs_remaining then continue else suspend in
    (state, record e { dispatcher = d })

unfoldable pub mqd_termination_requested : MqdExecutor → MqdExecutor
mqd_termination_requested e = record e { end_requested = true }
