-- ===== src/Dispatch/Tests.antt =====
-- A receiver whose listener sends itself a message when it is told that it is ready.
use holder.Prelude.{
  ◌≡◌, ◌↔◌, refl, false, List, [], ◌∷◌, some, lookup, emplace, erase, nat_eq, arith,
}
use holder.Startup.Manager.{suspend, end, continue}
use holder.Execution.{exec_wildcard}
use holder.Dispatch.{
  Event, receiver_ready, Dispatcher, DispatcherCall, send, create, new_dispatcher, perform,
  process_messages, MqdExecutor, init_executor, mqd_termination_requested, run, notify, register,
  take_queues, act_message, act_create, act_remove, process_creates, process_queue, process_one,
  process_removes, process_requests, limit, split_back, perform_all,
}
use holder.Dispatch.Posting.{sents, handled}
use holder.Dispatch.Queues.{IsQueued, pending}
use holder.Dispatch.Delivery.{IsIdle, run-handled, run-state}
use holder.Dispatch.Readiness.{Reachable, start, called, processed, IsReady, Reachable-IsQueued}

abbrev eager : List Event → List DispatcherCall
eager (receiver_ready e ∷ es) = send e.receiver_id 9 ∷ []
eager _ = []

abbrev posted : Dispatcher
posted = perform (send 5 8) (perform (send 0 7) (perform (create (some 3) 4) new_dispatcher))

abbrev executor : MqdExecutor
executor =
    init_executor 1
      (record { dispatcher = posted; my_executor = exec_wildcard; end_requested = false })

ready : Unit {0}
unfolding perform new_dispatcher run process_messages process_requests take_queues process_creates
    process_removes process_queue process_one act_message act_create act_remove register notify
    perform_all split_back limit lookup emplace erase sents handled init_executor
    mqd_termination_requested
ready = tt

posted-Reachable : Reachable eager posted
posted-Reachable = called (send 5 8) (called (send 0 7) (called (create (some 3) 4) start))

Reachable-IsQueued_example :
    IsQueued (process_messages eager 1 posted).1 × IsReady (process_messages eager 1 posted).1
Reachable-IsQueued_example = Reachable-IsQueued (processed 1 posted-Reachable)

executor-IsIdle : IsIdle executor
unfolding ready
executor-IsIdle = ((Reachable-IsQueued posted-Reachable).0, refl, omega arith)

-- The message that the listener sends waits for the next run.
first_run_continues : (run eager executor).0 ≡ continue
unfolding ready
first_run_continues = refl

second_run_suspends : (run eager (run eager executor).1).0 ≡ suspend
unfolding ready
second_run_suspends = refl

asked_ends : (run eager (mqd_termination_requested executor)).0 ≡ end
unfolding ready
asked_ends = refl

run-handled_example :
    let d' = (run eager executor).1.dispatcher in
    (handled d'.events ≡ sents posted.events) × (d'.local_queue ≡ []) × IsQueued d'
unfolding ready
run-handled_example = run-handled eager executor executor-IsIdle

run-state_example :
    ((run eager executor).0 ≡ suspend) ↔ (pending (run eager executor).1.dispatcher ≡ 0)
unfolding ready
run-state_example = run-state eager executor executor-IsIdle (omega arith)
