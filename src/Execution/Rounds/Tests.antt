-- ===== src/Execution/Rounds/Tests.antt =====
-- The thread with the executors 5, 6 and 7, in which 5 never suspends.
use holder.Prelude.{ℕ, ◌≡◌, refl, false, List, [], ◌∷◌, nat_beq, nat_eq, arith, if◌then◌else◌}
use holder.Startup.Manager.{ExecutionState, continue, suspend, end}
use holder.Execution.{ExecutorCall, request_termination}
use holder.Execution.Indexing.{IsIndexed}
use holder.Execution.Tests.{three, three-IsIndexed, exec, init}
use holder.Execution.Rounds.{
  ThreadLoop, running, waiting, LoopStep, posted, next_round, post_all, run_executors, steps, round,
  end_round, work, is_nil, run_each, receive, run_at, after_run, log_run, may_go_on,
}
use holder.Execution.Rounds.Indexing.{run_executors-IsIndexed}
use holder.Execution.Rounds.Deaf.{messages, IsDeaf, Stays, steps-Stays}

abbrev answer : List ExecutorCall → ℕ → ExecutionState
answer cs p = if nat_beq p 5 then continue else suspend

abbrev busy_loop : ThreadLoop
busy_loop = record {
  thread = three;
  new_instructions = false;
  just_waited = false;
  phase = running;
  removals = [];
}

abbrev some_steps : List LoopStep
some_steps = next_round ∷ posted (post_all request_termination) ∷ next_round ∷ next_round ∷ []

busy_loop-IsDeaf : IsDeaf busy_loop 0 5
busy_loop-IsDeaf = record {
  runs = refl;
  no_wait = refl;
  no_flag = refl;
  indexed = three-IsIndexed;
  awake = record { executor = exec 5; there = refl; named = refl; active = refl };
}

abbrev all_suspend : List ExecutorCall → ℕ → ExecutionState
all_suspend cs p = suspend

-- Without an executor that goes on, the thread falls asleep after a round.
asleep : ThreadLoop.phase (round all_suspend init busy_loop) ≡ waiting
unfolding round end_round work is_nil run_executors run_each receive run_at after_run log_run
    may_go_on
asleep = refl

never_ends : (cs : List ExecutorCall) (q : ℕ) → ¬ (answer cs q ≡ end)
never_ends cs q h = ground arith

run_executors-IsIndexed_example : IsIndexed (run_executors answer three).thread
run_executors-IsIndexed_example = run_executors-IsIndexed answer three three-IsIndexed

steps-Stays_example :
    Stays busy_loop (steps init answer busy_loop some_steps) 0 5 (messages some_steps)
steps-Stays_example =
    steps-Stays init answer 0 5 never_ends (λ cs. refl) busy_loop some_steps busy_loop-IsDeaf
