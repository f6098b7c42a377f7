-- ===== src/Execution/Rounds.antt =====
-- The loop of ExecutionManager::ExecutorThread (Holder/ExecutionManager.cpp), a round at a time. Other
-- threads post between the steps. An executor's Run is answered by the argument `answer`, from all
-- calls before it.
pub mod Indexing
pub mod Busy
pub mod Deaf
pub mod Tests
use holder.Prelude.{
  ℕ, zero, suc, Bool, true, false, List, [], ◌∷◌, ◌++◌, none, some, length, get_elem?, modify,
  nat_beq, if◌then◌else◌, ◌||◌, not, dec_u32,
}
use holder.Startup.Manager.{ExecutionState, continue, suspend, end}
use holder.Execution.{
  ExecutorSignalType, executing, suspended, ExecutorState, ExecutorCall, run,
  ExecutionInstructionMessage, ExecutorThread, post_add_executor, post_signal_executor,
  post_signal_all, doom_me, add_executor, process_instructions, remove_executor,
}

-- `shouldRun` and the wait: the loop runs, waits for instructions, or has ended.
pub data Phase : Type 0 where
  running waiting finished : Phase

-- `removals` has the calls of ExecutionManager::RemoveExecutors.
pub record ThreadLoop : Type 0 where
  pub thread : ExecutorThread
  pub new_instructions : Bool
  pub just_waited : Bool
  pub phase : Phase
  pub removals : List (List ℕ)

-- The loop over the executors, with `execsToRemove`.
pub record RunPass : Type 0 where
  pub thread : ExecutorThread
  pub execs_to_remove : List ℕ

unfoldable pub is_nil {ℓ} : {A : Type ℓ} → List A → Bool
is_nil [] = true
is_nil (_ ∷ _) = false

unfoldable pub may_go_on : ExecutorThread → Bool
may_go_on t = not (is_nil t.instruction_list) || (not (is_nil t.executors) || not t.is_doomed)

unfoldable pub start_loop : (ℕ → Bool) → ExecutorThread → ℕ → ℕ → ThreadLoop
start_loop init t id p =
    let t' = add_executor init t id p in
    record {
      thread = t';
      new_instructions = false;
      just_waited = false;
      phase = if is_nil t'.executors then finished else running;
      removals = [];
    }

-- After a wait the flag is not looked at, and keeps its value.
unfoldable pub receive : (ℕ → Bool) → ThreadLoop → ThreadLoop
receive init l =
    if l.just_waited
    then record l { thread = process_instructions init l.thread; just_waited = false }
    else if l.new_instructions
    then record l { thread = process_instructions init l.thread; new_instructions = false }
    else l

unfoldable pub put_to_sleep : ExecutorState → ExecutorState
put_to_sleep e = record e { state_tag = suspended }

unfoldable pub after_run : RunPass → ℕ → ExecutorState → ExecutionState → RunPass
after_run s i e continue = s
after_run s i e suspend = record s {
  thread = record s.thread {
    n_active = dec_u32 s.thread.n_active;
    executors = modify s.thread.executors i put_to_sleep;
  };
}
after_run s i e end = record s { execs_to_remove = s.execs_to_remove ++ e.exec_id ∷ [] }

unfoldable pub log_run : RunPass → ℕ → RunPass
log_run s p = record s { thread = record s.thread { calls = s.thread.calls ++ run p ∷ [] } }

unfoldable pub remove_each : List ℕ → ExecutorThread → ExecutorThread
remove_each [] t = t
remove_each (id ∷ ids) t = remove_each ids (remove_executor t id)

-- Under the lock, when no executor is active. `m_isDoomed` and the lists are read before the wait.
unfoldable pub end_round : ThreadLoop → ThreadLoop
end_round l =
    if nat_beq l.thread.n_active 0
    then record l { phase = if may_go_on l.thread then waiting else finished; just_waited = true }
    else l

unfoldable pub wake_up_loop : ThreadLoop → ThreadLoop
wake_up_loop l = record l { phase = if may_go_on l.thread then running else finished }

module _ (answer : List ExecutorCall → ℕ → ExecutionState) where
  unfoldable pub run_at : RunPass → ℕ → RunPass
  run_at s i = elim (get_elem? s.thread.executors i) [
    | none ↦ s
    | some e ↦ elim e.state_tag [
      | executing ↦ after_run (log_run s e.p_executor) i e (answer s.thread.calls e.p_executor)
      | suspended ↦ s
    ]
  ]

  -- The executors from place `i` on, `n` of them.
  unfoldable pub run_each : ℕ → ℕ → RunPass → RunPass
  run_each zero i s = s
  run_each (suc n) i s = run_each n (suc i) (run_at s i)

  unfoldable pub run_executors : ExecutorThread → RunPass
  run_executors t = run_each (length t.executors) 0 (record { thread = t; execs_to_remove = [] })

  unfoldable pub work : ThreadLoop → ThreadLoop
  work l =
      let s = run_executors l.thread in
      if is_nil s.execs_to_remove then record l { thread = s.thread } else record l {
        thread = remove_each s.execs_to_remove s.thread;
        removals = l.removals ++ s.execs_to_remove ∷ [];
      }

  unfoldable pub round : (ℕ → Bool) → ThreadLoop → ThreadLoop
  round init l = end_round (work (receive init l))

-- What other threads do to this one.
pub data Post : Type 0 where
  post_add : ℕ → ℕ → Post
  post_signal : ℕ → ExecutorSignalType → Post
  post_all : ExecutorSignalType → Post
  post_doom : Post

unfoldable pub deliver : ExecutorThread → Post → ExecutorThread
deliver t (post_add id p) = post_add_executor t id p
deliver t (post_signal id signal_type) = post_signal_executor t id signal_type
deliver t (post_all signal_type) = post_signal_all t signal_type
deliver t post_doom = doom_me t

pub data LoopStep : Type 0 where
  posted : Post → LoopStep
  next_round woken_up : LoopStep

module _ (init : ℕ → Bool) (answer : List ExecutorCall → ℕ → ExecutionState) where
  -- A round is run only by a running loop, and only a waiting one wakes up.
  unfoldable pub step : ThreadLoop → LoopStep → ThreadLoop
  step l (posted p) = record l { thread = deliver l.thread p }
  step l next_round =
      let rest = round answer init l in elim l.phase [ running ↦ rest | waiting ↦ l | finished ↦ l ]
  step l woken_up = elim l.phase [ running ↦ l | waiting ↦ wake_up_loop l | finished ↦ l ]

  unfoldable pub steps : ThreadLoop → List LoopStep → ThreadLoop
  steps l [] = l
  steps l (x ∷ xs) = steps (step l x) xs
