-- ===== src/Execution/Manager.antt =====
-- ExecutionManager (Holder/ExecutionManager.h and .cpp): the tables of executors, of threads and of
-- their names. An iterator that is used where nothing was found is undefined behaviour, written
-- `undefined`. Starting a thread records its first executor.
pub mod Tables
pub mod Calls
pub mod Adding
pub mod Reaching
pub mod Tests
use holder.Prelude.{
  ℕ, ◌+◌, ◌-◌, Bool, true, false, not, ◌&&◌, ◌||◌, List, [], ◌∷◌, ◌++◌, Option, none, some, Name,
  is_some, lookup, emplace, erase, update, nat_beq, if◌then◌else◌, inc_u32, inc_u64, nat_eq,
  name_eq,
}
use holder.Execution.{
  exec_wildcard, ExecutorSignalType, request_termination, ExecutorThread, post_add_executor,
  post_signal_executor, post_signal_all, doom_me,
}
use holder.Execution.Timers.{
  TimerThread, new_timer_thread, doom_timers, set_timer, cancel_timer_name, cancel_timer_id,
  is_empty_name,
}

-- The thread's own fields and its executors' tables.
pub record ManagedThread : Type 0 where
  pub thread_name : Name
  pub is_singleton : Bool
  pub first_executor : ℕ × ℕ
  pub worker : ExecutorThread

pub record ExecutionManager : Type 0 where
  pub executor_map : List (ℕ × ℕ)
  pub thread_name_map : List (Name × ℕ)
  pub thread_map : List (ℕ × ManagedThread)
  pub timer_thread : TimerThread
  pub next_thread : ℕ
  pub next_exec : ℕ
  pub locked_shop : Bool
  pub threads_to_join : List ManagedThread

pub data ManagerResult {ℓ} (A : Type ℓ) : Type ℓ where
  answers : A → ExecutionManager → ManagerResult A
  throws : ExecutionManager → ManagerResult A
  undefined : ManagerResult A

-- The constructor.
unfoldable pub new_manager : ExecutionManager
unfolding new_timer_thread
new_manager = record {
  executor_map = [];
  thread_name_map = [];
  thread_map = [];
  timer_thread = new_timer_thread;
  next_thread = 0;
  next_exec = 0;
  locked_shop = false;
  threads_to_join = [];
}

unfoldable pub new_thread : Name → Bool → ℕ → ℕ → ManagedThread
new_thread thread_name is_singleton exec_id p_executor = record {
  thread_name = thread_name;
  is_singleton = is_singleton;
  first_executor = (exec_id, p_executor);
  worker = record {
    instruction_list = [];
    is_doomed = false;
    n_active = 0;
    signal_map = [];
    executors = [];
    calls = [];
  };
}

unfoldable pub with_worker : (ExecutorThread → ExecutorThread) → ManagedThread → ManagedThread
with_worker f thread = record thread { worker = f thread.worker }

-- AddExecutor with a name that has a thread.
unfoldable pub add_to_thread : ℕ → ℕ → ℕ → Bool → ExecutionManager → ManagerResult ℕ
add_to_thread thread_id exec_id p_executor is_singleton m = elim (lookup thread_id m.thread_map) [
  | none ↦ undefined
  | some thread ↦
      if is_singleton || thread.is_singleton
      then throws m
      else answers exec_id (record m {
        thread_map =
            update thread_id (with_worker (λ w. post_add_executor w exec_id p_executor))
              m.thread_map;
        executor_map = emplace exec_id thread_id m.executor_map;
      })
]

-- AddExecutor with a new name.
unfoldable pub add_to_new_thread : Name → ℕ → ℕ → Bool → ExecutionManager → ManagerResult ℕ
add_to_new_thread thread_name exec_id p_executor is_singleton m =
    let thread_id = m.next_thread in
    answers exec_id (record m {
      next_thread = inc_u64 m.next_thread;
      thread_map =
          emplace thread_id (new_thread thread_name is_singleton exec_id p_executor) m.thread_map;
      thread_name_map = emplace thread_name thread_id m.thread_name_map;
      executor_map = emplace exec_id thread_id m.executor_map;
    })

unfoldable pub add_managed_executor : Name → ℕ → Bool → ExecutionManager → ManagerResult ℕ
add_managed_executor thread_name p_executor is_singleton m =
    let exec_id = m.next_exec in
    let m' = record m { next_exec = inc_u32 m.next_exec } in
    let added : ManagerResult ℕ = elim (lookup thread_name m.thread_name_map) [
      | none ↦ add_to_new_thread thread_name exec_id p_executor is_singleton m'
      | some thread_id ↦ add_to_thread thread_id exec_id p_executor is_singleton m'
    ] in
    if is_empty_name thread_name || nat_beq m.next_exec (exec_wildcard - 1)
    then throws m
    else if m.locked_shop
    then answers exec_wildcard m
    else added

unfoldable pub locked_shop_update_state : ExecutionManager → ExecutionManager
locked_shop_update_state m =
    if not m.locked_shop
    then record m { locked_shop = true; timer_thread = doom_timers m.timer_thread }
    else m

-- The loop over the threads.
unfoldable pub doom_threads : Bool → List (ℕ × ManagedThread) → List (ℕ × ManagedThread)
doom_threads send_termination [] = []
doom_threads send_termination ((i, thread) ∷ threads) =
    let doomed = with_worker doom_me thread in
    let signalled = with_worker (λ w. post_signal_all w request_termination) doomed in
    (i, (if send_termination then signalled else doomed)) ∷ doom_threads send_termination threads

unfoldable pub lock_shop : Bool → ExecutionManager → ExecutionManager
lock_shop send_termination m =
    locked_shop_update_state (record m { thread_map = doom_threads send_termination m.thread_map })

-- RunLoop returns.
unfoldable pub run_loop_ends : ExecutionManager → Bool
run_loop_ends m = m.locked_shop && elim m.thread_map [ [] ↦ true | _ ∷ _ ↦ false ]

unfoldable pub doom_thread : Name → ExecutionManager → ManagerResult (Unit {0})
doom_thread thread_name m = elim (lookup thread_name m.thread_name_map) [
  | none ↦ answers tt m
  | some thread_id ↦
      if is_some (lookup thread_id m.thread_map)
      then answers tt (record m {
        thread_map = update thread_id (with_worker doom_me) m.thread_map;
        thread_name_map = erase thread_name m.thread_name_map;
      })
      else undefined
]

unfoldable pub signal_executor : ℕ → ExecutorSignalType → ExecutionManager → ManagerResult Bool
signal_executor executor_id signal_type m = elim (lookup executor_id m.executor_map) [
  | none ↦ answers false m
  | some thread_id ↦
      if is_some (lookup thread_id m.thread_map)
      then answers true (record m {
        thread_map =
            update thread_id (with_worker (λ w. post_signal_executor w executor_id signal_type))
              m.thread_map;
      })
      else undefined
]

module _ (cast : ℕ → ℕ) where
  -- A null callback is `none`.
  unfoldable pub manager_set_timer :
      Name → ℕ → Bool → ℕ → Option ℕ → ExecutionManager → Bool × ExecutionManager
  manager_set_timer timer_name micro_interval repeating_timer timer_user_id none m = (false, m)
  manager_set_timer timer_name micro_interval repeating_timer timer_user_id (some p_callback) m = (
    true,
    record m {
      timer_thread =
          set_timer cast timer_name micro_interval repeating_timer timer_user_id p_callback
            m.timer_thread;
    },
  )

unfoldable pub manager_cancel_timer_name : Name → ExecutionManager → ExecutionManager
manager_cancel_timer_name timer_name m =
    if is_empty_name timer_name
    then m
    else record m { timer_thread = cancel_timer_name timer_name m.timer_thread }

unfoldable pub manager_cancel_timer_id : ℕ → ExecutionManager → ExecutionManager
manager_cancel_timer_id timer_id m = record m {
  timer_thread = cancel_timer_id timer_id m.timer_thread;
}

unfoldable pub erase_all : List ℕ → List (ℕ × ℕ) → List (ℕ × ℕ)
erase_all [] executors = executors
erase_all (exec_id ∷ to_remove) executors = erase_all to_remove (erase exec_id executors)

unfoldable pub remove_executors : List ℕ → ExecutionManager → ExecutionManager
remove_executors to_remove m = record m { executor_map = erase_all to_remove m.executor_map }

-- Called by a thread that ends.
unfoldable pub remove_thread : ℕ → ExecutionManager → ManagerResult (Unit {0})
remove_thread thread_id m = elim (lookup thread_id m.thread_map) [
  | none ↦ undefined
  | some thread ↦
      let removed = record m {
        thread_map = erase thread_id m.thread_map;
        thread_name_map = erase thread.thread_name m.thread_name_map;
        threads_to_join = m.threads_to_join ++ thread ∷ [];
      } in
      answers tt
        (elim removed.thread_map [ [] ↦ locked_shop_update_state removed | _ ∷ _ ↦ removed ])
]
