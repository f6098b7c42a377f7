-- ===== src/Startup/Manager.antt =====
-- StartupTaskManager: the queue of actions that any thread fills, and the executor that runs them
-- on the startup thread. AddExecutor and SignalExecutor of ExecutionManager are outside: the id that
-- the one returns is an argument, and the wake-ups that the other gets are counted.
use holder.Prelude.{
  ℕ, ◌+◌, ◌≡◌, refl, ap, ◌∙◌, Bool, true, false, not, ◌&&◌, List, [], ◌∷◌, Name, Option, none, some,
  nat_beq, if◌then◌else◌, set_emplace, inc_u32, Exit, returned, thrown, and_then, after, nat_eq,
  name_eq, arith,
}
use holder.Startup.Tasks.{
  StartupTaskExecutor, invalid_task, StartupAction, define_task_action, set_dependencies_action,
  run_task_action, complete_task_action, TaskStateDesc,
}
use holder.Startup.Actions.{act, handle_set_dependencies, handle_run, handle_complete}

pub data ExecutionState : Type 0 where
  continue suspend end : ExecutionState

pub record StartupTaskManager : Type 0 where
  pub p_my_executor : Option StartupTaskExecutor
  pub exec_id : ℕ
  pub running : Bool
  pub next_task_id : ℕ
  pub executor_queue : List StartupAction
  pub wake_ups : ℕ

unfoldable pub new_executor : Bool → StartupTaskExecutor
new_executor stop_when_complete = record {
  task_name_map = [];
  task_states = [];
  local_queue = [];
  stop_when_complete = stop_when_complete;
  stop_requested = false;
  waiting_tasks = 0;
  calls = [];
}

-- An action is put at the front of the queue, and the executor is woken if it runs.
unfoldable pub post : StartupTaskManager → StartupAction → StartupTaskManager
post m a = record m {
  executor_queue = a ∷ m.executor_queue;
  wake_ups = if m.running then m.wake_ups + 1 else m.wake_ups;
}

-- A null listener is `none`.
unfoldable pub define_startup_task : StartupTaskManager → Name → Option ℕ → StartupTaskManager × ℕ
define_startup_task m name none = (m, invalid_task)
define_startup_task m name (some listener) =
    let t = m.next_task_id in
    (post (record m { next_task_id = inc_u32 t }) (define_task_action t name listener), t)

unfoldable pub dep_set : List Name → List Name → List Name
dep_set [] set = set
dep_set (d ∷ deps) set = dep_set deps (set_emplace d set)

-- The executor of the manager handles an action at once; there is one on the startup thread.
unfoldable pub handle_here :
    StartupTaskManager → (StartupTaskExecutor → Exit StartupTaskExecutor) → Exit StartupTaskManager
handle_here m f = elim m.p_my_executor [
  | none ↦ returned m
  | some s ↦ elim (f s) [
    | returned s' ↦ returned (record m { p_my_executor = some s' })
    | thrown s' ↦ thrown (record m { p_my_executor = some s' })
  ]
]

-- The Bool says whether the caller is the startup thread.
unfoldable pub set_startup_dependencies :
    StartupTaskManager → Bool → ℕ → List Name → Exit StartupTaskManager
set_startup_dependencies m true t deps =
    handle_here m (λ s. handle_set_dependencies s t (dep_set deps []))
set_startup_dependencies m false t deps =
    returned (post m (set_dependencies_action t (dep_set deps [])))

unfoldable pub run_task : StartupTaskManager → Bool → ℕ → Exit StartupTaskManager
run_task m true t = handle_here m (λ s. returned (handle_run s t))
run_task m false t = returned (post m (run_task_action t))

unfoldable pub complete_task :
    StartupTaskManager → Bool → ℕ → Bool → Option ℕ → Exit StartupTaskManager
complete_task m true t success result =
    handle_here m (λ s. returned (handle_complete s t success result))
complete_task m false t success result = returned (post m (complete_task_action t success result))

unfoldable pub start_executor : StartupTaskManager → Bool → ℕ → StartupTaskManager
start_executor m stop_when_complete exec_id = if m.running then m else record m {
  p_my_executor = some (new_executor stop_when_complete);
  exec_id = exec_id;
  running = true;
}

unfoldable pub termination_requested : StartupTaskExecutor → StartupTaskExecutor
termination_requested s = record s { stop_requested = true }

-- The loop over the local queue takes the action at its back first.
unfoldable pub run_local : List StartupAction → StartupTaskExecutor → Exit StartupTaskExecutor
run_local [] s = returned s
run_local (a ∷ queue) s = and_then (run_local queue s) (act a)

abbrev pub no_tasks : List (ℕ × TaskStateDesc) → Bool
no_tasks [] = true
no_tasks (t ∷ ts) = false

unfoldable pub next_state : StartupTaskExecutor → ExecutionState
next_state s =
    if s.stop_when_complete && not (no_tasks s.task_states) && nat_beq s.waiting_tasks 0
    then end
    else suspend

-- StartupTaskExecutor::Run: the manager, the executor and how the executor ends the call. An
-- exception leaves the function of the thread, which ends the program.
unfoldable pub run :
    StartupTaskManager
    → StartupTaskExecutor
    → StartupTaskManager × Exit StartupTaskExecutor × ExecutionState
run m s =
    let s' = run_local m.executor_queue (record s { local_queue = [] }) in
    if s.stop_requested
    then (record m { running = false }, returned s, end)
    else (record m { executor_queue = s.local_queue }, s', next_state (after s'))

-- A sequence of posts.
abbrev pub post_all : StartupTaskManager → List StartupAction → StartupTaskManager
post_all m [] = m
post_all m (a ∷ actions) = post_all (post m a) actions

-- The actions one after the other, until one throws.
abbrev pub act_all : List StartupAction → StartupTaskExecutor → Exit StartupTaskExecutor
act_all [] s = returned s
act_all (a ∷ actions) s = and_then (act a s) (act_all actions)

and_then_assoc :
    (x : Exit StartupTaskExecutor) (f g : StartupTaskExecutor → Exit StartupTaskExecutor)
    → and_then (and_then x f) g ≡ and_then x (λ s. and_then (f s) g)
and_then_assoc (returned s) f g = refl
and_then_assoc (thrown s) f g = refl

run_local-post_all :
    (m : StartupTaskManager) (actions : List StartupAction) (s : StartupTaskExecutor)
    → run_local (post_all m actions).executor_queue s
      ≡ and_then (run_local m.executor_queue s) (act_all actions)
unfolding post run_local
run_local-post_all m [] s = done (run_local m.executor_queue s)
  where
    done : (x : Exit StartupTaskExecutor) → x ≡ and_then x returned
    done (returned s) = refl
    done (thrown s) = refl
run_local-post_all m (a ∷ actions) s =
    run_local-post_all (post m a) actions s
    ∙ and_then_assoc (run_local m.executor_queue s) (act a) (act_all actions)

run_going :
    (m : StartupTaskManager) (s : StartupTaskExecutor)
    → s.stop_requested ≡ false
    → (run m s).1 ≡ run_local m.executor_queue (record s { local_queue = [] })
unfolding run
run_going m s going = ground arith

-- Actions that any threads post while the queue is empty are run by the next call of Run in the
-- order in which they were posted, until one throws, if no termination was requested.
pub run-post_all :
    (m : StartupTaskManager) (actions : List StartupAction) (s : StartupTaskExecutor)
    → m.executor_queue ≡ []
    → s.stop_requested ≡ false
    → (run (post_all m actions) s).1 ≡ act_all actions (record s { local_queue = [] })
unfolding run_local
run-post_all m actions s empty going =
    run_going (post_all m actions) s going
    ∙ run_local-post_all m actions (record s { local_queue = [] })
    ∙ ap (λ q. and_then (run_local q (record s { local_queue = [] })) (act_all actions)) empty
