-- ===== src/Startup/Tests.antt =====
-- Two tasks, "a" and "b"; "b" waits for "a".
use mathlib.Core.Logic.{inl, ◌≢◌}
use holder.Prelude.{
  ℕ, ◌≡◌, refl, true, false, List, [], ◌∷◌, Name, name_beq, none, some, lookup, arith, nat_eq,
  name_eq, returned,
}
use holder.Startup.Tasks.{
  TaskState, undefined, deps_unknown, ready, running, completed, failed, TaskStateDesc,
  StartupTaskExecutor, define_task_action, run_task_action, StartupAction, evaluate_dependencies,
}
use holder.Startup.Actions.{handle_complete, handle_set_dependencies, handle_define, get_task_state}
use holder.Startup.Manager.{StartupTaskManager, run, post_all, act_all, run-post_all}
use holder.Startup.Readiness.{evaluate_dependencies-state, state_after}
use holder.Startup.Requests.{
  handle_complete_readies, handle_define-get_task_state, handle_set_dependencies-get_task_state,
}

abbrev a : Name
a = 97 ∷ []

abbrev b : Name
b = 98 ∷ []

abbrev task : ℕ → Name → TaskState → List ℕ → List ℕ → TaskStateDesc
task id name state on by = record {
  id = id;
  name = name;
  state = state;
  p_listener = id;
  p_result = none;
  depends_on_undefined = [];
  depends_on = on;
  depended_on_by = by;
  failures_reported = [];
}

abbrev fresh : StartupTaskExecutor
fresh = record {
  task_name_map = [];
  task_states = [];
  local_queue = [];
  stop_when_complete = true;
  stop_requested = false;
  waiting_tasks = 0;
  calls = [];
}

abbrev task_a : TaskStateDesc
task_a = task 0 a running [] (1 ∷ [])

abbrev task_b : TaskStateDesc
task_b = task 1 b failed (0 ∷ []) []

-- "a" runs, and "b" has failed while it waited.
abbrev two : StartupTaskExecutor
two = record fresh {
  task_name_map =
      (a, record { task_id = some 0; depended_on_by = none })
      ∷ (b, record { task_id = some 1; depended_on_by = none })
      ∷ [];
  task_states = (0, task_a) ∷ (1, task_b) ∷ [];
  waiting_tasks = 1;
}

handle_complete_readies_example :
    let s' = handle_complete two 0 true none in
    (task' : TaskStateDesc) × (dep' : TaskStateDesc) × (lookup 0 s'.task_states ≡ some task')
    × (task'.state ≡ completed)
    × (lookup 1 s'.task_states ≡ some dep')
    × (dep'.state ≡ ready)
unfolding lookup
handle_complete_readies_example =
    handle_complete_readies two 0 1 task_a task_b none (ground arith) refl refl refl refl refl refl

evaluate_dependencies-state_example :
    ((desc' : TaskStateDesc) × (lookup 1 (evaluate_dependencies two 1).task_states ≡ some desc')
      × (desc'.state ≡ state_after two task_b)
      × (desc'.depends_on ≡ 0 ∷ [])
      × (desc'.depended_on_by ≡ []))
    × ((q : ℕ)
        → q ≢ 1
        → lookup q (evaluate_dependencies two 1).task_states ≡ lookup q two.task_states)
unfolding lookup
evaluate_dependencies-state_example = evaluate_dependencies-state two 1 task_b refl (omega arith)

handle_define-get_task_state_example :
    (s' : StartupTaskExecutor) × (handle_define two 2 (99 ∷ []) 5 ≡ returned s')
    × (get_task_state s' (99 ∷ []) ≡ deps_unknown)
unfolding lookup name_beq
handle_define-get_task_state_example =
    handle_define-get_task_state two 2 (99 ∷ []) 5 refl (inl refl)

abbrev alone : StartupTaskExecutor
alone = record fresh {
  task_name_map = (a, record { task_id = some 0; depended_on_by = none }) ∷ [];
  task_states = (0, task 0 a deps_unknown [] []) ∷ [];
  waiting_tasks = 1;
}

handle_set_dependencies-get_task_state_example :
    (s' : StartupTaskExecutor) × (task' : TaskStateDesc) × (handle_set_dependencies alone 0 (b ∷ [])
      ≡ returned s')
    × (get_task_state s' b ≡ undefined)
    × (lookup 0 s'.task_states ≡ some task')
    × (task'.state ≡ ready)
unfolding lookup name_beq
handle_set_dependencies-get_task_state_example =
    handle_set_dependencies-get_task_state alone 0 b (task 0 a deps_unknown [] []) refl refl refl
      refl refl refl

abbrev manager : StartupTaskManager
manager = record {
  p_my_executor = some fresh;
  exec_id = 3;
  running = true;
  next_task_id = 1;
  executor_queue = [];
  wake_ups = 0;
}

abbrev actions : List StartupAction
actions = define_task_action 0 a 7 ∷ run_task_action 0 ∷ []

run-post_all_example :
    (run (post_all manager actions) fresh).1 ≡ act_all actions (record fresh { local_queue = [] })
run-post_all_example = run-post_all manager actions fresh refl refl
