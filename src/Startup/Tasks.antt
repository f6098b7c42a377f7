-- ===== src/Startup/Tasks.antt =====
-- The types of StartupTaskManager (Holder/StartupTaskManager.h, StartupTaskManagerInterfaces.h) and
-- EvaluateDependencies. A result and a listener are numbers.
use holder.Prelude.{
  ℕ, Bool, true, false, not, ◌&&◌, List, [], ◌∷◌, ◌++◌, Name, Option, none, some, lookup, update,
  length, nat_beq, if◌then◌else◌, contains, set_emplace, inc_u32, nat_eq, name_eq,
}

pub data TaskState : Type 0 where
  unknown undefined deps_unknown waiting_for_deps ready running completed failed : TaskState

pub data RequestType : Type 0 where
  define set_deps run complete fail : RequestType

pub data RequestFailType : Type 0 where
  invalid_task_id invalid_task_state : RequestFailType

abbrev pub invalid_task : ℕ
invalid_task = 16777215

-- A call of a task's listener: OnTaskReady, OnDependencyFailed, OnRequestFailed.
pub data Call : Type 0 where
  on_task_ready : ℕ → Call
  on_dependency_failed : ℕ → Name → Call
  on_request_failed : ℕ → RequestType → RequestFailType → Call

pub record TaskStateDesc : Type 0 where
  pub id : ℕ
  pub name : Name
  pub state : TaskState
  pub p_listener : ℕ
  pub p_result : Option ℕ
  pub depends_on_undefined : List Name
  pub depends_on : List ℕ
  pub depended_on_by : List ℕ
  pub failures_reported : List ℕ

pub record TaskNameDesc : Type 0 where
  pub task_id : Option ℕ
  pub depended_on_by : Option (List ℕ)

-- The four actions, with the id first.
pub data StartupAction : Type 0 where
  define_task_action : ℕ → Name → ℕ → StartupAction
  set_dependencies_action : ℕ → List Name → StartupAction
  run_task_action : ℕ → StartupAction
  complete_task_action : ℕ → Bool → Option ℕ → StartupAction

-- The executor, with the calls of listeners so far.
pub record StartupTaskExecutor : Type 0 where
  pub task_name_map : List (Name × TaskNameDesc)
  pub task_states : List (ℕ × TaskStateDesc)
  pub local_queue : List StartupAction
  pub stop_when_complete : Bool
  pub stop_requested : Bool
  pub waiting_tasks : ℕ
  pub calls : List Call

abbrev pub is_completed : TaskState → Bool
is_completed completed = true
is_completed _ = false

abbrev pub is_failed : TaskState → Bool
is_failed failed = true
is_failed _ = false

abbrev pub no_names : List Name → Bool
no_names [] = true
no_names (n ∷ ns) = false

-- What the loop over the dependencies has found: those complete, the failures reported, the calls.
pub record Found : Type 0 where
  pub n_complete : ℕ
  pub reported : List ℕ
  pub made : List Call

-- The body of the loop, for one dependency of the task `t`.
unfoldable pub visit_dependency : List (ℕ × TaskStateDesc) → ℕ → ℕ → Found → Found
visit_dependency states t d f = elim (lookup d states) [
  | none ↦ f
  | some dep ↦
      if is_completed dep.state
      then record f { n_complete = inc_u32 f.n_complete }
      else if is_failed dep.state && not (contains d f.reported)
      then record f {
        made = f.made ++ on_dependency_failed t dep.name ∷ [];
        reported = set_emplace d f.reported;
      }
      else f
]

unfoldable pub visit_dependencies : List (ℕ × TaskStateDesc) → ℕ → List ℕ → Found → Found
visit_dependencies states t [] f = f
visit_dependencies states t (d ∷ ds) f =
    visit_dependencies states t ds (visit_dependency states t d f)

-- EvaluateDependencies of the task with the id; each task is filed under its own id.
unfoldable pub evaluate_dependencies : StartupTaskExecutor → ℕ → StartupTaskExecutor
evaluate_dependencies s t = elim (lookup t s.task_states) [
  | none ↦ s
  | some desc ↦
      let f =
        visit_dependencies s.task_states desc.id desc.depends_on
          (record { n_complete = 0; reported = desc.failures_reported; made = [] }) in
      if nat_beq f.n_complete (length desc.depends_on) && no_names desc.depends_on_undefined
      then record s {
        task_states =
            update t
              (λ (x : TaskStateDesc). record x { failures_reported = f.reported; state = ready })
              s.task_states;
        calls = s.calls ++ f.made ++ on_task_ready desc.id ∷ [];
      }
      else record s {
        task_states =
            update t (λ (x : TaskStateDesc). record x { failures_reported = f.reported })
              s.task_states;
        calls = s.calls ++ f.made;
      }
]
