-- ===== src/AsyncTasks/Order.antt =====
-- AsyncGraphOrder (AsyncTasks/AsyncTaskGraph.h, AsyncTaskGraph.cpp): the counted task graph.
pub mod Release
pub mod Tracking
pub mod Initial
use holder.Prelude.{
  ℕ, suc, ◌+◌, Bool, List, [], ◌∷◌, ◌++◌, map, length, modify, get_elem?, ltb, nat_beq,
  if◌then◌else◌, none, some, dec_u32, dec_u64, inc_u32,
}
use holder.AsyncTasks.Graph.{Vertex, AsyncGraphBuilder}

pub record TaskState : Type 0 where
  pub p_task : ℕ
  pub dependent_tasks : List ℕ
  pub original_dependency_count : ℕ
  pub dependency_count : ℕ

pub record AsyncGraphOrder : Type 0 where
  pub initial_tasks : List ℕ
  pub task_states : List TaskState
  pub completed_tasks : ℕ
  pub executing_tasks : ℕ

-- PackagedTask of AsyncExecutor.h.
pub record PackagedTask : Type 0 where
  pub task_id : ℕ
  pub p_task : ℕ
  pub context_id : ℕ

-- One round of the constructor's loop fills the state of a task.
abbrev pub task_state_of : Vertex → TaskState
task_state_of v = record {
  p_task = v.p_task;
  dependent_tasks = v.v_to;
  original_dependency_count = length v.v_from;
  dependency_count = length v.v_from;
}

-- The tasks that the loop, which stands at task `i`, still puts into `m_initialTasks`.
unfoldable pub initial_from : ℕ → List Vertex → List ℕ
initial_from i [] = []
initial_from i (v ∷ vs) =
    let rest = initial_from (suc i) vs in if nat_beq (length v.v_from) 0 then i ∷ rest else rest

unfoldable pub construct_graph : AsyncGraphBuilder → AsyncGraphOrder
unfolding initial_from
construct_graph b = record {
  initial_tasks = initial_from 0 b.vertices;
  task_states = map task_state_of b.vertices;
  completed_tasks = 0;
  executing_tasks = 0;
}

unfoldable pub has_unexecuted_tasks : AsyncGraphOrder → Bool
has_unexecuted_tasks o = ltb o.completed_tasks (length o.task_states)

abbrev reset_count : TaskState → TaskState
reset_count s = record s { dependency_count = s.original_dependency_count }

unfoldable pub reset : AsyncGraphOrder → AsyncGraphOrder
reset o = record o {
  completed_tasks = 0;
  executing_tasks = 0;
  task_states = map reset_count o.task_states;
}

-- Reads of `m_taskStates[i]`; past the end, where the source is undefined, they find nothing.
abbrev pub dependency_count : AsyncGraphOrder → ℕ → ℕ
dependency_count o i = elim (get_elem? o.task_states i) [ none ↦ 0 | some s ↦ s.dependency_count ]

abbrev pub dependent_tasks : AsyncGraphOrder → ℕ → List ℕ
dependent_tasks o i = elim (get_elem? o.task_states i) [ none ↦ [] | some s ↦ s.dependent_tasks ]

abbrev pub p_task : AsyncGraphOrder → ℕ → ℕ
p_task o i = elim (get_elem? o.task_states i) [ none ↦ 0 | some s ↦ s.p_task ]

-- TaskListAcceptor::operator(): the callback appends a packaged task to its list.
abbrev pub accept : ℕ → AsyncGraphOrder → List PackagedTask → ℕ → List PackagedTask
accept context_id o task_list i =
    task_list ++ record { task_id = i; p_task = p_task o i; context_id = context_id } ∷ []

unfoldable pub execute_initial :
    ℕ → List ℕ → AsyncGraphOrder × List PackagedTask → AsyncGraphOrder × List PackagedTask
execute_initial context_id [] (o, l) = (o, l)
execute_initial context_id (i ∷ is) (o, l) =
    execute_initial context_id is
      (record o { executing_tasks = inc_u32 o.executing_tasks }, accept context_id o l i)

unfoldable pub get_initial_tasks_to_execute :
    ℕ → AsyncGraphOrder × List PackagedTask → AsyncGraphOrder × List PackagedTask
unfolding execute_initial
get_initial_tasks_to_execute context_id (o, l) = execute_initial context_id o.initial_tasks (o, l)

unfoldable pub lower_count : TaskState → TaskState
lower_count s = record s { dependency_count = dec_u64 s.dependency_count }

unfoldable pub lower : AsyncGraphOrder → ℕ → AsyncGraphOrder
unfolding lower_count
lower o d = record o { task_states = modify o.task_states d lower_count }

-- The body of the loop of GetTasksToExecute, for the dependent task `d`.
unfoldable pub visit_dependent :
    ℕ → ℕ → AsyncGraphOrder × List PackagedTask → AsyncGraphOrder × List PackagedTask
visit_dependent context_id d (o, l) =
    let o' = lower o d in
    if nat_beq (dependency_count o' d) 0
    then (record o' { executing_tasks = inc_u32 o'.executing_tasks }, accept context_id o' l d)
    else (o', l)

unfoldable pub visit_dependents :
    ℕ → List ℕ → AsyncGraphOrder × List PackagedTask → AsyncGraphOrder × List PackagedTask
visit_dependents context_id [] s = s
visit_dependents context_id (d ∷ ds) s =
    visit_dependents context_id ds (visit_dependent context_id d s)

unfoldable pub get_tasks_to_execute :
    ℕ → ℕ → AsyncGraphOrder × List PackagedTask → AsyncGraphOrder × List PackagedTask
get_tasks_to_execute context_id i (o, l) = visit_dependents context_id (dependent_tasks o i) (
  record o {
    executing_tasks = dec_u32 o.executing_tasks;
    completed_tasks = inc_u32 o.completed_tasks;
  },
  l,
)
