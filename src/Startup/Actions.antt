-- ===== src/Startup/Actions.antt =====
-- The four overloads of HandleAction, GetTaskState and GetTaskResult.
use holder.Prelude.{
  ℕ, Bool, true, false, ◌||◌, List, [], ◌∷◌, ◌++◌, Name, Option, none, some, lookup, emplace,
  update, if◌then◌else◌, set_emplace, set_erase, inc_u32, dec_u32, Exit, returned, thrown, and_then,
  nat_eq, name_eq,
}
use holder.Startup.Tasks.{
  TaskState, unknown, undefined, deps_unknown, waiting_for_deps, ready, running, completed, failed,
  RequestType, set_deps, run, complete, invalid_task_state, on_request_failed, TaskStateDesc,
  TaskNameDesc, StartupTaskExecutor, evaluate_dependencies, is_completed, is_failed, StartupAction,
  define_task_action, set_dependencies_action, run_task_action, complete_task_action,
}

-- An undefined name is defined now: each task that waits for it waits for the new task.
unfoldable pub define_for : Name → ℕ → List ℕ → List (ℕ × TaskStateDesc) → List (ℕ × TaskStateDesc)
define_for name t [] states = states
define_for name t (d ∷ ds) states = define_for name t ds (
    update d
      (λ (x : TaskStateDesc). record x {
        depends_on_undefined = set_erase name x.depends_on_undefined;
        depends_on = set_emplace t x.depends_on;
      })
      states)

-- The end of the handler: the new task.
unfoldable pub new_task : StartupTaskExecutor → ℕ → Name → ℕ → List ℕ → StartupTaskExecutor
new_task s t name listener depending = record s {
  waiting_tasks = inc_u32 s.waiting_tasks;
  task_states =
      emplace t
        (record {
          id = t;
          name = name;
          state = deps_unknown;
          p_listener = listener;
          p_result = none;
          depends_on_undefined = [];
          depends_on = [];
          depended_on_by = depending;
          failures_reported = [];
        })
        s.task_states;
}

-- A name that is defined has no `dependedOnBy`: `value()` throws.
unfoldable pub handle_define : StartupTaskExecutor → ℕ → Name → ℕ → Exit StartupTaskExecutor
handle_define s t name listener = elim (lookup name s.task_name_map) [
  | none ↦ returned (
      new_task
        (record s {
          task_name_map =
              emplace name (record { task_id = some t; depended_on_by = none }) s.task_name_map;
        })
        t name listener [])
  | some desc ↦ elim desc.depended_on_by [
    | none ↦ thrown s
    | some depending ↦ returned (
        new_task
          (record s {
            task_states = define_for name t depending s.task_states;
            task_name_map =
                update name
                  (λ (n : TaskNameDesc). record n { depended_on_by = none; task_id = some t })
                  s.task_name_map;
          })
          t name listener depending)
  ]
]

-- What the loop over the names collects; a name that is not there is entered.
pub record Collected : Type 0 where
  pub dependencies : List ℕ
  pub undefined_dependencies : List Name
  pub names : List (Name × TaskNameDesc)

unfoldable pub collect_one : Name → Collected → Collected
collect_one n c = elim (lookup n c.names) [
  | none ↦ record c {
    names = emplace n (record { task_id = none; depended_on_by = some [] }) c.names;
  }
  | some desc ↦ elim desc.task_id [
    | some d ↦ record c { dependencies = set_emplace d c.dependencies }
    | none ↦ record c { undefined_dependencies = set_emplace n c.undefined_dependencies }
  ]
]

unfoldable pub collect : List Name → Collected → Collected
collect [] c = c
collect (n ∷ ns) c = collect ns (collect_one n c)

-- The loops over tasks: each task's `dependedOnBy` changes.
unfoldable pub change_tasks :
    (List ℕ → List ℕ) → List ℕ → List (ℕ × TaskStateDesc) → List (ℕ × TaskStateDesc)
change_tasks f [] states = states
change_tasks f (d ∷ ds) states =
    change_tasks f ds
      (update d (λ (x : TaskStateDesc). record x { depended_on_by = f x.depended_on_by }) states)

-- The loops over undefined names; `value()` throws where a name has no set.
unfoldable pub change_name :
    (List ℕ → List ℕ) → Name → StartupTaskExecutor → Exit StartupTaskExecutor
change_name f n s = elim (lookup n s.task_name_map) [
  | none ↦ returned s
  | some desc ↦ elim desc.depended_on_by [
    | none ↦ thrown s
    | some l ↦ returned (record s {
      task_name_map =
          update n (λ (x : TaskNameDesc). record x { depended_on_by = some (f l) }) s.task_name_map;
    })
  ]
]

unfoldable pub change_names :
    (List ℕ → List ℕ) → List Name → StartupTaskExecutor → Exit StartupTaskExecutor
change_names f [] s = returned s
change_names f (n ∷ ns) s = and_then (change_name f n s) (change_names f ns)

-- OnRequestFailed with InvalidTaskState.
unfoldable pub refuse : StartupTaskExecutor → ℕ → RequestType → StartupTaskExecutor
refuse s t request = record s {
  calls = s.calls ++ on_request_failed t request invalid_task_state ∷ [];
}

abbrev pub may_set_deps : TaskState → Bool
may_set_deps deps_unknown = true
may_set_deps waiting_for_deps = true
may_set_deps _ = false

-- The handler from the collected dependencies on.
unfoldable pub replace_deps :
    StartupTaskExecutor → TaskStateDesc → Collected → Exit StartupTaskExecutor
replace_deps s desc c =
    let s1 = record s {
      task_name_map = c.names;
      task_states = change_tasks (set_erase desc.id) desc.depends_on s.task_states;
    } in
    and_then (change_names (set_erase desc.id) desc.depends_on_undefined s1) λ s2.
      let s3 = record s2 {
        task_states = change_tasks (set_emplace desc.id) c.dependencies s2.task_states;
      } in
      and_then (change_names (set_emplace desc.id) c.undefined_dependencies s3) λ s4. returned (
        evaluate_dependencies
          (record s4 {
            task_states =
                update desc.id
                  (λ (x : TaskStateDesc). record x {
                    depends_on = c.dependencies;
                    depends_on_undefined = c.undefined_dependencies;
                    failures_reported = [];
                    state = waiting_for_deps;
                  })
                  s4.task_states;
          })
          desc.id)

unfoldable pub handle_set_dependencies :
    StartupTaskExecutor → ℕ → List Name → Exit StartupTaskExecutor
handle_set_dependencies s t deps = elim (lookup t s.task_states) [
  | none ↦ returned s
  | some desc ↦
      if may_set_deps desc.state
      then replace_deps s desc (
          collect deps
            (record { dependencies = []; undefined_dependencies = []; names = s.task_name_map }))
      else returned (refuse s desc.id set_deps)
]

abbrev pub may_complete : Bool → TaskState → Bool
may_complete true running = true
may_complete true _ = false
may_complete false running = true
may_complete false ready = true
may_complete false waiting_for_deps = true
may_complete false _ = false

-- The loop over the tasks that depend on the one that is complete.
unfoldable pub evaluate_all : List ℕ → StartupTaskExecutor → StartupTaskExecutor
evaluate_all [] s = s
evaluate_all (d ∷ ds) s = evaluate_all ds (evaluate_dependencies s d)

unfoldable pub handle_complete : StartupTaskExecutor → ℕ → Bool → Option ℕ → StartupTaskExecutor
handle_complete s t success result = elim (lookup t s.task_states) [
  | none ↦ s
  | some desc ↦
      if may_complete success desc.state
      then evaluate_all desc.depended_on_by (record s {
        task_states =
            update t
              (λ (x : TaskStateDesc). record x {
                p_result = result;
                state = if success then completed else failed;
              })
              s.task_states;
        waiting_tasks = dec_u32 s.waiting_tasks;
      })
      else refuse s desc.id complete
]

abbrev pub is_ready : TaskState → Bool
is_ready ready = true
is_ready _ = false

unfoldable pub handle_run : StartupTaskExecutor → ℕ → StartupTaskExecutor
handle_run s t = elim (lookup t s.task_states) [
  | none ↦ s
  | some desc ↦
      if is_ready desc.state
      then record s {
        task_states = update t (λ (x : TaskStateDesc). record x { state = running }) s.task_states;
      }
      else refuse s desc.id run
]

-- Act.
unfoldable pub act : StartupAction → StartupTaskExecutor → Exit StartupTaskExecutor
act (define_task_action t name listener) s = handle_define s t name listener
act (set_dependencies_action t deps) s = handle_set_dependencies s t deps
act (run_task_action t) s = returned (handle_run s t)
act (complete_task_action t success result) s = returned (handle_complete s t success result)

-- A task that its name leads to is there; `end()` is not read.
unfoldable pub get_task_result : StartupTaskExecutor → Name → Option ℕ
get_task_result s name = elim (lookup name s.task_name_map) [
  | none ↦ none
  | some n ↦ elim n.task_id [
    | none ↦ none
    | some t ↦ elim (lookup t s.task_states) [
      | none ↦ none
      | some desc ↦ if is_completed desc.state || is_failed desc.state then desc.p_result else none
    ]
  ]
]

unfoldable pub get_task_state : StartupTaskExecutor → Name → TaskState
get_task_state s name = elim (lookup name s.task_name_map) [
  | none ↦ unknown
  | some n ↦ elim n.task_id [
    | none ↦ undefined
    | some t ↦ elim (lookup t s.task_states) [ none ↦ unknown | some desc ↦ desc.state ]
  ]
]
