-- ===== src/Startup/Requests.antt =====
-- HandleAction: what the requests do to the tasks.
use mathlib.Core.Logic.{inl, inr, ◌≢◌, ◌⊎◌}
use holder.Prelude.{
  ℕ, ◌≡◌, refl, ap, ◌∙◌, true, List, [], ◌∷◌, Name, Option, none, some, lookup, update, emplace,
  if◌then◌else◌, set_emplace, set_erase, dec_u32, nat_eq, name_eq, arith, lookup-update,
  lookup-emplace, returned, name_beq_iff,
}
use holder.Startup.Tasks.{
  undefined, deps_unknown, waiting_for_deps, ready, running, completed, failed, TaskStateDesc,
  TaskNameDesc, StartupTaskExecutor, evaluate_dependencies,
}
use holder.Startup.Actions.{
  handle_complete, handle_set_dependencies, handle_define, evaluate_all, replace_deps, collect,
  collect_one, change_tasks, change_names, new_task, define_for, get_task_state,
}
use holder.Startup.Readiness.{evaluate_dependencies-state, state_after}

-- The executor after CompleteTask has noted the success, before it looks at the dependents.
abbrev noted : StartupTaskExecutor → ℕ → Option ℕ → StartupTaskExecutor
noted s t result = record s {
  task_states =
      update t
        (λ (x : TaskStateDesc). record x {
          p_result = result;
          state = if true then completed else failed;
        })
        s.task_states;
  waiting_tasks = dec_u32 s.waiting_tasks;
}

-- A task that depends on one other task alone, which runs and on which no third task depends, is
-- Ready once that one is completed with success, whatever its state was before: also one that has
-- failed is Ready again.
pub handle_complete_readies :
    (s : StartupTaskExecutor) (t d : ℕ) (task dep : TaskStateDesc) (result : Option ℕ)
    → t ≢ d
    → lookup t s.task_states ≡ some task
    → task.state ≡ running
    → task.depended_on_by ≡ d ∷ []
    → lookup d s.task_states ≡ some dep
    → dep.depends_on ≡ t ∷ []
    → dep.depends_on_undefined ≡ []
    → let s' = handle_complete s t true result in
      (task' : TaskStateDesc) × (dep' : TaskStateDesc) × (lookup t s'.task_states ≡ some task')
      × (task'.state ≡ completed)
      × (lookup d s'.task_states ≡ some dep')
      × (dep'.state ≡ ready)
unfolding handle_complete evaluate_all
handle_complete_readies s t d task dep result ne at going by there on no_undefined =
    let s1 = noted s t result in
    let f : TaskStateDesc → TaskStateDesc =
      λ x. record x { p_result = result; state = completed } in
    let at_t : lookup t s1.task_states ≡ some (f task) =
      ground (arith, lookup-update t t f s.task_states) in
    let at_d : lookup d s1.task_states ≡ some dep =
      ground (arith, lookup-update t d f s.task_states) in
    let e = evaluate_dependencies-state s1 d dep at_d (rw on (omega arith)) in
    let (dep', found, is, _, _) = e.0 in
    let now : state_after s1 dep ≡ ready = rw (on, no_undefined) (ground (arith, at_t)) in
    rw (at, handle_complete) (rw (going, by) (f task, dep', e.1 t ne ∙ at_t, refl, found, is ∙ now))

lookup-define_for :
    (name : Name) (t : ℕ) (ds : List ℕ) (states : List (ℕ × TaskStateDesc))
    → lookup t states ≡ none
    → lookup t (define_for name t ds states) ≡ none
unfolding define_for
lookup-define_for name t [] states h = h
lookup-define_for name t (d ∷ ds) states h =
    let change : TaskStateDesc → TaskStateDesc = λ x. record x {
      depends_on_undefined = set_erase name x.depends_on_undefined;
      depends_on = set_emplace t x.depends_on;
    } in
    lookup-define_for name t ds (update d change states)
      (ground (arith, lookup-update d t change states))

get_task_state_found :
    (s : StartupTaskExecutor) (t : ℕ) (name : Name) (n : TaskNameDesc) (d : TaskStateDesc)
    → lookup name s.task_name_map ≡ some n
    → n.task_id ≡ some t
    → lookup t s.task_states ≡ some d
    → get_task_state s name ≡ d.state
unfolding get_task_state
get_task_state_found s t name n d h g k = rw (h, get_task_state) (rw g (rw k refl))

new_task-state :
    (s : StartupTaskExecutor) (t : ℕ) (name : Name) (listener : ℕ) (ds : List ℕ)
    → lookup t s.task_states ≡ none
    → (d : TaskStateDesc) × (lookup t (new_task s t name listener ds).task_states ≡ some d)
      × (d.state ≡ deps_unknown)
unfolding new_task
new_task-state s t name listener ds h =
    let d : TaskStateDesc = record {
      id = t;
      name = name;
      state = deps_unknown;
      p_listener = listener;
      p_result = none;
      depends_on_undefined = [];
      depends_on = [];
      depended_on_by = ds;
      failures_reported = [];
    } in
    (d, ground (arith, lookup-emplace t t d s.task_states), refl)

-- HandleAction of a DefineTaskAction, with a new id for a name that is not known, or that other tasks
-- depend on and that is not defined: it returns, and once it was handled GetTaskState says DepsUnknown.
pub handle_define-get_task_state :
    (s : StartupTaskExecutor) (t : ℕ) (name : Name) (listener : ℕ)
    → lookup t s.task_states ≡ none
    → (lookup name s.task_name_map ≡ none)
      ⊎ ((desc : TaskNameDesc) × (ds : List ℕ) × (lookup name s.task_name_map ≡ some desc)
          × (desc.depended_on_by ≡ some ds))
    → (s' : StartupTaskExecutor) × (handle_define s t name listener ≡ returned s')
      × (get_task_state s' name ≡ deps_unknown)
unfolding handle_define new_task
handle_define-get_task_state s t name listener fresh (inl gone) =
    let entry : TaskNameDesc = record { task_id = some t; depended_on_by = none } in
    let s1 : StartupTaskExecutor = record s {
      task_name_map = emplace name entry s.task_name_map;
    } in
    let (d, at, is) = new_task-state s1 t name listener [] fresh in
    let named : lookup name s1.task_name_map ≡ some entry =
      ground (arith, lookup-emplace name name entry s.task_name_map, name_beq_iff name name) in
    (
      new_task s1 t name listener [],
      rw (gone, handle_define) refl,
      get_task_state_found (new_task s1 t name listener []) t name entry d named refl at ∙ is,
    )
handle_define-get_task_state s t name listener fresh (inr (desc, ds, known, by)) =
    let change : TaskNameDesc → TaskNameDesc =
      λ n. record n { depended_on_by = none; task_id = some t } in
    let s1 : StartupTaskExecutor = record s {
      task_states = define_for name t ds s.task_states;
      task_name_map = update name change s.task_name_map;
    } in
    let (d, at, is) =
      new_task-state s1 t name listener ds (lookup-define_for name t ds s.task_states fresh) in
    let named : lookup name s1.task_name_map ≡ some (change desc) =
      ground (arith, lookup-update name name change s.task_name_map, name_beq_iff name name) in
    (
      new_task s1 t name listener ds,
      rw (known, handle_define) (rw by refl),
      get_task_state_found (new_task s1 t name listener ds) t name (change desc) d named refl at
          ∙ is,
    )

evaluate_dependencies-names :
    (s : StartupTaskExecutor) (t : ℕ) → (evaluate_dependencies s t).task_name_map ≡ s.task_name_map
unfolding evaluate_dependencies
evaluate_dependencies-names s t = ground arith

get_task_state_undefined :
    (s : StartupTaskExecutor) (name : Name) (n : TaskNameDesc)
    → lookup name s.task_name_map ≡ some n
    → n.task_id ≡ none
    → get_task_state s name ≡ undefined
unfolding get_task_state
get_task_state_undefined s name n h g = rw (h, get_task_state) (rw g refl)

abbrev waits : TaskStateDesc → TaskStateDesc
waits x = record x {
  depends_on = [];
  depends_on_undefined = [];
  failures_reported = [];
  state = waiting_for_deps;
}

-- The new dependencies are none, and there were none.
replace_none :
    (s : StartupTaskExecutor) (t : ℕ) (task : TaskStateDesc) (names : List (Name × TaskNameDesc))
    → task.id ≡ t
    → task.depends_on ≡ []
    → task.depends_on_undefined ≡ []
    → replace_deps s task (record { dependencies = []; undefined_dependencies = []; names = names })
      ≡ returned (
          evaluate_dependencies
            (record s { task_name_map = names; task_states = update t waits s.task_states })
            t)
unfolding replace_deps change_tasks change_names
replace_none s t task names me on undef = rw (on, undef, me, replace_deps) refl

-- HandleAction of a SetDependenciesAction by which a task in DepsUnknown without dependencies is made
-- to wait for a name that is not known: it returns, the name is undefined then, and yet the task is
-- Ready.
pub handle_set_dependencies-get_task_state :
    (s : StartupTaskExecutor) (t : ℕ) (name : Name) (task : TaskStateDesc)
    → lookup t s.task_states ≡ some task
    → task.id ≡ t
    → task.state ≡ deps_unknown
    → task.depends_on ≡ []
    → task.depends_on_undefined ≡ []
    → lookup name s.task_name_map ≡ none
    → (s' : StartupTaskExecutor) × (task' : TaskStateDesc) × (handle_set_dependencies s t
          (name ∷ [])
        ≡ returned s')
      × (get_task_state s' name ≡ undefined)
      × (lookup t s'.task_states ≡ some task')
      × (task'.state ≡ ready)
unfolding handle_set_dependencies collect collect_one replace_deps
handle_set_dependencies-get_task_state s t name task at me is on undef gone =
    let entry : TaskNameDesc = record { task_id = none; depended_on_by = some [] } in
    let s1 : StartupTaskExecutor = record s {
      task_name_map = emplace name entry s.task_name_map;
      task_states = update t waits s.task_states;
    } in
    let at1 : lookup t s1.task_states ≡ some (waits task) =
      ground (arith, lookup-update t t waits s.task_states) in
    let e = evaluate_dependencies-state s1 t (waits task) at1 (omega arith) in
    let (task', found, now, _, _) = e.0 in
    let named : lookup name s1.task_name_map ≡ some entry =
      ground (arith, lookup-emplace name name entry s.task_name_map, name_beq_iff name name) in
    (
      evaluate_dependencies s1 t,
      task',
      rw (at, handle_set_dependencies)
          (rw is
            (rw (gone, collect, collect_one) (replace_none s t task s1.task_name_map me on undef))),
      get_task_state_undefined (evaluate_dependencies s1 t) name entry
          (ap (lookup name) (evaluate_dependencies-names s1 t) ∙ named) refl,
      found,
      now,
    )
