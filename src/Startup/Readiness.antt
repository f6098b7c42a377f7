-- ===== src/Startup/Readiness.antt =====
-- When tasks become Ready.
use mathlib.Core.Logic.{inl, inr, ◌≢◌}
use holder.Prelude.{
  ℕ, ◌+◌, ◌^◌, ◌≤◌, ◌<◌, ◌≡◌, refl, Bool, true, false, ◌&&◌, List, [], ◌∷◌, none, some, lookup,
  update, length, nat_beq, if◌then◌else◌, nat_eq, name_eq, arith, Bool-cases, lookup-update,
}
use holder.Startup.Tasks.{
  TaskState, ready, TaskStateDesc, StartupTaskExecutor, is_completed, no_names, Found,
  visit_dependency, visit_dependencies, evaluate_dependencies,
}

abbrev pub is_done : List (ℕ × TaskStateDesc) → ℕ → Bool
is_done states d = elim (lookup d states) [ none ↦ false | some x ↦ is_completed x.state ]

-- Each of the tasks is complete.
abbrev pub all_completed : List (ℕ × TaskStateDesc) → List ℕ → Bool
all_completed states [] = true
all_completed states (d ∷ ds) = is_done states d && all_completed states ds

completed_count : List (ℕ × TaskStateDesc) → List ℕ → ℕ
completed_count states [] = 0
completed_count states (d ∷ ds) = (if is_done states d then 1 else 0) + completed_count states ds

completed_count_le :
    (states : List (ℕ × TaskStateDesc)) (ds : List ℕ) → completed_count states ds ≤ length ds
unfolding completed_count
completed_count_le states [] = omega arith
completed_count_le states (d ∷ ds) = ground (arith, completed_count_le states ds)

completed_count_full :
    (states : List (ℕ × TaskStateDesc)) (ds : List ℕ)
    → nat_beq (completed_count states ds) (length ds) ≡ all_completed states ds
unfolding completed_count
completed_count_full states [] = refl
completed_count_full states (d ∷ ds) =
    ground (arith, completed_count_full states ds, completed_count_le states ds)

visit_dependency-n_complete :
    (states : List (ℕ × TaskStateDesc)) (t d : ℕ) (f : Found)
    → f.n_complete + 1 < 2 ^ 32
    → (visit_dependency states t d f).n_complete
      ≡ f.n_complete + (if is_done states d then 1 else 0)
unfolding visit_dependency
visit_dependency-n_complete states t d f h = ground arith

visit_dependencies-n_complete :
    (states : List (ℕ × TaskStateDesc)) (t : ℕ) (ds : List ℕ) (f : Found)
    → f.n_complete + length ds < 2 ^ 32
    → (visit_dependencies states t ds f).n_complete ≡ f.n_complete + completed_count states ds
unfolding visit_dependencies completed_count
visit_dependencies-n_complete states t [] f h = omega arith
visit_dependencies-n_complete states t (d ∷ ds) f h =
    let step = visit_dependency-n_complete states t d f (omega arith) in
    let small : (visit_dependency states t d f).n_complete + length ds < 2 ^ 32 =
      ground (arith, step) in
    omega
      (arith, step, visit_dependencies-n_complete states t ds (visit_dependency states t d f) small)

-- The state that EvaluateDependencies leaves a task in: Ready if all that it waits for is defined and
-- complete, else as it was.
abbrev pub state_after : StartupTaskExecutor → TaskStateDesc → TaskState
state_after s desc =
    if all_completed s.task_states desc.depends_on && no_names desc.depends_on_undefined
    then ready
    else desc.state

module _ (s : StartupTaskExecutor) (t : ℕ) (desc : TaskStateDesc)
    (at : lookup t s.task_states ≡ some desc) (bound : length desc.depends_on < 2 ^ 32) where
  -- What the loop of EvaluateDependencies finds.
  abbrev found : Found
  found =
      visit_dependencies s.task_states desc.id desc.depends_on
        (record { n_complete = 0; reported = desc.failures_reported; made = [] })

  counted :
      nat_beq found.n_complete (length desc.depends_on)
      ≡ all_completed s.task_states desc.depends_on
  counted =
      let start : Found = record { n_complete = 0; reported = desc.failures_reported; made = [] } in
      let n =
        visit_dependencies-n_complete s.task_states desc.id desc.depends_on start (omega arith) in
      ground (arith, n, completed_count_full s.task_states desc.depends_on)

  abbrev reported_in : TaskStateDesc → TaskStateDesc
  reported_in x = record x { failures_reported = found.reported }

  abbrev readied : TaskStateDesc → TaskStateDesc
  readied x = record x { failures_reported = found.reported; state = ready }

  evaluated_ready :
      all_completed s.task_states desc.depends_on && no_names desc.depends_on_undefined ≡ true
      → (evaluate_dependencies s t).task_states ≡ update t readied s.task_states
  unfolding evaluate_dependencies
  evaluated_ready h = ground (arith, counted)

  evaluated_waiting :
      all_completed s.task_states desc.depends_on && no_names desc.depends_on_undefined ≡ false
      → (evaluate_dependencies s t).task_states ≡ update t reported_in s.task_states
  unfolding evaluate_dependencies
  evaluated_waiting h = ground (arith, counted)

-- EvaluateDependencies of a task that is there and has fewer than 2^32 dependencies makes it Ready
-- exactly when all of them are defined and complete, and else leaves its state; the states and
-- dependencies of all other tasks stay.
pub evaluate_dependencies-state :
    (s : StartupTaskExecutor) (t : ℕ) (desc : TaskStateDesc)
    → lookup t s.task_states ≡ some desc
    → length desc.depends_on < 2 ^ 32
    → ((desc' : TaskStateDesc) × (lookup t (evaluate_dependencies s t).task_states ≡ some desc')
        × (desc'.state ≡ state_after s desc)
        × (desc'.depends_on ≡ desc.depends_on)
        × (desc'.depended_on_by ≡ desc.depended_on_by))
      × ((q : ℕ)
          → q ≢ t
          → lookup q (evaluate_dependencies s t).task_states ≡ lookup q s.task_states)
evaluate_dependencies-state s t desc at bound =
    let test = all_completed s.task_states desc.depends_on && no_names desc.depends_on_undefined in
    elim (Bool-cases test) [
      | inl h ↦
          let there = lookup-update t t (readied s t desc at bound) s.task_states in
          let other = λ (q : ℕ). lookup-update t q (readied s t desc at bound) s.task_states in
          rw (evaluated_ready s t desc at bound h) (
            (readied s t desc at bound desc, ground arith, ground arith, refl, refl),
            λ q ne. ground (arith, other q),
          )
      | inr h ↦
          let there = lookup-update t t (reported_in s t desc at bound) s.task_states in
          let other = λ (q : ℕ). lookup-update t q (reported_in s t desc at bound) s.task_states in
          rw (evaluated_waiting s t desc at bound h) (
            (reported_in s t desc at bound desc, ground arith, ground arith, refl, refl),
            λ q ne. ground (arith, other q),
          )
    ]
