-- ===== src/AsyncTasks/Order/Tracking.antt =====
-- The counted graph against the tasks that are complete and those that are handed out: a task is
-- handed out exactly when all that it waits for is complete.
use holder.Prelude.{
  ℕ, ◌+◌, ◌≡◌, refl, ◌≤◌, ◌<◌, ◌^◌, List, [], ◌∷◌, ◌++◌, length, nat_beq, ltb, ◌&&◌, if◌then◌else◌,
  dec_u32, inc_u32, arith, count, nat_eq, contains-count, count-append, ◌∙◌, get_elem?_out,
}
use holder.AsyncTasks.Graph.{AsyncGraphBuilder, froms, tos, size}
use holder.AsyncTasks.Graph.Edges.{IsMirrored}
use holder.AsyncTasks.Order.{
  AsyncGraphOrder, PackagedTask, dependency_count, dependent_tasks, visit_dependents,
  get_tasks_to_execute,
}
use holder.AsyncTasks.Order.Release.{
  freed, ids, count-freed, visit_dependents-rest, visit_dependents-count, visit_dependents-ids,
}

-- How many of the tasks `ds` are not complete.
pub missing : List ℕ → List ℕ → ℕ
missing done [] = 0
missing done (d ∷ ds) = (if nat_beq (count d done) 0 then 1 else 0) + missing done ds

pub missing-nil : (ds : List ℕ) → missing [] ds ≡ length ds
unfolding missing count
missing-nil [] = refl
missing-nil (d ∷ ds) = ground (arith, missing-nil ds)

pub missing-cons :
    (t : ℕ) (done ds : List ℕ)
    → count t done ≡ 0
    → missing (t ∷ done) ds + count t ds ≡ missing done ds
unfolding missing count
missing-cons t done [] h = refl
missing-cons t done (d ∷ ds) h = ground (arith, missing-cons t done ds h)

pub missing-zero :
    (done ds : List ℕ) → ((d : ℕ) → 0 < count d ds → 0 < count d done) → missing done ds ≡ 0
unfolding missing count
missing-zero done [] h = refl
missing-zero done (d ∷ ds) h =
    ground (arith, h d (ground arith), missing-zero done ds (λ x p. h x (ground arith)))

-- Handed out once, if it is a task and waits for nothing more; else not at all.
abbrev pub due : AsyncGraphBuilder → List ℕ → ℕ → ℕ
due b done x = if ltb x (size b) && nat_beq (missing done (froms b x)) 0 then 1 else 0

pub record Tracks (b : AsyncGraphBuilder) (o : AsyncGraphOrder) (done flight : List ℕ)
    : Type 0 where
  pub states : length o.task_states ≡ size b
  pub dependents : (x : ℕ) → dependent_tasks o x ≡ tos b x
  pub counts : (x : ℕ) → dependency_count o x ≡ missing done (froms b x)
  pub handed : (x : ℕ) → count x done + count x flight ≡ due b done x
  pub completed : o.completed_tasks ≡ length done

-- The order of the tasks that are handed out does not matter.
pub Tracks-reorder :
    {b : AsyncGraphBuilder} {o : AsyncGraphOrder} {done flight flight' : List ℕ}
    → ((x : ℕ) → count x flight ≡ count x flight')
    → Tracks b o done flight
    → Tracks b o done flight'
Tracks-reorder h t = record {
  states = t.states;
  dependents = t.dependents;
  counts = t.counts;
  handed = λ x. omega (arith, h x, t.handed x);
  completed = t.completed;
}

module _ (b : AsyncGraphBuilder) (o : AsyncGraphOrder) (c t : ℕ) (done rest : List ℕ)
    (l : List PackagedTask) (m : IsMirrored b) (v : Tracks b o done (t ∷ rest)) where
  -- The task that completes was not complete before.
  fresh : count t done ≡ 0
  unfolding count
  fresh = ground (arith, v.handed t)

  -- Its dependents are the vertices that wait for it, each once.
  tos-once : (x : ℕ) → count x (tos b t) ≤ 1
  tos-once x = omega (arith, m.mirror x t, m.distinct x t)

  tos-range : (x : ℕ) → 0 < count x (tos b t) → x < length o.task_states
  unfolding count
  tos-range x h = rw v.states (ground (arith, m.mirror x t, get_elem?_out b.vertices x))

  missing-tos :
      (x : ℕ) → missing (t ∷ done) (froms b x) + count x (tos b t) ≡ missing done (froms b x)
  missing-tos x = omega (arith, m.mirror x t, missing-cons t done (froms b x) fresh)

  abbrev counted : AsyncGraphOrder
  counted = record o {
    executing_tasks = dec_u32 o.executing_tasks;
    completed_tasks = inc_u32 o.completed_tasks;
  }

  visited : AsyncGraphOrder × List PackagedTask
  visited = visit_dependents c (tos b t) (counted, l)

  visited-counts : (x : ℕ) → dependency_count visited.0 x ≡ missing (t ∷ done) (froms b x)
  unfolding visited
  visited-counts x =
      visit_dependents-count c x (tos b t) counted l (tos-once x) tos-range
      ∙ ground (arith, v.counts x, missing-tos x, contains-count x (tos b t), tos-once x)

  visited-handed :
      (x : ℕ)
      → count x (t ∷ done) + count x (rest ++ freed (dependency_count o) (tos b t))
        ≡ due b (t ∷ done) x
  unfolding count
  visited-handed x = ground (
    arith,
    v.handed x,
    v.counts x,
    missing-tos x,
    tos-once x,
    tos-range x,
    v.states,
    count-append x rest (freed (dependency_count o) (tos b t)),
    count-freed x (dependency_count o) (tos b t),
  )

  visited-Tracks :
      length done + 1 < 2 ^ 32
      → Tracks b visited.0 (t ∷ done) (rest ++ freed (dependency_count o) (tos b t))
  unfolding visited
  visited-Tracks bound =
      let (size, complete, same) = visit_dependents-rest c (tos b t) counted l in
      record {
        states = size ∙ v.states;
        dependents = λ x. same x ∙ v.dependents x;
        counts = visited-counts;
        handed = visited-handed;
        completed = complete ∙ rw v.completed (omega arith);
      }

  visited_lem : get_tasks_to_execute c t (o, l) ≡ visited
  unfolding get_tasks_to_execute visited
  visited_lem = rw (v.dependents t)

  -- GetTasksToExecute, called with a task that completes, hands out the tasks that are due now.
  pub get_tasks_to_execute-Tracks :
      length done + 1 < 2 ^ 32
      → Tracks b
          (get_tasks_to_execute c t (o, l)).0
          (t ∷ done)
          (rest ++ freed (dependency_count o) (tos b t))
  get_tasks_to_execute-Tracks bound = rw visited_lem (visited-Tracks bound)

  pub ids-get_tasks_to_execute :
      ids (get_tasks_to_execute c t (o, l)).1 ≡ ids l ++ freed (dependency_count o) (tos b t)
  unfolding visited
  ids-get_tasks_to_execute =
      rw visited_lem (visit_dependents-ids c (tos b t) counted l tos-once tos-range)
