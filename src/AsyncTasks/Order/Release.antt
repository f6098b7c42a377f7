-- ===== src/AsyncTasks/Order/Release.antt =====
-- What the loop of GetTasksToExecute does to the counts, and which tasks it hands out.
use holder.Prelude.{
  ℕ, ◌≡◌, refl, sym, ◌≤◌, ◌<◌, List, [], ◌∷◌, ◌++◌, map, length, nat_beq, if◌then◌else◌, dec_u64,
  arith, count, contains, nat_eq, get_elem?-modify, get_elem?_total, length-modify, Bool-cases, inl,
  inr, contains-count, ◌∙◌,
}
use mathlib.Core.List.{append_assoc, append-nil}
use holder.AsyncTasks.Order.{
  AsyncGraphOrder, PackagedTask, dependency_count, dependent_tasks, lower, visit_dependent,
  visit_dependents, lower_count, p_task,
}

-- The dependents whose count falls to zero, read off the counts before the loop.
pub freed : (ℕ → ℕ) → List ℕ → List ℕ
freed f [] = []
freed f (d ∷ ds) = if nat_beq (dec_u64 (f d)) 0 then d ∷ freed f ds else freed f ds

pub freed-cong :
    {f g : ℕ → ℕ} (ds : List ℕ) → ((x : ℕ) → 0 < count x ds → f x ≡ g x) → freed f ds ≡ freed g ds
unfolding freed count
freed-cong [] h = refl
freed-cong (d ∷ ds) h =
    ground (arith, h d (ground arith), freed-cong ds (λ x p. h x (ground arith)))

pub count-freed :
    (x : ℕ) (f : ℕ → ℕ) (ds : List ℕ)
    → count x (freed f ds) ≡ (if nat_beq (dec_u64 (f x)) 0 then count x ds else 0)
unfolding freed count
count-freed x f [] = ground arith
count-freed x f (d ∷ ds) = ground (arith, count-freed x f ds)

abbrev pub ids : List PackagedTask → List ℕ
ids l = map (λ p. p.task_id) l

module _ (o : AsyncGraphOrder) (d x : ℕ) where
  dependency_count-lower :
      d < length o.task_states
      → dependency_count (lower o d) x
        ≡ (if nat_beq d x then dec_u64 (dependency_count o x) else dependency_count o x)
  unfolding lower
  dependency_count-lower h =
      ground
        (arith, get_elem?-modify o.task_states d x lower_count, get_elem?_total o.task_states d h)

  dependent_tasks-lower : dependent_tasks (lower o d) x ≡ dependent_tasks o x
  unfolding lower
  dependent_tasks-lower = ground (arith, get_elem?-modify o.task_states d x lower_count)

length-lower : (o : AsyncGraphOrder) (d : ℕ) → length (lower o d).task_states ≡ length o.task_states
unfolding lower
length-lower o d = length-modify o.task_states d lower_count

pub ids-append : (l m : List PackagedTask) → ids (l ++ m) ≡ ids l ++ ids m
ids-append [] m = refl
ids-append (p ∷ l) m = ground (arith, ids-append l m)

-- One round of the loop: the state of every task, and the list of the callback.
module _ (c d : ℕ) (o : AsyncGraphOrder) (l : List PackagedTask) where
  visit_dependent-count :
      (x : ℕ)
      → d < length o.task_states
      → dependency_count (visit_dependent c d (o, l)).0 x
        ≡ (if nat_beq d x then dec_u64 (dependency_count o x) else dependency_count o x)
  unfolding visit_dependent
  visit_dependent-count x h = elim (Bool-cases (nat_beq (dependency_count (lower o d) d) 0)) [
    | inl e ↦ rw (e, visit_dependent) (dependency_count-lower o d x h)
    | inr e ↦ rw (e, visit_dependent) (dependency_count-lower o d x h)
  ]

  visit_dependent-dependents :
      (x : ℕ) → dependent_tasks (visit_dependent c d (o, l)).0 x ≡ dependent_tasks o x
  unfolding visit_dependent
  visit_dependent-dependents x = elim (Bool-cases (nat_beq (dependency_count (lower o d) d) 0)) [
    | inl e ↦ rw (e, visit_dependent) (dependent_tasks-lower o d x)
    | inr e ↦ rw (e, visit_dependent) (dependent_tasks-lower o d x)
  ]

  visit_dependent-rest :
      (length (visit_dependent c d (o, l)).0.task_states ≡ length o.task_states)
      × ((visit_dependent c d (o, l)).0.completed_tasks ≡ o.completed_tasks)
  unfolding visit_dependent lower
  visit_dependent-rest = ground (arith, length-lower o d)

  visit_dependent-ids :
      d < length o.task_states
      → ids (visit_dependent c d (o, l)).1
        ≡ ids l ++ (if nat_beq (dec_u64 (dependency_count o d)) 0 then d ∷ [] else [])
  unfolding visit_dependent
  visit_dependent-ids h = ground (
    arith,
    dependency_count-lower o d d h,
    ids-append l (record { task_id = d; p_task = p_task (lower o d) d; context_id = c } ∷ []),
    append-nil (ids l),
  )

-- The whole loop over dependents that are in range and differ from one another.
module _ (c : ℕ) where
  pub visit_dependents-rest :
      (ds : List ℕ) (o : AsyncGraphOrder) (l : List PackagedTask)
      → (length (visit_dependents c ds (o, l)).0.task_states ≡ length o.task_states)
        × ((visit_dependents c ds (o, l)).0.completed_tasks ≡ o.completed_tasks)
        × ((x : ℕ) → dependent_tasks (visit_dependents c ds (o, l)).0 x ≡ dependent_tasks o x)
  unfolding visit_dependents
  visit_dependents-rest [] o l = (refl, refl, λ x. refl)
  visit_dependents-rest (d ∷ ds) o l =
      let (o', l') = visit_dependent c d (o, l) in
      let (size, done, same) = visit_dependents-rest ds o' l' in
      let (size', done') = visit_dependent-rest c d o l in
      (size ∙ size', done ∙ done', λ x. same x ∙ visit_dependent-dependents c d o l x)

  pub visit_dependents-count :
      (x : ℕ) (ds : List ℕ) (o : AsyncGraphOrder) (l : List PackagedTask)
      → count x ds ≤ 1
      → ((d : ℕ) → 0 < count d ds → d < length o.task_states)
      → dependency_count (visit_dependents c ds (o, l)).0 x
        ≡ (if contains x ds then dec_u64 (dependency_count o x) else dependency_count o x)
  unfolding visit_dependents count contains
  visit_dependents-count x [] o l h g = refl
  visit_dependents-count x (d ∷ ds) o l h g =
      let (o', l') = visit_dependent c d (o, l) in
      let (size, _) = visit_dependent-rest c d o l in
      let in_range : d < length o.task_states = g d (ground arith) in
      let rest =
        visit_dependents-count x ds o' l' (ground arith) (λ d' h'. rw size (g d' (ground arith))) in
      rest ∙ ground (arith, visit_dependent-count c d o l x in_range, contains-count x ds)

  pub visit_dependents-ids :
      (ds : List ℕ) (o : AsyncGraphOrder) (l : List PackagedTask)
      → ((d : ℕ) → count d ds ≤ 1)
      → ((d : ℕ) → 0 < count d ds → d < length o.task_states)
      → ids (visit_dependents c ds (o, l)).1 ≡ ids l ++ freed (dependency_count o) ds
  unfolding visit_dependents count freed
  visit_dependents-ids [] o l h g = sym (append-nil (ids l))
  visit_dependents-ids (d ∷ ds) o l h g =
      let (o', l') = visit_dependent c d (o, l) in
      let (size, _) = visit_dependent-rest c d o l in
      let in_range : d < length o.task_states = g d (ground arith) in
      let once : count d ds ≤ 0 = ground (arith, h d) in
      let rest =
        visit_dependents-ids ds o' l' (λ d'. ground (arith, h d'))
          (λ d' h'. rw size (g d' (ground arith))) in
      let same : freed (dependency_count o') ds ≡ freed (dependency_count o) ds =
        freed-cong ds (λ x h'. ground (arith, visit_dependent-count c d o l x in_range)) in
      rest
      ∙ rw (visit_dependent-ids c d o l in_range, same)
          (ground (
            arith,
            append_assoc (ids l) (d ∷ []) (freed (dependency_count o) ds),
            append-nil (ids l),
          ))
