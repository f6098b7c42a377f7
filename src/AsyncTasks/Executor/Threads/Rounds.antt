-- ===== src/AsyncTasks/Executor/Threads/Rounds.antt =====
-- A round of a worker thread loses no task and reports none twice.
use holder.Prelude.{
  ℕ, zero, suc, ◌+◌, ◌≡◌, refl, ◌∙◌, ◌<◌, ◌^◌, List, [], ◌∷◌, ◌++◌, length, count, map, arith,
  nat_eq, count-append, length-append, ◌⊎◌, inl, inr,
}
use holder.AsyncTasks.Order.{PackagedTask}
use holder.AsyncTasks.Order.Release.{ids, ids-append}
use holder.AsyncTasks.Executor.Threads.{
  RunState, continue, complete, Tasks, TaskCompletionMessage, TaskExecutorThread, post_task, Round,
  run_one, run_todo, run_front, run_unfinished, thread_round,
}

abbrev pub reported : List TaskCompletionMessage → List ℕ
reported l = map (λ m. m.task_id) l

reported-append : (l m : List TaskCompletionMessage) → reported (l ++ m) ≡ reported l ++ reported m
reported-append [] m = refl
reported-append (x ∷ l) m = ground (arith, reported-append l m)

RunState-cases : (s : RunState) → (s ≡ continue) ⊎ (s ≡ complete)
RunState-cases continue = inl refl
RunState-cases complete = inr refl

module _ (tasks : Tasks) where
  open tasks use {World, run}

  -- How often the round still holds task `x`, reported or unfinished.
  abbrev held : ℕ → Round tasks → ℕ
  held x r = count x (reported r.completion_messages) + count x (ids r.unfinished)

  -- The load counts the unfinished tasks and `n` more.
  abbrev Loads : ℕ → Round tasks → Type 0
  Loads n r = (r.load ≡ length r.unfinished + n) × (r.load < 2 ^ 32)

  module _ (r : Round tasks) (p : PackagedTask) where
    held-run_one : (x : ℕ) → held x (run_one tasks r p) ≡ held x r + count x (p.task_id ∷ [])
    unfolding run_one
    held-run_one x = elim (RunState-cases (run r.world p.p_task).1) [
      | inl e ↦
          rw (e, run_one)
            (ground (
              arith,
              ids-append r.unfinished (p ∷ []),
              count-append x (ids r.unfinished) (p.task_id ∷ []),
            ))
      | inr e ↦
          rw (e, run_one)
            (ground (
              arith,
              reported-append r.completion_messages
                  (record { context_id = p.context_id; task_id = p.task_id } ∷ []),
              count-append x (reported r.completion_messages) (p.task_id ∷ []),
            ))
    ]

    Loads-run_one : (n : ℕ) → Loads (suc n) r → Loads n (run_one tasks r p)
    unfolding run_one
    Loads-run_one n h = elim (RunState-cases (run r.world p.p_task).1) [
      | inl e ↦ rw (e, run_one) (ground (arith, length-append r.unfinished (p ∷ [])))
      | inr e ↦ rw (e, run_one) (ground arith)
    ]

  held-run_todo :
      (x : ℕ) (todo : List PackagedTask) (r : Round tasks)
      → held x (run_todo tasks todo r) ≡ held x r + count x (ids todo)
  unfolding run_todo count
  held-run_todo x [] r = omega arith
  held-run_todo x (p ∷ todo) r =
      held-run_todo x todo (run_one tasks r p) ∙ ground (arith, held-run_one r p x)

  Loads-run_todo :
      (todo : List PackagedTask) (n : ℕ) (r : Round tasks)
      → Loads (length todo + n) r
      → Loads n (run_todo tasks todo r)
  unfolding run_todo
  Loads-run_todo [] n r h = ground arith
  Loads-run_todo (p ∷ todo) n r h =
      Loads-run_todo todo n (run_one tasks r p) (Loads-run_one r p (length todo + n) (ground arith))

  held-run_front :
      (x : ℕ) (l : List PackagedTask) (r : Round tasks)
      → r.unfinished ≡ l
      → held x (run_front tasks l r) ≡ held x r
  unfolding run_front count
  held-run_front x [] r h = refl
  held-run_front x (p ∷ rest) r h =
      ground (arith, held-run_one (record r { unfinished = rest }) p x)

  Loads-run_front :
      (l : List PackagedTask) (r : Round tasks)
      → r.unfinished ≡ l
      → Loads 0 r
      → Loads 0 (run_front tasks l r)
  unfolding run_front
  Loads-run_front [] r h v = v
  Loads-run_front (p ∷ rest) r h v =
      Loads-run_one (record r { unfinished = rest }) p 0 (ground arith)

  held-run_unfinished : (x n : ℕ) (r : Round tasks) → held x (run_unfinished tasks n r) ≡ held x r
  unfolding run_unfinished
  held-run_unfinished x zero r = refl
  held-run_unfinished x (suc n) r =
      held-run_unfinished x n (run_front tasks r.unfinished r)
      ∙ held-run_front x r.unfinished r refl

  Loads-run_unfinished : (n : ℕ) (r : Round tasks) → Loads 0 r → Loads 0 (run_unfinished tasks n r)
  unfolding run_unfinished
  Loads-run_unfinished zero r v = v
  Loads-run_unfinished (suc n) r v =
      Loads-run_unfinished n (run_front tasks r.unfinished r)
        (Loads-run_front r.unfinished r refl v)

  -- A round takes the tasks of the to-do list and the unfinished ones, and each is afterwards either
  -- reported or unfinished, as often as it was there; the to-do list is empty.
  pub thread_round-keeps :
      (w : World) (t : TaskExecutorThread) (x : ℕ)
      → let (_, t', messages) = thread_round tasks w t in
        (count x (reported messages) + count x (ids t'.unfinished_business)
          ≡ count x (ids t.todo_list) + count x (ids t.unfinished_business))
        × (t'.todo_list ≡ [])
  unfolding thread_round count
  thread_round-keeps w t x =
      let start : Round tasks = record {
        world = w;
        completion_messages = [];
        unfinished = t.unfinished_business;
        load = t.task_load;
      } in
      let first = run_todo tasks t.todo_list start in
      (
        omega (
          arith,
          held-run_unfinished x (length first.unfinished) first,
          held-run_todo x t.todo_list start,
        ),
        refl,
      )

  -- The load that PostTaskToThread compares is the number of tasks that the thread still holds.
  pub record IsLoaded (t : TaskExecutorThread) : Type 0 where
    pub load : t.task_load ≡ length t.todo_list + length t.unfinished_business
    pub fits : t.task_load < 2 ^ 32

  -- A round keeps the load equal to the number of tasks that the thread holds, below 2^32.
  pub thread_round-IsLoaded :
      (w : World) (t : TaskExecutorThread) → IsLoaded t → IsLoaded (thread_round tasks w t).1
  unfolding thread_round
  thread_round-IsLoaded w t v =
      let start : Round tasks = record {
        world = w;
        completion_messages = [];
        unfinished = t.unfinished_business;
        load = t.task_load;
      } in
      let first = run_todo tasks t.todo_list start in
      let loads =
        Loads-run_unfinished (length first.unfinished) first
          (Loads-run_todo t.todo_list 0 start (omega (arith, v.load, v.fits))) in
      record { load = omega (arith, loads.0); fits = loads.1 }

  pub post_task-IsLoaded :
      (t : TaskExecutorThread) (p : PackagedTask)
      → t.task_load + 1 < 2 ^ 32
      → IsLoaded t
      → IsLoaded (post_task t p)
  unfolding post_task
  post_task-IsLoaded t p h v = record {
    load = omega (arith, v.load, length-append t.todo_list (p ∷ []));
    fits = omega arith;
  }
