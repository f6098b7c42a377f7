-- ===== src/AsyncTasks/Executor.antt =====
-- TaskContext::RunAllTasks (AsyncTasks/AsyncExecutor.h, AsyncExecutor.cpp). The
-- worker threads and the waits are a schedule: which posted tasks have completed by each round.
pub mod Log
pub mod Steps
pub mod Run
pub mod Threads
pub mod Contexts
pub mod Tests
use holder.Prelude.{
  ℕ, zero, suc, ◌+◌, ◌-◌, ◌%◌, ◌^◌, ◌≡◌, ◌≤◌, ◌<◌, Bool, List, [], ◌∷◌, ◌++◌, length, count,
  nat_beq, if◌then◌else◌, Option, none, some, emplace, erase, inc_u64, nat_eq,
}
use holder.AsyncTasks.Graph.{AsyncGraphBuilder}
use holder.AsyncTasks.Order.{
  AsyncGraphOrder, PackagedTask, has_unexecuted_tasks, get_initial_tasks_to_execute,
  get_tasks_to_execute,
}
use holder.AsyncTasks.Order.Release.{ids}

pub data TaskResult : Type 0 where
  execution_complete unable_to_progress : TaskResult

-- The threads in round `n`: given the tasks that are posted and not reported, those whose
-- completions are in the queue when the wait ends, in the queue's order, and those still running.
pub record Schedule : Type 0 where
  pub completions : ℕ → List ℕ → List ℕ
  pub running : ℕ → List ℕ → List ℕ

-- What RunAllTasks does with a task: it posts it to a thread, and takes its completion out of the queue.
pub data RunEvent : Type 0 where
  posted : ℕ → RunEvent
  reported : ℕ → RunEvent

-- The events of a list of tasks, in front of those before them: the latest comes first.
unfoldable pub note_all : (ℕ → RunEvent) → List ℕ → List RunEvent → List RunEvent
note_all f [] log = log
note_all f (t ∷ ts) log = note_all f ts (f t ∷ log)

-- The loop over the completion queue.
unfoldable pub add_dependencies_of :
    ℕ → List ℕ → AsyncGraphOrder × List PackagedTask → AsyncGraphOrder × List PackagedTask
add_dependencies_of c [] s = s
add_dependencies_of c (t ∷ queue) s = add_dependencies_of c queue (get_tasks_to_execute c t s)

unfoldable pub result_of : AsyncGraphOrder → TaskResult
result_of o = if has_unexecuted_tasks o then unable_to_progress else execution_complete

-- `x -= y` on size_t.
abbrev pub sub_u64 : ℕ → ℕ → ℕ
sub_u64 x y = (x + 2 ^ 64 - y) % 2 ^ 64

module _ (s : Schedule) (c : ℕ) where
  -- The `while` loop in round `n`; `running` has the ids of the tasks that were posted before and not
  -- reported, and `log` all that happened.
  unfoldable pub run_loop :
      ℕ
      → ℕ
      → ℕ
      → List ℕ
      → List RunEvent
      → AsyncGraphOrder × List PackagedTask
      → Option (AsyncGraphOrder × TaskResult × List RunEvent)
  run_loop zero n pending running log (o, l) = none
  run_loop (suc fuel) n pending running log (o, l) =
      let all_posted = running ++ ids l in
      let queue = s.completions n all_posted in
      let (o', l') = add_dependencies_of c queue (o, []) in
      let next =
        run_loop fuel (suc n) ((sub_u64 pending (length queue) + length l') % 2 ^ 64)
          (s.running n all_posted) (note_all reported queue (note_all posted (ids l) log))
          (o', l') in
      if nat_beq pending 0 then some (o, result_of o, log) else next

  unfoldable pub run_all_tasks :
      ℕ → AsyncGraphOrder → Option (AsyncGraphOrder × TaskResult × List RunEvent)
  run_all_tasks fuel graph =
      let (o, l) = get_initial_tasks_to_execute c (graph, []) in
      run_loop fuel 0 (length l) [] [] (o, l)
