-- ===== src/AsyncTasks/Executor/Threads.antt =====
-- TaskExecutorThread and PostTaskToThread (AsyncTasks/AsyncExecutor.h, AsyncExecutor.cpp). `unsigned
-- long` has 32 bits, as in the Visual Studio build.
pub mod Rounds
pub mod Picking
use holder.Prelude.{
  ℕ, zero, suc, ◌+◌, ◌≡◌, refl, ◌≤◌, ◌<◌, Bool, true, false, not, ◌||◌, List, [], ◌∷◌, ◌++◌, length,
  get_elem?, count, ltb, if◌then◌else◌, Option, none, some, arith, nat_eq, dec_u32, inc_u32,
  count-append, length-append,
}
use holder.AsyncTasks.Order.{PackagedTask}
use holder.AsyncTasks.Order.Release.{ids}

-- atask::TaskState, what one call of ITask::Run says.
pub data RunState : Type 0 where
  continue complete : RunState

-- The tasks are client code: a call runs in a world that it may change.
pub record Tasks : Type 1 where
  pub World : Type 0
  pub run : World → ℕ → World × RunState

-- TaskCompletionMessage.
pub record TaskCompletionMessage : Type 0 where
  pub context_id : ℕ
  pub task_id : ℕ

pub record TaskExecutorThread : Type 0 where
  pub todo_list : List PackagedTask
  pub unfinished_business : List PackagedTask
  pub task_load : ℕ
  pub stop_flag : Bool

unfoldable pub post_task : TaskExecutorThread → PackagedTask → TaskExecutorThread
post_task t p = record t { todo_list = t.todo_list ++ p ∷ []; task_load = inc_u32 t.task_load }

-- The predicate of the wait.
unfoldable pub may_wake : TaskExecutorThread → Bool
may_wake t = not (is_empty t.todo_list) || t.stop_flag
  where
    is_empty : List PackagedTask → Bool
    is_empty [] = true
    is_empty (p ∷ l) = false

module _ (tasks : Tasks) where
  open tasks use {World, run}

  -- What one round of Run has done so far.
  pub record Round : Type 0 where
    pub world : World
    pub completion_messages : List TaskCompletionMessage
    pub unfinished : List PackagedTask
    pub load : ℕ

  -- One task is run, and put behind the unfinished ones unless it is complete.
  unfoldable pub run_one : Round → PackagedTask → Round
  run_one r p =
      let (world', state) = run r.world p.p_task in
      elim state [
        | complete ↦ record r {
          world = world';
          completion_messages =
              r.completion_messages
              ++ record { context_id = p.context_id; task_id = p.task_id } ∷ [];
          load = dec_u32 r.load;
        }
        | continue ↦ record r { world = world'; unfinished = r.unfinished ++ p ∷ [] }
      ]

  -- The loop over the tasks of the round.
  unfoldable pub run_todo : List PackagedTask → Round → Round
  run_todo [] r = r
  run_todo (p ∷ todo) r = run_todo todo (run_one r p)

  -- The loop over the unfinished tasks, `n` of them: the front one is run and popped.
  unfoldable pub run_front : List PackagedTask → Round → Round
  run_front [] r = r
  run_front (p ∷ rest) r = run_one (record r { unfinished = rest }) p

  unfoldable pub run_unfinished : ℕ → Round → Round
  run_unfinished zero r = r
  run_unfinished (suc n) r = run_unfinished n (run_front r.unfinished r)

  -- A round of the thread's loop, once it is awake: the new state, and what it reports.
  unfoldable pub thread_round :
      World → TaskExecutorThread → World × TaskExecutorThread × List TaskCompletionMessage
  thread_round w t =
      let start : Round = record {
        world = w;
        completion_messages = [];
        unfinished = t.unfinished_business;
        load = t.task_load;
      } in
      let first = run_todo t.todo_list start in
      let r = run_unfinished (length first.unfinished) first in
      (
        r.world,
        record t { todo_list = []; unfinished_business = r.unfinished; task_load = r.load },
        r.completion_messages,
      )

-- PostTaskToThread: the index of the first thread with the smallest load below the start value.
unfoldable pub pick_from : ℕ → ℕ → ℕ → List ℕ → ℕ
pick_from i smallest_load best [] = best
pick_from i smallest_load best (load ∷ loads) =
    pick_from (suc i) (if ltb load smallest_load then load else smallest_load)
      (if ltb load smallest_load then i else best) loads

unfoldable pub pick_thread : List ℕ → ℕ
unfolding pick_from
pick_thread loads = pick_from 0 100000000 0 loads
