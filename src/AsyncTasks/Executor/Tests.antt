-- ===== src/AsyncTasks/Executor/Tests.antt =====
-- The graph of the comment in AsyncTasks/AsyncTasks.cpp, and a graph with a cycle, run by a thread
-- that reports one task at a time.
use holder.Prelude.{
  ℕ, zero, suc, ◌+◌, ◌≡◌, ◌≢◌, ◌↔◌, ◌≤◌, thrown, refl, ◌<◌, List, [], ◌∷◌, length, count, some,
  arith, nat_eq, set_emplace, if◌then◌else◌, nat_beq, false, contains, after,
}
use holder.AsyncTasks.Graph.{
  Vertex, AsyncGraphBuilder, froms, tos, size, add_task, add_dependencies, clear_dependencies,
}
use holder.AsyncTasks.Graph.Edges.{
  IsMirrored, add_task-IsMirrored, add_dependencies-IsMirrored, clear_dependencies-IsMirrored,
}
use holder.AsyncTasks.Order.Release.{ids}
use holder.AsyncTasks.Order.{
  AsyncGraphOrder, PackagedTask, construct_graph, execute_initial, get_initial_tasks_to_execute,
  lower, visit_dependent, visit_dependents, get_tasks_to_execute, has_unexecuted_tasks,
}
use holder.AsyncTasks.Executor.{
  Schedule, RunEvent, posted, reported, note_all, execution_complete, unable_to_progress,
  add_dependencies_of, result_of, run_loop, run_all_tasks,
}
use holder.AsyncTasks.Executor.Log.{posts, reports}
use holder.AsyncTasks.Executor.Steps.{Reports}
use holder.AsyncTasks.Executor.Run.{Finishes, Ranks, run_all_tasks-Finishes, run_all_tasks_acyclic}
use holder.AsyncTasks.Executor.Threads.{
  continue, complete, Tasks, TaskExecutorThread, run_one, run_todo, run_front, run_unfinished,
  thread_round, pick_thread, may_wake,
}
use holder.AsyncTasks.Executor.Threads.Rounds.{
  reported as reported_by, thread_round-keeps, IsLoaded, thread_round-IsLoaded,
}
use holder.AsyncTasks.Executor.Threads.{TaskCompletionMessage}
use holder.Prelude.{lookup}
use holder.AsyncTasks.Executor.Contexts.{
  TaskContext, Contexts, post_task_completions, delivered, post_task_completions-lookup,
  ContextStep, call_begins, call_ends, completes,
}
use holder.AsyncTasks.Executor.Threads.Picking.{IsLeast, pick_thread-IsLeast}

abbrev vertex : ℕ → List ℕ → List ℕ → Vertex
vertex p from to = record { p_task = p; v_from = from; v_to = to }

abbrev five_tasks : AsyncGraphBuilder
five_tasks = record {
  vertices =
      vertex 10 [] [] ∷ vertex 11 [] [] ∷ vertex 12 [] [] ∷ vertex 13 [] [] ∷ vertex 14 [] [] ∷ [];
}

five_tasks-IsMirrored : IsMirrored five_tasks
unfolding add_task
five_tasks-IsMirrored = add_task-IsMirrored _ 14 (
    add_task-IsMirrored _ 13 (
      add_task-IsMirrored _ 12
        (add_task-IsMirrored _ 11 (add_task-IsMirrored (record { vertices = [] }) 10 empty))))
  where
    empty : IsMirrored (record { vertices = [] })
    empty =
        unfold count in
        record {
          mirror = λ i j. refl;
          distinct = λ i j. omega arith;
          within = λ i j h. absurd (omega arith);
        }

-- A1 waits for A0 and B0, A2 for A1 and C0.
abbrev sample : AsyncGraphBuilder
sample = record {
  vertices =
      vertex 10 [] (3 ∷ [])
      ∷ vertex 11 [] (3 ∷ [])
      ∷ vertex 12 [] (4 ∷ [])
      ∷ vertex 13 (0 ∷ 1 ∷ []) (4 ∷ [])
      ∷ vertex 14 (3 ∷ 2 ∷ []) []
      ∷ [];
}

sample-IsMirrored : IsMirrored sample
unfolding add_dependencies set_emplace contains
sample-IsMirrored =
    add_dependencies-IsMirrored (after (add_dependencies five_tasks 3 (0 ∷ 1 ∷ []))) 4 (3 ∷ 2 ∷ [])
      (add_dependencies-IsMirrored five_tasks 3 (0 ∷ 1 ∷ []) five_tasks-IsMirrored)

first : List ℕ → List ℕ
first [] = []
first (x ∷ xs) = x ∷ []

rest : List ℕ → List ℕ
rest [] = []
rest (x ∷ xs) = xs

abbrev one_by_one : Schedule
one_by_one = record {
  completions = λ n running. first running;
  running = λ n running. rest running;
}

one_by_one-Reports : Reports one_by_one
unfolding first rest count
one_by_one-Reports = record {
  same = λ n running x. same x running;
  all = λ n running. all running;
  waits = λ n running. waits running;
}
  where
    same : (x : ℕ) (xs : List ℕ) → count x (first xs) + count x (rest xs) ≡ count x xs
    same x [] = omega arith
    same x (y ∷ xs) = omega arith

    all : (xs : List ℕ) → length (first xs) + length (rest xs) ≡ length xs
    all [] = omega arith
    all (y ∷ xs) = omega arith

    waits : (xs : List ℕ) → 0 < length xs → 0 < length (first xs)
    waits [] h = h
    waits (y ∷ xs) h = omega arith

program : Unit {0}
unfolding construct_graph execute_initial get_initial_tasks_to_execute lower visit_dependent
    visit_dependents get_tasks_to_execute has_unexecuted_tasks add_dependencies_of result_of
    run_loop run_all_tasks note_all first rest
program = tt

sample_runs :
    (o : AsyncGraphOrder) × (log : List RunEvent) × (run_all_tasks one_by_one 0 6
        (construct_graph sample)
      ≡ some (o, execution_complete, log))
unfolding program
sample_runs = (_, _, refl)

clear_dependencies-IsMirrored_example :
    let b' = after (clear_dependencies sample 4) in
    IsMirrored b'
    × (froms b' 4 ≡ [])
    × ((i : ℕ) → count 4 (tos b' i) ≡ 0)
    × ((i : ℕ) → i ≢ 4 → froms b' i ≡ froms sample i)
    × ((i j : ℕ) → j ≢ 4 → count j (tos b' i) ≡ count j (tos sample i))
    × (size b' ≡ size sample)
    × ((clear_dependencies sample 4 ≡ thrown sample) ↔ (size sample ≤ 4))
clear_dependencies-IsMirrored_example = clear_dependencies-IsMirrored sample 4 sample-IsMirrored

run_all_tasks-Finishes_example :
    Finishes sample (run_all_tasks one_by_one 0 6 (construct_graph sample))
run_all_tasks-Finishes_example =
    run_all_tasks-Finishes sample one_by_one 0 6 one_by_one-Reports sample-IsMirrored (omega arith)
      (omega arith)

sample-Ranks : Ranks sample (λ t. t)
unfolding count
sample-Ranks = record { falls = falls }
  where
    falls : (t d : ℕ) → 0 < count d (froms sample t) → d < t
    falls zero d h = absurd (omega arith)
    falls (suc zero) d h = absurd (omega arith)
    falls (suc (suc zero)) d h = absurd (omega arith)
    falls (suc (suc (suc zero))) d h = ground arith
    falls (suc (suc (suc (suc zero)))) d h = ground arith
    falls (suc (suc (suc (suc (suc t))))) d h = absurd (omega arith)

run_all_tasks_acyclic_example :
    (o : AsyncGraphOrder) × (log : List RunEvent) × (run_all_tasks one_by_one 0 6
        (construct_graph sample)
      ≡ some (o, execution_complete, log))
    × ((x : ℕ) → x < size sample → (count x (posts log) ≡ 1) × (count x (reports log) ≡ 1))
run_all_tasks_acyclic_example =
    run_all_tasks_acyclic sample one_by_one 0 6 (λ t. t) one_by_one-Reports sample-IsMirrored
      (omega arith) (omega arith) sample-Ranks

-- Tasks 1 and 2 wait for one another, so only task 0 runs.
abbrev cyclic : AsyncGraphBuilder
cyclic = record {
  vertices = vertex 10 [] [] ∷ vertex 11 (2 ∷ []) (2 ∷ []) ∷ vertex 12 (1 ∷ []) (1 ∷ []) ∷ [];
}

cyclic_stops :
    (o : AsyncGraphOrder) × (run_all_tasks one_by_one 0 4 (construct_graph cyclic)
      ≡ some (o, unable_to_progress, reported 0 ∷ posted 0 ∷ []))
unfolding program
cyclic_stops = (_, refl)

-- Task 7 needs three calls, task 8 one.
abbrev tasks : Tasks
tasks = record {
  World = ℕ;
  run = λ w p.
      if nat_beq p 8 then (w, complete) else (w + 1, if nat_beq w 2 then complete else continue);
}

abbrev packaged : ℕ → ℕ → PackagedTask
packaged id p = record { task_id = id; p_task = p; context_id = 0 }

abbrev busy : TaskExecutorThread
busy = record {
  todo_list = packaged 0 7 ∷ packaged 1 8 ∷ [];
  unfinished_business = [];
  task_load = 2;
  stop_flag = false;
}

-- After a round the unfinished task stays behind, and the thread sleeps until it is given another.
busy_sleeps :
    (thread_round tasks 0 busy ≡ (
      2,
      record busy { todo_list = []; unfinished_business = packaged 0 7 ∷ []; task_load = 1 },
      record { context_id = 0; task_id = 1 } ∷ [],
    ))
    × (may_wake (thread_round tasks 0 busy).1 ≡ false)
unfolding thread_round run_one run_todo run_front run_unfinished may_wake
busy_sleeps = (refl, refl)

busy-IsLoaded : IsLoaded tasks busy
busy-IsLoaded = record { load = refl; fits = omega arith }

thread_round-keeps_example :
    let (_, t', messages) = thread_round tasks 0 busy in
    (count 0 (reported_by messages) + count 0 (ids t'.unfinished_business)
      ≡ count 0 (ids busy.todo_list) + count 0 (ids busy.unfinished_business))
    × (t'.todo_list ≡ [])
thread_round-keeps_example = thread_round-keeps tasks 0 busy 0

thread_round-IsLoaded_example : IsLoaded tasks (thread_round tasks 0 busy).1
thread_round-IsLoaded_example = thread_round-IsLoaded tasks 0 busy busy-IsLoaded

pick_thread-IsLeast_example : IsLeast 100000000 (pick_thread (5 ∷ 2 ∷ 3 ∷ [])) (5 ∷ 2 ∷ 3 ∷ [])
pick_thread-IsLeast_example = pick_thread-IsLeast (5 ∷ 2 ∷ 3 ∷ []) (omega arith)

abbrev call : TaskContext
call = record { context_id = 4; completion_queue = [] }

-- One call of ExecuteGraph is under way.
abbrev contexts : Contexts
contexts = record { task_contexts = (4, call) ∷ []; free_context_id = 5 }

abbrev message : ℕ → ℕ → TaskCompletionMessage
message c t = record { context_id = c; task_id = t }

post_task_completions-lookup_example :
    lookup 4
      (post_task_completions (message 4 1 ∷ message 9 0 ∷ message 4 2 ∷ []) contexts).task_contexts
    ≡ delivered (message 4 1 ∷ message 4 2 ∷ []) (some call)
unfolding lookup
post_task_completions-lookup_example =
    post_task_completions-lookup (message 4 1 ∷ message 9 0 ∷ message 4 2 ∷ []) contexts 4

abbrev meanwhile : List ContextStep
meanwhile =
    completes (message 5 1 ∷ message 4 0 ∷ [])
    ∷ call_begins
    ∷ call_ends 4
    ∷ completes (message 6 0 ∷ message 5 2 ∷ [])
    ∷ []
