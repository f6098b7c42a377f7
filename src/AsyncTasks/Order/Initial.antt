-- ===== src/AsyncTasks/Order/Initial.antt =====
-- The constructed graph, after GetInitialTasksToExecute: the tasks that wait for nothing are out.
use holder.Prelude.{
  ℕ, zero, suc, ◌+◌, ◌≡◌, refl, ◌<◌, List, [], ◌∷◌, ◌++◌, length, get_elem?, nat_beq, if◌then◌else◌,
  none, some, arith, count, nat_eq, ◌∙◌, sym, get_elem?-map, length-map, get_elem?_out,
  get_elem?_total, inc_u32,
}
use mathlib.Core.List.{append_assoc, append-nil}
use native.Mathlib.Decide.{dec_lt}
use holder.AsyncTasks.Graph.{Vertex, AsyncGraphBuilder, froms, size}
use holder.AsyncTasks.Order.{
  AsyncGraphOrder, PackagedTask, task_state_of, initial_from, construct_graph, dependency_count,
  dependent_tasks, execute_initial, get_initial_tasks_to_execute, p_task,
}
use holder.AsyncTasks.Order.Release.{ids, ids-append}
use holder.AsyncTasks.Order.Tracking.{missing-nil, due, Tracks}

count-initial_from_lt : (x i : ℕ) (vs : List Vertex) → x < i → count x (initial_from i vs) ≡ 0
unfolding initial_from count
count-initial_from_lt x i [] h = refl
count-initial_from_lt x i (v ∷ vs) h = ground (arith, count-initial_from_lt x (suc i) vs)

count-initial_from :
    (i k : ℕ) (vs : List Vertex)
    → count (i + k) (initial_from i vs)
      ≡ elim (get_elem? vs k) [ none ↦ 0 | some v ↦ if nat_beq (length v.v_from) 0 then 1 else 0 ]
unfolding initial_from count
count-initial_from i k [] = refl
count-initial_from i zero (v ∷ vs) =
    ground (arith, count-initial_from_lt (i + 0) (suc i) vs (omega arith))
count-initial_from i (suc k) (v ∷ vs) =
    let e : i + suc k ≡ suc i + k = omega arith in
    rw e (ground (arith, count-initial_from (suc i) k vs))

execute_initial_lem :
    (c : ℕ) (is : List ℕ) (o : AsyncGraphOrder) (l : List PackagedTask)
    → ((execute_initial c is (o, l)).0.task_states ≡ o.task_states)
      × ((execute_initial c is (o, l)).0.completed_tasks ≡ o.completed_tasks)
      × (ids (execute_initial c is (o, l)).1 ≡ ids l ++ is)
unfolding execute_initial
execute_initial_lem c [] o l = (refl, refl, sym (append-nil (ids l)))
execute_initial_lem c (i ∷ is) o l =
    let o' : AsyncGraphOrder = record o { executing_tasks = inc_u32 o.executing_tasks } in
    let p : PackagedTask = record { task_id = i; p_task = p_task o i; context_id = c } in
    let (states, done, listed) = execute_initial_lem c is o' (l ++ p ∷ []) in
    let one : ids (l ++ p ∷ []) ≡ ids l ++ i ∷ [] = ids-append l (p ∷ []) ∙ refl in
    (states, done, listed ∙ rw one (append_assoc (ids l) (i ∷ []) is))

handed_initial :
    (b : AsyncGraphBuilder) (x : ℕ) → 0 + count x (initial_from 0 b.vertices) ≡ due b [] x
handed_initial b x =
    let start = count-initial_from 0 x b.vertices in
    let e : 0 + x ≡ x = omega arith in
    let start' = rw e at start in
    elim (dec_lt x (size b)) [
      | yes h ↦ ground (arith, start', missing-nil (froms b x), get_elem?_total b.vertices x h)
      | no h ↦ ground (arith, start', get_elem?_out b.vertices x)
    ]

-- What the loop of RunAllTasks starts from.
pub initial-Tracks :
    (b : AsyncGraphBuilder) (c : ℕ)
    → let (o, l) = get_initial_tasks_to_execute c (construct_graph b, []) in Tracks b o [] (ids l)
unfolding get_initial_tasks_to_execute construct_graph count
initial-Tracks b c =
    let o = construct_graph b in
    let (states, done, listed) = execute_initial_lem c (initial_from 0 b.vertices) o [] in
    record {
      states = rw states (length-map task_state_of b.vertices);
      dependents = λ x.
          rw (states, dependent_tasks) (ground (arith, get_elem?-map task_state_of b.vertices x));
      counts = λ x.
          rw (states, dependency_count)
            (ground (arith, get_elem?-map task_state_of b.vertices x, missing-nil (froms b x)));
      handed = λ x. rw listed (handed_initial b x);
      completed = done;
    }
