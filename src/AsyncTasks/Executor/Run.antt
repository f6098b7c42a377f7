-- ===== src/AsyncTasks/Executor/Run.antt =====
-- RunAllTasks ends, posts each task after all that it waits for is reported, and leaves only what is
-- on a cycle or behind one.
use holder.Prelude.{
  ℕ, zero, suc, ◌+◌, ◌≡◌, refl, sym, ap, ◌∙◌, ◌↔◌, ◌<◌, ◌%◌, ◌^◌, List, [], ◌∷◌, ◌++◌, length,
  count, nat_beq, Option, some, arith, nat_eq, count-append, length-append, length-map,
  count_of_full, length_of_all, Bool-cases, inl, inr,
}
use mathlib.Core.List.{append-nil}
use holder.AsyncTasks.Graph.{AsyncGraphBuilder, froms, size}
use holder.AsyncTasks.Graph.Edges.{IsMirrored}
use holder.AsyncTasks.Order.{
  AsyncGraphOrder, PackagedTask, construct_graph, has_unexecuted_tasks,
  get_initial_tasks_to_execute,
}
use holder.AsyncTasks.Order.Release.{ids}
use holder.AsyncTasks.Order.Tracking.{missing, missing-zero, due, Tracks, Tracks-reorder}
use holder.AsyncTasks.Order.Initial.{initial-Tracks}
use holder.AsyncTasks.Executor.Log.{posts, reports, IsOrdered, push, length-push}
use holder.AsyncTasks.Executor.{
  Schedule, TaskResult, RunEvent, posted, reported, note_all, execution_complete,
  add_dependencies_of, result_of, run_loop, run_all_tasks, sub_u64,
}
use holder.AsyncTasks.Executor.Steps.{Reports, Tracks-length, advance, Records, Records-round}

-- How a run ends: `log` has what it did, the latest first. Each task was posted when all that it waits
-- for was reported, and every report is of a task posted before; all that was posted was reported; a
-- task was posted once if all that it waits for was reported, and else not at all.
pub record Finishes (b : AsyncGraphBuilder)
    (r : Option (AsyncGraphOrder × TaskResult × List RunEvent)) : Type 0 where
  pub graph : AsyncGraphOrder
  pub result : TaskResult
  pub log : List RunEvent
  pub returns : r ≡ some (graph, result, log)
  pub order : IsOrdered b log
  pub answered : (x : ℕ) → count x (reports log) ≡ count x (posts log)
  pub closed : (x : ℕ) → count x (posts log) ≡ due b (reports log) x
  pub verdict : (result ≡ execution_complete) ↔ ((x : ℕ) → x < size b → count x (posts log) ≡ 1)

count-nil : (x : ℕ) (xs : List ℕ) → length xs ≡ 0 → count x xs ≡ 0
unfolding count
count-nil x [] h = refl
count-nil x (y ∷ xs) h = absurd (omega arith)

verdict-Tracks :
    {b : AsyncGraphBuilder} {o : AsyncGraphOrder} {done flight : List ℕ}
    → Tracks b o done flight
    → length flight ≡ 0
    → (result_of o ≡ execution_complete) ↔ ((x : ℕ) → x < size b → count x done ≡ 1)
unfolding result_of has_unexecuted_tasks
verdict-Tracks {b} {o} {done} {flight} v h = (
  λ e.
      count_of_full (size b) done (λ t p. ground (arith, v.handed t))
        (λ t p. ground (arith, v.handed t)) (ground (arith, v.completed, v.states)),
  λ all.
      let full =
        length_of_all (size b) done (λ t p. ground (arith, v.handed t))
          (λ t p. ground (arith, v.handed t)) all in
      ground (arith, v.completed, v.states),
)

-- The loop ends when nothing is pending.
finished :
    {b : AsyncGraphBuilder} {o : AsyncGraphOrder} {done running flight : List ℕ}
    {log : List RunEvent}
    → Tracks b o done flight
    → Records b done running log
    → length flight ≡ 0
    → length running ≡ 0
    → Finishes b (some (o, result_of o, log))
finished {b} {o} {done} {running} {flight} {log} v w h g =
    let same : (x : ℕ) → count x (posts log) ≡ count x done =
      λ x. omega (arith, w.started x, count-nil x running g) in
    let (to, from) = verdict-Tracks v h in
    record {
      graph = o;
      result = result_of o;
      log = log;
      returns = refl;
      order = w.ordered;
      answered = λ x. ap (count x) w.told ∙ sym (same x);
      closed = λ x. rw w.told (omega (arith, v.handed x, count-nil x flight h, same x));
      verdict = (λ e x p. same x ∙ to e x p, λ all. from (λ x p. sym (same x) ∙ all x p));
    }

module _ (b : AsyncGraphBuilder) (s : Schedule) (c : ℕ) (fair : Reports s) (m : IsMirrored b)
    (bound : size b < 2 ^ 32) where
  run_loop-Finishes :
      (fuel n pending : ℕ) (running done : List ℕ) (log : List RunEvent) (o : AsyncGraphOrder)
      (l : List PackagedTask)
      → Tracks b o done (running ++ ids l)
      → Records b done running log
      → pending ≡ length (running ++ ids l)
      → size b < fuel + length done
      → Finishes b (run_loop s c fuel n pending running log (o, l))
  unfolding run_loop
  run_loop-Finishes zero n pending running done log o l v w e f =
      absurd (omega (arith, Tracks-length v, length-append done (running ++ ids l)))
  run_loop-Finishes (suc fuel) n pending running done log o l v w e f =
      let all_posted = running ++ ids l in
      let queue = s.completions n all_posted in
      let still = s.running n all_posted in
      let split : (x : ℕ) → count x all_posted ≡ count x (queue ++ (still ++ ids [])) = λ x. omega (
        arith,
        fair.same n all_posted x,
        count-append x queue (still ++ ids []),
        ap (count x) (append-nil still),
      ) in
      let a = advance b c done still queue o [] m bound (Tracks-reorder split v) in
      let (o', l') = add_dependencies_of c queue (o, []) in
      let pending' = (sub_u64 pending (length queue) + length l') % 2 ^ 64 in
      let tasks = length-map (λ (p : PackagedTask). p.task_id) l' in
      let longer = length-push queue done in
      let exact : pending' ≡ length (still ++ ids l') = omega (
        arith,
        fair.all n all_posted,
        Tracks-length v,
        length-append done all_posted,
        Tracks-length a.tracks,
        length-append (push queue done) (still ++ ids l'),
        length-append still (ids l'),
        tasks,
      ) in
      elim (Bool-cases (nat_beq pending 0)) [
        | inl h ↦ rw h (finished v w (ground arith) (ground (arith, length-append running (ids l))))
        | inr h ↦
            let some_posted : 0 < length all_posted = ground arith in
            rw h (
              run_loop-Finishes fuel (suc n) pending' still (push queue done)
                (note_all reported queue (note_all posted (ids l) log)) o' l' a.tracks
                (Records-round b o done running (ids l) queue still log v w
                  (fair.same n all_posted))
                exact (omega (arith, longer, fair.waits n all_posted some_posted)))
      ]

-- On a graph whose edge sets mirror one another, of fewer than 2^32 tasks, with fuel above their
-- number, and if the threads report every task that is posted once and each wait ends with a
-- report: RunAllTasks returns. It posted each task at most once, and only after all that it waits for
-- was reported; every report was of a task posted before it; all that was posted was reported when it
-- returned; a task for which all that it waits for was reported was posted; and the result is
-- ExecutionComplete exactly when all tasks were posted.
pub run_all_tasks-Finishes :
    (b : AsyncGraphBuilder) (s : Schedule) (c fuel : ℕ)
    → Reports s
    → IsMirrored b
    → size b < 2 ^ 32
    → size b < fuel
    → Finishes b (run_all_tasks s c fuel (construct_graph b))
unfolding run_all_tasks reports posts count
run_all_tasks-Finishes b s c fuel fair m bound f =
    let (o, l) = get_initial_tasks_to_execute c (construct_graph b, []) in
    run_loop-Finishes b s c fair m bound fuel 0 (length l) [] [] [] o l (initial-Tracks b c)
      (record { ordered = tt; told = refl; started = λ x. refl })
      (sym (length-map (λ (p : PackagedTask). p.task_id) l)) (omega arith)

-- An order of the tasks in which each stands above all that it waits for.
pub record Ranks (b : AsyncGraphBuilder) (rank : ℕ → ℕ) : Type 0 where
  pub falls : (t d : ℕ) → 0 < count d (froms b t) → rank d < rank t

closed-all :
    (b : AsyncGraphBuilder) (rank : ℕ → ℕ) (done : List ℕ)
    → IsMirrored b
    → Ranks b rank
    → ((x : ℕ) → count x done ≡ due b done x)
    → (k x : ℕ) → rank x < k
    → x < size b
    → count x done ≡ 1
closed-all b rank done m r h zero x p q = absurd (omega arith)
closed-all b rank done m r h (suc k) x p q =
    let none_missing : missing done (froms b x) ≡ 0 = missing-zero done (froms b x) λ d e.
      omega
        (arith, closed-all b rank done m r h k d (omega (arith, r.falls x d e)) (m.within x d e)) in
    ground (arith, h x)

-- On a graph whose edge sets mirror one another, of fewer than 2^32 tasks, with a rank that falls
-- from each task to those that it waits for, with fuel above the number of tasks, and if the threads
-- report every task that is posted once and each wait ends with a report: RunAllTasks returns
-- ExecutionComplete, and has posted every task once and taken its report.
pub run_all_tasks_acyclic :
    (b : AsyncGraphBuilder) (s : Schedule) (c fuel : ℕ) (rank : ℕ → ℕ)
    → Reports s
    → IsMirrored b
    → size b < 2 ^ 32
    → size b < fuel
    → Ranks b rank
    → (o : AsyncGraphOrder) × (log : List RunEvent) × (run_all_tasks s c fuel (construct_graph b)
        ≡ some (o, execution_complete, log))
      × ((x : ℕ) → x < size b → (count x (posts log) ≡ 1) × (count x (reports log) ≡ 1))
run_all_tasks_acyclic b s c fuel rank fair m bound f r =
    let e = run_all_tasks-Finishes b s c fuel fair m bound f in
    let closed = λ (x : ℕ). e.answered x ∙ e.closed x in
    let all = λ (x : ℕ) (q : x < size b).
      closed-all b rank (reports e.log) m r closed (suc (rank x)) x (omega arith) q in
    let once = λ (x : ℕ) (q : x < size b). sym (e.answered x) ∙ all x q in
    (
      e.graph,
      e.log,
      e.returns ∙ ap (λ r. some (e.graph, r, e.log)) (e.verdict.1 once),
      λ x q. (once x q, all x q),
    )
