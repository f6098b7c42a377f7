-- ===== src/AsyncTasks/Executor/Steps.antt =====
-- A round of RunAllTasks: the tasks at hand are posted, and then a completion queue is worked off.
use holder.Prelude.{
  ℕ, ◌+◌, ◌≡◌, sym, ap, ◌∙◌, ◌≤◌, ◌<◌, ◌^◌, List, [], ◌∷◌, ◌++◌, length, count, arith, nat_eq,
  count-append, length-append, length-le_of_distinct,
}
use mathlib.Core.Path.{subst}
use mathlib.Core.List.{append_assoc}
use holder.AsyncTasks.Graph.{AsyncGraphBuilder, tos, size}
use holder.AsyncTasks.Graph.Edges.{IsMirrored}
use holder.AsyncTasks.Order.{AsyncGraphOrder, PackagedTask, dependency_count, get_tasks_to_execute}
use holder.AsyncTasks.Order.Release.{ids, freed}
use holder.AsyncTasks.Order.Tracking.{Tracks, get_tasks_to_execute-Tracks, ids-get_tasks_to_execute}
use holder.AsyncTasks.Executor.Log.{
  posts, reports, IsOrdered, push, count-push, reports-posted, count-posted, posts-reported,
  reports-reported, IsOrdered-posted, IsOrdered-reported,
}
use holder.AsyncTasks.Executor.{Schedule, RunEvent, posted, reported, note_all, add_dependencies_of}

-- The threads report every task that is posted once, and each wait ends with a report.
pub record Reports (s : Schedule) : Type 0 where
  pub same :
      (n : ℕ) (running : List ℕ) (x : ℕ)
      → count x (s.completions n running) + count x (s.running n running) ≡ count x running
  pub all :
      (n : ℕ) (running : List ℕ)
      → length (s.completions n running) + length (s.running n running) ≡ length running
  pub waits : (n : ℕ) (running : List ℕ) → 0 < length running → 0 < length (s.completions n running)

-- No more tasks are complete than there are.
pub Tracks-length :
    {b : AsyncGraphBuilder} {o : AsyncGraphOrder} {done flight : List ℕ}
    → Tracks b o done flight
    → length (done ++ flight) ≤ size b
Tracks-length {b} {o} {done} {flight} v =
    length-le_of_distinct (size b) (done ++ flight)
      (λ t h. ground (arith, v.handed t, count-append t done flight))
      (λ t h. ground (arith, v.handed t, count-append t done flight))

-- The outcome of the loop over a completion queue.
pub record Advances (b : AsyncGraphBuilder) (c : ℕ) (done rest queue : List ℕ)
    (s : AsyncGraphOrder × List PackagedTask) : Type 0 where
  pub tracks :
      Tracks b
        (add_dependencies_of c queue s).0
        (push queue done)
        (rest ++ ids (add_dependencies_of c queue s).1)

pub advance :
    (b : AsyncGraphBuilder) (c : ℕ) (done rest queue : List ℕ) (o : AsyncGraphOrder)
    (l : List PackagedTask)
    → IsMirrored b
    → size b < 2 ^ 32
    → Tracks b o done (queue ++ (rest ++ ids l))
    → Advances b c done rest queue (o, l)
unfolding add_dependencies_of push
advance b c done rest [] o l m bound v = record { tracks = v }
advance b c done rest (t ∷ queue) o l m bound v =
    let r = freed (dependency_count o) (tos b t) in
    let left = queue ++ (rest ++ ids l) in
    let small : length done + 1 < 2 ^ 32 =
      omega (arith, Tracks-length v, length-append done (t ∷ left)) in
    let listed = ids-get_tasks_to_execute b o c t done left l m v in
    let (o', l') = get_tasks_to_execute c t (o, l) in
    let same : left ++ r ≡ queue ++ (rest ++ ids l') =
      append_assoc queue (rest ++ ids l) r
      ∙ ap (◌++◌ queue) (append_assoc rest (ids l) r ∙ ap (◌++◌ rest) (sym listed)) in
    let v' : Tracks b o' (t ∷ done) (queue ++ (rest ++ ids l')) =
      subst (Tracks b o' (t ∷ done)) same
        (get_tasks_to_execute-Tracks b o c t done left l m v small) in
    record { tracks = (advance b c (t ∷ done) rest queue o' l' m bound v').tracks }

-- What holds before each round: `done` was reported, and `running` posted and not reported.
pub record Records (b : AsyncGraphBuilder) (done running : List ℕ) (log : List RunEvent)
    : Type 0 where
  pub ordered : IsOrdered b log
  pub told : reports log ≡ done
  pub started : (x : ℕ) → count x (posts log) ≡ count x done + count x running

-- A round: the tasks at hand are posted, and then the queue is taken.
pub Records-round :
    (b : AsyncGraphBuilder) (o : AsyncGraphOrder) (done running fresh queue still : List ℕ)
    (log : List RunEvent)
    → Tracks b o done (running ++ fresh)
    → Records b done running log
    → ((x : ℕ) → count x queue + count x still ≡ count x (running ++ fresh))
    → Records b (push queue done) still (note_all reported queue (note_all posted fresh log))
Records-round b o done running fresh queue still log v w split =
    let log1 = note_all posted fresh log in
    let none_new : reports log1 ≡ done = reports-posted fresh log ∙ w.told in
    let started : (x : ℕ) → count x (posts log1) ≡ count x done + count x (running ++ fresh) =
      λ x. omega (arith, count-posted x fresh log, w.started x, count-append x running fresh) in
    record {
      ordered =
          IsOrdered-reported b queue log1
            (IsOrdered-posted b fresh log w.ordered
              (λ t p. rw w.told (ground (arith, v.handed t, count-append t running fresh))))
            (λ t p. omega (arith, started t, split t));
      told = reports-reported queue log1 ∙ ap (push queue) none_new;
      started = λ x.
          ap (count x) (posts-reported queue log1)
          ∙ omega (arith, started x, split x, count-push x queue done);
    }
