-- ===== src/AsyncTasks/Executor/Log.antt =====
-- What a run of RunAllTasks did: the tasks that it posted, and those whose completion it took.
use holder.Prelude.{ℕ, ◌+◌, ◌≡◌, refl, ◌<◌, List, [], ◌∷◌, length, count, arith, nat_eq}
use holder.AsyncTasks.Graph.{AsyncGraphBuilder, froms}
use holder.AsyncTasks.Order.Tracking.{missing}
use holder.AsyncTasks.Executor.{RunEvent, posted, reported, note_all}

unfoldable pub posts : List RunEvent → List ℕ
posts [] = []
posts (posted t ∷ log) = t ∷ posts log
posts (reported t ∷ log) = posts log

unfoldable pub reports : List RunEvent → List ℕ
reports [] = []
reports (posted t ∷ log) = reports log
reports (reported t ∷ log) = t ∷ reports log

-- Latest first: when a task is posted, all that it waits for was reported, and when a task is
-- reported, it was posted.
abbrev pub IsOrdered : AsyncGraphBuilder → List RunEvent → Type 0
IsOrdered b [] = Unit {0}
IsOrdered b (posted t ∷ log) = (missing (reports log) (froms b t) ≡ 0) × IsOrdered b log
IsOrdered b (reported t ∷ log) = (0 < count t (posts log)) × IsOrdered b log

-- The tasks of a queue, one after another in front of those that are there.
unfoldable pub push : List ℕ → List ℕ → List ℕ
push [] done = done
push (t ∷ queue) done = push queue (t ∷ done)

pub count-push :
    (x : ℕ) (queue done : List ℕ) → count x (push queue done) ≡ count x queue + count x done
unfolding push count
count-push x [] done = omega arith
count-push x (t ∷ queue) done = ground (arith, count-push x queue (t ∷ done))

pub length-push : (queue done : List ℕ) → length (push queue done) ≡ length queue + length done
unfolding push
length-push [] done = omega arith
length-push (t ∷ queue) done = omega (arith, length-push queue (t ∷ done))

pub reports-posted :
    (ts : List ℕ) (log : List RunEvent) → reports (note_all posted ts log) ≡ reports log
unfolding note_all reports
reports-posted [] log = refl
reports-posted (t ∷ ts) log = reports-posted ts (posted t ∷ log)

pub count-posted :
    (x : ℕ) (ts : List ℕ) (log : List RunEvent)
    → count x (posts (note_all posted ts log)) ≡ count x ts + count x (posts log)
unfolding note_all posts count
count-posted x [] log = omega arith
count-posted x (t ∷ ts) log = ground (arith, count-posted x ts (posted t ∷ log))

pub posts-reported :
    (ts : List ℕ) (log : List RunEvent) → posts (note_all reported ts log) ≡ posts log
unfolding note_all posts
posts-reported [] log = refl
posts-reported (t ∷ ts) log = posts-reported ts (reported t ∷ log)

pub reports-reported :
    (ts : List ℕ) (log : List RunEvent) → reports (note_all reported ts log) ≡ push ts (reports log)
unfolding note_all reports push
reports-reported [] log = refl
reports-reported (t ∷ ts) log = reports-reported ts (reported t ∷ log)

pub IsOrdered-posted :
    (b : AsyncGraphBuilder) (ts : List ℕ) (log : List RunEvent)
    → IsOrdered b log
    → ((t : ℕ) → 0 < count t ts → missing (reports log) (froms b t) ≡ 0)
    → IsOrdered b (note_all posted ts log)
unfolding note_all count reports
IsOrdered-posted b [] log v h = v
IsOrdered-posted b (t ∷ ts) log v h =
    IsOrdered-posted b ts (posted t ∷ log) (h t (ground arith), v) (λ x p. h x (ground arith))

pub IsOrdered-reported :
    (b : AsyncGraphBuilder) (ts : List ℕ) (log : List RunEvent)
    → IsOrdered b log
    → ((t : ℕ) → 0 < count t ts → 0 < count t (posts log))
    → IsOrdered b (note_all reported ts log)
unfolding note_all count posts
IsOrdered-reported b [] log v h = v
IsOrdered-reported b (t ∷ ts) log v h =
    IsOrdered-reported b ts (reported t ∷ log) (h t (ground arith), v) (λ x p. h x (ground arith))
