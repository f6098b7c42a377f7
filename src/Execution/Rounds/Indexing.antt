-- ===== src/Execution/Rounds/Indexing.antt =====
-- A pass over the executors keeps the map and the count of an executor thread right.
use mathlib.Core.Logic.{inl, inr}
use holder.Prelude.{
  ℕ, zero, suc, ◌+◌, ◌≡◌, refl, List, [], ◌∷◌, some, length, get_elem?, modify, dec_u32, nat_eq,
  arith, Option-cases,
}
use holder.Startup.Manager.{ExecutionState, continue, suspend, end}
use holder.Execution.{
  ExecutorStateTag, executing, suspended, ExecutorState, ExecutorCall, ExecutorThread,
}
use holder.Execution.Indexing.{IsIndexed, active_count, active_count-le, modify-IsIndexed}
use holder.Execution.Rounds.{
  RunPass, put_to_sleep, after_run, log_run, run_at, run_each, run_executors,
}

active_count-put_to_sleep :
    (es : List ExecutorState) (i : ℕ) (e : ExecutorState)
    → get_elem? es i ≡ some e
    → e.state_tag ≡ executing
    → active_count (modify es i put_to_sleep) + 1 ≡ active_count es
unfolding active_count put_to_sleep
active_count-put_to_sleep [] i e h k = absurd (ground arith)
active_count-put_to_sleep (f ∷ es) zero e h k = ground arith
active_count-put_to_sleep (f ∷ es) (suc i) e h k =
    omega (arith, active_count-put_to_sleep es i e h k)

put_to_sleep-id : (e : ExecutorState) → (put_to_sleep e).exec_id ≡ e.exec_id
unfolding put_to_sleep
put_to_sleep-id e = refl

log_run-IsIndexed : (s : RunPass) (p : ℕ) → IsIndexed s.thread → IsIndexed (log_run s p).thread
unfolding log_run
log_run-IsIndexed s p v = record {
  place = v.place;
  entry = v.entry;
  counted = v.counted;
  fits = v.fits;
}

log_run-executors : (s : RunPass) (p : ℕ) → (log_run s p).thread.executors ≡ s.thread.executors
unfolding log_run
log_run-executors s p = refl

after_run-IsIndexed :
    (s : RunPass) (i : ℕ) (e : ExecutorState) (x : ExecutionState)
    → get_elem? s.thread.executors i ≡ some e
    → e.state_tag ≡ executing
    → IsIndexed s.thread
    → IsIndexed (after_run s i e x).thread
unfolding after_run
after_run-IsIndexed s i e continue at is v = v
after_run-IsIndexed s i e suspend at is v =
    modify-IsIndexed s.thread i (dec_u32 s.thread.n_active) put_to_sleep put_to_sleep-id
      (ground (
        arith,
        v.counted,
        v.fits,
        active_count-put_to_sleep s.thread.executors i e at is,
        active_count-le s.thread.executors,
      ))
      v
after_run-IsIndexed s i e end at is v = v

module _ (answer : List ExecutorCall → ℕ → ExecutionState) where
  pub run_at-IsIndexed :
      (s : RunPass) (i : ℕ) → IsIndexed s.thread → IsIndexed (run_at answer s i).thread
  unfolding run_at
  run_at-IsIndexed s i v = elim (Option-cases (get_elem? s.thread.executors i)) [
    | inl gone ↦ rw (gone, run_at) v
    | inr (e, at) ↦ rw (at, run_at) (by_tag e at e.state_tag refl)
  ]
    where
      by_tag :
          (e : ExecutorState)
          → get_elem? s.thread.executors i ≡ some e
          → (tag : ExecutorStateTag) → e.state_tag ≡ tag
          → IsIndexed (
              RunPass.thread (elim tag [
                | executing ↦
                    after_run (log_run s e.p_executor) i e (answer s.thread.calls e.p_executor)
                | suspended ↦ s
              ]))
      by_tag e at executing is =
          after_run-IsIndexed (log_run s e.p_executor) i e (answer s.thread.calls e.p_executor)
            (rw (log_run-executors s e.p_executor) at) is (log_run-IsIndexed s e.p_executor v)
      by_tag e at suspended is = v

  run_each-IsIndexed :
      (n i : ℕ) (s : RunPass) → IsIndexed s.thread → IsIndexed (run_each answer n i s).thread
  unfolding run_each
  run_each-IsIndexed zero i s v = v
  run_each-IsIndexed (suc n) i s v =
      run_each-IsIndexed n (suc i) (run_at answer s i) (run_at-IsIndexed s i v)

  -- A pass over the executors of a thread, whatever they answer, keeps the places and the count of
  -- active executors right.
  pub run_executors-IsIndexed :
      (t : ExecutorThread) → IsIndexed t → IsIndexed (run_executors answer t).thread
  unfolding run_executors
  run_executors-IsIndexed t v =
      run_each-IsIndexed (length t.executors) 0 (record { thread = t; execs_to_remove = [] }) v
