-- ===== src/Execution/Rounds/Busy.antt =====
-- A pass over the executors in which no executor ends.
use mathlib.Core.Logic.{inl, inr}
use mathlib.Core.Path.{subst}
use holder.Prelude.{
  ℕ, zero, suc, ◌<◌, ◌≡◌, refl, sym, ◌∙◌, List, [], ◌∷◌, ◌++◌, none, some, length, get_elem?,
  nat_beq, nat_eq, arith, Option-cases, Bool-cases, get_elem?-modify,
}
use holder.Startup.Manager.{ExecutionState, continue, suspend, end}
use holder.Execution.{
  ExecutorStateTag, executing, suspended, ExecutorState, ExecutorCall, de_init,
  termination_requested, run, ExecutionInstructionMessage, ExecutorThread,
}
use holder.Execution.Indexing.{IsIndexed, active_count}
use holder.Execution.Rounds.{
  RunPass, put_to_sleep, after_run, log_run, run_at, run_each, run_executors,
}
use holder.Execution.Rounds.Indexing.{run_at-IsIndexed}

-- How often executors were asked to terminate.
unfoldable pub told : List ExecutorCall → ℕ
told [] = 0
told (de_init p ∷ cs) = told cs
told (termination_requested p ∷ cs) = suc (told cs)
told (run p ∷ cs) = told cs

told-run : (cs : List ExecutorCall) (p : ℕ) → told (cs ++ run p ∷ []) ≡ told cs
unfolding told
told-run [] p = refl
told-run (de_init q ∷ cs) p = told-run cs p
told-run (termination_requested q ∷ cs) p = ground (arith, told-run cs p)
told-run (run q ∷ cs) p = told-run cs p

-- At place `i` there is an active executor `p`.
pub record IsAwake (t : ExecutorThread) (i p : ℕ) : Type 0 where
  pub executor : ExecutorState
  pub there : get_elem? t.executors i ≡ some executor
  pub named : executor.p_executor ≡ p
  pub active : executor.state_tag ≡ executing

pub active_count-positive :
    (es : List ExecutorState) (i : ℕ) (e : ExecutorState)
    → get_elem? es i ≡ some e
    → e.state_tag ≡ executing
    → 0 < active_count es
unfolding active_count
active_count-positive [] i e h k = absurd (ground arith)
active_count-positive (f ∷ es) zero e h k = ground arith
active_count-positive (f ∷ es) (suc i) e h k = omega (arith, active_count-positive es i e h k)

-- The state of a pass in which no executor has ended.
pub record IsBusy (s : RunPass) (i p n : ℕ) (msgs : List ExecutionInstructionMessage) : Type 0 where
  pub indexed : IsIndexed s.thread
  pub awake : IsAwake s.thread i p
  pub no_end : s.execs_to_remove ≡ []
  pub posted_same : s.thread.instruction_list ≡ msgs
  pub told_same : told s.thread.calls ≡ n

module _ (answer : List ExecutorCall → ℕ → ExecutionState) (i p n : ℕ)
    (msgs : List ExecutionInstructionMessage) where
  after_run-IsBusy :
      (s : RunPass) (j : ℕ) (e : ExecutorState) (x : ExecutionState)
      → get_elem? s.thread.executors j ≡ some e
      → ¬ (x ≡ end)
      → (e.p_executor ≡ p → x ≡ continue)
      → IsIndexed (after_run (log_run s e.p_executor) j e x).thread
      → IsBusy s i p n msgs
      → IsBusy (after_run (log_run s e.p_executor) j e x) i p n msgs
  unfolding after_run log_run
  after_run-IsBusy s j e continue at ends goes v b = record {
    indexed = v;
    awake = record {
      executor = b.awake.executor;
      there = b.awake.there;
      named = b.awake.named;
      active = b.awake.active;
    };
    no_end = b.no_end;
    posted_same = b.posted_same;
    told_same = told-run s.thread.calls e.p_executor ∙ b.told_same;
  }
  after_run-IsBusy s j e suspend at ends goes v b = record {
    indexed = v;
    awake = record {
      executor = b.awake.executor;
      there = elim (Bool-cases (nat_beq j i)) [
        | inl eq ↦ absurd (ground (arith, goes, b.awake.there, b.awake.named))
        | inr ne ↦
            ground (arith, get_elem?-modify s.thread.executors j i put_to_sleep, b.awake.there)
      ];
      named = b.awake.named;
      active = b.awake.active;
    };
    no_end = b.no_end;
    posted_same = b.posted_same;
    told_same = told-run s.thread.calls e.p_executor ∙ b.told_same;
  }
  after_run-IsBusy s j e end at ends goes v b = absurd (ends refl)

  abbrev tag_run : RunPass → ℕ → ExecutorState → ExecutorStateTag → RunPass
  tag_run s j e tag = elim tag [
    | executing ↦ after_run (log_run s e.p_executor) j e (answer s.thread.calls e.p_executor)
    | suspended ↦ s
  ]

  run_at-none :
      (s : RunPass) (j : ℕ) → get_elem? s.thread.executors j ≡ none → run_at answer s j ≡ s
  unfolding run_at
  run_at-none s j gone = rw (gone, run_at) refl

  run_at-some :
      (s : RunPass) (j : ℕ) (e : ExecutorState)
      → get_elem? s.thread.executors j ≡ some e
      → run_at answer s j ≡ tag_run s j e e.state_tag
  unfolding run_at
  run_at-some s j e at = rw (at, run_at) refl

  module _ (ends : (cs : List ExecutorCall) (q : ℕ) → ¬ (answer cs q ≡ end))
      (goes : (cs : List ExecutorCall) → answer cs p ≡ continue) where
    by_tag :
        (s : RunPass) (j : ℕ) (e : ExecutorState)
        → get_elem? s.thread.executors j ≡ some e
        → (tag : ExecutorStateTag) → IsIndexed (tag_run s j e tag).thread
        → IsBusy s i p n msgs
        → IsBusy (tag_run s j e tag) i p n msgs
    by_tag s j e at executing v b =
        after_run-IsBusy s j e (answer s.thread.calls e.p_executor) at
          (ends s.thread.calls e.p_executor) (λ same. rw same (goes s.thread.calls)) v b
    by_tag s j e at suspended v b = b

    run_at-IsBusy :
        (s : RunPass) (j : ℕ) → IsBusy s i p n msgs → IsBusy (run_at answer s j) i p n msgs
    run_at-IsBusy s j b = elim (Option-cases (get_elem? s.thread.executors j)) [
      | inl gone ↦ subst (λ x. IsBusy x i p n msgs) (sym (run_at-none s j gone)) b
      | inr (e, at) ↦
          let eq = run_at-some s j e at in
          subst (λ x. IsBusy x i p n msgs) (sym eq)
            (by_tag s j e at e.state_tag
              (subst (λ x. IsIndexed (RunPass.thread x)) eq (run_at-IsIndexed answer s j b.indexed))
              b)
    ]

    run_each-IsBusy :
        (m j : ℕ) (s : RunPass) → IsBusy s i p n msgs → IsBusy (run_each answer m j s) i p n msgs
    unfolding run_each
    run_each-IsBusy zero j s b = b
    run_each-IsBusy (suc m) j s b =
        run_each-IsBusy m (suc j) (run_at answer s j) (run_at-IsBusy s j b)

    pub run_executors-IsBusy :
        (t : ExecutorThread)
        → IsIndexed t
        → IsAwake t i p
        → t.instruction_list ≡ msgs
        → told t.calls ≡ n
        → IsBusy (run_executors answer t) i p n msgs
    unfolding run_executors
    run_executors-IsBusy t v a same told_so =
        run_each-IsBusy (length t.executors) 0 (record { thread = t; execs_to_remove = [] })
          (record {
            indexed = v;
            awake = record {
              executor = a.executor;
              there = a.there;
              named = a.named;
              active = a.active;
            };
            no_end = refl;
            posted_same = same;
            told_same = told_so;
          })
