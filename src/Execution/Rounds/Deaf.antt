-- ===== src/Execution/Rounds/Deaf.antt =====
-- A thread that has work to do does not look at its instructions.
use mathlib.Core.Path.{subst}
use mathlib.Core.List.{append_assoc, append-nil}
use holder.Prelude.{
  ℕ, ◌≡◌, refl, sym, ap, ◌∙◌, Bool, true, false, List, [], ◌∷◌, ◌++◌, nat_beq, nat_eq, arith,
}
use holder.Startup.Manager.{ExecutionState, continue, end}
use holder.Execution.{
  ExecutorCall, ExecutionInstructionMessage, add_executor_instruction, signal_executor_instruction,
  exec_wildcard, post_add_executor, post_signal_executor, post_signal_all, doom_me,
}
use holder.Execution.Indexing.{IsIndexed}
use holder.Execution.Rounds.{
  Phase, running, waiting, finished, ThreadLoop, run_executors, is_nil, work, receive, end_round,
  round, Post, post_add, post_signal, post_all, post_doom, deliver, LoopStep, posted, next_round,
  woken_up, step, steps, wake_up_loop,
}
use holder.Execution.Rounds.Busy.{
  told, IsAwake, active_count-positive, IsBusy, run_executors-IsBusy,
}

-- The instructions that the steps of other threads post.
unfoldable pub posted_instruction : Post → List ExecutionInstructionMessage
posted_instruction (post_add id p) = add_executor_instruction id p ∷ []
posted_instruction (post_signal id signal_type) = signal_executor_instruction id signal_type ∷ []
posted_instruction (post_all signal_type) =
    signal_executor_instruction exec_wildcard signal_type ∷ []
posted_instruction post_doom = []

unfoldable pub messages : List LoopStep → List ExecutionInstructionMessage
messages [] = []
messages (posted p ∷ xs) = posted_instruction p ++ messages xs
messages (next_round ∷ xs) = messages xs
messages (woken_up ∷ xs) = messages xs

-- A running loop that did not wait since it looked at its instructions, with an active executor `p`
-- at place `i`.
pub record IsDeaf (l : ThreadLoop) (i p : ℕ) : Type 0 where
  pub runs : l.phase ≡ running
  pub no_wait : l.just_waited ≡ false
  pub no_flag : l.new_instructions ≡ false
  pub indexed : IsIndexed l.thread
  pub awake : IsAwake l.thread i p

receive-lem :
    (init : ℕ → Bool) (l : ThreadLoop)
    → l.just_waited ≡ false
    → l.new_instructions ≡ false
    → receive init l ≡ l
unfolding receive
receive-lem init l a b = rw (a, b) refl

work-lem :
    (answer : List ExecutorCall → ℕ → ExecutionState) (l : ThreadLoop)
    → (run_executors answer l.thread).execs_to_remove ≡ []
    → work answer l ≡ record l { thread = (run_executors answer l.thread).thread }
unfolding work is_nil
work-lem answer l none_end = rw none_end refl

end_round-lem : (l : ThreadLoop) → nat_beq l.thread.n_active 0 ≡ false → end_round l ≡ l
unfolding end_round
end_round-lem l h = rw h refl

-- From `l` to `l'` other threads posted `msgs`, and nothing was taken up.
pub record Stays (l l' : ThreadLoop) (i p : ℕ) (msgs : List ExecutionInstructionMessage)
    : Type 0 where
  pub deaf : IsDeaf l' i p
  pub posts : l'.thread.instruction_list ≡ l.thread.instruction_list ++ msgs
  pub none_told : told l'.thread.calls ≡ told l.thread.calls

posted_Stays :
    (l : ThreadLoop) (i p : ℕ) (list msgs : List ExecutionInstructionMessage) (doomed : Bool)
    → list ≡ l.thread.instruction_list ++ msgs
    → IsDeaf l i p
    → Stays l
        (record l { thread = record l.thread { instruction_list = list; is_doomed = doomed } })
        i
        p
        msgs
posted_Stays l i p list msgs doomed same d = record {
  deaf = record {
    runs = d.runs;
    no_wait = d.no_wait;
    no_flag = d.no_flag;
    indexed = record {
      place = d.indexed.place;
      entry = d.indexed.entry;
      counted = d.indexed.counted;
      fits = d.indexed.fits;
    };
    awake = record {
      executor = d.awake.executor;
      there = d.awake.there;
      named = d.awake.named;
      active = d.awake.active;
    };
  };
  posts = same;
  none_told = refl;
}

deliver-Stays :
    (l : ThreadLoop) (i p : ℕ) (x : Post)
    → IsDeaf l i p
    → Stays l (record l { thread = deliver l.thread x }) i p (posted_instruction x)
unfolding deliver posted_instruction post_add_executor post_signal_executor post_signal_all doom_me
deliver-Stays l i p (post_add id q) d =
    posted_Stays l i p (l.thread.instruction_list ++ add_executor_instruction id q ∷ [])
      (add_executor_instruction id q ∷ []) l.thread.is_doomed refl d
deliver-Stays l i p (post_signal id signal_type) d =
    let msg = signal_executor_instruction id signal_type ∷ [] in
    posted_Stays l i p (l.thread.instruction_list ++ msg) msg l.thread.is_doomed refl d
deliver-Stays l i p (post_all signal_type) d =
    let msg = signal_executor_instruction exec_wildcard signal_type ∷ [] in
    posted_Stays l i p (l.thread.instruction_list ++ msg) msg l.thread.is_doomed refl d
deliver-Stays l i p post_doom d =
    posted_Stays l i p l.thread.instruction_list [] true
      (sym (append-nil l.thread.instruction_list)) d

when_running :
    (a b c : ThreadLoop) (phase : Phase)
    → phase ≡ running
    → (elim phase [ running ↦ a | waiting ↦ b | finished ↦ c ]) ≡ a
when_running a b c running h = refl
when_running a b c waiting h = absurd (ground arith)
when_running a b c finished h = absurd (ground arith)

messages_cons :
    (x : LoopStep) (xs : List LoopStep) → messages (x ∷ []) ++ messages xs ≡ messages (x ∷ xs)
unfolding messages
messages_cons (posted p) xs = rw (append-nil (posted_instruction p)) refl
messages_cons next_round xs = refl
messages_cons woken_up xs = refl

module _ (init : ℕ → Bool) (answer : List ExecutorCall → ℕ → ExecutionState) (i p : ℕ)
    (ends : (cs : List ExecutorCall) (q : ℕ) → ¬ (answer cs q ≡ end))
    (goes : (cs : List ExecutorCall) → answer cs p ≡ continue) where
  abbrev ran : ThreadLoop → ThreadLoop
  ran l = record l { thread = (run_executors answer l.thread).thread }

  ran-IsBusy :
      (l : ThreadLoop)
      → IsDeaf l i p
      → IsBusy (run_executors answer l.thread) i p (told l.thread.calls) l.thread.instruction_list
  ran-IsBusy l d =
      run_executors-IsBusy answer i p (told l.thread.calls) l.thread.instruction_list ends goes
        l.thread d.indexed d.awake refl refl

  round-lem : (l : ThreadLoop) → IsDeaf l i p → round answer init l ≡ ran l
  unfolding round
  round-lem l d =
      let b = ran-IsBusy l d in
      let a = b.awake in
      ap (λ x. end_round (work answer x)) (receive-lem init l d.no_wait d.no_flag)
      ∙ ap end_round (work-lem answer l b.no_end)
      ∙ end_round-lem (ran l) (
          ground (
            arith,
            b.indexed.counted,
            active_count-positive (run_executors answer l.thread).thread.executors i a.executor
                a.there a.active,
          ))

  round-Stays : (l : ThreadLoop) → IsDeaf l i p → Stays l (round answer init l) i p []
  round-Stays l d =
      let b = ran-IsBusy l d in
      subst (λ l'. Stays l l' i p []) (sym (round-lem l d))
        (record {
          deaf = record {
            runs = d.runs;
            no_wait = d.no_wait;
            no_flag = d.no_flag;
            indexed = b.indexed;
            awake = b.awake;
          };
          posts = b.posted_same ∙ sym (append-nil l.thread.instruction_list);
          none_told = b.told_same;
        })

  posted-none : (l : ThreadLoop) → IsDeaf l i p → Stays l l i p []
  posted-none l d = record {
    deaf = d;
    posts = sym (append-nil l.thread.instruction_list);
    none_told = refl;
  }

  Stays-trans :
      (l m k : ThreadLoop) (before after : List ExecutionInstructionMessage)
      → Stays l m i p before
      → Stays m k i p after
      → Stays l k i p (before ++ after)
  Stays-trans l m k before after a b = record {
    deaf = b.deaf;
    posts =
        b.posts
        ∙ ap (λ ms. ms ++ after) a.posts
        ∙ append_assoc l.thread.instruction_list before after;
    none_told = b.none_told ∙ a.none_told;
  }

  step-Stays :
      (l : ThreadLoop) (x : LoopStep)
      → IsDeaf l i p
      → Stays l (step init answer l x) i p (messages (x ∷ []))
  unfolding step messages
  step-Stays l (posted x) d = rw (append-nil (posted_instruction x)) (deliver-Stays l i p x d)
  step-Stays l next_round d =
      subst (λ k. Stays l k i p []) (sym (when_running (round answer init l) l l l.phase d.runs))
        (round-Stays l d)
  step-Stays l woken_up d =
      subst (λ k. Stays l k i p []) (sym (when_running l (wake_up_loop l) l l.phase d.runs))
        (posted-none l d)

  -- A loop with an active executor that never suspends, in a thread where no executor ends, takes up
  -- no instruction in any sequence of rounds and posts: it goes on running, all instructions that
  -- other threads post stay in its list, and no executor is asked to terminate.
  pub steps-Stays :
      (l : ThreadLoop) (xs : List LoopStep)
      → IsDeaf l i p
      → Stays l (steps init answer l xs) i p (messages xs)
  unfolding steps messages
  steps-Stays l [] d = posted-none l d
  steps-Stays l (x ∷ xs) d =
      let one = step-Stays l x d in
      subst (λ ms. Stays l (steps init answer (step init answer l x) xs) i p ms)
        (messages_cons x xs)
        (Stays-trans l (step init answer l x) (steps init answer (step init answer l x) xs)
          (messages (x ∷ [])) (messages xs) one (steps-Stays (step init answer l x) xs one.deaf))
