-- ===== src/AsyncTasks/Executor/Contexts.antt =====
-- The contexts of the calls of ExecuteGraph, and the messages that the worker threads post to them
-- (AsyncTasks/AsyncExecutor.h, AsyncExecutor.cpp).
use holder.Prelude.{
  ℕ, ◌≡◌, ◌≢◌, refl, ap, ◌∙◌, sym, List, [], ◌∷◌, ◌++◌, nat_beq, if◌then◌else◌, Option, none, some,
  lookup, emplace, erase, update, inc_u64, nat_eq, lookup-update, Bool-cases, inl, inr,
}
use mathlib.Core.List.{append_assoc, append-nil}
use holder.AsyncTasks.Order.{AsyncGraphOrder}
use holder.AsyncTasks.Executor.{Schedule, TaskResult, RunEvent, run_all_tasks}
use holder.AsyncTasks.Executor.Threads.{TaskCompletionMessage}

pub record TaskContext : Type 0 where
  pub context_id : ℕ
  pub completion_queue : List TaskCompletionMessage

-- The part of AsyncTaskExecutor that the calls of ExecuteGraph share.
pub record Contexts : Type 0 where
  pub task_contexts : List (ℕ × TaskContext)
  pub free_context_id : ℕ

unfoldable pub post_completion_message : TaskCompletionMessage → TaskContext → TaskContext
post_completion_message m c = record c { completion_queue = c.completion_queue ++ m ∷ [] }

-- A message for a context that is gone is dropped.
unfoldable pub post_task_completions : List TaskCompletionMessage → Contexts → Contexts
post_task_completions [] x = x
post_task_completions (m ∷ messages) x =
    post_task_completions messages
      (record x { task_contexts = update m.context_id (post_completion_message m) x.task_contexts })

unfoldable pub create_context : Contexts → Contexts × ℕ
create_context x = (
  record x {
    free_context_id = inc_u64 x.free_context_id;
    task_contexts =
        emplace x.free_context_id (record { context_id = x.free_context_id; completion_queue = [] })
          x.task_contexts;
  },
  x.free_context_id,
)

unfoldable pub delete_context : Contexts → ℕ → Contexts
delete_context x id = record x { task_contexts = erase id x.task_contexts }

-- What other calls of ExecuteGraph and the worker threads do with the contexts.
pub data ContextStep : Type 0 where
  call_begins : ContextStep
  call_ends : ℕ → ContextStep
  completes : List TaskCompletionMessage → ContextStep

unfoldable pub context_step : ContextStep → Contexts → Contexts
unfolding create_context delete_context post_task_completions
context_step call_begins x = (create_context x).0
context_step (call_ends id) x = delete_context x id
context_step (completes messages) x = post_task_completions messages x

unfoldable pub context_steps : List ContextStep → Contexts → Contexts
context_steps [] x = x
context_steps (y ∷ ys) x = context_steps ys (context_step y x)

-- `during` happens to the contexts while RunAllTasks runs; what of it reaches this call is the
-- schedule's.
unfoldable pub execute_graph :
    Schedule
    → ℕ
    → AsyncGraphOrder
    → List ContextStep
    → Contexts
    → Contexts × Option (AsyncGraphOrder × TaskResult × List RunEvent)
unfolding create_context delete_context
execute_graph s fuel graph during x =
    let (x', id) = create_context x in
    (delete_context (context_steps during x') id, run_all_tasks s id fuel graph)

-- The messages for one context.
abbrev pub for_context : ℕ → List TaskCompletionMessage → List TaskCompletionMessage
for_context c [] = []
for_context c (m ∷ messages) =
    if nat_beq m.context_id c then m ∷ for_context c messages else for_context c messages

-- A context, if it is there, with the messages behind its queue.
abbrev pub delivered : List TaskCompletionMessage → Option TaskContext → Option TaskContext
delivered l none = none
delivered l (some c) = some (record c { completion_queue = c.completion_queue ++ l })

delivered-nil : (o : Option TaskContext) → o ≡ delivered [] o
delivered-nil none = refl
delivered-nil (some c) =
    ap (λ q. some (record c { completion_queue = q })) (sym (append-nil c.completion_queue))

delivered-cons :
    (m : TaskCompletionMessage) (l : List TaskCompletionMessage) (o : Option TaskContext)
    → delivered l (elim o [ none ↦ none | some c ↦ some (post_completion_message m c) ])
      ≡ delivered (m ∷ l) o
unfolding post_completion_message
delivered-cons m l none = refl
delivered-cons m l (some c) =
    ap (λ q. some (record c { completion_queue = q })) (append_assoc c.completion_queue (m ∷ []) l)

-- PostTaskCompletions puts behind the queue of each context the messages for that context, in their
-- order, and makes no context.
pub post_task_completions-lookup :
    (messages : List TaskCompletionMessage) (x : Contexts) (c : ℕ)
    → lookup c (post_task_completions messages x).task_contexts
      ≡ delivered (for_context c messages) (lookup c x.task_contexts)
unfolding post_task_completions
post_task_completions-lookup [] x c = delivered-nil (lookup c x.task_contexts)
post_task_completions-lookup (m ∷ messages) x c =
    let x1 : Contexts = record x {
      task_contexts = update m.context_id (post_completion_message m) x.task_contexts;
    } in
    let rest = post_task_completions-lookup messages x1 c in
    let one = lookup-update m.context_id c (post_completion_message m) x.task_contexts in
    let more = delivered-cons m (for_context c messages) (lookup c x.task_contexts) in
    elim (Bool-cases (nat_beq m.context_id c)) [
      | inl e ↦ rw e (rest ∙ ap (delivered (for_context c messages)) one ∙ rw e more)
      | inr e ↦ rw e (rest ∙ ap (delivered (for_context c messages)) one ∙ rw e refl)
    ]

-- The messages that the steps post for one context.
unfoldable pub posted_for : ℕ → List ContextStep → List TaskCompletionMessage
posted_for c [] = []
posted_for c (call_begins ∷ ys) = posted_for c ys
posted_for c (call_ends id ∷ ys) = posted_for c ys
posted_for c (completes messages ∷ ys) = for_context c messages ++ posted_for c ys

-- No call with this id ends.
abbrev pub NeverEnds : ℕ → List ContextStep → Type 0
NeverEnds c [] = Unit {0}
NeverEnds c (call_begins ∷ ys) = NeverEnds c ys
NeverEnds c (call_ends id ∷ ys) = (id ≢ c) × NeverEnds c ys
NeverEnds c (completes messages ∷ ys) = NeverEnds c ys
