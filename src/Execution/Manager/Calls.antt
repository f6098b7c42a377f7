-- ===== src/Execution/Manager/Calls.antt =====
-- What the calls of the execution manager do to its tables (Holder/ExecutionManager.cpp).
use mathlib.Core.Path.{subst}
use holder.Prelude.{
  ℕ, ◌≡◌, ◌≢◌, refl, sym, ◌∙◌, not, Bool, true, false, Name, List, [], ◌∷◌, ◌++◌, none, some, inl,
  inr, is_some, lookup, lookup-erase, erase, if◌then◌else◌, nat_eq, name_eq, name_beq_iff, arith,
  Option-cases,
}
use holder.Execution.{post_signal_executor, doom_me, ExecutorSignalType, ExecutorThread}
use holder.Execution.Timers.{doom_timers}
use holder.Execution.Manager.{
  ManagedThread, ExecutionManager, ManagerResult, answers, throws, undefined,
  locked_shop_update_state, doom_thread, signal_executor, erase_all, remove_executors,
  remove_thread,
}
use holder.Execution.Manager.Tables.{
  name_of, IsManaged, name_of-update, name_of-erase, renamed-IsManaged,
  locked_shop_update_state-IsManaged,
}

-- The call is defined, and the tables agree after it, also if it throws.
abbrev pub Keeps {ℓ} : {A : Type ℓ} → ManagerResult A → Type 0
Keeps (answers a m) = IsManaged m
Keeps (throws m) = IsManaged m
Keeps undefined = ⊥

pub is_some-name_of :
    (i : ℕ) (threads : List (ℕ × ManagedThread))
    → is_some (name_of i threads) ≡ is_some (lookup i threads)
unfolding name_of
is_some-name_of i threads = ground arith

-- SignalExecutor finds the thread of each executor that it finds.
pub signal_executor-Keeps :
    (id : ℕ) (s : ExecutorSignalType) (m : ExecutionManager)
    → IsManaged m
    → Keeps (signal_executor id s m)
unfolding signal_executor
signal_executor-Keeps id s m v = elim (Option-cases (lookup id m.executor_map)) [
  | inl gone ↦ rw (gone, signal_executor) v
  | inr (i, at) ↦
      let there : is_some (lookup i m.thread_map) ≡ true =
        sym (is_some-name_of i m.thread_map) ∙ v.placed id i at in
      rw (at, signal_executor)
        (rw there (
          renamed-IsManaged m _
            (λ j.
              name_of-update i j (λ (w : ExecutorThread). post_signal_executor w id s) m.thread_map)
            v))
]

pub doom_thread-Keeps : (n : Name) (m : ExecutionManager) → IsManaged m → Keeps (doom_thread n m)
unfolding doom_thread
doom_thread-Keeps n m v = elim (Option-cases (lookup n m.thread_name_map)) [
  | inl gone ↦ rw (gone, doom_thread) v
  | inr (i, at) ↦
      let there : is_some (lookup i m.thread_map) ≡ true =
        sym (is_some-name_of i m.thread_map) ∙ rw (v.named n i at) refl in
      let v' = renamed-IsManaged m _ (λ j. name_of-update i j doom_me m.thread_map) v in
      rw (at, doom_thread)
        (rw there (record {
          named = λ k j h. v'.named k j (ground (arith, lookup-erase n k m.thread_name_map));
          placed = v'.placed;
          given = v'.given;
          unused = v'.unused;
          bounded = v'.bounded;
        }))
]

lookup-erase_all :
    (id : ℕ) (gone : List ℕ) (executors : List (ℕ × ℕ)) {i : ℕ}
    → lookup id (erase_all gone executors) ≡ some i
    → lookup id executors ≡ some i
unfolding erase_all
lookup-erase_all id [] executors h = h
lookup-erase_all id (k ∷ gone) executors h =
    ground (arith, lookup-erase_all id gone (erase k executors) h, lookup-erase k id executors)

pub remove_executors-IsManaged :
    (gone : List ℕ) (m : ExecutionManager) → IsManaged m → IsManaged (remove_executors gone m)
unfolding remove_executors
remove_executors-IsManaged gone m v = record {
  named = v.named;
  placed = λ id i h. v.placed id i (lookup-erase_all id gone m.executor_map h);
  given = λ id i h. v.given id i (lookup-erase_all id gone m.executor_map h);
  unused = v.unused;
  bounded = v.bounded;
}

-- No executor of the thread is left in the map.
abbrev pub IsLeft : ℕ → ExecutionManager → Type 0
IsLeft i m = (id : ℕ) → lookup id m.executor_map ≢ some i

pub remove_thread-Keeps :
    (i : ℕ) (m : ExecutionManager)
    → is_some (lookup i m.thread_map) ≡ true
    → IsLeft i m
    → IsManaged m
    → Keeps (remove_thread i m)
unfolding remove_thread
remove_thread-Keeps i m there left v = elim (Option-cases (lookup i m.thread_map)) [
  | inl gone ↦ absurd (ground arith)
  | inr (thread, at) ↦ rw (at, remove_thread) (by_rest (erase i m.thread_map) (removed thread at))
]
  where
    without : ManagedThread → ExecutionManager
    without thread = record m {
      thread_map = erase i m.thread_map;
      thread_name_map = erase thread.thread_name m.thread_name_map;
      threads_to_join = m.threads_to_join ++ thread ∷ [];
    }

    named_at :
        (thread : ManagedThread)
        → lookup i m.thread_map ≡ some thread
        → name_of i m.thread_map ≡ some thread.thread_name
    named_at thread at = unfold name_of in ground arith

    removed :
        (thread : ManagedThread) → lookup i m.thread_map ≡ some thread → IsManaged (without thread)
    removed thread at = record {
      named = λ n j h.
          let before : lookup n m.thread_name_map ≡ some j =
            ground (arith, lookup-erase thread.thread_name n m.thread_name_map) in
          ground (
            arith,
            lookup-erase thread.thread_name n m.thread_name_map,
            name_of-erase i j m.thread_map,
            v.named n j before,
            named_at thread at,
            name_beq_iff thread.thread_name n,
          );
      placed = λ id j h. ground (arith, name_of-erase i j m.thread_map, v.placed id j h, left id);
      given = v.given;
      unused = λ j p. ground (arith, name_of-erase i j m.thread_map, v.unused j p);
      bounded = v.bounded;
    }

    by_rest :
        (threads : List (ℕ × ManagedThread)) {r : ExecutionManager}
        → IsManaged r
        → IsManaged (elim threads [ [] ↦ locked_shop_update_state r | _ ∷ _ ↦ r ])
    by_rest [] {r} w = locked_shop_update_state-IsManaged r w
    by_rest (t ∷ ts) w = w

-- What a signal to the executor reads.
IsCut : ℕ → ℕ → ExecutionManager → Type 0
IsCut id i m = (lookup id m.executor_map ≡ some i) × (lookup i m.thread_map ≡ none)

IsCut-locked_shop_update_state :
    (id i : ℕ) (m : ExecutionManager) → IsCut id i m → IsCut id i (locked_shop_update_state m)
unfolding locked_shop_update_state IsCut
IsCut-locked_shop_update_state id i m c = by_lock (not m.locked_shop)
  where
    by_lock :
        (b : Bool)
        → IsCut id i (
            if b
            then record m { locked_shop = true; timer_thread = doom_timers m.timer_thread }
            else m)
    by_lock true = c
    by_lock false = c

abbrev LeavesCut : ℕ → ℕ → ManagerResult (Unit {0}) → Type 0
LeavesCut id i (answers a m) = IsCut id i m
LeavesCut id i (throws m) = Unit
LeavesCut id i undefined = Unit

LeavesCut-remove_thread :
    (id i : ℕ) (m : ExecutionManager)
    → lookup id m.executor_map ≡ some i
    → LeavesCut id i (remove_thread i m)
unfolding remove_thread IsCut
LeavesCut-remove_thread id i m at = elim (Option-cases (lookup i m.thread_map)) [
  | inl gone ↦ rw (gone, remove_thread) tt
  | inr (thread, there) ↦
      rw (there, remove_thread)
        (by_rest (erase i m.thread_map) _ (at, ground (arith, lookup-erase i i m.thread_map)))
]
  where
    by_rest :
        (threads : List (ℕ × ManagedThread)) (r : ExecutionManager)
        → IsCut id i r
        → IsCut id i (elim threads [ [] ↦ locked_shop_update_state r | _ ∷ _ ↦ r ])
    by_rest [] r c = IsCut-locked_shop_update_state id i r c
    by_rest (t ∷ ts) r c = c

-- A thread that ends while an executor is still in the map, as when the Init of its first executor
-- fails: a signal to the executor then goes through an iterator that found no thread.
pub remove_thread-signal_undefined :
    (id i : ℕ) (s : ExecutorSignalType) (m m' : ExecutionManager)
    → lookup id m.executor_map ≡ some i
    → remove_thread i m ≡ answers tt m'
    → signal_executor id s m' ≡ undefined
unfolding signal_executor IsCut
remove_thread-signal_undefined id i s m m' at e =
    let (still, gone) = subst (LeavesCut id i) e (LeavesCut-remove_thread id i m at) in
    rw (still, signal_executor) (rw gone refl)
