-- ===== src/Execution/Manager/Tables.antt =====
-- The tables of the execution manager agree, and the ids that it gives out.
use holder.Prelude.{
  ℕ, ◌+◌, ◌-◌, ◌^◌, ◌≡◌, refl, ◌∙◌, ◌≤◌, ◌<◌, not, Bool, true, false, Name, List, [], ◌∷◌, Option,
  none, some, inl, inr, is_some, lookup, lookup-emplace, lookup-update, lookup-erase, emplace,
  erase, update, nat_beq, if◌then◌else◌, inc_u32, inc_u64, nat_eq, name_eq, name_beq_iff, arith,
  Option-cases,
}
use holder.Execution.{exec_wildcard, ExecutorThread}
use holder.Execution.Timers.{doom_timers}
use holder.Execution.Manager.{
  ManagedThread, ExecutionManager, with_worker, locked_shop_update_state, doom_threads, lock_shop,
}

-- The name of the thread with an id.
unfoldable pub name_of : ℕ → List (ℕ × ManagedThread) → Option Name
name_of i threads = elim (lookup i threads) [ none ↦ none | some thread ↦ some thread.thread_name ]

-- A name leads to a thread of this name, an executor to a thread that is there; ids are given out in
-- order, and the wildcard is never one.
pub record IsManaged (m : ExecutionManager) : Type 0 where
  pub named :
      (thread_name : Name) (i : ℕ)
      → lookup thread_name m.thread_name_map ≡ some i
      → name_of i m.thread_map ≡ some thread_name
  pub placed :
      (id i : ℕ) → lookup id m.executor_map ≡ some i → is_some (name_of i m.thread_map) ≡ true
  pub given : (id i : ℕ) → lookup id m.executor_map ≡ some i → id < m.next_exec
  pub unused : (i : ℕ) → m.next_thread ≤ i → name_of i m.thread_map ≡ none
  pub bounded : m.next_exec ≤ exec_wildcard - 1

pub name_of-update :
    (k i : ℕ) (f : ExecutorThread → ExecutorThread) (threads : List (ℕ × ManagedThread))
    → name_of i (update k (with_worker f) threads) ≡ name_of i threads
unfolding name_of with_worker
name_of-update k i f threads =
    ground
      (arith, lookup-update k i (λ (t : ManagedThread). record t { worker = f t.worker }) threads)

name_of-doom_threads :
    (b : Bool) (i : ℕ) (threads : List (ℕ × ManagedThread))
    → name_of i (doom_threads b threads) ≡ name_of i threads
unfolding name_of doom_threads with_worker lookup
name_of-doom_threads b i [] = refl
name_of-doom_threads b i ((k, t) ∷ threads) = ground (arith, name_of-doom_threads b i threads)

pub name_of-emplace :
    (k i : ℕ) (thread : ManagedThread) (threads : List (ℕ × ManagedThread))
    → name_of k threads ≡ none
    → name_of i (emplace k thread threads)
      ≡ (if nat_beq k i then some thread.thread_name else name_of i threads)
unfolding name_of
name_of-emplace k i thread threads new = ground (arith, lookup-emplace k i thread threads)

pub name_of-erase :
    (k i : ℕ) (threads : List (ℕ × ManagedThread))
    → name_of i (erase k threads) ≡ (if nat_beq k i then none else name_of i threads)
unfolding name_of
name_of-erase k i threads = ground (arith, lookup-erase k i threads)

-- What matters of the threads is their names.
pub renamed-IsManaged :
    (m : ExecutionManager) (threads : List (ℕ × ManagedThread))
    → ((i : ℕ) → name_of i threads ≡ name_of i m.thread_map)
    → IsManaged m
    → IsManaged (record m { thread_map = threads })
renamed-IsManaged m threads same v = record {
  named = λ n i h. same i ∙ v.named n i h;
  placed = λ id i h. rw (same i) (v.placed id i h);
  given = v.given;
  unused = λ i p. same i ∙ v.unused i p;
  bounded = v.bounded;
}

pub locked_shop_update_state-IsManaged :
    (m : ExecutionManager) → IsManaged m → IsManaged (locked_shop_update_state m)
unfolding locked_shop_update_state
locked_shop_update_state-IsManaged m v = by_lock (not m.locked_shop)
  where
    by_lock :
        (b : Bool)
        → IsManaged (
            if b
            then record m { locked_shop = true; timer_thread = doom_timers m.timer_thread }
            else m)
    by_lock true = record {
      named = v.named;
      placed = v.placed;
      given = v.given;
      unused = v.unused;
      bounded = v.bounded;
    }
    by_lock false = v

pub lock_shop-IsManaged :
    (b : Bool) (m : ExecutionManager) → IsManaged m → IsManaged (lock_shop b m)
unfolding lock_shop
lock_shop-IsManaged b m v =
    locked_shop_update_state-IsManaged (record m { thread_map = doom_threads b m.thread_map })
      (renamed-IsManaged m (doom_threads b m.thread_map)
        (λ i. name_of-doom_threads b i m.thread_map) v)

-- The executor that a thread is asked to add.
pub placed-IsManaged :
    (m : ExecutionManager) (i : ℕ)
    → is_some (name_of i m.thread_map) ≡ true
    → m.next_exec < exec_wildcard - 1
    → IsManaged m
    → IsManaged (record m {
      next_exec = inc_u32 m.next_exec;
      executor_map = emplace m.next_exec i m.executor_map;
    })
placed-IsManaged m i there room v = record {
  named = v.named;
  placed = λ id j h. elim (Option-cases (lookup id m.executor_map)) [
    | inl new ↦
        let is : (if nat_beq m.next_exec id then some i else none) ≡ some j =
          ground (arith, lookup-emplace m.next_exec id i m.executor_map) in
        let same : i ≡ j = ground arith in rw (← same) there
    | inr (k, at) ↦
        let same : k ≡ j = ground (arith, lookup-emplace m.next_exec id i m.executor_map) in
        v.placed id j (rw (← same) at)
  ];
  given = λ id j h. elim (Option-cases (lookup id m.executor_map)) [
    | inl new ↦ ground (arith, lookup-emplace m.next_exec id i m.executor_map)
    | inr (k, at) ↦ omega (arith, v.given id k at)
  ];
  unused = v.unused;
  bounded = omega arith;
}

-- A thread under a name that has none.
pub threaded-IsManaged :
    (m : ExecutionManager) (thread : ManagedThread)
    → lookup thread.thread_name m.thread_name_map ≡ none
    → m.next_thread + 1 < 2 ^ 64
    → IsManaged m
    → IsManaged (record m {
      next_thread = inc_u64 m.next_thread;
      thread_map = emplace m.next_thread thread m.thread_map;
      thread_name_map = emplace thread.thread_name m.next_thread m.thread_name_map;
    })
threaded-IsManaged m thread new room v =
    let k = m.next_thread in
    let free = v.unused k (omega arith) in
    let read = λ (i : ℕ). name_of-emplace k i thread m.thread_map free in
    record {
      named = λ n i h. elim (Option-cases (lookup n m.thread_name_map)) [
        | inl none_yet ↦ ground (
          arith,
          lookup-emplace thread.thread_name n k m.thread_name_map,
          name_of-emplace k i thread m.thread_map free,
          name_beq_iff thread.thread_name n,
        )
        | inr (j, at) ↦ ground (
          arith,
          lookup-emplace thread.thread_name n k m.thread_name_map,
          name_of-emplace k i thread m.thread_map free,
          v.named n j at,
        )
      ];
      placed =
          λ id i h. ground (arith, name_of-emplace k i thread m.thread_map free, v.placed id i h);
      given = v.given;
      unused = λ i p.
          ground (arith, name_of-emplace k i thread m.thread_map free, v.unused i (omega arith));
      bounded = v.bounded;
    }
