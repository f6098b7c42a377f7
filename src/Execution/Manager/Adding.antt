-- ===== src/Execution/Manager/Adding.antt =====
-- AddExecutor of the execution manager (Holder/ExecutionManager.cpp).
use holder.Prelude.{
  ℕ, ◌+◌, ◌-◌, ◌^◌, ◌≡◌, refl, Option, some, name_beq_iff, ◌<◌, ◌⊎◌, ◌||◌, Bool, true, false, Name,
  List, none, inl, inr, is_some, lookup, lookup-emplace, emplace, update, nat_beq, if◌then◌else◌,
  inc_u32, nat_eq, name_eq, arith, Option-cases, Bool-cases,
}
use holder.Execution.{exec_wildcard, ExecutorThread}
use holder.Execution.Timers.{is_empty_name}
use holder.Execution.Manager.{
  ManagedThread, ExecutionManager, ManagerResult, answers, throws, undefined, new_thread,
  with_worker, add_to_thread, add_to_new_thread, add_managed_executor,
}
use holder.Execution.Manager.Tables.{
  name_of, IsManaged, name_of-update, name_of-emplace, renamed-IsManaged, placed-IsManaged,
  threaded-IsManaged,
}
use holder.Execution.{post_add_executor}
use holder.Execution.Manager.Calls.{is_some-name_of}

-- A name or the state of the counter that AddExecutor refuses, whatever else holds.
abbrev pub is_refused : Name → ExecutionManager → Bool
is_refused n m = is_empty_name n || nat_beq m.next_exec (exec_wildcard - 1)

abbrev pub is_singleton_of : ℕ → ExecutionManager → Bool
is_singleton_of i m = elim (lookup i m.thread_map) [ none ↦ false | some t ↦ t.is_singleton ]

-- The executor `id` is found on the thread of that name if there is one, which must not be for one
-- executor alone, and else on a new thread with that name.
abbrev pub Joins : Name → Bool → ExecutionManager → ℕ → ExecutionManager → Option ℕ → Type 0
Joins n b m id m' none =
    (lookup n m'.thread_name_map ≡ some m.next_thread)
    × (lookup id m'.executor_map ≡ some m.next_thread)
Joins n b m id m' (some i) =
    ((b || is_singleton_of i m) ≡ false)
    × (m'.thread_name_map ≡ m.thread_name_map)
    × (lookup id m'.executor_map ≡ some i)

-- The next id is given out to an executor that was added.
pub record Gives (n : Name) (b : Bool) (m : ExecutionManager) (id : ℕ) (m' : ExecutionManager)
    : Type 0 where
  pub next : id ≡ m.next_exec
  pub below : id < exec_wildcard - 1
  pub new : lookup id m.executor_map ≡ none
  pub joins : Joins n b m id m' (lookup n m.thread_name_map)

-- The thread of that name or the new executor wants to be alone.
pub record Alone (n : Name) (b : Bool) (m : ExecutionManager) : Type 0 where
  pub open_shop : m.locked_shop ≡ false
  pub thread : ℕ
  pub there : lookup n m.thread_name_map ≡ some thread
  pub alone : (b || is_singleton_of thread m) ≡ true

-- What AddExecutor may answer, and when.
abbrev pub Adds : Name → Bool → ExecutionManager → ManagerResult ℕ → Type 0
Adds n b m (answers id m') =
    IsManaged m'
    × (is_refused n m ≡ false)
    × (if m.locked_shop then (id ≡ exec_wildcard) × (m' ≡ m) else Gives n b m id m')
Adds n b m (throws m') =
    IsManaged m'
    × (m'.executor_map ≡ m.executor_map)
    × (m'.thread_map ≡ m.thread_map)
    × (m'.thread_name_map ≡ m.thread_name_map)
    × ((is_refused n m ≡ true) ⊎ Alone n b m)
Adds n b m undefined = ⊥

module _ (m : ExecutionManager) (v : IsManaged m) (room : m.next_exec < exec_wildcard - 1)
    (n : Name) (accepted : is_refused n m ≡ false) (unlocked : m.locked_shop ≡ false) where
  not_given : lookup m.next_exec m.executor_map ≡ none
  not_given = elim (Option-cases (lookup m.next_exec m.executor_map)) [
    | inl e ↦ e
    | inr (i, e) ↦ absurd (omega (arith, v.given m.next_exec i e))
  ]

  now_given : (i : ℕ) → lookup m.next_exec (emplace m.next_exec i m.executor_map) ≡ some i
  now_given i = ground (arith, lookup-emplace m.next_exec m.next_exec i m.executor_map, not_given)

  abbrev advanced : ExecutionManager
  advanced = record m { next_exec = inc_u32 m.next_exec }

  advanced-IsManaged : IsManaged advanced
  advanced-IsManaged = record {
    named = v.named;
    placed = v.placed;
    given = λ id i h. omega (arith, v.given id i h);
    unused = v.unused;
    bounded = omega arith;
  }

  gives :
      (b : Bool) (m' : ExecutionManager)
      → IsManaged m'
      → Joins n b m m.next_exec m' (lookup n m.thread_name_map)
      → Adds n b m (answers m.next_exec m')
  gives b m' v' joins = (
    v',
    accepted,
    rw unlocked (record { next = refl; below = room; new = not_given; joins = joins }),
  )

  add_to_thread-Adds :
      (i p : ℕ) (b : Bool)
      → lookup n m.thread_name_map ≡ some i
      → is_some (name_of i m.thread_map) ≡ true
      → Adds n b m (add_to_thread i m.next_exec p b advanced)
  unfolding add_to_thread
  add_to_thread-Adds i p b named there = elim (Option-cases (lookup i m.thread_map)) [
    | inl gone ↦ absurd (ground (arith, is_some-name_of i m.thread_map))
    | inr (thread, at) ↦
        rw (at, add_to_thread)
          (by_singleton (b || thread.is_singleton) (rw (at, is_singleton_of) refl))
  ]
    where
      threads : List (ℕ × ManagedThread)
      threads = update i (with_worker (λ w. post_add_executor w m.next_exec p)) m.thread_map

      by_singleton :
          (alone : Bool)
          → (b || is_singleton_of i m) ≡ alone
          → Adds n b m (
              if alone
              then throws advanced
              else answers m.next_exec (record advanced {
                thread_map = threads;
                executor_map = emplace m.next_exec i m.executor_map;
              }))
      by_singleton true is = (
        advanced-IsManaged,
        refl,
        refl,
        refl,
        inr (record { open_shop = unlocked; thread = i; there = named; alone = is }),
      )
      by_singleton false is =
          gives b _
            (renamed-IsManaged
              (record advanced { executor_map = emplace m.next_exec i m.executor_map }) threads
              (λ j.
                name_of-update i j (λ (w : ExecutorThread). post_add_executor w m.next_exec p)
                  m.thread_map)
              (placed-IsManaged m i there room v))
            (rw named (is, refl, now_given i))

  add_to_new_thread-Adds :
      (p : ℕ) (b : Bool)
      → lookup n m.thread_name_map ≡ none
      → m.next_thread + 1 < 2 ^ 64
      → Adds n b m (add_to_new_thread n m.next_exec p b advanced)
  unfolding add_to_new_thread new_thread
  add_to_new_thread-Adds p b new fits =
      let thread = new_thread n b m.next_exec p in
      let v' = threaded-IsManaged m thread new fits v in
      let here : is_some (name_of m.next_thread (emplace m.next_thread thread m.thread_map))
          ≡ true =
        ground (
          arith,
          name_of-emplace m.next_thread m.next_thread thread m.thread_map
              (v.unused m.next_thread (omega arith)),
        ) in
      gives b _ (placed-IsManaged _ m.next_thread here room v') (
        rw new (
          ground (arith, lookup-emplace n n m.next_thread m.thread_name_map, name_beq_iff n n),
          now_given m.next_thread,
        ))

pub add_managed_executor-Adds :
    (n : Name) (p : ℕ) (b : Bool) (m : ExecutionManager)
    → m.next_thread + 1 < 2 ^ 64
    → IsManaged m
    → Adds n b m (add_managed_executor n p b m)
unfolding add_managed_executor
add_managed_executor-Adds n p b m fits v = elim (Bool-cases (is_refused n m)) [
  | inl refused ↦ rw refused (v, refl, refl, refl, inl refused)
  | inr accepted ↦
      let room : m.next_exec < exec_wildcard - 1 = ground (arith, v.bounded) in
      rw accepted (
        by_lock accepted m.locked_shop refl _ (λ unlocked.
          elim (Option-cases (lookup n m.thread_name_map)) [
            | inl new ↦
                rw (new, add_managed_executor)
                  (add_to_new_thread-Adds m v room n accepted unlocked p b new fits)
            | inr (i, at) ↦
                rw (at, add_managed_executor)
                  (add_to_thread-Adds m v room n accepted unlocked i p b at
                    (rw (v.named n i at) refl))
          ]))
]
  where
    by_lock :
        is_refused n m ≡ false
        → (locked : Bool) → m.locked_shop ≡ locked
        → (added : ManagerResult ℕ) → (m.locked_shop ≡ false → Adds n b m added)
        → Adds n b m (if locked then answers exec_wildcard m else added)
    by_lock accepted true e added a = (v, accepted, rw e (refl, refl))
    by_lock accepted false e added a = a e
