-- ===== src/Execution/Manager/Reaching.antt =====
-- What holds of the execution manager in every state that it reaches.
use mathlib.Core.Path.{subst}
use holder.Prelude.{
  ℕ, ◌+◌, ◌^◌, ◌≡◌, refl, ◌<◌, Bool, true, Name, List, is_some, lookup, nat_eq, name_eq, arith,
}
use holder.Execution.{ExecutorSignalType}
use holder.Execution.Manager.{
  ExecutionManager, ManagerResult, answers, throws, undefined, new_manager, add_managed_executor,
  lock_shop, doom_thread, signal_executor, remove_executors, remove_thread,
}
use holder.Execution.Manager.Tables.{name_of, IsManaged, lock_shop-IsManaged}
use holder.Execution.Manager.Calls.{
  Keeps, IsLeft, signal_executor-Keeps, doom_thread-Keeps, remove_executors-IsManaged,
  remove_thread-Keeps,
}
use holder.Execution.Manager.Adding.{Adds, add_managed_executor-Adds}

-- A call leaves the manager in this state, also if it throws.
abbrev pub LeavesIn {ℓ} : {A : Type ℓ} → ManagerResult A → ExecutionManager → Type 0
LeavesIn (answers a m) m' = m ≡ m'
LeavesIn (throws m) m' = m ≡ m'
LeavesIn undefined m' = ⊥

-- The calls of clients and of the executor threads, where a thread ends only when none of its
-- executors is left.
pub data Reachable : ExecutionManager → Type 0 where
  start : Reachable new_manager
  added :
      {m m' : ExecutionManager} (n : Name) (p : ℕ) (b : Bool)
      → m.next_thread + 1 < 2 ^ 64
      → LeavesIn (add_managed_executor n p b m) m'
      → Reachable m
      → Reachable m'
  locked : {m : ExecutionManager} (b : Bool) → Reachable m → Reachable (lock_shop b m)
  doomed :
      {m m' : ExecutionManager} (n : Name)
      → LeavesIn (doom_thread n m) m'
      → Reachable m
      → Reachable m'
  signalled :
      {m m' : ExecutionManager} (id : ℕ) (s : ExecutorSignalType)
      → LeavesIn (signal_executor id s m) m'
      → Reachable m
      → Reachable m'
  executors_removed :
      {m : ExecutionManager} (gone : List ℕ) → Reachable m → Reachable (remove_executors gone m)
  thread_removed :
      {m m' : ExecutionManager} (i : ℕ)
      → is_some (lookup i m.thread_map) ≡ true
      → IsLeft i m
      → LeavesIn (remove_thread i m) m'
      → Reachable m
      → Reachable m'

Keeps-LeavesIn {ℓ} :
    {A : Type ℓ} (r : ManagerResult A) (m : ExecutionManager) → Keeps r → LeavesIn r m → IsManaged m
Keeps-LeavesIn (answers a m) m' k e = subst IsManaged e k
Keeps-LeavesIn (throws m) m' k e = subst IsManaged e k
Keeps-LeavesIn undefined m' k e = absurd e

Adds-Keeps :
    (n : Name) (b : Bool) (m : ExecutionManager) (r : ManagerResult ℕ) → Adds n b m r → Keeps r
Adds-Keeps n b m (answers a m') k = k.0
Adds-Keeps n b m (throws m') k = k.0
Adds-Keeps n b m undefined k = k

new_manager-IsManaged : IsManaged new_manager
unfolding new_manager lookup name_of
new_manager-IsManaged = record {
  named = λ n i h. absurd (ground arith);
  placed = λ id i h. absurd (ground arith);
  given = λ id i h. absurd (ground arith);
  unused = λ i p. refl;
  bounded = omega arith;
}

Reachable-IsManaged : {m : ExecutionManager} → Reachable m → IsManaged m
Reachable-IsManaged start = new_manager-IsManaged
Reachable-IsManaged (added {m} {m'} n p b fits e r) =
    Keeps-LeavesIn (add_managed_executor n p b m) m'
      (Adds-Keeps n b m (add_managed_executor n p b m)
        (add_managed_executor-Adds n p b m fits (Reachable-IsManaged r)))
      e
Reachable-IsManaged (locked {m} b r) = lock_shop-IsManaged b m (Reachable-IsManaged r)
Reachable-IsManaged (doomed {m} {m'} n e r) =
    Keeps-LeavesIn (doom_thread n m) m' (doom_thread-Keeps n m (Reachable-IsManaged r)) e
Reachable-IsManaged (signalled {m} {m'} id s e r) =
    Keeps-LeavesIn (signal_executor id s m) m'
      (signal_executor-Keeps id s m (Reachable-IsManaged r)) e
Reachable-IsManaged (executors_removed {m} gone r) =
    remove_executors-IsManaged gone m (Reachable-IsManaged r)
Reachable-IsManaged (thread_removed {m} {m'} i there left e r) =
    Keeps-LeavesIn (remove_thread i m) m'
      (remove_thread-Keeps i m there left (Reachable-IsManaged r)) e

-- Whatever calls lead to the state, if a thread ends only when none of its executors is in the map,
-- the tables of the manager agree, and SignalExecutor and DoomThread are defined and keep it so.
pub Reachable-Keeps :
    {m : ExecutionManager} (id : ℕ) (s : ExecutorSignalType) (n : Name)
    → Reachable m
    → IsManaged m × Keeps (signal_executor id s m) × Keeps (doom_thread n m)
Reachable-Keeps {m} id s n r =
    let v = Reachable-IsManaged r in (v, signal_executor-Keeps id s m v, doom_thread-Keeps n m v)
