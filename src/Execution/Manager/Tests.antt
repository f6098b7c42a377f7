-- ===== src/Execution/Manager/Tests.antt =====
-- One executor on the thread 7, whose Init fails.
use holder.Prelude.{
  ◌≡◌, refl, false, [], ◌∷◌, lookup, emplace, erase, update, name_beq, nat_eq, name_eq, arith,
}
use holder.Execution.{wake_up}
use holder.Execution.Timers.{new_timer_thread}
use holder.Execution.Manager.{
  ExecutionManager, ManagerResult, answers, throws, undefined, new_manager, new_thread, with_worker,
  add_managed_executor, add_to_thread, add_to_new_thread, doom_thread, signal_executor,
  remove_thread, locked_shop_update_state,
}
use holder.Execution.Manager.Tables.{IsManaged}
use holder.Execution.Manager.Calls.{Keeps, remove_thread-signal_undefined}
use holder.Execution.Manager.Reaching.{Reachable, start, added, Reachable-Keeps}

managing : Unit {0}
unfolding new_manager new_timer_thread new_thread with_worker add_managed_executor add_to_thread
    add_to_new_thread signal_executor remove_thread locked_shop_update_state lookup emplace erase
    update name_beq
managing = tt

abbrev manager_of : {A : Type 0} → ManagerResult A → ExecutionManager
manager_of (answers a m) = m
manager_of (throws m) = m
manager_of undefined = new_manager

abbrev one : ExecutionManager
one = manager_of (add_managed_executor (7 ∷ []) 4 false new_manager)

one-Reachable : Reachable one
unfolding managing
one-Reachable = added (7 ∷ []) 4 false (omega arith) refl start

Reachable-Keeps_example :
    IsManaged one × Keeps (signal_executor 0 wake_up one) × Keeps (doom_thread (7 ∷ []) one)
Reachable-Keeps_example = Reachable-Keeps 0 wake_up (7 ∷ []) one-Reachable

remove_thread-signal_undefined_example :
    signal_executor 0 wake_up (manager_of (remove_thread 0 one)) ≡ undefined
unfolding managing
remove_thread-signal_undefined_example =
    remove_thread-signal_undefined 0 0 wake_up one (manager_of (remove_thread 0 one)) refl refl
