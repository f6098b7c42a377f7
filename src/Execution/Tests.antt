-- ===== src/Execution/Tests.antt =====
-- A thread with the executors 5, 6 and 7, all of them active.
use holder.Prelude.{
  ℕ, ◌≡◌, refl, true, [], ◌∷◌, some, length, get_elem?, lookup, emplace, nat_eq, arith, Bool, false,
}
use holder.Execution.{
  ExecutorState, executing, ExecutorThread, wake_up, add_executor, handle_executor_signal,
  remove_executor,
}
use holder.Execution.Indexing.{IsIndexed, active_count, add_executor-IsIndexed}
use holder.Execution.Signals.{handle_executor_signal-IsIndexed}
use holder.Execution.Removal.{remove_executor_stale}

abbrev idle : ExecutorThread
idle = record {
  instruction_list = [];
  is_doomed = false;
  n_active = 0;
  signal_map = [];
  executors = [];
  calls = [];
}

abbrev pub init : ℕ → Bool
init p = true

abbrev pub exec : ℕ → ExecutorState
exec id = record { exec_id = id; state_tag = executing; p_executor = id }

abbrev pub three : ExecutorThread
three = record idle {
  n_active = 3;
  signal_map = (5, 0) ∷ (6, 1) ∷ (7, 2) ∷ [];
  executors = exec 5 ∷ exec 6 ∷ exec 7 ∷ [];
}

idle-IsIndexed : IsIndexed idle
unfolding lookup active_count
idle-IsIndexed = record {
  place = λ i e h. absurd (ground arith);
  entry = λ id i h. absurd (ground arith);
  counted = refl;
  fits = omega arith;
}

added : Unit {0}
unfolding add_executor emplace lookup
added = tt

pub three-IsIndexed : IsIndexed three
unfolding added
three-IsIndexed =
    add_executor-IsIndexed init (add_executor init (add_executor init idle 5 5) 6 6) 7 7
      (add_executor-IsIndexed init (add_executor init idle 5 5) 6 6
        (add_executor-IsIndexed init idle 5 5 idle-IsIndexed refl (omega arith)) refl (omega arith))
      refl (omega arith)

handle_executor_signal-IsIndexed_example : IsIndexed (handle_executor_signal three 6 wake_up)
handle_executor_signal-IsIndexed_example =
    handle_executor_signal-IsIndexed three 6 wake_up three-IsIndexed

remove_executor_stale_example :
    let t' = remove_executor three 5 in
    (get_elem? t'.executors 0 ≡ some (exec 7))
    × (lookup 7 t'.signal_map ≡ some 2)
    × (length t'.executors ≡ 2)
unfolding lookup
remove_executor_stale_example =
    remove_executor_stale three 5 0 2 (exec 5) (exec 7) three-IsIndexed refl refl refl (omega arith)
      (omega arith)
