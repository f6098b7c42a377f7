-- ===== src/Execution.antt =====
-- ExecutionManager::ExecutorThread (Holder/ExecutionManager.h, ExecutionManager.cpp): the executors
-- of a thread, the map from their ids to their places, and the instructions. Executors are client
-- code: `init` answers for Init, and the other calls of them are recorded.
pub mod Indexing
pub mod Signals
pub mod Removal
pub mod Rounds
pub mod Timers
pub mod Manager
pub mod Tests
use holder.Prelude.{
  ℕ, zero, suc, ◌+◌, ◌-◌, ◌^◌, Bool, true, false, List, [], ◌∷◌, ◌++◌, Option, none, some, length,
  get_elem?, set, modify, lookup, emplace, assign, erase, nat_beq, if◌then◌else◌, inc_u32, dec_u32,
  nat_eq,
}

abbrev pub exec_wildcard : ℕ
exec_wildcard = 4294967295

pub data ExecutorSignalType : Type 0 where
  wake_up request_termination : ExecutorSignalType

pub data ExecutorStateTag : Type 0 where
  executing suspended : ExecutorStateTag

pub record ExecutorState : Type 0 where
  pub exec_id : ℕ
  pub state_tag : ExecutorStateTag
  pub p_executor : ℕ

-- The calls of an executor's DeInit, TerminationRequested and Run.
pub data ExecutorCall : Type 0 where
  de_init termination_requested run : ℕ → ExecutorCall

pub data ExecutionInstructionMessage : Type 0 where
  add_executor_instruction : ℕ → ℕ → ExecutionInstructionMessage
  signal_executor_instruction : ℕ → ExecutorSignalType → ExecutionInstructionMessage

pub record ExecutorThread : Type 0 where
  pub instruction_list : List ExecutionInstructionMessage
  pub is_doomed : Bool
  pub n_active : ℕ
  pub signal_map : List (ℕ × ℕ)
  pub executors : List ExecutorState
  pub calls : List ExecutorCall

unfoldable pub post_add_executor : ExecutorThread → ℕ → ℕ → ExecutorThread
post_add_executor t id p = record t {
  instruction_list = t.instruction_list ++ add_executor_instruction id p ∷ [];
}

unfoldable pub post_signal_executor : ExecutorThread → ℕ → ExecutorSignalType → ExecutorThread
post_signal_executor t id signal_type = record t {
  instruction_list = t.instruction_list ++ signal_executor_instruction id signal_type ∷ [];
}

unfoldable pub post_signal_all : ExecutorThread → ExecutorSignalType → ExecutorThread
post_signal_all t signal_type = record t {
  instruction_list =
      t.instruction_list ++ signal_executor_instruction exec_wildcard signal_type ∷ [];
}

unfoldable pub doom_me : ExecutorThread → ExecutorThread
doom_me t = record t { is_doomed = true }

-- RequestTermination calls the executor.
unfoldable pub tell : ExecutorThread → ExecutorSignalType → ℕ → ExecutorThread
tell t wake_up p = t
tell t request_termination p = record t { calls = t.calls ++ termination_requested p ∷ [] }

unfoldable pub woken : ExecutorState → ExecutorState
woken e = record e { state_tag = executing }

unfoldable pub handle_signal_for_index : ExecutorThread → ℕ → ExecutorSignalType → ExecutorThread
handle_signal_for_index t i signal_type = elim (get_elem? t.executors i) [
  | none ↦ t
  | some e ↦
      let t' = tell t signal_type e.p_executor in
      elim e.state_tag [
        | executing ↦ t'
        | suspended ↦ record t' {
          n_active = inc_u32 t'.n_active;
          executors = modify t'.executors i woken;
        }
      ]
]

-- The loop over all executors, `n` of them from `i` on.
unfoldable pub signal_all : ℕ → ℕ → ExecutorSignalType → ExecutorThread → ExecutorThread
signal_all zero i signal_type t = t
signal_all (suc n) i signal_type t =
    signal_all n (suc i) signal_type (handle_signal_for_index t i signal_type)

unfoldable pub handle_executor_signal : ExecutorThread → ℕ → ExecutorSignalType → ExecutorThread
handle_executor_signal t id signal_type =
    let one : ExecutorThread = elim (lookup id t.signal_map) [
      | none ↦ t
      | some i ↦ handle_signal_for_index t i signal_type
    ] in
    if nat_beq id exec_wildcard then signal_all (length t.executors) 0 signal_type t else one

-- `pop_back`.
unfoldable pub pop_back : List ExecutorState → List ExecutorState
pop_back [] = []
pop_back (e ∷ []) = []
pop_back (e ∷ f ∷ es) = e ∷ pop_back (f ∷ es)

-- The swap with the last executor. After it the reference to the last place names the executor
-- that is removed, so its entry is the one that is updated.
unfoldable pub swap_with_last : ExecutorThread → ℕ → ℕ → ExecutorState → ExecutorThread
swap_with_last t exec_idx last_idx exec = elim (get_elem? t.executors last_idx) [
  | none ↦ t
  | some other ↦ record t {
    executors = set (set t.executors exec_idx other) last_idx exec;
    signal_map = assign exec.exec_id exec_idx t.signal_map;
  }
]

-- RemoveExecutor, from the executor that is found on.
unfoldable pub remove_found : ExecutorThread → ℕ → ℕ → ExecutorState → ExecutorThread
remove_found t id exec_idx exec =
    let t1 = record t { calls = t.calls ++ de_init exec.p_executor ∷ [] } in
    let last_idx = length t.executors - 1 in
    let t2 = if nat_beq exec_idx last_idx then t1 else swap_with_last t1 exec_idx last_idx exec in
    record t2 {
      signal_map = erase id t2.signal_map;
      n_active = dec_u32 t2.n_active;
      executors = pop_back t2.executors;
    }

unfoldable pub remove_executor : ExecutorThread → ℕ → ExecutorThread
remove_executor t id = elim (lookup id t.signal_map) [
  | none ↦ t
  | some exec_idx ↦ elim (get_elem? t.executors exec_idx) [
    | none ↦ t
    | some exec ↦ remove_found t id exec_idx exec
  ]
]

module _ (init : ℕ → Bool) where
  unfoldable pub add_executor : ExecutorThread → ℕ → ℕ → ExecutorThread
  add_executor t id p =
      if init p
      then record t {
        executors =
            t.executors ++ record { exec_id = id; state_tag = executing; p_executor = p } ∷ [];
        signal_map = emplace id (length t.executors) t.signal_map;
        n_active = inc_u32 t.n_active;
      }
      else t

  -- The two loops over the local list: all adds, then all signals.
  unfoldable pub process_adds : List ExecutionInstructionMessage → ExecutorThread → ExecutorThread
  process_adds [] t = t
  process_adds (add_executor_instruction id p ∷ msgs) t = process_adds msgs (add_executor t id p)
  process_adds (signal_executor_instruction id signal_type ∷ msgs) t = process_adds msgs t

unfoldable pub process_signals : List ExecutionInstructionMessage → ExecutorThread → ExecutorThread
process_signals [] t = t
process_signals (add_executor_instruction id p ∷ msgs) t = process_signals msgs t
process_signals (signal_executor_instruction id signal_type ∷ msgs) t =
    process_signals msgs (handle_executor_signal t id signal_type)

unfoldable pub process_instructions : (ℕ → Bool) → ExecutorThread → ExecutorThread
process_instructions init t =
    process_signals t.instruction_list
      (process_adds init t.instruction_list (record t { instruction_list = [] }))
