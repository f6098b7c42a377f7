-- ===== src/Execution/Signals.antt =====
-- Signals keep the map and the count of an executor thread right.
use mathlib.Core.Logic.{inl, inr}
use holder.Prelude.{
  ℕ, zero, suc, ◌+◌, ◌≡◌, refl, List, [], ◌∷◌, some, length, get_elem?, modify, lookup, nat_beq,
  inc_u32, nat_eq, arith, Option-cases, Bool-cases, length-modify,
}
use holder.Execution.{
  exec_wildcard, ExecutorSignalType, wake_up, request_termination, ExecutorStateTag, executing,
  suspended, ExecutorState, ExecutorThread, tell, woken, handle_signal_for_index, signal_all,
  handle_executor_signal,
}
use holder.Execution.Indexing.{IsIndexed, active_count, active_count-le, modify-IsIndexed}

active_count-woken :
    (es : List ExecutorState) (i : ℕ) (e : ExecutorState)
    → get_elem? es i ≡ some e
    → e.state_tag ≡ suspended
    → active_count (modify es i woken) ≡ active_count es + 1
unfolding active_count woken
active_count-woken [] i e h k = absurd (ground arith)
active_count-woken (f ∷ es) zero e h k = ground arith
active_count-woken (f ∷ es) (suc i) e h k = omega (arith, active_count-woken es i e h k)

woken-id : (e : ExecutorState) → (woken e).exec_id ≡ e.exec_id
unfolding woken
woken-id e = refl

tell-executors :
    (t : ExecutorThread) (signal_type : ExecutorSignalType) (p : ℕ)
    → ((tell t signal_type p).executors ≡ t.executors)
      × ((tell t signal_type p).signal_map ≡ t.signal_map)
      × ((tell t signal_type p).n_active ≡ t.n_active)
unfolding tell
tell-executors t wake_up p = (refl, refl, refl)
tell-executors t request_termination p = (refl, refl, refl)

IsIndexed-tell :
    (t : ExecutorThread) (signal_type : ExecutorSignalType) (p : ℕ)
    → IsIndexed t
    → IsIndexed (tell t signal_type p)
unfolding tell
IsIndexed-tell t wake_up p v = v
IsIndexed-tell t request_termination p v = record {
  place = v.place;
  entry = v.entry;
  counted = v.counted;
  fits = v.fits;
}

abbrev wake : ExecutorThread → ℕ → ExecutorThread
wake t i = record t { n_active = inc_u32 t.n_active; executors = modify t.executors i woken }

wake-IsIndexed :
    (t : ExecutorThread) (i : ℕ) (e : ExecutorState)
    → get_elem? t.executors i ≡ some e
    → e.state_tag ≡ suspended
    → IsIndexed t
    → IsIndexed (wake t i)
wake-IsIndexed t i e at asleep v =
    modify-IsIndexed t i (inc_u32 t.n_active) woken woken-id
      (omega (
        arith,
        v.counted,
        active_count-woken t.executors i e at asleep,
        v.fits,
        active_count-le (modify t.executors i woken),
        length-modify t.executors i woken,
      ))
      v

handle_signal_for_index-IsIndexed :
    (t : ExecutorThread) (i : ℕ) (signal_type : ExecutorSignalType)
    → IsIndexed t
    → IsIndexed (handle_signal_for_index t i signal_type)
unfolding handle_signal_for_index
handle_signal_for_index-IsIndexed t i signal_type v =
    elim (Option-cases (get_elem? t.executors i)) [
      | inl gone ↦ rw (gone, handle_signal_for_index) v
      | inr (e, at) ↦ rw (at, handle_signal_for_index) (by_state e at e.state_tag refl)
    ]
  where
    by_state :
        (e : ExecutorState)
        → get_elem? t.executors i ≡ some e
        → (tag : ExecutorStateTag) → e.state_tag ≡ tag
        → IsIndexed (elim tag [
          | executing ↦ tell t signal_type e.p_executor
          | suspended ↦ wake (tell t signal_type e.p_executor) i
        ])
    by_state e at executing is = IsIndexed-tell t signal_type e.p_executor v
    by_state e at suspended is =
        wake-IsIndexed (tell t signal_type e.p_executor) i e
          (rw (tell-executors t signal_type e.p_executor).0 at) is
          (IsIndexed-tell t signal_type e.p_executor v)

signal_all-IsIndexed :
    (n i : ℕ) (signal_type : ExecutorSignalType) (t : ExecutorThread)
    → IsIndexed t
    → IsIndexed (signal_all n i signal_type t)
unfolding signal_all
signal_all-IsIndexed zero i signal_type t v = v
signal_all-IsIndexed (suc n) i signal_type t v =
    signal_all-IsIndexed n (suc i) signal_type (handle_signal_for_index t i signal_type)
      (handle_signal_for_index-IsIndexed t i signal_type v)

-- A signal to one executor, to all or to none that is there keeps the places and the count of active
-- executors right.
pub handle_executor_signal-IsIndexed :
    (t : ExecutorThread) (id : ℕ) (signal_type : ExecutorSignalType)
    → IsIndexed t
    → IsIndexed (handle_executor_signal t id signal_type)
unfolding handle_executor_signal
handle_executor_signal-IsIndexed t id signal_type v = elim (Bool-cases (nat_beq id exec_wildcard)) [
  | inl b ↦ rw b (signal_all-IsIndexed (length t.executors) 0 signal_type t v)
  | inr b ↦ rw b (elim (Option-cases (lookup id t.signal_map)) [
    | inl gone ↦ rw gone v
    | inr (i, at) ↦ rw at (handle_signal_for_index-IsIndexed t i signal_type v)
  ])
]
