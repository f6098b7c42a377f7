-- ===== src/Execution/Timers.antt =====
-- ExecutionManager::TimerThread (Holder/ExecutionManager.h and .cpp). A time is a number of ticks of
-- the steady clock. The priority queue is a list of which the entry with the least beat is taken, the
-- first of these; `cast` is the duration_cast from microseconds. Callbacks are client code: the calls
-- of OnTimer are recorded.
pub mod Firing
pub mod OneShot
pub mod Scheduling
pub mod Tests
use holder.Prelude.{
  ℕ, ◌+◌, ◌^◌, Bool, true, false, not, ◌&&◌, List, [], ◌∷◌, ◌++◌, Option, none, some, Name,
  name_beq, lookup, emplace, erase, update, leb, nat_beq, if◌then◌else◌, inc_u32, nat_eq,
}

pub record TimerDefinition : Type 0 where
  pub timer_name : Name
  pub time_interval : ℕ
  pub repeating_timer : Bool
  pub timer_user_id : ℕ
  pub p_callback : ℕ

pub data TimerMessage : Type 0 where
  set_message : TimerDefinition → TimerMessage
  cancel_name_message : Name → TimerMessage
  cancel_id_message : ℕ → TimerMessage

pub record TimerPriorityEntry : Type 0 where
  pub next_beat : ℕ
  pub timer_index : ℕ

pub record TimerStateWrapper : Type 0 where
  pub recalibrate : Bool
  pub timer_def : TimerDefinition

-- A call of OnTimer: the callback, the user's id and the timer's.
pub record TimerCall : Type 0 where
  pub p_callback : ℕ
  pub timer_user_id : ℕ
  pub timer_id : ℕ

pub record TimerThread : Type 0 where
  pub messages : List TimerMessage
  pub timer_states : List (ℕ × TimerStateWrapper)
  pub timer_priorities : List TimerPriorityEntry
  pub next_timer_index : ℕ
  pub thread_doomed : Bool
  pub calls : List TimerCall

unfoldable pub new_timer_thread : TimerThread
new_timer_thread = record {
  messages = [];
  timer_states = [];
  timer_priorities = [];
  next_timer_index = 0;
  thread_doomed = false;
  calls = [];
}

unfoldable pub doom_timers : TimerThread → TimerThread
doom_timers t = record t { thread_doomed = true }

unfoldable pub post_message : TimerMessage → TimerThread → TimerThread
post_message msg t = record t { messages = t.messages ++ msg ∷ [] }

module _ (cast : ℕ → ℕ) where
  unfoldable pub set_timer : Name → ℕ → Bool → ℕ → ℕ → TimerThread → TimerThread
  unfolding post_message
  set_timer timer_name micro_interval repeating_timer timer_user_id p_callback t =
      post_message
        (set_message (record {
          timer_name = timer_name;
          time_interval = cast micro_interval;
          repeating_timer = repeating_timer;
          timer_user_id = timer_user_id;
          p_callback = p_callback;
        }))
        t

unfoldable pub cancel_timer_name : Name → TimerThread → TimerThread
unfolding post_message
cancel_timer_name timer_name t = post_message (cancel_name_message timer_name) t

unfoldable pub cancel_timer_id : ℕ → TimerThread → TimerThread
unfolding post_message
cancel_timer_id timer_id t = post_message (cancel_id_message timer_id) t

-- The loops that search the states for a name.
unfoldable pub find_named : Name → List (ℕ × TimerStateWrapper) → Option ℕ
find_named timer_name [] = none
find_named timer_name ((i, s) ∷ states) =
    let rest = find_named timer_name states in
    if name_beq s.timer_def.timer_name timer_name then some i else rest

abbrev pub is_empty_name : Name → Bool
is_empty_name [] = true
is_empty_name (_ ∷ _) = false

unfoldable pub add_timer : ℕ → TimerDefinition → TimerThread → TimerThread
add_timer now def t = record t {
  next_timer_index = inc_u32 t.next_timer_index;
  timer_states =
      emplace t.next_timer_index (record { recalibrate = true; timer_def = def }) t.timer_states;
  timer_priorities =
      record { next_beat = now + def.time_interval; timer_index = t.next_timer_index }
      ∷ t.timer_priorities;
}

unfoldable pub erase_timer : ℕ → TimerThread → TimerThread
erase_timer i t = record t { timer_states = erase i t.timer_states }

-- A cancellation by id has an empty name.
unfoldable pub process_timer_message : ℕ → TimerMessage → TimerThread → TimerThread
process_timer_message now (set_message def) t =
    let found : Option ℕ =
      if is_empty_name def.timer_name then none else find_named def.timer_name t.timer_states in
    elim found [
      | none ↦ add_timer now def t
      | some i ↦ record t {
        timer_states =
            update i (λ s. record s { recalibrate = true; timer_def = def }) t.timer_states;
      }
    ]
process_timer_message now (cancel_name_message timer_name) t =
    if is_empty_name timer_name
    then t
    else elim (find_named timer_name t.timer_states) [ none ↦ t | some i ↦ erase_timer i t ]
process_timer_message now (cancel_id_message timer_id) t = erase_timer timer_id t

-- The answer is the entry to insert again, if that is what is to be done.
unfoldable pub on_timer_due :
    TimerPriorityEntry → TimerThread → Option TimerPriorityEntry × TimerThread
on_timer_due entry t = elim (lookup entry.timer_index t.timer_states) [
  | none ↦ (none, t)
  | some s ↦
      let t' = record t {
        calls =
            t.calls
            ++ record {
              p_callback = s.timer_def.p_callback;
              timer_user_id = s.timer_def.timer_user_id;
              timer_id = entry.timer_index;
            }
              ∷ [];
      } in
      if not s.recalibrate && not s.timer_def.repeating_timer
      then (none, record t' { timer_states = erase entry.timer_index t'.timer_states })
      else (
        some (record entry { next_beat = entry.next_beat + s.timer_def.time_interval }),
        record t' {
          timer_states =
              update entry.timer_index (λ r. record r { recalibrate = false }) t'.timer_states;
        },
      )
]

-- `top()`, with what `pop()` leaves.
unfoldable pub split_top :
    List TimerPriorityEntry → Option (TimerPriorityEntry × List TimerPriorityEntry)
split_top [] = none
split_top (e ∷ es) = elim (split_top es) [
  | none ↦ some (e, [])
  | some (f, rest) ↦ if leb e.next_beat f.next_beat then some (e, es) else some (f, e ∷ rest)
]

unfoldable pub push_entry : Option TimerPriorityEntry → TimerThread → TimerThread
push_entry none t = t
push_entry (some e) t = record t { timer_priorities = e ∷ t.timer_priorities }

-- The timer that is due first, if it is due by now.
unfoldable pub fire_top : ℕ → TimerThread → TimerThread
fire_top now t = elim (split_top t.timer_priorities) [
  | none ↦ t
  | some (top_timer, rest) ↦
      let (timer_action, t') = on_timer_due top_timer t in
      let t'' = push_entry timer_action (record t' { timer_priorities = rest }) in
      if leb top_timer.next_beat now then t'' else t
]

unfoldable pub process_timer_messages : ℕ → List TimerMessage → TimerThread → TimerThread
process_timer_messages now [] t = t
process_timer_messages now (msg ∷ msgs) t =
    process_timer_messages now msgs (process_timer_message now msg t)

-- A round of the loop of the thread, with one reading of the clock for all of it.
unfoldable pub timer_round : ℕ → TimerThread → TimerThread
timer_round now t =
    let t' = process_timer_messages now t.messages (record t { messages = [] }) in
    if t.thread_doomed then t else fire_top now t'
