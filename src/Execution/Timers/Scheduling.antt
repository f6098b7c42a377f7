-- ===== src/Execution/Timers/Scheduling.antt =====
-- Each timer is in the priority queue once (ExecutionManager::TimerThread).
use holder.Prelude.{
  ℕ, ◌+◌, ◌^◌, ◌≡◌, ◌≤◌, ◌<◌, ◌&&◌, not, Bool, true, false, List, [], ◌∷◌, Option, none, some, inl,
  inr, lookup, lookup-emplace, lookup-update, lookup-erase, update, leb, nat_beq, if◌then◌else◌,
  nat_eq, arith, length, Option-cases, Bool-cases,
}
use holder.Execution.Timers.{
  TimerDefinition, TimerPriorityEntry, TimerStateWrapper, TimerMessage, set_message,
  cancel_name_message, cancel_id_message, TimerThread, on_timer_due, split_top, fire_top,
  push_entry, add_timer, erase_timer, process_timer_message, process_timer_messages, find_named,
  is_empty_name, timer_round,
}
use holder.Execution.Timers.Firing.{split_top-eq_none}

-- How many entries a timer has in the priority queue.
unfoldable pub entries : ℕ → List TimerPriorityEntry → ℕ
entries i [] = 0
entries i (e ∷ es) = (if nat_beq e.timer_index i then 1 else 0) + entries i es

-- A timer that is set has one entry, one that was cancelled at most one, and indices from the next
-- on are not in use.
pub record IsScheduled (t : TimerThread) : Type 0 where
  pub one :
      (i : ℕ) (s : TimerStateWrapper)
      → lookup i t.timer_states ≡ some s
      → entries i t.timer_priorities ≡ 1
  pub at_most : (i : ℕ) → entries i t.timer_priorities ≤ 1
  pub unused_state : (i : ℕ) → t.next_timer_index ≤ i → lookup i t.timer_states ≡ none
  pub unused_entry : (i : ℕ) → t.next_timer_index ≤ i → entries i t.timer_priorities ≡ 0

entries-split_top :
    (i : ℕ) (es : List TimerPriorityEntry) {e : TimerPriorityEntry} {rest : List TimerPriorityEntry}
    → split_top es ≡ some (e, rest)
    → entries i es ≡ (if nat_beq e.timer_index i then 1 else 0) + entries i rest
unfolding split_top entries
entries-split_top i [] h = absurd (ground arith)
entries-split_top i (g ∷ es) {e} {rest} h = elim (Option-cases (split_top es)) [
  | inl none_left ↦ ground (arith, split_top-eq_none es)
  | inr ((f, fs), at) ↦ elim (Bool-cases (leb g.next_beat f.next_beat)) [
    | inl b ↦ ground arith
    | inr b ↦ ground (arith, entries-split_top i es at)
  ]
]

add_timer-IsScheduled :
    (now : ℕ) (def : TimerDefinition) (t : TimerThread)
    → t.next_timer_index + 1 < 2 ^ 32
    → IsScheduled t
    → IsScheduled (add_timer now def t)
unfolding add_timer entries
add_timer-IsScheduled now def t room v =
    let n = t.next_timer_index in
    let s : TimerStateWrapper = record { recalibrate = true; timer_def = def } in
    record {
      one = λ i r e. elim (Bool-cases (nat_beq n i)) [
        | inl b ↦ ground (arith, v.unused_entry i)
        | inr b ↦ ground (arith, lookup-emplace n i s t.timer_states, v.one i r)
      ];
      at_most = λ i. ground (arith, v.at_most i, v.unused_entry i);
      unused_state = λ i p.
          ground (arith, lookup-emplace n i s t.timer_states, v.unused_state i (omega arith));
      unused_entry = λ i p. ground (arith, v.unused_entry i (omega arith));
    }

erase_timer-IsScheduled : (k : ℕ) (t : TimerThread) → IsScheduled t → IsScheduled (erase_timer k t)
unfolding erase_timer
erase_timer-IsScheduled k t v = record {
  one = λ i s e. v.one i s (ground (arith, lookup-erase k i t.timer_states));
  at_most = v.at_most;
  unused_state = λ i p. ground (arith, lookup-erase k i t.timer_states, v.unused_state i p);
  unused_entry = v.unused_entry;
}

-- A change of a timer that is there.
update-IsScheduled :
    (k : ℕ) (f : TimerStateWrapper → TimerStateWrapper) (t : TimerThread)
    → IsScheduled t
    → IsScheduled (record t { timer_states = update k f t.timer_states })
update-IsScheduled k f t v = record {
  one = λ i s e. elim (Option-cases (lookup i t.timer_states)) [
    | inl gone ↦ absurd (ground (arith, lookup-update k i f t.timer_states))
    | inr (r, there) ↦ v.one i r there
  ];
  at_most = v.at_most;
  unused_state = λ i p. ground (arith, lookup-update k i f t.timer_states, v.unused_state i p);
  unused_entry = v.unused_entry;
}

process_timer_message-IsScheduled :
    (now : ℕ) (msg : TimerMessage) (t : TimerThread)
    → t.next_timer_index + 1 < 2 ^ 32
    → IsScheduled t
    → IsScheduled (process_timer_message now msg t)
      × ((process_timer_message now msg t).next_timer_index ≤ t.next_timer_index + 1)
unfolding process_timer_message
process_timer_message-IsScheduled now (set_message def) t room v =
    by_found
      (if is_empty_name def.timer_name then none else find_named def.timer_name t.timer_states)
  where
    by_found :
        (found : Option ℕ)
        → let t' : TimerThread = elim found [
          | none ↦ add_timer now def t
          | some i ↦ record t {
            timer_states =
                update i (λ s. record s { recalibrate = true; timer_def = def }) t.timer_states;
          }
        ] in
          IsScheduled t' × (t'.next_timer_index ≤ t.next_timer_index + 1)
    by_found none = (add_timer-IsScheduled now def t room v, unfold add_timer in omega arith)
    by_found (some i) = (
      update-IsScheduled i (λ s. record s { recalibrate = true; timer_def = def }) t v,
      omega arith,
    )
process_timer_message-IsScheduled now (cancel_name_message timer_name) t room v =
    elim (Bool-cases (is_empty_name timer_name)) [
      | inl b ↦ rw b (v, omega arith)
      | inr b ↦ elim (Option-cases (find_named timer_name t.timer_states)) [
        | inl gone ↦ rw b (rw (gone, process_timer_message) (v, omega arith))
        | inr (i, at) ↦ rw b (
            rw (at, process_timer_message)
              (erase_timer-IsScheduled i t v, unfold erase_timer in omega arith))
      ]
    ]
process_timer_message-IsScheduled now (cancel_id_message timer_id) t room v =
    (erase_timer-IsScheduled timer_id t v, unfold erase_timer in omega arith)

-- The state of a timer whose entry was taken out, and put back if that is the action.
due-IsScheduled :
    (e : TimerPriorityEntry) (rest : List TimerPriorityEntry) (t : TimerThread)
    → split_top t.timer_priorities ≡ some (e, rest)
    → IsScheduled t
    → let (timer_action, t') = on_timer_due e t in
      IsScheduled (push_entry timer_action (record t' { timer_priorities = rest }))
unfolding on_timer_due push_entry entries
due-IsScheduled e rest t at v = elim (Option-cases (lookup e.timer_index t.timer_states)) [
  | inl gone ↦
      rw (gone, on_timer_due)
        (record {
          one = λ i s h. ground (arith, v.one i s h, entries-split_top i t.timer_priorities at);
          at_most = λ i. ground (arith, v.at_most i, entries-split_top i t.timer_priorities at);
          unused_state = v.unused_state;
          unused_entry =
              λ i p. ground (arith, v.unused_entry i p, entries-split_top i t.timer_priorities at);
        })
  | inr (s, there) ↦ elim (Bool-cases (not s.recalibrate && not s.timer_def.repeating_timer)) [
    | inl b ↦
        rw (there, on_timer_due)
          (rw b (record {
            one = λ i r h.
                let left : lookup i t.timer_states ≡ some r =
                  ground (arith, lookup-erase e.timer_index i t.timer_states) in
                ground (
                  arith,
                  v.one i r left,
                  lookup-erase e.timer_index i t.timer_states,
                  entries-split_top i t.timer_priorities at,
                );
            at_most = λ i. ground (arith, v.at_most i, entries-split_top i t.timer_priorities at);
            unused_state = λ i p.
                ground (arith, v.unused_state i p, lookup-erase e.timer_index i t.timer_states);
            unused_entry = λ i p.
                ground (arith, v.unused_entry i p, entries-split_top i t.timer_priorities at);
          }))
    | inr b ↦
        let v' =
          update-IsScheduled e.timer_index
            (λ (r : TimerStateWrapper). record r { recalibrate = false }) t v in
        rw (there, on_timer_due)
          (rw b (record {
            one = λ i r h. ground (arith, v'.one i r h, entries-split_top i t.timer_priorities at);
            at_most = λ i. ground (arith, v.at_most i, entries-split_top i t.timer_priorities at);
            unused_state = v'.unused_state;
            unused_entry = λ i p.
                ground (arith, v.unused_entry i p, entries-split_top i t.timer_priorities at);
          }))
  ]
]

fire_top-IsScheduled : (now : ℕ) (t : TimerThread) → IsScheduled t → IsScheduled (fire_top now t)
unfolding fire_top
fire_top-IsScheduled now t v = elim (Option-cases (split_top t.timer_priorities)) [
  | inl none_left ↦ rw (none_left, fire_top) v
  | inr ((e, rest), at) ↦ elim (Bool-cases (leb e.next_beat now)) [
    | inl due ↦ rw (at, fire_top) (rw due (due-IsScheduled e rest t at v))
    | inr later ↦ rw (at, fire_top) (rw later v)
  ]
]

process_timer_messages-IsScheduled :
    (now : ℕ) (msgs : List TimerMessage) (t : TimerThread)
    → t.next_timer_index + length msgs < 2 ^ 32
    → IsScheduled t
    → IsScheduled (process_timer_messages now msgs t)
unfolding process_timer_messages
process_timer_messages-IsScheduled now [] t room v = v
process_timer_messages-IsScheduled now (msg ∷ msgs) t room v =
    let (v', next) = process_timer_message-IsScheduled now msg t (omega arith) v in
    process_timer_messages-IsScheduled now msgs (process_timer_message now msg t) (omega arith) v'

-- While timer indices stay below 2^32, a round of the timers, with all its settings, cancellations
-- and calls, keeps each timer that is set in the priority queue exactly once, so that it will be
-- called, and leaves at most one entry of any other.
pub timer_round-IsScheduled :
    (now : ℕ) (t : TimerThread)
    → t.next_timer_index + length t.messages < 2 ^ 32
    → IsScheduled t
    → IsScheduled (timer_round now t)
unfolding timer_round
timer_round-IsScheduled now t room v = by_doom t.thread_doomed (
    fire_top-IsScheduled now _ (
      process_timer_messages-IsScheduled now t.messages (record t { messages = [] }) room
        (record {
          one = v.one;
          at_most = v.at_most;
          unused_state = v.unused_state;
          unused_entry = v.unused_entry;
        })))
  where
    by_doom :
        (doomed : Bool) {t' : TimerThread} → IsScheduled t' → IsScheduled (if doomed then t else t')
    by_doom true v' = v
    by_doom false v' = v'
