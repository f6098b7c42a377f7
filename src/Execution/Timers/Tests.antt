-- ===== src/Execution/Timers/Tests.antt =====
-- A one-shot timer of the interval 10, set at the time 5, and a repeating one of the interval 20.
use holder.Prelude.{
  ◌≡◌, refl, true, false, [], ◌∷◌, lookup, emplace, erase, update, nat_eq, name_beq, arith,
}
use holder.Execution.Timers.{
  TimerDefinition, TimerThread, new_timer_thread, set_timer, cancel_timer_id, cancel_timer_name,
  find_named, add_timer, erase_timer, process_timer_message, process_timer_messages, on_timer_due,
  split_top, push_entry, fire_top, timer_round,
}
use holder.Execution.Timers.Firing.{call_of}
use holder.Execution.Timers.OneShot.{
  timer_rounds, idle, one_timer, after_first, one_shot_fires_twice,
}
use holder.Execution.Timers.Scheduling.{IsScheduled, entries, timer_round-IsScheduled}

abbrev def : TimerDefinition
def = record {
  timer_name = [];
  time_interval = 10;
  repeating_timer = false;
  timer_user_id = 3;
  p_callback = 4;
}

abbrev both : TimerThread
both =
    set_timer (λ us. us) (7 ∷ []) 20 true 2 6
      (set_timer (λ us. us) [] 10 false 3 4 new_timer_thread)

running : Unit {0}
unfolding name_beq new_timer_thread set_timer cancel_timer_id cancel_timer_name find_named add_timer
    erase_timer process_timer_message process_timer_messages on_timer_due split_top push_entry
    fire_top timer_round lookup emplace erase update entries
running = tt

calls_at :
    (timer_round 25 (timer_round 15 (timer_round 5 both))).calls
    ≡ call_of 0 def ∷ call_of 0 def ∷ []
unfolding running
calls_at = refl

cancelled_stays_silent :
    (timer_round 25 (cancel_timer_name (7 ∷ []) (cancel_timer_id 0 (timer_round 5 both)))).calls
    ≡ []
unfolding running
cancelled_stays_silent = refl

one_shot_fires_twice_example :
    let call = call_of 0 def in
    let first = after_first (λ us. us) [] 10 3 4 0 [] 5 (8 ∷ 14 ∷ []) 16 (20 ∷ []) 25 (30 ∷ []) in
    (first ≡ one_timer 1 0 25 false def (call ∷ []))
    × (timer_rounds (20 ∷ []) first ≡ first)
    × (timer_rounds (30 ∷ []) (timer_round 25 (timer_rounds (20 ∷ []) first))
        ≡ idle 1 (call ∷ call ∷ []))
one_shot_fires_twice_example =
    one_shot_fires_twice (λ us. us) [] 10 3 4 0 [] 5 (8 ∷ 14 ∷ []) 16 (20 ∷ []) 25 (30 ∷ [])
      (omega arith) (omega arith, (omega arith, tt)) (omega arith) (omega arith, tt) (omega arith)

both-IsScheduled : IsScheduled both
unfolding running
both-IsScheduled = record {
  one = λ i s e. absurd (ground arith);
  at_most = λ i. omega arith;
  unused_state = λ i p. refl;
  unused_entry = λ i p. refl;
}

timer_round-IsScheduled_example : IsScheduled (timer_round 5 both)
unfolding new_timer_thread set_timer
timer_round-IsScheduled_example = timer_round-IsScheduled 5 both (omega arith) both-IsScheduled
