-- ===== src/Execution/Timers/OneShot.antt =====
-- How often a one-shot timer is called, from its setting on (ExecutionManager::TimerThread).
use holder.Prelude.{
  ℕ, ◌+◌, ◌<◌, ◌≤◌, ◌≡◌, refl, ap, sym, ◌∙◌, Bool, true, false, Name, List, [], ◌∷◌, ◌++◌, ◌&&◌,
  not, Option, none, some, lookup, emplace, erase, update, inc_u32, leb, nat_eq, arith, name_eq,
}
use holder.Execution.Timers.{
  TimerDefinition, TimerPriorityEntry, TimerStateWrapper, TimerCall, TimerThread, set_timer,
  find_named, add_timer, process_timer_message, process_timer_messages, on_timer_due, split_top,
  push_entry, fire_top, timer_round,
}
use holder.Execution.Timers.Firing.{call_of}

-- Rounds one after another, at these times.
unfoldable pub timer_rounds : List ℕ → TimerThread → TimerThread
timer_rounds [] t = t
timer_rounds (now ∷ later) t = timer_rounds later (timer_round now t)

abbrev pub AllBefore : ℕ → List ℕ → Type 0
AllBefore beat [] = Unit {0}
AllBefore beat (now ∷ later) = (now < beat) × AllBefore beat later

-- A thread without timers.
abbrev pub idle : ℕ → List TimerCall → TimerThread
idle next calls = record {
  messages = [];
  timer_states = [];
  timer_priorities = [];
  next_timer_index = next;
  thread_doomed = false;
  calls = calls;
}

-- A thread with one timer.
abbrev pub one_timer : ℕ → ℕ → ℕ → Bool → TimerDefinition → List TimerCall → TimerThread
one_timer next i beat recalibrate def calls = record {
  messages = [];
  timer_states = (i, record { recalibrate = recalibrate; timer_def = def }) ∷ [];
  timer_priorities = record { next_beat = beat; timer_index = i } ∷ [];
  next_timer_index = next;
  thread_doomed = false;
  calls = calls;
}

timer_round-idle :
    (now next : ℕ) (calls : List TimerCall) → timer_round now (idle next calls) ≡ idle next calls
unfolding timer_round process_timer_messages fire_top split_top
timer_round-idle now next calls = refl

module _ (next i beat now : ℕ) (def : TimerDefinition) (calls : List TimerCall) where
  timer_round_early :
      (recalibrate : Bool)
      → now < beat
      → timer_round now (one_timer next i beat recalibrate def calls)
        ≡ one_timer next i beat recalibrate def calls
  unfolding timer_round process_timer_messages fire_top split_top
  timer_round_early recalibrate h = let test : leb beat now ≡ false = ground arith in rw test refl

  abbrev entry : TimerPriorityEntry
  entry = record { next_beat = beat; timer_index = i }

  abbrev state : Bool → TimerStateWrapper
  state recalibrate = record { recalibrate = recalibrate; timer_def = def }

  abbrev called : List (ℕ × TimerStateWrapper) → TimerThread
  called states = record (one_timer next i beat true def calls) {
    timer_states = states;
    calls = calls ++ call_of i def ∷ [];
  }

  on_timer_due_again : on_timer_due entry (one_timer next i beat true def calls) ≡ (
    some (record { next_beat = beat + def.time_interval; timer_index = i }),
    called ((i, state false) ∷ []),
  )
  unfolding on_timer_due
  on_timer_due_again =
      let at : lookup i ((i, state true) ∷ []) ≡ some (state true) =
        unfold lookup in ground arith in
      let quiet : update i (λ (r : TimerStateWrapper). record r { recalibrate = false })
            ((i, state true) ∷ [])
          ≡ (i, state false) ∷ [] =
        unfold update in ground arith in
      rw (at, on_timer_due)
        (ap
          (λ states. (
            some (record { next_beat = beat + def.time_interval; timer_index = i }),
            called states,
          ))
          quiet)

  on_timer_due_last :
      def.repeating_timer ≡ false
      → on_timer_due entry (one_timer next i beat false def calls) ≡ (none, called [])
  unfolding on_timer_due
  on_timer_due_last once =
      let at : lookup i ((i, state false) ∷ []) ≡ some (state false) =
        unfold lookup in ground arith in
      let gone : erase i ((i, state false) ∷ []) ≡ [] = unfold erase in ground arith in
      let test : (not false && not def.repeating_timer) ≡ true = ground arith in
      let nothing : Option TimerPriorityEntry = none in
      rw (at, on_timer_due) (rw test (ap (λ states. (nothing, called states)) gone))

  -- What a round does with the answer.
  abbrev settle : Option TimerPriorityEntry × TimerThread → TimerThread
  settle r = push_entry r.0 (record r.1 { timer_priorities = [] })

  timer_round_again :
      beat ≤ now
      → timer_round now (one_timer next i beat true def calls)
        ≡ one_timer next i (beat + def.time_interval) false def (calls ++ call_of i def ∷ [])
  unfolding timer_round process_timer_messages fire_top split_top push_entry
  timer_round_again h =
      let test : leb beat now ≡ true = ground arith in rw test (ap settle on_timer_due_again)

  timer_round_last :
      def.repeating_timer ≡ false
      → beat ≤ now
      → timer_round now (one_timer next i beat false def calls)
        ≡ idle next (calls ++ call_of i def ∷ [])
  unfolding timer_round process_timer_messages fire_top split_top push_entry
  timer_round_last once h =
      let test : leb beat now ≡ true = ground arith in rw test (ap settle (on_timer_due_last once))

timer_rounds_early :
    (next i beat : ℕ) (recalibrate : Bool) (def : TimerDefinition) (calls : List TimerCall)
    (times : List ℕ)
    → AllBefore beat times
    → timer_rounds times (one_timer next i beat recalibrate def calls)
      ≡ one_timer next i beat recalibrate def calls
unfolding timer_rounds
timer_rounds_early next i beat recalibrate def calls [] h = refl
timer_rounds_early next i beat recalibrate def calls (now ∷ times) (h, hs) =
    ap (timer_rounds times) (timer_round_early next i beat now def calls recalibrate h)
    ∙ timer_rounds_early next i beat recalibrate def calls times hs

timer_rounds-idle :
    (next : ℕ) (calls : List TimerCall) (times : List ℕ)
    → timer_rounds times (idle next calls) ≡ idle next calls
unfolding timer_rounds
timer_rounds-idle next calls [] = refl
timer_rounds-idle next calls (now ∷ times) =
    ap (timer_rounds times) (timer_round-idle now next calls) ∙ timer_rounds-idle next calls times

-- The round that takes the message of SetTimer.
timer_round-set :
    (cast : ℕ → ℕ) (name : Name) (us user_id p : ℕ) (next now : ℕ) (calls : List TimerCall)
    → 0 < cast us
    → let def : TimerDefinition = record {
      timer_name = name;
      time_interval = cast us;
      repeating_timer = false;
      timer_user_id = user_id;
      p_callback = p;
    } in
      timer_round now (set_timer cast name us false user_id p (idle next calls))
      ≡ one_timer (inc_u32 next) next (now + cast us) true def calls
unfolding timer_round set_timer process_timer_messages process_timer_message add_timer find_named
    emplace
timer_round-set cast [] us user_id p next now calls h =
    timer_round_early (inc_u32 next) next (now + cast us) now _ calls true (omega arith)
timer_round-set cast (x ∷ xs) us user_id p next now calls h =
    timer_round_early (inc_u32 next) next (now + cast us) now _ calls true (omega arith)

module _ (cast : ℕ → ℕ) (name : Name) (us user_id p next : ℕ) (calls : List TimerCall) (set_at : ℕ)
    (early : List ℕ) (first : ℕ) (between : List ℕ) (second : ℕ) (later : List ℕ) where
  -- The definition of the timer, and the thread that SetTimer was called on.
  abbrev one_shot : TimerDefinition
  one_shot = record {
    timer_name = name;
    time_interval = cast us;
    repeating_timer = false;
    timer_user_id = user_id;
    p_callback = p;
  }

  abbrev pub after_first : TimerThread
  after_first = timer_round first (
      timer_rounds early
        (timer_round set_at (set_timer cast name us false user_id p (idle next calls))))

  -- A one-shot timer with an interval above 0 is set, in a round at `set_at`, on a thread that has no
  -- timers and is not doomed. In all rounds before it is due, one interval later, it is not called. In
  -- the first round when it is due it is called, but not removed: it is not called in the rounds before
  -- a second interval has passed, and in the first round after that it is called a second time. Then
  -- the thread has no timers, and no later round calls it.
  pub one_shot_fires_twice :
      0 < cast us
      → AllBefore (set_at + cast us) early
      → set_at + cast us ≤ first
      → AllBefore (set_at + cast us + cast us) between
      → set_at + cast us + cast us ≤ second
      → let call = call_of next one_shot in
        (after_first
          ≡ one_timer
              (inc_u32 next)
              next
              (set_at + cast us + cast us)
              false
              one_shot
              (calls ++ call ∷ []))
        × (timer_rounds between after_first ≡ after_first)
        × (timer_rounds later (timer_round second (timer_rounds between after_first))
            ≡ idle (inc_u32 next) ((calls ++ call ∷ []) ++ call ∷ []))
  one_shot_fires_twice h before due again_before again_due =
      let beat = set_at + cast us in
      let call = call_of next one_shot in
      let k = inc_u32 next in
      let one : after_first
          ≡ one_timer k next (beat + cast us) false one_shot (calls ++ call ∷ []) =
        ap (λ t. timer_round first (timer_rounds early t))
          (timer_round-set cast name us user_id p next set_at calls h)
        ∙ ap (timer_round first) (timer_rounds_early k next beat true one_shot calls early before)
        ∙ timer_round_again k next beat first one_shot calls due in
      let still =
        timer_rounds_early k next (beat + cast us) false one_shot (calls ++ call ∷ []) between
          again_before in
      (
        one,
        ap (timer_rounds between) one ∙ still ∙ sym one,
        ap (λ t. timer_rounds later (timer_round second (timer_rounds between t))) one
            ∙ ap (λ t. timer_rounds later (timer_round second t)) still
            ∙ ap (timer_rounds later) (
                timer_round_last k next (beat + cast us) second one_shot (calls ++ call ∷ []) refl
                  again_due)
            ∙ timer_rounds-idle k ((calls ++ call ∷ []) ++ call ∷ []) later,
      )
