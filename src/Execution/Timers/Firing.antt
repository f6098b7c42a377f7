-- ===== src/Execution/Timers/Firing.antt =====
-- When the calls of a timer are made, and how many (ExecutionManager::TimerThread).
use mathlib.Core.Path.{subst}
use holder.Prelude.{
  ℕ, ◌≡◌, refl, ◌≤◌, ◌⊎◌, ◌&&◌, not, List, [], ◌∷◌, ◌++◌, none, some, inl, inr, lookup, leb, nat_eq,
  arith, Option-cases, Bool-cases,
}
use holder.Execution.Timers.{
  TimerDefinition, TimerPriorityEntry, TimerStateWrapper, TimerCall, TimerThread, on_timer_due,
  split_top, fire_top, push_entry,
}

-- The call of a timer.
abbrev pub call_of : ℕ → TimerDefinition → TimerCall
call_of i def = record {
  p_callback = def.p_callback;
  timer_user_id = def.timer_user_id;
  timer_id = i;
}

abbrev IsFirst : TimerPriorityEntry → List TimerPriorityEntry → Type 0
IsFirst e [] = Unit {0}
IsFirst e (f ∷ fs) = (e.next_beat ≤ f.next_beat) × IsFirst e fs

IsFirst-le :
    (e f : TimerPriorityEntry) (es : List TimerPriorityEntry)
    → e.next_beat ≤ f.next_beat
    → IsFirst f es
    → IsFirst e es
IsFirst-le e f [] h v = tt
IsFirst-le e f (g ∷ es) h (w, v) = (omega (arith, h, w), IsFirst-le e f es h v)

pub split_top-eq_none : (es : List TimerPriorityEntry) → split_top es ≡ none → es ≡ []
unfolding split_top
split_top-eq_none [] h = refl
split_top-eq_none (e ∷ es) h = ground arith

split_top-IsFirst :
    (es : List TimerPriorityEntry) {e : TimerPriorityEntry} {rest : List TimerPriorityEntry}
    → split_top es ≡ some (e, rest)
    → IsFirst e es
unfolding split_top
split_top-IsFirst [] h = absurd (ground arith)
split_top-IsFirst (g ∷ es) {e} {rest} h = elim (Option-cases (split_top es)) [
  | inl none_left ↦
      let only : es ≡ [] = split_top-eq_none es none_left in
      let is : g ≡ e = ground arith in
      rw only (subst (λ x. IsFirst x (g ∷ [])) is (omega arith, tt))
  | inr ((f, fs), at) ↦
      let first = split_top-IsFirst es at in
      elim (Bool-cases (leb g.next_beat f.next_beat)) [
        | inl b ↦
            let is : g ≡ e = ground arith in
            subst (λ x. IsFirst x (g ∷ es)) is (omega arith, IsFirst-le g f es (ground arith) first)
        | inr b ↦
            let is : f ≡ e = ground arith in
            subst (λ x. IsFirst x (g ∷ es)) is (ground arith, first)
      ]
]

calls-on_timer_due :
    (e : TimerPriorityEntry) (s : TimerStateWrapper) (t : TimerThread)
    (rest : List TimerPriorityEntry)
    → lookup e.timer_index t.timer_states ≡ some s
    → let (timer_action, t') = on_timer_due e t in
      (push_entry timer_action (record t' { timer_priorities = rest })).calls
      ≡ t.calls ++ call_of e.timer_index s.timer_def ∷ []
unfolding on_timer_due push_entry
calls-on_timer_due e s t rest there =
    elim (Bool-cases (not s.recalibrate && not s.timer_def.repeating_timer)) [
      | inl b ↦ rw (there, on_timer_due) (rw b refl)
      | inr b ↦ rw (there, on_timer_due) (rw b refl)
    ]

-- A round of the timers calls OnTimer, if at all, once, for a timer whose beat is not after the time
-- of the round and not after any other that is scheduled.
pub fire_top-due :
    (now : ℕ) (t : TimerThread)
    → ((fire_top now t).calls ≡ t.calls)
      ⊎ ((e : TimerPriorityEntry) × (s : TimerStateWrapper) × (lookup e.timer_index t.timer_states
            ≡ some s)
          × ((fire_top now t).calls ≡ t.calls ++ call_of e.timer_index s.timer_def ∷ [])
          × (e.next_beat ≤ now)
          × IsFirst e t.timer_priorities)
unfolding fire_top
fire_top-due now t = elim (Option-cases (split_top t.timer_priorities)) [
  | inl none_left ↦ inl (rw (none_left, fire_top) refl)
  | inr ((e, rest), at) ↦ elim (Bool-cases (leb e.next_beat now)) [
    | inl due ↦ elim (Option-cases (lookup e.timer_index t.timer_states)) [
      | inl gone ↦ inl (
          rw (at, fire_top)
            (rw due (unfold on_timer_due push_entry in rw (gone, on_timer_due) refl)))
      | inr (s, there) ↦ inr (
        e,
        s,
        there,
        rw (at, fire_top) (rw due (calls-on_timer_due e s t rest there)),
        ground arith,
        split_top-IsFirst t.timer_priorities at,
      )
    ]
    | inr later ↦ inl (rw (at, fire_top) (rw later refl))
  ]
]
