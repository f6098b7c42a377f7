-- ===== src/Requests/Updates/Sound.antt =====
-- The answers that updaters store are right as long as they are used.
use mathlib.Core.Path.{subst}
use holder.Prelude.{
  ℕ, ◌+◌, ◌^◌, ◌<◌, ◌≤◌, ◌≡◌, ◌⊎◌, refl, Bool, false, Option, none, some, inl, inr, nat_beq,
  if◌then◌else◌, get_elem?, modify, get_elem?-modify, arith, Option-cases, Bool-cases,
}
use holder.Requests.{
  RequestState, issued, completed, failed, canceled_timeout, canceled_user, cancel_acknowledged,
  state_beq,
}
use holder.Requests.Info.{
  RequestInfo, Updater, check, is_valid, had_change, written, apply, set_new_state, clear_new_state,
  set_result,
}
use holder.Requests.Lifecycle.{
  Leads, stays, is_completed, fails, times_out, user_cancels, timeout_acknowledged,
  user_acknowledged, canceled_and_acknowledged, state_beq_refl,
}
use holder.Requests.Updates.{
  Updates, Setter, sets_state, clears_state, sets_result, change, remember,
}

-- How many more changes of the state there may be.
abbrev pub remaining : RequestState → ℕ
remaining issued = 2
remaining completed = 0
remaining failed = 0
remaining canceled_timeout = 1
remaining canceled_user = 1
remaining cancel_acknowledged = 0

pub remaining-Leads :
    {s t : RequestState} → Leads s t → state_beq t s ≡ false → remaining t + 1 ≤ remaining s
remaining-Leads {s} stays d = absurd (ground (arith, state_beq_refl s))
remaining-Leads is_completed d = omega arith
remaining-Leads fails d = omega arith
remaining-Leads times_out d = omega arith
remaining-Leads user_cancels d = omega arith
remaining-Leads timeout_acknowledged d = omega arith
remaining-Leads user_acknowledged d = omega arith
remaining-Leads canceled_and_acknowledged d = omega arith

-- A stored answer is of a sequence number that was there, and is right if it is of the present one.
pub record IsSound (info : RequestInfo) (u : Updater) : Type 0 where
  pub remembers :
      (b : Bool) (seq : ℕ)
      → u.valid ≡ some (b, seq)
      → (seq ≤ info.sequence) × (seq ≡ info.sequence → b ≡ check u info)

abbrev pub forget : Updater → Updater
forget u = record u { valid = none }

is_valid-check :
    (u : Updater) (info : RequestInfo) → IsSound info u → (is_valid u info).0 ≡ check u info
unfolding is_valid
is_valid-check u info v = elim (Option-cases u.valid) [
  | inl gone ↦ rw (gone, is_valid) refl
  | inr ((b, seq), at) ↦ elim (Bool-cases (nat_beq seq info.sequence)) [
    | inl e ↦ rw (at, is_valid) (rw e ((v.remembers b seq at).1 (ground arith)))
    | inr e ↦ rw (at, is_valid) (rw e refl)
  ]
]

pub apply-forget :
    (u : Updater) (info : RequestInfo) → IsSound info u → apply u info ≡ apply (forget u) info
unfolding apply had_change written check
apply-forget u info v = rw (is_valid-check u info v) (unfold is_valid in refl)

abbrev answered : RequestInfo → Updater → Updater
answered info u = record u { valid = some (check u info, info.sequence) }

remember-cases :
    (u : Updater) (info : RequestInfo) → (remember info u ≡ u) ⊎ (remember info u ≡ answered info u)
unfolding remember is_valid
remember-cases u info = by_valid u.valid
  where
    by_valid :
        (o : Option (Bool × ℕ))
        → let stored : Bool × Updater = elim o [
          | none ↦ (check u info, answered info u)
          | some (b, seq) ↦
              if nat_beq seq info.sequence then (b, u) else (check u info, answered info u)
        ] in
          (stored.1 ≡ u) ⊎ (stored.1 ≡ answered info u)
    by_valid none = inr refl
    by_valid (some (b, seq)) = elim (Bool-cases (nat_beq seq info.sequence)) [
      | inl e ↦ rw e (inl refl)
      | inr e ↦ rw e (inr refl)
    ]

pub remember-IsSound :
    (u : Updater) (info : RequestInfo) → IsSound info u → IsSound info (remember info u)
unfolding check
remember-IsSound u info v = elim (remember-cases u info) [ inl e ↦ rw e v | inr e ↦ rw e now ]
  where
    now : IsSound info (answered info u)
    now = record { remembers = λ b seq h. (ground arith, λ _. ground arith) }

pub fresh-IsSound : (u : Updater) (info : RequestInfo) → u.valid ≡ none → IsSound info u
fresh-IsSound u info e = record { remembers = λ b seq h. absurd (ground arith) }

pub change-IsSound : (c : Setter) (u : Updater) (info : RequestInfo) → IsSound info (change c u)
unfolding change set_new_state clear_new_state set_result
change-IsSound (sets_state s) u info = fresh-IsSound _ info refl
change-IsSound clears_state u info = fresh-IsSound _ info refl
change-IsSound (sets_result p) u info = fresh-IsSound _ info refl

-- After a change of the request nothing that is stored is of the present number.
pub changed-IsSound :
    (u : Updater) (info info' : RequestInfo)
    → info'.sequence ≡ info.sequence + 1
    → IsSound info u
    → IsSound info' u
changed-IsSound u info info' next v = record {
  remembers = λ b seq h.
      let (le, _) = v.remembers b seq h in
      (omega (arith, le, next), λ e. absurd (omega (arith, le, next, e)));
}

-- All updaters are sound, and the number will not wrap around.
pub record AllSound (w : Updates) : Type 0 where
  pub each : (k : ℕ) (u : Updater) → get_elem? w.updaters k ≡ some u → IsSound w.info u
  pub room : w.info.sequence + remaining w.info.request_state < 2 ^ 32

pub modify-AllSound :
    (w : Updates) (k : ℕ) (f : Updater → Updater)
    → ((u : Updater) → IsSound w.info u → IsSound w.info (f u))
    → AllSound w
    → AllSound (record w { updaters = modify w.updaters k f })
modify-AllSound w k f keeps v = record {
  each = λ j u h. elim (Option-cases (get_elem? w.updaters j)) [
    | inl gone ↦ absurd (ground (arith, get_elem?-modify w.updaters k j f))
    | inr (old, at) ↦ elim (Bool-cases (nat_beq k j)) [
      | inl e ↦
          let is : f old ≡ u = ground (arith, get_elem?-modify w.updaters k j f) in
          subst (IsSound w.info) is (keeps old (v.each j old at))
      | inr e ↦
          let is : old ≡ u = ground (arith, get_elem?-modify w.updaters k j f) in
          subst (IsSound w.info) is (v.each j old at)
    ]
  ];
  room = v.room;
}
