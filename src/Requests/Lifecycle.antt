-- ===== src/Requests/Lifecycle.antt =====
-- The life of a request on the client's side, over any sequence of updates.
use mathlib.Core.List.{append-nil}
use holder.Prelude.{
  ℕ, ◌≡◌, refl, ap, sym, is_some, inc_u32, ◌∙◌, Bool, true, false, List, [], ◌++◌, Option, none,
  some, inl, inr, if◌then◌else◌, arith, Option-cases, Bool-cases,
}
use holder.Requests.{
  RequestState, issued, completed, failed, canceled_timeout, canceled_user, cancel_acknowledged,
  state_beq, request_complete_delta, ListenerCall,
}
use holder.Requests.Info.{
  RequestInfo, Updater, allows, check, is_valid, had_change, written, tell_state, apply, act_delta,
  value_or, get_updater, set_new_state,
}

-- No answer of IsValid is stored, as after every call of a setter.
abbrev pub IsFresh : Updater → Type 0
IsFresh u = u.valid ≡ none

abbrev pub is_settled : RequestState → Bool
is_settled issued = false
is_settled completed = true
is_settled failed = true
is_settled canceled_timeout = false
is_settled canceled_user = false
is_settled cancel_acknowledged = true

-- A request that is issued is answered or canceled, and a canceled one is acknowledged.
pub data Leads : RequestState → RequestState → Type 0 where
  stays : {s : RequestState} → Leads s s
  is_completed : Leads issued completed
  fails : Leads issued failed
  times_out : Leads issued canceled_timeout
  user_cancels : Leads issued canceled_user
  timeout_acknowledged : Leads canceled_timeout cancel_acknowledged
  user_acknowledged : Leads canceled_user cancel_acknowledged
  canceled_and_acknowledged : Leads issued cancel_acknowledged

pub Leads-trans : {s t r : RequestState} → Leads s t → Leads t r → Leads s r
Leads-trans stays m = m
Leads-trans is_completed stays = is_completed
Leads-trans fails stays = fails
Leads-trans times_out stays = times_out
Leads-trans times_out timeout_acknowledged = canceled_and_acknowledged
Leads-trans user_cancels stays = user_cancels
Leads-trans user_cancels user_acknowledged = canceled_and_acknowledged
Leads-trans timeout_acknowledged stays = timeout_acknowledged
Leads-trans user_acknowledged stays = user_acknowledged
Leads-trans canceled_and_acknowledged stays = canceled_and_acknowledged

Leads-settled : {s t : RequestState} → Leads s t → is_settled s ≡ true → t ≡ s
Leads-settled stays h = refl
Leads-settled is_completed h = absurd (ground arith)
Leads-settled fails h = absurd (ground arith)
Leads-settled times_out h = absurd (ground arith)
Leads-settled user_cancels h = absurd (ground arith)
Leads-settled timeout_acknowledged h = absurd (ground arith)
Leads-settled user_acknowledged h = absurd (ground arith)
Leads-settled canceled_and_acknowledged h = absurd (ground arith)

-- What an update that is valid leads to.
allows-Leads :
    (to : RequestState) (r : Bool) (now : RequestState) → allows to r now ≡ true → Leads now to
unfolding allows
allows-Leads issued r now h = absurd (ground arith)
allows-Leads completed r issued h = is_completed
allows-Leads failed r issued h = fails
allows-Leads canceled_timeout r issued h = times_out
allows-Leads canceled_user r issued h = user_cancels
allows-Leads cancel_acknowledged r canceled_timeout h = timeout_acknowledged
allows-Leads cancel_acknowledged r canceled_user h = user_acknowledged
allows-Leads _ r now h = absurd (ground arith)

-- An update that is valid changes the state.
allows-differs :
    (to : RequestState) (r : Bool) (now : RequestState)
    → allows to r now ≡ true
    → state_beq to now ≡ false
unfolding allows
allows-differs issued r now h = absurd (ground arith)
allows-differs completed r issued h = refl
allows-differs failed r issued h = refl
allows-differs canceled_timeout r issued h = refl
allows-differs canceled_user r issued h = refl
allows-differs cancel_acknowledged r canceled_timeout h = refl
allows-differs cancel_acknowledged r canceled_user h = refl
allows-differs _ r now h = absurd (ground arith)

pub state_beq_refl : (s : RequestState) → state_beq s s ≡ true
state_beq_refl s = ground arith

-- The calls of the listener that a change from one state to another brings about.
abbrev pub told : RequestState → RequestInfo → List ListenerCall
told before info = if is_settled before then [] else tell_state info.request_state info

pub told_still : (info : RequestInfo) → told info.request_state info ≡ []
unfolding tell_state
told_still info = by_state info.request_state refl
  where
    by_state : (s : RequestState) → info.request_state ≡ s → told info.request_state info ≡ []
    by_state issued e = ground arith
    by_state completed e = ground arith
    by_state failed e = ground arith
    by_state canceled_timeout e = ground arith
    by_state canceled_user e = ground arith
    by_state cancel_acknowledged e = ground arith

tell_state_unsettled :
    (info : RequestInfo)
    → is_settled info.request_state ≡ false
    → tell_state info.request_state info ≡ []
tell_state_unsettled info e = ground (arith, told_still info)

-- What one update does.
pub record IsStep (info : RequestInfo) (l : ℕ) (next : RequestInfo × List ListenerCall)
    : Type 0 where
  pub leads : Leads info.request_state next.0.request_state
  pub calls : next.1 ≡ told info.request_state next.0
  pub listens : next.0.p_listener ≡ some l
  pub keeps : is_settled info.request_state ≡ true → next.0 ≡ info

apply_invalid :
    (u : Updater) (info : RequestInfo)
    → IsFresh u
    → check u info ≡ false
    → apply u info ≡ (info, [])
unfolding apply is_valid
apply_invalid u info fresh e = rw (fresh, e) refl

-- The result of a valid update that sets the state `s`.
abbrev pub changed : Updater → RequestState → RequestInfo → RequestInfo × List ListenerCall
changed u s info =
    let info' = record info { request_state = s; p_result = value_or u.req_result info.p_result } in
    (record info' { sequence = inc_u32 info.sequence }, tell_state s info')

apply_valid :
    (u : Updater) (info : RequestInfo) (l : ℕ) (s : RequestState)
    → IsFresh u
    → info.p_listener ≡ some l
    → u.new_state ≡ some s
    → check u info ≡ true
    → apply u info ≡ changed u s info
unfolding apply is_valid had_change written check
apply_valid u info l s fresh h n e =
    let has_result = is_some (value_or u.req_result info.p_result) in
    let valid : allows s has_result info.request_state ≡ true = ground arith in
    ground (arith, allows-differs s has_result info.request_state)

told-changed :
    (u : Updater) (info : RequestInfo) {now to : RequestState}
    → Leads now to
    → state_beq to now ≡ false
    → (changed u to info).1 ≡ told now (changed u to info).0
unfolding tell_state
told-changed u info {now} stays d = absurd (ground (arith, state_beq_refl now))
told-changed u info is_completed d = refl
told-changed u info fails d = refl
told-changed u info times_out d = refl
told-changed u info user_cancels d = refl
told-changed u info timeout_acknowledged d = refl
told-changed u info user_acknowledged d = refl
told-changed u info canceled_and_acknowledged d = refl

-- An update is refused, or it changes the state.
pub data Outcome (u : Updater) (info : RequestInfo) : Type 0 where
  refused : apply u info ≡ (info, []) → Outcome u info
  accepted :
      (s : RequestState)
      → apply u info ≡ changed u s info
      → Leads info.request_state s
      → state_beq s info.request_state ≡ false
      → Outcome u info

pub apply-Outcome :
    (u : Updater) (info : RequestInfo) (l : ℕ)
    → IsFresh u
    → info.p_listener ≡ some l
    → Outcome u info
unfolding check
apply-Outcome u info l fresh h = elim (Bool-cases (check u info)) [
  | inl e ↦ elim (Option-cases u.new_state) [
    | inl n ↦
        let now = info.request_state in
        let has_result = is_some (value_or u.req_result info.p_result) in
        let valid : allows now has_result now ≡ true = ground arith in
        absurd (ground (arith, allows-differs now has_result now valid, state_beq_refl now))
    | inr (s, n) ↦
        let has_result = is_some (value_or u.req_result info.p_result) in
        let valid : allows s has_result info.request_state ≡ true = ground arith in
        accepted s (apply_valid u info l s fresh h n e)
          (allows-Leads s has_result info.request_state valid)
          (allows-differs s has_result info.request_state valid)
  ]
  | inr e ↦ refused (apply_invalid u info fresh e)
]

pub Outcome-IsStep :
    (u : Updater) (info : RequestInfo) (l : ℕ)
    → info.p_listener ≡ some l
    → Outcome u info
    → IsStep info l (apply u info)
Outcome-IsStep u info l h (refused e) =
    rw e (record { leads = stays; calls = sym (told_still info); listens = h; keeps = λ _. refl })
Outcome-IsStep u info l h (accepted s e leads differs) = rw e (record {
  leads = leads;
  calls = told-changed u info leads differs;
  listens = h;
  keeps =
      λ settled. absurd (ground (arith, differs, Leads-settled leads settled, state_beq_refl s));
})

-- The calls of two changes after one another are those of the whole change.
pub told-then :
    (before : RequestState) (next last : RequestInfo) {calls later : List ListenerCall}
    → calls ≡ told before next
    → later ≡ told next.request_state last
    → (is_settled before ≡ true → next.request_state ≡ before)
    → (is_settled next.request_state ≡ true → last ≡ next)
    → calls ++ later ≡ told before last
told-then before next last {calls} {later} c c' keep keep' = elim (Bool-cases (is_settled before)) [
  | inl a ↦
      let none_now : calls ≡ [] = rw a at c in
      let still : is_settled next.request_state ≡ true = ap is_settled (keep a) ∙ a in
      let none_later : later ≡ [] = rw still at c' in rw (none_now, none_later, a) refl
  | inr a ↦ elim (Bool-cases (is_settled next.request_state)) [
    | inl b ↦
        let none_later : later ≡ [] = rw b at c' in rw (none_later, append-nil, keep' b, c) refl
    | inr b ↦
        let none_now : told before next ≡ [] = rw a (tell_state_unsettled next b) in
        let told_later : told next.request_state last ≡ told before last = rw (a, b) refl in
        rw (c, none_now) (c' ∙ told_later)
  ]
]

-- The message with which a service completes a request, with any result, changes nothing at a client
-- that has no result yet, and tells its listener nothing.
pub request_complete_delta_ignored :
    (success : Bool) (p_result : Option ℕ) (info : RequestInfo)
    → info.p_result ≡ none
    → act_delta (request_complete_delta success p_result) info ≡ (info, [])
unfolding act_delta request_complete_delta
request_complete_delta_ignored success p_result info e =
    apply_invalid (set_new_state completed get_updater) info (unfold set_new_state in refl)
      (unfold check set_new_state get_updater allows in ground arith)
