-- ===== src/Requests/Info.antt =====
-- BaseRequestInfo (Holder/BaseRequestInfo.h and .cpp): the client's record of a request, and the
-- updater that changes it. A listener that is alive is `some`.
use holder.Prelude.{
  ℕ, Bool, true, false, not, ◌&&◌, ◌||◌, List, [], ◌∷◌, Option, none, some, is_some, nat_beq,
  if◌then◌else◌, inc_u32,
}
use holder.Requests.{
  RequestState, issued, completed, failed, canceled_timeout, canceled_user, cancel_acknowledged,
  state_beq, is_cancelable_state, RequestDelta, set_state, complete, ListenerCall,
  on_request_completed, on_request_failed, on_request_canceled, on_request_purged,
}

pub record RequestInfo : Type 0 where
  pub p_listener : Option ℕ
  pub p_result : Option ℕ
  pub request_id : ℕ
  pub response_id : ℕ
  pub request_state : RequestState
  pub sequence : ℕ

unfoldable pub new_info : Option ℕ → ℕ → ℕ → RequestInfo
new_info p_listener request_id response_id = record {
  p_listener = p_listener;
  p_result = none;
  request_id = request_id;
  response_id = response_id;
  request_state = issued;
  sequence = 0;
}

-- `valid` is `m_isValid` with the `m_seqValidated` that was stored with it.
pub record Updater : Type 0 where
  pub valid : Option (Bool × ℕ)
  pub new_state : Option RequestState
  pub req_result : Option (Option ℕ)

unfoldable pub get_updater : Updater
get_updater = record { valid = none; new_state = none; req_result = none }

unfoldable pub set_new_state : RequestState → Updater → Updater
set_new_state s u = record u { valid = none; new_state = some s }

unfoldable pub clear_new_state : Updater → Updater
clear_new_state u = record u { valid = none; new_state = none }

unfoldable pub set_result : Option ℕ → Updater → Updater
set_result p_result u = record u { valid = none; req_result = some p_result }

unfoldable pub can_be_canceled : RequestInfo → Bool
unfolding is_cancelable_state
can_be_canceled info = is_cancelable_state info.request_state

-- `x.has_value() ? x.value() : y`.
abbrev pub value_or {ℓ} : {A : Type ℓ} → Option A → A → A
value_or none y = y
value_or (some x) y = x

-- `==` on pointers, where `none` is the null pointer.
abbrev pub pointer_beq : Option ℕ → Option ℕ → Bool
pointer_beq none none = true
pointer_beq none (some q) = false
pointer_beq (some p) none = false
pointer_beq (some p) (some q) = nat_beq p q

-- The case distinction of IsValid, on the state to be, whether there is a result, and the state.
unfoldable pub allows : RequestState → Bool → RequestState → Bool
allows issued has_result current = false
allows completed has_result current = has_result && state_beq current issued
allows failed has_result current = has_result && state_beq current issued
allows canceled_timeout has_result current = state_beq current issued
allows canceled_user has_result current = state_beq current issued
allows cancel_acknowledged has_result current =
    state_beq current canceled_timeout || state_beq current canceled_user

-- What IsValid computes when it has no answer stored.
unfoldable pub check : Updater → RequestInfo → Bool
unfolding allows
check u info =
    allows (value_or u.new_state info.request_state) (is_some (value_or u.req_result info.p_result))
      info.request_state

-- With no answer stored for this sequence number, the answer is computed and stored.
unfoldable pub is_valid : Updater → RequestInfo → Bool × Updater
unfolding check
is_valid u info =
    let fresh = check u info in
    let computed = record u { valid = some (fresh, info.sequence) } in
    elim u.valid [
      | none ↦ (fresh, computed)
      | some (stored, seq) ↦ if nat_beq seq info.sequence then (stored, u) else (fresh, computed)
    ]

unfoldable pub had_change : Updater → RequestInfo → Bool
had_change u info =
    elim u.new_state [ none ↦ false | some s ↦ not (state_beq s info.request_state) ]
    || elim u.req_result [ none ↦ false | some p ↦ not (pointer_beq p info.p_result) ]

-- The calls of the listener for the new state, after the change.
unfoldable pub tell_state : RequestState → RequestInfo → List ListenerCall
tell_state issued info = []
tell_state completed info = on_request_completed info.request_id info.response_id info.p_result ∷ []
tell_state failed info = on_request_failed info.request_id info.response_id ∷ []
tell_state canceled_timeout info = []
tell_state canceled_user info = []
tell_state cancel_acknowledged info = on_request_canceled info.request_id info.response_id ∷ []

-- The fields that an update writes whatever they were.
unfoldable pub written : Updater → RequestInfo → RequestInfo
written u info = record info {
  request_state = value_or u.new_state info.request_state;
  p_result = value_or u.req_result info.p_result;
}

-- Updater::operator().
unfoldable pub apply : Updater → RequestInfo → RequestInfo × List ListenerCall
unfolding is_valid had_change tell_state written
apply u info =
    let info' = written u info in
    let told : List ListenerCall = elim info.p_listener [
      | none ↦ []
      | some l ↦ elim u.new_state [ none ↦ [] | some s ↦ tell_state s info' ]
    ] in
    if not (is_valid u info).0
    then (info, [])
    else if had_change u info
    then (record info' { sequence = inc_u32 info'.sequence }, told)
    else (info', [])

-- The deltas' operator().
unfoldable pub act_delta : RequestDelta → RequestInfo → RequestInfo × List ListenerCall
unfolding get_updater set_new_state set_result apply
act_delta (set_state s) info = apply (set_new_state s get_updater) info
act_delta (complete none) info = apply (set_new_state completed get_updater) info
act_delta (complete (some p)) info =
    apply (set_result (some p) (set_new_state completed get_updater)) info

-- ~BaseRequestInfo.
unfoldable pub destroy : RequestInfo → List ListenerCall
destroy info = elim info.p_listener [
  | none ↦ []
  | some l ↦ on_request_purged info.request_id info.response_id ∷ []
]
