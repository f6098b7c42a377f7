-- ===== src/Requests.antt =====
-- Requests between a client and a service (Holder/IRequestResponse.h, RequestDeltas.h,
-- BaseRequestInfo, BaseRequestIssuer, BaseRequestHandler, BaseRequestMessages): the words that the
-- two sides share.
pub mod Info
pub mod Lifecycle
pub mod Updates
pub mod Issuer
pub mod Timeouts
pub mod Handler
pub mod Links
pub mod Tests
use holder.Prelude.{ℕ, Bool, true, false, ◌||◌, Option, none, nat_beq}

pub data RequestState : Type 0 where
  issued completed failed canceled_timeout canceled_user cancel_acknowledged : RequestState

-- The number of an enumerator.
abbrev pub state_index : RequestState → ℕ
state_index issued = 0
state_index completed = 1
state_index failed = 2
state_index canceled_timeout = 3
state_index canceled_user = 4
state_index cancel_acknowledged = 5

-- `==` on states.
abbrev pub state_beq : RequestState → RequestState → Bool
state_beq s t = nat_beq (state_index s) (state_index t)

unfoldable pub is_cancel_state : RequestState → Bool
is_cancel_state s =
    state_beq s cancel_acknowledged || (state_beq s canceled_timeout || state_beq s canceled_user)

unfoldable pub is_cancelable_state : RequestState → Bool
unfolding is_cancel_state
is_cancelable_state s = state_beq s issued || is_cancel_state s

-- A RequestSetStateDelta of a state, or a RequestCompleteDelta with its `m_pResult`.
pub data RequestDelta : Type 0 where
  set_state : RequestState → RequestDelta
  complete : Option ℕ → RequestDelta

-- The constructor of RequestCompleteDelta, which stores neither argument.
unfoldable pub request_complete_delta : Bool → Option ℕ → RequestDelta
request_complete_delta success p_result = complete none

-- What a listener of requests is told.
pub data ListenerCall : Type 0 where
  on_request_completed : ℕ → ℕ → Option ℕ → ListenerCall
  on_request_failed : ℕ → ℕ → ListenerCall
  on_request_canceled : ℕ → ℕ → ListenerCall
  on_request_purged : ℕ → ℕ → ListenerCall

-- A message from the client: a request with what the service needs to know, or its cancellation.
pub data OutgoingMessage : Type 0 where
  request_issue : ℕ → ℕ → OutgoingMessage
  request_cancel : ℕ → OutgoingMessage
