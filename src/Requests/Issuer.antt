-- ===== src/Requests/Issuer.antt =====
-- BaseRequestIssuer (Holder/BaseRequestIssuer.h): the client's table of requests. The messages to
-- the service, the timers that are asked for and the calls of listeners are recorded; an endpoint
-- that is there is `some`.
use holder.Prelude.{
  ℕ, Bool, true, false, not, ◌&&◌, List, [], ◌∷◌, ◌++◌, Option, none, some, lookup, emplace, erase,
  assign, ltb, if◌then◌else◌, inc_u32, nat_eq, is_some,
}
use holder.Requests.{
  RequestState, canceled_timeout, cancel_acknowledged, state_beq, RequestDelta, set_state,
  ListenerCall, OutgoingMessage, request_issue, request_cancel,
}
use holder.Requests.Info.{RequestInfo, can_be_canceled, act_delta, destroy}

pub record RequestIssuer : Type 0 where
  pub purge_on_cancel_ack : Bool
  pub p_remote_endpoint : Option ℕ
  pub p_local_endpoint : Option ℕ
  pub request_map : List (ℕ × RequestInfo)
  pub next_request_id : ℕ
  pub messages : List OutgoingMessage
  pub timers : List (ℕ × ℕ)
  pub calls : List ListenerCall

-- How a call ends: it returns with an answer, throws RequestStateException, or reads through a null
-- pointer, after which the program is undefined.
pub data CallResult {ℓ} (A : Type ℓ) : Type ℓ where
  answers : A → RequestIssuer → CallResult A
  throws : RequestIssuer → CallResult A
  reads_null : CallResult A

unfoldable pub send_remote : OutgoingMessage → RequestIssuer → RequestIssuer
send_remote msg i = record i { messages = i.messages ++ msg ∷ [] }

-- GetRequestFromID, and so GetRequestInfo.
unfoldable pub get_request_from_id : ℕ → RequestIssuer → Option RequestInfo
get_request_from_id id i = lookup id i.request_map

-- The test reads the request when there is none, and refuses when there is one.
unfoldable pub cancel_request : ℕ → RequestIssuer → CallResult Bool
unfolding get_request_from_id
cancel_request id i = elim (get_request_from_id id i) [
  | none ↦ reads_null
  | some info ↦ answers false i
]

unfoldable pub purge_request : ℕ → RequestIssuer → CallResult Bool
purge_request id i = elim (lookup id i.request_map) [
  | none ↦ answers false i
  | some info ↦
      let purge = λ (j : RequestIssuer).
        answers true
          (record j { request_map = erase id j.request_map; calls = j.calls ++ destroy info }) in
      if not (can_be_canceled info)
      then purge i
      else if not (is_some i.p_remote_endpoint)
      then throws i
      else purge (send_remote (request_cancel id) i)
]

-- The rest of OnIncomingRequestMessage, after the delta has acted.
unfoldable pub after_delta : ℕ → RequestState → RequestInfo → RequestIssuer → CallResult (Unit {0})
after_delta id before info i =
    let now = info.request_state in
    let timed_out = state_beq now canceled_timeout in
    let sent = if timed_out then send_remote (request_cancel id) i else i in
    let purged : CallResult (Unit {0}) = elim (purge_request info.request_id sent) [
      | answers b j ↦ answers tt j
      | throws j ↦ throws j
      | reads_null ↦ reads_null
    ] in
    if state_beq before now
    then answers tt i
    else if timed_out && not (is_some i.p_remote_endpoint)
    then reads_null
    else if i.purge_on_cancel_ack && state_beq now cancel_acknowledged
    then purged
    else answers tt sent

unfoldable pub on_incoming_request_message :
    ℕ → RequestDelta → RequestIssuer → CallResult (Unit {0})
on_incoming_request_message id delta i = elim (get_request_from_id id i) [
  | none ↦ answers tt i
  | some info ↦
      let (info', calls) = act_delta delta info in
      after_delta id info.request_state info'
        (record i { request_map = assign id info' i.request_map; calls = i.calls ++ calls })
]

unfoldable pub set_remote_endpoint : Option ℕ → RequestIssuer → RequestIssuer
set_remote_endpoint p i = record i { p_remote_endpoint = p }

unfoldable pub set_local_endpoint : Option ℕ → RequestIssuer → RequestIssuer
set_local_endpoint p i = record i { p_local_endpoint = p }

-- `info` is the record that the client's class makes of the data. It is copied into the table, and
-- then destroyed.
unfoldable pub issue_request : RequestInfo → ℕ → ℕ → RequestIssuer → CallResult ℕ
unfolding send_remote
issue_request info req_data timeout i =
    let id = i.next_request_id in
    let stored = record i {
      next_request_id = inc_u32 i.next_request_id;
      request_map = emplace id info i.request_map;
      calls = i.calls ++ destroy info;
    } in
    let posted = send_remote (request_issue id req_data) stored in
    let timed =
      if ltb 0 timeout && is_some i.p_local_endpoint
      then record posted { timers = posted.timers ++ (timeout, id) ∷ [] }
      else posted in
    if is_some i.p_remote_endpoint then answers id timed else throws i

-- What TimeoutSender::OnTimer sends to the client.
unfoldable pub on_timer : RequestDelta
on_timer = set_state canceled_timeout
