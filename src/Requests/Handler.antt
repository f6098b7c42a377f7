-- ===== src/Requests/Handler.antt =====
-- BaseRequestHandler (Holder/BaseRequestHandler.h and .cpp): the service's table of clients and
-- requests. The messages to clients and the virtual calls of a request are recorded; the class that
-- derives from it makes no calls on the handler there. `alive` answers whether an endpoint is there.
use holder.Prelude.{
  ℕ, Bool, true, false, List, [], ◌∷◌, ◌++◌, Option, none, some, lookup, emplace, erase, update,
  nat_beq, if◌then◌else◌, inc_u64, nat_eq, is_some, not,
}
use holder.Requests.{
  cancel_acknowledged, RequestDelta, set_state, request_complete_delta, OutgoingMessage,
  request_issue, request_cancel,
}

pub data HandlerRequestState : Type 0 where
  active cancelled complete : HandlerRequestState

pub record HandlerRequestInfo : Type 0 where
  pub request_info_id : ℕ
  pub client_id : ℕ
  pub request_id : ℕ
  pub p_remote_endpoint : ℕ
  pub req_state : HandlerRequestState
  pub success : Bool
  pub p_result : Option ℕ

pub record ClientInfo : Type 0 where
  pub request_map : List (ℕ × ℕ)
  pub p_remote_endpoint : ℕ

-- The virtual calls of the request with an id, and a message with a request's id and its change.
pub data HandlerEvent : Type 0 where
  request_update : ℕ → ℕ → RequestDelta → HandlerEvent
  on_request_cancelled : ℕ → HandlerEvent
  on_request_complete : ℕ → Bool → Option ℕ → HandlerEvent
  on_request_orphaned : ℕ → HandlerEvent

pub record RequestHandler : Type 0 where
  pub request_clients : List (ℕ × ClientInfo)
  pub request_infos : List (ℕ × HandlerRequestInfo)
  pub free_id : ℕ
  pub events : List HandlerEvent

unfoldable pub new_handler : RequestHandler
new_handler = record { request_clients = []; request_infos = []; free_id = 1; events = [] }

unfoldable pub note : HandlerEvent → RequestHandler → RequestHandler
note e h = record h { events = h.events ++ e ∷ [] }

-- ClientInfo's operations.
unfoldable pub add_request : ℕ → ℕ → ClientInfo → ClientInfo × Bool
add_request request_id request_info_id c = (
  record c { request_map = emplace request_id request_info_id c.request_map },
  not (is_some (lookup request_id c.request_map)),
)

unfoldable pub remove_request : ℕ → ClientInfo → ClientInfo × Bool
remove_request request_id c =
    if is_some (lookup request_id c.request_map)
    then (record c { request_map = erase request_id c.request_map }, true)
    else (c, false)

unfoldable pub has_request_id : ℕ → ClientInfo → Bool
has_request_id request_id c = is_some (lookup request_id c.request_map)

unfoldable pub client_request_info_id : ℕ → ClientInfo → ℕ
client_request_info_id request_id c = elim (lookup request_id c.request_map) [
  | none ↦ 0
  | some i ↦ i
]

unfoldable pub add_client : ℕ → ℕ → RequestHandler → RequestHandler
add_client client_id p_remote_endpoint h = record h {
  request_clients =
      emplace client_id (record { request_map = []; p_remote_endpoint = p_remote_endpoint })
        h.request_clients;
}

-- The answer 0 says that there is no such client, or no id left.
unfoldable pub create_request : ℕ → ℕ → RequestHandler → ℕ × RequestHandler
unfolding add_request
create_request client_id request_id h =
    if nat_beq h.free_id 0 then (0, h) else elim (lookup client_id h.request_clients) [
      | none ↦ (0, h)
      | some client ↦
          let internal_id = h.free_id in
          let info : HandlerRequestInfo = record {
            request_info_id = internal_id;
            client_id = client_id;
            request_id = request_id;
            p_remote_endpoint = client.p_remote_endpoint;
            req_state = active;
            success = false;
            p_result = none;
          } in
          (
            internal_id,
            record h {
              free_id = inc_u64 h.free_id;
              request_clients =
                  update client_id (λ c. (add_request request_id internal_id c).0)
                    h.request_clients;
              request_infos = emplace internal_id info h.request_infos;
            },
          )
    ]

unfoldable pub get_request_info : ℕ → RequestHandler → Option HandlerRequestInfo
get_request_info request_info_id h = lookup request_info_id h.request_infos

unfoldable pub get_request_info_id : ℕ → ℕ → RequestHandler → ℕ
unfolding client_request_info_id
get_request_info_id client_id request_id h = elim (lookup client_id h.request_clients) [
  | none ↦ 0
  | some c ↦ client_request_info_id request_id c
]

unfoldable pub get_request_from_coords : ℕ → ℕ → RequestHandler → Option HandlerRequestInfo
unfolding get_request_info get_request_info_id
get_request_from_coords client_id request_id h =
    get_request_info (get_request_info_id client_id request_id h) h

-- The request's destructor purges it again, and finds it gone.
unfoldable pub purge_request_info : ℕ → RequestHandler → RequestHandler
unfolding note remove_request
purge_request_info request_info_id h = elim (lookup request_info_id h.request_infos) [
  | none ↦ h
  | some info ↦
      let clients =
        update info.client_id (λ c. (remove_request info.request_id c).0) h.request_clients in
      let h' =
        note (on_request_orphaned request_info_id) (record h { request_clients = clients }) in
      record h' { request_infos = erase request_info_id h'.request_infos }
]

module _ (alive : ℕ → Bool) where
  unfoldable pub send_request_update :
      HandlerRequestInfo → RequestDelta → RequestHandler → RequestHandler
  unfolding note
  send_request_update info delta h =
      if alive info.p_remote_endpoint
      then note (request_update info.p_remote_endpoint info.request_id delta) h
      else h

  -- CompleteRequest of a request that the handler owns.
  unfoldable pub complete_request : ℕ → Bool → Option ℕ → RequestHandler → RequestHandler
  complete_request request_info_id success p_result h =
      elim (lookup request_info_id h.request_infos) [
        | none ↦ h
        | some info ↦
            let completed =
              update request_info_id
                (λ r. record r { req_state = complete; success = success; p_result = p_result })
                h.request_infos in
            let sent = send_request_update info (request_complete_delta success p_result) h in
            let told = note (on_request_complete request_info_id success p_result) sent in
            let purged =
              purge_request_info request_info_id (record told { request_infos = completed }) in
            elim info.req_state [ active ↦ purged | cancelled ↦ h | complete ↦ h ]
      ]

  unfoldable pub set_cancel : HandlerRequestInfo → RequestHandler → RequestHandler
  set_cancel info h =
      let canceled =
        update info.request_info_id (λ r. record r { req_state = cancelled }) h.request_infos in
      let sent = send_request_update info (set_state cancel_acknowledged) h in
      let told = note (on_request_cancelled info.request_info_id) sent in
      let purged =
        purge_request_info info.request_info_id (record told { request_infos = canceled }) in
      elim info.req_state [ active ↦ purged | cancelled ↦ h | complete ↦ h ]

  -- CancelRequest.
  unfoldable pub handler_cancel_request : ℕ → ℕ → RequestHandler → RequestHandler
  handler_cancel_request request_id client_id h =
      elim (get_request_from_coords client_id request_id h) [
        | none ↦ h
        | some info ↦ set_cancel info h
      ]

  -- OnRequestOutgoingMessage, where `create` is the derived class's CreateRequest.
  unfoldable pub on_request_outgoing_message :
      (ℕ → ℕ → ℕ → RequestHandler → RequestHandler)
      → OutgoingMessage
      → ℕ
      → RequestHandler
      → RequestHandler
  on_request_outgoing_message create (request_issue request_id req_data) client_id h =
      create req_data request_id client_id h
  on_request_outgoing_message create (request_cancel request_id) client_id h =
      handler_cancel_request request_id client_id h

unfoldable pub purge_each : List (ℕ × ℕ) → RequestHandler → RequestHandler
purge_each [] h = h
purge_each ((request_id, request_info_id) ∷ rs) h =
    purge_each rs (purge_request_info request_info_id h)

unfoldable pub remove_client : ℕ → RequestHandler → RequestHandler
remove_client client_id h = elim (lookup client_id h.request_clients) [
  | none ↦ h
  | some client ↦
      let purged = purge_each client.request_map h in
      record purged { request_clients = erase client_id purged.request_clients }
]
