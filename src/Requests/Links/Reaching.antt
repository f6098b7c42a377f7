-- ===== src/Requests/Links/Reaching.antt =====
-- What holds of every handler that clients and services bring about.
use holder.Prelude.{
  ℕ, ◌≡◌, ◌≢◌, ◌≤◌, Bool, List, [], ◌∷◌, count, Option, none, lookup, nat_eq, arith,
}
use holder.Requests.Handler.{
  RequestHandler, new_handler, add_client, create_request, complete_request, handler_cancel_request,
  remove_client,
}
use holder.Requests.Links.{entry, IsLinked}
use holder.Requests.Links.Ending.{complete_request-IsLinked, handler_cancel_request-IsLinked}
use holder.Requests.Links.Creating.{create_request-IsLinked, add_client-IsLinked}
use holder.Requests.Links.Leaving.{remove_client-IsLinked}
use holder.Requests.Links.Ids.{
  IsGiven, create_request-IsGiven, free_id-complete_request, free_id-handler_cancel_request,
  free_id-remove_client,
}

-- The handlers that calls lead to, with the answers of CreateRequest, the latest first, where a client
-- does not use the number of a request again before that has ended.
pub data Reachable (alive : ℕ → Bool) : List ℕ → RequestHandler → Type 0 where
  start : Reachable alive [] new_handler
  client_added :
      {ids : List ℕ} {h : RequestHandler} (c p : ℕ)
      → Reachable alive ids h
      → Reachable alive ids (add_client c p h)
  created :
      {ids : List ℕ} {h : RequestHandler} (c r : ℕ)
      → entry c r h.request_clients ≡ none
      → Reachable alive ids h
      → Reachable alive ((create_request c r h).0 ∷ ids) (create_request c r h).1
  completed :
      {ids : List ℕ} {h : RequestHandler} (i : ℕ) (success : Bool) (p_result : Option ℕ)
      → Reachable alive ids h
      → Reachable alive ids (complete_request alive i success p_result h)
  canceled :
      {ids : List ℕ} {h : RequestHandler} (r c : ℕ)
      → Reachable alive ids h
      → Reachable alive ids (handler_cancel_request alive r c h)
  client_removed :
      {ids : List ℕ} {h : RequestHandler} (c : ℕ)
      → Reachable alive ids h
      → Reachable alive ids (remove_client c h)

tables_agree :
    {alive : ℕ → Bool} {ids : List ℕ} {h : RequestHandler} → Reachable alive ids h → IsLinked h
unfolding new_handler entry lookup
tables_agree start = record {
  owned = λ i info e. absurd (ground arith);
  known = λ c r i e. absurd (ground arith);
  fresh = λ i info e. absurd (ground arith);
  fits = omega arith;
}
tables_agree (client_added {ids} {h} c p reached) = add_client-IsLinked c p h (tables_agree reached)
tables_agree (created {ids} {h} c r new reached) =
    create_request-IsLinked c r h new (tables_agree reached)
tables_agree {alive} (completed {ids} {h} i success p_result reached) =
    complete_request-IsLinked alive i success p_result h (tables_agree reached)
tables_agree {alive} (canceled {ids} {h} r c reached) =
    handler_cancel_request-IsLinked alive r c h (tables_agree reached)
tables_agree (client_removed {ids} {h} c reached) =
    (remove_client-IsLinked c h (tables_agree reached)).0

Reachable-IsGiven :
    {alive : ℕ → Bool} {ids : List ℕ} {h : RequestHandler}
    → Reachable alive ids h
    → IsGiven ids h.free_id
unfolding new_handler count add_client
Reachable-IsGiven start = record {
  once = λ i p. omega arith;
  past = λ i p q. absurd (omega arith);
  small = omega arith;
}
Reachable-IsGiven (client_added c p reached) = Reachable-IsGiven reached
Reachable-IsGiven (created {ids} {h} c r new reached) =
    create_request-IsGiven c r ids h (Reachable-IsGiven reached)
Reachable-IsGiven {alive} (completed {ids} {h} i success p_result reached) =
    rw (free_id-complete_request alive i success p_result h) (Reachable-IsGiven reached)
Reachable-IsGiven {alive} (canceled {ids} {h} r c reached) =
    rw (free_id-handler_cancel_request alive r c h) (Reachable-IsGiven reached)
Reachable-IsGiven (client_removed {ids} {h} c reached) =
    rw (free_id-remove_client c h) (Reachable-IsGiven reached)

-- In every handler that calls of its clients and of its service lead to from a new one, if no client
-- gives a new request the number of one of its requests that has not ended: the requests and the
-- numbers of the clients lead to one another, all requests are active, and CreateRequest has not
-- answered the same id twice, but for 0, which says that there is no such client or no id left.
pub Reachable-IsLinked :
    {alive : ℕ → Bool} {ids : List ℕ} {h : RequestHandler}
    → Reachable alive ids h
    → IsLinked h × ((i : ℕ) → i ≢ 0 → count i ids ≤ 1)
Reachable-IsLinked reached = (tables_agree reached, (Reachable-IsGiven reached).once)
