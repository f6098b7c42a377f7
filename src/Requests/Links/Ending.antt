-- ===== src/Requests/Links/Ending.antt =====
-- A request that completes or is cancelled leaves both tables.
use mathlib.Core.Path.{subst}
use holder.Prelude.{
  ℕ, ◌≡◌, refl, sym, Bool, Option, some, inl, inr, lookup, nat_eq, Option-cases, Bool-cases,
}
use holder.Requests.{RequestDelta, set_state, cancel_acknowledged, request_complete_delta}
use holder.Requests.Handler.{
  cancelled, complete, HandlerRequestInfo, RequestHandler, note, get_request_info_id,
  get_request_from_coords, send_request_update, complete_request, set_cancel,
  handler_cancel_request,
}
use holder.Requests.Links.{IsLinked, purge_changed-IsLinked}

module _ (alive : ℕ → Bool) where
  send_request_update-tables :
      (info : HandlerRequestInfo) (delta : RequestDelta) (h : RequestHandler)
      → let h' = send_request_update alive info delta h in
        (h'.request_infos ≡ h.request_infos)
        × (h'.request_clients ≡ h.request_clients)
        × (h'.free_id ≡ h.free_id)
  unfolding send_request_update note
  send_request_update-tables info delta h = elim (Bool-cases (alive info.p_remote_endpoint)) [
    | inl e ↦ rw e (refl, refl, refl)
    | inr e ↦ rw e (refl, refl, refl)
  ]

  pub complete_request-IsLinked :
      (i : ℕ) (success : Bool) (p_result : Option ℕ) (h : RequestHandler)
      → IsLinked h
      → IsLinked (complete_request alive i success p_result h)
  unfolding complete_request note
  complete_request-IsLinked i success p_result h v =
      elim (Option-cases (lookup i h.request_infos)) [
        | inl gone ↦ rw (gone, complete_request) v
        | inr (info, at) ↦
            let sent =
              send_request_update-tables info (request_complete_delta success p_result) h in
            let (_, _, is_active) = v.owned i info at in
            rw (at, complete_request)
              (rw is_active (
                purge_changed-IsLinked h _ i info
                  (λ r. record r { req_state = complete; success = success; p_result = p_result })
                  at refl sent.1 sent.2 refl refl v))
      ]

  pub handler_cancel_request-IsLinked :
      (request_id client_id : ℕ) (h : RequestHandler)
      → IsLinked h
      → IsLinked (handler_cancel_request alive request_id client_id h)
  unfolding handler_cancel_request set_cancel note
  handler_cancel_request-IsLinked request_id client_id h v =
      elim (Option-cases (get_request_from_coords client_id request_id h)) [
        | inl gone ↦ rw (gone, handler_cancel_request) v
        | inr (info, at) ↦
            let i = get_request_info_id client_id request_id h in
            let found : lookup i h.request_infos ≡ some info =
              unfold get_request_from_coords in at in
            let there =
              subst (λ k. lookup k h.request_infos ≡ some info) (sym (v.owned i info found).1)
                found in
            let sent = send_request_update-tables info (set_state cancel_acknowledged) h in
            let (_, _, is_active) = v.owned info.request_info_id info there in
            rw (at, handler_cancel_request)
              (rw (is_active, set_cancel)
                (purge_changed-IsLinked h _ info.request_info_id info
                  (λ r. record r { req_state = cancelled }) there refl sent.1 sent.2 refl refl v))
      ]
