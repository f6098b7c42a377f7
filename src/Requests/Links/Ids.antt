-- ===== src/Requests/Links/Ids.antt =====
-- The ids that a handler gives out: no call but CreateRequest changes the counter.
use holder.Prelude.{
  ℕ, ◌^◌, ◌<◌, ◌≤◌, ◌≡◌, ◌≢◌, ◌⊎◌, refl, ◌∙◌, Bool, List, [], ◌∷◌, Option, inl, inr, lookup, count,
  nat_beq, nat_eq, arith, Option-cases, Bool-cases, inc_u64,
}
use holder.Requests.{RequestDelta, set_state, cancel_acknowledged, request_complete_delta}
use holder.Requests.Handler.{
  HandlerRequestState, active, cancelled, complete, HandlerRequestInfo, RequestHandler, note,
  purge_request_info, send_request_update, complete_request, set_cancel, handler_cancel_request,
  get_request_from_coords, purge_each, remove_client, create_request,
}

free_id-purge_request_info :
    (i : ℕ) (h : RequestHandler) → (purge_request_info i h).free_id ≡ h.free_id
unfolding purge_request_info note
free_id-purge_request_info i h = elim (Option-cases (lookup i h.request_infos)) [
  | inl gone ↦ rw (gone, purge_request_info) refl
  | inr (info, at) ↦ rw (at, purge_request_info) refl
]

by_state :
    (s : HandlerRequestState) (purged h : RequestHandler)
    → purged.free_id ≡ h.free_id
    → RequestHandler.free_id (elim s [ active ↦ purged | cancelled ↦ h | complete ↦ h ]) ≡ h.free_id
by_state active purged h e = e
by_state cancelled purged h e = refl
by_state complete purged h e = refl

module _ (alive : ℕ → Bool) where
  free_id-send_request_update :
      (info : HandlerRequestInfo) (delta : RequestDelta) (h : RequestHandler)
      → (send_request_update alive info delta h).free_id ≡ h.free_id
  unfolding send_request_update note
  free_id-send_request_update info delta h = elim (Bool-cases (alive info.p_remote_endpoint)) [
    | inl e ↦ rw e refl
    | inr e ↦ rw e refl
  ]

  pub free_id-complete_request :
      (i : ℕ) (success : Bool) (p_result : Option ℕ) (h : RequestHandler)
      → (complete_request alive i success p_result h).free_id ≡ h.free_id
  unfolding complete_request note
  free_id-complete_request i success p_result h = elim (Option-cases (lookup i h.request_infos)) [
    | inl gone ↦ rw (gone, complete_request) refl
    | inr (info, at) ↦
        rw (at, complete_request)
          (by_state info.req_state _ h (
            free_id-purge_request_info i _
            ∙ free_id-send_request_update info (request_complete_delta success p_result) h))
  ]

  pub free_id-handler_cancel_request :
      (r c : ℕ) (h : RequestHandler) → (handler_cancel_request alive r c h).free_id ≡ h.free_id
  unfolding handler_cancel_request set_cancel note
  free_id-handler_cancel_request r c h = elim (Option-cases (get_request_from_coords c r h)) [
    | inl gone ↦ rw (gone, handler_cancel_request) refl
    | inr (info, at) ↦
        rw (at, handler_cancel_request)
          (by_state info.req_state _ h (
            free_id-purge_request_info info.request_info_id _
            ∙ free_id-send_request_update info (set_state cancel_acknowledged) h))
  ]

free_id-purge_each :
    (rs : List (ℕ × ℕ)) (h : RequestHandler) → (purge_each rs h).free_id ≡ h.free_id
unfolding purge_each
free_id-purge_each [] h = refl
free_id-purge_each ((r, i) ∷ rs) h =
    free_id-purge_each rs (purge_request_info i h) ∙ free_id-purge_request_info i h

pub free_id-remove_client : (c : ℕ) (h : RequestHandler) → (remove_client c h).free_id ≡ h.free_id
unfolding remove_client
free_id-remove_client c h = elim (Option-cases (lookup c h.request_clients)) [
  | inl gone ↦ rw (gone, remove_client) refl
  | inr (client, at) ↦ rw (at, remove_client) (free_id-purge_each client.request_map h)
]

-- No id but 0, which says that there was none, is among `ids` twice, and those that come are above
-- them or there are none.
pub record IsGiven (ids : List ℕ) (free_id : ℕ) : Type 0 where
  pub once : (i : ℕ) → i ≢ 0 → count i ids ≤ 1
  pub past : (i : ℕ) → i ≢ 0 → 0 < count i ids → (free_id ≡ 0) ⊎ (i < free_id)
  pub small : free_id < 2 ^ 64

pub create_request-IsGiven :
    (c r : ℕ) (ids : List ℕ) (h : RequestHandler)
    → IsGiven ids h.free_id
    → IsGiven ((create_request c r h).0 ∷ ids) (create_request c r h).1.free_id
unfolding create_request count
create_request-IsGiven c r ids h v = elim (Bool-cases (nat_beq h.free_id 0)) [
  | inl used_up ↦ rw used_up none_given
  | inr left ↦ elim (Option-cases (lookup c h.request_clients)) [
    | inl gone ↦ rw left (rw (gone, create_request) none_given)
    | inr (client, at) ↦ rw left (rw (at, create_request) (given (ground arith)))
  ]
]
  where
    none_given : IsGiven (0 ∷ ids) h.free_id
    none_given = record {
      once = λ i p. ground (arith, v.once i p);
      past = λ i p q. v.past i p (ground arith);
      small = v.small;
    }

    given : h.free_id ≢ 0 → IsGiven (h.free_id ∷ ids) (inc_u64 h.free_id)
    given left = record {
      once = λ i p. ground (arith, v.once i p, v.past i p);
      past = λ i p q. ground (arith, v.past i p, v.small);
      small = omega arith;
    }
