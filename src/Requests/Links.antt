-- ===== src/Requests/Links.antt =====
-- The two tables of a request handler agree (Holder/BaseRequestHandler.h and .cpp).
pub mod Ending
pub mod Creating
pub mod Leaving
pub mod Ids
pub mod Reaching
use mathlib.Core.Path.{subst}
use holder.Prelude.{
  ℕ, zero, suc, ◌+◌, ◌-◌, ◌^◌, ◌%◌, ◌<◌, ◌≤◌, ◌≡◌, ◌≢◌, ◌⊎◌, refl, ap, sym, ◌∙◌, ◌&&◌, Bool, true,
  false, List, [], ◌∷◌, ◌++◌, Option, none, some, inl, inr, lookup, emplace, erase, update,
  lookup-emplace, lookup-erase, lookup-update, nat_beq, if◌then◌else◌, inc_u64, nat_eq, is_some,
  or_else, arith, Option-cases, Bool-cases,
}
use holder.Requests.{RequestDelta, set_state, cancel_acknowledged, request_complete_delta}
use holder.Requests.Handler.{
  HandlerRequestState, active, cancelled, complete, HandlerRequestInfo, ClientInfo, HandlerEvent,
  RequestHandler, note, on_request_orphaned, on_request_complete, on_request_cancelled, new_handler,
  remove_request, add_request, add_client, create_request, get_request_info_id,
  client_request_info_id, get_request_from_coords, purge_request_info, send_request_update,
  complete_request, set_cancel, handler_cancel_request, purge_each, remove_client,
}

-- The id that a client's map has for a request of it.
unfoldable pub entry : ℕ → ℕ → List (ℕ × ClientInfo) → Option ℕ
entry c r clients = elim (lookup c clients) [
  | none ↦ none
  | some client ↦ lookup r client.request_map
]

-- Each request is active and is the one that its client has under its number, each number of a
-- client leads to such a request, and the ids of the requests that are there lie below the next id.
pub record IsLinked (h : RequestHandler) : Type 0 where
  pub owned :
      (i : ℕ) (info : HandlerRequestInfo)
      → lookup i h.request_infos ≡ some info
      → (entry info.client_id info.request_id h.request_clients ≡ some i)
        × (info.request_info_id ≡ i)
        × (info.req_state ≡ active)
  pub known :
      (c r i : ℕ)
      → entry c r h.request_clients ≡ some i
      → (info : HandlerRequestInfo) × (lookup i h.request_infos ≡ some info)
        × (info.client_id ≡ c)
        × (info.request_id ≡ r)
  pub fresh :
      (i : ℕ) (info : HandlerRequestInfo)
      → lookup i h.request_infos ≡ some info
      → (h.free_id ≡ 0) ⊎ (i < h.free_id)
  pub fits : h.free_id < 2 ^ 64

pub entry-remove :
    (c0 r0 c r : ℕ) (clients : List (ℕ × ClientInfo))
    → entry c r (update c0 (λ k. (remove_request r0 k).0) clients)
      ≡ (if nat_beq c0 c && nat_beq r0 r then none else entry c r clients)
unfolding entry remove_request
entry-remove c0 r0 c r clients = elim (Option-cases (lookup c clients)) [
  | inl none_there ↦
      ground (arith, lookup-update c0 c (λ (k : ClientInfo). (remove_request r0 k).0) clients)
  | inr (client, there) ↦ ground (
    arith,
    lookup-update c0 c (λ (k : ClientInfo). (remove_request r0 k).0) clients,
    lookup-erase r0 r client.request_map,
  )
]

pub entry-add :
    (c0 r0 i c r : ℕ) (clients : List (ℕ × ClientInfo))
    → entry c0 r0 clients ≡ none
    → is_some (lookup c0 clients) ≡ true
    → entry c r (update c0 (λ k. (add_request r0 i k).0) clients)
      ≡ (if nat_beq c0 c && nat_beq r0 r then some i else entry c r clients)
unfolding entry add_request
entry-add c0 r0 i c r clients new there = elim (Option-cases (lookup c clients)) [
  | inl none_there ↦
      ground (arith, lookup-update c0 c (λ (k : ClientInfo). (add_request r0 i k).0) clients)
  | inr (client, at) ↦ ground (
    arith,
    lookup-update c0 c (λ (k : ClientInfo). (add_request r0 i k).0) clients,
    lookup-emplace r0 r i client.request_map,
  )
]

module _ (h : RequestHandler) (i : ℕ) (info : HandlerRequestInfo)
    (at : lookup i h.request_infos ≡ some info) where
  purge_request_info-infos :
      (j : ℕ)
      → lookup j (purge_request_info i h).request_infos
        ≡ (if nat_beq i j then none else lookup j h.request_infos)
  unfolding purge_request_info
  purge_request_info-infos j = rw (at, purge_request_info) (lookup-erase i j h.request_infos)

  pub purge_request_info-entry :
      (c r : ℕ)
      → entry c r (purge_request_info i h).request_clients ≡ (
          if nat_beq info.client_id c && nat_beq info.request_id r
          then none
          else entry c r h.request_clients)
  unfolding purge_request_info
  purge_request_info-entry c r =
      rw (at, purge_request_info)
        (entry-remove info.client_id info.request_id c r h.request_clients)

  purge_request_info-free_id : (purge_request_info i h).free_id ≡ h.free_id
  unfolding purge_request_info
  purge_request_info-free_id = rw (at, purge_request_info) refl

  purge_found-IsLinked : IsLinked h → IsLinked (purge_request_info i h)
  purge_found-IsLinked v = record {
    owned = λ j other e.
        let there : lookup j h.request_infos ≡ some other =
          ground (arith, purge_request_info-infos j) in
        let (linked, same, is_active) = v.owned j other there in
        let (linked_i, same_i, _) = v.owned i info at in
        (
          ground (
            arith,
            purge_request_info-entry other.client_id other.request_id,
            purge_request_info-infos j,
          ),
          same,
          is_active,
        );
    known = λ c r j e.
        let there : entry c r h.request_clients ≡ some j =
          ground (arith, purge_request_info-entry c r) in
        let (other, at_j, its_c, its_r) = v.known c r j there in
        (
          other,
          ground (arith, purge_request_info-infos j, purge_request_info-entry c r),
          its_c,
          its_r,
        );
    fresh = λ j other e.
        let there : lookup j h.request_infos ≡ some other =
          ground (arith, purge_request_info-infos j) in
        rw purge_request_info-free_id (v.fresh j other there);
    fits = rw purge_request_info-free_id v.fits;
  }

pub purge_request_info-IsLinked :
    (i : ℕ) (h : RequestHandler) → IsLinked h → IsLinked (purge_request_info i h)
unfolding purge_request_info
purge_request_info-IsLinked i h v = elim (Option-cases (lookup i h.request_infos)) [
  | inl gone ↦ rw (gone, purge_request_info) v
  | inr (info, at) ↦ purge_found-IsLinked h i info at v
]

-- The tables are what matters.
pub IsLinked-same :
    (h h' : RequestHandler)
    → ((j : ℕ) → lookup j h'.request_infos ≡ lookup j h.request_infos)
    → h'.request_clients ≡ h.request_clients
    → h'.free_id ≡ h.free_id
    → IsLinked h
    → IsLinked h'
IsLinked-same h h' infos clients ids v = record {
  owned = λ i info e.
      let (linked, same, is_active) = v.owned i info (sym (infos i) ∙ e) in
      (rw clients linked, same, is_active);
  known = λ c r i e.
      let (info, at, its_c, its_r) = v.known c r i (rw clients at e) in
      (info, infos i ∙ at, its_c, its_r);
  fresh = λ i info e. rw ids (v.fresh i info (sym (infos i) ∙ e));
  fits = rw ids v.fits;
}

-- A request that is changed, with whatever is recorded, and purged.
pub purge_changed-IsLinked :
    (h h' : RequestHandler) (i : ℕ) (info : HandlerRequestInfo)
    (f : HandlerRequestInfo → HandlerRequestInfo)
    → lookup i h.request_infos ≡ some info
    → h'.request_infos ≡ update i f h.request_infos
    → h'.request_clients ≡ h.request_clients
    → h'.free_id ≡ h.free_id
    → (f info).client_id ≡ info.client_id
    → (f info).request_id ≡ info.request_id
    → IsLinked h
    → IsLinked (purge_request_info i h')
unfolding purge_request_info
purge_changed-IsLinked h h' i info f at infos clients ids same_c same_r v =
    let at' : lookup i h'.request_infos ≡ some (f info) =
      rw infos (ground (arith, lookup-update i i f h.request_infos)) in
    IsLinked-same (purge_request_info i h) (purge_request_info i h')
      (λ j.
        purge_request_info-infos h' i (f info) at' j
        ∙ (rw infos (ground (arith, lookup-update i j f h.request_infos))
            ∙ sym (purge_request_info-infos h i info at j)))
      (rw (at, purge_request_info)
        (rw (at', purge_request_info) (rw (same_c, same_r, clients) refl)))
      (purge_request_info-free_id h' i (f info) at'
        ∙ (ids ∙ sym (purge_request_info-free_id h i info at)))
      (purge_request_info-IsLinked i h v)
