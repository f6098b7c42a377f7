-- ===== src/Requests/Links/Leaving.antt =====
-- A client that is removed leaves nothing behind.
use holder.Prelude.{
  ℕ, ◌≡◌, ◌≢◌, refl, List, [], ◌∷◌, none, some, inl, inr, lookup, erase, lookup-erase, nat_beq,
  if◌then◌else◌, nat_eq, arith, Option-cases,
}
use holder.Requests.Handler.{
  HandlerRequestInfo, ClientInfo, RequestHandler, purge_request_info, purge_each, remove_client,
}
use holder.Requests.Links.{entry, IsLinked, purge_request_info-entry, purge_request_info-IsLinked}

-- What the client still has is among the given numbers and ids.
abbrev Among : ℕ → List (ℕ × ℕ) → RequestHandler → Type 0
Among c rs h = (r i : ℕ) → entry c r h.request_clients ≡ some i → lookup r rs ≡ some i

Among-purge :
    (c r0 i0 : ℕ) (rs : List (ℕ × ℕ)) (h : RequestHandler)
    → IsLinked h
    → Among c ((r0, i0) ∷ rs) h
    → Among c rs (purge_request_info i0 h)
unfolding purge_request_info lookup
Among-purge c r0 i0 rs h v among r i e = elim (Option-cases (lookup i0 h.request_infos)) [
  | inl gone ↦
      let before : entry c r h.request_clients ≡ some i = rw (gone, purge_request_info) at e in
      let (info, there, _, _) = v.known c r i before in ground (arith, among r i before)
  | inr (info, at) ↦
      let before : entry c r h.request_clients ≡ some i =
        ground (arith, purge_request_info-entry h i0 info at c r) in
      let (other, there, its_c, its_r) = v.known c r i before in
      ground (arith, among r i before, purge_request_info-entry h i0 info at c r)
]

purge_each-Among :
    (c : ℕ) (rs : List (ℕ × ℕ)) (h : RequestHandler)
    → IsLinked h
    → Among c rs h
    → IsLinked (purge_each rs h) × Among c [] (purge_each rs h)
unfolding purge_each
purge_each-Among c [] h v among = (v, among)
purge_each-Among c ((r, i) ∷ rs) h v among =
    purge_each-Among c rs (purge_request_info i h) (purge_request_info-IsLinked i h v)
      (Among-purge c r i rs h v among)

entry_of_missing :
    (c r : ℕ) (clients : List (ℕ × ClientInfo)) → lookup c clients ≡ none → entry c r clients ≡ none
unfolding entry
entry_of_missing c r clients gone = rw (gone, entry) refl

entry-erase :
    (c d r : ℕ) (clients : List (ℕ × ClientInfo))
    → entry d r (erase c clients) ≡ (if nat_beq c d then none else entry d r clients)
unfolding entry
entry-erase c d r clients = ground (arith, lookup-erase c d clients)

-- A client that has no request left is taken out.
without-IsLinked :
    (c : ℕ) (h : RequestHandler)
    → IsLinked h
    → Among c [] h
    → let h' = record h { request_clients = erase c h.request_clients } in
      IsLinked h'
      × ((i : ℕ) (info : HandlerRequestInfo)
          → lookup i h'.request_infos ≡ some info
          → info.client_id ≢ c)
      × (lookup c h'.request_clients ≡ none)
unfolding lookup
without-IsLinked c h v none_left = (
  record {
    owned = λ i info e.
        let (linked, same, is_active) = v.owned i info e in
        (
          ground (
            arith,
            entry-erase c info.client_id info.request_id h.request_clients,
            others i info e,
          ),
          same,
          is_active,
        );
    known = λ d r i e. v.known d r i (ground (arith, entry-erase c d r h.request_clients));
    fresh = v.fresh;
    fits = v.fits;
  },
  others,
  ground (arith, lookup-erase c c h.request_clients),
)
  where
    others :
        (i : ℕ) (info : HandlerRequestInfo)
        → lookup i h.request_infos ≡ some info
        → info.client_id ≢ c
    others i info e same =
        absurd (ground (arith, none_left c i, v.owned i info e, none_left info.request_id i))

-- RemoveClient keeps the two tables linked, and leaves no request of the client in either of them.
pub remove_client-IsLinked :
    (c : ℕ) (h : RequestHandler)
    → IsLinked h
    → let h' = remove_client c h in
      IsLinked h'
      × ((i : ℕ) (info : HandlerRequestInfo)
          → lookup i h'.request_infos ≡ some info
          → info.client_id ≢ c)
      × (lookup c h'.request_clients ≡ none)
unfolding remove_client
remove_client-IsLinked c h v = elim (Option-cases (lookup c h.request_clients)) [
  | inl gone ↦
      let nothing = λ (r : ℕ). entry_of_missing c r h.request_clients gone in
      rw (gone, remove_client)
        (v, λ i info e same. ground (arith, v.owned i info e, nothing info.request_id), gone)
  | inr (client, at) ↦
      let (v', none_left) =
        purge_each-Among c client.request_map h v (λ r i e. among client at r i e) in
      rw (at, remove_client) (without-IsLinked c (purge_each client.request_map h) v' none_left)
]
  where
    among :
        (client : ClientInfo)
        → lookup c h.request_clients ≡ some client
        → Among c client.request_map h
    among client at r i e = unfold entry in ground arith
