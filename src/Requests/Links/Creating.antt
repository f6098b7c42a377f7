-- ===== src/Requests/Links/Creating.antt =====
-- New clients and new requests are linked.
use holder.Prelude.{
  ℕ, ◌-◌, ◌^◌, ◌≤◌, ◌≡◌, ◌≢◌, refl, sym, ◌∙◌, ◌&&◌, false, [], Option, none, some, inl, inr, lookup,
  emplace, update, lookup-emplace, nat_beq, if◌then◌else◌, inc_u64, nat_eq, or_else, arith,
  Option-cases, Bool-cases,
}
use holder.Requests.Handler.{
  active, HandlerRequestInfo, ClientInfo, RequestHandler, add_request, add_client, create_request,
}
use holder.Requests.Links.{entry, IsLinked, entry-add}

or_else-none {ℓ} : {A : Type ℓ} (o : Option A) → or_else o none ≡ o
or_else-none none = refl
or_else-none (some a) = refl

module _ (c r : ℕ) (h : RequestHandler) (client : ClientInfo)
    (at : lookup c h.request_clients ≡ some client) (new : entry c r h.request_clients ≡ none)
    (left : h.free_id ≢ 0) (v : IsLinked h) where
  abbrev new_request : HandlerRequestInfo
  new_request = record {
    request_info_id = h.free_id;
    client_id = c;
    request_id = r;
    p_remote_endpoint = client.p_remote_endpoint;
    req_state = active;
    success = false;
    p_result = none;
  }

  abbrev with_request : RequestHandler
  with_request = record h {
    free_id = inc_u64 h.free_id;
    request_clients = update c (λ k. (add_request r h.free_id k).0) h.request_clients;
    request_infos = emplace h.free_id new_request h.request_infos;
  }

  unused : lookup h.free_id h.request_infos ≡ none
  unused = elim (Option-cases (lookup h.free_id h.request_infos)) [
    | inl e ↦ e
    | inr (info, e) ↦ absurd (ground (arith, v.fresh h.free_id info e))
  ]

  with_request-infos :
      (j : ℕ)
      → lookup j with_request.request_infos
        ≡ (if nat_beq h.free_id j then some new_request else lookup j h.request_infos)
  with_request-infos j = elim (Bool-cases (nat_beq h.free_id j)) [
    | inl e ↦
        let same : h.free_id ≡ j = ground arith in
        rw e (
          lookup-emplace h.free_id j new_request h.request_infos
          ∙ rw (← same, unused) (ground arith))
    | inr e ↦ rw e (
        lookup-emplace h.free_id j new_request h.request_infos
        ∙ rw e (or_else-none (lookup j h.request_infos)))
  ]

  with_request-entry :
      (d s : ℕ)
      → entry d s with_request.request_clients
        ≡ (if nat_beq c d && nat_beq r s then some h.free_id else entry d s h.request_clients)
  with_request-entry d s = entry-add c r h.free_id d s h.request_clients new (rw at refl)

  with_request-IsLinked : IsLinked with_request
  with_request-IsLinked = record {
    owned = λ j info e. elim (Bool-cases (nat_beq h.free_id j)) [
      | inl b ↦
          let is : info ≡ new_request = ground (arith, with_request-infos j) in
          (
            ground (arith, with_request-entry info.client_id info.request_id),
            ground arith,
            ground arith,
          )
      | inr b ↦
          let (linked, same, is_active) = v.owned j info (ground (arith, with_request-infos j)) in
          (ground (arith, with_request-entry info.client_id info.request_id), same, is_active)
    ];
    known = λ d s j e. elim (Bool-cases (nat_beq c d && nat_beq r s)) [
      | inl b ↦ (
        new_request,
        ground (arith, with_request-infos j, with_request-entry d s),
        ground arith,
        ground arith,
      )
      | inr b ↦
          let (info, there, its_c, its_r) =
            v.known d s j (ground (arith, with_request-entry d s)) in
          (info, ground (arith, with_request-infos j, unused), its_c, its_r)
    ];
    fresh = λ j info e.
        let below : j ≤ h.free_id = elim (Bool-cases (nat_beq h.free_id j)) [
          | inl b ↦ ground arith
          | inr b ↦ ground (arith, v.fresh j info (ground (arith, with_request-infos j)))
        ] in
        elim (Bool-cases (nat_beq h.free_id (2 ^ 64 - 1))) [
          | inl b ↦ inl (ground (arith, v.fits))
          | inr b ↦ inr (ground (arith, v.fits))
        ];
    fits = omega arith;
  }

-- A request under a number that the client does not use yet.
pub create_request-IsLinked :
    (c r : ℕ) (h : RequestHandler)
    → entry c r h.request_clients ≡ none
    → IsLinked h
    → IsLinked (create_request c r h).1
unfolding create_request
create_request-IsLinked c r h new v = elim (Bool-cases (nat_beq h.free_id 0)) [
  | inl b ↦ rw b v
  | inr b ↦ elim (Option-cases (lookup c h.request_clients)) [
    | inl gone ↦ rw b (rw (gone, create_request) v)
    | inr (client, at) ↦
        rw b (
          rw (at, create_request) (with_request-IsLinked c r h client at new (λ e. ground arith) v))
  ]
]

entry-add_client :
    (c0 p c r : ℕ) (h : RequestHandler)
    → entry c r (add_client c0 p h).request_clients ≡ entry c r h.request_clients
unfolding entry add_client lookup
entry-add_client c0 p c r h = ground (
  arith,
  lookup-emplace c0 c (record { request_map = []; p_remote_endpoint = p }) h.request_clients,
)

pub add_client-IsLinked : (c p : ℕ) (h : RequestHandler) → IsLinked h → IsLinked (add_client c p h)
unfolding add_client
add_client-IsLinked c p h v = record {
  owned = λ i info e.
      let (linked, same, is_active) = v.owned i info e in
      (entry-add_client c p info.client_id info.request_id h ∙ linked, same, is_active);
  known = λ d r i e. v.known d r i (sym (entry-add_client c p d r h) ∙ e);
  fresh = λ i info e. v.fresh i info e;
  fits = v.fits;
}
