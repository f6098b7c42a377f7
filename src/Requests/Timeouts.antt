-- ===== src/Requests/Timeouts.antt =====
-- How the client's table of requests serves cancellations.
use mathlib.Core.List.{append-nil}
use holder.Prelude.{
  ℕ, ◌≡◌, refl, ap, ◌∙◌, true, false, List, [], ◌∷◌, ◌++◌, none, some, lookup, erase, assign,
  lookup-assign, lookup-erase, nat_beq, if◌then◌else◌, inc_u32, nat_eq, is_some, arith,
}
use holder.Requests.{
  issued, canceled_timeout, cancel_acknowledged, set_state, ListenerCall, on_request_canceled,
  on_request_purged, request_cancel, is_cancelable_state, is_cancel_state, RequestDelta,
}
use holder.Requests.Info.{
  RequestInfo, act_delta, apply, is_valid, check, allows, had_change, written, tell_state,
  get_updater, set_new_state, can_be_canceled, destroy,
}
use holder.Requests.Issuer.{
  RequestIssuer, answers, reads_null, get_request_from_id, cancel_request,
  on_incoming_request_message, on_timer, after_delta, purge_request, send_remote,
}

-- CancelRequest never cancels: a request that is in the table is refused, whatever its state, and
-- for one that is not the code reads through the null pointer.
pub cancel_request_refuses :
    (id : ℕ) (i : RequestIssuer)
    → cancel_request id i
      ≡ (if is_some (get_request_from_id id i) then answers false i else reads_null)
unfolding cancel_request
cancel_request_refuses id i = ground arith

abbrev timed_out : RequestInfo → RequestInfo
timed_out info = record info { request_state = canceled_timeout; sequence = inc_u32 info.sequence }

abbrev acknowledged : RequestInfo → RequestInfo
acknowledged info = record info {
  request_state = cancel_acknowledged;
  sequence = inc_u32 info.sequence;
}

act_delta-on_timer :
    (info : RequestInfo)
    → info.request_state ≡ issued
    → act_delta on_timer info ≡ (timed_out info, [])
unfolding act_delta on_timer set_new_state get_updater apply is_valid check allows had_change
    written tell_state
act_delta-on_timer info h = ground arith

act_delta-acknowledge :
    (info : RequestInfo) (l : ℕ)
    → info.p_listener ≡ some l
    → info.request_state ≡ canceled_timeout
    → act_delta (set_state cancel_acknowledged) info
      ≡ (acknowledged info, on_request_canceled info.request_id info.response_id ∷ [])
unfolding act_delta on_timer set_new_state get_updater apply is_valid check allows had_change
    written tell_state
act_delta-acknowledge info l h k = ground arith

on_incoming_request_message-eq :
    (id : ℕ) (delta : RequestDelta) (info info' : RequestInfo) (calls : List ListenerCall)
    (i : RequestIssuer)
    → get_request_from_id id i ≡ some info
    → act_delta delta info ≡ (info', calls)
    → on_incoming_request_message id delta i
      ≡ after_delta id info.request_state info'
          (record i { request_map = assign id info' i.request_map; calls = i.calls ++ calls })
unfolding on_incoming_request_message
on_incoming_request_message-eq id delta info info' calls i at e =
    rw (at, on_incoming_request_message) (rw e refl)

after_delta-time_out :
    (id : ℕ) (info : RequestInfo) (i : RequestIssuer)
    → info.request_state ≡ canceled_timeout
    → is_some i.p_remote_endpoint ≡ true
    → after_delta id issued info i ≡ answers tt (send_remote (request_cancel id) i)
unfolding after_delta
after_delta-time_out id info i now remote = ground arith

after_delta-acknowledge :
    (id : ℕ) (info : RequestInfo) (i : RequestIssuer)
    → info.request_state ≡ cancel_acknowledged
    → i.purge_on_cancel_ack ≡ true
    → {j : RequestIssuer} → purge_request info.request_id i ≡ answers true j
    → after_delta id canceled_timeout info i ≡ answers tt j
unfolding after_delta
after_delta-acknowledge id info i now purges gone = ground arith

purge_request-cancels :
    (id : ℕ) (info : RequestInfo) (i : RequestIssuer) (calls : List ListenerCall)
    → lookup id i.request_map ≡ some info
    → destroy info ≡ calls
    → can_be_canceled info ≡ true
    → is_some i.p_remote_endpoint ≡ true
    → purge_request id i
      ≡ answers true (record i {
        request_map = erase id i.request_map;
        messages = i.messages ++ request_cancel id ∷ [];
        calls = i.calls ++ calls;
      })
unfolding purge_request send_remote
purge_request-cancels id info i calls at told can remote = ground arith

module _ (id l : ℕ) (info : RequestInfo) (i : RequestIssuer) where
  -- After the timeout, and after the acknowledgement.
  abbrev waiting : RequestIssuer
  waiting = record i {
    request_map = assign id (timed_out info) i.request_map;
    messages = i.messages ++ request_cancel id ∷ [];
  }

  abbrev gone_as : ℕ → RequestIssuer
  gone_as k = record waiting {
    request_map = erase k (assign id (acknowledged (timed_out info)) waiting.request_map);
    messages = waiting.messages ++ request_cancel k ∷ [];
    calls =
        (i.calls ++ on_request_canceled k info.response_id ∷ [])
        ++ on_request_purged k info.response_id ∷ [];
  }

  abbrev gone : RequestIssuer
  gone = gone_as id

  destroy-listens :
      info.p_listener ≡ some l
      → destroy info ≡ on_request_purged info.request_id info.response_id ∷ []
  unfolding destroy
  destroy-listens listens = ground arith

  time_out-waiting :
      get_request_from_id id i ≡ some info
      → info.request_state ≡ issued
      → is_some i.p_remote_endpoint ≡ true
      → on_incoming_request_message id on_timer i ≡ answers tt waiting
  unfolding send_remote
  time_out-waiting at now remote =
      let told : RequestIssuer = record i {
        request_map = assign id (timed_out info) i.request_map;
        calls = i.calls ++ [];
      } in
      on_incoming_request_message-eq id on_timer info (timed_out info) [] i at
        (act_delta-on_timer info now)
      ∙ (ap (λ s. after_delta id s (timed_out info) told) now
          ∙ (after_delta-time_out id (timed_out info) told refl remote
              ∙ rw (append-nil i.calls) refl))

  acknowledge-gone :
      info.request_id ≡ id
      → info.p_listener ≡ some l
      → i.purge_on_cancel_ack ≡ true
      → is_some i.p_remote_endpoint ≡ true
      → on_incoming_request_message id (set_state cancel_acknowledged) waiting ≡ answers tt gone
  unfolding get_request_from_id can_be_canceled is_cancelable_state is_cancel_state destroy
  acknowledge-gone same listens purges remote =
      let last = acknowledged (timed_out info) in
      let told : RequestIssuer = record waiting {
        request_map = assign id last waiting.request_map;
        calls = i.calls ++ on_request_canceled info.request_id info.response_id ∷ [];
      } in
      let here : lookup info.request_id told.request_map ≡ some last =
        ground (arith, lookup-assign id info.request_id last waiting.request_map) in
      on_incoming_request_message-eq id (set_state cancel_acknowledged) (timed_out info) last
        (on_request_canceled info.request_id info.response_id ∷ []) waiting
        (ground (arith, lookup-assign id id (timed_out info) i.request_map))
        (act_delta-acknowledge (timed_out info) l listens refl)
      ∙ (after_delta-acknowledge id last told refl purges {j = gone_as info.request_id} (
            purge_request-cancels info.request_id last told
              (on_request_purged info.request_id info.response_id ∷ []) here
              (destroy-listens listens) refl remote)
          ∙ ap (λ k. answers tt (gone_as k)) same)

-- An issued request with a listener, in a table that purges on acknowledgement, that times out and
-- is then acknowledged: it leaves the table and no other request does, the cancellation is sent to
-- the service twice, and the listener is told that the request is canceled and then purged.
pub time_out-acknowledged :
    (id l : ℕ) (info : RequestInfo) (i : RequestIssuer)
    → get_request_from_id id i ≡ some info
    → info.request_id ≡ id
    → info.p_listener ≡ some l
    → info.request_state ≡ issued
    → i.purge_on_cancel_ack ≡ true
    → is_some i.p_remote_endpoint ≡ true
    → (i1 : RequestIssuer) × (i2 : RequestIssuer) × (on_incoming_request_message id on_timer i
        ≡ answers tt i1)
      × (on_incoming_request_message id (set_state cancel_acknowledged) i1 ≡ answers tt i2)
      × ((j : ℕ)
          → get_request_from_id j i2 ≡ (if nat_beq id j then none else get_request_from_id j i))
      × (i2.messages ≡ (i.messages ++ request_cancel id ∷ []) ++ request_cancel id ∷ [])
      × (i2.calls
          ≡ (i.calls ++ on_request_canceled id info.response_id ∷ [])
            ++ on_request_purged id info.response_id ∷ [])
unfolding get_request_from_id
time_out-acknowledged id l info i at same listens now purges remote = (
  waiting id l info i,
  gone id l info i,
  time_out-waiting id l info i at now remote,
  acknowledge-gone id l info i same listens purges remote,
  λ j. ground (
    arith,
    lookup-erase id j
        (assign id (acknowledged (timed_out info)) (assign id (timed_out info) i.request_map)),
    lookup-assign id j (acknowledged (timed_out info)) (assign id (timed_out info) i.request_map),
    lookup-assign id j (timed_out info) i.request_map,
  ),
  refl,
  refl,
)
