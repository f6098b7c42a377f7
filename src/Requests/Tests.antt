-- ===== src/Requests/Tests.antt =====
-- A client whose listener has the address 4, and a service with two clients.
use holder.Prelude.{
  ℕ, ◌≡◌, ◌≢◌, ◌≤◌, count, refl, Bool, true, false, List, [], ◌∷◌, none, some, lookup, nat_eq,
  arith, emplace, update, erase,
}
use holder.Requests.{
  issued, failed, canceled_user, cancel_acknowledged, set_state, request_complete_delta,
  request_issue, on_request_purged, on_request_failed,
}
use holder.Requests.Info.{
  RequestInfo, new_info, get_updater, set_new_state, clear_new_state, set_result, apply, is_valid,
  check, allows, had_change, written, tell_state, act_delta, destroy,
}
use holder.Requests.Lifecycle.{Leads, request_complete_delta_ignored}
use holder.Requests.Updates.{
  sets_state, sets_result, change, UpdateStep, made, changed_by, asked, called, remember,
  update_step, update_steps,
}
use holder.Requests.Updates.Told.{update_steps-told}
use holder.Requests.Issuer.{RequestIssuer, answers, issue_request, send_remote}
use holder.Requests.Handler.{
  RequestHandler, HandlerRequestInfo, request_update, on_request_orphaned, on_request_cancelled,
  new_handler, add_client, create_request, handler_cancel_request, remove_client, note, add_request,
  remove_request, get_request_from_coords, get_request_info, get_request_info_id,
  client_request_info_id, purge_request_info, send_request_update, set_cancel,
}
use holder.Requests.Links.{IsLinked, entry}
use holder.Requests.Links.Reaching.{
  Reachable, start, client_added, created, canceled, Reachable-IsLinked,
}
use holder.Requests.Links.Leaving.{remove_client-IsLinked}

abbrev sample : RequestInfo
unfolding new_info
sample = new_info (some 4) 0 6

-- The second updater is found valid while the request is issued, and called after the first one.
abbrev failing : List UpdateStep
failing =
    made
    ∷ made
    ∷ changed_by 0 (sets_state failed)
    ∷ changed_by 0 (sets_result (some 1))
    ∷ changed_by 1 (sets_state canceled_user)
    ∷ asked 1
    ∷ called 0
    ∷ called 1
    ∷ []

updates : Unit {0}
unfolding update_steps update_step change remember apply is_valid check allows had_change written
    tell_state set_result set_new_state clear_new_state get_updater new_info act_delta
    request_complete_delta
updates = tt

update_steps-told_example :
    let (last, calls) = update_steps failing (record { info = sample; updaters = [] }) in
    Leads issued last.info.request_state
    × (calls ≡ tell_state last.info.request_state last.info)
    × (false ≡ true → last.info ≡ sample)
unfolding new_info
update_steps-told_example = update_steps-told failing sample 4 refl (omega arith)

failing_tells :
    (update_steps failing (record { info = sample; updaters = [] })).1 ≡ on_request_failed 0 6 ∷ []
unfolding updates
failing_tells = refl

request_complete_delta_ignored_example :
    act_delta (request_complete_delta true (some 9)) sample ≡ (sample, [])
unfolding new_info
request_complete_delta_ignored_example = request_complete_delta_ignored true (some 9) sample refl

abbrev issuer : RequestIssuer
issuer = record {
  purge_on_cancel_ack = true;
  p_remote_endpoint = some 1;
  p_local_endpoint = some 2;
  request_map = (0, sample) ∷ [];
  next_request_id = 1;
  messages = [];
  timers = [];
  calls = [];
}

-- The listener is told at once that the request is purged, though it is in the table.
issue_request_purges :
    issue_request sample 8 50 (record issuer { request_map = [] })
    ≡ answers 1 (record issuer {
      next_request_id = 2;
      request_map = (1, sample) ∷ [];
      messages = request_issue 1 8 ∷ [];
      timers = (50, 1) ∷ [];
      calls = on_request_purged 0 6 ∷ [];
    })
unfolding issue_request new_info emplace destroy send_remote
issue_request_purges = refl

abbrev alive : ℕ → Bool
alive p = true

abbrev service : RequestHandler
service =
    (create_request 8 0 (create_request 7 0 (add_client 8 3 (add_client 7 2 new_handler))).1).1

handling : Unit {0}
unfolding new_handler add_client create_request add_request emplace update lookup entry note
handling = tt

service-Reachable : Reachable alive (2 ∷ 1 ∷ []) service
unfolding handling
service-Reachable = created 8 0 refl (created 7 0 refl (client_added 8 3 (client_added 7 2 start)))

Reachable-IsLinked_example :
    IsLinked (handler_cancel_request alive 0 7 service)
    × ((i : ℕ) → i ≢ 0 → count i (2 ∷ 1 ∷ []) ≤ 1)
Reachable-IsLinked_example = Reachable-IsLinked (canceled 0 7 service-Reachable)

remove_client-IsLinked_example :
    let h' = remove_client 7 service in
    IsLinked h'
    × ((i : ℕ) (info : HandlerRequestInfo)
        → lookup i h'.request_infos ≡ some info
        → info.client_id ≢ 7)
    × (lookup 7 h'.request_clients ≡ none)
remove_client-IsLinked_example =
    remove_client-IsLinked 7 service (Reachable-IsLinked service-Reachable).0

cancel_acknowledges :
    (handler_cancel_request alive 0 7 service).events
    ≡ request_update 2 0 (set_state cancel_acknowledged)
      ∷ on_request_cancelled 1
      ∷ on_request_orphaned 1
      ∷ []
unfolding handling handler_cancel_request get_request_from_coords get_request_info
    get_request_info_id client_request_info_id set_cancel send_request_update purge_request_info
    remove_request erase
cancel_acknowledges = refl
