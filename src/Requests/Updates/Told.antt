-- ===== src/Requests/Updates/Told.antt =====
-- A listener is told what happens to its request, once, whatever updaters do.
use mathlib.Core.Path.{subst}
use holder.Prelude.{
  ℕ, ◌+◌, ◌^◌, ◌<◌, ◌≡◌, refl, sym, ap, true, false, List, [], ◌∷◌, some, inl, inr, length, inc_u32,
  nat_beq, if◌then◌else◌, get_elem?, modify, get_elem?-snoc, arith, Option-cases, Bool-cases,
}
use holder.Requests.{RequestState, state_beq, ListenerCall}
use holder.Requests.Info.{RequestInfo, Updater, tell_state, apply, get_updater}
use holder.Requests.Lifecycle.{
  is_settled, Leads, stays, Leads-trans, told_still, told-then, IsStep, Outcome, refused, accepted,
  changed, apply-Outcome, Outcome-IsStep,
}
use holder.Requests.Updates.{
  Updates, change, UpdateStep, made, changed_by, asked, called, remember, update_step, update_steps,
}
use holder.Requests.Updates.Sound.{
  change-IsSound, fresh-IsSound, remaining-Leads, forget, apply-forget, remember-IsSound,
  changed-IsSound, modify-AllSound, AllSound,
}

-- A step: what it does to the request, and that the updaters stay sound.
record Stepped (w : Updates) (l : ℕ) (r : Updates × List ListenerCall) : Type 0 where
  step : IsStep w.info l (r.0.info, r.1)
  sound : AllSound r.0

quiet : (info : RequestInfo) (l : ℕ) → info.p_listener ≡ some l → IsStep info l (info, [])
quiet info l h = record {
  leads = stays;
  calls = sym (told_still info);
  listens = h;
  keeps = λ _. refl;
}

changed-AllSound :
    (w : Updates) (u : Updater) (s : RequestState)
    → Leads w.info.request_state s
    → state_beq s w.info.request_state ≡ false
    → AllSound w
    → AllSound (record w { info = (changed u s w.info).0 })
changed-AllSound w u s leads differs v =
    let fewer = remaining-Leads leads differs in
    let next : inc_u32 w.info.sequence ≡ w.info.sequence + 1 = omega (arith, v.room) in
    record {
      each = λ k x h. changed-IsSound x w.info (changed u s w.info).0 next (v.each k x h);
      room = omega (arith, v.room, fewer, next);
    }

called-Stepped :
    (w : Updates) (l k : ℕ) (u : Updater)
    → get_elem? w.updaters k ≡ some u
    → w.info.p_listener ≡ some l
    → AllSound w
    → Stepped w l (
      record { info = (apply u w.info).0; updaters = modify w.updaters k (remember w.info) },
      (apply u w.info).1,
    )
called-Stepped w l k u at h v =
    let same = apply-forget u w.info (v.each k u at) in
    let remembered = modify-AllSound w k (remember w.info) (λ x. remember-IsSound x w.info) v in
    let us = modify w.updaters k (remember w.info) in
    subst (λ r. Stepped w l (record { info = r.0; updaters = us }, r.1)) (sym same)
      (by_outcome us remembered (apply-Outcome (forget u) w.info l refl h))
  where
    by_outcome :
        (us : List Updater)
        → AllSound (record w { updaters = us })
        → Outcome (forget u) w.info
        → let r = apply (forget u) w.info in Stepped w l (record { info = r.0; updaters = us }, r.1)
    by_outcome us remembered (refused e) =
        subst (λ r. Stepped w l (record { info = r.0; updaters = us }, r.1)) (sym e)
          (record { step = quiet w.info l h; sound = remembered })
    by_outcome us remembered (accepted s e leads differs) = record {
      step = Outcome-IsStep (forget u) w.info l h (accepted s e leads differs);
      sound =
          subst (λ r. AllSound (record { info = r.0; updaters = us })) (sym e)
            (changed-AllSound (record w { updaters = us }) (forget u) s leads differs remembered);
    }

update_step-Stepped :
    (x : UpdateStep) (w : Updates) (l : ℕ)
    → w.info.p_listener ≡ some l
    → AllSound w
    → Stepped w l (update_step x w)
unfolding update_step get_updater
update_step-Stepped made w l h v = record {
  step = quiet w.info l h;
  sound = record {
    each = λ k u at. elim (Bool-cases (nat_beq (length w.updaters) k)) [
      | inl e ↦ fresh-IsSound u w.info (ground (arith, get_elem?-snoc w.updaters get_updater k))
      | inr e ↦ v.each k u (ground (arith, get_elem?-snoc w.updaters get_updater k))
    ];
    room = v.room;
  };
}
update_step-Stepped (changed_by k setter) w l h v = record {
  step = quiet w.info l h;
  sound = modify-AllSound w k (change setter) (λ u _. change-IsSound setter u w.info) v;
}
update_step-Stepped (asked k) w l h v = record {
  step = quiet w.info l h;
  sound = modify-AllSound w k (remember w.info) (λ u. remember-IsSound u w.info) v;
}
update_step-Stepped (called k) w l h v = elim (Option-cases (get_elem? w.updaters k)) [
  | inl gone ↦ rw (gone, update_step) (record { step = quiet w.info l h; sound = v })
  | inr (u, at) ↦ rw (at, update_step) (called-Stepped w l k u at h v)
]

update_steps-IsStep :
    (xs : List UpdateStep) (w : Updates) (l : ℕ)
    → w.info.p_listener ≡ some l
    → AllSound w
    → let (last, calls) = update_steps xs w in IsStep w.info l (last.info, calls)
unfolding update_steps
update_steps-IsStep [] w l h v = quiet w.info l h
update_steps-IsStep (x ∷ xs) w l h v =
    let r = update_step-Stepped x w l h v in
    let now = r.step in
    let next = (update_step x w).0 in
    let later = update_steps-IsStep xs next l now.listens r.sound in
    record {
      leads = Leads-trans now.leads later.leads;
      calls =
          told-then w.info.request_state next.info (update_steps xs next).0.info now.calls
            later.calls (λ a. ap (λ (r : RequestInfo). r.request_state) (now.keeps a)) later.keeps;
      listens = later.listens;
      keeps = λ settled. ground (arith, now.keeps settled, later.keeps);
    }

-- A request with a listener, whose number of changes is below 2^32 - 2, and any sequence in which
-- updaters of it are made, changed, asked whether they are valid and called, several at once and with
-- the answers that they store: its state goes on only along the life of a request. All calls of the
-- listener together are, where the request was not settled before, the one that tells the state that
-- is reached if that is a settled one, and none if not; a settled request does not change any more.
pub update_steps-told :
    (xs : List UpdateStep) (info : RequestInfo) (l : ℕ)
    → info.p_listener ≡ some l
    → info.sequence + 2 < 2 ^ 32
    → let (last, calls) = update_steps xs (record { info = info; updaters = [] }) in
      Leads info.request_state last.info.request_state
      × (calls ≡ (
          if is_settled info.request_state
          then []
          else tell_state last.info.request_state last.info))
      × (is_settled info.request_state ≡ true → last.info ≡ info)
update_steps-told xs info l h small =
    let none_made : AllSound (record { info = info; updaters = [] }) = record {
      each = λ k u at. absurd (ground arith);
      room = ground arith;
    } in
    let all = update_steps-IsStep xs (record { info = info; updaters = [] }) l h none_made in
    (all.leads, all.calls, all.keeps)
