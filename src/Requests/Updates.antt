-- ===== src/Requests/Updates.antt =====
-- A request with all the updaters that were made for it (Holder/BaseRequestInfo.h and .cpp). Each
-- stores the last answer of IsValid, and several are in use at once.
pub mod Sound
pub mod Told
use holder.Prelude.{ℕ, List, [], ◌∷◌, ◌++◌, Option, none, some, get_elem?, modify}
use holder.Requests.{RequestState, ListenerCall}
use holder.Requests.Info.{
  RequestInfo, Updater, get_updater, set_new_state, clear_new_state, set_result, is_valid, apply,
}

pub record Updates : Type 0 where
  pub info : RequestInfo
  pub updaters : List Updater

pub data Setter : Type 0 where
  sets_state : RequestState → Setter
  clears_state : Setter
  sets_result : Option ℕ → Setter

unfoldable pub change : Setter → Updater → Updater
unfolding set_new_state clear_new_state set_result
change (sets_state s) u = set_new_state s u
change clears_state u = clear_new_state u
change (sets_result p) u = set_result p u

-- What is done with the updater at a place: made, changed, asked by IsValid, or called.
pub data UpdateStep : Type 0 where
  made : UpdateStep
  changed_by : ℕ → Setter → UpdateStep
  asked : ℕ → UpdateStep
  called : ℕ → UpdateStep

-- IsValid, for what it stores.
unfoldable pub remember : RequestInfo → Updater → Updater
unfolding is_valid
remember info u = (is_valid u info).1

-- With the calls of the listener.
unfoldable pub update_step : UpdateStep → Updates → Updates × List ListenerCall
unfolding change remember
update_step made w = (record w { updaters = w.updaters ++ get_updater ∷ [] }, [])
update_step (changed_by k setter) w =
    (record w { updaters = modify w.updaters k (change setter) }, [])
update_step (asked k) w = (record w { updaters = modify w.updaters k (remember w.info) }, [])
update_step (called k) w = elim (get_elem? w.updaters k) [
  | none ↦ (w, [])
  | some u ↦ (
    record { info = (apply u w.info).0; updaters = modify w.updaters k (remember w.info) },
    (apply u w.info).1,
  )
]

unfoldable pub update_steps : List UpdateStep → Updates → Updates × List ListenerCall
update_steps [] w = (w, [])
update_steps (x ∷ xs) w =
    let (w', calls) = update_step x w in
    let (last, later) = update_steps xs w' in (last, calls ++ later)
