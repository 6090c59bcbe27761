-- ===== src/Plugin/RadarState/Ids.antt =====
-- crates/plugin/src/radar_state.rs: the ids of the panes that a store tracks.
use zj_radar.Prelude.{
  ℕ, ◌≡◌, refl, arith, ◌||◌, List, [], ◌∷◌, ◌++◌, ◌==◌, any, any-append, is_some,
}
use zj_radar.Prelude.PaneMap.{get}
use zj_radar.Core.Observation.{ObservationStore}
use zj_radar.Plugin.RadarState.{has_id}
use zj_radar.Plugin.RadarState.Recede.{keys}

-- A pane that has an observation is among the keys.
pub has_id-keys : (id : ℕ) (m : ObservationStore) → has_id (keys m) id ≡ is_some (get id m)
unfolding has_id keys get any
has_id-keys id [] = refl
has_id-keys id ((j, o) ∷ m) = ground (arith, has_id-keys id m)

pub has_id-append :
    (id : ℕ) (xs ys : List ℕ) → has_id (xs ++ ys) id ≡ (has_id xs id || has_id ys id)
unfolding has_id
has_id-append id xs ys = any-append (λ j. j == id) xs ys
