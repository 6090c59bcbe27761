-- ===== src/Plugin/RadarState/Views.antt =====
-- crates/plugin/src/radar_state.rs: `notify_views`, what the notifier sees of both stores. The
-- ordered map is a map keyed by the pane id.
use zj_radar.Prelude.{
  ℕ, ◌≡◌, ◌∙◌, refl, ap, arith, inl, inr, none, some, List, [], ◌∷◌, ◌++◌, any, Option-cases,
  if◌then◌else◌,
}
use zj_radar.Prelude.PaneMap
use zj_radar.Prelude.PaneMap.{PaneMap, get, get-insert}
use zj_radar.Core.Observation.{TrackedObservation}
use zj_radar.Plugin.RadarState.{RadarState, has_id, resolve}
use zj_radar.Plugin.RadarState.Ids.{has_id-keys, has_id-append}
use zj_radar.Plugin.RadarState.Recede.{keys}

unfoldable pub views_of : RadarState → List ℕ → PaneMap TrackedObservation
unfolding resolve
views_of s [] = []
views_of s (id ∷ ids) = elim (resolve s id) [
  | none ↦ views_of s ids
  | some o ↦ PaneMap.insert id o (views_of s ids)
]

unfoldable pub notify_views : RadarState → PaneMap TrackedObservation
unfolding views_of keys
notify_views s = views_of s (keys s.command.store ++ keys s.status.store)

get-views_of :
    (s : RadarState) (ids : List ℕ) (id : ℕ)
    → get id (views_of s ids) ≡ (if has_id ids id then resolve s id else none)
unfolding views_of has_id any get
get-views_of s [] id = refl
get-views_of s (j ∷ ids) id = elim (Option-cases (resolve s j)) [
  | inl out ↦
      rw (views_of, out)
        (ground (arith, out, get-views_of s ids id, λ (e : j ≡ id). ap (resolve s) e))
  | inr (o, e) ↦
      rw (views_of, e)
        (ground (
          arith,
          e,
          get-insert j id o (views_of s ids),
          get-views_of s ids id,
          λ (e : j ≡ id). ap (resolve s) e,
        ))
]

-- The notifier sees of each pane what the pane's card is drawn from: the status observation, or else
-- the command's, and nothing where there is neither.
pub get-notify_views : (s : RadarState) (id : ℕ) → get id (notify_views s) ≡ resolve s id
unfolding notify_views resolve
get-notify_views s id =
    get-views_of s (keys s.command.store ++ keys s.status.store) id
    ∙ ground (
      arith,
      has_id-append id (keys s.command.store) (keys s.status.store),
      has_id-keys id s.command.store,
      has_id-keys id s.status.store,
    )
