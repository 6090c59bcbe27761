-- ===== src/Plugin/RadarState/Recede.antt =====
-- crates/plugin/src/radar_state.rs: what leaves the cards goes to the ledger, and the tab flash.
use zj_radar.Prelude.{
  ℕ, ◌+◌, Bool, true, false, ◌&&◌, Option, none, some, List, [], ◌∷◌, if◌then◌else◌,
}
use zj_radar.Prelude.PaneMap
use zj_radar.Prelude.PaneMap.{PaneMap}
use zj_radar.Core.Observation.{ObservationOrigin, TrackedObservation, ObservationStore}
use zj_radar.Plugin.Ledger.{LedgerEntry, from_observation, push}
use zj_radar.Plugin.RadarState.{
  RadarState, TabIndex, touch, has_id, tab_of_pane, pane_tab_index, flash_ticks,
}

abbrev pub is_command : ObservationOrigin → Bool
is_command ObservationOrigin.command = true
is_command ObservationOrigin.status_pipe = false

unfoldable pub keys : ObservationStore → List ℕ
keys [] = []
keys ((id, o) ∷ m) = id ∷ keys m

unfoldable pub status_tracked_pane_ids : RadarState → List ℕ
unfolding keys
status_tracked_pane_ids s = keys s.status.store

-- The entry of an observation that recedes: none for a command row that the status store covers,
-- for a pane in no known tab, and for what is no completion.
unfoldable pub receded_entry : TabIndex → List ℕ → ℕ → TrackedObservation → Option LedgerEntry
receded_entry index status_tracked pane_id obs =
    if is_command obs.origin && has_id status_tracked pane_id
    then none
    else elim (PaneMap.get pane_id index) [
      | none ↦ none
      | some (tab_id, tab_name) ↦ from_observation pane_id obs tab_id tab_name
    ]

unfoldable pub push_entry : Option LedgerEntry → RadarState → RadarState
push_entry none s = s
push_entry (some entry) s =
    let (appended, ledger) = push entry s.ledger in
    let t = record s { ledger = ledger } in if appended then touch t else t

unfoldable pub ledger_receded :
    List (ℕ × TrackedObservation) → TabIndex → List ℕ → RadarState → RadarState
unfolding receded_entry push_entry
ledger_receded [] index status_tracked s = s
ledger_receded ((pane_id, obs) ∷ receded) index status_tracked s =
    ledger_receded receded index status_tracked
      (push_entry (receded_entry index status_tracked pane_id obs) s)

unfoldable pub ledger_recede_now : List (ℕ × TrackedObservation) → RadarState → RadarState
unfolding ledger_receded pane_tab_index status_tracked_pane_ids
ledger_recede_now [] s = s
ledger_recede_now (r ∷ receded) s =
    ledger_receded (r ∷ receded) (pane_tab_index s) (status_tracked_pane_ids s) s

unfoldable pub arm_flash : ℕ → ℕ → RadarState → RadarState
unfolding tab_of_pane
arm_flash pane_id tick s = elim (tab_of_pane pane_id s) [
  | none ↦ s
  | some tab_id ↦ record s {
    flash_until = PaneMap.insert tab_id (tick + flash_ticks) s.flash_until;
  }
]

-- `receded` of one pane, where there is one.
abbrev pub of_pane : ℕ → Option TrackedObservation → List (ℕ × TrackedObservation)
of_pane pane_id none = []
of_pane pane_id (some o) = (pane_id, o) ∷ []
