-- ===== src/Plugin/RadarState/Panes.antt =====
-- crates/plugin/src/radar_state.rs: `panes_changed`, the manifest of the panes.
pub mod Grace
pub mod Absence
use zj_radar.Prelude.{
  ℕ, String, Bool, true, false, not, ◌&&◌, ◌||◌, Option, none, some, List, [], ◌∷◌, ◌++◌, is_some,
  is_some_and, if◌then◌else◌,
}
use zj_radar.Prelude.Int.{ℤ}
use zj_radar.Prelude.PaneMap
use zj_radar.Prelude.PaneMap.{PaneMap}
use zj_radar.Core.Status.{Status, eq_status}
use zj_radar.Core.Kind.{is_remote}
use zj_radar.Core.Observation.{TrackedObservation}
use zj_radar.Core.Command
use zj_radar.Core.Command.{CommandStore}
use zj_radar.Plugin.StatusStore
use zj_radar.Plugin.TabNamer.{NamingMode}
use zj_radar.Plugin.RadarState.{
  RadarState, RadarChange, TabIndex, now_if, no_change, touch, has_id, pane_tab_index, note_focus,
  focused_terminal_in_active_tab,
}
use zj_radar.Plugin.RadarState.Recede.{status_tracked_pane_ids, ledger_receded, arm_flash, of_pane}
use zj_radar.Plugin.RadarState.Naming.{rename_tabs, cwd_bootstrap_targets}
use zj_radar.Plugin.RadarState.Update.{PaneUpdate}

-- A running remote session.
unfoldable pub is_remote_run : TrackedObservation → Bool
is_remote_run o = is_remote o.kind && eq_status o.status Status.running

-- An exit for the command store, and for the status store; whether a completion was displaced.
unfoldable pub exit_command :
    ℕ → ℕ → TabIndex → List ℕ → ℕ × Option ℤ → RadarState → Bool × RadarState
exit_command tick now index tracked (pane_id, exit_status) s =
    let (displaced, command) = Command.on_exit pane_id exit_status tick now s.command in
    (
      is_some displaced,
      ledger_receded (of_pane pane_id displaced) index tracked (record s { command = command }),
    )

unfoldable pub exit_clear : ℕ → TabIndex → List ℕ → ℕ → RadarState → Bool × RadarState
exit_clear tick index tracked pane_id s =
    let (receded, status) = StatusStore.clear_on_exit pane_id tick s.status in
    (
      is_some receded,
      ledger_receded (of_pane pane_id receded) index tracked (record s { status = status }),
    )

-- One round of the loop over the exits.
unfoldable pub exit_one : ℕ → ℕ → TabIndex → List ℕ → ℕ × Option ℤ → RadarState → Bool × RadarState
unfolding is_remote_run arm_flash exit_command exit_clear
exit_one tick now index tracked e s =
    let was_remote_running = is_some_and (PaneMap.get e.0 s.command.store) is_remote_run in
    let (displaced, t) = exit_command tick now index tracked e s in
    let u = if was_remote_running then arm_flash e.0 tick t else t in
    let (cleared, v) = exit_clear tick index tracked e.0 u in (displaced || cleared, v)

unfoldable pub exit_all :
    ℕ → ℕ → TabIndex → List ℕ → List (ℕ × Option ℤ) → RadarState → Bool × RadarState
unfolding exit_one
exit_all tick now index tracked [] s = (false, s)
exit_all tick now index tracked (e ∷ exits) s =
    let (hit, t) = exit_one tick now index tracked e s in
    let (more, u) = exit_all tick now index tracked exits t in (hit || more, u)

unfoldable pub map_keys {ℓ} : {V : Type ℓ} → PaneMap V → List ℕ
map_keys [] = []
map_keys ((id, v) ∷ m) = id ∷ map_keys m

-- `CommandStore::tracked_pane_ids`
unfoldable pub tracked_pane_ids : CommandStore → List ℕ
unfolding map_keys
tracked_pane_ids c =
    map_keys c.store ++ map_keys c.pending ++ map_keys c.pending_done ++ map_keys c.exited

-- The panes that are tracked, absent now and were not absent before, with the tab they were in.
unfoldable pub graced_from :
    List ℕ → PaneMap (Option (ℕ × String)) → TabIndex → List ℕ → PaneMap (Option (ℕ × String))
graced_from live before index [] = []
graced_from live before index (id ∷ ids) =
    let rest = graced_from live before index ids in
    if not (has_id live id) && not (is_some (PaneMap.get id before))
    then PaneMap.insert id (PaneMap.get id index) rest
    else rest

-- `prune_index.extend(..)`
unfoldable pub extend_index : PaneMap (Option (ℕ × String)) → TabIndex → TabIndex
extend_index [] index = index
extend_index ((id, entry) ∷ before) index = elim entry [
  | none ↦ extend_index before index
  | some e ↦ extend_index before (PaneMap.insert id e index)
]

unfoldable pub is_effective : List ℕ → PaneMap (Option (ℕ × String)) → ℕ → Bool
is_effective live graced id = has_id live id || is_some (PaneMap.get id graced)

unfoldable pub filter_ids : (ℕ → Bool) → List ℕ → List ℕ
filter_ids live [] = []
filter_ids live (id ∷ ids) = let rest = filter_ids live ids in if live id then id ∷ rest else rest

unfoldable pub some_dropped : List (ℕ × TrackedObservation) → Bool
some_dropped [] = false
some_dropped (_ ∷ _) = true

-- Both prunes, and what they hand to the ledger; whether something was dropped.
unfoldable pub prune_stores : (ℕ → Bool) → TabIndex → List ℕ → RadarState → Bool × RadarState
unfolding filter_ids some_dropped
prune_stores live index tracked s =
    let (dropped_status, status) = StatusStore.prune live s.status in
    let (dropped_command, command) = Command.prune live s.command in
    let t =
      ledger_receded dropped_status index tracked
        (record s { status = status; command = command }) in
    let u = ledger_receded dropped_command index tracked t in
    (
      some_dropped dropped_status || some_dropped dropped_command,
      record u {
        pane_cwd = PaneMap.retain live u.pane_cwd;
        cwd_bootstrap_attempted = filter_ids live u.cwd_bootstrap_attempted;
      },
    )

-- The panes that get a manifest of grace.
unfoldable pub graced : List ℕ → TabIndex → RadarState → PaneMap (Option (ℕ × String))
unfolding graced_from tracked_pane_ids
graced live index s =
    graced_from live s.absent_once index (status_tracked_pane_ids s ++ tracked_pane_ids s.command)

-- The middle of `panes_changed`: the new topology, the grace and the prunes.
unfoldable pub settle_panes :
    {Theme : Type 0} → PaneUpdate Theme → TabIndex → List ℕ → RadarState → Bool × RadarState
unfolding graced extend_index is_effective prune_stores
settle_panes update index tracked s =
    let kept = graced update.live index s in
    prune_stores (is_effective update.live kept) (extend_index s.absent_once index) tracked
      (record s { live_panes = some update.live; tab_panes = update.tab_panes; absent_once = kept })

unfoldable pub panes_changed :
    {Theme : Type 0} → PaneUpdate Theme → ℕ → ℕ → NamingMode → RadarState → RadarChange × RadarState
unfolding touch exit_all settle_panes
panes_changed update tick now naming s =
    let index = pane_tab_index (touch s) in
    let tracked = status_tracked_pane_ids (touch s) in
    let (displaced_any, t) = exit_all tick now index tracked update.exits (touch s) in
    let (pruned_any, u) = settle_panes update index tracked t in
    let v = note_focus (focused_terminal_in_active_tab u) u in
    let (renames, w) = rename_tabs naming v in
    let (cwd_bootstrap, x) = cwd_bootstrap_targets naming w in
    (
      record no_change {
        render = true;
        snapshot = now_if (displaced_any || pruned_any);
        renames = renames;
        cwd_bootstrap = cwd_bootstrap;
        settle = true;
      },
      x,
    )
