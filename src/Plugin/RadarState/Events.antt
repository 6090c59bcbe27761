-- ===== src/Plugin/RadarState/Events.antt =====
-- crates/plugin/src/radar_state.rs: the timer, and what the commands, the status pipe and the
-- settings do to the state. `Json` is what serde does with a payload, `to_lowercase` is that of `str`.
use zj_radar.Prelude.{
  ℕ, String, Bool, true, false, not, ◌&&◌, ◌||◌, Option, none, some, List, [], ◌∷◌, str_eq, ltb,
  eq_bool, is_some, is_some_and, and_then, if◌then◌else◌,
}
use zj_radar.Prelude.PaneMap
use zj_radar.Prelude.PaneMap.{PaneMap}
use zj_radar.Core.Status.{Status, eq_status}
use zj_radar.Core.Kind.{Kind, is_remote}
use zj_radar.Core.Payload.{Json, StatusPayload, parse}
use zj_radar.Core.Observation.{TrackedObservation, animating}
use zj_radar.Core.Observation.Equal.{eq_observation, eq_items}
use zj_radar.Core.Command.Argv.{is_shell_prompt, is_agent_command}
use zj_radar.Core.Command.Timer.{on_timer}
use zj_radar.Core.Command.Intake.{on_command_changed}
use zj_radar.Core.Command.Extras.{set_interactive_extras, set_remote_extras}
use zj_radar.Plugin.StatusStore
use zj_radar.Plugin.StatusStore.{
  Replaced, receded, clear_on_prompt_return, cancel_running_suspect, expire_stale_running,
}
use zj_radar.Plugin.TabNamer.{NamingMode}
use zj_radar.Plugin.RadarState.{RadarState, RadarChange, SnapshotWrite, now_if, no_change, touch}
use zj_radar.Plugin.RadarState.Recede.{ledger_recede_now, arm_flash, of_pane}
use zj_radar.Plugin.RadarState.Naming.{rename_tabs}

-- `flash_until.retain(|_, u| tick < u)`
unfoldable pub still_lit : ℕ → PaneMap ℕ → PaneMap ℕ
still_lit tick [] = []
still_lit tick ((id, u) ∷ m) =
    let rest = still_lit tick m in if ltb tick u then (id, u) ∷ rest else rest

unfoldable pub flash_completed : ℕ → List (ℕ × Kind) → RadarState → RadarState
unfolding arm_flash
flash_completed tick [] s = s
flash_completed tick ((pane_id, kind) ∷ completed) s =
    flash_completed tick completed (if is_remote kind then arm_flash pane_id tick s else s)

abbrev pub touch_if : Bool → RadarState → RadarState
touch_if changed s = if changed then touch s else s

abbrev pub some_id : List ℕ → Bool
some_id [] = false
some_id (_ ∷ _) = true

unfoldable pub timer : ℕ → ℕ → RadarState → Bool × RadarState
unfolding still_lit flash_completed ledger_recede_now
timer tick now s =
    let (report, command) = on_timer tick now s.command in
    let t =
      ledger_recede_now report.receded
        (record s { flash_until = still_lit tick s.flash_until; command = command }) in
    let u = flash_completed tick report.completed t in
    let (cleared, status) = expire_stale_running tick u.status in
    let changed = report.changed || some_id cleared in
    (changed, touch_if changed (record u { status = status }))

unfoldable pub cwd_changed : ℕ → String → NamingMode → RadarState → RadarChange × RadarState
unfolding rename_tabs
cwd_changed pane_id path naming s =
    let (renames, t) =
      rename_tabs naming (record s { pane_cwd = PaneMap.insert pane_id path s.pane_cwd }) in
    (record no_change { renames = renames }, t)

-- What a pane's return to its shell prompt does; whether a status was cleared.
unfoldable pub prompt_return : ℕ → ℕ → RadarState → Bool × RadarState
unfolding ledger_recede_now touch
prompt_return pane_id tick s =
    let (receded, status) = clear_on_prompt_return pane_id tick s.status in
    let t = ledger_recede_now (of_pane pane_id receded) (record s { status = status }) in
    (is_some receded, touch_if (is_some receded) t)

module _ (to_lowercase : String → String) where
  unfoldable pub command_changed :
      ℕ → List String → Bool → ℕ → RadarState → RadarChange × RadarState
  unfolding prompt_return cancel_running_suspect
  command_changed pane_id argv is_foreground tick s =
      let cwd = PaneMap.get pane_id s.pane_cwd in
      let t = record s {
        command = on_command_changed to_lowercase pane_id argv is_foreground cwd tick s.command;
      } in
      let (cleared, u) = if is_shell_prompt argv then prompt_return pane_id tick t else (
        false,
        if is_agent_command argv
            then record t { status = cancel_running_suspect pane_id t.status }
            else t,
      ) in
      (
        record no_change {
          render = cleared;
          snapshot = now_if cleared;
          snapshot_pane = some pane_id;
        },
        u,
      )

-- `Option` comparisons: `prev == now`, of observations, of their tasks and of their statuses.
unfoldable pub eq_found : Option TrackedObservation → Option TrackedObservation → Bool
eq_found none none = true
eq_found (some a) (some b) = eq_observation a b
eq_found _ _ = false

unfoldable pub same_tasks : Option TrackedObservation → Option TrackedObservation → Bool
same_tasks none none = true
same_tasks (some a) (some b) =
    eq_items a.tasks.items b.tasks.items && eq_bool a.tasks.waiting b.tasks.waiting
same_tasks _ _ = false

unfoldable pub has_status : Status → Option TrackedObservation → Bool
has_status st o = is_some_and o (λ s. eq_status s.status st)

unfoldable pub naming_repo : Option TrackedObservation → String
naming_repo none = ""
naming_repo (some o) = o.repo

-- Only the label of a spinning row has changed.
unfoldable pub label_only : Option TrackedObservation → Option TrackedObservation → Bool
unfolding has_status same_tasks
label_only prev now =
    has_status Status.running prev
    && has_status Status.running now
    && same_tasks prev now
    && is_some_and now animating

-- The rest of `status_pipe`, for an update that is no re-broadcast.
unfoldable pub status_edge :
    StatusPayload → Replaced → ℕ → NamingMode → RadarState → RadarChange × RadarState
unfolding touch arm_flash ledger_recede_now rename_tabs naming_repo
status_edge p replaced tick naming s =
    let now = PaneMap.get p.pane_id s.status.store in
    let flips =
      eq_status p.status Status.pending && not (has_status Status.pending replaced.prev) in
    let t = if flips then arm_flash p.pane_id tick (touch s) else touch s in
    let u = ledger_recede_now (of_pane p.pane_id (receded replaced)) t in
    let repo_changed = not (str_eq (naming_repo replaced.prev) (naming_repo now)) in
    let (renames, v) = if repo_changed then rename_tabs naming u else ([], u) in
    let quiet = label_only replaced.prev now in
    (
      record no_change {
        render = not quiet;
        snapshot = if quiet then SnapshotWrite.deferred else SnapshotWrite.now;
        snapshot_pane = some p.pane_id;
        renames = renames;
      },
      v,
    )

unfoldable pub on_payload :
    StatusPayload → ℕ → ℕ → NamingMode → RadarState → RadarChange × RadarState
unfolding eq_found label_only status_edge
on_payload p tick now naming s =
    let (replaced, status) = StatusStore.apply p tick now s.status in
    let t = record s { status = status } in
    if eq_found replaced.prev (PaneMap.get p.pane_id status.store)
    then (no_change, t)
    else status_edge p replaced tick naming t

unfoldable pub status_pipe :
    Json → String → ℕ → ℕ → NamingMode → RadarState → Option (RadarChange × RadarState)
unfolding on_payload
status_pipe json raw tick now naming s =
    and_then (parse json raw) (λ p. some (on_payload p tick now naming s))

unfoldable pub set_interactive_commands : List String → RadarState → Bool × RadarState
set_interactive_commands extras s =
    let (changed, command) = set_interactive_extras extras s.command in
    (changed, touch_if changed (record s { command = command }))

unfoldable pub set_remote_commands : List String → RadarState → Bool × RadarState
set_remote_commands extras s =
    let (changed, command) = set_remote_extras extras s.command in
    (changed, touch_if changed (record s { command = command }))
