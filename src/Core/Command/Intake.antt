-- ===== src/Core/Command/Intake.antt =====
-- crates/core/src/command.rs: `CommandStore::on_command_changed`. `str::to_lowercase` is a
-- parameter, `to_lowercase`.
use zj_radar.Prelude.{
  ℕ, String, Bool, not, ◌&&◌, ◌||◌, Option, List, str_eq, unwrap_or, if◌then◌else◌,
}
use zj_radar.Prelude.PaneMap
use zj_radar.Core.Text.{contains}
use zj_radar.Core.Kind.{Kind}
use zj_radar.Core.Command.{CommandStore, arm_tentative_done}
use zj_radar.Core.Command.Argv.{ignore_names, agent_names, effective_program}
use zj_radar.Core.Command.Rules.{classify}

-- `in_ignore_set`
unfoldable pub is_ignored : String → Bool
is_ignored name = contains ignore_names name || contains agent_names name

-- The command (if any) has left the foreground.
unfoldable pub left_foreground : ℕ → ℕ → CommandStore → CommandStore
left_foreground pane_id tick s =
    arm_tentative_done pane_id tick (record s { pending = PaneMap.remove pane_id s.pending })

-- A new run opens, under its display, kind and program.
unfoldable pub open_run :
    ℕ → String → Kind → String → Bool → String → ℕ → CommandStore → CommandStore
open_run pane_id command kind program interactive cwd tick s =
    let t =
      if interactive
      then arm_tentative_done pane_id tick s
      else record s { pending_done = PaneMap.remove pane_id s.pending_done } in
    record t {
      exited = PaneMap.remove pane_id t.exited;
      pending =
          PaneMap.insert pane_id
            (record {
              command = command;
              cwd = cwd;
              kind = kind;
              since_tick = tick;
              promotable = not interactive;
              program = program;
            })
            t.pending;
    }

module _ (to_lowercase : String → String) where
  unfoldable pub on_command_changed :
      ℕ → List String → Bool → Option String → ℕ → CommandStore → CommandStore
  on_command_changed pane_id argv is_foreground cwd tick s =
      let (command, name) = effective_program argv in
      let interactive = contains s.interactive name in
      if (not is_foreground && not interactive) || is_ignored name
      then left_foreground pane_id tick s
      else let (display, kind) = classify to_lowercase command in
        if str_eq display ""
        then s
        else open_run pane_id display (if contains s.remote_extras name then Kind.remote else kind)
            name interactive (unwrap_or cwd "") tick s
