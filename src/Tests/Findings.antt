-- ===== src/Tests/Findings.antt =====
-- Two behaviours of the tab names and of the rows' memo, run at concrete inputs.
use zj_radar.Prelude.{
  ◌≡◌, refl, ℕ, ◌+◌, String, Bool, true, false, none, some, List, [], ◌∷◌, length, filter,
}
use zj_radar.Prelude.PaneMap
use zj_radar.Core.Kind.{Kind}
use zj_radar.Core.Observation
use zj_radar.Core.Command.{CommandStore}
use zj_radar.Core.Command.Extras
use zj_radar.Core.Command.Intake.{on_command_changed}
use zj_radar.Plugin.StatusStore
use zj_radar.Plugin.Displays.{TabRow, earns_pane_line}
use zj_radar.Plugin.TabNamer.{NamingMode, TabFacts, rename}
use zj_radar.Plugin.RadarState.{RadarState}
use zj_radar.Plugin.RadarState.Rows.{rows, rows_uncached}
use zj_radar.Plugin.RadarState.Panes.{panes_changed}
use zj_radar.Plugin.RadarState.Naming.{tabs_changed}
use zj_radar.Tests.Rails.{read_rail}

-- A name of more than 40 chars: the tab has what the sanitizer leaves of it, which is no candidate.
abbrev long_repo : String
long_repo = "a-repository-with-a-name-of-more-than-forty-chars"

abbrev long_name : String
long_name = "a-repository-with-a-name-of-more-than-fo"

abbrev two_panes : Bool → Bool → TabFacts
two_panes first second = record {
  id = 10;
  name = long_name;
  panes =
      record { repo = some long_repo; cwd = none; title = "zsh"; focused = first }
      ∷ record { repo = some "radar"; cwd = none; title = "zsh"; focused = second }
      ∷ [];
}

applied_test :
    (rename [] (record (two_panes true false) { name = "Tab #1" } ∷ []) NamingMode.managed).0
    ≡ (10, long_name) ∷ []
unfolding rename zj_radar.Core.Sanitize.sanitize zj_radar.Core.Sanitize.all_chars
    zj_radar.Core.Sanitize.kept zj_radar.Core.Sanitize.take_chars
    zj_radar.Plugin.TabNamer.is_default_name zj_radar.Plugin.TabNamer.is_numbered_placeholder
    zj_radar.Core.Text.strip_prefix zj_radar.Core.Text.same_char zj_radar.Core.Text.every_char
    zj_radar.Core.Text.is_digit
applied_test = refl

-- The focus moves to the other pane, and the name that the first pane still stands for goes.
sticky_test :
    (rename ((10, long_name) ∷ []) (two_panes false true ∷ []) NamingMode.managed).1
    ≡ record { id = 10; name = "radar" } ∷ []
unfolding rename zj_radar.Prelude.any zj_radar.Plugin.TabNamer.title_name zj_radar.Core.Text.trim
    zj_radar.Plugin.TabNamer.strip_activity_prefix zj_radar.Plugin.TabNamer.is_pane_placeholder
    zj_radar.Plugin.TabNamer.is_numbered_placeholder zj_radar.Core.Text.strip_prefix
    zj_radar.Core.Text.same_char zj_radar.Core.Sanitize.sanitize zj_radar.Core.Sanitize.all_chars
    zj_radar.Core.Sanitize.kept zj_radar.Core.Sanitize.take_chars
    zj_radar.Plugin.TabNamer.is_default_name
sticky_test = refl

-- An editor opens on the shell's pane: a run that is never promoted.
abbrev edited : CommandStore
edited = record Extras.empty {
  pending =
      (
        7,
        record {
          command = "vim";
          cwd = "";
          kind = Kind.command;
          since_tick = 4;
          promotable = false;
          program = "vim";
        },
      )
      ∷ [];
}

edited_test : on_command_changed (λ s. s) 7 ("vim" ∷ []) true none 4 Extras.empty ≡ edited
unfolding on_command_changed zj_radar.Core.Command.Intake.is_ignored zj_radar.Core.Text.contains
    zj_radar.Core.Command.Argv.effective_program zj_radar.Core.Command.Argv.argv_name
    zj_radar.Core.Command.Argv.effective_command zj_radar.Core.Command.Argv.peel
    zj_radar.Core.Command.Argv.is_peeled zj_radar.Core.Command.Argv.is_env_assignment
    zj_radar.Core.Text.split_once zj_radar.Core.Text.same_char zj_radar.Core.Command.basename
    zj_radar.Core.Command.Argv.is_option_arg zj_radar.Core.Text.starts_with
    zj_radar.Core.Command.Argv.program_name zj_radar.Core.Text.trim_dashes
    zj_radar.Core.Command.Rules.classify zj_radar.Core.Kind.is_agent zj_radar.Core.Kind.from_source
    zj_radar.Core.Sanitize.sanitize zj_radar.Core.Sanitize.all_chars
    zj_radar.Core.Command.Rules.is_python_interpreter zj_radar.Core.Command.Rules.apply_tool_rule
    zj_radar.Core.Command.Rules.operative_verb zj_radar.Core.Command.Argv.first_non_option
    zj_radar.Core.Sanitize.kept zj_radar.Core.Sanitize.take_chars
    zj_radar.Core.Command.Intake.open_run zj_radar.Core.Command.arm_tentative_done PaneMap.insert
    PaneMap.remove PaneMap.get zj_radar.Core.Command.Rules.rule_kind
edited_test = refl

-- `command_changed` does no more to the rail: this is no shell prompt and no agent.
abbrev edit_rail : RadarState
edit_rail = record read_rail { command = edited }

abbrev pane_lines : List TabRow → ℕ
pane_lines [] = 0
pane_lines (row ∷ more) = length (filter earns_pane_line row.display.panes) + pane_lines more

-- Its quiet line belongs on the rail, and the memo of the rows before it is still served.
quiet_line_test : pane_lines (rows_uncached edit_rail 4) ≡ 1
unfolding rows_uncached rows panes_changed zj_radar.Plugin.RadarState.Naming.cwd_bootstrap_targets
    zj_radar.Plugin.RadarState.Naming.rename_tabs zj_radar.Plugin.RadarState.note_focus
    zj_radar.Plugin.RadarState.focused_terminal_in_active_tab
    zj_radar.Plugin.RadarState.Recede.ledger_receded zj_radar.Core.Command.prune Observation.dropped
    tabs_changed zj_radar.Plugin.RadarState.eq_tabs StatusStore.prune
    zj_radar.Plugin.Displays.focused_in filter zj_radar.Plugin.Rollup.roll_loop
    zj_radar.Plugin.Rollup.roll_step earns_pane_line zj_radar.Plugin.Rollup.display
    zj_radar.Plugin.Rollup.quiet_face zj_radar.Core.Command.quiet_identity
quiet_line_test = refl

stale_rows_test : pane_lines (rows edit_rail 4).0 ≡ 0
unfolding rows panes_changed zj_radar.Plugin.RadarState.Naming.cwd_bootstrap_targets
    zj_radar.Plugin.RadarState.Naming.rename_tabs zj_radar.Plugin.RadarState.note_focus
    zj_radar.Plugin.RadarState.focused_terminal_in_active_tab
    zj_radar.Plugin.RadarState.Recede.ledger_receded zj_radar.Core.Command.prune Observation.dropped
    tabs_changed zj_radar.Plugin.RadarState.eq_tabs StatusStore.prune
    zj_radar.Plugin.Displays.focused_in filter zj_radar.Plugin.Rollup.roll_loop
    zj_radar.Plugin.Rollup.roll_step zj_radar.Plugin.Displays.earns_pane_line
    zj_radar.Plugin.Rollup.display zj_radar.Plugin.Rollup.quiet_face
    zj_radar.Core.Command.quiet_identity zj_radar.Plugin.Displays.untracked_display
stale_rows_test = refl
