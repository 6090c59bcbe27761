-- ===== src/Tests/Commands.antt =====
-- Command panes at concrete inputs: a build that failed, one that is done, and a pending run.
use zj_radar.Prelude.{◌≡◌, refl, arith, true, none, some, [], ◌∷◌}
use zj_radar.Prelude.Int.{ℤ}
use zj_radar.Prelude.PaneMap
use zj_radar.Core.Status.{Status, eq_status, is_completion}
use zj_radar.Core.Kind.{Kind}
use zj_radar.Core.Observation.{TrackedObservation, command_observation}
use zj_radar.Core.Command.{CommandStore, Pending, on_exit}
use zj_radar.Core.Command.Intake.{is_ignored, on_command_changed}
use zj_radar.Core.Command.Argv.{effective_program}
use zj_radar.Core.Command.Armed.{timers}
use zj_radar.Core.Command.Lifecycle.{leaving-done}
use zj_radar.Core.Command.Extras.{default_interactive}
use zj_radar.Core.Command.Timer.{confirmed, on_timer}
use zj_radar.Core.Command.Exit.{on_exit_replay}
use zj_radar.Core.Command.Recede.{IsAccounted, on_timer-IsAccounted}

abbrev failed_build : TrackedObservation
failed_build = record (command_observation Status.error "radar" "cargo build" Kind.command 3) {
  exit_code = some (ℤ.pos 101);
  completed_epoch_s = some 1000;
}

abbrev done_test : TrackedObservation
done_test = record (command_observation Status.done "radar" "cargo test" Kind.command 4) {
  exit_code = some (ℤ.pos 0);
  completed_epoch_s = some 1001;
}

-- The next build, in the foreground since tick 60.
abbrev rebuild : Pending
rebuild = record {
  command = "cargo build";
  cwd = "/src/radar";
  kind = Kind.command;
  since_tick = 60;
  promotable = true;
  program = "cargo";
}

abbrev panes : CommandStore
panes = record {
  store = (1, failed_build) ∷ (2, done_test) ∷ [];
  pending = (1, rebuild) ∷ [];
  pending_done = [];
  exited = [];
  interactive = default_interactive;
  remote_extras = [];
}

on_exit_replay_example :
    let t = (on_exit 1 (some (ℤ.pos 0)) 61 1100 panes).1 in
    on_exit 1 (some (ℤ.pos 0)) 70 1200 t ≡ (none, t)
on_exit_replay_example = on_exit_replay 1 (some (ℤ.pos 0)) 61 1100 70 1200 panes

on_timer-IsAccounted_example : IsAccounted 1 failed_build (on_timer 64 1100 panes)
unfolding PaneMap.get is_completion command_observation
on_timer-IsAccounted_example = on_timer-IsAccounted 1 failed_build 64 1100 panes refl refl

-- A build that runs, and the shell in the foreground again.
abbrev running_build : TrackedObservation
running_build = command_observation Status.running "radar" "cargo build" Kind.command 60

abbrev building : CommandStore
building = record panes { store = (1, running_build) ∷ []; pending = [] }

shell_ignored : is_ignored (effective_program ("zsh" ∷ [])).1 ≡ true
unfolding is_ignored zj_radar.Core.Text.contains effective_program
    zj_radar.Core.Command.Argv.argv_name zj_radar.Core.Command.Argv.effective_command
    zj_radar.Core.Command.Argv.peel zj_radar.Core.Command.Argv.is_peeled
    zj_radar.Core.Command.Argv.is_env_assignment zj_radar.Core.Text.split_once
    zj_radar.Core.Text.same_char zj_radar.Core.Command.basename
    zj_radar.Core.Command.Argv.is_option_arg zj_radar.Core.Text.starts_with
    zj_radar.Core.Command.Argv.program_name zj_radar.Core.Text.trim_dashes
shell_ignored = refl

leaving-done_example :
    (PaneMap.get 1
        (timers
          ((71, 1299) ∷ [])
          (on_command_changed (λ s. s) 1 ("zsh" ∷ []) true none 70 building)).store
      ≡ some running_build)
    × (PaneMap.get 1
          (on_timer 72 1300 (
            timers
              ((71, 1299) ∷ [])
              (on_command_changed (λ s. s) 1 ("zsh" ∷ []) true none 70 building))).1.store
        ≡ some (confirmed 72 1300 running_build))
unfolding PaneMap.get eq_status command_observation
leaving-done_example =
    leaving-done (λ s. s) 1 ("zsh" ∷ []) true none 70 ((71, 1299) ∷ []) 72 1300 building
      running_build (refl, tt) tt refl refl refl shell_ignored (omega arith, tt) (omega arith)
