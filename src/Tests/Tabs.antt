-- ===== src/Tests/Tabs.antt =====
-- A tab with an agent that asks, a shell and an editor, at a concrete input.
use zj_radar.Prelude.{
  ℕ, ◌+◌, ◌≤◌, ◌≡◌, ◌↔◌, refl, String, true, false, Option, none, some, List, [], ◌∷◌, map, any,
  length, ◌==◌, if◌then◌else◌,
}
use zj_radar.Prelude.PaneMap
use zj_radar.Prelude.PaneMap.{PaneMap}
use zj_radar.Core.Status.{Status}
use zj_radar.Core.Kind.{Kind}
use zj_radar.Core.Observation.{
  ObservationOrigin, TrackedObservation, command_observation, animating,
}
use zj_radar.Plugin.NotifyRules.{NotifyConfig, diff, status_map}
use zj_radar.Plugin.NotifyRules.Diff.{about, diff-status_map}
use zj_radar.Plugin.NotifyRules.News.{IsNews, diff-IsNews}
use zj_radar.Plugin.Displays.{TerminalPane}
use zj_radar.Plugin.Rollup.{display, roll_up}
use zj_radar.Plugin.Rollup.Tally.{
  observed, count, is_done, is_seen, is_pending, is_connected, roll_up-tally, roll_up-counts,
}

abbrev agent : TrackedObservation
agent = record (command_observation Status.pending "radar" "may I?" Kind.claude 9) {
  origin = ObservationOrigin.status_pipe;
  pending_epoch_s = some 1006;
}

abbrev build_done : TrackedObservation
build_done = record (command_observation Status.done "radar" "cargo build" Kind.command 8) {
  completed_epoch_s = some 1005;
}

abbrev current : PaneMap TrackedObservation
current = (1, agent) ∷ (2, build_done) ∷ []

abbrev terminal : ℕ → TerminalPane
terminal id = record { id = id; title = "~"; focused_in_tab = id == 1; floating = false }

abbrev panes : List TerminalPane
panes = terminal 1 ∷ terminal 2 ∷ terminal 3 ∷ []

resolve : ℕ → Option TrackedObservation
resolve k = PaneMap.get k current

abbrev quiet : ℕ → Option (String × Kind)
quiet k = if k == 3 then some ("nvim", Kind.command) else none

roll_up-tally_example :
    let ss = observed resolve quiet panes in
    let r = roll_up resolve quiet panes in
    (r.progress
      ≡ record { done = count is_done ss; total = count is_seen ss; pending = count is_pending ss })
    × (r.animating ≡ any animating ss)
    × (r.remote ≡ any is_connected ss)
    × (r.panes ≡ map (display resolve quiet) panes)
roll_up-tally_example = roll_up-tally resolve quiet panes

roll_up-counts_example :
    let p = (roll_up resolve quiet panes).progress in
    (p.done + p.pending ≤ p.total) × (p.total ≤ length panes)
roll_up-counts_example = roll_up-counts resolve quiet panes

abbrev cfg : NotifyConfig
cfg = record {
  notify = true;
  notify_done = true;
  notify_error = true;
  notify_pending = true;
  notify_remote = false;
  notify_when_focused = false;
}

-- The build ended in a pane that is not in focus.
diff-IsNews_example :
    (any (about 2) (diff [] current (some 1) cfg) ≡ true) ↔ IsNews [] 2 build_done (some 1) cfg
unfolding PaneMap.get
diff-IsNews_example = diff-IsNews [] (some 1) cfg 2 current build_done (refl, (refl, tt)) refl

diff-status_map_example : diff (status_map current) current none cfg ≡ []
unfolding PaneMap.get
diff-status_map_example = diff-status_map none cfg current (refl, (refl, tt))
