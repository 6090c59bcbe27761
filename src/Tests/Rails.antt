-- ===== src/Tests/Rails.antt =====
-- The rail at concrete inputs: two tabs, one with a shell and one with an agent.
use zj_radar.Prelude.{ℕ, ◌≡◌, refl, Bool, true, false, none, some, List, [], ◌∷◌, and_then, arith}
use zj_radar.Prelude.PaneMap
use zj_radar.Core.Status.{Status}
use zj_radar.Core.Kind.{Kind}
use zj_radar.Core.Sanitize.{sanitize, all_chars, kept, take_chars}
use zj_radar.Core.Observation
use zj_radar.Core.Observation.{ObservationOrigin, TrackedObservation, command_observation}
use zj_radar.Core.Command.Extras
use zj_radar.Plugin.StatusStore
use zj_radar.Plugin.Displays.{TerminalPane}
use zj_radar.Plugin.TabNamer.{NamingMode, TabFacts, rename}
use zj_radar.Plugin.TabNamer.Echo.{IsIntake, IsRecorded, echo, rename-echo}
use zj_radar.Plugin.RadarState.{RadarState, RadarTab, has_id, resolve}
use zj_radar.Plugin.RadarState.Rows.{rows, rows_uncached}
use zj_radar.Plugin.RadarState.Views.{notify_views, get-notify_views}
use zj_radar.Plugin.RadarState.Run.{RailRun, rows-run}
use zj_radar.Plugin.RadarState.Panes.{panes_changed}
use zj_radar.Plugin.RadarState.Update.{PaneUpdate}
use zj_radar.Plugin.RadarState.Naming.{tabs_changed}
use zj_radar.Plugin.RadarState.Snapshot.{Serde, RadarSnapshot, merged, load, to_json}
use zj_radar.Plugin.RadarState.Snapshot.Roundtrip.{lookup, latest, load-to_json}
use zj_radar.Plugin.RadarState.Cycle.{Direction, attention_members, cycle_attention}
use zj_radar.Plugin.RadarState.Cycle.Target.{IsNext, cycle_attention-IsNext}

abbrev empty_rail : RadarState
empty_rail = record {
  status = StatusStore.empty;
  command = Extras.empty;
  tabs = [];
  tab_panes = [];
  pane_cwd = [];
  namer = [];
  naming_tab_id = none;
  naming_tab_position = none;
  last_focused = none;
  live_panes = none;
  cwd_bootstrap_attempted = [];
  ledger = [];
  flash_until = [];
  absent_once = [];
  generation = 0;
  rows_memo = none;
  ledger_memo = none;
}

abbrev shell_tab : RadarTab
shell_tab = record {
  id = 10;
  position = 0;
  name = "Tab #1";
  active = true;
  has_bell = false;
  floating_visible = false;
}

abbrev shell_pane : TerminalPane
shell_pane = record { id = 7; title = "zsh"; focused_in_tab = true; floating = false }

abbrev first_panes : PaneUpdate Bool
first_panes = record {
  tab_panes = (0, shell_pane ∷ []) ∷ [];
  live = 7 ∷ [];
  theme = none;
  exits = [];
}

-- One tab, its panes, a read, two ticks, and another read.
abbrev tab_rail : RadarState
tab_rail = (tabs_changed (shell_tab ∷ []) empty_rail).1

abbrev pane_rail : RadarState
pane_rail = (panes_changed first_panes 3 1000 NamingMode.managed tab_rail).1

abbrev pub read_rail : RadarState
read_rail = (rows pane_rail 3).1

first_run : RailRun 5 read_rail
first_run = RailRun.waited 5 (omega arith) (
    RailRun.rows_read (
      RailRun.panes_update first_panes 1000 NamingMode.managed (
        RailRun.waited 3 (omega arith)
          (RailRun.tabs_update (shell_tab ∷ []) (RailRun.started empty_rail refl)))))

rows-run_example : (rows read_rail 5).0 ≡ rows_uncached read_rail 5
rows-run_example = rows-run 5 read_rail first_run

-- An agent that a manifest lacks, and the later ones too.
abbrev agent : TrackedObservation
agent = record (command_observation Status.running "radar" "editing" Kind.claude 3) {
  origin = ObservationOrigin.status_pipe;
}

abbrev agent_rail : RadarState
agent_rail = record pane_rail { status = record { store = (8, agent) ∷ []; suspect_running = [] } }

abbrev absences : List (PaneUpdate Bool × (ℕ × ℕ))
absences =
    (first_panes, (4, 1001))
    ∷ (record first_panes { live = 7 ∷ 8 ∷ [] }, (5, 1002))
    ∷ (first_panes, (6, 1003))
    ∷ (first_panes, (7, 1004))
    ∷ []

cycle_attention-IsNext_example :
    IsNext 2
      (attention_members
        ((4, Status.pending) ∷ (2, Status.done) ∷ (3, Status.running) ∷ (0, Status.error) ∷ []))
      (cycle_attention
        ((4, Status.pending) ∷ (2, Status.done) ∷ (3, Status.running) ∷ (0, Status.error) ∷ [])
        (some 2)
        Direction.next)
cycle_attention-IsNext_example =
    cycle_attention-IsNext
      ((4, Status.pending) ∷ (2, Status.done) ∷ (3, Status.running) ∷ (0, Status.error) ∷ []) 2

abbrev facts : List TabFacts
facts =
    record {
      id = 10;
      name = "Tab #1";
      panes = record { repo = some "radar"; cwd = none; title = "zsh"; focused = true } ∷ [];
    }
    ∷ record { id = 11; name = "notes"; panes = [] }
    ∷ []

facts-IsIntake : IsIntake facts
unfolding sanitize all_chars kept take_chars
facts-IsIntake = (refl, (refl, tt))

rename-echo_example :
    IsRecorded (rename [] facts NamingMode.managed)
    × ((rename
          (rename [] facts NamingMode.managed).0
          (echo (rename [] facts NamingMode.managed).1 facts)
          NamingMode.managed).1
        ≡ [])
rename-echo_example = rename-echo NamingMode.managed [] facts ((refl, tt), (tt, tt)) facts-IsIntake

-- A record that serde writes as one text and reads back.
abbrev written : RadarSnapshot
written = record { v = 3; tick = 5; observations = (8, agent) ∷ []; ledger = [] }

abbrev serde : Serde
serde = record {
  version_from_str = λ _. some 3;
  radar_from_str = λ _. some written;
  legacy_from_str = λ _. none;
  radar_to_string = λ _. some "{}";
}

load-to_json_example :
    and_then
      (load serde (to_json serde ((8, agent) ∷ []) (some (7 ∷ 8 ∷ [])) (some "{}") 4 []))
      (λ l. lookup 8 ObservationOrigin.status_pipe l.0)
    ≡ some (Observation.sanitized agent)
unfolding merged load has_id zj_radar.Plugin.Ledger.merge zj_radar.Prelude.any Observation.sanitized
    latest
load-to_json_example =
    load-to_json serde ((8, agent) ∷ []) (some (7 ∷ 8 ∷ [])) (some "{}") 4 [] "{}" 8
      ObservationOrigin.status_pipe refl refl refl

get-notify_views_example : PaneMap.get 8 (notify_views agent_rail) ≡ resolve agent_rail 8
get-notify_views_example = get-notify_views agent_rail 8
