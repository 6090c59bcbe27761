-- ===== src/Core/Observation.antt =====
-- crates/core/src/observation.rs: the record of one pane and the map that both stores hold.
-- The serde halves are not modelled.
pub mod Store
pub mod Equal
use zj_radar.Prelude.{
  ℕ, String, Bool, true, false, not, ◌&&◌, ◌||◌, Option, none, some, List, [], ◌∷◌, map, str_eq,
  take, if◌then◌else◌,
}
use zj_radar.Prelude.Int.{ℤ}
use zj_radar.Prelude.PaneMap
use zj_radar.Prelude.PaneMap.{PaneMap}
use zj_radar.Core.Status.{Status, eq_status}
use zj_radar.Core.Kind.{Kind, is_steady}
use zj_radar.Core.Task.{
  BgTask, BgTasks, no_tasks, max_tasks, max_task_id_chars, max_task_label_chars,
}
use zj_radar.Core.Sanitize.{sanitize}

abbrev pub max_msg_chars : ℕ
max_msg_chars = 60

abbrev pub max_task_chars : ℕ
max_task_chars = 60

abbrev pub max_repo_chars : ℕ
max_repo_chars = 40

abbrev pub max_branch_chars : ℕ
max_branch_chars = 40

abbrev pub max_tab_name_chars : ℕ
max_tab_name_chars = 40

abbrev pub max_source_chars : ℕ
max_source_chars = 16

pub data ObservationOrigin : Type 0 where
  status_pipe command : ObservationOrigin

unfoldable pub origin_as_wire : ObservationOrigin → String
origin_as_wire ObservationOrigin.status_pipe = "status_pipe"
origin_as_wire ObservationOrigin.command = "command"

unfoldable pub origin_from_wire : String → Option ObservationOrigin
origin_from_wire s =
    if str_eq s "status_pipe"
    then some ObservationOrigin.status_pipe
    else if str_eq s "command"
    then some ObservationOrigin.command
    else none

pub record TrackedObservation : Type 0 where
  pub origin : ObservationOrigin
  pub status : Status
  pub repo : String
  pub branch : String
  pub msg : String
  pub task : String
  pub kind : Kind
  pub last_change_tick : ℕ
  pub ever_active : Bool
  pub exit_code : Option ℤ
  pub completed_epoch_s : Option ℕ
  pub pending_epoch_s : Option ℕ
  pub acknowledged : Bool
  pub tasks : BgTasks

-- `TrackedObservation::command`
unfoldable pub command_observation : Status → String → String → Kind → ℕ → TrackedObservation
command_observation status repo msg kind tick = record {
  origin = ObservationOrigin.command;
  status = status;
  repo = repo;
  branch = "";
  msg = msg;
  task = "";
  kind = kind;
  last_change_tick = tick;
  ever_active = true;
  exit_code = none;
  completed_epoch_s = none;
  pending_epoch_s = none;
  acknowledged = false;
  tasks = no_tasks;
}

unfoldable pub animating : TrackedObservation → Bool
animating o = eq_status o.status Status.running && not (is_steady o.kind)

unfoldable pub sanitize_task : BgTask → BgTask
sanitize_task t = record t {
  id = sanitize t.id max_task_id_chars;
  label = sanitize t.label max_task_label_chars;
}

-- `BgTasks::sanitize`
unfoldable pub sanitize_tasks : BgTasks → BgTasks
unfolding sanitize_task
sanitize_tasks ts = record ts { items = take max_tasks (map sanitize_task ts.items) }

unfoldable pub sanitized : TrackedObservation → TrackedObservation
sanitized o = record o {
  repo = sanitize o.repo max_repo_chars;
  branch = sanitize o.branch max_branch_chars;
  msg = sanitize o.msg max_msg_chars;
  task = sanitize o.task max_task_chars;
  tasks = sanitize_tasks o.tasks;
}

abbrev pub ObservationStore : Type 0
ObservationStore = PaneMap TrackedObservation

-- `insert` hands back what it displaced.
unfoldable pub insert :
    ℕ → TrackedObservation → ObservationStore → Option TrackedObservation × ObservationStore
insert pane_id o s = (PaneMap.get pane_id s, PaneMap.insert pane_id o s)

-- The entries that `prune` takes out.
unfoldable pub dropped : (ℕ → Bool) → ObservationStore → List (ℕ × TrackedObservation)
dropped live [] = []
dropped live ((id, o) ∷ s) = if live id then dropped live s else (id, o) ∷ dropped live s

unfoldable pub prune :
    (ℕ → Bool) → ObservationStore → List (ℕ × TrackedObservation) × ObservationStore
prune live s = (dropped live s, PaneMap.retain live s)

-- `any` over the values.
unfoldable pub any_observation : (TrackedObservation → Bool) → ObservationStore → Bool
any_observation p [] = false
any_observation p ((id, o) ∷ s) = p o || any_observation p s
