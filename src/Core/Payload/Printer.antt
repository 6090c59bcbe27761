-- ===== src/Core/Payload/Printer.antt =====
-- crates/core/src/payload.rs: `to_wire`, up to the text that serde_json prints. A `WireTask` has the
-- fields of an update.
use zj_radar.Prelude.{ℕ, String, Bool, ◌&&◌, not, Option, none, some, List, map, take, ltb, length}
use zj_radar.Core.Status.{Status}
use zj_radar.Core.Task.{TaskUpdate, TaskBatch, max_tasks, max_task_id_chars, max_task_label_chars}
use zj_radar.Core.Sanitize.{take_chars}
use zj_radar.Core.Payload.{StatusPayload}

abbrev pub max_wire_field_chars : ℕ
max_wire_field_chars = 512

abbrev pub status_version : ℕ
status_version = 1

pub record WireTasks : Type 0 where
  pub snapshot : Bool
  pub items : List TaskUpdate

pub record Wire : Type 0 where
  pub v : ℕ
  pub source : String
  pub pane_kind : String
  pub pane_id : ℕ
  pub status : Status
  pub repo : String
  pub branch : String
  pub msg : String
  pub task : String
  pub ack : Bool
  pub tasks : Option WireTasks

unfoldable pub cap_chars : String → ℕ → String
cap_chars s max_chars = take_chars max_chars s

unfoldable pub wire_task : TaskUpdate → TaskUpdate
unfolding cap_chars
wire_task t = record t {
  id = cap_chars t.id max_task_id_chars;
  label = cap_chars t.label max_task_label_chars;
}

unfoldable pub wire_tasks : Option TaskBatch → Option WireTasks
unfolding wire_task
wire_tasks none = none
wire_tasks (some b) = some (record {
  snapshot = b.snapshot && not (ltb max_tasks (length b.items));
  items = map wire_task (take max_tasks b.items);
})

unfoldable pub wire_of : StatusPayload → Wire
unfolding cap_chars wire_tasks
wire_of p = record {
  v = status_version;
  source = cap_chars p.source max_wire_field_chars;
  pane_kind = "terminal";
  pane_id = p.pane_id;
  status = p.status;
  repo = cap_chars p.repo max_wire_field_chars;
  branch = cap_chars p.branch max_wire_field_chars;
  msg = cap_chars p.msg max_wire_field_chars;
  task = cap_chars p.task max_wire_field_chars;
  ack = p.ack;
  tasks = wire_tasks p.tasks;
}

-- `serde_json::to_string` is a parameter.
unfoldable pub to_wire : (Wire → String) → StatusPayload → String
unfolding wire_of
to_wire to_string p = to_string (wire_of p)
