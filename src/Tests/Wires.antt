-- ===== src/Tests/Wires.antt =====
-- A payload that is printed and read back, with one background task.
use zj_radar.Prelude.{◌≡◌, refl, arith, String, true, some, [], ◌∷◌}
use zj_radar.Core.Status.{Status}
use zj_radar.Core.Task.{TaskState, TaskUpdate}
use zj_radar.Core.Payload.{StatusPayload, Raw, Json, parse}
use zj_radar.Core.Payload.Intake.{IsCleanPayload}
use zj_radar.Core.Payload.Printer.{Wire, to_wire}
use zj_radar.Core.Payload.Roundtrip.{parse-to_wire}

abbrev build_task : TaskUpdate
build_task = record { id = "t1"; state = TaskState.running; label = "build"; holds = true }

abbrev update : StatusPayload
update = record {
  pane_id = 7;
  status = Status.running;
  repo = "radar";
  branch = "main";
  msg = "editing";
  task = "fix";
  source = "claude";
  ack = true;
  tasks = some (record { items = build_task ∷ []; snapshot = true });
}

abbrev update_raw : Raw Unit
update_raw = record {
  pane = record { kind = "terminal"; id = 7 };
  status = Status.running;
  repo = "radar";
  branch = "main";
  msg = "editing";
  task = "fix";
  source = "claude";
  ack = true;
  tasks = some tt;
}

abbrev printed_json : Json
printed_json = record {
  Value = Unit;
  is_object = λ _. true;
  bool_at = λ _ _. some true;
  array_at = λ _ _. some (tt ∷ []);
  task_from_value =
      λ _. some (record { id = "t1"; state = TaskState.running; label = "build"; holds = true });
  raw_from_str = λ _. some update_raw;
}

abbrev printed : Wire → String
printed _ = "{}"

update-IsCleanPayload : IsCleanPayload update
unfolding zj_radar.Core.Sanitize.all_chars zj_radar.Core.Sanitize.kept
    zj_radar.Core.Sanitize.count_chars
update-IsCleanPayload = (
  (refl, omega arith),
  (refl, omega arith),
  (refl, omega arith),
  (refl, omega arith),
  (refl, omega arith),
  (((refl, (refl, omega arith), (refl, omega arith)), tt), omega arith),
)

parse-to_wire_example : parse printed_json (to_wire printed update) ≡ some update
unfolding zj_radar.Core.Sanitize.bytes to_wire zj_radar.Core.Payload.Roundtrip.raw_of
    zj_radar.Core.Sanitize.take_chars zj_radar.Core.Payload.Roundtrip.raw_task
parse-to_wire_example =
    parse-to_wire printed_json printed update (some tt) update-IsCleanPayload (omega arith) refl
      (refl, refl, refl)
