-- ===== src/Tests/Tasks.antt =====
-- Background tasks at concrete inputs.
use zj_radar.Prelude.{refl, arith, true, false, none, some, [], ◌∷◌, All}
use zj_radar.Core.Status.{Status}
use zj_radar.Core.Task.{TaskState, TaskUpdate, TaskBatch, BgTask, BgTasks, apply}
use zj_radar.Core.Task.Find.{find}
use zj_radar.Core.Task.Life.{IsListed}
use zj_radar.Core.Task.Apply.{
  IsWellFormed, Outlives, apply-IsWellFormed, apply-Outlives, apply_snapshot,
}

abbrev build : BgTask
build = record {
  id = "t1";
  label = "build";
  holds = true;
  state = TaskState.running;
  started_epoch_s = 5;
  ended_epoch_s = none;
}

abbrev lint : BgTask
lint = record {
  id = "t2";
  label = "lint";
  holds = false;
  state = TaskState.completed;
  started_epoch_s = 6;
  ended_epoch_s = some 9;
}

abbrev stored : BgTasks
stored = record { items = build ∷ lint ∷ []; waiting = false }

stored-IsWellFormed : IsWellFormed stored
unfolding find
stored-IsWellFormed = record {
  bounded = omega arith;
  unique = (refl, (refl, tt));
  stamped = (refl, (refl, tt));
  waits_for_work = λ h. absurd (cc h);
}

abbrev build_failed : TaskUpdate
build_failed = record { id = "t1"; state = TaskState.failed; label = ""; holds = true }

-- The build failed and is all that there is.
abbrev batch : TaskBatch
batch = record { items = build_failed ∷ []; snapshot = true }

apply-IsWellFormed_example :
    IsWellFormed (apply (some batch) (some Status.running) Status.running false 12 stored)
apply-IsWellFormed_example =
    apply-IsWellFormed (some Status.running) Status.running false 12 (some batch) stored
      stored-IsWellFormed

apply-Outlives_example :
    Outlives
      (find "t1" (apply (some batch) (some Status.running) Status.running false 12 stored).items)
      build
unfolding find
apply-Outlives_example =
    apply-Outlives (some Status.running) Status.running false 12 (some batch) stored "t1" build
      stored-IsWellFormed refl

-- The build is still at work, and is all that there is.
abbrev still_building : TaskBatch
still_building = record {
  items = record { id = "t1"; state = TaskState.running; label = "build"; holds = true } ∷ [];
  snapshot = true;
}

apply_snapshot_example :
    All
      (IsListed still_building.items)
      (apply (some still_building) (some Status.running) Status.running false 12 stored).items
apply_snapshot_example =
    apply_snapshot (some Status.running) Status.running false 12 still_building stored refl
