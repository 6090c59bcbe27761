-- ===== src/Core/Observation/Equal.antt =====
-- crates/core/src/observation.rs and task.rs: `PartialEq` as derived.
use zj_radar.Prelude.{
  ℕ, Bool, true, false, ◌&&◌, Option, none, some, List, [], ◌∷◌, ◌==◌, str_eq, eq_bool,
}
use zj_radar.Prelude.Int.{eq_option_int}
use zj_radar.Core.Status.{eq_status}
use zj_radar.Core.Kind.{eq_kind}
use zj_radar.Core.Task.{BgTask, as_wire}
use zj_radar.Core.Observation.{TrackedObservation, origin_as_wire}

abbrev pub eq_option : Option ℕ → Option ℕ → Bool
eq_option none none = true
eq_option (some a) (some b) = a == b
eq_option none (some _) = false
eq_option (some _) none = false

-- The wire tokens of the states tell them apart.
unfoldable pub eq_task : BgTask → BgTask → Bool
eq_task a b =
    str_eq a.id b.id
    && str_eq a.label b.label
    && str_eq (as_wire a.state) (as_wire b.state)
    && eq_bool a.holds b.holds
    && a.started_epoch_s == b.started_epoch_s
    && eq_option a.ended_epoch_s b.ended_epoch_s

unfoldable pub eq_items : List BgTask → List BgTask → Bool
eq_items [] [] = true
eq_items (a ∷ ts) (b ∷ us) = eq_task a b && eq_items ts us
eq_items [] (_ ∷ _) = false
eq_items (_ ∷ _) [] = false

unfoldable pub eq_observation : TrackedObservation → TrackedObservation → Bool
eq_observation a b =
    str_eq (origin_as_wire a.origin) (origin_as_wire b.origin)
    && eq_status a.status b.status
    && str_eq a.repo b.repo
    && str_eq a.branch b.branch
    && str_eq a.msg b.msg
    && str_eq a.task b.task
    && eq_kind a.kind b.kind
    && a.last_change_tick == b.last_change_tick
    && eq_bool a.ever_active b.ever_active
    && eq_option_int a.exit_code b.exit_code
    && eq_option a.completed_epoch_s b.completed_epoch_s
    && eq_option a.pending_epoch_s b.pending_epoch_s
    && eq_bool a.acknowledged b.acknowledged
    && eq_items a.tasks.items b.tasks.items
    && eq_bool a.tasks.waiting b.tasks.waiting
