-- ===== src/Plugin/StatusStore/Consistent.antt =====
-- crates/plugin/src/status_store.rs: when the fields of one observation agree.
use zj_radar.Prelude.{ℕ, ◌≡◌, refl, true, Option, none, some, [], arith, is_some}
use zj_radar.Core.Status.{Status, eq_status, is_active, is_completion}
use zj_radar.Core.Status.Wire.{eq_status_iff}
use zj_radar.Core.Task
use zj_radar.Core.Task.{no_tasks}
use zj_radar.Core.Task.Apply.{IsWellFormed, no_tasks-IsWellFormed, apply-IsWellFormed}
use zj_radar.Core.Payload.{StatusPayload}
use zj_radar.Core.Observation.{ObservationOrigin, TrackedObservation}
use zj_radar.Plugin.StatusStore.{applied, idled, prev_field}

pub record IsConsistent (o : TrackedObservation) : Type 0 where
  pub from_pipe : o.origin ≡ ObservationOrigin.status_pipe
  pub completed : is_some o.completed_epoch_s ≡ is_completion o.status
  pub pending : is_some o.pending_epoch_s ≡ eq_status o.status Status.pending
  pub active : is_active o.status ≡ true → o.ever_active ≡ true
  pub idle_blank : o.status ≡ Status.idle → (o.task ≡ "") × (o.tasks.items ≡ [])
  pub tasks : IsWellFormed o.tasks

-- What `apply` finds under the pane.
abbrev pub WasConsistent : Option TrackedObservation → Type 0
WasConsistent none = Unit
WasConsistent (some o) = IsConsistent o

module _ (p : StatusPayload) (tick now : ℕ) where
  pub prev_tasks-IsWellFormed :
      (prev : Option TrackedObservation)
      → WasConsistent prev
      → IsWellFormed (prev_field prev (λ s. s.tasks) no_tasks)
  prev_tasks-IsWellFormed none h = no_tasks-IsWellFormed
  prev_tasks-IsWellFormed (some o) h = h.tasks

  completed-applied :
      (prev : Option TrackedObservation)
      → WasConsistent prev
      → is_some (applied p tick now prev).completed_epoch_s ≡ is_completion p.status
  unfolding applied is_completion
  completed-applied none h = ground arith
  completed-applied (some o) h = ground (arith, h.completed, eq_status_iff o.status p.status)

  pending-applied :
      (prev : Option TrackedObservation)
      → WasConsistent prev
      → is_some (applied p tick now prev).pending_epoch_s ≡ eq_status p.status Status.pending
  unfolding applied
  pending-applied none h = ground arith
  pending-applied (some o) h = ground (arith, h.pending, eq_status_iff o.status p.status)

  -- A broadcast stores a consistent observation over a consistent one, or over none.
  pub applied-IsConsistent :
      (prev : Option TrackedObservation)
      → WasConsistent prev
      → IsConsistent (applied p tick now prev)
  applied-IsConsistent prev h = record {
    from_pipe = unfold applied in refl;
    completed = unfold applied in completed-applied prev h;
    pending = unfold applied in pending-applied prev h;
    active = unfold applied in ground arith;
    idle_blank = unfold applied Task.apply eq_status in ground arith;
    tasks =
        unfold applied in
        apply-IsWellFormed _ p.status _ now p.tasks _ (prev_tasks-IsWellFormed prev h);
  }

pub idled-IsConsistent : (tick : ℕ) (o : TrackedObservation) → IsConsistent (idled tick o)
unfolding idled is_completion eq_status
idled-IsConsistent tick o = record {
  from_pipe = refl;
  completed = refl;
  pending = refl;
  active = λ h. refl;
  idle_blank = λ h. (refl, refl);
  tasks = no_tasks-IsWellFormed;
}
