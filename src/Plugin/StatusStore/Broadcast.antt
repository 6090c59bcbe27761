-- ===== src/Plugin/StatusStore/Broadcast.antt =====
-- crates/plugin/src/status_store.rs: `StatusStore::apply` as its callers see it.
use text.Mathlib.TextPositions.{eq_refl}
use zj_radar.Prelude.{ℕ, ◌≡◌, refl, not, Option, none, some, arith, str_eq}
use zj_radar.Prelude.PaneMap
use zj_radar.Prelude.PaneMap.{PaneMap, get-remove}
use zj_radar.Core.Status.Wire.{eq_status_refl}
use zj_radar.Core.Task
use zj_radar.Core.Task.{no_tasks}
use zj_radar.Core.Task.Apply.{apply_no_batch_idem}
use zj_radar.Core.Payload.{StatusPayload}
use zj_radar.Core.Observation.{TrackedObservation}
use zj_radar.Plugin.StatusStore.{
  StatusStore, applied, prev_field, drop_pane, apply, expire_stale_running,
}
use zj_radar.Plugin.StatusStore.Invariant.{IsValid, apply-IsValid}
use zj_radar.Plugin.StatusStore.Evict.{evict_induction}
use zj_radar.Plugin.StatusStore.Consistent.{WasConsistent, prev_tasks-IsWellFormed}
use zj_radar.Plugin.StatusStore.Clock.{get-expire}

-- A broadcast cancels the pane's grace clock, whatever it reports.
no_clock-apply :
    (p : StatusPayload) (tick now : ℕ) (s : StatusStore)
    → IsValid s
    → PaneMap.get p.pane_id (apply p tick now s).1.suspect_running ≡ none
unfolding apply drop_pane
no_clock-apply p tick now s v =
    evict_induction (λ t. PaneMap.get p.pane_id t.suspect_running ≡ none)
      (λ w t l d m o h. ground (arith, h, get-remove w.0 p.pane_id t.suspect_running)) _
      (PaneMap.Distinct-insert p.pane_id _ s.store v.sound.distinct)
      (ground (arith, get-remove p.pane_id p.pane_id s.suspect_running))

-- In a valid store, a producer that has just spoken is never declared stale: a timer tick after
-- its broadcast, at whatever time, leaves its pane as the broadcast left it.
pub expire-apply :
    (p : StatusPayload) (tick now later : ℕ) (s : StatusStore)
    → IsValid s
    → PaneMap.get p.pane_id (expire_stale_running later (apply p tick now s).1).1.store
      ≡ PaneMap.get p.pane_id (apply p tick now s).1.store
expire-apply p tick now later s v =
    let t = (apply p tick now s).1 in
    rw (get-expire later p.pane_id t (apply-IsValid p tick now s v), no_clock-apply p tick now s v)
      (unticked (PaneMap.get p.pane_id t.store))
  where
    unticked : (o : Option TrackedObservation) → elim o [ none ↦ none | some q ↦ some q ] ≡ o
    unticked none = refl
    unticked (some q) = refl

rebroadcast_tasks :
    (p : StatusPayload) (now later : ℕ) (prev : Option TrackedObservation)
    → p.tasks ≡ none
    → WasConsistent prev
    → Task.apply p.tasks (some p.status) p.status (not (str_eq p.task "")) later (
        Task.apply p.tasks
          (prev_field prev (λ s. some s.status) none)
          p.status
          (not (str_eq p.task ""))
          now
          (prev_field prev (λ s. s.tasks) no_tasks))
      ≡ Task.apply p.tasks
          (prev_field prev (λ s. some s.status) none)
          p.status
          (not (str_eq p.task ""))
          now
          (prev_field prev (λ s. s.tasks) no_tasks)
rebroadcast_tasks p now later prev e h = rw e (
    apply_no_batch_idem (prev_field prev (λ s. some s.status) none) p.status
      (not (str_eq p.task "")) now later (prev_field prev (λ s. s.tasks) no_tasks)
      (prev_tasks-IsWellFormed p now later prev h))

-- A payload with no task batch that comes again, at any other time, leaves the observation as the
-- first one made it from a consistent one or from none: the stamps, the change tick, the label and
-- the tasks stay.
pub applied_again :
    (p : StatusPayload) (tick now tick' now' : ℕ) (prev : Option TrackedObservation)
    → p.tasks ≡ none
    → WasConsistent prev
    → applied p tick' now' (some (applied p tick now prev)) ≡ applied p tick now prev
unfolding applied
applied_again p tick now tick' now' prev e h =
    ground (arith, rebroadcast_tasks p now now' prev e h, eq_status_refl p.status, eq_refl p.msg)
