-- ===== src/Core/Observation/Store.antt =====
-- crates/core/src/observation.rs: `ObservationStore::prune` by what a key reads, and the record
-- that is sanitized on load.
use zj_radar.Prelude.{
  ℕ, zero, suc, ◌+◌, ◌≡◌, refl, ap, Bool, none, List, [], ◌∷◌, map, arith, length, take,
  if◌then◌else◌,
}
use zj_radar.Prelude.PaneMap
use zj_radar.Prelude.PaneMap.{PaneMap, get-retain}
use zj_radar.Core.Task.{BgTask, BgTasks, max_tasks}
use zj_radar.Core.Sanitize.Laws.{sanitize_idem}
use zj_radar.Core.Observation.{
  TrackedObservation, ObservationStore, sanitize_task, sanitize_tasks, sanitized, dropped, prune,
}

-- Every drop comes back out: a pane that is not live is among the dropped entries with the
-- observation that it had, and no live pane is.
pub get-dropped :
    (live : ℕ → Bool) (k : ℕ) (s : ObservationStore)
    → PaneMap.get k (dropped live s) ≡ (if live k then none else PaneMap.get k s)
unfolding PaneMap.get dropped
get-dropped live k [] = ground arith
get-dropped live k ((id, o) ∷ s) = ground (arith, get-dropped live k s, λ (e : id ≡ k). ap live e)

length-dropped :
    (live : ℕ → Bool) (s : ObservationStore)
    → length (dropped live s) + length (PaneMap.retain live s) ≡ length s
unfolding PaneMap.retain dropped
length-dropped live [] = omega arith
length-dropped live ((id, o) ∷ s) = ground (arith, length-dropped live s)

-- `prune` splits the store: the live panes keep their observations, the others' come back out, and
-- nothing is lost or made up.
pub prune_splits :
    (live : ℕ → Bool) (k : ℕ) (s : ObservationStore)
    → (PaneMap.get k (prune live s).1 ≡ (if live k then PaneMap.get k s else none))
      × (PaneMap.get k (prune live s).0 ≡ (if live k then none else PaneMap.get k s))
      × (length (prune live s).0 + length (prune live s).1 ≡ length s)
unfolding prune
prune_splits live k s = (get-retain live k s, get-dropped live k s, length-dropped live s)

sanitize_task_idem : (t : BgTask) → sanitize_task (sanitize_task t) ≡ sanitize_task t
unfolding sanitize_task
sanitize_task_idem t = simp sanitize_idem

sanitize_items_idem :
    (n : ℕ) (ts : List BgTask)
    → take n (map sanitize_task (take n (map sanitize_task ts))) ≡ take n (map sanitize_task ts)
sanitize_items_idem zero ts = refl
sanitize_items_idem (suc n) [] = refl
sanitize_items_idem (suc n) (t ∷ ts) = cc (sanitize_task_idem t, sanitize_items_idem n ts)

sanitize_tasks_idem : (ts : BgTasks) → sanitize_tasks (sanitize_tasks ts) ≡ sanitize_tasks ts
unfolding sanitize_tasks
sanitize_tasks_idem ts =
    λ i. record { items = sanitize_items_idem max_tasks ts.items i; waiting = ts.waiting }

-- An observation that was sanitized once, at intake or on an earlier load, is a fixed point.
pub sanitized_idem : (o : TrackedObservation) → sanitized (sanitized o) ≡ sanitized o
unfolding sanitized
sanitized_idem o = simp (sanitize_idem, sanitize_tasks_idem)
