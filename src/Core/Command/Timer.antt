-- ===== src/Core/Command/Timer.antt =====
-- crates/core/src/command.rs: `CommandStore::on_timer`, which promotes, confirms ends and recedes.
-- The panes that are due are collected first and then walked, as the code does.
use zj_radar.Prelude.{
  ℕ, ◌-◌, Bool, true, false, not, ◌&&◌, ◌||◌, Option, none, some, List, [], ◌∷◌, ◌++◌, leb, str_eq,
  if◌then◌else◌,
}
use zj_radar.Prelude.PaneMap
use zj_radar.Prelude.PaneMap.{PaneMap}
use zj_radar.Core.Status.{Status, eq_status, is_completion}
use zj_radar.Core.Kind.{Kind}
use zj_radar.Core.Sanitize.{sanitize}
use zj_radar.Core.Observation.{
  TrackedObservation, ObservationStore, max_repo_chars, command_observation,
}
use zj_radar.Core.Observation.Equal.{eq_observation}
use zj_radar.Core.Command.{CommandStore, Pending, debounce_ticks, done_ttl_ticks, basename}

pub record TimerReport : Type 0 where
  pub changed : Bool
  pub receded : List (ℕ × TrackedObservation)
  pub completed : List (ℕ × Kind)

unfoldable pub due_pending : ℕ → PaneMap Pending → List ℕ
due_pending tick [] = []
due_pending tick ((id, p) ∷ m) =
    if p.promotable && leb debounce_ticks (tick - p.since_tick)
    then id ∷ due_pending tick m
    else due_pending tick m

-- The row of a promoted run. The same run, reported again, keeps its start.
unfoldable pub promoted : ℕ → Pending → Option TrackedObservation → TrackedObservation
promoted tick p prev =
    let obs =
      command_observation Status.running (sanitize (basename p.cwd) max_repo_chars) p.command p.kind
        tick in
    elim prev [
      | none ↦ obs
      | some q ↦
          if eq_status q.status Status.running && str_eq q.msg obs.msg
          then record obs { last_change_tick = q.last_change_tick }
          else obs
    ]

abbrev pub displaced : ℕ → Option TrackedObservation → List (ℕ × TrackedObservation)
displaced id none = []
displaced id (some q) = if is_completion q.status then (id, q) ∷ [] else []

unfoldable pub promote_one : ℕ → ℕ → TimerReport × CommandStore → TimerReport × CommandStore
promote_one tick id (r, s) = elim (PaneMap.get id s.pending) [
  | none ↦ (r, s)
  | some p ↦
      let prev = PaneMap.get id s.store in
      let obs = promoted tick p prev in
      (
        record r {
          changed = r.changed || elim prev [ none ↦ true | some q ↦ not (eq_observation q obs) ];
          receded = r.receded ++ displaced id prev;
        },
        record s { pending = PaneMap.remove id s.pending; store = PaneMap.insert id obs s.store },
      )
]

unfoldable pub promote_all : ℕ → List ℕ → TimerReport × CommandStore → TimerReport × CommandStore
promote_all tick [] a = a
promote_all tick (id ∷ ids) a = promote_all tick ids (promote_one tick id a)

unfoldable pub due_done : ℕ → PaneMap ℕ → List ℕ
due_done tick [] = []
due_done tick ((id, since) ∷ m) =
    if leb debounce_ticks (tick - since) then id ∷ due_done tick m else due_done tick m

unfoldable pub confirmed : ℕ → ℕ → TrackedObservation → TrackedObservation
confirmed tick now o = record o {
  status = Status.done;
  last_change_tick = tick;
  completed_epoch_s = some now;
}

unfoldable pub finish_one : ℕ → ℕ → ℕ → TimerReport × CommandStore → TimerReport × CommandStore
finish_one tick now id (r, s) =
    let t = record s { pending_done = PaneMap.remove id s.pending_done } in
    elim (PaneMap.get id s.store) [
      | none ↦ (r, t)
      | some o ↦
          if eq_status o.status Status.running
          then (
            record r { changed = true; completed = r.completed ++ (id, o.kind) ∷ [] },
            record t { store = PaneMap.insert id (confirmed tick now o) s.store },
          )
          else (r, t)
    ]

unfoldable pub finish_all : ℕ → ℕ → List ℕ → TimerReport × CommandStore → TimerReport × CommandStore
finish_all tick now [] a = a
finish_all tick now (id ∷ ids) a = finish_all tick now ids (finish_one tick now id a)

-- A completion that has been on show for the whole window.
unfoldable pub is_stale : ℕ → TrackedObservation → Bool
is_stale tick o = eq_status o.status Status.done && leb done_ttl_ticks (tick - o.last_change_tick)

unfoldable pub stale : ℕ → ObservationStore → List ℕ
stale tick [] = []
stale tick ((id, o) ∷ m) = if is_stale tick o then id ∷ stale tick m else stale tick m

unfoldable pub muted : ℕ → TrackedObservation → TrackedObservation
muted tick o = record o { status = Status.idle; last_change_tick = tick; completed_epoch_s = none }

unfoldable pub recede_one : ℕ → ℕ → TimerReport × CommandStore → TimerReport × CommandStore
recede_one tick id (r, s) = elim (PaneMap.get id s.store) [
  | none ↦ (r, s)
  | some o ↦ (
    record r { changed = true; receded = r.receded ++ (id, o) ∷ [] },
    record s { store = PaneMap.insert id (muted tick o) s.store },
  )
]

unfoldable pub recede_all : ℕ → List ℕ → TimerReport × CommandStore → TimerReport × CommandStore
recede_all tick [] a = a
recede_all tick (id ∷ ids) a = recede_all tick ids (recede_one tick id a)

abbrev pub no_report : TimerReport
no_report = record { changed = false; receded = []; completed = [] }

unfoldable pub on_timer : ℕ → ℕ → CommandStore → TimerReport × CommandStore
on_timer tick now s =
    let a = promote_all tick (due_pending tick s.pending) (no_report, s) in
    let b = finish_all tick now (due_done tick a.1.pending_done) a in
    recede_all tick (stale tick b.1.store) b
