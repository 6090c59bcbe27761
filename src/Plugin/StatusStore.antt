-- ===== src/Plugin/StatusStore.antt =====
-- crates/plugin/src/status_store.rs: the per-pane status observations, latest broadcast wins.
pub mod Evict
pub mod Consistent
pub mod Invariant
pub mod History
pub mod Clock
pub mod Grace
pub mod Broadcast
use zj_radar.Prelude.{
  ℕ, zero, suc, ◌-◌, Bool, true, false, not, ◌&&◌, ◌||◌, Option, none, some, List, [], ◌∷◌, ltb,
  leb, ◌==◌, str_eq, length, is_some_and, if◌then◌else◌,
}
use zj_radar.Prelude.PaneMap
use zj_radar.Prelude.PaneMap.{PaneMap}
use zj_radar.Core.Status.{Status, eq_status, is_active, is_completion}
use zj_radar.Core.Kind.{from_source}
use zj_radar.Core.Task
use zj_radar.Core.Task.{no_tasks}
use zj_radar.Core.Payload.{StatusPayload}
use zj_radar.Core.Observation.{
  ObservationOrigin, TrackedObservation, ObservationStore, dropped, any_observation, animating,
}

-- `core::pipe::RUNNING_QUIET_MAX_SECS`
abbrev pub running_suspect_grace_ticks : ℕ
running_suspect_grace_ticks = 15

abbrev pub max_tracked_panes : ℕ
max_tracked_panes = 256

pub record StatusStore : Type 0 where
  pub store : ObservationStore
  pub suspect_running : PaneMap ℕ

abbrev pub empty : StatusStore
empty = record { store = []; suspect_running = [] }

pub record Replaced : Type 0 where
  pub prev : Option TrackedObservation
  pub recedes : Bool

unfoldable pub receded : Replaced → Option TrackedObservation
receded r = if r.recedes then r.prev else none

-- `(o.last_change_tick, id)` in the order of the pairs.
abbrev pub age_lt : ℕ × TrackedObservation → ℕ × TrackedObservation → Bool
age_lt (i, a) (j, b) =
    ltb a.last_change_tick b.last_change_tick
    || (a.last_change_tick == b.last_change_tick && ltb i j)

unfoldable pub oldest_from : ℕ × TrackedObservation → ObservationStore → ℕ
oldest_from (i, o) [] = i
oldest_from (i, o) ((j, p) ∷ s) = oldest_from (if age_lt (j, p) (i, o) then (j, p) else (i, o)) s

unfoldable pub oldest : ObservationStore → Option ℕ
oldest [] = none
oldest (e ∷ s) = some (oldest_from e s)

unfoldable pub drop_pane : ℕ → StatusStore → StatusStore
drop_pane id s = record {
  store = PaneMap.remove id s.store;
  suspect_running = PaneMap.remove id s.suspect_running;
}

-- The loop of `evict_over_cap`, on fuel.
unfoldable pub evict_loop : ℕ → StatusStore → StatusStore
evict_loop zero s = s
evict_loop (suc fuel) s =
    if leb (length s.store) max_tracked_panes
    then s
    else elim (oldest s.store) [ none ↦ s | some id ↦ evict_loop fuel (drop_pane id s) ]

-- Each round takes a pane out, so as many rounds as there are panes are enough.
unfoldable pub evict_over_cap : StatusStore → StatusStore
evict_over_cap s = evict_loop (length s.store) s

-- An identical `(status, msg)` re-broadcast.
unfoldable pub identical : StatusPayload → Option TrackedObservation → Bool
identical p none = false
identical p (some s) = eq_status s.status p.status && str_eq s.msg p.msg

-- The stamp of the edge into a status: kept by an identical re-broadcast.
abbrev pub edge_stamp : Bool → Bool → Option ℕ → ℕ → Option ℕ
edge_stamp holds same old now = if holds then (if same then old else some now) else none

abbrev pub prev_field {ℓ} :
    {A : Type ℓ} → Option TrackedObservation → (TrackedObservation → A) → A → A
prev_field none f d = d
prev_field (some s) f d = f s

-- The observation that `apply` stores.
unfoldable pub applied : StatusPayload → ℕ → ℕ → Option TrackedObservation → TrackedObservation
unfolding identical
applied p tick now prev = record {
  origin = ObservationOrigin.status_pipe;
  status = p.status;
  repo = p.repo;
  branch = p.branch;
  msg = p.msg;
  task =
      if eq_status p.status Status.idle
      then ""
      else if str_eq p.task ""
      then prev_field prev (λ s. s.task) ""
      else p.task;
  kind = from_source p.source;
  last_change_tick =
      prev_field prev (λ s. if eq_status s.status p.status then s.last_change_tick else tick) tick;
  ever_active = is_active p.status || is_some_and prev (λ s. s.ever_active);
  exit_code = none;
  completed_epoch_s =
      edge_stamp (is_completion p.status) (identical p prev)
        (prev_field prev (λ s. s.completed_epoch_s) none) now;
  pending_epoch_s =
      edge_stamp (eq_status p.status Status.pending) (identical p prev)
        (prev_field prev (λ s. s.pending_epoch_s) none) now;
  acknowledged = p.ack;
  tasks =
      Task.apply p.tasks (prev_field prev (λ s. some s.status) none) p.status
        (not (str_eq p.task "")) now (prev_field prev (λ s. s.tasks) no_tasks);
}

unfoldable pub apply : StatusPayload → ℕ → ℕ → StatusStore → Replaced × StatusStore
unfolding applied
apply p tick now s =
    let prev = PaneMap.get p.pane_id s.store in
    (
      record {
        prev = prev;
        recedes = not (identical p prev) && is_some_and prev (λ o. is_completion o.status);
      },
      evict_over_cap (record {
        store = PaneMap.insert p.pane_id (applied p tick now prev) s.store;
        suspect_running = PaneMap.remove p.pane_id s.suspect_running;
      }),
    )

-- The idle overwrite behind the clear paths.
unfoldable pub idled : ℕ → TrackedObservation → TrackedObservation
idled tick old = record old {
  origin = ObservationOrigin.status_pipe;
  status = Status.idle;
  msg = "";
  task = "";
  last_change_tick = tick;
  ever_active = true;
  exit_code = none;
  completed_epoch_s = none;
  pending_epoch_s = none;
  acknowledged = false;
  tasks = no_tasks;
}

unfoldable pub force_idle : ℕ → ℕ → StatusStore → Option TrackedObservation × StatusStore
unfolding idled
force_idle pane_id tick s = elim (PaneMap.get pane_id s.store) [
  | none ↦ (none, s)
  | some old ↦ (some old, record s { store = PaneMap.insert pane_id (idled tick old) s.store })
]

unfoldable pub clear_on_prompt_return :
    ℕ → ℕ → StatusStore → Option TrackedObservation × StatusStore
unfolding force_idle
clear_on_prompt_return pane_id tick s = elim (PaneMap.get pane_id s.store) [
  | none ↦ (none, s)
  | some prev ↦
      if eq_status prev.status Status.running
      then (none, record s { suspect_running = PaneMap.or_insert pane_id tick s.suspect_running })
      else if eq_status prev.status Status.idle
      then (none, s)
      else force_idle pane_id tick s
]

unfoldable pub cancel_running_suspect : ℕ → StatusStore → StatusStore
cancel_running_suspect pane_id s = record s {
  suspect_running = PaneMap.remove pane_id s.suspect_running;
}

unfoldable pub clear_on_exit : ℕ → ℕ → StatusStore → Option TrackedObservation × StatusStore
unfolding cancel_running_suspect force_idle
clear_on_exit pane_id tick s =
    let t = cancel_running_suspect pane_id s in
    elim (PaneMap.get pane_id t.store) [
      | none ↦ (none, t)
      | some prev ↦
          if eq_status prev.status Status.idle then (none, t) else force_idle pane_id tick t
    ]

-- The panes whose grace clock has run out.
unfoldable pub due : ℕ → PaneMap ℕ → List ℕ
due now [] = []
due now ((id, since) ∷ m) =
    if leb running_suspect_grace_ticks (now - since) then id ∷ due now m else due now m

-- One round of the loop of `expire_stale_running`.
unfoldable pub expire_one : ℕ → ℕ → StatusStore → Bool × StatusStore
expire_one now pane_id s =
    let t = cancel_running_suspect pane_id s in
    if is_some_and (PaneMap.get pane_id t.store) (λ o. eq_status o.status Status.running)
    then (true, (force_idle pane_id now t).1)
    else (false, t)

unfoldable pub expire_all : ℕ → List ℕ → StatusStore → List ℕ × StatusStore
expire_all now [] s = ([], s)
expire_all now (id ∷ ids) s =
    let (hit, t) = expire_one now id s in
    let (cleared, u) = expire_all now ids t in (if hit then id ∷ cleared else cleared, u)

unfoldable pub expire_stale_running : ℕ → StatusStore → List ℕ × StatusStore
expire_stale_running now s = expire_all now (due now s.suspect_running) s

unfoldable pub prune : (ℕ → Bool) → StatusStore → List (ℕ × TrackedObservation) × StatusStore
prune live s = (
  dropped live s.store,
  record {
    store = PaneMap.retain live s.store;
    suspect_running = PaneMap.retain live s.suspect_running;
  },
)

unfoldable pub needs_ticks : StatusStore → Bool
needs_ticks s =
    not (elim s.suspect_running [ [] ↦ true | _ ∷ _ ↦ false ]) || any_observation animating s.store

unfoldable pub insert_snapshot_observation : ℕ → TrackedObservation → StatusStore → StatusStore
insert_snapshot_observation pane_id o s = record s { store = PaneMap.insert pane_id o s.store }
