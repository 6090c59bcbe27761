-- ===== src/Plugin/Rollup.antt =====
-- crates/plugin/src/rollup.rs: the panes of a tab and their observations, rolled up into the
-- display of the tab.
pub mod Order
pub mod Tally
pub mod Winner
use zj_radar.Prelude.{
  ℕ, ◌+◌, String, Bool, true, false, not, ◌&&◌, ◌||◌, Option, none, some, List, [], ◌∷◌, ◌++◌, ltb,
  unwrap_or, if◌then◌else◌,
}
use zj_radar.Core.Status.{Status, eq_status, rank, is_active}
use zj_radar.Core.Kind.{Kind, is_remote, is_steady}
use zj_radar.Core.Observation.{ObservationOrigin, TrackedObservation, animating}
use zj_radar.Plugin.Displays.{
  TerminalPane, ExitOutcome, PrimaryDetail, PaneDisplay, TabDisplay, untracked_display,
}

unfoldable pub pane_outcome : TrackedObservation → Option ExitOutcome
pane_outcome s = elim s.origin [
  | ObservationOrigin.status_pipe ↦ none
  | ObservationOrigin.command ↦ elim s.status [
    | Status.done ↦ some ExitOutcome.ok
    | Status.error ↦ some (ExitOutcome.failed s.exit_code)
    | Status.pending ↦ none
    | Status.running ↦ none
    | Status.idle ↦ none
  ]
]

-- The key of a row, `(status, !steady, tick)`; `Ord` on a tuple is lexicographic.
abbrev pub Key : Type 0
Key = ℕ × Bool × ℕ

unfoldable pub key : Status → Kind → ℕ → Key
key st k tick = (rank st, not (is_steady k), tick)

abbrev pub key_of : TrackedObservation → Key
key_of s = key s.status s.kind s.last_change_tick

abbrev pub detail_key : PrimaryDetail → Key
detail_key d = key d.status d.kind d.since_tick

unfoldable pub key_ge : Key → Key → Bool
key_ge (r, job, t) (r₂, job₂, t₂) =
    if ltb r₂ r
    then true
    else if ltb r r₂
    then false
    else if job && not job₂
    then true
    else if job₂ && not job
    then false
    else not (ltb t t₂)

unfoldable pub detail_of : TrackedObservation → PrimaryDetail
detail_of s = record {
  repo = s.repo;
  branch = s.branch;
  msg = s.msg;
  task = s.task;
  since_tick = s.last_change_tick;
  status = s.status;
  kind = s.kind;
  outcome = pane_outcome s;
  pending_epoch_s = s.pending_epoch_s;
}

unfoldable pub tracked_display : ℕ → TrackedObservation → PaneDisplay
tracked_display id s = PaneDisplay.tracked (record {
  pane_id = id;
  kind = s.kind;
  origin = s.origin;
  status = s.status;
  msg = s.msg;
  task = s.task;
  since_tick = s.last_change_tick;
  outcome = pane_outcome s;
  pending_epoch_s = s.pending_epoch_s;
  acknowledged = s.acknowledged;
  tasks = s.tasks;
})

-- `best` after one observation.
unfoldable pub challenge : TrackedObservation → Option PrimaryDetail → Option PrimaryDetail
challenge s best =
    if is_active s.status
    then elim best [
      | none ↦ some (detail_of s)
      | some d ↦ if key_ge (key_of s) (detail_key d) then some (detail_of s) else some d
    ]
    else best

-- The `let mut`s of `roll_up`.
pub record Acc : Type 0 where
  pub best : Option PrimaryDetail
  pub done : ℕ
  pub total : ℕ
  pub pending : ℕ
  pub animating : Bool
  pub remote : Bool
  pub displays : List PaneDisplay

-- `best.as_ref().map_or(Status::Idle, |d| d.status)`
abbrev pub detail_status : Option PrimaryDetail → Status
detail_status none = Status.idle
detail_status (some d) = d.status

abbrev pub start : Acc
start = record {
  best = none;
  done = 0;
  total = 0;
  pending = 0;
  animating = false;
  remote = false;
  displays = [];
}

abbrev pub bit : Bool → ℕ
bit b = if b then 1 else 0

-- The body of the loop of `roll_up`, for what `resolve` gave and the display of the pane.
unfoldable pub absorb : Option TrackedObservation → PaneDisplay → Acc → Acc
absorb none d a = record a { displays = a.displays ++ d ∷ [] }
absorb (some s) d a = record {
  best = challenge s a.best;
  done = a.done + bit (s.ever_active && eq_status s.status Status.done);
  total = a.total + bit s.ever_active;
  pending = a.pending + bit (s.ever_active && eq_status s.status Status.pending);
  animating = a.animating || animating s;
  remote = a.remote || is_remote s.kind && eq_status s.status Status.running;
  displays = a.displays ++ d ∷ [];
}

module _ (resolve : ℕ → Option TrackedObservation) (quiet : ℕ → Option (String × Kind)) where
  unfoldable pub quiet_face : ℕ → Option PaneDisplay
  quiet_face id = elim (quiet id) [
    | none ↦ none
    | some (msg, kind) ↦ some (PaneDisplay.interactive id kind msg)
  ]

  -- What one pane adds to `pane_displays`.
  unfoldable pub display : TerminalPane → PaneDisplay
  display pane = elim (resolve pane.id) [
    | none ↦ unwrap_or (quiet_face pane.id) (untracked_display pane.id pane.title)
    | some s ↦
        if s.ever_active
        then unwrap_or (if eq_status s.status Status.idle then quiet_face pane.id else none)
            (tracked_display pane.id s)
        else unwrap_or (quiet_face pane.id) (untracked_display pane.id pane.title)
  ]

  -- One iteration of the loop of `roll_up`.
  unfoldable pub roll_step : TerminalPane → Acc → Acc
  unfolding absorb
  roll_step pane a = absorb (resolve pane.id) (display pane) a

  unfoldable pub roll_loop : List TerminalPane → Acc → Acc
  roll_loop [] a = a
  roll_loop (pane ∷ panes) a = roll_loop panes (roll_step pane a)

  unfoldable pub roll_up : List TerminalPane → TabDisplay
  roll_up panes =
      let a = roll_loop panes start in
      record {
        status = detail_status a.best;
        progress = record { done = a.done; total = a.total; pending = a.pending };
        detail = a.best;
        panes = a.displays;
        animating = a.animating;
        remote = a.remote;
        focused_pane = none;
      }
