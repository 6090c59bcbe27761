-- ===== src/Core/Command.antt =====
-- crates/core/src/command.rs: the store of the panes that run a command. A set of names is a list
-- of them, read by `contains` only.
pub mod Argv
pub mod Remote
pub mod Rules
pub mod Intake
pub mod Rows
pub mod Confirm
pub mod Armed
pub mod Lifecycle
pub mod Extras
pub mod Timer
pub mod Exit
pub mod Recede
pub mod Level
use Prim.Native.Char.{code}
use Prim.Native.String.{◌∷◌ as cons_char, [] as no_chars}
use zj_radar.Prelude.{
  ℕ, String, Bool, true, false, not, ◌&&◌, ◌||◌, Option, none, some, List, [], ◌∷◌, ◌==◌, str_eq,
  is_some, is_some_and, if◌then◌else◌,
}
use zj_radar.Prelude.Int.{ℤ, eq_int, eq_option_int}
use zj_radar.Prelude.PaneMap
use zj_radar.Prelude.PaneMap.{PaneMap}
use zj_radar.Core.Status.{Status, eq_status, is_completion}
use zj_radar.Core.Kind.{Kind}
use zj_radar.Core.Sanitize.{sanitize}
use zj_radar.Core.Observation.{
  TrackedObservation, ObservationStore, max_repo_chars, command_observation, animating, dropped,
  any_observation,
}

abbrev pub debounce_ticks : ℕ
debounce_ticks = 2

abbrev pub done_ttl_ticks : ℕ
done_ttl_ticks = 60

pub record Pending : Type 0 where
  pub command : String
  pub cwd : String
  pub kind : Kind
  pub since_tick : ℕ
  pub promotable : Bool
  pub program : String

pub record CommandStore : Type 0 where
  pub store : ObservationStore
  pub pending : PaneMap Pending
  pub pending_done : PaneMap ℕ
  pub exited : PaneMap (Option ℤ)
  pub interactive : List String
  pub remote_extras : List String

-- `split('/')`
unfoldable pub segments : String → List String
segments no_chars = "" ∷ []
segments (cons_char c s) =
    let rest = segments s in
    if code c == 0x2f
    then "" ∷ rest
    else elim rest [ [] ↦ cons_char c "" ∷ [] | seg ∷ segs ↦ cons_char c seg ∷ segs ]

unfoldable pub last_named : List String → String
last_named [] = ""
last_named (seg ∷ segs) = let rest = last_named segs in if str_eq rest "" then seg else rest

unfoldable pub basename : String → String
unfolding segments last_named
basename s = last_named (segments s)

unfoldable pub arm_tentative_done : ℕ → ℕ → CommandStore → CommandStore
arm_tentative_done pane_id tick s =
    if is_some_and (PaneMap.get pane_id s.store) (λ o. eq_status o.status Status.running)
    then record s { pending_done = PaneMap.or_insert pane_id tick s.pending_done }
    else s

-- `new_status` of `on_exit`.
unfoldable pub exit_outcome : Option ℤ → Status
exit_outcome none = Status.done
exit_outcome (some code) = if eq_int code (ℤ.pos 0) then Status.done else Status.error

-- The row of a run that ends, under the identity of the pending run if there is one.
unfoldable pub relabelled : Option Pending → TrackedObservation → TrackedObservation
relabelled none o = o
relabelled (some p) o = record o {
  repo = sanitize (basename p.cwd) max_repo_chars;
  msg = p.command;
  kind = p.kind;
}

unfoldable pub finished : Option ℤ → ℕ → ℕ → TrackedObservation → TrackedObservation
finished exit_status tick now o = record o {
  status = exit_outcome exit_status;
  last_change_tick = tick;
  exit_code = exit_status;
  completed_epoch_s = some now;
}

-- The row that an exit leaves on a pane.
unfoldable pub exit_row :
    Option TrackedObservation → Option Pending → Option ℤ → ℕ → ℕ → TrackedObservation
exit_row (some o) p exit_status tick now = finished exit_status tick now (relabelled p o)
exit_row none p exit_status tick now =
    finished exit_status tick now
      (relabelled p (command_observation (exit_outcome exit_status) "" "" Kind.command tick))

-- What `on_exit` does once its guards have let the exit through.
unfoldable pub exit_accepted :
    ℕ → Option ℤ → ℕ → ℕ → CommandStore → Option TrackedObservation × CommandStore
exit_accepted pane_id exit_status tick now s =
    let prev = PaneMap.get pane_id s.store in
    let row = exit_row prev (PaneMap.get pane_id s.pending) exit_status tick now in
    (
      elim prev [ none ↦ none | some o ↦ if is_completion o.status then some o else none ],
      record s {
        store = PaneMap.insert pane_id row s.store;
        pending = PaneMap.remove pane_id s.pending;
        pending_done = PaneMap.remove pane_id s.pending_done;
        exited = PaneMap.insert pane_id exit_status s.exited;
      },
    )

-- `exited.get(&pane_id) == Some(&exit_status)`
unfoldable pub already_exited : ℕ → Option ℤ → CommandStore → Bool
already_exited pane_id exit_status s =
    is_some_and (PaneMap.get pane_id s.exited) (λ code. eq_option_int code exit_status)

-- The row is a completion with this outcome and this code.
unfoldable pub shows : Option ℤ → TrackedObservation → Bool
shows exit_status o =
    eq_status o.status (exit_outcome exit_status) && eq_option_int o.exit_code exit_status

-- The replay guards: no run is pending, and the row has receded, or shows this very outcome.
unfoldable pub already_receded : ℕ → CommandStore → Bool
already_receded pane_id s =
    not (is_some (PaneMap.get pane_id s.pending))
    && is_some_and (PaneMap.get pane_id s.store) (λ o. eq_status o.status Status.idle)

unfoldable pub already_shown : ℕ → Option ℤ → CommandStore → Bool
already_shown pane_id exit_status s =
    not (is_some (PaneMap.get pane_id s.pending))
    && is_some_and (PaneMap.get pane_id s.store) (shows exit_status)

unfoldable pub primed : ℕ → Option ℤ → CommandStore → CommandStore
primed pane_id exit_status s = record s { exited = PaneMap.insert pane_id exit_status s.exited }

unfoldable pub on_exit :
    ℕ → Option ℤ → ℕ → ℕ → CommandStore → Option TrackedObservation × CommandStore
on_exit pane_id exit_status tick now s =
    if already_exited pane_id exit_status s
    then (none, s)
    else if already_receded pane_id s
    then (none, s)
    else if already_shown pane_id exit_status s
    then (none, primed pane_id exit_status s)
    else exit_accepted pane_id exit_status tick now s

unfoldable pub prune : (ℕ → Bool) → CommandStore → List (ℕ × TrackedObservation) × CommandStore
prune live s = (
  dropped live s.store,
  record s {
    store = PaneMap.retain live s.store;
    pending = PaneMap.retain live s.pending;
    pending_done = PaneMap.retain live s.pending_done;
    exited = PaneMap.retain live s.exited;
  },
)

unfoldable pub insert_snapshot_observation : ℕ → TrackedObservation → CommandStore → CommandStore
insert_snapshot_observation pane_id o s = record s { store = PaneMap.insert pane_id o s.store }

unfoldable pub any_promotable : PaneMap Pending → Bool
any_promotable [] = false
any_promotable ((id, p) ∷ m) = p.promotable || any_promotable m

unfoldable pub needs_ticks : CommandStore → Bool
needs_ticks s =
    any_promotable s.pending
    || not (elim s.pending_done [ [] ↦ true | _ ∷ _ ↦ false ])
    || any_observation animating s.store

unfoldable pub has_done_awaiting_recede : CommandStore → Bool
has_done_awaiting_recede s = any_observation (λ o. eq_status o.status Status.done) s.store

unfoldable pub quiet_identity : ℕ → CommandStore → Option (String × Kind)
quiet_identity pane_id s = elim (PaneMap.get pane_id s.pending) [
  | none ↦ none
  | some p ↦ if p.promotable then none else some (p.command, p.kind)
]
