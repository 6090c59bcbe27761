-- ===== src/Plugin/Displays.antt =====
-- crates/plugin/src/rollup.rs: the panes of a tab, the rows that they are shown as, and the display
-- of the tab.
use zj_radar.Prelude.{
  eq_bool, ℕ, String, Bool, true, false, ◌&&◌, Option, none, some, List, [], ◌∷◌, str_eq, or_else,
  if◌then◌else◌,
}
use zj_radar.Prelude.Int.{ℤ}
use zj_radar.Core.Status.{Status, eq_status}
use zj_radar.Core.Kind.{Kind}
use zj_radar.Core.Task.{BgTasks, is_empty}
use zj_radar.Core.Text.{trim}
use zj_radar.Core.Observation.{ObservationOrigin}

pub record TerminalPane : Type 0 where
  pub id : ℕ
  pub title : String
  pub focused_in_tab : Bool
  pub floating : Bool

unfoldable pub focused_in : List TerminalPane → Bool → Option ℕ
focused_in [] floating = none
focused_in (p ∷ panes) floating =
    if p.focused_in_tab && eq_bool p.floating floating then some p.id else focused_in panes floating

unfoldable pub effective_focus : List TerminalPane → Bool → Option ℕ
effective_focus panes floating_visible =
    or_else (if floating_visible then focused_in panes true else none) (focused_in panes false)

pub data ExitOutcome : Type 0 where
  ok : ExitOutcome
  failed : Option ℤ → ExitOutcome

pub record PrimaryDetail : Type 0 where
  pub repo : String
  pub branch : String
  pub msg : String
  pub task : String
  pub since_tick : ℕ
  pub status : Status
  pub kind : Kind
  pub outcome : Option ExitOutcome
  pub pending_epoch_s : Option ℕ

-- The fields of `PaneDisplay::Tracked`.
pub record TrackedDisplay : Type 0 where
  pub pane_id : ℕ
  pub kind : Kind
  pub origin : ObservationOrigin
  pub status : Status
  pub msg : String
  pub task : String
  pub since_tick : ℕ
  pub outcome : Option ExitOutcome
  pub pending_epoch_s : Option ℕ
  pub acknowledged : Bool
  pub tasks : BgTasks

pub data PaneDisplay : Type 0 where
  tracked : TrackedDisplay → PaneDisplay
  untracked : (pane_id : ℕ) (title : String) → PaneDisplay
  interactive : (pane_id : ℕ) (kind : Kind) (msg : String) → PaneDisplay

-- `PaneDisplay::untracked`
unfoldable pub untracked_display : ℕ → String → PaneDisplay
untracked_display pane_id title =
    PaneDisplay.untracked pane_id (if str_eq (trim title) "" then "terminal" else title)

unfoldable pub earns_pane_line : PaneDisplay → Bool
earns_pane_line (PaneDisplay.tracked _) = true
earns_pane_line (PaneDisplay.untracked _ _) = false
earns_pane_line (PaneDisplay.interactive _ _ _) = true

unfoldable pub pane_id : PaneDisplay → ℕ
pane_id (PaneDisplay.tracked t) = t.pane_id
pane_id (PaneDisplay.untracked id _) = id
pane_id (PaneDisplay.interactive id _ _) = id

unfoldable pub status : PaneDisplay → Option Status
status (PaneDisplay.tracked t) = some t.status
status (PaneDisplay.untracked _ _) = none
status (PaneDisplay.interactive _ _ _) = none

unfoldable pub tasks : PaneDisplay → Option BgTasks
tasks (PaneDisplay.tracked t) = if is_empty t.tasks then none else some t.tasks
tasks (PaneDisplay.untracked _ _) = none
tasks (PaneDisplay.interactive _ _ _) = none

unfoldable pub is_waiting : PaneDisplay → Bool
is_waiting (PaneDisplay.tracked t) = eq_status t.status Status.running && t.tasks.waiting
is_waiting (PaneDisplay.untracked _ _) = false
is_waiting (PaneDisplay.interactive _ _ _) = false

pub record ProgressCounts : Type 0 where
  pub done : ℕ
  pub total : ℕ
  pub pending : ℕ

pub record TabDisplay : Type 0 where
  pub status : Status
  pub progress : ProgressCounts
  pub detail : Option PrimaryDetail
  pub panes : List PaneDisplay
  pub animating : Bool
  pub remote : Bool
  pub focused_pane : Option ℕ

pub record TabRow : Type 0 where
  pub number : ℕ
  pub name : String
  pub active : Bool
  pub has_bell : Bool
  pub flash : Bool
  pub display : TabDisplay

pub record LedgerLine : Type 0 where
  pub at_epoch_s : ℕ
  pub error : Bool
  pub tab_name : String
  pub label : String
  pub tab_position : Option ℕ
