-- ===== src/Plugin/RadarState.antt =====
-- crates/plugin/src/radar_state.rs: the session's tabs, panes and observations. A `TabId` is its
-- number, a hash set of pane ids is a list that is only asked for its members, and the two
-- `RefCell`s are fields. `generation` is a number that does not wrap.
pub mod Cycle
pub mod Rows
pub mod Memo
pub mod Touch
pub mod Run
pub mod Recede
pub mod Ids
pub mod Naming
pub mod Update
pub mod Panes
pub mod Events
pub mod Snapshot
pub mod Views
use zj_radar.Prelude.{
  ℕ, suc, String, Bool, true, false, ◌&&◌, Option, none, some, List, [], ◌∷◌, any, ◌==◌, eq_bool,
  str_eq, is_some_and, or_else, and_then, unwrap_or, if◌then◌else◌,
}
use zj_radar.Prelude.PaneMap
use zj_radar.Prelude.PaneMap.{PaneMap}
use zj_radar.Core.Observation.{TrackedObservation}
use zj_radar.Core.Command.{CommandStore, quiet_identity}
use zj_radar.Plugin.StatusStore.{StatusStore}
use zj_radar.Plugin.Ledger.{Ledger}
use zj_radar.Plugin.Displays.{TerminalPane, TabDisplay, TabRow, LedgerLine, effective_focus}
use zj_radar.Plugin.Rollup.{roll_up}
use zj_radar.Plugin.TabNamer.{Applied, TabRename}

pub record RadarTab : Type 0 where
  pub id : ℕ
  pub position : ℕ
  pub name : String
  pub active : Bool
  pub has_bell : Bool
  pub floating_visible : Bool

-- `PartialEq` of a tab, and of the tabs.
unfoldable pub eq_tab : RadarTab → RadarTab → Bool
eq_tab a b =
    a.id == b.id
    && a.position == b.position
    && str_eq a.name b.name
    && eq_bool a.active b.active
    && eq_bool a.has_bell b.has_bell
    && eq_bool a.floating_visible b.floating_visible

unfoldable pub eq_tabs : List RadarTab → List RadarTab → Bool
unfolding eq_tab
eq_tabs [] [] = true
eq_tabs (a ∷ rest) (b ∷ bs) = eq_tab a b && eq_tabs rest bs
eq_tabs _ _ = false

-- `no_write` is `SnapshotWrite::None`.
pub data SnapshotWrite : Type 0 where
  no_write now deferred : SnapshotWrite

unfoldable pub now_if : Bool → SnapshotWrite
now_if changed = if changed then SnapshotWrite.now else SnapshotWrite.no_write

pub record RadarChange : Type 0 where
  pub render : Bool
  pub snapshot : SnapshotWrite
  pub snapshot_pane : Option ℕ
  pub renames : List TabRename
  pub cwd_bootstrap : List ℕ
  pub settle : Bool
  pub force_render : Bool

-- `RadarChange::default`
abbrev pub no_change : RadarChange
no_change = record {
  render = false;
  snapshot = SnapshotWrite.no_write;
  snapshot_pane = none;
  renames = [];
  cwd_bootstrap = [];
  settle = false;
  force_render = false;
}

abbrev pub max_cwd_bootstrap_per_update : ℕ
max_cwd_bootstrap_per_update = 8

abbrev pub flash_ticks : ℕ
flash_ticks = 2

pub record RowsMemo : Type 0 where
  pub generation : ℕ
  pub lit_flashes : ℕ
  pub rows : List TabRow

-- The identity of the tab that a pane is in.
abbrev pub TabIndex : Type 0
TabIndex = PaneMap (ℕ × String)

pub record RadarState : Type 0 where
  pub status : StatusStore
  pub command : CommandStore
  pub tabs : List RadarTab
  pub tab_panes : PaneMap (List TerminalPane)
  pub pane_cwd : PaneMap String
  pub namer : Applied
  pub naming_tab_id : Option ℕ
  pub naming_tab_position : Option ℕ
  pub last_focused : Option ℕ
  pub live_panes : Option (List ℕ)
  pub cwd_bootstrap_attempted : List ℕ
  pub ledger : Ledger
  pub flash_until : PaneMap ℕ
  pub absent_once : PaneMap (Option (ℕ × String))
  pub generation : ℕ
  pub rows_memo : Option RowsMemo
  pub ledger_memo : Option (ℕ × List LedgerLine)

unfoldable pub touch : RadarState → RadarState
touch s = record s { generation = suc s.generation }

-- `HashSet::contains`
unfoldable pub has_id : List ℕ → ℕ → Bool
has_id ids id = any (λ j. j == id) ids

-- `iter().find`
unfoldable pub find_tab : (RadarTab → Bool) → List RadarTab → Option RadarTab
find_tab p [] = none
find_tab p (t ∷ tabs) = if p t then some t else find_tab p tabs

abbrev pub panes_at : ℕ → RadarState → List TerminalPane
panes_at position s = unwrap_or (PaneMap.get position s.tab_panes) []

unfoldable pub seats : ℕ → PaneMap (List TerminalPane) → RadarTab → Bool
seats pane_id tab_panes tab =
    is_some_and (PaneMap.get tab.position tab_panes) (λ panes. any (λ p. p.id == pane_id) panes)

unfoldable pub tab_of_pane : ℕ → RadarState → Option ℕ
unfolding find_tab seats
tab_of_pane pane_id s = and_then (find_tab (seats pane_id s.tab_panes) s.tabs) (λ tab. some tab.id)

unfoldable pub index_panes : ℕ × String → List TerminalPane → TabIndex → TabIndex
index_panes entry [] index = index
index_panes entry (p ∷ panes) index = index_panes entry panes (PaneMap.insert p.id entry index)

unfoldable pub index_tabs : PaneMap (List TerminalPane) → List RadarTab → TabIndex → TabIndex
unfolding index_panes
index_tabs tab_panes [] index = index
index_tabs tab_panes (t ∷ tabs) index =
    index_tabs tab_panes tabs
      (index_panes (t.id, t.name) (unwrap_or (PaneMap.get t.position tab_panes) []) index)

unfoldable pub pane_tab_index : RadarState → TabIndex
unfolding index_tabs
pane_tab_index s = index_tabs s.tab_panes s.tabs []

unfoldable pub resolve : RadarState → ℕ → Option TrackedObservation
resolve s pane_id =
    or_else (PaneMap.get pane_id s.status.store) (PaneMap.get pane_id s.command.store)

unfoldable pub focused_pane_at : RadarState → ℕ → List TerminalPane → Option ℕ
unfolding find_tab effective_focus
focused_pane_at s position panes =
    effective_focus panes
      (is_some_and (find_tab (λ t. t.position == position) s.tabs) (λ t. t.floating_visible))

unfoldable pub focused_terminal_in_active_tab : RadarState → Option ℕ
unfolding find_tab focused_pane_at
focused_terminal_in_active_tab s = and_then (find_tab (λ t. t.active) s.tabs) (λ active.
    and_then (PaneMap.get active.position s.tab_panes)
      (λ panes. focused_pane_at s active.position panes))

unfoldable pub note_focus : Option ℕ → RadarState → RadarState
note_focus none s = s
note_focus (some id) s = record s { last_focused = some id }

unfoldable pub tab_display : RadarState → List TerminalPane → TabDisplay
unfolding resolve roll_up
tab_display s panes = roll_up (resolve s) (λ id. quiet_identity id s.command) panes

unfoldable pub tab_display_for : RadarState → ℕ → TabDisplay
unfolding tab_display focused_pane_at
tab_display_for s position = record (tab_display s (panes_at position s)) {
  focused_pane = focused_pane_at s position (panes_at position s);
}

unfoldable pub persists_edges_for : Option ℕ → RadarState → Bool
unfolding tab_of_pane
persists_edges_for none s = true
persists_edges_for (some pane) s = elim s.naming_tab_id [
  | none ↦ true
  | some own ↦ elim (tab_of_pane pane s) [ none ↦ true | some tab_id ↦ tab_id == own ]
]

unfoldable pub pane_ids : List TerminalPane → List ℕ
pane_ids [] = []
pane_ids (p ∷ panes) = p.id ∷ pane_ids panes

unfoldable pub pane_ids_for_tab : ℕ → RadarState → List ℕ
unfolding pane_ids
pane_ids_for_tab position s = pane_ids (panes_at position s)
