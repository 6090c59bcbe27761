-- ===== src/Plugin/RadarState/Naming.antt =====
-- crates/plugin/src/radar_state.rs: the tabs that the host reports, the tab that this instance may
-- name, and the facts that name it. The unstable sorts are stable here: the host's positions, and
-- its pane ids, differ from each other.
use zj_radar.Prelude.{
  ℕ, Bool, true, false, not, ◌||◌, Option, none, some, List, [], ◌∷◌, ◌++◌, map, take, ◌==◌, leb,
  is_some, and_then, if◌then◌else◌,
}
use zj_radar.Prelude.PaneMap
use zj_radar.Prelude.PaneMap.{PaneMap}
use zj_radar.Core.Sanitize.{sanitize}
use zj_radar.Core.Observation.{max_tab_name_chars}
use zj_radar.Plugin.Displays.{TerminalPane}
use zj_radar.Plugin.TabNamer.{NamingMode, PaneFacts, TabFacts, TabRename, rename, retain_tabs}
use zj_radar.Plugin.RadarState.{
  RadarState, RadarTab, RadarChange, no_change, eq_tabs, touch, find_tab, has_id, panes_at,
  max_cwd_bootstrap_per_update,
}

abbrev pub is_off : NamingMode → Bool
is_off NamingMode.off = true
is_off _ = false

unfoldable pub pane_facts : RadarState → TerminalPane → PaneFacts
pane_facts s p = record {
  repo = and_then (PaneMap.get p.id s.status.store) (λ o. some o.repo);
  cwd = PaneMap.get p.id s.pane_cwd;
  title = p.title;
  focused = p.focused_in_tab;
}

unfoldable pub tab_facts : RadarState → RadarTab → TabFacts
unfolding pane_facts
tab_facts s tab = record {
  id = tab.id;
  name = tab.name;
  panes = map (pane_facts s) (panes_at tab.position s);
}

-- The tab that this instance names.
unfoldable pub naming_tab : RadarState → Option RadarTab
unfolding find_tab
naming_tab s = and_then s.naming_tab_id (λ own. find_tab (λ t. t.id == own) s.tabs)

unfoldable pub rename_tabs : NamingMode → RadarState → List TabRename × RadarState
unfolding naming_tab tab_facts rename
rename_tabs naming s = if is_off naming then ([], s) else elim (naming_tab s) [
  | none ↦ ([], s)
  | some tab ↦
      let (namer, out) = rename s.namer (tab_facts s tab ∷ []) naming in
      (out, record s { namer = namer })
]

-- The ids of the panes, focused or not, whose directory is neither known nor asked for.
unfoldable pub wants_cwd : RadarState → Bool → TerminalPane → Bool
wants_cwd s focused p =
    if is_some (PaneMap.get p.id s.pane_cwd) || has_id s.cwd_bootstrap_attempted p.id
    then false
    else if p.focused_in_tab
    then focused
    else not focused

unfoldable pub wanting : RadarState → Bool → List TerminalPane → List ℕ
unfolding wants_cwd
wanting s focused [] = []
wanting s focused (p ∷ panes) =
    let rest = wanting s focused panes in if wants_cwd s focused p then p.id ∷ rest else rest

unfoldable pub wanting_all : RadarState → Bool → PaneMap (List TerminalPane) → List ℕ
unfolding wanting
wanting_all s focused [] = []
wanting_all s focused ((position, panes) ∷ m) = wanting s focused panes ++ wanting_all s focused m

unfoldable pub insert_id : ℕ → List ℕ → List ℕ
insert_id id [] = id ∷ []
insert_id id (j ∷ ids) = if leb id j then id ∷ j ∷ ids else j ∷ insert_id id ids

-- `sort_unstable`
unfoldable pub sort_ids : List ℕ → List ℕ
unfolding insert_id
sort_ids [] = []
sort_ids (id ∷ ids) = insert_id id (sort_ids ids)

unfoldable pub cwd_bootstrap_targets : NamingMode → RadarState → List ℕ × RadarState
unfolding wanting_all sort_ids
cwd_bootstrap_targets naming s =
    if is_off naming
    then ([], s)
    else let targets =
        take max_cwd_bootstrap_per_update (
          sort_ids (wanting_all s true s.tab_panes)
          ++ sort_ids (wanting_all s false s.tab_panes)) in
      (targets, record s { cwd_bootstrap_attempted = targets ++ s.cwd_bootstrap_attempted })

unfoldable pub resolve_naming_tab : RadarState → RadarState
unfolding find_tab
resolve_naming_tab s = elim s.naming_tab_id [
  | some _ ↦ s
  | none ↦ elim s.naming_tab_position [
    | none ↦ s
    | some position ↦ record s {
      naming_tab_id = and_then (find_tab (λ t. t.position == position) s.tabs) (λ t. some t.id);
    }
  ]
]

unfoldable pub own_plugin_tab_changed : Option ℕ → RadarState → RadarState
unfolding resolve_naming_tab
own_plugin_tab_changed position s = elim s.naming_tab_id [
  | some _ ↦ s
  | none ↦ resolve_naming_tab (record s { naming_tab_position = position })
]

unfoldable pub insert_tab : RadarTab → List RadarTab → List RadarTab
insert_tab t [] = t ∷ []
insert_tab t (u ∷ tabs) = if leb t.position u.position then t ∷ u ∷ tabs else u ∷ insert_tab t tabs

unfoldable pub sort_tabs : List RadarTab → List RadarTab
unfolding insert_tab
sort_tabs [] = []
sort_tabs (t ∷ tabs) = insert_tab t (sort_tabs tabs)

unfoldable pub sanitize_tab : RadarTab → RadarTab
sanitize_tab t = record t { name = sanitize t.name max_tab_name_chars }

unfoldable pub tab_ids : List RadarTab → List ℕ
tab_ids [] = []
tab_ids (t ∷ tabs) = t.id ∷ tab_ids tabs

-- What `tabs_changed` does once the tabs are other tabs.
unfoldable pub adopt_tabs : List RadarTab → RadarState → RadarState
unfolding tab_ids resolve_naming_tab retain_tabs touch
adopt_tabs tabs s =
    let t = resolve_naming_tab (touch (record s { tabs = tabs })) in
    record t { namer = retain_tabs t.namer (tab_ids t.tabs) }

unfoldable pub tabs_changed : List RadarTab → RadarState → RadarChange × RadarState
unfolding sort_tabs sanitize_tab adopt_tabs
tabs_changed tabs s =
    let sorted = sort_tabs (map sanitize_tab tabs) in
    if eq_tabs sorted s.tabs
    then (no_change, s)
    else (record no_change { render = true }, adopt_tabs sorted s)
