-- ===== src/Plugin/RadarState/Run.antt =====
-- crates/plugin/src/radar_state.rs: the rail from its start on, and the rows that it hands out.
use mathlib.Core.Path.{subst⁻¹}
use zj_radar.Prelude.{
  map, ℕ, ◌≤◌, ◌<◌, ◌≡◌, refl, ap, ◌∙◌, arith, inl, inr, String, Option, none, List, Bool-cases,
  Option-cases,
}
use zj_radar.Prelude.PaneMap
use zj_radar.Core.Command
use zj_radar.Plugin.StatusStore
use zj_radar.Plugin.Displays.{TerminalPane}
use zj_radar.Plugin.TabNamer.{NamingMode}
use zj_radar.Plugin.RadarState.{RadarState, RadarTab, eq_tabs}
use zj_radar.Plugin.RadarState.Rows.{lit_flashes, serves, rows_uncached, rows}
use zj_radar.Plugin.RadarState.Memo.{
  IsFresh, IsRight, OfMemo, IsFresh-later, OfMemo-some, serves_iff_lem, rows-rows_uncached,
}
use zj_radar.Plugin.RadarState.Naming.{
  is_off, naming_tab, rename_tabs, resolve_naming_tab, adopt_tabs, sort_tabs, sanitize_tab,
  tabs_changed, own_plugin_tab_changed,
}
use zj_radar.Plugin.RadarState.Events.{cwd_changed}
use zj_radar.Plugin.RadarState.Panes.{panes_changed}
use zj_radar.Plugin.RadarState.Update.{PaneUpdate}
use zj_radar.Plugin.RadarState.Touch.{panes_touches, adopt_touches}

-- A later generation serves no memo of an earlier one.
IsFresh-touched :
    (now : ℕ) (s t : RadarState)
    → t.rows_memo ≡ s.rows_memo
    → s.generation < t.generation
    → IsFresh now s
    → IsFresh now t
IsFresh-touched now s t same lt fresh = elim (Option-cases s.rows_memo) [
  | inl no_memo ↦ subst⁻¹ (OfMemo (IsRight now t)) (same ∙ no_memo) tt
  | inr (m, e) ↦
      let right = OfMemo-some (IsRight now s) s.rows_memo m e fresh in
      subst⁻¹ (OfMemo (IsRight now t)) (same ∙ e) (
        omega (arith, right.0, lt),
        λ u later serving.
            let hit = serves_iff_lem t.generation (lit_flashes t u) m serving in
            absurd (omega (arith, right.0, lt, hit.0)),
      )
]

-- What `rows` reads is as it was.
IsFresh-same :
    (now : ℕ) (s t : RadarState)
    → t.rows_memo ≡ s.rows_memo
    → t.generation ≡ s.generation
    → ((u : ℕ) → rows_uncached t u ≡ rows_uncached s u)
    → ((u : ℕ) → lit_flashes t u ≡ lit_flashes s u)
    → IsFresh now s
    → IsFresh now t
unfolding serves lit_flashes
IsFresh-same now s t same gen view lit fresh = elim (Option-cases s.rows_memo) [
  | inl no_memo ↦ subst⁻¹ (OfMemo (IsRight now t)) (same ∙ no_memo) tt
  | inr (m, e) ↦
      let right = OfMemo-some (IsRight now s) s.rows_memo m e fresh in
      subst⁻¹ (OfMemo (IsRight now t)) (same ∙ e) (
        omega (arith, right.0, gen),
        λ u later serving. view u ∙ right.1 u later (rw (← gen, ← lit u) serving),
      )
]

-- What `rows` reads, and the keys of its memo.
abbrev IsSameView : RadarState → RadarState → Type 0
IsSameView s t =
    (t.rows_memo ≡ s.rows_memo)
    × (t.generation ≡ s.generation)
    × (t.tabs ≡ s.tabs)
    × (t.tab_panes ≡ s.tab_panes)
    × (t.status ≡ s.status)
    × (t.command ≡ s.command)
    × (t.flash_until ≡ s.flash_until)

rename_view : (naming : NamingMode) (s : RadarState) → IsSameView s (rename_tabs naming s).1
unfolding rename_tabs
rename_view naming s = elim (Bool-cases (is_off naming)) [
  | inl off ↦ rw (rename_tabs, off) (refl, refl, refl, refl, refl, refl, refl)
  | inr on ↦ elim (Option-cases (naming_tab s)) [
    | inl no_tab ↦ rw (rename_tabs, on, no_tab) (refl, refl, refl, refl, refl, refl, refl)
    | inr (tab, e) ↦ rw (rename_tabs, on, e) (refl, refl, refl, refl, refl, refl, refl)
  ]
]

own_view : (position : Option ℕ) (s : RadarState) → IsSameView s (own_plugin_tab_changed position s)
unfolding own_plugin_tab_changed resolve_naming_tab
own_view position s = ground arith

-- The fields that `rows` reads, in a state that is otherwise `base`.
abbrev viewed :
    List RadarTab
    → PaneMap.PaneMap (List TerminalPane)
    → StatusStore.StatusStore
    → Command.CommandStore
    → PaneMap.PaneMap ℕ
    → RadarState
    → RadarState
viewed tabs tab_panes status command flash_until base = record base {
  tabs = tabs;
  tab_panes = tab_panes;
  status = status;
  command = command;
  flash_until = flash_until;
}

view_rows : (s t : RadarState) (u : ℕ) → IsSameView s t → rows_uncached t u ≡ rows_uncached s u
unfolding rows_uncached
view_rows s t u h =
    let by : viewed t.tabs t.tab_panes t.status t.command t.flash_until s
        ≡ viewed s.tabs s.tab_panes s.status s.command s.flash_until s =
      cc (h.2, h.3, h.4, h.5, h.6) in
    ap (λ (v : RadarState). rows_uncached v u) by

IsFresh-view : (now : ℕ) (s t : RadarState) → IsSameView s t → IsFresh now s → IsFresh now t
unfolding lit_flashes
IsFresh-view now s t h fresh =
    IsFresh-same now s t h.0 h.1 (λ u. view_rows s t u h) (λ u. rw h.6 refl) fresh

-- The rail from its start on: the tabs, the panes and the directories that the host reports, the tab
-- that this instance finds itself in, the time that goes by, and the rows that are read.
pub data RailRun : ℕ → RadarState → Type 1 where
  started : (s : RadarState) → s.rows_memo ≡ none → RailRun 0 s
  waited : {t : ℕ} {s : RadarState} (u : ℕ) → t ≤ u → RailRun t s → RailRun u s
  rows_read : {t : ℕ} {s : RadarState} → RailRun t s → RailRun t (rows s t).1
  tabs_update :
      {t : ℕ} {s : RadarState} (tabs : List RadarTab)
      → RailRun t s
      → RailRun t (tabs_changed tabs s).1
  panes_update :
      {t : ℕ} {s : RadarState} {Theme : Type 0} (update : PaneUpdate Theme) (now : ℕ)
      (naming : NamingMode)
      → RailRun t s
      → RailRun t (panes_changed update t now naming s).1
  cwd_update :
      {t : ℕ} {s : RadarState} (pane_id : ℕ) (path : String) (naming : NamingMode)
      → RailRun t s
      → RailRun t (cwd_changed pane_id path naming s).1
  own_tab :
      {t : ℕ} {s : RadarState} (position : Option ℕ)
      → RailRun t s
      → RailRun t (own_plugin_tab_changed position s)

own_IsFresh :
    (now : ℕ) (position : Option ℕ) (s : RadarState)
    → IsFresh now s
    → IsFresh now (own_plugin_tab_changed position s)
own_IsFresh now position s =
    IsFresh-view now s (own_plugin_tab_changed position s) (own_view position s)

tabs_IsFresh :
    (now : ℕ) (tabs : List RadarTab) (s : RadarState)
    → IsFresh now s
    → IsFresh now (tabs_changed tabs s).1
unfolding tabs_changed
tabs_IsFresh now tabs s fresh =
    let sorted = sort_tabs (map sanitize_tab tabs) in
    elim (Bool-cases (eq_tabs sorted s.tabs)) [
      | inl same ↦ rw same fresh
      | inr other ↦
          let touched = adopt_touches sorted s in
          rw other (IsFresh-touched now s (adopt_tabs sorted s) touched.0 touched.1 fresh)
    ]

cwd_IsFresh :
    (now pane_id : ℕ) (path : String) (naming : NamingMode) (s : RadarState)
    → IsFresh now s
    → IsFresh now (cwd_changed pane_id path naming s).1
unfolding lit_flashes rows_uncached cwd_changed rename_tabs
cwd_IsFresh now pane_id path naming s fresh =
    let t = record s { pane_cwd = PaneMap.insert pane_id path s.pane_cwd } in
    IsFresh-view now t (rename_tabs naming t).1 (rename_view naming t) fresh

run-IsFresh : {t : ℕ} {s : RadarState} → RailRun t s → IsFresh t s
run-IsFresh (started s no_memo) = subst⁻¹ (OfMemo (IsRight 0 s)) no_memo tt
run-IsFresh (waited {t} {s} u h run) = IsFresh-later t u s h (run-IsFresh run)
run-IsFresh (rows_read {t} {s} run) = (rows-rows_uncached t t s (run-IsFresh run) (omega arith)).1
run-IsFresh (tabs_update {t} {s} tabs run) = tabs_IsFresh t tabs s (run-IsFresh run)
run-IsFresh (panes_update {t} {s} update now naming run) =
    let touched = panes_touches update t now naming s in
    IsFresh-touched t s (panes_changed update t now naming s).1 touched.0 touched.1
      (run-IsFresh run)
run-IsFresh (cwd_update {t} {s} pane_id path naming run) =
    cwd_IsFresh t pane_id path naming s (run-IsFresh run)
run-IsFresh (own_tab {t} {s} position run) = own_IsFresh t position s (run-IsFresh run)

-- From a state without a memo, through any tab updates, pane manifests, directory changes, placings
-- of this instance, waits and reads of the rows, the rows that are handed out at a tick are those
-- that the state then gives, whether they come from the memo or not.
pub rows-run : (t : ℕ) (s : RadarState) → RailRun t s → (rows s t).0 ≡ rows_uncached s t
rows-run t s run = (rows-rows_uncached t t s (run-IsFresh run) (omega arith)).0
