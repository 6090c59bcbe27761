-- ===== src/Plugin/RadarState/Rows.antt =====
-- crates/plugin/src/radar_state.rs: the rows of the rail and of the ledger, and what keeps them. A
-- reader that fills a memo hands back the state as well.
use zj_radar.Prelude.{
  ℕ, suc, ◌-◌, ◌+◌, ◌^◌, ◌%◌, Bool, false, ◌&&◌, ◌||◌, none, some, List, [], ◌∷◌, map, ◌==◌, ltb,
  leb, is_some_and, and_then, if◌then◌else◌,
}
use zj_radar.Prelude.PaneMap
use zj_radar.Prelude.PaneMap.{PaneMap}
use zj_radar.Core.Status.{Status, eq_status}
use zj_radar.Core.Observation.{TrackedObservation, any_observation, animating}
use zj_radar.Core.Command
use zj_radar.Plugin.StatusStore
use zj_radar.Plugin.Ledger.{LedgerEntry, LedgerOutcome, eq_outcome, saturate_s, any_unsaturated}
use zj_radar.Plugin.Displays.{TabRow, LedgerLine}
use zj_radar.Plugin.RadarState.{RadarState, RadarTab, RowsMemo, find_tab, tab_display_for}

-- The flashes that are lit at a tick.
unfoldable pub count_lit : ℕ → PaneMap ℕ → ℕ
count_lit now [] = 0
count_lit now ((id, until) ∷ m) =
    let rest = count_lit now m in if ltb now until then suc rest else rest

unfoldable pub lit_flashes : RadarState → ℕ → ℕ
unfolding count_lit
lit_flashes s now_tick = count_lit now_tick s.flash_until

unfoldable pub is_lit : ℕ → PaneMap ℕ → ℕ → Bool
is_lit now_tick flashes id = is_some_and (PaneMap.get id flashes) (λ u. ltb now_tick u)

-- `position as u32 + 1`
unfoldable pub row_of : RadarState → ℕ → RadarTab → TabRow
unfolding is_lit tab_display_for
row_of s now_tick t = record {
  number = (t.position + 1) % 2 ^ 32;
  name = t.name;
  active = t.active;
  has_bell = t.has_bell;
  flash = is_lit now_tick s.flash_until t.id;
  display = tab_display_for s t.position;
}

unfoldable pub rows_uncached : RadarState → ℕ → List TabRow
unfolding row_of
rows_uncached s now_tick = map (row_of s now_tick) s.tabs

-- The memo serves this generation and this many lit flashes.
unfoldable pub serves : ℕ → ℕ → RowsMemo → Bool
serves generation lit m = m.generation == generation && m.lit_flashes == lit

unfoldable pub compute_rows : RadarState → ℕ → List TabRow × RadarState
compute_rows s now_tick =
    let out = rows_uncached s now_tick in
    (
      out,
      record s {
        rows_memo = some (record {
          generation = s.generation;
          lit_flashes = lit_flashes s now_tick;
          rows = out;
        });
      },
    )

unfoldable pub rows : RadarState → ℕ → List TabRow × RadarState
unfolding serves lit_flashes compute_rows rows_uncached
rows s now_tick = elim s.rows_memo [
  | none ↦ compute_rows s now_tick
  | some m ↦
      if serves s.generation (lit_flashes s now_tick) m
      then (m.rows, s)
      else compute_rows s now_tick
]

unfoldable pub any_lit : ℕ → PaneMap ℕ → Bool
any_lit now_tick [] = false
any_lit now_tick ((id, u) ∷ m) = ltb now_tick u || any_lit now_tick m

unfoldable pub has_active_flash : RadarState → ℕ → Bool
unfolding any_lit
has_active_flash s now_tick = any_lit now_tick s.flash_until

unfoldable pub ledger_line : List RadarTab → LedgerEntry → LedgerLine
unfolding find_tab
ledger_line tabs e = record {
  at_epoch_s = e.at_epoch_s;
  error = eq_outcome e.outcome LedgerOutcome.error;
  tab_name = e.tab_name;
  label = e.label;
  tab_position = and_then (find_tab (λ t. t.id == e.tab_id) tabs) (λ t. some t.position);
}

unfoldable pub compute_lines : RadarState → List LedgerLine × RadarState
unfolding ledger_line
compute_lines s =
    let lines = map (ledger_line s.tabs) s.ledger in
    (lines, record s { ledger_memo = some (s.generation, lines) })

unfoldable pub ledger_lines : RadarState → List LedgerLine × RadarState
unfolding compute_lines
ledger_lines s = elim s.ledger_memo [
  | none ↦ compute_lines s
  | some (generation, lines) ↦ if generation == s.generation then (lines, s) else compute_lines s
]

-- The reasons for which the timer is armed.
unfoldable pub needs_fast_ticks : RadarState → Bool
needs_fast_ticks s = StatusStore.needs_ticks s.status || Command.needs_ticks s.command

-- `render::EASE_AFTER_TICKS`
abbrev pub ease_after_ticks : ℕ
ease_after_ticks = 600

unfoldable pub has_full_speed_spinner : RadarState → ℕ → Bool
has_full_speed_spinner s now_tick =
    let spinning = λ (o : TrackedObservation).
      animating o && leb (now_tick - o.last_change_tick) ease_after_ticks in
    any_observation spinning s.status.store || any_observation spinning s.command.store

unfoldable pub ledger_any_unsaturated : RadarState → ℕ → Bool
ledger_any_unsaturated s now = any_unsaturated s.ledger now

unfoldable pub pending_wait_unsaturated : RadarState → ℕ → Bool
pending_wait_unsaturated s now =
    any_observation
      (λ o.
        eq_status o.status Status.pending
        && is_some_and o.pending_epoch_s (λ t. ltb (now - t) saturate_s))
      s.status.store
