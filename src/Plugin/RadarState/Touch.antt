-- ===== src/Plugin/RadarState/Touch.antt =====
-- crates/plugin/src/radar_state.rs: which operations advance the generation, for the memo of `rows`.
use zj_radar.Prelude.{
  ℕ, ◌≤◌, ◌<◌, ◌≡◌, refl, ◌∙◌, arith, inl, inr, is_some_and, Bool, Option, none, some, List, [],
  ◌∷◌, Bool-cases, if◌then◌else◌,
}
use zj_radar.Prelude.Int.{ℤ}
use zj_radar.Prelude.PaneMap
use zj_radar.Core.Observation.{TrackedObservation}
use zj_radar.Core.Command
use zj_radar.Plugin.StatusStore
use zj_radar.Plugin.Ledger.{LedgerEntry}
use zj_radar.Plugin.TabNamer.{NamingMode}
use zj_radar.Plugin.RadarState.{
  RadarState, RadarTab, TabIndex, touch, pane_tab_index, focused_terminal_in_active_tab, note_focus,
}
use zj_radar.Plugin.RadarState.Recede.{
  status_tracked_pane_ids, receded_entry, push_entry, ledger_receded, arm_flash, of_pane,
}
use zj_radar.Plugin.RadarState.Naming.{
  rename_tabs, cwd_bootstrap_targets, resolve_naming_tab, adopt_tabs,
}
use zj_radar.Plugin.RadarState.Panes.{
  exit_command, exit_clear, exit_one, is_remote_run, exit_all, prune_stores, graced, is_effective,
  extend_index, settle_panes, panes_changed,
}
use zj_radar.Plugin.RadarState.Update.{PaneUpdate}

-- The memo stays and the generation does not go back.
abbrev pub IsLater : RadarState → RadarState → Type 0
IsLater s t = (t.rows_memo ≡ s.rows_memo) × (s.generation ≤ t.generation)

pub IsLater-trans : (s t u : RadarState) → IsLater s t → IsLater t u → IsLater s u
IsLater-trans s t u a b = (b.0 ∙ a.0, omega (arith, a.1, b.1))

push-IsLater : (e : Option LedgerEntry) (s : RadarState) → IsLater s (push_entry e s)
unfolding push_entry touch
push-IsLater none s = (refl, omega arith)
push-IsLater (some e) s = ground arith

pub receded-IsLater :
    (receded : List (ℕ × TrackedObservation)) (index : TabIndex) (tracked : List ℕ) (s : RadarState)
    → IsLater s (ledger_receded receded index tracked s)
unfolding ledger_receded
receded-IsLater [] index tracked s = (refl, omega arith)
receded-IsLater ((id, o) ∷ receded) index tracked s =
    let t = push_entry (receded_entry index tracked id o) s in
    IsLater-trans s t (ledger_receded receded index tracked t) (push-IsLater _ s)
      (receded-IsLater receded index tracked t)

flash-IsLater : (pane_id tick : ℕ) (s : RadarState) → IsLater s (arm_flash pane_id tick s)
unfolding arm_flash
flash-IsLater pane_id tick s = ground arith

exit-IsLater :
    (tick now : ℕ) (index : TabIndex) (tracked : List ℕ) (e : ℕ × Option ℤ) (s : RadarState)
    → IsLater s (exit_one tick now index tracked e s).1
unfolding exit_one exit_command exit_clear
exit-IsLater tick now index tracked e s =
    let out = Command.on_exit e.0 e.1 tick now s.command in
    let t = (exit_command tick now index tracked e s).1 in
    let u =
      if is_some_and (PaneMap.get e.0 s.command.store) is_remote_run
      then arm_flash e.0 tick t
      else t in
    let flashed : IsLater t u =
      elim (Bool-cases (is_some_and (PaneMap.get e.0 s.command.store) is_remote_run)) [
        | inl running ↦ rw running (flash-IsLater e.0 tick t)
        | inr ended ↦ rw ended (refl, omega arith)
      ] in
    let cleared = StatusStore.clear_on_exit e.0 tick u.status in
    IsLater-trans s u (exit_clear tick index tracked e.0 u).1
      (IsLater-trans s t u
        (receded-IsLater (of_pane e.0 out.0) index tracked (record s { command = out.1 })) flashed)
      (receded-IsLater (of_pane e.0 cleared.0) index tracked (record u { status = cleared.1 }))

exits-IsLater :
    (tick now : ℕ) (index : TabIndex) (tracked : List ℕ) (es : List (ℕ × Option ℤ)) (s : RadarState)
    → IsLater s (exit_all tick now index tracked es s).1
unfolding exit_all
exits-IsLater tick now index tracked [] s = (refl, omega arith)
exits-IsLater tick now index tracked (e ∷ es) s =
    let t = (exit_one tick now index tracked e s).1 in
    IsLater-trans s t (exit_all tick now index tracked es t).1
      (exit-IsLater tick now index tracked e s) (exits-IsLater tick now index tracked es t)

prune-IsLater :
    (live : ℕ → Bool) (index : TabIndex) (tracked : List ℕ) (s : RadarState)
    → IsLater s (prune_stores live index tracked s).1
unfolding prune_stores
prune-IsLater live index tracked s =
    let st = StatusStore.prune live s.status in
    let c = Command.prune live s.command in
    let s₁ = record s { status = st.1; command = c.1 } in
    let s₂ = ledger_receded st.0 index tracked s₁ in
    IsLater-trans s s₂ (ledger_receded c.0 index tracked s₂) (receded-IsLater st.0 index tracked s₁)
      (receded-IsLater c.0 index tracked s₂)

rename-IsLater : (naming : NamingMode) (s : RadarState) → IsLater s (rename_tabs naming s).1
unfolding rename_tabs
rename-IsLater naming s = ground arith

targets-IsLater :
    (naming : NamingMode) (s : RadarState) → IsLater s (cwd_bootstrap_targets naming s).1
unfolding cwd_bootstrap_targets
targets-IsLater naming s = ground arith

focus-IsLater : (o : Option ℕ) (s : RadarState) → IsLater s (note_focus o s)
unfolding note_focus
focus-IsLater none s = (refl, omega arith)
focus-IsLater (some id) s = (refl, omega arith)

settle-IsLater :
    {Theme : Type 0} (update : PaneUpdate Theme) (index : TabIndex) (tracked : List ℕ)
    (s : RadarState)
    → IsLater s (settle_panes update index tracked s).1
unfolding settle_panes
settle-IsLater update index tracked s =
    let kept = graced update.live index s in
    prune-IsLater (is_effective update.live kept) (extend_index s.absent_once index) tracked
      (record s { live_panes = some update.live; tab_panes = update.tab_panes; absent_once = kept })

pub panes_touches :
    {Theme : Type 0} (update : PaneUpdate Theme) (tick now : ℕ) (naming : NamingMode)
    (s : RadarState)
    → let t = (panes_changed update tick now naming s).1 in
      (t.rows_memo ≡ s.rows_memo) × (s.generation < t.generation)
unfolding panes_changed touch
panes_touches update tick now naming s =
    let index = pane_tab_index (touch s) in
    let tracked = status_tracked_pane_ids (touch s) in
    let t = (exit_all tick now index tracked update.exits (touch s)).1 in
    let u = (settle_panes update index tracked t).1 in
    let v = note_focus (focused_terminal_in_active_tab u) u in
    let w = (rename_tabs naming v).1 in
    let late : IsLater (touch s) w =
      IsLater-trans (touch s) u w
        (IsLater-trans (touch s) t u (exits-IsLater tick now index tracked update.exits (touch s))
          (settle-IsLater update index tracked t))
        (IsLater-trans u v w (focus-IsLater (focused_terminal_in_active_tab u) u)
          (rename-IsLater naming v)) in
    let all =
      IsLater-trans (touch s) w (cwd_bootstrap_targets naming w).1 late
        (targets-IsLater naming w) in
    (all.0, omega (arith, all.1))

pub adopt_touches :
    (tabs : List RadarTab) (s : RadarState)
    → let t = adopt_tabs tabs s in (t.rows_memo ≡ s.rows_memo) × (s.generation < t.generation)
unfolding adopt_tabs resolve_naming_tab touch
adopt_touches tabs s = ground arith
