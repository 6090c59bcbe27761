-- ===== src/Plugin/RadarState/Panes/Grace.antt =====
-- crates/plugin/src/radar_state.rs: a pane that is absent from one manifest, and from two.
use zj_radar.Prelude.{
  ℕ, ◌≡◌, ◌∙◌, refl, ap, arith, inl, inr, String, Bool, true, false, not, ◌&&◌, ◌||◌, Option, none,
  some, List, [], ◌∷◌, ◌++◌, ◌==◌, is_some, any, Option-cases, if◌then◌else◌,
}
use zj_radar.Prelude.Int.{ℤ}
use zj_radar.Prelude.PaneMap.{PaneMap, get, get-insert, get-retain}
use zj_radar.Core.Observation.{TrackedObservation}
use zj_radar.Core.Command
use zj_radar.Plugin.StatusStore
use zj_radar.Plugin.Ledger.{LedgerEntry}
use zj_radar.Plugin.TabNamer.{NamingMode}
use zj_radar.Plugin.RadarState.{
  RadarState, TabIndex, touch, has_id, note_focus, pane_tab_index, focused_terminal_in_active_tab,
}
use zj_radar.Plugin.RadarState.Recede.{
  keys, status_tracked_pane_ids, receded_entry, push_entry, ledger_receded,
}
use zj_radar.Plugin.RadarState.Ids.{has_id-keys, has_id-append}
use zj_radar.Plugin.RadarState.Naming.{rename_tabs, cwd_bootstrap_targets}
use zj_radar.Plugin.RadarState.Panes.{
  graced_from, tracked_pane_ids, graced, extend_index, is_effective, prune_stores, exit_all,
  settle_panes, panes_changed,
}
use zj_radar.Plugin.RadarState.Update.{PaneUpdate}

-- The ledger's part touches neither store.
push_status : (e : Option LedgerEntry) (s : RadarState) → (push_entry e s).status ≡ s.status
unfolding push_entry touch
push_status none s = refl
push_status (some e) s = ground arith

receded_status :
    (receded : List (ℕ × TrackedObservation)) (index : TabIndex) (tracked : List ℕ) (s : RadarState)
    → (ledger_receded receded index tracked s).status ≡ s.status
unfolding ledger_receded
receded_status [] index tracked s = refl
receded_status ((id, o) ∷ receded) index tracked s =
    receded_status receded index tracked (push_entry (receded_entry index tracked id o) s)
    ∙ push_status (receded_entry index tracked id o) s

pub get-graced_from :
    (id : ℕ) (live : List ℕ) (before : PaneMap (Option (ℕ × String))) (index : TabIndex)
    (ids : List ℕ)
    → is_some (get id (graced_from live before index ids))
      ≡ (has_id ids id && not (has_id live id) && not (is_some (get id before)))
unfolding graced_from has_id any get
get-graced_from id live before index [] = refl
get-graced_from id live before index (j ∷ ids) = ground (
  arith,
  get-graced_from id live before index ids,
  get-insert j id (get j index) (graced_from live before index ids),
  λ (e : j ≡ id). ap (λ (k : ℕ). any (λ i. i == k) live) e,
  λ (e : j ≡ id). ap (λ (k : ℕ). get k before) e,
)

prune_status :
    (live : ℕ → Bool) (index : TabIndex) (tracked : List ℕ) (s : RadarState)
    → (prune_stores live index tracked s).1.status ≡ (StatusStore.prune live s.status).1
unfolding prune_stores
prune_status live index tracked s =
    let st = StatusStore.prune live s.status in
    let c = Command.prune live s.command in
    let t = record s { status = st.1; command = c.1 } in
    receded_status c.0 index tracked (ledger_receded st.0 index tracked t)
    ∙ receded_status st.0 index tracked t

rename_status : (naming : NamingMode) (s : RadarState) → (rename_tabs naming s).1.status ≡ s.status
unfolding rename_tabs
rename_status naming s = ground arith

targets_status :
    (naming : NamingMode) (s : RadarState) → (cwd_bootstrap_targets naming s).1.status ≡ s.status
unfolding cwd_bootstrap_targets
targets_status naming s = ground arith

focus_status : (o : Option ℕ) (s : RadarState) → (note_focus o s).status ≡ s.status
unfolding note_focus
focus_status none s = refl
focus_status (some id) s = refl

pub status_tracked :
    (id : ℕ) (o : TrackedObservation) (s : RadarState)
    → get id s.status.store ≡ some o
    → has_id (keys s.status.store ++ tracked_pane_ids s.command) id ≡ true
status_tracked id o s e =
    rw
      (
        has_id-append id (keys s.status.store) (tracked_pane_ids s.command),
        has_id-keys id s.status.store,
        e,
      )
      refl

-- A pane of the status store is in the effective set unless it is absent now and was before.
effective_tracked :
    (id : ℕ) (o : TrackedObservation) (live : List ℕ) (index : TabIndex) (s : RadarState)
    → get id s.status.store ≡ some o
    → is_effective live (graced live index s) id
      ≡ (has_id live id || not (is_some (get id s.absent_once)))
unfolding is_effective graced status_tracked_pane_ids
effective_tracked id o live index s e =
    let tracked = keys s.status.store ++ tracked_pane_ids s.command in
    let known : has_id tracked id ≡ true = status_tracked id o s e in
    ground (arith, known, get-graced_from id live s.absent_once index tracked)

abbrev no_observation : Option TrackedObservation
no_observation = none

either_none : (a b : Bool) → (if a then none else none) ≡ (if b then no_observation else none)
either_none true true = refl
either_none true false = refl
either_none false true = refl
either_none false false = refl

pub exit_all_none :
    (tick now : ℕ) (index : TabIndex) (tracked : List ℕ) (es : List (ℕ × Option ℤ)) (s : RadarState)
    → es ≡ []
    → (exit_all tick now index tracked es s).1 ≡ s
unfolding exit_all
exit_all_none tick now index tracked [] s e = refl
exit_all_none tick now index tracked (x ∷ es) s e = absurd (cc)

kept_status :
    (id : ℕ) (live : List ℕ) (index : TabIndex) (s : RadarState)
    → (if is_effective live (graced live index s) id then get id s.status.store else none) ≡ (
        if has_id live id || not (is_some (get id s.absent_once))
        then get id s.status.store
        else none)
kept_status id live index s = elim (Option-cases (get id s.status.store)) [
  | inl out ↦ rw out (either_none (is_effective live (graced live index s) id) _)
  | inr (o, e) ↦ rw (effective_tracked id o live index s e) refl
]

settle_status :
    {Theme : Type 0} (update : PaneUpdate Theme) (index : TabIndex) (tracked : List ℕ) (id : ℕ)
    (s : RadarState)
    → get id (settle_panes update index tracked s).1.status.store ≡ (
        if has_id update.live id || not (is_some (get id s.absent_once))
        then get id s.status.store
        else none)
unfolding settle_panes StatusStore.prune
settle_status update index tracked id s =
    let kept = graced update.live index s in
    let live = is_effective update.live kept in
    let t = record s {
      live_panes = some update.live;
      tab_panes = update.tab_panes;
      absent_once = kept;
    } in
    let pruned =
      ap (λ (st : StatusStore.StatusStore). get id st.store)
        (prune_status live (extend_index s.absent_once index) tracked t) in
    pruned ∙ get-retain live id s.status.store ∙ kept_status id update.live index s

-- A manifest without exits leaves the status of a pane that it has, or that was not absent from the
-- manifest before it; of a pane that is absent for the second time it leaves none.
pub panes_changed-absence :
    {Theme : Type 0} (update : PaneUpdate Theme) (tick now : ℕ) (naming : NamingMode) (id : ℕ)
    (s : RadarState)
    → update.exits ≡ []
    → get id (panes_changed update tick now naming s).1.status.store ≡ (
        if has_id update.live id || not (is_some (get id s.absent_once))
        then get id s.status.store
        else none)
unfolding panes_changed touch exit_all
panes_changed-absence update tick now naming id s no_exits =
    let index = pane_tab_index (touch s) in
    let tracked = status_tracked_pane_ids (touch s) in
    let t = (exit_all tick now index tracked update.exits (touch s)).1 in
    let settled = (settle_panes update index tracked t).1 in
    let seen = note_focus (focused_terminal_in_active_tab settled) settled in
    let renamed = (rename_tabs naming seen).1 in
    let framed : (cwd_bootstrap_targets naming renamed).1.status ≡ settled.status =
      targets_status naming renamed
      ∙ rename_status naming seen
      ∙ focus_status (focused_terminal_in_active_tab settled) settled in
    let quiet =
      ap (λ (r : RadarState). get id (settle_panes update index tracked r).1.status.store)
        (exit_all_none tick now index tracked update.exits (touch s) no_exits) in
    ap (λ (st : StatusStore.StatusStore). get id st.store) framed
    ∙ quiet
    ∙ settle_status update index tracked id (touch s)
