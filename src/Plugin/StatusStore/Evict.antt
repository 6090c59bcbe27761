-- ===== src/Plugin/StatusStore/Evict.antt =====
-- crates/plugin/src/status_store.rs: the panes that `evict_over_cap` takes out.
use zj_radar.Prelude.{
  ℕ, zero, suc, ◌+◌, ◌≤◌, ◌<◌, ◌≡◌, refl, ap, true, false, none, some, List, [], ◌∷◌, All, length,
  arith, leb, ◌==◌, Bool-cases, inl, inr, ◌⊎◌,
}
use zj_radar.Prelude.PaneMap
use zj_radar.Prelude.PaneMap.{
  PaneMap, length-remove-lt, Distinct, Distinct-remove, get-remove, All-get, get-cons_fresh,
  get-second_fresh,
}
use zj_radar.Core.Observation.{TrackedObservation, ObservationStore}
use zj_radar.Plugin.StatusStore.{
  StatusStore, max_tracked_panes, age_lt, oldest_from, oldest, drop_pane, evict_loop,
  evict_over_cap,
}

abbrev pub Entry : Type 0
Entry = ℕ × TrackedObservation

-- No entry of the list is older.
abbrev pub IsOldest : Entry → List Entry → Type 0
IsOldest e s = All (λ f. age_lt f e ≡ false) s

age_lt_irrefl : (e : Entry) → age_lt e e ≡ false
age_lt_irrefl (i, a) = ground arith

age_asymm : (e f : Entry) → age_lt f e ≡ true → age_lt e f ≡ false
age_asymm (i, a) (j, b) h = ground arith

age_trans : (e f g : Entry) → age_lt f e ≡ false → age_lt g f ≡ false → age_lt g e ≡ false
age_trans (i, a) (j, b) (k, c) h l = ground arith

tail_fresh :
    (i : ℕ) (o : TrackedObservation) (j : ℕ) (p : TrackedObservation) (s : ObservationStore)
    → Distinct ((i, o) ∷ (j, p) ∷ s)
    → PaneMap.get i s ≡ none
unfolding PaneMap.get
tail_fresh i o j p s d = ground (arith, d.0)

-- The scan ends at an entry of the list that no other is older than.
pub oldest_from_lem :
    (e : Entry) (s : ObservationStore)
    → Distinct (e ∷ s)
    → (w : Entry) × (oldest_from e s ≡ w.0)
      × (PaneMap.get w.0 (e ∷ s) ≡ some w.1)
      × IsOldest w (e ∷ s)
unfolding oldest_from PaneMap.get
oldest_from_lem (i, o) [] d = ((i, o), refl, ground arith, (age_lt_irrefl (i, o), tt))
oldest_from_lem (i, o) ((j, p) ∷ s) d = elim (Bool-cases (age_lt (j, p) (i, o))) [
  | inl older ↦ rw older (
      let (w, e, m, h) = oldest_from_lem (j, p) s d.1 in
      (
        w,
        e,
        get-cons_fresh i w.0 o w.1 ((j, p) ∷ s) d.0 m,
        (age_trans w (j, p) (i, o) h.0 (age_asymm (i, o) (j, p) older), h),
      ))
  | inr younger ↦ rw younger (
      let (w, e, m, h) = oldest_from_lem (i, o) s (tail_fresh i o j p s d, d.1.1) in
      (
        w,
        e,
        get-second_fresh i j w.0 o p w.1 s d.1.0 m,
        (h.0, (age_trans w (i, o) (j, p) h.0 younger, h.1)),
      ))
]

pub oldest_over_cap :
    (s : ObservationStore)
    → Distinct s
    → max_tracked_panes < length s
    → (w : Entry) × (oldest s ≡ some w.0) × (PaneMap.get w.0 s ≡ some w.1) × IsOldest w s
unfolding oldest
oldest_over_cap [] d h = absurd (omega arith)
oldest_over_cap (e ∷ s) d h = let (w, eq, m, o) = oldest_from_lem e s d in (w, ap some eq, m, o)

-- What holds of a store and is kept when its oldest pane is dropped, from a store that is too
-- large, holds after the eviction.
module _ {ℓ} (P : StatusStore → Type ℓ)
    (keep : (w : Entry) (s : StatusStore)
      → max_tracked_panes < length s.store
      → Distinct s.store
      → PaneMap.get w.0 s.store ≡ some w.1
      → IsOldest w s.store
      → P s
      → P (drop_pane w.0 s)) where
  evict_loop_induction :
      (fuel : ℕ) (s : StatusStore) → Distinct s.store → P s → P (evict_loop fuel s)
  unfolding evict_loop
  evict_loop_induction zero s d h = h
  evict_loop_induction (suc fuel) s d h =
      elim (Bool-cases (leb (length s.store) max_tracked_panes)) [
        | inl fits ↦ rw fits h
        | inr over ↦
            let large : max_tracked_panes < length s.store = ground arith in
            let (w, eq, m, o) = oldest_over_cap s.store d large in
            rw (over, eq)
              (evict_loop_induction fuel (drop_pane w.0 s)
                (unfold drop_pane in Distinct-remove w.0 s.store d) (keep w s large d m o h))
      ]

  pub evict_induction : (s : StatusStore) → Distinct s.store → P s → P (evict_over_cap s)
  unfolding evict_over_cap
  evict_induction s d h = evict_loop_induction (length s.store) s d h

evict_loop-length :
    (fuel : ℕ) (s : StatusStore)
    → Distinct s.store
    → length s.store ≤ fuel + max_tracked_panes
    → length (evict_loop fuel s).store ≤ max_tracked_panes
unfolding evict_loop drop_pane
evict_loop-length zero s d h = omega arith
evict_loop-length (suc fuel) s d h = elim (Bool-cases (leb (length s.store) max_tracked_panes)) [
  | inl fits ↦ rw fits (ground arith)
  | inr over ↦
      let large : max_tracked_panes < length s.store = ground arith in
      let (w, eq, m, o) = oldest_over_cap s.store d large in
      rw (over, eq)
        (evict_loop-length fuel (drop_pane w.0 s) (Distinct-remove w.0 s.store d)
          (omega (arith, h, length-remove-lt w.0 w.1 s.store m)))
]

-- The fuel is enough: the store is within its cap afterwards.
pub length-evict :
    (s : StatusStore) → Distinct s.store → length (evict_over_cap s).store ≤ max_tracked_panes
unfolding evict_over_cap
length-evict s d = evict_loop-length (length s.store) s d (omega arith)

pub evict-eq_self : (s : StatusStore) → length s.store ≤ max_tracked_panes → evict_over_cap s ≡ s
unfolding evict_over_cap
evict-eq_self s h = go (length s.store) s h
  where
    go : (f : ℕ) (t : StatusStore) → length t.store ≤ max_tracked_panes → evict_loop f t ≡ t
    go zero t k = unfold evict_loop in refl
    go (suc f) t k = unfold evict_loop in ground arith

-- A pane reads as before the eviction, or is gone.
abbrev pub IsThinned : StatusStore → StatusStore → Type 0
IsThinned s t =
    (k : ℕ) → (PaneMap.get k t.store ≡ PaneMap.get k s.store) ⊎ (PaneMap.get k t.store ≡ none)

-- Whoever is gone did not change later than anyone who stayed.
abbrev pub EvictsOldest : StatusStore → StatusStore → Type 0
EvictsOldest s t =
    (k : ℕ) (o : TrackedObservation)
    → PaneMap.get k s.store ≡ some o
    → PaneMap.get k t.store ≡ none
    → (j : ℕ) (p : TrackedObservation) → PaneMap.get j t.store ≡ some p
    → age_lt (j, p) (k, o) ≡ false

drop-IsThinned : (w : ℕ) (s t : StatusStore) → IsThinned s t → IsThinned s (drop_pane w t)
unfolding drop_pane
drop-IsThinned w s t h k = ground (arith, h k, get-remove w k t.store)

drop-EvictsOldest :
    (w : Entry) (s t : StatusStore)
    → PaneMap.get w.0 t.store ≡ some w.1
    → IsOldest w t.store
    → IsThinned s t
    → EvictsOldest s t
    → EvictsOldest s (drop_pane w.0 t)
unfolding drop_pane
drop-EvictsOldest (i, w) s t m old thin h k o before gone j p stays = elim (Bool-cases (i == k)) [
  | inl hit ↦ ground (
    arith,
    All-get (λ f. age_lt f (i, w) ≡ false) j p t.store old,
    thin k,
    m,
    before,
    stays,
    get-remove i j t.store,
    hit,
  )
  | inr miss ↦
      h k o before (ground (arith, gone, miss, get-remove i k t.store)) j p
        (ground (arith, stays, get-remove i j t.store))
]

-- In a store with each pane once, the eviction takes out the panes that changed longest ago, and
-- leaves every other pane's observation as it was.
pub evict_oldest :
    (s : StatusStore)
    → Distinct s.store
    → IsThinned s (evict_over_cap s) × EvictsOldest s (evict_over_cap s)
evict_oldest s d =
    evict_induction (λ t. IsThinned s t × EvictsOldest s t)
      (λ w t large dt m old h. (drop-IsThinned w.0 s t h.0, drop-EvictsOldest w s t m old h.0 h.1))
      s d (λ k. inl refl, λ k o before gone. ground (arith, before, gone))
