-- ===== src/Core/Command/Confirm.antt =====
-- crates/core/src/command.rs: the end of a command, confirmed by a timer tick.
use zj_radar.Prelude.{
  ℕ, ◌-◌, ◌≤◌, ◌≡◌, ◌≢◌, refl, arith, inl, inr, true, false, none, some, List, [], ◌∷◌, any, ◌==◌,
  ==_iff, Bool-cases, Option-cases,
}
use zj_radar.Prelude.PaneMap
use zj_radar.Prelude.PaneMap.{PaneMap, Distinct, get-insert}
use zj_radar.Core.Observation.{TrackedObservation, ObservationStore}
use zj_radar.Core.Command.{CommandStore, debounce_ticks}
use zj_radar.Core.Command.Timer.{
  promote_all, confirmed, finish_all, is_stale, stale, muted, recede_one, recede_all, due_pending,
  due_done, no_report, on_timer,
}
use zj_radar.Core.Command.Rows.{
  Work, Avoids, is_running_row, promote_all-Distinct, finish_all-Distinct, promote_all-clocks,
  promote_all-frame, due_pending-Avoids, finish_all-confirms, due_done-lists,
}

-- The recede: only the rows of the list, and no row that is fresh.
recede_one-frame :
    (tick id k : ℕ) (a : Work)
    → id ≢ k
    → PaneMap.get k (recede_one tick id a).1.store ≡ PaneMap.get k a.1.store
unfolding recede_one
recede_one-frame tick id k (r, s) ne = elim (Option-cases (PaneMap.get id s.store)) [
  | inl f ↦ rw (recede_one, f) refl
  | inr (q, f) ↦ rw (recede_one, f) (ground (arith, get-insert id k (muted tick q) s.store))
]

pub recede_all-frame :
    (tick k : ℕ) (ids : List ℕ) (a : Work)
    → Avoids k ids
    → PaneMap.get k (recede_all tick ids a).1.store ≡ PaneMap.get k a.1.store
unfolding recede_all
recede_all-frame tick k [] a h = refl
recede_all-frame tick k (id ∷ ids) a h =
    rw (recede_all-frame tick k ids (recede_one tick id a) h.1) (recede_one-frame tick id k a h.0)

absent-Avoids :
    (tick k : ℕ) (m : ObservationStore) → PaneMap.get k m ≡ none → Avoids k (stale tick m)
unfolding stale PaneMap.get
absent-Avoids tick k [] h = tt
absent-Avoids tick k ((j, p) ∷ m) h = ground (arith, absent-Avoids tick k m)

pub stale-Avoids :
    (tick k : ℕ) (m : ObservationStore) (o : TrackedObservation)
    → Distinct m
    → PaneMap.get k m ≡ some o
    → is_stale tick o ≡ false
    → Avoids k (stale tick m)
unfolding stale PaneMap.get
stale-Avoids tick k [] o d e fresh = tt
stale-Avoids tick k ((j, p) ∷ m) o d e fresh = elim (Bool-cases (j == k)) [
  | inl hit ↦
      let j≡k : j ≡ k = (==_iff j k).0 hit in
      let p≡o : p ≡ o = ground (arith, hit) in
      rw (p≡o, fresh) (absent-Avoids tick k m (rw (← j≡k) d.0))
  | inr miss ↦
      let rest = stale-Avoids tick k m o d.1 (ground (arith, miss)) fresh in
      ground (arith, rest, miss)
]

confirmed-fresh :
    (tick now : ℕ) (o : TrackedObservation) → is_stale tick (confirmed tick now o) ≡ false
unfolding is_stale confirmed
confirmed-fresh tick now o = ground arith

-- A row that runs, whose end was armed a debounce window ago and that has no run pending, is done
-- after the tick.
pub on_timer-confirms :
    (tick now k since : ℕ) (s : CommandStore) (o : TrackedObservation)
    → Distinct s.store
    → PaneMap.get k s.store ≡ some o
    → is_running_row o ≡ true
    → PaneMap.get k s.pending ≡ none
    → PaneMap.get k s.pending_done ≡ some since
    → debounce_ticks ≤ tick - since
    → PaneMap.get k (on_timer tick now s).1.store ≡ some (confirmed tick now o)
unfolding on_timer
on_timer-confirms tick now k since s o d e runs free armed due =
    let start : Work = (no_report, s) in
    let ids = due_pending tick s.pending in
    let a = promote_all tick ids start in
    let dones = due_done tick a.1.pending_done in
    let b = finish_all tick now dones a in
    let e₁ : PaneMap.get k a.1.store ≡ some o =
      rw (promote_all-frame tick k ids start (due_pending-Avoids tick k s.pending free)) e in
    let listed : any (λ id. id == k) dones ≡ true =
      rw (promote_all-clocks tick ids start)
        (due_done-lists tick k since s.pending_done armed due) in
    let e₂ : PaneMap.get k b.1.store ≡ some (confirmed tick now o) =
      finish_all-confirms tick now k dones a o listed e₁ runs in
    let d₂ : Distinct b.1.store =
      finish_all-Distinct tick now dones a (promote_all-Distinct tick ids start d) in
    rw
      (recede_all-frame tick k (stale tick b.1.store) b
        (stale-Avoids tick k b.1.store (confirmed tick now o) d₂ e₂ (confirmed-fresh tick now o)))
      e₂
