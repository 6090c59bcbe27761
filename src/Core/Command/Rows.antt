-- ===== src/Core/Command/Rows.antt =====
-- crates/core/src/command.rs: what a timer tick does to one row.
use zj_radar.Prelude.{
  ℕ, ◌-◌, ◌≤◌, ◌≡◌, ◌≢◌, refl, ap, arith, inl, inr, Bool, true, false, none, some, List, [], ◌∷◌,
  any, All, ◌==◌, ==_iff, Bool-cases, Option-cases,
}
use zj_radar.Prelude.PaneMap
use zj_radar.Prelude.PaneMap.{PaneMap, Distinct, get-insert, get-insert_self, Distinct-insert}
use zj_radar.Core.Status.{Status, eq_status}
use zj_radar.Core.Observation.{TrackedObservation}
use zj_radar.Core.Command.{CommandStore, Pending, debounce_ticks}
use zj_radar.Core.Command.Timer.{
  TimerReport, promoted, promote_one, promote_all, confirmed, finish_one, finish_all, due_pending,
  due_done,
}

abbrev pub Work : Type 0
Work = TimerReport × CommandStore

abbrev pub Avoids : ℕ → List ℕ → Type 0
Avoids k ids = All (λ id. id ≢ k) ids

abbrev pub is_running_row : TrackedObservation → Bool
is_running_row o = eq_status o.status Status.running

-- Each row stands once, whatever the timer does.
promote_one-Distinct :
    (tick id : ℕ) (a : Work) → Distinct a.1.store → Distinct (promote_one tick id a).1.store
unfolding promote_one
promote_one-Distinct tick id (r, s) d = elim (Option-cases (PaneMap.get id s.pending)) [
  | inl e ↦ rw (promote_one, e) d
  | inr (p, e) ↦ rw (promote_one, e) (Distinct-insert id _ s.store d)
]

finish_one-Distinct :
    (tick now id : ℕ) (a : Work) → Distinct a.1.store → Distinct (finish_one tick now id a).1.store
unfolding finish_one
finish_one-Distinct tick now id (r, s) d = elim (Option-cases (PaneMap.get id s.store)) [
  | inl e ↦ rw (finish_one, e) d
  | inr (o, e) ↦ elim (Bool-cases (is_running_row o)) [
    | inl runs ↦ rw (finish_one, e, runs) (Distinct-insert id _ s.store d)
    | inr not_running ↦ rw (finish_one, e, not_running) d
  ]
]

pub promote_all-Distinct :
    (tick : ℕ) (ids : List ℕ) (a : Work)
    → Distinct a.1.store
    → Distinct (promote_all tick ids a).1.store
unfolding promote_all
promote_all-Distinct tick [] a d = d
promote_all-Distinct tick (id ∷ ids) a d =
    promote_all-Distinct tick ids (promote_one tick id a) (promote_one-Distinct tick id a d)

pub finish_all-Distinct :
    (tick now : ℕ) (ids : List ℕ) (a : Work)
    → Distinct a.1.store
    → Distinct (finish_all tick now ids a).1.store
unfolding finish_all
finish_all-Distinct tick now [] a d = d
finish_all-Distinct tick now (id ∷ ids) a d =
    finish_all-Distinct tick now ids (finish_one tick now id a)
      (finish_one-Distinct tick now id a d)

-- Promotion: only the rows of the list, and none of the clocks.
promote_one-frame :
    (tick id k : ℕ) (a : Work)
    → id ≢ k
    → PaneMap.get k (promote_one tick id a).1.store ≡ PaneMap.get k a.1.store
unfolding promote_one
promote_one-frame tick id k (r, s) ne = elim (Option-cases (PaneMap.get id s.pending)) [
  | inl e ↦ rw (promote_one, e) refl
  | inr (p, e) ↦
      rw (promote_one, e)
        (ground (arith, get-insert id k (promoted tick p (PaneMap.get id s.store)) s.store))
]

promote_one-clocks :
    (tick id : ℕ) (a : Work) → (promote_one tick id a).1.pending_done ≡ a.1.pending_done
unfolding promote_one
promote_one-clocks tick id (r, s) = elim (Option-cases (PaneMap.get id s.pending)) [
  | inl e ↦ rw (promote_one, e) refl
  | inr (p, e) ↦ rw (promote_one, e) refl
]

pub promote_all-clocks :
    (tick : ℕ) (ids : List ℕ) (a : Work)
    → (promote_all tick ids a).1.pending_done ≡ a.1.pending_done
unfolding promote_all
promote_all-clocks tick [] a = refl
promote_all-clocks tick (id ∷ ids) a =
    rw (promote_all-clocks tick ids (promote_one tick id a)) (promote_one-clocks tick id a)

pub promote_all-frame :
    (tick k : ℕ) (ids : List ℕ) (a : Work)
    → Avoids k ids
    → PaneMap.get k (promote_all tick ids a).1.store ≡ PaneMap.get k a.1.store
unfolding promote_all
promote_all-frame tick k [] a h = refl
promote_all-frame tick k (id ∷ ids) a h =
    rw (promote_all-frame tick k ids (promote_one tick id a) h.1)
      (promote_one-frame tick id k a h.0)

pub due_pending-Avoids :
    (tick k : ℕ) (m : PaneMap Pending) → PaneMap.get k m ≡ none → Avoids k (due_pending tick m)
unfolding due_pending PaneMap.get
due_pending-Avoids tick k [] h = tt
due_pending-Avoids tick k ((j, p) ∷ m) h = ground (arith, due_pending-Avoids tick k m)

-- The confirm: a row that runs is done, and any other row stays.
finish_one-keeps :
    (tick now id k : ℕ) (a : Work) (o : TrackedObservation)
    → PaneMap.get k a.1.store ≡ some o
    → is_running_row o ≡ false
    → PaneMap.get k (finish_one tick now id a).1.store ≡ some o
unfolding finish_one
finish_one-keeps tick now id k (r, s) o e still = elim (Option-cases (PaneMap.get id s.store)) [
  | inl f ↦ rw (finish_one, f) e
  | inr (q, f) ↦ elim (Bool-cases (is_running_row q)) [
    | inr other ↦ rw (finish_one, f, other) e
    | inl runs ↦
        rw (finish_one, f, runs)
          (ground (
            arith,
            e,
            f,
            still,
            runs,
            get-insert id k (confirmed tick now q) s.store,
            ap (λ (x : ℕ). PaneMap.get x s.store),
          ))
  ]
]

finish_all-keeps :
    (tick now k : ℕ) (ids : List ℕ) (a : Work) (o : TrackedObservation)
    → PaneMap.get k a.1.store ≡ some o
    → is_running_row o ≡ false
    → PaneMap.get k (finish_all tick now ids a).1.store ≡ some o
unfolding finish_all
finish_all-keeps tick now k [] a o e still = e
finish_all-keeps tick now k (id ∷ ids) a o e still =
    finish_all-keeps tick now k ids (finish_one tick now id a) o
      (finish_one-keeps tick now id k a o e still) still

finish_one-confirms :
    (tick now k : ℕ) (a : Work) (o : TrackedObservation)
    → PaneMap.get k a.1.store ≡ some o
    → is_running_row o ≡ true
    → PaneMap.get k (finish_one tick now k a).1.store ≡ some (confirmed tick now o)
unfolding finish_one
finish_one-confirms tick now k (r, s) o e runs =
    rw (finish_one, e, runs) (get-insert_self k (confirmed tick now o) s.store)

finish_one-frame :
    (tick now id k : ℕ) (a : Work)
    → id ≢ k
    → PaneMap.get k (finish_one tick now id a).1.store ≡ PaneMap.get k a.1.store
unfolding finish_one
finish_one-frame tick now id k (r, s) ne = elim (Option-cases (PaneMap.get id s.store)) [
  | inl f ↦ rw (finish_one, f) refl
  | inr (q, f) ↦ elim (Bool-cases (is_running_row q)) [
    | inr other ↦ rw (finish_one, f, other) refl
    | inl runs ↦
        rw (finish_one, f, runs) (ground (arith, get-insert id k (confirmed tick now q) s.store))
  ]
]

confirmed-rests :
    (tick now : ℕ) (o : TrackedObservation) → is_running_row (confirmed tick now o) ≡ false
unfolding confirmed eq_status
confirmed-rests tick now o = refl

pub finish_all-confirms :
    (tick now k : ℕ) (ids : List ℕ) (a : Work) (o : TrackedObservation)
    → any (λ id. id == k) ids ≡ true
    → PaneMap.get k a.1.store ≡ some o
    → is_running_row o ≡ true
    → PaneMap.get k (finish_all tick now ids a).1.store ≡ some (confirmed tick now o)
unfolding finish_all any
finish_all-confirms tick now k [] a o h e runs = absurd (cc h)
finish_all-confirms tick now k (id ∷ ids) a o h e runs = elim (Bool-cases (id == k)) [
  | inl hit ↦
      let id≡k : id ≡ k = (==_iff id k).0 hit in
      rw id≡k (
        finish_all-keeps tick now k ids (finish_one tick now k a) (confirmed tick now o)
          (finish_one-confirms tick now k a o e runs) (confirmed-rests tick now o))
  | inr miss ↦
      finish_all-confirms tick now k ids (finish_one tick now id a) o (ground (arith, miss, h))
        (rw (finish_one-frame tick now id k a (λ id≡k. ground arith)) e) runs
]

pub due_done-lists :
    (tick k since : ℕ) (m : PaneMap ℕ)
    → PaneMap.get k m ≡ some since
    → debounce_ticks ≤ tick - since
    → any (λ id. id == k) (due_done tick m) ≡ true
unfolding due_done PaneMap.get any
due_done-lists tick k since [] e h = absurd (cc e)
due_done-lists tick k since ((j, t) ∷ m) e h = ground (arith, due_done-lists tick k since m)
