-- ===== src/Core/Command/Recede.antt =====
-- crates/core/src/command.rs: what a timer tick leaves on the cards, and what it reports.
use mathlib.Core.List.{Memᴰ}
use mathlib.Core.List.Memᴰ
use zj_radar.Prelude.{
  ℕ, ◌≡◌, ◌⊎◌, refl, arith, inl, inr, true, some, List, [], ◌∷◌, ◌==◌, ==_iff, Bool-cases,
  Option-cases,
}
use zj_radar.Prelude.PaneMap
use zj_radar.Prelude.PaneMap.{PaneMap, get-insert}
use zj_radar.Core.Status.{Status, eq_status, is_completion}
use zj_radar.Core.Observation.{TrackedObservation}
use zj_radar.Core.Command.{CommandStore}
use zj_radar.Core.Command.Timer.{
  TimerReport, displaced, promote_one, promote_all, finish_one, finish_all, stale, recede_one,
  recede_all, due_pending, due_done, no_report, on_timer,
}

running_unfinished :
    (st : Status) → is_completion st ≡ true → eq_status st Status.running ≡ true → ⊥
unfolding is_completion eq_status
running_unfinished Status.idle c e = absurd (cc (c))
running_unfinished Status.done c e = absurd (cc (e))
running_unfinished Status.running c e = absurd (cc (c))
running_unfinished Status.pending c e = absurd (cc (c))
running_unfinished Status.error c e = absurd (cc (e))

module _ (k : ℕ) (o : TrackedObservation) where
  -- The row is still on its card, or it was handed on to the ledger.
  abbrev pub IsAccounted : TimerReport × CommandStore → Type 0
  IsAccounted a = (PaneMap.get k a.1.store ≡ some o) ⊎ Memᴰ (k, o) a.0.receded

  promote_one-IsAccounted :
      is_completion o.status ≡ true
      → (tick id : ℕ) (r : TimerReport) (s : CommandStore) → IsAccounted (r, s)
      → IsAccounted (promote_one tick id (r, s))
  unfolding promote_one
  promote_one-IsAccounted c tick id r s h = elim (Option-cases (PaneMap.get id s.pending)) [
    | inl e ↦ rw (promote_one, e) h
    | inr (p, e) ↦ elim h [
      | inr handed ↦
          rw (promote_one, e)
            (inr (Memᴰ.append_left (displaced id (PaneMap.get id s.store)) handed))
      | inl on ↦ elim (Bool-cases (id == k)) [
        | inl hit ↦
            let id≡k : id ≡ k = (==_iff id k).0 hit in
            rw (promote_one, e, id≡k, on, c) (inr (Memᴰ.append_right r.receded (Memᴰ.head refl)))
        | inr miss ↦ rw (promote_one, e) (inl (rw (get-insert, miss) on))
      ]
    ]
  ]

  finish_one-IsAccounted :
      is_completion o.status ≡ true
      → (tick now id : ℕ) (r : TimerReport) (s : CommandStore) → IsAccounted (r, s)
      → IsAccounted (finish_one tick now id (r, s))
  unfolding finish_one
  finish_one-IsAccounted c tick now id r s h = elim (Option-cases (PaneMap.get id s.store)) [
    | inl e ↦ rw (finish_one, e) h
    | inr (q, e) ↦ elim (Bool-cases (eq_status q.status Status.running)) [
      | inr other ↦ rw (finish_one, e, other) h
      | inl running ↦
          rw (finish_one, e, running)
            (elim h [
              | inr handed ↦ inr handed
              | inl on ↦ elim (Bool-cases (id == k)) [
                | inl hit ↦
                    let id≡k : id ≡ k = (==_iff id k).0 hit in
                    let q≡o : q ≡ o = ground arith in
                    absurd (running_unfinished o.status c (rw (← q≡o) running))
                | inr miss ↦ inl (rw (get-insert, miss) on)
              ]
            ])
    ]
  ]

  recede_one-IsAccounted :
      (tick id : ℕ) (r : TimerReport) (s : CommandStore)
      → IsAccounted (r, s)
      → IsAccounted (recede_one tick id (r, s))
  unfolding recede_one
  recede_one-IsAccounted tick id r s h = elim (Option-cases (PaneMap.get id s.store)) [
    | inl e ↦ rw (recede_one, e) h
    | inr (q, e) ↦ elim h [
      | inr handed ↦ rw (recede_one, e) (inr (Memᴰ.append_left ((id, q) ∷ []) handed))
      | inl on ↦ elim (Bool-cases (id == k)) [
        | inl hit ↦
            let id≡k : id ≡ k = (==_iff id k).0 hit in
            let q≡o : q ≡ o = ground arith in
            rw (recede_one, e, id≡k, q≡o) (inr (Memᴰ.append_right r.receded (Memᴰ.head refl)))
        | inr miss ↦ rw (recede_one, e) (inl (rw (get-insert, miss) on))
      ]
    ]
  ]

  promote_all-IsAccounted :
      is_completion o.status ≡ true
      → (tick : ℕ) (ids : List ℕ) (a : TimerReport × CommandStore) → IsAccounted a
      → IsAccounted (promote_all tick ids a)
  unfolding promote_all
  promote_all-IsAccounted c tick [] a h = h
  promote_all-IsAccounted c tick (id ∷ ids) a h =
      promote_all-IsAccounted c tick ids (promote_one tick id a)
        (promote_one-IsAccounted c tick id a.0 a.1 h)

  finish_all-IsAccounted :
      is_completion o.status ≡ true
      → (tick now : ℕ) (ids : List ℕ) (a : TimerReport × CommandStore) → IsAccounted a
      → IsAccounted (finish_all tick now ids a)
  unfolding finish_all
  finish_all-IsAccounted c tick now [] a h = h
  finish_all-IsAccounted c tick now (id ∷ ids) a h =
      finish_all-IsAccounted c tick now ids (finish_one tick now id a)
        (finish_one-IsAccounted c tick now id a.0 a.1 h)

  recede_all-IsAccounted :
      (tick : ℕ) (ids : List ℕ) (a : TimerReport × CommandStore)
      → IsAccounted a
      → IsAccounted (recede_all tick ids a)
  unfolding recede_all
  recede_all-IsAccounted tick [] a h = h
  recede_all-IsAccounted tick (id ∷ ids) a h =
      recede_all-IsAccounted tick ids (recede_one tick id a)
        (recede_one-IsAccounted tick id a.0 a.1 h)

  -- A completion that a timer tick takes off its card, by a new run or by age, is handed on to the
  -- ledger: what was done or failed before is on its card unchanged, or is reported.
  pub on_timer-IsAccounted :
      (tick now : ℕ) (s : CommandStore)
      → is_completion o.status ≡ true
      → PaneMap.get k s.store ≡ some o
      → IsAccounted (on_timer tick now s)
  unfolding on_timer
  on_timer-IsAccounted tick now s c on =
      let a = promote_all tick (due_pending tick s.pending) (no_report, s) in
      let b = finish_all tick now (due_done tick a.1.pending_done) a in
      recede_all-IsAccounted tick (stale tick b.1.store) b (
        finish_all-IsAccounted c tick now (due_done tick a.1.pending_done) a
          (promote_all-IsAccounted c tick (due_pending tick s.pending) (no_report, s) (inl on)))
