-- ===== src/Core/Command/Armed.antt =====
-- crates/core/src/command.rs: the ticks between the end of a command and the end of its debounce
-- window.
use zj_radar.Prelude.{
  ℕ, ◌+◌, ◌<◌, ◌≡◌, ◌≢◌, arith, inl, inr, true, false, none, some, List, [], ◌∷◌, All, ◌==◌, ==_iff,
  Bool-cases, Option-cases,
}
use zj_radar.Prelude.PaneMap
use zj_radar.Prelude.PaneMap.{
  PaneMap, Distinct, get-insert, get-remove, Distinct-insert, Distinct-remove,
}
use zj_radar.Core.Status.{eq_status}
use zj_radar.Core.Observation.{TrackedObservation}
use zj_radar.Core.Command.{CommandStore, debounce_ticks}
use zj_radar.Core.Command.Timer.{
  promoted, promote_one, promote_all, confirmed, finish_one, finish_all, due_pending, due_done,
  is_stale, stale, muted, recede_one, recede_all, no_report, on_timer,
}
use zj_radar.Core.Command.Rows.{Work, Avoids, is_running_row, due_pending-Avoids}
use zj_radar.Core.Command.Confirm.{stale-Avoids}

-- The row of the pane runs, no other run of the pane is pending, and its end is armed since a tick.
pub record IsArmed (k since : ℕ) (o : TrackedObservation) (s : CommandStore) : Type 0 where
  pub one_row : Distinct s.store
  pub one_clock : Distinct s.pending_done
  pub row : PaneMap.get k s.store ≡ some o
  pub runs : is_running_row o ≡ true
  pub free : PaneMap.get k s.pending ≡ none
  pub clock : PaneMap.get k s.pending_done ≡ some since

module _ (k since : ℕ) (o : TrackedObservation) (tick now : ℕ) where
  promote_one-IsArmed :
      (id : ℕ) (a : Work)
      → id ≢ k
      → IsArmed k since o a.1
      → IsArmed k since o (promote_one tick id a).1
  unfolding promote_one
  promote_one-IsArmed id (r, s) ne h = elim (Option-cases (PaneMap.get id s.pending)) [
    | inl e ↦ rw (promote_one, e) h
    | inr (p, e) ↦
        rw (promote_one, e)
          (record {
            one_row = Distinct-insert id _ s.store h.one_row;
            one_clock = h.one_clock;
            runs = h.runs;
            clock = h.clock;
            row =
                ground (
                  arith,
                  h.row,
                  get-insert id k (promoted tick p (PaneMap.get id s.store)) s.store,
                );
            free = ground (arith, h.free, get-remove id k s.pending);
          })
  ]

  promote_all-IsArmed :
      (ids : List ℕ) (a : Work)
      → Avoids k ids
      → IsArmed k since o a.1
      → IsArmed k since o (promote_all tick ids a).1
  unfolding promote_all
  promote_all-IsArmed [] a away h = h
  promote_all-IsArmed (id ∷ ids) a away h =
      promote_all-IsArmed ids (promote_one tick id a) away.1 (promote_one-IsArmed id a away.0 h)

  -- The clock of another pane is taken out.
  unclocked-IsArmed :
      (id : ℕ) (s : CommandStore)
      → id ≢ k
      → IsArmed k since o s
      → IsArmed k since o (record s { pending_done = PaneMap.remove id s.pending_done })
  unclocked-IsArmed id s ne h = record {
    one_row = h.one_row;
    one_clock = Distinct-remove id s.pending_done h.one_clock;
    row = h.row;
    runs = h.runs;
    free = h.free;
    clock = ground (arith, h.clock, get-remove id k s.pending_done);
  }

  -- The row of another pane is written.
  written-IsArmed :
      (id : ℕ) (q : TrackedObservation) (s : CommandStore)
      → id ≢ k
      → IsArmed k since o s
      → IsArmed k since o (record s { store = PaneMap.insert id q s.store })
  written-IsArmed id q s ne h = record {
    one_row = Distinct-insert id q s.store h.one_row;
    one_clock = h.one_clock;
    row = ground (arith, h.row, get-insert id k q s.store);
    runs = h.runs;
    free = h.free;
    clock = h.clock;
  }

  finish_one-IsArmed :
      (id : ℕ) (a : Work)
      → id ≢ k
      → IsArmed k since o a.1
      → IsArmed k since o (finish_one tick now id a).1
  unfolding finish_one
  finish_one-IsArmed id (r, s) ne h = elim (Option-cases (PaneMap.get id s.store)) [
    | inl f ↦ rw (finish_one, f) (unclocked-IsArmed id s ne h)
    | inr (q, f) ↦ elim (Bool-cases (is_running_row q)) [
      | inr other ↦ rw (finish_one, f, other) (unclocked-IsArmed id s ne h)
      | inl runs ↦
          rw (finish_one, f, runs)
            (written-IsArmed id (confirmed tick now q)
              (record s { pending_done = PaneMap.remove id s.pending_done }) ne
              (unclocked-IsArmed id s ne h))
    ]
  ]

  finish_all-IsArmed :
      (ids : List ℕ) (a : Work)
      → Avoids k ids
      → IsArmed k since o a.1
      → IsArmed k since o (finish_all tick now ids a).1
  unfolding finish_all
  finish_all-IsArmed [] a away h = h
  finish_all-IsArmed (id ∷ ids) a away h =
      finish_all-IsArmed ids (finish_one tick now id a) away.1 (finish_one-IsArmed id a away.0 h)

  recede_one-IsArmed :
      (id : ℕ) (a : Work)
      → id ≢ k
      → IsArmed k since o a.1
      → IsArmed k since o (recede_one tick id a).1
  unfolding recede_one
  recede_one-IsArmed id (r, s) ne h = elim (Option-cases (PaneMap.get id s.store)) [
    | inl f ↦ rw (recede_one, f) h
    | inr (q, f) ↦ rw (recede_one, f) (written-IsArmed id (muted tick q) s ne h)
  ]

  recede_all-IsArmed :
      (ids : List ℕ) (a : Work)
      → Avoids k ids
      → IsArmed k since o a.1
      → IsArmed k since o (recede_all tick ids a).1
  unfolding recede_all
  recede_all-IsArmed [] a away h = h
  recede_all-IsArmed (id ∷ ids) a away h =
      recede_all-IsArmed ids (recede_one tick id a) away.1 (recede_one-IsArmed id a away.0 h)

  absent-Avoids : (m : PaneMap ℕ) → PaneMap.get k m ≡ none → Avoids k (due_done tick m)
  unfolding due_done PaneMap.get
  absent-Avoids [] e = tt
  absent-Avoids ((j, t) ∷ m) e = ground (arith, absent-Avoids m)

  -- A clock that has not run for the window is not due.
  due_done-Avoids :
      (m : PaneMap ℕ)
      → Distinct m
      → PaneMap.get k m ≡ some since
      → tick < since + debounce_ticks
      → Avoids k (due_done tick m)
  unfolding due_done PaneMap.get
  due_done-Avoids [] d e early = tt
  due_done-Avoids ((j, t) ∷ m) d e early = elim (Bool-cases (j == k)) [
    | inl hit ↦
        let fresh : PaneMap.get k m ≡ none = rw (← (==_iff j k).0 hit) d.0 in
        ground (arith, hit, absent-Avoids m fresh)
    | inr miss ↦ ground (arith, miss, due_done-Avoids m d.1)
  ]

  running-fresh : is_running_row o ≡ true → is_stale tick o ≡ false
  unfolding is_stale eq_status
  running-fresh h = ground arith

  -- A tick before the window is over keeps the row and its clock.
  pub on_timer-IsArmed :
      (s : CommandStore)
      → IsArmed k since o s
      → tick < since + debounce_ticks
      → IsArmed k since o (on_timer tick now s).1
  unfolding on_timer
  on_timer-IsArmed s h early =
      let a = promote_all tick (due_pending tick s.pending) (no_report, s) in
      let ha : IsArmed k since o a.1 =
        promote_all-IsArmed (due_pending tick s.pending) (no_report, s)
          (due_pending-Avoids tick k s.pending h.free) h in
      let b = finish_all tick now (due_done tick a.1.pending_done) a in
      let hb : IsArmed k since o b.1 =
        finish_all-IsArmed (due_done tick a.1.pending_done) a
          (due_done-Avoids a.1.pending_done ha.one_clock ha.clock early) ha in
      recede_all-IsArmed (stale tick b.1.store) b
        (stale-Avoids tick k b.1.store o hb.one_row hb.row (running-fresh h.runs)) hb

-- The timer calls at the ticks and clock times of a list.
unfoldable pub timers : List (ℕ × ℕ) → CommandStore → CommandStore
timers [] s = s
timers ((tick, now) ∷ ts) s = timers ts (on_timer tick now s).1

-- The tick comes before the window that starts at `since` is over.
abbrev pub IsEarly : ℕ → ℕ × ℕ → Type 0
IsEarly since t = t.0 < since + debounce_ticks

pub timers-IsArmed :
    (k since : ℕ) (o : TrackedObservation) (ts : List (ℕ × ℕ)) (s : CommandStore)
    → IsArmed k since o s
    → All (IsEarly since) ts
    → IsArmed k since o (timers ts s)
unfolding timers
timers-IsArmed k since o [] s h early = h
timers-IsArmed k since o ((tick, now) ∷ ts) s h early =
    timers-IsArmed k since o ts (on_timer tick now s).1
      (on_timer-IsArmed k since o tick now s h early.0) early.1
