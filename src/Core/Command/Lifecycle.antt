-- ===== src/Core/Command/Lifecycle.antt =====
-- crates/core/src/command.rs: the life of a command, from its foreground to its row.
use zj_radar.Prelude.{
  ℕ, ◌+◌, ◌≤◌, ◌≡◌, ap, arith, String, Bool, true, Option, none, some, List, All, unwrap_or,
}
use zj_radar.Prelude.PaneMap
use zj_radar.Prelude.PaneMap.{Distinct, get-remove, get-or_insert, Distinct-insert}
use zj_radar.Core.Observation.{TrackedObservation}
use zj_radar.Core.Command.{CommandStore, debounce_ticks, arm_tentative_done}
use zj_radar.Core.Command.Argv.{effective_program}
use zj_radar.Core.Command.Intake.{is_ignored, left_foreground, open_run, on_command_changed}
use zj_radar.Core.Command.Timer.{confirmed, on_timer}
use zj_radar.Core.Command.Rows.{is_running_row}
use zj_radar.Core.Command.Armed.{IsArmed, IsEarly, timers, timers-IsArmed}
use zj_radar.Core.Command.Confirm.{on_timer-confirms}

arm_tentative_done-frame :
    (k tick : ℕ) (s : CommandStore)
    → ((arm_tentative_done k tick s).store ≡ s.store)
      × ((arm_tentative_done k tick s).pending ≡ s.pending)
unfolding arm_tentative_done
arm_tentative_done-frame k tick s = ground arith

arm_tentative_done-arms :
    (k tick : ℕ) (s : CommandStore) (o : TrackedObservation)
    → PaneMap.get k s.store ≡ some o
    → is_running_row o ≡ true
    → PaneMap.get k (arm_tentative_done k tick s).pending_done
      ≡ some (unwrap_or (PaneMap.get k s.pending_done) tick)
unfolding arm_tentative_done
arm_tentative_done-arms k tick s o e runs = ground (arith, get-or_insert k k tick s.pending_done)

module _ (to_lowercase : String → String) (k : ℕ) (argv : List String) (fg : Bool)
    (cwd : Option String) where
  -- A change of the foreground command touches no row: rows change by the timer and the exits.
  pub on_command_changed-store :
      (tick : ℕ) (s : CommandStore)
      → (on_command_changed to_lowercase k argv fg cwd tick s).store ≡ s.store
  unfolding on_command_changed left_foreground open_run arm_tentative_done
  on_command_changed-store tick s = ground arith

  -- A shell or an agent: the command that ran has left the foreground.
  on_command_changed-ignored :
      (tick : ℕ) (s : CommandStore)
      → is_ignored (effective_program argv).1 ≡ true
      → on_command_changed to_lowercase k argv fg cwd tick s ≡ left_foreground k tick s
  unfolding on_command_changed
  on_command_changed-ignored tick s ignored = ground (arith, ignored)

  -- The pane is back at a shell, or at an agent: no run is pending, and the row stays as it is until
  -- the timer.
  left_foreground-pending :
      (tick : ℕ) (s : CommandStore) → PaneMap.get k (left_foreground k tick s).pending ≡ none
  unfolding left_foreground
  left_foreground-pending tick s =
      rw (arm_tentative_done-frame k tick (record s { pending = PaneMap.remove k s.pending })).1
        (ground (arith, get-remove k k s.pending))

  left_foreground-store : (tick : ℕ) (s : CommandStore) → (left_foreground k tick s).store ≡ s.store
  unfolding left_foreground
  left_foreground-store tick s =
      (arm_tentative_done-frame k tick (record s { pending = PaneMap.remove k s.pending })).0

  left_foreground-clocks :
      (tick : ℕ) (s : CommandStore)
      → Distinct s.pending_done
      → Distinct (left_foreground k tick s).pending_done
  unfolding left_foreground arm_tentative_done PaneMap.or_insert
  left_foreground-clocks tick s d = ground (arith, Distinct-insert k tick s.pending_done d)

  left_foreground-arms :
      (tick : ℕ) (s : CommandStore) (o : TrackedObservation)
      → PaneMap.get k s.store ≡ some o
      → is_running_row o ≡ true
      → PaneMap.get k (left_foreground k tick s).pending_done
        ≡ some (unwrap_or (PaneMap.get k s.pending_done) tick)
  unfolding left_foreground
  left_foreground-arms tick s o e runs =
      arm_tentative_done-arms k tick (record s { pending = PaneMap.remove k s.pending }) o e runs

  left_foreground-IsArmed :
      (tick : ℕ) (s : CommandStore) (o : TrackedObservation)
      → Distinct s.store
      → Distinct s.pending_done
      → PaneMap.get k s.store ≡ some o
      → is_running_row o ≡ true
      → PaneMap.get k s.pending_done ≡ none
      → IsArmed k tick o (left_foreground k tick s)
  left_foreground-IsArmed tick s o d c e runs idle =
      let kept : (left_foreground k tick s).store ≡ s.store = left_foreground-store tick s in
      record {
        one_row = rw kept d;
        one_clock = left_foreground-clocks tick s c;
        row = rw kept e;
        runs = runs;
        free = left_foreground-pending tick s;
        clock =
            rw (← (ap (λ (x : Option ℕ). some (unwrap_or x tick)) idle))
              (left_foreground-arms tick s o e runs);
      }

  -- Where each pane has one row and one clock, a command that runs, with no end of it under way, and
  -- leaves the foreground to a shell or an agent at tick `tick` keeps its row through any timer calls
  -- that come before tick `tick + 2`, and is done at the first one that comes then or later, whatever
  -- else those calls have to do.
  pub leaving-done :
      (tick : ℕ) (early : List (ℕ × ℕ)) (later now : ℕ) (s : CommandStore) (o : TrackedObservation)
      → Distinct s.store
      → Distinct s.pending_done
      → PaneMap.get k s.store ≡ some o
      → is_running_row o ≡ true
      → PaneMap.get k s.pending_done ≡ none
      → is_ignored (effective_program argv).1 ≡ true
      → All (IsEarly tick) early
      → tick + debounce_ticks ≤ later
      → (PaneMap.get k (timers early (on_command_changed to_lowercase k argv fg cwd tick s)).store
          ≡ some o)
        × (PaneMap.get k
              (on_timer later now
                (timers early (on_command_changed to_lowercase k argv fg cwd tick s))).1.store
            ≡ some (confirmed later now o))
  leaving-done tick early later now s o d c e runs idle ignored soon late =
      let h : IsArmed k tick o (timers early (left_foreground k tick s)) =
        timers-IsArmed k tick o early (left_foreground k tick s)
          (left_foreground-IsArmed tick s o d c e runs idle) soon in
      rw (on_command_changed-ignored tick s ignored) (
        h.row,
        on_timer-confirms later now k tick (timers early (left_foreground k tick s)) o h.one_row
            h.row h.runs h.free h.clock (omega (arith, late)),
      )
