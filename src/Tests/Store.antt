-- ===== src/Tests/Store.antt =====
-- The status store at concrete inputs: a Running agent, its prompt, and its last word.
use zj_radar.Prelude.{
  ℕ, zero, suc, ◌≤◌, ◌-◌, ◌≡◌, refl, arith, false, none, some, List, [], ◌∷◌, leb, All,
  if◌then◌else◌,
}
use zj_radar.Prelude.PaneMap
use zj_radar.Prelude.PaneMap.{Distinct}
use zj_radar.Core.Status.{Status}
use zj_radar.Core.Payload.{StatusPayload}
use zj_radar.Core.Observation.{TrackedObservation, ObservationStore}
use zj_radar.Plugin.StatusStore.{
  StatusStore, empty, running_suspect_grace_ticks, applied, apply, idled, evict_over_cap,
  evict_loop, expire_stale_running, clear_on_prompt_return,
}
use zj_radar.Plugin.StatusStore.Evict.{IsThinned, EvictsOldest, evict_oldest}
use zj_radar.Plugin.StatusStore.Invariant.{IsValid}
use zj_radar.Plugin.StatusStore.Consistent.{applied-IsConsistent}
use zj_radar.Plugin.StatusStore.History.{Event, run, restored, IsConsistentFile, run-IsValid}
use zj_radar.Plugin.StatusStore.Clock.{ticked, has_expired, get-expire}
use zj_radar.Plugin.StatusStore.Grace.{IsWithin, grace_window}
use zj_radar.Plugin.StatusStore.Broadcast.{expire-apply, applied_again}

abbrev at_work : StatusPayload
at_work = record {
  pane_id = 7;
  status = Status.running;
  repo = "radar";
  branch = "main";
  msg = "editing";
  task = "fix the build";
  source = "claude";
  ack = false;
  tasks = none;
}

abbrev asking : StatusPayload
asking = record at_work { status = Status.pending; msg = "may I?" }

abbrev story : List Event
story =
    Event.payload at_work 3 1000
    ∷ Event.prompt_return 7 5
    ∷ Event.payload asking 9 1006
    ∷ Event.exited 7 12
    ∷ []

-- A snapshot file with an agent at work in another pane.
abbrev file : ObservationStore
file = (9, applied at_work 2 900 none) ∷ []

file-IsConsistentFile : IsConsistentFile file
file-IsConsistentFile = (applied-IsConsistent at_work 2 900 none tt, tt)

run-IsValid_example : IsValid (run (restored file empty) story)
run-IsValid_example = run-IsValid file story file-IsConsistentFile (omega arith)

-- The agent is at work since tick 3.
abbrev working : TrackedObservation
working = applied at_work 3 1000 none

abbrev agent : StatusStore
agent = run empty (Event.payload at_work 3 1000 ∷ [])

from_empty : (es : List Event) → IsValid (run empty es)
unfolding restored
from_empty es = run-IsValid [] es tt (omega arith)

agent-IsValid : IsValid agent
agent-IsValid = from_empty (Event.payload at_work 3 1000 ∷ [])

-- It is back at the prompt since tick 5.
abbrev suspect : StatusStore
suspect = run empty (Event.payload at_work 3 1000 ∷ Event.prompt_return 7 5 ∷ [])

suspect-IsValid : IsValid suspect
suspect-IsValid = from_empty (Event.payload at_work 3 1000 ∷ Event.prompt_return 7 5 ∷ [])

-- It is seen at the prompt again while the timer ticks on, up to the end of the window.
abbrev patience : List Event
patience =
    Event.timer 6
    ∷ Event.prompt_return 7 7
    ∷ Event.timer 7
    ∷ Event.timer 18
    ∷ Event.prompt_return 7 19
    ∷ Event.timer 19
    ∷ []

patience-IsWithin : All (IsWithin 7 5) patience
patience-IsWithin = (omega arith, (refl, (omega arith, (omega arith, (refl, (omega arith, tt))))))

grace_window_example :
    (PaneMap.get 7 (run (clear_on_prompt_return 7 5 agent).1 patience).store ≡ some working)
    × (PaneMap.get 7
          (expire_stale_running 20 (run (clear_on_prompt_return 7 5 agent).1 patience)).1.store
        ≡ some (if leb running_suspect_grace_ticks (20 - 5) then idled 20 working else working))
unfolding PaneMap.get PaneMap.insert PaneMap.remove run apply applied evict_over_cap evict_loop
grace_window_example =
    grace_window 7 5 patience 20 working agent agent-IsValid refl refl refl patience-IsWithin

get-expire_example :
    PaneMap.get 7 (expire_stale_running 20 suspect).1.store
    ≡ ticked
        (has_expired 20 (PaneMap.get 7 suspect.suspect_running))
        20
        (PaneMap.get 7 suspect.store)
get-expire_example = get-expire 20 7 suspect suspect-IsValid

expire-apply_example :
    PaneMap.get 7 (expire_stale_running 40 (apply at_work 9 1006 suspect).1).1.store
    ≡ PaneMap.get 7 (apply at_work 9 1006 suspect).1.store
expire-apply_example = expire-apply at_work 9 1006 40 suspect suspect-IsValid

applied_again_example :
    applied asking 30 1030 (some (applied asking 9 1006 none)) ≡ applied asking 9 1006 none
applied_again_example = applied_again asking 9 1006 30 1030 none refl tt

-- More panes than the store holds, pane `k` changed at tick `k`.
numbered : ℕ → ObservationStore
numbered zero = []
numbered (suc n) = (n, applied at_work n 1000 none) ∷ numbered n

get-numbered : (n j : ℕ) → n ≤ j → PaneMap.get j (numbered n) ≡ none
unfolding numbered PaneMap.get
get-numbered zero j h = refl
get-numbered (suc n) j h = ground (arith, get-numbered n j)

numbered-Distinct : (n : ℕ) → Distinct (numbered n)
unfolding numbered
numbered-Distinct zero = tt
numbered-Distinct (suc n) = (get-numbered n n (omega arith), numbered-Distinct n)

abbrev crowd : StatusStore
crowd = record { store = numbered 258; suspect_running = [] }

evict_oldest_example :
    IsThinned crowd (evict_over_cap crowd) × EvictsOldest crowd (evict_over_cap crowd)
evict_oldest_example = evict_oldest crowd (numbered-Distinct 258)
