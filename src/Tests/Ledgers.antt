-- ===== src/Tests/Ledgers.antt =====
-- The ledger at concrete inputs.
use zj_radar.Prelude.{
  ◌≡◌, ◌⊎◌, true, false, some, [], ◌∷◌, ◌++◌, any, All, take, ◌-◌, if◌then◌else◌,
}
use zj_radar.Core.Status.{Status}
use zj_radar.Core.Kind.{Kind}
use zj_radar.Core.Observation.{TrackedObservation, command_observation}
use zj_radar.Plugin.Ledger.{LedgerOutcome, LedgerEntry, ledger_cap, is_same_event, push, merge}
use zj_radar.Plugin.Ledger.Event.{IsRing, push-IsRing}
use zj_radar.Plugin.Ledger.Merge.{IsSorted, merge-IsRing}
use zj_radar.Plugin.Ledger.Cover.{covers, IsFull, merge-covers}

abbrev built : LedgerEntry
built = record {
  at_epoch_s = 1000;
  outcome = LedgerOutcome.done;
  tab_id = 1;
  tab_name = "work";
  label = "cargo build";
  pane_id = 2;
}

-- Another instance saw the same event two seconds later.
abbrev built_late : LedgerEntry
built_late = record built { at_epoch_s = 1002 }

abbrev tested : LedgerEntry
tested = record built { at_epoch_s = 1200; label = "cargo test"; pane_id = 3 }

merge-IsRing_example :
    IsRing (merge (built ∷ []) (tested ∷ built_late ∷ []))
    × IsSorted (merge (built ∷ []) (tested ∷ built_late ∷ []))
merge-IsRing_example = merge-IsRing (built ∷ []) (tested ∷ built_late ∷ [])

merge-covers_example :
    let both = merge (built ∷ []) (tested ∷ built_late ∷ []) in
    All
      (λ e. (any (covers e) both ≡ true) ⊎ IsFull ledger_cap e both)
      ((built ∷ []) ++ (tested ∷ built_late ∷ []))
merge-covers_example = merge-covers (built ∷ []) (tested ∷ built_late ∷ [])

push-IsRing_example :
    let l = merge (tested ∷ built ∷ []) [] in
    IsRing (push built_late l).1
    × (any (λ k. is_same_event k built_late) (push built_late l).1 ≡ true)
    × (push built_late l ≡ (
        if any (λ k. is_same_event k built_late) l
        then (false, l)
        else (true, built_late ∷ take (ledger_cap - 1) l)))
push-IsRing_example =
    push-IsRing built_late (merge (tested ∷ built ∷ []) [])
      (merge-IsRing (tested ∷ built ∷ []) []).0

abbrev build_done : TrackedObservation
build_done = record (command_observation Status.done "radar" "cargo build" Kind.command 8) {
  completed_epoch_s = some 1000;
}
