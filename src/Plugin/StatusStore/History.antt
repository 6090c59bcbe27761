-- ===== src/Plugin/StatusStore/History.antt =====
-- The rest of the operations, and the histories of a session: a snapshot, and then broadcasts,
-- prompt returns, exits, ticks and prunes.
use zj_radar.Prelude.{
  ℕ, ◌+◌, ◌≤◌, ◌≡◌, refl, inl, inr, Bool, List, [], ◌∷◌, All, arith, length, Bool-cases,
  Option-cases,
}
use zj_radar.Prelude.PaneMap
use zj_radar.Prelude.PaneMap.{get-retain, Distinct-retain, length-retain-le}
use zj_radar.Core.Status.{Status, eq_status}
use zj_radar.Core.Payload.{StatusPayload}
use zj_radar.Plugin.StatusStore.{
  StatusStore, empty, apply, clear_on_prompt_return, cancel_running_suspect, clear_on_exit, due,
  expire_one, expire_all, expire_stale_running, prune, insert_snapshot_observation,
  max_tracked_panes,
}
use zj_radar.Core.Observation.{ObservationStore}
use zj_radar.Plugin.StatusStore.Consistent.{IsConsistent}
use zj_radar.Plugin.StatusStore.Invariant.{
  IsSound, IsValid, write-IsSound, runs_at, apply-IsValid, cancel-IsValid, force_idle-IsValid,
  no_clock_after_cancel, clear_on_prompt_return-IsValid,
}

clear_on_exit-IsValid :
    (k tick : ℕ) (s : StatusStore) → IsValid s → IsValid (clear_on_exit k tick s).1
unfolding clear_on_exit
clear_on_exit-IsValid k tick s v =
    let t = cancel_running_suspect k s in
    let w = cancel-IsValid k s v in
    elim (Option-cases (PaneMap.get k t.store)) [
      | inl e ↦ rw (e, clear_on_exit) w
      | inr (o, e) ↦ elim (Bool-cases (eq_status o.status Status.idle)) [
        | inl idle ↦ rw (e, clear_on_exit, idle) w
        | inr busy ↦
            rw (e, clear_on_exit, busy) (force_idle-IsValid k tick t w (no_clock_after_cancel k s))
      ]
    ]

expire_one-IsValid : (now k : ℕ) (s : StatusStore) → IsValid s → IsValid (expire_one now k s).1
unfolding expire_one
expire_one-IsValid now k s v = elim (Bool-cases (runs_at k (cancel_running_suspect k s))) [
  | inl runs ↦ rw runs (
      force_idle-IsValid k now (cancel_running_suspect k s) (cancel-IsValid k s v)
        (no_clock_after_cancel k s))
  | inr rests ↦ rw rests (cancel-IsValid k s v)
]

expire_all-IsValid :
    (now : ℕ) (ids : List ℕ) (s : StatusStore) → IsValid s → IsValid (expire_all now ids s).1
unfolding expire_all
expire_all-IsValid now [] s v = v
expire_all-IsValid now (k ∷ ids) s v =
    expire_all-IsValid now ids (expire_one now k s).1 (expire_one-IsValid now k s v)

expire-IsValid : (now : ℕ) (s : StatusStore) → IsValid s → IsValid (expire_stale_running now s).1
unfolding expire_stale_running
expire-IsValid now s v = expire_all-IsValid now (due now s.suspect_running) s v

prune-IsValid : (live : ℕ → Bool) (s : StatusStore) → IsValid s → IsValid (prune live s).1
unfolding prune
prune-IsValid live s v = record {
  sound = record {
    distinct = Distinct-retain live s.store v.sound.distinct;
    distinct_clocks = Distinct-retain live s.suspect_running v.sound.distinct_clocks;
    consistent = λ k o h. v.sound.consistent k o (ground (arith, get-retain live k s.store));
    clocks = λ k since h. ground (
      arith,
      v.sound.clocks k since,
      get-retain live k s.store,
      get-retain live k s.suspect_running,
    );
  };
  bounded = omega (arith, v.bounded, length-retain-le live s.store);
}

-- What drives the store: a payload, a prompt return, the agent in the foreground again, an exit,
-- a timer tick, a pane manifest.
pub data Event : Type 0 where
  payload : StatusPayload → ℕ → ℕ → Event
  prompt_return : ℕ → ℕ → Event
  foreground : ℕ → Event
  exited : ℕ → ℕ → Event
  timer : ℕ → Event
  manifest : (ℕ → Bool) → Event

unfoldable pub step : StatusStore → Event → StatusStore
step s (payload p tick now) = (apply p tick now s).1
step s (prompt_return k tick) = (clear_on_prompt_return k tick s).1
step s (foreground k) = cancel_running_suspect k s
step s (exited k tick) = (clear_on_exit k tick s).1
step s (timer now) = (expire_stale_running now s).1
step s (manifest live) = (prune live s).1

unfoldable pub run : StatusStore → List Event → StatusStore
unfolding step
run s [] = s
run s (e ∷ es) = run (step s e) es

pub step-IsValid : (s : StatusStore) (e : Event) → IsValid s → IsValid (step s e)
unfolding step
step-IsValid s (payload p tick now) v = apply-IsValid p tick now s v
step-IsValid s (prompt_return k tick) v = clear_on_prompt_return-IsValid k tick s v
step-IsValid s (foreground k) v = cancel-IsValid k s v
step-IsValid s (exited k tick) v = clear_on_exit-IsValid k tick s v
step-IsValid s (timer now) v = expire-IsValid now s v
step-IsValid s (manifest live) v = prune-IsValid live s v

run_from : (s : StatusStore) (es : List Event) → IsValid s → IsValid (run s es)
unfolding run
run_from s [] v = v
run_from s (e ∷ es) v = run_from (step s e) es (step-IsValid s e v)

-- What `load_snapshot` makes of the store of a session that starts: the observations of the file go
-- in one after the other, unchecked, and with no look at the cap.
unfoldable pub restored : ObservationStore → StatusStore → StatusStore
restored [] s = s
restored ((k, o) ∷ entries) s = restored entries (insert_snapshot_observation k o s)

-- The observations of the file agree with their status.
abbrev pub IsConsistentFile : ObservationStore → Type 0
IsConsistentFile entries = All (λ e. IsConsistent e.1) entries

restored-IsSound :
    (entries : ObservationStore) (s : StatusStore)
    → IsConsistentFile entries
    → IsSound s
    → s.suspect_running ≡ []
    → IsSound (restored entries s)
unfolding restored insert_snapshot_observation PaneMap.get
restored-IsSound [] s c v quiet = v
restored-IsSound ((k, o) ∷ entries) s c v quiet =
    restored-IsSound entries (insert_snapshot_observation k o s) c.1
      (write-IsSound k o s v c.0 (rw quiet refl)) quiet

length-restored-le :
    (entries : ObservationStore) (s : StatusStore)
    → length (restored entries s).store ≤ length entries + length s.store
unfolding restored insert_snapshot_observation
length-restored-le [] s = omega arith
length-restored-le ((k, o) ∷ entries) s = omega (
  arith,
  length-restored-le entries (insert_snapshot_observation k o s),
  PaneMap.length-insert-le k o s.store,
)

empty-IsSound : IsSound empty
empty-IsSound = record {
  distinct = tt;
  distinct_clocks = tt;
  consistent = λ k o h. absurd (unfold PaneMap.get in cc);
  clocks = λ k since h. absurd (unfold PaneMap.get in cc);
}

-- A session starts from a snapshot file of at most 256 observations that agree with their status,
-- or from none, and goes through any broadcasts, prompt returns, agents in the foreground, exits,
-- timer ticks and manifests, in any order. The store then holds at most 256 panes, each once; every
-- observation's stamps, label and tasks agree with its status; and a grace clock runs only over a
-- Running pane. The load itself checks neither condition on the file.
pub run-IsValid :
    (entries : ObservationStore) (es : List Event)
    → IsConsistentFile entries
    → length entries ≤ max_tracked_panes
    → IsValid (run (restored entries empty) es)
run-IsValid entries es c few = run_from (restored entries empty) es (record {
  sound = restored-IsSound entries empty c empty-IsSound refl;
  bounded = omega (arith, length-restored-le entries empty);
})
