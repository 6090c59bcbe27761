-- ===== src/Plugin/StatusStore/Invariant.antt =====
-- crates/plugin/src/status_store.rs: the invariant of the status store.
use zj_radar.Prelude.{
  ℕ, ◌≤◌, ◌≡◌, ap, ◌⊎◌, inl, inr, Bool, true, false, Option, none, some, [], ◌∷◌, arith, length,
  ◌==◌, ==_iff, is_some_and, Bool-cases, Option-cases,
}
use zj_radar.Prelude.PaneMap
use zj_radar.Prelude.PaneMap.{
  PaneMap, Distinct, get-insert, get-remove, get-or_insert, or_insert_absent, or_insert_present,
  Distinct-insert, Distinct-remove,
}
use zj_radar.Core.Status.{Status, eq_status}
use zj_radar.Core.Payload.{StatusPayload}
use zj_radar.Core.Observation.{TrackedObservation, ObservationStore}
use zj_radar.Plugin.StatusStore.{
  StatusStore, max_tracked_panes, drop_pane, evict_over_cap, applied, apply, idled, force_idle,
  clear_on_prompt_return, cancel_running_suspect,
}
use zj_radar.Plugin.StatusStore.Consistent.{
  IsConsistent, WasConsistent, applied-IsConsistent, idled-IsConsistent,
}
use zj_radar.Plugin.StatusStore.Evict.{evict_induction, length-evict}

abbrev pub runs_at : ℕ → StatusStore → Bool
runs_at k s = is_some_and (PaneMap.get k s.store) (λ o. eq_status o.status Status.running)

-- Each pane once, every observation consistent, and a grace clock only over a Running pane.
pub record IsSound (s : StatusStore) : Type 0 where
  pub distinct : Distinct s.store
  pub distinct_clocks : Distinct s.suspect_running
  pub consistent :
      (k : ℕ) (o : TrackedObservation) → PaneMap.get k s.store ≡ some o → IsConsistent o
  pub clocks : (k since : ℕ) → PaneMap.get k s.suspect_running ≡ some since → runs_at k s ≡ true

-- The whole invariant: the store is within its cap too.
pub record IsValid (s : StatusStore) : Type 0 where
  pub sound : IsSound s
  pub bounded : length s.store ≤ max_tracked_panes

drop_pane-IsSound : (k : ℕ) (s : StatusStore) → IsSound s → IsSound (drop_pane k s)
unfolding drop_pane
drop_pane-IsSound k s v = record {
  distinct = Distinct-remove k s.store v.distinct;
  distinct_clocks = Distinct-remove k s.suspect_running v.distinct_clocks;
  consistent = λ j o h. v.consistent j o (ground (arith, get-remove k j s.store));
  clocks = λ j since h.
      ground (arith, v.clocks j since, get-remove k j s.store, get-remove k j s.suspect_running);
}

cancel-IsSound : (k : ℕ) (s : StatusStore) → IsSound s → IsSound (cancel_running_suspect k s)
unfolding cancel_running_suspect
cancel-IsSound k s v = record {
  distinct = v.distinct;
  distinct_clocks = Distinct-remove k s.suspect_running v.distinct_clocks;
  consistent = v.consistent;
  clocks = λ j since h. v.clocks j since (ground (arith, get-remove k j s.suspect_running));
}

-- A write over a pane that has no grace clock.
pub write-IsSound :
    (k : ℕ) (o : TrackedObservation) (s : StatusStore)
    → IsSound s
    → IsConsistent o
    → PaneMap.get k s.suspect_running ≡ none
    → IsSound (record s { store = PaneMap.insert k o s.store })
write-IsSound k o s v c quiet = record {
  distinct = Distinct-insert k o s.store v.distinct;
  distinct_clocks = v.distinct_clocks;
  consistent = λ j q h. written j q h (Bool-cases (k == j));
  clocks = λ j since h. ground (
    arith,
    v.clocks j since h,
    get-insert k j o s.store,
    quiet,
    λ (e : k ≡ j). ap (λ (x : ℕ). PaneMap.get x s.suspect_running) e,
  );
}
  where
    written :
        (j : ℕ) (q : TrackedObservation)
        → PaneMap.get j (PaneMap.insert k o s.store) ≡ some q
        → ((k == j) ≡ true) ⊎ ((k == j) ≡ false)
        → IsConsistent q
    written j q h (inl hit) = let e : o ≡ q = ground (arith, get-insert k j o s.store) in rw (← e) c
    written j q h (inr miss) = v.consistent j q (ground (arith, get-insert k j o s.store))

-- The clear paths, branch by branch.
module _ (k tick : ℕ) (s : StatusStore) where
  pub force_idle-none : PaneMap.get k s.store ≡ none → force_idle k tick s ≡ (none, s)
  unfolding force_idle
  force_idle-none e = ground arith

  module _ (o : TrackedObservation) (e : PaneMap.get k s.store ≡ some o) where
    pub force_idle-some :
        force_idle k tick s ≡ (some o, record s { store = PaneMap.insert k (idled tick o) s.store })
    unfolding force_idle
    force_idle-some = rw (e, force_idle)

    pub prompt_return_running :
        eq_status o.status Status.running ≡ true
        → clear_on_prompt_return k tick s
          ≡ (none, record s { suspect_running = PaneMap.or_insert k tick s.suspect_running })
    unfolding clear_on_prompt_return
    prompt_return_running r = rw (e, clear_on_prompt_return, r)

    pub prompt_return_idle :
        eq_status o.status Status.running ≡ false
        → eq_status o.status Status.idle ≡ true
        → clear_on_prompt_return k tick s ≡ (none, s)
    unfolding clear_on_prompt_return
    prompt_return_idle r i = rw (e, clear_on_prompt_return, r, i)

    pub prompt_return_done :
        eq_status o.status Status.running ≡ false
        → eq_status o.status Status.idle ≡ false
        → clear_on_prompt_return k tick s ≡ force_idle k tick s
    unfolding clear_on_prompt_return
    prompt_return_done r i = rw (e, clear_on_prompt_return, r, i)

  pub prompt_return_none :
      PaneMap.get k s.store ≡ none → clear_on_prompt_return k tick s ≡ (none, s)
  unfolding clear_on_prompt_return
  prompt_return_none e = rw (e, clear_on_prompt_return)

evict-IsSound : (s : StatusStore) → IsSound s → IsSound (evict_over_cap s)
evict-IsSound s v =
    evict_induction IsSound (λ w t l d m o h. drop_pane-IsSound w.0 t h) s v.distinct v

pub no_clock_after_cancel :
    (k : ℕ) (s : StatusStore) → PaneMap.get k (cancel_running_suspect k s).suspect_running ≡ none
unfolding cancel_running_suspect
no_clock_after_cancel k s = ground (arith, get-remove k k s.suspect_running)

-- A pane that does not run has no grace clock.
pub no_clock :
    (k : ℕ) (s : StatusStore)
    → IsSound s
    → runs_at k s ≡ false
    → PaneMap.get k s.suspect_running ≡ none
no_clock k s v h = elim (Option-cases (PaneMap.get k s.suspect_running)) [
  | inl e ↦ e
  | inr (since, e) ↦ absurd (ground (arith, v.clocks k since e))
]

was_consistent : (k : ℕ) (s : StatusStore) → IsSound s → WasConsistent (PaneMap.get k s.store)
was_consistent k s v = elim (Option-cases (PaneMap.get k s.store)) [
  | inl e ↦ rw e tt
  | inr (o, e) ↦ rw e (v.consistent k o e)
]

pub apply-IsValid :
    (p : StatusPayload) (tick now : ℕ) (s : StatusStore)
    → IsValid s
    → IsValid (apply p tick now s).1
unfolding apply cancel_running_suspect
apply-IsValid p tick now s v = record {
  sound = evict-IsSound _ written;
  bounded = length-evict _ written.distinct;
}
  where
    prev : Option TrackedObservation
    prev = PaneMap.get p.pane_id s.store

    written : IsSound (record {
      store = PaneMap.insert p.pane_id (applied p tick now prev) s.store;
      suspect_running = PaneMap.remove p.pane_id s.suspect_running;
    })
    written =
        write-IsSound p.pane_id (applied p tick now prev) (cancel_running_suspect p.pane_id s)
          (cancel-IsSound p.pane_id s v.sound)
          (applied-IsConsistent p tick now prev (was_consistent p.pane_id s v.sound))
          (no_clock_after_cancel p.pane_id s)

pub length-insert_present :
    (k : ℕ) (o q : TrackedObservation) (m : ObservationStore)
    → PaneMap.get k m ≡ some q
    → length (PaneMap.insert k o m) ≡ length m
unfolding PaneMap.get PaneMap.insert
length-insert_present k o q [] h = absurd (cc)
length-insert_present k o q ((j, w) ∷ m) h = ground (arith, length-insert_present k o q m)

pub force_idle-IsValid :
    (k tick : ℕ) (s : StatusStore)
    → IsValid s
    → PaneMap.get k s.suspect_running ≡ none
    → IsValid (force_idle k tick s).1
force_idle-IsValid k tick s v quiet = elim (Option-cases (PaneMap.get k s.store)) [
  | inl e ↦ rw (force_idle-none k tick s e) v
  | inr (o, e) ↦ rw (force_idle-some k tick s o e) (record {
    sound = write-IsSound k (idled tick o) s v.sound (idled-IsConsistent tick o) quiet;
    bounded = omega (arith, v.bounded, length-insert_present k (idled tick o) o s.store e);
  })
]

pub cancel-IsValid : (k : ℕ) (s : StatusStore) → IsValid s → IsValid (cancel_running_suspect k s)
cancel-IsValid k s v = record {
  sound = cancel-IsSound k s v.sound;
  bounded = unfold cancel_running_suspect in v.bounded;
}

arm-IsValid :
    (k tick : ℕ) (s : StatusStore)
    → IsValid s
    → runs_at k s ≡ true
    → IsValid (record s { suspect_running = PaneMap.or_insert k tick s.suspect_running })
arm-IsValid k tick s v runs = record {
  sound = record {
    distinct = v.sound.distinct;
    distinct_clocks = armed (Option-cases (PaneMap.get k s.suspect_running));
    consistent = v.sound.consistent;
    clocks = λ j since h. clock j since (Bool-cases (k == j)) h;
  };
  bounded = v.bounded;
}
  where
    armed :
        (PaneMap.get k s.suspect_running ≡ none)
          ⊎ ((t : ℕ) × (PaneMap.get k s.suspect_running ≡ some t))
        → Distinct (PaneMap.or_insert k tick s.suspect_running)
    armed (inl e) =
        rw (or_insert_absent k tick s.suspect_running e)
          (Distinct-insert k tick s.suspect_running v.sound.distinct_clocks)
    armed (inr (t, e)) = rw (or_insert_present k tick t s.suspect_running e) v.sound.distinct_clocks

    clock :
        (j since : ℕ)
        → ((k == j) ≡ true) ⊎ ((k == j) ≡ false)
        → PaneMap.get j (PaneMap.or_insert k tick s.suspect_running) ≡ some since
        → runs_at j s ≡ true
    clock j since (inl hit) h = rw (← (==_iff k j).0 hit) runs
    clock j since (inr miss) h =
        v.sound.clocks j since (ground (arith, get-or_insert k j tick s.suspect_running))

pub clear_on_prompt_return-IsValid :
    (k tick : ℕ) (s : StatusStore) → IsValid s → IsValid (clear_on_prompt_return k tick s).1
clear_on_prompt_return-IsValid k tick s v = elim (Option-cases (PaneMap.get k s.store)) [
  | inl e ↦ rw (prompt_return_none k tick s e) v
  | inr (o, e) ↦ elim (Bool-cases (eq_status o.status Status.running)) [
    | inl runs ↦ rw (prompt_return_running k tick s o e runs) (arm-IsValid k tick s v (rw e runs))
    | inr rests ↦
        let quiet = no_clock k s v.sound (rw e rests) in
        elim (Bool-cases (eq_status o.status Status.idle)) [
          | inl idle ↦ rw (prompt_return_idle k tick s o e rests idle) v
          | inr busy ↦
              rw (prompt_return_done k tick s o e rests busy) (force_idle-IsValid k tick s v quiet)
        ]
  ]
]
