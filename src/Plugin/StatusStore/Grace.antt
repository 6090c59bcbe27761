-- ===== src/Plugin/StatusStore/Grace.antt =====
-- crates/plugin/src/status_store.rs: the grace window, over the ticks and prompt returns within it.
use zj_radar.Prelude.{
  ℕ, ◌+◌, ◌-◌, ◌<◌, ◌≡◌, ◌≢◌, refl, arith, inl, inr, true, none, some, List, [], ◌∷◌, All, leb,
  ◌==◌, ==_iff, if◌then◌else◌, Bool-cases, Option-cases,
}
use zj_radar.Prelude.PaneMap
use zj_radar.Prelude.PaneMap.{
  PaneMap, Distinct, get-insert, get-insert_self, get-remove, or_insert_absent, or_insert_present,
}
use zj_radar.Core.Status.{Status}
use zj_radar.Core.Status.Wire.{eq_status_iff}
use zj_radar.Core.Observation.{TrackedObservation}
use zj_radar.Plugin.StatusStore.{
  StatusStore, running_suspect_grace_ticks, idled, force_idle, cancel_running_suspect,
  clear_on_prompt_return, due, expire_one, expire_all, expire_stale_running,
}
use zj_radar.Plugin.StatusStore.Invariant.{
  IsValid, prompt_return_running, clear_on_prompt_return-IsValid,
}
use zj_radar.Plugin.StatusStore.History.{Event, step, run, step-IsValid}
use zj_radar.Plugin.StatusStore.Clock.{is_running_obs, get-expire}

-- The pane runs, and its grace clock stands at a tick.
abbrev IsSuspect : ℕ → ℕ → TrackedObservation → StatusStore → Type 0
IsSuspect k since o s =
    (PaneMap.get k s.store ≡ some o) × (PaneMap.get k s.suspect_running ≡ some since)

-- No pane of the list is this one.
abbrev Avoids : ℕ → List ℕ → Type 0
Avoids k ids = All (λ id. id ≢ k) ids

expire_one-IsSuspect :
    (now k since id : ℕ) (o : TrackedObservation) (s : StatusStore)
    → id ≢ k
    → IsSuspect k since o s
    → IsSuspect k since o (expire_one now id s).1
unfolding expire_one cancel_running_suspect force_idle
expire_one-IsSuspect now k since id o s ne h = elim (Option-cases (PaneMap.get id s.store)) [
  | inl e ↦ ground (arith, h.0, h.1, get-remove id k s.suspect_running)
  | inr (q, e) ↦
      ground
        (arith, h.0, h.1, get-remove id k s.suspect_running, get-insert id k (idled now q) s.store)
]

expire_all-IsSuspect :
    (now k since : ℕ) (o : TrackedObservation) (ids : List ℕ) (s : StatusStore)
    → Avoids k ids
    → IsSuspect k since o s
    → IsSuspect k since o (expire_all now ids s).1
unfolding expire_all
expire_all-IsSuspect now k since o [] s away h = h
expire_all-IsSuspect now k since o (id ∷ ids) s away h =
    expire_all-IsSuspect now k since o ids (expire_one now id s).1 away.1
      (expire_one-IsSuspect now k since id o s away.0 h)

absent-Avoids : (now k : ℕ) (m : PaneMap ℕ) → PaneMap.get k m ≡ none → Avoids k (due now m)
unfolding due PaneMap.get
absent-Avoids now k [] e = tt
absent-Avoids now k ((j, t) ∷ m) e = ground (arith, absent-Avoids now k m)

-- A clock that has not run for the window is not due.
due-Avoids :
    (now k since : ℕ) (m : PaneMap ℕ)
    → Distinct m
    → PaneMap.get k m ≡ some since
    → now < since + running_suspect_grace_ticks
    → Avoids k (due now m)
unfolding due PaneMap.get
due-Avoids now k since [] d e early = tt
due-Avoids now k since ((j, t) ∷ m) d e early = elim (Bool-cases (j == k)) [
  | inl hit ↦
      let fresh : PaneMap.get k m ≡ none = rw (← (==_iff j k).0 hit) d.0 in
      ground (arith, hit, absent-Avoids now k m fresh)
  | inr miss ↦ ground (arith, miss, due-Avoids now k since m d.1)
]

-- Within the window: the pane is seen at its prompt again, or a timer tick comes.
abbrev pub IsWithin : ℕ → ℕ → Event → Type 0
IsWithin k since (Event.prompt_return j tick) = j ≡ k
IsWithin k since (Event.timer now) = now < since + running_suspect_grace_ticks
IsWithin k since (Event.payload p tick now) = ⊥
IsWithin k since (Event.foreground j) = ⊥
IsWithin k since (Event.exited j tick) = ⊥
IsWithin k since (Event.manifest live) = ⊥

reprompt_running :
    (k t since : ℕ) (o : TrackedObservation) (s : StatusStore)
    → PaneMap.get k s.store ≡ some o
    → is_running_obs o ≡ true
    → PaneMap.get k s.suspect_running ≡ some since
    → (clear_on_prompt_return k t s).1 ≡ s
reprompt_running k t since o s e r c =
    rw (prompt_return_running k t s o e r, or_insert_present k t since s.suspect_running c) refl

step-IsSuspect :
    (k since : ℕ) (o : TrackedObservation) (s : StatusStore) (e : Event)
    → is_running_obs o ≡ true
    → IsValid s
    → IsWithin k since e
    → IsSuspect k since o s
    → IsSuspect k since o (step s e)
unfolding step expire_stale_running
step-IsSuspect k since o s (Event.prompt_return j tick) r v w h =
    rw (w, reprompt_running k tick since o s h.0 r h.1) h
step-IsSuspect k since o s (Event.timer now) r v w h =
    expire_all-IsSuspect now k since o (due now s.suspect_running) s
      (due-Avoids now k since s.suspect_running v.sound.distinct_clocks h.1 w) h
step-IsSuspect k since o s (Event.payload p tick now) r v w h = absurd w
step-IsSuspect k since o s (Event.foreground j) r v w h = absurd w
step-IsSuspect k since o s (Event.exited j tick) r v w h = absurd w
step-IsSuspect k since o s (Event.manifest live) r v w h = absurd w

run-IsSuspect :
    (k since : ℕ) (o : TrackedObservation) (s : StatusStore) (es : List Event)
    → is_running_obs o ≡ true
    → IsValid s
    → All (IsWithin k since) es
    → IsSuspect k since o s
    → IsValid (run s es) × IsSuspect k since o (run s es)
unfolding run
run-IsSuspect k since o s [] r v w h = (v, h)
run-IsSuspect k since o s (e ∷ es) r v w h =
    run-IsSuspect k since o (step s e) es r (step-IsValid s e v) w.1
      (step-IsSuspect k since o s e r v w.0 h)

-- The pane runs, with no grace clock, and is back at its prompt at a tick.
clear_on_prompt_return-IsSuspect :
    (k t : ℕ) (o : TrackedObservation) (s : StatusStore)
    → PaneMap.get k s.store ≡ some o
    → is_running_obs o ≡ true
    → PaneMap.get k s.suspect_running ≡ none
    → IsSuspect k t o (clear_on_prompt_return k t s).1
clear_on_prompt_return-IsSuspect k t o s e r c =
    rw (prompt_return_running k t s o e r, or_insert_absent k t s.suspect_running c)
      (e, get-insert_self k t s.suspect_running)

-- In a valid store, a Running pane with no grace clock returns to the prompt at tick `t`. Through
-- any timer ticks before `t + 15`, among any further reports of the prompt, it stays as it is, and
-- the next timer tick leaves it so if it comes before `t + 15` too, and clears it to idle otherwise.
pub grace_window :
    (k t : ℕ) (es : List Event) (now : ℕ) (o : TrackedObservation) (s : StatusStore)
    → IsValid s
    → PaneMap.get k s.store ≡ some o
    → o.status ≡ Status.running
    → PaneMap.get k s.suspect_running ≡ none
    → All (IsWithin k t) es
    → (PaneMap.get k (run (clear_on_prompt_return k t s).1 es).store ≡ some o)
      × (PaneMap.get k (expire_stale_running now (run (clear_on_prompt_return k t s).1 es)).1.store
          ≡ some (if leb running_suspect_grace_ticks (now - t) then idled now o else o))
grace_window k t es now o s v e r c within =
    let runs : is_running_obs o ≡ true = (eq_status_iff o.status Status.running).1 r in
    let armed = (clear_on_prompt_return k t s).1 in
    let (valid, h) =
      run-IsSuspect k t o armed es runs (clear_on_prompt_return-IsValid k t s v) within
        (clear_on_prompt_return-IsSuspect k t o s e runs c) in
    (h.0, rw (get-expire now k (run armed es) valid, h.1, h.0) (rw runs (ground arith)))
