-- ===== src/Plugin/Permission/Patience.antt =====
-- crates/plugin/src/permission.rs: the handshake over whole runs of timer ticks.
use zj_radar.Prelude.{
  ℕ, ◌+◌, ◌≤◌, ◌<◌, ◌≡◌, refl, ap, ◌∙◌, inl, inr, Bool, true, false, none, List, [], ◌∷◌, ◌++◌,
  arith, length, All, leb, Bool-cases,
}
use zj_radar.Plugin.Permission.{
  PermissionProbe, PermissionPolicy, PermissionState, Transition, defer_patience_ticks, on_load,
  on_timer, is_granted, is_waiting,
}

-- The state after a run of ticks, one probe to a tick.
unfoldable pub ticks : PermissionPolicy → List PermissionProbe → PermissionState → PermissionState
ticks policy [] s = s
ticks policy (p ∷ ps) s = ticks policy ps (on_timer s p policy).1

-- Only a waiting rail acts on a tick.
pub ticks_settled :
    (policy : PermissionPolicy) (ps : List PermissionProbe) (s : PermissionState)
    → is_waiting s ≡ false
    → ticks policy ps s ≡ s
unfolding ticks on_timer is_waiting
ticks_settled policy [] s h = refl
ticks_settled policy (p ∷ ps) (PermissionState.waiting_for_peer n) h = absurd (cc)
ticks_settled policy (p ∷ ps) PermissionState.unprompted h =
    ticks_settled policy ps PermissionState.unprompted h
ticks_settled policy (p ∷ ps) PermissionState.requesting h =
    ticks_settled policy ps PermissionState.requesting h
ticks_settled policy (p ∷ ps) (PermissionState.resolved b) h =
    ticks_settled policy ps (PermissionState.resolved b) h

-- No peer has answered yet.
abbrev pub IsSilent : PermissionProbe → Type 0
IsSilent p = p.marker ≡ none

-- While its patience lasts, a deferring rail is not elected by the lock: without a marker it waits
-- on, one tick less patient, whatever the lock probe says.
deferring_waits :
    (n : ℕ) (p : PermissionProbe)
    → IsSilent p
    → n + 1 < defer_patience_ticks
    → on_timer (PermissionState.waiting_for_peer n) p PermissionPolicy.deferring
      ≡ (Transition.no_change, PermissionState.waiting_for_peer (n + 1))
unfolding on_timer
deferring_waits n p h lt = ground arith

deferring_waits_run :
    (n : ℕ) (ps : List PermissionProbe)
    → All IsSilent ps
    → n + length ps < defer_patience_ticks
    → ticks PermissionPolicy.deferring ps (PermissionState.waiting_for_peer n)
      ≡ PermissionState.waiting_for_peer (n + length ps)
unfolding ticks
deferring_waits_run n [] h lt = ap PermissionState.waiting_for_peer (omega arith)
deferring_waits_run n (p ∷ ps) h lt = rw (deferring_waits n p h.0 (omega arith)) (
    deferring_waits_run (n + 1) ps h.1 (omega arith)
    ∙ ap PermissionState.waiting_for_peer (omega arith))

-- A deferring rail whose patience ends with the next tick, or that has asked.
unfoldable pub is_due : PermissionState → Bool
is_due (PermissionState.waiting_for_peer n) = leb defer_patience_ticks (n + 1)
is_due PermissionState.requesting = true
is_due _ = false

-- Without a marker it stays due, whatever the lock probe says.
step-is_due :
    (p : PermissionProbe) (s : PermissionState)
    → IsSilent p
    → is_due s ≡ true
    → is_due (on_timer s p PermissionPolicy.deferring).1 ≡ true
unfolding on_timer is_due
step-is_due p (PermissionState.waiting_for_peer n) h due = ground arith
step-is_due p PermissionState.requesting h due = refl
step-is_due p PermissionState.unprompted h due = absurd (cc)
step-is_due p (PermissionState.resolved b) h due = absurd (cc)

run-is_due :
    (ps : List PermissionProbe) (s : PermissionState)
    → All IsSilent ps
    → is_due s ≡ true
    → is_due (ticks PermissionPolicy.deferring ps s) ≡ true
unfolding ticks
run-is_due [] s h due = due
run-is_due (p ∷ ps) s h due =
    run-is_due ps (on_timer s p PermissionPolicy.deferring).1 h.1 (step-is_due p s h.0 due)

-- Out of patience, the lock elects it.
due_asks :
    (p : PermissionProbe) (s : PermissionState)
    → IsSilent p
    → p.lock_acquired ≡ true
    → is_due s ≡ true
    → (on_timer s p PermissionPolicy.deferring).1 ≡ PermissionState.requesting
unfolding on_timer is_due
due_asks p (PermissionState.waiting_for_peer n) h l due = ground arith
due_asks p PermissionState.requesting h l due = refl
due_asks p PermissionState.unprompted h l due = absurd (cc)
due_asks p (PermissionState.resolved b) h l due = absurd (cc)

waiting-is_due :
    (n : ℕ) → defer_patience_ticks ≤ n + 1 → is_due (PermissionState.waiting_for_peer n) ≡ true
unfolding is_due
waiting-is_due n h = ground arith

-- However many ticks it has waited without a marker, it is due from the 119th on.
long_wait-is_due :
    (n : ℕ) (ps : List PermissionProbe)
    → All IsSilent ps
    → defer_patience_ticks ≤ n + length ps + 1
    → is_due (ticks PermissionPolicy.deferring ps (PermissionState.waiting_for_peer n)) ≡ true
unfolding ticks
long_wait-is_due n [] h le = waiting-is_due n (omega arith)
long_wait-is_due n (p ∷ ps) h le = elim (Bool-cases (leb defer_patience_ticks (n + 1))) [
  | inl late ↦ run-is_due (p ∷ ps) (PermissionState.waiting_for_peer n) h (unfold is_due in late)
  | inr early ↦
      rw (deferring_waits n p h.0 (ground arith)) (long_wait-is_due (n + 1) ps h.1 (omega arith))
]

ticks-append :
    (policy : PermissionPolicy) (ps qs : List PermissionProbe) (s : PermissionState)
    → ticks policy (ps ++ qs) s ≡ ticks policy qs (ticks policy ps s)
unfolding ticks
ticks-append policy [] qs s = refl
ticks-append policy (p ∷ ps) qs s = ticks-append policy ps qs (on_timer s p policy).1

-- A deferring rail loads while no peer has answered, and sees no answer on the timer ticks either.
-- While they are fewer than 120 it waits on, whether it could take the lock or not. After 119 of
-- them or more, whatever each of them found of the lock, it has asked once a further one finds the
-- lock free: that may be the 120th tick or any later one.
pub deferring_patience :
    (probe : PermissionProbe) (early late : List PermissionProbe) (last : PermissionProbe)
    → IsSilent probe
    → All IsSilent early
    → length early < defer_patience_ticks
    → All IsSilent late
    → defer_patience_ticks ≤ length late + 1
    → IsSilent last
    → last.lock_acquired ≡ true
    → (ticks PermissionPolicy.deferring early
          (on_load PermissionState.unprompted probe PermissionPolicy.deferring).1
        ≡ PermissionState.waiting_for_peer (length early))
      × (ticks PermissionPolicy.deferring
            (late ++ last ∷ [])
            (on_load PermissionState.unprompted probe PermissionPolicy.deferring).1
          ≡ PermissionState.requesting)
deferring_patience probe early late last quiet silent few silent_late many h lock =
    let loads : (on_load PermissionState.unprompted probe PermissionPolicy.deferring).1
        ≡ PermissionState.waiting_for_peer 0 =
      unfold on_load in ground arith in
    let s = ticks PermissionPolicy.deferring late (PermissionState.waiting_for_peer 0) in
    (
      rw loads (
          deferring_waits_run 0 early silent (omega arith)
          ∙ ap PermissionState.waiting_for_peer (omega arith)),
      rw
          (
            loads,
            ticks-append PermissionPolicy.deferring late (last ∷ [])
                (PermissionState.waiting_for_peer 0),
          )
          (unfold ticks in
            due_asks last s h lock (long_wait-is_due 0 late silent_late (omega arith))),
    )

step_never_grants :
    (policy : PermissionPolicy) (p : PermissionProbe) (s : PermissionState)
    → is_granted s ≡ false
    → is_granted (on_timer s p policy).1 ≡ false
unfolding on_timer is_granted
step_never_grants policy p (PermissionState.waiting_for_peer n) h = ground arith
step_never_grants policy p PermissionState.unprompted h = refl
step_never_grants policy p PermissionState.requesting h = refl
step_never_grants policy p (PermissionState.resolved b) h = h

ticks_never_grant :
    (policy : PermissionPolicy) (ps : List PermissionProbe) (s : PermissionState)
    → is_granted s ≡ false
    → is_granted (ticks policy ps s) ≡ false
unfolding ticks
ticks_never_grant policy [] s h = h
ticks_never_grant policy (p ∷ ps) s h =
    ticks_never_grant policy ps (on_timer s p policy).1 (step_never_grants policy p s h)

-- Loading and any run of ticks, under any policies and whatever markers land, never count as a
-- grant: only the user's answer does.
pub never_self_granted :
    (at_load policy : PermissionPolicy) (probe : PermissionProbe) (ps : List PermissionProbe)
    → is_granted (ticks policy ps (on_load PermissionState.unprompted probe at_load).1) ≡ false
never_self_granted at_load policy probe ps =
    ticks_never_grant policy ps _ (unfold on_load is_granted in ground arith)
