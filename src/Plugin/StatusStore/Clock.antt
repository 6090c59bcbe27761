-- ===== src/Plugin/StatusStore/Clock.antt =====
-- crates/plugin/src/status_store.rs: the grace clock of a stale Running status.
use zj_radar.Prelude.{
  ℕ, ◌-◌, ◌≡◌, refl, ap, ◌∙◌, inl, inr, Bool, false, ◌&&◌, ◌||◌, Option, none, some, List, [], ◌∷◌,
  arith, any, leb, ◌==◌, ==_iff, is_some_and, if◌then◌else◌, Bool-cases, Option-cases,
}
use zj_radar.Prelude.PaneMap
use zj_radar.Prelude.PaneMap.{PaneMap, Distinct, get-insert}
use zj_radar.Core.Status.{Status, eq_status}
use zj_radar.Core.Observation.{TrackedObservation}
use zj_radar.Plugin.StatusStore.{
  StatusStore, running_suspect_grace_ticks, idled, force_idle, cancel_running_suspect, due,
  expire_one, expire_all, expire_stale_running,
}
use zj_radar.Plugin.StatusStore.Invariant.{IsValid}

abbrev pub is_running_obs : TrackedObservation → Bool
is_running_obs o = eq_status o.status Status.running

-- What a tick leaves of an observation whose clock has run out, or has not.
abbrev pub ticked : Bool → ℕ → Option TrackedObservation → Option TrackedObservation
ticked out now none = none
ticked out now (some o) = some (if out && is_running_obs o then idled now o else o)

is_running-idled : (now : ℕ) (o : TrackedObservation) → is_running_obs (idled now o) ≡ false
unfolding idled eq_status
is_running-idled now o = refl

get-expire_one :
    (now i k : ℕ) (s : StatusStore)
    → PaneMap.get k (expire_one now i s).1.store ≡ ticked (i == k) now (PaneMap.get k s.store)
unfolding expire_one cancel_running_suspect force_idle
get-expire_one now i k s = elim (Option-cases (PaneMap.get i s.store)) [
  | inl e ↦ ground (arith, λ (h : i ≡ k). ap (λ (x : ℕ). PaneMap.get x s.store) h)
  | inr (o, e) ↦ ground (
    arith,
    λ (h : i ≡ k). ap (λ (x : ℕ). PaneMap.get x s.store) h,
    get-insert i k (idled now o) s.store,
  )
]

ticked_again :
    (a b : Bool) (now : ℕ) (o : Option TrackedObservation)
    → ticked b now (ticked a now o) ≡ ticked (a || b) now o
ticked_again a b now none = refl
ticked_again a b now (some o) = ground (arith, is_running-idled now o)

get-expire_all :
    (now k : ℕ) (ids : List ℕ) (s : StatusStore)
    → PaneMap.get k (expire_all now ids s).1.store
      ≡ ticked (any (λ i. i == k) ids) now (PaneMap.get k s.store)
unfolding expire_all any
get-expire_all now k [] s = ground arith
get-expire_all now k (i ∷ ids) s =
    get-expire_all now k ids (expire_one now i s).1
    ∙ ap (ticked (any (λ j. j == k) ids) now) (get-expire_one now i k s)
    ∙ ticked_again (i == k) (any (λ j. j == k) ids) now (PaneMap.get k s.store)

-- The clock of the pane has run for the whole grace window.
abbrev pub has_expired : ℕ → Option ℕ → Bool
has_expired now clock = is_some_and clock (λ since. leb running_suspect_grace_ticks (now - since))

any-due-none :
    (now k : ℕ) (m : PaneMap ℕ) → PaneMap.get k m ≡ none → any (λ i. i == k) (due now m) ≡ false
unfolding PaneMap.get due any
any-due-none now k [] h = refl
any-due-none now k ((j, since) ∷ m) h = ground (arith, any-due-none now k m)

any-due :
    (now k : ℕ) (m : PaneMap ℕ)
    → Distinct m
    → any (λ i. i == k) (due now m) ≡ has_expired now (PaneMap.get k m)
unfolding PaneMap.get due any
any-due now k [] d = refl
any-due now k ((j, since) ∷ m) d = elim (Bool-cases (j == k)) [
  | inl hit ↦
      let fresh : PaneMap.get k m ≡ none = rw (← (==_iff j k).0 hit) d.0 in
      ground (arith, hit, any-due-none now k m fresh)
  | inr miss ↦ ground (arith, miss, any-due now k m d.1)
]

-- In a valid store, a timer tick clears to idle exactly the panes that are still Running and whose
-- grace clock has run out, and leaves every other pane as it was.
pub get-expire :
    (now k : ℕ) (s : StatusStore)
    → IsValid s
    → PaneMap.get k (expire_stale_running now s).1.store
      ≡ ticked (has_expired now (PaneMap.get k s.suspect_running)) now (PaneMap.get k s.store)
unfolding expire_stale_running
get-expire now k s v =
    get-expire_all now k (due now s.suspect_running) s
    ∙ ap (λ (b : Bool). ticked b now (PaneMap.get k s.store))
        (any-due now k s.suspect_running v.sound.distinct_clocks)
