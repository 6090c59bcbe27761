-- ===== src/Plugin/NotifyRules/Diff.antt =====
-- crates/plugin/src/notify_rules.rs: what `diff` hands on.
use zj_radar.Prelude.{
  ℕ, ◌≡◌, refl, Bool, false, inl, inr, arith, Option, none, some, [], ◌∷◌, ◌==◌, ==_iff,
  is_some_and, any, Bool-cases,
}
use zj_radar.Prelude.PaneMap
use zj_radar.Prelude.PaneMap.{PaneMap, Distinct}
use zj_radar.Core.Status.{Status}
use zj_radar.Core.Status.Wire.{eq_status_refl}
use zj_radar.Core.Observation.{TrackedObservation}
use zj_radar.Plugin.NotifyRules.{NotifyConfig, Notification, build, notifies, diff, status_map}

-- Whether a notification is about a pane.
abbrev pub about : ℕ → Notification → Bool
about k n = n.pane_id == k

module _ (prev : PaneMap Status) (focused : Option ℕ) (cfg : NotifyConfig) where
  absent-diff :
      (k : ℕ) (current : PaneMap TrackedObservation)
      → PaneMap.get k current ≡ none
      → any (about k) (diff prev current focused cfg) ≡ false
  unfolding PaneMap.get any diff build
  absent-diff k [] h = refl
  absent-diff k ((j, o) ∷ current) h = elim (Bool-cases (j == k)) [
    | inl hit ↦ absurd (ground arith)
    | inr miss ↦ elim (Bool-cases (notifies prev j o focused cfg)) [
      | inl told ↦ rw (told, miss) (absent-diff k current (ground arith))
      | inr quiet ↦ rw quiet (absent-diff k current (ground arith))
    ]
  ]

  -- Over a map with each pane once, a pane is notified about exactly when its own observation
  -- passes the rules.
  pub any-diff :
      (k : ℕ) (current : PaneMap TrackedObservation)
      → Distinct current
      → any (about k) (diff prev current focused cfg)
        ≡ is_some_and (PaneMap.get k current) (λ o. notifies prev k o focused cfg)
  unfolding PaneMap.get any diff build
  any-diff k [] d = refl
  any-diff k ((j, o) ∷ current) d = elim (Bool-cases (j == k)) [
    | inl hit ↦
        let j≡k : j ≡ k = (==_iff j k).0 hit in
        elim (Bool-cases (notifies prev j o focused cfg)) [
          | inl told ↦ rw (told, hit, ← j≡k) (rw told refl)
          | inr quiet ↦ rw (quiet, hit, ← j≡k) (rw quiet (absent-diff j current d.0))
        ]
    | inr miss ↦ elim (Bool-cases (notifies prev j o focused cfg)) [
      | inl told ↦ rw (told, miss) (any-diff k current d.1)
      | inr quiet ↦ rw (quiet, miss) (any-diff k current d.1)
    ]
  ]

module _ (focused : Option ℕ) (cfg : NotifyConfig) where
  -- Where the map of statuses holds a pane's own status, the pane is silent.
  notifies-same :
      (prev : PaneMap Status) (k : ℕ) (o : TrackedObservation)
      → PaneMap.get k prev ≡ some o.status
      → notifies prev k o focused cfg ≡ false
  unfolding notifies
  notifies-same prev k o e = rw (e, eq_status_refl o.status) (ground arith)

  pub diff-silent :
      (prev : PaneMap Status) (current : PaneMap TrackedObservation)
      → Distinct current
      → ((k : ℕ) (o : TrackedObservation)
          → PaneMap.get k current ≡ some o
          → PaneMap.get k prev ≡ some o.status)
      → diff prev current focused cfg ≡ []
  unfolding diff PaneMap.get
  diff-silent prev [] d agree = refl
  diff-silent prev ((j, o) ∷ current) d agree =
      rw (notifies-same prev j o (agree j o (ground arith))) (
        diff-silent prev current d.1
          (λ k p e. agree k p (PaneMap.get-cons_fresh j k o p current d.0 e)))

  get-status_map :
      (k : ℕ) (current : PaneMap TrackedObservation) (o : TrackedObservation)
      → PaneMap.get k current ≡ some o
      → PaneMap.get k (status_map current) ≡ some o.status
  unfolding status_map PaneMap.get
  get-status_map k [] o e = absurd (cc)
  get-status_map k ((j, p) ∷ current) o e = ground (arith, get-status_map k current o)

  -- Whatever notified, the same observations, each pane once, against the statuses taken from them
  -- notify nobody, wherever the focus went and however the settings changed.
  pub diff-status_map :
      (current : PaneMap TrackedObservation)
      → Distinct current
      → diff (status_map current) current focused cfg ≡ []
  diff-status_map current d =
      diff-silent (status_map current) current d (λ k o e. get-status_map k current o e)
