-- ===== src/Plugin/NotifyRules/News.antt =====
-- crates/plugin/src/notify_rules.rs: what a pane has passed that `diff` notifies about.
use zj_radar.Prelude.{
  ℕ, ◌≡◌, ◌≢◌, ◌↔◌, ◌∙◌, refl, ap, arith, inl, inr, true, false, not, ◌&&◌, Option, some, any,
  unwrap_or, Bool-cases, Option-cases, if◌then◌else◌,
}
use zj_radar.Prelude.PaneMap
use zj_radar.Prelude.PaneMap.{PaneMap, Distinct}
use zj_radar.Core.Status.{Status, eq_status, needs_attention}
use zj_radar.Core.Status.Wire.{eq_status_refl, eq_status_iff}
use zj_radar.Core.Kind.{Kind, is_remote}
use zj_radar.Core.Observation.{TrackedObservation}
use zj_radar.Plugin.NotifyRules.{NotifyConfig, enabled, is_focused, notifies, diff}
use zj_radar.Plugin.NotifyRules.Diff.{about, any-diff}

-- The switches of the settings that a status of a kind needs on, besides the main one.
abbrev pub IsSwitchedOn : NotifyConfig → Status → Kind → Type 0
IsSwitchedOn cfg Status.done k = (if is_remote k then cfg.notify_remote else cfg.notify_done) ≡ true
IsSwitchedOn cfg Status.error k =
    (if is_remote k then cfg.notify_remote else cfg.notify_error) ≡ true
IsSwitchedOn cfg Status.pending k = cfg.notify_pending ≡ true
IsSwitchedOn cfg Status.running k = ⊥
IsSwitchedOn cfg Status.idle k = ⊥

-- The observation is news: it is not acknowledged, its status is one that needs attention and that
-- the settings notify of, the pane did not have that status before, and it is not the pane in
-- focus, unless the settings notify of that one too.
pub record IsNews (prev : PaneMap Status) (k : ℕ) (o : TrackedObservation) (focused : Option ℕ)
    (cfg : NotifyConfig) : Type 0 where
  pub unseen : o.acknowledged ≡ false
  pub main_switch : cfg.notify ≡ true
  pub switched : IsSwitchedOn cfg o.status o.kind
  pub changed : PaneMap.get k prev ≢ some o.status
  pub elsewhere : focused ≡ some k → cfg.notify_when_focused ≡ true

enabled-notify :
    (st : Status) (k : Kind) (cfg : NotifyConfig) → enabled st k cfg ≡ true → cfg.notify ≡ true
unfolding enabled
enabled-notify Status.idle k cfg e = ground arith
enabled-notify Status.done k cfg e = ground arith
enabled-notify Status.running k cfg e = ground arith
enabled-notify Status.pending k cfg e = ground arith
enabled-notify Status.error k cfg e = ground arith

enabled-IsSwitchedOn :
    (st : Status) (k : Kind) (cfg : NotifyConfig) → enabled st k cfg ≡ true → IsSwitchedOn cfg st k
unfolding enabled
enabled-IsSwitchedOn Status.idle k cfg e = absurd (ground arith)
enabled-IsSwitchedOn Status.done k cfg e = ground arith
enabled-IsSwitchedOn Status.running k cfg e = absurd (ground arith)
enabled-IsSwitchedOn Status.pending k cfg e = ground arith
enabled-IsSwitchedOn Status.error k cfg e = ground arith

IsSwitchedOn-enabled :
    (st : Status) (k : Kind) (cfg : NotifyConfig)
    → cfg.notify ≡ true
    → IsSwitchedOn cfg st k
    → enabled st k cfg ≡ true
unfolding enabled
IsSwitchedOn-enabled Status.idle k cfg e s = absurd s
IsSwitchedOn-enabled Status.done k cfg e s = ground arith
IsSwitchedOn-enabled Status.running k cfg e s = absurd s
IsSwitchedOn-enabled Status.pending k cfg e s = ground arith
IsSwitchedOn-enabled Status.error k cfg e s = ground arith

enabled-asks :
    (st : Status) (k : Kind) (cfg : NotifyConfig)
    → enabled st k cfg ≡ true
    → needs_attention st ≡ true
unfolding enabled needs_attention
enabled-asks Status.idle k cfg e = absurd (ground arith)
enabled-asks Status.done k cfg e = refl
enabled-asks Status.running k cfg e = absurd (ground arith)
enabled-asks Status.pending k cfg e = refl
enabled-asks Status.error k cfg e = refl

asks-eq_idle : (st : Status) → needs_attention st ≡ true → eq_status st Status.idle ≡ false
unfolding needs_attention eq_status
asks-eq_idle Status.idle e = absurd (cc)
asks-eq_idle Status.done e = refl
asks-eq_idle Status.running e = refl
asks-eq_idle Status.pending e = refl
asks-eq_idle Status.error e = refl

module _ (prev : PaneMap Status) (focused : Option ℕ) (cfg : NotifyConfig) where
  notifies-IsNews :
      (k : ℕ) (o : TrackedObservation)
      → notifies prev k o focused cfg ≡ true
      → IsNews prev k o focused cfg
  unfolding notifies
  notifies-IsNews k o e = elim (Bool-cases (enabled o.status o.kind cfg)) [
    | inr off ↦ absurd (ground (arith, off))
    | inl on ↦ record {
      unseen = ground (arith, on);
      main_switch = enabled-notify o.status o.kind cfg on;
      switched = enabled-IsSwitchedOn o.status o.kind cfg on;
      changed = λ same. ground (arith, on, same, eq_status_refl o.status);
      elsewhere = λ here. ground (arith, on, here);
    }
  ]

  -- Another status than the one before.
  fresh_status :
      (k : ℕ) (st : Status)
      → needs_attention st ≡ true
      → PaneMap.get k prev ≢ some st
      → eq_status st (unwrap_or (PaneMap.get k prev) Status.idle) ≡ false
  fresh_status k st asks ne = elim (Option-cases (PaneMap.get k prev)) [
    | inl e ↦ rw e (asks-eq_idle st asks)
    | inr (was, e) ↦
        rw e (ground (arith, eq_status_iff st was, λ (same : st ≡ was). ne (rw same e)))
  ]

  away :
      (k : ℕ)
      → (focused ≡ some k → cfg.notify_when_focused ≡ true)
      → (is_focused focused k && not cfg.notify_when_focused) ≡ false
  away k h = elim (Option-cases focused) [
    | inl e ↦ rw e refl
    | inr (j, e) ↦ rw e (ground (arith, λ (same : j ≡ k). h (e ∙ ap some same)))
  ]

  IsNews-notifies :
      (k : ℕ) (o : TrackedObservation)
      → IsNews prev k o focused cfg
      → notifies prev k o focused cfg ≡ true
  unfolding notifies
  IsNews-notifies k o n =
      let on = IsSwitchedOn-enabled o.status o.kind cfg n.main_switch n.switched in
      let asks = enabled-asks o.status o.kind cfg on in
      ground (arith, n.unseen, on, asks, fresh_status k o.status asks n.changed, away k n.elsewhere)

  -- Over a map with each pane once, `diff` notifies about a pane exactly when the observation of the
  -- pane is news: it is not acknowledged; its status is Done, Error or Pending, and the switch for
  -- that status is on, and the main switch too; the pane had another status before, or none; and
  -- the pane is not in focus, unless the setting for the pane in focus is on.
  pub diff-IsNews :
      (k : ℕ) (current : PaneMap TrackedObservation) (o : TrackedObservation)
      → Distinct current
      → PaneMap.get k current ≡ some o
      → (any (about k) (diff prev current focused cfg) ≡ true) ↔ IsNews prev k o focused cfg
  diff-IsNews k current o d e =
      let told_of = any-diff prev focused cfg k current d in
      (
        λ told. notifies-IsNews k o (ground (arith, told_of, e, told)),
        λ news. ground (arith, told_of, e, IsNews-notifies k o news),
      )
