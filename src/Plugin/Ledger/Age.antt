-- ===== src/Plugin/Ledger/Age.antt =====
-- crates/plugin/src/ledger.rs: the ages on the rail, and the rows of the ledger.
use mathlib.Core.Bool.{false≢true}
use zj_radar.Prelude.{
  ℕ, ◌-◌, ◌≤◌, String, ◌≡◌, ◌≢◌, inl, inr, false, some, [], ◌∷◌, arith, any, All, ltb, str_eq,
  eq_iff, Bool-cases,
}
use zj_radar.Core.Kind.{Kind, as_source}
use zj_radar.Core.Text.{trim}
use zj_radar.Core.Sanitize.{sanitize}
use zj_radar.Core.Observation.{ObservationOrigin, TrackedObservation, max_tab_name_chars}
use zj_radar.Plugin.Ledger.{
  LedgerEntry, Ledger, saturate_s, sanitized_or, outcome_of, label_of, from_observation,
  any_unsaturated, minute_tag, format_age,
}

saturated_age :
    (at now later : ℕ)
    → ltb (now - at) saturate_s ≡ false
    → now ≤ later
    → format_age at later ≡ "1h+"
unfolding format_age minute_tag
saturated_age at now later h le = ground arith

-- Where no entry is younger than an hour at `now`, every age is frozen: it reads `1h+` at every
-- later time, so no timer is needed to repaint it.
pub saturated_frozen :
    (l : Ledger) (now later : ℕ)
    → any_unsaturated l now ≡ false
    → now ≤ later
    → All (λ e. format_age e.at_epoch_s later ≡ "1h+") l
unfolding any_unsaturated any
saturated_frozen [] now later h le = tt
saturated_frozen (e ∷ es) now later h le = (
  saturated_age e.at_epoch_s now later (ground (arith, h)) le,
  saturated_frozen es now later (ground (arith, h)) le,
)

sanitized_or-ne :
    (text fallback : String) (n : ℕ) → fallback ≢ "" → sanitized_or text n fallback ≢ ""
unfolding sanitized_or
sanitized_or-ne text fallback n ne = elim (Bool-cases (str_eq (trim (sanitize text n)) "")) [
  | inl blank ↦ rw blank ne
  | inr full ↦ rw full (λ e. ground (arith, full, eq_iff (trim (sanitize text n)) "", e))
]

trim-as_source : (k : Kind) → trim (as_source k) ≢ ""
unfolding trim as_source
trim-as_source Kind.claude e = false≢true ((eq_iff "claude" "").1 e)
trim-as_source Kind.codex e = false≢true ((eq_iff "codex" "").1 e)
trim-as_source Kind.opencode e = false≢true ((eq_iff "opencode" "").1 e)
trim-as_source Kind.pi e = false≢true ((eq_iff "pi" "").1 e)
trim-as_source Kind.omp e = false≢true ((eq_iff "omp" "").1 e)
trim-as_source Kind.gemini e = false≢true ((eq_iff "gemini" "").1 e)
trim-as_source Kind.command e = false≢true ((eq_iff "command" "").1 e)
trim-as_source Kind.other e = false≢true ((eq_iff "other" "").1 e)
trim-as_source Kind.test e = false≢true ((eq_iff "test" "").1 e)
trim-as_source Kind.build e = false≢true ((eq_iff "build" "").1 e)
trim-as_source Kind.deploy e = false≢true ((eq_iff "deploy" "").1 e)
trim-as_source Kind.server e = false≢true ((eq_iff "server" "").1 e)
trim-as_source Kind.remote e = false≢true ((eq_iff "remote" "").1 e)

turn_done : trim "turn done" ≢ ""
unfolding trim
turn_done e = false≢true ((eq_iff "turn done" "").1 e)

fallback-ne :
    (o : TrackedObservation) (origin : ObservationOrigin)
    → trim (elim origin [
      | ObservationOrigin.command ↦ as_source o.kind
      | ObservationOrigin.status_pipe ↦ "turn done"
    ])
      ≢ ""
fallback-ne o ObservationOrigin.command = trim-as_source o.kind
fallback-ne o ObservationOrigin.status_pipe = turn_done

label_of-ne : (o : TrackedObservation) → trim (label_of o) ≢ ""
unfolding label_of
label_of-ne o = elim (Bool-cases (str_eq (trim o.msg) "")) [
  | inl blank ↦ rw blank (fallback-ne o o.origin)
  | inr full ↦ rw full (λ e. ground (arith, full, eq_iff (trim o.msg) "", e))
]

from_observation_fields :
    (pane_id : ℕ) (o : TrackedObservation) (tab_id : ℕ) (tab_name : String) (e : LedgerEntry)
    → from_observation pane_id o tab_id tab_name ≡ some e
    → (outcome_of o.status ≡ some e.outcome)
      × (o.completed_epoch_s ≡ some e.at_epoch_s)
      × (e.pane_id ≡ pane_id)
      × (e.tab_id ≡ tab_id)
      × (e.label ≡ label_of o)
      × (e.tab_name ≡ sanitized_or tab_name max_tab_name_chars "tab")
unfolding from_observation
from_observation_fields pane_id o tab_id tab_name e h = ground arith

-- An entry is made of a stamped completion and of nothing else, carries its stamp and its outcome,
-- and has neither a blank label nor an empty tab name.
pub from_observation_lem :
    (pane_id : ℕ) (o : TrackedObservation) (tab_id : ℕ) (tab_name : String) (e : LedgerEntry)
    → from_observation pane_id o tab_id tab_name ≡ some e
    → (outcome_of o.status ≡ some e.outcome)
      × (o.completed_epoch_s ≡ some e.at_epoch_s)
      × (e.pane_id ≡ pane_id)
      × (e.tab_id ≡ tab_id)
      × (trim e.label ≢ "")
      × (e.tab_name ≢ "")
from_observation_lem pane_id o tab_id tab_name e h =
    let f = from_observation_fields pane_id o tab_id tab_name e h in
    (
      f.0,
      f.1,
      f.2,
      f.3,
      rw f.4 (label_of-ne o),
      rw f.5 (
          sanitized_or-ne tab_name "tab" max_tab_name_chars
            (λ p. false≢true ((eq_iff "tab" "").1 p))),
    )
