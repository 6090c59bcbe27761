-- ===== src/Plugin/Ledger.antt =====
-- crates/plugin/src/ledger.rs: the ring of completions that left their cards. The newest entry is
-- the head of the list.
pub mod Event
pub mod Merge
pub mod Cover
pub mod Age
use zj_radar.Prelude.{
  ℕ, ◌+◌, ◌-◌, ◌/◌, String, Bool, true, false, ◌&&◌, Option, none, some, List, [], ◌∷◌, ◌++◌, ltb,
  leb, ◌==◌, str_eq, any, take, unwrap_or, and_then, if◌then◌else◌,
}
use zj_radar.Core.Status.{Status}
use zj_radar.Core.Kind.{as_source}
use zj_radar.Core.Text.{trim, append, decimal}
use zj_radar.Core.Sanitize.{sanitize}
use zj_radar.Core.Observation.{
  ObservationOrigin, TrackedObservation, max_tab_name_chars, max_msg_chars,
}

abbrev pub ledger_cap : ℕ
ledger_cap = 32

abbrev pub merge_window_s : ℕ
merge_window_s = 4

abbrev pub saturate_s : ℕ
saturate_s = 3600

pub data LedgerOutcome : Type 0 where
  done error : LedgerOutcome

abbrev pub eq_outcome : LedgerOutcome → LedgerOutcome → Bool
eq_outcome LedgerOutcome.done LedgerOutcome.done = true
eq_outcome LedgerOutcome.error LedgerOutcome.error = true
eq_outcome _ _ = false

pub record LedgerEntry : Type 0 where
  pub at_epoch_s : ℕ
  pub outcome : LedgerOutcome
  pub tab_id : ℕ
  pub tab_name : String
  pub label : String
  pub pane_id : ℕ

unfoldable pub sanitized_or : String → ℕ → String → String
sanitized_or text max_chars fallback =
    let trimmed = trim (sanitize text max_chars) in if str_eq trimmed "" then fallback else trimmed

unfoldable pub outcome_of : Status → Option LedgerOutcome
outcome_of Status.done = some LedgerOutcome.done
outcome_of Status.error = some LedgerOutcome.error
outcome_of _ = none

unfoldable pub label_of : TrackedObservation → String
label_of obs =
    if str_eq (trim obs.msg) ""
    then elim obs.origin [
      | ObservationOrigin.command ↦ as_source obs.kind
      | ObservationOrigin.status_pipe ↦ "turn done"
    ]
    else obs.msg

unfoldable pub from_observation : ℕ → TrackedObservation → ℕ → String → Option LedgerEntry
from_observation pane_id obs tab_id tab_name = and_then (outcome_of obs.status) (λ outcome.
    and_then obs.completed_epoch_s (λ at_epoch_s. some (record {
      at_epoch_s = at_epoch_s;
      outcome = outcome;
      tab_id = tab_id;
      tab_name = sanitized_or tab_name max_tab_name_chars "tab";
      label = label_of obs;
      pane_id = pane_id;
    })))

unfoldable pub sanitized : LedgerEntry → LedgerEntry
sanitized e = record e {
  tab_name = sanitized_or e.tab_name max_tab_name_chars "tab";
  label = sanitized_or e.label max_msg_chars "done";
}

abbrev pub abs_diff : ℕ → ℕ → ℕ
abs_diff a b = (a - b) + (b - a)

unfoldable pub is_same_event : LedgerEntry → LedgerEntry → Bool
is_same_event a b =
    a.pane_id == b.pane_id
    && eq_outcome a.outcome b.outcome
    && str_eq a.label b.label
    && leb (abs_diff a.at_epoch_s b.at_epoch_s) merge_window_s

abbrev pub Ledger : Type 0
Ledger = List LedgerEntry

-- Whether the entry was appended, and the ring.
unfoldable pub push : LedgerEntry → Ledger → Bool × Ledger
push entry entries =
    if any (λ existing. is_same_event existing entry) entries
    then (false, entries)
    else (true, take ledger_cap (entry ∷ entries))

-- The stable sort by the stamp, the latest first: `sort_by_key(|e| Reverse(e.at_epoch_s))`.
unfoldable pub insert_desc : LedgerEntry → List LedgerEntry → List LedgerEntry
insert_desc e [] = e ∷ []
insert_desc e (f ∷ fs) = if leb f.at_epoch_s e.at_epoch_s then e ∷ f ∷ fs else f ∷ insert_desc e fs

unfoldable pub sort_desc : List LedgerEntry → List LedgerEntry
unfolding insert_desc
sort_desc [] = []
sort_desc (e ∷ es) = insert_desc e (sort_desc es)

unfoldable pub replace : List LedgerEntry → Ledger
unfolding sort_desc
replace entries = take ledger_cap (sort_desc entries)

unfoldable pub any_unsaturated : Ledger → ℕ → Bool
any_unsaturated entries now = any (λ e. ltb (now - e.at_epoch_s) saturate_s) entries

-- The loop of `merge` over the sorted candidates.
unfoldable pub keep_new : List LedgerEntry → List LedgerEntry → List LedgerEntry
keep_new kept [] = kept
keep_new kept (c ∷ cs) =
    keep_new (if any (λ k. is_same_event k c) kept then kept else kept ++ c ∷ []) cs

unfoldable pub merge : List LedgerEntry → List LedgerEntry → List LedgerEntry
unfolding sort_desc keep_new
merge a b = take ledger_cap (keep_new [] (sort_desc (a ++ b)))

unfoldable pub minute_tag : ℕ → Option String
unfolding append decimal
minute_tag age =
    if ltb age 60
    then none
    else if ltb age saturate_s
    then some (append (decimal (age / 60)) "m")
    else some "1h+"

unfoldable pub format_age : ℕ → ℕ → String
format_age at_epoch_s now = unwrap_or (minute_tag (now - at_epoch_s)) "<1m"
