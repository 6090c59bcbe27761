-- ===== src/Core/Presence.antt =====
-- crates/core/src/presence.rs: the record that a session publishes, read leniently. What serde_json
-- reads from a text is a parameter, `from_str`.
use zj_radar.Prelude.{
  ℕ, String, Bool, true, not, ◌&&◌, Option, none, some, List, map, take, all, str_eq, and_then,
  if◌then◌else◌,
}
use zj_radar.Core.Sanitize.{sanitize}

abbrev pub max_session_name_chars : ℕ
max_session_name_chars = 128

abbrev pub max_tabs : ℕ
max_tabs = 64

abbrev pub max_panes_per_tab : ℕ
max_panes_per_tab = 16

abbrev pub max_label_chars : ℕ
max_label_chars = 96

abbrev pub max_token_chars : ℕ
max_token_chars = 24

abbrev pub stale_after_secs : ℕ
stale_after_secs = 90

abbrev pub dead_after_secs : ℕ
dead_after_secs = 300

pub record PresencePane : Type 0 where
  pub pane_id : Option ℕ
  pub origin : Option String
  pub kind : String
  pub status : String
  pub label : String

pub record PresenceTab : Type 0 where
  pub position : ℕ
  pub name : String
  pub panes : List PresencePane

pub record Presence : Type 0 where
  pub v : ℕ
  pub session_name : String
  pub running : ℕ
  pub attention : ℕ
  pub attention_tab_position : Option ℕ
  pub updated_epoch_s : ℕ
  pub tabs : List PresenceTab

-- A text that the sanitizer leaves as it is.
unfoldable pub clean : String → ℕ → Bool
clean s max_chars = str_eq s (sanitize s max_chars)

-- `is_none_or`
abbrev pub clean_origin : Option String → Bool
clean_origin none = true
clean_origin (some o) = clean o max_token_chars

unfoldable pub clean_pane : PresencePane → Bool
unfolding clean
clean_pane p =
    clean p.label max_label_chars
    && clean p.kind max_token_chars
    && clean p.status max_token_chars
    && clean_origin p.origin

unfoldable pub clean_tab : PresenceTab → Bool
unfolding clean_pane all
clean_tab t = clean t.name max_label_chars && all clean_pane t.panes

unfoldable pub is_clean : Presence → Bool
unfolding clean_tab all
is_clean p =
    not (str_eq p.session_name "")
    && clean p.session_name max_session_name_chars
    && all clean_tab p.tabs

unfoldable pub truncate_tab : PresenceTab → PresenceTab
truncate_tab t = record t { panes = take max_panes_per_tab t.panes }

unfoldable pub truncated : Presence → Presence
unfolding truncate_tab
truncated p = record p { tabs = map truncate_tab (take max_tabs p.tabs) }

unfoldable pub parse : (String → Option Presence) → String → Option Presence
unfolding truncated is_clean
parse from_str raw =
    and_then (from_str raw) (λ p. let q = truncated p in if is_clean q then some q else none)
