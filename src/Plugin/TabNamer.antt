-- ===== src/Plugin/TabNamer.antt =====
-- crates/plugin/src/tab_namer.rs: what each tab is called. A `TabId` is its number.
pub mod Echo
use Prim.Native.Char.{code}
use Prim.Native.String.{◌∷◌ as cons_char, [] as no_chars}
use zj_radar.Prelude.{
  ℕ, String, Bool, true, false, not, ◌&&◌, ◌||◌, Option, none, some, List, [], ◌∷◌, ◌++◌, any, leb,
  str_eq, is_some_and, and_then, if◌then◌else◌, ◌==◌,
}
use zj_radar.Prelude.PaneMap
use zj_radar.Prelude.PaneMap.{PaneMap}
use zj_radar.Core.Text.{
  is_whitespace, trim, trim_start, every_char, is_digit, starts_with, strip_prefix,
}
use zj_radar.Core.Sanitize.{sanitize}
use zj_radar.Core.Observation.{max_tab_name_chars}
use zj_radar.Core.Command.{segments, last_named}

pub data NamingMode : Type 0 where
  managed force off : NamingMode

pub record PaneFacts : Type 0 where
  pub repo : Option String
  pub cwd : Option String
  pub title : String
  pub focused : Bool

pub record TabFacts : Type 0 where
  pub id : ℕ
  pub name : String
  pub panes : List PaneFacts

pub record TabRename : Type 0 where
  pub id : ℕ
  pub name : String

abbrev pub Applied : Type 0
Applied = PaneMap String

unfoldable pub is_numbered_placeholder : String → String → Bool
is_numbered_placeholder name prefix =
    is_some_and (strip_prefix prefix name)
      (λ rest. not (str_eq rest "") && every_char is_digit rest)

unfoldable pub is_pane_placeholder : String → Bool
is_pane_placeholder title = is_numbered_placeholder title "Pane #"

unfoldable pub is_default_name : String → Bool
is_default_name name = is_numbered_placeholder name "Tab #"

-- A braille spinner glyph with white space behind it is no part of the title.
unfoldable pub strip_activity_prefix : String → String
strip_activity_prefix no_chars = ""
strip_activity_prefix (cons_char first no_chars) = cons_char first no_chars
strip_activity_prefix (cons_char first (cons_char c rest)) =
    if leb 0x2800 (code first) && leb (code first) 0x28ff && is_whitespace c
    then cons_char c rest
    else cons_char first (cons_char c rest)

unfoldable pub title_name : String → Option String
title_name title =
    let stable = trim (strip_activity_prefix (trim_start title)) in
    if str_eq stable "" || is_pane_placeholder stable then none else some stable

-- `trim_end_matches('/')`
unfoldable pub trim_slashes : String → String
trim_slashes no_chars = ""
trim_slashes (cons_char c s) =
    let rest = trim_slashes s in if code c == 0x2f && str_eq rest "" then "" else cons_char c rest

unfoldable pub cwd_basename : String → Option String
unfolding trim_slashes
cwd_basename path =
    let trimmed = trim_slashes path in
    if str_eq trimmed "" then none else some (last_named (segments trimmed))

abbrev pub worktree_markers : List String
worktree_markers = "/.claude/worktrees/" ∷ "/.Codex/worktrees/" ∷ []

-- What stands in front of the first marker.
unfoldable pub before_marker : String → Option String
before_marker no_chars = none
before_marker (cons_char c s) =
    if any (λ m. starts_with m (cons_char c s)) worktree_markers
    then some ""
    else elim (before_marker s) [ none ↦ none | some front ↦ some (cons_char c front) ]

unfoldable pub worktree_repo_dir : String → Option String
unfolding before_marker
worktree_repo_dir path = elim (before_marker path) [
  | some parent ↦ cwd_basename parent
  | none ↦ cwd_basename path
]

unfoldable pub repo_of : PaneFacts → Option String
repo_of p = and_then p.repo (λ r. if str_eq r "" then none else some r)

unfoldable pub worktree_of : PaneFacts → Option String
worktree_of p = and_then p.cwd worktree_repo_dir

unfoldable pub title_of : PaneFacts → Option String
title_of p = title_name p.title

unfoldable pub focused_pane : List PaneFacts → Option PaneFacts
focused_pane [] = none
focused_pane (p ∷ panes) = if p.focused then some p else focused_pane panes

abbrev pub opt_list {ℓ} : {A : Type ℓ} → Option A → List A
opt_list none = []
opt_list (some a) = a ∷ []

-- `filter_map`
unfoldable pub all_facts : (PaneFacts → Option String) → List PaneFacts → List String
all_facts fact [] = []
all_facts fact (p ∷ ps) = opt_list (fact p) ++ all_facts fact ps

-- What a fact gives for the focused pane, and then for every pane.
unfoldable pub ranked : (PaneFacts → Option String) → List PaneFacts → List String
unfolding focused_pane all_facts
ranked fact panes = opt_list (and_then (focused_pane panes) fact) ++ all_facts fact panes

unfoldable pub name_candidates : List PaneFacts → List String
unfolding ranked repo_of worktree_of title_of
name_candidates panes = ranked repo_of panes ++ ranked worktree_of panes ++ ranked title_of panes

abbrev pub first {ℓ} : {A : Type ℓ} → List A → Option A
first [] = none
first (a ∷ rest) = some a

unfoldable pub computed_name : List PaneFacts → Option String
unfolding name_candidates
computed_name panes = first (name_candidates panes)

unfoldable pub name_supported : List PaneFacts → String → Bool
unfolding name_candidates
name_supported panes name = any (λ c. str_eq c name) (name_candidates panes)

abbrev pub is_force : NamingMode → Bool
is_force NamingMode.force = true
is_force _ = false

-- The name to apply to a tab that differs from the name it has, if it may be overwritten.
unfoldable pub overwrite : Bool → Bool → String → Option String → Option String
overwrite ours forced name none = none
overwrite ours forced name (some n) =
    let desired = sanitize n max_tab_name_chars in
    if str_eq desired "" || str_eq desired name
    then none
    else if forced || is_default_name name || ours
    then some desired
    else none

-- One round of the loop, up to its effects: the name that is applied, if any.
unfoldable pub new_name : NamingMode → Option String → TabFacts → Option String
unfolding computed_name name_supported overwrite
new_name mode applied tab =
    let ours = is_some_and applied (λ a. str_eq a tab.name) in
    if ours && name_supported tab.panes tab.name
    then none
    else overwrite ours (is_force mode) tab.name (computed_name tab.panes)

unfoldable pub rename_loop : NamingMode → Applied → List TabFacts → Applied × List TabRename
unfolding new_name PaneMap.get PaneMap.insert
rename_loop mode applied [] = (applied, [])
rename_loop mode applied (tab ∷ tabs) = elim (new_name mode (PaneMap.get tab.id applied) tab) [
  | none ↦ rename_loop mode applied tabs
  | some n ↦
      let (kept, out) = rename_loop mode (PaneMap.insert tab.id n applied) tabs in
      (kept, record { id = tab.id; name = n } ∷ out)
]

unfoldable pub rename : Applied → List TabFacts → NamingMode → Applied × List TabRename
unfolding rename_loop
rename applied tabs NamingMode.off = (applied, [])
rename applied tabs NamingMode.force = rename_loop NamingMode.force applied tabs
rename applied tabs NamingMode.managed = rename_loop NamingMode.managed applied tabs

unfoldable pub retain_tabs : Applied → List ℕ → Applied
unfolding any PaneMap.retain
retain_tabs applied live = PaneMap.retain (λ id. any (λ j. j == id) live) applied
