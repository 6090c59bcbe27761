-- ===== src/Plugin/Sessions.antt =====
-- crates/plugin/src/sessions.rs: the peers' sessions, their badge, and the Alt+[/] cycle. The map by
-- name of `update_presences` is a list in which each name stands once; its order does not reach the
-- badge, which is sorted by name.
pub mod Intake
pub mod Cycle
pub mod Commit
pub mod Reap
use Prim.Native.String.{compare}
use text.Mathlib.Text.{is_le}
use zj_radar.Prelude.{
  ℕ, ◌+◌, String, Bool, true, false, not, ◌&&◌, ◌||◌, Option, none, some, List, [], ◌∷◌, ◌++◌, map,
  filter, ◌==◌, ltb, eq_bool, str_eq, is_some_and, if◌then◌else◌,
}
use zj_radar.Core.Kind.{from_source, is_agent}
use zj_radar.Core.Presence
use zj_radar.Core.Presence.{Presence, PresenceTab, PresencePane, stale_after_secs, dead_after_secs}

pub record Peer : Type 0 where
  pub presence : Presence
  pub age_secs : ℕ

unfoldable pub is_stale : Peer → Bool
is_stale p = ltb stale_after_secs p.age_secs

unfoldable pub is_dead : Peer → Bool
is_dead p = ltb dead_after_secs p.age_secs

pub record OrderedEntry : Type 0 where
  pub presence : Presence
  pub is_current : Bool
  pub stale : Bool

pub record PresenceUpdate : Type 0 where
  pub changed : Bool
  pub dead : List String

pub record BadgeEntry : Type 0 where
  pub name : String
  pub running : ℕ
  pub attention : ℕ
  pub attention_tab_position : Option ℕ
  pub is_current : Bool
  pub selected : Bool
  pub stale : Bool
  pub tabs : List PresenceTab

pub record CommitTarget : Type 0 where
  pub name : String
  pub attention_tab_position : Option ℕ

pub record SelectionState : Type 0 where
  pub name : String
  pub taps_since_last_fire : Bool

pub record Sessions : Type 0 where
  pub peers : List Peer
  pub own : Option Presence
  pub selection : Option SelectionState
  pub show_trees : Bool

-- The stable sort by name: `sort_by(by_name)`.
unfoldable pub insert_by_name : OrderedEntry → List OrderedEntry → List OrderedEntry
insert_by_name e [] = e ∷ []
insert_by_name e (f ∷ fs) =
    if is_le (compare e.presence.session_name f.presence.session_name)
    then e ∷ f ∷ fs
    else f ∷ insert_by_name e fs

unfoldable pub sort_by_name : List OrderedEntry → List OrderedEntry
unfolding insert_by_name
sort_by_name [] = []
sort_by_name (e ∷ es) = insert_by_name e (sort_by_name es)

-- A peer that has the name of this session is no entry.
unfoldable pub is_own : Option Presence → Peer → Bool
is_own own p = is_some_and own (λ o. str_eq o.session_name p.presence.session_name)

unfoldable pub entry_of : Peer → OrderedEntry
unfolding is_stale
entry_of p = record { presence = p.presence; is_current = false; stale = is_stale p }

-- The entries of the peers that pass a test, in the order of their names.
unfoldable pub bucket : Sessions → (Peer → Bool) → List OrderedEntry
unfolding sort_by_name is_own entry_of filter
bucket s p =
    sort_by_name (map entry_of (filter (λ peer. not (is_own s.own peer) && p peer) s.peers))

abbrev pub current_entry : Option Presence → List OrderedEntry
current_entry none = []
current_entry (some p) = record { presence = p; is_current = true; stale = false } ∷ []

unfoldable pub ordered : Sessions → List OrderedEntry
unfolding bucket is_stale
ordered s =
    current_entry s.own
    ++ bucket s (λ p. not (is_stale p) && ltb 0 p.presence.attention)
    ++ bucket s (λ p. not (is_stale p) && not (ltb 0 p.presence.attention))
    ++ bucket s is_stale

unfoldable pub agent_panes : PresenceTab → PresenceTab
unfolding filter
agent_panes t = record t { panes = filter (λ p. is_agent (from_source p.kind)) t.panes }

unfoldable pub badge_entry : Sessions → OrderedEntry → BadgeEntry
unfolding agent_panes
badge_entry s e = record {
  name = e.presence.session_name;
  running = e.presence.running;
  attention = e.presence.attention;
  attention_tab_position = e.presence.attention_tab_position;
  is_current = e.is_current;
  selected = is_some_and s.selection (λ sel. str_eq sel.name e.presence.session_name);
  stale = e.stale;
  tabs = if e.is_current || not s.show_trees then [] else map agent_panes e.presence.tabs;
}

unfoldable pub badge : Sessions → List BadgeEntry
unfolding ordered badge_entry
badge s = map (badge_entry s) (ordered s)

-- `PartialEq` of the badges, as derived.
abbrev pub eq_opt {ℓ} : {A : Type ℓ} → (A → A → Bool) → Option A → Option A → Bool
eq_opt eq none none = true
eq_opt eq (some a) (some b) = eq a b
eq_opt eq _ _ = false

unfoldable pub eq_list {ℓ} : {A : Type ℓ} → (A → A → Bool) → List A → List A → Bool
eq_list eq [] [] = true
eq_list eq (a ∷ xs) (b ∷ ys) = eq a b && eq_list eq xs ys
eq_list eq _ _ = false

unfoldable pub eq_pane : PresencePane → PresencePane → Bool
eq_pane a b =
    eq_opt (λ i j. i == j) a.pane_id b.pane_id
    && eq_opt (λ i j. str_eq i j) a.origin b.origin
    && str_eq a.kind b.kind
    && str_eq a.status b.status
    && str_eq a.label b.label

unfoldable pub eq_tree : PresenceTab → PresenceTab → Bool
unfolding eq_pane eq_list
eq_tree a b = a.position == b.position && str_eq a.name b.name && eq_list eq_pane a.panes b.panes

unfoldable pub eq_entry : BadgeEntry → BadgeEntry → Bool
unfolding eq_tree eq_list
eq_entry a b =
    str_eq a.name b.name
    && a.running == b.running
    && a.attention == b.attention
    && eq_opt (λ i j. i == j) a.attention_tab_position b.attention_tab_position
    && eq_bool a.is_current b.is_current
    && eq_bool a.selected b.selected
    && eq_bool a.stale b.stale
    && eq_list eq_tree a.tabs b.tabs

-- Whether the badge is another one than before.
unfoldable pub badge_changed : Sessions → Sessions → Bool
unfolding badge eq_list eq_entry
badge_changed s t = not (eq_list eq_entry (badge t) (badge s))

unfoldable pub set_show_trees : Bool → Sessions → Bool × Sessions
unfolding badge_changed
set_show_trees on s =
    let t = record s { show_trees = on } in
    if eq_bool s.show_trees on then (false, s) else (badge_changed s t, t)

unfoldable pub set_own : Presence → Sessions → Bool × Sessions
unfolding badge_changed
set_own p s = let t = record s { own = some p } in (badge_changed s t, t)

unfoldable pub dismiss : String → Sessions → Bool × Sessions
unfolding badge_changed filter
dismiss name s =
    let t = record s { peers = filter (λ p. not (str_eq p.presence.session_name name)) s.peers } in
    (badge_changed s t, t)
