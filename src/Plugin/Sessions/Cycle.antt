-- ===== src/Plugin/Sessions/Cycle.antt =====
-- crates/plugin/src/sessions.rs: the cycle of Alt+[/], and the commit on a quiet timer fire.
use zj_radar.Prelude.{
  ℕ, suc, ◌+◌, ◌-◌, ◌%◌, String, Bool, true, false, not, ◌||◌, Option, none, some, List, [], ◌∷◌,
  filter, length, get_elem?, str_eq, is_some, and_then, if◌then◌else◌,
}
use zj_radar.Plugin.RadarState.Cycle.{Direction}
use zj_radar.Plugin.Sessions.{
  Sessions, OrderedEntry, SelectionState, CommitTarget, ordered, badge_changed,
}

-- `iter().position`
unfoldable pub position : (OrderedEntry → Bool) → List OrderedEntry → Option ℕ
position p [] = none
position p (e ∷ es) =
    if p e then some 0 else elim (position p es) [ none ↦ none | some i ↦ some (suc i) ]

-- `iter().find`
unfoldable pub find_entry : (OrderedEntry → Bool) → List OrderedEntry → Option OrderedEntry
find_entry p [] = none
find_entry p (e ∷ es) = if p e then some e else find_entry p es

abbrev pub has_name : String → OrderedEntry → Bool
has_name name e = str_eq e.presence.session_name name

unfoldable pub selectable : Sessions → List OrderedEntry
unfolding filter ordered
selectable s = filter (λ e. not e.stale) (ordered s)

unfoldable pub current_position : Sessions → Option ℕ
unfolding selectable position
current_position s = and_then s.selection (λ sel. position (has_name sel.name) (selectable s))

unfoldable pub step : Direction → ℕ → ℕ → ℕ
step Direction.next index len = (index + 1) % len
step Direction.prev index len = (index + len - 1) % len

unfoldable pub select : Option OrderedEntry → Option SelectionState
select none = none
select (some e) = some (record { name = e.presence.session_name; taps_since_last_fire = true })

-- `match (current_position, selectable.len())`; a position below the length is in range.
unfoldable pub next_selection : Direction → Option ℕ → List OrderedEntry → Option SelectionState
unfolding step select find_entry
next_selection dir at [] = none
next_selection dir none (e ∷ es) = select (find_entry (λ x. not x.is_current) (e ∷ es))
next_selection dir (some index) (e ∷ es) =
    select (get_elem? (e ∷ es) (step dir index (length (e ∷ es))))

unfoldable pub cycle : Direction → Sessions → Bool × Sessions
unfolding next_selection current_position selectable badge_changed
cycle dir s =
    let t = record s { selection = next_selection dir (current_position s) (selectable s) } in
    (badge_changed s t, t)

-- An entry is committed to unless it is this session (the cancel gesture) or has gone stale.
unfoldable pub commit_to : OrderedEntry → Option CommitTarget
commit_to e =
    if e.is_current || e.stale
    then none
    else some (record {
      name = e.presence.session_name;
      attention_tab_position = e.presence.attention_tab_position;
    })

-- Where a quiet fire goes, for the name that is selected.
unfoldable pub commit : Sessions → String → Option CommitTarget
unfolding find_entry ordered commit_to
commit s name = and_then (find_entry (has_name name) (ordered s)) commit_to

unfoldable pub tick : Sessions → Option CommitTarget × Sessions
unfolding commit
tick s = elim s.selection [
  | none ↦ (none, s)
  | some sel ↦
      if sel.taps_since_last_fire
      then (none, record s { selection = some (record sel { taps_since_last_fire = false }) })
      else (commit (record s { selection = none }) sel.name, record s { selection = none })
]

unfoldable pub wants_fast_cadence : Sessions → Bool
wants_fast_cadence s = is_some s.selection
