-- ===== src/Plugin/RadarState/Cycle.antt =====
-- crates/plugin/src/radar_state.rs: `cycle_attention`, the next tab that wants the user.
pub mod Target
use zj_radar.Prelude.{ℕ, Option, none, some, List, [], ◌∷◌, map, ◌==◌, ltb, or_else, if◌then◌else◌}
use zj_radar.Core.Status.{Status, needs_attention}
use zj_radar.Plugin.RadarState.{RadarState, RadarTab, find_tab, tab_display_for}
use zj_radar.Plugin.RadarState.Naming.{sort_ids}

pub data Direction : Type 0 where
  next prev : Direction

unfoldable pub attention_members : List (ℕ × Status) → List ℕ
attention_members [] = []
attention_members ((p, s) ∷ tabs) =
    let rest = attention_members tabs in if needs_attention s then p ∷ rest else rest

-- `dedup`, of neighbours.
unfoldable pub dedup : List ℕ → List ℕ
dedup [] = []
dedup (p ∷ []) = p ∷ []
dedup (p ∷ q ∷ ps) = let rest = dedup (q ∷ ps) in if p == q then rest else p ∷ rest

unfoldable pub first_after : ℕ → List ℕ → Option ℕ
first_after a [] = none
first_after a (p ∷ ps) = if ltb a p then some p else first_after a ps

-- `iter().rev().find(|p| p < a)`
unfoldable pub last_before : ℕ → List ℕ → Option ℕ
last_before a [] = none
last_before a (p ∷ ps) = or_else (last_before a ps) (if ltb p a then some p else none)

abbrev pub head : List ℕ → Option ℕ
head [] = none
head (p ∷ ps) = some p

abbrev pub last : List ℕ → Option ℕ
last [] = none
last (p ∷ ps) = or_else (last ps) (some p)

unfoldable pub target : Direction → Option ℕ → List ℕ → Option ℕ
unfolding first_after last_before
target Direction.next (some a) members = or_else (first_after a members) (head members)
target Direction.next none members = head members
target Direction.prev (some a) members = or_else (last_before a members) (last members)
target Direction.prev none members = last members

-- The last `match`: the active tab is no target.
unfoldable pub not_active : Option ℕ → Option ℕ → Option ℕ
not_active active none = none
not_active none (some t) = some t
not_active (some a) (some t) = if t == a then none else some t

unfoldable pub cycle_attention : List (ℕ × Status) → Option ℕ → Direction → Option ℕ
unfolding attention_members dedup target not_active sort_ids
cycle_attention tabs active dir =
    not_active active (target dir active (dedup (sort_ids (attention_members tabs))))

unfoldable pub tab_status : RadarState → RadarTab → ℕ × Status
tab_status s t = (t.position, (tab_display_for s t.position).status)

unfoldable pub next_attention_tab : RadarState → Direction → Option ℕ
unfolding cycle_attention find_tab tab_status
next_attention_tab s dir =
    cycle_attention (map (tab_status s) s.tabs)
      (elim (find_tab (λ t. t.active) s.tabs) [ none ↦ none | some t ↦ some t.position ]) dir
