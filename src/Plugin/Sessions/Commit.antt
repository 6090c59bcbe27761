-- ===== src/Plugin/Sessions/Commit.antt =====
-- crates/plugin/src/sessions.rs: where the cycle may land, and when it commits.
use zj_radar.Prelude.{
  ℕ, String, ◌≡◌, ◌∙◌, refl, sym, ap, arith, inl, inr, Bool, true, false, not, ◌&&◌, ◌||◌, Option,
  none, some, List, [], ◌∷◌, map, any, str_eq, eq_iff, and_then, Bool-cases, Option-cases,
}
use zj_radar.Plugin.RadarState.Cycle.{Direction}
use zj_radar.Plugin.Sessions.{
  Sessions, BadgeEntry, OrderedEntry, SelectionState, CommitTarget, bucket, ordered, badge_entry,
  badge,
}
use zj_radar.Plugin.Sessions.Cycle.{
  has_name, find_entry, select, next_selection, selectable, current_position, cycle, commit_to,
  commit, tick,
}

-- A session that the badge shows, that is not this one, and whose record is fresh.
unfoldable pub is_target : String → BadgeEntry → Bool
is_target name b = str_eq b.name name && not b.is_current && not b.stale

unfoldable pub is_fresh : String → BadgeEntry → Bool
is_fresh name b = str_eq b.name name && not b.stale

any_of_found :
    (s : Sessions) (p : OrderedEntry → Bool) (q : BadgeEntry → Bool) (es : List OrderedEntry)
    (e : OrderedEntry)
    → find_entry p es ≡ some e
    → q (badge_entry s e) ≡ true
    → any q (map (badge_entry s) es) ≡ true
unfolding find_entry any
any_of_found s p q [] e found h = absurd (cc)
any_of_found s p q (x ∷ es) e found h = elim (Bool-cases (p x)) [
  | inl hit ↦
      let here : x ≡ e = ground (arith, hit, found) in
      let shown : q (badge_entry s x) ≡ true = rw here h in ground (arith, shown)
  | inr miss ↦ ground (arith, any_of_found s p q es e (ground (arith, miss, found)) h)
]

commit_to-is_target :
    (s : Sessions) (x : OrderedEntry) (t : CommitTarget)
    → commit_to x ≡ some t
    → is_target t.name (badge_entry s x) ≡ true
unfolding commit_to is_target badge_entry
commit_to-is_target s x t e = elim (Bool-cases (x.is_current || x.stale)) [
  | inl barred ↦ absurd (ground (arith, barred, e))
  | inr free ↦
      let name : x.presence.session_name ≡ t.name = ground (arith, free, e) in
      ground (arith, free, eq_iff x.presence.session_name t.name, name)
]

commit-is_target :
    (s shown : Sessions) (name : String) (t : CommitTarget)
    → commit s name ≡ some t
    → any (is_target t.name) (map (badge_entry shown) (ordered s)) ≡ true
unfolding commit badge
commit-is_target s shown name t e = elim (Option-cases (find_entry (has_name name) (ordered s))) [
  | inl out ↦ absurd (cc (e, ap (λ (o : Option OrderedEntry). and_then o commit_to) out))
  | inr (x, found) ↦
      let at : commit_to x ≡ some t =
        cc (e, ap (λ (o : Option OrderedEntry). and_then o commit_to) found) in
      any_of_found shown (has_name name) (is_target t.name) (ordered s) x found
        (commit_to-is_target shown x t at)
]

-- A fire with a quiet selection commits to its name.
fired :
    (s : Sessions) (t : CommitTarget) (sel : SelectionState)
    → s.selection ≡ some sel
    → sel.taps_since_last_fire ≡ false
    → (tick s).0 ≡ some t
    → commit (record s { selection = none }) sel.name ≡ some t
unfolding tick
fired s t sel at quiet e =
    let step₁ : (tick s).0 ≡ commit (record s { selection = none }) sel.name =
      rw (tick, at, quiet) refl in
    sym step₁ ∙ e

-- A timer fire switches only to a session that the badge shows, that is not this one, and whose
-- record is fresh.
pub tick-is_target :
    (s : Sessions) (t : CommitTarget)
    → (tick s).0 ≡ some t
    → any (is_target t.name) (badge s) ≡ true
unfolding tick badge ordered bucket
tick-is_target s t e = elim (Option-cases s.selection) [
  | inl idle ↦ absurd (ground (arith, idle, e))
  | inr (sel, at) ↦ elim (Bool-cases sel.taps_since_last_fire) [
    | inl tapped ↦ absurd (ground (arith, at, tapped, e))
    | inr quiet ↦
        commit-is_target (record s { selection = none }) s sel.name t (fired s t sel at quiet e)
  ]
]

select-taps :
    (o : Option OrderedEntry) (sel : SelectionState)
    → select o ≡ some sel
    → sel.taps_since_last_fire ≡ true
unfolding select
select-taps none sel e = absurd (cc)
select-taps (some x) sel e = ground (arith, e)

next_selection-taps :
    (dir : Direction) (at : Option ℕ) (es : List OrderedEntry) (sel : SelectionState)
    → next_selection dir at es ≡ some sel
    → sel.taps_since_last_fire ≡ true
unfolding next_selection
next_selection-taps dir at [] sel e = absurd (cc)
next_selection-taps dir none (x ∷ es) sel e = select-taps _ sel e
next_selection-taps dir (some i) (x ∷ es) sel e = select-taps _ sel e

-- The timer fire that follows a tap commits nothing, so a commit waits for a whole interval without
-- a tap.
pub tick-cycle : (dir : Direction) (s : Sessions) → (tick (cycle dir s).1).0 ≡ none
unfolding tick cycle
tick-cycle dir s = elim (Option-cases (next_selection dir (current_position s) (selectable s))) [
  | inl out ↦ rw (tick, out) refl
  | inr (sel, e) ↦
      rw (tick, e, next_selection-taps dir (current_position s) (selectable s) sel e) refl
]
