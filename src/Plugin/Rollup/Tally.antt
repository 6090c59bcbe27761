-- ===== src/Plugin/Rollup/Tally.antt =====
-- crates/plugin/src/rollup.rs: the counts, flags and rows of a tab.
use mathlib.Core.List.{append_assoc, append-nil}
use zj_radar.Prelude.{
  ℕ, suc, ◌+◌, ◌≤◌, ◌≡◌, sym, ◌∙◌, arith, inl, inr, Bool, ◌&&◌, ◌||◌, Option, none, some, String,
  List, [], ◌∷◌, ◌++◌, map, length, any, Bool-cases,
}
use zj_radar.Core.Status.{Status, eq_status}
use zj_radar.Core.Kind.{Kind, is_remote}
use zj_radar.Core.Observation.{TrackedObservation, animating}
use mathlib.Core.Bool.{or_assoc, or-false}
use zj_radar.Plugin.Displays.{TerminalPane, PaneDisplay}
use zj_radar.Plugin.Rollup.{absorb, Acc, start, bit, display, roll_step, roll_loop, roll_up}

abbrev pub count : (TrackedObservation → Bool) → List TrackedObservation → ℕ
count p [] = 0
count p (s ∷ ss) = bit (p s) + count p ss

abbrev pub is_seen : TrackedObservation → Bool
is_seen s = s.ever_active

abbrev pub is_done : TrackedObservation → Bool
is_done s = s.ever_active && eq_status s.status Status.done

abbrev pub is_pending : TrackedObservation → Bool
is_pending s = s.ever_active && eq_status s.status Status.pending

abbrev pub is_connected : TrackedObservation → Bool
is_connected s = is_remote s.kind && eq_status s.status Status.running

done_pending_apart :
    (s : TrackedObservation) → bit (is_done s) + bit (is_pending s) ≤ bit (is_seen s)
unfolding eq_status
done_pending_apart s =
    elim s.status
      as (λ st.
        bit (s.ever_active && eq_status st Status.done)
          + bit (s.ever_active && eq_status st Status.pending)
        ≤ bit s.ever_active) [
          | Status.idle ↦ ground arith
          | Status.done ↦ ground arith
          | Status.running ↦ ground arith
          | Status.pending ↦ ground arith
          | Status.error ↦ ground arith
        ]

count-bounds :
    (ss : List TrackedObservation)
    → (count is_done ss + count is_pending ss ≤ count is_seen ss) × (count is_seen ss ≤ length ss)
count-bounds [] = (omega arith, omega arith)
count-bounds (s ∷ ss) =
    let rest = count-bounds ss in
    (
      omega (arith, done_pending_apart s, rest.0),
      elim (Bool-cases s.ever_active) [
        | inl e ↦ rw e (omega (arith, rest.1))
        | inr e ↦ rw e (omega (arith, rest.1))
      ],
    )

abbrev pub prepend : Option TrackedObservation → List TrackedObservation → List TrackedObservation
prepend none ss = ss
prepend (some s) ss = s ∷ ss

-- `r` adds to `a` the counts and flags of `ss`, and the rows `ds`.
abbrev pub Tallies : Acc → List TrackedObservation → List PaneDisplay → Acc → Type 0
Tallies a ss ds r =
    (r.done ≡ a.done + count is_done ss)
    × (r.total ≡ a.total + count is_seen ss)
    × (r.pending ≡ a.pending + count is_pending ss)
    × (r.animating ≡ (a.animating || any animating ss))
    × (r.remote ≡ (a.remote || any is_connected ss))
    × (r.displays ≡ a.displays ++ ds)

absorb-Tallies :
    (o : Option TrackedObservation) (d : PaneDisplay) (a r : Acc) (ss : List TrackedObservation)
    (ds : List PaneDisplay)
    → Tallies (absorb o d a) ss ds r
    → Tallies a (prepend o ss) (d ∷ ds) r
unfolding absorb any
absorb-Tallies none d a r ss ds (dn, tot, pend, anim, rem, disp) =
    (dn, tot, pend, anim, rem, disp ∙ append_assoc a.displays (d ∷ []) ds)
absorb-Tallies (some s) d a r ss ds (dn, tot, pend, anim, rem, disp) = (
  omega (arith, dn),
  omega (arith, tot),
  omega (arith, pend),
  anim ∙ or_assoc a.animating (animating s) (any animating ss),
  rem ∙ or_assoc a.remote (is_connected s) (any is_connected ss),
  disp ∙ append_assoc a.displays (d ∷ []) ds,
)

module _ (resolve : ℕ → Option TrackedObservation) (quiet : ℕ → Option (String × Kind)) where
  -- The observations of the panes, in their order.
  unfoldable pub observed : List TerminalPane → List TrackedObservation
  observed [] = []
  observed (pane ∷ panes) = prepend (resolve pane.id) (observed panes)

  length-prepend-le :
      (o : Option TrackedObservation) (ss : List TrackedObservation)
      → length (prepend o ss) ≤ suc (length ss)
  length-prepend-le none ss = omega arith
  length-prepend-le (some s) ss = omega arith

  length-observed-le : (panes : List TerminalPane) → length (observed panes) ≤ length panes
  unfolding observed
  length-observed-le [] = omega arith
  length-observed-le (pane ∷ panes) =
      omega (arith, length-observed-le panes, length-prepend-le (resolve pane.id) (observed panes))

  tally_loop :
      (panes : List TerminalPane) (a : Acc)
      → Tallies a
          (observed panes)
          (map (display resolve quiet) panes)
          (roll_loop resolve quiet panes a)
  unfolding roll_loop roll_step observed any
  tally_loop [] a = (
    omega arith,
    omega arith,
    omega arith,
    sym (or-false a.animating),
    sym (or-false a.remote),
    sym (append-nil a.displays),
  )
  tally_loop (pane ∷ panes) a =
      absorb-Tallies (resolve pane.id) (display resolve quiet pane) a
        (roll_loop resolve quiet (pane ∷ panes) a) (observed panes)
        (map (display resolve quiet) panes) (tally_loop panes (roll_step resolve quiet pane a))

  -- The counts, the flags and the rows of a tab are those of its panes: a row for each pane, in
  -- order, the counts over the observations that were ever active, and the flags over all of them.
  pub roll_up-tally :
      (panes : List TerminalPane)
      → let ss = observed panes in
        let r = roll_up resolve quiet panes in
        (r.progress ≡ record {
          done = count is_done ss;
          total = count is_seen ss;
          pending = count is_pending ss;
        })
        × (r.animating ≡ any animating ss)
        × (r.remote ≡ any is_connected ss)
        × (r.panes ≡ map (display resolve quiet) panes)
  unfolding roll_up
  roll_up-tally panes =
      let (dn, tot, pend, anim, rem, disp) = tally_loop panes start in
      (ground (arith, dn, tot, pend), anim, rem, disp)

  -- The counts fit: the panes done and those pending are apart, and both are among the ever active.
  pub roll_up-counts :
      (panes : List TerminalPane)
      → let p = (roll_up resolve quiet panes).progress in
        (p.done + p.pending ≤ p.total) × (p.total ≤ length panes)
  roll_up-counts panes =
      let ss = observed panes in
      rw (roll_up-tally panes).0
        ((count-bounds ss).0, omega (arith, (count-bounds ss).1, length-observed-le panes))
