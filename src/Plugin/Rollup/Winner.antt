-- ===== src/Plugin/Rollup/Winner.antt =====
-- crates/plugin/src/rollup.rs: the observation that speaks for a tab.
use mathlib.Core.Path.{subst}
use mathlib.Core.List.{append_assoc, append-nil, Memᴰ}
use mathlib.Core.List.Memᴰ
use zj_radar.Prelude.{
  ◌⊎◌, ℕ, ◌≤◌, ◌≡◌, refl, ap, arith, inl, inr, true, false, Option, none, some, String, List, [],
  ◌∷◌, ◌++◌, All, All-append, All-imp, Bool-cases,
}
use zj_radar.Core.Status.{Status, rank, is_active}
use zj_radar.Core.Kind.{Kind}
use zj_radar.Core.Observation.{TrackedObservation}
use zj_radar.Plugin.Displays.{TerminalPane, PaneDisplay, PrimaryDetail}
use zj_radar.Plugin.Rollup.{
  detail_status, key, Acc, Key, start, key_ge, key_of, detail_key, detail_of, challenge, absorb,
  display, roll_step, roll_loop, roll_up,
}
use zj_radar.Plugin.Rollup.Order.{Ge, key_ge-total, key_ge_refl, key_ge_trans, key_ge-rank}
use zj_radar.Plugin.Rollup.Tally.{prepend, observed}

abbrev pub Yields : Key → TrackedObservation → Type 0
Yields top s = is_active s.status ≡ true → Ge top (key_of s)

abbrev pub IsIdle : TrackedObservation → Type 0
IsIdle s = is_active s.status ≡ false

-- The detail is that of one of the active observations, and none of them outranks it; without an
-- active observation there is no detail.
abbrev pub IsWinner : List TrackedObservation → Option PrimaryDetail → Type 0
IsWinner ss none = All IsIdle ss
IsWinner ss (some d) =
    All (Yields (detail_key d)) ss
    × ((s : TrackedObservation) × Memᴰ s ss × (d ≡ detail_of s) × (is_active s.status ≡ true))

challenge-IsWinner :
    (s : TrackedObservation) (ss : List TrackedObservation) (best : Option PrimaryDetail)
    → IsWinner ss best
    → IsWinner (ss ++ s ∷ []) (challenge s best)
unfolding challenge detail_of
challenge-IsWinner s ss none w = elim (Bool-cases (is_active s.status)) [
  | inl e ↦ rw e (
    All-append (Yields (key_of s)) ss (s ∷ [])
        (All-imp IsIdle (Yields (key_of s)) ss (λ t idle active. absurd (cc (idle, active))) w)
        (λ active. key_ge_refl (key_of s), tt),
    (s, Memᴰ.append_right ss (Memᴰ.head refl), refl, e),
  )
  | inr e ↦ rw e (All-append IsIdle ss (s ∷ []) w (e, tt))
]
challenge-IsWinner s ss (some d) w = elim (Bool-cases (is_active s.status)) [
  | inl e ↦ elim (Bool-cases (key_ge (key_of s) (detail_key d))) [
    | inl wins ↦
        rw (e, wins)
          (
            All-append (Yields (key_of s)) ss (s ∷ [])
                (All-imp (Yields (detail_key d)) (Yields (key_of s)) ss
                  (λ t y active. key_ge_trans (key_of s) (detail_key d) (key_of t) wins (y active))
                  w.0)
                (λ active. key_ge_refl (key_of s), tt),
            (s, Memᴰ.append_right ss (Memᴰ.head refl), refl, e),
          )
    | inr loses ↦
        let (t, mem, is, active) = w.1 in
        rw (e, loses)
          (
            All-append (Yields (detail_key d)) ss (s ∷ []) w.0
                (λ _. key_ge-total (key_of s) (detail_key d) loses, tt),
            (t, Memᴰ.append_left (s ∷ []) mem, is, active),
          )
  ]
  | inr e ↦
      let (t, mem, is, active) = w.1 in
      rw e (
        All-append (Yields (detail_key d)) ss (s ∷ []) w.0 (λ active. absurd (cc (e, active)), tt),
        (t, Memᴰ.append_left (s ∷ []) mem, is, active),
      )
]

absorb-IsWinner :
    (o : Option TrackedObservation) (d : PaneDisplay) (a : Acc) (ss : List TrackedObservation)
    → IsWinner ss a.best
    → IsWinner (ss ++ prepend o []) (absorb o d a).best
unfolding absorb
absorb-IsWinner none d a ss w = rw append-nil w
absorb-IsWinner (some s) d a ss w = challenge-IsWinner s ss a.best w

append-prepend :
    (o : Option TrackedObservation) (ss ts : List TrackedObservation)
    → ss ++ prepend o [] ++ ts ≡ ss ++ prepend o ts
append-prepend none ss ts = rw append-nil refl
append-prepend (some s) ss ts = append_assoc ss (s ∷ []) ts

rank-idle : (s : TrackedObservation) → IsIdle s → rank s.status ≤ 0
unfolding is_active rank
rank-idle s e =
    elim s.status as (λ st. is_active st ≡ false → rank st ≤ 0) [
      | Status.idle ↦ λ e. omega arith
      | Status.done ↦ λ e. absurd (cc e)
      | Status.running ↦ λ e. absurd (cc e)
      | Status.pending ↦ λ e. absurd (cc e)
      | Status.error ↦ λ e. absurd (cc e)
    ]
      e

rank-Yields :
    (d : PrimaryDetail) (s : TrackedObservation)
    → Yields (detail_key d) s
    → rank s.status ≤ rank d.status
unfolding key
rank-Yields d s y = elim (Bool-cases (is_active s.status)) [
  | inl active ↦ key_ge-rank (detail_key d) (key_of s) (y active)
  | inr idle ↦ omega (arith, rank-idle s idle)
]

-- A status is the most severe one of the observations: none is above it, and it is idle or that of
-- one of them.
abbrev pub IsSeverest : List TrackedObservation → Status → Type 0
IsSeverest ss st =
    All (λ s. rank s.status ≤ rank st) ss
    × ((st ≡ Status.idle) ⊎ ((s : TrackedObservation) × Memᴰ s ss × (st ≡ s.status)))

winner-IsSeverest :
    (ss : List TrackedObservation) (best : Option PrimaryDetail)
    → IsWinner ss best
    → IsSeverest ss (detail_status best)
unfolding rank detail_of
winner-IsSeverest ss none w =
    (All-imp IsIdle (λ (s : TrackedObservation). rank s.status ≤ 0) ss rank-idle w, inl refl)
winner-IsSeverest ss (some d) (yields, (s, mem, is, active)) = (
  All-imp (Yields (detail_key d)) (λ (t : TrackedObservation). rank t.status ≤ rank d.status) ss
      (rank-Yields d) yields,
  inr (s, mem, ap (λ (e : PrimaryDetail). e.status) is),
)

module _ (resolve : ℕ → Option TrackedObservation) (quiet : ℕ → Option (String × Kind)) where
  loop-IsWinner :
      (panes : List TerminalPane) (a : Acc) (ss : List TrackedObservation)
      → IsWinner ss a.best
      → IsWinner (ss ++ observed resolve quiet panes) (roll_loop resolve quiet panes a).best
  unfolding roll_loop roll_step observed
  loop-IsWinner [] a ss w = rw append-nil w
  loop-IsWinner (pane ∷ panes) a ss w =
      let o = resolve pane.id in
      subst (λ ts. IsWinner ts (roll_loop resolve quiet (pane ∷ panes) a).best)
        (append-prepend o ss (observed resolve quiet panes))
        (loop-IsWinner panes (roll_step resolve quiet pane a) (ss ++ prepend o [])
          (absorb-IsWinner o (display resolve quiet pane) a ss w))

  pub roll_up-IsWinner :
      (panes : List TerminalPane)
      → IsWinner (observed resolve quiet panes) (roll_up resolve quiet panes).detail
  unfolding roll_up
  roll_up-IsWinner panes = loop-IsWinner panes start [] tt

  -- The status of a tab is the most severe one of its observations.
  pub roll_up-IsSeverest :
      (panes : List TerminalPane)
      → IsSeverest (observed resolve quiet panes) (roll_up resolve quiet panes).status
  unfolding roll_up
  roll_up-IsSeverest panes =
      winner-IsSeverest (observed resolve quiet panes) (roll_loop resolve quiet panes start).best
        (roll_up-IsWinner panes)
