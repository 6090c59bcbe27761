-- ===== src/Core/Command/Exit.antt =====
-- crates/core/src/command.rs: the exits of command panes, which are reported again and again.
use zj_radar.Prelude.{ℕ, ◌≡◌, refl, inl, inr, true, Option, none, Bool-cases}
use zj_radar.Prelude.Int.{ℤ, eq_option_int_refl}
use zj_radar.Prelude.PaneMap.{get-insert_self}
use zj_radar.Core.Command.{
  CommandStore, exit_accepted, already_exited, already_receded, already_shown, primed, on_exit,
}

module _ (pane_id : ℕ) (exit_status : Option ℤ) where
  on_exit_known :
      (tick now : ℕ) (s : CommandStore)
      → already_exited pane_id exit_status s ≡ true
      → on_exit pane_id exit_status tick now s ≡ (none, s)
  unfolding on_exit
  on_exit_known tick now s e = rw e refl

  already_exited-primed :
      (s : CommandStore) → already_exited pane_id exit_status (primed pane_id exit_status s) ≡ true
  unfolding already_exited primed
  already_exited-primed s = rw (get-insert_self) (eq_option_int_refl exit_status)

  already_exited-accepted :
      (tick now : ℕ) (s : CommandStore)
      → already_exited pane_id exit_status (exit_accepted pane_id exit_status tick now s).1 ≡ true
  unfolding already_exited exit_accepted
  already_exited-accepted tick now s = rw (get-insert_self) (eq_option_int_refl exit_status)

  -- However often an exit is reported again, at whatever time, it changes nothing and hands on no
  -- completion.
  pub on_exit_replay :
      (tick now tick₂ now₂ : ℕ) (s : CommandStore)
      → let t = (on_exit pane_id exit_status tick now s).1 in
        on_exit pane_id exit_status tick₂ now₂ t ≡ (none, t)
  unfolding on_exit
  on_exit_replay tick now tick₂ now₂ s = elim (Bool-cases (already_exited pane_id exit_status s)) [
    | inl known ↦ rw known (rw known refl)
    | inr new ↦ elim (Bool-cases (already_receded pane_id s)) [
      | inl receded ↦ rw (new, receded) (rw (new, receded) refl)
      | inr up ↦ elim (Bool-cases (already_shown pane_id exit_status s)) [
        | inl shown ↦ rw (new, up, shown) (rw (already_exited-primed s) refl)
        | inr news ↦ rw (new, up, news) (rw (already_exited-accepted tick now s) refl)
      ]
    ]
  ]
