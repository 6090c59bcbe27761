-- ===== src/Plugin/RadarState/Panes/Absence.antt =====
-- crates/plugin/src/radar_state.rs: the status of a pane over a run of manifests.
use zj_radar.Prelude.{ℕ, ◌≡◌, Bool, true, false, not, ◌&&◌, List, [], ◌∷◌, if◌then◌else◌}
use zj_radar.Core.Command
use zj_radar.Plugin.StatusStore
use zj_radar.Plugin.TabNamer.{NamingMode}
use zj_radar.Plugin.RadarState.{RadarState, has_id}
use zj_radar.Plugin.RadarState.Panes.{panes_changed}
use zj_radar.Plugin.RadarState.Update.{PaneUpdate}

-- The state after a run of manifests, each at its tick and clock time.
unfoldable pub manifests :
    {Theme : Type 0} → NamingMode → List (PaneUpdate Theme × (ℕ × ℕ)) → RadarState → RadarState
manifests naming [] s = s
manifests naming ((update, (tick, now)) ∷ us) s =
    manifests naming us (panes_changed update tick now naming s).1

-- No manifest after the first absence lacks the pane again before one has it.
unfoldable pub survives : {Theme : Type 0} → ℕ → Bool → List (PaneUpdate Theme × (ℕ × ℕ)) → Bool
survives id absent [] = true
survives id absent ((update, _) ∷ us) =
    if has_id update.live id then survives id false us else not absent && survives id true us

abbrev pub HasNoExits : {Theme : Type 0} → List (PaneUpdate Theme × (ℕ × ℕ)) → Type 0
HasNoExits [] = Unit
HasNoExits ((update, _) ∷ us) = (update.exits ≡ []) × HasNoExits us
