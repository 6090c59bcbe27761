-- ===== src/Tests/Peers.antt =====
-- Peer sessions at concrete inputs: one that wants attention, and one whose record is old.
use zj_radar.Prelude.{
  ◌≡◌, refl, ℕ, String, true, false, not, Option, none, some, [], ◌∷◌, any, All, str_eq,
  if◌then◌else◌,
}
use zj_radar.Core.Presence.{Presence}
use zj_radar.Plugin.RadarState.Cycle.{Direction}
use zj_radar.Plugin.Sessions.{Sessions, is_dead, badge}
use zj_radar.Plugin.Sessions.Intake.{update_presences}
use zj_radar.Plugin.Sessions.Cycle.{cycle, tick}
use zj_radar.Plugin.Sessions.Commit.{is_target, tick-is_target, tick-cycle}
use zj_radar.Plugin.Sessions.Reap.{IsOnce, is_named, update_presences-reaps}

abbrev session : String → ℕ → Presence
session name attention = record {
  v = 1;
  session_name = name;
  running = 0;
  attention = attention;
  attention_tab_position = some 2;
  updated_epoch_s = 1000;
  tabs = [];
}

abbrev peers : Sessions
peers = record {
  peers =
      record { presence = session "work" 1; age_secs = 10 }
      ∷ record { presence = session "notes" 0; age_secs = 120 }
      ∷ [];
  own = some (session "home" 0);
  selection = some (record { name = "work"; taps_since_last_fire = false });
  show_trees = false;
}

tick-is_target_example : any (is_target "work") (badge peers) ≡ true
unfolding tick
tick-is_target_example =
    tick-is_target peers (record { name = "work"; attention_tab_position = some 2 }) refl

tick-cycle_example : (tick (cycle Direction.prev peers).1).0 ≡ none
tick-cycle_example = tick-cycle Direction.prev peers

abbrev from_str : String → Option Presence
from_str raw =
    if str_eq raw "work"
    then some (session "work" 1)
    else if str_eq raw "notes"
    then some (session "notes" 0)
    else none

update_presences-reaps_example :
    let (found, t) =
      update_presences from_str (("work", 10) ∷ ("garbage", 5) ∷ ("notes", 400) ∷ []) peers in
    IsOnce t.peers
    × All (λ p. not (is_dead p) ≡ true) t.peers
    × All (λ n. any (is_named n) t.peers ≡ false) found.dead
update_presences-reaps_example =
    update_presences-reaps from_str (("work", 10) ∷ ("garbage", 5) ∷ ("notes", 400) ∷ []) peers
