-- ===== src/Plugin/Sessions/Intake.antt =====
-- crates/plugin/src/sessions.rs: `update_presences`, the peers' files, each with its age.
use Prim.Native.String.{compare}
use text.Mathlib.Text.{is_le}
use zj_radar.Prelude.{
  ℕ, String, not, Option, none, some, List, [], ◌∷◌, map, filter, ltb, str_eq, if◌then◌else◌,
}
use zj_radar.Core.Presence.{Presence, parse}
use zj_radar.Plugin.Sessions.{Peer, Sessions, PresenceUpdate, is_dead, badge_changed}

-- The peers by name, each name once: a peer replaces one that is not strictly fresher.
unfoldable pub keep_peer : Peer → List Peer → List Peer
keep_peer p [] = p ∷ []
keep_peer p (q ∷ peers) =
    if str_eq q.presence.session_name p.presence.session_name
    then (if ltb p.presence.updated_epoch_s q.presence.updated_epoch_s
        then q ∷ peers
        else p ∷ peers)
    else q ∷ keep_peer p peers

unfoldable pub dedup_peers : (String → Option Presence) → List (String × ℕ) → List Peer → List Peer
unfolding keep_peer parse
dedup_peers from_str [] peers = peers
dedup_peers from_str ((json, age_secs) ∷ raw) peers = elim (parse from_str json) [
  | none ↦ dedup_peers from_str raw peers
  | some p ↦
      dedup_peers from_str raw (keep_peer (record { presence = p; age_secs = age_secs }) peers)
]

unfoldable pub insert_name : String → List String → List String
insert_name n [] = n ∷ []
insert_name n (m ∷ names) = if is_le (compare n m) then n ∷ m ∷ names else m ∷ insert_name n names

unfoldable pub sort_names : List String → List String
unfolding insert_name
sort_names [] = []
sort_names (n ∷ names) = insert_name n (sort_names names)

abbrev pub name_of : Peer → String
name_of p = p.presence.session_name

unfoldable pub update_presences :
    (String → Option Presence) → List (String × ℕ) → Sessions → PresenceUpdate × Sessions
unfolding dedup_peers sort_names filter badge_changed
update_presences from_str raw s =
    let best = dedup_peers from_str raw [] in
    let t = record s { peers = filter (λ p. not (is_dead p)) best } in
    (
      record { changed = badge_changed s t; dead = sort_names (map name_of (filter is_dead best)) },
      t,
    )
