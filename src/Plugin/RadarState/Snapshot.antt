-- ===== src/Plugin/RadarState/Snapshot.antt =====
-- crates/plugin/src/radar_state/snapshot.rs, and `load_snapshot` and `snapshot_json` of
-- radar_state.rs. What serde_json does with the records is a parameter, `Serde`. The `BTreeMap`
-- keyed by the pane and the origin is a list in the order of its keys.
pub mod Roundtrip
use zj_radar.Prelude.{
  ℕ, ◌+◌, String, Bool, true, false, not, ◌&&◌, ◌||◌, Option, none, some, List, [], ◌∷◌, ◌++◌, map,
  ◌==◌, ltb, is_some_and, and_then, unwrap_or, if◌then◌else◌,
}
use zj_radar.Core.Status.{Status, eq_status, from_wire}
use zj_radar.Core.Kind.{from_source}
use zj_radar.Core.Task.{no_tasks}
use zj_radar.Core.Observation
use zj_radar.Core.Observation.{ObservationOrigin, TrackedObservation}
use zj_radar.Core.Command
use zj_radar.Core.Command.Extras
use zj_radar.Plugin.StatusStore
use zj_radar.Plugin.Ledger
use zj_radar.Plugin.Ledger.{LedgerEntry}
use zj_radar.Plugin.RadarState.{RadarState, touch, has_id}

abbrev pub radar_snapshot_v : ℕ
radar_snapshot_v = 3

abbrev pub pre_ledger_snapshot_v : ℕ
pre_ledger_snapshot_v = 2

abbrev pub legacy_status_snapshot_v : ℕ
legacy_status_snapshot_v = 1

-- A list of `SnapshotEntry`.
abbrev pub Entries : Type 0
Entries = List (ℕ × TrackedObservation)

pub record RadarSnapshot : Type 0 where
  pub v : ℕ
  pub tick : ℕ
  pub observations : Entries
  pub ledger : List LedgerEntry

pub record LegacyPaneSnapshot : Type 0 where
  pub pane_id : ℕ
  pub status : String
  pub repo : String
  pub branch : String
  pub msg : String
  pub source : String
  pub last_change_tick : ℕ
  pub ever_active : Bool

pub record LegacyStatusSnapshot : Type 0 where
  pub v : ℕ
  pub tick : ℕ
  pub panes : List LegacyPaneSnapshot

-- `serde_json::from_str`, at its three types, and `to_string`, as one record.
pub record Serde : Type 0 where
  pub version_from_str : String → Option ℕ
  pub radar_from_str : String → Option RadarSnapshot
  pub legacy_from_str : String → Option LegacyStatusSnapshot
  pub radar_to_string : RadarSnapshot → Option String

abbrev pub LoadedSnapshot : Type 0
LoadedSnapshot = Entries × ℕ × List LedgerEntry

unfoldable pub sanitize_entry : ℕ × TrackedObservation → ℕ × TrackedObservation
sanitize_entry (id, o) = (id, Observation.sanitized o)

unfoldable pub load_v3 : RadarSnapshot → Option LoadedSnapshot
unfolding sanitize_entry
load_v3 s = some (map sanitize_entry s.observations, s.tick, map Ledger.sanitized s.ledger)

unfoldable pub legacy_observation : LegacyPaneSnapshot → ℕ × TrackedObservation
legacy_observation pane = (
  pane.pane_id,
  Observation.sanitized (record {
    origin = ObservationOrigin.status_pipe;
    status = from_wire pane.status;
    repo = pane.repo;
    branch = pane.branch;
    msg = pane.msg;
    task = "";
    kind = from_source pane.source;
    last_change_tick = pane.last_change_tick;
    ever_active = pane.ever_active;
    exit_code = none;
    completed_epoch_s = none;
    pending_epoch_s = none;
    acknowledged = false;
    tasks = no_tasks;
  }),
)

unfoldable pub load_legacy_status : LegacyStatusSnapshot → Option LoadedSnapshot
unfolding legacy_observation
load_legacy_status s = some (map legacy_observation s.panes, s.tick, [])

-- The order of the keys, and whether two of them are one.
abbrev pub is_command : ObservationOrigin → Bool
is_command ObservationOrigin.command = true
is_command ObservationOrigin.status_pipe = false

unfoldable pub same_key : ℕ → ObservationOrigin → ℕ → ObservationOrigin → Bool
same_key id ObservationOrigin.status_pipe j ObservationOrigin.status_pipe = id == j
same_key id ObservationOrigin.command j ObservationOrigin.command = id == j
same_key id _ j _ = false

unfoldable pub key_before : ℕ → ObservationOrigin → ℕ → ObservationOrigin → Bool
key_before id origin j other = ltb id j || (id == j && not (is_command origin) && is_command other)

-- `observations.insert((pane_id, observation.origin), observation)`
unfoldable pub put : ℕ → TrackedObservation → Entries → Entries
unfolding same_key key_before
put id o [] = (id, o) ∷ []
put id o ((j, p) ∷ m) =
    if same_key j p.origin id o.origin
    then (id, o) ∷ m
    else if key_before id o.origin j p.origin
    then (id, o) ∷ (j, p) ∷ m
    else (j, p) ∷ put id o m

unfoldable pub put_all : Entries → Entries → Entries
unfolding put
put_all [] m = m
put_all ((id, o) ∷ entries) m = put_all entries (put id o m)

-- The entries of panes that are not gone, as far as the live panes are known.
unfoldable pub still_live : Option (List ℕ) → Entries → Entries
still_live live [] = []
still_live live ((id, o) ∷ entries) =
    let rest = still_live live entries in
    if is_some_and live (λ ids. not (has_id ids id)) then rest else (id, o) ∷ rest

abbrev pub max : ℕ → ℕ → ℕ
max a b = if ltb a b then b else a

-- The record that `to_json` writes, over what it has loaded.
unfoldable pub merged :
    Entries → Option (List ℕ) → Option LoadedSnapshot → ℕ → List LedgerEntry → RadarSnapshot
unfolding put_all still_live
merged current live none tick ledger = record {
  v = radar_snapshot_v;
  tick = tick;
  observations = put_all current [];
  ledger = ledger;
}
merged current live (some (entries, existing_tick, existing_ledger)) tick ledger = record {
  v = radar_snapshot_v;
  tick = max tick existing_tick;
  observations = put_all current (put_all (still_live live entries) []);
  ledger = Ledger.merge ledger existing_ledger;
}

-- The window of a completed command restarts at the tick that is adopted.
unfoldable pub rebased : ℕ → TrackedObservation → TrackedObservation
rebased tick o =
    if is_command o.origin && eq_status o.status Status.done
    then record o { last_change_tick = tick }
    else o

-- One round of the loop: an observation goes to the store of its origin.
unfoldable pub restore_one : ℕ → ℕ × TrackedObservation → RadarState → RadarState
unfolding rebased
restore_one tick (id, o) s =
    let p = rebased tick o in
    if is_command p.origin
    then record s { command = Command.insert_snapshot_observation id p s.command }
    else record s { status = StatusStore.insert_snapshot_observation id p s.status }

unfoldable pub restore : ℕ → Entries → RadarState → RadarState
unfolding restore_one
restore tick [] s = s
restore tick (e ∷ entries) s = restore tick entries (restore_one tick e s)

module _ (serde : Serde) where
  open serde use {version_from_str, radar_from_str, legacy_from_str, radar_to_string}

  unfoldable pub load : String → Option LoadedSnapshot
  unfolding load_v3 load_legacy_status
  load raw = and_then (version_from_str raw) (λ v.
      if v == radar_snapshot_v || v == pre_ledger_snapshot_v
      then and_then (radar_from_str raw) load_v3
      else if v == legacy_status_snapshot_v
      then and_then (legacy_from_str raw) load_legacy_status
      else none)

  unfoldable pub to_json : Entries → Option (List ℕ) → Option String → ℕ → List LedgerEntry → String
  unfolding load merged
  to_json current live existing tick ledger =
      unwrap_or (radar_to_string (merged current live (and_then existing load) tick ledger)) ""

  unfoldable pub snapshot_json : RadarState → Option String → ℕ → String
  unfolding to_json
  snapshot_json s existing tick =
      to_json (s.status.store ++ s.command.store) s.live_panes existing tick s.ledger

  unfoldable pub load_snapshot : String → RadarState → Option (ℕ × RadarState)
  unfolding restore load
  load_snapshot raw s = and_then (load raw) (λ (entries, tick, ledger).
      let t =
        restore tick entries
          (record (touch s) { status = StatusStore.empty; command = Extras.empty }) in
      some (tick, record t { ledger = Ledger.replace ledger }))
