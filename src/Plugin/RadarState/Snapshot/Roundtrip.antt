-- ===== src/Plugin/RadarState/Snapshot/Roundtrip.antt =====
-- crates/plugin/src/radar_state/snapshot.rs: what a write keeps of the record that it finds, and
-- what is read back.
use zj_radar.Prelude.{
  ℕ, String, ◌≡◌, ◌∙◌, refl, ap, arith, inl, inr, Bool, true, false, not, Option, none, some, List,
  [], ◌∷◌, map, ==_iff, or_else, is_some_and, and_then, Bool-cases, if◌then◌else◌,
}
use zj_radar.Core.Observation
use zj_radar.Core.Observation.{ObservationOrigin, TrackedObservation}
use zj_radar.Plugin.Ledger.{LedgerEntry}
use zj_radar.Plugin.RadarState.{has_id}
use zj_radar.Plugin.RadarState.Snapshot.{
  Entries, RadarSnapshot, Serde, LoadedSnapshot, sanitize_entry, load_v3, same_key, put, put_all,
  still_live, merged, load, to_json, radar_snapshot_v,
}

-- The observation of a pane and an origin, first and last in a list.
unfoldable pub lookup : ℕ → ObservationOrigin → Entries → Option TrackedObservation
unfolding same_key
lookup id origin [] = none
lookup id origin ((j, o) ∷ m) = if same_key j o.origin id origin then some o else lookup id origin m

unfoldable pub latest : ℕ → ObservationOrigin → Entries → Option TrackedObservation
unfolding same_key
latest id origin [] = none
latest id origin ((j, o) ∷ m) =
    or_else (latest id origin m) (if same_key j o.origin id origin then some o else none)

same_key_iff : (i j : ℕ) (a b : ObservationOrigin) → same_key i a j b ≡ true → (i ≡ j) × (a ≡ b)
unfolding same_key
same_key_iff i j ObservationOrigin.status_pipe ObservationOrigin.status_pipe e =
    ((==_iff i j).0 e, refl)
same_key_iff i j ObservationOrigin.command ObservationOrigin.command e = ((==_iff i j).0 e, refl)
same_key_iff i j ObservationOrigin.status_pipe ObservationOrigin.command e = absurd (cc)
same_key_iff i j ObservationOrigin.command ObservationOrigin.status_pipe e = absurd (cc)

lookup-put :
    (i : ℕ) (origin : ObservationOrigin) (id : ℕ) (o : TrackedObservation) (m : Entries)
    → lookup i origin (put id o m)
      ≡ (if same_key id o.origin i origin then some o else lookup i origin m)
unfolding lookup put
lookup-put i origin id o [] = refl
lookup-put i origin id o ((j, p) ∷ m) = elim (Bool-cases (same_key j p.origin id o.origin)) [
  | inl same ↦
      let keys = same_key_iff j id p.origin o.origin same in
      let as_new : same_key j p.origin i origin ≡ same_key id o.origin i origin =
        cc (keys.0, keys.1) in
      ground (arith, same, as_new)
  | inr other ↦ ground (arith, other, lookup-put i origin id o m)
]

-- What is written last at a key is what is read there.
lookup-put_all :
    (i : ℕ) (origin : ObservationOrigin) (es m : Entries)
    → lookup i origin (put_all es m) ≡ or_else (latest i origin es) (lookup i origin m)
unfolding put_all latest
lookup-put_all i origin [] m = refl
lookup-put_all i origin ((id, o) ∷ es) m =
    lookup-put_all i origin es (put id o m)
    ∙ ap (or_else (latest i origin es)) (lookup-put i origin id o m)
    ∙ or_else_if (latest i origin es) (same_key id o.origin i origin) o (lookup i origin m)
  where
    or_else_if :
        (a : Option TrackedObservation) (b : Bool) (o : TrackedObservation)
        (c : Option TrackedObservation)
        → or_else a (if b then some o else c) ≡ or_else (or_else a (if b then some o else none)) c
    or_else_if none true o c = refl
    or_else_if none false o c = refl
    or_else_if (some x) b o c = refl

-- The pane is known to be gone.
unfoldable pub is_gone : Option (List ℕ) → ℕ → Bool
is_gone live id = is_some_and live (λ ids. not (has_id ids id))

latest-still_live :
    (i : ℕ) (origin : ObservationOrigin) (live : Option (List ℕ)) (es : Entries)
    → latest i origin (still_live live es) ≡ (if is_gone live i then none else latest i origin es)
unfolding still_live latest is_gone
latest-still_live i origin live [] = ground arith
latest-still_live i origin live ((j, o) ∷ es) = elim (Bool-cases (same_key j o.origin i origin)) [
  | inl same ↦
      let as_id = ap (is_gone live) (same_key_iff j i o.origin origin same).0 in
      ground (arith, same, as_id, latest-still_live i origin live es)
  | inr other ↦ ground (arith, other, latest-still_live i origin live es)
]

lookup-sanitize :
    (i : ℕ) (origin : ObservationOrigin) (m : Entries)
    → lookup i origin (map sanitize_entry m)
      ≡ and_then (lookup i origin m) (λ o. some (Observation.sanitized o))
unfolding lookup sanitize_entry Observation.sanitized
lookup-sanitize i origin [] = refl
lookup-sanitize i origin ((j, o) ∷ m) = elim (Bool-cases (same_key j o.origin i origin)) [
  | inl same ↦ rw same refl
  | inr other ↦ rw other (lookup-sanitize i origin m)
]

or_else-none : (a : Option TrackedObservation) → or_else a none ≡ a
or_else-none none = refl
or_else-none (some o) = refl

-- What the earlier record still has to say of a pane.
abbrev pub kept_before :
    ℕ → ObservationOrigin → Option (List ℕ) → Option LoadedSnapshot → Option TrackedObservation
kept_before id origin live none = none
kept_before id origin live (some found) = if is_gone live id then none else latest id origin found.0

lookup-merged :
    (i : ℕ) (origin : ObservationOrigin) (current : Entries) (live : Option (List ℕ))
    (found : Option LoadedSnapshot) (tick : ℕ) (ledger : List LedgerEntry)
    → lookup i origin (merged current live found tick ledger).observations
      ≡ or_else (latest i origin current) (kept_before i origin live found)
unfolding merged lookup
lookup-merged i origin current live none tick ledger = lookup-put_all i origin current []
lookup-merged i origin current live (some (es, t, l)) tick ledger =
    lookup-put_all i origin current (put_all (still_live live es) [])
    ∙ ap (or_else (latest i origin current)) (
        lookup-put_all i origin (still_live live es) []
        ∙ or_else-none (latest i origin (still_live live es))
        ∙ latest-still_live i origin live es)

merged_v :
    (current : Entries) (live : Option (List ℕ)) (found : Option LoadedSnapshot) (tick : ℕ)
    (ledger : List LedgerEntry)
    → (merged current live found tick ledger).v ≡ radar_snapshot_v
unfolding merged
merged_v current live none tick ledger = refl
merged_v current live (some found) tick ledger = refl

load-radar :
    (serde : Serde) (raw : String) (s : RadarSnapshot)
    → serde.version_from_str raw ≡ some radar_snapshot_v
    → serde.radar_from_str raw ≡ some s
    → load serde raw ≡ load_v3 s
unfolding load load_v3
load-radar serde raw s v e = rw (load, v, e) refl

to_json-text :
    (serde : Serde) (current : Entries) (live : Option (List ℕ)) (existing : Option String)
    (tick : ℕ) (ledger : List LedgerEntry) (text : String)
    → serde.radar_to_string (merged current live (and_then existing (load serde)) tick ledger)
      ≡ some text
    → to_json serde current live existing tick ledger ≡ text
unfolding to_json
to_json-text serde current live existing tick ledger text e = rw (to_json, e) refl

-- Where serde reads the record back that it has written, a write and a load give for a pane and an
-- origin the latest current observation, or else that of the existing record, unless the pane is
-- known to be gone; either of them sanitized.
pub load-to_json :
    (serde : Serde) (current : Entries) (live : Option (List ℕ)) (existing : Option String)
    (tick : ℕ) (ledger : List LedgerEntry) (text : String) (i : ℕ) (origin : ObservationOrigin)
    → let written = merged current live (and_then existing (load serde)) tick ledger in
      serde.radar_to_string written ≡ some text
      → serde.version_from_str text ≡ some written.v
      → serde.radar_from_str text ≡ some written
      → and_then
          (load serde (to_json serde current live existing tick ledger))
          (λ l. lookup i origin l.0)
        ≡ and_then
            (or_else
              (latest i origin current)
              (kept_before i origin live (and_then existing (load serde))))
            (λ o. some (Observation.sanitized o))
unfolding load_v3
load-to_json serde current live existing tick ledger text i origin writes version reads =
    let found = and_then existing (load serde) in
    let written = merged current live found tick ledger in
    let look = λ (l : Option LoadedSnapshot). and_then l (λ s. lookup i origin s.0) in
    ap (λ (raw : String). look (load serde raw))
      (to_json-text serde current live existing tick ledger text writes)
    ∙ ap look (
        load-radar serde text written (version ∙ ap some (merged_v current live found tick ledger))
          reads)
    ∙ lookup-sanitize i origin written.observations
    ∙ ap (λ (o : Option TrackedObservation). and_then o (λ x. some (Observation.sanitized x)))
        (lookup-merged i origin current live found tick ledger)
