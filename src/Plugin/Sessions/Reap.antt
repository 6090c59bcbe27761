-- ===== src/Plugin/Sessions/Reap.antt =====
-- crates/plugin/src/sessions.rs: the peers that an update keeps, and those that it reports dead.
use Prim.Native.String.{compare}
use text.Mathlib.Text.{is_le}
use zj_radar.Prelude.{
  ℕ, String, ◌≡◌, ◌∙◌, refl, sym, ap, arith, inl, inr, Bool, true, false, not, ◌||◌, Option, List,
  [], ◌∷◌, map, filter, any, ltb, str_eq, eq_iff, All, All-filter_self, Bool-cases, Option-cases,
}
use zj_radar.Core.Presence.{Presence, parse}
use zj_radar.Plugin.Sessions.{Peer, Sessions, is_dead}
use zj_radar.Plugin.Sessions.Intake.{
  keep_peer, dedup_peers, insert_name, sort_names, name_of, update_presences,
}

abbrev pub is_named : String → Peer → Bool
is_named n p = str_eq (name_of p) n

-- Each name stands once.
abbrev pub IsOnce : List Peer → Type 0
IsOnce [] = Unit
IsOnce (p ∷ peers) = (any (is_named (name_of p)) peers ≡ false) × IsOnce peers

any-keep_peer :
    (n : String) (p : Peer) (peers : List Peer)
    → any (is_named n) (keep_peer p peers) ≡ (is_named n p || any (is_named n) peers)
unfolding any keep_peer
any-keep_peer n p [] = refl
any-keep_peer n p (q ∷ peers) = elim (Bool-cases (str_eq (name_of q) (name_of p))) [
  | inl same ↦
      let as_name : is_named n q ≡ is_named n p =
        ap (λ (m : String). str_eq m n) ((eq_iff (name_of q) (name_of p)).0 same) in
      ground (arith, same, as_name)
  | inr other ↦ ground (arith, other, any-keep_peer n p peers)
]

keep_peer-IsOnce : (p : Peer) (peers : List Peer) → IsOnce peers → IsOnce (keep_peer p peers)
unfolding keep_peer any
keep_peer-IsOnce p [] h = (refl, tt)
keep_peer-IsOnce p (q ∷ peers) h = elim (Bool-cases (str_eq (name_of q) (name_of p))) [
  | inl same ↦
      let as_name : any (is_named (name_of p)) peers ≡ any (is_named (name_of q)) peers =
        ap (λ (m : String). any (is_named m) peers)
          (sym ((eq_iff (name_of q) (name_of p)).0 same)) in
      elim (Bool-cases (ltb p.presence.updated_epoch_s q.presence.updated_epoch_s)) [
        | inl older ↦ rw (same, older) h
        | inr newer ↦ rw (same, newer) (as_name ∙ h.0, h.1)
      ]
  | inr other ↦
      let apart : str_eq (name_of p) (name_of q) ≡ false = ground (
        arith,
        other,
        eq_iff (name_of q) (name_of p),
        eq_iff (name_of p) (name_of q),
        λ (e : name_of p ≡ name_of q). sym e,
      ) in
      rw other (
        any-keep_peer (name_of q) p peers ∙ ground (arith, apart, h.0),
        keep_peer-IsOnce p peers h.1,
      )
]

dedup_peers-IsOnce :
    (from_str : String → Option Presence) (raw : List (String × ℕ)) (peers : List Peer)
    → IsOnce peers
    → IsOnce (dedup_peers from_str raw peers)
unfolding dedup_peers
dedup_peers-IsOnce from_str [] peers h = h
dedup_peers-IsOnce from_str ((json, age) ∷ raw) peers h =
    elim (Option-cases (parse from_str json)) [
      | inl bad ↦ rw (dedup_peers, bad) (dedup_peers-IsOnce from_str raw peers h)
      | inr (p, e) ↦
          let q : Peer = record { presence = p; age_secs = age } in
          rw (dedup_peers, e)
            (dedup_peers-IsOnce from_str raw (keep_peer q peers) (keep_peer-IsOnce q peers h))
    ]

All-sort_names : (P : String → Type 0) (ns : List String) → All P ns → All P (sort_names ns)
unfolding sort_names
All-sort_names P [] h = tt
All-sort_names P (n ∷ ns) h = inserted (sort_names ns) h.0 (All-sort_names P ns h.1)
  where
    inserted : (ms : List String) → P n → All P ms → All P (insert_name n ms)
    inserted [] hn hm = (hn, tt)
    inserted (m ∷ ms) hn hm = elim (Bool-cases (is_le (compare n m))) [
      | inl le ↦ rw (insert_name, le) (hn, hm)
      | inr gt ↦ rw (insert_name, gt) (hm.0, inserted ms hn hm.1)
    ]

-- The names that are reported are not among the peers that are kept.
abbrev IsAbsent : List Peer → String → Type 0
IsAbsent peers n = any (is_named n) peers ≡ false

abbrev alive : List Peer → List Peer
alive peers = filter (λ p. not (is_dead p)) peers

abbrev dead_names : List Peer → List String
dead_names peers = map name_of (filter is_dead peers)

alive-IsAbsent : (n : String) (peers : List Peer) → IsAbsent peers n → IsAbsent (alive peers) n
unfolding any filter
alive-IsAbsent n [] h = refl
alive-IsAbsent n (p ∷ peers) h = ground (arith, h, alive-IsAbsent n peers)

str_eq_comm : (a b : String) → str_eq a b ≡ str_eq b a
str_eq_comm a b = elim (Bool-cases (str_eq a b)) [
  | inl same ↦ cc ((eq_iff a b).0 same)
  | inr other ↦ ground (arith, other, eq_iff a b, eq_iff b a, λ (e : b ≡ a). sym e)
]

-- A name that no peer has is not the name of one that is dead.
dead_apart :
    (p : Peer) (peers : List Peer)
    → IsAbsent peers (name_of p)
    → All (λ n. str_eq (name_of p) n ≡ false) (dead_names peers)
unfolding any filter
dead_apart p [] h = tt
dead_apart p (q ∷ peers) h = elim (Bool-cases (is_dead q)) [
  | inl dead ↦ rw dead (
    str_eq_comm (name_of p) (name_of q) ∙ ground (arith, h),
    dead_apart p peers (ground (arith, h)),
  )
  | inr lives ↦ rw lives (dead_apart p peers (ground (arith, h)))
]

cons-IsAbsent :
    (p : Peer) (peers : List Peer) (ns : List String)
    → All (λ n. str_eq (name_of p) n ≡ false) ns
    → All (IsAbsent peers) ns
    → All (IsAbsent (p ∷ peers)) ns
unfolding any
cons-IsAbsent p peers [] ha hb = tt
cons-IsAbsent p peers (n ∷ ns) ha hb =
    (ground (arith, ha.0, hb.0), cons-IsAbsent p peers ns ha.1 hb.1)

dead-IsAbsent : (peers : List Peer) → IsOnce peers → All (IsAbsent (alive peers)) (dead_names peers)
unfolding filter
dead-IsAbsent [] h = tt
dead-IsAbsent (p ∷ peers) h = elim (Bool-cases (is_dead p)) [
  | inl dead ↦ rw dead (alive-IsAbsent (name_of p) peers h.0, dead-IsAbsent peers h.1)
  | inr lives ↦ rw lives (
      cons-IsAbsent p (alive peers) (dead_names peers) (dead_apart p peers h.0)
        (dead-IsAbsent peers h.1))
]

filter-IsOnce : (peers : List Peer) → IsOnce peers → IsOnce (alive peers)
unfolding filter
filter-IsOnce [] h = tt
filter-IsOnce (p ∷ peers) h = elim (Bool-cases (is_dead p)) [
  | inl dead ↦ rw dead (filter-IsOnce peers h.1)
  | inr lives ↦ rw lives (alive-IsAbsent (name_of p) peers h.0, filter-IsOnce peers h.1)
]

-- After an update every peer has a name of its own, none of them is dead, and no name that is
-- reported dead, whose file is to be unlinked, is the name of a peer that is kept.
pub update_presences-reaps :
    (from_str : String → Option Presence) (raw : List (String × ℕ)) (s : Sessions)
    → let (found, t) = update_presences from_str raw s in
      IsOnce t.peers
      × All (λ p. not (is_dead p) ≡ true) t.peers
      × All (λ n. any (is_named n) t.peers ≡ false) found.dead
unfolding update_presences
update_presences-reaps from_str raw s =
    let best = dedup_peers from_str raw [] in
    let once : IsOnce best = dedup_peers-IsOnce from_str raw [] tt in
    (
      filter-IsOnce best once,
      All-filter_self (λ p. not (is_dead p)) best,
      All-sort_names (IsAbsent (alive best)) (dead_names best) (dead-IsAbsent best once),
    )
