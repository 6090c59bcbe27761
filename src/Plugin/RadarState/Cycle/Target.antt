-- ===== src/Plugin/RadarState/Cycle/Target.antt =====
-- crates/plugin/src/radar_state.rs: the target of `cycle_attention` among the tabs.
use mathlib.Core.Path.{subst}
use zj_radar.Prelude.{
  ℕ, ◌<◌, ◌≤◌, ◌≡◌, ◌≢◌, ◌⊎◌, ◌∙◌, inl, inr, refl, sym, ap, arith, true, false, ◌||◌, Option, none,
  some, List, [], ◌∷◌, ◌==◌, ==_iff, any, ltb, leb, or_else, All, All-imp, Bool-cases,
}
use zj_radar.Core.Status.{Status}
use zj_radar.Plugin.RadarState.{has_id}
use zj_radar.Plugin.RadarState.Naming.{insert_id, sort_ids}
use zj_radar.Plugin.RadarState.Cycle.{
  Direction, attention_members, dedup, first_after, head, target, not_active, cycle_attention,
}

abbrev pub IsSorted : List ℕ → Type 0
IsSorted [] = Unit
IsSorted (p ∷ ps) = All (λ q. p ≤ q) ps × IsSorted ps

has_id-insert_id : (p id : ℕ) (l : List ℕ) → has_id (insert_id id l) p ≡ (id == p || has_id l p)
unfolding has_id insert_id any
has_id-insert_id p id [] = refl
has_id-insert_id p id (j ∷ l) = ground (arith, has_id-insert_id p id l)

has_id-sort_ids : (p : ℕ) (l : List ℕ) → has_id (sort_ids l) p ≡ has_id l p
unfolding sort_ids has_id any
has_id-sort_ids p [] = refl
has_id-sort_ids p (id ∷ l) =
    has_id-insert_id p id (sort_ids l) ∙ ap (◌||◌ (id == p)) (has_id-sort_ids p l)

has_id-dedup : (p : ℕ) (l : List ℕ) → has_id (dedup l) p ≡ has_id l p
unfolding dedup has_id any
has_id-dedup p [] = refl
has_id-dedup p (q ∷ []) = refl
has_id-dedup p (q ∷ r ∷ l) = ground (arith, has_id-dedup p (r ∷ l))

All-le_insert :
    (p id : ℕ) (l : List ℕ) → p ≤ id → All (λ q. p ≤ q) l → All (λ q. p ≤ q) (insert_id id l)
unfolding insert_id
All-le_insert p id [] h all = (h, tt)
All-le_insert p id (j ∷ l) h all = ground (arith, All-le_insert p id l h all.1)

All-le_trans : (p q : ℕ) (l : List ℕ) → p ≤ q → All (λ x. q ≤ x) l → All (λ x. p ≤ x) l
All-le_trans p q l h all = All-imp (λ x. q ≤ x) (λ x. p ≤ x) l (λ x le. omega (arith, h, le)) all

insert_id-IsSorted : (id : ℕ) (l : List ℕ) → IsSorted l → IsSorted (insert_id id l)
unfolding insert_id
insert_id-IsSorted id [] h = (tt, tt)
insert_id-IsSorted id (j ∷ l) h = elim (Bool-cases (leb id j)) [
  | inl le ↦ rw le ((ground (arith, le), All-le_trans id j l (ground (arith, le)) h.0), h)
  | inr gt ↦ rw gt (All-le_insert j id l (ground (arith, gt)) h.0, insert_id-IsSorted id l h.1)
]

sort_ids-IsSorted : (l : List ℕ) → IsSorted (sort_ids l)
unfolding sort_ids
sort_ids-IsSorted [] = tt
sort_ids-IsSorted (id ∷ l) = insert_id-IsSorted id (sort_ids l) (sort_ids-IsSorted l)

All-dedup : (P : ℕ → Type 0) (l : List ℕ) → All P l → All P (dedup l)
unfolding dedup
All-dedup P [] h = tt
All-dedup P (p ∷ []) h = h
All-dedup P (p ∷ q ∷ l) h = elim (Bool-cases (p == q)) [
  | inl same ↦ rw same (All-dedup P (q ∷ l) h.1)
  | inr other ↦ rw other (h.0, All-dedup P (q ∷ l) h.1)
]

dedup-IsSorted : (l : List ℕ) → IsSorted l → IsSorted (dedup l)
unfolding dedup
dedup-IsSorted [] h = tt
dedup-IsSorted (p ∷ []) h = h
dedup-IsSorted (p ∷ q ∷ l) h = elim (Bool-cases (p == q)) [
  | inl same ↦ rw same (dedup-IsSorted (q ∷ l) h.1)
  | inr other ↦ rw other (All-dedup (λ x. p ≤ x) (q ∷ l) h.0, dedup-IsSorted (q ∷ l) h.1)
]

-- `t` comes next behind `a`: no `p` lies between them, where `t` behind `a` is nearer than any that
-- is wrapped to.
abbrev pub IsNearest : ℕ → ℕ → ℕ → Type 0
IsNearest a t p = ((a < t) × ((p ≤ a) ⊎ (t ≤ p))) ⊎ ((p ≤ a) × (t ≤ p))

-- The next target behind `a`, if any, among the members.
abbrev pub IsNext : ℕ → List ℕ → Option ℕ → Type 0
IsNext a ms none = All (λ p. p ≡ a) ms
IsNext a ms (some t) = (has_id ms t ≡ true) × (t ≢ a) × All (IsNearest a t) ms

-- The first behind `a` in a sorted list.
first_after-cases :
    (a : ℕ) (l : List ℕ)
    → IsSorted l
    → ((first_after a l ≡ none) × All (λ p. p ≤ a) l)
      ⊎ ((t : ℕ) × (first_after a l ≡ some t)
          × (has_id l t ≡ true)
          × (a < t)
          × All (λ p. (p ≤ a) ⊎ (t ≤ p)) l)
unfolding first_after has_id any
first_after-cases a [] h = inl (refl, tt)
first_after-cases a (p ∷ l) h = elim (Bool-cases (ltb a p)) [
  | inl lt ↦ inr (
    p,
    rw lt refl,
    ground arith,
    ground (arith, lt),
    (inr (omega arith), All-imp (λ q. p ≤ q) (λ q. (q ≤ a) ⊎ (p ≤ q)) l (λ q le. inr le) h.0),
  )
  | inr ge ↦ elim (first_after-cases a l h.1) [
    | inl (e, all) ↦ inl (rw ge e, (ground (arith, ge), all))
    | inr (t, e, at, lt, all) ↦
        inr (t, rw ge e, ground (arith, at), lt, (inl (ground (arith, ge)), all))
  ]
]

-- The first of a sorted list, where nothing is behind `a`.
wrapped-IsNext :
    (a : ℕ) (l : List ℕ)
    → IsSorted l
    → All (λ p. p ≤ a) l
    → IsNext a l (not_active (some a) (head l))
unfolding not_active has_id any
wrapped-IsNext a [] h all = tt
wrapped-IsNext a (p ∷ l) h all = elim (Bool-cases (p == a)) [
  | inl same ↦ rw same (ground (arith, same), all_eq (ground (arith, same)) l h.0 all.1)
  | inr other ↦
      rw other
        (ground arith, ground (arith, other), (inr (all.0, omega arith), nearest l h.0 all.1))
]
  where
    all_eq : p ≡ a → (l : List ℕ) → All (λ q. p ≤ q) l → All (λ q. q ≤ a) l → All (λ q. q ≡ a) l
    all_eq e [] lo hi = tt
    all_eq e (q ∷ l) lo hi = (omega (arith, e, lo.0, hi.0), all_eq e l lo.1 hi.1)

    nearest : (l : List ℕ) → All (λ q. p ≤ q) l → All (λ q. q ≤ a) l → All (IsNearest a p) l
    nearest [] lo hi = tt
    nearest (q ∷ l) lo hi = (inr (hi.0, lo.0), nearest l lo.1 hi.1)

sorted-IsNext :
    (a : ℕ) (l : List ℕ)
    → IsSorted l
    → IsNext a l (not_active (some a) (or_else (first_after a l) (head l)))
unfolding not_active
sorted-IsNext a l h = elim (first_after-cases a l h) [
  | inl (e, all) ↦ rw e (wrapped-IsNext a l h all)
  | inr (t, e, at, lt, all) ↦
      let other : (t == a) ≡ false = ground (arith, lt) in
      rw (e, other)
        (
          at,
          ground (arith, lt),
          All-imp (λ p. (p ≤ a) ⊎ (t ≤ p)) (IsNearest a t) l (λ p near. inl (lt, near)) all,
        )
]

-- The same members, in whatever order.
All-has_id : (P : ℕ → Type 0) (l : List ℕ) (p : ℕ) → All P l → has_id l p ≡ true → P p
unfolding has_id any
All-has_id P [] p h e = absurd (cc)
All-has_id P (q ∷ l) p h e = elim (Bool-cases (q == p)) [
  | inl same ↦ subst P ((==_iff q p).0 same) h.0
  | inr other ↦ All-has_id P l p h.1 (ground (arith, other, e))
]

All-of_members :
    (P : ℕ → Type 0) (l ms : List ℕ)
    → All P l
    → ((p : ℕ) → has_id ms p ≡ true → has_id l p ≡ true)
    → All P ms
unfolding has_id any
All-of_members P l [] h f = tt
All-of_members P l (q ∷ ms) h f = (
  All-has_id P l q h (f q (ground arith)),
  All-of_members P l ms h (λ p e. f p (ground (arith, e))),
)

members_same : (p : ℕ) (ms : List ℕ) → has_id (dedup (sort_ids ms)) p ≡ has_id ms p
members_same p ms = has_id-dedup p (sort_ids ms) ∙ has_id-sort_ids p ms

IsNext-members :
    (a : ℕ) (ms : List ℕ) (o : Option ℕ) → IsNext a (dedup (sort_ids ms)) o → IsNext a ms o
IsNext-members a ms none h =
    All-of_members (λ p. p ≡ a) (dedup (sort_ids ms)) ms h (λ p e. members_same p ms ∙ e)
IsNext-members a ms (some t) h = (
  sym (members_same t ms) ∙ h.0,
  h.1,
  All-of_members (IsNearest a t) (dedup (sort_ids ms)) ms h.2 (λ p e. members_same p ms ∙ e),
)

-- From an active tab, `next` goes to a tab that wants attention, is not the active one, and is the
-- nearest behind it, or the first of all where there is none behind it; and it goes nowhere only
-- where no other tab wants attention.
pub cycle_attention-IsNext :
    (tabs : List (ℕ × Status)) (a : ℕ)
    → IsNext a (attention_members tabs) (cycle_attention tabs (some a) Direction.next)
unfolding cycle_attention target
cycle_attention-IsNext tabs a =
    let ms = attention_members tabs in
    IsNext-members a ms (cycle_attention tabs (some a) Direction.next)
      (sorted-IsNext a (dedup (sort_ids ms)) (dedup-IsSorted (sort_ids ms) (sort_ids-IsSorted ms)))
