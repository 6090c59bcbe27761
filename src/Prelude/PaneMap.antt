-- ===== src/Prelude/PaneMap.antt =====
-- A map keyed by a pane id, as an association list: `HashMap<u32, V>` and `BTreeMap<u32, V>`.
-- An insertion replaces the value in place or adds the key at the end; the code never depends on
-- the order in which a hash map is walked.
use Prim.Native.Nat.{ℕ, ◌+◌, ◌≤◌}
use mathlib.Core.Path.{◌≡◌, refl, ap}
use mathlib.Core.Bool.{Bool}
use mathlib.Core.Option.{Option, none, some}
use mathlib.Core.List.{List, [], ◌∷◌}
use native.Mathlib.Omega.{arith}
use mathlib.Core.Logic.{inl, inr}
use zj_radar.Prelude.Tests.{◌==◌, if◌then◌else◌, ==_iff, Bool-cases}
use zj_radar.Prelude.Lists.{length, All}

abbrev pub PaneMap {ℓ} : Type ℓ → Type ℓ
PaneMap V = List (ℕ × V)

module _ {ℓ} {V : Type ℓ} where
  unfoldable pub get : ℕ → PaneMap V → Option V
  get k [] = none
  get k ((j, v) ∷ m) = if j == k then some v else get k m

  unfoldable pub insert : ℕ → V → PaneMap V → PaneMap V
  insert k v [] = (k, v) ∷ []
  insert k v ((j, w) ∷ m) = if j == k then (k, v) ∷ m else (j, w) ∷ insert k v m

  unfoldable pub remove : ℕ → PaneMap V → PaneMap V
  remove k [] = []
  remove k ((j, w) ∷ m) = if j == k then remove k m else (j, w) ∷ remove k m

  -- `retain(|id, _| live.contains(id))`
  unfoldable pub retain : (ℕ → Bool) → PaneMap V → PaneMap V
  retain live [] = []
  retain live ((j, w) ∷ m) = if live j then (j, w) ∷ retain live m else retain live m

  -- `entry(k).or_insert(v)`
  unfoldable pub or_insert : ℕ → V → PaneMap V → PaneMap V
  unfolding get insert
  or_insert k v m = elim (get k m) [ none ↦ insert k v m | some _ ↦ m ]

  -- Each key stands once.
  abbrev pub Distinct : PaneMap V → Type ℓ
  Distinct [] = Unit
  Distinct ((j, w) ∷ m) = (get j m ≡ none) × Distinct m

module _ {ℓ} {V : Type ℓ} where
  pub get-insert :
      (k j : ℕ) (v : V) (m : PaneMap V)
      → get j (insert k v m) ≡ (if k == j then some v else get j m)
  unfolding get insert
  get-insert k j v [] = refl
  get-insert k j v ((i, w) ∷ m) = ground (arith, get-insert k j v m)

  pub get-insert_self : (k : ℕ) (v : V) (m : PaneMap V) → get k (insert k v m) ≡ some v
  get-insert_self k v m = ground (arith, get-insert k k v m)

  pub get-remove :
      (k j : ℕ) (m : PaneMap V) → get j (remove k m) ≡ (if k == j then none else get j m)
  unfolding get remove
  get-remove k j [] = ground arith
  get-remove k j ((i, w) ∷ m) = ground (arith, get-remove k j m)

  pub get-retain :
      (live : ℕ → Bool) (j : ℕ) (m : PaneMap V)
      → get j (retain live m) ≡ (if live j then get j m else none)
  unfolding get retain
  get-retain live j [] = ground arith
  get-retain live j ((i, w) ∷ m) = ground (arith, get-retain live j m, λ (e : i ≡ j). ap live e)

  pub get-or_insert :
      (k j : ℕ) (v : V) (m : PaneMap V)
      → get j (or_insert k v m)
        ≡ elim (get k m) [ none ↦ if k == j then some v else get j m | some _ ↦ get j m ]
  unfolding or_insert
  get-or_insert k j v m = ground (arith, get-insert k j v m)

  pub or_insert_absent :
      (k : ℕ) (v : V) (m : PaneMap V) → get k m ≡ none → or_insert k v m ≡ insert k v m
  unfolding or_insert
  or_insert_absent k v m e = rw (e, or_insert)

  pub or_insert_present : (k : ℕ) (v w : V) (m : PaneMap V) → get k m ≡ some w → or_insert k v m ≡ m
  unfolding or_insert
  or_insert_present k v w m e = rw (e, or_insert)

  pub Distinct-insert : (k : ℕ) (v : V) (m : PaneMap V) → Distinct m → Distinct (insert k v m)
  unfolding get insert
  Distinct-insert k v [] d = (refl, tt)
  Distinct-insert k v ((j, w) ∷ m) d = ground (arith, Distinct-insert k v m d.1, get-insert k j v m)

  pub Distinct-remove : (k : ℕ) (m : PaneMap V) → Distinct m → Distinct (remove k m)
  unfolding get remove
  Distinct-remove k [] d = tt
  Distinct-remove k ((j, w) ∷ m) d = ground (arith, Distinct-remove k m d.1, get-remove k j m)

  pub Distinct-retain : (live : ℕ → Bool) (m : PaneMap V) → Distinct m → Distinct (retain live m)
  unfolding get retain
  Distinct-retain live [] d = tt
  Distinct-retain live ((j, w) ∷ m) d =
      ground (arith, Distinct-retain live m d.1, get-retain live j m)

  pub length-insert-le : (k : ℕ) (v : V) (m : PaneMap V) → length (insert k v m) ≤ length m + 1
  unfolding insert
  length-insert-le k v [] = omega arith
  length-insert-le k v ((j, w) ∷ m) = ground (arith, length-insert-le k v m)

  pub length-retain-le : (live : ℕ → Bool) (m : PaneMap V) → length (retain live m) ≤ length m
  unfolding retain
  length-retain-le live [] = omega arith
  length-retain-le live ((j, w) ∷ m) = ground (arith, length-retain-le live m)

  pub length-remove-le : (k : ℕ) (m : PaneMap V) → length (remove k m) ≤ length m
  unfolding remove
  length-remove-le k [] = omega arith
  length-remove-le k ((j, w) ∷ m) = ground (arith, length-remove-le k m)

  -- Removing a key that is there shortens the map.
  pub length-remove-lt :
      (k : ℕ) (v : V) (m : PaneMap V) → get k m ≡ some v → length (remove k m) + 1 ≤ length m
  unfolding get remove
  length-remove-lt k v [] h = absurd (cc)
  length-remove-lt k v ((j, w) ∷ m) h = ground (arith, length-remove-lt k v m, length-remove-le k m)

pub ruleset map_laws = (get-insert, get-remove, get-retain)

module _ {V : Type 0} where
  -- What holds of every entry holds of what a key reads.
  pub All-get :
      (P : ℕ × V → Type 0) (k : ℕ) (v : V) (m : PaneMap V) → All P m → get k m ≡ some v → P (k, v)
  unfolding get
  All-get P k v [] h e = absurd (cc)
  All-get P k v ((j, w) ∷ m) h e = elim (Bool-cases (j == k)) [
    | inl hit ↦
        let j≡k : j ≡ k = (==_iff j k).0 hit in
        let w≡v : w ≡ v = ground arith in rw (← j≡k, ← w≡v) h.0
    | inr miss ↦ All-get P k v m h.1 (ground arith)
  ]

  -- A fresh key in front, or behind the first entry, hides nothing.
  pub get-cons_fresh :
      (i k : ℕ) (u v : V) (m : PaneMap V)
      → get i m ≡ none
      → get k m ≡ some v
      → get k ((i, u) ∷ m) ≡ some v
  get-cons_fresh i k u v m fresh e = elim (Bool-cases (i == k)) [
    | inl hit ↦ absurd (cc (fresh, e, ap (λ (x : ℕ). get x m) ((==_iff i k).0 hit)))
    | inr miss ↦ unfold get in rw miss e
  ]

  pub get-second_fresh :
      (i j k : ℕ) (u w v : V) (m : PaneMap V)
      → get j m ≡ none
      → get k ((i, u) ∷ m) ≡ some v
      → get k ((i, u) ∷ (j, w) ∷ m) ≡ some v
  unfolding get
  get-second_fresh i j k u w v m fresh e = elim (Bool-cases (i == k)) [
    | inl hit ↦ ground arith
    | inr miss ↦ rw miss (get-cons_fresh j k w v m fresh (ground arith))
  ]
