-- ===== src/Plugin/RadarState/Memo.antt =====
-- crates/plugin/src/radar_state.rs: the memo of `rows`, keyed by the generation and by how many
-- flashes are lit.
use mathlib.Core.Path.{subst, subst⁻¹}
use zj_radar.Prelude.{
  ℕ, ◌≤◌, ◌≡◌, refl, sym, ap, arith, inl, inr, Bool, true, Option, none, some, List, [], ◌∷◌, map,
  ltb, All, Bool-cases, Option-cases,
}
use zj_radar.Prelude.PaneMap
use zj_radar.Prelude.PaneMap.{PaneMap, All-get}
use zj_radar.Plugin.RadarState.{RadarState, RadarTab, RowsMemo}
use zj_radar.Plugin.RadarState.Rows.{
  count_lit, lit_flashes, is_lit, row_of, rows_uncached, serves, compute_rows, rows,
}

-- The memo is of this generation at the latest, and from `now` on it is right wherever it serves.
abbrev pub IsRight : ℕ → RadarState → RowsMemo → Type 0
IsRight now s m =
    (m.generation ≤ s.generation)
    × ((t : ℕ)
        → now ≤ t
        → serves s.generation (lit_flashes s t) m ≡ true
        → rows_uncached s t ≡ m.rows)

abbrev pub OfMemo : (RowsMemo → Type 0) → Option RowsMemo → Type 0
OfMemo P none = Unit
OfMemo P (some m) = P m

abbrev pub IsFresh : ℕ → RadarState → Type 0
IsFresh now s = OfMemo (IsRight now s) s.rows_memo

-- As time goes by flashes only go out.
count_lit_le : (t u : ℕ) (m : PaneMap ℕ) → t ≤ u → count_lit u m ≤ count_lit t m
unfolding count_lit
count_lit_le t u [] h = omega arith
count_lit_le t u ((id, until) ∷ m) h = ground (arith, count_lit_le t u m h)

-- So the same number of lit flashes is the same flashes.
same_lit :
    (t u : ℕ) (m : PaneMap ℕ)
    → t ≤ u
    → count_lit u m ≡ count_lit t m
    → All (λ (e : ℕ × ℕ). ltb u e.1 ≡ ltb t e.1) m
unfolding count_lit
same_lit t u [] h e = tt
same_lit t u ((id, until) ∷ m) h e =
    let le = count_lit_le t u m h in (ground (arith, le), same_lit t u m h (ground (arith, le)))

is_lit_same :
    (t u : ℕ) (m : PaneMap ℕ) (id : ℕ)
    → t ≤ u
    → count_lit u m ≡ count_lit t m
    → is_lit u m id ≡ is_lit t m id
unfolding is_lit
is_lit_same t u m id h e = elim (Option-cases (PaneMap.get id m)) [
  | inl out ↦ rw out refl
  | inr (until, at) ↦
      rw at (All-get (λ (e : ℕ × ℕ). ltb u e.1 ≡ ltb t e.1) id until m (same_lit t u m h e) at)
]

map_same {ℓ κ} :
    {A : Type ℓ} {B : Type κ} (f g : A → B) (xs : List A)
    → ((x : A) → f x ≡ g x)
    → map f xs ≡ map g xs
map_same f g [] h = refl
map_same f g (x ∷ xs) h = cc (h x, map_same f g xs h)

row_of_same :
    (s : RadarState) (t u : ℕ) (tab : RadarTab)
    → t ≤ u
    → lit_flashes s u ≡ lit_flashes s t
    → row_of s u tab ≡ row_of s t tab
unfolding row_of lit_flashes
row_of_same s t u tab h e =
    ap (λ (flash : Bool). record (row_of s t tab) { flash = flash })
      (is_lit_same t u s.flash_until tab.id h e)

-- In one generation, the rows at two ticks with the same number of lit flashes are the same.
pub rows_uncached_same :
    (s : RadarState) (t u : ℕ)
    → t ≤ u
    → lit_flashes s u ≡ lit_flashes s t
    → rows_uncached s u ≡ rows_uncached s t
unfolding rows_uncached
rows_uncached_same s t u h e =
    map_same (row_of s u) (row_of s t) s.tabs (λ tab. row_of_same s t u tab h e)

pub serves_iff_lem :
    (generation lit : ℕ) (m : RowsMemo)
    → serves generation lit m ≡ true
    → (m.generation ≡ generation) × (m.lit_flashes ≡ lit)
unfolding serves
serves_iff_lem generation lit m e = ground (arith, e)

pub OfMemo-some :
    (P : RowsMemo → Type 0) (o : Option RowsMemo) (m : RowsMemo) → o ≡ some m → OfMemo P o → P m
OfMemo-some P o m e h = subst (OfMemo P) e h

compute_rows-IsFresh : (t : ℕ) (s : RadarState) → IsFresh t (compute_rows s t).1
unfolding compute_rows lit_flashes rows_uncached
compute_rows-IsFresh t s = (
  omega arith,
  λ u h e. rows_uncached_same s t u h (sym (serves_iff_lem s.generation (lit_flashes s u) _ e).1),
)

pub IsFresh-later : (t u : ℕ) (s : RadarState) → t ≤ u → IsFresh t s → IsFresh u s
IsFresh-later t u s h fresh = elim (Option-cases s.rows_memo) [
  | inl no_memo ↦ subst⁻¹ (OfMemo (IsRight u s)) no_memo tt
  | inr (m, e) ↦
      let right = OfMemo-some (IsRight t s) s.rows_memo m e fresh in
      subst⁻¹ (OfMemo (IsRight u s)) e (right.0, λ v later serving. right.1 v (omega arith) serving)
]

-- What `rows` hands out at a tick is what it would compute there, and its memo is right from then on.
pub rows-rows_uncached :
    (now t : ℕ) (s : RadarState)
    → IsFresh now s
    → now ≤ t
    → ((rows s t).0 ≡ rows_uncached s t) × IsFresh t (rows s t).1
unfolding rows
rows-rows_uncached now t s fresh h = elim (Option-cases s.rows_memo) [
  | inl no_memo ↦ rw (rows, no_memo) (refl, compute_rows-IsFresh t s)
  | inr (m, e) ↦
      let right = OfMemo-some (IsRight now s) s.rows_memo m e fresh in
      elim (Bool-cases (serves s.generation (lit_flashes s t) m)) [
        | inl hit ↦ rw (rows, e, hit) (sym (right.1 t h hit), IsFresh-later now t s h fresh)
        | inr miss ↦ rw (rows, e, miss) (refl, compute_rows-IsFresh t s)
      ]
]
