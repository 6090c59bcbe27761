-- ===== src/Plugin/Ledger/Cover.antt =====
-- crates/plugin/src/ledger.rs: what `Ledger::merge` may leave out.
use zj_radar.Prelude.{
  ℕ, zero, suc, ◌≤◌, ◌≡◌, refl, ap, ◌∙◌, ◌⊎◌, inl, inr, Bool, true, false, ◌&&◌, List, [], ◌∷◌,
  ◌++◌, arith, any, All, take, length, leb, Bool-cases, any-append, All-imp,
}
use mathlib.Core.Path.{subst⁻¹}
use zj_radar.Plugin.Ledger.{LedgerEntry, ledger_cap, is_same_event, sort_desc, keep_new, merge}
use zj_radar.Plugin.Ledger.Event.{is_same_event_refl}
use zj_radar.Plugin.Ledger.Merge.{
  NoLater, IsSorted, Below, Below-nil, Below-snoc, All-of_sort_desc, sort_desc-IsSorted,
  keep_new_sound,
}

-- The entry, or a later report of the same event.
abbrev pub covers : LedgerEntry → LedgerEntry → Bool
covers e k = is_same_event k e && leb e.at_epoch_s k.at_epoch_s

any-keep_new :
    (p : LedgerEntry → Bool) (kept cs : List LedgerEntry)
    → any p kept ≡ true
    → any p (keep_new kept cs) ≡ true
unfolding keep_new
any-keep_new p kept [] h = h
any-keep_new p kept (c ∷ cs) h = elim (Bool-cases (any (λ k. is_same_event k c) kept)) [
  | inl dup ↦ rw dup (any-keep_new p kept cs h)
  | inr new ↦
      rw new (any-keep_new p (kept ++ c ∷ []) cs (any-append p kept (c ∷ []) ∙ ground (arith, h)))
]

-- A match among entries that are no earlier is a cover.
any-covers :
    (c : LedgerEntry) (kept : List LedgerEntry)
    → any (λ k. is_same_event k c) kept ≡ true
    → All (λ k. c.at_epoch_s ≤ k.at_epoch_s) kept
    → any (covers c) kept ≡ true
unfolding any
any-covers c [] h b = absurd (cc)
any-covers c (k ∷ ks) h b = ground (arith, any-covers c ks)

keep_new_dup :
    (kept : List LedgerEntry) (c : LedgerEntry) (cs : List LedgerEntry)
    → any (λ k. is_same_event k c) kept ≡ true
    → keep_new kept (c ∷ cs) ≡ keep_new kept cs
unfolding keep_new
keep_new_dup kept c cs dup = rw dup refl

keep_new_new :
    (kept : List LedgerEntry) (c : LedgerEntry) (cs : List LedgerEntry)
    → any (λ k. is_same_event k c) kept ≡ false
    → keep_new kept (c ∷ cs) ≡ keep_new (kept ++ c ∷ []) cs
unfolding keep_new
keep_new_new kept c cs new = rw new refl

abbrev pub IsCovered : List LedgerEntry → LedgerEntry → Type 0
IsCovered l c = any (covers c) l ≡ true

keep_new_covers :
    (kept cs : List LedgerEntry)
    → IsSorted cs
    → Below kept cs
    → All (IsCovered (keep_new kept cs)) cs
keep_new_covers kept [] t b = tt
keep_new_covers kept (c ∷ cs) t b = elim (Bool-cases (any (λ k. is_same_event k c) kept)) [
  | inl dup ↦
      subst⁻¹ (λ (l : List LedgerEntry). All (IsCovered l) (c ∷ cs)) (keep_new_dup kept c cs dup)
        (
          any-keep_new (covers c) kept cs (any-covers c kept dup b.0),
          keep_new_covers kept cs t.1 b.1,
        )
  | inr new ↦
      subst⁻¹ (λ (l : List LedgerEntry). All (IsCovered l) (c ∷ cs)) (keep_new_new kept c cs new)
        (
          any-keep_new (covers c) (kept ++ c ∷ []) cs (
              any-append (covers c) kept (c ∷ [])
              ∙ (unfold any in ground (arith, is_same_event_refl c))),
          keep_new_covers (kept ++ c ∷ []) cs t.1 (Below-snoc kept c cs b.1 t.0),
        )
]

-- A sorted list cut off at `n`: what it covered is covered still, or `n` entries that are no
-- earlier are left.
abbrev pub IsFull : ℕ → LedgerEntry → List LedgerEntry → Type 0
IsFull n e l = (length l ≡ n) × All (λ k. e.at_epoch_s ≤ k.at_epoch_s) l

latest-of_covers :
    (e : LedgerEntry) (at : ℕ) (l : List LedgerEntry)
    → All (NoLater at) l
    → any (covers e) l ≡ true
    → e.at_epoch_s ≤ at
unfolding any
latest-of_covers e at [] s h = absurd (cc)
latest-of_covers e at (k ∷ ks) s h = ground (arith, latest-of_covers e at ks s.1)

take-covers :
    (n : ℕ) (e : LedgerEntry) (l : List LedgerEntry)
    → IsSorted l
    → any (covers e) l ≡ true
    → (any (covers e) (take n l) ≡ true) ⊎ IsFull n e (take n l)
unfolding any
take-covers zero e l s h = inr (refl, tt)
take-covers (suc n) e [] s h = absurd (cc)
take-covers (suc n) e (k ∷ ks) s h = elim (Bool-cases (covers e k)) [
  | inl here ↦ inl (ground (arith, here))
  | inr there ↦
      let below : any (covers e) ks ≡ true = ground (arith, there, h) in
      elim (take-covers n e ks s.1 below) [
        | inl c ↦ inl (ground (arith, c))
        | inr (len, all) ↦ inr (ap suc len, (latest-of_covers e k.at_epoch_s ks s.0 below, all))
      ]
]

-- Every entry of either ring is in the merge, itself or as a later report of the same event within
-- the window, unless the merge is full of 32 entries that are no earlier.
pub merge-covers :
    (a b : List LedgerEntry)
    → All (λ e. (any (covers e) (merge a b) ≡ true) ⊎ IsFull ledger_cap e (merge a b)) (a ++ b)
unfolding merge
merge-covers a b =
    let sorted = sort_desc (a ++ b) in
    let t = sort_desc-IsSorted (a ++ b) in
    let (d, s) = keep_new_sound [] sorted tt tt t (Below-nil sorted) in
    All-of_sort_desc _ (a ++ b) (
      All-imp (IsCovered (keep_new [] sorted)) _ sorted
        (λ e h. take-covers ledger_cap e (keep_new [] sorted) s h)
        (keep_new_covers [] sorted t (Below-nil sorted)))
