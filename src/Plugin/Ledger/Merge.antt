-- ===== src/Plugin/Ledger/Merge.antt =====
-- crates/plugin/src/ledger.rs: the order and the size of what `Ledger::merge` makes.
use zj_radar.Prelude.{
  ℕ, zero, suc, ◌≤◌, ◌≡◌, refl, ◌∙◌, inl, inr, false, List, [], ◌∷◌, ◌++◌, arith, any, All, take,
  leb, Bool-cases, any-append, All-append, All-imp, All-take, length-take-le,
}
use zj_radar.Plugin.Ledger.{
  LedgerEntry, ledger_cap, is_same_event, insert_desc, sort_desc, keep_new, merge,
}
use zj_radar.Plugin.Ledger.Event.{is_same_event_comm, IsDistinct, take-IsDistinct, IsRing}

-- `b` is no later than `a`.
abbrev pub NoLater : ℕ → LedgerEntry → Type 0
NoLater at b = b.at_epoch_s ≤ at

abbrev pub IsSorted : List LedgerEntry → Type 0
IsSorted [] = Unit {0}
IsSorted (e ∷ es) = All (NoLater e.at_epoch_s) es × IsSorted es

insert_desc-All :
    (P : LedgerEntry → Type 0) (e : LedgerEntry) (l : List LedgerEntry)
    → P e
    → All P l
    → All P (insert_desc e l)
unfolding insert_desc
insert_desc-All P e [] h hs = (h, tt)
insert_desc-All P e (f ∷ fs) h hs = elim (Bool-cases (leb f.at_epoch_s e.at_epoch_s)) [
  | inl later ↦ rw later (h, hs)
  | inr earlier ↦ rw earlier (hs.0, insert_desc-All P e fs h hs.1)
]

All-of_insert_desc :
    (P : LedgerEntry → Type 0) (e : LedgerEntry) (l : List LedgerEntry)
    → All P (insert_desc e l)
    → P e × All P l
unfolding insert_desc
All-of_insert_desc P e [] hs = hs
All-of_insert_desc P e (f ∷ fs) hs = elim (Bool-cases (leb f.at_epoch_s e.at_epoch_s)) [
  | inl later ↦ (rw later at hs)
  | inr earlier ↦
      let here : P f × All P (insert_desc e fs) = rw earlier at hs in
      let (h, rest) = All-of_insert_desc P e fs here.1 in (h, (here.0, rest))
]

pub All-of_sort_desc :
    (P : LedgerEntry → Type 0) (l : List LedgerEntry) → All P (sort_desc l) → All P l
unfolding sort_desc
All-of_sort_desc P [] hs = tt
All-of_sort_desc P (e ∷ es) hs =
    let (h, rest) = All-of_insert_desc P e (sort_desc es) hs in (h, All-of_sort_desc P es rest)

NoLater-mono : (a b : ℕ) (l : List LedgerEntry) → a ≤ b → All (NoLater a) l → All (NoLater b) l
NoLater-mono a b l h hs = All-imp (NoLater a) (NoLater b) l (λ x k. omega arith) hs

insert_desc-IsSorted :
    (e : LedgerEntry) (l : List LedgerEntry) → IsSorted l → IsSorted (insert_desc e l)
unfolding insert_desc
insert_desc-IsSorted e [] h = (tt, tt)
insert_desc-IsSorted e (f ∷ fs) h = elim (Bool-cases (leb f.at_epoch_s e.at_epoch_s)) [
  | inl later ↦
      let le : f.at_epoch_s ≤ e.at_epoch_s = ground arith in
      rw later ((le, NoLater-mono f.at_epoch_s e.at_epoch_s fs le h.0), h)
  | inr earlier ↦ rw earlier (
    insert_desc-All (NoLater f.at_epoch_s) e fs (ground arith) h.0,
    insert_desc-IsSorted e fs h.1,
  )
]

pub sort_desc-IsSorted : (l : List LedgerEntry) → IsSorted (sort_desc l)
unfolding sort_desc
sort_desc-IsSorted [] = tt
sort_desc-IsSorted (e ∷ es) = insert_desc-IsSorted e (sort_desc es) (sort_desc-IsSorted es)

take-IsSorted : (n : ℕ) (l : List LedgerEntry) → IsSorted l → IsSorted (take n l)
take-IsSorted zero l h = tt
take-IsSorted (suc n) [] h = tt
take-IsSorted (suc n) (e ∷ es) h =
    (All-take (NoLater e.at_epoch_s) n es h.0, take-IsSorted n es h.1)

-- A new candidate at the end.
snoc-IsDistinct :
    (l : List LedgerEntry) (c : LedgerEntry)
    → IsDistinct l
    → any (λ k. is_same_event k c) l ≡ false
    → IsDistinct (l ++ c ∷ [])
unfolding any
snoc-IsDistinct [] c d h = (refl, tt)
snoc-IsDistinct (e ∷ es) c d h = (
  any-append (λ k. is_same_event k e) es (c ∷ []) ∙ ground (arith, d.0, h, is_same_event_comm e c),
  snoc-IsDistinct es c d.1 (ground arith),
)

snoc-IsSorted :
    (l : List LedgerEntry) (c : LedgerEntry)
    → IsSorted l
    → All (λ k. c.at_epoch_s ≤ k.at_epoch_s) l
    → IsSorted (l ++ c ∷ [])
snoc-IsSorted [] c s h = (tt, tt)
snoc-IsSorted (e ∷ es) c s h =
    (All-append (NoLater e.at_epoch_s) es (c ∷ []) s.0 (h.0, tt), snoc-IsSorted es c s.1 h.1)

-- Every candidate comes no later than every entry kept so far.
abbrev pub Below : List LedgerEntry → List LedgerEntry → Type 0
Below kept cs = All (λ c. All (λ k. c.at_epoch_s ≤ k.at_epoch_s) kept) cs

pub Below-snoc :
    (kept : List LedgerEntry) (c : LedgerEntry) (cs : List LedgerEntry)
    → Below kept cs
    → All (NoLater c.at_epoch_s) cs
    → Below (kept ++ c ∷ []) cs
Below-snoc kept c [] b s = tt
Below-snoc kept c (x ∷ xs) b s = (
  All-append (λ k. x.at_epoch_s ≤ k.at_epoch_s) kept (c ∷ []) b.0 (s.0, tt),
  Below-snoc kept c xs b.1 s.1,
)

pub keep_new_sound :
    (kept cs : List LedgerEntry)
    → IsDistinct kept
    → IsSorted kept
    → IsSorted cs
    → Below kept cs
    → IsDistinct (keep_new kept cs) × IsSorted (keep_new kept cs)
unfolding keep_new
keep_new_sound kept [] d s t b = (d, s)
keep_new_sound kept (c ∷ cs) d s t b = elim (Bool-cases (any (λ k. is_same_event k c) kept)) [
  | inl dup ↦ rw dup (keep_new_sound kept cs d s t.1 b.1)
  | inr new ↦ rw new (
      keep_new_sound (kept ++ c ∷ []) cs (snoc-IsDistinct kept c d new) (snoc-IsSorted kept c s b.0)
        t.1 (Below-snoc kept c cs b.1 t.0))
]

pub Below-nil : (cs : List LedgerEntry) → Below [] cs
Below-nil [] = tt
Below-nil (c ∷ cs) = (tt, Below-nil cs)

-- The merge of any two lists is a ring, the latest first.
pub merge-IsRing : (a b : List LedgerEntry) → IsRing (merge a b) × IsSorted (merge a b)
unfolding merge
merge-IsRing a b =
    let all = sort_desc (a ++ b) in
    let (d, s) = keep_new_sound [] all tt tt (sort_desc-IsSorted (a ++ b)) (Below-nil all) in
    (
      record {
        bounded = length-take-le ledger_cap (keep_new [] all);
        distinct = take-IsDistinct ledger_cap (keep_new [] all) d;
      },
      take-IsSorted ledger_cap (keep_new [] all) s,
    )
