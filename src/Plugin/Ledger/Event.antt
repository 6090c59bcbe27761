-- ===== src/Plugin/Ledger/Event.antt =====
-- crates/plugin/src/ledger.rs: which entries count as one event, and rings without doubles.
use text.Mathlib.TextPositions.{eq_refl}
use zj_radar.Prelude.{
  ℕ, zero, suc, ◌-◌, ◌≤◌, ◌≡◌, refl, inl, inr, true, false, List, [], ◌∷◌, arith, any, take, length,
  eq_iff, Bool-cases, length-take-le, if◌then◌else◌,
}
use zj_radar.Plugin.Ledger.{LedgerEntry, Ledger, ledger_cap, is_same_event, push}

pub is_same_event_refl : (a : LedgerEntry) → is_same_event a a ≡ true
unfolding is_same_event
is_same_event_refl a = ground (arith, eq_refl a.label)

pub is_same_event_comm : (a b : LedgerEntry) → is_same_event a b ≡ is_same_event b a
unfolding is_same_event
is_same_event_comm a b = ground (arith, eq_iff a.label b.label, eq_iff b.label a.label)

-- No two entries are the same event.
abbrev pub IsDistinct : List LedgerEntry → Type 0
IsDistinct [] = Unit {0}
IsDistinct (e ∷ es) = (any (λ k. is_same_event k e) es ≡ false) × IsDistinct es

any-take-false :
    (e : LedgerEntry) (n : ℕ) (es : List LedgerEntry)
    → any (λ k. is_same_event k e) es ≡ false
    → any (λ k. is_same_event k e) (take n es) ≡ false
unfolding any
any-take-false e zero es h = refl
any-take-false e (suc n) [] h = refl
any-take-false e (suc n) (f ∷ fs) h = ground (arith, any-take-false e n fs)

pub take-IsDistinct : (n : ℕ) (es : List LedgerEntry) → IsDistinct es → IsDistinct (take n es)
take-IsDistinct zero es h = tt
take-IsDistinct (suc n) [] h = tt
take-IsDistinct (suc n) (e ∷ es) h = (any-take-false e n es h.0, take-IsDistinct n es h.1)

-- A ring that is within its cap and holds each event once.
pub record IsRing (l : Ledger) : Type 0 where
  pub bounded : length l ≤ ledger_cap
  pub distinct : IsDistinct l

-- A push keeps the ring a ring and holds the event afterwards. An event that is there already
-- changes nothing; a new one is reported as such and is the new head, in front of the entries that
-- were there, in their order, of which the last gives way when the ring is full.
pub push-IsRing :
    (e : LedgerEntry) (l : Ledger)
    → IsRing l
    → IsRing (push e l).1
      × (any (λ k. is_same_event k e) (push e l).1 ≡ true)
      × (push e l ≡ (
          if any (λ k. is_same_event k e) l
          then (false, l)
          else (true, e ∷ take (ledger_cap - 1) l)))
push-IsRing e l v = elim (Bool-cases (any (λ k. is_same_event k e) l)) [
  | inl dup ↦ unfold push in rw dup (v, dup, refl)
  | inr new ↦
      unfold push in
      rw new (
        record {
          bounded = length-take-le ledger_cap (e ∷ l);
          distinct = take-IsDistinct ledger_cap (e ∷ l) (new, v.distinct);
        },
        unfold any in rw is_same_event_refl refl,
        refl,
      )
]
