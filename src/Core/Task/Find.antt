-- ===== src/Core/Task/Find.antt =====
-- The stored list read by id: `upsert`, the snapshot's ends and the removals in terms of `find`.
use zj_radar.Prelude.{
  ℕ, zero, suc, String, ◌≡◌, refl, ◌⊎◌, inl, Bool, Option, none, some, List, [], ◌∷◌, filter, arith,
  str_eq, eq_iff, if◌then◌else◌,
}
use zj_radar.Core.Task.{
  TaskUpdate, BgTask, revise, new_task, upsert, upsert_all, end_if_omitted, end_omitted, remove_at,
}
use zj_radar.Core.Task.Revise.{id-revise}

-- `iter().find(|t| t.id == id)`
unfoldable pub find : String → List BgTask → Option BgTask
find i [] = none
find i (t ∷ ts) = if str_eq t.id i then some t else find i ts

-- Each id stands once.
abbrev pub UniqueIds : List BgTask → Type 0
UniqueIds [] = Unit {0}
UniqueIds (t ∷ ts) = (find t.id ts ≡ none) × UniqueIds ts

abbrev pub upserted : TaskUpdate → ℕ → Option BgTask → BgTask
upserted u now none = new_task u now
upserted u now (some t) = revise u now t

-- An upsert changes the task of its own id and no other.
pub find-upsert :
    (u : TaskUpdate) (now : ℕ) (i : String) (ts : List BgTask)
    → find i (upsert u now ts)
      ≡ (if str_eq u.id i then some (upserted u now (find u.id ts)) else find i ts)
unfolding find upsert
find-upsert u now i [] = unfold new_task in refl
find-upsert u now i (t ∷ ts) = ground (
  arith,
  find-upsert u now i ts,
  id-revise u now t,
  eq_iff t.id u.id,
  eq_iff t.id i,
  eq_iff u.id i,
)

pub upsert-UniqueIds :
    (u : TaskUpdate) (now : ℕ) (ts : List BgTask) → UniqueIds ts → UniqueIds (upsert u now ts)
unfolding find upsert
upsert-UniqueIds u now [] h = (refl, tt)
upsert-UniqueIds u now (t ∷ ts) h = ground (
  arith,
  upsert-UniqueIds u now ts h.1,
  id-revise u now t,
  find-upsert u now t.id ts,
  eq_iff t.id u.id,
  eq_iff u.id t.id,
)

pub upsert_all-UniqueIds :
    (us : List TaskUpdate) (now : ℕ) (ts : List BgTask)
    → UniqueIds ts
    → UniqueIds (upsert_all us now ts)
unfolding upsert_all
upsert_all-UniqueIds [] now ts h = h
upsert_all-UniqueIds (u ∷ us) now ts h =
    upsert_all-UniqueIds us now (upsert u now ts) (upsert-UniqueIds u now ts h)

pub id-end_if_omitted :
    (us : List TaskUpdate) (now : ℕ) (t : BgTask) → (end_if_omitted us now t).id ≡ t.id
unfolding end_if_omitted
id-end_if_omitted us now t = ground arith

abbrev pub map_option {ℓ κ} : {A : Type ℓ} {B : Type κ} → (A → B) → Option A → Option B
map_option f none = none
map_option f (some a) = some (f a)

pub find-end_omitted :
    (us : List TaskUpdate) (now : ℕ) (i : String) (ts : List BgTask)
    → find i (end_omitted us now ts) ≡ map_option (end_if_omitted us now) (find i ts)
unfolding find
find-end_omitted us now i [] = refl
find-end_omitted us now i (t ∷ ts) =
    ground (arith, find-end_omitted us now i ts, id-end_if_omitted us now t)

pub end_omitted-UniqueIds :
    (us : List TaskUpdate) (now : ℕ) (ts : List BgTask)
    → UniqueIds ts
    → UniqueIds (end_omitted us now ts)
end_omitted-UniqueIds us now [] h = tt
end_omitted-UniqueIds us now (t ∷ ts) h = (
  rw (id-end_if_omitted us now t, find-end_omitted us now t.id ts, h.0) refl,
  end_omitted-UniqueIds us now ts h.1,
)

-- A filter or a removal leaves a task as it was, or takes it out.
pub find-filter :
    (p : BgTask → Bool) (i : String) (ts : List BgTask)
    → UniqueIds ts
    → (find i (filter p ts) ≡ none) ⊎ (find i (filter p ts) ≡ find i ts)
unfolding find filter
find-filter p i [] h = inl refl
find-filter p i (t ∷ ts) h = ground (arith, find-filter p i ts h.1, eq_iff t.id i, h.0)

pub find-filter-none :
    (p : BgTask → Bool) (i : String) (ts : List BgTask)
    → find i ts ≡ none
    → find i (filter p ts) ≡ none
unfolding find filter
find-filter-none p i [] h = refl
find-filter-none p i (t ∷ ts) h = ground (arith, find-filter-none p i ts)

pub filter-UniqueIds :
    (p : BgTask → Bool) (ts : List BgTask) → UniqueIds ts → UniqueIds (filter p ts)
unfolding find filter
filter-UniqueIds p [] h = tt
filter-UniqueIds p (t ∷ ts) h =
    ground (arith, filter-UniqueIds p ts h.1, find-filter-none p t.id ts h.0)

pub find-remove_at :
    (k : ℕ) (i : String) (ts : List BgTask)
    → UniqueIds ts
    → (find i (remove_at k ts) ≡ none) ⊎ (find i (remove_at k ts) ≡ find i ts)
unfolding find remove_at
find-remove_at k i [] h = inl refl
find-remove_at zero i (t ∷ ts) h = ground (arith, eq_iff t.id i, h.0)
find-remove_at (suc k) i (t ∷ ts) h = ground (arith, find-remove_at k i ts h.1)

pub find-remove_at-none :
    (k : ℕ) (i : String) (ts : List BgTask) → find i ts ≡ none → find i (remove_at k ts) ≡ none
unfolding find remove_at
find-remove_at-none k i [] h = refl
find-remove_at-none zero i (t ∷ ts) h = ground arith
find-remove_at-none (suc k) i (t ∷ ts) h = ground (arith, find-remove_at-none k i ts)

pub remove_at-UniqueIds : (k : ℕ) (ts : List BgTask) → UniqueIds ts → UniqueIds (remove_at k ts)
unfolding find remove_at
remove_at-UniqueIds k [] h = tt
remove_at-UniqueIds zero (t ∷ ts) h = h.1
remove_at-UniqueIds (suc k) (t ∷ ts) h =
    (find-remove_at-none k t.id ts h.0, remove_at-UniqueIds k ts h.1)
