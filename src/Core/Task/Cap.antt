-- ===== src/Core/Task/Cap.antt =====
-- The storage cap of the stored list (`BgTasks::cap`): which task goes, how many stay.
use zj_radar.Prelude.{
  ℕ, zero, suc, ◌+◌, ◌≤◌, ◌<◌, String, ◌≡◌, refl, ap, ◌∙◌, ◌⊎◌, inl, inr, true, false, not, none,
  some, List, [], ◌∷◌, All, length, get_elem?, drop, filter, arith, leb, Bool-cases,
  get_elem?-of_drop,
}
use zj_radar.Core.Task.{
  BgTask, max_tasks, is_ended, key_lt, victim_from, victim, remove_at, cap_loop, cap,
}
use zj_radar.Core.Task.Find.{find, UniqueIds, find-remove_at, remove_at-UniqueIds}

-- `a` comes no later than `b` in the order of eviction.
abbrev pub NotAfter : BgTask → BgTask → Type 0
NotAfter a b = key_lt b a ≡ false

NotAfter-refl : (a : BgTask) → NotAfter a a
unfolding key_lt
NotAfter-refl a = ground arith

NotAfter-trans : (a b c : BgTask) → NotAfter a b → NotAfter b c → NotAfter a c
unfolding key_lt
NotAfter-trans a b c h k = ground arith

NotAfter-of_lt : (a b : BgTask) → key_lt a b ≡ true → NotAfter a b
unfolding key_lt
NotAfter-of_lt a b h = ground arith

-- The scan returns the index of a task that comes no later than any that it saw.
abbrev pub IsLeastAt : List BgTask → ℕ → List BgTask → Type 0
IsLeastAt xs v seen = (w : BgTask) × (get_elem? xs v ≡ some w) × All (NotAfter w) seen

victim_from-IsLeastAt :
    (xs : List BgTask) (i best : ℕ) (least : BgTask) (ts : List BgTask)
    → drop i xs ≡ ts
    → get_elem? xs best ≡ some least
    → IsLeastAt xs (victim_from i best least ts) (least ∷ ts)
unfolding victim_from
victim_from-IsLeastAt xs i best least [] hd hb = (least, hb, (NotAfter-refl least, tt))
victim_from-IsLeastAt xs i best least (t ∷ ts) hd hb =
    let (hi, hd') = get_elem?-of_drop i xs t ts hd in
    elim (Bool-cases (key_lt t least)) [
      | inl less ↦ rw less (
          let (w, e, h) = victim_from-IsLeastAt xs (suc i) i t ts hd' hi in
          (w, e, (NotAfter-trans w t least h.0 (NotAfter-of_lt t least less), h)))
      | inr more ↦ rw more (
          let (w, e, h) = victim_from-IsLeastAt xs (suc i) best least ts hd' hb in
          (w, e, (h.0, (NotAfter-trans w least t h.0 more, h.1))))
    ]

-- The task that goes comes first in the order of eviction: ended before running, then the earliest.
pub victim-IsLeastAt :
    (t : BgTask) (ts : List BgTask) → IsLeastAt (t ∷ ts) (victim_from 1 0 t ts) (t ∷ ts)
victim-IsLeastAt t ts = victim_from-IsLeastAt (t ∷ ts) 1 0 t ts refl refl

length-remove_at :
    (k : ℕ) (w : BgTask) (ts : List BgTask)
    → get_elem? ts k ≡ some w
    → length (remove_at k ts) + 1 ≡ length ts
unfolding remove_at
length-remove_at k w [] h = absurd (cc)
length-remove_at zero w (t ∷ ts) h = omega arith
length-remove_at (suc k) w (t ∷ ts) h = omega (arith, length-remove_at k w ts h)

-- What holds of the list and is kept by the eviction of the least task, from a list that is too
-- long, holds of what `cap` leaves.
module _ {ℓ} (P : List BgTask → Type ℓ)
    (keep : (k : ℕ) (w : BgTask) (ts : List BgTask)
      → max_tasks < length ts
      → get_elem? ts k ≡ some w
      → All (NotAfter w) ts
      → P ts
      → P (remove_at k ts)) where
  cap_loop_induction : (fuel : ℕ) (ts : List BgTask) → P ts → P (cap_loop fuel ts)
  unfolding cap_loop victim
  cap_loop_induction zero ts h = h
  cap_loop_induction (suc fuel) [] h = h
  cap_loop_induction (suc fuel) (t ∷ ts) h =
      let (w, e, least) = victim-IsLeastAt t ts in
      elim (Bool-cases (leb (length (t ∷ ts)) max_tasks)) [
        | inl fits ↦ rw fits h
        | inr over ↦ rw over (
            cap_loop_induction fuel (remove_at (victim_from 1 0 t ts) (t ∷ ts))
              (keep (victim_from 1 0 t ts) w (t ∷ ts) (ground arith) e least h))
      ]

  pub cap_induction : (ts : List BgTask) → P ts → P (cap ts)
  unfolding cap
  cap_induction ts h = cap_loop_induction (length ts) ts h

cap_loop-length :
    (fuel : ℕ) (ts : List BgTask)
    → length ts ≤ fuel + max_tasks
    → length (cap_loop fuel ts) ≤ max_tasks
unfolding cap_loop victim
cap_loop-length zero ts h = omega arith
cap_loop-length (suc fuel) [] h = ground arith
cap_loop-length (suc fuel) (t ∷ ts) h =
    let (w, e, _) = victim-IsLeastAt t ts in
    elim (Bool-cases (leb (length (t ∷ ts)) max_tasks)) [
      | inl fits ↦ rw fits (ground arith)
      | inr over ↦ rw over (
          cap_loop-length fuel (remove_at (victim_from 1 0 t ts) (t ∷ ts))
            (omega (arith, length-remove_at (victim_from 1 0 t ts) w (t ∷ ts) e)))
    ]

-- The fuel is enough: at most `max_tasks` tasks are left.
pub length-cap : (ts : List BgTask) → length (cap ts) ≤ max_tasks
unfolding cap
length-cap ts = cap_loop-length (length ts) ts (omega arith)

pub cap-eq_self : (ts : List BgTask) → length ts ≤ max_tasks → cap ts ≡ ts
unfolding cap cap_loop
cap-eq_self [] h = refl
cap-eq_self (t ∷ ts) h = ground arith

pub cap-UniqueIds : (ts : List BgTask) → UniqueIds ts → UniqueIds (cap ts)
cap-UniqueIds ts h = cap_induction UniqueIds (λ k w us o e l u. remove_at-UniqueIds k us u) ts h

-- The cap leaves a task as it was, or takes it out.
pub find-cap :
    (i : String) (ts : List BgTask)
    → UniqueIds ts
    → (find i (cap ts) ≡ none) ⊎ (find i (cap ts) ≡ find i ts)
find-cap i ts h =
    (cap_induction (λ us. UniqueIds us × ((find i us ≡ none) ⊎ (find i us ≡ find i ts)))
      (λ k w us o e l p. (remove_at-UniqueIds k us p.0, after k us p.0 p.1)) ts (h, inr refl)).1
  where
    after :
        (k : ℕ) (us : List BgTask)
        → UniqueIds us
        → (find i us ≡ none) ⊎ (find i us ≡ find i ts)
        → (find i (remove_at k us) ≡ none) ⊎ (find i (remove_at k us) ≡ find i ts)
    after k us u p = ground (arith, find-remove_at k i us u)

All-remove_at : (P : BgTask → Type 0) (k : ℕ) (ts : List BgTask) → All P ts → All P (remove_at k ts)
unfolding remove_at
All-remove_at P k [] h = tt
All-remove_at P zero (t ∷ ts) h = h.1
All-remove_at P (suc k) (t ∷ ts) h = (h.0, All-remove_at P k ts h.1)

pub All-cap : (P : BgTask → Type 0) (ts : List BgTask) → All P ts → All P (cap ts)
All-cap P ts h = cap_induction (All P) (λ k w us o e l p. All-remove_at P k us p) ts h

abbrev pub running_only : List BgTask → List BgTask
running_only = filter (λ t. not (is_ended t.state))

-- A task that comes no later than an ended one has ended.
ended_of_least :
    (w : BgTask) (ts : List BgTask)
    → All (NotAfter w) ts
    → length (running_only ts) < length ts
    → is_ended w.state ≡ true
unfolding filter key_lt
ended_of_least w [] h lt = absurd (omega arith)
ended_of_least w (t ∷ ts) h lt = ground (arith, ended_of_least w ts h.1)

running_only-remove_at :
    (k : ℕ) (w : BgTask) (ts : List BgTask)
    → get_elem? ts k ≡ some w
    → is_ended w.state ≡ true
    → running_only (remove_at k ts) ≡ running_only ts
unfolding filter remove_at
running_only-remove_at k w [] e h = refl
running_only-remove_at zero w (t ∷ ts) e h = ground arith
running_only-remove_at (suc k) w (t ∷ ts) e h = ground (arith, running_only-remove_at k w ts e h)

-- While at most `max_tasks` tasks run, the cap evicts none of them, and keeps their order.
pub running_only-cap :
    (ts : List BgTask)
    → length (running_only ts) ≤ max_tasks
    → running_only (cap ts) ≡ running_only ts
running_only-cap ts few =
    cap_induction (λ us. running_only us ≡ running_only ts)
      (λ k w us o e l p.
        running_only-remove_at k w us e (ended_of_least w us l (omega (arith, few, o, ap length p)))
        ∙ p)
      ts refl
