-- ===== src/Core/Task/Life.antt =====
-- A stored task through the folds of `BgTasks::apply`, by `Evolves`.
use text.Mathlib.TextPositions.{eq_refl}
use zj_radar.Prelude.{
  ℕ, String, ◌≡◌, refl, ap, ◌∙◌, inl, inr, true, some, List, [], ◌∷◌, All, arith, str_eq, eq_iff,
  Bool-cases,
}
use zj_radar.Core.Task.{
  TaskUpdate, BgTask, is_running, is_final, revise, overwrite, new_task, upsert, upsert_all,
  end_if_omitted, end_omitted, lists_running,
}
use zj_radar.Core.Task.Revise.{
  Evolves, Evolves-refl, IsStamped, revise-Evolves, id-revise, revise-IsStamped, new_task-IsStamped,
}
use zj_radar.Core.Task.Find.{find, find-upsert}

pub Evolves-trans : {a b c : BgTask} → Evolves a b → Evolves b c → Evolves a c
Evolves-trans {a} {b} {c} h k = record {
  same_id = k.same_id ∙ h.same_id;
  same_start = k.same_start ∙ h.same_start;
  holds_drop = λ p. h.holds_drop (k.holds_drop p);
  final_kept = λ p.
      k.final_kept (ap (λ (t : BgTask). is_final t.state) (h.final_kept p) ∙ p) ∙ h.final_kept p;
  over_kept = λ p. k.over_kept (h.over_kept p);
  outcome_only =
      λ p ne. ground (arith, h.over_kept p, h.outcome_only p, k.outcome_only, k.final_kept);
  end_kept = λ p ne. ground (arith, h.over_kept p, h.end_kept p ne, k.end_kept);
}

pub end_if_omitted-Evolves :
    (us : List TaskUpdate) (now : ℕ) (t : BgTask) → Evolves t (end_if_omitted us now t)
unfolding end_if_omitted
end_if_omitted-Evolves us now t = ground arith

-- A stored task outlives every upsert, and evolves.
pub find-upsert-Evolves :
    (u : TaskUpdate) (now : ℕ) (i : String) (ts : List BgTask) (t : BgTask)
    → find i ts ≡ some t
    → (t' : BgTask) × (find i (upsert u now ts) ≡ some t') × Evolves t t'
find-upsert-Evolves u now i ts t h = elim (Bool-cases (str_eq u.id i)) [
  | inl same ↦ (
    revise u now t,
    rw (find-upsert u now i ts, same, (eq_iff u.id i).0 same, h) refl,
    revise-Evolves u now t,
  )
  | inr other ↦ (t, rw (find-upsert u now i ts, other) h, Evolves-refl t)
]

pub find-upsert_all-Evolves :
    (us : List TaskUpdate) (now : ℕ) (i : String) (ts : List BgTask) (t : BgTask)
    → find i ts ≡ some t
    → (t' : BgTask) × (find i (upsert_all us now ts) ≡ some t') × Evolves t t'
unfolding upsert_all
find-upsert_all-Evolves [] now i ts t h = (t, h, Evolves-refl t)
find-upsert_all-Evolves (u ∷ us) now i ts t h =
    let (a, ha, ea) = find-upsert-Evolves u now i ts t h in
    let (b, hb, eb) = find-upsert_all-Evolves us now i (upsert u now ts) a ha in
    (b, hb, Evolves-trans ea eb)

pub upsert-IsStamped :
    (u : TaskUpdate) (now : ℕ) (ts : List BgTask)
    → All IsStamped ts
    → All IsStamped (upsert u now ts)
unfolding upsert
upsert-IsStamped u now [] h = (new_task-IsStamped u now, tt)
upsert-IsStamped u now (t ∷ ts) h = elim (Bool-cases (str_eq t.id u.id)) [
  | inl same ↦ rw same (revise-IsStamped u now t h.0, h.1)
  | inr other ↦ rw other (h.0, upsert-IsStamped u now ts h.1)
]

pub upsert_all-IsStamped :
    (us : List TaskUpdate) (now : ℕ) (ts : List BgTask)
    → All IsStamped ts
    → All IsStamped (upsert_all us now ts)
unfolding upsert_all
upsert_all-IsStamped [] now ts h = h
upsert_all-IsStamped (u ∷ us) now ts h =
    upsert_all-IsStamped us now (upsert u now ts) (upsert-IsStamped u now ts h)

end_if_omitted-IsStamped :
    (us : List TaskUpdate) (now : ℕ) (t : BgTask)
    → IsStamped t
    → IsStamped (end_if_omitted us now t)
unfolding end_if_omitted
end_if_omitted-IsStamped us now t h = ground arith

pub end_omitted-IsStamped :
    (us : List TaskUpdate) (now : ℕ) (ts : List BgTask)
    → All IsStamped ts
    → All IsStamped (end_omitted us now ts)
end_omitted-IsStamped us now [] h = tt
end_omitted-IsStamped us now (t ∷ ts) h =
    (end_if_omitted-IsStamped us now t h.0, end_omitted-IsStamped us now ts h.1)

-- What runs is listed as running.
abbrev pub IsListed : List TaskUpdate → BgTask → Type 0
IsListed us t = is_running t.state ≡ true → lists_running us t.id ≡ true

end_if_omitted-IsListed :
    (us : List TaskUpdate) (now : ℕ) (t : BgTask) → IsListed us (end_if_omitted us now t)
unfolding end_if_omitted
end_if_omitted-IsListed us now t h = ground arith

pub end_omitted-IsListed :
    (us : List TaskUpdate) (now : ℕ) (ts : List BgTask) → All (IsListed us) (end_omitted us now ts)
end_omitted-IsListed us now [] = tt
end_omitted-IsListed us now (t ∷ ts) =
    (end_if_omitted-IsListed us now t, end_omitted-IsListed us now ts)

revise_idem :
    (u : TaskUpdate) (now later : ℕ) (t : BgTask) → revise u later (revise u now t) ≡ revise u now t
unfolding revise overwrite
revise_idem u now later t = ground arith

-- The same update again, at any time, changes nothing.
pub upsert_idem :
    (u : TaskUpdate) (now later : ℕ) (ts : List BgTask)
    → upsert u later (upsert u now ts) ≡ upsert u now ts
unfolding upsert
upsert_idem u now later [] = unfold new_task revise overwrite in ground (arith, eq_refl u.id)
upsert_idem u now later (t ∷ ts) =
    ground (arith, revise_idem u now later t, upsert_idem u now later ts, id-revise u now t)
