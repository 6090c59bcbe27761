-- ===== src/Core/Task/Apply.antt =====
-- `BgTasks::apply`, the whole fold of one payload.
use zj_radar.Prelude.{
  ℕ, ◌≤◌, String, ◌≡◌, refl, sym, ap, ◌∙◌, ◌⊎◌, inl, inr, Bool, true, false, not, ◌&&◌, ◌||◌,
  Option, none, some, List, [], All, length, arith, is_some_and, if◌then◌else◌, Bool-cases,
  All-filter, All-filter_self, filter-eq_self, length-filter-le,
}
use zj_radar.Core.Status.{Status, eq_status, is_completion}
use zj_radar.Core.Task.{
  TaskBatch, BgTask, BgTasks, no_tasks, max_tasks, is_ended, any_holding, upsert_all, merge, apply,
}
use zj_radar.Core.Task.Revise.{Evolves, Evolves-refl, IsStamped}
use zj_radar.Core.Task.Find.{
  find, UniqueIds, find-end_omitted, find-filter, upsert_all-UniqueIds, end_omitted-UniqueIds,
  filter-UniqueIds,
}
use zj_radar.Core.Task.Cap.{length-cap, cap-eq_self, cap-UniqueIds, find-cap, All-cap, running_only}
use zj_radar.Core.Task.Life.{
  Evolves-trans, end_if_omitted-Evolves, find-upsert_all-Evolves, upsert_all-IsStamped,
  end_omitted-IsStamped, IsListed, end_omitted-IsListed,
}

-- The stored list between two payloads.
pub record IsWellFormed (ts : BgTasks) : Type 0 where
  pub bounded : length ts.items ≤ max_tasks
  pub unique : UniqueIds ts.items
  pub stamped : All IsStamped ts.items
  pub waits_for_work : ts.waiting ≡ true → any_holding ts.items ≡ true

pub no_tasks-IsWellFormed : IsWellFormed no_tasks
no_tasks-IsWellFormed = record {
  bounded = omega arith;
  unique = tt;
  stamped = tt;
  waits_for_work = λ h. cc;
}

-- The task that was `t` is gone, or has evolved.
abbrev pub Outlives : Option BgTask → BgTask → Type 0
Outlives found t = (found ≡ none) ⊎ ((t' : BgTask) × (found ≡ some t') × Evolves t t')

thinned-Outlives :
    (found old : Option BgTask) (t : BgTask)
    → (found ≡ none) ⊎ (found ≡ old)
    → Outlives old t
    → Outlives found t
thinned-Outlives found old t (inl gone) o = inl gone
thinned-Outlives found old t (inr kept) (inl gone) = inl (kept ∙ gone)
thinned-Outlives found old t (inr kept) (inr (t', e, ev)) = inr (t', kept ∙ e, ev)

module _ (prev : Option Status) (next : Status) (prompted : Bool) (now : ℕ) where
  merge-UniqueIds :
      (batch : Option TaskBatch) (ts : List BgTask)
      → UniqueIds ts
      → UniqueIds (merge batch prev next prompted now ts)
  unfolding merge
  merge-UniqueIds none ts h = ground (arith, filter-UniqueIds (λ t. not (is_ended t.state)) ts h)
  merge-UniqueIds (some b) ts h =
      let u = upsert_all-UniqueIds b.items now ts h in
      ground (arith, u, end_omitted-UniqueIds b.items now (upsert_all b.items now ts) u)

  merge-IsStamped :
      (batch : Option TaskBatch) (ts : List BgTask)
      → All IsStamped ts
      → All IsStamped (merge batch prev next prompted now ts)
  unfolding merge
  merge-IsStamped none ts h =
      ground (arith, All-filter IsStamped (λ t. not (is_ended t.state)) ts h)
  merge-IsStamped (some b) ts h =
      let u = upsert_all-IsStamped b.items now ts h in
      ground (arith, u, end_omitted-IsStamped b.items now (upsert_all b.items now ts) u)

  -- Every payload, whatever it reports, keeps a list well formed: at most `max_tasks` tasks, each
  -- id once, each end stamped exactly when the task is over, and an agent that waits has bounded
  -- work in flight.
  pub apply-IsWellFormed :
      (batch : Option TaskBatch) (ts : BgTasks)
      → IsWellFormed ts
      → IsWellFormed (apply batch prev next prompted now ts)
  apply-IsWellFormed batch ts v = elim (Bool-cases (eq_status next Status.idle)) [
    | inl idle ↦ unfold apply in rw idle no_tasks-IsWellFormed
    | inr busy ↦
        unfold apply in
        rw busy (record {
          bounded = length-cap (merge batch prev next prompted now ts.items);
          unique = cap-UniqueIds _ (merge-UniqueIds batch ts.items v.unique);
          stamped = All-cap IsStamped _ (merge-IsStamped batch ts.items v.stamped);
          waits_for_work = λ h. ground arith;
        })
  ]

  merge-Outlives :
      (batch : Option TaskBatch) (ts : List BgTask) (i : String) (t : BgTask)
      → UniqueIds ts
      → find i ts ≡ some t
      → Outlives (find i (merge batch prev next prompted now ts)) t
  unfolding merge
  merge-Outlives none ts i t u h =
      elim (Bool-cases
        (eq_status next Status.running && (prompted || is_some_and prev is_completion))) [
          | inl fresh ↦ rw fresh (
              thinned-Outlives _ (find i ts) t (find-filter (λ s. not (is_ended s.state)) i ts u)
                (inr (t, h, Evolves-refl t)))
          | inr same ↦ rw same (inr (t, h, Evolves-refl t))
        ]
  merge-Outlives (some b) ts i t u h =
      let (t', h', ev) = find-upsert_all-Evolves b.items now i ts t h in
      elim (Bool-cases b.snapshot) [
        | inl snap ↦
            rw (snap, find-end_omitted b.items now i (upsert_all b.items now ts), h')
              (inr (_, refl, Evolves-trans ev (end_if_omitted-Evolves b.items now t')))
        | inr delta ↦ rw delta (inr (t', h', ev))
      ]

  -- Over a well-formed list, every payload takes a stored task out or lets it evolve: it keeps its
  -- id and its start, `holds` is never raised, a reported outcome is final, and a task that is
  -- over stays over.
  pub apply-Outlives :
      (batch : Option TaskBatch) (ts : BgTasks) (i : String) (t : BgTask)
      → IsWellFormed ts
      → find i ts.items ≡ some t
      → Outlives (find i (apply batch prev next prompted now ts).items) t
  apply-Outlives batch ts i t v h = elim (Bool-cases (eq_status next Status.idle)) [
    | inl idle ↦ unfold apply find in rw idle (inl refl)
    | inr busy ↦
        unfold apply in
        rw busy (
          thinned-Outlives _ _ t (find-cap i _ (merge-UniqueIds batch ts.items v.unique))
            (merge-Outlives batch ts.items i t v.unique h))
  ]

  -- After a payload with a snapshot, every task that is stored as running is one that the snapshot
  -- lists as running.
  pub apply_snapshot :
      (b : TaskBatch) (ts : BgTasks)
      → b.snapshot ≡ true
      → All (IsListed b.items) (apply (some b) prev next prompted now ts).items
  apply_snapshot b ts snap = elim (Bool-cases (eq_status next Status.idle)) [
    | inl idle ↦ unfold apply in rw idle tt
    | inr busy ↦
        unfold apply merge in
        rw (busy, snap)
          (All-cap (IsListed b.items) _
            (end_omitted-IsListed b.items now (upsert_all b.items now ts.items)))
  ]

  -- Over a well-formed list, a payload with no batch leaves the tasks alone, unless the pane goes
  -- idle, which clears them, or a new batch of work begins, which clears the finished tasks and
  -- keeps every running one.
  pub apply_no_batch :
      (ts : BgTasks)
      → IsWellFormed ts
      → (apply none prev next prompted now ts).items ≡ (
          if eq_status next Status.idle
          then []
          else if eq_status next Status.running && (prompted || is_some_and prev is_completion)
          then running_only ts.items
          else ts.items)
  unfolding apply merge
  apply_no_batch ts v = ground (
    arith,
    cap-eq_self ts.items v.bounded,
    cap-eq_self (running_only ts.items),
    length-filter-le (λ t. not (is_ended t.state)) ts.items,
    v.bounded,
  )

running_only_idem : (ts : List BgTask) → running_only (running_only ts) ≡ running_only ts
running_only_idem ts =
    filter-eq_self (λ t. not (is_ended t.state)) (running_only ts)
      (All-filter_self (λ t. not (is_ended t.state)) ts)

not_waiting :
    (prev : Option Status) (next : Status) (prompted : Bool) (now : ℕ) (ts : BgTasks)
    → (apply none prev next prompted now ts).waiting ≡ false
unfolding apply
not_waiting prev next prompted now ts = ground arith

settled :
    (next : Status) (prev : Option Status) (prompted : Bool) (items old : List BgTask)
    → items ≡ (
        if eq_status next Status.idle
        then []
        else if eq_status next Status.running && (prompted || is_some_and prev is_completion)
        then running_only old
        else old)
    → (if eq_status next Status.idle
        then []
        else if eq_status next Status.running && (prompted || is_completion next)
        then running_only items
        else items)
      ≡ items
unfolding eq_status is_completion
settled Status.idle prev prompted items old h = ground arith
settled Status.running prev prompted items old h =
    ground (arith, running_only_idem old, λ (e : items ≡ running_only old). ap running_only e)
settled _ prev prompted items old h = ground arith

-- A payload with no batch that is sent again, over what it stored, stores the same.
pub apply_no_batch_idem :
    (prev : Option Status) (next : Status) (prompted : Bool) (now later : ℕ) (ts : BgTasks)
    → IsWellFormed ts
    → apply none (some next) next prompted later (apply none prev next prompted now ts)
      ≡ apply none prev next prompted now ts
apply_no_batch_idem prev next prompted now later ts v =
    let once = apply none prev next prompted now ts in
    let w = apply-IsWellFormed prev next prompted now none ts v in
    tasks_eq _ _
      (apply_no_batch (some next) next prompted later once w
        ∙ settled next prev prompted once.items ts.items
            (apply_no_batch prev next prompted now ts v))
      (not_waiting (some next) next prompted later once
        ∙ sym (not_waiting prev next prompted now ts))
  where
    tasks_eq : (a b : BgTasks) → a.items ≡ b.items → a.waiting ≡ b.waiting → a ≡ b
    tasks_eq a b h k = λ i. record { items = h i; waiting = k i }
