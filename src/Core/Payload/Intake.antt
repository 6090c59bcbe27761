-- ===== src/Core/Payload/Intake.antt =====
-- crates/core/src/payload.rs: what `parse` lets through, whatever serde_json makes of the text.
use mathlib.Core.List.{Memᴰ}
use zj_radar.Prelude.{
  ap, zero, take-eq_self, ℕ, suc, ◌≤◌, ◌≡◌, refl, arith, inl, inr, String, true, false, Option,
  none, some, List, [], ◌∷◌, ltb, str_eq, length, take, All, All-take, length-take-le, unwrap_or,
  Bool-cases, Option-cases,
}
use zj_radar.Core.Task.{TaskUpdate, TaskBatch, max_tasks, max_task_id_chars, max_task_label_chars}
use zj_radar.Core.Sanitize.{bytes, kept, all_chars, count_chars, sanitize}
use zj_radar.Core.Sanitize.Laws.{sanitize_clean}
use zj_radar.Core.Observation.{
  max_msg_chars, max_task_chars, max_repo_chars, max_branch_chars, max_source_chars,
}
use zj_radar.Core.Payload.{
  StatusPayload, RawTask, Raw, Json, max_payload_bytes, filter_map, task_update, parse_tasks,
  payload_of, parse,
}

-- No character that a terminal acts on, and at most `n` chars.
abbrev pub IsClean : ℕ → String → Type 0
IsClean n s = (all_chars kept s ≡ true) × (count_chars s ≤ n)

-- A background task is named, and its texts are clean.
abbrev pub IsCleanTask : TaskUpdate → Type 0
IsCleanTask t =
    (str_eq t.id "" ≡ false) × IsClean max_task_id_chars t.id × IsClean max_task_label_chars t.label

abbrev pub IsCleanBatch : Option TaskBatch → Type 0
IsCleanBatch none = Unit
IsCleanBatch (some b) = All IsCleanTask b.items × (length b.items ≤ max_tasks)

abbrev pub IsCleanPayload : StatusPayload → Type 0
IsCleanPayload p =
    IsClean max_repo_chars p.repo
    × IsClean max_branch_chars p.branch
    × IsClean max_msg_chars p.msg
    × IsClean max_task_chars p.task
    × IsClean max_source_chars p.source
    × IsCleanBatch p.tasks

task_update-IsCleanTask : (r : RawTask) (t : TaskUpdate) → task_update r ≡ some t → IsCleanTask t
unfolding task_update
task_update-IsCleanTask r t e = elim (Bool-cases (str_eq (sanitize r.id max_task_id_chars) "")) [
  | inl blank ↦ absurd (ground arith)
  | inr named ↦
      let id≡ : sanitize r.id max_task_id_chars ≡ t.id = ground arith in
      let label≡ : sanitize r.label max_task_label_chars ≡ t.label = ground arith in
      rw (← id≡, ← label≡)
        (named, sanitize_clean r.id max_task_id_chars, sanitize_clean r.label max_task_label_chars)
]

module _ {A B : Type 0} (f : A → Option B) (P : B → Type 0) where
  All-consider :
      (o : Option B) (ys : List B)
      → ((y : B) → o ≡ some y → P y)
      → All P ys
      → All P (elim o [ none ↦ ys | some y ↦ y ∷ ys ])
  All-consider none ys h rest = rest
  All-consider (some y) ys h rest = (h y refl, rest)

  All-filter_map : ((x : A) (y : B) → f x ≡ some y → P y) → (xs : List A) → All P (filter_map f xs)
  All-filter_map h [] = tt
  All-filter_map h (x ∷ xs) = All-consider (f x) (filter_map f xs) (h x) (All-filter_map h xs)

-- What an item comes to.
abbrev pub sanitized_task : RawTask → TaskUpdate
sanitized_task r = record {
  id = sanitize r.id max_task_id_chars;
  state = r.state;
  label = sanitize r.label max_task_label_chars;
  holds = r.holds;
}

task_update-named :
    (r : RawTask)
    → str_eq (sanitize r.id max_task_id_chars) "" ≡ false
    → task_update r ≡ some (sanitized_task r)
unfolding task_update
task_update-named r named = rw named refl

Memᴰ-consider :
    {B : Type 0} (y : B) (o : Option B) (ys : List B)
    → Memᴰ y ys
    → Memᴰ y (elim o [ none ↦ ys | some z ↦ z ∷ ys ])
Memᴰ-consider y none ys h = h
Memᴰ-consider y (some z) ys h = Memᴰ.tail h

Memᴰ-found :
    {B : Type 0} (y : B) (o : Option B) (ys : List B)
    → o ≡ some y
    → Memᴰ y (elim o [ none ↦ ys | some z ↦ z ∷ ys ])
Memᴰ-found y none ys e = absurd (cc)
Memᴰ-found y (some z) ys e = Memᴰ.head (cc e)

Memᴰ-filter_map :
    {A B : Type 0} (f : A → Option B) (x : A) (y : B) (xs : List A)
    → f x ≡ some y
    → Memᴰ x xs
    → Memᴰ y (filter_map f xs)
Memᴰ-filter_map f x y [] e at_x = elim at_x [ ]
Memᴰ-filter_map f x y (z ∷ xs) e (Memᴰ.head same) =
    Memᴰ-found y (f z) (filter_map f xs) (rw (← same) e)
Memᴰ-filter_map f x y (z ∷ xs) e (Memᴰ.tail rest) =
    Memᴰ-consider y (f z) (filter_map f xs) (Memᴰ-filter_map f x y xs e rest)

-- Where one more than the cap was asked for and did not come, nothing was cut.
take-untruncated :
    {A : Type 0} (n : ℕ) (xs : List A)
    → length (take (suc n) xs) ≤ n
    → take n (take (suc n) xs) ≡ xs
take-untruncated n [] h = take-eq_self n [] (omega arith)
take-untruncated zero (x ∷ xs) h = absurd (omega arith)
take-untruncated (suc n) (x ∷ xs) h = ap (λ ys. x ∷ ys) (take-untruncated n xs (omega (arith, h)))

module _ (json : Json) where
  open json use {Value, is_object, bool_at, array_at, task_from_value, raw_from_str}

  -- The items of a `tasks` object that survive on their own.
  unfoldable pub listed : Value → List TaskUpdate
  listed v = filter_map task_update (filter_map task_from_value (unwrap_or (array_at "items" v) []))

  listed-IsCleanTask : (v : Value) → All IsCleanTask (listed v)
  unfolding listed
  listed-IsCleanTask v =
      All-filter_map task_update IsCleanTask task_update-IsCleanTask
        (filter_map task_from_value (unwrap_or (array_at "items" v) []))

  parse_tasks-IsCleanBatch : (v : Option Value) → IsCleanBatch (parse_tasks json v)
  unfolding parse_tasks listed
  parse_tasks-IsCleanBatch none = tt
  parse_tasks-IsCleanBatch (some v) = elim (Bool-cases (is_object v)) [
    | inl e ↦ rw e (
      All-take IsCleanTask max_tasks (take (suc max_tasks) (listed v))
          (All-take IsCleanTask (suc max_tasks) (listed v) (listed-IsCleanTask v)),
      length-take-le max_tasks (take (suc max_tasks) (listed v)),
    )
    | inr e ↦ rw e tt
  ]

  snapshot-listed :
      (v : Value) (b : TaskBatch)
      → parse_tasks json (some v) ≡ some b
      → b.snapshot ≡ true
      → b.items ≡ listed v
  unfolding parse_tasks listed
  snapshot-listed v b e snap = elim (Bool-cases (is_object v)) [
    | inr o ↦ absurd (ground arith)
    | inl o ↦
        let items≡ : take max_tasks (take (suc max_tasks) (listed v)) ≡ b.items = ground arith in
        let whole : ltb max_tasks (length (take (suc max_tasks) (listed v))) ≡ false =
          ground arith in
        rw (← items≡) (take-untruncated max_tasks (listed v) (ground (arith, whole)))
  ]

  -- A batch that is handed on as a snapshot has not been cut: every item of the payload that reads as
  -- a task, with an id that the sanitizer does not blank, is in it, with its state, its `holds` and
  -- its sanitized id and label.
  pub parse_tasks_snapshot :
      (v : Value) (b : TaskBatch) (xs : List Value) (x : Value) (r : RawTask)
      → parse_tasks json (some v) ≡ some b
      → b.snapshot ≡ true
      → array_at "items" v ≡ some xs
      → Memᴰ x xs
      → task_from_value x ≡ some r
      → str_eq (sanitize r.id max_task_id_chars) "" ≡ false
      → Memᴰ (sanitized_task r) b.items
  parse_tasks_snapshot v b xs x r e snap items at_x reads named = rw (snapshot-listed v b e snap) (
      unfold listed in
      rw items (
        Memᴰ-filter_map task_update r (sanitized_task r) (filter_map task_from_value xs)
          (task_update-named r named) (Memᴰ-filter_map task_from_value x r xs reads at_x)))

  payload_of-IsCleanPayload : (r : Raw Value) → IsCleanPayload (payload_of json r)
  unfolding payload_of
  payload_of-IsCleanPayload r = (
    sanitize_clean r.repo max_repo_chars,
    sanitize_clean r.branch max_branch_chars,
    sanitize_clean r.msg max_msg_chars,
    sanitize_clean r.task max_task_chars,
    sanitize_clean r.source max_source_chars,
    parse_tasks-IsCleanBatch r.tasks,
  )

  -- An accepted payload came in at most 64 KiB of text; each of its texts is clean and within its
  -- cap, and its tasks are few, named and clean.
  pub parse-IsCleanPayload :
      (raw : String) (p : StatusPayload)
      → parse json raw ≡ some p
      → (length (bytes raw) ≤ max_payload_bytes) × IsCleanPayload p
  unfolding parse
  parse-IsCleanPayload raw p e = elim (Bool-cases (ltb max_payload_bytes (length (bytes raw)))) [
    | inl big ↦ absurd (ground arith)
    | inr small ↦ elim (Option-cases (raw_from_str raw)) [
      | inl bad ↦ absurd (ground (arith, bad))
      | inr (r, read) ↦ elim (Bool-cases (str_eq r.pane.kind "terminal")) [
        | inr other ↦ absurd (ground (arith, other))
        | inl terminal ↦
            let p≡ : payload_of json r ≡ p = ground (arith, terminal) in
            rw (← p≡) (ground (arith, small), payload_of-IsCleanPayload r)
      ]
    ]
  ]
