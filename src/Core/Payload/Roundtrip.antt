-- ===== src/Core/Payload/Roundtrip.antt =====
-- crates/core/src/payload.rs: `parse` reads back what `to_wire` prints.
use zj_radar.Prelude.{
  ℕ, suc, ◌≤◌, ◌≡◌, ◌∙◌, refl, ap, arith, String, Bool, true, false, not, ◌&&◌, Option, none, some,
  List, [], ◌∷◌, map, ltb, length, take, take-eq_self, unwrap_or, All,
}
use zj_radar.Core.Task.{TaskUpdate, TaskBatch, max_tasks, max_task_id_chars, max_task_label_chars}
use zj_radar.Core.Sanitize.{bytes, sanitize}
use zj_radar.Core.Sanitize.Walk.{take_chars-eq_self}
use zj_radar.Core.Sanitize.Laws.{sanitize-eq_self}
use zj_radar.Core.Observation.{
  max_msg_chars, max_task_chars, max_repo_chars, max_branch_chars, max_source_chars,
}
use zj_radar.Core.Payload.{
  StatusPayload, RawTask, Raw, Json, max_payload_bytes, filter_map, task_update, parse_tasks,
  payload_of, parse,
}
use zj_radar.Core.Payload.Intake.{IsClean, IsCleanTask, IsCleanBatch, IsCleanPayload}
use zj_radar.Core.Payload.Printer.{
  Wire, WireTasks, max_wire_field_chars, cap_chars, wire_task, wire_tasks, wire_of, to_wire,
}

-- A clean text within a cap is left alone by the printer's cap and by the sanitizer.
text_back : (n m : ℕ) (s : String) → n ≤ m → IsClean n s → sanitize (cap_chars s m) n ≡ s
unfolding cap_chars
text_back n m s h clean =
    ap (λ (t : String). sanitize t n) (take_chars-eq_self m s (omega (arith, h, clean.1)))
    ∙ sanitize-eq_self s n clean.0 clean.1

unfoldable pub raw_task : TaskUpdate → RawTask
raw_task t = record { id = t.id; state = t.state; label = t.label; holds = t.holds }

task_back : (t : TaskUpdate) → IsCleanTask t → task_update (raw_task (wire_task t)) ≡ some t
unfolding task_update wire_task raw_task
task_back t clean =
    let id_back = text_back max_task_id_chars max_task_id_chars t.id (omega arith) clean.1 in
    let label_back =
      text_back max_task_label_chars max_task_label_chars t.label (omega arith) clean.2 in
    rw (id_back, label_back, clean.0) refl

tasks_back :
    (ts : List TaskUpdate)
    → All IsCleanTask ts
    → filter_map task_update (map raw_task (map wire_task ts)) ≡ ts
tasks_back [] clean = refl
tasks_back (t ∷ ts) clean =
    ap
      (λ (o : Option TaskUpdate). elim o [
        | none ↦ filter_map task_update (map raw_task (map wire_task ts))
        | some u ↦ u ∷ filter_map task_update (map raw_task (map wire_task ts))
      ])
      (task_back t clean.0)
    ∙ ap (◌∷◌ t) (tasks_back ts clean.1)

-- The cap of the snapshot flag, and the cap of the list, leave a short batch alone.
listed_back :
    (b : TaskBatch) (xs : List TaskUpdate)
    → xs ≡ b.items
    → length b.items ≤ max_tasks
    → some (record {
      items = take max_tasks (take (suc max_tasks) xs);
      snapshot =
          (b.snapshot && not (ltb max_tasks (length b.items)))
          && not (ltb max_tasks (length (take (suc max_tasks) xs)));
    })
      ≡ some b
listed_back b xs e short =
    let whole : take (suc max_tasks) xs ≡ b.items =
      ap (take (suc max_tasks)) e ∙ take-eq_self (suc max_tasks) b.items (omega (arith, short)) in
    let few : ltb max_tasks (length b.items) ≡ false = ground (arith, short) in
    rw (whole, few, take-eq_self max_tasks b.items short) (kept_flag b)
  where
    kept_flag :
        (c : TaskBatch)
        → some (record { items = c.items; snapshot = (c.snapshot && true) && true }) ≡ some c
    kept_flag c = ap (λ (f : Bool). some (record c { snapshot = f })) (both_true c.snapshot)
      where
        both_true : (f : Bool) → ((f && true) && true) ≡ f
        both_true true = refl
        both_true false = refl

module _ (json : Json) where
  open json use {Value, is_object, bool_at, array_at, task_from_value, raw_from_str}

  -- serde reads the `tasks` of a wire record as an object with these fields.
  abbrev pub Reads : Option WireTasks → Option Value → Type 0
  Reads none none = Unit
  Reads none (some v) = ⊥
  Reads (some w) none = ⊥
  Reads (some w) (some v) =
      (is_object v ≡ true)
      × (bool_at "snapshot" v ≡ some w.snapshot)
      × (filter_map task_from_value (unwrap_or (array_at "items" v) []) ≡ map raw_task w.items)

  batch_back :
      (b : Option TaskBatch) (v : Option Value)
      → IsCleanBatch b
      → Reads (wire_tasks b) v
      → parse_tasks json v ≡ b
  unfolding wire_tasks parse_tasks
  batch_back none none clean reads = refl
  batch_back none (some v) clean reads = absurd reads
  batch_back (some b) none clean reads = absurd reads
  batch_back (some b) (some v) clean reads =
      let named =
        reads.2
        ∙ ap (λ (ts : List TaskUpdate). map raw_task (map wire_task ts))
            (take-eq_self max_tasks b.items clean.1) in
      let back = ap (filter_map task_update) named ∙ tasks_back b.items clean.0 in
      let xs =
        filter_map task_update (filter_map task_from_value (unwrap_or (array_at "items" v) [])) in
      rw (reads.0, reads.1) (listed_back b xs back clean.1)

  -- The struct that serde fills from a wire record, but for its tasks.
  unfoldable pub raw_of : Wire → Option Value → Raw Value
  raw_of w tasks = record {
    pane = record { kind = w.pane_kind; id = w.pane_id };
    status = w.status;
    repo = w.repo;
    branch = w.branch;
    msg = w.msg;
    task = w.task;
    source = w.source;
    ack = w.ack;
    tasks = tasks;
  }

  payload_back :
      (p : StatusPayload) (v : Option Value)
      → IsCleanPayload p
      → Reads (wire_tasks p.tasks) v
      → payload_of json (raw_of (wire_of p) v) ≡ p
  unfolding payload_of raw_of wire_of
  payload_back p v clean reads = cc (
    text_back max_repo_chars max_wire_field_chars p.repo (omega arith) clean.0,
    text_back max_branch_chars max_wire_field_chars p.branch (omega arith) clean.1,
    text_back max_msg_chars max_wire_field_chars p.msg (omega arith) clean.2,
    text_back max_task_chars max_wire_field_chars p.task (omega arith) clean.3,
    text_back max_source_chars max_wire_field_chars p.source (omega arith) clean.4,
    batch_back p.tasks v clean.5 reads,
  )

  -- A clean payload, such as `parse` lets through, comes back as it was from the text that it is
  -- printed as, where serde reads its own text back and the text is within the limit of 64 KiB.
  pub parse-to_wire :
      (to_string : Wire → String) (p : StatusPayload) (v : Option Value)
      → IsCleanPayload p
      → length (bytes (to_wire to_string p)) ≤ max_payload_bytes
      → raw_from_str (to_wire to_string p) ≡ some (raw_of (wire_of p) v)
      → Reads (wire_of p).tasks v
      → parse json (to_wire to_string p) ≡ some p
  unfolding parse raw_of wire_of
  parse-to_wire to_string p v clean short back reads =
      let fits : ltb max_payload_bytes (length (bytes (to_wire to_string p))) ≡ false =
        ground (arith, short) in
      rw (parse, fits, back) (ap (λ (q : StatusPayload). some q) (payload_back p v clean reads))
