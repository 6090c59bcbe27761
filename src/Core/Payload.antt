-- ===== src/Core/Payload.antt =====
-- crates/core/src/payload.rs: the status payload, and `parse` behind serde_json. What serde does
-- with the text is a parameter, `Json`; `Raw` and `RawTask` are the structs that it fills.
pub mod Intake
pub mod Printer
pub mod Roundtrip
use zj_radar.Prelude.{
  ℕ, suc, String, Bool, false, not, ◌&&◌, Option, none, some, List, [], ◌∷◌, ltb, str_eq, length,
  take, unwrap_or, and_then, if◌then◌else◌,
}
use zj_radar.Core.Status.{Status}
use zj_radar.Core.Task.{
  TaskState, TaskUpdate, TaskBatch, max_tasks, max_task_id_chars, max_task_label_chars,
}
use zj_radar.Core.Sanitize.{bytes, sanitize}
use zj_radar.Core.Observation.{
  max_msg_chars, max_task_chars, max_repo_chars, max_branch_chars, max_source_chars,
}

abbrev pub max_payload_bytes : ℕ
max_payload_bytes = 65536

pub record StatusPayload : Type 0 where
  pub pane_id : ℕ
  pub status : Status
  pub repo : String
  pub branch : String
  pub msg : String
  pub task : String
  pub source : String
  pub ack : Bool
  pub tasks : Option TaskBatch

pub record RawPane : Type 0 where
  pub kind : String
  pub id : ℕ

pub record RawTask : Type 0 where
  pub id : String
  pub state : TaskState
  pub label : String
  pub holds : Bool

pub record Raw (Value : Type 0) : Type 0 where
  pub pane : RawPane
  pub status : Status
  pub repo : String
  pub branch : String
  pub msg : String
  pub task : String
  pub source : String
  pub ack : Bool
  pub tasks : Option Value

-- serde_json: a value is an object or not, and an object has fields that may be a bool or an array.
pub record Json : Type 1 where
  pub Value : Type 0
  pub is_object : Value → Bool
  pub bool_at : String → Value → Option Bool
  pub array_at : String → Value → Option (List Value)
  pub task_from_value : Value → Option RawTask
  pub raw_from_str : String → Option (Raw Value)

abbrev pub filter_map {ℓ κ} : {A : Type ℓ} {B : Type κ} → (A → Option B) → List A → List B
filter_map f [] = []
filter_map f (x ∷ xs) = elim (f x) [ none ↦ filter_map f xs | some y ↦ y ∷ filter_map f xs ]

-- The second `filter_map` of `parse_tasks`.
unfoldable pub task_update : RawTask → Option TaskUpdate
task_update t =
    let id = sanitize t.id max_task_id_chars in
    if str_eq id ""
    then none
    else some (record {
      id = id;
      state = t.state;
      label = sanitize t.label max_task_label_chars;
      holds = t.holds;
    })

module _ (json : Json) where
  open json use {Value, is_object, bool_at, array_at, task_from_value, raw_from_str}

  unfoldable pub parse_tasks : Option Value → Option TaskBatch
  unfolding task_update
  parse_tasks none = none
  parse_tasks (some v) =
      if not (is_object v)
      then none
      else let snapshot = unwrap_or (bool_at "snapshot" v) false in
        let raw = unwrap_or (array_at "items" v) [] in
        let items =
          take (suc max_tasks) (filter_map task_update (filter_map task_from_value raw)) in
        let truncated = ltb max_tasks (length items) in
        some (record { items = take max_tasks items; snapshot = snapshot && not truncated })

  unfoldable pub payload_of : Raw Value → StatusPayload
  payload_of r = record {
    pane_id = r.pane.id;
    status = r.status;
    repo = sanitize r.repo max_repo_chars;
    branch = sanitize r.branch max_branch_chars;
    msg = sanitize r.msg max_msg_chars;
    task = sanitize r.task max_task_chars;
    source = sanitize r.source max_source_chars;
    ack = r.ack;
    tasks = parse_tasks r.tasks;
  }

  unfoldable pub parse : String → Option StatusPayload
  parse raw =
      if ltb max_payload_bytes (length (bytes raw))
      then none
      else and_then (raw_from_str raw)
          (λ r. if not (str_eq r.pane.kind "terminal") then none else some (payload_of r))
