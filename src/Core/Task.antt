-- ===== src/Core/Task.antt =====
-- crates/core/src/task.rs: the background tasks of an agent, and `BgTasks::apply`, the rule that
-- folds one payload into the stored list. `Vec<BgTask>` is a list, oldest first.
pub mod Revise
pub mod Find
pub mod Cap
pub mod Life
pub mod Apply
use zj_radar.Prelude.{
  ℕ, zero, suc, String, Bool, true, false, not, ◌&&◌, ◌||◌, Option, none, some, List, [], ◌∷◌, map,
  ltb, leb, str_eq, length, any, filter, unwrap_or, or_else, is_some_and, if◌then◌else◌,
}
use zj_radar.Core.Status.{Status, eq_status, is_completion}

abbrev pub max_tasks : ℕ
max_tasks = 16

abbrev pub max_task_id_chars : ℕ
max_task_id_chars = 32

abbrev pub max_task_label_chars : ℕ
max_task_label_chars = 64

pub data TaskState : Type 0 where
  running completed failed killed ended : TaskState

unfoldable pub as_wire : TaskState → String
as_wire TaskState.running = "running"
as_wire TaskState.completed = "completed"
as_wire TaskState.failed = "failed"
as_wire TaskState.killed = "killed"
as_wire TaskState.ended = "ended"

unfoldable pub from_wire : String → Option TaskState
from_wire s =
    if str_eq s "running"
    then some TaskState.running
    else if str_eq s "completed"
    then some TaskState.completed
    else if str_eq s "failed"
    then some TaskState.failed
    else if str_eq s "killed"
    then some TaskState.killed
    else if str_eq s "ended"
    then some TaskState.ended
    else none

abbrev pub is_running : TaskState → Bool
is_running TaskState.running = true
is_running _ = false

-- Every state but `Running` is over.
abbrev pub is_ended : TaskState → Bool
is_ended TaskState.running = false
is_ended _ = true

abbrev pub is_final : TaskState → Bool
is_final TaskState.completed = true
is_final TaskState.failed = true
is_final TaskState.killed = true
is_final _ = false

pub record TaskUpdate : Type 0 where
  pub id : String
  pub state : TaskState
  pub label : String
  pub holds : Bool

pub record TaskBatch : Type 0 where
  pub items : List TaskUpdate
  pub snapshot : Bool

abbrev pub update_holding : TaskUpdate → Bool
update_holding u = is_running u.state && u.holds

unfoldable pub has_holding : TaskBatch → Bool
has_holding b = any update_holding b.items

pub record BgTask : Type 0 where
  pub id : String
  pub label : String
  pub holds : Bool
  pub state : TaskState
  pub started_epoch_s : ℕ
  pub ended_epoch_s : Option ℕ

pub record BgTasks : Type 0 where
  pub items : List BgTask
  pub waiting : Bool

abbrev pub no_tasks : BgTasks
no_tasks = record { items = []; waiting = false }

unfoldable pub is_empty : BgTasks → Bool
is_empty ts = elim ts.items [ [] ↦ true | _ ∷ _ ↦ false ]

abbrev pub task_holding : BgTask → Bool
task_holding t = is_running t.state && t.holds

unfoldable pub any_holding : List BgTask → Bool
any_holding items = any task_holding items

-- `update.state.is_ended().then_some(now)`
abbrev pub end_stamp : TaskState → ℕ → Option ℕ
end_stamp s now = if is_ended s then some now else none

-- The arm of `upsert` for a stored task that the update may still change.
unfoldable pub overwrite : TaskUpdate → ℕ → BgTask → BgTask
overwrite u now t = record t {
  label = if str_eq u.label "" then t.label else u.label;
  holds = if is_running u.state then t.holds && u.holds else t.holds;
  ended_epoch_s =
      if is_ended t.state
      then or_else t.ended_epoch_s (end_stamp u.state now)
      else end_stamp u.state now;
  state = u.state;
}

-- The arms of `upsert` for a stored task of the update's id.
unfoldable pub revise : TaskUpdate → ℕ → BgTask → BgTask
revise u now t =
    if is_final t.state
    then t
    else if is_ended t.state && not (is_final u.state)
    then t
    else overwrite u now t

unfoldable pub new_task : TaskUpdate → ℕ → BgTask
new_task u now = record {
  id = u.id;
  label = u.label;
  holds = u.holds;
  state = u.state;
  started_epoch_s = now;
  ended_epoch_s = end_stamp u.state now;
}

unfoldable pub upsert : TaskUpdate → ℕ → List BgTask → List BgTask
upsert u now [] = new_task u now ∷ []
upsert u now (t ∷ ts) = if str_eq t.id u.id then revise u now t ∷ ts else t ∷ upsert u now ts

-- `for update in &batch.items { self.upsert(update, now) }`
unfoldable pub upsert_all : List TaskUpdate → ℕ → List BgTask → List BgTask
upsert_all [] now ts = ts
upsert_all (u ∷ us) now ts = upsert_all us now (upsert u now ts)

-- The batch lists the id as running.
unfoldable pub lists_running : List TaskUpdate → String → Bool
lists_running us id = any (λ u. str_eq u.id id && is_running u.state) us

unfoldable pub end_if_omitted : List TaskUpdate → ℕ → BgTask → BgTask
end_if_omitted us now t =
    if is_running t.state && not (lists_running us t.id)
    then record t { state = TaskState.ended; ended_epoch_s = some now }
    else t

-- The loop of `apply` over a snapshot's omitted tasks.
abbrev pub end_omitted : List TaskUpdate → ℕ → List BgTask → List BgTask
end_omitted us now = map (end_if_omitted us now)

-- The key of `min_by_key`: ended tasks first, the earliest time first.
unfoldable pub key_time : BgTask → ℕ
key_time t = unwrap_or t.ended_epoch_s t.started_epoch_s

unfoldable pub key_lt : BgTask → BgTask → Bool
unfolding key_time
key_lt a b =
    if is_ended a.state
    then (if is_ended b.state then ltb (key_time a) (key_time b) else true)
    else if is_ended b.state
    then false
    else ltb (key_time a) (key_time b)

-- The index of the first least task, from a scan that has reached index `i`.
unfoldable pub victim_from : ℕ → ℕ → BgTask → List BgTask → ℕ
victim_from i best least [] = best
victim_from i best least (t ∷ ts) =
    let less = key_lt t least in
    victim_from (suc i) (if less then i else best) (if less then t else least) ts

unfoldable pub victim : List BgTask → Option ℕ
victim [] = none
victim (t ∷ ts) = some (victim_from 1 0 t ts)

-- `Vec::remove`
unfoldable pub remove_at {ℓ} : {A : Type ℓ} → ℕ → List A → List A
remove_at i [] = []
remove_at zero (x ∷ xs) = xs
remove_at (suc i) (x ∷ xs) = x ∷ remove_at i xs

-- The loop of `cap`, on fuel.
unfoldable pub cap_loop : ℕ → List BgTask → List BgTask
cap_loop zero ts = ts
cap_loop (suc fuel) ts =
    if leb (length ts) max_tasks
    then ts
    else elim (victim ts) [ none ↦ ts | some i ↦ cap_loop fuel (remove_at i ts) ]

-- Each round removes a task, so as many rounds as there are tasks are enough.
unfoldable pub cap : List BgTask → List BgTask
cap ts = cap_loop (length ts) ts

-- The `match batch` of `apply`.
unfoldable pub merge :
    Option TaskBatch → Option Status → Status → Bool → ℕ → List BgTask → List BgTask
merge none prev next prompted now ts =
    if eq_status next Status.running && (prompted || is_some_and prev is_completion)
    then filter (λ t. not (is_ended t.state)) ts
    else ts
merge (some b) prev next prompted now ts =
    let merged = upsert_all b.items now ts in
    if b.snapshot then end_omitted b.items now merged else merged

unfoldable pub apply : Option TaskBatch → Option Status → Status → Bool → ℕ → BgTasks → BgTasks
apply batch prev next prompted now ts =
    if eq_status next Status.idle
    then no_tasks
    else let items = cap (merge batch prev next prompted now ts.items) in
      record {
        items = items;
        waiting =
            eq_status next Status.running
            && is_some_and batch (λ b. b.snapshot && has_holding b)
            && any_holding items;
      }
