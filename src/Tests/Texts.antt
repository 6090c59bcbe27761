-- ===== src/Tests/Texts.antt =====
-- Texts, tokens, payloads and permissions at concrete inputs.
use mathlib.Core.List.{Memᴰ}
use zj_radar.Prelude.{
  ℕ, zero, suc, ◌≤◌, ◌≡◌, refl, arith, String, true, false, none, some, List, [], ◌∷◌, ◌++◌, length,
  All, str_eq, if◌then◌else◌,
}
use zj_radar.Core.Status.{Status}
use zj_radar.Core.Sanitize.{Byte, all_chars, take_chars, kept, bytes, scrub, sanitize}
use zj_radar.Core.Sanitize.Laws.{sanitize-eq-scrub}
use zj_radar.Core.Sanitize.Walk.{EndsWithin, scrub_loop-ends}
use zj_radar.Core.Task.{TaskState, TaskUpdate}
use zj_radar.Core.Payload.{
  RawTask, Raw, Json, max_payload_bytes, task_update, parse_tasks, payload_of, parse,
}
use zj_radar.Core.Payload.Intake.{
  IsCleanPayload, sanitized_task, parse-IsCleanPayload, parse_tasks_snapshot,
}
use zj_radar.Plugin.Permission.{
  PermissionProbe, PermissionPolicy, PermissionMarker, PermissionState, on_load, is_granted,
}
use zj_radar.Plugin.Permission.Patience.{IsSilent, ticks, deferring_patience, never_self_granted}

-- A colored text with a newline.
abbrev red : String
red = "\u{1b}[31mred\u{1b}[0m\nrow"

sanitize-eq-scrub_example : sanitize red 5 ≡ scrub red 5
sanitize-eq-scrub_example = sanitize-eq-scrub red 5

abbrev escape_bytes : List Byte
escape_bytes = bytes "a\u{1b}b"

scrub_loop-ends_example : EndsWithin (length escape_bytes) 40 escape_bytes
unfolding bytes
scrub_loop-ends_example = scrub_loop-ends 40 escape_bytes (omega arith)

-- A serde_json whose one value is an object with one task, and which reads one payload.
abbrev one_task : RawTask
one_task = record { id = "t1"; state = TaskState.running; label = "build"; holds = true }

abbrev raw_payload : Raw Unit
raw_payload = record {
  pane = record { kind = "terminal"; id = 7 };
  status = Status.running;
  repo = "radar";
  branch = "main";
  msg = "work";
  task = "";
  source = "claude";
  ack = false;
  tasks = some tt;
}

abbrev fixed_json : Json
fixed_json = record {
  Value = Unit;
  is_object = λ _. true;
  bool_at = λ _ _. some true;
  array_at = λ _ _. some (tt ∷ []);
  task_from_value = λ _. some one_task;
  raw_from_str = λ s. if str_eq s "{}" then some raw_payload else none;
}

parse-IsCleanPayload_example :
    (length (bytes "{}") ≤ max_payload_bytes) × IsCleanPayload (payload_of fixed_json raw_payload)
unfolding parse bytes
parse-IsCleanPayload_example =
    parse-IsCleanPayload fixed_json "{}" (payload_of fixed_json raw_payload) refl

abbrev one_update : TaskUpdate
one_update = record { id = "t1"; state = TaskState.running; label = "build"; holds = true }

parse_tasks_snapshot_example : Memᴰ (sanitized_task one_task) (one_update ∷ [])
unfolding parse_tasks task_update sanitize all_chars kept take_chars
parse_tasks_snapshot_example =
    parse_tasks_snapshot fixed_json tt (record { items = one_update ∷ []; snapshot = true })
      (tt ∷ []) tt one_task refl refl refl (Memᴰ.head refl) refl refl

abbrev free_lock : PermissionProbe
free_lock = record { marker = none; lock_acquired = true }

abbrev granted_marker : PermissionProbe
granted_marker = record { marker = some PermissionMarker.granted; lock_acquired = false }

-- `n` ticks that find the lock taken and no marker.
quiet_ticks : ℕ → List PermissionProbe
quiet_ticks zero = []
quiet_ticks (suc n) = record { marker = none; lock_acquired = false } ∷ quiet_ticks n

quiet_ticks-IsSilent : (n : ℕ) → All IsSilent (quiet_ticks n)
unfolding quiet_ticks
quiet_ticks-IsSilent zero = tt
quiet_ticks-IsSilent (suc n) = (refl, quiet_ticks-IsSilent n)

two_free-IsSilent : All IsSilent (free_lock ∷ free_lock ∷ [])
two_free-IsSilent = (refl, (refl, tt))

deferring_patience_example :
    (ticks PermissionPolicy.deferring
        (free_lock ∷ free_lock ∷ [])
        (on_load PermissionState.unprompted free_lock PermissionPolicy.deferring).1
      ≡ PermissionState.waiting_for_peer (length (free_lock ∷ free_lock ∷ [])))
    × (ticks PermissionPolicy.deferring
          (quiet_ticks 124 ++ free_lock ∷ [])
          (on_load PermissionState.unprompted free_lock PermissionPolicy.deferring).1
        ≡ PermissionState.requesting)
unfolding quiet_ticks
deferring_patience_example =
    deferring_patience free_lock (free_lock ∷ free_lock ∷ []) (quiet_ticks 124) free_lock refl
      two_free-IsSilent (omega arith) (quiet_ticks-IsSilent 124) (omega arith) refl refl

never_self_granted_example :
    is_granted (
      ticks PermissionPolicy.lock_coordinated
        (granted_marker ∷ free_lock ∷ [])
        (on_load PermissionState.unprompted free_lock PermissionPolicy.deferring).1)
    ≡ false
never_self_granted_example =
    never_self_granted PermissionPolicy.deferring PermissionPolicy.lock_coordinated free_lock
      (granted_marker ∷ free_lock ∷ [])
