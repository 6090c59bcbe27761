-- ===== src/Core/Task/Revise.antt =====
-- One upsert against one stored task (the arms of `BgTasks::upsert`).
use zj_radar.Prelude.{ℕ, ◌≡◌, refl, ◌≢◌, true, none, is_some, arith}
use zj_radar.Core.Task.{TaskUpdate, BgTask, is_final, is_ended, overwrite, revise, new_task}

-- What a stored task may become: it keeps its id and its start, `holds` is never raised, a
-- reported outcome is final, and a task that is over is replaced by a reported outcome only, with
-- the end that was seen first.
pub record Evolves (a b : BgTask) : Type 0 where
  pub same_id : b.id ≡ a.id
  pub same_start : b.started_epoch_s ≡ a.started_epoch_s
  pub holds_drop : b.holds ≡ true → a.holds ≡ true
  pub final_kept : is_final a.state ≡ true → b ≡ a
  pub over_kept : is_ended a.state ≡ true → is_ended b.state ≡ true
  pub outcome_only : is_ended a.state ≡ true → b.state ≢ a.state → is_final b.state ≡ true
  pub end_kept :
      is_ended a.state ≡ true → a.ended_epoch_s ≢ none → b.ended_epoch_s ≡ a.ended_epoch_s

pub Evolves-refl : (a : BgTask) → Evolves a a
Evolves-refl a = record {
  same_id = refl;
  same_start = refl;
  holds_drop = λ h. h;
  final_kept = λ h. refl;
  over_kept = λ h. h;
  outcome_only = λ h ne. absurd (ne refl);
  end_kept = λ h ne. refl;
}

-- A task's end is stamped exactly when it is over.
abbrev pub IsStamped : BgTask → Type 0
IsStamped t = is_some t.ended_epoch_s ≡ is_ended t.state

pub revise-Evolves : (u : TaskUpdate) (now : ℕ) (t : BgTask) → Evolves t (revise u now t)
unfolding revise overwrite
revise-Evolves u now t = ground arith

pub id-revise : (u : TaskUpdate) (now : ℕ) (t : BgTask) → (revise u now t).id ≡ t.id
unfolding revise overwrite
id-revise u now t = ground arith

pub revise-IsStamped :
    (u : TaskUpdate) (now : ℕ) (t : BgTask) → IsStamped t → IsStamped (revise u now t)
unfolding revise overwrite
revise-IsStamped u now t h = ground arith

pub new_task-IsStamped : (u : TaskUpdate) (now : ℕ) → IsStamped (new_task u now)
unfolding new_task
new_task-IsStamped u now = ground arith
