-- ===== src/Core/Status/Wire.antt =====
-- The wire vocabulary of crates/core/src/status.rs, strict and lenient.
use zj_radar.Prelude.{String, ◌≡◌, ◌↔◌, refl, true, some, arith, eq_iff, unwrap_or}
use zj_radar.Core.Status.{Status, from_wire, try_from_wire, as_wire, eq_status}

pub eq_status_iff : (a b : Status) → (eq_status a b ≡ true) ↔ (a ≡ b)
unfolding eq_status
eq_status_iff a b = ground arith

pub eq_status_refl : (a : Status) → eq_status a a ≡ true
eq_status_refl a = (eq_status_iff a a).1 refl

try_from_wire-as_wire : (s : Status) → try_from_wire (as_wire s) ≡ some s
unfolding try_from_wire as_wire
try_from_wire-as_wire Status.idle = refl
try_from_wire-as_wire Status.done = refl
try_from_wire-as_wire Status.running = refl
try_from_wire-as_wire Status.pending = refl
try_from_wire-as_wire Status.error = refl

as_wire-of_try : (w : String) (s : Status) → try_from_wire w ≡ some s → w ≡ as_wire s
unfolding try_from_wire as_wire
as_wire-of_try w s h = ground (
  arith,
  eq_iff w "idle",
  eq_iff w "done",
  eq_iff w "running",
  eq_iff w "pending",
  eq_iff w "error",
)

-- The tokens that the strict reader accepts are exactly the table's, each as its own variant.
pub try_from_wire_iff : (w : String) (s : Status) → (try_from_wire w ≡ some s) ↔ (w ≡ as_wire s)
try_from_wire_iff w s = (as_wire-of_try w s, λ e. rw e (try_from_wire-as_wire s))

-- The lenient reader agrees with the strict one on the vocabulary and says `Idle` for all else.
pub from_wire_lem : (w : String) → from_wire w ≡ unwrap_or (try_from_wire w) Status.idle
unfolding from_wire try_from_wire
from_wire_lem w = ground arith
