-- ===== src/Plugin/NotifyRules.antt =====
-- crates/plugin/src/notify_rules.rs: which background transitions notify. A `BTreeMap` is walked in
-- the order of its keys, so `current` is listed in that order.
pub mod News
pub mod Diff
use Prim.Native.Nat.{bit_xor}
use zj_radar.Prelude.{
  ℕ, zero, suc, ◌+◌, ◌*◌, ◌/◌, ◌%◌, ◌^◌, String, Bool, true, false, not, ◌&&◌, ◌||◌, Option, none,
  some, List, [], ◌∷◌, ◌++◌, map, ◌==◌, str_eq, is_some_and, unwrap_or, if◌then◌else◌,
}
use zj_radar.Prelude.PaneMap
use zj_radar.Prelude.PaneMap.{PaneMap}
use zj_radar.Core.Status.{Status, eq_status, as_wire, needs_attention}
use zj_radar.Core.Kind.{Kind, is_remote}
use zj_radar.Core.Text.{append, decimal}
use zj_radar.Core.Sanitize.{bytes, value}
use zj_radar.Core.Observation.{ObservationOrigin, TrackedObservation}

-- The notification fields of the plugin's `Config`.
pub record NotifyConfig : Type 0 where
  pub notify : Bool
  pub notify_done : Bool
  pub notify_error : Bool
  pub notify_pending : Bool
  pub notify_remote : Bool
  pub notify_when_focused : Bool

pub record Notification : Type 0 where
  pub pane_id : ℕ
  pub status : Status
  pub origin : ObservationOrigin
  pub title : String
  pub body : String

abbrev pub fnv_offset : ℕ
fnv_offset = 0x811c9dc5

abbrev pub fnv_prime : ℕ
fnv_prime = 0x01000193

unfoldable pub fnv_step : ℕ → ℕ → ℕ
fnv_step h b = bit_xor h b * fnv_prime % 2 ^ 32

unfoldable pub fnv_loop : ℕ → List ℕ → ℕ
unfolding fnv_step
fnv_loop h [] = h
fnv_loop h (b ∷ bs) = fnv_loop (fnv_step h b) bs

unfoldable pub fnv1a : String → String → ℕ
unfolding fnv_loop
fnv1a title body = fnv_loop fnv_offset (map value (bytes title) ++ 0 ∷ map value (bytes body))

unfoldable pub hex_digit : ℕ → String
hex_digit n =
    if n == 10
    then "a"
    else if n == 11
    then "b"
    else if n == 12
    then "c"
    else if n == 13
    then "d"
    else if n == 14
    then "e"
    else if n == 15
    then "f"
    else decimal n

-- `{:08x}` of a `u32`: the last `k` hexadecimal digits.
unfoldable pub hex : ℕ → ℕ → String
unfolding hex_digit
hex zero n = ""
hex (suc k) n = append (hex k (n / 16)) (hex_digit (n % 16))

unfoldable pub claim_title : Notification → String
claim_title n = elim n.origin [
  | ObservationOrigin.command ↦ ""
  | ObservationOrigin.status_pipe ↦ n.title
]

unfoldable pub claim_key : Notification → String
claim_key n = append "p" (
    append (decimal n.pane_id)
      (append "." (append (as_wire n.status) (append "." (hex 8 (fnv1a (claim_title n) n.body))))))

unfoldable pub phrase : Status → Kind → Option String
phrase Status.done k = if is_remote k then some "disconnected" else some "done"
phrase Status.error k = if is_remote k then some "connection lost" else some "error"
phrase Status.pending k = some "needs input"
phrase Status.running k = none
phrase Status.idle k = none

unfoldable pub enabled : Status → Kind → NotifyConfig → Bool
enabled Status.done k cfg =
    cfg.notify && (if is_remote k then cfg.notify_remote else cfg.notify_done)
enabled Status.error k cfg =
    cfg.notify && (if is_remote k then cfg.notify_remote else cfg.notify_error)
enabled Status.pending k cfg = cfg.notify && cfg.notify_pending
enabled Status.running k cfg = cfg.notify && false
enabled Status.idle k cfg = cfg.notify && false

unfoldable pub build : ℕ → TrackedObservation → Status → Notification
build pane_id o status =
    let words = unwrap_or (phrase status o.kind) "" in
    record {
      pane_id = pane_id;
      status = status;
      origin = o.origin;
      title = if str_eq o.branch "" then o.repo else append o.repo (append " · " o.branch);
      body = if str_eq o.msg "" then words else append words (append " — " o.msg);
    }

abbrev pub is_focused : Option ℕ → ℕ → Bool
is_focused focused pane_id = is_some_and focused (λ f. f == pane_id)

-- The `continue`s of the loop of `diff`: what stays notifies.
unfoldable pub notifies : PaneMap Status → ℕ → TrackedObservation → Option ℕ → NotifyConfig → Bool
notifies prev pane_id o focused cfg =
    let was = unwrap_or (PaneMap.get pane_id prev) Status.idle in
    if o.acknowledged
    then false
    else if not (needs_attention o.status) || eq_status o.status was
    then false
    else if not (enabled o.status o.kind cfg)
    then false
    else if is_focused focused pane_id && not cfg.notify_when_focused
    then false
    else true

unfoldable pub diff :
    PaneMap Status → PaneMap TrackedObservation → Option ℕ → NotifyConfig → List Notification
diff prev [] focused cfg = []
diff prev ((pane_id, o) ∷ current) focused cfg =
    let rest = diff prev current focused cfg in
    if notifies prev pane_id o focused cfg then build pane_id o o.status ∷ rest else rest

unfoldable pub status_map : PaneMap TrackedObservation → PaneMap Status
status_map [] = []
status_map ((id, o) ∷ current) = (id, o.status) ∷ status_map current
