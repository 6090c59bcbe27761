-- ===== src/Plugin/Permission.antt =====
-- crates/plugin/src/permission.rs: the first-run permission handshake. A method that takes
-- `&mut self` returns the transition and the new state.
pub mod Patience
use zj_radar.Prelude.{
  ℕ, ◌+◌, ◌-◌, ◌^◌, Bool, true, false, Option, none, some, leb, ltb, if◌then◌else◌,
}

pub data PermissionMarker : Type 0 where
  granted denied : PermissionMarker

pub record PermissionProbe : Type 0 where
  pub marker : Option PermissionMarker
  pub lock_acquired : Bool

pub data PermissionPolicy : Type 0 where
  onboarding_pane deferring lock_coordinated : PermissionPolicy

pub data PermissionDecision : Type 0 where
  request deny : PermissionDecision

abbrev pub defer_patience_ticks : ℕ
defer_patience_ticks = 120

pub data PermissionState : Type 0 where
  unprompted : PermissionState
  waiting_for_peer : ℕ → PermissionState
  requesting : PermissionState
  resolved : Bool → PermissionState

pub data Transition : Type 0 where
  requested : Transition
  resolved : Bool → Transition
  still_waiting no_change : Transition

abbrev pub u32_max : ℕ
u32_max = 2 ^ 32 - 1

-- `ticks.saturating_add(1)` on a `u32`.
unfoldable pub saturating_suc : ℕ → ℕ
saturating_suc n = if ltb n u32_max then n + 1 else u32_max

abbrev pub by_marker :
    Option PermissionMarker → Option PermissionDecision → Option PermissionDecision
by_marker (some PermissionMarker.granted) d = some PermissionDecision.request
by_marker (some PermissionMarker.denied) d = some PermissionDecision.deny
by_marker none d = d

unfoldable pub decide : PermissionProbe → PermissionPolicy → Option PermissionDecision
decide probe PermissionPolicy.onboarding_pane = some PermissionDecision.request
decide probe PermissionPolicy.deferring = by_marker probe.marker none
decide probe PermissionPolicy.lock_coordinated =
    by_marker probe.marker (if probe.lock_acquired then some PermissionDecision.request else none)

unfoldable pub enter : PermissionDecision → Transition × PermissionState
enter PermissionDecision.request = (Transition.requested, PermissionState.requesting)
enter PermissionDecision.deny = (Transition.resolved false, PermissionState.resolved false)

unfoldable pub on_load :
    PermissionState → PermissionProbe → PermissionPolicy → Transition × PermissionState
unfolding decide enter
on_load s probe policy = elim (decide probe policy) [
  | some decision ↦ enter decision
  | none ↦ (Transition.still_waiting, PermissionState.waiting_for_peer 0)
]

-- A deferring waiter that has lost patience decides as a lock-coordinated one.
unfoldable pub effective : PermissionPolicy → ℕ → PermissionPolicy
effective PermissionPolicy.deferring ticks =
    if leb defer_patience_ticks ticks
    then PermissionPolicy.lock_coordinated
    else PermissionPolicy.deferring
effective other ticks = other

unfoldable pub on_timer :
    PermissionState → PermissionProbe → PermissionPolicy → Transition × PermissionState
unfolding decide enter effective saturating_suc
on_timer (PermissionState.waiting_for_peer ticks) probe policy =
    let next = saturating_suc ticks in
    elim (decide probe (effective policy next)) [
      | some decision ↦ enter decision
      | none ↦ (Transition.no_change, PermissionState.waiting_for_peer next)
    ]
on_timer s probe policy = (Transition.no_change, s)

unfoldable pub on_result : PermissionState → Bool → PermissionState
on_result s answer = PermissionState.resolved answer

unfoldable pub is_granted : PermissionState → Bool
is_granted (PermissionState.resolved b) = b
is_granted _ = false

unfoldable pub is_denied : PermissionState → Bool
is_denied (PermissionState.resolved true) = false
is_denied (PermissionState.resolved false) = true
is_denied _ = false

unfoldable pub is_requesting : PermissionState → Bool
is_requesting PermissionState.requesting = true
is_requesting _ = false

unfoldable pub is_waiting : PermissionState → Bool
is_waiting (PermissionState.waiting_for_peer n) = true
is_waiting _ = false
