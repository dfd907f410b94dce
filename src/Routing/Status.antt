-- ===== src/Routing/Status.antt =====
-- What the routing snapshot of src-tauri/src/application/proxy_routing.rs says of the runtime: the apply
-- state, the selectors, and the outcome of a manual selection.
pub mod Truthful
pub mod Settled
use veyra.Base.{
  ℕ, List, [], ◌∷◌, Option, none, some, Bool, true, false, ◌&&◌, ◌||◌, not, if◌then◌else◌, any,
  is_some_and, nat_beq, ◌==◌, option_beq,
}
use veyra.Base.Text.{Text, text_eq}
use veyra.Domain.Types.{AppState, NodePool, SelectionPolicy, NodeId, PoolId}
use veyra.Routing.Types.{MutationOutcome, SelectorSavedOnlyReason, SelectorApplyUnknownReason}

pub data RuntimeState : Type 0 where
  stopped ready transitioning recovery_required : RuntimeState

pub data ApplyFailure : Type 0 where
  configuration_failed state_changed stop_failed start_failed recovery_required : ApplyFailure

pub data ApplyState : Type 0 where
  applied saved_pending_apply : ApplyState
  -- operation_id
  applying : Text → ApplyState
  saved_apply_failed : Text → ApplyFailure → ApplyState
  apply_unknown : Text → ApplyState

pub data SubscriptionSwitchStatus : Type 0 where
  queued checking prepared persisted applying ready cancelled failed : SubscriptionSwitchStatus

pub data SubscriptionSwitchErrorCode : Type 0 where
  cancelled busy state_unavailable configuration_failed save_failed stop_failed start_failed
        recovery_required operation_timed_out :
      SubscriptionSwitchErrorCode

pub record SubscriptionSwitch : Type 0 where
  pub operation_id : Text
  pub status : SubscriptionSwitchStatus
  pub error_code : Option SubscriptionSwitchErrorCode

-- The fields of `RuntimeObservationSnapshot` that the apply state depends on.
pub record RuntimeObservation : Type 0 where
  pub applied_configuration_generation : Option ℕ
  pub subscription_switch : Option SubscriptionSwitch

pub data RoutingApplyTerminalFailure : Type 0 where
  configuration_failed state_changed : RoutingApplyTerminalFailure

pub record RoutingApplyTerminal : Type 0 where
  pub operation_id : Text
  pub active_subscription_id : Option Text
  pub desired_generation : ℕ
  pub failure : RoutingApplyTerminalFailure

abbrev pub terminal_failure : RoutingApplyTerminalFailure → ApplyFailure
terminal_failure RoutingApplyTerminalFailure.configuration_failed =
    ApplyFailure.configuration_failed
terminal_failure RoutingApplyTerminalFailure.state_changed = ApplyFailure.state_changed

unfoldable pub terminal_is_current : AppState → RoutingApplyTerminal → Bool
terminal_is_current state terminal =
    option_beq terminal.active_subscription_id state.active_subscription_id
    && nat_beq terminal.desired_generation state.active_configuration_generation

-- The two answers that a terminal failure gives; `none` where it says nothing.
unfoldable pub from_terminal :
    RuntimeObservation
    → RuntimeState
    → AppState
    → Option RoutingApplyTerminal
    → Option (RuntimeState × ApplyState)
from_terminal observation observed state none = none
from_terminal observation observed state (some terminal) =
    if terminal_is_current state terminal
    then some (
      observed,
      ApplyState.saved_apply_failed terminal.operation_id (terminal_failure terminal.failure),
    )
    else if is_some_and observation.subscription_switch
        (λ operation. operation.operation_id == terminal.operation_id)
    then some (observed, ApplyState.saved_pending_apply)
    else none

-- A failed switch, by its error code.
unfoldable pub from_failure :
    RuntimeState → Text → Option SubscriptionSwitchErrorCode → RuntimeState × ApplyState
from_failure observed id (some SubscriptionSwitchErrorCode.configuration_failed) =
    (observed, ApplyState.saved_apply_failed id ApplyFailure.configuration_failed)
from_failure observed id (some SubscriptionSwitchErrorCode.save_failed) =
    (observed, ApplyState.saved_apply_failed id ApplyFailure.configuration_failed)
from_failure observed id (some SubscriptionSwitchErrorCode.stop_failed) =
    (RuntimeState.recovery_required, ApplyState.saved_apply_failed id ApplyFailure.stop_failed)
from_failure observed id (some SubscriptionSwitchErrorCode.start_failed) =
    (RuntimeState.stopped, ApplyState.saved_apply_failed id ApplyFailure.start_failed)
from_failure observed id (some SubscriptionSwitchErrorCode.recovery_required) = (
  RuntimeState.recovery_required,
  ApplyState.saved_apply_failed id ApplyFailure.recovery_required,
)
from_failure observed id (some SubscriptionSwitchErrorCode.operation_timed_out) =
    (RuntimeState.transitioning, ApplyState.apply_unknown id)
from_failure observed id (some _) =
    (observed, ApplyState.saved_apply_failed id ApplyFailure.state_changed)
from_failure observed id none =
    (observed, ApplyState.saved_apply_failed id ApplyFailure.state_changed)

-- What the status of a switch says of an attempt that is current; `none` for `Ready`.
unfoldable pub from_status :
    RuntimeState
    → SubscriptionSwitch
    → SubscriptionSwitchStatus
    → Option (RuntimeState × ApplyState)
unfolding from_failure
from_status observed operation SubscriptionSwitchStatus.ready = none
from_status observed operation SubscriptionSwitchStatus.cancelled =
    some (observed, ApplyState.saved_apply_failed operation.operation_id ApplyFailure.state_changed)
from_status observed operation SubscriptionSwitchStatus.failed =
    some (from_failure observed operation.operation_id operation.error_code)
from_status observed operation _ =
    some (RuntimeState.transitioning, ApplyState.applying operation.operation_id)

unfoldable pub unless_stale :
    Bool → RuntimeState → Option (RuntimeState × ApplyState) → Option (RuntimeState × ApplyState)
unless_stale attempt_is_current observed none = none
unless_stale attempt_is_current observed (some answer) =
    some (if attempt_is_current then answer else (observed, ApplyState.saved_pending_apply))

unfoldable pub from_switch :
    RuntimeState → Bool → Option SubscriptionSwitch → Option (RuntimeState × ApplyState)
unfolding from_status unless_stale
from_switch observed attempt_is_current none = none
from_switch observed attempt_is_current (some operation) =
    unless_stale attempt_is_current observed (from_status observed operation operation.status)

abbrev pub is_ready : RuntimeState → Bool
is_ready RuntimeState.ready = true
is_ready _ = false

abbrev pub or_else : {A : Type 0} → Option A → A → A
or_else none a = a
or_else (some b) a = b

unfoldable pub from_observation :
    RuntimeObservation → RuntimeState → AppState → Option Text → RuntimeState × ApplyState
from_observation observation observed state applied_subscription_id =
    if is_ready observed
      && is_some_and observation.applied_configuration_generation
          (λ v. nat_beq v state.active_configuration_generation)
      && option_beq applied_subscription_id state.active_subscription_id
    then (RuntimeState.ready, ApplyState.applied)
    else (observed, ApplyState.saved_pending_apply)

unfoldable pub canonical_runtime_apply_state :
    RuntimeObservation
    → RuntimeState
    → AppState
    → Option Text
    → Bool
    → Option RoutingApplyTerminal
    → RuntimeState × ApplyState
unfolding from_terminal from_switch from_observation
canonical_runtime_apply_state observation observed state applied_subscription_id attempt_is_current
      terminal =
    or_else (from_terminal observation observed state terminal) (
      or_else (from_switch observed attempt_is_current observation.subscription_switch)
        (from_observation observation observed state applied_subscription_id))

pub data ManualSelectionSavedOnlyReason : Type 0 where
  runtime_stopped runtime_not_ready not_in_applied_artifact dispatch_unavailable :
      ManualSelectionSavedOnlyReason

pub data ManualSelectionUnknownReason : Type 0 where
  read_back_unavailable unknown_runtime_node instance_changed : ManualSelectionUnknownReason

pub data ManualSelectionRuntimeResult : Type 0 where
  applied : ManualSelectionRuntimeResult
  not_applied : NodeId → ManualSelectionRuntimeResult
  saved_only : ManualSelectionSavedOnlyReason → ManualSelectionRuntimeResult
  apply_unknown : ManualSelectionUnknownReason → ManualSelectionRuntimeResult

saved_only_reason : ManualSelectionSavedOnlyReason → SelectorSavedOnlyReason
saved_only_reason ManualSelectionSavedOnlyReason.runtime_stopped =
    SelectorSavedOnlyReason.runtime_stopped
saved_only_reason ManualSelectionSavedOnlyReason.runtime_not_ready =
    SelectorSavedOnlyReason.runtime_not_ready
saved_only_reason ManualSelectionSavedOnlyReason.not_in_applied_artifact =
    SelectorSavedOnlyReason.not_in_applied_artifact
saved_only_reason ManualSelectionSavedOnlyReason.dispatch_unavailable =
    SelectorSavedOnlyReason.dispatch_unavailable

unknown_reason : ManualSelectionUnknownReason → SelectorApplyUnknownReason
unknown_reason ManualSelectionUnknownReason.read_back_unavailable =
    SelectorApplyUnknownReason.read_back_unavailable
unknown_reason ManualSelectionUnknownReason.unknown_runtime_node =
    SelectorApplyUnknownReason.unknown_runtime_node
unknown_reason ManualSelectionUnknownReason.instance_changed =
    SelectorApplyUnknownReason.instance_changed

unfoldable pub map_manual_result : Text → Text → ManualSelectionRuntimeResult → MutationOutcome
unfolding saved_only_reason unknown_reason
map_manual_result pool_id node_id ManualSelectionRuntimeResult.applied =
    MutationOutcome.selector_applied pool_id node_id
map_manual_result pool_id node_id (ManualSelectionRuntimeResult.not_applied runtime_node_id) =
    MutationOutcome.selector_not_applied pool_id node_id runtime_node_id
map_manual_result pool_id node_id (ManualSelectionRuntimeResult.saved_only reason) =
    MutationOutcome.selector_saved_only pool_id node_id (saved_only_reason reason)
map_manual_result pool_id node_id (ManualSelectionRuntimeResult.apply_unknown reason) =
    MutationOutcome.selector_apply_unknown pool_id node_id (unknown_reason reason)

-- `matches!(selection, Manual { selected_node_id: Some(id) } if id.0 == node_id)`
abbrev pub selects : Text → SelectionPolicy → Bool
selects node_id (SelectionPolicy.manual (some id)) = id == node_id
selects node_id selection = false

unfoldable pub still_desired : Text → Text → AppState → Bool
still_desired pool_id node_id state =
    any (λ (pool : NodePool). pool.id == pool_id && selects node_id pool.selection) state.pools

unfoldable pub settle_manual_outcome :
    Text → Text → ManualSelectionRuntimeResult → AppState → Bool → MutationOutcome
unfolding map_manual_result
settle_manual_outcome pool_id node_id runtime_result state reload_proved_latest =
    if still_desired pool_id node_id state || not reload_proved_latest
    then map_manual_result pool_id node_id runtime_result
    else MutationOutcome.selector_apply_unknown pool_id node_id
        SelectorApplyUnknownReason.superseded
