-- ===== src/Routing/Types.antt =====
-- The requests and replies of src-tauri/src/application/proxy_routing.rs. The DTOs of sources, filters,
-- selections, matchers and protocols have the fields and variants of the domain types, with
-- identifiers as plain text, so they are the domain types here; what their conversions change is in
-- `filter_from_dto`, `source_from_dto` and `matcher_from_dto`.
use veyra.Base.{ℕ, List, Bool, map}
use veyra.Base.Text.{Text, trim}
use veyra.Domain.Types.{NodeFilter, PoolSource, SelectionPolicy, TrafficMatcher, RouteTarget}

abbrev pub NodeFilterDto : Type 0
NodeFilterDto = NodeFilter

abbrev pub PoolSourceDto : Type 0
PoolSourceDto = PoolSource

abbrev pub SelectionDto : Type 0
SelectionDto = SelectionPolicy

abbrev pub MatcherDto : Type 0
MatcherDto = TrafficMatcher

pub data DefaultTargetDto : Type 0 where
  follow_active_subscription : DefaultTargetDto
  pool : Text → DefaultTargetDto
  direct block : DefaultTargetDto

pub data RouteTargetDto : Type 0 where
  pool : Text → RouteTargetDto
  direct block : RouteTargetDto

pub data ProxyRoutingMutation : Type 0 where
  -- name, enabled, sources, selection
  create_custom_pool : Text → Bool → List PoolSourceDto → SelectionDto → ProxyRoutingMutation
  -- id, name, enabled, sources, selection
  update_custom_pool : Text → Text → Bool → List PoolSourceDto → SelectionDto → ProxyRoutingMutation
  delete_custom_pool : Text → ProxyRoutingMutation
  -- pool_id, node_id
  set_manual_selection : Text → Text → ProxyRoutingMutation
  set_default_target : DefaultTargetDto → ProxyRoutingMutation
  -- name, enabled, matcher, target, insert_at
  create_route : Text → Bool → MatcherDto → RouteTargetDto → ℕ → ProxyRoutingMutation
  -- id, name, enabled, matcher, target
  update_route : Text → Text → Bool → MatcherDto → RouteTargetDto → ProxyRoutingMutation
  delete_route : Text → ProxyRoutingMutation
  reorder_routes : List Text → ProxyRoutingMutation
  apply_configuration : ProxyRoutingMutation

pub record MutateProxyRoutingRequest : Type 0 where
  pub expected_revision : ℕ
  pub mutation : ProxyRoutingMutation

pub data QueryError : Type 0 where
  busy state_unavailable runtime_unavailable : QueryError

pub data MutationError : Type 0 where
  invalid_input busy conflict not_found reference_conflict validation_failed save_failed
        state_unavailable runtime_unavailable configuration_failed state_changed stop_failed
        start_failed recovery_required :
      MutationError

pub data SelectorSavedOnlyReason : Type 0 where
  runtime_stopped runtime_not_ready not_in_applied_artifact dispatch_unavailable :
      SelectorSavedOnlyReason

pub data SelectorApplyUnknownReason : Type 0 where
  read_back_unavailable unknown_runtime_node instance_changed superseded :
      SelectorApplyUnknownReason

pub data MutationOutcome : Type 0 where
  saved : MutationOutcome
  -- pool_id, node_id
  selector_applied : Text → Text → MutationOutcome
  -- pool_id, node_id, runtime_node_id
  selector_not_applied : Text → Text → Text → MutationOutcome
  selector_saved_only : Text → Text → SelectorSavedOnlyReason → MutationOutcome
  selector_apply_unknown : Text → Text → SelectorApplyUnknownReason → MutationOutcome
  -- operation_id
  apply_started apply_completed : Text → MutationOutcome

abbrev pub trim_values : List Text → List Text
trim_values = map trim

-- `NodeFilter::from(NodeFilterDto)`
abbrev pub filter_from_dto : NodeFilterDto → NodeFilter
filter_from_dto v = record v {
  regions = trim_values v.regions;
  include_keywords = trim_values v.include_keywords;
  exclude_keywords = trim_values v.exclude_keywords;
}

abbrev pub source_from_dto : PoolSourceDto → PoolSource
source_from_dto v = record { provider_id = v.provider_id; filter = filter_from_dto v.filter }

abbrev pub matcher_from_dto : MatcherDto → TrafficMatcher
matcher_from_dto (TrafficMatcher.domain x) = TrafficMatcher.domain (trim_values x)
matcher_from_dto (TrafficMatcher.domain_suffix x) = TrafficMatcher.domain_suffix (trim_values x)
matcher_from_dto (TrafficMatcher.application x) = TrafficMatcher.application (trim_values x)
matcher_from_dto (TrafficMatcher.ip_cidr x) = TrafficMatcher.ip_cidr (trim_values x)
matcher_from_dto (TrafficMatcher.port x) = TrafficMatcher.port x
matcher_from_dto (TrafficMatcher.protocol x) = TrafficMatcher.protocol x

abbrev pub default_target_from_dto : DefaultTargetDto → RouteTarget
default_target_from_dto DefaultTargetDto.follow_active_subscription = RouteTarget.unconfigured
default_target_from_dto (DefaultTargetDto.pool pool_id) = RouteTarget.pool pool_id
default_target_from_dto DefaultTargetDto.direct = RouteTarget.direct
default_target_from_dto DefaultTargetDto.block = RouteTarget.block

abbrev pub target_from_dto : RouteTargetDto → RouteTarget
target_from_dto (RouteTargetDto.pool pool_id) = RouteTarget.pool pool_id
target_from_dto RouteTargetDto.direct = RouteTarget.direct
target_from_dto RouteTargetDto.block = RouteTarget.block
