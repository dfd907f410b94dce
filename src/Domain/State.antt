-- ===== src/Domain/State.antt =====
-- `AppState::validate`, `resolve_pool_members` and `RuntimeIntent::from_state` in
-- src-tauri/src/domain/state.rs.
pub mod Valid
pub mod Members
pub mod Decision
pub mod Closed
pub mod Intent
use veyra.Base.{
  ℕ, ◌≡◌, List, [], ◌∷◌, ◌++◌, Option, none, some, Bool, true, false, ◌&&◌, ◌||◌, not, all, any,
  find, contains, is_empty, is_none_or, is_some_and, Eq, ◌==◌, Result, ok, err, fail_if, ◌>>=◌,
  ◌>>◌, for_each, flat_map, retain, map, if◌then◌else◌, ltb, leb, nat_beq,
}
use veyra.Base.Int.{ℤ, ltb_ℤ}
use veyra.Base.Text.{Text, text_eq, present, text_le}
use veyra.Base.Order.{sort_by, dedup}
use veyra.Domain.Types
use veyra.Domain.Types.{
  AppState, StateValidationError, Provider, ProxyNode, NodePool, RoutePolicy, RouteTarget,
  SelectionPolicy, PoolSource, TrafficMatcher, PoolId, NodeId, invalid_identifier,
  duplicate_identifier, missing_subscription, missing_provider, missing_pool, empty_pool_sources,
  invalid_selection, invalid_route, invalid_protocol_options, invalid_subscription,
  empty_pool_membership, inactive_pool_target, unsupported_schema_version, current_schema_version,
  max_safe_integer,
}
use veyra.Domain.Options.{is_compatible_with, tls_is_valid, has_valid_early_data}
use veyra.Domain.Subscriptions.{validate_subscription}
use veyra.Domain.Filter.{validate_filter, matches}

-- The loop of `unique_ids` over the set of those seen so far.
unfoldable pub unique_from : List Text → List Text → Result (List Text) StateValidationError
unique_from unique [] = ok unique
unique_from unique (id ∷ ids) =
    let rest = unique_from (id ∷ unique) ids in
    if not (present id)
    then err invalid_identifier
    else if contains unique id
    then err duplicate_identifier
    else rest

unfoldable pub unique_ids : List Text → Result (List Text) StateValidationError
unfolding unique_from
unique_ids = unique_from []

unfoldable pub validate_target : RouteTarget → List PoolId → Result (Unit {0}) StateValidationError
validate_target (RouteTarget.pool pool_id) pools =
    fail_if (not (contains pools pool_id)) missing_pool
validate_target target pools = ok tt

unfoldable pub validate_provider : List Text → Provider → Result (Unit {0}) StateValidationError
validate_provider subscriptions provider =
    fail_if
      (not (present provider.subscription_id)
        || not (contains subscriptions provider.subscription_id))
      missing_subscription

unfoldable pub validate_node : List Text → ProxyNode → Result (Unit {0}) StateValidationError
validate_node providers node = do
  fail_if (not (present node.provider_id) || not (contains providers node.provider_id))
      missing_provider
  fail_if
      (not (is_compatible_with node.options node.protocol)
        || is_some_and node.tls (λ tls. not (tls_is_valid tls))
        || is_some_and node.transport (λ transport. not (has_valid_early_data transport)))
      invalid_protocol_options

unfoldable pub resolve_pool_members : AppState → NodePool → List NodeId
resolve_pool_members state pool = dedup (
    sort_by text_le (
      flat_map
        (λ (source : PoolSource).
          map (λ node. node.id)
            (retain
              (λ (node : ProxyNode).
                node.provider_id == source.provider_id && matches source.filter node)
              state.nodes))
        pool.sources))

unfoldable pub validate_source :
    List Text → List ProxyNode → PoolSource → Result (Unit {0}) StateValidationError
validate_source providers nodes source = do
  fail_if (not (contains providers source.provider_id)) missing_provider
  validate_filter source.filter source.provider_id nodes

-- The two checks of `pool.selection`.
unfoldable pub validate_pool_selection :
    List NodeId → SelectionPolicy → Result (Unit {0}) StateValidationError
validate_pool_selection members (SelectionPolicy.manual (some node_id)) =
    fail_if (not (contains members node_id)) invalid_selection
validate_pool_selection members (SelectionPolicy.manual none) = ok tt
validate_pool_selection members (SelectionPolicy.url_test probe_url interval_secs tolerance_ms) =
    fail_if (not (present probe_url) || nat_beq interval_secs 0) invalid_selection

unfoldable pub validate_pool :
    AppState → List Text → NodePool → Result (Unit {0}) StateValidationError
validate_pool state providers pool = do
  fail_if (is_empty pool.sources) empty_pool_sources
  for_each (validate_source providers state.nodes) pool.sources
  validate_pool_selection (resolve_pool_members state pool) pool.selection

-- `TrafficMatcher::is_valid`
unfoldable pub matcher_is_valid : TrafficMatcher → Bool
matcher_is_valid (TrafficMatcher.domain values) = all present values && not (is_empty values)
matcher_is_valid (TrafficMatcher.domain_suffix values) = all present values && not (is_empty values)
matcher_is_valid (TrafficMatcher.application values) = all present values && not (is_empty values)
matcher_is_valid (TrafficMatcher.ip_cidr values) = all present values && not (is_empty values)
matcher_is_valid (TrafficMatcher.port values) =
    all (λ value. ltb 0 value) values && not (is_empty values)
matcher_is_valid (TrafficMatcher.protocol values) = not (is_empty values)

unfoldable pub validate_route : List PoolId → RoutePolicy → Result (Unit {0}) StateValidationError
validate_route pools route = do
  fail_if (not (matcher_is_valid route.matcher)) invalid_route
  validate_target route.target pools

unfoldable pub validate : AppState → Result (Unit {0}) StateValidationError
validate state = do
  fail_if (not (nat_beq state.schema_version current_schema_version)) unsupported_schema_version
  subscriptions ← unique_ids (map (λ v. v.id) state.subscriptions)
  providers ← unique_ids (map (λ v. v.id) state.providers)
  _ ← unique_ids (map (λ v. v.id) state.nodes)
  pools ← unique_ids (map (λ v. v.id) state.pools)
  _ ← unique_ids (map (λ v. v.id) state.routes)
  validate_target state.default_target pools
  fail_if
      (ltb max_safe_integer state.active_configuration_generation
        || is_some_and state.active_subscription_id (λ id. not (contains subscriptions id)))
      invalid_subscription
  for_each validate_subscription state.subscriptions
  for_each (validate_provider subscriptions) state.providers
  for_each (validate_node providers) state.nodes
  for_each (validate_pool state providers) state.pools
  for_each (validate_route pools) state.routes

pub record RuntimePool : Type 0 where
  pub id : PoolId
  pub members : List NodeId
  pub selection : SelectionPolicy

pub record RuntimeIntent : Type 0 where
  pub nodes : List ProxyNode
  pub pools : List RuntimePool
  pub routes : List RoutePolicy

-- The order of `sort_by_key(|route| (route.priority, route.id.clone()))`.
unfoldable pub route_le : RoutePolicy → RoutePolicy → Bool
route_le a b =
    if ltb_ℤ a.priority b.priority
    then true
    else if ltb_ℤ b.priority a.priority
    then false
    else text_le a.id b.id

abbrev pub node_le : ProxyNode → ProxyNode → Bool
node_le a b = text_le a.id b.id

abbrev pub pool_le : RuntimePool → RuntimePool → Bool
pool_le a b = text_le a.id b.id

-- `matches!(target, RouteTarget::Pool(id) if !ids.contains(id))`
unfoldable pub target_missing : List PoolId → RouteTarget → Bool
target_missing ids (RouteTarget.pool pool_id) = not (contains ids pool_id)
target_missing ids target = false

abbrev pub runtime_pool : AppState → NodePool → RuntimePool
runtime_pool state pool = record {
  id = pool.id;
  members = resolve_pool_members state pool;
  selection = pool.selection;
}

-- `RuntimeIntent::from_state`
unfoldable pub from_state : AppState → Result RuntimeIntent StateValidationError
from_state state = do
  validate state
  let pools = map (runtime_pool state) (retain (λ pool. pool.enabled) state.pools)
  fail_if (any (λ pool. is_empty pool.members) pools) empty_pool_membership
  let routes = retain (λ route. route.enabled) state.routes
  fail_if (any (λ route. target_missing (map (λ pool. pool.id) pools) route.target) routes)
      inactive_pool_target
  ok (record {
    nodes = sort_by node_le state.nodes;
    pools = sort_by pool_le pools;
    routes = sort_by route_le routes;
  })
