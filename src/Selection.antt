-- ===== src/Selection.antt =====
-- The projection of the state on the active subscription, of
-- src-tauri/src/application/selected_subscription.rs. Sets are lists.
pub mod Pools
pub mod Closed
pub mod Projection
use veyra.Base.{
  ℕ, List, [], ◌∷◌, ◌++◌, Option, none, some, Bool, true, false, ◌||◌, not, Result, ok, err, ◌>>=◌,
  ◌>>◌, fail_if, ok_or, map_err, is_none_or, if◌then◌else◌, any, retain, find, map, is_empty,
  contains, ◌==◌,
}
use veyra.Base.Text.{Text, text, text_eq, text_le}
use veyra.Base.Order.{sort_by, dedup}
use veyra.Domain.Types.{
  AppState, Subscription, Provider, ProxyNode, NodePool, PoolKind, PoolSource, RoutePolicy,
  RouteTarget, SelectionPolicy, NodeId, PoolId, ProviderId, SubscriptionId,
}
use veyra.Domain.Options.{pool_kind_eq}
use veyra.Domain.State.{
  RuntimeIntent, RuntimePool, validate, resolve_pool_members, node_le, pool_le, route_le,
  target_missing,
}

abbrev pub runtime_pool_prefix : Text
runtime_pool_prefix = text "runtime-active-"

pub record SelectedRuntimeProjection : Type 0 where
  pub runtime_intent : RuntimeIntent
  pub projected_default_target : RouteTarget
  pub selected_subscription_id : SubscriptionId
  pub selected_generation : ℕ

pub data SelectionProjectionError : Type 0 where
  selection_required not_found selection_conflict configuration_failed : SelectionProjectionError

unfoldable pub sorted_node_ids : List NodeId → List NodeId
sorted_node_ids ids = dedup (sort_by text_le ids)

-- `matches!(selection, Manual { selected_node_id: Some(id) } if !members.contains(id))`
unfoldable pub selected_missing : List NodeId → SelectionPolicy → Bool
selected_missing members (SelectionPolicy.manual (some node_id)) = not (contains members node_id)
selected_missing members selection = false

-- An implicit pool keeps the sources of the selected providers.
unfoldable pub filter_sources : List ProviderId → NodePool → NodePool
filter_sources providers pool =
    if pool.kind == PoolKind.implicit_provider
    then record pool {
      sources =
          retain (λ (source : PoolSource). contains providers source.provider_id) pool.sources;
    }
    else pool

unfoldable pub project_members : AppState → List ProviderId → List NodeId → NodePool → List NodeId
unfolding filter_sources
project_members state providers selected pool =
    retain (λ id. pool.kind == PoolKind.custom || contains selected id)
      (resolve_pool_members state (filter_sources providers pool))

-- One round of the loop over the pools; `none` where the pool is skipped.
unfoldable pub project_pool :
    AppState
    → List ProviderId
    → List NodeId
    → NodePool
    → Result (Option RuntimePool) SelectionProjectionError
unfolding project_members
project_pool state providers selected pool =
    let members = project_members state providers selected pool in
    if is_empty (filter_sources providers pool).sources
    then ok none
    else if is_empty members || selected_missing members pool.selection
    then err SelectionProjectionError.selection_conflict
    else ok (some (record { id = pool.id; members = members; selection = pool.selection }))

-- `selected_node_ids.extend(members)` for a custom pool
unfoldable pub extend_selected : NodePool → Option RuntimePool → List NodeId → List NodeId
extend_selected pool none selected = selected
extend_selected pool (some projected) selected =
    if pool.kind == PoolKind.custom then projected.members ++ selected else selected

unfoldable pub push_pool : Option RuntimePool → List RuntimePool → List RuntimePool
push_pool none pools = pools
push_pool (some pool) pools = pool ∷ pools

-- The loop: the nodes selected in the end, and the pools.
unfoldable pub project_pools :
    AppState
    → List ProviderId
    → List NodeId
    → List NodePool
    → Result (List NodeId × List RuntimePool) SelectionProjectionError
unfolding project_pool extend_selected push_pool
project_pools state providers selected [] = ok (selected, [])
project_pools state providers selected (pool ∷ pools) = do
  projected ← project_pool state providers selected pool
  rest ← project_pools state providers (extend_selected pool projected selected) pools
  ok (rest.0, push_pool projected rest.1)

unfoldable pub project_target :
    List PoolId → PoolId → RouteTarget → Result RouteTarget SelectionProjectionError
project_target pool_ids implicit RouteTarget.unconfigured = ok (RouteTarget.pool implicit)
project_target pool_ids implicit (RouteTarget.pool pool_id) =
    if contains pool_ids pool_id
    then ok (RouteTarget.pool pool_id)
    else err SelectionProjectionError.selection_conflict
project_target pool_ids implicit RouteTarget.direct = ok RouteTarget.direct
project_target pool_ids implicit RouteTarget.block = ok RouteTarget.block

-- The last check: the pool of the default target has members.
unfoldable pub target_is_empty : List RuntimePool → RouteTarget → Bool
target_is_empty pools (RouteTarget.pool pool_id) =
    is_none_or (find (λ (pool : RuntimePool). pool.id == pool_id) pools)
      (λ pool. is_empty pool.members)
target_is_empty pools target = false

abbrev pub implicit_pool : SubscriptionId → List NodeId → RuntimePool
implicit_pool id selected = record {
  id = runtime_pool_prefix ++ id;
  members = sorted_node_ids selected;
  selection = SelectionPolicy.manual none;
}

abbrev pub selected_providers : AppState → SubscriptionId → List ProviderId
selected_providers state id =
    map (λ (provider : Provider). provider.id)
      (retain (λ (provider : Provider). provider.subscription_id == id) state.providers)

abbrev pub selected_nodes : AppState → List ProviderId → List NodeId
selected_nodes state providers =
    map (λ (node : ProxyNode). node.id)
      (sort_by node_le
        (retain (λ (node : ProxyNode). contains providers node.provider_id) state.nodes))

abbrev pub pool_ids : List RuntimePool → List PoolId
pool_ids pools = map (λ (pool : RuntimePool). pool.id) pools

-- The part after the loop, on the nodes selected and the pools.
unfoldable pub finish_projection :
    AppState
    → SubscriptionId
    → List NodeId
    → List RuntimePool
    → Result SelectedRuntimeProjection SelectionProjectionError
unfolding project_target target_is_empty
finish_projection state id selected pools = do
  let sorted = sort_by pool_le pools
  let routes = retain (λ (route : RoutePolicy). route.enabled) state.routes
  fail_if (any (λ (route : RoutePolicy). target_missing (pool_ids sorted) route.target) routes)
      SelectionProjectionError.selection_conflict
  target ← project_target (pool_ids sorted) (runtime_pool_prefix ++ id) state.default_target
  fail_if (target_is_empty sorted target) SelectionProjectionError.configuration_failed
  ok (record {
    runtime_intent = record {
      nodes =
          sort_by node_le (retain (λ (node : ProxyNode). contains selected node.id) state.nodes);
      pools = sorted;
      routes = sort_by route_le routes;
    };
    projected_default_target = target;
    selected_subscription_id = id;
    selected_generation = state.active_configuration_generation;
  })

unfoldable pub project_selected_runtime :
    AppState → Result SelectedRuntimeProjection SelectionProjectionError
unfolding project_pools finish_projection
project_selected_runtime state = do
  id ← ok_or state.active_subscription_id SelectionProjectionError.selection_required
  fail_if (not (any (λ (subscription : Subscription). subscription.id == id) state.subscriptions))
      SelectionProjectionError.not_found
  map_err (validate state) (λ _. SelectionProjectionError.configuration_failed)
  let providers = selected_providers state id
  fail_if (is_empty providers) SelectionProjectionError.configuration_failed
  let selected = selected_nodes state providers
  fail_if (is_empty selected) SelectionProjectionError.configuration_failed
  fail_if (any (λ (pool : NodePool). pool.id == (runtime_pool_prefix ++ id)) state.pools)
      SelectionProjectionError.selection_conflict
  projected ←
      project_pools state providers selected
        (retain (λ (pool : NodePool). pool.enabled) state.pools)
  finish_projection state id projected.0 (implicit_pool id selected ∷ projected.1)
