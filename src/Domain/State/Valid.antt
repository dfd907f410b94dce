-- ===== src/Domain/State/Valid.antt =====
-- `validate` of src-tauri/src/domain/state.rs against an independent description of a valid state.
mod Identifiers
mod Parts
mod Pools
pub use Identifiers.{IsIdentifierList}
pub use Parts.*
pub use Pools.*
use mathlib.Core.Path.{fun_ext}
use veyra.Base.{
  ℕ, ◌≤◌, ◌≡◌, ◌↔◌, refl, sym, List, Option, none, some, Bool, true, false, not, ◌||◌, ok, Result,
  Member, All, Distinct, map, contains, fail_if, fail_if_iff, is_some_and, >>_iff, >>=-eq-ok, ◌>>=◌,
  ◌>>◌, for_each, ltb, leb, nat_beq, nat_beq_iff, arith,
}
use veyra.Base.Text.{Text, text_eq, present}
use veyra.Domain.Types.{
  AppState, StateValidationError, Subscription, Provider, ProxyNode, NodePool, RoutePolicy,
  RouteTarget, current_schema_version, max_safe_integer, unsupported_schema_version,
  invalid_subscription, invalid_route,
}
use veyra.Domain.Subscriptions.{validate_subscription}
use veyra.Domain.State.{
  unique_ids, validate_source, validate, validate_target, validate_provider, validate_node,
  validate_pool, validate_route, matcher_is_valid,
}
use Identifiers.{id_set, contains-id_set, unique_ids_sound, unique_ids_complete}

abbrev pub subscription_ids : AppState → List Text
subscription_ids s = map (λ v. v.id) s.subscriptions

abbrev pub provider_ids : AppState → List Text
provider_ids s = map (λ v. v.id) s.providers

abbrev pub node_ids : AppState → List Text
node_ids s = map (λ v. v.id) s.nodes

abbrev pub pool_ids : AppState → List Text
pool_ids s = map (λ v. v.id) s.pools

abbrev pub route_ids : AppState → List Text
route_ids s = map (λ v. v.id) s.routes

-- The selected subscription exists.
abbrev pub ActiveIn : List Text → Option Text → Type 0
ActiveIn ids none = Unit
ActiveIn ids (some id) = Member id ids

pub record RouteIsValid (pools : List Text) (route : RoutePolicy) : Type 0 where
  pub matcher_valid : matcher_is_valid route.matcher ≡ true
  pub target_in : TargetIn pools route.target

pub record IsValid (s : AppState) : Type 0 where
  pub version : s.schema_version ≡ current_schema_version
  pub subscription_list : IsIdentifierList (subscription_ids s)
  pub provider_list : IsIdentifierList (provider_ids s)
  pub node_list : IsIdentifierList (node_ids s)
  pub pool_list : IsIdentifierList (pool_ids s)
  pub route_list : IsIdentifierList (route_ids s)
  pub default_in : TargetIn (pool_ids s) s.default_target
  pub generation : s.active_configuration_generation ≤ max_safe_integer
  pub active_in : ActiveIn (subscription_ids s) s.active_subscription_id
  pub subscriptions_valid : All (λ v. validate_subscription v ≡ ok tt) s.subscriptions
  pub providers_valid :
      All (λ (v : Provider). Member v.subscription_id (subscription_ids s)) s.providers
  pub nodes_valid : All (NodeIsValid (provider_ids s)) s.nodes
  pub pools_valid : All (PoolIsValid s (provider_ids s)) s.pools
  pub routes_valid : All (RouteIsValid (pool_ids s)) s.routes

validate_target-id_set :
    (ids : List Text) (t : RouteTarget) → validate_target t (id_set ids) ≡ validate_target t ids
unfolding validate_target
validate_target-id_set ids (RouteTarget.pool p) = rw (contains-id_set ids p)
validate_target-id_set ids RouteTarget.unconfigured = refl
validate_target-id_set ids _ = refl

validate_provider-id_set :
    (ids : List Text) → validate_provider (id_set ids) ≡ validate_provider ids
unfolding validate_provider
validate_provider-id_set ids = fun_ext λ p. rw (contains-id_set ids p.subscription_id)

validate_node-id_set : (ids : List Text) → validate_node (id_set ids) ≡ validate_node ids
unfolding validate_node
validate_node-id_set ids = fun_ext λ n. rw (contains-id_set ids n.provider_id)

validate_source-id_set :
    (ids : List Text) (nodes : List ProxyNode)
    → validate_source (id_set ids) nodes ≡ validate_source ids nodes
unfolding validate_source
validate_source-id_set ids nodes = fun_ext λ s. rw (contains-id_set ids s.provider_id)

validate_pool-id_set :
    (state : AppState) (ids : List Text)
    → validate_pool state (id_set ids) ≡ validate_pool state ids
unfolding validate_pool
validate_pool-id_set state ids = fun_ext λ p. rw (validate_source-id_set ids state.nodes)

validate_route-id_set : (ids : List Text) → validate_route (id_set ids) ≡ validate_route ids
unfolding validate_route
validate_route-id_set ids = fun_ext λ r. rw (validate_target-id_set ids r.target)

-- The five lists of identifiers.
pub record ListsAreValid (s : AppState) : Type 0 where
  pub subscription_list : IsIdentifierList (subscription_ids s)
  pub provider_list : IsIdentifierList (provider_ids s)
  pub node_list : IsIdentifierList (node_ids s)
  pub pool_list : IsIdentifierList (pool_ids s)
  pub route_list : IsIdentifierList (route_ids s)

-- The part of `validate` after the sets, over the lists themselves.
unfoldable pub checks : AppState → Result (Unit {0}) StateValidationError
checks s = do
  validate_target s.default_target (pool_ids s)
  fail_if
      (ltb max_safe_integer s.active_configuration_generation
        || is_some_and s.active_subscription_id (λ id. not (contains (subscription_ids s) id)))
      invalid_subscription
  for_each validate_subscription s.subscriptions
  for_each (validate_provider (subscription_ids s)) s.providers
  for_each (validate_node (provider_ids s)) s.nodes
  for_each (validate_pool s (provider_ids s)) s.pools
  for_each (validate_route (pool_ids s)) s.routes

missing_active-id_set :
    (ids : List Text) (o : Option Text)
    → is_some_and o (λ id. not (contains (id_set ids) id))
      ≡ is_some_and o (λ id. not (contains ids id))
missing_active-id_set ids none = refl
missing_active-id_set ids (some a) = rw (contains-id_set ids a)

pub validate-checks :
    (s : AppState)
    → ListsAreValid s
    → validate s ≡ (
        fail_if (not (nat_beq s.schema_version current_schema_version)) unsupported_schema_version
        >> checks s)
unfolding validate checks
validate-checks s v = rw (
  unique_ids_complete (subscription_ids s) v.subscription_list,
  unique_ids_complete (provider_ids s) v.provider_list,
  unique_ids_complete (node_ids s) v.node_list,
  unique_ids_complete (pool_ids s) v.pool_list,
  unique_ids_complete (route_ids s) v.route_list,
  validate_target-id_set (pool_ids s) s.default_target,
  missing_active-id_set (subscription_ids s) s.active_subscription_id,
  validate_provider-id_set (subscription_ids s),
  validate_node-id_set (provider_ids s),
  validate_pool-id_set s (provider_ids s),
  validate_route-id_set (pool_ids s),
)

pub validate-lists : (s : AppState) → validate s ≡ ok tt → ListsAreValid s
unfolding validate
validate-lists s h =
    let (_, a) = (>>_iff (fail_if _ unsupported_schema_version) _ tt).0 h in
    let (r1, e1, b) = >>=-eq-ok (unique_ids (subscription_ids s)) _ a in
    let (r2, e2, c) = >>=-eq-ok (unique_ids (provider_ids s)) _ b in
    let (r3, e3, d) = >>=-eq-ok (unique_ids (node_ids s)) _ c in
    let (r4, e4, e) = >>=-eq-ok (unique_ids (pool_ids s)) _ d in
    let (r5, e5, f) = >>=-eq-ok (unique_ids (route_ids s)) _ e in
    record {
      subscription_list = (unique_ids_sound (subscription_ids s) r1 e1).1;
      provider_list = (unique_ids_sound (provider_ids s) r2 e2).1;
      node_list = (unique_ids_sound (node_ids s) r3 e3).1;
      pool_list = (unique_ids_sound (pool_ids s) r4 e4).1;
      route_list = (unique_ids_sound (route_ids s) r5 e5).1;
    }
