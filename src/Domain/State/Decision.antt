-- ===== src/Domain/State/Decision.antt =====
-- `validate` of src-tauri/src/domain/state.rs accepts the valid states and no other.
use veyra.Base.{
  ℕ, ◌≤◌, ◌≡◌, ◌↔◌, refl, sym, ◌∙◌, List, Option, none, some, false, not, ok, Member, All, contains,
  fail_if, fail_if_iff, is_some_and, >>_iff, for_each, for_each_iff, ltb, nat_beq_iff, arith,
}
use veyra.Base.Text.{Text, text_eq}
use veyra.Domain.Types.{
  AppState, Provider, RoutePolicy, max_safe_integer, unsupported_schema_version,
  invalid_subscription, invalid_route,
}
use veyra.Domain.Subscriptions.{validate_subscription}
use veyra.Domain.State.{
  validate, validate_target, validate_provider, validate_node, validate_pool, validate_route,
  matcher_is_valid,
}
use veyra.Domain.State.Valid.{
  TargetIn, or_false, not-false, absent_iff, validate_target_iff, validate_provider_iff,
  NodeIsValid, validate_node_iff, PoolIsValid, validate_pool_iff, for_each_means, subscription_ids,
  provider_ids, pool_ids, ActiveIn, RouteIsValid, IsValid, ListsAreValid, checks, validate-checks,
  validate-lists,
}

validate_route_iff :
    (pools : List Text) (route : RoutePolicy)
    → (validate_route pools route ≡ ok tt) ↔ RouteIsValid pools route
unfolding validate_route
validate_route_iff pools route =
    let steps =
      >>_iff (fail_if (not (matcher_is_valid route.matcher)) invalid_route)
        (validate_target route.target pools) tt in
    (
      λ h.
          let (a, b) = steps.0 h in
          record {
            matcher_valid = (not-false _).0 ((fail_if_iff _ invalid_route).0 a);
            target_in = (validate_target_iff pools route.target).0 b;
          },
      λ v. steps.1 (
        (fail_if_iff _ invalid_route).1 ((not-false _).1 v.matcher_valid),
        (validate_target_iff pools route.target).1 v.target_in,
      ),
    )

active_iff :
    (ids : List Text) (o : Option Text)
    → (is_some_and o (λ id. not (contains ids id)) ≡ false) ↔ ActiveIn ids o
active_iff ids none = (λ _. tt, λ _. refl)
active_iff ids (some id) = absent_iff ids id

within_iff : (n m : ℕ) → (ltb m n ≡ false) ↔ (n ≤ m)
within_iff n m = (λ h. ground arith, λ h. ground arith)

-- What is left of `IsValid` once the version and the lists of identifiers are known.
record BodyIsValid (s : AppState) : Type 0 where
  default_in : TargetIn (pool_ids s) s.default_target
  generation : s.active_configuration_generation ≤ max_safe_integer
  active_in : ActiveIn (subscription_ids s) s.active_subscription_id
  subscriptions_valid : All (λ v. validate_subscription v ≡ ok tt) s.subscriptions
  providers_valid :
      All (λ (v : Provider). Member v.subscription_id (subscription_ids s)) s.providers
  nodes_valid : All (NodeIsValid (provider_ids s)) s.nodes
  pools_valid : All (PoolIsValid s (provider_ids s)) s.pools
  routes_valid : All (RouteIsValid (pool_ids s)) s.routes

module _ (s : AppState) (v : ListsAreValid s) where
  providers_mean :
      (for_each (validate_provider (subscription_ids s)) s.providers ≡ ok tt)
      ↔ All (λ (p : Provider). Member p.subscription_id (subscription_ids s)) s.providers
  providers_mean =
      for_each_means (validate_provider (subscription_ids s)) _ s.providers
        λ p. validate_provider_iff (subscription_ids s) p v.subscription_list.0

  nodes_mean :
      (for_each (validate_node (provider_ids s)) s.nodes ≡ ok tt)
      ↔ All (NodeIsValid (provider_ids s)) s.nodes
  nodes_mean =
      for_each_means (validate_node (provider_ids s)) _ s.nodes
        λ n. validate_node_iff (provider_ids s) n v.provider_list.0

  pools_mean :
      (for_each (validate_pool s (provider_ids s)) s.pools ≡ ok tt)
      ↔ All (PoolIsValid s (provider_ids s)) s.pools
  pools_mean =
      for_each_means (validate_pool s (provider_ids s)) _ s.pools
        λ p. validate_pool_iff s (provider_ids s) p v.node_list.1

  routes_mean :
      (for_each (validate_route (pool_ids s)) s.routes ≡ ok tt)
      ↔ All (RouteIsValid (pool_ids s)) s.routes
  routes_mean =
      for_each_means (validate_route (pool_ids s)) _ s.routes λ r. validate_route_iff (pool_ids s) r

  checks_sound : checks s ≡ ok tt → BodyIsValid s
  unfolding checks
  checks_sound h =
      let (a, h1) = (>>_iff (validate_target s.default_target (pool_ids s)) _ tt).0 h in
      let (b, h2) = (>>_iff (fail_if _ invalid_subscription) _ tt).0 h1 in
      let (c, h3) = (>>_iff (for_each validate_subscription s.subscriptions) _ tt).0 h2 in
      let (d, h4) =
        (>>_iff (for_each (validate_provider (subscription_ids s)) s.providers) _ tt).0 h3 in
      let (e, h5) = (>>_iff (for_each (validate_node (provider_ids s)) s.nodes) _ tt).0 h4 in
      let (f, g) = (>>_iff (for_each (validate_pool s (provider_ids s)) s.pools) _ tt).0 h5 in
      let (b1, b2) =
        (or_false (ltb max_safe_integer s.active_configuration_generation) _).0
          ((fail_if_iff _ invalid_subscription).0 b) in
      record {
        default_in = (validate_target_iff (pool_ids s) s.default_target).0 a;
        generation = (within_iff s.active_configuration_generation max_safe_integer).0 b1;
        active_in = (active_iff (subscription_ids s) s.active_subscription_id).0 b2;
        subscriptions_valid = (for_each_iff validate_subscription s.subscriptions).0 c;
        providers_valid = providers_mean.0 d;
        nodes_valid = nodes_mean.0 e;
        pools_valid = pools_mean.0 f;
        routes_valid = routes_mean.0 g;
      }

  checks_complete : BodyIsValid s → checks s ≡ ok tt
  unfolding checks
  checks_complete b = rw (
    (validate_target_iff (pool_ids s) s.default_target).1 b.default_in,
    (within_iff s.active_configuration_generation max_safe_integer).1 b.generation,
    (active_iff (subscription_ids s) s.active_subscription_id).1 b.active_in,
    (for_each_iff validate_subscription s.subscriptions).1 b.subscriptions_valid,
    providers_mean.1 b.providers_valid,
    nodes_mean.1 b.nodes_valid,
    pools_mean.1 b.pools_valid,
    routes_mean.1 b.routes_valid,
  )

IsValid-sound : (s : AppState) → validate s ≡ ok tt → IsValid s
IsValid-sound s h =
    let v = validate-lists s h in
    let (a, b) =
      (>>_iff (fail_if _ unsupported_schema_version) (checks s) tt).0
        (sym (validate-checks s v) ∙ h) in
    let c = checks_sound s v b in
    record {
      version =
          (nat_beq_iff _ _).0 ((not-false _).0 ((fail_if_iff _ unsupported_schema_version).0 a));
      subscription_list = v.subscription_list;
      provider_list = v.provider_list;
      node_list = v.node_list;
      pool_list = v.pool_list;
      route_list = v.route_list;
      default_in = c.default_in;
      generation = c.generation;
      active_in = c.active_in;
      subscriptions_valid = c.subscriptions_valid;
      providers_valid = c.providers_valid;
      nodes_valid = c.nodes_valid;
      pools_valid = c.pools_valid;
      routes_valid = c.routes_valid;
    }

valid_complete : (s : AppState) → IsValid s → validate s ≡ ok tt
valid_complete s w =
    let v : ListsAreValid s = record {
      subscription_list = w.subscription_list;
      provider_list = w.provider_list;
      node_list = w.node_list;
      pool_list = w.pool_list;
      route_list = w.route_list;
    } in
    let b : BodyIsValid s = record {
      default_in = w.default_in;
      generation = w.generation;
      active_in = w.active_in;
      subscriptions_valid = w.subscriptions_valid;
      providers_valid = w.providers_valid;
      nodes_valid = w.nodes_valid;
      pools_valid = w.pools_valid;
      routes_valid = w.routes_valid;
    } in
    validate-checks s v
    ∙ (>>_iff (fail_if _ unsupported_schema_version) (checks s) tt).1 (
      (fail_if_iff _ unsupported_schema_version).1
          ((not-false _).1 ((nat_beq_iff _ _).1 w.version)),
      checks_complete s v b,
    )

-- `validate` succeeds on exactly the states whose schema version is current, whose identifiers are
-- present and distinct within each kind, and whose references, selections and options are valid.
pub validate_iff : (s : AppState) → (validate s ≡ ok tt) ↔ IsValid s
validate_iff s = (IsValid-sound s, valid_complete s)
