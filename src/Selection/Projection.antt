-- ===== src/Selection/Projection.antt =====
-- What `project_selected_runtime` of src-tauri/src/application/selected_subscription.rs returns.
use veyra.Base.{
  ◌≡◌, ◌≢◌, ◌↔◌, inl, inr, refl, sym, subst, List, [], ◌∷◌, ◌++◌, Option, none, some, true, false,
  not, Result, ok, >>=-eq-ok, >>-eq-ok, fail_if-eq-ok, ok_or, map_err, any, retain, is_empty,
  contains, contains_iff, Member, Member-retain, Member-map, Member-map_in, Bool-cases, arith,
}
use veyra.Base.Text.{text_eq, text_le}
use veyra.Base.Order.{sort_by, Member-sort_by, Member-dedup}
use veyra.Domain.Types.{
  AppState, Subscription, ProxyNode, NodePool, RoutePolicy, RouteTarget, NodeId, ProviderId,
  SubscriptionId, PoolId,
}
use veyra.Domain.State.{RuntimePool, validate, node_le, pool_le, target_missing}
use veyra.Domain.State.Valid.{TargetIn}
use veyra.Domain.State.Closed.{IsClosed, SelectionIn}
use veyra.Selection.{
  SelectionProjectionError, SelectedRuntimeProjection, project_pools, project_target,
  target_is_empty, finish_projection, project_selected_runtime, implicit_pool, selected_providers,
  selected_nodes, pool_ids, sorted_node_ids, runtime_pool_prefix,
}
use veyra.Selection.Pools.{node_ids, IsCollected, project_pools-IsCollected}
use veyra.Selection.Closed.{enabled_routes, IsWhole, kept_node, intent_of-IsClosed}

true-false : true ≡ false → ⊥
true-false h = ground arith

some_path :
    (o : Option SubscriptionId) (id : SubscriptionId)
    → ok_or o SelectionProjectionError.selection_required ≡ ok id
    → o ≡ some id
some_path none id h = cc
some_path (some x) id h = ground arith

ok_path : {A E : Type 0} (a b : A) → ◌≡◌ {A = Result A E} (ok a) (ok b) → a ≡ b
ok_path a b h = ground arith

pool_configured : (id : PoolId) → RouteTarget.pool id ≢ RouteTarget.unconfigured
pool_configured id h = ground arith

-- The default target is configured, and a pool of the list if any.
abbrev IsTarget : List PoolId → RouteTarget → Type 0
IsTarget ids r = TargetIn ids r × (r ≢ RouteTarget.unconfigured)

project_target-IsTarget :
    (ids : List PoolId) (implicit : PoolId) (t r : RouteTarget)
    → Member implicit ids
    → project_target ids implicit t ≡ ok r
    → IsTarget ids r
unfolding project_target
project_target-IsTarget ids implicit RouteTarget.unconfigured r m h =
    subst (IsTarget ids) (ok_path (RouteTarget.pool implicit) r h) (m, pool_configured implicit)
project_target-IsTarget ids implicit (RouteTarget.pool id) r m h =
    elim (Bool-cases (contains ids id)) [
      | inl t ↦
          subst (IsTarget ids) (ok_path (RouteTarget.pool id) r (rw t at h))
            ((contains_iff ids id).0 t, pool_configured id)
      | inr t ↦ absurd (ground arith)
    ]
project_target-IsTarget ids implicit RouteTarget.direct r m h =
    subst (IsTarget ids) (ok_path RouteTarget.direct r h) (tt, λ e. ground arith)
project_target-IsTarget ids implicit RouteTarget.block r m h =
    subst (IsTarget ids) (ok_path RouteTarget.block r h) (tt, λ e. ground arith)

-- A projection of the state on the subscription: a closed intent with every node of the
-- subscription, and a default target in it.
pub record IsProjection (state : AppState) (p : SelectedRuntimeProjection) : Type 0 where
  pub active : state.active_subscription_id ≡ some p.selected_subscription_id
  pub closed : IsClosed p.runtime_intent
  pub target : TargetIn (pool_ids p.runtime_intent.pools) p.projected_default_target
  pub configured : p.projected_default_target ≢ RouteTarget.unconfigured
  pub whole :
      (node : ProxyNode)
      → Member node state.nodes
      → Member node.provider_id (selected_providers state p.selected_subscription_id)
      → Member node p.runtime_intent.nodes
  pub given : (node : ProxyNode) → Member node p.runtime_intent.nodes → Member node state.nodes

finish-IsProjection :
    (state : AppState) (id : SubscriptionId) (selected : List NodeId) (pools : List RuntimePool)
    (p : SelectedRuntimeProjection)
    → state.active_subscription_id ≡ some id
    → IsWhole state selected pools
    → Member (runtime_pool_prefix ++ id) (pool_ids pools)
    → ((node : ProxyNode)
        → Member node state.nodes
        → Member node.provider_id (selected_providers state id)
        → Member node.id selected)
    → finish_projection state id selected pools ≡ ok p
    → IsProjection state p
unfolding finish_projection
finish-IsProjection state id selected pools p a w m k h =
    let ids = pool_ids (sort_by pool_le pools) in
    let (t, h1) =
      fail_if-eq-ok
        (any (λ (route : RoutePolicy). target_missing ids route.target) (enabled_routes state))
        SelectionProjectionError.selection_conflict _ h in
    let (target, e, h2) =
      >>=-eq-ok (project_target ids (runtime_pool_prefix ++ id) state.default_target) _ h1 in
    let (_, h3) =
      fail_if-eq-ok (target_is_empty (sort_by pool_le pools) target)
        SelectionProjectionError.configuration_failed _ h2 in
    let (pool, there, same) =
      Member-map_in (λ (pool : RuntimePool). pool.id) pools (runtime_pool_prefix ++ id) m in
    let implicit =
      subst (λ x. Member x ids) same
        (Member-map (λ (pool : RuntimePool). pool.id) _ pool
          ((Member-sort_by pool_le pools pool).1 there)) in
    let (inside, configured) =
      project_target-IsTarget ids (runtime_pool_prefix ++ id) state.default_target target implicit
        e in
    subst (IsProjection state) (ok_path _ p h3) (record {
      active = a;
      closed = intent_of-IsClosed state selected pools w t;
      target = inside;
      configured = configured;
      whole = λ node there q. kept_node state selected node there (k node there q);
      given = λ node q.
          ((Member-retain (λ (node : ProxyNode). contains selected node.id) state.nodes node).0
            ((Member-sort_by node_le _ node).0 q)).0;
    })

selected_known :
    (state : AppState) (providers : List ProviderId) (id : NodeId)
    → Member id (selected_nodes state providers)
    → Member id (node_ids state)
selected_known state providers id m =
    let (node, k, e) = Member-map_in (λ (node : ProxyNode). node.id) _ id m in
    let (there, _) =
      (Member-retain (λ (node : ProxyNode). contains providers node.provider_id) state.nodes node).0
        ((Member-sort_by node_le _ node).0 k) in
    subst (λ x. Member x (node_ids state)) e
      (Member-map (λ (node : ProxyNode). node.id) state.nodes node there)

selected_whole :
    (state : AppState) (providers : List ProviderId) (node : ProxyNode)
    → Member node state.nodes
    → Member node.provider_id providers
    → Member node.id (selected_nodes state providers)
selected_whole state providers node m n =
    Member-map (λ (node : ProxyNode). node.id) _ node
      ((Member-sort_by node_le _ node).1 (
        (Member-retain (λ (node : ProxyNode). contains providers node.provider_id) state.nodes
            node).1
          (m, (contains_iff providers node.provider_id).1 n)))

Member-sorted_node_ids :
    (ids : List NodeId) (id : NodeId) → Member id (sorted_node_ids ids) ↔ Member id ids
unfolding sorted_node_ids
Member-sorted_node_ids ids id = (
  λ m. (Member-sort_by text_le ids id).0 ((Member-dedup (sort_by text_le ids) id).0 m),
  λ m. (Member-dedup (sort_by text_le ids) id).1 ((Member-sort_by text_le ids id).1 m),
)

first_member : (ids : List NodeId) → is_empty ids ≡ false → (id : NodeId) × Member id ids
first_member [] h = absurd (true-false h)
first_member (x ∷ xs) h = (x, inl refl)

member_not_empty : (ids : List NodeId) (id : NodeId) → Member id ids → ids ≢ []
member_not_empty [] id m e = m
member_not_empty (x ∷ xs) id m e = ground arith

sorted_filled : (ids : List NodeId) → is_empty ids ≡ false → sorted_node_ids ids ≢ []
sorted_filled ids h =
    let (id, m) = first_member ids h in
    member_not_empty (sorted_node_ids ids) id ((Member-sorted_node_ids ids id).1 m)

-- The implicit pool before the pools of the loop.
collected-IsWhole :
    (state : AppState) (providers : List ProviderId) (id : SubscriptionId) (final : List NodeId)
    (pools : List RuntimePool)
    → is_empty (selected_nodes state providers) ≡ false
    → IsCollected state providers (selected_nodes state providers) final pools
    → IsWhole state final (implicit_pool id (selected_nodes state providers) ∷ pools)
collected-IsWhole state providers id final pools f c = record {
  known = λ k m. elim (c.known k m) [ inl n ↦ selected_known state providers k n | inr n ↦ n ];
  filled = λ p m. elim m [
    | inl e ↦
        subst (λ (q : RuntimePool). q.members ≢ []) e
          (sorted_filled (selected_nodes state providers) f)
    | inr n ↦ c.filled p n
  ];
  chosen = λ p k m n. elim m [
    | inl e ↦ c.kept k (
        (Member-sorted_node_ids (selected_nodes state providers) k).0
          (subst (λ (q : RuntimePool). Member k q.members) (sym e) n))
    | inr q ↦ c.chosen p k q n
  ];
  selected_in = λ p m. elim m [
    | inl e ↦ subst (λ (q : RuntimePool). SelectionIn q.members q.selection) e tt
    | inr q ↦ c.selected_in p q
  ];
}

-- A projection that succeeds is on the active subscription: its intent is sorted and closed under
-- its references (no pool is empty, the members of a pool are nodes of it, the node that a pool
-- selects by hand is a member of the pool, and a pool that a route names is one of it), it has
-- every node of the subscription and only nodes of the state, and its default target is configured
-- and, if a pool, one of the intent.
pub project_selected_runtime-IsProjection :
    (state : AppState) (p : SelectedRuntimeProjection)
    → project_selected_runtime state ≡ ok p
    → IsProjection state p
unfolding project_selected_runtime
project_selected_runtime-IsProjection state p h =
    let (id, a, h1) =
      >>=-eq-ok (ok_or state.active_subscription_id SelectionProjectionError.selection_required) _
        h in
    let (_, h2) =
      fail_if-eq-ok
        (not (
          any (λ (subscription : Subscription). text_eq.beq subscription.id id)
            state.subscriptions))
        SelectionProjectionError.not_found _ h1 in
    let (_, h3) =
      >>-eq-ok (map_err (validate state) (λ _. SelectionProjectionError.configuration_failed)) _
        h2 in
    let providers = selected_providers state id in
    let (_, h4) =
      fail_if-eq-ok (is_empty providers) SelectionProjectionError.configuration_failed _ h3 in
    let (f, h5) =
      fail_if-eq-ok (is_empty (selected_nodes state providers))
        SelectionProjectionError.configuration_failed _ h4 in
    let (_, h6) =
      fail_if-eq-ok
        (any (λ (pool : NodePool). text_eq.beq pool.id (runtime_pool_prefix ++ id)) state.pools)
        SelectionProjectionError.selection_conflict _ h5 in
    let (found, c, h7) =
      >>=-eq-ok
        (project_pools state providers (selected_nodes state providers)
          (retain (λ (pool : NodePool). pool.enabled) state.pools))
        _ h6 in
    let collected =
      project_pools-IsCollected state providers (selected_nodes state providers) _ found.0 found.1
        c in
    finish-IsProjection state id found.0
      (implicit_pool id (selected_nodes state providers) ∷ found.1) p
      (some_path state.active_subscription_id id a)
      (collected-IsWhole state providers id found.0 found.1 f collected) (inl refl)
      (λ node m n. collected.kept node.id (selected_whole state providers node m n)) h7
