-- ===== src/Domain/State/Closed.antt =====
-- The runtime intent of a valid state, of src-tauri/src/domain/state.rs, is closed under its references.
use veyra.Base.{
  ◌≡◌, ◌≢◌, ◌↔◌, refl, sym, subst, ap, List, [], Bool, true, false, Member, map, retain, any,
  is_empty, Member-map, Member-map_in, Member-retain, any_none, arith, All-member, some, none,
}
use veyra.Base.Text.{Text, text_eq, text_le_total, text_le_trans}
use veyra.Base.Order.{sort_by, sort_by-Sorted, Sorted, Member-sort_by}
use veyra.Domain.Types.{
  AppState, ProxyNode, NodePool, RoutePolicy, RouteTarget, NodeId, SelectionPolicy,
}
use veyra.Domain.State.{
  RuntimeIntent, RuntimePool, runtime_pool, resolve_pool_members, node_le, pool_le, route_le,
  target_missing,
}
use veyra.Domain.State.Members.{resolve_sound, resolve_complete}
use veyra.Domain.State.Valid.{
  TargetIn, absent_iff, IsValid, provider_ids, SelectionIsValid, PoolIsValid,
}

pub route_le_total : (a b : RoutePolicy) → route_le a b ≡ false → route_le b a ≡ true
unfolding route_le
route_le_total a b h = ground (arith, text_le_total a.id b.id)

pub route_le_trans :
    (a b c : RoutePolicy) → route_le a b ≡ true → route_le b c ≡ true → route_le a c ≡ true
unfolding route_le
route_le_trans a b c h k = ground (arith, text_le_trans a.id b.id c.id)

abbrev pub enabled_pools : AppState → List NodePool
enabled_pools s = retain (λ pool. pool.enabled) s.pools

abbrev pub enabled_routes : AppState → List RoutePolicy
enabled_routes s = retain (λ route. route.enabled) s.routes

abbrev pub intent_pools : AppState → List RuntimePool
intent_pools s = map (runtime_pool s) (enabled_pools s)

abbrev pub intent_of : AppState → RuntimeIntent
intent_of s = record {
  nodes = sort_by node_le s.nodes;
  pools = sort_by pool_le (intent_pools s);
  routes = sort_by route_le (enabled_routes s);
}

abbrev pub no_empty : AppState → Bool
no_empty s = any (λ (pool : RuntimePool). is_empty pool.members) (intent_pools s)

abbrev pub no_inactive : AppState → Bool
no_inactive s =
    any
      (λ (route : RoutePolicy).
        target_missing (map (λ (pool : RuntimePool). pool.id) (intent_pools s)) route.target)
      (enabled_routes s)

-- A node that is selected by hand is a member.
abbrev pub SelectionIn : List NodeId → SelectionPolicy → Type 0
SelectionIn members (SelectionPolicy.manual (some id)) = Member id members
SelectionIn members selection = Unit

-- What the compiler relies on: no pool is empty, each member of a pool is a node of the intent, the
-- node that a pool selects by hand is a member of it, each pool that a route names is in the intent,
-- and the three lists are in their orders.
pub record IsClosed (i : RuntimeIntent) : Type 0 where
  pub pools_filled : (pool : RuntimePool) → Member pool i.pools → pool.members ≢ []
  pub members_in :
      (pool : RuntimePool) (id : NodeId)
      → Member pool i.pools
      → Member id pool.members
      → Member id (map (λ (node : ProxyNode). node.id) i.nodes)
  pub selected_in :
      (pool : RuntimePool) → Member pool i.pools → SelectionIn pool.members pool.selection
  pub targets_in :
      (route : RoutePolicy)
      → Member route i.routes
      → TargetIn (map (λ (pool : RuntimePool). pool.id) i.pools) route.target
  pub nodes_sorted : Sorted node_le i.nodes
  pub pools_sorted : Sorted pool_le i.pools
  pub routes_sorted : Sorted route_le i.routes

pub missing_iff :
    (ids : List Text) (t : RouteTarget) → (target_missing ids t ≡ false) ↔ TargetIn ids t
unfolding target_missing
missing_iff ids (RouteTarget.pool p) = absent_iff ids p
missing_iff ids RouteTarget.unconfigured = (λ _. tt, λ _. refl)
missing_iff ids _ = (λ _. tt, λ _. refl)

pub TargetIn-mono :
    (xs ys : List Text) (t : RouteTarget)
    → ((a : Text) → Member a xs → Member a ys)
    → TargetIn xs t
    → TargetIn ys t
TargetIn-mono xs ys (RouteTarget.pool p) h m = h p m
TargetIn-mono xs ys RouteTarget.unconfigured h m = tt
TargetIn-mono xs ys _ h m = tt

-- Sorting the pools keeps their identifiers.
sorted_ids :
    (pools : List RuntimePool) (a : Text)
    → Member a (map (λ (pool : RuntimePool). pool.id) pools)
    → Member a (map (λ (pool : RuntimePool). pool.id) (sort_by pool_le pools))
sorted_ids pools a m =
    let (pool, n, e) = Member-map_in (λ (pool : RuntimePool). pool.id) pools a m in
    subst (λ k. Member k (map (λ (pool : RuntimePool). pool.id) (sort_by pool_le pools))) e
      (Member-map (λ (pool : RuntimePool). pool.id) (sort_by pool_le pools) pool
        ((Member-sort_by pool_le pools pool).1 n))

pub filled :
    (s : AppState)
    → no_empty s ≡ false
    → (pool : RuntimePool) → Member pool (intent_pools s)
    → pool.members ≢ []
filled s h pool m e =
    cc (any_none (λ (p : RuntimePool). is_empty p.members) (intent_pools s) h pool m, ap is_empty e)

members_closed :
    (s : AppState) (pool : RuntimePool) (id : NodeId)
    → Member pool (intent_pools s)
    → Member id pool.members
    → Member id (map (λ (node : ProxyNode). node.id) (sort_by node_le s.nodes))
members_closed s pool id m n =
    let (q, k, e) = Member-map_in (runtime_pool s) (enabled_pools s) pool m in
    let r = resolve_sound s q id (subst (λ (p : RuntimePool). Member id p.members) (sym e) n) in
    subst (λ a. Member a (map (λ (node : ProxyNode). node.id) (sort_by node_le s.nodes))) r.same_id
      (Member-map (λ (node : ProxyNode). node.id) (sort_by node_le s.nodes) r.node
        ((Member-sort_by node_le s.nodes r.node).1 r.node_in))

selection_closed :
    (s : AppState) (pool : NodePool) (selection : SelectionPolicy)
    → SelectionIsValid s pool selection
    → SelectionIn (resolve_pool_members s pool) selection
selection_closed s pool (SelectionPolicy.manual none) v = tt
selection_closed s pool (SelectionPolicy.manual (some id)) v = resolve_complete s pool id v
selection_closed s pool (SelectionPolicy.url_test _ _ _) v = tt

pool_selection_closed :
    (s : AppState)
    → IsValid s
    → (pool : RuntimePool) → Member pool (intent_pools s)
    → SelectionIn pool.members pool.selection
pool_selection_closed s v pool m =
    let (q, k, e) = Member-map_in (runtime_pool s) (enabled_pools s) pool m in
    let (n, _) = (Member-retain (λ (p : NodePool). p.enabled) s.pools q).0 k in
    let valid = All-member (PoolIsValid s (provider_ids s)) s.pools v.pools_valid q n in
    subst (λ (p : RuntimePool). SelectionIn p.members p.selection) e
      (selection_closed s q q.selection valid.selection_valid)

pub intent_of-IsClosed :
    (s : AppState) → IsValid s → no_empty s ≡ false → no_inactive s ≡ false → IsClosed (intent_of s)
intent_of-IsClosed s v b c = record {
  pools_filled = λ pool m. filled s b pool ((Member-sort_by pool_le (intent_pools s) pool).0 m);
  members_in = λ pool id m n.
      members_closed s pool id ((Member-sort_by pool_le (intent_pools s) pool).0 m) n;
  selected_in =
      λ pool m. pool_selection_closed s v pool ((Member-sort_by pool_le (intent_pools s) pool).0 m);
  targets_in = λ route m. TargetIn-mono _ _ route.target (sorted_ids (intent_pools s)) (
      (missing_iff _ route.target).0 (
        any_none _ (enabled_routes s) c route
          ((Member-sort_by route_le (enabled_routes s) route).0 m)));
  nodes_sorted =
      sort_by-Sorted node_le (λ a b. text_le_total a.id b.id)
        (λ a b c. text_le_trans a.id b.id c.id) s.nodes;
  pools_sorted =
      sort_by-Sorted pool_le (λ a b. text_le_total a.id b.id)
        (λ a b c. text_le_trans a.id b.id c.id) (intent_pools s);
  routes_sorted = sort_by-Sorted route_le route_le_total route_le_trans (enabled_routes s);
}
