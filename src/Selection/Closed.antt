-- ===== src/Selection/Closed.antt =====
-- The intent that src-tauri/src/application/selected_subscription.rs builds after its loop is closed.
use veyra.Base.{
  ◌≡◌, ◌≢◌, sym, subst, List, [], false, any, any_none, retain, map, contains, contains_iff, Member,
  Member-retain, Member-map, Member-map_in,
}
use veyra.Base.Text.{text_eq, text_le_total, text_le_trans}
use veyra.Base.Order.{sort_by, sort_by-Sorted, Member-sort_by}
use veyra.Domain.Types.{AppState, ProxyNode, RoutePolicy, NodeId}
use veyra.Domain.State.{RuntimePool, RuntimeIntent, node_le, pool_le, route_le, target_missing}
use veyra.Domain.State.Closed.{IsClosed, SelectionIn, missing_iff, route_le_total, route_le_trans}
use veyra.Selection.{pool_ids}
use veyra.Selection.Pools.{node_ids}

abbrev pub enabled_routes : AppState → List RoutePolicy
enabled_routes state = retain (λ (route : RoutePolicy). route.enabled) state.routes

abbrev pub intent_of : AppState → List NodeId → List RuntimePool → RuntimeIntent
intent_of state selected pools = record {
  nodes = sort_by node_le (retain (λ (node : ProxyNode). contains selected node.id) state.nodes);
  pools = sort_by pool_le pools;
  routes = sort_by route_le (enabled_routes state);
}

-- What the loop and the implicit pool give.
pub record IsWhole (state : AppState) (selected : List NodeId) (pools : List RuntimePool)
    : Type 0 where
  pub known : (id : NodeId) → Member id selected → Member id (node_ids state)
  pub filled : (p : RuntimePool) → Member p pools → p.members ≢ []
  pub chosen :
      (p : RuntimePool) (id : NodeId) → Member p pools → Member id p.members → Member id selected
  pub selected_in : (p : RuntimePool) → Member p pools → SelectionIn p.members p.selection

pub kept_node :
    (state : AppState) (selected : List NodeId) (node : ProxyNode)
    → Member node state.nodes
    → Member node.id selected
    → Member node
        (sort_by node_le (retain (λ (node : ProxyNode). contains selected node.id) state.nodes))
kept_node state selected node m n = (Member-sort_by node_le _ node).1 (
    (Member-retain (λ (node : ProxyNode). contains selected node.id) state.nodes node).1
      (m, (contains_iff selected node.id).1 n))

pub intent_of-IsClosed :
    (state : AppState) (selected : List NodeId) (pools : List RuntimePool)
    → IsWhole state selected pools
    → any
        (λ (route : RoutePolicy). target_missing (pool_ids (sort_by pool_le pools)) route.target)
        (enabled_routes state)
      ≡ false
    → IsClosed (intent_of state selected pools)
intent_of-IsClosed state selected pools w t = record {
  pools_filled = λ p m. w.filled p ((Member-sort_by pool_le pools p).0 m);
  members_in = λ p id m n.
      let k = w.chosen p id ((Member-sort_by pool_le pools p).0 m) n in
      let (node, there, e) =
        Member-map_in (λ (node : ProxyNode). node.id) state.nodes id (w.known id k) in
      subst
        (λ x. Member x (map (λ (node : ProxyNode). node.id) (intent_of state selected pools).nodes))
        e
        (Member-map (λ (node : ProxyNode). node.id) _ node
          (kept_node state selected node there (subst (λ x. Member x selected) (sym e) k)));
  selected_in = λ p m. w.selected_in p ((Member-sort_by pool_le pools p).0 m);
  targets_in = λ route m. (missing_iff _ route.target).0 (
      any_none _ (enabled_routes state) t route
        ((Member-sort_by route_le (enabled_routes state) route).0 m));
  nodes_sorted =
      sort_by-Sorted node_le (λ a b. text_le_total a.id b.id)
        (λ a b c. text_le_trans a.id b.id c.id) _;
  pools_sorted =
      sort_by-Sorted pool_le (λ a b. text_le_total a.id b.id)
        (λ a b c. text_le_trans a.id b.id c.id) pools;
  routes_sorted = sort_by-Sorted route_le route_le_total route_le_trans (enabled_routes state);
}
