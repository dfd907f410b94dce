-- ===== src/Domain/State/Members.antt =====
-- The members of a pool: `resolve_pool_members` of src-tauri/src/domain/state.rs.
use veyra.Base.{
  ◌≡◌, ◌↔◌, subst, List, true, ◌&&◌, &&-true, true_and, map, retain, flat_map, Member, Distinct,
  Member-map, Member-map_in, Member-flat_map, Member-flat_map_in, Member-retain,
}
use veyra.Base.Text.{text_eq, text_le, text_le_total, text_le_trans, text_le_antisymm}
use veyra.Base.Order.{
  sort_by, Sorted, sort_by-Sorted, Member-sort_by, Member-dedup, dedup-Distinct, dedup-Sorted,
}
use veyra.Domain.Types.{AppState, NodePool, PoolSource, ProxyNode, NodeId}
use veyra.Domain.Filter.{matches}
use veyra.Domain.State.{resolve_pool_members}

-- A node of the state that a source of the pool takes: it belongs to the source's provider and
-- passes the source's filter.
pub record Resolves (state : AppState) (pool : NodePool) (id : NodeId) : Type 0 where
  pub source : PoolSource
  pub source_in : Member source pool.sources
  pub node : ProxyNode
  pub node_in : Member node state.nodes
  pub same_id : node.id ≡ id
  pub same_provider : node.provider_id ≡ source.provider_id
  pub passes : matches source.filter node ≡ true

abbrev candidates : AppState → PoolSource → List NodeId
candidates state source =
    map (λ node. node.id)
      (retain
        (λ (node : ProxyNode).
          text_eq.beq node.provider_id source.provider_id && matches source.filter node)
        state.nodes)

pub resolve_sound :
    (state : AppState) (pool : NodePool) (id : NodeId)
    → Member id (resolve_pool_members state pool)
    → Resolves state pool id
unfolding resolve_pool_members
resolve_sound state pool id m =
    let all : List NodeId = flat_map (candidates state) pool.sources in
    let (source, source_in, n) =
      Member-flat_map_in (candidates state) pool.sources id
        ((Member-sort_by text_le all id).0 ((Member-dedup (sort_by text_le all) id).0 m)) in
    let (node, k, e) = Member-map_in (λ (v : ProxyNode). v.id) _ id n in
    let (node_in, t) = (Member-retain _ state.nodes node).0 k in
    let (same, passes) =
      &&-true (text_eq.beq node.provider_id source.provider_id) (matches source.filter node) t in
    record {
      source = source;
      source_in = source_in;
      node = node;
      node_in = node_in;
      same_id = e;
      same_provider = (text_eq.beq_iff node.provider_id source.provider_id).0 same;
      passes = passes;
    }

pub resolve_complete :
    (state : AppState) (pool : NodePool) (id : NodeId)
    → Resolves state pool id
    → Member id (resolve_pool_members state pool)
unfolding resolve_pool_members
resolve_complete state pool id r =
    let all : List NodeId = flat_map (candidates state) pool.sources in
    let kept =
      (Member-retain
          (λ (node : ProxyNode).
            text_eq.beq node.provider_id r.source.provider_id && matches r.source.filter node)
          state.nodes r.node).1
        (
          r.node_in,
          true_and ((text_eq.beq_iff r.node.provider_id r.source.provider_id).1 r.same_provider)
              r.passes,
        ) in
    let found = Member-map (λ (v : ProxyNode). v.id) _ r.node kept in
    let there =
      Member-flat_map (candidates state) pool.sources r.node.id r.source r.source_in found in
    subst (λ k. Member k (resolve_pool_members state pool)) r.same_id
      ((Member-dedup (sort_by text_le all) r.node.id).1
        ((Member-sort_by text_le all r.node.id).1 there))

-- The members of a pool are exactly the nodes that one of its sources takes, listed once each, in
-- the order of their identifiers.
pub resolve_lem :
    (state : AppState) (pool : NodePool)
    → ((id : NodeId) → Member id (resolve_pool_members state pool) ↔ Resolves state pool id)
      × Distinct (resolve_pool_members state pool)
      × Sorted text_le (resolve_pool_members state pool)
unfolding resolve_pool_members
resolve_lem state pool =
    let all : List NodeId = flat_map (candidates state) pool.sources in
    let sorted = sort_by-Sorted text_le text_le_total text_le_trans all in
    (
      λ id. (resolve_sound state pool id, resolve_complete state pool id),
      dedup-Distinct text_le text_le_antisymm (sort_by text_le all) sorted,
      dedup-Sorted text_le text_le_antisymm (sort_by text_le all) sorted,
    )
