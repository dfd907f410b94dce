-- ===== src/Routing/Selectors.antt =====
-- The selectors that the routing snapshot shows: `selectors` of
-- src-tauri/src/application/proxy_routing.rs.
pub mod Entries
use veyra.Base.{if◌then◌else◌, List, [], ◌∷◌, Option, none, some, Bool, true, false, ◌==◌}
use veyra.Base.Text.{Text, text_eq}
use veyra.Domain.Types.{NodePool, SelectionPolicy, NodeId, PoolId}
use veyra.Routing.Status.{RuntimeState, is_ready}

pub data SelectorState : Type 0 where
  in_sync saved_only not_applied unknown : SelectorState

pub record SelectorSnapshot : Type 0 where
  pub pool_id : Text
  pub desired_node_id : Option Text
  pub runtime_node_id : Option Text
  pub state : SelectorState

-- The match on the selected node and the node that runs.
unfoldable pub selector_state : Option NodeId → Option NodeId → Bool → SelectorState
selector_state (some desired) (some runtime) ready =
    if desired == runtime then SelectorState.in_sync else SelectorState.not_applied
selector_state none (some runtime) ready = SelectorState.saved_only
selector_state selected none ready =
    if ready then SelectorState.unknown else SelectorState.saved_only

abbrev pub runtime_node : (PoolId → Option NodeId) → RuntimeState → PoolId → Option NodeId
runtime_node runtime_nodes runtime_state id =
    if is_ready runtime_state then runtime_nodes id else none

-- The entry of a pool, before those of the pools behind it.
unfoldable pub push_selector :
    (PoolId → Option NodeId)
    → RuntimeState
    → PoolId
    → SelectionPolicy
    → List SelectorSnapshot
    → List SelectorSnapshot
push_selector runtime_nodes runtime_state id (SelectionPolicy.manual selected) rest =
    record {
      pool_id = id;
      desired_node_id = selected;
      runtime_node_id = runtime_node runtime_nodes runtime_state id;
      state =
          selector_state selected (runtime_node runtime_nodes runtime_state id)
            (is_ready runtime_state);
    }
    ∷ rest
push_selector runtime_nodes runtime_state id (SelectionPolicy.url_test u i t) rest = rest

-- `runtime_nodes` is the map from pools to the nodes that the core uses.
unfoldable pub selectors :
    List NodePool → (PoolId → Option NodeId) → RuntimeState → List SelectorSnapshot
selectors [] runtime_nodes runtime_state = []
selectors (p ∷ pools) runtime_nodes runtime_state =
    push_selector runtime_nodes runtime_state p.id p.selection
      (selectors pools runtime_nodes runtime_state)
