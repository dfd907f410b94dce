-- ===== src/Witnesses/Selection.antt =====
-- The projection of the state of Witnesses/Domain.antt, for the theorem on
-- src-tauri/src/application/selected_subscription.rs.
use veyra.Base.{
  ◌≡◌, refl, [], ◌∷◌, none, some, ok, any, contains, find, flat_map, retain, decide_beq,
}
use veyra.Base.Text.{
  text, text_beq, text_le, to_ascii_lowercase, ascii_lower, contains_text, starts_with,
}
use veyra.Base.Order.{dedup, sort_by}
use veyra.Domain.Types.{RouteTarget, SelectionPolicy, PoolKind-discrete, ProxyProtocol-discrete}
use veyra.Domain.Filter.{matches}
use veyra.Domain.State.{resolve_pool_members, route_le, target_missing}
use veyra.Selection.{
  SelectedRuntimeProjection, project_selected_runtime, sorted_node_ids, selected_missing,
}
use veyra.Selection.Projection.{IsProjection, project_selected_runtime-IsProjection}
use veyra.Witnesses.Domain.{demo, office, trojan, demo_valid}

abbrev projection : SelectedRuntimeProjection
projection = record {
  runtime_intent = record {
    nodes = trojan (text "n1") (text "New node") ∷ trojan (text "n2") (text "Old node") ∷ [];
    pools =
        record {
          id = text "best";
          members = text "n1" ∷ [];
          selection = SelectionPolicy.manual (some (text "n1"));
        }
        ∷ record {
          id = text "runtime-active-s";
          members = text "n1" ∷ text "n2" ∷ [];
          selection = SelectionPolicy.manual none;
        }
        ∷ [];
    routes = office ∷ [];
  };
  projected_default_target = RouteTarget.pool (text "best");
  selected_subscription_id = text "s";
  selected_generation = 1;
}

projected : project_selected_runtime demo ≡ ok projection
unfolding project_selected_runtime any text_beq contains find flat_map retain dedup sort_by text_le
    to_ascii_lowercase ascii_lower contains_text starts_with matches resolve_pool_members route_le
    target_missing PoolKind-discrete ProxyProtocol-discrete decide_beq sorted_node_ids
    selected_missing
projected = rw demo_valid refl

project_selected_runtime-IsProjection_example : IsProjection demo projection
project_selected_runtime-IsProjection_example =
    project_selected_runtime-IsProjection demo projection projected
