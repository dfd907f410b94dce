-- ===== src/Witnesses/Domain.antt =====
-- A state with a custom pool and a route, as the tests of src-tauri/src/domain/state.rs build them.
use veyra.Base.{
  ◌≡◌, ◌↔◌, refl, [], ◌∷◌, none, some, true, false, ok, any, all, retain, find, flat_map, contains,
  option_beq, list_beq, decide_beq, for_each, Member, Distinct,
}
use mathlib.Core.List.{Perm}
use veyra.Base.Int.{pos}
use veyra.Base.Text.{
  Text, text, text_beq, text_le, present, trim, to_ascii_lowercase, contains_text, is_control,
  is_whitespace, byte_length, starts_with, ascii_lower,
}
use veyra.Base.Order.{sort_by, dedup, Sorted}
use veyra.Domain.Types.{
  AppState, SubscriptionSource, ProxyNode, NodePool, NodeFilter, RoutePolicy, RouteTarget,
  ProtocolOptions, ProxyProtocol, PoolKind, SelectionPolicy, TrafficMatcher, ProxyProtocol-discrete,
}
use veyra.Domain.Options.{
  has_required_values, variant_matches, is_compatible_with, tls_is_valid, has_valid_early_data,
  all_distinct,
}
use veyra.Domain.Subscriptions.{
  validate_subscription, document_is_valid, remote_request_is_valid, update_policy_is_valid,
  metadata_is_valid,
}
use veyra.Domain.Filter.{validate_filter, matches}
use veyra.Domain.State.{
  RuntimeIntent, from_state, validate, unique_ids, validate_target, validate_provider,
  validate_node, resolve_pool_members, validate_source, validate_pool_selection, validate_pool,
  matcher_is_valid, validate_route, route_le, target_missing,
}
use veyra.Domain.State.Members.{Resolves, resolve_lem}
use veyra.Domain.State.Valid.{IsValid}
use veyra.Domain.State.Decision.{validate_iff}
use veyra.Domain.State.Closed.{IsClosed}
use veyra.Domain.State.Intent.{IsReady, from_state_iff, from_state-IsClosed}

abbrev pub any_node : NodeFilter
any_node = record {
  regions = [];
  protocols = ProxyProtocol.trojan ∷ [];
  include_keywords = [];
  exclude_keywords = text "old" ∷ [];
  include_node_ids = [];
  exclude_node_ids = [];
}

abbrev pub trojan : Text → Text → ProxyNode
trojan id name = record {
  id = id;
  provider_id = text "p";
  name = name;
  protocol = ProxyProtocol.trojan;
  server = text "a.example";
  port = 443;
  options = ProtocolOptions.trojan (text "secret");
  transport = none;
  tls = none;
}

abbrev pub best : NodePool
best = record {
  id = text "best";
  name = text "Best";
  kind = PoolKind.custom;
  sources = record { provider_id = text "p"; filter = any_node } ∷ [];
  selection = SelectionPolicy.manual (some (text "n1"));
  enabled = true;
}

abbrev pub office : RoutePolicy
office = record {
  id = text "r1";
  name = text "Office";
  enabled = true;
  priority = pos 0;
  matcher = TrafficMatcher.domain_suffix (text "office.example" ∷ []);
  target = RouteTarget.pool (text "best");
}

-- Two nodes, of which the filter of the pool takes the first.
abbrev pub demo : AppState
demo = record {
  schema_version = 6;
  default_target = RouteTarget.pool (text "best");
  active_subscription_id = some (text "s");
  active_configuration_generation = 1;
  subscriptions =
      record {
        id = text "s";
        name = text "Home";
        description = [];
        source = SubscriptionSource.manual;
        last_success_at_ms = none;
        last_attempt_at_ms = none;
        http_metadata = none;
        remote_request = none;
        update_policy = record { allow_auto_update = false; interval_minutes = none };
        skipped_unsupported_nodes = 0;
        document = none;
      }
      ∷ [];
  providers = record { id = text "p"; subscription_id = text "s"; name = text "Home" } ∷ [];
  nodes = trojan (text "n2") (text "Old node") ∷ trojan (text "n1") (text "New node") ∷ [];
  pools = best ∷ [];
  routes = office ∷ [];
}

abbrev demo_intent : RuntimeIntent
demo_intent = record {
  nodes = trojan (text "n1") (text "New node") ∷ trojan (text "n2") (text "Old node") ∷ [];
  pools =
      record {
        id = text "best";
        members = text "n1" ∷ [];
        selection = SelectionPolicy.manual (some (text "n1"));
      }
      ∷ [];
  routes = office ∷ [];
}

demo_compiles : from_state demo ≡ ok demo_intent
unfolding from_state validate unique_ids validate_target validate_provider validate_node
    resolve_pool_members validate_source validate_pool_selection validate_pool matcher_is_valid
    validate_route route_le target_missing any all retain find flat_map contains option_beq list_beq
    decide_beq for_each text_beq text_le present trim to_ascii_lowercase contains_text sort_by dedup
    validate_subscription validate_filter matches ProxyProtocol-discrete is_compatible_with
    has_required_values variant_matches tls_is_valid has_valid_early_data all_distinct
    update_policy_is_valid document_is_valid remote_request_is_valid metadata_is_valid is_control
    is_whitespace byte_length starts_with ascii_lower
demo_compiles = refl

pub demo_valid : validate demo ≡ ok tt
unfolding from_state validate unique_ids validate_target validate_provider validate_node
    resolve_pool_members validate_source validate_pool_selection validate_pool matcher_is_valid
    validate_route route_le target_missing any all retain find flat_map contains option_beq list_beq
    decide_beq for_each text_beq text_le present trim to_ascii_lowercase contains_text sort_by dedup
    validate_subscription validate_filter matches ProxyProtocol-discrete is_compatible_with
    has_required_values variant_matches tls_is_valid has_valid_early_data all_distinct
    update_policy_is_valid document_is_valid remote_request_is_valid metadata_is_valid is_control
    is_whitespace byte_length starts_with ascii_lower
demo_valid = refl

validate_iff_example : (validate demo ≡ ok tt) ↔ IsValid demo
validate_iff_example = validate_iff demo

from_state_iff_example :
    (((i : RuntimeIntent) × (from_state demo ≡ ok i)) ↔ IsReady demo)
    × ((i : RuntimeIntent)
        → from_state demo ≡ ok i
        → Perm i.nodes demo.nodes × Perm i.routes (retain (λ route. route.enabled) demo.routes))
from_state_iff_example = from_state_iff demo

from_state-IsClosed_example : IsClosed demo_intent
from_state-IsClosed_example = from_state-IsClosed demo demo_intent demo_compiles

resolve_lem_example :
    ((id : Text) → Member id (resolve_pool_members demo best) ↔ Resolves demo best id)
    × Distinct (resolve_pool_members demo best)
    × Sorted text_le (resolve_pool_members demo best)
resolve_lem_example = resolve_lem demo best
