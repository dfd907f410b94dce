-- ===== src/Compiler/Compile.antt =====
-- `SingBoxCompiler::compile` and `SingBoxPlan::finalize` of src-tauri/src/singbox/compiler.rs. There is
-- one DNS policy and one profile, so they are no arguments. `parse` is `reqwest::Url::parse`.
pub mod Parts
pub mod Carries
use veyra.Base.{
  List, [], ◌∷◌, ◌++◌, map, Option, none, some, Bool, true, false, if◌then◌else◌, is_empty, any,
  retain, contains, not, ◌==◌, ◌⊎◌, inl, inr, Result, ok, err, ok_or, fail_if, map_ok, ◌>>=◌, ◌>>◌,
}
use veyra.Base.Text.{Text, text, text_eq, text_le, decimal}
use veyra.Base.Order.{sort_by, dedup}
use veyra.Domain.Types.{
  ProxyNode, ProxyProtocol, RouteTarget, RoutePolicy, SelectionPolicy, TrafficMatcher, NodeId,
}
use veyra.Domain.Options.{protocol_eq}
use veyra.Domain.State.{RuntimeIntent, RuntimePool, node_le, pool_le, route_le}
use veyra.Routing.Input.{Url}
use veyra.Compiler.Document.{
  CompileError, CoreOutbound, CoreRule, Document, DnsServer, WireGuardEndpoint,
}
use veyra.Compiler.Checks.{node_tag, pool_tag}
use veyra.Compiler.Node.{node_outbound, wireguard_endpoint}
use veyra.Compiler.NodeCheck.{validate_node}
use veyra.Compiler.Validate.{dns_tag, api_address, direct_tag, block_tag}
use veyra.Compiler.Managed.{validate}

abbrev bad_target : {A : Type 0} → Result A CompileError
bad_target = err CompileError.invalid_route_target

unfoldable pub final_target : List RuntimePool → RouteTarget → Result Text CompileError
final_target pools (RouteTarget.pool default_pool) =
    if any (λ pool. pool.id == default_pool) pools then ok (pool_tag default_pool) else bad_target
final_target pools RouteTarget.direct = ok direct_tag
final_target pools RouteTarget.block = ok block_tag
final_target pools RouteTarget.unconfigured = bad_target

-- What a node becomes: an outbound, or the endpoint of a WireGuard tunnel.
unfoldable pub compile_node : ProxyNode → Result (CoreOutbound ⊎ WireGuardEndpoint) CompileError
compile_node node =
    if node.protocol == ProxyProtocol.wire_guard
    then map_ok inr (wireguard_endpoint node)
    else map_ok inl (node_outbound node)

pub record CompiledNodes : Type 0 where
  pub outbounds : List CoreOutbound
  pub endpoints : List WireGuardEndpoint

unfoldable pub push_compiled : CoreOutbound ⊎ WireGuardEndpoint → CompiledNodes → CompiledNodes
push_compiled (inl o) c = record c { outbounds = o ∷ c.outbounds }
push_compiled (inr e) c = record c { endpoints = e ∷ c.endpoints }

unfoldable pub compile_nodes : List ProxyNode → Result CompiledNodes CompileError
unfolding compile_node push_compiled
compile_nodes [] = ok (record { outbounds = []; endpoints = [] })
compile_nodes (node ∷ nodes) = validate_node node >> compile_node node >>= λ compiled.
    map_ok (push_compiled compiled) (compile_nodes nodes)

unfoldable pub pool_outbound : Text → List Text → SelectionPolicy → CoreOutbound
pool_outbound tag members (SelectionPolicy.manual none) = CoreOutbound.selector tag members none
pool_outbound tag members (SelectionPolicy.manual (some id)) =
    CoreOutbound.selector tag members (some (node_tag id))
pool_outbound tag members (SelectionPolicy.url_test probe_url interval_secs tolerance_ms) =
    CoreOutbound.urltest tag members probe_url (decimal interval_secs ++ text "s") tolerance_ms

unfoldable pub member_tags : List NodeId → List Text
member_tags members = dedup (sort_by text_le (map node_tag members))

unfoldable pub compile_pools : List RuntimePool → Result (List CoreOutbound) CompileError
unfolding pool_outbound member_tags
compile_pools [] = ok []
compile_pools (pool ∷ pools) = do
  fail_if (is_empty pool.members) CompileError.empty_pool_membership
  map_ok (λ rest. pool_outbound (pool_tag pool.id) (member_tags pool.members) pool.selection ∷ rest)
      (compile_pools pools)

abbrev pub blank_rule : CoreRule
blank_rule = record {
  inbound = none;
  action = none;
  outbound = none;
  domain = none;
  domain_suffix = none;
  process_name = none;
  ip_cidr = none;
  port = none;
  network = none;
}

-- `CoreRule::reject`
abbrev pub reject : List Text → CoreRule
reject tags = record blank_rule { inbound = some tags; action = some (text "reject") }

unfoldable pub target_tag : RouteTarget → Result Text CompileError
target_tag (RouteTarget.pool id) = ok (pool_tag id)
target_tag RouteTarget.direct = ok direct_tag
target_tag RouteTarget.block = ok block_tag
target_tag RouteTarget.unconfigured = bad_target

unfoldable pub match_rule : CoreRule → TrafficMatcher → CoreRule
match_rule rule (TrafficMatcher.domain values) = record rule { domain = some values }
match_rule rule (TrafficMatcher.domain_suffix values) = record rule { domain_suffix = some values }
match_rule rule (TrafficMatcher.application values) = record rule { process_name = some values }
match_rule rule (TrafficMatcher.ip_cidr values) = record rule { ip_cidr = some values }
match_rule rule (TrafficMatcher.port values) = record rule { port = some values }
match_rule rule (TrafficMatcher.protocol values) = record rule { network = some values }

unfoldable pub route_rule : RoutePolicy → Result CoreRule CompileError
unfolding target_tag match_rule
route_rule route =
    map_ok (λ outbound. match_rule (record blank_rule { outbound = some outbound }) route.matcher)
      (target_tag route.target)

unfoldable pub route_rules : List RoutePolicy → Result (List CoreRule) CompileError
unfolding route_rule
route_rules [] = ok []
route_rules (route ∷ routes) =
    route_rule route >>= λ rule. map_ok (λ rest. rule ∷ rest) (route_rules routes)

-- The rejection of what comes in over the tunnels, if there are any.
unfoldable pub ingress_rules : List Text → List CoreRule
ingress_rules [] = []
ingress_rules (t ∷ ts) = reject (t ∷ ts) ∷ []

unfoldable pub document_of : CompiledNodes → List CoreOutbound → List CoreRule → Text → Document
unfolding ingress_rules
document_of nodes pools rules final_outbound =
    let ingress = map (λ e. e.tag) nodes.endpoints in
    record {
      log_disabled = true;
      dns = record {
        servers = record { kind = text "local"; tag = dns_tag } ∷ [];
        final_server = dns_tag;
        rules = ingress_rules ingress;
      };
      inbounds = 0;
      outbounds =
          nodes.outbounds
          ++ (pools ++ (CoreOutbound.direct direct_tag ∷ CoreOutbound.block block_tag ∷ []));
      endpoints = nodes.endpoints;
      route = record {
        rules = ingress_rules ingress ++ rules;
        final_outbound = final_outbound;
        default_domain_resolver = dns_tag;
      };
      clash_api = record { external_controller = api_address; secret = [] };
    }

unfoldable pub compile :
    (Text → Option Url) → RuntimeIntent → RouteTarget → Result Document CompileError
unfolding final_target compile_nodes compile_pools route_rules document_of
compile parse intent default_target = do
  final_outbound ← final_target intent.pools default_target
  nodes ← compile_nodes (sort_by node_le intent.nodes)
  pools ← compile_pools (sort_by pool_le intent.pools)
  rules ← route_rules (sort_by route_le (retain (λ route. route.enabled) intent.routes))
  let document = document_of nodes pools rules final_outbound
  validate parse false document
  ok document
