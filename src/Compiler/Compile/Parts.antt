-- ===== src/Compiler/Compile/Parts.antt =====
-- The steps of a compilation of src-tauri/src/singbox/compiler.rs that succeeds.
use veyra.Base.{◌≡◌, sym, List, Option, false, retain, ok, >>=-eq-ok, >>-eq-ok, arith}
use veyra.Base.Text.{Text, text_eq}
use veyra.Base.Order.{sort_by}
use veyra.Domain.Types.{RouteTarget, RoutePolicy}
use veyra.Domain.State.{RuntimeIntent, RuntimePool, node_le, pool_le, route_le}
use veyra.Routing.Input.{Url}
use veyra.Compiler.Document.{CoreOutbound, CoreRule, Document}
use veyra.Compiler.Managed.{validate}
use veyra.Compiler.Compile.{
  CompiledNodes, final_target, target_tag, compile_nodes, compile_pools, route_rules, document_of,
  compile,
}

-- The routes that are compiled, in their order.
abbrev pub active_routes : RuntimeIntent → List RoutePolicy
active_routes intent = sort_by route_le (retain (λ route. route.enabled) intent.routes)

pub record IsMade (parse : Text → Option Url) (intent : RuntimeIntent) (default : RouteTarget)
    (d : Document) : Type 0 where
  pub final_outbound : Text
  pub nodes : CompiledNodes
  pub pools : List CoreOutbound
  pub rules : List CoreRule
  pub final : final_target intent.pools default ≡ ok final_outbound
  pub nodes_made : compile_nodes (sort_by node_le intent.nodes) ≡ ok nodes
  pub pools_made : compile_pools (sort_by pool_le intent.pools) ≡ ok pools
  pub rules_made : route_rules (active_routes intent) ≡ ok rules
  pub whole : document_of nodes pools rules final_outbound ≡ d
  pub checked : validate parse false d ≡ ok tt

pub compile-IsMade :
    (parse : Text → Option Url) (intent : RuntimeIntent) (default : RouteTarget) (d : Document)
    → compile parse intent default ≡ ok d
    → IsMade parse intent default d
unfolding compile
compile-IsMade parse intent default d h =
    let (f, a, h1) = >>=-eq-ok (final_target intent.pools default) _ h in
    let (n, b, h2) = >>=-eq-ok (compile_nodes (sort_by node_le intent.nodes)) _ h1 in
    let (p, c, h3) = >>=-eq-ok (compile_pools (sort_by pool_le intent.pools)) _ h2 in
    let (r, e, h4) = >>=-eq-ok (route_rules (active_routes intent)) _ h3 in
    let (v, w) =
      >>-eq-ok (validate parse false (document_of n p r f)) (ok (document_of n p r f)) h4 in
    let q : document_of n p r f ≡ d = cc in
    record {
      final_outbound = f;
      nodes = n;
      pools = p;
      rules = r;
      final = a;
      nodes_made = b;
      pools_made = c;
      rules_made = e;
      whole = q;
      checked = rw (sym q) v;
    }

-- The default target, where it is taken, has the tag of a route target.
pub final_target-tag :
    (pools : List RuntimePool) (default : RouteTarget) (tag : Text)
    → final_target pools default ≡ ok tag
    → target_tag default ≡ ok tag
unfolding final_target target_tag
final_target-tag pools (RouteTarget.pool id) tag h = ground arith
final_target-tag pools RouteTarget.direct tag h = h
final_target-tag pools RouteTarget.block tag h = h
final_target-tag pools RouteTarget.unconfigured tag h = cc
