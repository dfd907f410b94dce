-- ===== src/Witnesses/Compiler.antt =====
-- An intent with a Shadowsocks node and a WireGuard tunnel, for the theorems on
-- src-tauri/src/singbox/compiler.rs.
use veyra.Base.{
  sym, all, any, retain, option_beq, list_beq, decide_beq, for_each, ◌≡◌, refl, [], ◌∷◌, map,
  Option, none, some, true, false, ok, err, All, contains, if◌then◌else◌, ok_or,
}
use veyra.Base.Text.{
  text_eq, Text, text, trim, is_whitespace, is_control, byte_length, utf8_width, split, starts_with,
  present, text_le, text_beq,
}
use veyra.Base.Numbers.{parse_unsigned, digits_from}
use veyra.Base.Ip.{parse_ip}
use veyra.Base.Order.{sort_by, dedup}
use veyra.Domain.Options.{is_compatible_with, variant_matches, has_required_values, all_distinct}
use veyra.Compiler.Checks
use veyra.Domain.Types.{
  ProxyNode, ProxyProtocol, ProtocolOptions, SelectionPolicy, RouteTarget, ProxyProtocol-discrete,
}
use veyra.Domain.State.{RuntimeIntent, route_le}
use veyra.Routing.Input.{Url}
use veyra.Compiler.Document.{CompileError, CoreOutbound, Document}
use veyra.Compiler.Checks.{valid_secret}
use veyra.Compiler.Node.{node_outbound, wireguard_endpoint, tls_domains, domain, all_addresses}
use veyra.Compiler.Node.Carried.{carried_node, IsCarried}
use veyra.Compiler.Node.ReadBack.{domain-node_outbound}
use veyra.Compiler.NodeCheck.{validate_node}
use veyra.Compiler.Validate.{
  add_outbound, add_outbounds, add_endpoints, endpoint_node, is_ingress_reject,
}
use veyra.Compiler.Managed.{validate, validate_members, servers_are_valid}
use veyra.Compiler.Managed.Names.{IsClosed}
use veyra.Compiler.Managed.Closed.{validate-IsClosed}
use veyra.Compiler.Compile.{
  compile, compile_node, document_of, CompiledNodes, blank_rule, target_tag,
}
use veyra.Compiler.Compile.Parts.{compile-IsMade}
use veyra.Compiler.Compile.Carries.{Carries, compile-Carries}
use veyra.Compiler.Traffic.{Connection, Outcome, outcome}
use veyra.Compiler.Traffic.First.{Asked}
use veyra.Compiler.Traffic.Obeyed.{compile-Asked}
use veyra.Compiler.Finalize.{Serde, IsFaithful, bind_secret, finalize}
use veyra.Compiler.Finalize.Bound.{Finalizes, finalize-lem}
use veyra.Witnesses.Domain.{office}

abbrev shadow : ProxyNode
shadow = record {
  id = text "n1";
  provider_id = text "p";
  name = text "New node";
  protocol = ProxyProtocol.shadowsocks;
  server = text "a.example";
  port = 443;
  options = ProtocolOptions.shadowsocks (text "aes-128-gcm") (text "secret");
  transport = none;
  tls = none;
}

abbrev key : Text
key = text "AAAAAAAAAAAAAAAAAAAAAAAAAAAAAAAAAAAAAAAAAAA="

abbrev tunnel : ProxyNode
tunnel = record shadow {
  id = text "n2";
  protocol = ProxyProtocol.wire_guard;
  server = text "10.0.0.1";
  options = ProtocolOptions.wire_guard key key none (text "10.1.0.2/32" ∷ []) none none;
}

abbrev intent : RuntimeIntent
intent = record {
  nodes = tunnel ∷ shadow ∷ [];
  pools =
      record {
        id = text "best";
        members = text "n1" ∷ text "n2" ∷ [];
        selection = SelectionPolicy.manual (some (text "n1"));
      }
      ∷ [];
  routes = office ∷ [];
}

abbrev no_urls : Text → Option Url
no_urls value = none

abbrev shadow_outbound : CoreOutbound
shadow_outbound =
    CoreOutbound.shadowsocks
      (record {
        tag = text "node-n1";
        server = text "a.example";
        server_port = 443;
        tls = none;
        transport = none;
      })
      (text "aes-128-gcm") (text "secret")

abbrev nodes : CompiledNodes
nodes = record {
  outbounds = shadow_outbound ∷ [];
  endpoints =
      record {
        kind = text "wireguard";
        tag = text "node-n2";
        system = false;
        address = text "10.1.0.2/32" ∷ [];
        private_key = key;
        mtu = none;
        peers =
            record {
              address = text "10.0.0.1";
              port = 443;
              public_key = key;
              pre_shared_key = none;
              reserved = none;
              allowed_ips = all_addresses;
            }
            ∷ [];
      }
      ∷ [];
}

abbrev plan : Document
plan =
    document_of nodes
      (CoreOutbound.selector (text "pool-best") (text "node-n1" ∷ text "node-n2" ∷ [])
          (some (text "node-n1"))
        ∷ [])
      (record blank_rule {
        outbound = some (text "pool-best");
        domain_suffix = some (text "office.example" ∷ []);
      }
        ∷ [])
      (text "direct")

intent_compiles : compile no_urls intent RouteTarget.direct ≡ ok plan
unfolding compile validate sort_by text_le route_le retain any compile_node wireguard_endpoint
    node_outbound domain tls_domains Checks.node_tag Checks.pool_tag Checks.strip_prefix
    Checks.valid_tag Checks.valid_key Checks.valid_prefix parse_unsigned digits_from dedup
    add_outbound add_outbounds add_endpoints endpoint_node is_ingress_reject option_beq list_beq
    text_beq for_each all_distinct decide_beq ProxyProtocol-discrete validate_members
    servers_are_valid is_control validate_node Checks.present trim is_whitespace contains
    Checks.valid_server parse_ip byte_length utf8_width all split starts_with is_compatible_with
    variant_matches has_required_values present
intent_compiles = refl

shadow_valid : validate_node shadow ≡ ok tt
unfolding validate_node Checks.present trim is_whitespace contains Checks.valid_server parse_ip
    byte_length utf8_width all split starts_with is_compatible_with variant_matches
    has_required_values present
shadow_valid = refl

shadow_written : node_outbound shadow ≡ ok shadow_outbound
unfolding node_outbound Checks.node_tag
shadow_written = refl

plan_checked : validate no_urls false plan ≡ ok tt
plan_checked = (compile-IsMade no_urls intent RouteTarget.direct plan intent_compiles).checked

plan_has_tunnel : contains (map (λ e. e.tag) plan.endpoints) (text "node-n2") ≡ true
unfolding document_of contains text_beq
plan_has_tunnel = refl

domain-node_outbound_example :
    (domain shadow_outbound ≡ ok (some (carried_node shadow)))
    × IsCarried shadow (carried_node shadow)
domain-node_outbound_example =
    domain-node_outbound shadow shadow_outbound shadow_valid shadow_written

compile-Carries_example : All (Carries plan.outbounds plan.endpoints) intent.nodes
compile-Carries_example = compile-Carries no_urls intent RouteTarget.direct plan intent_compiles

validate-IsClosed_example : IsClosed plan
validate-IsClosed_example = validate-IsClosed no_urls false plan plan_checked

-- A connection of the host to the office.
abbrev from_host : Connection
from_host = record { tunnel = none; meets = λ m. true }

compile-Asked_example :
    (target : RouteTarget) × (tag : Text) × Asked from_host intent.routes RouteTarget.direct target
    × (target_tag target ≡ ok tag)
    × (outcome plan from_host ≡ Outcome.sent_to tag)
compile-Asked_example =
    compile-Asked no_urls intent RouteTarget.direct plan from_host intent_compiles refl

abbrev from_tunnel : Connection
from_tunnel = record { tunnel = some (text "node-n2"); meets = λ m. true }

-- A serializer that keeps the document as it is.
abbrev kept : Serde Document
kept = record { encode = λ d. some d; decode = λ b. some b; is_canonical = λ b d. some true }

kept-IsFaithful : IsFaithful kept
kept-IsFaithful = record { decode-encode = λ d b h. sym h; canonical = λ d b h. refl }

abbrev secret : Text
secret = text "00112233445566778899aabbccddeeff00112233445566778899aabbccddeeff"

finalize-lem_example :
    Finalizes kept no_urls plan secret (finalize kept no_urls plan secret)
    × (finalize kept no_urls plan secret ≡ (
        if valid_secret secret
        then ok_or (kept.encode (bind_secret plan secret)) CompileError.serialization_failed
        else err CompileError.invalid_final_configuration))
finalize-lem_example =
    finalize-lem kept kept no_urls intent RouteTarget.direct plan secret kept-IsFaithful
      intent_compiles
