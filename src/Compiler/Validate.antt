-- ===== src/Compiler/Validate.antt =====
-- `Document::validate_standard` of src-tauri/src/singbox/compiler.rs: the checks on a whole
-- configuration, which `validate` is in a build without tests. Sets of tags are lists.
pub mod Outbounds
pub mod Tunnels
pub mod Counts
use veyra.Base.{
  ℕ, zero, suc, ◌+◌, List, [], ◌∷◌, Option, none, some, Bool, true, false, ◌&&◌, ◌||◌, not,
  if◌then◌else◌, is_some, is_some_and, is_empty, all, any, contains, length, ltb, nat_beq, ◌==◌,
  option_beq, list_eq, Result, ok, err, fail_if, for_each, ◌>>=◌, ◌>>◌,
}
use veyra.Base.Text.{Text, text, text_eq, text_le}
use veyra.Base.Numbers.{parse_unsigned}
use veyra.Base.Order.{sort_by}
use veyra.Domain.Types.{ProxyNode, ProxyProtocol, ProtocolOptions}
use veyra.Domain.Options.{all_distinct}
use veyra.Routing.Input.{Url}
use veyra.Compiler.Document.{
  CompileError, CoreOutbound, CoreRule, Document, WireGuardEndpoint, WireGuardPeer,
}
use veyra.Compiler.Checks.{
  present, node_prefix, pool_prefix, strip_suffix, valid_tag, valid_secret, valid_prefix,
  valid_probe_url,
}
use veyra.Compiler.Node.{domain, all_addresses, compiler_provider}
use veyra.Compiler.NodeCheck.{validate_node}

abbrev pub dns_tag : Text
dns_tag = text "dns-system"

abbrev pub api_address : Text
api_address = text "127.0.0.1:9090"

abbrev pub direct_tag : Text
direct_tag = text "direct"

abbrev pub block_tag : Text
block_tag = text "block"

-- `CoreOutbound::tag`
abbrev pub tag_of : CoreOutbound → Text
tag_of (CoreOutbound.socks node a b c) = node.tag
tag_of (CoreOutbound.http node a b) = node.tag
tag_of (CoreOutbound.shadowsocks node a b) = node.tag
tag_of (CoreOutbound.vmess node a b c) = node.tag
tag_of (CoreOutbound.vless node a b) = node.tag
tag_of (CoreOutbound.trojan node a) = node.tag
tag_of (CoreOutbound.hysteria node a b c d) = node.tag
tag_of (CoreOutbound.hysteria2 node a b c d e) = node.tag
tag_of (CoreOutbound.tuic node a b c d e) = node.tag
tag_of (CoreOutbound.shadowtls node a b) = node.tag
tag_of (CoreOutbound.ssh node a b c d e) = node.tag
tag_of (CoreOutbound.naive node a b) = node.tag
tag_of (CoreOutbound.anytls node a) = node.tag
tag_of (CoreOutbound.snell node a b) = node.tag
tag_of (CoreOutbound.direct tag) = tag
tag_of (CoreOutbound.block tag) = tag
tag_of (CoreOutbound.selector tag a b) = tag
tag_of (CoreOutbound.urltest tag a b c d) = tag

-- `CoreRule::matcher_count`
abbrev count_some : {A : Type 0} → Option A → ℕ
count_some none = 0
count_some (some a) = 1

abbrev pub matcher_count : CoreRule → ℕ
matcher_count rule =
    count_some rule.domain
    + count_some rule.domain_suffix
    + count_some rule.process_name
    + count_some rule.ip_cidr
    + count_some rule.port
    + count_some rule.network

-- `CoreRule::is_ingress_reject`
unfoldable pub is_ingress_reject : CoreRule → List Text → Bool
is_ingress_reject rule tags =
    option_beq rule.inbound (some tags)
    && option_beq rule.action (some (text "reject"))
    && not (is_some rule.outbound)
    && nat_beq (matcher_count rule) 0

-- The sets and counters that the loops over outbounds and endpoints fill.
pub record Tags : Type 0 where
  pub tags : List Text
  pub node_tags : List Text
  pub pool_tags : List Text
  pub direct_count : ℕ
  pub block_count : ℕ

abbrev pub no_tags : Tags
no_tags = record { tags = []; node_tags = []; pool_tags = []; direct_count = 0; block_count = 0 }

abbrev rejected : {A : Type 0} → Result A CompileError
rejected = err CompileError.invalid_final_configuration

abbrev pub reject_if : Bool → Result (Unit {0}) CompileError
reject_if t = fail_if t CompileError.invalid_final_configuration

unfoldable pub add_pool : Tags → Text → Result Tags CompileError
add_pool t tag =
    if valid_tag tag pool_prefix then ok (record t { pool_tags = tag ∷ t.pool_tags }) else rejected

-- An outbound that is no node.
unfoldable pub add_other : Tags → CoreOutbound → Result Tags CompileError
unfolding add_pool
add_other t (CoreOutbound.direct tag) =
    if tag == direct_tag then ok (record t { direct_count = t.direct_count + 1 }) else rejected
add_other t (CoreOutbound.block tag) =
    if tag == block_tag then ok (record t { block_count = t.block_count + 1 }) else rejected
add_other t (CoreOutbound.selector tag outbounds default) = add_pool t tag
add_other t (CoreOutbound.urltest tag outbounds url interval tolerance) = add_pool t tag
add_other t outbound = rejected

unfoldable pub add_read : Tags → CoreOutbound → Option ProxyNode → Result Tags CompileError
unfolding add_other
add_read t outbound (some node) = do
  validate_node node
  ok (record t { node_tags = tag_of outbound ∷ t.node_tags })
add_read t outbound none = add_other t outbound

unfoldable pub add_outbound : Tags → CoreOutbound → Result Tags CompileError
unfolding add_read
add_outbound t outbound = do
  reject_if (contains t.tags (tag_of outbound))
  node ← domain outbound
  add_read (record t { tags = tag_of outbound ∷ t.tags }) outbound node

unfoldable pub add_outbounds : Tags → List CoreOutbound → Result Tags CompileError
add_outbounds t [] = ok t
add_outbounds t (o ∷ os) = add_outbound t o >>= λ u. add_outbounds u os

drop : ℕ → Text → Text
drop zero s = s
drop (suc n) [] = []
drop (suc n) (c ∷ cs) = drop n cs

-- `endpoint.tag[5..]` and the other fields, read back as a node
unfoldable pub endpoint_node : WireGuardEndpoint → WireGuardPeer → ProxyNode
unfolding drop
endpoint_node endpoint peer = record {
  id = drop 5 endpoint.tag;
  provider_id = compiler_provider;
  name = [];
  protocol = ProxyProtocol.wire_guard;
  server = peer.address;
  port = peer.port;
  options =
      ProtocolOptions.wire_guard endpoint.private_key peer.public_key peer.pre_shared_key
        endpoint.address endpoint.mtu peer.reserved;
  transport = none;
  tls = none;
}

unfoldable pub add_peers : Tags → WireGuardEndpoint → List WireGuardPeer → Result Tags CompileError
add_peers t endpoint (peer ∷ []) = do
  reject_if (
      not (endpoint.kind == text "wireguard")
      || endpoint.system
      || not (valid_tag endpoint.tag node_prefix)
      || contains t.tags endpoint.tag)
  reject_if (not (peer.allowed_ips == all_addresses))
  validate_node (endpoint_node endpoint peer)
  ok (record t { tags = endpoint.tag ∷ t.tags; node_tags = endpoint.tag ∷ t.node_tags })
add_peers t endpoint peers = rejected

unfoldable pub add_endpoints : Tags → List WireGuardEndpoint → Result Tags CompileError
unfolding add_peers
add_endpoints t [] = ok t
add_endpoints t (e ∷ es) = add_peers t e e.peers >>= λ u. add_endpoints u es
