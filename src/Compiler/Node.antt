-- ===== src/Compiler/Node.antt =====
-- How src-tauri/src/singbox/compiler.rs writes a node into the configuration, and how it reads one back:
-- `node_outbound`, `wireguard_endpoint`, and the `domain` functions.
pub mod Sound
pub mod Carried
pub mod ReadBack
use veyra.Base.{
  List, [], ◌∷◌, Option, none, some, Bool, true, false, ◌&&◌, ◌||◌, not, if◌then◌else◌, is_some,
  is_some_and, ◌==◌, Result, ok, err, ok_or, fail_if, map_ok, ◌>>=◌, ◌>>◌,
}
use veyra.Base.Text.{Text, text, text_eq, decimal}
use veyra.Base.Numbers.{parse_unsigned}
use veyra.Domain.Types.{ProxyNode, ProxyProtocol, ProtocolOptions, TlsOptions, Transport}
use veyra.Compiler.Document.{
  CompileError, CoreOutbound, CoreTls, CoreUtls, CoreTransport, Reality, NodeFields, Obfuscation,
  WireGuardEndpoint, WireGuardPeer,
}
use veyra.Compiler.Checks.{node_prefix, node_tag, strip_prefix}

-- `reality_public_key.zip(reality_short_id)`
abbrev pub core_reality : Option Text → Option Text → Option Reality
core_reality (some key) (some id) =
    some (record { enabled = true; public_key = key; short_id = id })
core_reality (some key) none = none
core_reality none id = none

abbrev pub core_utls : Option Text → Option Text → Option CoreUtls
core_utls key fingerprint =
    if is_some key || is_some fingerprint
    then some (record { enabled = true; fingerprint = fingerprint })
    else none

abbrev pub core_tls_of : TlsOptions → CoreTls
core_tls_of tls = record {
  enabled = true;
  insecure = tls.allow_insecure;
  server_name = tls.server_name;
  alpn = tls.alpn;
  reality = core_reality tls.reality_public_key tls.reality_short_id;
  utls = core_utls tls.reality_public_key tls.utls_fingerprint;
}

-- HTTPS with no further options
abbrev pub bare_tls : CoreTls
bare_tls = record {
  enabled = true;
  insecure = false;
  server_name = none;
  alpn = [];
  reality = none;
  utls = none;
}

abbrev pub core_tls : Option TlsOptions → ProtocolOptions → Option CoreTls
core_tls (some tls) options = some (core_tls_of tls)
core_tls none (ProtocolOptions.http username password true) = some bare_tls
core_tls none options = none

abbrev pub core_transport : Option Transport → Option CoreTransport
core_transport none = none
core_transport (some Transport.tcp) = none
core_transport (some (Transport.websocket path host max_early_data header_name)) =
    some (CoreTransport.websocket path host max_early_data header_name)
core_transport (some (Transport.grpc service_name)) = some (CoreTransport.grpc service_name)

-- The part of `make_node!` that all nodes share.
abbrev pub node_fields : ProxyNode → NodeFields
node_fields node = record {
  tag = node_tag node.id;
  server = node.server;
  server_port = node.port;
  tls = core_tls node.tls node.options;
  transport = core_transport node.transport;
}

abbrev pub salamander : Option Text → Option Obfuscation
salamander none = none
salamander (some password) = some (record { kind = text "salamander"; password = password })

abbrev invalid_node : {A : Type 0} → Option A → Result A CompileError
invalid_node o = ok_or o CompileError.invalid_node_configuration

unfoldable pub outbound_of : NodeFields → ProtocolOptions → Result CoreOutbound CompileError
outbound_of node (ProtocolOptions.socks version username password) =
    ok (CoreOutbound.socks node (decimal version) username password)
outbound_of node (ProtocolOptions.http username password tls) =
    ok (CoreOutbound.http node username password)
outbound_of node (ProtocolOptions.shadowsocks method password) =
    ok (CoreOutbound.shadowsocks node method password)
outbound_of node (ProtocolOptions.vmess uuid alter_id security) =
    ok (CoreOutbound.vmess node uuid alter_id security)
outbound_of node (ProtocolOptions.vless uuid flow) = ok (CoreOutbound.vless node uuid flow)
outbound_of node (ProtocolOptions.trojan password) = ok (CoreOutbound.trojan node password)
outbound_of node (ProtocolOptions.hysteria auth obfs up_mbps down_mbps) = do
  up ← invalid_node up_mbps
  down ← invalid_node down_mbps
  ok (CoreOutbound.hysteria node auth up down obfs)
outbound_of node (ProtocolOptions.hysteria2 password obfs up_mbps down_mbps disable) =
    ok (CoreOutbound.hysteria2 node password (salamander obfs) up_mbps down_mbps disable)
outbound_of node (ProtocolOptions.tuic uuid password congestion udp_relay zero_rtt) =
    ok (CoreOutbound.tuic node uuid password zero_rtt congestion udp_relay)
outbound_of node (ProtocolOptions.shadow_tls version password) =
    ok (CoreOutbound.shadowtls node version password)
outbound_of node (ProtocolOptions.ssh user password private_key passphrase host_key) =
    ok (CoreOutbound.ssh node user password private_key passphrase host_key)
outbound_of node (ProtocolOptions.naive username password) =
    ok (CoreOutbound.naive node username password)
outbound_of node (ProtocolOptions.any_tls password) = ok (CoreOutbound.anytls node password)
outbound_of node (ProtocolOptions.snell psk version) = ok (CoreOutbound.snell node psk version)
outbound_of node (ProtocolOptions.wire_guard a b c d e f) =
    err CompileError.unsupported_node_protocol

unfoldable pub node_outbound : ProxyNode → Result CoreOutbound CompileError
unfolding outbound_of
node_outbound node = outbound_of (node_fields node) node.options

abbrev pub all_addresses : List Text
all_addresses = text "0.0.0.0/0" ∷ text "::/0" ∷ []

unfoldable pub endpoint_of : ProxyNode → ProtocolOptions → Result WireGuardEndpoint CompileError
endpoint_of node
      (ProtocolOptions.wire_guard private_key peer_public_key pre_shared local_addresses mtu
        reserved) =
    ok (record {
      kind = text "wireguard";
      tag = node_tag node.id;
      system = false;
      address = local_addresses;
      private_key = private_key;
      mtu = mtu;
      peers =
          record {
            address = node.server;
            port = node.port;
            public_key = peer_public_key;
            pre_shared_key = pre_shared;
            reserved = reserved;
            allowed_ips = all_addresses;
          }
          ∷ [];
    })
endpoint_of node options = err CompileError.invalid_node_configuration

unfoldable pub wireguard_endpoint : ProxyNode → Result WireGuardEndpoint CompileError
unfolding endpoint_of
wireguard_endpoint node = endpoint_of node node.options

-- `valid_reality_utls`
abbrev reality_utls_is_valid : Option Reality → Option CoreUtls → Bool
reality_utls_is_valid none none = true
reality_utls_is_valid none (some utls) = utls.enabled && is_some utls.fingerprint
reality_utls_is_valid (some reality) (some utls) = reality.enabled && utls.enabled
reality_utls_is_valid (some reality) none = false

abbrev fingerprint_of : Option CoreUtls → Option Text
fingerprint_of none = none
fingerprint_of (some utls) = utls.fingerprint

abbrev key_of : Option Reality → Option Text
key_of none = none
key_of (some reality) = some reality.public_key

abbrev short_id_of : Option Reality → Option Text
short_id_of none = none
short_id_of (some reality) = some reality.short_id

-- `CoreTls::domain`
unfoldable pub tls_domain : CoreTls → Result TlsOptions CompileError
tls_domain tls = do
  fail_if (not tls.enabled || not (reality_utls_is_valid tls.reality tls.utls))
      CompileError.invalid_final_configuration
  ok (record {
    server_name = tls.server_name;
    allow_insecure = tls.insecure;
    alpn = tls.alpn;
    utls_fingerprint = fingerprint_of tls.utls;
    reality_public_key = key_of tls.reality;
    reality_short_id = short_id_of tls.reality;
  })

-- `CoreTransport::domain`
abbrev pub transport_domain : CoreTransport → Transport
transport_domain (CoreTransport.websocket path host max_early_data header_name) =
    Transport.websocket path host max_early_data header_name
transport_domain (CoreTransport.grpc service_name) = Transport.grpc service_name

abbrev pub transports_domain : Option CoreTransport → Option Transport
transports_domain none = none
transports_domain (some transport) = some (transport_domain transport)

-- `tls.map(CoreTls::domain).transpose()`
unfoldable pub tls_domains : Option CoreTls → Result (Option TlsOptions) CompileError
unfolding tls_domain
tls_domains none = ok none
tls_domains (some tls) = map_ok some (tls_domain tls)

abbrev pub compiler_provider : Text
compiler_provider = text "compiler"

-- `domain_node!`, its parts in the order in which they can fail
unfoldable pub domain_node :
    NodeFields
    → ProxyProtocol
    → Result ProtocolOptions CompileError
    → Result (Option ProxyNode) CompileError
unfolding tls_domains
domain_node node protocol parsed = do
  id ← ok_or (strip_prefix node.tag node_prefix) CompileError.invalid_final_configuration
  options ← parsed
  tls ← tls_domains node.tls
  ok (
      some (record {
        id = id;
        provider_id = compiler_provider;
        name = [];
        protocol = protocol;
        server = node.server;
        port = node.server_port;
        options = options;
        transport = transports_domain node.transport;
        tls = tls;
      }))

abbrev obfuscation_password : Option Obfuscation → Option Text
obfuscation_password none = none
obfuscation_password (some obfs) = some obfs.password

-- `CoreOutbound::domain`
unfoldable pub domain : CoreOutbound → Result (Option ProxyNode) CompileError
unfolding domain_node
domain (CoreOutbound.socks node version username password) = domain_node node ProxyProtocol.socks (
    map_ok (λ n. ProtocolOptions.socks n username password)
      (invalid_node (parse_unsigned 255 version)))
domain (CoreOutbound.http node username password) =
    domain_node node ProxyProtocol.http
      (ok (ProtocolOptions.http username password (is_some node.tls)))
domain (CoreOutbound.shadowsocks node method password) =
    domain_node node ProxyProtocol.shadowsocks (ok (ProtocolOptions.shadowsocks method password))
domain (CoreOutbound.vmess node uuid alter_id security) =
    domain_node node ProxyProtocol.vmess (ok (ProtocolOptions.vmess uuid alter_id security))
domain (CoreOutbound.vless node uuid flow) =
    domain_node node ProxyProtocol.vless (ok (ProtocolOptions.vless uuid flow))
domain (CoreOutbound.trojan node password) =
    domain_node node ProxyProtocol.trojan (ok (ProtocolOptions.trojan password))
domain (CoreOutbound.hysteria node auth up down obfs) =
    domain_node node ProxyProtocol.hysteria
      (ok (ProtocolOptions.hysteria auth obfs (some up) (some down)))
domain (CoreOutbound.hysteria2 node password obfs up_mbps down_mbps disable) = do
  fail_if (is_some_and obfs (λ o. not (o.kind == text "salamander")))
      CompileError.invalid_final_configuration
  domain_node node ProxyProtocol.hysteria2 (
      ok (ProtocolOptions.hysteria2 password (obfuscation_password obfs) up_mbps down_mbps disable))
domain (CoreOutbound.tuic node uuid password zero_rtt congestion udp_relay) =
    domain_node node ProxyProtocol.tuic
      (ok (ProtocolOptions.tuic uuid password congestion udp_relay zero_rtt))
domain (CoreOutbound.shadowtls node version password) =
    domain_node node ProxyProtocol.shadow_tls (ok (ProtocolOptions.shadow_tls version password))
domain (CoreOutbound.ssh node user password private_key passphrase host_key) =
    domain_node node ProxyProtocol.ssh
      (ok (ProtocolOptions.ssh user password private_key passphrase host_key))
domain (CoreOutbound.naive node username password) =
    domain_node node ProxyProtocol.naive (ok (ProtocolOptions.naive username password))
domain (CoreOutbound.anytls node password) =
    domain_node node ProxyProtocol.any_tls (ok (ProtocolOptions.any_tls password))
domain (CoreOutbound.snell node psk version) =
    domain_node node ProxyProtocol.snell (ok (ProtocolOptions.snell psk version))
domain (CoreOutbound.direct tag) = ok none
domain (CoreOutbound.block tag) = ok none
domain (CoreOutbound.selector tag outbounds default) = ok none
domain (CoreOutbound.urltest tag outbounds url interval tolerance) = ok none
