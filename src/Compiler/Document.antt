-- ===== src/Compiler/Document.antt =====
-- The closed model of the core configuration in src-tauri/src/singbox/compiler.rs, `Document` and its
-- parts, as a build without tests has them.
use veyra.Base.{ℕ, List, Option, Bool}
use veyra.Base.Text.{Text}
use veyra.Domain.Types.{NetworkProtocol}

pub data CompileError : Type 0 where
  empty_pool_membership invalid_node_configuration invalid_route_target unsupported_node_protocol
        invalid_final_configuration serialization_failed :
      CompileError

pub record DnsServer : Type 0 where
  pub kind : Text
  pub tag : Text

pub record CoreRule : Type 0 where
  pub inbound : Option (List Text)
  pub action : Option Text
  pub outbound : Option Text
  pub domain : Option (List Text)
  pub domain_suffix : Option (List Text)
  pub process_name : Option (List Text)
  pub ip_cidr : Option (List Text)
  pub port : Option (List ℕ)
  pub network : Option (List NetworkProtocol)

pub record DnsConfig : Type 0 where
  pub servers : List DnsServer
  pub final_server : Text
  pub rules : List CoreRule

pub record RouteConfig : Type 0 where
  pub rules : List CoreRule
  pub final_outbound : Text
  pub default_domain_resolver : Text

pub record ClashApi : Type 0 where
  pub external_controller : Text
  pub secret : Text

pub record Reality : Type 0 where
  pub enabled : Bool
  pub public_key : Text
  pub short_id : Text

pub record CoreUtls : Type 0 where
  pub enabled : Bool
  pub fingerprint : Option Text

pub record CoreTls : Type 0 where
  pub enabled : Bool
  pub insecure : Bool
  pub server_name : Option Text
  pub alpn : List Text
  pub reality : Option Reality
  pub utls : Option CoreUtls

pub data CoreTransport : Type 0 where
  -- path, the host of the headers, max_early_data, early_data_header_name
  websocket : Text → Option Text → Option ℕ → Option Text → CoreTransport
  -- service_name
  grpc : Text → CoreTransport

-- The fields that the macro `node_options!` gives every node.
pub record NodeFields : Type 0 where
  pub tag : Text
  pub server : Text
  pub server_port : ℕ
  pub tls : Option CoreTls
  pub transport : Option CoreTransport

pub record Obfuscation : Type 0 where
  pub kind : Text
  pub password : Text

pub data CoreOutbound : Type 0 where
  -- version, username, password
  socks : NodeFields → Text → Option Text → Option Text → CoreOutbound
  -- username, password
  http : NodeFields → Option Text → Option Text → CoreOutbound
  -- method, password
  shadowsocks : NodeFields → Text → Text → CoreOutbound
  -- uuid, alter_id, security
  vmess : NodeFields → Text → Option ℕ → Option Text → CoreOutbound
  -- uuid, flow
  vless : NodeFields → Text → Option Text → CoreOutbound
  -- password
  trojan : NodeFields → Text → CoreOutbound
  -- auth_str, up_mbps, down_mbps, obfs
  hysteria : NodeFields → Text → ℕ → ℕ → Option Text → CoreOutbound
  -- password, obfs, up_mbps, down_mbps, disable_path_mtu_discovery
  hysteria2 :
      NodeFields → Text → Option Obfuscation → Option ℕ → Option ℕ → Option Bool → CoreOutbound
  -- uuid, password, zero_rtt_handshake, congestion_control, udp_relay_mode
  tuic : NodeFields → Text → Text → Bool → Option Text → Option Text → CoreOutbound
  -- version, password
  shadowtls : NodeFields → ℕ → Text → CoreOutbound
  -- user, password, private_key, private_key_passphrase, host_key
  ssh : NodeFields → Text → Option Text → Option Text → Option Text → Option Text → CoreOutbound
  -- username, password
  naive : NodeFields → Text → Text → CoreOutbound
  -- password
  anytls : NodeFields → Text → CoreOutbound
  -- psk, version
  snell : NodeFields → Text → ℕ → CoreOutbound
  -- tag
  direct block : Text → CoreOutbound
  -- tag, outbounds, default
  selector : Text → List Text → Option Text → CoreOutbound
  -- tag, outbounds, url, interval, tolerance
  urltest : Text → List Text → Text → Text → ℕ → CoreOutbound

pub record WireGuardPeer : Type 0 where
  pub address : Text
  pub port : ℕ
  pub public_key : Text
  pub pre_shared_key : Option Text
  pub reserved : Option (List ℕ)
  pub allowed_ips : List Text

pub record WireGuardEndpoint : Type 0 where
  pub kind : Text
  pub tag : Text
  pub system : Bool
  pub address : List Text
  pub private_key : Text
  pub mtu : Option ℕ
  pub peers : List WireGuardPeer

-- `inbounds : Vec<()>` is the number of its entries, `log` its field `disabled`, and `experimental` its
-- field `clash_api`.
pub record Document : Type 0 where
  pub log_disabled : Bool
  pub dns : DnsConfig
  pub inbounds : ℕ
  pub outbounds : List CoreOutbound
  pub endpoints : List WireGuardEndpoint
  pub route : RouteConfig
  pub clash_api : ClashApi
