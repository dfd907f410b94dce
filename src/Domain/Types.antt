-- ===== src/Domain/Types.antt =====
-- The data types of src-tauri/src/domain/state.rs. The identifiers are transparent wrappers of text,
-- so they are text here; `u8` to `u64` fields are numbers, whose width the decoder has checked.
use veyra.Base.{ℕ, List, Option, Bool, ℕ_discrete, ◌*◌, [], none}
use veyra.Base.Int.{ℤ}
use veyra.Base.Text.{Text}

abbrev pub current_schema_version : ℕ
current_schema_version = 6

abbrev pub max_safe_integer : ℕ
max_safe_integer = 9_007_199_254_740_991

abbrev pub max_subscription_document_bytes : ℕ
max_subscription_document_bytes = 4 * 1024 * 1024

abbrev pub SubscriptionId : Type 0
SubscriptionId = Text

abbrev pub ProviderId : Type 0
ProviderId = Text

abbrev pub NodeId : Type 0
NodeId = Text

abbrev pub PoolId : Type 0
PoolId = Text

abbrev pub RoutePolicyId : Type 0
RoutePolicyId = Text

pub data SubscriptionDocumentFormat : Type 0 where
  json yaml : SubscriptionDocumentFormat

pub record SubscriptionDocument : Type 0 where
  pub format : SubscriptionDocumentFormat
  pub content : Text
  pub local_override : Bool

pub data SubscriptionProxyMode : Type 0 where
  direct system managed_core : SubscriptionProxyMode

pub record RemoteRequestOptions : Type 0 where
  pub user_agent : Option Text
  pub timeout_seconds : ℕ
  pub proxy_mode : SubscriptionProxyMode
  pub verify_tls : Bool

pub record SubscriptionUpdatePolicy : Type 0 where
  pub allow_auto_update : Bool
  pub interval_minutes : Option ℕ

pub data SubscriptionSource : Type 0 where
  remote : Text → SubscriptionSource
  manual : SubscriptionSource

pub record SubscriptionTraffic : Type 0 where
  pub upload : Option ℕ
  pub download : Option ℕ
  pub total : Option ℕ
  pub expire_at_ms : Option ℕ

pub record SubscriptionHttpMetadata : Type 0 where
  pub etag : Option Text
  pub last_modified : Option Text
  pub subscription_userinfo : Option SubscriptionTraffic
  pub content_disposition : Option Text

pub record Subscription : Type 0 where
  pub id : SubscriptionId
  pub name : Text
  pub description : Text
  pub source : SubscriptionSource
  pub last_success_at_ms : Option ℕ
  pub last_attempt_at_ms : Option ℕ
  pub http_metadata : Option SubscriptionHttpMetadata
  pub remote_request : Option RemoteRequestOptions
  pub update_policy : SubscriptionUpdatePolicy
  pub skipped_unsupported_nodes : ℕ
  pub document : Option SubscriptionDocument

pub record Provider : Type 0 where
  pub id : ProviderId
  pub subscription_id : SubscriptionId
  pub name : Text

pub data ProxyProtocol : Type 0 where
  socks http shadowsocks vmess vless trojan wire_guard hysteria hysteria2 tuic shadow_tls ssh naive
        any_tls snell :
      ProxyProtocol

pub data ProtocolOptions : Type 0 where
  -- version, username, password
  socks : ℕ → Option Text → Option Text → ProtocolOptions
  -- username, password, tls
  http : Option Text → Option Text → Bool → ProtocolOptions
  -- method, password
  shadowsocks : Text → Text → ProtocolOptions
  -- uuid, alter_id, security
  vmess : Text → Option ℕ → Option Text → ProtocolOptions
  -- uuid, flow
  vless : Text → Option Text → ProtocolOptions
  -- password
  trojan : Text → ProtocolOptions
  -- private_key, peer_public_key, pre_shared_key, local_addresses, mtu, reserved
  wire_guard : Text → Text → Option Text → List Text → Option ℕ → Option (List ℕ) → ProtocolOptions
  -- auth, obfs, up_mbps, down_mbps
  hysteria : Text → Option Text → Option ℕ → Option ℕ → ProtocolOptions
  -- password, obfs, up_mbps, down_mbps, disable_path_mtu_discovery
  hysteria2 : Text → Option Text → Option ℕ → Option ℕ → Option Bool → ProtocolOptions
  -- uuid, password, congestion_control, udp_relay_mode, zero_rtt
  tuic : Text → Text → Option Text → Option Text → Bool → ProtocolOptions
  -- version, password
  shadow_tls : ℕ → Text → ProtocolOptions
  -- user, password, private_key, private_key_passphrase, host_key
  ssh : Text → Option Text → Option Text → Option Text → Option Text → ProtocolOptions
  -- username, password
  naive : Text → Text → ProtocolOptions
  -- password
  any_tls : Text → ProtocolOptions
  -- psk, version
  snell : Text → ℕ → ProtocolOptions

pub data Transport : Type 0 where
  tcp : Transport
  -- path, host, max_early_data, early_data_header_name
  websocket : Text → Option Text → Option ℕ → Option Text → Transport
  -- service_name
  grpc : Text → Transport

pub record TlsOptions : Type 0 where
  pub server_name : Option Text
  pub allow_insecure : Bool
  pub reality_public_key : Option Text
  pub reality_short_id : Option Text
  pub alpn : List Text
  pub utls_fingerprint : Option Text

pub record ProxyNode : Type 0 where
  pub id : NodeId
  pub provider_id : ProviderId
  pub name : Text
  pub protocol : ProxyProtocol
  pub server : Text
  pub port : ℕ
  pub options : ProtocolOptions
  pub transport : Option Transport
  pub tls : Option TlsOptions

pub data PoolKind : Type 0 where
  implicit_provider custom : PoolKind

pub record NodeFilter : Type 0 where
  pub regions : List Text
  pub protocols : List ProxyProtocol
  pub include_keywords : List Text
  pub exclude_keywords : List Text
  pub include_node_ids : List NodeId
  pub exclude_node_ids : List NodeId

pub record PoolSource : Type 0 where
  pub provider_id : ProviderId
  pub filter : NodeFilter

pub data SelectionPolicy : Type 0 where
  -- selected_node_id
  manual : Option NodeId → SelectionPolicy
  -- probe_url, interval_secs, tolerance_ms
  url_test : Text → ℕ → ℕ → SelectionPolicy

pub record NodePool : Type 0 where
  pub id : PoolId
  pub name : Text
  pub kind : PoolKind
  pub sources : List PoolSource
  pub selection : SelectionPolicy
  pub enabled : Bool

pub data NetworkProtocol : Type 0 where
  tcp udp : NetworkProtocol

pub data TrafficMatcher : Type 0 where
  domain domain_suffix application ip_cidr : List Text → TrafficMatcher
  port : List ℕ → TrafficMatcher
  protocol : List NetworkProtocol → TrafficMatcher

pub data RouteTarget : Type 0 where
  unconfigured : RouteTarget
  pool : PoolId → RouteTarget
  direct block : RouteTarget

pub record RoutePolicy : Type 0 where
  pub id : RoutePolicyId
  pub name : Text
  pub enabled : Bool
  pub priority : ℤ
  pub matcher : TrafficMatcher
  pub target : RouteTarget

pub record AppState : Type 0 where
  pub schema_version : ℕ
  pub default_target : RouteTarget
  pub active_subscription_id : Option SubscriptionId
  pub active_configuration_generation : ℕ
  pub subscriptions : List Subscription
  pub providers : List Provider
  pub nodes : List ProxyNode
  pub pools : List NodePool
  pub routes : List RoutePolicy

-- `AppState::empty`
abbrev pub empty : AppState
empty = record {
  schema_version = current_schema_version;
  default_target = RouteTarget.unconfigured;
  active_subscription_id = none;
  active_configuration_generation = 0;
  subscriptions = [];
  providers = [];
  nodes = [];
  pools = [];
  routes = [];
}

pub data StateValidationError : Type 0 where
  invalid_identifier duplicate_identifier missing_subscription missing_provider missing_pool
        empty_pool_sources invalid_filter invalid_selection invalid_route invalid_protocol_options
        invalid_subscription empty_pool_membership inactive_pool_target unsupported_schema_version :
      StateValidationError

unfoldable pub ProxyProtocol-discrete : Discrete ProxyProtocol
ProxyProtocol-discrete = hlevel

unfoldable pub ProxyNode-discrete : Discrete ProxyNode
ProxyNode-discrete = hlevel (ℕ_discrete)

pub NodePool-discrete : Discrete NodePool
NodePool-discrete = hlevel (ℕ_discrete)

pub RoutePolicy-discrete : Discrete RoutePolicy
RoutePolicy-discrete = hlevel (ℕ_discrete)

unfoldable pub PoolKind-discrete : Discrete PoolKind
PoolKind-discrete = hlevel
