-- ===== src/Compiler/Node/Carried.antt =====
-- What the configuration of src-tauri/src/singbox/compiler.rs carries of a node.
use veyra.Base.{◌≡◌, ◌⊎◌, inl, inr, refl, [], Option, none, some, Bool, true, false, is_some}
use veyra.Base.Text.{Text}
use veyra.Domain.Types.{ProxyNode, ProtocolOptions, TlsOptions, Transport}
use veyra.Compiler.Node.{compiler_provider}

-- A transport that is TCP is none, the rest is itself.
abbrev pub carried : Option Transport → Option Transport
carried (some Transport.tcp) = none
carried transport = transport

abbrev pub bare_options : TlsOptions
bare_options = record {
  server_name = none;
  allow_insecure = false;
  reality_public_key = none;
  reality_short_id = none;
  alpn = [];
  utls_fingerprint = none;
}

-- HTTPS with no TLS options has those that change nothing.
abbrev pub carried_tls : Option TlsOptions → ProtocolOptions → Option TlsOptions
carried_tls none (ProtocolOptions.http username password true) = some bare_options
carried_tls tls options = tls

abbrev pub carried_options : Bool → ProtocolOptions → ProtocolOptions
carried_options has_tls (ProtocolOptions.http username password tls) =
    ProtocolOptions.http username password has_tls
carried_options has_tls options = options

-- What the configuration carries of a node.
abbrev pub carried_node : ProxyNode → ProxyNode
carried_node node = record node {
  provider_id = compiler_provider;
  name = [];
  transport = carried node.transport;
  tls = carried_tls node.tls node.options;
  options = carried_options (is_some (carried_tls node.tls node.options)) node.options;
}

-- How the node that is read back compares with the node.
abbrev SameOptions : ProxyNode → ProxyNode → Type 0
SameOptions node back =
    (back.options ≡ node.options)
    ⊎ ((username : Option Text) × (password : Option Text) × (tls : Bool) × (node.options
          ≡ ProtocolOptions.http username password tls)
        × (back.options ≡ ProtocolOptions.http username password (is_some back.tls)))

abbrev SameTransport : ProxyNode → ProxyNode → Type 0
SameTransport node back =
    (back.transport ≡ node.transport)
    ⊎ ((node.transport ≡ some Transport.tcp) × (back.transport ≡ none))

abbrev SameTls : ProxyNode → ProxyNode → Type 0
SameTls node back =
    (back.tls ≡ node.tls)
    ⊎ ((username : Option Text) × (password : Option Text) × (node.options
          ≡ ProtocolOptions.http username password true)
        × (node.tls ≡ none)
        × (back.tls ≡ some bare_options))

pub record IsCarried (node back : ProxyNode) : Type 0 where
  pub id : back.id ≡ node.id
  pub server : back.server ≡ node.server
  pub port : back.port ≡ node.port
  pub protocol : back.protocol ≡ node.protocol
  pub options : SameOptions node back
  pub transport : SameTransport node back
  pub tls : SameTls node back

same_options :
    (options : ProtocolOptions) (b : Bool)
    → (carried_options b options ≡ options)
      ⊎ ((username : Option Text) × (password : Option Text) × (tls : Bool) × (options
            ≡ ProtocolOptions.http username password tls)
          × (carried_options b options ≡ ProtocolOptions.http username password b))
same_options (ProtocolOptions.http u p t) b = inr (u, p, t, refl, refl)
same_options options b = inl refl

same_transport :
    (t : Option Transport) → (carried t ≡ t) ⊎ ((t ≡ some Transport.tcp) × (carried t ≡ none))
same_transport none = inl refl
same_transport (some Transport.tcp) = inr (refl, refl)
same_transport (some (Transport.websocket _ _ _ _)) = inl refl
same_transport (some (Transport.grpc _)) = inl refl

same_tls :
    (tls : Option TlsOptions) (options : ProtocolOptions)
    → (carried_tls tls options ≡ tls)
      ⊎ ((username : Option Text) × (password : Option Text) × (options
            ≡ ProtocolOptions.http username password true)
          × (tls ≡ none)
          × (carried_tls tls options ≡ some bare_options))
same_tls (some tls) options = inl refl
same_tls none (ProtocolOptions.http u p true) = inr (u, p, refl, refl, refl)
same_tls none options = inl refl

pub carried_node-IsCarried : (node : ProxyNode) → IsCarried node (carried_node node)
carried_node-IsCarried node = record {
  id = refl;
  server = refl;
  port = refl;
  protocol = refl;
  options = same_options node.options _;
  transport = same_transport node.transport;
  tls = same_tls node.tls node.options;
}
