-- ===== src/Compiler/Node/Sound.antt =====
-- The conditions of `validate_node` of src-tauri/src/singbox/compiler.rs, one by one.
use veyra.Base.{
  ◌≡◌, refl, Option, none, some, Bool, true, false, ◌&&◌, not, is_some, &&-true, ◌↔◌, fail_if_iff,
  ok, nat_beq,
}
use veyra.Base.Text.{Text, text_eq}
use veyra.Domain.Types.{ProxyNode, ProxyProtocol, ProtocolOptions, TlsOptions}
use veyra.Domain.Options.{is_compatible_with, variant_matches}
use veyra.Compiler.Document.{CompileError}
use veyra.Compiler.Checks.{present, valid_server}
use veyra.Compiler.NodeCheck.{
  reality_is_valid, node_tls_is_valid, node_is_valid, options_are_valid, transport_is_valid,
  validate_node, supports_tls, requires_tls,
}

-- The protocol of the options.
abbrev pub protocol_of : ProtocolOptions → ProxyProtocol
protocol_of (ProtocolOptions.socks v u p) = ProxyProtocol.socks
protocol_of (ProtocolOptions.http u p t) = ProxyProtocol.http
protocol_of (ProtocolOptions.shadowsocks m p) = ProxyProtocol.shadowsocks
protocol_of (ProtocolOptions.vmess u a s) = ProxyProtocol.vmess
protocol_of (ProtocolOptions.vless u f) = ProxyProtocol.vless
protocol_of (ProtocolOptions.trojan p) = ProxyProtocol.trojan
protocol_of (ProtocolOptions.wire_guard a b c d e f) = ProxyProtocol.wire_guard
protocol_of (ProtocolOptions.hysteria a b c d) = ProxyProtocol.hysteria
protocol_of (ProtocolOptions.hysteria2 a b c d e) = ProxyProtocol.hysteria2
protocol_of (ProtocolOptions.tuic a b c d e) = ProxyProtocol.tuic
protocol_of (ProtocolOptions.shadow_tls v p) = ProxyProtocol.shadow_tls
protocol_of (ProtocolOptions.ssh a b c d e) = ProxyProtocol.ssh
protocol_of (ProtocolOptions.naive u p) = ProxyProtocol.naive
protocol_of (ProtocolOptions.any_tls p) = ProxyProtocol.any_tls
protocol_of (ProtocolOptions.snell p v) = ProxyProtocol.snell

pub protocol-variant_matches :
    (protocol : ProxyProtocol) (options : ProtocolOptions)
    → variant_matches protocol options ≡ true
    → protocol ≡ protocol_of options
unfolding variant_matches
protocol-variant_matches ProxyProtocol.socks (ProtocolOptions.socks v u p) h = refl
protocol-variant_matches ProxyProtocol.http (ProtocolOptions.http u p t) h = refl
protocol-variant_matches ProxyProtocol.shadowsocks (ProtocolOptions.shadowsocks m p) h = refl
protocol-variant_matches ProxyProtocol.vmess (ProtocolOptions.vmess u a s) h = refl
protocol-variant_matches ProxyProtocol.vless (ProtocolOptions.vless u f) h = refl
protocol-variant_matches ProxyProtocol.trojan (ProtocolOptions.trojan p) h = refl
protocol-variant_matches ProxyProtocol.wire_guard (ProtocolOptions.wire_guard a b c d e f) h = refl
protocol-variant_matches ProxyProtocol.hysteria (ProtocolOptions.hysteria a b c d) h = refl
protocol-variant_matches ProxyProtocol.hysteria2 (ProtocolOptions.hysteria2 a b c d e) h = refl
protocol-variant_matches ProxyProtocol.tuic (ProtocolOptions.tuic a b c d e) h = refl
protocol-variant_matches ProxyProtocol.shadow_tls (ProtocolOptions.shadow_tls v p) h = refl
protocol-variant_matches ProxyProtocol.ssh (ProtocolOptions.ssh a b c d e) h = refl
protocol-variant_matches ProxyProtocol.naive (ProtocolOptions.naive u p) h = refl
protocol-variant_matches ProxyProtocol.any_tls (ProtocolOptions.any_tls p) h = refl
protocol-variant_matches ProxyProtocol.snell (ProtocolOptions.snell p v) h = refl
protocol-variant_matches protocol options h = cc

-- The two Reality fields stand together.
abbrev pub Paired : TlsOptions → Type 0
Paired tls = is_some tls.reality_public_key ≡ is_some tls.reality_short_id

abbrev pub TlsPaired : Option TlsOptions → Type 0
TlsPaired none = Unit
TlsPaired (some tls) = Paired tls

Paired-reality :
    (protocol : ProxyProtocol) (key id : Option Text)
    → reality_is_valid protocol key id ≡ true
    → is_some key ≡ is_some id
unfolding reality_is_valid
Paired-reality protocol none none h = refl
Paired-reality protocol (some key) (some id) h = refl
Paired-reality protocol none (some id) h = cc
Paired-reality protocol (some key) none h = cc

pub TlsPaired-valid :
    (protocol : ProxyProtocol) (tls : Option TlsOptions)
    → node_tls_is_valid protocol tls ≡ true
    → TlsPaired tls
unfolding node_tls_is_valid
TlsPaired-valid protocol none h = tt
TlsPaired-valid protocol (some tls) h =
    Paired-reality protocol tls.reality_public_key tls.reality_short_id (&&-true _ _ h).1

-- What a valid node is known by, of the conditions of `validate_node`.
pub record IsSound (node : ProxyNode) : Type 0 where
  pub named : present node.id ≡ true
  pub reachable : valid_server node.server ≡ true
  pub listens : nat_beq node.port 0 ≡ false
  pub compatible : is_compatible_with node.options node.protocol ≡ true
  pub tls_supported : (is_some node.tls && not (supports_tls node.protocol)) ≡ false
  pub tls_given : (requires_tls node.protocol && not (is_some node.tls)) ≡ false
  pub tls : node_tls_is_valid node.protocol node.tls ≡ true
  pub transport : transport_is_valid node.protocol node.transport ≡ true
  pub options : options_are_valid (is_some node.tls) node.options ≡ true

not-true : (b : Bool) → not b ≡ true → b ≡ false
not-true false h = refl
not-true true h = cc

not-false : (b : Bool) → not b ≡ false → b ≡ true
not-false true h = refl
not-false false h = cc

pub validate_node_iff : (node : ProxyNode) → (validate_node node ≡ ok tt) ↔ IsSound node
unfolding validate_node node_is_valid
validate_node_iff node = (
  λ h.
      let (r, o) =
        &&-true _ _ (not-false _ ((fail_if_iff _ CompileError.invalid_node_configuration).0 h)) in
      let (r, t) = &&-true _ _ r in
      let (r, v) = &&-true _ _ r in
      let (r, s) = &&-true _ _ r in
      let (s, g) = &&-true _ _ s in
      let (r, c) = &&-true _ _ r in
      let (r, l) = &&-true _ _ r in
      let (p, q) = &&-true _ _ r in
      record {
        named = p;
        reachable = q;
        listens = not-true _ l;
        compatible = c;
        tls_supported = not-true _ s;
        tls_given = not-true _ g;
        tls = v;
        transport = t;
        options = o;
      },
  λ s.
      rw
        (
          s.named, s.reachable, s.listens, s.compatible, s.tls_supported, s.tls_given, s.tls,
          s.transport, s.options,
        )
        refl,
)
