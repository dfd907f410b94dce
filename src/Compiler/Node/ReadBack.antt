-- ===== src/Compiler/Node/ReadBack.antt =====
-- What src-tauri/src/singbox/compiler.rs writes of a node is what it reads back.
use veyra.Base.{
  subst, ℕ, ◌≡◌, refl, sym, ap, List, [], Option, none, some, Bool, true, is_some, &&-true, arith,
  ok, map_ok, ◌>>=◌,
}
use veyra.Base.Text.{Text, text, text_eq, text_beq_complete}
use veyra.Base.Numbers.{parse_unsigned-decimal}
use veyra.Domain.Types.{ProxyNode, ProxyProtocol, ProtocolOptions, TlsOptions, Transport}
use veyra.Domain.Options.{is_compatible_with, variant_matches}
use veyra.Compiler.Document.{CoreOutbound, NodeFields}
use veyra.Compiler.Checks.{node_prefix, node_tag, strip_prefix-append}
use veyra.Compiler.Node.{
  core_tls, core_tls_of, core_transport, outbound_of, node_outbound, tls_domain, tls_domains,
  domain_node, compiler_provider, domain, transports_domain,
}
use veyra.Compiler.Node.Sound.{
  TlsPaired, TlsPaired-valid, validate_node_iff, protocol_of, protocol-variant_matches,
}
use veyra.Compiler.Node.Carried.{
  carried, carried_tls, carried_options, carried_node, IsCarried, carried_node-IsCarried,
}
use veyra.Compiler.NodeCheck.{validate_node}

tls_domain-core :
    (server_name : Option Text) (insecure : Bool) (key id : Option Text) (alpn : List Text)
    (fingerprint : Option Text)
    → is_some key ≡ is_some id
    → tls_domain (
        core_tls_of (record {
          server_name = server_name;
          allow_insecure = insecure;
          reality_public_key = key;
          reality_short_id = id;
          alpn = alpn;
          utls_fingerprint = fingerprint;
        }))
      ≡ ok (record {
        server_name = server_name;
        allow_insecure = insecure;
        reality_public_key = key;
        reality_short_id = id;
        alpn = alpn;
        utls_fingerprint = fingerprint;
      })
unfolding tls_domain
tls_domain-core n i none none a none h = refl
tls_domain-core n i none none a (some f) h = refl
tls_domain-core n i (some k) (some d) a none h = refl
tls_domain-core n i (some k) (some d) a (some f) h = refl
tls_domain-core n i none (some d) a f h = cc
tls_domain-core n i (some k) none a f h = cc

tls_domains-core :
    (tls : Option TlsOptions) (options : ProtocolOptions)
    → TlsPaired tls
    → tls_domains (core_tls tls options) ≡ ok (carried_tls tls options)
unfolding tls_domains
tls_domains-core (some tls) options h = ap (map_ok some) (
    tls_domain-core tls.server_name tls.allow_insecure tls.reality_public_key tls.reality_short_id
      tls.alpn tls.utls_fingerprint h)
tls_domains-core none (ProtocolOptions.http u p true) h = refl
tls_domains-core none options h = refl

transports_lem : (t : Option Transport) → transports_domain (core_transport t) ≡ carried t
transports_lem none = refl
transports_lem (some Transport.tcp) = refl
transports_lem (some (Transport.websocket p h m n)) = refl
transports_lem (some (Transport.grpc n)) = refl

is_some-core_tls :
    (tls : Option TlsOptions) (options : ProtocolOptions)
    → is_some (core_tls tls options) ≡ is_some (carried_tls tls options)
is_some-core_tls (some tls) options = refl
is_some-core_tls none (ProtocolOptions.http u p true) = refl
is_some-core_tls none options = refl

module _ (id server : Text) (port : ℕ) (tls : Option TlsOptions) (transport : Option Transport)
    (paired : TlsPaired tls) where
  abbrev fields : ProtocolOptions → NodeFields
  fields options = record {
    tag = node_tag id;
    server = server;
    server_port = port;
    tls = core_tls tls options;
    transport = core_transport transport;
  }

  abbrev node_with : ProtocolOptions → ProtocolOptions → ProxyProtocol → ProxyNode
  node_with original options protocol = record {
    id = id;
    provider_id = compiler_provider;
    name = [];
    protocol = protocol;
    server = server;
    port = port;
    options = options;
    transport = carried transport;
    tls = carried_tls tls original;
  }

  domain_node-fields :
      (original options : ProtocolOptions) (protocol : ProxyProtocol)
      → domain_node (fields original) protocol (ok options)
        ≡ ok (some (node_with original options protocol))
  unfolding domain_node node_tag
  domain_node-fields original options protocol =
      rw
        (
          strip_prefix-append node_prefix id,
          tls_domains-core tls original paired,
          transports_lem transport,
        )
        refl

  abbrev Carries : ProtocolOptions → Type 0
  Carries options =
      (outbound_of (fields options) options >>= domain)
      ≡ ok (
          some (
            node_with options (carried_options (is_some (carried_tls tls options)) options)
              (protocol_of options)))

  read_back :
      (options : ProtocolOptions) (o : CoreOutbound)
      → outbound_of (fields options) options ≡ ok o
      → variant_matches (protocol_of options) options ≡ true
      → Carries options
  unfolding domain outbound_of variant_matches
  read_back (ProtocolOptions.socks v u p) o h k =
      rw (parse_unsigned-decimal 255 v (ground arith))
        (domain_node-fields (ProtocolOptions.socks v u p) _ _)
  read_back (ProtocolOptions.http u p t) o h k =
      rw (is_some-core_tls tls (ProtocolOptions.http u p t))
        (domain_node-fields (ProtocolOptions.http u p t) _ _)
  read_back (ProtocolOptions.wire_guard a b c d e f) o h k = cc
  read_back (ProtocolOptions.hysteria a b (some c) (some d)) o h k =
      domain_node-fields (ProtocolOptions.hysteria a b (some c) (some d)) _ _
  read_back (ProtocolOptions.hysteria a b none d) o h k = cc
  read_back (ProtocolOptions.hysteria a b (some c) none) o h k = cc
  read_back (ProtocolOptions.hysteria2 a none c d e) o h k =
      domain_node-fields (ProtocolOptions.hysteria2 a none c d e) _ _
  read_back (ProtocolOptions.hysteria2 a (some b) c d e) o h k =
      rw (text_beq_complete (text "salamander") (text "salamander") refl)
        (domain_node-fields (ProtocolOptions.hysteria2 a (some b) c d e) _ _)
  read_back options o h k = domain_node-fields options options (protocol_of options)

read_back_exactly :
    (node : ProxyNode) (o : CoreOutbound)
    → validate_node node ≡ ok tt
    → node_outbound node ≡ ok o
    → domain o ≡ ok (some (carried_node node))
unfolding node_outbound is_compatible_with
read_back_exactly node o v h =
    let s = (validate_node_iff node).0 v in
    let m = (&&-true _ _ s.compatible).0 in
    let e = protocol-variant_matches node.protocol node.options m in
    let paired = TlsPaired-valid node.protocol node.tls s.tls in
    let back =
      read_back node.id node.server node.port node.tls node.transport paired node.options o h
        (rw (sym e) m) in
    subst (λ p. domain o ≡ ok (some (record (carried_node node) { protocol = p }))) (sym e)
      (rw h at back)

-- What is written of a valid node is read back as the node that is carried of it. That has its
-- identifier, server, port and protocol; its options, but that the flag for TLS of an HTTP proxy tells
-- whether TLS options are read back; its transport, but that TCP is none; and its TLS options, but that
-- those of an HTTPS proxy without any are the bare ones.
pub domain-node_outbound :
    (node : ProxyNode) (o : CoreOutbound)
    → validate_node node ≡ ok tt
    → node_outbound node ≡ ok o
    → (domain o ≡ ok (some (carried_node node))) × IsCarried node (carried_node node)
domain-node_outbound node o v h = (read_back_exactly node o v h, carried_node-IsCarried node)
