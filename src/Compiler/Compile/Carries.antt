-- ===== src/Compiler/Compile/Carries.antt =====
-- No node of the intent is lost in a compilation of src-tauri/src/singbox/compiler.rs.
use veyra.Base.{
  ok-inj, ◌>>◌, ◌≡◌, ◌⊎◌, inl, inr, refl, subst, List, [], ◌∷◌, ◌++◌, Option, some, false,
  Bool-cases, Member, Member-append, All, All-imp, Member-All, All-member, ok, map_ok-eq-ok,
  >>=-eq-ok, >>-eq-ok, ◌==◌,
}
use veyra.Base.Text.{Text, text, text_eq}
use veyra.Base.Order.{sort_by, Member-sort_by}
use veyra.Domain.Types.{ProxyNode, ProxyProtocol, ProtocolOptions, RouteTarget}
use veyra.Domain.Options.{protocol_eq}
use veyra.Domain.State.{RuntimeIntent, node_le}
use veyra.Routing.Input.{Url}
use veyra.Compiler.Document.{CoreOutbound, Document, WireGuardEndpoint, WireGuardPeer}
use veyra.Compiler.Checks.{node_tag}
use veyra.Compiler.Node.{node_outbound, endpoint_of, wireguard_endpoint, domain, all_addresses}
use veyra.Compiler.Node.Carried.{carried_node, IsCarried}
use veyra.Compiler.Node.ReadBack.{domain-node_outbound}
use veyra.Compiler.NodeCheck.{validate_node}
use veyra.Compiler.Compile.{
  CompiledNodes, compile_node, push_compiled, compile_nodes, document_of, compile,
}
use veyra.Compiler.Compile.Parts.{compile-IsMade}

-- What the endpoint of a tunnel has of its node.
abbrev pub Tunnels : ProxyNode → WireGuardEndpoint → Type 0
Tunnels node e =
    (peer : WireGuardPeer) × (e.peers ≡ peer ∷ [])
    × (e.tag ≡ node_tag node.id)
    × (peer.address ≡ node.server)
    × (peer.port ≡ node.port)
    × (node.options
        ≡ ProtocolOptions.wire_guard e.private_key peer.public_key peer.pre_shared_key e.address
            e.mtu peer.reserved)

-- An outbound is read back as the node that is carried of the node, or the node has a tunnel.
abbrev pub Carries : List CoreOutbound → List WireGuardEndpoint → ProxyNode → Type 0
Carries outbounds endpoints node =
    ((o : CoreOutbound) × Member o outbounds
      × (domain o ≡ ok (some (carried_node node)))
      × IsCarried node (carried_node node))
    ⊎ ((e : WireGuardEndpoint) × Member e endpoints × Tunnels node e)

endpoint-Tunnels :
    (node : ProxyNode) (options : ProtocolOptions) (e : WireGuardEndpoint)
    → node.options ≡ options
    → endpoint_of node options ≡ ok e
    → Tunnels node e
unfolding endpoint_of
endpoint-Tunnels node (ProtocolOptions.wire_guard a b c d m r) e q h =
    let peer : WireGuardPeer = record {
      address = node.server;
      port = node.port;
      public_key = b;
      pre_shared_key = c;
      reserved = r;
      allowed_ips = all_addresses;
    } in
    let made : WireGuardEndpoint = record {
      kind = text "wireguard";
      tag = node_tag node.id;
      system = false;
      address = d;
      private_key = a;
      mtu = m;
      peers = peer ∷ [];
    } in
    subst (Tunnels node) (ok-inj made e h) (peer, refl, refl, refl, refl, q)
endpoint-Tunnels node options e q h = cc

compiled-Carries :
    (node : ProxyNode) (x : CoreOutbound ⊎ WireGuardEndpoint) (c : CompiledNodes)
    → validate_node node ≡ ok tt
    → compile_node node ≡ ok x
    → Carries (push_compiled x c).outbounds (push_compiled x c).endpoints node
unfolding compile_node push_compiled wireguard_endpoint
compiled-Carries node x c v h = elim (Bool-cases (node.protocol == ProxyProtocol.wire_guard)) [
  | inl e ↦
      let (w, k, q) = map_ok-eq-ok inr (wireguard_endpoint node) (rw e at h) in
      subst (λ y. Carries (push_compiled y c).outbounds (push_compiled y c).endpoints node) q
        (inr (w, inl refl, endpoint-Tunnels node node.options w refl k))
  | inr e ↦
      let (o, k, q) = map_ok-eq-ok inl (node_outbound node) (rw e at h) in
      subst (λ y. Carries (push_compiled y c).outbounds (push_compiled y c).endpoints node) q
        (inl (let (back, same) = domain-node_outbound node o v k in (o, inl refl, back, same)))
]

push-Carries :
    (node : ProxyNode) (x : CoreOutbound ⊎ WireGuardEndpoint) (c : CompiledNodes)
    → Carries c.outbounds c.endpoints node
    → Carries (push_compiled x c).outbounds (push_compiled x c).endpoints node
unfolding push_compiled
push-Carries node (inl o) c (inl (p, m, d, s)) = inl (p, inr m, d, s)
push-Carries node (inl o) c (inr k) = inr k
push-Carries node (inr o) c (inl k) = inl k
push-Carries node (inr o) c (inr (e, m, t)) = inr (e, inr m, t)

compile_nodes-Carries :
    (nodes : List ProxyNode) (c : CompiledNodes)
    → compile_nodes nodes ≡ ok c
    → All (Carries c.outbounds c.endpoints) nodes
unfolding compile_nodes
compile_nodes-Carries [] c h = tt
compile_nodes-Carries (node ∷ nodes) c h =
    let (x, k, r) = >>=-eq-ok (validate_node node >> compile_node node) _ h in
    let (v, n) = >>-eq-ok (validate_node node) (compile_node node) k in
    let (rest, l, q) = map_ok-eq-ok (push_compiled x) (compile_nodes nodes) r in
    subst (λ y. All (Carries y.outbounds y.endpoints) (node ∷ nodes)) q
      (
        compiled-Carries node x rest v n,
        All-imp (Carries rest.outbounds rest.endpoints)
            (Carries (push_compiled x rest).outbounds (push_compiled x rest).endpoints) nodes
            (λ y. push-Carries y x rest) (compile_nodes-Carries nodes rest l),
      )

wider :
    (node : ProxyNode) (c : CompiledNodes) (more : List CoreOutbound)
    → Carries c.outbounds c.endpoints node
    → Carries (c.outbounds ++ more) c.endpoints node
wider node c more (inl (o, m, d, s)) = inl (o, (Member-append o c.outbounds more).1 (inl m), d, s)
wider node c more (inr k) = inr k

-- Every node of the intent is in the configuration, as a tunnel with its keys or as an outbound that is
-- read back as the node that is carried of it: with its identifier, server, port and protocol; with its
-- options, but that the flag for TLS of an HTTP proxy tells whether TLS options are read back; with its
-- transport, but that TCP is none; and with its TLS options, but that those of an HTTPS proxy without
-- any are the bare ones.
pub compile-Carries :
    (parse : Text → Option Url) (intent : RuntimeIntent) (default : RouteTarget) (d : Document)
    → compile parse intent default ≡ ok d
    → All (Carries d.outbounds d.endpoints) intent.nodes
unfolding document_of
compile-Carries parse intent default d h =
    let made = compile-IsMade parse intent default d h in
    let sorted = compile_nodes-Carries (sort_by node_le intent.nodes) made.nodes made.nodes_made in
    subst (λ e. All (Carries e.outbounds e.endpoints) intent.nodes) made.whole
      (Member-All _ intent.nodes (λ node m. wider node made.nodes _ (
        All-member (Carries made.nodes.outbounds made.nodes.endpoints)
          (sort_by node_le intent.nodes) sorted node
          ((Member-sort_by node_le intent.nodes node).1 m))))
