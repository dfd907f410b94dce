-- ===== src/Compiler/Validate/Tunnels.antt =====
-- What the loop over the endpoints in `Document::validate_standard` of
-- src-tauri/src/singbox/compiler.rs collects.
use veyra.Base.{
  ok-inj, ◌>>◌, list_eq, All-imp, All-member, Member-map_in, subst, ◌≡◌, ◌⊎◌, inl, inr, refl, sym,
  ap, ◌∙◌, List, [], ◌∷◌, map, Bool, true, false, ◌||◌, not, contains, ◌==◌, Member, All, Distinct,
  Result, ok, fail_if-eq-ok, >>-eq-ok, >>=-eq-ok,
}
use veyra.Base.Text.{Text, text, text_eq}
use veyra.Compiler.Document.{CompileError, WireGuardEndpoint, WireGuardPeer}
use veyra.Compiler.Checks.{valid_tag, node_prefix}
use veyra.Compiler.Node.{all_addresses}
use veyra.Compiler.NodeCheck.{validate_node}
use veyra.Compiler.Validate.{reject_if, Tags, add_peers, add_endpoints, endpoint_node}
use veyra.Compiler.Validate.Outbounds.{grown-fresh}

last-false : (a b : Bool) → (a || b) ≡ false → b ≡ false
last-false false b h = h
last-false true b h = cc

pub peers-added :
    (t : Tags) (e : WireGuardEndpoint) (peers : List WireGuardPeer) (u : Tags)
    → add_peers t e peers ≡ ok u
    → (contains t.tags e.tag ≡ false)
      × (u.tags ≡ e.tag ∷ t.tags)
      × (u.node_tags ≡ e.tag ∷ t.node_tags)
      × (u.pool_tags ≡ t.pool_tags)
      × (u.direct_count ≡ t.direct_count)
      × (u.block_count ≡ t.block_count)
unfolding add_peers
peers-added t e [] u h = cc
peers-added t e (p ∷ q ∷ peers) u h = cc
peers-added t e (p ∷ []) u h =
    let shape : Bool =
      not (e.kind == text "wireguard") || e.system || not (valid_tag e.tag node_prefix) in
    let grown : Tags = record t { tags = e.tag ∷ t.tags; node_tags = e.tag ∷ t.node_tags } in
    let valid : Result Tags CompileError = validate_node (endpoint_node e p) >> ok grown in
    let open_ips : Result Tags CompileError =
      reject_if (not (p.allowed_ips == all_addresses)) >> valid in
    let (a, k) =
      fail_if-eq-ok (shape || contains t.tags e.tag) CompileError.invalid_final_configuration
        open_ips h in
    let (b, l) =
      fail_if-eq-ok (not (p.allowed_ips == all_addresses)) CompileError.invalid_final_configuration
        valid k in
    let (v, m) = >>-eq-ok (validate_node (endpoint_node e p)) (ok grown) l in
    let q : grown ≡ u = ok-inj grown u m in
    (
      last-false shape (contains t.tags e.tag) a,
      ap (λ x. x.tags) (sym q),
      ap (λ x. x.node_tags) (sym q),
      ap (λ x. x.pool_tags) (sym q),
      ap (λ x. x.direct_count) (sym q),
      ap (λ x. x.block_count) (sym q),
    )

-- What the endpoints add to the sets.
pub record CollectsTunnels (t : Tags) (es : List WireGuardEndpoint) (u : Tags) : Type 0 where
  pub fresh : All (λ e. contains t.tags e.tag ≡ false) es
  pub distinct : Distinct (map (λ e. e.tag) es)
  pub nodes :
      (tag : Text)
      → Member tag u.node_tags
      → Member tag t.node_tags ⊎ Member tag (map (λ e. e.tag) es)
  pub pools : u.pool_tags ≡ t.pool_tags

pub add_endpoints-Collects :
    (t : Tags) (es : List WireGuardEndpoint) (u : Tags)
    → add_endpoints t es ≡ ok u
    → CollectsTunnels t es u
unfolding add_endpoints
add_endpoints-Collects t [] u h =
    let q : t ≡ u = ok-inj t u h in
    record { fresh = tt; distinct = tt; nodes = λ tag m. inl (rw q m); pools = rw q refl }
add_endpoints-Collects t (e ∷ es) u h =
    let (v, a, r) = >>=-eq-ok (add_peers t e e.peers) _ h in
    let (fresh, tags, nodes, pools, _, _) = peers-added t e e.peers v a in
    let rest = add_endpoints-Collects v es u r in
    record {
      fresh = (
        fresh,
        All-imp (λ p. contains v.tags p.tag ≡ false) (λ p. contains t.tags p.tag ≡ false) es
            (λ p n. (grown-fresh v.tags t.tags e.tag p.tag tags n).0) rest.fresh,
      );
      distinct = (
        λ m.
            let (p, n, q) = Member-map_in (λ x. x.tag) es e.tag m in
            let again = All-member (λ x. contains v.tags x.tag ≡ false) es rest.fresh p n in
            (grown-fresh v.tags t.tags e.tag p.tag tags again).1 (sym q),
        rest.distinct,
      );
      nodes = λ tag m. elim (rest.nodes tag m) [
        | inl k ↦ elim (subst (Member tag) nodes k) [ inl q ↦ inr (inl q) | inr n ↦ inl n ]
        | inr k ↦ inr (inr k)
      ];
      pools = rest.pools ∙ pools;
    }
