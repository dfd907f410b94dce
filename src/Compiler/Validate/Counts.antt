-- ===== src/Compiler/Validate/Counts.antt =====
-- What the counters of `Document::validate_standard` of src-tauri/src/singbox/compiler.rs count: the
-- direct outbound and the block outbound.
use veyra.Base.{
  ok-inj, list_eq, ◌≡◌, ◌⊎◌, inl, inr, refl, sym, ap, ◌∙◌, ℕ, List, [], ◌∷◌, Option, none, some,
  Bool, true, false, ◌==◌, Member, Result, ok, err, fail_if-eq-ok, >>-eq-ok, >>=-eq-ok,
  if◌then◌else◌,
}
use veyra.Base.Text.{text_eq, text_beq_sound}
use veyra.Domain.Types.{ProxyNode}
use veyra.Compiler.Document.{CompileError, CoreOutbound, WireGuardEndpoint}
use veyra.Compiler.Node.{domain}
use veyra.Compiler.NodeCheck.{validate_node}
use veyra.Compiler.Validate.{
  direct_tag, block_tag, Tags, tag_of, add_other, add_read, add_outbound, add_outbounds, add_peers,
  add_endpoints,
}
use veyra.Compiler.Validate.Outbounds.{add_pool-lem}
use veyra.Compiler.Validate.Tunnels.{peers-added}

-- A counter stands still unless its outbound is there.
abbrev Counts : Tags → List CoreOutbound → Tags → Type 0
Counts t os u =
    ((u.direct_count ≡ t.direct_count) ⊎ Member (CoreOutbound.direct direct_tag) os)
    × ((u.block_count ≡ t.block_count) ⊎ Member (CoreOutbound.block block_tag) os)

same-Counts :
    (t u : Tags) (os : List CoreOutbound)
    → u.direct_count ≡ t.direct_count
    → u.block_count ≡ t.block_count
    → Counts t os u
same-Counts t u os a b = (inl a, inl b)

checked :
    (b : Bool) (t u : Tags)
    → ◌≡◌ {A = Result Tags CompileError}
        (if b then ok t else err CompileError.invalid_final_configuration)
        (ok u)
    → (b ≡ true) × (u ≡ t)
checked true t u h = (refl, cc)
checked false t u h = cc

other-Counts : (t : Tags) (o : CoreOutbound) (u : Tags) → add_other t o ≡ ok u → Counts t (o ∷ []) u
unfolding add_other
other-Counts t (CoreOutbound.selector tag a b) u h =
    let e = add_pool-lem t tag u h in
    same-Counts t u (CoreOutbound.selector tag a b ∷ []) (ap (λ x. x.direct_count) e)
      (ap (λ x. x.block_count) e)
other-Counts t (CoreOutbound.urltest tag a b c d) u h =
    let e = add_pool-lem t tag u h in
    same-Counts t u (CoreOutbound.urltest tag a b c d ∷ []) (ap (λ x. x.direct_count) e)
      (ap (λ x. x.block_count) e)
other-Counts t (CoreOutbound.direct tag) u h =
    let (b, e) = checked (tag == direct_tag) _ u h in
    (
      inr (inl (ap CoreOutbound.direct (text_beq_sound tag direct_tag b))),
      inl (ap (λ x. x.block_count) e),
    )
other-Counts t (CoreOutbound.block tag) u h =
    let (b, e) = checked (tag == block_tag) _ u h in
    (
      inl (ap (λ x. x.direct_count) e),
      inr (inl (ap CoreOutbound.block (text_beq_sound tag block_tag b))),
    )
other-Counts t o u h = cc

read-Counts :
    (t : Tags) (o : CoreOutbound) (read : Option ProxyNode) (u : Tags)
    → add_read t o read ≡ ok u
    → Counts t (o ∷ []) u
unfolding add_read
read-Counts t o none u h = other-Counts t o u h
read-Counts t o (some node) u h =
    let (v, k) = >>-eq-ok (validate_node node) _ h in
    let q = ok-inj (record t { node_tags = tag_of o ∷ t.node_tags }) u k in
    same-Counts t u (o ∷ []) (ap (λ x. x.direct_count) (sym q)) (ap (λ x. x.block_count) (sym q))

outbound-Counts :
    (t : Tags) (o : CoreOutbound) (u : Tags) → add_outbound t o ≡ ok u → Counts t (o ∷ []) u
unfolding add_outbound
outbound-Counts t o u h =
    let (fresh, k) = fail_if-eq-ok _ CompileError.invalid_final_configuration _ h in
    let (read, e, r) = >>=-eq-ok (domain o) _ k in
    read-Counts (record t { tags = tag_of o ∷ t.tags }) o read u r

joined :
    (a b c : ℕ) (wanted o : CoreOutbound) (os : List CoreOutbound)
    → (b ≡ a) ⊎ Member wanted (o ∷ [])
    → (c ≡ b) ⊎ Member wanted os
    → (c ≡ a) ⊎ Member wanted (o ∷ os)
joined a b c wanted o os (inr (inl m)) q = inr (inl m)
joined a b c wanted o os (inr (inr m)) q = absurd m
joined a b c wanted o os (inl p) (inl q) = inl (q ∙ p)
joined a b c wanted o os (inl p) (inr m) = inr (inr m)

pub add_outbounds-Counts :
    (t : Tags) (os : List CoreOutbound) (u : Tags) → add_outbounds t os ≡ ok u → Counts t os u
unfolding add_outbounds
add_outbounds-Counts t [] u h =
    let q = ok-inj t u h in
    same-Counts t u [] (ap (λ x. x.direct_count) (sym q)) (ap (λ x. x.block_count) (sym q))
add_outbounds-Counts t (o ∷ os) u h =
    let (v, a, r) = >>=-eq-ok (add_outbound t o) _ h in
    let (d, b) = outbound-Counts t o v a in
    let (ds, bs) = add_outbounds-Counts v os u r in
    (
      joined t.direct_count v.direct_count u.direct_count _ o os d ds,
      joined t.block_count v.block_count u.block_count _ o os b bs,
    )

-- The tunnels are not counted.
abbrev SameCounts : Tags → Tags → Type 0
SameCounts t u = (u.direct_count ≡ t.direct_count) × (u.block_count ≡ t.block_count)

pub add_endpoints-SameCounts :
    (t : Tags) (es : List WireGuardEndpoint) (u : Tags) → add_endpoints t es ≡ ok u → SameCounts t u
unfolding add_endpoints
add_endpoints-SameCounts t [] u h =
    let q = ok-inj t u h in (ap (λ x. x.direct_count) (sym q), ap (λ x. x.block_count) (sym q))
add_endpoints-SameCounts t (e ∷ es) u h =
    let (v, a, r) = >>=-eq-ok (add_peers t e e.peers) _ h in
    let (_, _, _, _, p, q) = peers-added t e e.peers v a in
    let (ps, qs) = add_endpoints-SameCounts v es u r in (ps ∙ p, qs ∙ q)
