-- ===== src/Compiler/Validate/Outbounds.antt =====
-- What the loop over the outbounds in `Document::validate_standard` of
-- src-tauri/src/singbox/compiler.rs collects.
use veyra.Base.{
  list_eq, ◌≢◌, All-imp, All-member, Member-map_in, no_contains, subst, ◌≡◌, ◌⊎◌, inl, inr, refl,
  sym, ap, List, [], ◌∷◌, map, Option, none, some, Bool, true, false, contains, ◌==◌, Member, All,
  Distinct, Result, ok, err, fail_if-eq-ok, >>-eq-ok, >>=-eq-ok, arith, if◌then◌else◌, contains_iff,
  contains_no,
}
use veyra.Base.Text.{Text, text_eq}
use veyra.Domain.Types.{ProxyNode}
use veyra.Compiler.Document.{CompileError, CoreOutbound}
use veyra.Compiler.Node.{domain}
use veyra.Compiler.NodeCheck.{validate_node}
use veyra.Compiler.Validate.{
  direct_tag, block_tag, Tags, tag_of, add_pool, add_other, add_read, add_outbound, add_outbounds,
}

abbrev pub is_pool : CoreOutbound → Bool
is_pool (CoreOutbound.selector tag outbounds default) = true
is_pool (CoreOutbound.urltest tag outbounds url interval tolerance) = true
is_pool o = false

-- An outbound that is read back as a valid node.
abbrev pub IsNode : CoreOutbound → Type 0
IsNode o = (node : ProxyNode) × (domain o ≡ ok (some node)) × (validate_node node ≡ ok tt)

-- What one outbound adds.
abbrev Adds : Tags → CoreOutbound → Tags → Type 0
Adds t o u =
    (u.tags ≡ tag_of o ∷ t.tags)
    × ((IsNode o × (u.node_tags ≡ tag_of o ∷ t.node_tags) × (u.pool_tags ≡ t.pool_tags))
        ⊎ ((u.node_tags ≡ t.node_tags)
            × ((u.pool_tags ≡ t.pool_tags)
                ⊎ ((is_pool o ≡ true) × (u.pool_tags ≡ tag_of o ∷ t.pool_tags)))))

checked-ok :
    {E : Type 0} (b : Bool) (e : E) (t u : Tags)
    → ◌≡◌ {A = Result Tags E} (if b then ok t else err e) (ok u)
    → t ≡ u
checked-ok true e t u h = cc
checked-ok false e t u h = cc

pub add_pool-lem :
    (t : Tags) (tag : Text) (u : Tags)
    → add_pool t tag ≡ ok u
    → u ≡ record t { pool_tags = tag ∷ t.pool_tags }
unfolding add_pool
add_pool-lem t tag u h = ground arith

other-Adds :
    (t : Tags) (o : CoreOutbound) (u : Tags)
    → add_other (record t { tags = tag_of o ∷ t.tags }) o ≡ ok u
    → Adds t o u
unfolding add_other
other-Adds t (CoreOutbound.selector tag a b) u h =
    let e = add_pool-lem (record t { tags = tag ∷ t.tags }) tag u h in
    (ap (λ x. x.tags) e, inr (ap (λ x. x.node_tags) e, inr (refl, ap (λ x. x.pool_tags) e)))
other-Adds t (CoreOutbound.urltest tag a b c d) u h =
    let e = add_pool-lem (record t { tags = tag ∷ t.tags }) tag u h in
    (ap (λ x. x.tags) e, inr (ap (λ x. x.node_tags) e, inr (refl, ap (λ x. x.pool_tags) e)))
other-Adds t (CoreOutbound.direct tag) u h =
    let e = checked-ok (tag == direct_tag) CompileError.invalid_final_configuration _ u h in
    (
      ap (λ x. x.tags) (sym e),
      inr (ap (λ x. x.node_tags) (sym e), inl (ap (λ x. x.pool_tags) (sym e))),
    )
other-Adds t (CoreOutbound.block tag) u h =
    let e = checked-ok (tag == block_tag) CompileError.invalid_final_configuration _ u h in
    (
      ap (λ x. x.tags) (sym e),
      inr (ap (λ x. x.node_tags) (sym e), inl (ap (λ x. x.pool_tags) (sym e))),
    )
other-Adds t o u h = cc

read-Adds :
    (t : Tags) (o : CoreOutbound) (read : Option ProxyNode) (u : Tags)
    → domain o ≡ ok read
    → add_read (record t { tags = tag_of o ∷ t.tags }) o read ≡ ok u
    → Adds t o u
unfolding add_read
read-Adds t o none u e h = other-Adds t o u h
read-Adds t o (some node) u e h =
    let (v, k) = >>-eq-ok (validate_node node) _ h in
    let q : record t { tags = tag_of o ∷ t.tags; node_tags = tag_of o ∷ t.node_tags } ≡ u = cc in
    (
      ap (λ x. x.tags) (sym q),
      inl ((node, e, v), ap (λ x. x.node_tags) (sym q), ap (λ x. x.pool_tags) (sym q)),
    )

outbound-Adds :
    (t : Tags) (o : CoreOutbound) (u : Tags)
    → add_outbound t o ≡ ok u
    → (contains t.tags (tag_of o) ≡ false) × Adds t o u
unfolding add_outbound
outbound-Adds t o u h =
    let (fresh, k) =
      fail_if-eq-ok (contains t.tags (tag_of o)) CompileError.invalid_final_configuration _ h in
    let (read, e, r) = >>=-eq-ok (domain o) _ k in (fresh, read-Adds t o read u e r)

-- Where a tag of the sets comes from.
abbrev pub NodeTag : List CoreOutbound → Text → Type 0
NodeTag os tag = (o : CoreOutbound) × Member o os × IsNode o × (tag_of o ≡ tag)

abbrev pub PoolTag : List CoreOutbound → Text → Type 0
PoolTag os tag = (o : CoreOutbound) × Member o os × (is_pool o ≡ true) × (tag_of o ≡ tag)

-- The tags are new, no two are the same, and each set is filled from the outbounds alone.
pub record Collects (t : Tags) (os : List CoreOutbound) (u : Tags) : Type 0 where
  pub fresh : All (λ o. contains t.tags (tag_of o) ≡ false) os
  pub distinct : Distinct (map tag_of os)
  pub listed : All (λ o. contains u.tags (tag_of o) ≡ true) os
  pub kept : (tag : Text) → contains t.tags tag ≡ true → contains u.tags tag ≡ true
  pub nodes : (tag : Text) → Member tag u.node_tags → Member tag t.node_tags ⊎ NodeTag os tag
  pub pools : (tag : Text) → Member tag u.pool_tags → Member tag t.pool_tags ⊎ PoolTag os tag

later-node :
    (o : CoreOutbound) (os : List CoreOutbound) (tag : Text) → NodeTag os tag → NodeTag (o ∷ os) tag
later-node o os tag (p, m, n, e) = (p, inr m, n, e)

later-pool :
    (o : CoreOutbound) (os : List CoreOutbound) (tag : Text) → PoolTag os tag → PoolTag (o ∷ os) tag
later-pool o os tag (p, m, n, e) = (p, inr m, n, e)

first-node :
    (t : Tags) (o : CoreOutbound) (os : List CoreOutbound) (u : Tags) (tag : Text)
    → Adds t o u
    → Member tag u.node_tags
    → Member tag t.node_tags ⊎ NodeTag (o ∷ os) tag
first-node t o os u tag (e, inl (n, q, p)) m = elim (subst (Member tag) q m) [
  | inl k ↦ inr (o, inl refl, n, k)
  | inr k ↦ inl k
]
first-node t o os u tag (e, inr (q, p)) m = inl (subst (Member tag) q m)

first-pool :
    (t : Tags) (o : CoreOutbound) (os : List CoreOutbound) (u : Tags) (tag : Text)
    → Adds t o u
    → Member tag u.pool_tags
    → Member tag t.pool_tags ⊎ PoolTag (o ∷ os) tag
first-pool t o os u tag (e, inl (n, q, p)) m = inl (subst (Member tag) p m)
first-pool t o os u tag (e, inr (q, inl p)) m = inl (subst (Member tag) p m)
first-pool t o os u tag (e, inr (q, inr (k, p))) m = elim (subst (Member tag) p m) [
  | inl r ↦ inr (o, inl refl, k, r)
  | inr r ↦ inl r
]

module _ (more tags : List Text) (a : Text) where
  pub grown-fresh :
      (x : Text) → more ≡ a ∷ tags → contains more x ≡ false → (contains tags x ≡ false) × (a ≢ x)
  grown-fresh x e h = (
    no_contains tags x (λ m. contains_no more x h (subst (Member x) (sym e) (inr m))),
    λ q. contains_no more x h (subst (Member x) (sym e) (inl q)),
  )

  grown-listed : more ≡ a ∷ tags → contains more a ≡ true
  grown-listed e = (contains_iff more a).1 (subst (Member a) (sym e) (inl refl))

  grown-kept : (x : Text) → more ≡ a ∷ tags → contains tags x ≡ true → contains more x ≡ true
  grown-kept x e h =
      (contains_iff more x).1 (subst (Member x) (sym e) (inr ((contains_iff tags x).0 h)))

pub add_outbounds-Collects :
    (t : Tags) (os : List CoreOutbound) (u : Tags) → add_outbounds t os ≡ ok u → Collects t os u
unfolding add_outbounds
add_outbounds-Collects t [] u h =
    let q : t ≡ u = cc in
    record {
      fresh = tt;
      distinct = tt;
      listed = tt;
      kept = λ tag k. rw (sym q) k;
      nodes = λ tag m. inl (rw q m);
      pools = λ tag m. inl (rw q m);
    }
add_outbounds-Collects t (o ∷ os) u h =
    let (v, a, r) = >>=-eq-ok (add_outbound t o) _ h in
    let (fresh, adds) = outbound-Adds t o v a in
    let rest = add_outbounds-Collects v os u r in
    record {
      fresh = (
        fresh,
        All-imp (λ p. contains v.tags (tag_of p) ≡ false) (λ p. contains t.tags (tag_of p) ≡ false)
            os (λ p n. (grown-fresh v.tags t.tags (tag_of o) (tag_of p) adds.0 n).0) rest.fresh,
      );
      distinct = (
        λ m.
            let (p, n, e) = Member-map_in tag_of os (tag_of o) m in
            let again = All-member (λ p. contains v.tags (tag_of p) ≡ false) os rest.fresh p n in
            (grown-fresh v.tags t.tags (tag_of o) (tag_of p) adds.0 again).1 (sym e),
        rest.distinct,
      );
      listed = (rest.kept (tag_of o) (grown-listed v.tags t.tags (tag_of o) adds.0), rest.listed);
      kept = λ tag k. rest.kept tag (grown-kept v.tags t.tags (tag_of o) tag adds.0 k);
      nodes = λ tag m. elim (rest.nodes tag m) [
        | inl k ↦ first-node t o os v tag adds k
        | inr k ↦ inr (later-node o os tag k)
      ];
      pools = λ tag m. elim (rest.pools tag m) [
        | inl k ↦ first-pool t o os v tag adds k
        | inr k ↦ inr (later-pool o os tag k)
      ];
    }
