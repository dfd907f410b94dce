-- ===== src/Compiler/Managed/Closed.antt =====
-- What a configuration that `Document::validate` of src-tauri/src/singbox/compiler.rs passes promises
-- the core: its tags are distinct, and what its pools, its rules and its final outbound name is there.
use veyra.Base.{
  Member-map_in, All-member, list_eq, ◌≡◌, ◌⊎◌, inl, inr, subst, map, Option, Bool, true, false,
  ◌||◌, not, is_empty, contains, Member, All-imp, ok, fail_if-eq-ok, >>-eq-ok, >>=-eq-ok, for_each,
  for_each_iff, nat_beq, arith,
}
use veyra.Base.Text.{Text, text_eq, text_le}
use veyra.Base.Order.{sort_by}
use veyra.Routing.Input.{Url}
use veyra.Compiler.Document.{CompileError, CoreOutbound, Document}
use veyra.Compiler.Validate.{
  Tags, no_tags, tag_of, direct_tag, block_tag, add_outbounds, add_endpoints,
}
use veyra.Compiler.Validate.Counts.{add_outbounds-Counts, add_endpoints-SameCounts}
use veyra.Compiler.Validate.Outbounds.{NodeTag, PoolTag, Collects, add_outbounds-Collects}
use veyra.Compiler.Validate.Tunnels.{CollectsTunnels, add_endpoints-Collects}
use veyra.Compiler.Managed.{check_pool, user_rules, is_target, check_rule, is_managed, validate}
use veyra.Compiler.Managed.Names.{
  tunnel_tags, NamesNode, PoolClosed, RuleClosed, IsClosed, Distinct-append, not-false, ||-false,
  is_target-Names, pool-Closed, rule-Closed, user_rules-Closed,
}

pool_of :
    (d : Document) (x : Text)
    → Member x no_tags.pool_tags ⊎ PoolTag d.outbounds x
    → PoolTag d.outbounds x
pool_of d x (inl m) = absurd m
pool_of d x (inr p) = p

node_of :
    (d : Document) (x : Text) (u : Tags)
    → (Member x u.node_tags → Member x no_tags.node_tags ⊎ NodeTag d.outbounds x)
    → Member x u.node_tags ⊎ Member x (tunnel_tags d)
    → NamesNode d x
node_of d x u f (inl m) = elim (f m) [ inl k ↦ absurd k | inr n ↦ inl n ]
node_of d x u f (inr m) = inr m

-- The tag of a tunnel is that of no outbound.
apart :
    (d : Document) (u : Tags) {t : Tags}
    → Collects no_tags d.outbounds u
    → CollectsTunnels u d.endpoints t
    → (y : Text) → Member y (tunnel_tags d)
    → ¬ Member y (map tag_of d.outbounds)
apart d u outs tunnels y m n =
    let (e, k, p) = Member-map_in (λ x. x.tag) d.endpoints y m in
    let (o, l, q) = Member-map_in tag_of d.outbounds y n in
    let absent = All-member (λ x. contains u.tags x.tag ≡ false) d.endpoints tunnels.fresh e k in
    let there = All-member (λ x. contains u.tags (tag_of x) ≡ true) d.outbounds outs.listed o l in
    cc (
      subst (λ x. contains u.tags x ≡ false) p absent,
      subst (λ x. contains u.tags x ≡ true) q there,
    )

-- Where the counters are at one, the outbounds that they count are there.
counted :
    (d : Document) (u t : Tags)
    → add_outbounds no_tags d.outbounds ≡ ok u
    → add_endpoints u d.endpoints ≡ ok t
    → (not (nat_beq t.direct_count 1) || not (nat_beq t.block_count 1)) ≡ false
    → Member (CoreOutbound.direct direct_tag) d.outbounds
      × Member (CoreOutbound.block block_tag) d.outbounds
counted d u t first second h =
    let (a, b) = add_outbounds-Counts no_tags d.outbounds u first in
    let (p, q) = add_endpoints-SameCounts u d.endpoints t second in
    (
      elim a [ inl e ↦ absurd (ground arith) | inr m ↦ m ],
      elim b [ inl e ↦ absurd (ground arith) | inr m ↦ m ],
    )

-- A configuration that passes the check is closed: no tag stands for two things, the members of each
-- pool are nodes of it, the default of a selector is one of its members, and each rule and the final
-- outbound name a direct outbound, a block outbound or a pool that the configuration has, but for the
-- rules that reject.
pub validate-IsClosed :
    (parse : Text → Option Url) (bound : Bool) (d : Document)
    → validate parse bound d ≡ ok tt
    → IsClosed d
unfolding validate
validate-IsClosed parse bound d h =
    let (a, h1) =
      fail_if-eq-ok (not (nat_beq d.inbounds 0)) CompileError.invalid_final_configuration _ h in
    let (b, h2) =
      fail_if-eq-ok (not (is_managed bound d)) CompileError.invalid_final_configuration _ h1 in
    let (u, first, h3) = >>=-eq-ok (add_outbounds no_tags d.outbounds) _ h2 in
    let (t, second, h4) = >>=-eq-ok (add_endpoints u d.endpoints) _ h3 in
    let (c, h5) =
      fail_if-eq-ok
        (not (nat_beq t.direct_count 1)
          || not (nat_beq t.block_count 1)
          || is_empty t.node_tags
          || not (is_target t.pool_tags d.route.final_outbound))
        CompileError.invalid_route_target _ h4 in
    let (f, h6) = >>-eq-ok (for_each (check_pool parse t.node_tags) d.outbounds) _ h5 in
    let (user, e, g) =
      >>=-eq-ok
        (user_rules (sort_by text_le (map (λ x. x.tag) d.endpoints)) d.dns.rules d.route.rules) _
        h6 in
    let (few, no_target) =
      ||-false
        (not (nat_beq t.direct_count 1) || not (nat_beq t.block_count 1) || is_empty t.node_tags)
        (not (is_target t.pool_tags d.route.final_outbound)) c in
    let outs = add_outbounds-Collects no_tags d.outbounds u first in
    let tunnels = add_endpoints-Collects u d.endpoints t second in
    let pools = λ (x : Text).
      λ (m : Member x t.pool_tags). pool_of d x (outs.pools x (subst (Member x) tunnels.pools m)) in
    let (direct, block) =
      counted d u t first second
        ((||-false (not (nat_beq t.direct_count 1) || not (nat_beq t.block_count 1)) _ few).0) in
    let targets = λ (x : Text).
      λ (m : is_target t.pool_tags x ≡ true). is_target-Names d t x direct block pools m in
    record {
      distinct =
          Distinct-append (map tag_of d.outbounds) (tunnel_tags d) outs.distinct tunnels.distinct
            (λ y m n. apart d u outs tunnels y m n);
      final = targets d.route.final_outbound (not-false _ no_target);
      pools =
          All-imp (λ o. check_pool parse t.node_tags o ≡ ok tt) (PoolClosed d) d.outbounds
            (λ o k.
              pool-Closed parse d t o (λ x m. node_of d x u (outs.nodes x) (tunnels.nodes x m)) k)
            ((for_each_iff (check_pool parse t.node_tags) d.outbounds).0 f);
      rules =
          user_rules-Closed d (sort_by text_le (map (λ x. x.tag) d.endpoints)) d.dns.rules
            d.route.rules user e
            (All-imp (λ r. check_rule t.pool_tags r ≡ ok tt) (RuleClosed d) user
              (λ r k. rule-Closed d t r targets k)
              ((for_each_iff (check_rule t.pool_tags) user).0 g));
    }
