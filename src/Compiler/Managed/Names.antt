-- ===== src/Compiler/Managed/Names.antt =====
-- The names in a configuration that `Document::validate` of src-tauri/src/singbox/compiler.rs passes:
-- each rule and each pool names a target of the configuration.
use veyra.Base.{
  if◌then◌else◌, list_eq, ◌≡◌, ◌⊎◌, inl, inr, refl, sym, subst, List, [], ◌∷◌, ◌++◌, map, Option,
  none, some, Bool, true, false, ◌||◌, not, is_empty, Bool-cases, contains, contains_iff, any,
  any_none, is_some, is_some_and, Member, Member-append, All, Member-All, Distinct, Result, ok, err,
  fail_if-eq-ok, fail_if_iff, >>-eq-ok, ◌==◌, ◌&&◌, &&-true, option_beq, option_beq_iff, nat_beq,
}
use veyra.Base.Text.{Text, text, text_eq, text_beq_sound}
use veyra.Domain.Options.{all_distinct}
use veyra.Routing.Input.{Url}
use veyra.Compiler.Document.{CompileError, CoreOutbound, CoreRule, Document}
use veyra.Compiler.Validate.{Tags, tag_of, direct_tag, block_tag, is_ingress_reject, matcher_count}
use veyra.Compiler.Validate.Outbounds.{NodeTag, PoolTag}
use veyra.Compiler.Managed.{validate_members, check_pool, user_rules, is_target, check_rule}

abbrev pub tunnel_tags : Document → List Text
tunnel_tags d = map (λ e. e.tag) d.endpoints

abbrev pub document_tags : Document → List Text
document_tags d = map tag_of d.outbounds ++ tunnel_tags d

-- The tag of a node, as an outbound that is read back as a valid node or as a tunnel.
abbrev pub NamesNode : Document → Text → Type 0
NamesNode d tag = NodeTag d.outbounds tag ⊎ Member tag (tunnel_tags d)

-- What traffic can be sent to: a direct outbound, a block outbound or a pool of the configuration.
abbrev pub NamesTarget : Document → Text → Type 0
NamesTarget d tag =
    Member (CoreOutbound.direct tag) d.outbounds
    ⊎ (Member (CoreOutbound.block tag) d.outbounds ⊎ PoolTag d.outbounds tag)

abbrev pub DefaultListed : List Text → Option Text → Type 0
DefaultListed members none = Unit
DefaultListed members (some tag) = Member tag members

abbrev pub PoolClosed : Document → CoreOutbound → Type 0
PoolClosed d (CoreOutbound.selector tag members default) =
    All (NamesNode d) members × DefaultListed members default
PoolClosed d (CoreOutbound.urltest tag members url interval tolerance) = All (NamesNode d) members
PoolClosed d o = Unit

abbrev pub RuleClosed : Document → CoreRule → Type 0
RuleClosed d rule =
    ((rule.action ≡ some (text "reject")) × (rule.outbound ≡ none))
    ⊎ ((tag : Text) × (rule.outbound ≡ some tag) × NamesTarget d tag)

pub record IsClosed (d : Document) : Type 0 where
  pub distinct : Distinct (document_tags d)
  pub final : NamesTarget d d.route.final_outbound
  pub pools : All (PoolClosed d) d.outbounds
  pub rules : All (RuleClosed d) d.route.rules

pub Distinct-append :
    (xs ys : List Text)
    → Distinct xs
    → Distinct ys
    → ((y : Text) → Member y ys → ¬ Member y xs)
    → Distinct (xs ++ ys)
Distinct-append [] ys p q h = q
Distinct-append (x ∷ xs) ys p q h = (
  λ m. elim ((Member-append x xs ys).0 m) [ inl k ↦ p.0 k | inr k ↦ h x k (inl refl) ],
  Distinct-append xs ys p.1 q (λ y m n. h y m (inr n)),
)

||-cases : (a b : Bool) → (a || b) ≡ true → (a ≡ true) ⊎ (b ≡ true)
||-cases true b h = inl refl
||-cases false b h = inr h

pub not-false : (b : Bool) → not b ≡ false → b ≡ true
not-false true h = refl
not-false false h = cc

pub ||-false : (a b : Bool) → (a || b) ≡ false → (a ≡ false) × (b ≡ false)
||-false false b h = (refl, h)
||-false true b h = cc

pub is_target-Names :
    (d : Document) (t : Tags) (tag : Text)
    → Member (CoreOutbound.direct direct_tag) d.outbounds
    → Member (CoreOutbound.block block_tag) d.outbounds
    → ((x : Text) → Member x t.pool_tags → PoolTag d.outbounds x)
    → is_target t.pool_tags tag ≡ true
    → NamesTarget d tag
unfolding is_target
is_target-Names d t tag direct block pools h =
    elim (||-cases (tag == direct_tag || tag == block_tag) (contains t.pool_tags tag) h) [
      | inl k ↦ elim (||-cases (tag == direct_tag) (tag == block_tag) k) [
        | inl e ↦ inl (
            subst (λ x. Member (CoreOutbound.direct x) d.outbounds)
              (sym (text_beq_sound tag direct_tag e)) direct)
        | inr e ↦ inr (
            inl (
              subst (λ x. Member (CoreOutbound.block x) d.outbounds)
                (sym (text_beq_sound tag block_tag e)) block))
      ]
      | inr k ↦ inr (inr (pools tag ((contains_iff t.pool_tags tag).0 k)))
    ]

members-Names :
    (d : Document) (t : Tags) (members : List Text)
    → ((x : Text) → Member x t.node_tags → NamesNode d x)
    → validate_members members t.node_tags ≡ ok tt
    → All (NamesNode d) members
unfolding validate_members
members-Names d t members nodes h =
    let (a, k) = fail_if-eq-ok (is_empty members) CompileError.empty_pool_membership _ h in
    let (b, c) =
      ||-false (any (λ member. not (contains t.node_tags member)) members)
        (not (all_distinct members)) ((fail_if_iff _ CompileError.invalid_route_target).0 k) in
    Member-All (NamesNode d) members (λ x m. nodes x (
      (contains_iff t.node_tags x).0
        (not-false _ (any_none (λ member. not (contains t.node_tags member)) members b x m))))

default-Listed :
    (members : List Text) (default : Option Text)
    → is_some_and default (λ s. not (contains members s)) ≡ false
    → DefaultListed members default
default-Listed members none h = tt
default-Listed members (some tag) h = (contains_iff members tag).0 (not-false _ h)

pub pool-Closed :
    (parse : Text → Option Url) (d : Document) (t : Tags) (o : CoreOutbound)
    → ((x : Text) → Member x t.node_tags → NamesNode d x)
    → check_pool parse t.node_tags o ≡ ok tt
    → PoolClosed d o
unfolding check_pool
pool-Closed parse d t (CoreOutbound.selector tag members default) nodes h =
    let (m, k) = >>-eq-ok (validate_members members t.node_tags) _ h in
    (
      members-Names d t members nodes m,
      default-Listed members default ((fail_if_iff _ CompileError.invalid_route_target).0 k),
    )
pool-Closed parse d t (CoreOutbound.urltest tag members url interval tolerance) nodes h =
    members-Names d t members nodes (>>-eq-ok (validate_members members t.node_tags) _ h).0
pool-Closed parse d t o nodes h = tt

target-Closed :
    (d : Document) (t : Tags) (rule : CoreRule) (outbound : Option Text)
    → ((x : Text) → is_target t.pool_tags x ≡ true → NamesTarget d x)
    → is_some_and outbound (is_target t.pool_tags) ≡ true
    → (tag : Text) × (outbound ≡ some tag) × NamesTarget d tag
target-Closed d t rule none targets h = cc
target-Closed d t rule (some tag) targets h = (tag, refl, targets tag h)

pub rule-Closed :
    (d : Document) (t : Tags) (rule : CoreRule)
    → ((x : Text) → is_target t.pool_tags x ≡ true → NamesTarget d x)
    → check_rule t.pool_tags rule ≡ ok tt
    → RuleClosed d rule
unfolding check_rule
rule-Closed d t rule targets h =
    let (a, k) =
      fail_if-eq-ok
        (is_some rule.inbound
          || is_some rule.action
          || not (nat_beq (matcher_count rule) 1)
          || not (is_some_and rule.outbound (is_target t.pool_tags)))
        CompileError.invalid_route_target _ h in
    let (b, c) =
      ||-false (is_some rule.inbound || is_some rule.action || not (nat_beq (matcher_count rule) 1))
        (not (is_some_and rule.outbound (is_target t.pool_tags))) a in
    inr (target-Closed d t rule rule.outbound targets (not-false _ c))

reject-Closed :
    (d : Document) (rule : CoreRule) (tags : List Text)
    → is_ingress_reject rule tags ≡ true
    → RuleClosed d rule
unfolding is_ingress_reject
reject-Closed d rule tags h =
    let (h1, c) =
      &&-true
        (option_beq rule.inbound (some tags)
          && option_beq rule.action (some (text "reject"))
          && not (is_some rule.outbound))
        (nat_beq (matcher_count rule) 0) h in
    let (h2, o) =
      &&-true (option_beq rule.inbound (some tags) && option_beq rule.action (some (text "reject")))
        (not (is_some rule.outbound)) h1 in
    let (i, a) =
      &&-true (option_beq rule.inbound (some tags)) (option_beq rule.action (some (text "reject")))
        h2 in
    inl ((option_beq_iff rule.action (some (text "reject"))).0 a, no_value rule.outbound o)
  where
    no_value : (v : Option Text) → not (is_some v) ≡ true → v ≡ none
    no_value none k = refl
    no_value (some x) k = cc

split-ok :
    (b : Bool) (rs user : List CoreRule)
    → b ≡ true
    → ◌≡◌ {A = Result (List CoreRule) CompileError}
        (if b then ok rs else err CompileError.invalid_final_configuration)
        (ok user)
    → rs ≡ user
split-ok true rs user e h = cc
split-ok false rs user e h = cc

split-err :
    (b : Bool) (rs user : List CoreRule)
    → b ≡ false
    → ◌≡◌ {A = Result (List CoreRule) CompileError}
        (if b then ok rs else err CompileError.invalid_final_configuration)
        (ok user)
    → ⊥
split-err true rs user e h = cc
split-err false rs user e h = cc

pub user_rules-Closed :
    (d : Document) (ingress : List Text) (dns_rules rules user : List CoreRule)
    → user_rules ingress dns_rules rules ≡ ok user
    → All (RuleClosed d) user
    → All (RuleClosed d) rules
unfolding user_rules
user_rules-Closed d [] dns_rules rules user h k =
    let (a, r) =
      fail_if-eq-ok (not (is_empty dns_rules)) CompileError.invalid_final_configuration (ok rules)
        h in
    let q : rules ≡ user = cc in rw q k
user_rules-Closed d (i ∷ is) [] rules user h k = cc
user_rules-Closed d (i ∷ is) (a ∷ b ∷ dns) rules user h k = cc
user_rules-Closed d (i ∷ is) (a ∷ []) [] user h k = cc
user_rules-Closed d (i ∷ is) (a ∷ []) (r ∷ rs) user h k =
    elim (Bool-cases (is_ingress_reject a (i ∷ is) && is_ingress_reject r (i ∷ is))) [
      | inl e ↦
          let q : rs ≡ user = split-ok _ rs user e h in
          (
            reject-Closed d r (i ∷ is)
                (&&-true (is_ingress_reject a (i ∷ is)) (is_ingress_reject r (i ∷ is)) e).1,
            subst (All (RuleClosed d)) (sym q) k,
          )
      | inr e ↦ absurd (split-err _ rs user e h)
    ]
