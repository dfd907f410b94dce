-- ===== src/Compiler/Traffic/First.antt =====
-- The rules that src-tauri/src/singbox/compiler.rs makes of the routes send a connection where the
-- first route that it meets says.
use veyra.Base.{
  ◌↔◌, All-imp, Member-retain, All-member, Member-All, subst, option_beq, map_ok-eq-ok, ◌≡◌, ◌⊎◌,
  inl, inr, refl, sym, List, [], ◌∷◌, find, retain, none, some, true, false, Bool-cases, Member,
  All, ok, map_ok, >>=-eq-ok, arith, if◌then◌else◌,
}
use veyra.Base.Text.{Text, text_eq}
use veyra.Base.Order.{sort_by, Sorted, Member-sort_by}
use veyra.Domain.Types.{RoutePolicy, RouteTarget, TrafficMatcher}
use veyra.Domain.State.{route_le}
use veyra.Domain.State.Closed.{route_le_total}
use veyra.Compiler.Document.{CoreRule}
use veyra.Compiler.Compile.{match_rule, blank_rule, target_tag, route_rule, route_rules}
use veyra.Compiler.Traffic.{Connection, rule_met, Outcome, apply_rule, route_met}

match_rule-met :
    (c : Connection) (tag : Text) (matcher : TrafficMatcher)
    → c.tunnel ≡ none
    → rule_met c (match_rule (record blank_rule { outbound = some tag }) matcher) ≡ c.meets matcher
unfolding rule_met match_rule
match_rule-met c tag (TrafficMatcher.domain v) h = ground arith
match_rule-met c tag (TrafficMatcher.domain_suffix v) h = ground arith
match_rule-met c tag (TrafficMatcher.application v) h = ground arith
match_rule-met c tag (TrafficMatcher.ip_cidr v) h = ground arith
match_rule-met c tag (TrafficMatcher.port v) h = ground arith
match_rule-met c tag (TrafficMatcher.protocol v) h = ground arith

match_rule-outcome :
    (final tag : Text) (matcher : TrafficMatcher)
    → apply_rule final (some (match_rule (record blank_rule { outbound = some tag }) matcher))
      ≡ Outcome.sent_to tag
unfolding apply_rule match_rule option_beq
match_rule-outcome final tag (TrafficMatcher.domain v) = refl
match_rule-outcome final tag matcher = refl

-- The first route of the list that a connection meets, as a target; the default one without.
abbrev pub first_target : Connection → RouteTarget → List RoutePolicy → RouteTarget
first_target c default [] = default
first_target c default (r ∷ rs) = if c.meets r.matcher then r.target else first_target c default rs

pub rules-first :
    (c : Connection) (final : Text) (default : RouteTarget) (routes : List RoutePolicy)
    (rules : List CoreRule)
    → c.tunnel ≡ none
    → target_tag default ≡ ok final
    → route_rules routes ≡ ok rules
    → (tag : Text) × (target_tag (first_target c default routes) ≡ ok tag)
      × (apply_rule final (find (rule_met c) rules) ≡ Outcome.sent_to tag)
unfolding route_rules route_rule find apply_rule
rules-first c final default [] rules h k r = let q : [] ≡ rules = cc in (final, k, rw (sym q) refl)
rules-first c final default (route ∷ routes) rules h k r =
    let (rule, made, more) =
      >>=-eq-ok (route_rule route) (λ x. map_ok (λ rest. x ∷ rest) (route_rules routes)) r in
    let (tag, target, shape) =
      map_ok-eq-ok (λ o. match_rule (record blank_rule { outbound = some o }) route.matcher)
        (target_tag route.target) made in
    let (rest, others, whole) = map_ok-eq-ok (λ x. rule ∷ x) (route_rules routes) more in
    let met : rule_met c rule ≡ c.meets route.matcher =
      subst (λ x. rule_met c x ≡ c.meets route.matcher) shape
        (match_rule-met c tag route.matcher h) in
    let sends : apply_rule final (some rule) ≡ Outcome.sent_to tag =
      subst (λ x. apply_rule final (some x) ≡ Outcome.sent_to tag) shape
        (match_rule-outcome final tag route.matcher) in
    elim (Bool-cases (c.meets route.matcher)) [
      | inl e ↦ (
        tag,
        rw e target,
        subst (λ x. apply_rule final (find (rule_met c) x) ≡ Outcome.sent_to tag) whole
            (rw (met, e) sends),
      )
      | inr e ↦
          let (t, at, goes) = rules-first c final default routes rest h k others in
          (
            t,
            rw e at,
            subst (λ x. apply_rule final (find (rule_met c) x) ≡ Outcome.sent_to t) whole
                (rw (met, e) goes),
          )
    ]

-- The target that the routes ask for: that of an enabled route that the connection meets and that no
-- other such route goes before, or the default one if it meets none.
abbrev pub Asked : Connection → List RoutePolicy → RouteTarget → RouteTarget → Type 0
Asked c routes default target =
    ((route : RoutePolicy) × Member route routes
      × (route_met c route ≡ true)
      × (target ≡ route.target)
      × All (λ r. (route_met c r ≡ false) ⊎ (route_le route r ≡ true)) routes)
    ⊎ (All (λ r. route_met c r ≡ false) routes × (target ≡ default))

-- The same, of routes that are all enabled.
abbrev First : Connection → List RoutePolicy → RouteTarget → RouteTarget → Type 0
First c routes default target =
    ((route : RoutePolicy) × Member route routes
      × (c.meets route.matcher ≡ true)
      × (target ≡ route.target)
      × All (λ r. (c.meets r.matcher ≡ false) ⊎ (route_le route r ≡ true)) routes)
    ⊎ (All (λ r. c.meets r.matcher ≡ false) routes × (target ≡ default))

route_le_refl : (r : RoutePolicy) → route_le r r ≡ true
route_le_refl r = elim (Bool-cases (route_le r r)) [ inl e ↦ e | inr e ↦ route_le_total r r e ]

pub first_target-First :
    (c : Connection) (default : RouteTarget) (routes : List RoutePolicy)
    → Sorted route_le routes
    → First c routes default (first_target c default routes)
first_target-First c default [] s = inr (tt, refl)
first_target-First c default (r ∷ rs) (below, s) = elim (Bool-cases (c.meets r.matcher)) [
  | inl e ↦ inl (
    r,
    inl refl,
    e,
    rw e refl,
    (
      inr (route_le_refl r),
      All-imp (λ y. route_le r y ≡ true) (λ y. (c.meets y.matcher ≡ false) ⊎ (route_le r y ≡ true))
          rs (λ y h. inr h) below,
    ),
  )
  | inr e ↦ elim (first_target-First c default rs s) [
    | inl found ↦ let (q, m, met, t, rest) = found in inl (q, inr m, met, rw e t, (inl e, rest))
    | inr nothing ↦ inr ((e, nothing.0), rw e (nothing.1))
  ]
]

module _ (c : Connection) (routes : List RoutePolicy) where
  abbrev active : List RoutePolicy
  active = sort_by route_le (retain (λ r. r.enabled) routes)

  active-Member : (r : RoutePolicy) → Member r active ↔ (Member r routes × (r.enabled ≡ true))
  active-Member r =
      let listed = Member-sort_by route_le (retain (λ q. q.enabled) routes) r in
      let kept = Member-retain (λ (q : RoutePolicy). q.enabled) routes r in
      (λ m. kept.0 (listed.0 m), λ m. listed.1 (kept.1 m))

  -- What holds of the routes that are compiled holds of all that can be met.
  All-active :
      (P : RoutePolicy → Type 0)
      → All (λ r. (c.meets r.matcher ≡ false) ⊎ P r) active
      → All (λ r. (route_met c r ≡ false) ⊎ P r) routes
  All-active P h =
      Member-All (λ r. (route_met c r ≡ false) ⊎ P r) routes
        (λ r m. elim (Bool-cases r.enabled) [
          | inl e ↦
              elim (All-member (λ q. (c.meets q.matcher ≡ false) ⊎ P q) active h r
                ((active-Member r).1 (m, e))) [ inl n ↦ inl (rw (e, n) refl) | inr p ↦ inr p ]
          | inr e ↦ inl (rw e refl)
        ])

  pub First-Asked :
      (default target : RouteTarget) → First c active default target → Asked c routes default target
  First-Asked default target (inl (r, m, met, t, rest)) =
      let (k, e) = (active-Member r).0 m in
      inl (r, k, rw (e, met) refl, t, All-active (λ q. route_le r q ≡ true) rest)
  First-Asked default target (inr (none_met, t)) = inr (
    All-imp (λ r. (route_met c r ≡ false) ⊎ ⊥) (λ r. route_met c r ≡ false) routes
        (λ r h. elim h [ inl e ↦ e | inr e ↦ absurd e ])
        (All-active (λ r. ⊥)
          (All-imp (λ r. c.meets r.matcher ≡ false) (λ r. (c.meets r.matcher ≡ false) ⊎ ⊥) active
            (λ r e. inl e) none_met)),
    t,
  )
