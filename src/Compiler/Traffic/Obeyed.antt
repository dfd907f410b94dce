-- ===== src/Compiler/Traffic/Obeyed.antt =====
-- The configuration that src-tauri/src/singbox/compiler.rs makes sends each connection where the routes
-- of the intent say.
use veyra.Base.{
  map, contains, subst, option_beq, ◌≡◌, refl, sym, ap, ◌∙◌, List, [], ◌∷◌, ◌++◌, find, retain,
  Option, none, some, true, false, ok, arith,
}
use veyra.Base.Text.{Text, text, text_eq, text_beq_complete}
use veyra.Base.Order.{sort_by-Sorted}
use veyra.Domain.Types.{RouteTarget}
use veyra.Domain.State.{RuntimeIntent, route_le}
use veyra.Domain.State.Closed.{route_le_total, route_le_trans}
use veyra.Compiler.Document.{CoreRule, Document}
use veyra.Routing.Input.{Url}
use veyra.Compiler.Compile.Parts.{active_routes, compile-IsMade, final_target-tag}
use veyra.Compiler.Compile.{compile, document_of, target_tag, reject, ingress_rules}
use veyra.Compiler.Traffic.{Connection, rule_met, Outcome, apply_rule, outcome}
use veyra.Compiler.Traffic.First.{First-Asked, first_target, rules-first, Asked, first_target-First}

reject-unmet :
    (c : Connection) (tags : List Text) → c.tunnel ≡ none → rule_met c (reject tags) ≡ false
unfolding rule_met
reject-unmet c tags h = ground arith

reject-met :
    (c : Connection) (tags : List Text) (tag : Text)
    → c.tunnel ≡ some tag
    → contains tags tag ≡ true
    → rule_met c (reject tags) ≡ true
unfolding rule_met
reject-met c tags tag h m = ground arith

-- The rejection of the tunnels does not concern a connection of the host.
find_past_ingress :
    (c : Connection) (ingress : List Text) (rules : List CoreRule)
    → c.tunnel ≡ none
    → find (rule_met c) (ingress_rules ingress ++ rules) ≡ find (rule_met c) rules
unfolding find ingress_rules
find_past_ingress c [] rules h = refl
find_past_ingress c (t ∷ ts) rules h = rw (reject-unmet c (t ∷ ts) h) refl

ingress_rejected :
    (c : Connection) (ingress : List Text) (rules : List CoreRule) (final tag : Text)
    → c.tunnel ≡ some tag
    → contains ingress tag ≡ true
    → apply_rule final (find (rule_met c) (ingress_rules ingress ++ rules)) ≡ Outcome.rejected
unfolding find ingress_rules apply_rule option_beq contains
ingress_rejected c [] rules final tag h m = cc
ingress_rejected c (t ∷ ts) rules final tag h m =
    rw (reject-met c (t ∷ ts) tag h m, text_beq_complete (text "reject") (text "reject") refl) refl

-- A connection of the host goes where the routes ask for, whatever the tunnels are: to the target of the
-- enabled route that it meets and that no such route goes before in the order of priority and
-- identifier, or to the default target if it meets none.
pub compile-Asked :
    (parse : Text → Option Url) (intent : RuntimeIntent) (default : RouteTarget) (d : Document)
    (c : Connection)
    → compile parse intent default ≡ ok d
    → c.tunnel ≡ none
    → (target : RouteTarget) × (tag : Text) × Asked c intent.routes default target
      × (target_tag target ≡ ok tag)
      × (outcome d c ≡ Outcome.sent_to tag)
unfolding outcome document_of
compile-Asked parse intent default d c h k =
    let made = compile-IsMade parse intent default d h in
    let first = first_target-First c default (active_routes intent) (
      sort_by-Sorted route_le route_le_total route_le_trans
        (retain (λ r. r.enabled) intent.routes)) in
    let (tag, at, sends) =
      rules-first c made.final_outbound default (active_routes intent) made.rules k
        (final_target-tag intent.pools default made.final_outbound made.final) made.rules_made in
    (
      first_target c default (active_routes intent),
      tag,
      First-Asked c intent.routes default (first_target c default (active_routes intent)) first,
      at,
      subst (λ e. outcome e c ≡ Outcome.sent_to tag) made.whole
          (ap (apply_rule made.final_outbound)
              (find_past_ingress c (map (λ e. e.tag) made.nodes.endpoints) made.rules k)
            ∙ sends),
    )

-- What comes in by a tunnel of the configuration is rejected.
compile-rejected :
    (parse : Text → Option Url) (intent : RuntimeIntent) (default : RouteTarget) (d : Document)
    (c : Connection) (tag : Text)
    → compile parse intent default ≡ ok d
    → c.tunnel ≡ some tag
    → contains (map (λ e. e.tag) d.endpoints) tag ≡ true
    → outcome d c ≡ Outcome.rejected
unfolding outcome document_of
compile-rejected parse intent default d c tag h k m =
    let made = compile-IsMade parse intent default d h in
    let endpoints : map (λ e. e.tag) d.endpoints ≡ map (λ e. e.tag) made.nodes.endpoints =
      ap (λ e. map (λ x. x.tag) e.endpoints) (sym made.whole) in
    subst (λ e. outcome e c ≡ Outcome.rejected) made.whole
      (ingress_rejected c (map (λ e. e.tag) made.nodes.endpoints) made.rules made.final_outbound tag
        k (subst (λ x. contains x tag ≡ true) endpoints m))
