-- ===== src/Compiler/Traffic.antt =====
-- What a configuration of src-tauri/src/singbox/compiler.rs means for a connection, and what the routes
-- of the intent ask for. The core takes the first rule that a connection matches, a rule matches if
-- all its fields do, and without one the final outbound is taken.
pub mod First
pub mod Obeyed
use veyra.Base.{
  List, [], ◌∷◌, find, Option, none, some, Bool, true, false, ◌&&◌, option_beq, contains,
  if◌then◌else◌,
}
use veyra.Base.Text.{Text, text, text_eq}
use veyra.Domain.Types.{RoutePolicy, RouteTarget, TrafficMatcher}
use veyra.Compiler.Document.{CoreRule, Document}

-- The tunnel that it came in by, if any, and the matchers that it meets.
pub record Connection : Type 0 where
  pub tunnel : Option Text
  pub meets : TrafficMatcher → Bool

abbrev field_met : {A : Type 0} → Option (List A) → (List A → Bool) → Bool
field_met none test = true
field_met (some values) test = test values

abbrev inbound_met : Option Text → Option (List Text) → Bool
inbound_met tunnel none = true
inbound_met none (some tags) = false
inbound_met (some tag) (some tags) = contains tags tag

unfoldable pub rule_met : Connection → CoreRule → Bool
rule_met c rule =
    inbound_met c.tunnel rule.inbound
    && field_met rule.domain (λ v. c.meets (TrafficMatcher.domain v))
    && field_met rule.domain_suffix (λ v. c.meets (TrafficMatcher.domain_suffix v))
    && field_met rule.process_name (λ v. c.meets (TrafficMatcher.application v))
    && field_met rule.ip_cidr (λ v. c.meets (TrafficMatcher.ip_cidr v))
    && field_met rule.port (λ v. c.meets (TrafficMatcher.port v))
    && field_met rule.network (λ v. c.meets (TrafficMatcher.protocol v))

pub data Outcome : Type 0 where
  rejected unrouted : Outcome
  sent_to : Text → Outcome

abbrev sent : Option Text → Outcome
sent none = Outcome.unrouted
sent (some tag) = Outcome.sent_to tag

unfoldable pub apply_rule : Text → Option CoreRule → Outcome
apply_rule final_outbound none = Outcome.sent_to final_outbound
apply_rule final_outbound (some rule) =
    if option_beq rule.action (some (text "reject")) then Outcome.rejected else sent rule.outbound

unfoldable pub outcome : Document → Connection → Outcome
unfolding apply_rule
outcome d c = apply_rule d.route.final_outbound (find (rule_met c) d.route.rules)

-- The target that the routes ask for: that of an enabled route that is met and that no such route goes
-- before, or the default one if there is none.
abbrev pub route_met : Connection → RoutePolicy → Bool
route_met c route = route.enabled && c.meets route.matcher
