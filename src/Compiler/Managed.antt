-- ===== src/Compiler/Managed.antt =====
-- The rest of `Document::validate_standard` of src-tauri/src/singbox/compiler.rs, over the tags that
-- Compiler/Validate.antt collects. `parse` is `reqwest::Url::parse`.
pub mod Names
pub mod Closed
use veyra.Base.{
  ℕ, List, [], ◌∷◌, map, Option, none, some, Bool, true, false, ◌&&◌, ◌||◌, not, if◌then◌else◌,
  is_some, is_some_and, is_none_or, is_empty, all, any, contains, ltb, nat_beq, nat_eq, ◌==◌,
  Result, ok, err, fail_if, for_each, ◌>>=◌, ◌>>◌,
}
use veyra.Base.Text.{Text, text, text_eq, text_le}
use veyra.Base.Numbers.{parse_unsigned}
use veyra.Base.Order.{sort_by}
use veyra.Domain.Options.{all_distinct}
use veyra.Routing.Input.{Url}
use veyra.Compiler.Document.{CompileError, CoreOutbound, CoreRule, Document, DnsServer}
use veyra.Compiler.Checks.{present, strip_suffix, valid_secret, valid_prefix, valid_probe_url}
use veyra.Compiler.Validate.{
  Tags, no_tags, dns_tag, api_address, direct_tag, block_tag, matcher_count, is_ingress_reject,
  reject_if, add_outbounds, add_endpoints,
}

abbrev pub bad_target_if : Bool → Result (Unit {0}) CompileError
bad_target_if t = fail_if t CompileError.invalid_route_target

unfoldable pub validate_members : List Text → List Text → Result (Unit {0}) CompileError
validate_members members node_tags = do
  fail_if (is_empty members) CompileError.empty_pool_membership
  bad_target_if
      (any (λ member. not (contains node_tags member)) members || not (all_distinct members))

-- `u64::MAX`
abbrev max_u64 : ℕ
max_u64 = 18446744073709551615

seconds : Text → Option ℕ
seconds interval = elim (strip_suffix interval b's') [
  | none ↦ none
  | some s ↦ parse_unsigned max_u64 s
]

-- `probe_parts`: the interval is a positive number of seconds
unfoldable pub interval_is_valid : Text → Bool
unfolding seconds
interval_is_valid interval = is_some_and (seconds interval) (λ value. ltb 0 value)

unfoldable pub check_pool :
    (Text → Option Url) → List Text → CoreOutbound → Result (Unit {0}) CompileError
unfolding validate_members
check_pool parse node_tags (CoreOutbound.selector tag outbounds default) = do
  validate_members outbounds node_tags
  bad_target_if (is_some_and default (λ selected. not (contains outbounds selected)))
check_pool parse node_tags (CoreOutbound.urltest tag outbounds url interval tolerance) = do
  validate_members outbounds node_tags
  fail_if (not (valid_probe_url parse url) || not (interval_is_valid interval))
      CompileError.invalid_node_configuration
check_pool parse node_tags outbound = ok tt

-- With a WireGuard ingress both rule lists start with its rejection; the rest of the route rules are
-- the user's.
unfoldable pub user_rules :
    List Text → List CoreRule → List CoreRule → Result (List CoreRule) CompileError
user_rules [] dns_rules rules = do reject_if (not (is_empty dns_rules)); ok rules
user_rules (t ∷ ts) (dns_rule ∷ []) (rule ∷ rules) =
    if is_ingress_reject dns_rule (t ∷ ts) && is_ingress_reject rule (t ∷ ts)
    then ok rules
    else err CompileError.invalid_final_configuration
user_rules (t ∷ ts) dns_rules rules = err CompileError.invalid_final_configuration

unfoldable pub is_target : List Text → Text → Bool
is_target pool_tags target =
    target == direct_tag || target == block_tag || contains pool_tags target

abbrev blank_values : Option (List Text) → Bool
blank_values values = is_some_and values (λ v. is_empty v || any (λ value. not (present value)) v)

unfoldable pub check_rule : List Text → CoreRule → Result (Unit {0}) CompileError
unfolding is_target
check_rule pool_tags rule = do
  bad_target_if (
      is_some rule.inbound
      || is_some rule.action
      || not (nat_beq (matcher_count rule) 1)
      || not (is_some_and rule.outbound (is_target pool_tags)))
  reject_if (
      blank_values rule.domain || blank_values rule.domain_suffix || blank_values rule.process_name)
  reject_if (
      is_some_and rule.ip_cidr (λ v. is_empty v || any (λ value. not (valid_prefix value)) v)
      || is_some_and rule.port (λ ports. is_empty ports || contains ports 0)
      || is_some_and rule.network is_empty)

-- `servers.len() != 1` and the two tests on the only server
unfoldable pub servers_are_valid : List DnsServer → Bool
servers_are_valid (server ∷ []) = server.kind == text "local" && server.tag == dns_tag
servers_are_valid servers = false

-- `bound` says whether the secret is that of a run, or still empty.
unfoldable pub is_managed : Bool → Document → Bool
unfolding servers_are_valid
is_managed bound d =
    d.log_disabled
    && d.clash_api.external_controller == api_address
    && (if bound then valid_secret d.clash_api.secret else is_empty d.clash_api.secret)
    && servers_are_valid d.dns.servers
    && d.dns.final_server == dns_tag
    && d.route.default_domain_resolver == dns_tag

unfoldable pub validate : (Text → Option Url) → Bool → Document → Result (Unit {0}) CompileError
unfolding is_managed is_target check_pool check_rule user_rules
validate parse bound d = do
  reject_if (not (nat_beq d.inbounds 0))
  reject_if (not (is_managed bound d))
  first ← add_outbounds no_tags d.outbounds
  t ← add_endpoints first d.endpoints
  let ingress = sort_by text_le (map (λ e. e.tag) d.endpoints)
  bad_target_if (
      not (nat_beq t.direct_count 1)
      || not (nat_beq t.block_count 1)
      || is_empty t.node_tags
      || not (is_target t.pool_tags d.route.final_outbound))
  for_each (check_pool parse t.node_tags) d.outbounds
  rules ← user_rules ingress d.dns.rules d.route.rules
  for_each (check_rule t.pool_tags) rules
