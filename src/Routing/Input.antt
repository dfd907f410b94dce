-- ===== src/Routing/Input.antt =====
-- The validators of src-tauri/src/application/proxy_routing.rs. The URL parser is an argument.
use veyra.Base.{
  ℕ, List, Option, none, some, Bool, false, ◌&&◌, ◌||◌, not, Result, ok, ◌>>◌, fail_if, for_each,
  length, is_empty, any, map, ltb, in_range, Eq, ◌==◌, contains, decide_beq, decide_beq_iff,
  is_some, nat_eq,
}
use veyra.Base.Text.{Text, text, text_eq, trim, is_control, byte_length}
use veyra.Domain.Types.{SelectionPolicy, TrafficMatcher, NetworkProtocol}
use veyra.Domain.Options.{all_distinct, protocol_eq}
use veyra.Routing.Types.{
  NodeFilterDto, PoolSourceDto, SelectionDto, MatcherDto, DefaultTargetDto, RouteTargetDto,
  MutationError,
}

abbrev pub max_sources : ℕ
max_sources = 100

abbrev pub max_filter_texts : ℕ
max_filter_texts = 64

abbrev pub max_filter_node_ids : ℕ
max_filter_node_ids = 5_000

abbrev pub max_matcher_values : ℕ
max_matcher_values = 500

unfoldable pub NetworkProtocol-discrete : Discrete NetworkProtocol
NetworkProtocol-discrete = hlevel

instance abbrev pub network_protocol_eq : Eq NetworkProtocol
network_protocol_eq = record {
  beq = decide_beq NetworkProtocol-discrete;
  beq_iff = decide_beq_iff NetworkProtocol-discrete;
}

-- What the code reads of a URL that `Url::parse` returns.
pub record Url : Type 0 where
  pub scheme : Text
  pub username : Text
  pub password : Option Text
  pub query : Option Text
  pub fragment : Option Text
  pub host_str : Option Text

abbrev invalid_if : Bool → Result (Unit {0}) MutationError
invalid_if t = fail_if t MutationError.invalid_input

unfoldable pub validate_name : Text → Result (Unit {0}) MutationError
validate_name value =
    let trimmed = trim value in
    invalid_if (is_empty trimmed || ltb 80 (length trimmed) || any is_control trimmed)

unfoldable pub validate_reference : Text → Result (Unit {0}) MutationError
validate_reference value =
    invalid_if (is_empty value || not (trim value == value) || any is_control value)

bad_text : Text → Bool
bad_text v = let t = trim v in is_empty t || ltb 255 (length t) || any is_control t

unfoldable pub validate_texts : List Text → ℕ → Result (Unit {0}) MutationError
unfolding bad_text
validate_texts values max =
    invalid_if
      (ltb max (length values) || any bad_text values || not (all_distinct (map trim values)))

unfoldable pub validate_references : List Text → ℕ → Result (Unit {0}) MutationError
validate_references values max = do
  invalid_if (ltb max (length values) || not (all_distinct values))
  for_each validate_reference values

unfoldable pub validate_filter : NodeFilterDto → Result (Unit {0}) MutationError
validate_filter v = do
  validate_texts v.regions max_filter_texts
  validate_texts v.include_keywords max_filter_texts
  validate_texts v.exclude_keywords max_filter_texts
  validate_references v.include_node_ids max_filter_node_ids
  validate_references v.exclude_node_ids max_filter_node_ids
  invalid_if (
      ltb 15 (length v.protocols)
      || not (all_distinct v.protocols)
      || any (λ id. contains v.exclude_node_ids id) v.include_node_ids)

unfoldable pub validate_source_dto : PoolSourceDto → Result (Unit {0}) MutationError
validate_source_dto v = do validate_reference v.provider_id; validate_filter v.filter

unfoldable pub validate_sources : List PoolSourceDto → Result (Unit {0}) MutationError
unfolding validate_source_dto
validate_sources values = do
  invalid_if (
      is_empty values
      || ltb max_sources (length values)
      || not (all_distinct (map (λ v. v.provider_id) values)))
  for_each validate_source_dto values

is_loopback : Option Text → Bool
is_loopback none = false
is_loopback (some host) = host == text "127.0.0.1" || host == text "::1"

accepts : Option Url → Bool
unfolding is_loopback
accepts none = false
accepts (some url) =
    url.scheme == text "https"
    || (url.scheme == text "http"
        && is_empty url.username
        && not (is_some url.password)
        && not (is_some url.query)
        && not (is_some url.fragment)
        && is_loopback url.host_str)

unfoldable pub valid_probe_url : (Text → Option Url) → Text → Bool
unfolding accepts
valid_probe_url parse value = accepts (parse value)

unfoldable pub validate_selection :
    (Text → Option Url) → SelectionDto → Result (Unit {0}) MutationError
validate_selection parse (SelectionPolicy.manual (some id)) = validate_reference id
validate_selection parse (SelectionPolicy.manual none) = ok tt
validate_selection parse (SelectionPolicy.url_test probe_url interval_seconds tolerance_ms) =
    invalid_if (
      not (in_range 1 86_400 interval_seconds)
      || ltb 60_000 tolerance_ms
      || ltb 2_048 (byte_length probe_url)
      || not (valid_probe_url parse probe_url))

unfoldable pub validate_default_target : DefaultTargetDto → Result (Unit {0}) MutationError
validate_default_target (DefaultTargetDto.pool pool_id) = validate_reference pool_id
validate_default_target target = ok tt

unfoldable pub validate_route_target : RouteTargetDto → Result (Unit {0}) MutationError
validate_route_target (RouteTargetDto.pool pool_id) = validate_reference pool_id
validate_route_target target = ok tt

-- The four matchers of texts.
unfoldable pub validate_matcher_texts : List Text → Result (Unit {0}) MutationError
validate_matcher_texts x = do
  invalid_if (is_empty x || ltb max_matcher_values (length x))
  validate_texts x max_matcher_values

unfoldable pub validate_matcher : MatcherDto → Result (Unit {0}) MutationError
unfolding validate_matcher_texts NetworkProtocol-discrete
validate_matcher (TrafficMatcher.domain x) = validate_matcher_texts x
validate_matcher (TrafficMatcher.domain_suffix x) = validate_matcher_texts x
validate_matcher (TrafficMatcher.application x) = validate_matcher_texts x
validate_matcher (TrafficMatcher.ip_cidr x) = validate_matcher_texts x
validate_matcher (TrafficMatcher.port x) =
    invalid_if
      (is_empty x || ltb max_matcher_values (length x) || contains x 0 || not (all_distinct x))
validate_matcher (TrafficMatcher.protocol x) =
    invalid_if (is_empty x || ltb max_matcher_values (length x) || not (all_distinct x))
