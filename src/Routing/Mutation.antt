-- ===== src/Routing/Mutation.antt =====
-- `apply_mutation` of src-tauri/src/application/proxy_routing.rs.
pub mod Order
pub mod Reorder
pub mod Totality
use veyra.Base.{
  ℕ, suc, ◌+◌, ◌-◌, ◌/◌, ◌%◌, List, [], ◌∷◌, ◌++◌, Option, none, some, Bool, true, false, ◌&&◌,
  ◌||◌, not, Result, ok, err, ◌>>=◌, ◌>>◌, fail_if, ok_or, map_err, for_each, if◌then◌else◌, length,
  any, all, find, update_first, remove_first, insert_at, flat_map, ltb, leb, nat_beq, ◌==◌,
}
use veyra.Base.Int.{ℤ, pos}
use veyra.Base.Text.{Text, text, text_eq, trim}
use veyra.Domain.Types
use veyra.Domain.Types.{
  AppState, NodePool, PoolKind, SelectionPolicy, RoutePolicy, RouteTarget, PoolId,
}
use veyra.Domain.Options.{all_distinct, pool_kind_eq}
use veyra.Routing.Types.{
  ProxyRoutingMutation, create_custom_pool, update_custom_pool, delete_custom_pool,
  set_manual_selection, set_default_target, create_route, update_route, delete_route,
  reorder_routes, apply_configuration, MutationError, MutationOutcome, SelectorSavedOnlyReason,
  filter_from_dto, source_from_dto, matcher_from_dto, default_target_from_dto, target_from_dto,
}
use veyra.Base.{map}
use veyra.Routing.Input.{
  Url, validate_name, validate_reference, validate_sources, validate_selection, validate_matcher,
  validate_route_target, validate_default_target,
}

abbrev pub max_pools : ℕ
max_pools = 100

abbrev pub max_routes : ℕ
max_routes = 500

-- A mutation is rejected with an error, or panics at an `expect` or an `unreachable!`.
pub data Abort : Type 0 where
  rejected : MutationError → Abort
  panicked : Abort

abbrev reject_if : Bool → MutationError → Result (Unit {0}) Abort
reject_if t e = fail_if t (rejected e)

abbrev check : Result (Unit {0}) MutationError → Result (Unit {0}) Abort
check r = map_err r rejected

hex_digit : ℕ → ℕ
hex_digit n = if ltb n 10 then b'0' + n else b'a' + (n - 10)

-- `format!("{v:02x}")` of a byte
hex_byte : ℕ → Text
unfolding hex_digit
hex_byte v = hex_digit (v / 16) ∷ hex_digit (v % 16) ∷ []

-- The random bytes are an argument; `none` where the generator fails.
unfoldable pub new_id : Text → Option (List ℕ) → Result Text Abort
unfolding hex_byte
new_id prefix none = err (rejected MutationError.state_unavailable)
new_id prefix (some bytes) = ok (prefix ++ text "-" ++ flat_map hex_byte bytes)

-- The loop of `normalize_priorities` from an index on; an index beyond `i32` is an error.
unfoldable pub normalize_from : ℕ → List RoutePolicy → Result (List RoutePolicy) Abort
normalize_from index [] = ok []
normalize_from index (route ∷ routes) = do
  reject_if (ltb 2_147_483_647 index) MutationError.validation_failed
  rest ← normalize_from (suc index) routes
  ok (record route { priority = pos index } ∷ rest)

unfoldable pub normalize_priorities : List RoutePolicy → Result (List RoutePolicy) Abort
unfolding normalize_from
normalize_priorities routes = normalize_from 0 routes

abbrev pub has_route_id : Text → RoutePolicy → Bool
has_route_id id route = route.id == id

abbrev pub has_pool_id : Text → NodePool → Bool
has_pool_id id pool = pool.id == id

-- `matches!(target, RouteTarget::Pool(v) if v.0 == id)`
abbrev pub targets_pool : PoolId → RouteTarget → Bool
targets_pool id (RouteTarget.pool v) = v == id
targets_pool id target = false

-- The loop that takes the routes out in the order asked for.
unfoldable pub take_routes : List Text → List RoutePolicy → Result (List RoutePolicy) Abort
take_routes [] routes = ok []
take_routes (id ∷ ids) routes = do
  route ← ok_or (find (has_route_id id) routes) panicked
  rest ← take_routes ids (remove_first (has_route_id id) routes)
  ok (route ∷ rest)

unfoldable pub set_selected : Text → SelectionPolicy → SelectionPolicy
set_selected node_id (SelectionPolicy.manual selected) = SelectionPolicy.manual (some node_id)
set_selected node_id selection = selection

unfoldable pub is_manual : SelectionPolicy → Bool
is_manual (SelectionPolicy.manual selected) = true
is_manual selection = false

abbrev Changed : Type 0
Changed = Result (AppState × MutationOutcome) Abort

abbrev done : AppState → Changed
done state = ok (state, MutationOutcome.saved)

-- The state is local to the caller, which drops it on an error; so an error returns none.
module _ (parse : Text → Option Url) (random : Option (List ℕ)) where
  unfoldable pub apply_mutation : ProxyRoutingMutation → AppState → Changed
  unfolding set_selected is_manual
  apply_mutation (create_custom_pool name enabled sources selection) state = do
    reject_if (leb max_pools (length state.pools)) MutationError.validation_failed
    check (validate_name name)
    check (validate_sources sources)
    check (validate_selection parse selection)
    id ← new_id (text "pool") random
    reject_if (any (has_pool_id id) state.pools) MutationError.state_unavailable
    let created : NodePool = record {
      id = id;
      name = trim name;
      kind = PoolKind.custom;
      sources = map source_from_dto sources;
      selection = selection;
      enabled = enabled;
    }
    done (record state { pools = state.pools ++ (created ∷ []) })
  apply_mutation (update_custom_pool id name enabled sources selection) state = do
    check (validate_reference id)
    check (validate_name name)
    check (validate_sources sources)
    check (validate_selection parse selection)
    pool ← ok_or (find (has_pool_id id) state.pools) (rejected MutationError.not_found)
    reject_if (not (pool.kind == PoolKind.custom)) MutationError.reference_conflict
    let update = λ (v : NodePool). record v {
      name = trim name;
      enabled = enabled;
      sources = map source_from_dto sources;
      selection = selection;
    }
    done (record state { pools = update_first (has_pool_id id) update state.pools })
  apply_mutation (delete_custom_pool id) state = do
    check (validate_reference id)
    pool ← ok_or (find (has_pool_id id) state.pools) (rejected MutationError.not_found)
    reject_if (not (pool.kind == PoolKind.custom)) MutationError.reference_conflict
    reject_if
        (targets_pool id state.default_target || any (λ v. targets_pool id v.target) state.routes)
        MutationError.reference_conflict
    done (record state { pools = remove_first (has_pool_id id) state.pools })
  apply_mutation (set_manual_selection pool_id node_id) state = do
    check (validate_reference pool_id)
    check (validate_reference node_id)
    pool ← ok_or (find (has_pool_id pool_id) state.pools) (rejected MutationError.not_found)
    reject_if (not (is_manual pool.selection)) MutationError.reference_conflict
    let update = λ (v : NodePool). record v { selection = set_selected node_id v.selection }
    ok (
      record state { pools = update_first (has_pool_id pool_id) update state.pools },
      MutationOutcome.selector_saved_only pool_id node_id SelectorSavedOnlyReason.runtime_not_ready,
    )
  apply_mutation (set_default_target target) state = do
    check (validate_default_target target)
    done (record state { default_target = default_target_from_dto target })
  apply_mutation (create_route name enabled matcher target index) state = do
    reject_if (leb max_routes (length state.routes) || ltb (length state.routes) index)
        MutationError.validation_failed
    check (validate_name name)
    check (validate_matcher matcher)
    check (validate_route_target target)
    id ← new_id (text "route") random
    reject_if (any (has_route_id id) state.routes) MutationError.state_unavailable
    let created : RoutePolicy = record {
      id = id;
      name = trim name;
      enabled = enabled;
      priority = pos 0;
      matcher = matcher_from_dto matcher;
      target = target_from_dto target;
    }
    inserted ← ok_or (insert_at index created state.routes) panicked
    routes ← normalize_priorities inserted
    done (record state { routes = routes })
  apply_mutation (update_route id name enabled matcher target) state = do
    check (validate_reference id)
    check (validate_name name)
    check (validate_matcher matcher)
    check (validate_route_target target)
    _ ← ok_or (find (has_route_id id) state.routes) (rejected MutationError.not_found)
    let update = λ (v : RoutePolicy). record v {
      name = trim name;
      enabled = enabled;
      matcher = matcher_from_dto matcher;
      target = target_from_dto target;
    }
    done (record state { routes = update_first (has_route_id id) update state.routes })
  apply_mutation (delete_route id) state = do
    check (validate_reference id)
    _ ← ok_or (find (has_route_id id) state.routes) (rejected MutationError.not_found)
    routes ← normalize_priorities (remove_first (has_route_id id) state.routes)
    done (record state { routes = routes })
  apply_mutation (reorder_routes route_ids) state = do
    reject_if
        (not (nat_beq (length route_ids) (length state.routes))
          || not (all_distinct route_ids)
          || not (all (λ id. any (has_route_id id) state.routes) route_ids))
        MutationError.validation_failed
    ordered ← take_routes route_ids state.routes
    routes ← normalize_priorities ordered
    done (record state { routes = routes })
  apply_mutation apply_configuration state = err panicked
