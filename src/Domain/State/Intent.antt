-- ===== src/Domain/State/Intent.antt =====
-- `RuntimeIntent::from_state` of src-tauri/src/domain/state.rs.
use mathlib.Core.List.{Perm}
use veyra.Base.{
  ◌≡◌, ◌≢◌, ◌↔◌, inl, inr, refl, sym, subst, ap, List, [], ◌∷◌, Bool, true, false, ok, Member, map,
  retain, any, is_empty, fail_if, fail_if_iff, >>-eq-ok, Member-map, Member-map_in, Member-retain,
  any_none, any_sound, Bool-cases,
}
use veyra.Base.Text.{text_eq}
use veyra.Base.Order.{sort_by-perm}
use veyra.Domain.Types.{
  AppState, NodePool, RoutePolicy, NodeId, empty_pool_membership, inactive_pool_target,
}
use veyra.Domain.State.{
  RuntimeIntent, RuntimePool, from_state, runtime_pool, resolve_pool_members, node_le, route_le,
  target_missing, validate,
}
use veyra.Domain.State.Valid.{TargetIn, IsValid}
use veyra.Domain.State.Decision.{validate_iff}
use veyra.Domain.State.Closed.{
  enabled_pools, enabled_routes, intent_pools, intent_of, no_empty, no_inactive, IsClosed,
  missing_iff, TargetIn-mono, filled, intent_of-IsClosed,
}

-- The three tests that a successful call has passed, and its result.
from_state_inv :
    (s : AppState) (i : RuntimeIntent)
    → from_state s ≡ ok i
    → (validate s ≡ ok tt) × (no_empty s ≡ false) × (no_inactive s ≡ false) × (i ≡ intent_of s)
unfolding from_state
from_state_inv s i h =
    let (a, h1) = >>-eq-ok (validate s) _ h in
    let (b, h2) = >>-eq-ok (fail_if (no_empty s) empty_pool_membership) _ h1 in
    let (c, d) = >>-eq-ok (fail_if (no_inactive s) inactive_pool_target) _ h2 in
    (a, (fail_if_iff _ empty_pool_membership).0 b, (fail_if_iff _ inactive_pool_target).0 c, cc)

-- A runtime intent that `from_state` returns is sorted, and closed under its references: no pool is
-- empty, the members of a pool are nodes of it, the node that a pool selects by hand is a member of
-- the pool, and a pool that a route names is one of it.
pub from_state-IsClosed : (s : AppState) (i : RuntimeIntent) → from_state s ≡ ok i → IsClosed i
from_state-IsClosed s i h =
    let (a, b, c, e) = from_state_inv s i h in
    subst IsClosed (sym e) (intent_of-IsClosed s ((validate_iff s).0 a) b c)

-- Every enabled pool resolves to a node, and every enabled route names an enabled pool if any.
pub record IsReady (s : AppState) : Type 0 where
  pub valid : IsValid s
  pub filled :
      (pool : NodePool)
      → Member pool s.pools
      → pool.enabled ≡ true
      → resolve_pool_members s pool ≢ []
  pub active :
      (route : RoutePolicy)
      → Member route s.routes
      → route.enabled ≡ true
      → TargetIn (map (λ (pool : NodePool). pool.id) (enabled_pools s)) route.target

ids-map :
    (s : AppState) (xs : List NodePool)
    → map (λ (pool : RuntimePool). pool.id) (map (runtime_pool s) xs)
      ≡ map (λ (pool : NodePool). pool.id) xs
ids-map s [] = refl
ids-map s (x ∷ xs) = ap (◌∷◌ x.id) (ids-map s xs)

filled_of_nonempty : (xs : List NodeId) → xs ≢ [] → is_empty xs ≡ false
filled_of_nonempty [] h = absurd (h refl)
filled_of_nonempty (x ∷ xs) h = refl

any-false :
    {A : Type 0} (p : A → Bool) (xs : List A)
    → ((a : A) → Member a xs → p a ≡ false)
    → any p xs ≡ false
any-false p xs h = elim (Bool-cases (any p xs)) [
  | inl t ↦ let (a, m, e) = any_sound p xs t in cc (h a m)
  | inr f ↦ f
]

IsReady-sound : (s : AppState) (i : RuntimeIntent) → from_state s ≡ ok i → IsReady s
IsReady-sound s i h =
    let (a, b, c, _) = from_state_inv s i h in
    record {
      valid = (validate_iff s).0 a;
      filled = λ pool m e. filled s b (runtime_pool s pool) (
          Member-map (runtime_pool s) (enabled_pools s) pool
            ((Member-retain (λ (p : NodePool). p.enabled) s.pools pool).1 (m, e)));
      active = λ route m e.
          TargetIn-mono _ _ route.target (λ k n. subst (Member k) (ids-map s (enabled_pools s)) n)
            ((missing_iff _ route.target).0 (
              any_none _ (enabled_routes s) c route
                ((Member-retain (λ (r : RoutePolicy). r.enabled) s.routes route).1 (m, e))));
    }

ready_complete : (s : AppState) → IsReady s → from_state s ≡ ok (intent_of s)
unfolding from_state
ready_complete s r = rw (
  (validate_iff s).1 r.valid,
  any-false (λ (p : RuntimePool). is_empty p.members) (intent_pools s)
      (λ pool m.
        let (q, k, e) = Member-map_in (runtime_pool s) (enabled_pools s) pool m in
        let (n, t) = (Member-retain (λ (p : NodePool). p.enabled) s.pools q).0 k in
        subst (λ (p : RuntimePool). is_empty p.members ≡ false) e
          (filled_of_nonempty _ (r.filled q n t))),
  any-false
      (λ (route : RoutePolicy).
        target_missing (map (λ (pool : RuntimePool). pool.id) (intent_pools s)) route.target)
      (enabled_routes s)
      (λ route m.
        let (n, t) = (Member-retain (λ (x : RoutePolicy). x.enabled) s.routes route).0 m in
        (missing_iff _ route.target).1 (
          TargetIn-mono _ _ route.target
            (λ k j. subst (Member k) (sym (ids-map s (enabled_pools s))) j) (r.active route n t))),
)

-- `from_state` succeeds on exactly the valid states in which every enabled pool resolves to a node
-- and every enabled route that names a pool names an enabled one. The nodes and the enabled routes
-- of its result are those of the state in another order.
pub from_state_iff :
    (s : AppState)
    → (((i : RuntimeIntent) × (from_state s ≡ ok i)) ↔ IsReady s)
      × ((i : RuntimeIntent)
          → from_state s ≡ ok i
          → Perm i.nodes s.nodes × Perm i.routes (retain (λ route. route.enabled) s.routes))
from_state_iff s = (
  (λ p. IsReady-sound s p.0 p.1, λ r. (intent_of s, ready_complete s r)),
  λ i h.
      let (_, _, _, e) = from_state_inv s i h in
      subst (λ (j : RuntimeIntent). Perm j.nodes s.nodes × Perm j.routes (enabled_routes s)) (sym e)
        (sort_by-perm node_le s.nodes, sort_by-perm route_le (enabled_routes s)),
)
