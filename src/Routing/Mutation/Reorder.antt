-- ===== src/Routing/Mutation/Reorder.antt =====
-- What `apply_mutation` of src-tauri/src/application/proxy_routing.rs does to the order of the routes.
use veyra.Base.{
  ◌≡◌, refl, ap, subst, ℕ, List, [], ◌∷◌, Option, Bool, true, false, ◌||◌, not, Result, ok,
  >>=-eq-ok, fail_if-eq-ok, length, map, any, all, nat_beq, nat_beq_iff, Member, Member-map,
  Distinct, All, arith, contains, contains_no, &&-true, any_sound,
}
use mathlib.Core.List.{Perm}
use veyra.Base.Text.{Text, text_eq}
use veyra.Domain.Types.{AppState, RoutePolicy}
use veyra.Domain.Options.{all_distinct}
use veyra.Routing.Types.{reorder_routes, MutationError, MutationOutcome}
use veyra.Routing.Input.{Url}
use veyra.Routing.Mutation.{Abort, rejected, apply_mutation, normalize_priorities, has_route_id}
use veyra.Routing.Mutation.Order.{
  id_of, unranked, Ranked, take_routes_whole, normalize_from_lem, ok_path,
}

pub Distinct-all_distinct : (ids : List Text) → all_distinct ids ≡ true → Distinct ids
unfolding all_distinct
Distinct-all_distinct [] h = tt
Distinct-all_distinct (id ∷ ids) h =
    let (a, b) = &&-true (not (contains ids id)) (all_distinct ids) h in
    (contains_no ids id (ground arith), Distinct-all_distinct ids b)

there :
    (id : Text) (routes : List RoutePolicy)
    → any (has_route_id id) routes ≡ true
    → Member id (map id_of routes)
there id routes h =
    let (r, m, e) = any_sound (has_route_id id) routes h in
    subst (λ k. Member k (map id_of routes)) ((text_eq.beq_iff r.id id).0 e)
      (Member-map id_of routes r m)

pub All-there :
    (ids : List Text) (routes : List RoutePolicy)
    → all (λ id. any (has_route_id id) routes) ids ≡ true
    → All (λ id. Member id (map id_of routes)) ids
unfolding all
All-there [] routes h = tt
All-there (id ∷ ids) routes h =
    let (a, b) = &&-true (any (has_route_id id) routes) _ h in
    (there id routes a, All-there ids routes b)

-- The three tests that guard the loop.
pub passed :
    (a b c : Bool) → (not a || not b || not c) ≡ false → (a ≡ true) × (b ≡ true) × (c ≡ true)
passed a b c h = ground arith

-- The routes in the order of `ids`, numbered from 0, and but for that number those of before.
pub record IsReordered (ids : List Text) (old : AppState) (new : AppState) : Type 0 where
  pub ordered : List RoutePolicy
  pub same_routes : Perm ordered old.routes
  pub order : map id_of ordered ≡ ids
  pub renumbered : map unranked new.routes ≡ map unranked ordered
  pub ranked : Ranked 0 new.routes
  pub rest : new ≡ record old { routes = new.routes }

pair_ok :
    (s t : AppState) (o u : MutationOutcome)
    → ◌≡◌ {A = Result (AppState × MutationOutcome) Abort} (ok (s, o)) (ok (t, u))
    → s ≡ t
pair_ok s t o u h = ap (λ (k : AppState × MutationOutcome). k.0) (ok_path (s, o) (t, u) h)

module _ (parse : Text → Option Url) (random : Option (List ℕ)) where
  -- A reorder that succeeds puts the routes in the order asked for and numbers them from 0; they are
  -- otherwise a permutation of those of before, and nothing else of the state changes.
  pub apply_mutation-IsReordered :
      (ids : List Text) (state new : AppState) (o : MutationOutcome)
      → apply_mutation parse random (reorder_routes ids) state ≡ ok (new, o)
      → IsReordered ids state new
  unfolding apply_mutation normalize_priorities
  apply_mutation-IsReordered ids state new o h =
      let (t, k) =
        fail_if-eq-ok
          (not (nat_beq (length ids) (length state.routes))
            || not (all_distinct ids)
            || not (all (λ id. any (has_route_id id) state.routes) ids))
          (rejected MutationError.validation_failed) _ h in
      let (a, b, c) = passed (nat_beq (length ids) (length state.routes)) (all_distinct ids) _ t in
      let (ordered, taken, q, p) =
        take_routes_whole ids state.routes (Distinct-all_distinct ids b)
          (All-there ids state.routes c) ((nat_beq_iff (length ids) (length state.routes)).0 a) in
      let (routes, n, e) = >>=-eq-ok (normalize_priorities ordered) _ (rw taken at k) in
      let (same, ranks) = normalize_from_lem 0 ordered routes n in
      subst (λ k. IsReordered ids state k) (pair_ok (record state { routes = routes }) new _ o e)
        (record {
          ordered = ordered;
          same_routes = p;
          order = q;
          renumbered = same;
          ranked = ranks;
          rest = refl;
        })
