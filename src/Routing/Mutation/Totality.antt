-- ===== src/Routing/Mutation/Totality.antt =====
-- The panics of `apply_mutation` of src-tauri/src/application/proxy_routing.rs are never reached.
use veyra.Base.{
  ◌≡◌, ℕ, suc, List, [], ◌∷◌, Option, none, some, ◌||◌, not, Result, err, remove_first, length, any,
  all, nat_beq, nat_beq_iff, Bool-cases, inl, inr, arith, insert_at, insert_at_lem, leb, ltb, ◌≤◌,
  Bool, false,
}
use veyra.Base.Text.{Text, text, text_eq}
use veyra.Domain.Types.{AppState, RoutePolicy}
use veyra.Domain.Options.{all_distinct}
use veyra.Routing.Types.{
  ProxyRoutingMutation, create_custom_pool, update_custom_pool, delete_custom_pool,
  set_manual_selection, set_default_target, create_route, update_route, delete_route,
  reorder_routes, apply_configuration, MutationError, MutationOutcome,
}
use veyra.Routing.Input.{Url}
use veyra.Routing.Mutation.{
  Abort, rejected, panicked, apply_mutation, new_id, normalize_priorities, normalize_from,
  has_route_id, max_routes,
}
use veyra.Routing.Mutation.Order.{take_routes_whole}
use veyra.Routing.Mutation.Reorder.{Distinct-all_distinct, All-there, passed}

new_id_lem : (prefix : Text) (random : Option (List ℕ)) → new_id prefix random ≡ err panicked → ⊥
unfolding new_id
new_id_lem prefix none h = ground arith
new_id_lem prefix (some bytes) h = ground arith

normalize_from_safe :
    (index : ℕ) (routes : List RoutePolicy) → normalize_from index routes ≡ err panicked → ⊥
unfolding normalize_from
normalize_from_safe index [] h = ground arith
normalize_from_safe index (r ∷ rs) h = ground (arith, normalize_from_safe (suc index) rs)

normalize_priorities_lem :
    (routes : List RoutePolicy) → normalize_priorities routes ≡ err panicked → ⊥
unfolding normalize_priorities
normalize_priorities_lem routes h = normalize_from_safe 0 routes h

not_panicked :
    (e : MutationError)
    → ◌≡◌ {A = Result (AppState × MutationOutcome) Abort} (err (rejected e)) (err panicked)
    → ⊥
not_panicked e h = ground arith

not_above : (full : Bool) (n index : ℕ) → (full || ltb n index) ≡ false → index ≤ n
not_above full n index h = ground arith

inserts :
    (index : ℕ) (routes : List RoutePolicy)
    → index ≤ length routes
    → (created : RoutePolicy) → insert_at index created routes ≡ none
    → ⊥
inserts index routes h created e =
    let (ys, p) = insert_at_lem index created routes h in ground arith

-- Every mutation but the one that `mutate` handles itself.
abbrev pub IsEdit : ProxyRoutingMutation → Type 0
IsEdit apply_configuration = ⊥
IsEdit _ = Unit

module _ (parse : Text → Option Url) (random : Option (List ℕ)) where
  -- A mutation other than `ApplyConfiguration` ends with a state and an outcome or is rejected with an
  -- error; it never panics, at an `expect`, at an `unreachable!` or at an insertion beyond the end
  -- of the routes.
  pub apply_mutation_never_panics :
      (mutation : ProxyRoutingMutation) (state : AppState)
      → IsEdit mutation
      → apply_mutation parse random mutation state ≡ err panicked
      → ⊥
  unfolding apply_mutation
  apply_mutation_never_panics (create_custom_pool name enabled sources selection) state _ h =
      ground (arith, new_id_lem (text "pool") random)
  apply_mutation_never_panics (update_custom_pool id name enabled sources selection) state _ h =
      ground arith
  apply_mutation_never_panics (delete_custom_pool id) state _ h = ground arith
  apply_mutation_never_panics (set_manual_selection pool_id node_id) state _ h = ground arith
  apply_mutation_never_panics (set_default_target target) state _ h = ground arith
  apply_mutation_never_panics (create_route name enabled matcher target index) state _ h =
      elim (Bool-cases (leb max_routes (length state.routes) || ltb (length state.routes) index)) [
        | inl bad ↦ absurd (not_panicked _ (rw bad at h))
        | inr good ↦
            let fits = not_above _ (length state.routes) index good in
            grind (arith, new_id_lem, normalize_priorities_lem, inserts index state.routes fits)
      ]
  apply_mutation_never_panics (update_route id name enabled matcher target) state _ h = ground arith
  apply_mutation_never_panics (delete_route id) state _ h =
      ground (arith, normalize_priorities_lem (remove_first (has_route_id id) state.routes))
  apply_mutation_never_panics (reorder_routes ids) state _ h =
      elim (Bool-cases (
        not (nat_beq (length ids) (length state.routes))
        || not (all_distinct ids)
        || not (all (λ id. any (has_route_id id) state.routes) ids))) [
          | inl bad ↦ absurd (not_panicked _ (rw bad at h))
          | inr good ↦
              let (a, b, c) =
                passed (nat_beq (length ids) (length state.routes)) (all_distinct ids) _ good in
              let (ordered, taken, _, _) =
                take_routes_whole ids state.routes (Distinct-all_distinct ids b)
                  (All-there ids state.routes c)
                  ((nat_beq_iff (length ids) (length state.routes)).0 a) in
              let k = rw (good, taken) at h in ground (arith, normalize_priorities_lem ordered)
        ]
  apply_mutation_never_panics apply_configuration state e h = absurd e
