-- ===== src/Witnesses/Routing.antt =====
-- Requests on the state of Witnesses/Domain.antt, for the theorems on
-- src-tauri/src/application/proxy_routing.rs.
use veyra.Base.{
  arith, ◌≤◌, ◌≡◌, ◌⊎◌, All, map, retain, if◌then◌else◌, true, false, refl, option_beq, List, [],
  ◌∷◌, Option, none, some, ℕ, Result, ok, err, contains, all, any, find, remove_first,
}
use veyra.Base.Text.{Text, text, text_beq}
use veyra.Domain.Types
use veyra.Domain.Types.{
  max_safe_integer, Subscription, SubscriptionSource, AppState, PoolId, NodeId, RoutePolicy,
  RouteTarget, TrafficMatcher,
}
use veyra.Domain.Options.{all_distinct}
use veyra.Domain.State.Decision.{validate_iff}
use veyra.Routing.Types.{
  MutateProxyRoutingRequest, reorder_routes, delete_route, set_default_target, DefaultTargetDto,
  MutationOutcome,
}
use veyra.Routing.Input.{Url}
use veyra.Routing.Mutation.{panicked, apply_mutation, take_routes, normalize_priorities}
use veyra.Routing.Mutation.Reorder.{IsReordered, apply_mutation-IsReordered}
use veyra.Routing.Mutation.Totality.{apply_mutation_never_panics}
use veyra.Routing.Manager.{StateStore, Manager, mutate}
use veyra.Routing.Manager.Reports.{Reports}
use veyra.Routing.Manager.Commit.{mutate-Reports}
use veyra.Routing.Manager.Invariant.{Attempt, mutate_all}
use veyra.Routing.Manager.Stored.{KeepsState, HoldsValid, mutate_all-HoldsValid}
use veyra.Routing.Manager.Bounded.{mutate_all-bounded}
use veyra.Routing.Status.{
  RuntimeState, ApplyState, RuntimeObservation, canonical_runtime_apply_state, from_terminal,
  from_switch, from_observation, ManualSelectionRuntimeResult, settle_manual_outcome, still_desired,
  map_manual_result,
}
use veyra.Routing.Status.Truthful.{canonical_runtime_apply_state-applied}
use veyra.Routing.Status.Settled.{Desired, settle_manual_outcome-applied}
use veyra.Routing.Selectors.{selectors}
use veyra.Routing.Selectors.Entries.{Shows, by_hand, selectors-Shows}
use veyra.Base.Int.{pos}
use veyra.Witnesses.Domain.{demo, office, demo_valid}

abbrev home : RoutePolicy
home = record office { id = text "r2"; target = RouteTarget.direct }

-- `demo` with a second route.
abbrev two_routes : AppState
two_routes = record demo { routes = office ∷ home ∷ [] }

abbrev no_urls : Text → Option Url
no_urls value = none

abbrev bytes : Option (List ℕ)
bytes = some (1 ∷ 254 ∷ [])

abbrev turned : AppState
turned = record demo { routes = home ∷ record office { priority = pos 1 } ∷ [] }

turned_around :
    apply_mutation no_urls bytes (reorder_routes (text "r2" ∷ text "r1" ∷ [])) two_routes
    ≡ ok (turned, MutationOutcome.saved)
unfolding apply_mutation all_distinct contains text_beq all any take_routes find remove_first
    normalize_priorities
turned_around = refl

apply_mutation-IsReordered_example : IsReordered (text "r2" ∷ text "r1" ∷ []) two_routes turned
apply_mutation-IsReordered_example =
    apply_mutation-IsReordered no_urls bytes (text "r2" ∷ text "r1" ∷ []) two_routes turned
      MutationOutcome.saved turned_around

apply_mutation_never_panics_example : ¬ (
    apply_mutation no_urls bytes (reorder_routes (text "r2" ∷ text "r2" ∷ [])) two_routes
    ≡ err panicked)
apply_mutation_never_panics_example =
    apply_mutation_never_panics no_urls bytes (reorder_routes (text "r2" ∷ text "r2" ∷ []))
      two_routes tt

-- A store in memory; nothing in it stands for the empty state.
abbrev memory : StateStore (Option AppState)
memory = record {
  load_state = λ d. (ok (elim d [ none ↦ Types.empty | some s ↦ s ]), d);
  save = λ s d. (ok tt, some s);
}

abbrev kept : Option AppState → Option AppState
kept d = d

memory-KeepsState : KeepsState memory kept
memory-KeepsState = record {
  save_ok = λ s d h. refl;
  save_err = λ s d e h. never s d e h;
  load_valid = λ d v. v;
}
  where
    never :
        (s : AppState) (d : Option AppState) (e : Unit {0})
        → ◌≡◌ {A = Result (Unit {0}) (Unit {0})} (ok tt) (err e)
        → some s ≡ d
    never s d e h = cc

abbrev started : Manager (Option AppState)
started = record {
  disk = some demo;
  revision = record { revision = 0; material = none };
  apply_tuple = none;
}

abbrev to_direct : MutateProxyRoutingRequest
to_direct = record { expected_revision = 1; mutation = set_default_target DefaultTargetDto.direct }

abbrev drop_route : MutateProxyRoutingRequest
drop_route = record { expected_revision = 2; mutation = delete_route (text "r1") }

mutate-Reports_example :
    Reports memory to_direct started (mutate memory no_urls bytes (ok tt) to_direct started)
mutate-Reports_example = mutate-Reports memory no_urls bytes (ok tt) to_direct started

abbrev attempts : List Attempt
attempts =
    record { access = ok tt; random = bytes; request = to_direct }
    ∷ record { access = ok tt; random = bytes; request = drop_route }
    ∷ []

mutate_all-HoldsValid_example : HoldsValid (mutate_all memory no_urls attempts started).disk
mutate_all-HoldsValid_example =
    mutate_all-HoldsValid memory no_urls kept memory-KeepsState attempts started
      ((validate_iff demo).0 demo_valid)

mutate_all-bounded_example :
    (started.revision.revision ≤ (mutate_all memory no_urls attempts started).revision.revision)
    × ((mutate_all memory no_urls attempts started).revision.revision ≤ max_safe_integer)
mutate_all-bounded_example = mutate_all-bounded memory no_urls attempts started (omega arith)

abbrev steady : RuntimeObservation
steady = record { applied_configuration_generation = some 1; subscription_switch = none }

steady_is_applied :
    canonical_runtime_apply_state steady RuntimeState.ready demo (some (text "s")) true none
    ≡ (RuntimeState.ready, ApplyState.applied)
unfolding canonical_runtime_apply_state from_terminal from_switch from_observation option_beq
    text_beq
steady_is_applied = refl

canonical_runtime_apply_state-applied_example :
    (RuntimeState.ready ≡ RuntimeState.ready)
    × (RuntimeState.ready ≡ RuntimeState.ready)
    × (steady.applied_configuration_generation ≡ some demo.active_configuration_generation)
    × (some (text "s") ≡ demo.active_subscription_id)
canonical_runtime_apply_state-applied_example =
    canonical_runtime_apply_state-applied steady RuntimeState.ready demo (some (text "s")) true none
      RuntimeState.ready steady_is_applied

still_best :
    settle_manual_outcome (text "best") (text "n1") ManualSelectionRuntimeResult.applied demo true
    ≡ MutationOutcome.selector_applied (text "best") (text "n1")
unfolding settle_manual_outcome still_desired map_manual_result any text_beq
still_best = refl

settle_manual_outcome-applied_example :
    (ManualSelectionRuntimeResult.applied ≡ ManualSelectionRuntimeResult.applied)
    × (text "best" ≡ text "best")
    × (text "n1" ≡ text "n1")
    × (Desired (text "best") (text "n1") demo ⊎ (true ≡ false))
settle_manual_outcome-applied_example =
    settle_manual_outcome-applied (text "best") (text "n1") ManualSelectionRuntimeResult.applied
      demo true (text "best") (text "n1") still_best

-- The core uses another node than the one that is set.
abbrev in_use : PoolId → Option NodeId
in_use id = if text_beq id (text "best") then some (text "n2") else none

selectors-Shows_example :
    All
      (Shows in_use RuntimeState.ready demo.pools)
      (selectors demo.pools in_use RuntimeState.ready)
    × (map (λ s. s.pool_id) (selectors demo.pools in_use RuntimeState.ready)
        ≡ map (λ q. q.id) (retain (λ t. by_hand t.selection) demo.pools))
selectors-Shows_example = selectors-Shows demo.pools in_use RuntimeState.ready
