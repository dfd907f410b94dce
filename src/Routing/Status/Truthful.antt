-- ===== src/Routing/Status/Truthful.antt =====
-- What the apply state of src-tauri/src/application/proxy_routing.rs lets the user conclude.
use veyra.Base.{
  ◌==◌, ◌≡◌, refl, sym, ap, ◌∙◌, ℕ, Option, none, some, Bool, true, false, ◌&&◌, if◌then◌else◌,
  &&-true, is_some_and, nat_beq, nat_beq_iff, option_beq, option_beq_iff,
}
use veyra.Base.Text.{Text, text_eq}
use veyra.Domain.Types.{AppState}
use veyra.Routing.Status.{
  RuntimeState, ApplyState, RuntimeObservation, RoutingApplyTerminal, SubscriptionSwitch,
  SubscriptionSwitchStatus, SubscriptionSwitchErrorCode, terminal_failure, from_terminal,
  from_failure, from_status, unless_stale, from_switch, from_observation, is_ready, or_else,
  terminal_is_current, canonical_runtime_apply_state,
}

abbrev Answer : Type 0
Answer = RuntimeState × ApplyState

abbrev is_applied : ApplyState → Bool
is_applied ApplyState.applied = true
is_applied _ = false

abbrev claims_applied : Option Answer → Bool
claims_applied none = false
claims_applied (some (r, s)) = is_applied s

claims_applied_if :
    (b : Bool) (x y : Option Answer)
    → claims_applied x ≡ false
    → claims_applied y ≡ false
    → claims_applied (if b then x else y) ≡ false
claims_applied_if true x y hx hy = hx
claims_applied_if false x y hx hy = hy

claims_applied-from_terminal :
    (observation : RuntimeObservation) (observed : RuntimeState) (state : AppState)
    (terminal : Option RoutingApplyTerminal)
    → claims_applied (from_terminal observation observed state terminal) ≡ false
unfolding from_terminal
claims_applied-from_terminal observation observed state none = refl
claims_applied-from_terminal observation observed state (some t) =
    claims_applied_if (terminal_is_current state t)
      (some (observed, ApplyState.saved_apply_failed t.operation_id (terminal_failure t.failure)))
      (if is_some_and observation.subscription_switch
          (λ operation. operation.operation_id == t.operation_id)
        then some (observed, ApplyState.saved_pending_apply)
        else none)
      refl
      (claims_applied_if
        (is_some_and observation.subscription_switch
          (λ operation. operation.operation_id == t.operation_id))
        (some (observed, ApplyState.saved_pending_apply)) none refl refl)

claims_applied-from_failure :
    (observed : RuntimeState) (id : Text) (code : Option SubscriptionSwitchErrorCode)
    → claims_applied (some (from_failure observed id code)) ≡ false
unfolding from_failure
claims_applied-from_failure observed id none = refl
claims_applied-from_failure observed id (some SubscriptionSwitchErrorCode.cancelled) = refl
claims_applied-from_failure observed id (some SubscriptionSwitchErrorCode.busy) = refl
claims_applied-from_failure observed id (some SubscriptionSwitchErrorCode.state_unavailable) = refl
claims_applied-from_failure observed id (some SubscriptionSwitchErrorCode.configuration_failed) =
    refl
claims_applied-from_failure observed id (some SubscriptionSwitchErrorCode.save_failed) = refl
claims_applied-from_failure observed id (some SubscriptionSwitchErrorCode.stop_failed) = refl
claims_applied-from_failure observed id (some SubscriptionSwitchErrorCode.start_failed) = refl
claims_applied-from_failure observed id (some SubscriptionSwitchErrorCode.recovery_required) = refl
claims_applied-from_failure observed id (some SubscriptionSwitchErrorCode.operation_timed_out) =
    refl

claims_applied-from_status :
    (observed : RuntimeState) (operation : SubscriptionSwitch) (status : SubscriptionSwitchStatus)
    → claims_applied (from_status observed operation status) ≡ false
unfolding from_status
claims_applied-from_status observed operation SubscriptionSwitchStatus.queued = refl
claims_applied-from_status observed operation SubscriptionSwitchStatus.checking = refl
claims_applied-from_status observed operation SubscriptionSwitchStatus.prepared = refl
claims_applied-from_status observed operation SubscriptionSwitchStatus.persisted = refl
claims_applied-from_status observed operation SubscriptionSwitchStatus.applying = refl
claims_applied-from_status observed operation SubscriptionSwitchStatus.ready = refl
claims_applied-from_status observed operation SubscriptionSwitchStatus.cancelled = refl
claims_applied-from_status observed operation SubscriptionSwitchStatus.failed =
    claims_applied-from_failure observed operation.operation_id operation.error_code

claims_applied-unless_stale :
    (current : Bool) (observed : RuntimeState) (answer : Option Answer)
    → claims_applied answer ≡ false
    → claims_applied (unless_stale current observed answer) ≡ false
unfolding unless_stale
claims_applied-unless_stale current observed none h = refl
claims_applied-unless_stale true observed (some a) h = h
claims_applied-unless_stale false observed (some a) h = refl

claims_applied-from_switch :
    (observed : RuntimeState) (current : Bool) (switch : Option SubscriptionSwitch)
    → claims_applied (from_switch observed current switch) ≡ false
unfolding from_switch
claims_applied-from_switch observed current none = refl
claims_applied-from_switch observed current (some operation) =
    claims_applied-unless_stale current observed _
      (claims_applied-from_status observed operation operation.status)

-- An answer that says Applied is the last resort.
or_else-claims :
    (o : Option Answer) (a : Answer)
    → claims_applied o ≡ false
    → claims_applied (some (or_else o a)) ≡ true
    → or_else o a ≡ a
or_else-claims none a h claims = refl
or_else-claims (some b) a h claims = cc

is_ready-true : (observed : RuntimeState) → is_ready observed ≡ true → observed ≡ RuntimeState.ready
is_ready-true RuntimeState.ready h = refl
is_ready-true RuntimeState.stopped h = cc
is_ready-true RuntimeState.transitioning h = cc
is_ready-true RuntimeState.recovery_required h = cc

is_some_and-some : (o : Option ℕ) (n : ℕ) → is_some_and o (λ v. nat_beq v n) ≡ true → o ≡ some n
is_some_and-some none n h = cc
is_some_and-some (some v) n h = ap some ((nat_beq_iff v n).0 h)

abbrev ready_applied : Answer
ready_applied = (RuntimeState.ready, ApplyState.applied)

abbrev answer_by : Bool → RuntimeState → Answer
answer_by b observed =
    if b
    then (RuntimeState.ready, ApplyState.applied)
    else (observed, ApplyState.saved_pending_apply)

answer_by_lem :
    (b : Bool) (observed : RuntimeState)
    → claims_applied (some (answer_by b observed)) ≡ true
    → (b ≡ true) × (answer_by b observed ≡ ready_applied)
answer_by_lem true observed h = (refl, refl)
answer_by_lem false observed h = cc

from_observation-applied :
    (observation : RuntimeObservation) (observed : RuntimeState) (state : AppState)
    (id : Option Text)
    → claims_applied (some (from_observation observation observed state id)) ≡ true
    → (from_observation observation observed state id ≡ ready_applied)
      × (observed ≡ RuntimeState.ready)
      × (observation.applied_configuration_generation ≡ some state.active_configuration_generation)
      × (id ≡ state.active_subscription_id)
unfolding from_observation
from_observation-applied observation observed state id h =
    let runs : Bool =
      is_some_and observation.applied_configuration_generation
        (λ v. nat_beq v state.active_configuration_generation) in
    let same : Bool = option_beq id state.active_subscription_id in
    let (t, e) = answer_by_lem (is_ready observed && runs && same) observed h in
    let (r, i) = &&-true (is_ready observed && runs) same t in
    let (u, g) = &&-true (is_ready observed) runs r in
    (
      e,
      is_ready-true observed u,
      is_some_and-some observation.applied_configuration_generation
          state.active_configuration_generation g,
      (option_beq_iff id state.active_subscription_id).0 i,
    )

-- An apply state of Applied names the truth: the runtime was observed ready, the configuration
-- generation and the subscription it runs are those of the stored state, and the answer says ready.
pub canonical_runtime_apply_state-applied :
    (observation : RuntimeObservation) (observed : RuntimeState) (state : AppState)
    (id : Option Text) (current : Bool) (terminal : Option RoutingApplyTerminal) (r : RuntimeState)
    → canonical_runtime_apply_state observation observed state id current terminal
      ≡ (r, ApplyState.applied)
    → (r ≡ RuntimeState.ready)
      × (observed ≡ RuntimeState.ready)
      × (observation.applied_configuration_generation ≡ some state.active_configuration_generation)
      × (id ≡ state.active_subscription_id)
unfolding canonical_runtime_apply_state
canonical_runtime_apply_state-applied observation observed state id current terminal r h =
    let last : Answer = from_observation observation observed state id in
    let switched : Option Answer = from_switch observed current observation.subscription_switch in
    let t : canonical_runtime_apply_state observation observed state id current terminal
        ≡ or_else switched last =
      or_else-claims (from_terminal observation observed state terminal) (or_else switched last)
        (claims_applied-from_terminal observation observed state terminal)
        (ap (λ a. claims_applied (some a)) h) in
    let u : or_else switched last ≡ last =
      or_else-claims switched last
        (claims_applied-from_switch observed current observation.subscription_switch)
        (ap (λ a. claims_applied (some a)) (sym t ∙ h)) in
    let e : last ≡ (r, ApplyState.applied) = sym (t ∙ u) ∙ h in
    let (p, q, v, w) =
      from_observation-applied observation observed state id
        (ap (λ a. claims_applied (some a)) e) in
    (ap (λ a. a.0) (sym e ∙ p), q, v, w)
