-- ===== src/Routing/Manager.antt =====
-- The transaction `ProxyRoutingManager::mutate` of src-tauri/src/application/proxy_routing.rs, up to
-- where it gives up the access gate. The store of the state is an argument.
pub mod Dispatch
pub mod Reports
pub mod Commit
pub mod Invariant
pub mod Stored
pub mod Bounded
pub mod Snapshots
pub mod Serves
use veyra.Base.{
  ℕ, suc, ◌+◌, List, [], ◌∷◌, Option, none, some, Bool, true, false, ◌&&◌, ◌||◌, not, Result, ok,
  err, if◌then◌else◌, map, ltb, in_range, nat_beq, decide_beq, is_err, ℕ_discrete,
}
use veyra.Base.Text.{Text}
use veyra.Domain.Types
use veyra.Domain.Types.{
  AppState, Provider, ProxyNode, ProxyProtocol, NodePool, RouteTarget, RoutePolicy,
  StateValidationError, max_safe_integer, missing_subscription, missing_provider, missing_pool,
  empty_pool_sources, invalid_filter, invalid_selection, empty_pool_membership,
  inactive_pool_target, invalid_identifier, duplicate_identifier, invalid_route,
  invalid_protocol_options, invalid_subscription, unsupported_schema_version,
}
use veyra.Domain.State.{validate}
use veyra.Routing.Types.{
  ProxyRoutingMutation, set_manual_selection, apply_configuration, MutateProxyRoutingRequest,
  MutationError, MutationOutcome, QueryError,
}
use veyra.Routing.Revision.{
  CasMaterial, CasMaterial-discrete, material_of, RevisionState, next_safe, observe,
}
use veyra.Routing.Input.{Url}
use veyra.Routing.Mutation.{Abort, rejected, panicked, apply_mutation}

abbrev pub map_query_error : QueryError → MutationError
map_query_error QueryError.busy = MutationError.busy
map_query_error QueryError.state_unavailable = MutationError.state_unavailable
map_query_error QueryError.runtime_unavailable = MutationError.runtime_unavailable

abbrev pub map_state_validation : StateValidationError → MutationError
map_state_validation missing_subscription = MutationError.reference_conflict
map_state_validation missing_provider = MutationError.reference_conflict
map_state_validation missing_pool = MutationError.reference_conflict
map_state_validation empty_pool_sources = MutationError.reference_conflict
map_state_validation invalid_filter = MutationError.reference_conflict
map_state_validation invalid_selection = MutationError.reference_conflict
map_state_validation empty_pool_membership = MutationError.reference_conflict
map_state_validation inactive_pool_target = MutationError.reference_conflict
map_state_validation _ = MutationError.validation_failed

pub data StateAccessError : Type 0 where
  busy unavailable : StateAccessError

abbrev pub access_error : StateAccessError → MutationError
access_error StateAccessError.busy = MutationError.busy
access_error StateAccessError.unavailable = MutationError.state_unavailable

-- What the manager uses of the store: `load_state`, the empty state where there is no snapshot, and
-- `save`. A load may write too: it migrates a snapshot, or recovers the backup.
pub record StateStore (Disk : Type 0) : Type 0 where
  pub load_state : Disk → Result AppState (Unit {0}) × Disk
  pub save : AppState → Disk → Result (Unit {0}) (Unit {0}) × Disk

pub record Manager (Disk : Type 0) : Type 0 where
  pub disk : Disk
  pub revision : RevisionState
  pub apply_tuple : Option (Option Text × ℕ)

-- How the part of `mutate` under the gate ends. After `saved` a snapshot of the state is built; after
-- `reconcile` the runtime is told the manual selection; after `apply` the runtime applies the
-- configuration.
pub data Reply : Type 0 where
  error : MutationError → Option ℕ → Reply
  saved : MutationOutcome → AppState → ℕ → Reply
  -- pool_id, node_id
  reconcile : Text → Text → AppState → ℕ → Reply
  -- active_id, desired_generation
  apply : Text → ℕ → ℕ → Reply
  panic : Reply

known_revision : RevisionState → Option ℕ
known_revision s = if ltb 0 s.revision then some s.revision else none

-- The reply to a mutation that succeeded.
unfoldable pub reply_of : ProxyRoutingMutation → MutationOutcome → AppState → ℕ → Reply
reply_of (set_manual_selection pool_id node_id) outcome state revision =
    Reply.reconcile pool_id node_id state revision
reply_of mutation outcome state revision = Reply.saved outcome state revision

abbrev pub is_manual_mutation : ProxyRoutingMutation → Bool
is_manual_mutation (set_manual_selection pool_id node_id) = true
is_manual_mutation mutation = false

-- `if !manual { state.active_configuration_generation = ... }`
unfoldable pub bump_generation : Bool → AppState → Option AppState
bump_generation true state = some state
bump_generation false state = elim (next_safe state.active_configuration_generation) [
  | none ↦ none
  | some v ↦ some (record state { active_configuration_generation = v })
]

module _ {Disk : Type 0} (S : StateStore Disk) (parse : Text → Option Url)
    (random : Option (List ℕ)) where
  -- After a save that succeeded: the revision is committed and the apply tuple forgotten.
  unfoldable pub settle_commit :
      ProxyRoutingMutation
      → MutationOutcome
      → AppState
      → ℕ
      → Manager Disk
      → Result ℕ QueryError × RevisionState
      → Reply × Manager Disk
  unfolding reply_of
  settle_commit mutation outcome state current m (err e, revision) =
      (Reply.error MutationError.state_unavailable (some current), record m { revision = revision })
  settle_commit mutation outcome state current m (ok r, revision) = (
    reply_of mutation outcome state r,
    record m {
      revision = revision;
      apply_tuple = if is_manual_mutation mutation then m.apply_tuple else none;
    },
  )

  unfoldable pub settle_save :
      ProxyRoutingMutation
      → MutationOutcome
      → AppState
      → ℕ
      → Manager Disk
      → Result (Unit {0}) (Unit {0}) × Disk
      → Reply × Manager Disk
  unfolding settle_commit
  settle_save mutation outcome state current m (err _, disk) =
      (Reply.error MutationError.save_failed (some current), record m { disk = disk })
  settle_save mutation outcome state current m (ok _, disk) =
      settle_commit mutation outcome state current (record m { disk = disk })
        (observe (material_of state) m.revision)

  unfoldable pub save_checked :
      ProxyRoutingMutation
      → MutationOutcome
      → AppState
      → ℕ
      → Manager Disk
      → Result (Unit {0}) StateValidationError
      → Reply × Manager Disk
  unfolding settle_save
  save_checked mutation outcome state current m (err e) =
      (Reply.error (map_state_validation e) (some current), m)
  save_checked mutation outcome state current m (ok _) =
      settle_save mutation outcome state current m (S.save state m.disk)

  -- The checks of a changed state, and its save; no state where its generation is exhausted.
  unfoldable pub save_valid :
      ProxyRoutingMutation
      → MutationOutcome
      → ℕ
      → Manager Disk
      → Option AppState
      → Reply × Manager Disk
  unfolding save_checked
  save_valid mutation outcome current m none =
      (Reply.error MutationError.state_unavailable (some current), m)
  save_valid mutation outcome current m (some state) =
      if nat_beq current max_safe_integer
      then (Reply.error MutationError.state_unavailable (some current), m)
      else save_checked mutation outcome state current m (validate state)

  -- The changed state is compared with `current_material`, which panics where nothing is observed yet.
  unfoldable pub finish_edited :
      ProxyRoutingMutation
      → MutationOutcome
      → AppState
      → ℕ
      → Manager Disk
      → Option CasMaterial
      → Reply × Manager Disk
  unfolding reply_of bump_generation save_valid
  finish_edited mutation outcome state current m none = (Reply.panic, m)
  finish_edited mutation outcome state current m (some material) =
      if decide_beq CasMaterial-discrete material (material_of state)
      then (reply_of mutation outcome state current, m)
      else save_valid mutation outcome current m
          (bump_generation (is_manual_mutation mutation) state)

  -- On the result of `apply_mutation`.
  unfoldable pub finish :
      ProxyRoutingMutation
      → ℕ
      → Manager Disk
      → Result (AppState × MutationOutcome) Abort
      → Reply × Manager Disk
  unfolding finish_edited
  finish mutation current m (err (rejected e)) = (Reply.error e (some current), m)
  finish mutation current m (err panicked) = (Reply.panic, m)
  finish mutation current m (ok (state, outcome)) =
      finish_edited mutation outcome state current m m.revision.material

  -- `ApplyConfiguration` under the gate.
  unfoldable pub start_apply : Option Text → ℕ → ℕ → Reply
  start_apply none generation current = Reply.error MutationError.validation_failed (some current)
  start_apply (some active_id) generation current = Reply.apply active_id generation current

  unfoldable pub dispatch :
      ProxyRoutingMutation → AppState → ℕ → Manager Disk → Reply × Manager Disk
  unfolding start_apply finish
  dispatch apply_configuration state current m =
      (start_apply state.active_subscription_id state.active_configuration_generation current, m)
  dispatch mutation state current m =
      finish mutation current m (apply_mutation parse random mutation state)

  -- The revision that was observed is compared with the expected one.
  unfoldable pub compare_revision :
      MutateProxyRoutingRequest
      → AppState
      → Manager Disk
      → Result ℕ QueryError × RevisionState
      → Reply × Manager Disk
  unfolding dispatch known_revision
  compare_revision request state m (err e, revision) =
      (Reply.error (map_query_error e) (known_revision revision), record m { revision = revision })
  compare_revision request state m (ok current, revision) =
      let m1 : Manager Disk = record m { revision = revision } in
      if not (nat_beq current request.expected_revision)
      then (Reply.error MutationError.conflict (some current), m1)
      else dispatch request.mutation state current m1

  unfoldable pub with_state :
      MutateProxyRoutingRequest
      → Manager Disk
      → Result AppState (Unit {0}) × Disk
      → Reply × Manager Disk
  unfolding compare_revision known_revision
  with_state request m (err _, disk) = (
    Reply.error MutationError.state_unavailable (known_revision m.revision),
    record m { disk = disk },
  )
  with_state request m (ok state, disk) =
      compare_revision request state (record m { disk = disk })
        (observe (material_of state) m.revision)

  unfoldable pub with_access :
      MutateProxyRoutingRequest
      → Manager Disk
      → Result (Unit {0}) StateAccessError
      → Reply × Manager Disk
  unfolding with_state known_revision
  with_access request m (err e) = (Reply.error (access_error e) (known_revision m.revision), m)
  with_access request m (ok _) = with_state request m (S.load_state m.disk)

  unfoldable pub mutate :
      Result (Unit {0}) StateAccessError
      → MutateProxyRoutingRequest
      → Manager Disk
      → Reply × Manager Disk
  unfolding with_access known_revision
  mutate access request m =
      if not (in_range 1 max_safe_integer request.expected_revision)
      then (Reply.error MutationError.invalid_input (known_revision m.revision), m)
      else with_access request m access
