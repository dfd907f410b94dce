-- ===== src/Storage/Codec.antt =====
-- How `JsonStateStore` of src-tauri/src/storage/store.rs reads and writes the contents of a snapshot.
-- What serde derives for the stored state, and the JSON text, are arguments.
pub mod Reads
use veyra.Base.{
  ℕ, List, Option, none, some, Bool, true, false, not, Result, ok, err, ok_or, fail_if, nat_beq,
  ◌>>=◌, ◌>>◌,
}
use veyra.Base.Text.{Text}
use veyra.Domain.Types.{
  AppState, RouteTarget, SubscriptionId, Subscription, Provider, ProxyNode, NodePool, RoutePolicy,
  current_schema_version,
}
use veyra.Storage.Error.{
  StateStoreError, is_recoverable, validate_state, read_failed, invalid_json, invalid_stored_state,
  unsupported_schema_version, no_valid_backup, serialization_failed,
}
use veyra.Storage.Json.{Value}
use veyra.Storage.Files.{Bytes}
use veyra.Storage.Migration.{migrate_to_current}

-- `StoredStateV6`
pub record StoredState : Type 0 where
  pub schema_version : ℕ
  pub default_target : RouteTarget
  pub active_subscription_id : Option SubscriptionId
  pub active_configuration_generation : ℕ
  pub subscriptions : List Subscription
  pub providers : List Provider
  pub nodes : List ProxyNode
  pub pools : List NodePool
  pub routes : List RoutePolicy

unfoldable pub stored_of : AppState → StoredState
stored_of state = record {
  schema_version = current_schema_version;
  default_target = state.default_target;
  active_subscription_id = state.active_subscription_id;
  active_configuration_generation = state.active_configuration_generation;
  subscriptions = state.subscriptions;
  providers = state.providers;
  nodes = state.nodes;
  pools = state.pools;
  routes = state.routes;
}

unfoldable pub state_of : StoredState → Result AppState StateStoreError
state_of stored = do
  fail_if (not (nat_beq stored.schema_version current_schema_version)) unsupported_schema_version
  ok (record {
    schema_version = stored.schema_version;
    default_target = stored.default_target;
    active_subscription_id = stored.active_subscription_id;
    active_configuration_generation = stored.active_configuration_generation;
    subscriptions = stored.subscriptions;
    providers = stored.providers;
    nodes = stored.nodes;
    pools = stored.pools;
    routes = stored.routes;
  })

-- `serde_json::from_slice`, `serde_json::from_value` and `serde_json::to_vec_pretty`
pub record Serde : Type 0 where
  pub from_slice : Bytes → Option Value
  pub from_value : Value → Option StoredState
  pub to_vec_pretty : StoredState → Option Bytes

module _ (C : Serde) where
  unfoldable pub decode : Bytes → Result (AppState × Bool) StateStoreError
  unfolding migrate_to_current state_of validate_state
  decode contents = do
    document ← ok_or (C.from_slice contents) invalid_json
    migrated ← migrate_to_current document
    stored ← ok_or (C.from_value migrated.0) invalid_stored_state
    state ← state_of stored
    valid ← validate_state state
    ok (valid, migrated.1)

  -- The validation and the serialisation with which both writes begin.
  unfoldable pub encode : AppState → Result Bytes StateStoreError
  unfolding validate_state stored_of
  encode state = do
    _ ← validate_state state
    ok_or (C.to_vec_pretty (stored_of state)) serialization_failed
