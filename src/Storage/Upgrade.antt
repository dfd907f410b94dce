-- ===== src/Storage/Upgrade.antt =====
-- The five upgrades of src-tauri/src/storage/migration.rs, each from one version of a document to the
-- next.
pub mod Keeps
use veyra.Base.{[], Bool, true, false, Result, ok, err, ◌>>=◌, ok_or, if◌then◌else◌}
use veyra.Base.Text.{Text, text, text_beq}
use veyra.Storage.Error.{StateStoreError, invalid_stored_state}
use veyra.Storage.Json.{
  Value, null, bool, unsigned, string, array, object, nil, Entries, end, entry, get, insert,
  as_object, as_array, as_str, edit_each,
}
use veyra.Storage.OldNode.{edit_object, migrate_v2_node}

abbrev pub schema_version_key : Text
schema_version_key = text "schema_version"

abbrev pub subscriptions_key : Text
subscriptions_key = text "subscriptions"

abbrev pub nodes_key : Text
nodes_key = text "nodes"

-- `json!({ key: value })`
abbrev pub single : Text → Value → Value
single key value = object (entry key value end)

-- The loop over the objects of the array under a key.
unfoldable pub edit_array :
    Text → (Value → Result Value StateStoreError) → Entries → Result Entries StateStoreError
unfolding get as_array insert edit_each
edit_array key edit o = do
  found ← ok_or (get key o) invalid_stored_state
  items ← ok_or (as_array found) invalid_stored_state
  edited ← edit_each edit items
  ok (insert key (array edited) o)

unfoldable pub add_pools_and_routes : Entries → Result Entries StateStoreError
unfolding insert
add_pools_and_routes o = ok (
    insert (text "routes") (array nil)
      (insert (text "pools") (array nil) (insert schema_version_key (unsigned 2) o)))

unfoldable pub migrate_v1_to_v2 : Value → Result Value StateStoreError
unfolding edit_object add_pools_and_routes
migrate_v1_to_v2 = edit_object add_pools_and_routes

unfoldable pub migrate_v2_to_v3 : Value → Result Value StateStoreError
unfolding edit_object edit_array migrate_v2_node insert
migrate_v2_to_v3 = edit_object (λ o. do
  edited ← edit_array nodes_key migrate_v2_node o
  ok (
      insert (text "default_target") (single (text "kind") (string (text "unconfigured")))
        (insert schema_version_key (unsigned 3) edited)))

unfoldable pub migrate_v3_subscription : Value → Result Value StateStoreError
unfolding edit_object insert
migrate_v3_subscription = edit_object (λ o. ok (
    insert (text "http_metadata") null (
      insert (text "last_success_at_ms") null
        (insert (text "source") (single (text "kind") (string (text "manual"))) o))))

unfoldable pub migrate_v3_to_v4 : Value → Result Value StateStoreError
unfolding edit_object edit_array migrate_v3_subscription insert
migrate_v3_to_v4 = edit_object (λ o. do
  edited ← edit_array subscriptions_key migrate_v3_subscription o
  ok (insert schema_version_key (unsigned 4) edited))

unfoldable pub update_policy : Bool → Value
update_policy allow_auto_update = object (
    entry (text "allow_auto_update") (bool allow_auto_update)
      (entry (text "interval_minutes") null end))

abbrev pub default_request : Value
default_request = object (
    entry (text "user_agent") null (
      entry (text "timeout_seconds") (unsigned 30) (
        entry (text "proxy_mode") (string (text "direct"))
          (entry (text "verify_tls") (bool true) end))))

-- remote_request, update_policy
unfoldable pub v5_options : Text → Result (Value × Value) StateStoreError
unfolding update_policy
v5_options source_kind =
    if text_beq source_kind (text "remote")
    then ok (default_request, update_policy true)
    else if text_beq source_kind (text "manual")
    then ok (null, update_policy false)
    else err invalid_stored_state

unfoldable pub source_kind_of : Entries → Result Text StateStoreError
unfolding get as_object as_str
source_kind_of o = do
  source ← ok_or (get (text "source") o) invalid_stored_state
  fields ← ok_or (as_object source) invalid_stored_state
  kind ← ok_or (get (text "kind") fields) invalid_stored_state
  ok_or (as_str kind) invalid_stored_state

unfoldable pub migrate_v4_subscription : Value → Result Value StateStoreError
unfolding edit_object source_kind_of v5_options insert
migrate_v4_subscription = edit_object (λ o. do
  kind ← source_kind_of o
  options ← v5_options kind
  ok (
      insert (text "update_policy") options.1 (
        insert (text "remote_request") options.0
          (insert (text "last_attempt_at_ms") null (insert (text "description") (string []) o)))))

unfoldable pub migrate_v4_to_v5 : Value → Result Value StateStoreError
unfolding edit_object edit_array migrate_v4_subscription insert
migrate_v4_to_v5 = edit_object (λ o. do
  edited ← edit_array subscriptions_key migrate_v4_subscription o
  ok (
      insert schema_version_key (unsigned 5) (
        insert (text "active_configuration_generation") (unsigned 0)
          (insert (text "active_subscription_id") null edited))))

unfoldable pub migrate_v5_subscription : Value → Result Value StateStoreError
unfolding edit_object insert
migrate_v5_subscription = edit_object (λ o. ok (insert (text "document") null o))

unfoldable pub migrate_v5_to_v6 : Value → Result Value StateStoreError
unfolding edit_object edit_array migrate_v5_subscription insert
migrate_v5_to_v6 = edit_object (λ o. do
  edited ← edit_array subscriptions_key migrate_v5_subscription o
  ok (insert schema_version_key (unsigned 6) edited))
