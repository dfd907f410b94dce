-- ===== src/Storage/Store.antt =====
-- `JsonStateStore` of src-tauri/src/storage/store.rs. What serde derives for the stored state, and the
-- JSON text, are arguments.
pub mod Saved
pub mod Loaded
pub mod Calm
use veyra.Base.{
  ℕ, List, Option, none, some, Bool, true, false, not, Result, ok, err, ok_or, fail_if, nat_beq,
  if◌then◌else◌, ◌||◌,
}
use veyra.Base.Text.{Text}
use veyra.Domain.Types.{
  AppState, RouteTarget, SubscriptionId, Subscription, Provider, ProxyNode, NodePool, RoutePolicy,
  current_schema_version,
}
use veyra.Storage.Error.{
  StateStoreError, is_recoverable, validate_state, read_failed, invalid_json, invalid_stored_state,
  unsupported_schema_version, no_valid_backup, serialization_failed,
}
use veyra.Storage.Codec.{Serde, decode, encode}
use veyra.Storage.Files.{
  Bytes, File, World, Act, continue, ◌>>=◌, ◌>>◌, done, fail, lift, try_exists, exists,
  read_snapshot, atomic_replace, copy_for_backup, preserve_corrupt_copy,
}

-- An act whose error is replaced, `map_err(|_| error)`.
unfoldable pub error_as {ℓ} :
    {A : Type ℓ}
    → StateStoreError
    → Result A StateStoreError × World
    → Result A StateStoreError × World
error_as e (ok a, w) = (ok a, w)
error_as e (err _, w) = (err e, w)

module _ (C : Serde) where
  unfoldable pub load_backup : Act AppState
  unfolding continue read_snapshot decode
  load_backup = do
    contents ← read_snapshot File.backup
    decoded ← lift (decode C contents)
    done decoded.0

  unfoldable pub write_current_without_backup : AppState → Act (Unit {0})
  unfolding continue encode atomic_replace
  write_current_without_backup state = do
    contents ← lift (encode C state)
    atomic_replace File.current contents

  unfoldable pub has_snapshot_or_backup : Act Bool
  unfolding continue try_exists
  has_snapshot_or_backup = do
    current ← try_exists File.current
    backup ← try_exists File.backup
    done (current || backup)

  -- `if self.state_file.exists() { copy_for_backup(...)?; }`
  unfoldable pub back_up : Bool → Act (Unit {0})
  unfolding copy_for_backup
  back_up true = copy_for_backup File.current File.backup
  back_up false = done tt

  unfoldable pub save : AppState → Act (Unit {0})
  unfolding continue encode exists back_up atomic_replace
  save state = do
    contents ← lift (encode C state)
    present ← exists File.current
    back_up present
    atomic_replace File.current contents

  -- The backup becomes the state.
  unfoldable pub recover : Act AppState
  unfolding continue error_as load_backup write_current_without_backup
  recover = do
    recovered ← (λ w. error_as no_valid_backup (load_backup w))
    write_current_without_backup recovered
    done recovered

  unfoldable pub load_missing : Bool → Act AppState
  unfolding recover
  load_missing false = fail read_failed
  load_missing true = recover

  unfoldable pub load_failed : Bool → StateStoreError → Act AppState
  unfolding continue preserve_corrupt_copy recover
  load_failed false error = fail error
  load_failed true error = do preserve_corrupt_copy; recover

  -- The match on the decoded state.
  unfoldable pub load_decoded : Result (AppState × Bool) StateStoreError → Act AppState
  unfolding continue copy_for_backup save load_failed is_recoverable
  load_decoded (ok (state, false)) = done state
  load_decoded (ok (state, true)) = do
    copy_for_backup File.current File.pre_migration
    save state
    done state
  load_decoded (err error) = load_failed (is_recoverable error) error

  unfoldable pub load_present : Bool → Act AppState
  unfolding continue try_exists load_missing read_snapshot load_decoded decode
  load_present false = do backup ← try_exists File.backup; load_missing backup
  load_present true = do contents ← read_snapshot File.current; load_decoded (decode C contents)

  unfoldable pub load : Act AppState
  unfolding continue try_exists load_present
  load = do present ← try_exists File.current; load_present present
