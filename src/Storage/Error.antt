-- ===== src/Storage/Error.antt =====
-- The errors of the store in src-tauri/src/storage/store.rs, and the check of a state in validation.rs.
use veyra.Base.{Bool, true, false, Result, map_err, ◌>>=◌, ok}
use veyra.Domain.Types.{AppState, StateValidationError}
use veyra.Domain.State.{validate}

pub data StateStoreError : Type 0 where
  invalid_state : StateValidationError → StateStoreError
  invalid_state_path read_failed write_failed replace_failed invalid_json missing_schema_version
        migration_failed invalid_stored_state unsupported_schema_version no_valid_backup
        serialization_failed :
      StateStoreError

unfoldable pub is_recoverable : StateStoreError → Bool
is_recoverable (invalid_state error) = true
is_recoverable invalid_json = true
is_recoverable missing_schema_version = true
is_recoverable invalid_stored_state = true
is_recoverable error = false

unfoldable pub validate_state : AppState → Result AppState StateStoreError
validate_state state = do _ ← map_err (validate state) invalid_state; ok state
