-- ===== src/Storage/Migration.antt =====
-- The loop `migrate_to_current` of src-tauri/src/storage/migration.rs, which upgrades a stored document
-- to the current version, one version at a time.
pub mod Runs
pub mod Ends
pub mod Migrated
use veyra.Base.{
  ℕ, zero, suc, Option, none, some, Bool, true, false, Result, ok, err, ◌>>=◌, map_err,
  if◌then◌else◌, ltb, nat_beq, fail_if, not, ◌>>◌,
}
use veyra.Domain.Types.{current_schema_version}
use veyra.Storage.Error.{
  StateStoreError, missing_schema_version, unsupported_schema_version, migration_failed,
}
use veyra.Storage.Json.{Value, as_u64, get_in}
use veyra.Storage.Upgrade.{
  schema_version_key, migrate_v1_to_v2, migrate_v2_to_v3, migrate_v3_to_v4, migrate_v4_to_v5,
  migrate_v5_to_v6,
}

-- One round of the loop.
unfoldable pub migrate_version : ℕ → Value → Result Value StateStoreError
unfolding migrate_v1_to_v2 migrate_v2_to_v3 migrate_v3_to_v4 migrate_v4_to_v5 migrate_v5_to_v6
migrate_version version document =
    if nat_beq version 1
    then map_err (migrate_v1_to_v2 document) (λ _. migration_failed)
    else if nat_beq version 2
    then map_err (migrate_v2_to_v3 document) (λ _. migration_failed)
    else if nat_beq version 3
    then map_err (migrate_v3_to_v4 document) (λ _. migration_failed)
    else if nat_beq version 4
    then map_err (migrate_v4_to_v5 document) (λ _. migration_failed)
    else if nat_beq version 5
    then map_err (migrate_v5_to_v6 document) (λ _. migration_failed)
    else err unsupported_schema_version

-- The rest of the loop after a round, which an error ends.
abbrev pub after_round :
    (Value → Option (Result (ℕ × Value × Bool) StateStoreError))
    → Result Value StateStoreError
    → Option (Result (ℕ × Value × Bool) StateStoreError)
after_round rest (err e) = some (err e)
after_round rest (ok upgraded) = rest upgraded

-- `while version < CURRENT_SCHEMA_VERSION`, on fuel: none where the fuel ran out. The end is the
-- version, the document and whether a round was made.
unfoldable pub migrate_loop :
    ℕ → ℕ → Bool → Value → Option (Result (ℕ × Value × Bool) StateStoreError)
unfolding migrate_version
migrate_loop zero version migrated document =
    if ltb version current_schema_version then none else some (ok (version, document, migrated))
migrate_loop (suc fuel) version migrated document = elim (ltb version current_schema_version) [
  | false ↦ some (ok (version, document, migrated))
  | true ↦
      after_round (λ upgraded. migrate_loop fuel (suc version) true upgraded)
        (migrate_version version document)
]

-- The test after the loop.
unfoldable pub migrated_result : ℕ × Value × Bool → Result (Value × Bool) StateStoreError
migrated_result (version, document, migrated) = do
  fail_if (not (nat_beq version current_schema_version)) unsupported_schema_version
  ok (document, migrated)

unfoldable pub version_of : Value → Option ℕ
unfolding get_in as_u64
version_of document = elim (get_in schema_version_key document) [ none ↦ none | some v ↦ as_u64 v ]

unfoldable pub finish_run :
    Option (Result (ℕ × Value × Bool) StateStoreError)
    → Option (Result (Value × Bool) StateStoreError)
unfolding migrated_result
finish_run none = none
finish_run (some outcome) = some (outcome >>= migrated_result)

-- The loop and the test, from the version that the document names.
unfoldable pub migrate_from : ℕ → Value → Option ℕ → Option (Result (Value × Bool) StateStoreError)
unfolding migrate_loop finish_run
migrate_from fuel document none = some (err missing_schema_version)
migrate_from fuel document (some version) = finish_run (migrate_loop fuel version false document)

-- The run with the fuel: none where it ran out.
unfoldable pub migrate_on : ℕ → Value → Option (Result (Value × Bool) StateStoreError)
unfolding version_of migrate_from
migrate_on fuel document = migrate_from fuel document (version_of document)

-- The result of a run that ended.
unfoldable pub settled_run :
    Option (Result (Value × Bool) StateStoreError) → Result (Value × Bool) StateStoreError
settled_run none = err unsupported_schema_version
settled_run (some outcome) = outcome

-- `migrate_to_current`: as many rounds as there are versions are enough.
unfoldable pub migrate_to_current : Value → Result (Value × Bool) StateStoreError
unfolding migrate_on settled_run
migrate_to_current document = settled_run (migrate_on current_schema_version document)
