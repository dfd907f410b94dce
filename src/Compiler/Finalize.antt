-- ===== src/Compiler/Finalize.antt =====
-- `SingBoxPlan::finalize` and `GeneratedConfig::validate_final` of src-tauri/src/singbox/compiler.rs: a
-- compiled plan is bound to the secret of a run. What serde_json does is an argument.
pub mod Bound
use veyra.Base.{
  List, Option, none, some, Bool, true, false, not, if◌then◌else◌, Result, ok, err, ok_or, fail_if,
  ◌>>=◌, ◌>>◌, ◌≡◌,
}
use veyra.Base.Text.{Text}
use veyra.Routing.Input.{Url}
use veyra.Compiler.Document.{CompileError, Document}
use veyra.Compiler.Managed.{validate}

pub record Serde (Bytes : Type 0) : Type 0 where
  -- `to_vec`
  pub encode : Document → Option Bytes
  -- `from_slice`, which refuses unknown and double fields
  pub decode : Bytes → Option Document
  -- whether the JSON value of the bytes is that of the document; `none` where one has no value
  pub is_canonical : Bytes → Document → Option Bool

-- What is written is read back, and is what the document is written as.
pub record IsFaithful {Bytes : Type 0} (S : Serde Bytes) : Type 0 where
  pub decode-encode : (d : Document) (b : Bytes) → S.encode d ≡ some b → S.decode b ≡ some d
  pub canonical : (d : Document) (b : Bytes) → S.encode d ≡ some b → S.is_canonical b d ≡ some true

abbrev pub bind_secret : Document → Text → Document
bind_secret d secret = record d { clash_api = record d.clash_api { secret = secret } }

module _ {Bytes : Type 0} (S : Serde Bytes) (parse : Text → Option Url) where
  unfoldable pub validate_final : Bytes → Result (Unit {0}) CompileError
  validate_final bytes = do
    document ← ok_or (S.decode bytes) CompileError.invalid_final_configuration
    validate parse true document
    same ← ok_or (S.is_canonical bytes document) CompileError.serialization_failed
    fail_if (not same) CompileError.invalid_final_configuration

  unfoldable pub finalize : Document → Text → Result Bytes CompileError
  unfolding validate_final
  finalize plan secret = do
    validate parse true (bind_secret plan secret)
    bytes ← ok_or (S.encode (bind_secret plan secret)) CompileError.serialization_failed
    validate_final bytes
    ok bytes
