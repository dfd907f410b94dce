-- ===== src/Storage/Codec/Reads.antt =====
-- What src-tauri/src/storage/store.rs writes for a state it reads back, and what it reads is valid.
use veyra.Base.{
  ◌≡◌, refl, sym, ◌∙◌, ap, subst, Option, none, some, Bool, false, Result, ok, err, ok_or, map_err,
  ◌>>=◌, >>=-eq-ok, ok-inj,
}
use veyra.Domain.Types.{AppState, StateValidationError}
use veyra.Domain.State.{validate}
use veyra.Domain.State.Valid.{IsValid}
use veyra.Domain.State.Decision.{validate_iff}
use veyra.Storage.Error.{
  StateStoreError, validate_state, invalid_state, invalid_json, invalid_stored_state,
  serialization_failed,
}
use veyra.Storage.Json.{Value}
use veyra.Storage.Files.{Bytes}
use veyra.Storage.Migration.{version_of, migrate_to_current}
use veyra.Storage.Migration.Migrated.{current_again}
use veyra.Storage.Codec.{StoredState, stored_of, state_of, Serde, decode, encode}

passed :
    {T U : Type 0} {m : Result T StateStoreError} {t : T} {u : U}
    (rest : T → Result U StateStoreError)
    → m ≡ ok t
    → rest t ≡ ok u
    → (m >>= rest) ≡ ok u
passed rest e h = ap (λ x. x >>= rest) e ∙ h

validate_state-eq-ok : (s : AppState) {t : AppState} → validate_state s ≡ ok t → (s ≡ t) × IsValid s
unfolding validate_state
validate_state-eq-ok s {t} h = go (validate s) refl h
  where
    go :
        (r : Result (Unit {0}) StateValidationError)
        → validate s ≡ r
        → (map_err r invalid_state >>= (λ _. ok s)) ≡ ok t
        → (s ≡ t) × IsValid s
    go (err e) p k = cc
    go (ok tt) p k = (ok-inj s t k, (validate_iff s).0 p)

state_of-stored_of : (s : AppState) → IsValid s → state_of (stored_of s) ≡ ok s
unfolding state_of stored_of
state_of-stored_of s v = ap (λ n. ok (record s { schema_version = n })) (sym v.version)

-- What serde promises of the types it derives the code for: what is written is read as a document that
-- names the version of the state, and as the state itself.
pub record ReadsBack (C : Serde) : Type 0 where
  pub reads :
      (stored : StoredState) (contents : Bytes)
      → C.to_vec_pretty stored ≡ some contents
      → (document : Value) × (C.from_slice contents ≡ some document)
        × (version_of document ≡ some stored.schema_version)
        × (C.from_value document ≡ some stored)

module _ (C : Serde) where
  pub decode-IsValid :
      (contents : Bytes) {s : AppState} {m : Bool} → decode C contents ≡ ok (s, m) → IsValid s
  unfolding decode
  decode-IsValid contents {s} h =
      let (document, _, h1) = >>=-eq-ok (ok_or (C.from_slice contents) invalid_json) _ h in
      let (migrated, _, h2) = >>=-eq-ok (migrate_to_current document) _ h1 in
      let (stored, _, h3) = >>=-eq-ok (ok_or (C.from_value migrated.0) invalid_stored_state) _ h2 in
      let (state, _, h4) = >>=-eq-ok (state_of stored) _ h3 in
      let (valid, p, h5) = >>=-eq-ok (validate_state state) _ h4 in
      let (e, v) = validate_state-eq-ok state p in
      subst IsValid (e ∙ ap (λ (x : AppState × Bool). x.0) (ok-inj (valid, migrated.1) _ h5)) v

  pub encode-IsValid : (s : AppState) {contents : Bytes} → encode C s ≡ ok contents → IsValid s
  unfolding encode
  encode-IsValid s h =
      let (valid, p, _) = >>=-eq-ok (validate_state s) _ h in (validate_state-eq-ok s p).1

  pub decode-encode :
      ReadsBack C
      → (s : AppState) (contents : Bytes) → encode C s ≡ ok contents
      → decode C contents ≡ ok (s, false)
  unfolding decode encode
  decode-encode laws s contents h =
      let (valid, p, k) = >>=-eq-ok (validate_state s) _ h in
      let (e, v) = validate_state-eq-ok s p in
      let (document, a, b, c) =
        laws.reads (stored_of s) contents (written (C.to_vec_pretty (stored_of s)) k) in
      passed _ (ap (λ o. ok_or o invalid_json) a) (
        passed _ (current_again document b) (
          passed _ (ap (λ o. ok_or o invalid_stored_state) c) (
            passed (λ x. validate_state x >>= (λ valid. ok (valid, false))) (state_of-stored_of s v)
              (passed (λ x. ok (x, false)) (p ∙ ap ok (sym e)) refl))))
    where
      written : (o : Option Bytes) → ok_or o serialization_failed ≡ ok contents → o ≡ some contents
      written none q = cc
      written (some b) q = cc

  pub encode_valid :
      (s : AppState) (contents : Bytes)
      → IsValid s
      → C.to_vec_pretty (stored_of s) ≡ some contents
      → encode C s ≡ ok contents
  unfolding encode validate_state
  encode_valid s contents v h =
      passed (λ _. ok_or (C.to_vec_pretty (stored_of s)) serialization_failed)
        (ap (λ r. map_err r invalid_state >>= (λ _. ok s)) ((validate_iff s).1 v))
        (ap (λ o. ok_or o serialization_failed) h)
