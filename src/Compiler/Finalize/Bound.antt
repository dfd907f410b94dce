-- ===== src/Compiler/Finalize/Bound.antt =====
-- A plan that was compiled can be bound to a secret of the form that the code makes, and the bytes are
-- that plan with that secret; both in src-tauri/src/singbox/compiler.rs.
use veyra.Base.{
  Bool-cases, Option-cases, inl, inr, arith, ◌≡◌, refl, ◌∙◌, Option, Bool, true, false, not,
  nat_beq, if◌then◌else◌, Result, ok, err, ok_or, fail_if-eq-ok, fail_if_iff, fail_if, ◌>>◌,
  >>-eq-ok, >>=-eq-ok, ap, some, none, ◌↔◌, ◌⊎◌,
}
use veyra.Base.Text.{Text, text_eq}
use veyra.Domain.Types.{RouteTarget}
use veyra.Domain.State.{RuntimeIntent}
use veyra.Routing.Input.{Url}
use veyra.Compiler.Document.{CompileError, Document}
use veyra.Compiler.Checks.{valid_secret}
use veyra.Compiler.Validate.{reject_if}
use veyra.Compiler.Managed.{is_managed, validate}
use veyra.Compiler.Compile.{compile}
use veyra.Compiler.Compile.Parts.{compile-IsMade}
use veyra.Compiler.Finalize.{Serde, IsFaithful, bind_secret, validate_final, finalize}

not-false : (b : Bool) → not b ≡ false → b ≡ true
not-false true h = refl
not-false false h = cc

is_managed-bind :
    (d : Document) (secret : Text)
    → is_managed false d ≡ true
    → is_managed true (bind_secret d secret) ≡ valid_secret secret
unfolding is_managed
is_managed-bind d secret h = ground arith

passed :
    (t : Bool) (e : CompileError) (k : Result (Unit {0}) CompileError)
    → t ≡ false
    → (fail_if t e >> k) ≡ k
passed true e k h = cc
passed false e k h = refl

passes : (b : Bool) → b ≡ true → (reject_if (not b) >> ok (tt {0})) ≡ ok tt
passes true h = refl
passes false h = cc

found : {A : Type 0} (o : Option A) (a : A) (e : CompileError) → ok_or o e ≡ ok a → o ≡ some a
found none a e h = cc
found (some b) a e h = cc

again :
    (m n : Bool) (k r : Result (Unit {0}) CompileError)
    → m ≡ n
    → k ≡ r
    → (reject_if (not m) >> k) ≡ (reject_if (not n) >> r)
again m n k r p q = cc

-- The secret is all that the two checks differ in.
validate-bind :
    (parse : Text → Option Url) (d : Document) (secret : Text)
    → validate parse false d ≡ ok tt
    → validate parse true (bind_secret d secret) ≡ (reject_if (not (valid_secret secret)) >> ok tt)
unfolding validate
validate-bind parse d secret h =
    let (a, h1) =
      fail_if-eq-ok (not (nat_beq d.inbounds 0)) CompileError.invalid_final_configuration _ h in
    let (b, h2) =
      fail_if-eq-ok (not (is_managed false d)) CompileError.invalid_final_configuration _ h1 in
    passed (not (nat_beq d.inbounds 0)) CompileError.invalid_final_configuration _ a
    ∙ again (is_managed true (bind_secret d secret)) (valid_secret secret) _ (ok tt)
        (is_managed-bind d secret (not-false (is_managed false d) b)) h2

module _ {Bytes : Type 0} (S : Serde Bytes) (parse : Text → Option Url) where
  -- What the final check makes sure of: the bytes are read as a document that the check with a secret
  -- accepts, and they are the canonical ones.
  abbrev pub PassesFinal : Bytes → Type 0
  PassesFinal bytes =
      (document : Document) × (S.decode bytes ≡ some document)
      × (validate parse true document ≡ ok tt)
      × (S.is_canonical bytes document ≡ some true)

  validate_final_iff : (bytes : Bytes) → (validate_final S parse bytes ≡ ok tt) ↔ PassesFinal bytes
  unfolding validate_final
  validate_final_iff bytes = (
    λ h.
        let (document, a, h1) =
          >>=-eq-ok (ok_or (S.decode bytes) CompileError.invalid_final_configuration) _ h in
        let (b, h2) = >>-eq-ok (validate parse true document) _ h1 in
        let (same, c, h3) =
          >>=-eq-ok (ok_or (S.is_canonical bytes document) CompileError.serialization_failed) _
            h2 in
        let e =
          not-false same ((fail_if_iff (not same) CompileError.invalid_final_configuration).0 h3) in
        (
          document,
          found (S.decode bytes) document CompileError.invalid_final_configuration a,
          b,
          found (S.is_canonical bytes document) same CompileError.serialization_failed c
              ∙ ap some e,
        ),
    λ v. let (document, a, b, c) = v in rw (a, b, c) refl,
  )

  -- By the result: bytes are what the plan with the secret is written as, with a secret of the form
  -- that the code makes, and they pass the final check; an error has one of three reasons.
  abbrev pub Finalizes : Document → Text → Result Bytes CompileError → Type 0
  Finalizes d secret (ok bytes) =
      (valid_secret secret ≡ true)
      × (S.encode (bind_secret d secret) ≡ some bytes)
      × PassesFinal bytes
  Finalizes d secret (err e) =
      (valid_secret secret ≡ false)
      ⊎ ((S.encode (bind_secret d secret) ≡ none)
          ⊎ ((bytes : Bytes) × (S.encode (bind_secret d secret) ≡ some bytes)
              × (PassesFinal bytes → ⊥)))

  checked-Finalizes :
      (d : Document) (secret : Text) (bytes : Bytes) (r : Result (Unit {0}) CompileError)
      → valid_secret secret ≡ true
      → S.encode (bind_secret d secret) ≡ some bytes
      → validate_final S parse bytes ≡ r
      → Finalizes d secret (r >> ok bytes)
  checked-Finalizes d secret bytes (ok tt) e w p = (e, w, (validate_final_iff bytes).0 p)
  checked-Finalizes d secret bytes (err x) e w p =
      inr (inr (bytes, w, λ v. cc ((validate_final_iff bytes).1 v, p)))

  finalize-Finalizes :
      (d : Document) (secret : Text)
      → validate parse false d ≡ ok tt
      → Finalizes d secret (finalize S parse d secret)
  unfolding finalize
  finalize-Finalizes d secret h =
      let bound = validate-bind parse d secret h in
      elim (Bool-cases (valid_secret secret)) [
        | inl e ↦
            let checked : validate parse true (bind_secret d secret) ≡ ok tt =
              bound ∙ passes (valid_secret secret) e in
            elim (Option-cases (S.encode (bind_secret d secret))) [
              | inl n ↦ rw (checked, n, Finalizes) (inr (inl n))
              | inr (b, w) ↦
                  rw (checked, w, Finalizes)
                    (checked-Finalizes d secret b (validate_final S parse b) e w refl)
            ]
        | inr e ↦ rw (bound, e, Finalizes) (inl e)
      ]

  finalize_faithful :
      (d : Document) (secret : Text)
      → IsFaithful S
      → validate parse false d ≡ ok tt
      → finalize S parse d secret ≡ (
          if valid_secret secret
          then ok_or (S.encode (bind_secret d secret)) CompileError.serialization_failed
          else err CompileError.invalid_final_configuration)
  unfolding finalize
  finalize_faithful d secret faithful h =
      let bound = validate-bind parse d secret h in
      elim (Bool-cases (valid_secret secret)) [
        | inl e ↦
            let checked : validate parse true (bind_secret d secret) ≡ ok tt =
              bound ∙ passes (valid_secret secret) e in
            elim (Option-cases (S.encode (bind_secret d secret))) [
              | inl n ↦ rw (checked, e, n) refl
              | inr (b, w) ↦
                  let final = (validate_final_iff b).1 (
                    bind_secret d secret,
                    faithful.decode-encode (bind_secret d secret) b w,
                    checked,
                    faithful.canonical (bind_secret d secret) b w,
                  ) in
                  rw (checked, e, w, final) refl
            ]
        | inr e ↦ rw (bound, e) refl
      ]

-- The outcome of binding a plan that was compiled, for any secret. Whatever serde_json does: bytes are
-- returned only with a secret of 64 lower-case hexadecimal digits, they are what the plan with this
-- secret is written as, and they pass the final check, which reads them as a document that the
-- check with a secret accepts and of which they are canonical; and it is an error only with
-- another secret, where the document cannot be written or where the bytes do not pass. Where serde_json
-- reads back what it writes, another secret is refused, and with such a secret the bytes are returned
-- if the document can be written.
pub finalize-lem :
    {Bytes : Type 0} (S F : Serde Bytes) (parse : Text → Option Url) (intent : RuntimeIntent)
    (default : RouteTarget) (d : Document) (secret : Text)
    → IsFaithful F
    → compile parse intent default ≡ ok d
    → Finalizes S parse d secret (finalize S parse d secret)
      × (finalize F parse d secret ≡ (
          if valid_secret secret
          then ok_or (F.encode (bind_secret d secret)) CompileError.serialization_failed
          else err CompileError.invalid_final_configuration))
finalize-lem S F parse intent default d secret faithful h =
    let checked = (compile-IsMade parse intent default d h).checked in
    (
      finalize-Finalizes S parse d secret checked,
      finalize_faithful F parse d secret faithful checked,
    )
