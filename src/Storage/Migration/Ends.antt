-- ===== src/Storage/Migration/Ends.antt =====
-- The loop of `migrate_to_current` in src-tauri/src/storage/migration.rs ends.
use veyra.Base.{
  ℕ, zero, suc, ◌+◌, ◌≤◌, ◌≡◌, refl, ◌∙◌, ap, Option, none, some, Bool, true, false, Result, ok,
  err, ltb, Bool-cases, inl, inr, arith,
}
use veyra.Base.Text.{text_eq}
use veyra.Domain.Types.{current_schema_version}
use veyra.Storage.Error.{StateStoreError}
use veyra.Storage.Json.{Value}
use veyra.Storage.Migration.{
  migrate_version, after_round, migrate_loop, version_of, migrate_from, finish_run, migrate_on,
  settled_run, migrate_to_current,
}

after_round-ext :
    {k l : Value → Option (Result (ℕ × Value × Bool) StateStoreError)}
    → ((u : Value) → k u ≡ l u)
    → (r : Result Value StateStoreError) → after_round k r ≡ after_round l r
after_round-ext same (err e) = refl
after_round-ext same (ok u) = same u

-- With the rounds that are left the loop ends, and more fuel makes no difference.
loop_enough :
    (f g v : ℕ) (m : Bool) (d : Value)
    → current_schema_version ≤ f + v
    → current_schema_version ≤ g + v
    → migrate_loop f v m d ≡ migrate_loop g v m d
unfolding migrate_loop
loop_enough zero zero v m d a b = refl
loop_enough zero (suc g) v m d a b = ground arith
loop_enough (suc f) zero v m d a b = ground arith
loop_enough (suc f) (suc g) v m d a b = elim (Bool-cases (ltb v current_schema_version)) [
  | inr t ↦ rw (t, migrate_loop) refl
  | inl t ↦
      rw (t, migrate_loop)
        (after_round-ext (λ u. loop_enough f g (suc v) true u (omega arith) (omega arith))
          (migrate_version v d))
]

after_round-ends :
    {k : Value → Option (Result (ℕ × Value × Bool) StateStoreError)}
    → ((u : Value) → (end : Result (ℕ × Value × Bool) StateStoreError) × (k u ≡ some end))
    → (r : Result Value StateStoreError)
    → (end : Result (ℕ × Value × Bool) StateStoreError) × (after_round k r ≡ some end)
after_round-ends ends (err e) = (err e, refl)
after_round-ends ends (ok u) = ends u

pub loop_ends :
    (f v : ℕ) (m : Bool) (d : Value)
    → current_schema_version ≤ f + v
    → (end : Result (ℕ × Value × Bool) StateStoreError) × (migrate_loop f v m d ≡ some end)
unfolding migrate_loop
loop_ends zero v m d a = (ok (v, d, m), ground arith)
loop_ends (suc f) v m d a = elim (Bool-cases (ltb v current_schema_version)) [
  | inr t ↦ (ok (v, d, m), rw (t, migrate_loop) refl)
  | inl t ↦
      let (end, e) =
        after_round-ends (λ u. loop_ends f (suc v) true u (omega arith)) (migrate_version v d) in
      (end, rw (t, migrate_loop) e)
]

finish_run-settled :
    (o : Option (Result (ℕ × Value × Bool) StateStoreError))
    {end : Result (ℕ × Value × Bool) StateStoreError}
    → o ≡ some end
    → finish_run o ≡ some (settled_run (finish_run o))
unfolding finish_run settled_run
finish_run-settled none e = cc
finish_run-settled (some end) e = refl

from_settled :
    (fuel : ℕ) (d : Value) (at : Option ℕ)
    → current_schema_version ≤ fuel
    → migrate_from fuel d at ≡ some (settled_run (migrate_from current_schema_version d at))
unfolding migrate_from settled_run
from_settled fuel d none enough = refl
from_settled fuel d (some v) enough =
    let (end, e) = loop_ends current_schema_version v false d (omega arith) in
    ap finish_run (loop_enough fuel current_schema_version v false d (omega arith) (omega arith))
    ∙ finish_run-settled (migrate_loop current_schema_version v false d) e

-- With six rounds or more the migration of a document ends, with the result of `migrate_to_current`.
pub migrate_on-migrate_to_current :
    (fuel : ℕ) (document : Value)
    → current_schema_version ≤ fuel
    → migrate_on fuel document ≡ some (migrate_to_current document)
unfolding migrate_on migrate_to_current
migrate_on-migrate_to_current fuel document enough =
    from_settled fuel document (version_of document) enough
