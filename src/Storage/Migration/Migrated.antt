-- ===== src/Storage/Migration/Migrated.antt =====
-- What `migrate_to_current` of src-tauri/src/storage/migration.rs makes of a document.
use veyra.Base.{
  fail_if-eq-ok, not, ℕ, ◌≤◌, ◌≡◌, refl, sym, ◌∙◌, ap, Option, none, some, Bool, true, false,
  Result, ok, nat_beq, nat_beq_iff, ltb, arith, contains, >>=-eq-ok, ok-inj, subst,
}
use veyra.Base.Text.{Text, text_eq}
use veyra.Domain.Types.{current_schema_version}
use veyra.Storage.Error.{StateStoreError, unsupported_schema_version}
use veyra.Storage.Json.{Value, get_in}
use veyra.Storage.Upgrade.Keeps.{written}
use veyra.Storage.Migration.{
  migrate_loop, migrated_result, version_of, migrate_from, finish_run, migrate_on, settled_run,
  migrate_to_current,
}
use veyra.Storage.Migration.Ends.{loop_ends}
use veyra.Storage.Migration.Runs.{loop_over, loop-Run}

-- What `migrate_to_current` gives for a document.
pub record Migrated (document migrated : Value) (changed : Bool) : Type 0 where
  pub first : ℕ
  pub found : version_of document ≡ some first
  pub within : first ≤ current_schema_version
  pub current : version_of migrated ≡ some current_schema_version
  pub flag : changed ≡ ltb first current_schema_version
  pub same : changed ≡ false → migrated ≡ document
  pub again : migrate_to_current migrated ≡ ok (migrated, false)
  pub kept :
      (k : Text)
      → ((v : ℕ) → first ≤ v → contains (written v) k ≡ false)
      → get_in k migrated ≡ get_in k document

pub current_again :
    (d : Value) → version_of d ≡ some current_schema_version → migrate_to_current d ≡ ok (d, false)
unfolding migrate_to_current migrate_on migrate_from settled_run finish_run migrated_result
current_again d h =
    ap (λ at. settled_run (migrate_from current_schema_version d at)) h
    ∙ ap (λ o. settled_run (finish_run o))
        (loop_over current_schema_version current_schema_version false d refl)

from-eq-ok :
    (d : Value) (at : Option ℕ) {r : Value × Bool}
    → settled_run (migrate_from current_schema_version d at) ≡ ok r
    → (v : ℕ) × (end : ℕ × Value × Bool) × (at ≡ some v)
      × (migrate_loop current_schema_version v false d ≡ some (ok end))
      × (migrated_result end ≡ ok r)
unfolding migrate_from settled_run finish_run
from-eq-ok d none h = cc
from-eq-ok d (some v) {r} h =
    let (outcome, e) = loop_ends current_schema_version v false d (omega arith) in
    let (end, p, q) = >>=-eq-ok outcome migrated_result (subst Gives e h) in
    (v, end, refl, e ∙ ap some p, q)
  where
    Gives : Option (Result (ℕ × Value × Bool) StateStoreError) → Type 0
    Gives o = settled_run (finish_run o) ≡ ok r

result-eq-ok :
    (v : ℕ) (d : Value) (m : Bool) {d' : Value} {m' : Bool}
    → migrated_result (v, d, m) ≡ ok (d', m')
    → (v ≡ current_schema_version) × (d ≡ d') × (m ≡ m')
unfolding migrated_result
result-eq-ok v d m h =
    let (t, k) =
      fail_if-eq-ok (not (nat_beq v current_schema_version)) unsupported_schema_version (ok (d, m))
        h in
    let e = ok-inj (d, m) _ k in
    (
      (nat_beq_iff v current_schema_version).0 (not-eq-false (nat_beq v current_schema_version) t),
      ap (λ (x : Value × Bool). x.0) e,
      ap (λ (x : Value × Bool). x.1) e,
    )
  where
    not-eq-false : (b : Bool) → not b ≡ false → b ≡ true
    not-eq-false true h = refl
    not-eq-false false h = cc

-- A document that is migrated had a version up to the current one and has the current one then; it is
-- marked as changed exactly if it was older, and is the same otherwise; to migrate it again changes
-- nothing; and no entry is touched but those that the upgrades from its version on write.
pub migrate_to_current-Migrated :
    (document migrated : Value) (changed : Bool)
    → migrate_to_current document ≡ ok (migrated, changed)
    → Migrated document migrated changed
unfolding migrate_to_current migrate_on
migrate_to_current-Migrated document migrated changed h =
    let (v, end, at, e, r) = from-eq-ok document (version_of document) h in
    let run = loop-Run current_schema_version v false document at e in
    let (top, d, m) = result-eq-ok end.0 end.1 end.2 r in
    let now : version_of migrated ≡ some current_schema_version =
      subst (λ x. version_of x ≡ some current_schema_version) d (run.stands ∙ ap some top) in
    record {
      first = v;
      found = at;
      within = omega (arith, run.rises, top);
      current = now;
      flag = sym m ∙ run.flag;
      same = λ still. sym d ∙ run.idle (sym run.flag ∙ m ∙ still);
      again = current_again migrated now;
      kept = λ k free. subst (λ x. get_in k x ≡ get_in k document) d (run.kept k free);
    }
