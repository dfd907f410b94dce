-- ===== src/Storage/Migration/Runs.antt =====
-- A run of the loop of `migrate_to_current` in src-tauri/src/storage/migration.rs, from a version.
use veyra.Base.{
  ℕ, zero, suc, ◌≤◌, ◌≡◌, refl, sym, ◌∙◌, Option, none, some, Bool, true, false, ◌||◌, Result, ok,
  err, map_err, ltb, Bool-cases, inl, inr, arith, contains, subst,
}
use veyra.Base.Text.{Text, text_eq}
use veyra.Domain.Types.{current_schema_version}
use veyra.Storage.Error.{StateStoreError, migration_failed, unsupported_schema_version}
use veyra.Storage.Json.{Value, unsigned, get_in, as_u64}
use veyra.Storage.Upgrade.{schema_version_key}
use veyra.Storage.Upgrade.Keeps.{
  written, Upgraded, migrate_v1_to_v2-Upgraded, migrate_v2_to_v3-Upgraded,
  migrate_v3_to_v4-Upgraded, migrate_v4_to_v5-Upgraded, migrate_v5_to_v6-Upgraded,
}
use veyra.Storage.Migration.{migrate_version, after_round, migrate_loop, version_of}

passed :
    {E F : Type 0} (m : Result Value E) (e : F) (v : Value) → map_err m (λ _. e) ≡ ok v → m ≡ ok v
passed (ok w) e v h = cc
passed (err x) e v h = cc

stopped :
    {P : Type 0} (r : Result Value StateStoreError) {u : Value} {e : StateStoreError}
    → r ≡ err e
    → r ≡ ok u
    → P
stopped r h k = absurd (different (sym h ∙ k))
  where
    different :
        {e' : StateStoreError} {u' : Value}
        → ◌≡◌ {A = Result Value StateStoreError} (err e') (ok u')
        → ⊥
    different p = cc

migrate_version-Upgraded :
    (version : ℕ) (document upgraded : Value)
    → migrate_version version document ≡ ok upgraded
    → Upgraded (suc version) (written version) document upgraded
unfolding migrate_version
migrate_version-Upgraded zero d u h = cc
migrate_version-Upgraded (suc zero) d u h =
    migrate_v1_to_v2-Upgraded d u (passed _ migration_failed u h)
migrate_version-Upgraded (suc (suc zero)) d u h =
    migrate_v2_to_v3-Upgraded d u (passed _ migration_failed u h)
migrate_version-Upgraded (suc (suc (suc zero))) d u h =
    migrate_v3_to_v4-Upgraded d u (passed _ migration_failed u h)
migrate_version-Upgraded (suc (suc (suc (suc zero)))) d u h =
    migrate_v4_to_v5-Upgraded d u (passed _ migration_failed u h)
migrate_version-Upgraded (suc (suc (suc (suc (suc zero))))) d u h =
    migrate_v5_to_v6-Upgraded d u (passed _ migration_failed u h)
migrate_version-Upgraded (suc (suc (suc (suc (suc (suc n)))))) d u h =
    stopped (migrate_version (suc (suc (suc (suc (suc (suc n)))))) d)
      {e = unsupported_schema_version} (ground arith) h

-- The run from a version: it goes up to the version where it stops, and writes only what the upgrades
-- on the way write.
pub record Run (first : ℕ) (migrated : Bool) (document : Value) (end : ℕ × Value × Bool)
    : Type 0 where
  pub stands : version_of end.1 ≡ some end.0
  pub rises : first ≤ end.0
  pub flag : end.2 ≡ (migrated || ltb first current_schema_version)
  pub idle : ltb first current_schema_version ≡ false → end.1 ≡ document
  pub stops : ltb end.0 current_schema_version ≡ false
  pub kept :
      (k : Text)
      → ((v : ℕ) → first ≤ v → contains (written v) k ≡ false)
      → get_in k end.1 ≡ get_in k document

version-stands :
    (n : ℕ) (d : Value) → get_in schema_version_key d ≡ some (unsigned n) → version_of d ≡ some n
unfolding version_of as_u64
version-stands n d h = rw (h, version_of) refl

after_round-inv :
    {P : Type 0} (k : Value → Option (Result (ℕ × Value × Bool) StateStoreError))
    (r : Result Value StateStoreError) {end : ℕ × Value × Bool}
    → after_round k r ≡ some (ok end)
    → ((u : Value) → r ≡ ok u → k u ≡ some (ok end) → P)
    → P
after_round-inv k (err e) h next = cc
after_round-inv k (ok u) h next = next u refl h

pub loop_over :
    (f v : ℕ) (m : Bool) (d : Value)
    → ltb v current_schema_version ≡ false
    → migrate_loop f v m d ≡ some (ok (v, d, m))
unfolding migrate_loop
loop_over zero v m d t = rw (t, migrate_loop) refl
loop_over (suc f) v m d t = rw (t, migrate_loop) refl

loop_round :
    (f v : ℕ) (m : Bool) (d : Value)
    → ltb v current_schema_version ≡ true
    → migrate_loop (suc f) v m d
      ≡ after_round (λ u. migrate_loop f (suc v) true u) (migrate_version v d)
unfolding migrate_loop
loop_round f v m d t = rw (t, migrate_loop) refl

loop_none :
    (v : ℕ) (m : Bool) (d : Value)
    → ltb v current_schema_version ≡ true
    → migrate_loop 0 v m d ≡ none
unfolding migrate_loop
loop_none v m d t = rw (t, migrate_loop) refl

ended :
    {a b : ℕ × Value × Bool}
    → ◌≡◌ {A = Option (Result (ℕ × Value × Bool) StateStoreError)} (some (ok a)) (some (ok b))
    → a ≡ b
ended h = cc

none_differs :
    {P : Type 0} {a : ℕ × Value × Bool}
    → ◌≡◌ {A = Option (Result (ℕ × Value × Bool) StateStoreError)} none (some (ok a))
    → P
none_differs h = cc

over-Run :
    (f v : ℕ) (m : Bool) (d : Value) {end : ℕ × Value × Bool}
    → version_of d ≡ some v
    → ltb v current_schema_version ≡ false
    → migrate_loop f v m d ≡ some (ok end)
    → Run v m d end
over-Run f v m d at t h = subst (Run v m d) (ended (sym (loop_over f v m d t) ∙ h)) (record {
  stands = at;
  rises = omega arith;
  flag = ground arith;
  idle = λ _. refl;
  stops = t;
  kept = λ k free. refl;
})

pub loop-Run :
    (f v : ℕ) (m : Bool) (d : Value) {end : ℕ × Value × Bool}
    → version_of d ≡ some v
    → migrate_loop f v m d ≡ some (ok end)
    → Run v m d end
loop-Run zero v m d at h = elim (Bool-cases (ltb v current_schema_version)) [
  | inl t ↦ none_differs (sym (loop_none v m d t) ∙ h)
  | inr t ↦ over-Run zero v m d at t h
]
loop-Run (suc f) v m d {end} at h = elim (Bool-cases (ltb v current_schema_version)) [
  | inr t ↦ over-Run (suc f) v m d at t h
  | inl t ↦
      after_round-inv (λ u. migrate_loop f (suc v) true u) (migrate_version v d)
        (sym (loop_round f v m d t) ∙ h)
        (λ (u : Value) (e : migrate_version v d ≡ ok u)
            (rest : migrate_loop f (suc v) true u ≡ some (ok end)).
          let step : Upgraded (suc v) (written v) d u = migrate_version-Upgraded v d u e in
          let run : Run (suc v) true u end =
            loop-Run f (suc v) true u (version-stands (suc v) u step.version) rest in
          record {
            stands = run.stands;
            rises = omega (arith, run.rises);
            flag = ground (arith, run.flag);
            idle = λ over. ground arith;
            stops = run.stops;
            kept = λ k free.
                run.kept k (λ w le. free w (omega arith)) ∙ step.kept k (free v (omega arith));
          })
]
