-- ===== src/Storage/Store/Loaded.antt =====
-- `load` of src-tauri/src/storage/store.rs, whatever calls of the file system fail.
use veyra.Base.{
  ◌≡◌, refl, sym, ◌∙◌, ap, subst, ◌⊎◌, inl, inr, Option, none, some, Bool, true, false, Result, ok,
  err, is_some,
}
use veyra.Domain.Types.{AppState}
use veyra.Domain.State.Valid.{IsValid}
use veyra.Storage.Error.{StateStoreError, is_recoverable, no_valid_backup}
use veyra.Storage.Files.{Bytes, File, Snapshots, Files, World, snapshot, put, preserve_corrupt_copy}
use veyra.Storage.Files.Logic.{
  After, Stands, continue-After, After-imp, try_exists-Stands, read_snapshot-Stands,
}
use veyra.Storage.Files.Replace.{atomic_replace-Stands, copy_for_backup-Stands}
use veyra.Storage.Codec.{Serde, encode, decode}
use veyra.Storage.Codec.Reads.{ReadsBack, decode-encode, decode-IsValid}
use veyra.Storage.Store.{
  error_as, load_backup, recover, write_current_without_backup, load_missing, load_failed,
  load_decoded, load_present, load,
}
use veyra.Storage.Store.Saved.{Saved, lift-After, save-Saved}

module _ (C : Serde) where
  -- What the state file held before is still in one of the files.
  pub Survives : Snapshots → Snapshots → Type 0
  Survives before after =
      (contents : Bytes)
      → before.current ≡ some contents
      → (after.current ≡ some contents)
        ⊎ (after.corrupt ≡ some contents)
        ⊎ (after.pre_migration ≡ some contents)

  -- What the state file decoded to, if it did, is the state.
  abbrev pub Agrees : Snapshots → AppState → Type 0
  Agrees before state =
      (contents : Bytes) (old : AppState) (changed : Bool)
      → before.current ≡ some contents
      → decode C contents ≡ ok (old, changed)
      → old ≡ state

  abbrev Undecoded : Snapshots → Type 0
  Undecoded before =
      (contents : Bytes) (old : AppState) (changed : Bool)
      → before.current ≡ some contents
      → decode C contents ≡ ok (old, changed)
      → ⊥

  decoded-Agrees :
      (s : Snapshots) (contents : Bytes) (state : AppState) (m : Bool)
      → s.current ≡ some contents
      → decode C contents ≡ ok (state, m)
      → Agrees s state
  decoded-Agrees s contents state m c k contents2 old changed e d = cc

  failed-Undecoded :
      (s : Snapshots) (contents : Bytes) (error : StateStoreError)
      → s.current ≡ some contents
      → decode C contents ≡ err error
      → Undecoded s
  failed-Undecoded s contents error c k contents2 old changed e d = cc

  -- A load that returned a state: the state file decodes to it.
  pub record Loaded (state : AppState) (before after : Snapshots) : Type 0 where
    pub contents : Bytes
    pub changed : Bool
    pub current : after.current ≡ some contents
    pub decoded : decode C contents ≡ ok (state, changed)
    pub valid : IsValid state
    pub survives : Survives before after
    pub agrees : Agrees before state

  NotLoaded : Snapshots → Files → Type 0
  NotLoaded s d = d.snapshots.current ≡ s.current

  module _ (laws : ReadsBack C) where
    Outcome : Snapshots → Result AppState StateStoreError × World → Type 0
    Outcome s = After (λ state d. Loaded state s d.snapshots) (NotLoaded s)

    Stands-NotLoaded : (s : Snapshots) (d : Files) → Stands s d → NotLoaded s d
    unfolding NotLoaded
    Stands-NotLoaded s d e = ap (λ (x : Snapshots). x.current) e

    error_as-After :
        {Good : AppState → Files → Type 0} {Bad : Files → Type 0} (e : StateStoreError)
        (r : Result AppState StateStoreError × World)
        → After Good Bad r
        → After Good Bad (error_as e r)
    unfolding error_as
    error_as-After e (ok a, w) h = record { leaves = h.leaves }
    error_as-After e (err _, w) h = record { leaves = h.leaves }

    write-After :
        (state : AppState) (s : Snapshots) (w : World)
        → Stands s w.files
        → After
            (λ _ d.
              (contents : Bytes) × (encode C state ≡ ok contents)
              × Stands (put File.current (some contents) s) d)
            (Stands s)
            (write_current_without_backup C state w)
    unfolding write_current_without_backup
    write-After state s w h =
        continue-After _ _ (lift-After C (encode C state) s w h) (λ contents w1 h1.
          After-imp _ (atomic_replace-Stands File.current contents s w1 h1.0)
            (λ _ d e. (contents, h1.1, e)) (λ d e. e))

    backup-After :
        (s : Snapshots) (w : World)
        → Stands s w.files
        → After (λ _. Stands s) (Stands s) (load_backup C w)
    unfolding load_backup
    backup-After s w h =
        continue-After _ _ (read_snapshot-Stands File.backup s w h) (λ contents w1 h1.
          continue-After _ _ (lift-After C (decode C contents) s w1 h1.0)
            (λ r w2 h2. record { leaves = h2.0 }))

    -- A state that was written to the state file.
    written :
        (state : AppState) (s t : Snapshots) (contents : Bytes)
        → encode C state ≡ ok contents
        → t.current ≡ some contents
        → Survives s t
        → Agrees s state
        → Loaded state s t
    written state s t contents e c v a =
        let d = decode-encode C laws state contents e in
        record {
          contents = contents;
          changed = false;
          current = c;
          decoded = d;
          valid = decode-IsValid C contents d;
          survives = v;
          agrees = a;
        }

    recover-After :
        (s t : Snapshots) (w : World)
        → Stands t w.files
        → t.current ≡ s.current
        → ((contents : Bytes) → Survives s (put File.current (some contents) t))
        → Undecoded s
        → Outcome s (recover C w)
    unfolding recover Outcome put NotLoaded
    recover-After s t w h cur v u =
        let still = λ (d : Files) (e : Stands t d). Stands-NotLoaded t d e ∙ cur in
        continue-After _ _
          (After-imp _ (error_as-After no_valid_backup _ (backup-After t w h)) (λ st d e. e) still)
          (λ state w1 h1.
            continue-After _ _ (After-imp _ (write-After state t w1 h1) (λ _ d e. e) still)
              (λ _ w2 (contents, e, p). record {
                leaves = subst (Loaded state s) (sym p) (
                    written state s _ contents e refl (v contents)
                      (λ c old m x d. absurd (u c old m x d)));
              }))

    failed-After :
        (recoverable : Bool) (error : StateStoreError) (s : Snapshots) (w : World)
        → Stands s w.files
        → Undecoded s
        → Outcome s (load_failed C recoverable error w)
    unfolding load_failed Outcome preserve_corrupt_copy Survives put snapshot
    failed-After false error s w h u = record { leaves = Stands-NotLoaded s w.files h }
    failed-After true error s w h u =
        continue-After _ _
          (After-imp _ (copy_for_backup-Stands File.current File.corrupt s w h) (λ _ d e. e)
            (Stands-NotLoaded s))
          (λ _ w1 h1.
            recover-After s (put File.corrupt (snapshot File.current s) s) w1 h1 refl
              (λ _ c e. inr (inl e)) u)

    decoded-After :
        (r : Result (AppState × Bool) StateStoreError) (contents : Bytes) (s : Snapshots)
        (w : World)
        → decode C contents ≡ r
        → s.current ≡ some contents
        → Stands s w.files
        → Outcome s (load_decoded C r w)
    unfolding load_decoded Outcome Survives NotLoaded put snapshot
    decoded-After (err error) contents s w k c h =
        failed-After (is_recoverable error) error s w h (failed-Undecoded s contents error c k)
    decoded-After (ok (state, false)) contents s w k c h = record {
      leaves = subst (Loaded state s) (sym h) (record {
        contents = contents;
        changed = false;
        current = c;
        decoded = k;
        valid = decode-IsValid C contents k;
        survives = λ b e. inl e;
        agrees = decoded-Agrees s contents state false c k;
      });
    }
    decoded-After (ok (state, true)) contents s w k c h =
        continue-After _ _
          (After-imp _ (copy_for_backup-Stands File.current File.pre_migration s w h) (λ _ d e. e)
            (Stands-NotLoaded s))
          (λ _ w1 h1.
            continue-After _ _
              (After-imp _ (save-Saved C state w1) (λ _ d e. e)
                (λ d e. e.current ∙ ap (λ (x : Snapshots). x.current) h1))
              (λ _ w2 (saved : Saved C state w1.files.snapshots w2.files.snapshots). record {
                leaves =
                    written state s w2.files.snapshots saved.contents saved.encoded saved.current
                      (λ b e. inr (
                        inr (
                          saved.siblings.pre_migration
                          ∙ ap (λ (x : Snapshots). x.pre_migration) h1
                          ∙ e)))
                      (decoded-Agrees s contents state true c k);
              }))

    present-After :
        (present : Bool) (s : Snapshots) (w : World)
        → Stands s w.files
        → present ≡ is_some s.current
        → Outcome s (load_present C present w)
    unfolding load_present load_missing Outcome Survives
    present-After true s w h p =
        continue-After _ _
          (After-imp _ (read_snapshot-Stands File.current s w h) (λ c d e. e) (Stands-NotLoaded s))
          (λ contents w1 h1. decoded-After (decode C contents) contents s w1 refl h1.1 h1.0)
    present-After false s w h p =
        continue-After _ _
          (After-imp _ (try_exists-Stands File.backup s w h) (λ c d e. e.0) (Stands-NotLoaded s))
          missing-After
      where
        absent : {P : Type 0} {b : Bytes} (o : Option Bytes) → false ≡ is_some o → o ≡ some b → P
        absent none q e = cc
        absent (some c) q e = cc

        missing-After :
            (backup : Bool) (w1 : World) → Stands s w1.files → Outcome s (load_missing C backup w1)
        missing-After false w1 h1 = record { leaves = Stands-NotLoaded s w1.files h1 }
        missing-After true w1 h1 =
            recover-After s s w1 h1 refl (λ c b e. absent s.current p e)
              (λ c old m e d. absent s.current p e)

  -- Whatever calls of the file system fail, a load that returns a state leaves a state file that
  -- decodes to that state, which is valid and is what the state file decoded to before, if it did,
  -- and what the state file held before is still in it, in the corrupt copy or in the copy from
  -- before the migration; a load that fails leaves the state file as it was. It is supposed that
  -- serde reads back what it writes.
  pub load-Loaded :
      ReadsBack C
      → (w : World)
      → After
          (λ state d. Loaded state w.files.snapshots d.snapshots)
          (λ d. d.snapshots.current ≡ w.files.snapshots.current)
          (load C w)
  unfolding load Outcome NotLoaded
  load-Loaded laws w =
      let s = w.files.snapshots in
      continue-After _ _
        (After-imp _ (try_exists-Stands File.current s w refl) (λ c d e. e)
          (Stands-NotLoaded laws s))
        (λ present w1 h1. present-After laws present s w1 h1.0 h1.1)
