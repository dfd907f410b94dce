-- ===== src/Storage/Files/Replace.antt =====
-- `atomic_replace` and `copy_for_backup` of src-tauri/src/storage/snapshot.rs, whatever call fails.
use veyra.Base.{◌≡◌, refl, sym, ◌∙◌, ap, subst, [], List, Option, none, some}
use veyra.Storage.Error.{write_failed}
use veyra.Storage.Files.{
  Bytes, File, Snapshots, Files, Fate, works, fails, World, snapshot, put, temporary_of,
  put_temporary, next_fate, settle, call, settle_write, write_all, settle_remove, rename_present,
  settle_rename, rename_temporary, atomic_replace, copy_for_backup,
}
use veyra.Storage.Files.Logic.{
  After, continue-After, After-imp, Stands, settle-After, call-Stands, put_temporary-snapshots,
  temporary_of-put_temporary, read_snapshot-Stands,
}

-- The new contents stand in the temporary file.
record Prepared (file : File) (contents : Bytes) (s : Snapshots) (d : Files) : Type 0 where
  stands : Stands s d
  prepared : temporary_of file d ≡ some contents

write_all-Prepared :
    (file : File) (contents : Bytes) (s : Snapshots) (w : World)
    → Stands s w.files
    → After (λ _. Prepared file contents s) (Stands s) (write_all file contents w)
unfolding write_all settle_write
write_all-Prepared file contents s w h = go (next_fate w.fates)
  where
    go :
        (f : Fate × List Fate)
        → After (λ _. Prepared file contents s) (Stands s) (settle_write file contents w.files f)
    go (works, rest) = record {
      leaves = record {
        stands = put_temporary-snapshots file (some contents) w.files ∙ h;
        prepared = temporary_of-put_temporary file (some contents) w.files;
      };
    }
    go (fails n, rest) = record { leaves = put_temporary-snapshots file _ w.files ∙ h }

sync-Prepared :
    (file : File) (contents : Bytes) (s : Snapshots) (w : World)
    → Prepared file contents s w.files
    → After (λ _. Prepared file contents s) (Stands s) (call write_failed (λ d. d) w)
unfolding call
sync-Prepared file contents s w h =
    After-imp (settle write_failed (λ d. d) w.files (next_fate w.fates))
      (settle-After write_failed (λ d. d) w.files (next_fate w.fates))
      (λ _ d p. subst (Prepared file contents s) (sym p) h)
      (λ d p. ap (λ (x : Files). x.snapshots) p ∙ h.stands)

remove-Stands :
    {Good : Files → Type 0} (file : File) (s : Snapshots) (d : Files) (f : Fate × List Fate)
    → Stands s d
    → After (λ _. Good) (Stands s) (settle_remove file d f)
unfolding settle_remove
remove-Stands file s d (works, rest) h = record { leaves = put_temporary-snapshots file none d ∙ h }
remove-Stands file s d (fails n, rest) h = record { leaves = h }

present-Stands :
    (file : File) (contents : Bytes) (s : Snapshots) (d : Files) (t : Option Bytes)
    (rest : List Fate)
    → Prepared file contents s d
    → temporary_of file d ≡ t
    → After (λ _. Stands (put file (some contents) s)) (Stands s) (rename_present file d t rest)
unfolding rename_present
present-Stands file contents s d none rest h p = remove-Stands file s d (next_fate rest) h.stands
present-Stands file contents s d (some c) rest h p = record {
  leaves =
      put_temporary-snapshots file none (record d { snapshots = put file (some c) d.snapshots })
      ∙ ap (λ x. put file x d.snapshots) (sym p ∙ h.prepared)
      ∙ ap (put file (some contents)) h.stands;
}

rename-Stands :
    (file : File) (contents : Bytes) (s : Snapshots) (w : World)
    → Prepared file contents s w.files
    → After (λ _. Stands (put file (some contents) s)) (Stands s) (rename_temporary file w)
unfolding rename_temporary settle_rename
rename-Stands file contents s w h = go (next_fate w.fates)
  where
    go :
        (f : Fate × List Fate)
        → After (λ _. Stands (put file (some contents) s)) (Stands s) (settle_rename file w.files f)
    go (works, rest) =
        present-Stands file contents s w.files (temporary_of file w.files) rest h refl
    go (fails n, rest) = remove-Stands file s w.files (next_fate rest) h.stands

-- A replacement puts the whole contents in place, or fails and leaves every snapshot.
pub atomic_replace-Stands :
    (file : File) (contents : Bytes) (s : Snapshots) (w : World)
    → Stands s w.files
    → After (λ _. Stands (put file (some contents) s)) (Stands s) (atomic_replace file contents w)
unfolding atomic_replace
atomic_replace-Stands file contents s w h =
    continue-After _ _ (call-Stands write_failed (λ d. d) s w (λ d. refl) h) (λ _ w1 h1.
      continue-After _ _
        (call-Stands write_failed (put_temporary file (some [])) s w1
          (put_temporary-snapshots file (some [])) h1)
        (λ _ w2 h2. continue-After _ _ (write_all-Prepared file contents s w2 h2) (λ _ w3 h3.
          continue-After _ _ (sync-Prepared file contents s w3 h3)
            (λ _ w4 h4. rename-Stands file contents s w4 h4))))

pub copy_for_backup-Stands :
    (source destination : File) (s : Snapshots) (w : World)
    → Stands s w.files
    → After
        (λ _. Stands (put destination (snapshot source s) s))
        (Stands s)
        (copy_for_backup source destination w)
unfolding copy_for_backup
copy_for_backup-Stands source destination s w h =
    continue-After _ _ (read_snapshot-Stands source s w h) (λ c w1 h1.
      subst
        (λ x.
          After (λ _. Stands (put destination x s)) (Stands s) (atomic_replace destination c w1))
        (sym h1.1) (atomic_replace-Stands destination c s w1 h1.0))
