-- ===== src/Storage/Files.antt =====
-- The files of the store, src-tauri/src/storage/snapshot.rs: the state file, its siblings, and the
-- calls of `std::fs`, each of which can fail. What fails when is given as a list of fates, one for each
-- call, and a run without fates left has no more failures.

pub mod Logic
pub mod Replace
use veyra.Base.{
  ℕ, zero, suc, List, [], ◌∷◌, Option, none, some, Bool, true, false, Result, ok, err, is_some,
}
use veyra.Storage.Error.{StateStoreError, read_failed, write_failed, replace_failed}

abbrev pub Bytes : Type 0
Bytes = List ℕ

-- The state file, and `backup_path`, `pre_migration_backup_path` and `corrupt_copy_path` of it.
pub data File : Type 0 where
  current backup pre_migration corrupt : File

pub record Snapshots : Type 0 where
  pub current : Option Bytes
  pub backup : Option Bytes
  pub pre_migration : Option Bytes
  pub corrupt : Option Bytes

-- The snapshots, and the temporary files: `state.tmp`, by which the state file is replaced, and
-- `state.json.tmp`, by which its siblings are.
pub record Files : Type 0 where
  pub snapshots : Snapshots
  pub temporary : Option Bytes
  pub sibling_temporary : Option Bytes

-- What happens to a call. A write that fails has written that many bytes.
pub data Fate : Type 0 where
  works : Fate
  fails : ℕ → Fate

pub record World : Type 0 where
  pub files : Files
  pub fates : List Fate

unfoldable pub snapshot : File → Snapshots → Option Bytes
snapshot File.current s = s.current
snapshot File.backup s = s.backup
snapshot File.pre_migration s = s.pre_migration
snapshot File.corrupt s = s.corrupt

unfoldable pub put : File → Option Bytes → Snapshots → Snapshots
put File.current contents s = record s { current = contents }
put File.backup contents s = record s { backup = contents }
put File.pre_migration contents s = record s { pre_migration = contents }
put File.corrupt contents s = record s { corrupt = contents }

-- `destination.with_extension("tmp")`
unfoldable pub temporary_of : File → Files → Option Bytes
temporary_of File.current d = d.temporary
temporary_of file d = d.sibling_temporary

unfoldable pub put_temporary : File → Option Bytes → Files → Files
put_temporary File.current contents d = record d { temporary = contents }
put_temporary file contents d = record d { sibling_temporary = contents }

abbrev pub Act {ℓ} : Type ℓ → Type ℓ
Act A = World → Result A StateStoreError × World

unfoldable pub next_fate : List Fate → Fate × List Fate
next_fate [] = (works, [])
next_fate (fate ∷ rest) = (fate, rest)

-- Acts in sequence, of which the first error ends the whole.
unfoldable pub continue {ℓ κ} :
    {A : Type ℓ} {B : Type κ}
    → (A → Act B)
    → Result A StateStoreError × World
    → Result B StateStoreError × World
continue rest (err e, w) = (err e, w)
continue rest (ok a, w) = rest a w

infixl 5 ◌>>=◌ ◌>>◌
abbrev pub ◌>>=◌ {ℓ κ} : {A : Type ℓ} {B : Type κ} → Act A → (A → Act B) → Act B
◌>>=◌ act rest w = continue rest (act w)

abbrev pub ◌>>◌ {κ} : {B : Type κ} → Act (Unit {0}) → Act B → Act B
◌>>◌ act rest w = continue (λ _. rest) (act w)

abbrev pub done {ℓ} : {A : Type ℓ} → A → Act A
done a w = (ok a, w)

abbrev pub fail {ℓ} : {A : Type ℓ} → StateStoreError → Act A
fail e w = (err e, w)

abbrev pub lift {ℓ} : {A : Type ℓ} → Result A StateStoreError → Act A
lift r w = (r, w)

-- A call that changes the files, or fails and leaves them.
unfoldable pub settle :
    StateStoreError
    → (Files → Files)
    → Files
    → Fate × List Fate
    → Result (Unit {0}) StateStoreError × World
settle e change d (works, rest) = (ok tt, record { files = change d; fates = rest })
settle e change d (fails n, rest) = (err e, record { files = d; fates = rest })

unfoldable pub call : StateStoreError → (Files → Files) → Act (Unit {0})
unfolding settle next_fate
call e change w = settle e change w.files (next_fate w.fates)

-- `try_exists`, whose failure is `ReadFailed`
unfoldable pub settle_exists : File → Files → Fate × List Fate → Result Bool StateStoreError × World
unfolding snapshot
settle_exists file d (works, rest) =
    (ok (is_some (snapshot file d.snapshots)), record { files = d; fates = rest })
settle_exists file d (fails n, rest) = (err read_failed, record { files = d; fates = rest })

unfoldable pub try_exists : File → Act Bool
unfolding settle_exists next_fate
try_exists file w = settle_exists file w.files (next_fate w.fates)

-- `exists`: a failure counts as absence
unfoldable pub exists_or_false :
    Result Bool StateStoreError × World → Result Bool StateStoreError × World
exists_or_false (err e, w) = (ok false, w)
exists_or_false (ok b, w) = (ok b, w)

unfoldable pub exists : File → Act Bool
unfolding try_exists exists_or_false
exists file w = exists_or_false (try_exists file w)

unfoldable pub read_bytes : Option Bytes → Result Bytes StateStoreError
read_bytes none = err read_failed
read_bytes (some contents) = ok contents

unfoldable pub settle_read : File → Files → Fate × List Fate → Result Bytes StateStoreError × World
unfolding snapshot read_bytes
settle_read file d (works, rest) =
    (read_bytes (snapshot file d.snapshots), record { files = d; fates = rest })
settle_read file d (fails n, rest) = (err read_failed, record { files = d; fates = rest })

unfoldable pub read_snapshot : File → Act Bytes
unfolding settle_read next_fate
read_snapshot file w = settle_read file w.files (next_fate w.fates)

unfoldable pub first_bytes : ℕ → Bytes → Bytes
first_bytes zero contents = []
first_bytes (suc n) [] = []
first_bytes (suc n) (b ∷ contents) = b ∷ first_bytes n contents

-- `file.write_all(contents)`
unfoldable pub settle_write :
    File → Bytes → Files → Fate × List Fate → Result (Unit {0}) StateStoreError × World
unfolding put_temporary first_bytes
settle_write file contents d (works, rest) =
    (ok tt, record { files = put_temporary file (some contents) d; fates = rest })
settle_write file contents d (fails n, rest) = (
  err write_failed,
  record { files = put_temporary file (some (first_bytes n contents)) d; fates = rest },
)

unfoldable pub write_all : File → Bytes → Act (Unit {0})
unfolding settle_write next_fate
write_all file contents w = settle_write file contents w.files (next_fate w.fates)

-- `fs::remove_file(&temporary)`, whose error is dropped
unfoldable pub settle_remove :
    File → Files → Fate × List Fate → Result (Unit {0}) StateStoreError × World
unfolding put_temporary
settle_remove file d (works, rest) =
    (err replace_failed, record { files = put_temporary file none d; fates = rest })
settle_remove file d (fails n, rest) = (err replace_failed, record { files = d; fates = rest })

-- `fs::rename(&temporary, destination)`; where it fails the temporary file is removed
unfoldable pub rename_present :
    File → Files → Option Bytes → List Fate → Result (Unit {0}) StateStoreError × World
unfolding put put_temporary settle_remove next_fate
rename_present file d none rest = settle_remove file d (next_fate rest)
rename_present file d (some contents) rest = (
  ok tt,
  record {
    files = put_temporary file none (record d { snapshots = put file (some contents) d.snapshots });
    fates = rest;
  },
)

unfoldable pub settle_rename :
    File → Files → Fate × List Fate → Result (Unit {0}) StateStoreError × World
unfolding rename_present temporary_of settle_remove next_fate
settle_rename file d (works, rest) = rename_present file d (temporary_of file d) rest
settle_rename file d (fails n, rest) = settle_remove file d (next_fate rest)

unfoldable pub rename_temporary : File → Act (Unit {0})
unfolding settle_rename next_fate
rename_temporary file w = settle_rename file w.files (next_fate w.fates)

-- `create_dir_all` of the parent, which a state file with a name has; `File::create`, `write_all` and
-- `sync_all` of the temporary file; and the rename.
unfoldable pub atomic_replace : File → Bytes → Act (Unit {0})
unfolding continue call put_temporary write_all rename_temporary
atomic_replace file contents = do
  call write_failed (λ d. d)
  call write_failed (put_temporary file (some []))
  write_all file contents
  call write_failed (λ d. d)
  rename_temporary file

unfoldable pub copy_for_backup : File → File → Act (Unit {0})
unfolding continue read_snapshot atomic_replace
copy_for_backup source destination = do
  contents ← read_snapshot source
  atomic_replace destination contents

unfoldable pub preserve_corrupt_copy : Act (Unit {0})
unfolding copy_for_backup
preserve_corrupt_copy = copy_for_backup File.current File.corrupt
