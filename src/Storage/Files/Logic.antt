-- ===== src/Storage/Files/Logic.antt =====
-- What an act on the files of src-tauri/src/storage/snapshot.rs leaves, after success and after an
-- error, with the rules that compose such statements.
use veyra.Base.{◌≡◌, refl, sym, ◌∙◌, ap, List, Option, none, some, Bool, Result, ok, err, is_some}
use veyra.Storage.Error.{StateStoreError}
use veyra.Storage.Files.{
  Bytes, File, Snapshots, Files, Fate, works, fails, World, snapshot, temporary_of, put_temporary,
  Act, next_fate, continue, settle, call, settle_exists, try_exists, exists_or_false, exists,
  read_bytes, settle_read, read_snapshot,
}

abbrev pub Leaves {ℓ} :
    {A : Type ℓ}
    → (A → Files → Type 0)
    → (Files → Type 0)
    → Result A StateStoreError × World
    → Type 0
Leaves Good Bad (ok a, w) = Good a w.files
Leaves Good Bad (err e, w) = Bad w.files

-- After success `Good` holds of the value and the files, after an error `Bad` of the files.
pub record After {ℓ} {A : Type ℓ} (Good : A → Files → Type 0) (Bad : Files → Type 0)
    (r : Result A StateStoreError × World) : Type 0 where
  pub leaves : Leaves Good Bad r

pub continue-After {ℓ κ} :
    {A : Type ℓ} {B : Type κ} {Good : A → Files → Type 0} {Good' : B → Files → Type 0}
    {Bad : Files → Type 0} (rest : A → Act B) (r : Result A StateStoreError × World)
    → After Good Bad r
    → ((a : A) (w : World) → Good a w.files → After Good' Bad (rest a w))
    → After Good' Bad (continue rest r)
unfolding continue
continue-After rest (err e, w) h good = record { leaves = h.leaves }
continue-After rest (ok a, w) h good = good a w h.leaves

pub After-imp {ℓ} :
    {A : Type ℓ} {Good Good' : A → Files → Type 0} {Bad Bad' : Files → Type 0}
    (r : Result A StateStoreError × World)
    → After Good Bad r
    → ((a : A) (d : Files) → Good a d → Good' a d)
    → ((d : Files) → Bad d → Bad' d)
    → After Good' Bad' r
After-imp (err e, w) h good bad = record { leaves = bad w.files h.leaves }
After-imp (ok a, w) h good bad = record { leaves = good a w.files h.leaves }

-- The snapshots stand as `s` has them.
abbrev pub Stands : Snapshots → Files → Type 0
Stands s d = d.snapshots ≡ s

pub settle-After :
    (e : StateStoreError) (change : Files → Files) (d : Files) (f : Fate × List Fate)
    → After (λ _ d'. d' ≡ change d) (λ d'. d' ≡ d) (settle e change d f)
unfolding settle
settle-After e change d (works, rest) = record { leaves = refl }
settle-After e change d (fails n, rest) = record { leaves = refl }

-- A call that leaves the snapshots alone.
pub call-Stands :
    (e : StateStoreError) (change : Files → Files) (s : Snapshots) (w : World)
    → ((d : Files) → (change d).snapshots ≡ d.snapshots)
    → Stands s w.files
    → After (λ _. Stands s) (Stands s) (call e change w)
unfolding call
call-Stands e change s w alone h =
    After-imp (settle e change w.files (next_fate w.fates))
      (settle-After e change w.files (next_fate w.fates))
      (λ _ d p. ap (λ (x : Files). x.snapshots) p ∙ alone w.files ∙ h)
      (λ d p. ap (λ (x : Files). x.snapshots) p ∙ h)

pub put_temporary-snapshots :
    (file : File) (c : Option Bytes) (d : Files) → (put_temporary file c d).snapshots ≡ d.snapshots
unfolding put_temporary
put_temporary-snapshots File.current c d = refl
put_temporary-snapshots File.backup c d = refl
put_temporary-snapshots File.pre_migration c d = refl
put_temporary-snapshots File.corrupt c d = refl

pub temporary_of-put_temporary :
    (file : File) (c : Option Bytes) (d : Files) → temporary_of file (put_temporary file c d) ≡ c
unfolding put_temporary temporary_of
temporary_of-put_temporary File.current c d = refl
temporary_of-put_temporary File.backup c d = refl
temporary_of-put_temporary File.pre_migration c d = refl
temporary_of-put_temporary File.corrupt c d = refl

pub try_exists-Stands :
    (file : File) (s : Snapshots) (w : World)
    → Stands s w.files
    → After (λ b d. Stands s d × (b ≡ is_some (snapshot file s))) (Stands s) (try_exists file w)
unfolding try_exists settle_exists
try_exists-Stands file s w h = go (next_fate w.fates)
  where
    go :
        (f : Fate × List Fate)
        → After
            (λ b d. Stands s d × (b ≡ is_some (snapshot file s)))
            (Stands s)
            (settle_exists file w.files f)
    go (works, rest) = record { leaves = (h, ap (λ (x : Snapshots). is_some (snapshot file x)) h) }
    go (fails n, rest) = record { leaves = h }

-- A test by `exists` reads what is there, or fails quietly.
pub exists-Stands :
    (file : File) (s : Snapshots) (w : World)
    → Stands s w.files
    → After (λ _. Stands s) (Stands s) (exists file w)
unfolding exists exists_or_false
exists-Stands file s w h = go (try_exists file w) (try_exists-Stands file s w h)
  where
    go :
        (r : Result Bool StateStoreError × World)
        → After (λ b d. Stands s d × (b ≡ is_some (snapshot file s))) (Stands s) r
        → After (λ _. Stands s) (Stands s) (exists_or_false r)
    go (err e, w') k = record { leaves = k.leaves }
    go (ok b, w') k = record { leaves = k.leaves.0 }

pub read_snapshot-Stands :
    (file : File) (s : Snapshots) (w : World)
    → Stands s w.files
    → After (λ c d. Stands s d × (snapshot file s ≡ some c)) (Stands s) (read_snapshot file w)
unfolding read_snapshot settle_read read_bytes
read_snapshot-Stands file s w h = go (next_fate w.fates)
  where
    Read : Result Bytes StateStoreError × World → Type 0
    Read = After (λ c d. Stands s d × (snapshot file s ≡ some c)) (Stands s)

    present :
        (c : Option Bytes) (rest : List Fate)
        → snapshot file s ≡ c
        → Read (read_bytes c, record { files = w.files; fates = rest })
    present none rest e = record { leaves = h }
    present (some c) rest e = record { leaves = (h, e) }

    go : (f : Fate × List Fate) → Read (settle_read file w.files f)
    go (works, rest) = present (snapshot file w.files.snapshots) rest (ap (snapshot file) (sym h))
    go (fails n, rest) = record { leaves = h }
