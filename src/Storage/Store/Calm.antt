-- ===== src/Storage/Store/Calm.antt =====
-- `load` of src-tauri/src/storage/store.rs where no call of the file system fails.
use veyra.Base.{
  ◌≡◌, refl, ◌∙◌, ap, subst, [], none, some, Bool, true, false, Result, ok, err, is_some,
}
use veyra.Domain.Types.{AppState}
use veyra.Storage.Error.{StateStoreError, is_recoverable, no_valid_backup}
use veyra.Storage.Files.{
  Bytes, File, Files, World, put, put_temporary, temporary_of, snapshot, continue, lift, try_exists,
  read_snapshot, next_fate, atomic_replace, copy_for_backup, preserve_corrupt_copy, call, settle,
  settle_exists, settle_read, read_bytes, write_all, settle_write, rename_temporary, settle_rename,
  rename_present,
}
use veyra.Storage.Files.Logic.{After}
use veyra.Storage.Codec.{Serde, stored_of, encode, decode}
use veyra.Storage.Codec.Reads.{ReadsBack, decode-encode, decode-IsValid, encode_valid}
use veyra.Storage.Store.{
  error_as, load_backup, recover, write_current_without_backup, save, load, load_present,
  load_decoded, load_failed,
}
use veyra.Storage.Store.Saved.{save-Saved}

-- The files, with no more failures to come.
abbrev pub calm : Files → World
calm d = record { files = d; fates = [] }

module _ (C : Serde) where
  load_readable :
      (d : Files) (contents : Bytes) (r : Result (AppState × Bool) StateStoreError)
      → d.snapshots.current ≡ some contents
      → decode C contents ≡ r
      → load C (calm d) ≡ load_decoded C r (calm d)
  unfolding load try_exists settle_exists snapshot next_fate continue load_present read_snapshot
      settle_read read_bytes
  load_readable d contents r e k =
      ap (λ x. load_present C (is_some x) (calm d)) e
      ∙ ap (λ x. continue (λ c. load_decoded C (decode C c)) (read_bytes x, calm d)) e
      ∙ ap (λ x. load_decoded C x (calm d)) k

  -- A state that was saved is what the next load returns, and that load changes nothing, if serde reads
  -- back what it writes and the files can be read.
  pub load-save :
      ReadsBack C
      → (state : AppState) (w w' : World) → save C state w ≡ (ok tt, w')
      → load C (calm w'.files) ≡ (ok state, calm w'.files)
  unfolding load_decoded
  load-save laws state w w' h =
      let saved = (subst (After _ _) h (save-Saved C state w)).leaves in
      load_readable w'.files saved.contents (ok (state, false)) saved.current
        (decode-encode C laws state saved.contents saved.encoded)

  -- The files once a snapshot has been replaced.
  unfoldable pub with_snapshot : File → Bytes → Files → Files
  unfolding put put_temporary
  with_snapshot file contents d =
      put_temporary file none (record d { snapshots = put file (some contents) d.snapshots })

  atomic_replace-calm :
      (file : File) (contents : Bytes) (d : Files)
      → atomic_replace file contents (calm d) ≡ (ok tt, calm (with_snapshot file contents d))
  unfolding atomic_replace with_snapshot continue call settle next_fate put_temporary temporary_of
      write_all settle_write rename_temporary settle_rename rename_present put
  atomic_replace-calm File.current contents d = refl
  atomic_replace-calm File.backup contents d = refl
  atomic_replace-calm File.pre_migration contents d = refl
  atomic_replace-calm File.corrupt contents d = refl

  write_current_calm :
      (state : AppState) (contents : Bytes) (d : Files)
      → encode C state ≡ ok contents
      → write_current_without_backup C state (calm d)
        ≡ (ok tt, calm (with_snapshot File.current contents d))
  unfolding write_current_without_backup continue
  write_current_calm state contents d e =
      ap (λ r. continue (atomic_replace File.current) (lift r (calm d))) e
      ∙ atomic_replace-calm File.current contents d

  preserve_calm :
      (contents : Bytes) (d : Files)
      → d.snapshots.current ≡ some contents
      → preserve_corrupt_copy (calm d) ≡ (ok tt, calm (with_snapshot File.corrupt contents d))
  unfolding preserve_corrupt_copy copy_for_backup read_snapshot settle_read snapshot next_fate
      continue read_bytes
  preserve_calm contents d e =
      ap (λ x. continue (atomic_replace File.corrupt) (read_bytes x, calm d)) e
      ∙ atomic_replace-calm File.corrupt contents d

  load_backup-calm :
      (contents : Bytes) (state : AppState) (m : Bool) (d : Files)
      → d.snapshots.backup ≡ some contents
      → decode C contents ≡ ok (state, m)
      → load_backup C (calm d) ≡ (ok state, calm d)
  unfolding load_backup read_snapshot settle_read snapshot next_fate continue read_bytes
  load_backup-calm contents state m d e k =
      ap
        (λ x.
          continue (λ c. λ w. continue (λ r. λ v. (ok r.0, v)) (lift (decode C c) w))
            (read_bytes x, calm d))
        e
      ∙ ap (λ r. continue (λ (r : AppState × Bool). λ v. (ok r.0, v)) (lift r (calm d))) k

  recover-calm :
      (backup contents : Bytes) (state : AppState) (m : Bool) (d : Files)
      → d.snapshots.backup ≡ some backup
      → decode C backup ≡ ok (state, m)
      → encode C state ≡ ok contents
      → recover C (calm d) ≡ (ok state, calm (with_snapshot File.current contents d))
  unfolding recover continue error_as
  recover-calm backup contents state m d e k f =
      ap
        (λ x.
          continue
            (λ st. λ v. continue (λ _. λ u. (ok st, u)) (write_current_without_backup C st v))
            (error_as no_valid_backup x))
        (load_backup-calm backup state m d e k)
      ∙ ap (continue (λ _. λ u. (ok state, u))) (write_current_calm state contents d f)

  -- Where the state file cannot be decoded but the error is recoverable and the backup decodes to a
  -- state, that state is returned and written to the state file, and the former contents of the state
  -- file are in the corrupt copy; the backup and the copy from before a migration stay, if no call
  -- fails and the state can be serialised.
  pub load-recover :
      (d : Files) (broken backup contents : Bytes) (error : StateStoreError) (state : AppState)
      (m : Bool)
      → d.snapshots.current ≡ some broken
      → d.snapshots.backup ≡ some backup
      → decode C broken ≡ err error
      → is_recoverable error ≡ true
      → decode C backup ≡ ok (state, m)
      → C.to_vec_pretty (stored_of state) ≡ some contents
      → ((load C (calm d)).0 ≡ ok state)
        × ((load C (calm d)).1.files.snapshots
            ≡ record d.snapshots { current = some contents; corrupt = some broken })
  unfolding load_decoded load_failed continue with_snapshot put put_temporary
  load-recover d broken backup contents error state m cur bak e r k f =
      let d1 = with_snapshot File.corrupt broken d in
      let path =
        load_readable d broken (err error) cur e
        ∙ ap (λ b. load_failed C b error (calm d)) r
        ∙ ap (continue (λ _. recover C)) (preserve_calm broken d cur)
        ∙ recover-calm backup contents state m d1 bak k
            (encode_valid C state contents (decode-IsValid C backup k) f) in
      (
        ap (λ (x : Result AppState StateStoreError × World). x.0) path,
        ap (λ (x : Result AppState StateStoreError × World). x.1.files.snapshots) path,
      )
