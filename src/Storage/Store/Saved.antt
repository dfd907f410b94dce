-- ===== src/Storage/Store/Saved.antt =====
-- `save` of src-tauri/src/storage/store.rs, whatever calls of the file system fail.
use veyra.Base.{◌≡◌, refl, sym, subst, ◌⊎◌, inl, inr, some, Bool, true, false, Result, ok, err}
use veyra.Domain.Types.{AppState}
use veyra.Storage.Error.{StateStoreError}
use veyra.Storage.Files.{Bytes, File, Snapshots, World, put, lift}
use veyra.Storage.Files.Logic.{After, Stands, continue-After, After-imp, exists-Stands}
use veyra.Storage.Files.Replace.{atomic_replace-Stands, copy_for_backup-Stands}
use veyra.Storage.Codec.{Serde, encode}
use veyra.Storage.Store.{back_up, save}

module _ (C : Serde) where
  -- The siblings of the state file, of which a save may only have backed up the state file.
  pub record BackedUp (before after : Snapshots) : Type 0 where
    pub backup : (after.backup ≡ before.backup) ⊎ (after.backup ≡ before.current)
    pub pre_migration : after.pre_migration ≡ before.pre_migration
    pub corrupt : after.corrupt ≡ before.corrupt

  pub record Saved (state : AppState) (before after : Snapshots) : Type 0 where
    pub contents : Bytes
    pub encoded : encode C state ≡ ok contents
    pub current : after.current ≡ some contents
    pub siblings : BackedUp before after

  pub record NotSaved (before after : Snapshots) : Type 0 where
    pub current : after.current ≡ before.current
    pub siblings : BackedUp before after

  -- A result that was lifted into an act.
  pub lift-After :
      {A : Type 0} (r : Result A StateStoreError) (s : Snapshots) (w : World)
      → Stands s w.files
      → After (λ a d. Stands s d × (r ≡ ok a)) (Stands s) (lift r w)
  lift-After (ok a) s w h = record { leaves = (h, refl) }
  lift-After (err e) s w h = record { leaves = h }

  unmoved : (s : Snapshots) → NotSaved s s
  unmoved s = record {
    current = refl;
    siblings = record { backup = inl refl; pre_migration = refl; corrupt = refl };
  }

  -- What is in place once the state file may have been backed up.
  back_up-After :
      (present : Bool) (s : Snapshots) (w : World)
      → Stands s w.files
      → After (λ _ d. NotSaved s d.snapshots) (λ d. NotSaved s d.snapshots) (back_up C present w)
  unfolding back_up
  back_up-After false s w h = record { leaves = subst (NotSaved s) (sym h) (unmoved s) }
  back_up-After true s w h =
      After-imp _ (copy_for_backup-Stands File.current File.backup s w h)
        (λ _ d e. subst (NotSaved s) (sym e) (record {
          current = refl;
          siblings = record { backup = inr refl; pre_migration = refl; corrupt = refl };
        }))
        (λ d e. subst (NotSaved s) (sym e) (unmoved s))

  replaced :
      (state : AppState) (contents : Bytes) (s t : Snapshots)
      → encode C state ≡ ok contents
      → NotSaved s t
      → Saved state s (put File.current (some contents) t)
  unfolding put
  replaced state contents s t e h = record {
    contents = contents;
    encoded = e;
    current = refl;
    siblings = record {
      backup = h.siblings.backup;
      pre_migration = h.siblings.pre_migration;
      corrupt = h.siblings.corrupt;
    };
  }

  -- Whatever fails, a save that succeeds leaves the contents of the state in the state file, and a save
  -- that fails leaves the state file as it was; the other files are as before but for the backup, which
  -- may be a copy of the former state file.
  pub save-Saved :
      (state : AppState) (w : World)
      → After
          (λ _ d. Saved state w.files.snapshots d.snapshots)
          (λ d. NotSaved w.files.snapshots d.snapshots)
          (save C state w)
  unfolding save
  save-Saved state w =
      let s = w.files.snapshots in
      continue-After _ _
        (After-imp _ (lift-After (encode C state) s w refl) (λ c d h. h)
          (λ d e. subst (NotSaved s) (sym e) (unmoved s)))
        (λ contents w1 h1.
          continue-After _ _
            (After-imp _ (exists-Stands File.current s w1 h1.0) (λ c d h. h)
              (λ d e. subst (NotSaved s) (sym e) (unmoved s)))
            (λ present w2 h2. continue-After _ _ (back_up-After present s w2 h2) (λ _ w3 h3.
              After-imp _ (atomic_replace-Stands File.current contents w3.files.snapshots w3 refl)
                (λ _ d e.
                  subst (Saved state s) (sym e)
                    (replaced state contents s w3.files.snapshots h1.1 h3))
                (λ d e. subst (NotSaved s) (sym e) h3))))
