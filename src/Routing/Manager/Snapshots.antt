-- ===== src/Routing/Manager/Snapshots.antt =====
-- The store of `ProxyRoutingManager`, src-tauri/src/application/proxy_routing.rs: the snapshot store of
-- src-tauri/src/storage, whose state file is what the manager keeps.
use veyra.Base.{
  ◌≡◌, refl, sym, ◌∙◌, ap, subst, Option, none, some, Bool, true, false, Result, ok, err, map_err,
}
use veyra.Domain.Types
use veyra.Domain.Types.{AppState}
use veyra.Storage.Error.{StateStoreError}
use veyra.Storage.Files.{Bytes, File, Snapshots, Files, World, Act, continue, done, ◌>>=◌}
use veyra.Storage.Files.Logic.{After, Stands, continue-After, After-imp, try_exists-Stands}
use veyra.Storage.Codec.{Serde, decode}
use veyra.Storage.Codec.Reads.{ReadsBack, decode-encode}
use veyra.Storage.Store.{has_snapshot_or_backup, save, load}
use veyra.Storage.Store.Saved.{Saved, NotSaved, save-Saved}
use veyra.Storage.Store.Loaded.{load-Loaded}
use veyra.Routing.Manager.{StateStore}
use veyra.Routing.Manager.Stored.{KeepsState, HoldsValid}

-- `map_err(|_| MutationError::StateUnavailable)`, and the error of a save
unfoldable pub forget_error {ℓ} :
    {A : Type ℓ} → Result A StateStoreError × World → Result A (Unit {0}) × World
forget_error (r, w) = (map_err r (λ _. tt), w)

module _ (C : Serde) where
  unfoldable pub load_or_empty : Bool → Act AppState
  unfolding load
  load_or_empty false = done Types.empty
  load_or_empty true = load C

  unfoldable pub load_state : Act AppState
  unfolding continue has_snapshot_or_backup load_or_empty
  load_state = do found ← has_snapshot_or_backup C; load_or_empty found

  unfoldable pub snapshot_store : StateStore World
  unfolding forget_error load_state save
  snapshot_store = record {
    load_state = λ w. forget_error (load_state w);
    save = λ s w. forget_error (save C s w);
  }

  -- The state that the state file decodes to.
  abbrev decoded_state : Result (AppState × Bool) StateStoreError → Option AppState
  decoded_state (err e) = none
  decoded_state (ok (state, migrated)) = some state

  abbrev pub state_in : Option Bytes → Option AppState
  state_in none = none
  state_in (some contents) = decoded_state (decode C contents)

  abbrev pub kept : World → Option AppState
  kept w = state_in w.files.snapshots.current

  pub holds :
      (contents : Option Bytes) (b : Bytes) (state : AppState) (m : Bool)
      → contents ≡ some b
      → decode C b ≡ ok (state, m)
      → state_in contents ≡ some state
  holds contents b state m e k = ap state_in e ∙ ap decoded_state k

  Saved-kept :
      ReadsBack C
      → (s : AppState) (old : Snapshots) (r : Result (Unit {0}) StateStoreError × World)
      → After (λ _ d. Saved C s old d.snapshots) (λ d. NotSaved C old d.snapshots) r
      → (forget_error r).0 ≡ ok tt
      → kept r.1 ≡ some s
  unfolding forget_error
  Saved-kept laws s old (err e, w) h k = cc
  Saved-kept laws s old (ok _, w) h k =
      let saved = h.leaves in
      holds w.files.snapshots.current saved.contents s false saved.current
        (decode-encode C laws s saved.contents saved.encoded)

  NotSaved-kept :
      (s : AppState) (old : Snapshots) (r : Result (Unit {0}) StateStoreError × World)
      (e : Unit {0})
      → After (λ _ d. Saved C s old d.snapshots) (λ d. NotSaved C old d.snapshots) r
      → (forget_error r).0 ≡ err e
      → kept r.1 ≡ state_in old.current
  unfolding forget_error
  NotSaved-kept s old (err x, w) e h k = ap state_in h.leaves.current
  NotSaved-kept s old (ok _, w) e h k = cc

  HoldsIn : Files → Type 0
  HoldsIn d = HoldsValid (state_in d.snapshots.current)

  load-HoldsIn :
      ReadsBack C → (w : World) → HoldsIn w.files → After (λ _. HoldsIn) HoldsIn (load C w)
  unfolding HoldsIn
  load-HoldsIn laws w v =
      After-imp _ (load-Loaded C laws w)
        (λ state d l.
          subst HoldsValid
            (sym (holds d.snapshots.current l.contents state l.changed l.current l.decoded))
            l.valid)
        (λ d e. subst (λ c. HoldsValid (state_in c)) (sym e) v)

  found-HoldsIn :
      ReadsBack C
      → (found : Bool) (w : World) → HoldsIn w.files
      → After (λ _. HoldsIn) HoldsIn (load_or_empty found w)
  unfolding load_or_empty
  found-HoldsIn laws false w v = record { leaves = v }
  found-HoldsIn laws true w v = load-HoldsIn laws w v

  looked-HoldsIn :
      (w : World) → HoldsIn w.files → After (λ _. HoldsIn) HoldsIn (has_snapshot_or_backup C w)
  unfolding has_snapshot_or_backup HoldsIn
  looked-HoldsIn w v =
      let s = w.files.snapshots in
      let still =
        λ (d : Files) (e : Stands s d). subst (λ x. HoldsValid (state_in x.current)) (sym e) v in
      continue-After _ _
        (After-imp _ (try_exists-Stands File.current s w refl) (λ _ d e. e.0) still)
        (λ _ w1 h1.
          continue-After _ _
            (After-imp _ (try_exists-Stands File.backup s w1 h1) (λ _ d e. still d e.0) still)
            (λ _ w2 h2. record { leaves = h2 }))

  forgotten :
      (r : Result AppState StateStoreError × World)
      → After (λ _. HoldsIn) HoldsIn r
      → HoldsValid (kept (forget_error r).1)
  unfolding forget_error HoldsIn
  forgotten (ok a, w) h = h.leaves
  forgotten (err e, w) h = h.leaves

  load_state-HoldsValid :
      ReadsBack C
      → (w : World) → HoldsValid (kept w)
      → HoldsValid (kept (forget_error (load_state w)).1)
  unfolding load_state HoldsIn
  load_state-HoldsValid laws w v =
      forgotten (load_state w)
        (continue-After _ _ (looked-HoldsIn w v) (λ found w1 h1. found-HoldsIn laws found w1 h1))

  -- A save that succeeds leaves the state, one that fails the old one, and no load an invalid one.
  pub snapshot_store-KeepsState : ReadsBack C → KeepsState snapshot_store kept
  unfolding snapshot_store
  snapshot_store-KeepsState laws = record {
    save_ok = λ s w h. Saved-kept laws s w.files.snapshots (save C s w) (save-Saved C s w) h;
    save_err = λ s w e h. NotSaved-kept s w.files.snapshots (save C s w) e (save-Saved C s w) h;
    load_valid = load_state-HoldsValid laws;
  }
