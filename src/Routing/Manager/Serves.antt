-- ===== src/Routing/Manager/Serves.antt =====
-- What a load of the routing manager returns and leaves: `load_state` of
-- src-tauri/src/application/proxy_routing.rs over the snapshot store of src-tauri/src/storage.
use veyra.Base.{
  ◌≡◌, refl, sym, ◌∙◌, ap, ◌⊎◌, inl, inr, Option, none, some, Bool, true, false, ◌||◌, Result, ok,
  err, is_some, arith,
}
use veyra.Domain.Types
use veyra.Domain.Types.{AppState}
use veyra.Storage.Error.{StateStoreError}
use veyra.Storage.Files.{Bytes, File, Snapshots, Files, World, snapshot}
use veyra.Storage.Files.Logic.{After, Stands, continue-After, After-imp, try_exists-Stands}
use veyra.Storage.Codec.{Serde, decode}
use veyra.Storage.Codec.Reads.{ReadsBack}
use veyra.Storage.Store.{has_snapshot_or_backup, load}
use veyra.Storage.Store.Loaded.{load-Loaded}
use veyra.Routing.Manager.{StateStore}
use veyra.Routing.Manager.Stored.{KeepsState}
use veyra.Routing.Manager.Snapshots.{
  forget_error, load_or_empty, load_state, snapshot_store, state_in, kept, holds,
  snapshot_store-KeepsState,
}

-- A load that returns a state returns the one that was kept, if one was, and keeps what it returns;
-- only where none was kept it may return the empty state and keep none. One that fails keeps what was
-- kept.
abbrev pub Loads : Option AppState → Result AppState (Unit {0}) → Option AppState → Type 0
Loads before (ok s) after =
    ((before ≡ none) ⊎ (before ≡ some s))
    × ((after ≡ some s) ⊎ ((s ≡ Types.empty) × (before ≡ none) × (after ≡ none)))
Loads before (err _) after = after ≡ before

-- The saves and the loads of a store whose state is `kept`.
pub record Serves {Disk : Type 0} (S : StateStore Disk) (kept : Disk → Option AppState)
    : Type 0 where
  pub keeps : KeepsState S kept
  pub loads : (d : Disk) → Loads (kept d) (S.load_state d).0 (kept (S.load_state d).1)

module _ (C : Serde) where
  LoadsIn : Option AppState → AppState → Files → Type 0
  LoadsIn before s d = Loads before (ok s) (state_in C d.snapshots.current)

  FailsIn : Option AppState → Files → Type 0
  FailsIn before d = state_in C d.snapshots.current ≡ before

  agreed :
      (contents : Option Bytes) (state : AppState)
      → ((b : Bytes) (old : AppState) (m : Bool)
          → contents ≡ some b
          → decode C b ≡ ok (old, m)
          → old ≡ state)
      → (state_in C contents ≡ none) ⊎ (state_in C contents ≡ some state)
  agreed none state h = inl refl
  agreed (some b) state h = go (decode C b) refl
    where
      go :
          (r : Result (AppState × Bool) StateStoreError)
          → decode C b ≡ r
          → (state_in C (some b) ≡ none) ⊎ (state_in C (some b) ≡ some state)
      go (err e) p = inl (rw p refl)
      go (ok (old, m)) p = inr (holds C (some b) b old m refl p ∙ ap some (h b old m refl p))

  load-LoadsIn :
      ReadsBack C
      → (before : Option AppState) (w : World) → FailsIn before w.files
      → After (LoadsIn before) (FailsIn before) (load C w)
  unfolding LoadsIn FailsIn
  load-LoadsIn laws before w v =
      After-imp _ (load-Loaded C laws w)
        (λ state d l. (
          rw (sym v) (agreed w.files.snapshots.current state l.agrees),
          inl (holds C d.snapshots.current l.contents state l.changed l.current l.decoded),
        ))
        (λ d e. ap (state_in C) e ∙ v)

  found-LoadsIn :
      ReadsBack C
      → (before : Option AppState) (found : Bool) (w : World) → FailsIn before w.files
      → (found ≡ false → before ≡ none)
      → After (LoadsIn before) (FailsIn before) (load_or_empty C found w)
  unfolding load_or_empty LoadsIn FailsIn
  found-LoadsIn laws before false w v none_kept =
      let e = none_kept refl in record { leaves = (inl e, inr (refl, e, v ∙ e)) }
  found-LoadsIn laws before true w v none_kept = load-LoadsIn laws before w v

  absent : (contents : Option Bytes) → is_some contents ≡ false → state_in C contents ≡ none
  absent none h = refl
  absent (some b) h = cc

  looked-FailsIn :
      (before : Option AppState) (w : World)
      → FailsIn before w.files
      → After
          (λ found d. FailsIn before d × (found ≡ false → before ≡ none))
          (FailsIn before)
          (has_snapshot_or_backup C w)
  unfolding has_snapshot_or_backup FailsIn snapshot
  looked-FailsIn before w v =
      let s = w.files.snapshots in
      let still =
        λ (d : Files) (e : Stands s d). ap (λ (x : Snapshots). state_in C x.current) e ∙ v in
      continue-After _ _ (After-imp _ (try_exists-Stands File.current s w refl) (λ _ d e. e) still)
        (λ current w1 h1.
          continue-After _ _
            (After-imp _ (try_exists-Stands File.backup s w1 h1.0) (λ _ d e. e.0) still)
            (λ backup w2 h2. record {
              leaves = (
                still w2.files h2,
                λ no. sym v ∙ absent s.current (sym h1.1 ∙ neither current backup no),
              );
            }))
    where
      neither : (a b : Bool) → (a || b) ≡ false → a ≡ false
      neither a b h = ground arith

  returned :
      (before : Option AppState) (r : Result AppState StateStoreError × World)
      → After (LoadsIn before) (FailsIn before) r
      → Loads before (forget_error r).0 (kept C (forget_error r).1)
  unfolding forget_error LoadsIn FailsIn
  returned before (ok s, w) h = h.leaves
  returned before (err e, w) h = h.leaves

  load_state-Loads :
      ReadsBack C
      → (w : World)
      → Loads
          (kept C w)
          (forget_error (load_state C w)).0
          (kept C (forget_error (load_state C w)).1)
  unfolding load_state FailsIn
  load_state-Loads laws w = returned (kept C w) (load_state C w) (
      continue-After _ _ (looked-FailsIn (kept C w) w refl)
        (λ found w1 h1. found-LoadsIn laws (kept C w) found w1 h1.0 h1.1))

  -- The snapshot store serves the manager, whatever calls of the file system fail: after a save that
  -- succeeds the state file decodes to the state, after one that fails to what it did before. A load
  -- that returns a state returns the one that the state file decoded to, if it did to one, and leaves
  -- a state file that decodes to what it returns, but for the empty state where it decodes to none
  -- before and after; after a load that fails the state file decodes to what it did before. It is
  -- supposed that serde reads back what it writes.
  pub snapshot_store-Serves : ReadsBack C → Serves (snapshot_store C) (kept C)
  unfolding snapshot_store
  snapshot_store-Serves laws = record {
    keeps = snapshot_store-KeepsState C laws;
    loads = load_state-Loads laws;
  }
