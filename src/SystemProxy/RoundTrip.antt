-- ===== src/SystemProxy/RoundTrip.antt =====
-- The outcomes of `restore` (src-tauri/src/platform/windows/system_proxy.rs), and the way back from
-- an `enable`.
use veyra.Base.{
  ◌≡◌, refl, sym, ap, ◌∙◌, subst, Option, none, some, true, false, ok, Bool-cases, inl, inr, arith,
}
use veyra.SystemProxy.{
  ProxySnapshot, ProxyRecoveryRecord, RecoveryPhase, SystemProxyPort, ProxyRecoveryStore,
  SystemProxyError, SystemProxyRestoreOutcome, Inner, ◌>>◌, done, with_error, on_store,
  read_current, write_and_notify, clear_record, semantically_equals, enable,
  rollback_if_still_managed, restore_record, restore,
}
use veyra.SystemProxy.Actions.{
  bind_ok, mapped_ok, ReadsSetting, KeepsRecord, IsSame, read_current_ok, clear_record_ok,
  err_not_ok,
}
use veyra.SystemProxy.Enable.{IsUndone}
use veyra.SystemProxy.Restore.{enable-IsEnabled, done_ok}

some_path : (r s : ProxyRecoveryRecord) → some r ≡ some s → r ≡ s
some_path r s h = ground arith

true-false : true ≡ false → ⊥
true-false h = ground arith

none-some : (r : ProxyRecoveryRecord) → none ≡ some r → ⊥
none-some r h = ground arith

module _ {Os Disk : Type 0} (P : SystemProxyPort Os) (R : ProxyRecoveryStore Disk)
    (setting : Os → ProxySnapshot) (stored : Disk → Option ProxyRecoveryRecord)
    (reads : ReadsSetting P setting) (keeps : KeepsRecord R stored) where
  -- What an outcome of `restore` from i to j says, by the record that was stored.
  abbrev pub IsRestored :
      Option ProxyRecoveryRecord
      → SystemProxyRestoreOutcome
      → Inner Os Disk
      → Inner Os Disk
      → Type 0
  IsRestored none SystemProxyRestoreOutcome.not_managed i j =
      IsSame P R setting stored reads keeps i j
  IsRestored (some r) SystemProxyRestoreOutcome.restored i j =
      (semantically_equals r.managed (setting i.port) ≡ true)
      × (semantically_equals (setting j.port) r.snapshot ≡ true)
      × (stored j.recovery ≡ none)
  IsRestored (some r) SystemProxyRestoreOutcome.user_modified i j =
      (semantically_equals r.managed (setting i.port) ≡ false)
      × IsSame P R setting stored reads keeps i j
  IsRestored _ _ i j = ⊥

  finish_rollback :
      (r : ProxyRecoveryRecord) (u : Inner Os Disk) (o : SystemProxyRestoreOutcome)
      (j : Inner Os Disk) (v : ProxySnapshot)
      → v ≡ setting u.port
      → semantically_equals v r.snapshot ≡ true
      → (clear_record P R SystemProxyError.recovery_store
            >> done SystemProxyRestoreOutcome.restored)
          u
        ≡ (ok o, j)
      → (SystemProxyRestoreOutcome.restored ≡ o)
        × (semantically_equals (setting j.port) r.snapshot ≡ true)
        × (stored j.recovery ≡ none)
  finish_rollback r u o j v p q h =
      let (_, w, a, b) =
        bind_ok (clear_record P R SystemProxyError.recovery_store)
          (λ _. done SystemProxyRestoreOutcome.restored) u o j h in
      let (c, d) =
        clear_record_ok P R setting stored reads keeps SystemProxyError.recovery_store u w a in
      let (x, y) = done_ok SystemProxyRestoreOutcome.restored o w j b in
      (
        x,
        subst (λ (k : Inner Os Disk). semantically_equals (setting k.port) r.snapshot ≡ true) y
            (subst (λ k. semantically_equals k r.snapshot ≡ true) (p ∙ sym c) q),
        subst (λ (k : Inner Os Disk). stored k.recovery ≡ none) y d,
      )

  rollback_lem :
      (r : ProxyRecoveryRecord) (i : Inner Os Disk) (o : SystemProxyRestoreOutcome)
      (j : Inner Os Disk)
      → rollback_if_still_managed P R r i ≡ (ok o, j)
      → IsRestored (some r) o i j
  unfolding rollback_if_still_managed
  rollback_lem r i o j h =
      let (v, s, a, b) = bind_ok (read_current P R) _ i o j h in
      let (p, q, e) = read_current_ok P R setting stored reads keeps i v s a in
      elim (Bool-cases (semantically_equals r.managed v)) [
        | inr foreign ↦
            let (x, y) = done_ok SystemProxyRestoreOutcome.user_modified o s j (rw foreign at b) in
            subst (λ k. IsRestored (some r) k i j) x
              (subst (λ k. IsRestored (some r) SystemProxyRestoreOutcome.user_modified i k) y
                (subst (λ k. semantically_equals r.managed k ≡ false) p foreign, (q, e)))
        | inl ours ↦
            let c = rw ours at b in
            let (_, t, _, d) = bind_ok (write_and_notify P R r.snapshot) _ s o j c in
            let (w, u, f, g) = bind_ok (read_current P R) _ t o j d in
            let (m, n, _) = read_current_ok P R setting stored reads keeps t w u f in
            elim (Bool-cases (semantically_equals w r.snapshot)) [
              | inr lost ↦ absurd (err_not_ok _ u o j (rw lost at g))
              | inl back ↦
                  let (x, y, z) = finish_rollback r u o j w (m ∙ sym n) back (rw back at g) in
                  subst (λ k. IsRestored (some r) k i j) x
                    (subst (λ k. semantically_equals r.managed k ≡ true) p ours, y, z)
            ]
      ]

  record_lem :
      (r : Option ProxyRecoveryRecord) (i : Inner Os Disk) (o : SystemProxyRestoreOutcome)
      (j : Inner Os Disk)
      → restore_record P R r i ≡ (ok o, j)
      → IsRestored r o i j
  unfolding restore_record
  record_lem (some r) i o j h = rollback_lem r i o j h
  record_lem none i o j h =
      let (x, y) = done_ok SystemProxyRestoreOutcome.not_managed o i j h in
      subst (λ k. IsRestored none k i j) x
        (
          ap (λ (k : Inner Os Disk). setting k.port) (sym y),
          ap (λ (k : Inner Os Disk). stored k.recovery) (sym y),
        )

  -- The same outcome, from a state whose setting and record are the same.
  moved :
      (r : Option ProxyRecoveryRecord) (o : SystemProxyRestoreOutcome) (i s j : Inner Os Disk)
      → IsSame P R setting stored reads keeps i s
      → IsRestored r o s j
      → IsRestored r o i j
  moved none SystemProxyRestoreOutcome.not_managed i s j (p, q) (a, b) = (a ∙ p, b ∙ q)
  moved (some r) SystemProxyRestoreOutcome.restored i s j (p, q) (a, b, c) =
      (subst (λ k. semantically_equals r.managed k ≡ true) p a, b, c)
  moved (some r) SystemProxyRestoreOutcome.user_modified i s j (p, q) (a, (b, c)) =
      (subst (λ k. semantically_equals r.managed k ≡ false) p a, (b ∙ p, c ∙ q))
  moved none SystemProxyRestoreOutcome.restored i s j p h = h
  moved none SystemProxyRestoreOutcome.user_modified i s j p h = h
  moved (some r) SystemProxyRestoreOutcome.not_managed i s j p h = h

  -- A `restore` that succeeds says what it did: without a record, nothing; with a record whose managed
  -- setting is no longer the current one, nothing; and otherwise the original setting, up to
  -- meaning, is back and the record is cleared. It is assumed that reads are truthful and that the
  -- store keeps what it was told.
  pub restore-IsRestored :
      (i : Inner Os Disk) (o : SystemProxyRestoreOutcome) (j : Inner Os Disk)
      → restore P R i ≡ (ok o, j)
      → IsRestored (stored i.recovery) o i j
  unfolding restore
  restore-IsRestored i o j h =
      let (r, s, a, b) =
        bind_ok (on_store P R (with_error R.load (λ _. SystemProxyError.recovery_store)))
          (restore_record P R) i o j h in
      let disk = (R.load i.recovery).1 in
      let (c, d) =
        mapped_ok (R.load i.recovery).0 (record i { recovery = disk })
          (λ _. SystemProxyError.recovery_store) r s a in
      let same : IsSame P R setting stored reads keeps i s = (
        ap (λ (k : Inner Os Disk). setting k.port) (sym d),
        ap (λ (k : Inner Os Disk). stored k.recovery) (sym d) ∙ keeps.load_keeps i.recovery,
      ) in
      subst (λ k. IsRestored k o i j) (keeps.load_ok i.recovery r c)
        (moved r o i s j same (record_lem r s o j b))

  enabled_restored :
      (r : Option ProxyRecoveryRecord) (original intended : ProxySnapshot)
      (o : SystemProxyRestoreOutcome) (j k : Inner Os Disk)
      → r ≡ some (record { phase = RecoveryPhase.stable; snapshot = original; managed = intended })
      → semantically_equals intended (setting j.port) ≡ true
      → IsRestored r o j k
      → (o ≡ SystemProxyRestoreOutcome.restored)
        × IsUndone P R setting stored reads keeps original k
  enabled_restored (some r) original intended SystemProxyRestoreOutcome.restored j k p q h =
      let e = some_path r _ p in
      (
        refl,
        (
          subst
              (λ (x : ProxyRecoveryRecord). semantically_equals (setting k.port) x.snapshot ≡ true)
              e h.1,
          h.2,
        ),
      )
  enabled_restored (some r) original intended SystemProxyRestoreOutcome.user_modified j k p q h =
      let e = some_path r _ p in
      absurd (
        true-false (
          sym q
          ∙ ap (λ (x : ProxyRecoveryRecord). semantically_equals x.managed (setting j.port)) (sym e)
          ∙ h.0))
  enabled_restored (some r) original intended SystemProxyRestoreOutcome.not_managed j k p q h =
      absurd h
  enabled_restored none original intended SystemProxyRestoreOutcome.restored j k p q h = absurd h
  enabled_restored none original intended SystemProxyRestoreOutcome.user_modified j k p q h =
      absurd h
  enabled_restored none original intended SystemProxyRestoreOutcome.not_managed j k p q h =
      absurd (none-some _ p)

  -- An `enable` that succeeds, followed by a `restore` that succeeds, reports Restored, leaves a
  -- setting that means the one before, and no record. It is assumed that reads are truthful and that
  -- the store keeps what it was told.
  pub restore-enable :
      (intended : ProxySnapshot) (i j : Inner Os Disk) (o : SystemProxyRestoreOutcome)
      (k : Inner Os Disk)
      → enable P R intended i ≡ (ok tt, j)
      → restore P R j ≡ (ok o, k)
      → (o ≡ SystemProxyRestoreOutcome.restored)
        × IsUndone P R setting stored reads keeps (setting i.port) k
  restore-enable intended i j o k h g =
      let (a, b) = enable-IsEnabled P R setting stored reads keeps intended i j h in
      enabled_restored (stored j.recovery) (setting i.port) intended o j k b a
        (restore-IsRestored j o k g)
