-- ===== src/SystemProxy/Restore.antt =====
-- `enable` followed by `restore` (src-tauri/src/platform/windows/system_proxy.rs): what a success of
-- either has done.
use veyra.Base.{
  ◌≡◌, inl, inr, sym, ap, ◌∙◌, subst, Option, some, true, Result, ok, err, Bool-cases, arith,
}
use veyra.SystemProxy.{
  ProxySnapshot, ProxyRecoveryRecord, RecoveryPhase, SystemProxyPort, ProxyRecoveryStore,
  SystemProxyError, SystemProxyEnableError, Inner, done, with_error, on_store, read_current,
  write_and_notify, semantically_equals, report_unapplied, prove_enable_unapplied, compensate,
  verify_enable, after_write, enable,
}
use veyra.SystemProxy.Actions.{
  bind_ok, mapped_ok, ReadsSetting, KeepsRecord, read_with_ok, err_not_ok,
}

module _ {S E A : Type 0} where
  -- A success ends with the value that was returned.
  pub done_ok : (a b : A) (s t : S) → done {E = E} a s ≡ (ok b, t) → (a ≡ b) × (s ≡ t)
  done_ok a b s t h = ground arith

module _ {Os Disk : Type 0} (P : SystemProxyPort Os) (R : ProxyRecoveryStore Disk)
    (setting : Os → ProxySnapshot) (stored : Disk → Option ProxyRecoveryRecord)
    (reads : ReadsSetting P setting) (keeps : KeepsRecord R stored) where
  -- The managed proxy is set, and the record to undo it is on disk in its stable phase.
  abbrev pub IsEnabled : ProxySnapshot → ProxySnapshot → Inner Os Disk → Type 0
  IsEnabled original intended j =
      (semantically_equals intended (setting j.port) ≡ true)
      × (stored j.recovery
          ≡ some (record { phase = RecoveryPhase.stable; snapshot = original; managed = intended }))

  compensate_fails :
      (x : SystemProxyError) (o : Result (Unit {0}) SystemProxyEnableError × Inner Os Disk)
      (j : Inner Os Disk)
      → report_unapplied P R x o ≡ (ok tt, j)
      → ⊥
  unfolding report_unapplied
  compensate_fails x (ok _, k) j h = err_not_ok _ k tt j h
  compensate_fails x (err _, k) j h = err_not_ok _ k tt j h

  save_ok_lem :
      (r : ProxyRecoveryRecord) (e : SystemProxyEnableError) (i j : Inner Os Disk)
      → on_store P R (with_error (R.save r) (λ _. e)) i ≡ (ok tt, j)
      → (setting j.port ≡ setting i.port) × (stored j.recovery ≡ some r)
  save_ok_lem r e i j h =
      let disk = (R.save r i.recovery).1 in
      let (a, b) =
        mapped_ok (R.save r i.recovery).0 (record i { recovery = disk }) (λ _. e) tt j h in
      (
        ap (λ (k : Inner Os Disk). setting k.port) (sym b),
        ap (λ (k : Inner Os Disk). stored k.recovery) (sym b) ∙ keeps.save_ok r i.recovery a,
      )

  verify_ok :
      (r : ProxyRecoveryRecord) (i j : Inner Os Disk)
      → verify_enable P R r i ≡ (ok tt, j)
      → IsEnabled r.snapshot r.managed j
  unfolding verify_enable compensate
  verify_ok r i j h =
      let (v, s, a, b) =
        bind_ok (with_error (read_current P R) SystemProxyEnableError.state_uncertain) _ i tt j h in
      let (p, q, _) =
        read_with_ok P R setting stored reads keeps SystemProxyEnableError.state_uncertain i v s
          a in
      elim (Bool-cases (semantically_equals r.managed v)) [
        | inr other ↦ absurd (
            compensate_fails SystemProxyError.verification (prove_enable_unapplied P R r s) j
              (rw other at b))
        | inl same ↦
            let (c, d) =
              save_ok_lem (record r { phase = RecoveryPhase.stable }) _ s j (rw same at b) in
            (subst (λ k. semantically_equals r.managed k ≡ true) (p ∙ sym q ∙ sym c) same, d)
      ]

  written_ok :
      (r : ProxyRecoveryRecord) (j : Inner Os Disk)
      (o : Result (Unit {0}) SystemProxyError × Inner Os Disk)
      → after_write P R r o ≡ (ok tt, j)
      → IsEnabled r.snapshot r.managed j
  unfolding after_write compensate
  written_ok r j (err x, i) h = absurd (compensate_fails x (prove_enable_unapplied P R r i) j h)
  written_ok r j (ok _, i) h = verify_ok r i j h

  -- An `enable` that succeeds has left a setting that means the intended one, and a stored stable
  -- record with the original setting. It is assumed that reads are truthful and that the store
  -- keeps what it was told.
  pub enable-IsEnabled :
      (intended : ProxySnapshot) (i j : Inner Os Disk)
      → enable P R intended i ≡ (ok tt, j)
      → IsEnabled (setting i.port) intended j
  unfolding enable
  enable-IsEnabled intended i j h =
      let (v, s, a, b) =
        bind_ok (with_error (read_current P R) SystemProxyEnableError.safely_unapplied) _ i tt j
          h in
      let (p, _, _) =
        read_with_ok P R setting stored reads keeps SystemProxyEnableError.safely_unapplied i v s
          a in
      let (_, t, _, d) =
        bind_ok
          (on_store P R (
            with_error
              (R.save
                (record { phase = RecoveryPhase.transitioning; snapshot = v; managed = intended }))
              (λ _. SystemProxyEnableError.safely_unapplied SystemProxyError.recovery_store)))
          _ s tt j b in
      subst (λ k. IsEnabled k intended j) p (written_ok _ j (write_and_notify P R intended t) d)
