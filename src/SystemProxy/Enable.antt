-- ===== src/SystemProxy/Enable.antt =====
-- `enable` of src-tauri/src/platform/windows/system_proxy.rs: what its results prove.
use veyra.Base.{
  ◌≡◌, ◌⊎◌, inl, inr, refl, sym, ap, ◌∙◌, subst, Option, none, Bool, true, false, not, Result, ok,
  err, Bool-cases, arith,
}
use veyra.SystemProxy.{
  ProxySnapshot, ProxyRecoveryRecord, RecoveryPhase, SystemProxyPort, ProxyRecoveryStore,
  SystemProxyError, SystemProxyEnableError, Inner, Action, with_error, on_store, read_current,
  write_and_notify, clear_record, semantically_equals, prove_enable_unapplied, report_unapplied,
  compensate, verify_enable, after_write, enable,
}
use veyra.SystemProxy.Actions.{
  bind_ok, bind_err, with_error_err, mapped_err, pair_path, ReadsSetting, KeepsRecord, IsSame,
  read_current_err, read_with_ok, clear_record_ok, err_not_ok, read_current_err,
}

pub not-false : (b : Bool) → not b ≡ false → b ≡ true
not-false true h = refl
not-false false h = cc

not_both :
    (x e : SystemProxyError)
    → ◌≡◌ {A = Result (Unit {0}) SystemProxyEnableError}
        (err (SystemProxyEnableError.state_uncertain x))
        (err (SystemProxyEnableError.safely_unapplied e))
    → ⊥
not_both x e h = ground arith

not_equal :
    (e : SystemProxyError)
    → ◌≡◌ {A = SystemProxyEnableError}
        (SystemProxyEnableError.state_uncertain SystemProxyError.recovery_store)
        (SystemProxyEnableError.safely_unapplied e)
    → ⊥
not_equal e h = ground arith

module _ {Os Disk : Type 0} (P : SystemProxyPort Os) (R : ProxyRecoveryStore Disk)
    (setting : Os → ProxySnapshot) (stored : Disk → Option ProxyRecoveryRecord)
    (reads : ReadsSetting P setting) (keeps : KeepsRecord R stored) where
  -- The original setting is back and no record is left.
  abbrev pub IsUndone : ProxySnapshot → Inner Os Disk → Type 0
  IsUndone snapshot j =
      (semantically_equals (setting j.port) snapshot ≡ true) × (stored j.recovery ≡ none)

  pub verified_clear :
      {E : Type 0} (e : E) (r : ProxySnapshot) (v : ProxySnapshot) (i j : Inner Os Disk)
      → v ≡ setting i.port
      → semantically_equals v r ≡ true
      → clear_record P R e i ≡ (ok tt, j)
      → IsUndone r j
  verified_clear e r v i j p q h =
      let (a, b) = clear_record_ok P R setting stored reads keeps e i j h in
      (subst (λ k. semantically_equals k r ≡ true) (p ∙ sym a) q, b)

  prove_ok :
      (r : ProxyRecoveryRecord) (i j : Inner Os Disk)
      → prove_enable_unapplied P R r i ≡ (ok tt, j)
      → IsUndone r.snapshot j
  unfolding prove_enable_unapplied
  prove_ok r i j h =
      let (v, s, a, b) =
        bind_ok (with_error (read_current P R) SystemProxyEnableError.state_uncertain) _ i tt j h in
      let (p, q, _) =
        read_with_ok P R setting stored reads keeps SystemProxyEnableError.state_uncertain i v s
          a in
      elim (Bool-cases (semantically_equals v r.snapshot)) [
        | inl same ↦ verified_clear _ r.snapshot v s j (p ∙ sym q) same (rw same at b)
        | inr other ↦ elim (Bool-cases (semantically_equals r.managed v)) [
          | inr foreign ↦ absurd (err_not_ok _ s tt j (rw (other, foreign) at b))
          | inl ours ↦
              let c = rw (other, ours) at b in
              let (_, t, _, d) =
                bind_ok
                  (with_error (write_and_notify P R r.snapshot)
                    SystemProxyEnableError.state_uncertain)
                  _ s tt j c in
              let (w, u, e, f) =
                bind_ok (with_error (read_current P R) SystemProxyEnableError.state_uncertain) _ t
                  tt j d in
              let (x, y, _) =
                read_with_ok P R setting stored reads keeps SystemProxyEnableError.state_uncertain t
                  w u e in
              elim (Bool-cases (semantically_equals w r.snapshot)) [
                | inl back ↦ verified_clear _ r.snapshot w u j (x ∙ sym y) back (rw back at f)
                | inr lost ↦ absurd (err_not_ok _ u tt j (rw lost at f))
              ]
        ]
      ]

  report_lem :
      (x e : SystemProxyError) (r : ProxySnapshot) (j : Inner Os Disk)
      (o : Result (Unit {0}) SystemProxyEnableError × Inner Os Disk)
      → ((k : Inner Os Disk) → o ≡ (ok tt, k) → IsUndone r k)
      → report_unapplied P R x o ≡ (err (SystemProxyEnableError.safely_unapplied e), j)
      → IsUndone r j
  unfolding report_unapplied
  report_lem x e r j (ok _, k) p h =
      subst (IsUndone r)
        (ap (λ (w : Result (Unit {0}) SystemProxyEnableError × Inner Os Disk). w.1) h) (p k refl)
  report_lem x e r j (err _, k) p h =
      absurd (
        not_both x e (ap (λ (w : Result (Unit {0}) SystemProxyEnableError × Inner Os Disk). w.0) h))

  -- A failure that is compensated for reports `SafelyUnapplied` only when the setting is back.
  compensate_lem :
      (x e : SystemProxyError) (r : ProxyRecoveryRecord) (i j : Inner Os Disk)
      → compensate P R x r i ≡ (err (SystemProxyEnableError.safely_unapplied e), j)
      → IsUndone r.snapshot j
  unfolding compensate
  compensate_lem x e r i j h =
      report_lem x e r.snapshot j (prove_enable_unapplied P R r i) (λ k p. prove_ok r i k p) h

  uncertain_lem :
      {A : Type 0} (m : Action (Inner Os Disk) SystemProxyError A) (i j : Inner Os Disk)
      (e : SystemProxyError)
      → with_error m SystemProxyEnableError.state_uncertain i
        ≡ (err (SystemProxyEnableError.safely_unapplied e), j)
      → ⊥
  uncertain_lem m i j e h =
      let (x, _, p, _) =
        with_error_err m SystemProxyEnableError.state_uncertain i
          (SystemProxyEnableError.safely_unapplied e) j h in
      ground arith

  save_lem :
      (r : ProxyRecoveryRecord) (i j : Inner Os Disk) (e : SystemProxyError)
      → on_store P R
          (with_error
            (R.save r)
            (λ _. SystemProxyEnableError.state_uncertain SystemProxyError.recovery_store))
          i
        ≡ (err (SystemProxyEnableError.safely_unapplied e), j)
      → ⊥
  save_lem r i j e h =
      let disk = (R.save r i.recovery).1 in
      let (_, _, p, _) =
        mapped_err (R.save r i.recovery).0 (record i { recovery = disk })
          (λ _. SystemProxyEnableError.state_uncertain SystemProxyError.recovery_store)
          (SystemProxyEnableError.safely_unapplied e) j h in
      not_equal e p

  verify_lem :
      (r : ProxyRecoveryRecord) (i j : Inner Os Disk) (e : SystemProxyError)
      → verify_enable P R r i ≡ (err (SystemProxyEnableError.safely_unapplied e), j)
      → IsUndone r.snapshot j
  unfolding verify_enable
  verify_lem r i j e h =
      elim (bind_err (with_error (read_current P R) SystemProxyEnableError.state_uncertain) _ i
        (SystemProxyEnableError.safely_unapplied e) j h) [
          | inl a ↦ absurd (uncertain_lem (read_current P R) i j e a)
          | inr (v, s, a, b) ↦ elim (Bool-cases (semantically_equals r.managed v)) [
            | inl same ↦
                absurd (save_lem (record r { phase = RecoveryPhase.stable }) s j e (rw same at b))
            | inr other ↦ compensate_lem SystemProxyError.verification e r s j (rw other at b)
          ]
        ]

  written_lem :
      (r : ProxyRecoveryRecord) (j : Inner Os Disk) (e : SystemProxyError)
      (o : Result (Unit {0}) SystemProxyError × Inner Os Disk)
      → after_write P R r o ≡ (err (SystemProxyEnableError.safely_unapplied e), j)
      → IsUndone r.snapshot j
  unfolding after_write
  written_lem r j e (err x, i) h = compensate_lem x e r i j h
  written_lem r j e (ok _, i) h = verify_lem r i j e h

  -- What `SafelyUnapplied` proves of an `enable` from i to j: the setting and the record are as
  -- before, or the setting means what it meant before and no record is left.
  abbrev pub IsUnapplied : Inner Os Disk → Inner Os Disk → Type 0
  IsUnapplied i j = IsSame P R setting stored reads keeps i j ⊎ IsUndone (setting i.port) j

  IsSame-err :
      (r : ProxyRecoveryRecord) (i j : Inner Os Disk) (e : SystemProxyEnableError)
      → on_store P R
          (with_error
            (R.save r)
            (λ _. SystemProxyEnableError.safely_unapplied SystemProxyError.recovery_store))
          i
        ≡ (err e, j)
      → IsSame P R setting stored reads keeps i j
  IsSame-err r i j e h =
      let disk = (R.save r i.recovery).1 in
      let (x, a, _, b) =
        mapped_err (R.save r i.recovery).0 (record i { recovery = disk })
          (λ _. SystemProxyEnableError.safely_unapplied SystemProxyError.recovery_store) e j h in
      (
        ap (λ (k : Inner Os Disk). setting k.port) (sym b),
        ap (λ (k : Inner Os Disk). stored k.recovery) (sym b) ∙ keeps.save_err r i.recovery x a,
      )

  -- An `enable` that reports `SafelyUnapplied` has changed neither the proxy setting nor the stored
  -- record, or has brought back a setting that means the same and cleared the record. It is assumed
  -- that reads are truthful and that the store keeps what it was told.
  pub enable-IsUnapplied :
      (intended : ProxySnapshot) (i j : Inner Os Disk) (e : SystemProxyError)
      → enable P R intended i ≡ (err (SystemProxyEnableError.safely_unapplied e), j)
      → IsUnapplied i j
  unfolding enable
  enable-IsUnapplied intended i j e h =
      elim (bind_err (with_error (read_current P R) SystemProxyEnableError.safely_unapplied) _ i
        (SystemProxyEnableError.safely_unapplied e) j h) [
          | inl a ↦
              let (x, p, _, q) =
                with_error_err (read_current P R) SystemProxyEnableError.safely_unapplied i
                  (SystemProxyEnableError.safely_unapplied e) j a in
              inl (
                read_current_err P R setting stored reads keeps i x j
                  (pair_path (read_current P R i) p q))
          | inr (v, s, a, b) ↦
              let (p, q, w) =
                read_with_ok P R setting stored reads keeps SystemProxyEnableError.safely_unapplied
                  i v s a in
              elim (bind_err
                (on_store P R (
                  with_error
                    (R.save (record {
                      phase = RecoveryPhase.transitioning;
                      snapshot = v;
                      managed = intended;
                    }))
                    (λ _. SystemProxyEnableError.safely_unapplied SystemProxyError.recovery_store)))
                _ s (SystemProxyEnableError.safely_unapplied e) j b) [
                  | inl c ↦
                      let (x, y) = IsSame-err _ s j (SystemProxyEnableError.safely_unapplied e) c in
                      inl (x ∙ q, y ∙ w)
                  | inr (_, t, _, d) ↦ inr (
                      subst (λ k. IsUndone k j) p
                        (written_lem _ j e (write_and_notify P R intended t) d))
                ]
        ]
