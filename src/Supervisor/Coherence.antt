-- ===== src/Supervisor/Coherence.antt =====
-- The capture mode of src-tauri/src/application/runtime.rs tells the truth about the sidecar and the
-- system proxy.
use veyra.Base.{
  ℕ, ◌≡◌, sym, ap, ◌∙◌, refl, subst, Option, none, some, Bool, false, Result, ok, err, List, [],
  ◌∷◌, arith,
}
use veyra.Sidecar.{
  SidecarPort, SidecarRuntime, SidecarLifecycle, SidecarError, snapshot, lifecycle_of, mixed_port,
  start_or_replace, stop,
}
use veyra.Sidecar.Outcomes.{Ensures, start_or_replace-Ensures, start-mixed_port, Stops, stop-Stops}
use veyra.SystemProxy.{
  SystemProxyError, SystemProxyEnableError, SystemProxyRestoreOutcome, SystemProxyController,
}
use veyra.Supervisor.{
  CaptureMode, Compiler, Supervisor, build, settle_start, start_sidecar,
  stop_sidecar_or_require_recovery, refuse, turn_off, settle_enable, enable_after_start,
  activate_from_off, report_reconfigured, reconfigure, activate_in, activate_system_proxy,
  settle_restore, deactivate_in, deactivate_system_proxy, Call, activate, deactivate, step, run_all,
  RuntimeSupervisorError, DeactivateOutcome,
}

-- What the proxy controller promises: an enable that reports `SafelyUnapplied` has left no managed
-- proxy behind that was not there before, and after a restore that succeeds none is there.
pub record KeepsProxy {Proxy : Type 0} (X : SystemProxyController Proxy) (applied : Proxy → Bool)
    : Type 0 where
  pub unapplied :
      (port : ℕ) (s : Proxy) (e : SystemProxyError)
      → applied s ≡ false
      → (X.enable_loopback_proxy port s).0 ≡ err (SystemProxyEnableError.safely_unapplied e)
      → applied (X.enable_loopback_proxy port s).1 ≡ false
  pub restored :
      (s : Proxy) (o : SystemProxyRestoreOutcome)
      → (X.restore_proxy s).0 ≡ ok o
      → applied (X.restore_proxy s).1 ≡ false

module _ {Port Config Proxy : Type 0} (applied : Proxy → Bool) where
  -- Off: nothing runs and the system proxy is not the application's. System proxy: the sidecar is
  -- Ready, so that the proxy has something to talk to.
  abbrev pub CoherentIn : CaptureMode → SidecarRuntime Port Config → Proxy → Type 0
  CoherentIn CaptureMode.off r x = (lifecycle_of r ≡ SidecarLifecycle.stopped) × (applied x ≡ false)
  CoherentIn CaptureMode.system_proxy r x = lifecycle_of r ≡ SidecarLifecycle.ready
  CoherentIn CaptureMode.recovery_required r x = Unit

  abbrev pub IsCoherent : ℕ → Supervisor Port Config Proxy → Type 0
  IsCoherent port s = CoherentIn s.mode s.sidecar s.proxy × (s.sidecar.mixed_port ≡ some port)

module _ {Port Config Proxy Plan Secret : Type 0} (P : SidecarPort Port Config)
    (X : SystemProxyController Proxy) (C : Compiler Plan Config Secret) (applied : Proxy → Bool)
    (laws : KeepsProxy X applied) (port : ℕ) where
  -- After a start from Off: an error is coherent; a success has the sidecar Ready, with its port.
  abbrev StartedOff :
      Supervisor Port Config Proxy
      → Result ℕ RuntimeSupervisorError × Supervisor Port Config Proxy
      → Type 0
  StartedOff s (err _, s') = IsCoherent applied port s'
  StartedOff s (ok _, s') =
      (s'.mode ≡ CaptureMode.off)
      × (lifecycle_of s'.sidecar ≡ SidecarLifecycle.ready)
      × (applied s'.proxy ≡ false)
      × (s'.sidecar.mixed_port ≡ some port)

  settle_start_off :
      (c : Config) (s : Supervisor Port Config Proxy)
      (o : Result (Unit {0}) SidecarError × SidecarRuntime Port Config)
      → Ensures P c s.sidecar o
      → s.mode ≡ CaptureMode.off
      → lifecycle_of s.sidecar ≡ SidecarLifecycle.stopped
      → applied s.proxy ≡ false
      → o.1.mixed_port ≡ some port
      → StartedOff s (settle_start P X C o s)
  unfolding settle_start lifecycle_of mixed_port
  settle_start_off c s (ok _, r) e m l a p = ground arith
  settle_start_off c s (err SidecarError.candidate_check, r) e m l a p = ground arith
  settle_start_off c s (err _, r) e m l a p = ground arith

  settle_start_on :
      (c : Config) (s : Supervisor Port Config Proxy)
      (o : Result (Unit {0}) SidecarError × SidecarRuntime Port Config)
      → Ensures P c s.sidecar o
      → s.mode ≡ CaptureMode.system_proxy
      → o.1.mixed_port ≡ some port
      → IsCoherent applied port (settle_start P X C o s).1
  unfolding settle_start lifecycle_of snapshot
  settle_start_on c s (ok _, r) e m p = ground arith
  settle_start_on c s (err SidecarError.candidate_check, r) e m p = ground arith
  settle_start_on c s (err _, r) e m p = ground arith

  start_off :
      (built : Option Config) (s : Supervisor Port Config Proxy)
      → s.mode ≡ CaptureMode.off
      → IsCoherent applied port s
      → StartedOff s (start_sidecar P X C built s)
  unfolding start_sidecar
  start_off none s m v = v
  start_off (some c) s m v =
      let (l, a) = subst (λ k. CoherentIn applied k s.sidecar s.proxy) m v.0 in
      settle_start_off c s (start_or_replace P c s.sidecar) (start_or_replace-Ensures P c s.sidecar)
        m l a (start-mixed_port P c s.sidecar ∙ v.1)

  start_on :
      (built : Option Config) (s : Supervisor Port Config Proxy)
      → s.mode ≡ CaptureMode.system_proxy
      → IsCoherent applied port s
      → IsCoherent applied port (start_sidecar P X C built s).1
  unfolding start_sidecar
  start_on none s m v = v
  start_on (some c) s m v =
      settle_start_on c s (start_or_replace P c s.sidecar) (start_or_replace-Ensures P c s.sidecar)
        m (start-mixed_port P c s.sidecar ∙ v.1)

  -- A stop of the sidecar while no managed proxy is applied, or before the mode is set to Off.
  StoppedIn :
      Supervisor Port Config Proxy
      → Result (Unit {0}) RuntimeSupervisorError × Supervisor Port Config Proxy
      → Type 0
  StoppedIn s (ok _, s') =
      (lifecycle_of s'.sidecar ≡ SidecarLifecycle.stopped)
      × (s'.proxy ≡ s.proxy)
      × (s'.mode ≡ s.mode)
      × (s'.sidecar.mixed_port ≡ s.sidecar.mixed_port)
  StoppedIn s (err _, s') =
      (s'.mode ≡ CaptureMode.recovery_required) × (s'.sidecar.mixed_port ≡ s.sidecar.mixed_port)

  stop_after :
      (s : Supervisor Port Config Proxy)
      (o : Result (Unit {0}) SidecarError × SidecarRuntime Port Config)
      → Stops P s.sidecar o
      → stop P s.sidecar ≡ o
      → StoppedIn s (stop_sidecar_or_require_recovery P X C s)
  unfolding stop_sidecar_or_require_recovery StoppedIn
  stop_after s (ok _, r) h e = rw (e, stop_sidecar_or_require_recovery) (h.0, refl, refl, h.2)
  stop_after s (err _, r) h e = rw (e, stop_sidecar_or_require_recovery) (refl, h.1)

  stop_lem :
      (s : Supervisor Port Config Proxy) → StoppedIn s (stop_sidecar_or_require_recovery P X C s)
  stop_lem s = stop_after s (stop P s.sidecar) (stop-Stops P s.sidecar) refl

  -- The state that a safe refusal leaves once the sidecar is stopped.
  refused :
      (s : Supervisor Port Config Proxy)
      (o : Result (Unit {0}) RuntimeSupervisorError × Supervisor Port Config Proxy)
      → StoppedIn s o
      → s.mode ≡ CaptureMode.off
      → applied s.proxy ≡ false
      → s.sidecar.mixed_port ≡ some port
      → IsCoherent applied port o.1
  unfolding StoppedIn
  refused s (ok _, s') h m a p = (
    subst (λ k. CoherentIn applied k s'.sidecar s'.proxy) (sym (h.2 ∙ m)) (h.0, ap applied h.1 ∙ a),
    h.3 ∙ p,
  )
  refused s (err _, s') h m a p =
      (subst (λ k. CoherentIn applied k s'.sidecar s'.proxy) (sym h.0) tt, h.1 ∙ p)

  refuse-IsCoherent :
      (o : Result (Unit {0}) RuntimeSupervisorError × Supervisor Port Config Proxy)
      → IsCoherent applied port o.1
      → IsCoherent applied port (refuse P X C o).1
  unfolding refuse
  refuse-IsCoherent (ok _, s') v = v
  refuse-IsCoherent (err _, s') v = v

  settle_enable-IsCoherent :
      (r : Result (Unit {0}) SystemProxyEnableError) (s : Supervisor Port Config Proxy)
      → s.mode ≡ CaptureMode.off
      → lifecycle_of s.sidecar ≡ SidecarLifecycle.ready
      → ((e : SystemProxyError)
          → r ≡ err (SystemProxyEnableError.safely_unapplied e)
          → applied s.proxy ≡ false)
      → s.sidecar.mixed_port ≡ some port
      → IsCoherent applied port (settle_enable P X C r s).1
  unfolding settle_enable
  settle_enable-IsCoherent (ok _) s m l a p = (l, p)
  settle_enable-IsCoherent (err (SystemProxyEnableError.safely_unapplied e)) s m l a p =
      refuse-IsCoherent (stop_sidecar_or_require_recovery P X C s)
        (refused s (stop_sidecar_or_require_recovery P X C s) (stop_lem s) m (a e refl) p)
  settle_enable-IsCoherent (err (SystemProxyEnableError.state_uncertain _)) s m l a p = (tt, p)

  enable-IsCoherent :
      (s : Supervisor Port Config Proxy)
      (o : Result ℕ RuntimeSupervisorError × Supervisor Port Config Proxy)
      → StartedOff s o
      → IsCoherent applied port (enable_after_start P X C o).1
  unfolding enable_after_start
  enable-IsCoherent s (err _, s') v = v
  enable-IsCoherent s (ok p, s') v =
      settle_enable-IsCoherent (X.enable_loopback_proxy p s'.proxy).0
        (record s' { proxy = (X.enable_loopback_proxy p s'.proxy).1 }) v.0 v.1
        (λ e h. laws.unapplied p s'.proxy e v.2 h) v.3

  report-IsCoherent :
      (o : Result ℕ RuntimeSupervisorError × Supervisor Port Config Proxy)
      → IsCoherent applied port o.1
      → IsCoherent applied port (report_reconfigured P X C o).1
  unfolding report_reconfigured
  report-IsCoherent (err _, s) v = v
  report-IsCoherent (ok _, s) v = v

  activate-IsCoherent :
      (m : CaptureMode) (built : Option Config) (s : Supervisor Port Config Proxy)
      → s.mode ≡ m
      → IsCoherent applied port s
      → IsCoherent applied port (activate_in P X C m built s).1
  unfolding activate_in activate_from_off reconfigure
  activate-IsCoherent CaptureMode.off built s m v =
      enable-IsCoherent s (start_sidecar P X C built s) (start_off built s m v)
  activate-IsCoherent CaptureMode.system_proxy built s m v =
      report-IsCoherent (start_sidecar P X C built s) (start_on built s m v)
  activate-IsCoherent CaptureMode.recovery_required built s m v = v

  -- After a restore that succeeded, the sidecar is stopped and the mode is set.
  turn_off-IsCoherent :
      (s : Supervisor Port Config Proxy) (d : DeactivateOutcome)
      (o : Result (Unit {0}) RuntimeSupervisorError × Supervisor Port Config Proxy)
      → StoppedIn s o
      → applied s.proxy ≡ false
      → s.sidecar.mixed_port ≡ some port
      → IsCoherent applied port (turn_off P X C d o).1
  unfolding StoppedIn turn_off
  turn_off-IsCoherent s d (ok _, s') h a p = ((h.0, ap applied h.1 ∙ a), h.3 ∙ p)
  turn_off-IsCoherent s d (err _, s') h a p =
      (subst (λ k. CoherentIn applied k s'.sidecar s'.proxy) (sym h.0) tt, h.1 ∙ p)

  settle_restore-IsCoherent :
      (r : Result SystemProxyRestoreOutcome SystemProxyError) (s : Supervisor Port Config Proxy)
      → s.mode ≡ CaptureMode.system_proxy
      → lifecycle_of s.sidecar ≡ SidecarLifecycle.ready
      → ((o : SystemProxyRestoreOutcome) → r ≡ ok o → applied s.proxy ≡ false)
      → s.sidecar.mixed_port ≡ some port
      → IsCoherent applied port (settle_restore P X C r s).1
  unfolding settle_restore
  settle_restore-IsCoherent (err _) s m l a p =
      (subst (λ k. CoherentIn applied k s.sidecar s.proxy) (sym m) l, p)
  settle_restore-IsCoherent (ok o) s m l a p =
      turn_off-IsCoherent s _ (stop_sidecar_or_require_recovery P X C s) (stop_lem s) (a o refl) p

  deactivate-IsCoherent :
      (m : CaptureMode) (s : Supervisor Port Config Proxy)
      → s.mode ≡ m
      → IsCoherent applied port s
      → IsCoherent applied port (deactivate_in P X C m s).1
  unfolding deactivate_in
  deactivate-IsCoherent CaptureMode.off s m v = v
  deactivate-IsCoherent CaptureMode.recovery_required s m v = v
  deactivate-IsCoherent CaptureMode.system_proxy s m v =
      settle_restore-IsCoherent (X.restore_proxy s.proxy).0
        (record s { proxy = (X.restore_proxy s.proxy).1 }) m
        (subst (λ k. CoherentIn applied k s.sidecar s.proxy) m v.0)
        (λ o e. laws.restored s.proxy o e) v.1

  step-IsCoherent :
      (c : Call Secret) (s : Supervisor Port Config Proxy)
      → IsCoherent applied port s
      → IsCoherent applied port (step P X C c s)
  unfolding step activate_system_proxy deactivate_system_proxy
  step-IsCoherent (activate intent target secret) s v =
      activate-IsCoherent s.mode (build P X C intent target secret) s refl v
  step-IsCoherent deactivate s v = deactivate-IsCoherent s.mode s refl v

  -- From a coherent state, whatever the calls and whatever the ports report: in Off no managed proxy
  -- is applied and nothing runs, and in System Proxy the sidecar is Ready.
  pub run_all-IsCoherent :
      (cs : List (Call Secret)) (s : Supervisor Port Config Proxy)
      → IsCoherent applied port s
      → IsCoherent applied port (run_all P X C cs s)
  unfolding run_all
  run_all-IsCoherent [] s v = v
  run_all-IsCoherent (c ∷ cs) s v = run_all-IsCoherent cs (step P X C c s) (step-IsCoherent c s v)
