-- ===== src/Supervisor.antt =====
-- The runtime supervisor of src-tauri/src/application/runtime.rs, which couples the sidecar and the
-- system proxy. The compiler, the proxy controller and the secrets are arguments. The mutexes are
-- not modelled: each call runs alone, as the transition lock has it.
pub mod Coherence
use veyra.Base.{
  ℕ, ◌≡◌, Option, none, some, Bool, true, false, ◌||◌, ◌&&◌, not, Result, ok, err, is_err, ok_or,
  if◌then◌else◌, List, [], ◌∷◌,
}
use veyra.Domain.Types.{RouteTarget}
use veyra.Domain.State.{RuntimeIntent}
use veyra.SystemProxy.{
  SystemProxyError, SystemProxyEnableError, SystemProxyRestoreOutcome, SystemProxyController,
}
use veyra.Sidecar.{
  SidecarPort, SidecarRuntime, SidecarLifecycle, SidecarError, snapshot, mixed_port,
  start_or_replace, stop,
}

pub data CaptureMode : Type 0 where
  off system_proxy recovery_required : CaptureMode

pub data ActivateOutcome : Type 0 where
  activated reconfigured : ActivateOutcome

pub data DeactivateOutcome : Type 0 where
  deactivated user_proxy_preserved already_off : DeactivateOutcome

pub data RuntimeSupervisorError : Type 0 where
  build_failed sidecar_failed proxy_apply_failed proxy_restore_failed recovery_required :
      RuntimeSupervisorError

-- `compile` and `finalize`; `none` is an error.
pub record Compiler (Plan Config Secret : Type 0) : Type 0 where
  pub compile : RuntimeIntent → RouteTarget → Option Plan
  pub finalize : Plan → Secret → Option Config

pub record Supervisor (Port Config Proxy : Type 0) : Type 0 where
  pub sidecar : SidecarRuntime Port Config
  pub proxy : Proxy
  pub mode : CaptureMode

lifecycle_is_recovery : SidecarLifecycle → Bool
lifecycle_is_recovery SidecarLifecycle.recovery_required = true
lifecycle_is_recovery _ = false

lifecycle_is_ready : SidecarLifecycle → Bool
lifecycle_is_ready SidecarLifecycle.ready = true
lifecycle_is_ready _ = false

mode_is_system_proxy : CaptureMode → Bool
mode_is_system_proxy CaptureMode.system_proxy = true
mode_is_system_proxy _ = false

module _ {Port Config Proxy Plan Secret : Type 0} (P : SidecarPort Port Config)
    (X : SystemProxyController Proxy) (C : Compiler Plan Config Secret) where
  abbrev pub State : Type 0
  State = Supervisor Port Config Proxy

  -- The compiled configuration; `none` for the secret is a failure of the generator.
  unfoldable pub build : RuntimeIntent → RouteTarget → Option Secret → Option Config
  build intent default_target secret = elim (C.compile intent default_target) [
    | none ↦ none
    | some plan ↦ elim secret [ none ↦ none | some s ↦ C.finalize plan s ]
  ]

  -- The rest of `start_sidecar` after `start_or_replace`.
  unfoldable pub settle_start :
      Result (Unit {0}) SidecarError × SidecarRuntime Port Config
      → State
      → Result ℕ RuntimeSupervisorError × State
  unfolding lifecycle_is_recovery lifecycle_is_ready mode_is_system_proxy
  settle_start (err _, sidecar) s =
      let lifecycle = (snapshot sidecar).lifecycle in
      (
        err RuntimeSupervisorError.sidecar_failed,
        record s {
          sidecar = sidecar;
          mode =
              if lifecycle_is_recovery lifecycle
                || (mode_is_system_proxy s.mode && not (lifecycle_is_ready lifecycle))
              then CaptureMode.recovery_required
              else s.mode;
        },
      )
  settle_start (ok _, sidecar) s = (
    ok_or (mixed_port sidecar) RuntimeSupervisorError.sidecar_failed,
    record s { sidecar = sidecar },
  )

  -- `start_sidecar` on the configuration that was built
  unfoldable pub start_sidecar : Option Config → State → Result ℕ RuntimeSupervisorError × State
  unfolding settle_start
  start_sidecar none s = (err RuntimeSupervisorError.build_failed, s)
  start_sidecar (some candidate) s = settle_start (start_or_replace P candidate s.sidecar) s

  unfoldable pub stop_sidecar_or_require_recovery :
      State → Result (Unit {0}) RuntimeSupervisorError × State
  stop_sidecar_or_require_recovery s =
      let (halted, sidecar) = stop P s.sidecar in
      if is_err halted
      then (
        err RuntimeSupervisorError.recovery_required,
        record s { sidecar = sidecar; mode = CaptureMode.recovery_required },
      )
      else (ok tt, record s { sidecar = sidecar })

  -- A proxy that was safely not applied: the error tells whether the sidecar could be stopped.
  unfoldable pub refuse :
      Result (Unit {0}) RuntimeSupervisorError × State
      → Result ActivateOutcome RuntimeSupervisorError × State
  refuse (ok _, s) = (err RuntimeSupervisorError.proxy_apply_failed, s)
  refuse (err _, s) = (err RuntimeSupervisorError.recovery_required, s)

  -- The rest of `activate_from_off` after the answer of the proxy controller.
  unfoldable pub settle_enable :
      Result (Unit {0}) SystemProxyEnableError
      → State
      → Result ActivateOutcome RuntimeSupervisorError × State
  unfolding refuse
  settle_enable (ok _) s =
      (ok ActivateOutcome.activated, record s { mode = CaptureMode.system_proxy })
  settle_enable (err (SystemProxyEnableError.safely_unapplied _)) s =
      refuse (stop_sidecar_or_require_recovery s)
  settle_enable (err (SystemProxyEnableError.state_uncertain _)) s = (
    err RuntimeSupervisorError.recovery_required,
    record s { mode = CaptureMode.recovery_required },
  )

  unfoldable pub enable_after_start :
      Result ℕ RuntimeSupervisorError × State
      → Result ActivateOutcome RuntimeSupervisorError × State
  unfolding settle_enable
  enable_after_start (err e, s) = (err e, s)
  enable_after_start (ok port, s) =
      let (enabled, proxy) = X.enable_loopback_proxy port s.proxy in
      settle_enable enabled (record s { proxy = proxy })

  unfoldable pub activate_from_off :
      Option Config → State → Result ActivateOutcome RuntimeSupervisorError × State
  unfolding enable_after_start
  activate_from_off built s = enable_after_start (start_sidecar built s)

  unfoldable pub report_reconfigured :
      Result ℕ RuntimeSupervisorError × State
      → Result ActivateOutcome RuntimeSupervisorError × State
  report_reconfigured (err e, s) = (err e, s)
  report_reconfigured (ok port, s) = (ok ActivateOutcome.reconfigured, s)

  unfoldable pub reconfigure :
      Option Config → State → Result ActivateOutcome RuntimeSupervisorError × State
  unfolding report_reconfigured
  reconfigure built s = report_reconfigured (start_sidecar built s)

  unfoldable pub activate_in :
      CaptureMode → Option Config → State → Result ActivateOutcome RuntimeSupervisorError × State
  activate_in CaptureMode.off built s = activate_from_off built s
  activate_in CaptureMode.system_proxy built s = reconfigure built s
  activate_in CaptureMode.recovery_required built s =
      (err RuntimeSupervisorError.recovery_required, s)

  unfoldable pub activate_system_proxy :
      RuntimeIntent
      → RouteTarget
      → Option Secret
      → State
      → Result ActivateOutcome RuntimeSupervisorError × State
  unfolding activate_in
  activate_system_proxy intent default_target secret s =
      activate_in s.mode (build intent default_target secret) s

  deactivate_outcome : SystemProxyRestoreOutcome → DeactivateOutcome
  deactivate_outcome SystemProxyRestoreOutcome.user_modified =
      DeactivateOutcome.user_proxy_preserved
  deactivate_outcome _ = DeactivateOutcome.deactivated

  -- The last steps of `deactivate_system_proxy`, on the result of stopping the sidecar.
  unfoldable pub turn_off :
      DeactivateOutcome
      → Result (Unit {0}) RuntimeSupervisorError × State
      → Result DeactivateOutcome RuntimeSupervisorError × State
  turn_off outcome (ok _, s) = (ok outcome, record s { mode = CaptureMode.off })
  turn_off outcome (err e, s) = (err e, s)

  -- The rest of `deactivate_system_proxy` after the answer of the proxy controller.
  unfoldable pub settle_restore :
      Result SystemProxyRestoreOutcome SystemProxyError
      → State
      → Result DeactivateOutcome RuntimeSupervisorError × State
  unfolding deactivate_outcome turn_off
  settle_restore (err _) s = (err RuntimeSupervisorError.proxy_restore_failed, s)
  settle_restore (ok restore) s =
      turn_off (deactivate_outcome restore) (stop_sidecar_or_require_recovery s)

  unfoldable pub deactivate_in :
      CaptureMode → State → Result DeactivateOutcome RuntimeSupervisorError × State
  unfolding settle_restore
  deactivate_in CaptureMode.off s = (ok DeactivateOutcome.already_off, s)
  deactivate_in CaptureMode.recovery_required s = (err RuntimeSupervisorError.recovery_required, s)
  deactivate_in CaptureMode.system_proxy s =
      let (restore, proxy) = X.restore_proxy s.proxy in
      settle_restore restore (record s { proxy = proxy })

  unfoldable pub deactivate_system_proxy :
      State → Result DeactivateOutcome RuntimeSupervisorError × State
  unfolding deactivate_in
  deactivate_system_proxy s = deactivate_in s.mode s

-- The calls of the owner.
pub data Call (Secret : Type 0) : Type 0 where
  activate : RuntimeIntent → RouteTarget → Option Secret → Call Secret
  deactivate : Call Secret

module _ {Port Config Proxy Plan Secret : Type 0} (P : SidecarPort Port Config)
    (X : SystemProxyController Proxy) (C : Compiler Plan Config Secret) where
  unfoldable pub step : Call Secret → Supervisor Port Config Proxy → Supervisor Port Config Proxy
  step (activate intent default_target secret) s =
      (activate_system_proxy P X C intent default_target secret s).1
  step deactivate s = (deactivate_system_proxy P X C s).1

  unfoldable pub run_all :
      List (Call Secret) → Supervisor Port Config Proxy → Supervisor Port Config Proxy
  unfolding step
  run_all [] s = s
  run_all (c ∷ cs) s = run_all cs (step c s)
