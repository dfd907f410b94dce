-- ===== src/Witnesses/SystemProxy.antt =====
-- A system proxy and a record in memory, for the theorems on
-- src-tauri/src/platform/windows/system_proxy.rs and src-tauri/src/application/runtime.rs.
use veyra.Base.{
  ◌≡◌, refl, ℕ, List, [], ◌∷◌, Option, none, some, Bool, true, false, Result, ok, err, arith,
  if◌then◌else◌,
}
use veyra.Base.Text.{text}
use veyra.Domain.Types.{RouteTarget}
use veyra.Domain.State.{RuntimeIntent}
use veyra.SystemProxy.{
  ProxySnapshot, ProxyRecoveryRecord, RecoveryPhase, SystemProxyPort, SystemProxyPortError,
  ProxyRecoveryStore, SystemProxyError, SystemProxyEnableError, SystemProxyRestoreOutcome, Inner,
  loopback, enable, restore, restore_record, rollback_if_still_managed, read_current,
  write_and_notify, clear_record, compensate, prove_enable_unapplied, verify_enable, after_write,
  windows_system_proxy,
}
use veyra.SystemProxy.Snapshots.{sem_refl}
use veyra.SystemProxy.Actions.{ReadsSetting, KeepsRecord}
use veyra.SystemProxy.Enable.{IsUnapplied, IsUndone, enable-IsUnapplied}
use veyra.SystemProxy.Restore.{IsEnabled, enable-IsEnabled}
use veyra.SystemProxy.RoundTrip.{IsRestored, restore-IsRestored, restore-enable}
use veyra.SystemProxy.Refinement.{
  is_managed, windows_system_proxy-KeepsProxy, supervised-IsCoherent,
}
use veyra.Sidecar.{lifecycle_of}
use veyra.Supervisor.{CaptureMode, Compiler, Supervisor, Call, activate, deactivate, run_all}
use veyra.Supervisor.Coherence.{KeepsProxy, IsCoherent, run_all-IsCoherent}
use veyra.Witnesses.Sidecar.{Processes, demo_port, fresh}

-- `writable` says whether a write is accepted.
abbrev memory_port : Bool → SystemProxyPort ProxySnapshot
memory_port writable = record {
  read_default_connection = λ s. (ok s, s);
  write_default_connection = λ state s. (
    if writable then ok tt else err SystemProxyPortError.write_rejected,
    if writable then state else s,
  );
  notify_settings_changed = λ s. (ok tt, s);
  refresh_settings = λ s. (ok tt, s);
  notify_proxy_settings_changed = λ s. (ok tt, s);
}

abbrev memory_store : ProxyRecoveryStore (Option ProxyRecoveryRecord)
memory_store = record {
  load = λ d. (ok d, d);
  save = λ r d. (ok tt, some r);
  clear = λ d. (ok tt, none);
}

abbrev setting : ProxySnapshot → ProxySnapshot
setting s = s

abbrev stored : Option ProxyRecoveryRecord → Option ProxyRecoveryRecord
stored d = d

memory_port-ReadsSetting : (writable : Bool) → ReadsSetting (memory_port writable) setting
memory_port-ReadsSetting writable = record {
  read_ok = λ s v h. ground arith;
  read_keeps = λ s. refl;
}

memory_store-KeepsRecord : KeepsRecord memory_store stored
memory_store-KeepsRecord = record {
  load_ok = λ d r h. ground arith;
  load_keeps = λ d. refl;
  save_ok = λ r d h. refl;
  save_err = λ r d e h. no_error r d e h;
  clear_ok = λ d h. refl;
}
  where
    no_error :
        {E : Type 0} (r : ProxyRecoveryRecord) (d : Option ProxyRecoveryRecord) (e : E)
        → ◌≡◌ {A = Result (Unit {0}) E} (ok tt) (err e)
        → some r ≡ d
    no_error r d e h = cc

-- A setting that a script configures.
abbrev original : ProxySnapshot
original = record {
  direct = true;
  proxy_enabled = false;
  proxy_server = none;
  proxy_bypass = none;
  auto_config_url = some (text "http://wpad/proxy.pac");
  auto_config_enabled = true;
  auto_detect = true;
}

abbrev intended : ProxySnapshot
intended = loopback 7_890

abbrev before : Inner ProxySnapshot (Option ProxyRecoveryRecord)
before = record { port = original; recovery = none }

abbrev enabled : Inner ProxySnapshot (Option ProxyRecoveryRecord)
enabled = record {
  port = intended;
  recovery =
      some (record { phase = RecoveryPhase.stable; snapshot = original; managed = intended });
}

demo_enables : enable (memory_port true) memory_store intended before ≡ (ok tt, enabled)
unfolding enable read_current write_and_notify after_write verify_enable
demo_enables = rw (sem_refl intended) refl

demo_refuses :
    enable (memory_port false) memory_store intended before
    ≡ (err (SystemProxyEnableError.safely_unapplied SystemProxyError.write), before)
unfolding enable read_current write_and_notify after_write compensate prove_enable_unapplied
    clear_record
demo_refuses = rw (sem_refl original) refl

demo_restores :
    restore (memory_port true) memory_store enabled
    ≡ (ok SystemProxyRestoreOutcome.restored, before)
unfolding restore restore_record rollback_if_still_managed read_current write_and_notify
    clear_record
demo_restores = rw (sem_refl intended, sem_refl original) refl

enable-IsUnapplied_example :
    IsUnapplied
      (memory_port false)
      memory_store
      setting
      stored
      (memory_port-ReadsSetting false)
      memory_store-KeepsRecord
      before
      before
enable-IsUnapplied_example =
    enable-IsUnapplied (memory_port false) memory_store setting stored
      (memory_port-ReadsSetting false) memory_store-KeepsRecord intended before before
      SystemProxyError.write demo_refuses

enable-IsEnabled_example :
    IsEnabled
      (memory_port true)
      memory_store
      setting
      stored
      (memory_port-ReadsSetting true)
      memory_store-KeepsRecord
      original
      intended
      enabled
enable-IsEnabled_example =
    enable-IsEnabled (memory_port true) memory_store setting stored (memory_port-ReadsSetting true)
      memory_store-KeepsRecord intended before enabled demo_enables

restore-IsRestored_example :
    IsRestored
      (memory_port true)
      memory_store
      setting
      stored
      (memory_port-ReadsSetting true)
      memory_store-KeepsRecord
      enabled.recovery
      SystemProxyRestoreOutcome.restored
      enabled
      before
restore-IsRestored_example =
    restore-IsRestored (memory_port true) memory_store setting stored
      (memory_port-ReadsSetting true) memory_store-KeepsRecord enabled
      SystemProxyRestoreOutcome.restored before demo_restores

restore-enable_example :
    (SystemProxyRestoreOutcome.restored ≡ SystemProxyRestoreOutcome.restored)
    × IsUndone
        (memory_port true)
        memory_store
        setting
        stored
        (memory_port-ReadsSetting true)
        memory_store-KeepsRecord
        original
        before
restore-enable_example =
    restore-enable (memory_port true) memory_store setting stored (memory_port-ReadsSetting true)
      memory_store-KeepsRecord intended before enabled SystemProxyRestoreOutcome.restored before
      demo_enables demo_restores

windows_system_proxy-KeepsProxy_example :
    KeepsProxy (windows_system_proxy (memory_port true) memory_store) (
      is_managed
        (memory_port true)
        memory_store
        setting
        stored
        (memory_port-ReadsSetting true)
        memory_store-KeepsRecord)
windows_system_proxy-KeepsProxy_example =
    windows_system_proxy-KeepsProxy (memory_port true) memory_store setting stored
      (memory_port-ReadsSetting true) memory_store-KeepsRecord

-- A compiler whose plan is the number of nodes, to which the secret is added.
abbrev demo_compiler : Compiler ℕ ℕ ℕ
demo_compiler = record { compile = λ intent target. some 4; finalize = λ plan secret. some (plan) }

abbrev no_intent : RuntimeIntent
no_intent = record { nodes = []; pools = []; routes = [] }

abbrev requests : List (Call ℕ)
requests =
    activate no_intent RouteTarget.direct (some 9)
    ∷ deactivate
    ∷ activate no_intent RouteTarget.direct (some 9)
    ∷ []

abbrev idle : Supervisor Processes ℕ (Inner ProxySnapshot (Option ProxyRecoveryRecord))
idle = record { sidecar = fresh; proxy = before; mode = CaptureMode.off }

abbrev managed_here : Inner ProxySnapshot (Option ProxyRecoveryRecord) → Bool
managed_here =
    is_managed (memory_port true) memory_store setting stored (memory_port-ReadsSetting true)
      memory_store-KeepsRecord

idle-IsCoherent : IsCoherent managed_here 7_890 idle
unfolding lifecycle_of
idle-IsCoherent = ((refl, refl), refl)

run_all-IsCoherent_example : IsCoherent managed_here 7_890 (
    run_all demo_port
      (windows_system_proxy (memory_port true) memory_store)
      demo_compiler
      requests
      idle)
run_all-IsCoherent_example =
    run_all-IsCoherent demo_port (windows_system_proxy (memory_port true) memory_store)
      demo_compiler managed_here
      (windows_system_proxy-KeepsProxy (memory_port true) memory_store setting stored
        (memory_port-ReadsSetting true) memory_store-KeepsRecord)
      7_890 requests idle idle-IsCoherent

supervised-IsCoherent_example : IsCoherent managed_here 7_890 (
    run_all demo_port
      (windows_system_proxy (memory_port true) memory_store)
      demo_compiler
      requests
      idle)
supervised-IsCoherent_example =
    supervised-IsCoherent (memory_port true) memory_store setting stored
      (memory_port-ReadsSetting true) memory_store-KeepsRecord demo_port demo_compiler 7_890
      requests idle idle-IsCoherent
