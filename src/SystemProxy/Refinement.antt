-- ===== src/SystemProxy/Refinement.antt =====
-- The Windows adapter (src-tauri/src/platform/windows/system_proxy.rs) keeps what the supervisor
-- (src-tauri/src/application/runtime.rs) needs of a proxy controller.
use veyra.Base.{◌≡◌, refl, ap, ◌∙◌, List, Option, none, some, Bool, false, inl, inr, ℕ}
use veyra.SystemProxy.{
  ProxySnapshot, ProxyRecoveryRecord, SystemProxyPort, ProxyRecoveryStore,
  SystemProxyRestoreOutcome, Inner, semantically_equals, enable, restore, loopback,
  windows_system_proxy,
}
use veyra.SystemProxy.Actions.{pair_path, ReadsSetting, KeepsRecord, IsSame}
use veyra.SystemProxy.Enable.{IsUnapplied, enable-IsUnapplied}
use veyra.SystemProxy.RoundTrip.{IsRestored, restore-IsRestored}
use veyra.Supervisor.{Compiler, Supervisor, Call, run_all}
use veyra.Supervisor.Coherence.{KeepsProxy, IsCoherent, run_all-IsCoherent}
use veyra.Sidecar.{SidecarPort}

-- The proxy that the application has set is still the current one, by the record on disk.
abbrev pub managed_by : Option ProxyRecoveryRecord → ProxySnapshot → Bool
managed_by none s = false
managed_by (some r) s = semantically_equals r.managed s

module _ {Os Disk : Type 0} (P : SystemProxyPort Os) (R : ProxyRecoveryStore Disk)
    (setting : Os → ProxySnapshot) (stored : Disk → Option ProxyRecoveryRecord)
    (reads : ReadsSetting P setting) (keeps : KeepsRecord R stored) where
  abbrev pub is_managed : Inner Os Disk → Bool
  is_managed i = managed_by (stored i.recovery) (setting i.port)

  same_managed :
      (i j : Inner Os Disk)
      → IsSame P R setting stored reads keeps i j
      → is_managed j ≡ is_managed i
  same_managed i j (p, q) = cc

  none_managed : (j : Inner Os Disk) → stored j.recovery ≡ none → is_managed j ≡ false
  none_managed j h = ap (λ r. managed_by r (setting j.port)) h

  unapplied_lem :
      (i j : Inner Os Disk)
      → is_managed i ≡ false
      → IsUnapplied P R setting stored reads keeps i j
      → is_managed j ≡ false
  unapplied_lem i j h (inl same) = same_managed i j same ∙ h
  unapplied_lem i j h (inr (_, n)) = none_managed j n

  restored_lem :
      (r : Option ProxyRecoveryRecord) (o : SystemProxyRestoreOutcome) (i j : Inner Os Disk)
      → stored i.recovery ≡ r
      → IsRestored P R setting stored reads keeps r o i j
      → is_managed j ≡ false
  restored_lem none SystemProxyRestoreOutcome.not_managed i j p h = none_managed j (h.1 ∙ p)
  restored_lem (some r) SystemProxyRestoreOutcome.restored i j p h = none_managed j h.2
  restored_lem (some r) SystemProxyRestoreOutcome.user_modified i j p h =
      same_managed i j h.1 ∙ ap (λ x. managed_by x (setting i.port)) p ∙ h.0
  restored_lem none SystemProxyRestoreOutcome.restored i j p h = absurd h
  restored_lem none SystemProxyRestoreOutcome.user_modified i j p h = absurd h
  restored_lem (some r) SystemProxyRestoreOutcome.not_managed i j p h = absurd h

  -- Over a port whose reads are truthful and a store that keeps what it was told, the Windows
  -- adapter leaves no managed proxy behind a `SafelyUnapplied` enable that started without one, nor
  -- behind a restore that succeeds.
  pub windows_system_proxy-KeepsProxy : KeepsProxy (windows_system_proxy P R) is_managed
  windows_system_proxy-KeepsProxy = record {
    unapplied = λ port i e h g. unapplied_lem i (enable P R (loopback port) i).1 h (
        enable-IsUnapplied P R setting stored reads keeps (loopback port) i
          (enable P R (loopback port) i).1 e (pair_path (enable P R (loopback port) i) g refl));
    restored = λ i o h. restored_lem (stored i.recovery) o i (restore P R i).1 refl (
        restore-IsRestored P R setting stored reads keeps i o (restore P R i).1
          (pair_path (restore P R i) h refl));
  }

  -- The supervisor over the Windows adapter: whatever the calls and whatever the ports report, a
  -- coherent state stays coherent. In Off the proxy that the record on disk names is not the current
  -- one and nothing runs; in System Proxy the sidecar is Ready.
  pub supervised-IsCoherent :
      {Port Config Plan Secret : Type 0} (S : SidecarPort Port Config)
      (C : Compiler Plan Config Secret) (port : ℕ) (cs : List (Call Secret))
      (s : Supervisor Port Config (Inner Os Disk))
      → IsCoherent is_managed port s
      → IsCoherent is_managed port (run_all S (windows_system_proxy P R) C cs s)
  supervised-IsCoherent S C port cs s v =
      run_all-IsCoherent S (windows_system_proxy P R) C is_managed windows_system_proxy-KeepsProxy
        port cs s v
