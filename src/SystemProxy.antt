-- ===== src/SystemProxy.antt =====
-- The system proxy adapter of src-tauri/src/platform/windows/system_proxy.rs with the recovery
-- record of recovery.rs. The WinINet port and the recovery store are arguments. The adapter's mutex
-- is not modelled: each call runs alone.
pub mod Snapshots
pub mod Actions
pub mod Restore
pub mod Enable
pub mod RoundTrip
pub mod Refinement
use veyra.Base.{
  ℕ, ◌≡◌, Option, none, some, Bool, true, false, ◌||◌, ◌&&◌, not, Result, ok, err, map_err,
  if◌then◌else◌, List, [], ◌∷◌, ◌++◌, map, retain, is_empty, Eq, ◌==◌, option_eq, list_eq, bool_eq,
}
use veyra.Base.Text.{Text, text, text_eq, text_le, trim, to_ascii_lowercase, split, decimal}
use veyra.Base.Order.{sort_by, dedup}

pub record ProxySnapshot : Type 0 where
  pub direct : Bool
  pub proxy_enabled : Bool
  pub proxy_server : Option Text
  pub proxy_bypass : Option Text
  pub auto_config_url : Option Text
  pub auto_config_enabled : Bool
  pub auto_detect : Bool

unfoldable pub normalized_text : Text → Option Text
normalized_text value =
    let trimmed = trim value in if is_empty trimmed then none else some (to_ascii_lowercase trimmed)

unfoldable pub normalized_optional : Option Text → Option Text
unfolding normalized_text
normalized_optional none = none
normalized_optional (some value) = normalized_text value

bypass_text : Option Text → Text
bypass_text none = []
bypass_text (some value) = value

unfoldable pub normalized_bypass : Option Text → List Text
unfolding bypass_text
normalized_bypass value = dedup (
    sort_by text_le (
      map to_ascii_lowercase
        (retain (λ part. not (is_empty part)) (map trim (split b';' (bypass_text value))))))

unfoldable pub semantically_equals : ProxySnapshot → ProxySnapshot → Bool
semantically_equals a b =
    a.direct == b.direct
    && a.proxy_enabled == b.proxy_enabled
    && a.auto_config_enabled == b.auto_config_enabled
    && a.auto_detect == b.auto_detect
    && normalized_optional a.proxy_server == normalized_optional b.proxy_server
    && normalized_bypass a.proxy_bypass == normalized_bypass b.proxy_bypass
    && normalized_optional a.auto_config_url == normalized_optional b.auto_config_url

-- `ManagedProxyState::loopback`, by the snapshot that it wraps
unfoldable pub loopback : ℕ → ProxySnapshot
loopback mixed_port = record {
  direct = true;
  proxy_enabled = true;
  proxy_server = some (text "127.0.0.1:" ++ decimal mixed_port);
  proxy_bypass = some (text "localhost;127.0.0.1;::1");
  auto_config_url = none;
  auto_config_enabled = false;
  auto_detect = false;
}

pub data RecoveryPhase : Type 0 where
  transitioning stable : RecoveryPhase

pub record ProxyRecoveryRecord : Type 0 where
  pub phase : RecoveryPhase
  pub snapshot : ProxySnapshot
  pub managed : ProxySnapshot

pub data SystemProxyPortError : Type 0 where
  unavailable write_rejected notification_rejected : SystemProxyPortError

pub data RecoveryStoreError : Type 0 where
  unavailable : RecoveryStoreError

-- `SystemProxyPort` and `ProxyRecoveryStore`: each call takes the state and returns the new one.
pub record SystemProxyPort (Os : Type 0) : Type 0 where
  pub read_default_connection : Os → Result ProxySnapshot SystemProxyPortError × Os
  pub write_default_connection : ProxySnapshot → Os → Result (Unit {0}) SystemProxyPortError × Os
  pub notify_settings_changed : Os → Result (Unit {0}) SystemProxyPortError × Os
  pub refresh_settings : Os → Result (Unit {0}) SystemProxyPortError × Os
  pub notify_proxy_settings_changed : Os → Result (Unit {0}) SystemProxyPortError × Os

pub record ProxyRecoveryStore (Disk : Type 0) : Type 0 where
  pub load : Disk → Result (Option ProxyRecoveryRecord) RecoveryStoreError × Disk
  pub save : ProxyRecoveryRecord → Disk → Result (Unit {0}) RecoveryStoreError × Disk
  pub clear : Disk → Result (Unit {0}) RecoveryStoreError × Disk

pub data SystemProxyError : Type 0 where
  read write notify recovery_store verification : SystemProxyError

pub data SystemProxyEnableError : Type 0 where
  safely_unapplied state_uncertain : SystemProxyError → SystemProxyEnableError

pub data SystemProxyRestoreOutcome : Type 0 where
  restored not_managed user_modified : SystemProxyRestoreOutcome

pub data ProxyState : Type 0 where
  not_managed managed user_modified : ProxyState

-- `SystemProxyController`, over the state that its calls change; `enable` has one success only.
pub record SystemProxyController (Proxy : Type 0) : Type 0 where
  pub enable_loopback_proxy : ℕ → Proxy → Result (Unit {0}) SystemProxyEnableError × Proxy
  pub restore_proxy : Proxy → Result SystemProxyRestoreOutcome SystemProxyError × Proxy

pub record Inner (Os Disk : Type 0) : Type 0 where
  pub port : Os
  pub recovery : Disk

-- A method that may fail: what it has changed before an error stays changed.
abbrev pub Action : Type 0 → Type 0 → Type 0 → Type 0
Action S E A = S → Result A E × S

abbrev pub continue : {S E A B : Type 0} → Result A E × S → (A → Action S E B) → Result B E × S
continue (ok a, s) f = f a s
continue (err e, s) f = (err e, s)

infixl 5 ◌>>=◌ ◌>>◌
abbrev pub ◌>>=◌ : {S E A B : Type 0} → Action S E A → (A → Action S E B) → Action S E B
◌>>=◌ m f s = continue (m s) f

abbrev pub ◌>>◌ : {S E B : Type 0} → Action S E (Unit {0}) → Action S E B → Action S E B
m >> k = m >>= λ _. k

abbrev pub done : {S E A : Type 0} → A → Action S E A
done a s = (ok a, s)

abbrev pub fail : {S E A : Type 0} → E → Action S E A
fail e s = (err e, s)

-- `action.map_err(f)`
abbrev pub with_error : {S E F A : Type 0} → Action S E A → (E → F) → Action S F A
with_error m f s = let (r, s') = m s in (map_err r f, s')

module _ {Os Disk : Type 0} (P : SystemProxyPort Os) (R : ProxyRecoveryStore Disk) where
  abbrev pub Method : Type 0 → Type 0 → Type 0
  Method E A = Action (Inner Os Disk) E A

  abbrev pub on_port : {E A : Type 0} → Action Os E A → Method E A
  on_port m inner = let (r, os) = m inner.port in (r, record inner { port = os })

  abbrev pub on_store : {E A : Type 0} → Action Disk E A → Method E A
  on_store m inner = let (r, disk) = m inner.recovery in (r, record inner { recovery = disk })

  unfoldable pub read_current : Method SystemProxyError ProxySnapshot
  read_current = on_port (with_error P.read_default_connection (λ _. SystemProxyError.read))

  unfoldable pub write_and_notify : ProxySnapshot → Method SystemProxyError (Unit {0})
  write_and_notify state = do
    on_port (with_error (P.write_default_connection state) (λ _. SystemProxyError.write))
    on_port (with_error P.notify_settings_changed (λ _. SystemProxyError.notify))
    on_port (with_error P.refresh_settings (λ _. SystemProxyError.notify))
    on_port (with_error P.notify_proxy_settings_changed (λ _. SystemProxyError.notify))

  unfoldable pub clear_record : {E : Type 0} → E → Method E (Unit {0})
  clear_record e = on_store (with_error R.clear (λ _. e))

  unfoldable pub rollback_if_still_managed :
      ProxyRecoveryRecord → Method SystemProxyError SystemProxyRestoreOutcome
  rollback_if_still_managed record_ = do
    observed ← read_current
    if not (semantically_equals record_.managed observed)
        then done SystemProxyRestoreOutcome.user_modified
        else do
          write_and_notify record_.snapshot
          verified ← read_current
          if not (semantically_equals verified record_.snapshot)
              then fail SystemProxyError.verification
              else do
                clear_record SystemProxyError.recovery_store
                done SystemProxyRestoreOutcome.restored

  unfoldable pub prove_enable_unapplied :
      ProxyRecoveryRecord → Method SystemProxyEnableError (Unit {0})
  prove_enable_unapplied record_ = do
    observed ← with_error read_current SystemProxyEnableError.state_uncertain
    if semantically_equals observed record_.snapshot
        then clear_record (SystemProxyEnableError.state_uncertain SystemProxyError.recovery_store)
        else if not (semantically_equals record_.managed observed)
        then fail (SystemProxyEnableError.state_uncertain SystemProxyError.verification)
        else do
          with_error (write_and_notify record_.snapshot) SystemProxyEnableError.state_uncertain
          verified ← with_error read_current SystemProxyEnableError.state_uncertain
          if not (semantically_equals verified record_.snapshot)
              then fail (SystemProxyEnableError.state_uncertain SystemProxyError.verification)
              else clear_record
                  (SystemProxyEnableError.state_uncertain SystemProxyError.recovery_store)

  -- The `match` on `prove_enable_unapplied` that both failures of `enable` share.
  unfoldable pub report_unapplied :
      SystemProxyError
      → Result (Unit {0}) SystemProxyEnableError × Inner Os Disk
      → Result (Unit {0}) SystemProxyEnableError × Inner Os Disk
  report_unapplied error (ok _, inner) =
      (err (SystemProxyEnableError.safely_unapplied error), inner)
  report_unapplied error (err _, inner) =
      (err (SystemProxyEnableError.state_uncertain error), inner)

  unfoldable pub compensate :
      SystemProxyError → ProxyRecoveryRecord → Method SystemProxyEnableError (Unit {0})
  unfolding report_unapplied
  compensate error record_ inner = report_unapplied error (prove_enable_unapplied record_ inner)

  -- The part of `enable` after a write that succeeded.
  unfoldable pub verify_enable : ProxyRecoveryRecord → Method SystemProxyEnableError (Unit {0})
  verify_enable record_ = do
    observed ← with_error read_current SystemProxyEnableError.state_uncertain
    if not (semantically_equals record_.managed observed)
        then compensate SystemProxyError.verification record_
        else on_store (
            with_error (R.save (record record_ { phase = RecoveryPhase.stable }))
              (λ _. SystemProxyEnableError.state_uncertain SystemProxyError.recovery_store))

  unfoldable pub after_write :
      ProxyRecoveryRecord
      → Result (Unit {0}) SystemProxyError × Inner Os Disk
      → Result (Unit {0}) SystemProxyEnableError × Inner Os Disk
  after_write record_ (err error, inner) = compensate error record_ inner
  after_write record_ (ok _, inner) = verify_enable record_ inner

  unfoldable pub enable : ProxySnapshot → Method SystemProxyEnableError (Unit {0})
  enable intended = do
    snapshot ← with_error read_current SystemProxyEnableError.safely_unapplied
    let record_ : ProxyRecoveryRecord = record {
      phase = RecoveryPhase.transitioning;
      snapshot = snapshot;
      managed = intended;
    }
    on_store (
        with_error (R.save record_)
          (λ _. SystemProxyEnableError.safely_unapplied SystemProxyError.recovery_store))
    λ inner. after_write record_ (write_and_notify intended inner)

  unfoldable pub restore_record :
      Option ProxyRecoveryRecord → Method SystemProxyError SystemProxyRestoreOutcome
  restore_record (some record_) = rollback_if_still_managed record_
  restore_record none = done SystemProxyRestoreOutcome.not_managed

  unfoldable pub restore : Method SystemProxyError SystemProxyRestoreOutcome
  unfolding restore_record
  restore = do
    found ← on_store (with_error R.load (λ _. SystemProxyError.recovery_store))
    restore_record found

  unfoldable pub state_of_record : Option ProxyRecoveryRecord → Method SystemProxyError ProxyState
  state_of_record none = done ProxyState.not_managed
  state_of_record (some record_) = do
    observed ← read_current
    done (
        if semantically_equals record_.managed observed
        then ProxyState.managed
        else ProxyState.user_modified)

  unfoldable pub current_state : Method SystemProxyError ProxyState
  unfolding state_of_record
  current_state = do
    found ← on_store (with_error R.load (λ _. SystemProxyError.recovery_store))
    state_of_record found

  -- `impl SystemProxyController for WindowsSystemProxy`
  abbrev pub windows_system_proxy : SystemProxyController (Inner Os Disk)
  windows_system_proxy = record {
    enable_loopback_proxy = λ mixed_port. enable (loopback mixed_port);
    restore_proxy = restore;
  }
