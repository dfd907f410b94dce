-- ===== src/Schedule.antt =====
-- Which subscriptions are due for an update: `SubscriptionManager::due_subscription_ids` of
-- src-tauri/src/application/subscription_management.rs.
pub mod Due
use veyra.Base.{
  ℕ, ◌+◌, ◌*◌, List, [], ◌∷◌, map, retain, Option, none, some, Bool, true, false, ◌&&◌, not, leb,
  ltb, if◌then◌else◌, is_some_and, Result, ok, err, fail_if, map_ok, map_err, ◌>>=◌, ◌>>◌,
}
use veyra.Base.Text.{Text, text_le}
use veyra.Base.Order.{sort_by}
use veyra.Routing.Manager.{StateAccessError}
use veyra.Domain.Types.{AppState, Subscription, SubscriptionSource, SubscriptionId}

pub data SubscriptionOperationError : Type 0 where
  invalid_input busy fetch_failed parse_failed normalization_failed validation_failed save_failed
        state_unavailable not_found cache_unavailable identity_failed invalid_options
        unsupported_clash_providers proxy_unavailable system_proxy_unavailable reference_conflict
        not_shareable :
      SubscriptionOperationError

abbrev pub map_access_error : StateAccessError → SubscriptionOperationError
map_access_error StateAccessError.busy = SubscriptionOperationError.busy
map_access_error StateAccessError.unavailable = SubscriptionOperationError.state_unavailable

-- The calls of the store that are used here; `Disk` is what it has on disk.
pub record SnapshotStore (Disk : Type 0) : Type 0 where
  pub has_snapshot_or_backup : Disk → Result Bool (Unit {0})
  pub load : Disk → Result AppState (Unit {0})

abbrev pub max_safe_integer : ℕ
max_safe_integer = 9007199254740991

-- `u64::MAX`
abbrev pub max_u64 : ℕ
max_u64 = 18446744073709551615

abbrev pub saturate : ℕ → ℕ
saturate n = if leb n max_u64 then n else max_u64

unfoldable pub saturating_add : ℕ → ℕ → ℕ
saturating_add m n = saturate (m + n)

unfoldable pub saturating_mul : ℕ → ℕ → ℕ
saturating_mul m n = saturate (m * n)

abbrev pub unwrap_or_zero : Option ℕ → ℕ
unwrap_or_zero none = 0
unwrap_or_zero (some n) = n

abbrev pub max : ℕ → ℕ → ℕ
max m n = if leb m n then n else m

-- The later of the two times, 0 where neither is known.
abbrev pub persisted_base : Option ℕ → Option ℕ → ℕ
persisted_base attempt success = max (unwrap_or_zero attempt) (unwrap_or_zero success)

abbrev pub is_remote : SubscriptionSource → Bool
is_remote (SubscriptionSource.remote url) = true
is_remote SubscriptionSource.manual = false

-- `deadlines` are those of the process, by subscription.
unfoldable pub deadline : (SubscriptionId → Option ℕ) → Subscription → ℕ → ℕ
deadline deadlines subscription minutes = max (unwrap_or_zero (deadlines subscription.id)) (
    saturating_add (persisted_base subscription.last_attempt_at_ms subscription.last_success_at_ms)
      (saturating_mul minutes 60000))

unfoldable pub is_due : ℕ → (SubscriptionId → Option ℕ) → Subscription → Bool
unfolding deadline
is_due now_ms deadlines subscription =
    is_remote subscription.source
    && subscription.update_policy.allow_auto_update
    && is_some_and subscription.update_policy.interval_minutes
        (λ minutes. leb (deadline deadlines subscription minutes) now_ms)

unfoldable pub due_ids : ℕ → (SubscriptionId → Option ℕ) → Option AppState → List Text
unfolding is_due
due_ids now_ms deadlines none = []
due_ids now_ms deadlines (some state) =
    sort_by text_le
      (map (λ subscription. subscription.id) (retain (is_due now_ms deadlines) state.subscriptions))

module _ {Disk : Type 0} (S : SnapshotStore Disk) where
  unfoldable pub load_existing_or_empty : Disk → Result (Option AppState) SubscriptionOperationError
  load_existing_or_empty disk = do
    present ←
        map_err (S.has_snapshot_or_backup disk) (λ e. SubscriptionOperationError.state_unavailable)
    if present
        then map_err (map_ok some (S.load disk)) (λ e. SubscriptionOperationError.state_unavailable)
        else ok none

  -- `access` is the outcome of `try_lock` of the gate.
  unfoldable pub due_subscription_ids :
      Result (Unit {0}) StateAccessError
      → (SubscriptionId → Option ℕ)
      → ℕ
      → Disk
      → Result (List Text) SubscriptionOperationError
  unfolding load_existing_or_empty
  due_subscription_ids access deadlines now_ms disk = do
    fail_if (ltb max_safe_integer now_ms) SubscriptionOperationError.invalid_input
    map_err access map_access_error
    map_ok (due_ids now_ms deadlines) (load_existing_or_empty disk)
