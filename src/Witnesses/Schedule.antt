-- ===== src/Witnesses/Schedule.antt =====
-- A subscription that updates itself every hour, for the theorem on `due_subscription_ids` of
-- src-tauri/src/application/subscription_management.rs.
use veyra.Base.{◌≡◌, ◌≤◌, refl, ℕ, [], ◌∷◌, Option, none, some, true, ok, retain}
use veyra.Base.Text.{Text, text}
use veyra.Base.Order.{sort_by}
use veyra.Domain.Types.{AppState, Subscription, SubscriptionSource}
use veyra.Schedule.{
  SnapshotStore, due_subscription_ids, load_existing_or_empty, due_ids, is_due, deadline,
  max_safe_integer, saturating_add, saturating_mul,
}
use veyra.Schedule.Due.{Lists, subscriptions_of, due_subscription_ids-Lists}
use veyra.Witnesses.Domain.{demo}

abbrev remote : Subscription
remote = record {
  id = text "s";
  name = text "Home";
  description = [];
  source = SubscriptionSource.remote (text "https://a.example");
  last_success_at_ms = some 1000;
  last_attempt_at_ms = some 2000;
  http_metadata = none;
  remote_request = none;
  update_policy = record { allow_auto_update = true; interval_minutes = some 60 };
  skipped_unsupported_nodes = 0;
  document = none;
}

abbrev no_deadlines : Text → Option ℕ
no_deadlines id = none

abbrev snapshots : SnapshotStore AppState
snapshots = record { has_snapshot_or_backup = λ d. ok true; load = λ d. ok d }

abbrev updating : AppState
updating = record demo { subscriptions = remote ∷ [] }

-- An hour after the attempt, not after the success.
due_then : due_subscription_ids snapshots (ok tt) no_deadlines 3602000 updating ≡ ok (text "s" ∷ [])
unfolding due_subscription_ids load_existing_or_empty due_ids is_due deadline sort_by retain
    saturating_add saturating_mul
due_then = refl

due_subscription_ids-Lists_example :
    (3602000 ≤ max_safe_integer)
    × (state : Option AppState) × (load_existing_or_empty snapshots updating ≡ ok state)
    × Lists 3602000 no_deadlines (subscriptions_of state) (text "s" ∷ [])
due_subscription_ids-Lists_example =
    due_subscription_ids-Lists snapshots (ok tt) no_deadlines 3602000 updating (text "s" ∷ [])
      due_then
