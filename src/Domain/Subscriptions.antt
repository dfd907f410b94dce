-- ===== src/Domain/Subscriptions.antt =====
-- `Subscription::validate` and the checks of its parts in src-tauri/src/domain/state.rs.
use veyra.Base.{
  ℕ, Option, Bool, ◌&&◌, ◌||◌, not, ltb, leb, in_range, all, any, is_empty, is_some, is_some_and,
  is_none_or, length, ◌==◌, Result, ◌>>◌, fail_if,
}
use veyra.Base.Text.{Text, text_eq, present, trim, byte_length, is_control}
use veyra.Domain.Types.{
  Subscription, SubscriptionSource, SubscriptionDocument, RemoteRequestOptions,
  SubscriptionUpdatePolicy, SubscriptionHttpMetadata, SubscriptionTraffic, StateValidationError,
  invalid_subscription, max_safe_integer, max_subscription_document_bytes,
}

unfoldable pub document_is_valid : SubscriptionDocument → Bool
document_is_valid document =
    not (is_empty document.content)
    && leb (byte_length document.content) max_subscription_document_bytes

-- The byte range 0x20 to 0x7E holds whole characters only.
unfoldable pub remote_request_is_valid : RemoteRequestOptions → Bool
remote_request_is_valid r =
    in_range 5 120 r.timeout_seconds
    && is_none_or r.user_agent
        (λ value. in_range 1 256 (byte_length value) && all (λ byte. in_range 0x20 0x7E byte) value)

unfoldable pub update_policy_is_valid : SubscriptionUpdatePolicy → Bool
update_policy_is_valid p = is_none_or p.interval_minutes (λ minutes. leb 1440 minutes)

unfoldable pub traffic_is_valid : SubscriptionTraffic → Bool
traffic_is_valid t =
    is_none_or t.upload (λ value. leb value max_safe_integer)
    && is_none_or t.download (λ value. leb value max_safe_integer)
    && is_none_or t.total (λ value. leb value max_safe_integer)
    && is_none_or t.expire_at_ms (λ value. leb value max_safe_integer)

unfoldable pub bounded_visible : Option Text → ℕ → Bool
bounded_visible value max_bytes =
    is_none_or value
      (λ v. not (is_empty v) && leb (byte_length v) max_bytes && all (λ c. not (is_control c)) v)

unfoldable pub metadata_is_valid : SubscriptionHttpMetadata → Bool
metadata_is_valid m =
    bounded_visible m.etag 1024
    && bounded_visible m.last_modified 128
    && bounded_visible m.content_disposition 255
    && is_none_or m.subscription_userinfo traffic_is_valid

-- The guard of the `Remote` arm, that of the `Manual` arm.
source_rejected : Subscription → SubscriptionSource → Bool
source_rejected s (SubscriptionSource.remote url) =
    not (present url)
    || ltb 8192 (byte_length url)
    || not (is_some_and s.remote_request remote_request_is_valid)
source_rejected s SubscriptionSource.manual =
    is_some s.http_metadata
    || is_some s.remote_request
    || s.update_policy.allow_auto_update
    || is_some s.update_policy.interval_minutes
    || is_some_and s.document (λ document. document.local_override)

-- `Subscription::validate`: each guard that holds is an early return with the same error.
unfoldable pub validate_subscription : Subscription → Result (Unit {0}) StateValidationError
unfolding source_rejected
validate_subscription s = do
  fail_if
      (is_some_and s.last_success_at_ms (λ value. ltb max_safe_integer value)
        || is_some_and s.last_attempt_at_ms (λ value. ltb max_safe_integer value)
        || not (s.description == trim s.description)
        || ltb 280 (length s.description)
        || any is_control s.description
        || is_some_and s.document (λ document. not (document_is_valid document)))
      invalid_subscription
  fail_if (source_rejected s s.source) invalid_subscription
  fail_if (is_some_and s.http_metadata (λ metadata. not (metadata_is_valid metadata)))
      invalid_subscription
  fail_if (not (update_policy_is_valid s.update_policy)) invalid_subscription
