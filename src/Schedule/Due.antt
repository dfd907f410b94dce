-- ===== src/Schedule/Due.antt =====
-- What `SubscriptionManager::due_subscription_ids` of
-- src-tauri/src/application/subscription_management.rs promises the scheduler.
use veyra.Base.{
  map_ok, map_err, err, fail_if-eq-ok, >>-eq-ok, ◌>>◌, ltb, [], map, retain, subst, Member,
  Member-map, Member-map_in, Member-retain, ◌&&◌, refl, is_some_and, &&-true, true_and, leb→le,
  Bool-cases, leb, inl, inr, ◌≡◌, ◌↔◌, ℕ, ◌+◌, ◌*◌, ◌≤◌, List, Option, some, none, Result, ok, true,
  arith,
}
use veyra.Base.Text.{Text, text_le, text_le_total, text_le_trans}
use veyra.Base.Order.{Sorted, sort_by-Sorted, Member-sort_by}
use veyra.Domain.Types.{AppState, Subscription, SubscriptionId}
use veyra.Routing.Manager.{StateAccessError}
use veyra.Schedule.{
  SubscriptionOperationError, map_access_error, SnapshotStore, load_existing_or_empty,
  due_subscription_ids, max, saturate, max_u64, persisted_base, max_safe_integer, unwrap_or_zero,
  is_remote, deadline, is_due, due_ids, saturating_add, saturating_mul,
}

max_lem : (a b n : ℕ) → (max a b ≤ n) ↔ ((a ≤ n) × (b ≤ n))
max_lem a b n = elim (Bool-cases (leb a b)) [
  | inl e ↦ (λ k. ground arith, λ k. ground arith)
  | inr e ↦ (λ k. ground arith, λ k. ground arith)
]

max_sum : (a b c n : ℕ) → (max a b + c ≤ n) ↔ ((a + c ≤ n) × (b + c ≤ n))
max_sum a b c n = elim (Bool-cases (leb a b)) [
  | inl e ↦ (λ k. ground arith, λ k. ground arith)
  | inr e ↦ (λ k. ground arith, λ k. ground arith)
]

saturate_lem : (a n : ℕ) → n ≤ max_safe_integer → (saturate a ≤ n) ↔ (a ≤ n)
saturate_lem a n h = elim (Bool-cases (leb a max_u64)) [
  | inl e ↦ (λ k. ground arith, λ k. ground arith)
  | inr e ↦ (λ k. ground arith, λ k. ground arith)
]

saturate_sum : (a b n : ℕ) → n ≤ max_safe_integer → (saturate (a + saturate b) ≤ n) ↔ (a + b ≤ n)
saturate_sum a b n h = elim (Bool-cases (leb b max_u64)) [
  | inl e ↦ rw e (saturate_lem (a + b) n h)
  | inr e ↦ rw e (λ k. ground (arith, (saturate_lem (a + max_u64) n h).0), λ k. ground arith)
]

deadline_reached :
    (deadlines : SubscriptionId → Option ℕ) (s : Subscription) (minutes now : ℕ)
    → now ≤ max_safe_integer
    → (deadline deadlines s minutes ≤ now) ↔ (
        (unwrap_or_zero (deadlines s.id) ≤ now)
        × (unwrap_or_zero s.last_attempt_at_ms + minutes * 60000 ≤ now)
        × (unwrap_or_zero s.last_success_at_ms + minutes * 60000 ≤ now))
unfolding deadline saturating_add saturating_mul
deadline_reached deadlines s minutes now h =
    let base : ℕ = persisted_base s.last_attempt_at_ms s.last_success_at_ms in
    let whole =
      max_lem (unwrap_or_zero (deadlines s.id)) (saturate (base + saturate (minutes * 60000)))
        now in
    let sum = saturate_sum base (minutes * 60000) now h in
    let both =
      max_sum (unwrap_or_zero s.last_attempt_at_ms) (unwrap_or_zero s.last_success_at_ms)
        (minutes * 60000) now in
    (
      λ k. let (p, q) = whole.0 k in let (a, b) = both.0 (sum.0 q) in (p, a, b),
      λ k. whole.1 (k.0, sum.1 (both.1 (k.1, k.2))),
    )

-- The subscription is remote, updates itself, and its whole interval has passed since its last
-- attempt, its last success and the deadline that this process set.
abbrev pub IsDue : ℕ → (SubscriptionId → Option ℕ) → Subscription → Type 0
IsDue now deadlines s =
    (is_remote s.source ≡ true)
    × (s.update_policy.allow_auto_update ≡ true)
    × (minutes : ℕ) × (s.update_policy.interval_minutes ≡ some minutes)
    × (unwrap_or_zero (deadlines s.id) ≤ now)
    × (unwrap_or_zero s.last_attempt_at_ms + minutes * 60000 ≤ now)
    × (unwrap_or_zero s.last_success_at_ms + minutes * 60000 ≤ now)

interval_passed :
    (deadlines : SubscriptionId → Option ℕ) (s : Subscription) (now : ℕ) (interval : Option ℕ)
    → now ≤ max_safe_integer
    → (is_some_and interval (λ minutes. leb (deadline deadlines s minutes) now) ≡ true) ↔ (
        (minutes : ℕ) × (interval ≡ some minutes)
        × (unwrap_or_zero (deadlines s.id) ≤ now)
        × (unwrap_or_zero s.last_attempt_at_ms + minutes * 60000 ≤ now)
        × (unwrap_or_zero s.last_success_at_ms + minutes * 60000 ≤ now))
interval_passed deadlines s now none h = (λ k. cc, λ k. cc k.1)
interval_passed deadlines s now (some minutes) h =
    let reached = deadline_reached deadlines s minutes now h in
    (
      λ k. let (a, b, c) = reached.0 (leb→le _ _ k) in (minutes, refl, a, b, c),
      λ k.
          let (x, e, a, b, c) = k in
          let q : minutes ≡ x = cc in
          let d : deadline deadlines s minutes ≤ now = reached.1 (a, rw q b, rw q c) in
          ground arith,
    )

pub is_due_iff :
    (now : ℕ) (deadlines : SubscriptionId → Option ℕ) (s : Subscription)
    → now ≤ max_safe_integer
    → (is_due now deadlines s ≡ true) ↔ IsDue now deadlines s
unfolding is_due
is_due_iff now deadlines s h =
    let passed = interval_passed deadlines s now s.update_policy.interval_minutes h in
    (
      λ k.
          let (l, r) = &&-true (is_remote s.source && s.update_policy.allow_auto_update) _ k in
          let (a, b) = &&-true (is_remote s.source) s.update_policy.allow_auto_update l in
          let (m, e, x, y, z) = passed.0 r in (a, b, m, e, x, y, z),
      λ k. let (a, b, m, e, x, y, z) = k in true_and (true_and a b) (passed.1 (m, e, x, y, z)),
    )

-- What an answer says: it is sorted, and an identifier is in it exactly when some subscription of
-- the state has it and is due.
abbrev pub Lists : ℕ → (SubscriptionId → Option ℕ) → List Subscription → List Text → Type 0
Lists now deadlines subscriptions ids =
    Sorted text_le ids
    × ((id : Text)
        → Member id ids
          ↔ ((s : Subscription) × Member s subscriptions × (s.id ≡ id) × IsDue now deadlines s))

abbrev pub subscriptions_of : Option AppState → List Subscription
subscriptions_of none = []
subscriptions_of (some state) = state.subscriptions

due_ids-Lists :
    (now : ℕ) (deadlines : SubscriptionId → Option ℕ) (loaded : Option AppState)
    → now ≤ max_safe_integer
    → Lists now deadlines (subscriptions_of loaded) (due_ids now deadlines loaded)
unfolding due_ids
due_ids-Lists now deadlines none h = (tt, λ id. (λ m. absurd m, λ m. absurd m.1))
due_ids-Lists now deadlines (some state) h =
    let kept : List Subscription = retain (is_due now deadlines) state.subscriptions in
    let names : List Text = map (λ s. s.id) kept in
    (
      sort_by-Sorted text_le text_le_total text_le_trans names,
      λ id. (
        λ m.
            let (s, n, e) =
              Member-map_in (λ s. s.id) kept id ((Member-sort_by text_le names id).0 m) in
            let (k, d) = (Member-retain (is_due now deadlines) state.subscriptions s).0 n in
            (s, k, e, (is_due_iff now deadlines s h).0 d),
        λ m.
            let (s, k, e, d) = m in
            (Member-sort_by text_le names id).1 (
              subst (λ i. Member i names) e
                (Member-map (λ s. s.id) kept s
                  ((Member-retain (is_due now deadlines) state.subscriptions s).1
                    (k, (is_due_iff now deadlines s h).1 d)))),
      ),
    )

answered :
    (loaded : Result (Option AppState) SubscriptionOperationError) (now : ℕ)
    (deadlines : SubscriptionId → Option ℕ) (ids : List Text)
    → now ≤ max_safe_integer
    → map_ok (due_ids now deadlines) loaded ≡ ok ids
    → (state : Option AppState) × (loaded ≡ ok state)
      × Lists now deadlines (subscriptions_of state) ids
answered (err e) now deadlines ids h k = cc
answered (ok state) now deadlines ids h k =
    let q : due_ids now deadlines state ≡ ids = cc in
    let (a, b) = due_ids-Lists now deadlines state h in
    (state, refl, subst (λ i. Lists now deadlines (subscriptions_of state) i) q (a, b))

-- An answer of due_subscription_ids is of the stored state, at a time that JSON can carry: it is
-- sorted, and it has the identifiers of exactly the remote subscriptions that update themselves and
-- whose whole interval has passed since the last attempt, since the last success and, for the deadline
-- of the process, up to now. No sum that saturates makes one due.
pub due_subscription_ids-Lists :
    {Disk : Type 0} (S : SnapshotStore Disk) (access : Result (Unit {0}) StateAccessError)
    (deadlines : SubscriptionId → Option ℕ) (now : ℕ) (disk : Disk) (ids : List Text)
    → due_subscription_ids S access deadlines now disk ≡ ok ids
    → (now ≤ max_safe_integer)
      × (state : Option AppState) × (load_existing_or_empty S disk ≡ ok state)
      × Lists now deadlines (subscriptions_of state) ids
unfolding due_subscription_ids
due_subscription_ids-Lists S access deadlines now disk ids h =
    let (t, k) =
      fail_if-eq-ok (ltb max_safe_integer now) SubscriptionOperationError.invalid_input
        (map_err access map_access_error
          >> map_ok (due_ids now deadlines) (load_existing_or_empty S disk))
        h in
    let (a, r) =
      >>-eq-ok (map_err access map_access_error)
        (map_ok (due_ids now deadlines) (load_existing_or_empty S disk)) k in
    let bound : now ≤ max_safe_integer = ground arith in
    let (state, e, l) = answered (load_existing_or_empty S disk) now deadlines ids bound r in
    (bound, state, e, l)
