-- ===== src/Domain/State/Valid/Parts.antt =====
-- The checks that `validate` of src-tauri/src/domain/state.rs makes of each part, against what they
-- mean.
use veyra.Base.{
  ◌≡◌, ◌↔◌, refl, List, Bool, true, false, not, ◌||◌, ok, Member, All, contains, contains_iff,
  Option, none, some, is_some_and, is_none_or, fail_if, fail_if_iff, >>_iff, All-member,
}
use veyra.Base.Text.{Text, text_eq, present}
use veyra.Domain.Types.{
  ProxyNode, Provider, RouteTarget, missing_pool, missing_provider, missing_subscription,
  invalid_protocol_options,
}
use veyra.Domain.Options.{is_compatible_with, tls_is_valid, has_valid_early_data}
use veyra.Domain.State.{validate_target, validate_provider, validate_node}

-- A pool target names a pool.
abbrev pub TargetIn : List Text → RouteTarget → Type 0
TargetIn pools (RouteTarget.pool pool_id) = Member pool_id pools
TargetIn pools _ = Unit

pub or_false : (a b : Bool) → ((a || b) ≡ false) ↔ ((a ≡ false) × (b ≡ false))
or_false true b = (λ h. cc, λ h. cc)
or_false false b = (λ h. (refl, h), λ h. h.1)

pub not-false : (a : Bool) → (not a ≡ false) ↔ (a ≡ true)
not-false true = (λ _. refl, λ _. refl)
not-false false = (λ h. cc, λ h. cc)

pub absent_iff : (xs : List Text) (a : Text) → (not (contains xs a) ≡ false) ↔ Member a xs
absent_iff xs a = (
  λ h. (contains_iff xs a).0 ((not-false (contains xs a)).0 h),
  λ m. (not-false (contains xs a)).1 ((contains_iff xs a).1 m),
)

pub validate_target_iff :
    (pools : List Text) (t : RouteTarget) → (validate_target t pools ≡ ok tt) ↔ TargetIn pools t
unfolding validate_target
validate_target_iff pools (RouteTarget.pool p) = (
  λ h. (absent_iff pools p).0 ((fail_if_iff _ missing_pool).0 h),
  λ m. (fail_if_iff _ missing_pool).1 ((absent_iff pools p).1 m),
)
validate_target_iff pools RouteTarget.unconfigured = (λ _. tt, λ _. refl)
validate_target_iff pools _ = (λ _. tt, λ _. refl)

-- A reference to an identifier of a list whose entries are all present.
reference_iff :
    (ids : List Text) (a : Text)
    → All (λ id. present id ≡ true) ids
    → ((not (present a) || not (contains ids a)) ≡ false) ↔ Member a ids
reference_iff ids a v = (
  λ h. (absent_iff ids a).0 ((or_false (not (present a)) (not (contains ids a))).0 h).1,
  λ m. (or_false (not (present a)) (not (contains ids a))).1 (
    (not-false (present a)).1 (All-member (λ id. present id ≡ true) ids v a m),
    (absent_iff ids a).1 m,
  ),
)

pub validate_provider_iff :
    (ids : List Text) (p : Provider)
    → All (λ id. present id ≡ true) ids
    → (validate_provider ids p ≡ ok tt) ↔ Member p.subscription_id ids
unfolding validate_provider
validate_provider_iff ids p v = (
  λ h. (reference_iff ids p.subscription_id v).0 ((fail_if_iff _ missing_subscription).0 h),
  λ m. (fail_if_iff _ missing_subscription).1 ((reference_iff ids p.subscription_id v).1 m),
)

pub record NodeIsValid (providers : List Text) (node : ProxyNode) : Type 0 where
  pub provider_in : Member node.provider_id providers
  pub compatible : is_compatible_with node.options node.protocol ≡ true
  pub tls_valid : is_none_or node.tls tls_is_valid ≡ true
  pub transport_valid : is_none_or node.transport has_valid_early_data ≡ true

pub none_or_iff :
    {A : Type 0} (o : Option A) (p : A → Bool)
    → (is_some_and o (λ a. not (p a)) ≡ false) ↔ (is_none_or o p ≡ true)
none_or_iff none p = (λ _. refl, λ _. refl)
none_or_iff (some a) p = not-false (p a)

pub validate_node_iff :
    (ids : List Text) (node : ProxyNode)
    → All (λ id. present id ≡ true) ids
    → (validate_node ids node ≡ ok tt) ↔ NodeIsValid ids node
unfolding validate_node
validate_node_iff ids node v = (
  λ h.
      let (a, b) =
        (>>_iff (fail_if _ missing_provider) (fail_if _ invalid_protocol_options) tt).0 h in
      let c = (fail_if_iff _ invalid_protocol_options).0 b in
      let (cd, f) = (or_false _ _).0 c in
      let (d, g) = (or_false _ _).0 cd in
      record {
        provider_in =
            (reference_iff ids node.provider_id v).0 ((fail_if_iff _ missing_provider).0 a);
        compatible = (not-false _).0 d;
        tls_valid = (none_or_iff node.tls tls_is_valid).0 g;
        transport_valid = (none_or_iff node.transport has_valid_early_data).0 f;
      },
  λ n. (>>_iff (fail_if _ missing_provider) (fail_if _ invalid_protocol_options) tt).1 (
    (fail_if_iff _ missing_provider).1 ((reference_iff ids node.provider_id v).1 n.provider_in),
    (fail_if_iff _ invalid_protocol_options).1 (
        (or_false _ _).1 (
          (or_false _ _).1
              ((not-false _).1 n.compatible, (none_or_iff node.tls tls_is_valid).1 n.tls_valid),
          (none_or_iff node.transport has_valid_early_data).1 n.transport_valid,
        )),
  ),
)
