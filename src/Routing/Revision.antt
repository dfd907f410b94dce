-- ===== src/Routing/Revision.antt =====
-- The revision of the routing state: `CasMaterial` and `RevisionState` of
-- src-tauri/src/application/proxy_routing.rs.
use veyra.Base.{
  ◌≡◌, inl, inr, refl, ap, ℕ, suc, ◌+◌, ◌≤◌, List, Option, none, some, Bool, true, false, Result,
  ok, err, if◌then◌else◌, map, ltb, decide_beq, decide_beq_iff, ℕ_discrete, Bool-cases, arith,
}
use veyra.Base.Text.{Text}
use veyra.Domain.Types.{
  AppState, Provider, ProxyNode, ProxyProtocol, NodePool, RouteTarget, RoutePolicy,
  max_safe_integer,
}
use veyra.Routing.Types.{QueryError}

pub record CasMaterial : Type 0 where
  pub active_subscription_id : Option Text
  pub desired_generation : ℕ
  -- id, subscription_id, name
  pub providers : List (Text × Text × Text)
  -- id, provider_id, name, protocol
  pub nodes : List (Text × Text × Text × ProxyProtocol)
  pub pools : List NodePool
  pub default_target : RouteTarget
  pub routes : List RoutePolicy

unfoldable pub CasMaterial-discrete : Discrete CasMaterial
CasMaterial-discrete = hlevel (ℕ_discrete)

-- `CasMaterial::from`
abbrev pub material_of : AppState → CasMaterial
material_of state = record {
  active_subscription_id = state.active_subscription_id;
  desired_generation = state.active_configuration_generation;
  providers = map (λ (v : Provider). (v.id, v.subscription_id, v.name)) state.providers;
  nodes = map (λ (v : ProxyNode). (v.id, v.provider_id, v.name, v.protocol)) state.nodes;
  pools = state.pools;
  default_target = state.default_target;
  routes = state.routes;
}

pub record RevisionState : Type 0 where
  pub revision : ℕ
  pub material : Option CasMaterial

-- `self.material.as_ref() == Some(&material)`
unfoldable pub is_observed : Option CasMaterial → CasMaterial → Bool
is_observed none material = false
is_observed (some old) material = decide_beq CasMaterial-discrete old material

-- `checked_add(1).filter(|v| *v <= MAX_SAFE_INTEGER)`, which also excludes an overflow of `u64`
abbrev pub next_safe : ℕ → Option ℕ
next_safe n = if ltb max_safe_integer (suc n) then none else some (suc n)

unfoldable pub observe : CasMaterial → RevisionState → Result ℕ QueryError × RevisionState
observe material s =
    if is_observed s.material material then (ok s.revision, s) else elim (next_safe s.revision) [
      | none ↦ (err QueryError.state_unavailable, s)
      | some revision ↦ (ok revision, record { revision = revision; material = some material })
    ]

pub observed_path : (o : Option CasMaterial) (c : CasMaterial) → is_observed o c ≡ true → o ≡ some c
unfolding is_observed
observed_path none c h = cc
observed_path (some old) c h = ap some ((decide_beq_iff CasMaterial-discrete old c).0 h)

-- `observe` names the material and steps the revision by one at most; it fails at the last revision
-- alone, where it changes nothing.
abbrev pub Observes : CasMaterial → RevisionState → Result ℕ QueryError × RevisionState → Type 0
Observes c s (ok r, s') =
    (s'.revision ≡ r) × (s'.material ≡ some c) × (s.revision ≤ r) × (r ≤ s.revision + 1)
Observes c s (err e, s') = (s' ≡ s) × (max_safe_integer ≤ s.revision)

pub observe-Observes : (c : CasMaterial) (s : RevisionState) → Observes c s (observe c s)
unfolding observe
observe-Observes c s = elim (Bool-cases (is_observed s.material c)) [
  | inl e ↦ rw e (refl, observed_path s.material c e, omega arith, omega arith)
  | inr e ↦ elim (Bool-cases (ltb max_safe_integer (suc s.revision))) [
    | inl t ↦ rw (e, t) (refl, ground arith)
    | inr t ↦ rw (e, t) (refl, refl, omega arith, omega arith)
  ]
]
