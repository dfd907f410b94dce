-- ===== src/Routing/Manager/Bounded.antt =====
-- The revision of `ProxyRoutingManager`, src-tauri/src/application/proxy_routing.rs, over its calls.
use veyra.Base.{ℕ, ◌≤◌, List, Option, Bool-cases, inl, inr, ltb, suc, arith}
use veyra.Base.Text.{Text}
use veyra.Domain.Types.{max_safe_integer}
use veyra.Routing.Input.{Url}
use veyra.Routing.Revision.{CasMaterial, RevisionState, is_observed, observe}
use veyra.Routing.Manager.{StateStore, Manager}
use veyra.Routing.Manager.Invariant.{Attempt, mutate_all, Keeps, mutate_all-Inv}

-- The revision is at least the first one and can be written as a number of JavaScript.
abbrev Within : ℕ → ℕ → Type 0
Within first r = (first ≤ r) × (r ≤ max_safe_integer)

observe-Within :
    (first : ℕ) (c : CasMaterial) (s : RevisionState)
    → Within first s.revision
    → Within first (observe c s).1.revision
unfolding observe
observe-Within first c s v = elim (Bool-cases (is_observed s.material c)) [
  | inl e ↦ rw e v
  | inr e ↦ elim (Bool-cases (ltb max_safe_integer (suc s.revision))) [
    | inl t ↦ rw (e, t) v
    | inr t ↦ rw (e, t) (omega (arith, v.0), ground arith)
  ]
]

module _ {Disk : Type 0} (S : StateStore Disk) (parse : Text → Option Url) where
  revision-Keeps : (first : ℕ) → Keeps S (λ m. Within first m.revision.revision)
  revision-Keeps first = record {
    observed = λ c m v. observe-Within first c m.revision v;
    saved = λ s m w v. v;
    loaded = λ m v. v;
    tuple = λ a m v. v;
  }

  -- Over any calls of `mutate`, with any store, the revision never falls, and it never exceeds the
  -- largest safe integer if it did not at first.
  pub mutate_all-bounded :
      (attempts : List Attempt) (m : Manager Disk)
      → m.revision.revision ≤ max_safe_integer
      → (m.revision.revision ≤ (mutate_all S parse attempts m).revision.revision)
        × ((mutate_all S parse attempts m).revision.revision ≤ max_safe_integer)
  mutate_all-bounded attempts m h =
      mutate_all-Inv S parse (λ n. Within m.revision.revision n.revision.revision)
        (revision-Keeps m.revision.revision) attempts m (omega arith, h)
