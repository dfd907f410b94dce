-- ===== src/Sidecar/Slots.antt =====
-- The state of the sidecar runtime of src-tauri/src/singbox/runtime.rs stays consistent.
use veyra.Base.{
  ℕ, List, [], ◌∷◌, ◌≡◌, Option, none, some, true, false, ok, err, is_err, is_some, inl, inr, refl,
  arith, Bool-cases,
}
use veyra.Sidecar.{
  SidecarPort, SidecarRuntime, SidecarLifecycle, prepare_replacement, launch, replace_child,
  commit_prepared, start_or_replace, cancel_prepared, clear, stop_child, stop,
  recover_active_failure, lifecycle_of, active_config, new, Outcome, commit_if_ok, Op, step,
  run_all,
}

-- Unless recovery is required, an instance runs exactly when a configuration is active.
abbrev pub IsSettled : {Port Config : Type 0} → SidecarRuntime Port Config → Type 0
IsSettled r = r.recovery_required ≡ false → is_some r.child ≡ is_some r.configs.active

module _ {Port Config : Type 0} (P : SidecarPort Port Config) where
  prepare-IsSettled :
      (candidate : Config) (r : SidecarRuntime Port Config)
      → IsSettled r
      → IsSettled (prepare_replacement P candidate r).1
  unfolding prepare_replacement
  prepare-IsSettled candidate r v = ground arith

  launch-IsSettled :
      (r : SidecarRuntime Port Config)
      → r.child ≡ none
      → is_some r.configs.candidate ≡ true
      → IsSettled (launch P r).1
  unfolding launch
  launch-IsSettled r e c = ground arith

  replace_child-IsSettled :
      (o : Option ℕ) (r : SidecarRuntime Port Config)
      → r.child ≡ o
      → is_some r.configs.candidate ≡ true
      → IsSettled (replace_child P o r).1
  unfolding replace_child
  replace_child-IsSettled none r e c = launch-IsSettled r e c
  replace_child-IsSettled (some child) r e c = elim (Bool-cases (is_err (P.stop child r.port).0)) [
    | inl failed ↦ rw failed (λ h. cc)
    | inr halted ↦
        rw halted
          (launch-IsSettled (record r { port = (P.stop child r.port).1; child = none }) refl c)
  ]

  commit-IsSettled :
      (r : SidecarRuntime Port Config) → IsSettled r → IsSettled (commit_prepared P r).1
  unfolding commit_prepared
  commit-IsSettled r v = elim (Bool-cases (is_some r.configs.candidate)) [
    | inl c ↦ rw c (replace_child-IsSettled r.child r refl c)
    | inr e ↦ rw e v
  ]

  commit_if_ok-IsSettled : (o : Outcome P) → IsSettled o.1 → IsSettled (commit_if_ok P o).1
  unfolding commit_if_ok
  commit_if_ok-IsSettled (err e, r) v = v
  commit_if_ok-IsSettled (ok u, r) v = commit-IsSettled r v

  start-IsSettled :
      (candidate : Config) (r : SidecarRuntime Port Config)
      → IsSettled r
      → IsSettled (start_or_replace P candidate r).1
  unfolding start_or_replace
  start-IsSettled candidate r v =
      commit_if_ok-IsSettled (prepare_replacement P candidate r) (prepare-IsSettled candidate r v)

  cancel-IsSettled :
      (r : SidecarRuntime Port Config) → IsSettled r → IsSettled (cancel_prepared P r).1
  unfolding cancel_prepared
  cancel-IsSettled r v = ground arith

  clear-IsSettled : (r : SidecarRuntime Port Config) → r.child ≡ none → IsSettled (clear P r).1
  unfolding clear
  clear-IsSettled r e = ground arith

  stop_child-IsSettled :
      (o : Option ℕ) (r : SidecarRuntime Port Config) → r.child ≡ o → IsSettled (stop_child P o r).1
  unfolding stop_child
  stop_child-IsSettled none r e = clear-IsSettled r e
  stop_child-IsSettled (some child) r e = elim (Bool-cases (is_err (P.stop child r.port).0)) [
    | inl failed ↦ rw failed (λ h. cc)
    | inr halted ↦
        rw halted (clear-IsSettled (record r { port = (P.stop child r.port).1; child = none }) refl)
  ]

  step-IsSettled :
      (op : Op Config) (r : SidecarRuntime Port Config) → IsSettled r → IsSettled (step P op r).1
  unfolding step stop recover_active_failure
  step-IsSettled (Op.prepare candidate) r v = prepare-IsSettled candidate r v
  step-IsSettled Op.commit r v = commit-IsSettled r v
  step-IsSettled Op.cancel r v = cancel-IsSettled r v
  step-IsSettled Op.halt r v = stop_child-IsSettled r.child r refl
  step-IsSettled Op.recover r v = stop_child-IsSettled r.child r refl
  step-IsSettled (Op.start candidate) r v = start-IsSettled candidate r v

  pub run_all-IsSettled :
      (ops : List (Op Config)) (r : SidecarRuntime Port Config)
      → IsSettled r
      → IsSettled (run_all P ops r)
  unfolding run_all
  run_all-IsSettled [] r v = v
  run_all-IsSettled (op ∷ ops) r v = run_all-IsSettled ops (step P op r).1 (step-IsSettled op r v)

  ready_active :
      (r : SidecarRuntime Port Config)
      → IsSettled r
      → lifecycle_of r ≡ SidecarLifecycle.ready
      → is_some (active_config r) ≡ true
  unfolding lifecycle_of active_config
  ready_active r v h = ground arith

  -- After any calls on a new runtime, a Ready snapshot comes with an active configuration, which
  -- `with_active_config` lends.
  pub run_all-active :
      (ops : List (Op Config)) (port : Port) (mixed_port : Option ℕ)
      → lifecycle_of (run_all P ops (new port mixed_port)) ≡ SidecarLifecycle.ready
      → is_some (active_config (run_all P ops (new port mixed_port))) ≡ true
  run_all-active ops port mixed_port h =
      ready_active (run_all P ops (new port mixed_port)) (run_all-IsSettled ops _ (λ _. refl)) h
