-- ===== src/Sidecar/Outcomes.antt =====
-- What each result of `start_or_replace` of src-tauri/src/singbox/runtime.rs says of the runtime.
use veyra.Base.{
  ℕ, ◌≡◌, ap, ◌∙◌, Option, none, some, true, Result, ok, err, is_err, is_some, inl, inr, ◌⊎◌, refl,
  arith, Bool-cases,
}
use veyra.Sidecar.{
  SidecarPort, SidecarPortError, SidecarError, SidecarLifecycle, SidecarRuntime,
  prepare_replacement, launch, replace_child, commit_prepared, start_or_replace, lifecycle_of,
  Outcome, commit_if_ok, stop, stop_child, clear,
}

module _ {Port Config : Type 0} (P : SidecarPort Port Config) where
  -- The instance and its configuration are those of before.
  abbrev pub IsUntouched : SidecarRuntime Port Config → SidecarRuntime Port Config → Type 0
  IsUntouched r r' = (r'.child ≡ r.child) × (r'.configs.active ≡ r.configs.active)

  -- The candidate that the port started is held, without an active configuration.
  abbrev pub HoldsStarted : SidecarRuntime Port Config → Type 0
  HoldsStarted r' =
      (p : Port) × (i : ℕ) × ((P.run p).0 ≡ ok i) × (r'.child ≡ some i) × (r'.configs.active ≡ none)

  -- By the error: a rejected candidate leaves the old instance running; a failed stop keeps it, with
  -- its configuration, and asks for recovery; a candidate that did not start leaves nothing running;
  -- where the candidate could not be stopped or cleaned up, recovery is asked for, and the runtime
  -- holds the old instance as before or the started candidate.
  abbrev pub Ensures : Config → SidecarRuntime Port Config → Outcome P → Type 0
  Ensures c r (ok _, r') =
      (lifecycle_of r' ≡ SidecarLifecycle.ready)
      × (r'.configs.active ≡ some c)
      × (r'.configs.candidate ≡ none)
  Ensures c r (err SidecarError.candidate_check, r') = IsUntouched r r'
  Ensures c r (err SidecarError.candidate_prepare, r') = IsUntouched r r'
  Ensures c r (err SidecarError.recovery_required, r') =
      IsUntouched r r' × (lifecycle_of r' ≡ SidecarLifecycle.recovery_required)
  Ensures c r (err SidecarError.active_stop, r') =
      IsUntouched r r'
      × (lifecycle_of r' ≡ SidecarLifecycle.recovery_required)
      × (r'.configs.candidate ≡ none)
  Ensures c r (err SidecarError.candidate_start, r') =
      (r'.child ≡ none) × (r'.configs.active ≡ none) × (r'.configs.candidate ≡ none)
  Ensures c r (err SidecarError.candidate_ready, r') =
      (r'.child ≡ none) × (r'.configs.active ≡ none) × (r'.configs.candidate ≡ none)
  Ensures c r (err SidecarError.candidate_stop, r') =
      (lifecycle_of r' ≡ SidecarLifecycle.recovery_required)
      × (r'.configs.candidate ≡ none)
      × (IsUntouched r r' ⊎ HoldsStarted r')

  launch-Ensures :
      (c : Config) (r q : SidecarRuntime Port Config)
      → q.child ≡ none
      → q.configs.candidate ≡ some c
      → Ensures c r (launch P q)
  unfolding launch lifecycle_of
  launch-Ensures c r q e k = split (P.run q.port).0 refl
    where
      split :
          (started : Result ℕ SidecarPortError)
          → (P.run q.port).0 ≡ started
          → Ensures c r (launch P q)
      split (err x) s = rw (s, launch) (ground arith)
      split (ok i) s =
          let p1 = (P.run q.port).1 in
          let p2 = (P.ready i p1).1 in
          elim (Bool-cases (is_err (P.ready i p1).0)) [
            | inr answered ↦ rw (s, launch, answered) (ground arith)
            | inl silent ↦ elim (Bool-cases (is_err (P.stop i p2).0)) [
              | inl failed ↦
                  rw (s, launch, silent, failed) (refl, refl, inr (q.port, i, s, refl, refl))
              | inr halted ↦ rw (s, launch, silent, halted) (ground arith)
            ]
          ]

  replace-Ensures :
      (c : Config) (r q : SidecarRuntime Port Config) (o : Option ℕ)
      → q.child ≡ o
      → q.configs.candidate ≡ some c
      → IsUntouched r q
      → Ensures c r (replace_child P o q)
  unfolding replace_child lifecycle_of
  replace-Ensures c r q none e k u = launch-Ensures c r q e k
  replace-Ensures c r q (some i) e k u = elim (Bool-cases (is_err (P.stop i q.port).0)) [
    | inr halted ↦
        rw halted
          (launch-Ensures c r (record q { port = (P.stop i q.port).1; child = none }) refl k)
    | inl failed ↦ elim (Bool-cases (is_err (P.cancel_pending (P.stop i q.port).1).0)) [
      | inl stuck ↦ rw (failed, stuck) (refl, refl, inl u)
      | inr freed ↦ rw (failed, freed) (u, refl, refl)
    ]
  ]

  -- A prepared candidate is held while the old instance runs on.
  abbrev Prepared : Config → SidecarRuntime Port Config → Outcome P → Type 0
  Prepared c r (ok _, q) = (q.configs.candidate ≡ some c) × IsUntouched r q
  Prepared c r (err e, q) = Ensures c r (err e, q)

  prepare-Prepared :
      (c : Config) (r : SidecarRuntime Port Config) → Prepared c r (prepare_replacement P c r)
  unfolding prepare_replacement lifecycle_of
  prepare-Prepared c r = ground arith

  commit-Ensures :
      (c : Config) (r : SidecarRuntime Port Config) (o : Outcome P)
      → Prepared c r o
      → Ensures c r (commit_if_ok P o)
  unfolding commit_if_ok commit_prepared
  commit-Ensures c r (err e, q) p = p
  commit-Ensures c r (ok _, q) p =
      let held : is_some q.configs.candidate ≡ true = ap is_some p.0 in
      rw held (replace-Ensures c r q q.child refl p.0 p.1)

  -- Each result of `start_or_replace` says which instance and which configuration the runtime is
  -- left with. After a success it is ready, with the new configuration active and no candidate. A
  -- candidate that was rejected leaves the instance and the active configuration as they were, and
  -- so do an attempt while recovery is required and a failed stop of the old instance, after which
  -- recovery is required. A candidate that did not start or was not ready leaves no instance and no
  -- configuration. Where the candidate could not be dropped or stopped, recovery is required, and
  -- the runtime has the old instance with its active configuration or the started candidate without
  -- one.
  pub start_or_replace-Ensures :
      (c : Config) (r : SidecarRuntime Port Config) → Ensures c r (start_or_replace P c r)
  unfolding start_or_replace
  start_or_replace-Ensures c r =
      commit-Ensures c r (prepare_replacement P c r) (prepare-Prepared c r)

  -- The port that the runtime was built with stays.
  launch-mixed_port : (r : SidecarRuntime Port Config) → (launch P r).1.mixed_port ≡ r.mixed_port
  unfolding launch
  launch-mixed_port r = ground arith

  replace-mixed_port :
      (o : Option ℕ) (r : SidecarRuntime Port Config)
      → (replace_child P o r).1.mixed_port ≡ r.mixed_port
  unfolding replace_child
  replace-mixed_port none r = launch-mixed_port r
  replace-mixed_port (some i) r = elim (Bool-cases (is_err (P.stop i r.port).0)) [
    | inl failed ↦ rw failed
    | inr halted ↦
        rw halted (launch-mixed_port (record r { port = (P.stop i r.port).1; child = none }))
  ]

  prepare-mixed_port :
      (c : Config) (r : SidecarRuntime Port Config)
      → (prepare_replacement P c r).1.mixed_port ≡ r.mixed_port
  unfolding prepare_replacement
  prepare-mixed_port c r = ground arith

  commit-mixed_port : (o : Outcome P) → (commit_if_ok P o).1.mixed_port ≡ o.1.mixed_port
  unfolding commit_if_ok commit_prepared
  commit-mixed_port (err e, r) = refl
  commit-mixed_port (ok _, r) = ground (arith, replace-mixed_port r.child r)

  pub start-mixed_port :
      (c : Config) (r : SidecarRuntime Port Config)
      → (start_or_replace P c r).1.mixed_port ≡ r.mixed_port
  unfolding start_or_replace
  start-mixed_port c r = commit-mixed_port (prepare_replacement P c r) ∙ prepare-mixed_port c r

  -- By the error: an instance that could not be stopped is kept, with the configurations; where only
  -- the cleanup failed nothing is held.
  abbrev pub FailedStop :
      SidecarRuntime Port Config → SidecarError → SidecarRuntime Port Config → Type 0
  FailedStop r SidecarError.active_stop r' = (r'.child ≡ r.child) × (r'.configs ≡ r.configs)
  FailedStop r SidecarError.candidate_stop r' =
      (r'.child ≡ none) × (r'.configs.active ≡ none) × (r'.configs.candidate ≡ none)
  FailedStop r e r' = ⊥

  -- A stop that succeeds leaves nothing, one that fails asks for recovery.
  abbrev pub Stops : SidecarRuntime Port Config → Outcome P → Type 0
  Stops r (ok _, r') =
      (lifecycle_of r' ≡ SidecarLifecycle.stopped)
      × (r'.configs.active ≡ none)
      × (r'.mixed_port ≡ r.mixed_port)
      × (r'.child ≡ none)
      × (r'.configs.candidate ≡ none)
  Stops r (err e, r') =
      (lifecycle_of r' ≡ SidecarLifecycle.recovery_required)
      × (r'.mixed_port ≡ r.mixed_port)
      × FailedStop r e r'

  clear-Stops :
      (r q : SidecarRuntime Port Config)
      → q.child ≡ none
      → q.mixed_port ≡ r.mixed_port
      → Stops r (clear P q)
  unfolding clear lifecycle_of
  clear-Stops r q e m = ground arith

  stop_child-Stops :
      (o : Option ℕ) (r : SidecarRuntime Port Config) → r.child ≡ o → Stops r (stop_child P o r)
  unfolding stop_child lifecycle_of
  stop_child-Stops none r e = clear-Stops r r e refl
  stop_child-Stops (some i) r e = elim (Bool-cases (is_err (P.stop i r.port).0)) [
    | inl failed ↦ rw failed (refl, refl, (refl, refl))
    | inr halted ↦
        rw halted (clear-Stops r (record r { port = (P.stop i r.port).1; child = none }) refl refl)
  ]

  -- Each result of `stop` says what the runtime is left with, and keeps the port of the proxy.
  -- After a success it is stopped, with no instance, no active configuration and no candidate.
  -- After an error recovery is required: an instance that could not be stopped is kept with the
  -- configurations, and where only the pending candidate could not be dropped no instance and no
  -- configuration is held.
  pub stop-Stops : (r : SidecarRuntime Port Config) → Stops r (stop P r)
  unfolding stop
  stop-Stops r = stop_child-Stops r.child r refl
