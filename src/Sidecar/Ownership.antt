-- ===== src/Sidecar/Ownership.antt =====
-- The sidecar runtime of src-tauri/src/singbox/runtime.rs owns every instance that runs, and never
-- has two.
use veyra.Base.{
  ℕ, ◌≡◌, sym, ap, ◌∙◌, Option, none, some, true, false, Result, ok, err, is_err, is_some, inl, inr,
  refl, arith, Bool-cases, List, [], ◌∷◌,
}
use veyra.Sidecar.{
  SidecarPort, SidecarPortError, SidecarRuntime, prepare_replacement, launch, replace_child,
  commit_prepared, start_or_replace, cancel_prepared, clear, stop_child, stop,
  recover_active_failure, Outcome, commit_if_ok, Op, step, run_all,
}

-- What a port promises of the processes that run: `live` lists them. `run` is only promised to work
-- while nothing runs, and `stop` while its argument is the one process. A stop that reports an error
-- has left the process alone.
pub record TracksChildren {Port Config : Type 0} (P : SidecarPort Port Config)
    (live : Port → List ℕ) : Type 0 where
  pub check_live : (c : Config) (s : Port) → live (P.check c s).1 ≡ live s
  pub prepare_live : (c : Config) (s : Port) → live (P.prepare c s).1 ≡ live s
  pub ready_live : (i : ℕ) (s : Port) → live (P.ready i s).1 ≡ live s
  pub cancel_live : (s : Port) → live (P.cancel_pending s).1 ≡ live s
  pub run_ok : (s : Port) (i : ℕ) → live s ≡ [] → (P.run s).0 ≡ ok i → live (P.run s).1 ≡ i ∷ []
  pub run_err :
      (s : Port) (e : SidecarPortError) → live s ≡ [] → (P.run s).0 ≡ err e → live (P.run s).1 ≡ []
  pub stop_ok :
      (i : ℕ) (s : Port)
      → live s ≡ i ∷ []
      → is_err (P.stop i s).0 ≡ false
      → live (P.stop i s).1 ≡ []
  pub stop_err :
      (i : ℕ) (s : Port)
      → live s ≡ i ∷ []
      → is_err (P.stop i s).0 ≡ true
      → live (P.stop i s).1 ≡ i ∷ []

abbrev pub child_list : Option ℕ → List ℕ
child_list none = []
child_list (some i) = i ∷ []

module _ {Port Config : Type 0} (P : SidecarPort Port Config) (live : Port → List ℕ)
    (laws : TracksChildren P live) where
  -- What runs is the child that the runtime holds.
  abbrev IsOwned : SidecarRuntime Port Config → Type 0
  IsOwned r = live r.port ≡ child_list r.child

  prepare-IsOwned :
      (c : Config) (r : SidecarRuntime Port Config)
      → IsOwned r
      → IsOwned (prepare_replacement P c r).1
  unfolding prepare_replacement
  prepare-IsOwned c r v = ground (
    arith,
    laws.check_live c r.port,
    laws.prepare_live c (P.check c r.port).1,
    laws.cancel_live (P.prepare c (P.check c r.port).1).1,
  )

  after_run :
      (r : SidecarRuntime Port Config) (started : Result ℕ SidecarPortError)
      → (P.run r.port).0 ≡ started
      → r.child ≡ none
      → live r.port ≡ []
      → IsOwned (launch P r).1
  unfolding launch
  after_run r (err e) s c v = rw (s, launch) (laws.run_err r.port e v s ∙ ap child_list (sym c))
  after_run r (ok i) s c v =
      let p1 = (P.run r.port).1 in
      let p2 = (P.ready i p1).1 in
      let running : live p2 ≡ i ∷ [] = laws.ready_live i p1 ∙ laws.run_ok r.port i v s in
      rw (s, launch)
        (ground (arith, running, laws.stop_ok i p2 running, laws.stop_err i p2 running))

  launch-IsOwned :
      (r : SidecarRuntime Port Config) → r.child ≡ none → live r.port ≡ [] → IsOwned (launch P r).1
  launch-IsOwned r c v = after_run r (P.run r.port).0 refl c v

  replace_child-IsOwned :
      (o : Option ℕ) (r : SidecarRuntime Port Config)
      → r.child ≡ o
      → IsOwned r
      → IsOwned (replace_child P o r).1
  unfolding replace_child
  replace_child-IsOwned none r e v = launch-IsOwned r e (v ∙ ap child_list e)
  replace_child-IsOwned (some i) r e v =
      let p1 = (P.stop i r.port).1 in
      let running : live r.port ≡ i ∷ [] = v ∙ ap child_list e in
      elim (Bool-cases (is_err (P.stop i r.port).0)) [
        | inl failed ↦
            rw failed
              (laws.cancel_live p1 ∙ laws.stop_err i r.port running failed ∙ ap child_list (sym e))
        | inr halted ↦ rw halted (
            launch-IsOwned (record r { port = p1; child = none }) refl
              (laws.stop_ok i r.port running halted))
      ]

  commit-IsOwned : (r : SidecarRuntime Port Config) → IsOwned r → IsOwned (commit_prepared P r).1
  unfolding commit_prepared
  commit-IsOwned r v = elim (Bool-cases (is_some r.configs.candidate)) [
    | inl c ↦ rw c (replace_child-IsOwned r.child r refl v)
    | inr e ↦ rw e v
  ]

  commit_if_ok-IsOwned : (o : Outcome P) → IsOwned o.1 → IsOwned (commit_if_ok P o).1
  unfolding commit_if_ok
  commit_if_ok-IsOwned (err e, r) v = v
  commit_if_ok-IsOwned (ok u, r) v = commit-IsOwned r v

  cancel-IsOwned : (r : SidecarRuntime Port Config) → IsOwned r → IsOwned (cancel_prepared P r).1
  unfolding cancel_prepared
  cancel-IsOwned r v = ground (arith, laws.cancel_live r.port)

  clear-IsOwned : (r : SidecarRuntime Port Config) → IsOwned r → IsOwned (clear P r).1
  unfolding clear
  clear-IsOwned r v = ground (arith, laws.cancel_live r.port)

  stop_child-IsOwned :
      (o : Option ℕ) (r : SidecarRuntime Port Config)
      → r.child ≡ o
      → IsOwned r
      → IsOwned (stop_child P o r).1
  unfolding stop_child
  stop_child-IsOwned none r e v = clear-IsOwned r v
  stop_child-IsOwned (some i) r e v =
      let running : live r.port ≡ i ∷ [] = v ∙ ap child_list e in
      elim (Bool-cases (is_err (P.stop i r.port).0)) [
        | inl failed ↦ rw failed (laws.stop_err i r.port running failed ∙ ap child_list (sym e))
        | inr halted ↦ rw halted (
            clear-IsOwned (record r { port = (P.stop i r.port).1; child = none })
              (laws.stop_ok i r.port running halted))
      ]

  step-IsOwned :
      (op : Op Config) (r : SidecarRuntime Port Config) → IsOwned r → IsOwned (step P op r).1
  unfolding step stop recover_active_failure start_or_replace
  step-IsOwned (Op.prepare c) r v = prepare-IsOwned c r v
  step-IsOwned Op.commit r v = commit-IsOwned r v
  step-IsOwned Op.cancel r v = cancel-IsOwned r v
  step-IsOwned Op.halt r v = stop_child-IsOwned r.child r refl v
  step-IsOwned Op.recover r v = stop_child-IsOwned r.child r refl v
  step-IsOwned (Op.start c) r v =
      commit_if_ok-IsOwned (prepare_replacement P c r) (prepare-IsOwned c r v)

  -- Whatever the owner calls and whatever the port reports, the processes that run are exactly the
  -- child that the runtime holds: none is lost, and there are never two.
  pub run_all-IsOwned :
      (ops : List (Op Config)) (r : SidecarRuntime Port Config)
      → live r.port ≡ child_list r.child
      → live (run_all P ops r).port ≡ child_list (run_all P ops r).child
  unfolding run_all
  run_all-IsOwned [] r v = v
  run_all-IsOwned (op ∷ ops) r v = run_all-IsOwned ops (step P op r).1 (step-IsOwned op r v)
