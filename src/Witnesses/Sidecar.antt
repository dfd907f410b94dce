-- ===== src/Witnesses/Sidecar.antt =====
-- A port whose processes are a list, for the theorems on src-tauri/src/singbox/runtime.rs.
use veyra.Base.{
  ◌≡◌, refl, ℕ, suc, List, [], ◌∷◌, none, some, Bool, true, false, Result, ok, err, is_some,
  nat_beq, arith, if◌then◌else◌,
}
use veyra.Sidecar.{
  SidecarPort, SidecarPortError, SidecarRuntime, SidecarLifecycle, sidecar_port_error,
  start_or_replace, lifecycle_of, active_config, prepare_replacement, commit_if_ok, commit_prepared,
  replace_child, launch, stop, new, Op, step, run_all,
}
use veyra.Sidecar.Ownership.{TracksChildren, child_list, run_all-IsOwned}
use veyra.Sidecar.Outcomes.{Ensures, Stops, start_or_replace-Ensures, stop-Stops}
use veyra.Sidecar.Slots.{run_all-active}

-- The processes that run, and the number of the next one.
abbrev pub Processes : Type 0
Processes = List ℕ × ℕ

abbrev result_if : {A : Type 0} → Bool → A → Result A SidecarPortError
result_if good a = if good then ok a else err sidecar_port_error

-- Configuration 0 does not pass the check, and instance 3 never becomes ready.
abbrev pub demo_port : SidecarPort Processes ℕ
demo_port = record {
  check = λ c s. (result_if (if nat_beq c 0 then false else true) tt, s);
  prepare = λ c s. (ok tt, s);
  run = λ s. (ok s.1, (s.1 ∷ [], suc s.1));
  ready = λ i s. (result_if (if nat_beq i 3 then false else true) tt, s);
  stop = λ i s. (ok tt, ([], s.1));
  cancel_pending = λ s. (ok tt, s);
  has_pending_cleanup = λ s. false;
}

abbrev live : Processes → List ℕ
live s = s.0

demo_port-TracksChildren : TracksChildren demo_port live
demo_port-TracksChildren = record {
  check_live = λ c s. refl;
  prepare_live = λ c s. refl;
  ready_live = λ i s. refl;
  cancel_live = λ s. refl;
  run_ok = λ s i e h. ground arith;
  run_err = λ s e l h. refl_none s e h;
  stop_ok = λ i s e h. refl;
  stop_err = λ i s e h. cc;
}
  where
    refl_none :
        (s : Processes) (e : SidecarPortError)
        → ◌≡◌ {A = Result ℕ SidecarPortError} (ok s.1) (err e)
        → ◌≡◌ {A = List ℕ} (s.1 ∷ []) []
    refl_none s e h = cc

abbrev pub fresh : SidecarRuntime Processes ℕ
fresh = new ([], 1) (some 7_890)

-- A start, a rejected replacement, a replacement, one that never answers, and a start.
abbrev calls : List (Op ℕ)
calls = Op.start 5 ∷ Op.start 0 ∷ Op.prepare 6 ∷ Op.commit ∷ Op.start 7 ∷ Op.start 8 ∷ []

calls_end_ready : lifecycle_of (run_all demo_port calls fresh) ≡ SidecarLifecycle.ready
unfolding run_all step start_or_replace prepare_replacement commit_if_ok commit_prepared
    replace_child launch lifecycle_of
calls_end_ready = refl

run_all-IsOwned_example :
    live (run_all demo_port calls fresh).port ≡ child_list (run_all demo_port calls fresh).child
run_all-IsOwned_example = run_all-IsOwned demo_port live demo_port-TracksChildren calls fresh refl

run_all-active_example : is_some (active_config (run_all demo_port calls fresh)) ≡ true
run_all-active_example = run_all-active demo_port calls ([], 1) (some 7_890) calls_end_ready

start_or_replace-Ensures_example : Ensures demo_port 5 fresh (start_or_replace demo_port 5 fresh)
start_or_replace-Ensures_example = start_or_replace-Ensures demo_port 5 fresh

abbrev running : SidecarRuntime Processes ℕ
running = record fresh {
  port = (4 ∷ [], 5);
  child = some 4;
  configs = record { candidate = none; active = some 5 };
}

stop-Stops_example : Stops demo_port running (stop demo_port running)
stop-Stops_example = stop-Stops demo_port running
