-- ===== src/Sidecar.antt =====
-- The sidecar transaction of src-tauri/src/singbox/runtime.rs. A platform port is an argument: the
-- trait `SidecarPort` is the record of its calls, each of which takes the port's state and returns
-- the new one.
pub mod Ownership
pub mod Slots
pub mod Outcomes
use veyra.Base.{
  ℕ, ◌≡◌, Option, none, some, Bool, true, false, ◌||◌, Result, ok, err, is_err, is_some, map_ok,
  if◌then◌else◌, List, [], ◌∷◌,
}

pub data SidecarPortError : Type 0 where
  sidecar_port_error : SidecarPortError

-- The result of a call of the port, and the state after it.
abbrev pub Call : Type 0 → Type 0 → Type 0
Call Port A = Port → Result A SidecarPortError × Port

-- An instance is known by the number that `run` gave it.
pub record SidecarPort (Port Config : Type 0) : Type 0 where
  pub check : Config → Call Port (Unit {0})
  pub prepare : Config → Call Port (Unit {0})
  pub run : Call Port ℕ
  pub ready : ℕ → Call Port (Unit {0})
  pub stop : ℕ → Call Port (Unit {0})
  pub cancel_pending : Call Port (Unit {0})
  pub has_pending_cleanup : Port → Bool

pub data SidecarLifecycle : Type 0 where
  stopped ready recovery_required : SidecarLifecycle

pub data SidecarError : Type 0 where
  candidate_check candidate_prepare active_stop candidate_start candidate_ready candidate_stop
        recovery_required :
      SidecarError

pub record SidecarSnapshot : Type 0 where
  pub lifecycle : SidecarLifecycle
  pub has_active_config : Bool
  pub has_candidate_config : Bool

pub record ConfigSlots (Config : Type 0) : Type 0 where
  pub candidate : Option Config
  pub active : Option Config

pub record SidecarRuntime (Port Config : Type 0) : Type 0 where
  pub port : Port
  pub mixed_port : Option ℕ
  pub configs : ConfigSlots Config
  pub open configs use *
  pub child : Option ℕ
  pub recovery_required : Bool

abbrev pub empty_slots : {Config : Type 0} → ConfigSlots Config
empty_slots = record { candidate = none; active = none }

-- `(lifecycle == Ready).then_some(o).flatten()`
unfoldable pub when_ready {ℓ} : {A : Type ℓ} → SidecarLifecycle → Option A → Option A
when_ready SidecarLifecycle.ready o = o
when_ready _ o = none

module _ {Port Config : Type 0} where
  -- `new`, and `new_observation_only`, which has no mixed port
  abbrev pub new : Port → Option ℕ → SidecarRuntime Port Config
  new port mixed_port = record {
    port = port;
    mixed_port = mixed_port;
    configs = empty_slots;
    child = none;
    recovery_required = false;
  }

  unfoldable pub lifecycle_of : SidecarRuntime Port Config → SidecarLifecycle
  lifecycle_of r =
      if r.recovery_required
      then SidecarLifecycle.recovery_required
      else if is_some r.child
      then SidecarLifecycle.ready
      else SidecarLifecycle.stopped

  unfoldable pub snapshot : SidecarRuntime Port Config → SidecarSnapshot
  unfolding lifecycle_of
  snapshot r = record {
    lifecycle = lifecycle_of r;
    has_active_config = is_some r.configs.active;
    has_candidate_config = is_some r.configs.candidate;
  }

  -- `mixed_port()`
  unfoldable pub mixed_port : SidecarRuntime Port Config → Option ℕ
  unfolding when_ready snapshot
  mixed_port r = when_ready (snapshot r).lifecycle r.mixed_port

  -- `with_active_config` with the identity for `read`
  unfoldable pub active_config : SidecarRuntime Port Config → Option Config
  unfolding when_ready snapshot
  active_config r = when_ready (snapshot r).lifecycle r.configs.active

module _ {Port Config : Type 0} (P : SidecarPort Port Config) where
  abbrev pub Outcome : Type 0
  Outcome = Result (Unit {0}) SidecarError × SidecarRuntime Port Config

  unfoldable pub prepare_replacement : Config → SidecarRuntime Port Config → Outcome
  prepare_replacement candidate r =
      if r.recovery_required || P.has_pending_cleanup r.port
      then (err SidecarError.recovery_required, record r { recovery_required = true })
      else let (checked, p1) = P.check candidate r.port in
        let (prepared, p2) = P.prepare candidate p1 in
        let (cancelled, p3) = P.cancel_pending p2 in
        if is_err checked
        then (
          err SidecarError.candidate_check,
          record r { port = p1; recovery_required = P.has_pending_cleanup p1 },
        )
        else if is_err prepared
        then (
          err SidecarError.candidate_prepare,
          record r { port = p3; recovery_required = is_err cancelled },
        )
        else (
          ok tt,
          record r { port = p2; configs = record (r.configs) { candidate = some candidate } },
        )

  -- The part of `commit_prepared` after the old instance is gone.
  unfoldable pub launch : SidecarRuntime Port Config → Outcome
  launch r =
      let (started, p1) = P.run r.port in
      elim started [
        | err _ ↦ (
          err SidecarError.candidate_start,
          record r {
            port = p1;
            configs = empty_slots;
            recovery_required = P.has_pending_cleanup p1;
          },
        )
        | ok child ↦
            let (answered, p2) = P.ready child p1 in
            let (halted, p3) = P.stop child p2 in
            if is_err answered
            then if is_err halted
              then (
                err SidecarError.candidate_stop,
                record r {
                  port = p3;
                  configs = empty_slots;
                  child = some child;
                  recovery_required = true;
                },
              )
              else (err SidecarError.candidate_ready, record r { port = p3; configs = empty_slots })
            else (
              ok tt,
              record r {
                port = p2;
                configs = record { candidate = none; active = r.configs.candidate };
                child = some child;
                recovery_required = false;
              },
            )
      ]

  -- The part of `commit_prepared` that stops the old instance.
  unfoldable pub replace_child : Option ℕ → SidecarRuntime Port Config → Outcome
  unfolding launch
  replace_child none r = launch r
  replace_child (some child) r =
      let (halted, p1) = P.stop child r.port in
      let (cancelled, p2) = P.cancel_pending p1 in
      if is_err halted
      then (
        err (if is_err cancelled then SidecarError.candidate_stop else SidecarError.active_stop),
        record r {
          port = p2;
          configs = record (r.configs) { candidate = none };
          recovery_required = true;
        },
      )
      else launch (record r { port = p1; child = none })

  unfoldable pub commit_prepared : SidecarRuntime Port Config → Outcome
  commit_prepared r =
      if is_some r.configs.candidate
      then replace_child r.child r
      else (err SidecarError.candidate_prepare, r)

  -- `self.prepare_replacement(candidate)?; self.commit_prepared()`
  unfoldable pub commit_if_ok : Outcome → Outcome
  commit_if_ok (err e, r) = (err e, r)
  commit_if_ok (ok _, r) = commit_prepared r

  unfoldable pub start_or_replace : Config → SidecarRuntime Port Config → Outcome
  unfolding commit_if_ok
  start_or_replace candidate r = commit_if_ok (prepare_replacement candidate r)

  unfoldable pub cancel_prepared : SidecarRuntime Port Config → Outcome
  cancel_prepared r =
      let (cancelled, p1) = P.cancel_pending r.port in
      let r' = record r { port = p1; configs = record (r.configs) { candidate = none } } in
      if is_err cancelled
      then (err SidecarError.candidate_stop, record r' { recovery_required = true })
      else (ok tt, r')

  -- The part of `stop` after the owned instance is gone.
  unfoldable pub clear : SidecarRuntime Port Config → Outcome
  clear r =
      let (cancelled, p1) = P.cancel_pending r.port in
      if is_err cancelled
      then (
        err SidecarError.candidate_stop,
        record r { port = p1; configs = empty_slots; recovery_required = true },
      )
      else (ok tt, record r { port = p1; configs = empty_slots; recovery_required = false })

  unfoldable pub stop_child : Option ℕ → SidecarRuntime Port Config → Outcome
  unfolding clear
  stop_child none r = clear r
  stop_child (some child) r =
      let (halted, p1) = P.stop child r.port in
      if is_err halted
      then (err SidecarError.active_stop, record r { port = p1; recovery_required = true })
      else clear (record r { port = p1; child = none })

  unfoldable pub stop : SidecarRuntime Port Config → Outcome
  stop r = stop_child r.child r

  unfoldable pub recover_active_failure : SidecarRuntime Port Config → Outcome
  recover_active_failure r = stop r

  -- `operation` may change the port.
  unfoldable pub with_active_port :
      {A : Type 0}
      → (ℕ → Call Port A)
      → SidecarRuntime Port Config
      → Result (Option A) SidecarPortError × SidecarRuntime Port Config
  with_active_port operation r = elim (when_ready (snapshot r).lifecycle r.child) [
    | none ↦ (ok none, r)
    | some child ↦
        let (answer, p1) = operation child r.port in (map_ok some answer, record r { port = p1 })
  ]

-- The calls of the owner.
pub data Op (Config : Type 0) : Type 0 where
  prepare : Config → Op Config
  commit cancel halt : Op Config
  start : Config → Op Config
  recover : Op Config

unfoldable pub step :
    {Port Config : Type 0}
    → SidecarPort Port Config
    → Op Config
    → SidecarRuntime Port Config
    → Result (Unit {0}) SidecarError × SidecarRuntime Port Config
step P (Op.prepare candidate) r = prepare_replacement P candidate r
step P Op.commit r = commit_prepared P r
step P Op.cancel r = cancel_prepared P r
step P Op.halt r = stop P r
step P (Op.start candidate) r = start_or_replace P candidate r
step P Op.recover r = recover_active_failure P r

unfoldable pub run_all :
    {Port Config : Type 0}
    → SidecarPort Port Config
    → List (Op Config)
    → SidecarRuntime Port Config
    → SidecarRuntime Port Config
unfolding step
run_all P [] r = r
run_all P (op ∷ ops) r = run_all P ops (step P op r).1
