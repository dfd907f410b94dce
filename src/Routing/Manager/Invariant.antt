-- ===== src/Routing/Manager/Invariant.antt =====
-- An invariant of `ProxyRoutingManager`, src-tauri/src/application/proxy_routing.rs: what its four
-- effects keep, every call of `mutate` keeps.
use veyra.Base.{
  ◌≡◌, refl, sym, subst, ℕ, List, [], ◌∷◌, Option, none, some, Result, ok, err, in_range, nat_beq,
  Bool-cases, decide_beq, inl, inr, if◌then◌else◌,
}
use veyra.Base.Text.{Text}
use veyra.Domain.Types.{AppState, StateValidationError, max_safe_integer}
use veyra.Domain.State.{validate}
use veyra.Domain.State.Valid.{IsValid}
use veyra.Domain.State.Decision.{validate_iff}
use veyra.Routing.Types.{
  ProxyRoutingMutation, MutateProxyRoutingRequest, MutationOutcome, QueryError,
}
use veyra.Routing.Input.{Url}
use veyra.Routing.Mutation.{Abort, rejected, panicked, apply_mutation}
use veyra.Routing.Revision.{CasMaterial, CasMaterial-discrete, material_of, RevisionState, observe}
use veyra.Routing.Manager.Dispatch.{IsEdit-or_apply, dispatch_edit}
use veyra.Routing.Manager.{
  Reply, StateAccessError, StateStore, Manager, bump_generation, is_manual_mutation, settle_commit,
  settle_save, save_checked, save_valid, finish_edited, finish, dispatch, compare_revision,
  with_state, with_access, mutate,
}

-- A call, with the state of the gate and the random bytes that it finds.
pub record Attempt : Type 0 where
  pub access : Result (Unit {0}) StateAccessError
  pub random : Option (List ℕ)
  pub request : MutateProxyRoutingRequest

module _ {Disk : Type 0} (S : StateStore Disk) (parse : Text → Option Url) where
  unfoldable pub mutate_all : List Attempt → Manager Disk → Manager Disk
  mutate_all [] m = m
  mutate_all (a ∷ attempts) m = mutate_all attempts (mutate S parse a.random a.access a.request m).1

-- Kept by the effects: an observation, the save of a valid state, a load, and a new apply tuple.
pub record Keeps {Disk : Type 0} (S : StateStore Disk) (Inv : Manager Disk → Type 0) : Type 0 where
  pub observed :
      (c : CasMaterial) (m : Manager Disk)
      → Inv m
      → Inv (record m { revision = (observe c m.revision).1 })
  pub saved :
      (s : AppState) (m : Manager Disk)
      → IsValid s
      → Inv m
      → Inv (record m { disk = (S.save s m.disk).1 })
  pub loaded : (m : Manager Disk) → Inv m → Inv (record m { disk = (S.load_state m.disk).1 })
  pub tuple :
      (a : Option (Option Text × ℕ)) (m : Manager Disk) → Inv m → Inv (record m { apply_tuple = a })

module _ {Disk : Type 0} (S : StateStore Disk) (parse : Text → Option Url)
    (Inv : Manager Disk → Type 0) (keeps : Keeps S Inv) where
  module _ (random : Option (List ℕ)) where
    commit-Inv :
        (m : Manager Disk) (mutation : ProxyRoutingMutation) (o : MutationOutcome) (s : AppState)
        (current : ℕ) (q : Result ℕ QueryError × RevisionState)
        → Inv (record m { revision = q.1 })
        → Inv (settle_commit S parse random mutation o s current m q).1
    unfolding settle_commit
    commit-Inv m mutation o s current (err e, r) v = v
    commit-Inv m mutation o s current (ok e, r) v =
        keeps.tuple (if is_manual_mutation mutation then m.apply_tuple else none)
          (record m { revision = r }) v

    save-Inv :
        (m : Manager Disk) (mutation : ProxyRoutingMutation) (o : MutationOutcome) (s : AppState)
        (current : ℕ) (q : Result (Unit {0}) (Unit {0}) × Disk)
        → Inv (record m { disk = q.1 })
        → Inv (settle_save S parse random mutation o s current m q).1
    unfolding settle_save
    save-Inv m mutation o s current (err e, disk) v = v
    save-Inv m mutation o s current (ok _, disk) v =
        commit-Inv (record m { disk = disk }) mutation o s current
          (observe (material_of s) m.revision)
          (keeps.observed (material_of s) (record m { disk = disk }) v)

    checked-Inv :
        (m : Manager Disk) (mutation : ProxyRoutingMutation) (o : MutationOutcome) (s : AppState)
        (current : ℕ) (q : Result (Unit {0}) StateValidationError)
        → validate s ≡ q
        → Inv m
        → Inv (save_checked S parse random mutation o s current m q).1
    unfolding save_checked
    checked-Inv m mutation o s current (err e) p v = v
    checked-Inv m mutation o s current (ok _) p v =
        save-Inv m mutation o s current (S.save s m.disk) (keeps.saved s m ((validate_iff s).0 p) v)

    valid-Inv :
        (m : Manager Disk) (mutation : ProxyRoutingMutation) (o : MutationOutcome) (current : ℕ)
        (s : Option AppState)
        → Inv m
        → Inv (save_valid S parse random mutation o current m s).1
    unfolding save_valid
    valid-Inv m mutation o current none v = v
    valid-Inv m mutation o current (some s) v =
        elim (Bool-cases (nat_beq current max_safe_integer)) [
          | inl t ↦ rw t v
          | inr t ↦ rw t (checked-Inv m mutation o s current (validate s) refl v)
        ]

    edited-Inv :
        (m : Manager Disk) (mutation : ProxyRoutingMutation) (o : MutationOutcome) (s : AppState)
        (current : ℕ) (material : Option CasMaterial)
        → Inv m
        → Inv (finish_edited S parse random mutation o s current m material).1
    unfolding finish_edited
    edited-Inv m mutation o s current none v = v
    edited-Inv m mutation o s current (some material) v =
        elim (Bool-cases (decide_beq CasMaterial-discrete material (material_of s))) [
          | inl t ↦ rw t v
          | inr t ↦
              rw t
                (valid-Inv m mutation o current (bump_generation (is_manual_mutation mutation) s) v)
        ]

    finish-Inv :
        (m : Manager Disk) (mutation : ProxyRoutingMutation) (current : ℕ)
        (q : Result (AppState × MutationOutcome) Abort)
        → Inv m
        → Inv (finish S parse random mutation current m q).1
    unfolding finish
    finish-Inv m mutation current (err (rejected e)) v = v
    finish-Inv m mutation current (err panicked) v = v
    finish-Inv m mutation current (ok (s, o)) v =
        edited-Inv m mutation o s current m.revision.material v

    dispatch-Inv :
        (m : Manager Disk) (mutation : ProxyRoutingMutation) (s : AppState) (current : ℕ)
        → Inv m
        → Inv (dispatch S parse random mutation s current m).1
    unfolding dispatch
    dispatch-Inv m mutation s current v = elim (IsEdit-or_apply mutation) [
      | inl e ↦ subst (λ x. Inv (dispatch S parse random x s current m).1) (sym e) v
      | inr e ↦
          subst (λ (r : Reply × Manager Disk). Inv r.1)
            (sym (dispatch_edit S parse random mutation s current m e))
            (finish-Inv m mutation current (apply_mutation parse random mutation s) v)
    ]

    compare-Inv :
        (request : MutateProxyRoutingRequest) (m : Manager Disk) (s : AppState)
        (q : Result ℕ QueryError × RevisionState)
        → Inv (record m { revision = q.1 })
        → Inv (compare_revision S parse random request s m q).1
    unfolding compare_revision
    compare-Inv request m s (err e, revision) v = v
    compare-Inv request m s (ok current, revision) v =
        elim (Bool-cases (nat_beq current request.expected_revision)) [
          | inr t ↦ rw t v
          | inl t ↦
              rw t (dispatch-Inv (record m { revision = revision }) request.mutation s current v)
        ]

    state-Inv :
        (request : MutateProxyRoutingRequest) (m : Manager Disk)
        (q : Result AppState (Unit {0}) × Disk)
        → Inv (record m { disk = q.1 })
        → Inv (with_state S parse random request m q).1
    unfolding with_state
    state-Inv request m (err e, disk) v = v
    state-Inv request m (ok s, disk) v =
        compare-Inv request (record m { disk = disk }) s (observe (material_of s) m.revision)
          (keeps.observed (material_of s) (record m { disk = disk }) v)

    access-Inv :
        (request : MutateProxyRoutingRequest) (m : Manager Disk)
        (access : Result (Unit {0}) StateAccessError)
        → Inv m
        → Inv (with_access S parse random request m access).1
    unfolding with_access
    access-Inv request m (err e) v = v
    access-Inv request m (ok _) v = state-Inv request m (S.load_state m.disk) (keeps.loaded m v)

    mutate-Inv :
        (access : Result (Unit {0}) StateAccessError) (request : MutateProxyRoutingRequest)
        (m : Manager Disk)
        → Inv m
        → Inv (mutate S parse random access request m).1
    unfolding mutate
    mutate-Inv access request m v =
        elim (Bool-cases (in_range 1 max_safe_integer request.expected_revision)) [
          | inr t ↦ rw t v
          | inl t ↦ rw t (access-Inv request m access v)
        ]

  pub mutate_all-Inv :
      (attempts : List Attempt) (m : Manager Disk) → Inv m → Inv (mutate_all S parse attempts m)
  unfolding mutate_all
  mutate_all-Inv [] m v = v
  mutate_all-Inv (a ∷ attempts) m v =
      mutate_all-Inv attempts (mutate S parse a.random a.access a.request m).1
        (mutate-Inv a.random a.access a.request m v)
