-- ===== src/Routing/Manager/Commit.antt =====
-- What each reply of `mutate` in src-tauri/src/application/proxy_routing.rs says of the revision and
-- of the store.
use veyra.Base.{
  inl, inr, refl, sym, subst, ℕ, ◌≤◌, List, Option, none, some, Result, ok, err, leb, in_range,
  nat_beq, nat_beq_iff, Bool-cases, &&-true, arith, leb→le,
}
use veyra.Base.Text.{Text}
use veyra.Domain.Types.{AppState, max_safe_integer}
use veyra.Routing.Types.{ProxyRoutingMutation, MutateProxyRoutingRequest, QueryError}
use veyra.Routing.Input.{Url}
use veyra.Routing.Mutation.{apply_mutation}
use veyra.Routing.Mutation.Totality.{apply_mutation_never_panics}
use veyra.Routing.Revision.{material_of, RevisionState, observe, Observes, observe-Observes}
use veyra.Routing.Manager.Dispatch.{IsEdit-or_apply, dispatch_edit}
use veyra.Routing.Manager.{
  StateAccessError, StateStore, Manager, start_apply, dispatch, compare_revision, with_state,
  with_access, mutate,
}
use veyra.Routing.Manager.Reports.{OnlyLoaded, Reports, IsCurrent, finish-Reports}

module _ {Disk : Type 0} (S : StateStore Disk) (parse : Text → Option Url)
    (random : Option (List ℕ)) where
  apply-Reports :
      (request : MutateProxyRoutingRequest) (m n : Manager Disk) (current : ℕ)
      (active : Option Text) (generation : ℕ)
      → IsCurrent S request m n current
      → Reports S request m (start_apply S parse random active generation current, n)
  unfolding start_apply
  apply-Reports request m n current none generation v = (ground arith, inr v.only_loaded)
  apply-Reports request m n current (some active_id) generation v =
      (v.grown, v.expected, v.revision, v.only_loaded)

  dispatch-Reports :
      (request : MutateProxyRoutingRequest) (m n : Manager Disk) (current : ℕ)
      (mutation : ProxyRoutingMutation) (s : AppState)
      → IsCurrent S request m n current
      → Reports S request m (dispatch S parse random mutation s current n)
  unfolding dispatch
  dispatch-Reports request m n current mutation s v = elim (IsEdit-or_apply mutation) [
    | inl e ↦
        subst (λ x. Reports S request m (dispatch S parse random x s current n)) (sym e)
          (apply-Reports request m n current s.active_subscription_id
            s.active_configuration_generation v)
    | inr e ↦
        subst (Reports S request m) (sym (dispatch_edit S parse random mutation s current n e)) (
          finish-Reports S parse random request m n current mutation
            (apply_mutation parse random mutation s) v
            (apply_mutation_never_panics parse random mutation s e))
  ]

  compare-Reports :
      (request : MutateProxyRoutingRequest) (m : Manager Disk) (d : Disk) (s : AppState)
      (q : Result ℕ QueryError × RevisionState)
      → request.expected_revision ≤ max_safe_integer
      → OnlyLoaded S m d
      → Observes (material_of s) m.revision q
      → Reports S request m (compare_revision S parse random request s (record m { disk = d }) q)
  unfolding compare_revision
  compare-Reports request m d s (err e, revision) b loaded (p, _) = (ground arith, inr loaded)
  compare-Reports request m d s (ok current, revision) b loaded (p, c, l, _) =
      elim (Bool-cases (nat_beq current request.expected_revision)) [
        | inr t ↦ rw (t, Reports) (ground arith, inr loaded)
        | inl t ↦
            let e = (nat_beq_iff current request.expected_revision).0 t in
            rw (t, Reports)
              (dispatch-Reports request m (record m { revision = revision; disk = d }) current
                request.mutation s
                (record {
                  expected = sym e;
                  revision = p;
                  bounded = ground arith;
                  grown = l;
                  only_loaded = loaded;
                  material = material_of s;
                  observed = c;
                }))
      ]

  state-Reports :
      (request : MutateProxyRoutingRequest) (m : Manager Disk)
      (q : Result AppState (Unit {0}) × Disk)
      → request.expected_revision ≤ max_safe_integer
      → OnlyLoaded S m q.1
      → Reports S request m (with_state S parse random request m q)
  unfolding with_state
  state-Reports request m (err _, d) b loaded = (omega arith, inr loaded)
  state-Reports request m (ok s, d) b loaded =
      compare-Reports request m d s (observe (material_of s) m.revision) b loaded
        (observe-Observes (material_of s) m.revision)

  access-Reports :
      (request : MutateProxyRoutingRequest) (m : Manager Disk)
      (access : Result (Unit {0}) StateAccessError)
      → request.expected_revision ≤ max_safe_integer
      → Reports S request m (with_access S parse random request m access)
  unfolding with_access
  access-Reports request m (err e) b = (omega arith, inr (inl refl))
  access-Reports request m (ok _) b = state-Reports request m (S.load_state m.disk) b (inr refl)

  -- Every reply of `mutate` keeps its word, as `Reports` lists it: a success was at the expected
  -- revision, ends at that one or the next, and names the state that is observed then; an
  -- application of the configuration was at the expected revision and only loads from the store;
  -- after an error the store was only loaded from, unless the save failed; whatever the reply, the
  -- revision does not fall; there is no panic.
  pub mutate-Reports :
      (access : Result (Unit {0}) StateAccessError) (request : MutateProxyRoutingRequest)
      (m : Manager Disk)
      → Reports S request m (mutate S parse random access request m)
  unfolding mutate
  mutate-Reports access request m =
      elim (Bool-cases (in_range 1 max_safe_integer request.expected_revision)) [
        | inr t ↦ rw (t, Reports) (omega arith, inr (inl refl))
        | inl t ↦
            rw (t, Reports)
              (access-Reports request m access (
                leb→le _ _
                  (&&-true (leb 1 request.expected_revision)
                    (leb request.expected_revision max_safe_integer) t).1))
      ]
