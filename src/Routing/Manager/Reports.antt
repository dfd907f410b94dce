-- ===== src/Routing/Manager/Reports.antt =====
-- What each reply of `mutate` of src-tauri/src/application/proxy_routing.rs says of the revision and of
-- the store, for the part that edits the state.
use veyra.Base.{
  ◌≡◌, ◌⊎◌, inl, inr, refl, ap, ◌∙◌, decide_beq, decide_beq_iff, ℕ, ◌+◌, ◌≤◌, List, Option, none,
  some, false, Result, ok, err, nat_beq, Bool-cases, arith,
}
use veyra.Base.Text.{Text}
use veyra.Domain.Types.{AppState, StateValidationError, max_safe_integer}
use veyra.Domain.State.{validate}
use veyra.Routing.Types.{
  ProxyRoutingMutation, create_custom_pool, update_custom_pool, delete_custom_pool,
  set_manual_selection, set_default_target, create_route, update_route, delete_route,
  reorder_routes, apply_configuration, MutateProxyRoutingRequest, MutationError, MutationOutcome,
  QueryError,
}
use veyra.Routing.Input.{Url}
use veyra.Routing.Mutation.{Abort, rejected, panicked}
use veyra.Routing.Revision.{
  CasMaterial, CasMaterial-discrete, material_of, RevisionState, observe, Observes,
  observe-Observes,
}
use veyra.Routing.Manager.{
  StateStore, Manager, Reply, reply_of, bump_generation, is_manual_mutation, settle_commit,
  settle_save, save_checked, save_valid, finish_edited, finish,
}

module _ {Disk : Type 0} (S : StateStore Disk) where
  -- A success names the state that is now the observed one, and a revision that is the expected one
  -- or the next.
  abbrev pub IsCommitted :
      MutateProxyRoutingRequest → Manager Disk → AppState → ℕ → Manager Disk → Type 0
  IsCommitted request m s r m' =
      (m.revision.revision ≤ r)
      × (request.expected_revision ≤ r)
      × (r ≤ request.expected_revision + 1)
      × (m'.revision.revision ≡ r)
      × (m'.revision.material ≡ some (material_of s))

  -- The store is as it was, or as the load left it.
  abbrev pub OnlyLoaded : Manager Disk → Disk → Type 0
  OnlyLoaded m disk = (disk ≡ m.disk) ⊎ (disk ≡ (S.load_state m.disk).1)

  -- By the reply: after an error the store was only loaded from, unless the save failed, and no
  -- revision is lost; an application of the configuration only loads.
  abbrev pub Reports : MutateProxyRoutingRequest → Manager Disk → Reply × Manager Disk → Type 0
  Reports request m (Reply.error e revision, m') =
      (m.revision.revision ≤ m'.revision.revision)
      × ((e ≡ MutationError.save_failed) ⊎ OnlyLoaded m m'.disk)
  Reports request m (Reply.saved outcome s r, m') = IsCommitted request m s r m'
  Reports request m (Reply.reconcile pool_id node_id s r, m') = IsCommitted request m s r m'
  Reports request m (Reply.apply active_id generation r, m') =
      (m.revision.revision ≤ r)
      × (request.expected_revision ≡ r)
      × (m'.revision.revision ≡ r)
      × OnlyLoaded m m'.disk
  Reports request m (Reply.panic, m') = ⊥

  -- The manager after the load, at the expected revision.
  pub record IsCurrent (request : MutateProxyRoutingRequest) (m n : Manager Disk) (current : ℕ)
      : Type 0 where
    pub expected : request.expected_revision ≡ current
    pub revision : n.revision.revision ≡ current
    pub bounded : current ≤ max_safe_integer
    pub grown : m.revision.revision ≤ current
    pub only_loaded : OnlyLoaded m n.disk
    pub material : CasMaterial
    pub observed : n.revision.material ≡ some material

module _ {Disk : Type 0} (S : StateStore Disk) (parse : Text → Option Url)
    (random : Option (List ℕ)) where
  reply-Reports :
      (request : MutateProxyRoutingRequest) (m n : Manager Disk) (mutation : ProxyRoutingMutation)
      (o : MutationOutcome) (s : AppState) (r : ℕ)
      → IsCommitted S request m s r n
      → Reports S request m (reply_of mutation o s r, n)
  unfolding reply_of
  reply-Reports request m n (create_custom_pool _ _ _ _) o s r v = v
  reply-Reports request m n (update_custom_pool _ _ _ _ _) o s r v = v
  reply-Reports request m n (delete_custom_pool _) o s r v = v
  reply-Reports request m n (set_manual_selection _ _) o s r v = v
  reply-Reports request m n (set_default_target _) o s r v = v
  reply-Reports request m n (create_route _ _ _ _ _) o s r v = v
  reply-Reports request m n (update_route _ _ _ _ _) o s r v = v
  reply-Reports request m n (delete_route _) o s r v = v
  reply-Reports request m n (reorder_routes _) o s r v = v
  reply-Reports request m n apply_configuration o s r v = v

  commit-Reports :
      (request : MutateProxyRoutingRequest) (m n : Manager Disk) (disk : Disk) (current : ℕ)
      (mutation : ProxyRoutingMutation) (o : MutationOutcome) (s : AppState)
      (q : Result ℕ QueryError × RevisionState)
      → IsCurrent S request m n current
      → nat_beq current max_safe_integer ≡ false
      → Observes (material_of s) n.revision q
      → Reports S request m
          (settle_commit S parse random mutation o s current (record n { disk = disk }) q)
  unfolding settle_commit
  commit-Reports request m n disk current mutation o s (ok r, s') v t (a, b, c, d) =
      reply-Reports request m _ mutation o s r (ground arith, ground arith, ground arith, a, b)
  commit-Reports request m n disk current mutation o s (err x, s') v t (a, b) =
      absurd (ground arith)

  save-Reports :
      (request : MutateProxyRoutingRequest) (m n : Manager Disk) (current : ℕ)
      (mutation : ProxyRoutingMutation) (o : MutationOutcome) (s : AppState)
      (q : Result (Unit {0}) (Unit {0}) × Disk)
      → IsCurrent S request m n current
      → nat_beq current max_safe_integer ≡ false
      → Reports S request m (settle_save S parse random mutation o s current n q)
  unfolding settle_save
  save-Reports request m n current mutation o s (err _, disk) v t = (ground arith, inl refl)
  save-Reports request m n current mutation o s (ok _, disk) v t =
      commit-Reports request m n disk current mutation o s (observe (material_of s) n.revision) v t
        (observe-Observes (material_of s) n.revision)

  checked-Reports :
      (request : MutateProxyRoutingRequest) (m n : Manager Disk) (current : ℕ)
      (mutation : ProxyRoutingMutation) (o : MutationOutcome) (s : AppState)
      (q : Result (Unit {0}) StateValidationError)
      → IsCurrent S request m n current
      → nat_beq current max_safe_integer ≡ false
      → Reports S request m (save_checked S parse random mutation o s current n q)
  unfolding save_checked
  checked-Reports request m n current mutation o s (err e) v t = (ground arith, inr v.only_loaded)
  checked-Reports request m n current mutation o s (ok _) v t =
      save-Reports request m n current mutation o s (S.save s n.disk) v t

  valid-Reports :
      (request : MutateProxyRoutingRequest) (m n : Manager Disk) (current : ℕ)
      (mutation : ProxyRoutingMutation) (o : MutationOutcome) (s : Option AppState)
      → IsCurrent S request m n current
      → Reports S request m (save_valid S parse random mutation o current n s)
  unfolding save_valid
  valid-Reports request m n current mutation o none v = (ground arith, inr v.only_loaded)
  valid-Reports request m n current mutation o (some s) v =
      elim (Bool-cases (nat_beq current max_safe_integer)) [
        | inl t ↦ rw (t, Reports) (ground arith, inr v.only_loaded)
        | inr t ↦
            rw (t, Reports) (checked-Reports request m n current mutation o s (validate s) v t)
      ]

  edited-Reports :
      (request : MutateProxyRoutingRequest) (m n : Manager Disk) (current : ℕ)
      (mutation : ProxyRoutingMutation) (o : MutationOutcome) (s : AppState)
      (q : Option CasMaterial)
      → IsCurrent S request m n current
      → n.revision.material ≡ q
      → Reports S request m (finish_edited S parse random mutation o s current n q)
  unfolding finish_edited
  edited-Reports request m n current mutation o s none v e = absurd (grind (arith, v.observed))
  edited-Reports request m n current mutation o s (some c) v e =
      elim (Bool-cases (decide_beq CasMaterial-discrete c (material_of s))) [
        | inl t ↦
            rw (t, Reports)
              (reply-Reports request m n mutation o s current (
                v.grown,
                ground arith,
                ground arith,
                v.revision,
                e ∙ ap some ((decide_beq_iff CasMaterial-discrete c (material_of s)).0 t),
              ))
        | inr t ↦
            rw (t, Reports)
              (valid-Reports request m n current mutation o
                (bump_generation (is_manual_mutation mutation) s) v)
      ]

  pub finish-Reports :
      (request : MutateProxyRoutingRequest) (m n : Manager Disk) (current : ℕ)
      (mutation : ProxyRoutingMutation) (q : Result (AppState × MutationOutcome) Abort)
      → IsCurrent S request m n current
      → (q ≡ err panicked → ⊥)
      → Reports S request m (finish S parse random mutation current n q)
  unfolding finish
  finish-Reports request m n current mutation (err (rejected e)) v safe =
      (ground arith, inr v.only_loaded)
  finish-Reports request m n current mutation (err panicked) v safe = safe refl
  finish-Reports request m n current mutation (ok (s, o)) v safe =
      edited-Reports request m n current mutation o s n.revision.material v refl
