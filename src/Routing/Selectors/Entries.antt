-- ===== src/Routing/Selectors/Entries.antt =====
-- What the entries of `selectors` of src-tauri/src/application/proxy_routing.rs say of the runtime.
use veyra.Base.{
  subst, map, retain, All, Member-All, ◌≡◌, ◌≢◌, ◌⊎◌, inl, inr, refl, ap, List, [], ◌∷◌, Option,
  none, some, Bool, true, false, arith, Member, ◌==◌, if◌then◌else◌,
}
use veyra.Base.Text.{text_eq, text_beq_sound, text_beq_complete}
use veyra.Domain.Types.{NodePool, SelectionPolicy, NodeId, PoolId}
use veyra.Routing.Status.{RuntimeState, is_ready}
use veyra.Routing.Selectors.{
  SelectorState, SelectorSnapshot, selector_state, runtime_node, push_selector, selectors,
}

module _ (runtime_nodes : PoolId → Option NodeId) (runtime_state : RuntimeState) where
  -- What the state of the selector of a pool says, for the node that is set by hand.
  abbrev pub Says : PoolId → Option NodeId → SelectorState → Type 0
  Says id desired SelectorState.in_sync =
      (n : NodeId) × (runtime_state ≡ RuntimeState.ready)
      × (runtime_nodes id ≡ some n)
      × (desired ≡ some n)
  Says id desired SelectorState.not_applied =
      (n : NodeId) × (m : NodeId) × (runtime_state ≡ RuntimeState.ready)
      × (runtime_nodes id ≡ some n)
      × (desired ≡ some m)
      × (m ≢ n)
  Says id desired SelectorState.unknown =
      (runtime_state ≡ RuntimeState.ready) × (runtime_nodes id ≡ none)
  Says id desired SelectorState.saved_only = (runtime_state ≢ RuntimeState.ready) ⊎ (desired ≡ none)

both_say :
    (runtime_nodes : PoolId → Option NodeId) (id : PoolId) (d n : NodeId) (b : Bool)
    → runtime_nodes id ≡ some n
    → (d == n) ≡ b
    → Says runtime_nodes RuntimeState.ready id
        (some d)
        (if b then SelectorState.in_sync else SelectorState.not_applied)
both_say runtime_nodes id d n true e h = (n, refl, e, ap some (text_beq_sound d n h))
both_say runtime_nodes id d n false e h = (n, d, refl, e, refl, λ q. cc (text_beq_complete d n q))

ready-Says :
    (runtime_nodes : PoolId → Option NodeId) (id : PoolId) (selected runtime : Option NodeId)
    → runtime_nodes id ≡ runtime
    → Says runtime_nodes RuntimeState.ready id selected (selector_state selected runtime true)
unfolding selector_state
ready-Says runtime_nodes id (some d) (some n) e = both_say runtime_nodes id d n (d == n) e refl
ready-Says runtime_nodes id none (some n) e = inr refl
ready-Says runtime_nodes id none none e = (refl, e)
ready-Says runtime_nodes id (some d) none e = (refl, e)

idle-Says :
    (runtime_nodes : PoolId → Option NodeId) (runtime_state : RuntimeState) (id : PoolId)
    (selected : Option NodeId)
    → runtime_state ≢ RuntimeState.ready
    → Says runtime_nodes runtime_state id selected (selector_state selected none false)
unfolding selector_state
idle-Says runtime_nodes runtime_state id none h = inl h
idle-Says runtime_nodes runtime_state id (some d) h = inl h

selector_state-Says :
    (runtime_nodes : PoolId → Option NodeId) (runtime_state : RuntimeState) (id : PoolId)
    (selected : Option NodeId)
    → Says runtime_nodes runtime_state id selected (
        selector_state selected
          (runtime_node runtime_nodes runtime_state id)
          (is_ready runtime_state))
selector_state-Says f RuntimeState.ready id selected = ready-Says f id selected (f id) refl
selector_state-Says f RuntimeState.stopped id selected =
    idle-Says f RuntimeState.stopped id selected (λ h. cc)
selector_state-Says f RuntimeState.transitioning id selected =
    idle-Says f RuntimeState.transitioning id selected (λ h. cc)
selector_state-Says f RuntimeState.recovery_required id selected =
    idle-Says f RuntimeState.recovery_required id selected (λ h. cc)

abbrev pub by_hand : SelectionPolicy → Bool
by_hand (SelectionPolicy.manual selected) = true
by_hand (SelectionPolicy.url_test u i t) = false

module _ (runtime_nodes : PoolId → Option NodeId) (runtime_state : RuntimeState) where
  -- The entry is that of a pool of the list that is set by hand, and its state says the truth.
  abbrev pub Shows : List NodePool → SelectorSnapshot → Type 0
  Shows pools s =
      (pool : NodePool) × Member pool pools
      × (pool.id ≡ s.pool_id)
      × (pool.selection ≡ SelectionPolicy.manual s.desired_node_id)
      × Says runtime_nodes runtime_state s.pool_id s.desired_node_id s.state

  push_selector-Shows :
      (pool : NodePool) (selection : SelectionPolicy) (pools : List NodePool)
      (rest : List SelectorSnapshot) (s : SelectorSnapshot)
      → pool.selection ≡ selection
      → (Member s rest → Shows pools s)
      → Member s (push_selector runtime_nodes runtime_state pool.id selection rest)
      → Shows (pool ∷ pools) s
  unfolding push_selector
  push_selector-Shows pool (SelectionPolicy.manual selected) pools rest s e h (inl m) =
      subst (λ t. Shows (pool ∷ pools) t) m
        (pool, inl refl, refl, e, selector_state-Says runtime_nodes runtime_state pool.id selected)
  push_selector-Shows pool (SelectionPolicy.manual selected) pools rest s e h (inr m) =
      let (q, n, i, j, k) = h m in (q, inr n, i, j, k)
  push_selector-Shows pool (SelectionPolicy.url_test u i t) pools rest s e h m =
      let (q, n, i, j, k) = h m in (q, inr n, i, j, k)

  shows :
      (pools : List NodePool) (s : SelectorSnapshot)
      → Member s (selectors pools runtime_nodes runtime_state)
      → Shows pools s
  unfolding selectors
  shows [] s m = absurd m
  shows (p ∷ pools) s m =
      push_selector-Shows p p.selection pools (selectors pools runtime_nodes runtime_state) s refl
        (shows pools s) m

  push_selector-pool_ids :
      (p : NodePool) (selection : SelectionPolicy) (rest : List SelectorSnapshot)
      (pools : List NodePool)
      → p.selection ≡ selection
      → map (λ s. s.pool_id) rest ≡ map (λ q. q.id) (retain (λ t. by_hand t.selection) pools)
      → map (λ s. s.pool_id) (push_selector runtime_nodes runtime_state p.id selection rest)
        ≡ map (λ q. q.id) (retain (λ t. by_hand t.selection) (p ∷ pools))
  unfolding push_selector retain
  push_selector-pool_ids p (SelectionPolicy.manual selected) rest pools e h =
      let t : by_hand p.selection ≡ true = ap by_hand e in ground arith
  push_selector-pool_ids p (SelectionPolicy.url_test u i t) rest pools e h =
      let t : by_hand p.selection ≡ false = ap by_hand e in ground arith

  selectors-pool_ids :
      (pools : List NodePool)
      → map (λ s. s.pool_id) (selectors pools runtime_nodes runtime_state)
        ≡ map (λ q. q.id) (retain (λ t. by_hand t.selection) pools)
  unfolding selectors retain
  selectors-pool_ids [] = refl
  selectors-pool_ids (p ∷ pools) =
      push_selector-pool_ids p p.selection (selectors pools runtime_nodes runtime_state) pools refl
        (selectors-pool_ids pools)

-- The snapshot has one selector for each pool that is set by hand, in the order of the pools, with the
-- node that is set. It is in sync only if the runtime is ready and uses that node, not applied only if
-- it is ready and uses another, unknown only if it is ready and the node in use is not known; it is
-- saved only when the runtime is not ready or no node is set.
pub selectors-Shows :
    (pools : List NodePool) (runtime_nodes : PoolId → Option NodeId) (runtime_state : RuntimeState)
    → All (Shows runtime_nodes runtime_state pools) (selectors pools runtime_nodes runtime_state)
      × (map (λ s. s.pool_id) (selectors pools runtime_nodes runtime_state)
          ≡ map (λ q. q.id) (retain (λ t. by_hand t.selection) pools))
selectors-Shows pools runtime_nodes runtime_state = (
  Member-All (Shows runtime_nodes runtime_state pools) (selectors pools runtime_nodes runtime_state)
      (shows runtime_nodes runtime_state pools),
  selectors-pool_ids runtime_nodes runtime_state pools,
)
