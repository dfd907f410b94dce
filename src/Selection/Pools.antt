-- ===== src/Selection/Pools.antt =====
-- The loop over the pools of src-tauri/src/application/selected_subscription.rs.
use veyra.Base.{
  ◌≡◌, ◌≢◌, ◌∙◌, ◌⊎◌, inl, inr, sym, subst, ap, List, [], ◌∷◌, Option, none, some, true, false,
  ◌||◌, Result, ok, >>=-eq-ok, map, is_empty, contains, contains_iff, Member, Member-append,
  Member-retain, Member-map, Bool-cases, arith,
}
use veyra.Base.Text.{text_eq}
use veyra.Domain.Types.{
  AppState, ProxyNode, NodePool, PoolKind, SelectionPolicy, NodeId, ProviderId,
}
use veyra.Domain.Options.{pool_kind_eq}
use veyra.Domain.State.{RuntimePool}
use veyra.Domain.State.Closed.{SelectionIn}
use veyra.Domain.State.Members.{resolve_sound}
use veyra.Selection.{
  selected_missing, filter_sources, project_members, project_pool, extend_selected, push_pool,
  project_pools,
}

true-false : true ≡ false → ⊥
true-false h = ground arith

ok_path : {A E : Type 0} (a b : A) → ◌≡◌ {A = Result A E} (ok a) (ok b) → a ≡ b
ok_path a b h = ground arith

abbrev pub node_ids : AppState → List NodeId
node_ids state = map (λ (node : ProxyNode). node.id) state.nodes

-- What a round says of the pool that it adds.
record IsProjected (state : AppState) (selected : List NodeId) (pool : NodePool)
    (projected : RuntimePool) : Type 0 where
  pub filled : projected.members ≢ []
  pub known : (id : NodeId) → Member id projected.members → Member id (node_ids state)
  pub chosen :
      (id : NodeId)
      → Member id projected.members
      → Member id (extend_selected pool (some projected) selected)
  pub selected_in : SelectionIn projected.members projected.selection

selection_in :
    (members : List NodeId) (selection : SelectionPolicy)
    → selected_missing members selection ≡ false
    → SelectionIn members selection
unfolding selected_missing
selection_in members (SelectionPolicy.manual none) h = tt
selection_in members (SelectionPolicy.manual (some id)) h =
    (contains_iff members id).0 (ground arith)
selection_in members (SelectionPolicy.url_test _ _ _) h = tt

members_known :
    (state : AppState) (providers : List ProviderId) (selected : List NodeId) (pool : NodePool)
    (id : NodeId)
    → Member id (project_members state providers selected pool)
    → Member id (node_ids state)
unfolding project_members
members_known state providers selected pool id m =
    let (k, _) =
      (Member-retain (λ id. pool_kind_eq.beq pool.kind PoolKind.custom || contains selected id) _
          id).0
        m in
    let r = resolve_sound state (filter_sources providers pool) id k in
    subst (λ k. Member k (node_ids state)) r.same_id
      (Member-map (λ (node : ProxyNode). node.id) state.nodes r.node r.node_in)

members_chosen :
    (state : AppState) (providers : List ProviderId) (selected : List NodeId) (pool : NodePool)
    (p : RuntimePool) (id : NodeId)
    → p.members ≡ project_members state providers selected pool
    → Member id p.members
    → Member id (extend_selected pool (some p) selected)
unfolding extend_selected project_members
members_chosen state providers selected pool p id e m =
    elim (Bool-cases (pool_kind_eq.beq pool.kind PoolKind.custom)) [
      | inl t ↦ rw t ((Member-append id p.members selected).1 (inl m))
      | inr t ↦
          let (_, q) =
            (Member-retain
                (λ id. pool_kind_eq.beq pool.kind PoolKind.custom || contains selected id) _ id).0
              (subst (Member id) e m) in
          rw t ((contains_iff selected id).0 (ground arith))
    ]

module _ (state : AppState) (providers : List ProviderId) where
  abbrev projected_of : List NodeId → NodePool → RuntimePool
  projected_of selected pool = record {
    id = pool.id;
    members = project_members state providers selected pool;
    selection = pool.selection;
  }

  -- A round that adds a pool.
  round_added :
      (selected : List NodeId) (pool : NodePool) (p : RuntimePool)
      → project_pool state providers selected pool ≡ ok (some p)
      → (is_empty (project_members state providers selected pool) ≡ false)
        × (selected_missing (project_members state providers selected pool) pool.selection ≡ false)
        × (p ≡ projected_of selected pool)
  unfolding project_pool
  round_added selected pool p h = (ground arith, ground arith, ground arith)

  not_empty : (xs : List NodeId) → is_empty xs ≡ false → xs ≢ []
  not_empty [] h e = absurd (true-false h)
  not_empty (x ∷ xs) h e = ground arith

  round-IsProjected :
      (selected : List NodeId) (pool : NodePool) (p : RuntimePool)
      → project_pool state providers selected pool ≡ ok (some p)
      → IsProjected state selected pool p
  round-IsProjected selected pool p h =
      let (f, g, e) = round_added selected pool p h in
      let same : p.members ≡ project_members state providers selected pool =
        ap (λ (k : RuntimePool). k.members) e in
      record {
        filled = λ q. not_empty (project_members state providers selected pool) f (sym same ∙ q);
        known = λ id m. members_known state providers selected pool id (subst (Member id) same m);
        chosen = λ id m. members_chosen state providers selected pool p id same m;
        selected_in =
            subst (λ (k : RuntimePool). SelectionIn k.members k.selection) (sym e)
              (selection_in (project_members state providers selected pool) pool.selection g);
      }

  -- What the loop ends with: the nodes selected before stay, and only nodes of the state are added;
  -- every pool has members, all of them selected, and the node that it selects by hand among them.
  pub record IsCollected (selected final : List NodeId) (pools : List RuntimePool) : Type 0 where
    pub kept : (id : NodeId) → Member id selected → Member id final
    pub known : (id : NodeId) → Member id final → Member id selected ⊎ Member id (node_ids state)
    pub filled : (p : RuntimePool) → Member p pools → p.members ≢ []
    pub chosen :
        (p : RuntimePool) (id : NodeId) → Member p pools → Member id p.members → Member id final
    pub selected_in : (p : RuntimePool) → Member p pools → SelectionIn p.members p.selection

  extended :
      (pool : NodePool) (o : Option RuntimePool) (selected : List NodeId)
      → project_pool state providers selected pool ≡ ok o
      → ((id : NodeId) → Member id selected → Member id (extend_selected pool o selected))
        × ((id : NodeId)
            → Member id (extend_selected pool o selected)
            → Member id selected ⊎ Member id (node_ids state))
  unfolding extend_selected
  extended pool none selected h = (λ id m. m, λ id m. inl m)
  extended pool (some p) selected h =
      elim (Bool-cases (pool_kind_eq.beq pool.kind PoolKind.custom)) [
        | inl t ↦ (
          λ id m. rw t ((Member-append id p.members selected).1 (inr m)),
          λ id m. elim ((Member-append id p.members selected).0 (rw t at m)) [
            | inl n ↦ inr ((round-IsProjected selected pool p h).known id n)
            | inr n ↦ inl n
          ],
        )
        | inr t ↦ (λ id m. rw t m, λ id m. inl (rw t at m))
      ]

  pushed :
      (pool : NodePool) (o : Option RuntimePool) (selected final : List NodeId)
      (pools : List RuntimePool)
      → project_pool state providers selected pool ≡ ok o
      → IsCollected (extend_selected pool o selected) final pools
      → IsCollected selected final (push_pool o pools)
  unfolding push_pool
  pushed pool none selected final pools h c =
      let (a, b) = extended pool none selected h in
      record {
        kept = λ id m. c.kept id (a id m);
        known = λ id m. elim (c.known id m) [ inl n ↦ b id n | inr n ↦ inr n ];
        filled = c.filled;
        chosen = c.chosen;
        selected_in = c.selected_in;
      }
  pushed pool (some p) selected final pools h c =
      let (a, b) = extended pool (some p) selected h in
      let r = round-IsProjected selected pool p h in
      record {
        kept = λ id m. c.kept id (a id m);
        known = λ id m. elim (c.known id m) [ inl n ↦ b id n | inr n ↦ inr n ];
        filled = λ q m. elim m [
          | inl e ↦ subst (λ (k : RuntimePool). k.members ≢ []) e r.filled
          | inr n ↦ c.filled q n
        ];
        chosen = λ q id m n. elim m [
          | inl e ↦
              c.kept id (r.chosen id (subst (λ (k : RuntimePool). Member id k.members) (sym e) n))
          | inr k ↦ c.chosen q id k n
        ];
        selected_in = λ q m. elim m [
          | inl e ↦ subst (λ (k : RuntimePool). SelectionIn k.members k.selection) e r.selected_in
          | inr n ↦ c.selected_in q n
        ];
      }

  pub project_pools-IsCollected :
      (selected : List NodeId) (pools : List NodePool) (final : List NodeId)
      (projected : List RuntimePool)
      → project_pools state providers selected pools ≡ ok (final, projected)
      → IsCollected selected final projected
  unfolding project_pools
  project_pools-IsCollected selected [] final projected h =
      subst (λ (k : List NodeId × List RuntimePool). IsCollected selected k.0 k.1)
        (ok_path _ (final, projected) h)
        (record {
          kept = λ id m. m;
          known = λ id m. inl m;
          filled = λ p m. absurd m;
          chosen = λ p id m n. absurd m;
          selected_in = λ p m. absurd m;
        })
  project_pools-IsCollected selected (pool ∷ pools) final projected h =
      let (o, a, b) = >>=-eq-ok (project_pool state providers selected pool) _ h in
      let (rest, c, d) =
        >>=-eq-ok (project_pools state providers (extend_selected pool o selected) pools) _ b in
      subst (λ (k : List NodeId × List RuntimePool). IsCollected selected k.0 k.1)
        (ok_path _ (final, projected) d)
        (pushed pool o selected rest.0 rest.1 a
          (project_pools-IsCollected (extend_selected pool o selected) pools rest.0 rest.1 c))
