-- ===== src/Domain/State/Valid/Pools.antt =====
-- The checks that `validate` of src-tauri/src/domain/state.rs makes of pools and routes, against
-- what they mean.
use veyra.Base.{
  ℕ, ◌≡◌, ◌≢◌, ◌↔◌, inl, inr, refl, sym, subst, ◌∙◌, List, [], ◌∷◌, ◌++◌, Bool, true, false, not,
  ok, Bool-cases, Option-cases, Member, All, Distinct, contains_iff, no_contains, arith, map, any,
  find, none, some, is_none_or, is_empty, fail_if, fail_if_iff, >>_iff, Result, for_each,
  for_each_iff, any_none, any_sound, find_sound, Member-map, nat_beq, nat_beq_iff,
}
use veyra.Base.Text.{Text, text_eq, present}
use veyra.Domain.Types.{
  AppState, ProxyNode, NodePool, NodeFilter, PoolSource, SelectionPolicy, ProviderId, NodeId,
  invalid_filter, missing_provider, invalid_selection, empty_pool_sources,
}
use veyra.Domain.Filter.{validate_filter}
use veyra.Domain.State.{
  validate_source, validate_pool_selection, validate_pool, resolve_pool_members,
}
use veyra.Domain.State.Members.{Resolves, resolve_sound, resolve_complete}
use veyra.Domain.State.Valid.Parts.{or_false, not-false, absent_iff}

-- Each listed node exists at the source's provider, and none is both included and excluded.
pub record FilterIsValid (f : NodeFilter) (provider_id : ProviderId) (nodes : List ProxyNode)
    : Type 0 where
  pub listed :
      (id : NodeId)
      → Member id (f.include_node_ids ++ f.exclude_node_ids)
      → (node : ProxyNode) × Member node nodes × (node.id ≡ id) × (node.provider_id ≡ provider_id)
  pub disjoint : (id : NodeId) → Member id f.include_node_ids → ¬ Member id f.exclude_node_ids

-- With distinct identifiers, `find` by identifier gives the member that has it.
find_unique :
    (nodes : List ProxyNode) (node : ProxyNode) (id : NodeId)
    → Distinct (map (λ (v : ProxyNode). v.id) nodes)
    → Member node nodes
    → node.id ≡ id
    → find (λ (v : ProxyNode). text_eq.beq v.id id) nodes ≡ some node
unfolding find
find_unique [] node id d m e = absurd m
find_unique (x ∷ xs) node id d (inl p) e =
    rw ((text_eq.beq_iff x.id id).1 (ap_id p ∙ e)) (ap_some p)
  where
    ap_id : x ≡ node → x.id ≡ node.id
    ap_id q = cc

    ap_some : x ≡ node → some x ≡ some node
    ap_some q = cc
find_unique (x ∷ xs) node id d (inr m) e = elim (Bool-cases (text_eq.beq x.id id)) [
  | inl t ↦ absurd (
      d.0 (
        subst (λ k. Member k (map (λ (v : ProxyNode). v.id) xs))
          (e ∙ sym ((text_eq.beq_iff x.id id).0 t))
          (Member-map (λ (v : ProxyNode). v.id) xs node m)))
  | inr f ↦ rw f (find_unique xs node id d.1 m e)
]

abbrev listed_wrong : ProviderId → List ProxyNode → NodeId → Bool
listed_wrong provider_id nodes id =
    is_none_or (find (λ (v : ProxyNode). text_eq.beq v.id id) nodes)
      (λ (v : ProxyNode). not (text_eq.beq v.provider_id provider_id))

listed_right :
    (provider_id : ProviderId) (nodes : List ProxyNode) (id : NodeId)
    → listed_wrong provider_id nodes id ≡ false
    → (node : ProxyNode) × Member node nodes × (node.id ≡ id) × (node.provider_id ≡ provider_id)
listed_right provider_id nodes id h =
    elim (Option-cases (find (λ (v : ProxyNode). text_eq.beq v.id id) nodes)) [
      | inl e ↦ cc (rw e at h)
      | inr (node, e) ↦
          let (m, t) = find_sound (λ (v : ProxyNode). text_eq.beq v.id id) nodes node e in
          (
            node,
            m,
            (text_eq.beq_iff node.id id).0 t,
            (text_eq.beq_iff node.provider_id provider_id).0 ((not-false _).0 (rw e at h)),
          )
    ]

any-false :
    {A : Type 0} (p : A → Bool) (xs : List A)
    → ((a : A) → Member a xs → p a ≡ false)
    → any p xs ≡ false
any-false p xs h = elim (Bool-cases (any p xs)) [
  | inl t ↦ let (a, m, e) = any_sound p xs t in cc (h a m)
  | inr f ↦ f
]

pub validate_filter_iff :
    (f : NodeFilter) (provider_id : ProviderId) (nodes : List ProxyNode)
    → Distinct (map (λ (v : ProxyNode). v.id) nodes)
    → (validate_filter f provider_id nodes ≡ ok tt) ↔ FilterIsValid f provider_id nodes
unfolding validate_filter
validate_filter_iff f provider_id nodes d =
    let ids : List NodeId = f.include_node_ids ++ f.exclude_node_ids in
    (
      λ h.
          let (a, b) =
            (or_false (any (listed_wrong provider_id nodes) ids) _).0
              ((fail_if_iff _ invalid_filter).0 h) in
          record {
            listed = λ id m. listed_right provider_id nodes id (any_none _ ids a id m);
            disjoint = λ id m n.
                cc ((contains_iff f.exclude_node_ids id).1 n, any_none _ f.include_node_ids b id m);
          },
      λ v. (fail_if_iff _ invalid_filter).1 (
          (or_false _ _).1 (
            any-false _ ids (λ id m.
                let (node, n, e, q) = v.listed id m in
                rw (find_unique nodes node id d n e)
                  ((not-false _).1 ((text_eq.beq_iff node.provider_id provider_id).1 q))),
            any-false _ f.include_node_ids
                (λ id m. no_contains f.exclude_node_ids id (v.disjoint id m)),
          )),
    )

pub record SourceIsValid (providers : List Text) (nodes : List ProxyNode) (source : PoolSource)
    : Type 0 where
  pub provider_in : Member source.provider_id providers
  pub filter_valid : FilterIsValid source.filter source.provider_id nodes

pub validate_source_iff :
    (providers : List Text) (nodes : List ProxyNode) (source : PoolSource)
    → Distinct (map (λ (v : ProxyNode). v.id) nodes)
    → (validate_source providers nodes source ≡ ok tt) ↔ SourceIsValid providers nodes source
unfolding validate_source
validate_source_iff providers nodes source d = (
  λ h.
      let (a, b) = (>>_iff (fail_if _ missing_provider) _ tt).0 h in
      record {
        provider_in =
            (absent_iff providers source.provider_id).0 ((fail_if_iff _ missing_provider).0 a);
        filter_valid = (validate_filter_iff source.filter source.provider_id nodes d).0 b;
      },
  λ v. (>>_iff (fail_if _ missing_provider) _ tt).1 (
    (fail_if_iff _ missing_provider).1 ((absent_iff providers source.provider_id).1 v.provider_in),
    (validate_filter_iff source.filter source.provider_id nodes d).1 v.filter_valid,
  ),
)

-- What a selection policy needs: a selected node is a member, a probe has an address and a period.
abbrev pub SelectionIsValid : AppState → NodePool → SelectionPolicy → Type 0
SelectionIsValid state pool (SelectionPolicy.manual none) = Unit
SelectionIsValid state pool (SelectionPolicy.manual (some node_id)) = Resolves state pool node_id
SelectionIsValid state pool (SelectionPolicy.url_test probe_url interval_secs tolerance_ms) =
    (present probe_url ≡ true) × (interval_secs ≢ 0)

not_zero : (n : ℕ) → (nat_beq n 0 ≡ false) ↔ (n ≢ 0)
not_zero n = (λ h e. cc (h, (nat_beq_iff n 0).1 e), λ h. ground arith)

selection_iff :
    (state : AppState) (pool : NodePool) (p : SelectionPolicy)
    → (validate_pool_selection (resolve_pool_members state pool) p ≡ ok tt)
      ↔ SelectionIsValid state pool p
unfolding validate_pool_selection
selection_iff state pool (SelectionPolicy.manual none) = (λ _. tt, λ _. refl)
selection_iff state pool (SelectionPolicy.manual (some id)) = (
  λ h.
      resolve_sound state pool id (
        (absent_iff (resolve_pool_members state pool) id).0
          ((fail_if_iff _ invalid_selection).0 h)),
  λ r.
      (fail_if_iff _ invalid_selection).1
        ((absent_iff (resolve_pool_members state pool) id).1 (resolve_complete state pool id r)),
)
selection_iff state pool (SelectionPolicy.url_test url secs tolerance) = (
  λ h.
      let (a, b) =
        (or_false (not (present url)) (nat_beq secs 0)).0 ((fail_if_iff _ invalid_selection).0 h) in
      ((not-false (present url)).0 a, (not_zero secs).0 b),
  λ v. (fail_if_iff _ invalid_selection).1 (
      (or_false (not (present url)) (nat_beq secs 0)).1
        ((not-false (present url)).1 v.0, (not_zero secs).1 v.1)),
)

pub record PoolIsValid (state : AppState) (providers : List Text) (pool : NodePool) : Type 0 where
  pub has_sources : pool.sources ≢ []
  pub sources_valid : All (SourceIsValid providers state.nodes) pool.sources
  pub selection_valid : SelectionIsValid state pool pool.selection

not_empty : {A : Type 0} (xs : List A) → (is_empty xs ≡ false) ↔ (xs ≢ [])
not_empty [] = (λ h. cc, λ h. absurd (h refl))
not_empty (x ∷ xs) = (λ h e. cc, λ h. refl)

All-iff :
    {A : Type 0} (P Q : A → Type 0) (xs : List A) → ((a : A) → P a ↔ Q a) → All P xs ↔ All Q xs
All-iff P Q [] h = (λ _. tt, λ _. tt)
All-iff P Q (x ∷ xs) h =
    (λ v. ((h x).0 v.0, (All-iff P Q xs h).0 v.1), λ v. ((h x).1 v.0, (All-iff P Q xs h).1 v.1))

-- A loop of checks that mean `Q`.
pub for_each_means :
    {A E : Type 0} (f : A → Result (Unit {0}) E) (Q : A → Type 0) (xs : List A)
    → ((a : A) → (f a ≡ ok tt) ↔ Q a)
    → (for_each f xs ≡ ok tt) ↔ All Q xs
for_each_means f Q xs h =
    let k = All-iff (λ x. f x ≡ ok tt) Q xs h in
    (λ e. k.0 ((for_each_iff f xs).0 e), λ v. (for_each_iff f xs).1 (k.1 v))

pub validate_pool_iff :
    (state : AppState) (providers : List Text) (pool : NodePool)
    → Distinct (map (λ (v : ProxyNode). v.id) state.nodes)
    → (validate_pool state providers pool ≡ ok tt) ↔ PoolIsValid state providers pool
unfolding validate_pool
validate_pool_iff state providers pool d =
    let checks = for_each (validate_source providers state.nodes) pool.sources in
    let selection = validate_pool_selection (resolve_pool_members state pool) pool.selection in
    let meaning =
      for_each_means (validate_source providers state.nodes) (SourceIsValid providers state.nodes)
        pool.sources (λ source. validate_source_iff providers state.nodes source d) in
    (
      λ h.
          let (a, rest) = (>>_iff (fail_if (is_empty pool.sources) empty_pool_sources) _ tt).0 h in
          let (b, c) = (>>_iff checks selection tt).0 rest in
          record {
            has_sources = (not_empty pool.sources).0 ((fail_if_iff _ empty_pool_sources).0 a);
            sources_valid = meaning.0 b;
            selection_valid = (selection_iff state pool pool.selection).0 c;
          },
      λ v. (>>_iff (fail_if (is_empty pool.sources) empty_pool_sources) _ tt).1 (
        (fail_if_iff _ empty_pool_sources).1 ((not_empty pool.sources).1 v.has_sources),
        (>>_iff checks selection tt).1 (
          meaning.1 v.sources_valid,
          (selection_iff state pool pool.selection).1 v.selection_valid,
        ),
      ),
    )
