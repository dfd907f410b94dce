-- ===== src/Provider/Normalized.antt =====
-- `normalize_nodes` and `stable_hash` of src-tauri/src/subscription/normalize.rs.
use veyra.Base.{
  ◌≡◌, ◌↔◌, inl, inr, refl, sym, ap, ◌∙◌, List, [], ◌∷◌, Bool, true, false, ◌||◌, not, Result, ok,
  fail_if-eq-ok, >>=-eq-ok, map, contains, contains_no, no_contains, Member, Distinct, All, nat_beq,
  arith,
}
use veyra.Base.Text.{Text, text_eq, present}
use veyra.Domain.Types.{ProxyNode, NodeId, ProviderId}
use veyra.Provider.{
  ProxyNodeDraft, NormalizationError, Material, node_id, node_of, normalize_from, normalize_nodes,
}

-- A draft that the loop accepts: a name, a server and a port.
pub record IsUsable (draft : ProxyNodeDraft) : Type 0 where
  pub named : present draft.name ≡ true
  pub served : present draft.server ≡ true
  pub ported : nat_beq draft.port 0 ≡ false

usable : (a b c : Bool) → (not a || not b || c) ≡ false → (a ≡ true) × (b ≡ true) × (c ≡ false)
usable a b c h = ground arith

module _ (serialized : Material → Text) (provider_id : ProviderId) where
  abbrev ids_of : List ProxyNodeDraft → List NodeId
  ids_of = map (node_id serialized provider_id)

  abbrev Apart : List NodeId → List ProxyNodeDraft → Type 0
  Apart ids drafts = All (λ draft. ¬ Member (node_id serialized provider_id draft) ids) drafts

  -- The accepted drafts: usable, with identifiers that differ from each other and from `ids`.
  abbrev Accepted : List NodeId → List ProxyNodeDraft → Type 0
  Accepted ids drafts = All IsUsable drafts × Distinct (ids_of drafts) × Apart ids drafts

  Apart-tail :
      (id : NodeId) (ids : List NodeId) (drafts : List ProxyNodeDraft)
      → Apart (id ∷ ids) drafts
      → Apart ids drafts × (¬ Member id (ids_of drafts))
  Apart-tail id ids [] a = (tt, λ m. m)
  Apart-tail id ids (d ∷ ds) a =
      let (x, y) = Apart-tail id ids ds a.1 in
      ((λ m. a.0 (inr m), x), λ m. elim m [ inl e ↦ a.0 (inl (sym e)) | inr n ↦ y n ])

  Apart-cons :
      (id : NodeId) (ids : List NodeId) (drafts : List ProxyNodeDraft)
      → Apart ids drafts
      → (¬ Member id (ids_of drafts))
      → Apart (id ∷ ids) drafts
  Apart-cons id ids [] a n = tt
  Apart-cons id ids (d ∷ ds) a n = (
    λ m. elim m [ inl e ↦ n (inl (sym e)) | inr k ↦ a.0 k ],
    Apart-cons id ids ds a.1 (λ m. n (inr m)),
  )

  ok_path :
      (a b : List ProxyNode)
      → ◌≡◌ {A = Result (List ProxyNode) NormalizationError} (ok a) (ok b)
      → a ≡ b
  ok_path a b h = ground arith

  normalize_from_sound :
      (ids : List NodeId) (drafts : List ProxyNodeDraft) (nodes : List ProxyNode)
      → normalize_from serialized provider_id ids drafts ≡ ok nodes
      → (nodes ≡ map (node_of serialized provider_id) drafts) × Accepted ids drafts
  unfolding normalize_from
  normalize_from_sound ids [] nodes h = (sym (ok_path [] nodes h), (tt, tt, tt))
  normalize_from_sound ids (d ∷ ds) nodes h =
      let id = node_id serialized provider_id d in
      let (t, h1) =
        fail_if-eq-ok (not (present d.name) || not (present d.server) || nat_beq d.port 0)
          NormalizationError.invalid_node _ h in
      let (c, h2) =
        fail_if-eq-ok (contains ids id) NormalizationError.duplicate_node_identity _ h1 in
      let (rest, e, h3) = >>=-eq-ok (normalize_from serialized provider_id (id ∷ ids) ds) _ h2 in
      let (a, (u, v, w)) = normalize_from_sound (id ∷ ids) ds rest e in
      let (x, y) = Apart-tail id ids ds w in
      let (named, served, ported) =
        usable (present d.name) (present d.server) (nat_beq d.port 0) t in
      (
        sym (ok_path _ nodes h3) ∙ ap (λ k. node_of serialized provider_id d ∷ k) a,
        (
          (record { named = named; served = served; ported = ported }, u),
          (y, v),
          (contains_no ids id c, x),
        ),
      )

  normalize_from_complete :
      (ids : List NodeId) (drafts : List ProxyNodeDraft)
      → Accepted ids drafts
      → normalize_from serialized provider_id ids drafts
        ≡ ok (map (node_of serialized provider_id) drafts)
  unfolding normalize_from
  normalize_from_complete ids [] v = refl
  normalize_from_complete ids (d ∷ ds) (u, v, w) =
      let id = node_id serialized provider_id d in
      let rest = normalize_from_complete (id ∷ ids) ds (u.1, v.1, Apart-cons id ids ds w.1 v.0) in
      rw (u.0.named, u.0.served, u.0.ported, no_contains ids id w.0, rest) refl

  nowhere : (drafts : List ProxyNodeDraft) → Apart [] drafts
  nowhere [] = tt
  nowhere (d ∷ ds) = (λ m. m, nowhere ds)

  -- The drafts are normalized exactly when each has a name, a server and a port, and their
  -- identifiers differ; the nodes are then the drafts in their order, with their identifiers.
  pub normalize_nodes_iff :
      (drafts : List ProxyNodeDraft) (nodes : List ProxyNode)
      → (normalize_nodes serialized provider_id drafts ≡ ok nodes) ↔ (
          (nodes ≡ map (node_of serialized provider_id) drafts)
          × All IsUsable drafts
          × Distinct (ids_of drafts))
  unfolding normalize_nodes
  normalize_nodes_iff drafts nodes = (
    λ h. let (a, (u, v, _)) = normalize_from_sound [] drafts nodes h in (a, u, v),
    λ (a, u, v). normalize_from_complete [] drafts (u, v, nowhere drafts) ∙ ap ok (sym a),
  )
