-- ===== src/Provider/Replaced.antt =====
-- The replacement of the nodes of a provider, of src-tauri/src/application/provider_replacement.rs.
use veyra.Base.{
  ◌≡◌, refl, sym, subst, ap, ◌∙◌, List, [], ◌∷◌, ◌++◌, Option, some, Bool, true, false, ◌||◌, not,
  Result, ok, err, fail_if-eq-ok, >>=-eq-ok, >>-eq-ok, map_err, any, retain, is_empty, map,
  Bool-cases, inl, inr, ◌==◌, arith, list_beq_iff, list_eq,
}
use veyra.Base.Text.{Text, text_eq}
use veyra.Domain.Types.{AppState, Provider, ProxyNode, ProviderId}
use veyra.Domain.State.{validate}
use veyra.Domain.State.Valid.{IsValid}
use veyra.Domain.State.Decision.{validate_iff}
use veyra.Provider.{
  ProxyNodeDraft, ParseResult, Material, node_of, normalize_nodes, ProviderReplacementError,
  of_provider, node_eq, apply_provider_replacement, Service, settle_replace, save_candidate,
  replace,
}
use veyra.Provider.Normalized.{normalize_nodes_iff}

retain-append :
    (p : ProxyNode → Bool) (xs ys : List ProxyNode)
    → retain p (xs ++ ys) ≡ retain p xs ++ retain p ys
unfolding retain
retain-append p [] ys = refl
retain-append p (x ∷ xs) ys = elim (Bool-cases (p x)) [
  | inl e ↦ rw (e, retain-append p xs ys) refl
  | inr e ↦ rw (e, retain-append p xs ys) refl
]

retain_none :
    (p : ProxyNode → Bool) (xs : List ProxyNode) → retain p (retain (λ x. not (p x)) xs) ≡ []
unfolding retain
retain_none p [] = refl
retain_none p (x ∷ xs) = elim (Bool-cases (p x)) [
  | inl e ↦ rw e (retain_none p xs)
  | inr e ↦ rw (e, retain) (rw e (retain_none p xs))
]

retain_twice : (p : ProxyNode → Bool) (xs : List ProxyNode) → retain p (retain p xs) ≡ retain p xs
unfolding retain
retain_twice p [] = refl
retain_twice p (x ∷ xs) = elim (Bool-cases (p x)) [
  | inl e ↦ rw (e, retain) (rw e (ap (λ k. x ∷ k) (retain_twice p xs)))
  | inr e ↦ rw e (retain_twice p xs)
]

append_nil : (xs : List ProxyNode) → xs ++ [] ≡ xs
append_nil [] = refl
append_nil (x ∷ xs) = ap (λ k. x ∷ k) (append_nil xs)

module _ (serialized : Material → Text) (provider_id : ProviderId) where
  abbrev foreign : ProxyNode → Bool
  foreign node = not (of_provider provider_id node)

  own :
      (draft : ProxyNodeDraft)
      → of_provider provider_id (node_of serialized provider_id draft) ≡ true
  own draft = (text_eq.beq_iff provider_id provider_id).1 refl

  all_own :
      (drafts : List ProxyNodeDraft)
      → retain (of_provider provider_id) (map (node_of serialized provider_id) drafts)
        ≡ map (node_of serialized provider_id) drafts
  unfolding retain
  all_own [] = refl
  all_own (d ∷ ds) = rw (own d, all_own ds) refl

  none_foreign :
      (drafts : List ProxyNodeDraft)
      → retain foreign (map (node_of serialized provider_id) drafts) ≡ []
  unfolding retain
  none_foreign [] = refl
  none_foreign (d ∷ ds) = rw (own d) (none_foreign ds)

  -- The state with the nodes of one provider replaced.
  pub record IsReplaced (old : AppState) (drafts : List ProxyNodeDraft) (new : AppState)
      (changed : Bool) : Type 0 where
    pub valid : IsValid new
    pub own_nodes :
        retain (of_provider provider_id) new.nodes ≡ map (node_of serialized provider_id) drafts
    pub other_nodes : retain foreign new.nodes ≡ retain foreign old.nodes
    pub unchanged :
        changed ≡ false
        → retain (of_provider provider_id) new.nodes ≡ retain (of_provider provider_id) old.nodes
    pub rest : new ≡ record old { nodes = new.nodes }

  nodes_own :
      (old drafts_nodes : List ProxyNode)
      → retain (of_provider provider_id) drafts_nodes ≡ drafts_nodes
      → retain (of_provider provider_id) (retain foreign old ++ drafts_nodes) ≡ drafts_nodes
  nodes_own old ns h =
      retain-append (of_provider provider_id) (retain foreign old) ns
      ∙ ap (λ k. k ++ retain (of_provider provider_id) ns)
          (retain_none (of_provider provider_id) old)
      ∙ h

  nodes_foreign :
      (old drafts_nodes : List ProxyNode)
      → retain foreign drafts_nodes ≡ []
      → retain foreign (retain foreign old ++ drafts_nodes) ≡ retain foreign old
  nodes_foreign old ns h =
      retain-append foreign (retain foreign old) ns
      ∙ ap (λ k. retain foreign (retain foreign old) ++ k) h
      ∙ append_nil (retain foreign (retain foreign old))
      ∙ retain_twice foreign old

  mapped : {A E F : Type 0} (r : Result A E) (f : E → F) (a : A) → map_err r f ≡ ok a → r ≡ ok a
  mapped (ok x) f a h = ground arith
  mapped (err x) f a h = cc

  ok_path :
      (a b : AppState × Bool)
      → ◌≡◌ {A = Result (AppState × Bool) ProviderReplacementError} (ok a) (ok b)
      → a ≡ b
  ok_path a b h = ground arith

  same_nodes : (xs ys : List ProxyNode) → not (xs == ys) ≡ false → xs ≡ ys
  same_nodes xs ys h = (list_beq_iff xs ys).0 (ground arith)

  -- A replacement that succeeds leaves a valid state in which the nodes of the provider are the
  -- normalized drafts, those of the others and the rest of the state are as before, and a result of
  -- false says that the nodes of the provider are as before, too.
  pub apply_provider_replacement-IsReplaced :
      (old : AppState) (parsed : ParseResult) (new : AppState) (changed : Bool)
      → apply_provider_replacement serialized old provider_id parsed ≡ ok (new, changed)
      → IsReplaced old parsed.nodes new changed
  unfolding apply_provider_replacement
  apply_provider_replacement-IsReplaced old parsed new changed h =
      let (_, h1) =
        fail_if-eq-ok (is_empty parsed.nodes || not (is_empty parsed.skipped))
          ProviderReplacementError.rejected_batch _ h in
      let (_, h2) =
        fail_if-eq-ok
          (not (any (λ (provider : Provider). text_eq.beq provider.id provider_id) old.providers))
          ProviderReplacementError.missing_provider _ h1 in
      let (nodes, e, h3) =
        >>=-eq-ok
          (map_err (normalize_nodes serialized provider_id parsed.nodes)
            ProviderReplacementError.normalize)
          _ h2 in
      let (same, _, _) =
        (normalize_nodes_iff serialized provider_id parsed.nodes nodes).0 (mapped _ _ nodes e) in
      let replaced : AppState = record old { nodes = retain foreign old.nodes ++ nodes } in
      let (v, h4) = >>-eq-ok (map_err (validate replaced) ProviderReplacementError.state) _ h3 in
      let all_same =
        nodes_own old.nodes nodes
          (subst (λ k. retain (of_provider provider_id) k ≡ k) (sym same) (all_own parsed.nodes)) in
      subst (λ (k : AppState × Bool). IsReplaced old parsed.nodes k.0 k.1)
        (ok_path _ (new, changed) h4)
        (record {
          valid = (validate_iff replaced).0 (mapped _ _ tt v);
          own_nodes = all_same ∙ same;
          other_nodes =
              nodes_foreign old.nodes nodes
                (subst (λ k. retain foreign k ≡ []) (sym same) (none_foreign parsed.nodes));
          unchanged =
              λ q. all_same ∙ sym (same_nodes (retain (of_provider provider_id) old.nodes) nodes q);
          rest = refl;
        })

-- The store keeps what was saved last; a save that fails leaves the old state.
pub record SaveKeeps {Disk : Type 0} (save : AppState → Disk → Result (Unit {0}) (Unit {0}) × Disk)
    (kept : Disk → Option AppState) : Type 0 where
  pub save_ok : (s : AppState) (d : Disk) → (save s d).0 ≡ ok tt → kept (save s d).1 ≡ some s
  pub save_err :
      (s : AppState) (d : Disk) (e : Unit {0}) → (save s d).0 ≡ err e → kept (save s d).1 ≡ kept d

-- The state in memory is valid, and it is the one that is stored.
pub record IsInStep {Disk : Type 0} (kept : Disk → Option AppState) (s : Service Disk)
    : Type 0 where
  pub valid : IsValid s.state
  pub stored : kept s.disk ≡ some s.state

module _ {Disk : Type 0} (save : AppState → Disk → Result (Unit {0}) (Unit {0}) × Disk)
    (kept : Disk → Option AppState) (laws : SaveKeeps save kept)
    (serialized : Material → Text) where
  settle-IsInStep :
      (s : Service Disk) (candidate : AppState) (o : Result (Unit {0}) (Unit {0}) × Disk)
      → save candidate s.disk ≡ o
      → IsValid candidate
      → IsInStep kept s
      → IsInStep kept (settle_replace save serialized s candidate o).1
  unfolding settle_replace
  settle-IsInStep s candidate (err e, disk) p w v = record {
    valid = v.valid;
    stored =
        sym (ap (λ (k : Result (Unit {0}) (Unit {0}) × Disk). kept k.1) p)
        ∙ laws.save_err candidate s.disk e (ap (λ (k : Result (Unit {0}) (Unit {0}) × Disk). k.0) p)
        ∙ v.stored;
  }
  settle-IsInStep s candidate (ok _, disk) p w v = record {
    valid = w;
    stored =
        sym (ap (λ (k : Result (Unit {0}) (Unit {0}) × Disk). kept k.1) p)
        ∙ laws.save_ok candidate s.disk (ap (λ (k : Result (Unit {0}) (Unit {0}) × Disk). k.0) p);
  }

  save-IsInStep :
      (provider_id : ProviderId) (parsed : ParseResult) (s : Service Disk)
      (o : Result (AppState × Bool) ProviderReplacementError)
      → apply_provider_replacement serialized s.state provider_id parsed ≡ o
      → IsInStep kept s
      → IsInStep kept (save_candidate save serialized s o).1
  unfolding save_candidate
  save-IsInStep provider_id parsed s (err e) p v = v
  save-IsInStep provider_id parsed s (ok (candidate, changed)) p v =
      settle-IsInStep s candidate (save candidate s.disk) refl
        (apply_provider_replacement-IsReplaced serialized provider_id s.state parsed candidate
          changed p).valid
        v

  -- Whatever `replace` returns, the state in memory is valid and the one that is stored, if it was so
  -- before. It is assumed that the store keeps what was saved last.
  pub replace-IsInStep :
      (provider_id : ProviderId) (parsed : ParseResult) (s : Service Disk)
      → IsInStep kept s
      → IsInStep kept (replace save serialized provider_id parsed s).1
  unfolding replace
  replace-IsInStep provider_id parsed s v =
      save-IsInStep provider_id parsed s
        (apply_provider_replacement serialized s.state provider_id parsed) refl v
