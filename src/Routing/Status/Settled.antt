-- ===== src/Routing/Status/Settled.antt =====
-- What the outcome of a manual selection, of src-tauri/src/application/proxy_routing.rs, lets the
-- user conclude.
use veyra.Base.{
  ◌==◌, Member, any_sound, ◌≡◌, ◌⊎◌, inl, inr, refl, ap, none, some, Bool, true, false, ◌&&◌, ◌||◌,
  not, if◌then◌else◌, &&-true,
}
use veyra.Base.Text.{Text, text_eq, text_beq_sound}
use veyra.Domain.Types.{AppState, NodePool, SelectionPolicy}
use veyra.Routing.Types.{MutationOutcome, SelectorApplyUnknownReason}
use veyra.Routing.Status.{
  ManualSelectionRuntimeResult, map_manual_result, selects, still_desired, settle_manual_outcome,
}

map_manual_result-applied :
    (pool_id node_id : Text) (result : ManualSelectionRuntimeResult) (p n : Text)
    → map_manual_result pool_id node_id result ≡ MutationOutcome.selector_applied p n
    → (result ≡ ManualSelectionRuntimeResult.applied) × (pool_id ≡ p) × (node_id ≡ n)
unfolding map_manual_result
map_manual_result-applied pool_id node_id ManualSelectionRuntimeResult.applied p n h =
    (refl, cc, cc)
map_manual_result-applied pool_id node_id (ManualSelectionRuntimeResult.not_applied m) p n h = cc
map_manual_result-applied pool_id node_id (ManualSelectionRuntimeResult.saved_only m) p n h = cc
map_manual_result-applied pool_id node_id (ManualSelectionRuntimeResult.apply_unknown m) p n h = cc

selects_lem :
    (node_id : Text) (selection : SelectionPolicy)
    → selects node_id selection ≡ true
    → selection ≡ SelectionPolicy.manual (some node_id)
selects_lem node_id (SelectionPolicy.manual (some id)) h =
    ap (λ i. SelectionPolicy.manual (some i)) (text_beq_sound id node_id h)
selects_lem node_id (SelectionPolicy.manual none) h = cc
selects_lem node_id (SelectionPolicy.url_test u i t) h = cc

-- Some pool of the state with that id is set by hand to that node.
abbrev pub Desired : Text → Text → AppState → Type 0
Desired pool_id node_id state =
    (pool : NodePool) × Member pool state.pools
    × (pool.id ≡ pool_id)
    × (pool.selection ≡ SelectionPolicy.manual (some node_id))

still_desired-Desired :
    (pool_id node_id : Text) (state : AppState)
    → still_desired pool_id node_id state ≡ true
    → Desired pool_id node_id state
unfolding still_desired
still_desired-Desired pool_id node_id state h =
    let (pool, m, t) =
      any_sound (λ (q : NodePool). q.id == pool_id && selects node_id q.selection) state.pools h in
    let (i, u) = &&-true (pool.id == pool_id) (selects node_id pool.selection) t in
    (pool, m, text_beq_sound pool.id pool_id i, selects_lem node_id pool.selection u)

settled_by :
    (desired latest : Bool) (o : MutationOutcome) (a b p n : Text)
    → (if desired || not latest
        then o
        else MutationOutcome.selector_apply_unknown a b SelectorApplyUnknownReason.superseded)
      ≡ MutationOutcome.selector_applied p n
    → (o ≡ MutationOutcome.selector_applied p n) × ((desired ≡ true) ⊎ (latest ≡ false))
settled_by true latest o a b p n h = (h, inl refl)
settled_by false false o a b p n h = (h, inr refl)
settled_by false true o a b p n h = cc

-- A manual selection is said to be applied, to the pool and the node of the request, only when the
-- runtime answered so, and only while the stored state still asks for it, unless the reload did not
-- prove which state is the latest.
pub settle_manual_outcome-applied :
    (pool_id node_id : Text) (result : ManualSelectionRuntimeResult) (state : AppState)
    (latest : Bool) (p n : Text)
    → settle_manual_outcome pool_id node_id result state latest
      ≡ MutationOutcome.selector_applied p n
    → (result ≡ ManualSelectionRuntimeResult.applied)
      × (pool_id ≡ p)
      × (node_id ≡ n)
      × (Desired pool_id node_id state ⊎ (latest ≡ false))
unfolding settle_manual_outcome
settle_manual_outcome-applied pool_id node_id result state latest p n h =
    let (t, d) =
      settled_by (still_desired pool_id node_id state) latest
        (map_manual_result pool_id node_id result) pool_id node_id p n h in
    let (r, i, j) = map_manual_result-applied pool_id node_id result p n t in
    (
      r,
      i,
      j,
      elim d [ inl e ↦ inl (still_desired-Desired pool_id node_id state e) | inr e ↦ inr e ],
    )
