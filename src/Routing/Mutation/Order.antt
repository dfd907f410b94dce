-- ===== src/Routing/Mutation/Order.antt =====
-- The loop of `ReorderRoutes` and `normalize_priorities` of
-- src-tauri/src/application/proxy_routing.rs.
use veyra.Base.{
  ◌≡◌, inl, inr, refl, sym, ap, ◌∙◌, subst, ℕ, suc, ◌+◌, List, [], ◌∷◌, ◌++◌, some, true, false,
  Result, ok, >>=-eq-ok, fail_if-eq-ok, length, find, remove_first, map, ltb, Bool-cases, Member,
  Distinct, All, arith,
}
use mathlib.Core.List.{Perm}
use mathlib.Core.List.Perm
use veyra.Base.Int.{pos}
use veyra.Base.Text.{Text, text_eq}
use veyra.Domain.Types.{RoutePolicy}
use veyra.Routing.Types.{MutationError}
use veyra.Routing.Mutation.{rejected, take_routes, normalize_from, has_route_id}

abbrev pub id_of : RoutePolicy → Text
id_of route = route.id

same_id : (id : Text) (r : RoutePolicy) → has_route_id id r ≡ true → r.id ≡ id
same_id id r h = (text_eq.beq_iff r.id id).0 h

-- A route that is there is found, and taken out.
taken :
    (id : Text) (routes : List RoutePolicy)
    → Member id (map id_of routes)
    → (r : RoutePolicy) × (find (has_route_id id) routes ≡ some r)
      × (r.id ≡ id)
      × Perm (r ∷ remove_first (has_route_id id) routes) routes
      × (length routes ≡ suc (length (remove_first (has_route_id id) routes)))
unfolding find remove_first
taken id [] m = absurd m
taken id (x ∷ xs) m = elim (Bool-cases (has_route_id id x)) [
  | inl e ↦ (x, rw e refl, same_id id x e, rw e (Perm.refl _), rw e refl)
  | inr e ↦ elim m [
    | inl p ↦ absurd (clash id x e p)
    | inr n ↦
        let (r, f, q, perm, l) = taken id xs n in
        (r, rw e f, q, rw e (Perm.trans (Perm.swap x r _) (Perm.cons x perm)), rw e (ap suc l))
  ]
]
  where
    clash : (id : Text) (x : RoutePolicy) → has_route_id id x ≡ false → x.id ≡ id → ⊥
    clash id x e p = ground (arith, (text_eq.beq_iff x.id id).1 p)

-- The others stay.
kept :
    (id k : Text) (routes : List RoutePolicy)
    → (¬ (id ≡ k))
    → Member k (map id_of routes)
    → Member k (map id_of (remove_first (has_route_id id) routes))
unfolding remove_first
kept id k [] d m = absurd m
kept id k (x ∷ xs) d m = elim (Bool-cases (has_route_id id x)) [
  | inl e ↦ elim m [ inl p ↦ absurd (d (sym (same_id id x e) ∙ p)) | inr n ↦ rw e n ]
  | inr e ↦ elim m [ inl p ↦ rw e (inl p) | inr n ↦ rw e (inr (kept id k xs d n)) ]
]

All-kept :
    (id : Text) (ids : List Text) (routes : List RoutePolicy)
    → (¬ Member id ids)
    → All (λ k. Member k (map id_of routes)) ids
    → All (λ k. Member k (map id_of (remove_first (has_route_id id) routes))) ids
All-kept id [] routes d h = tt
All-kept id (k ∷ ids) routes d h =
    (kept id k routes (λ p. d (inl (sym p))) h.0, All-kept id ids routes (λ m. d (inr m)) h.1)

-- Distinct identifiers of routes that are there: the loop never panics, and returns them in the
-- order asked for.
pub take_routes_lem :
    (ids : List Text) (routes : List RoutePolicy)
    → Distinct ids
    → All (λ k. Member k (map id_of routes)) ids
    → (ordered rest : List RoutePolicy) × (take_routes ids routes ≡ ok ordered)
      × (map id_of ordered ≡ ids)
      × Perm (ordered ++ rest) routes
      × (length routes ≡ length ids + length rest)
unfolding take_routes
take_routes_lem [] routes d h = ([], routes, refl, refl, Perm.refl _, omega arith)
take_routes_lem (id ∷ ids) routes d h =
    let (r, f, q, perm, l) = taken id routes h.0 in
    let others = remove_first (has_route_id id) routes in
    let (ordered, rest, t, o, p, n) =
      take_routes_lem ids others d.1 (All-kept id ids routes d.0 h.1) in
    (
      r ∷ ordered,
      rest,
      rw (f, t) refl,
      cc (q, o),
      Perm.trans (Perm.cons r p) perm,
      omega (arith, l, n),
    )

append_nil : (xs : List RoutePolicy) → xs ++ [] ≡ xs
append_nil [] = refl
append_nil (x ∷ xs) = ap (λ k. x ∷ k) (append_nil xs)

empty_of_length : (n : ℕ) (rest : List RoutePolicy) → n ≡ n + length rest → rest ≡ []
empty_of_length n [] h = refl
empty_of_length n (x ∷ xs) h = absurd (omega (arith, h))

pub take_routes_whole :
    (ids : List Text) (routes : List RoutePolicy)
    → Distinct ids
    → All (λ k. Member k (map id_of routes)) ids
    → length ids ≡ length routes
    → (ordered : List RoutePolicy) × (take_routes ids routes ≡ ok ordered)
      × (map id_of ordered ≡ ids)
      × Perm ordered routes
take_routes_whole ids routes d h l =
    let (ordered, rest, t, o, p, n) = take_routes_lem ids routes d h in
    let none_left = empty_of_length (length ids) rest (l ∙ n) in
    (
      ordered,
      t,
      o,
      subst (λ k. Perm k routes) (append_nil ordered)
          (subst (λ k. Perm (ordered ++ k) routes) none_left p),
    )

-- A route without its priority, and the priorities from an index on.
abbrev pub unranked : RoutePolicy → RoutePolicy
unranked route = record route { priority = pos 0 }

abbrev pub Ranked : ℕ → List RoutePolicy → Type 0
Ranked index [] = Unit
Ranked index (route ∷ routes) = (route.priority ≡ pos index) × Ranked (suc index) routes

pub ok_path : {A E : Type 0} (a b : A) → ◌≡◌ {A = Result A E} (ok a) (ok b) → a ≡ b
ok_path a b h = ground arith

pub normalize_from_lem :
    (index : ℕ) (routes qs : List RoutePolicy)
    → normalize_from index routes ≡ ok qs
    → (map unranked qs ≡ map unranked routes) × Ranked index qs
unfolding normalize_from
normalize_from_lem index [] qs h =
    subst (λ k. (map unranked k ≡ []) × Ranked index k) (ok_path _ _ h) (refl, tt)
normalize_from_lem index (r ∷ rs) qs h =
    let (_, k) =
      fail_if-eq-ok (ltb 2_147_483_647 index) (rejected MutationError.validation_failed) _ h in
    let (rest, e, q) = >>=-eq-ok (normalize_from (suc index) rs) _ k in
    let (m, ranks) = normalize_from_lem (suc index) rs rest e in
    subst (λ k. (map unranked k ≡ map unranked (r ∷ rs)) × Ranked index k) (ok_path _ _ q)
      (ap (λ k. unranked r ∷ k) m, (refl, ranks))
