-- ===== src/Base/Membership.antt =====
-- Membership, universal statements and distinctness of lists, as types by recursion.
use mathlib.Core.Path.{◌≡◌, refl, subst}
use mathlib.Core.Logic.{◌↔◌, ◌⊎◌, inl, inr}
use mathlib.Core.Bool.{Bool, true, false}
use mathlib.Core.List.{List, [], ◌∷◌, ◌++◌, map}
use mathlib.Core.Option.{some}
use native.Mathlib.Omega.{arith}
use veyra.Base.Tests.{Bool-cases, &&-true}
use veyra.Base.Lists.{any, all, retain, find, flat_map}
use veyra.Base.Equality.{Eq, contains}

module _ {A : Type 0} where
  abbrev pub Member : A → List A → Type 0
  Member a [] = ⊥
  Member a (x ∷ xs) = (x ≡ a) ⊎ Member a xs

  abbrev pub Distinct : List A → Type 0
  Distinct [] = Unit
  Distinct (x ∷ xs) = (¬ Member x xs) × Distinct xs

module _ {A : Type 0} where
  abbrev pub All : (A → Type 0) → List A → Type 0
  All P [] = Unit
  All P (x ∷ xs) = P x × All P xs

  abbrev pub Any : (A → Type 0) → List A → Type 0
  Any P [] = ⊥
  Any P (x ∷ xs) = P x ⊎ Any P xs

  pub All-member : (P : A → Type 0) (xs : List A) → All P xs → (a : A) → Member a xs → P a
  All-member P [] h a m = absurd m
  All-member P (x ∷ xs) h a (inl e) = subst P e h.0
  All-member P (x ∷ xs) h a (inr m) = All-member P xs h.1 a m

  pub Member-All : (P : A → Type 0) (xs : List A) → ((a : A) → Member a xs → P a) → All P xs
  Member-All P [] h = tt
  Member-All P (x ∷ xs) h = (h x (inl refl), Member-All P xs (λ a m. h a (inr m)))

  pub All-imp : (P Q : A → Type 0) (xs : List A) → ((a : A) → P a → Q a) → All P xs → All Q xs
  All-imp P Q [] f h = tt
  All-imp P Q (x ∷ xs) f h = (f x h.0, All-imp P Q xs f h.1)

module _ {A : Type 0} where
  pub Member-append : (a : A) (xs ys : List A) → Member a (xs ++ ys) ↔ (Member a xs ⊎ Member a ys)
  Member-append a [] ys = (λ m. inr m, λ m. elim m [ inl n ↦ absurd n | inr n ↦ n ])
  Member-append a (x ∷ xs) ys = (
    λ m. elim m [
      | inl e ↦ inl (inl e)
      | inr n ↦ elim ((Member-append a xs ys).0 n) [ inl l ↦ inl (inr l) | inr r ↦ inr r ]
    ],
    λ m. elim m [
      | inl l ↦ elim l [ inl e ↦ inl e | inr n ↦ inr ((Member-append a xs ys).1 (inl n)) ]
      | inr r ↦ inr ((Member-append a xs ys).1 (inr r))
    ],
  )

  -- `any` finds a member that passes the test, and only then.
  pub any_sound :
      (p : A → Bool) (xs : List A) → any p xs ≡ true → (a : A) × Member a xs × (p a ≡ true)
  unfolding any
  any_sound p [] h = cc
  any_sound p (x ∷ xs) h = elim (Bool-cases (p x)) [
    | inl e ↦ (x, inl refl, e)
    | inr e ↦ let (a, m, q) = any_sound p xs (ground arith) in (a, inr m, q)
  ]

  pub any_complete :
      (p : A → Bool) (xs : List A) (a : A) → Member a xs → p a ≡ true → any p xs ≡ true
  unfolding any
  any_complete p [] a m h = absurd m
  any_complete p (x ∷ xs) a (inl e) h = ground arith
  any_complete p (x ∷ xs) a (inr m) h = ground (arith, any_complete p xs a m h)

  pub any_none :
      (p : A → Bool) (xs : List A) → any p xs ≡ false → (a : A) → Member a xs → p a ≡ false
  any_none p xs h a m = elim (Bool-cases (p a)) [ inl e ↦ cc (any_complete p xs a m e) | inr e ↦ e ]

  pub all_sound : (p : A → Bool) (xs : List A) → all p xs ≡ true → All (λ a. p a ≡ true) xs
  unfolding all
  all_sound p [] h = tt
  all_sound p (x ∷ xs) h = let (l, r) = &&-true (p x) (all p xs) h in (l, all_sound p xs r)

  pub all_complete : (p : A → Bool) (xs : List A) → All (λ a. p a ≡ true) xs → all p xs ≡ true
  unfolding all
  all_complete p [] h = refl
  all_complete p (x ∷ xs) h = ground (arith, all_complete p xs h.1)

  -- `filter` keeps exactly the members that pass.
  pub Member-retain :
      (p : A → Bool) (xs : List A) (a : A) → Member a (retain p xs) ↔ (Member a xs × (p a ≡ true))
  unfolding retain
  Member-retain p [] a = (λ m. absurd m, λ m. absurd m.0)
  Member-retain p (x ∷ xs) a = elim (Bool-cases (p x)) [
    | inl e ↦ rw e (
      λ m. elim m [
        | inl q ↦ (inl q, rw q at e)
        | inr n ↦ let (k, t) = (Member-retain p xs a).0 n in (inr k, t)
      ],
      λ m. elim m.0 [ inl q ↦ inl q | inr n ↦ inr ((Member-retain p xs a).1 (n, m.1)) ],
    )
    | inr e ↦ rw e (
      λ m. let (k, t) = (Member-retain p xs a).0 m in (inr k, t),
      λ m. elim m.0 [ inl q ↦ cc | inr n ↦ (Member-retain p xs a).1 (n, m.1) ],
    )
  ]

  pub find_sound :
      (p : A → Bool) (xs : List A) (a : A) → find p xs ≡ some a → Member a xs × (p a ≡ true)
  unfolding find
  find_sound p [] a h = cc
  find_sound p (x ∷ xs) a h = elim (Bool-cases (p x)) [
    | inl e ↦ (inl (ground arith), ground arith)
    | inr e ↦ let (m, q) = find_sound p xs a (ground arith) in (inr m, q)
  ]

module _ {A B : Type 0} where
  pub Member-map : (f : A → B) (xs : List A) (a : A) → Member a xs → Member (f a) (map f xs)
  Member-map f [] a m = absurd m
  Member-map f (x ∷ xs) a (inl e) = inl (rw e)
  Member-map f (x ∷ xs) a (inr m) = inr (Member-map f xs a m)

  pub Member-map_in :
      (f : A → B) (xs : List A) (b : B) → Member b (map f xs) → (a : A) × Member a xs × (f a ≡ b)
  Member-map_in f [] b m = absurd m
  Member-map_in f (x ∷ xs) b (inl e) = (x, inl refl, e)
  Member-map_in f (x ∷ xs) b (inr m) = let (a, n, e) = Member-map_in f xs b m in (a, inr n, e)

  pub Member-flat_map :
      (f : A → List B) (xs : List A) (b : B) (a : A)
      → Member a xs
      → Member b (f a)
      → Member b (flat_map f xs)
  unfolding flat_map
  Member-flat_map f [] b a m n = absurd m
  Member-flat_map f (x ∷ xs) b a (inl e) n =
      (Member-append b (f x) (flat_map f xs)).1 (inl (rw e n))
  Member-flat_map f (x ∷ xs) b a (inr m) n =
      (Member-append b (f x) (flat_map f xs)).1 (inr (Member-flat_map f xs b a m n))

  pub Member-flat_map_in :
      (f : A → List B) (xs : List A) (b : B)
      → Member b (flat_map f xs)
      → (a : A) × Member a xs × Member b (f a)
  unfolding flat_map
  Member-flat_map_in f [] b m = absurd m
  Member-flat_map_in f (x ∷ xs) b m = elim ((Member-append b (f x) (flat_map f xs)).0 m) [
    | inl n ↦ (x, inl refl, n)
    | inr n ↦ let (a, k, q) = Member-flat_map_in f xs b n in (a, inr k, q)
  ]

module _ {A : Type 0} ⦃e : Eq A⦄ where
  pub contains_iff : (xs : List A) (a : A) → (contains xs a ≡ true) ↔ Member a xs
  unfolding contains
  contains_iff [] a = (λ h. cc, λ m. absurd m)
  contains_iff (x ∷ xs) a = elim (Bool-cases (e.beq x a)) [
    | inl h ↦ (λ _. inl ((e.beq_iff x a).0 h), λ _. rw h)
    | inr h ↦ (
      λ k. inr ((contains_iff xs a).0 (ground arith)),
      λ m. elim m [ inl q ↦ cc ((e.beq_iff x a).1 q) | inr n ↦ rw h ((contains_iff xs a).1 n) ],
    )
  ]

  pub contains_no : (xs : List A) (a : A) → contains xs a ≡ false → ¬ Member a xs
  contains_no xs a h m = cc ((contains_iff xs a).1 m)

  pub no_contains : (xs : List A) (a : A) → ¬ Member a xs → contains xs a ≡ false
  no_contains xs a h = elim (Bool-cases (contains xs a)) [
    | inl t ↦ absurd (h ((contains_iff xs a).0 t))
    | inr f ↦ f
  ]
