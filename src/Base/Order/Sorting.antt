-- ===== src/Base/Order/Sorting.antt =====
-- Stable insertion sort over a Boolean order.
use veyra.Base.{
  ◌≡◌, ◌↔◌, ◌⊎◌, inl, inr, sym, List, [], ◌∷◌, Bool, true, false, if◌then◌else◌, Bool-cases, Member,
  All, All-member, Eq, ◌==◌, Distinct,
}
use mathlib.Core.List.{Perm}
use mathlib.Core.List.Perm

module _ {A : Type 0} (le : A → A → Bool) where
  unfoldable pub insert : A → List A → List A
  insert a [] = a ∷ []
  insert a (x ∷ xs) = if le a x then a ∷ x ∷ xs else x ∷ insert a xs

  unfoldable pub sort_by : List A → List A
  unfolding insert
  sort_by [] = []
  sort_by (x ∷ xs) = insert x (sort_by xs)

  -- Each entry is below every later one.
  abbrev pub Sorted : List A → Type 0
  Sorted [] = Unit
  Sorted (x ∷ xs) = All (λ y. le x y ≡ true) xs × Sorted xs

  pub insert-perm : (a : A) (xs : List A) → Perm (insert a xs) (a ∷ xs)
  unfolding insert
  insert-perm a [] = Perm.refl _
  insert-perm a (x ∷ xs) = elim (Bool-cases (le a x)) [
    | inl e ↦ rw e (Perm.refl _)
    | inr e ↦ rw e (Perm.trans (Perm.cons x (insert-perm a xs)) (Perm.swap a x xs))
  ]

  pub sort_by-perm : (xs : List A) → Perm (sort_by xs) xs
  unfolding sort_by
  sort_by-perm [] = Perm.refl _
  sort_by-perm (x ∷ xs) = Perm.trans (insert-perm x (sort_by xs)) (Perm.cons x (sort_by-perm xs))

  pub Member-insert :
      (a : A) (xs : List A) (b : A) → Member b (insert a xs) ↔ ((a ≡ b) ⊎ Member b xs)
  unfolding insert
  Member-insert a [] b = (λ m. m, λ m. m)
  Member-insert a (x ∷ xs) b = elim (Bool-cases (le a x)) [
    | inl e ↦ rw e (λ m. m, λ m. m)
    | inr e ↦ rw e (
      λ m. elim m [
        | inl p ↦ inr (inl p)
        | inr n ↦ elim ((Member-insert a xs b).0 n) [ inl p ↦ inl p | inr k ↦ inr (inr k) ]
      ],
      λ m. elim m [
        | inl p ↦ inr ((Member-insert a xs b).1 (inl p))
        | inr n ↦ elim n [ inl p ↦ inl p | inr k ↦ inr ((Member-insert a xs b).1 (inr k)) ]
      ],
    )
  ]

  pub Member-sort_by : (xs : List A) (b : A) → Member b (sort_by xs) ↔ Member b xs
  unfolding sort_by
  Member-sort_by [] b = (λ m. m, λ m. m)
  Member-sort_by (x ∷ xs) b = (
    λ m. elim ((Member-insert x (sort_by xs) b).0 m) [
      | inl p ↦ inl p
      | inr n ↦ inr ((Member-sort_by xs b).0 n)
    ],
    λ m.
        (Member-insert x (sort_by xs) b).1
          (elim m [ inl p ↦ inl p | inr n ↦ inr ((Member-sort_by xs b).1 n) ]),
  )

  module _ (total : (a b : A) → le a b ≡ false → le b a ≡ true)
      (trans : (a b c : A) → le a b ≡ true → le b c ≡ true → le a c ≡ true) where
    below-All :
        (a x : A) (xs : List A)
        → le a x ≡ true
        → All (λ y. le x y ≡ true) xs
        → All (λ y. le a y ≡ true) xs
    below-All a x [] h k = tt
    below-All a x (y ∷ ys) h k = (trans a x y h k.0, below-All a x ys h k.1)

    above_insert :
        (x a : A) (xs : List A)
        → le x a ≡ true
        → All (λ y. le x y ≡ true) xs
        → All (λ y. le x y ≡ true) (insert a xs)
    unfolding insert
    above_insert x a [] h k = (h, tt)
    above_insert x a (y ∷ ys) h k = elim (Bool-cases (le a y)) [
      | inl e ↦ rw e (h, k)
      | inr e ↦ rw e (k.0, above_insert x a ys h k.1)
    ]

    insert-Sorted : (a : A) (xs : List A) → Sorted xs → Sorted (insert a xs)
    unfolding insert
    insert-Sorted a [] s = (tt, tt)
    insert-Sorted a (x ∷ xs) s = elim (Bool-cases (le a x)) [
      | inl e ↦ rw e ((e, below-All a x xs e s.0), s)
      | inr e ↦ rw e (above_insert x a xs (total a x e) s.0, insert-Sorted a xs s.1)
    ]

    pub sort_by-Sorted : (xs : List A) → Sorted (sort_by xs)
    unfolding sort_by
    sort_by-Sorted [] = tt
    sort_by-Sorted (x ∷ xs) = insert-Sorted x (sort_by xs) (sort_by-Sorted xs)

-- `dedup`: an entry that equals its predecessor is dropped.
module _ {A : Type 0} ⦃e : Eq A⦄ where
  dedup_after : A → List A → List A
  dedup_after a [] = []
  dedup_after a (x ∷ xs) = let rest = dedup_after x xs in if a == x then rest else x ∷ rest

  unfoldable pub dedup : List A → List A
  unfolding dedup_after
  dedup [] = []
  dedup (x ∷ xs) = x ∷ dedup_after x xs

  Member-dedup_after :
      (a : A) (xs : List A) (b : A) → Member b (a ∷ dedup_after a xs) ↔ Member b (a ∷ xs)
  unfolding dedup_after
  Member-dedup_after a [] b = (λ m. m, λ m. m)
  Member-dedup_after a (x ∷ xs) b = elim (Bool-cases (e.beq a x)) [
    | inl h ↦ rw h (
      λ m. elim m [ inl p ↦ inl p | inr n ↦ inr ((Member-dedup_after x xs b).0 (inr n)) ],
      λ m. elim m [
        | inl p ↦ inl p
        | inr n ↦ elim ((Member-dedup_after x xs b).1 n) [
          | inl q ↦ inl (rw ((e.beq_iff a x).0 h) q)
          | inr k ↦ inr k
        ]
      ],
    )
    | inr h ↦ rw h (
      λ m. elim m [ inl p ↦ inl p | inr n ↦ inr ((Member-dedup_after x xs b).0 n) ],
      λ m. elim m [ inl p ↦ inl p | inr n ↦ inr ((Member-dedup_after x xs b).1 n) ],
    )
  ]

  pub Member-dedup : (xs : List A) (b : A) → Member b (dedup xs) ↔ Member b xs
  unfolding dedup
  Member-dedup [] b = (λ m. m, λ m. m)
  Member-dedup (x ∷ xs) b = Member-dedup_after x xs b

  module _ (le : A → A → Bool) (antisymm : (a b : A) → le a b ≡ true → le b a ≡ true → a ≡ b) where
    dedup_after-below : (a : A) (xs : List A) (P : A → Type 0) → All P xs → All P (dedup_after a xs)
    unfolding dedup_after
    dedup_after-below a [] P h = tt
    dedup_after-below a (x ∷ xs) P h = elim (Bool-cases (e.beq a x)) [
      | inl t ↦ rw t (dedup_after-below x xs P h.1)
      | inr f ↦ rw f (h.0, dedup_after-below x xs P h.1)
    ]

    -- Over a sorted list the head does not occur again.
    dedup_after-fresh : (a : A) (xs : List A) → Sorted le (a ∷ xs) → ¬ Member a (dedup_after a xs)
    unfolding dedup_after
    dedup_after-fresh a [] s = λ m. m
    dedup_after-fresh a (x ∷ xs) s = elim (Bool-cases (e.beq a x)) [
      | inl t ↦ let p = (e.beq_iff a x).0 t in rw (t, p) (dedup_after-fresh x xs s.1)
      | inr f ↦ rw f λ m. elim m [
        | inl p ↦ cc ((e.beq_iff a x).1 (sym p))
        | inr n ↦
            let below =
              All-member (λ y. le x y ≡ true) (dedup_after x xs)
                (dedup_after-below x xs (λ y. le x y ≡ true) s.1.0) a n in
            cc ((e.beq_iff a x).1 (antisymm a x s.0.0 below))
      ]
    ]

    dedup_after-Distinct : (a : A) (xs : List A) → Sorted le (a ∷ xs) → Distinct (dedup_after a xs)
    unfolding dedup_after
    dedup_after-Distinct a [] s = tt
    dedup_after-Distinct a (x ∷ xs) s = elim (Bool-cases (e.beq a x)) [
      | inl t ↦ rw t (dedup_after-Distinct x xs s.1)
      | inr f ↦ rw f (dedup_after-fresh x xs s.1, dedup_after-Distinct x xs s.1)
    ]

    pub dedup-Distinct : (xs : List A) → Sorted le xs → Distinct (dedup xs)
    unfolding dedup
    dedup-Distinct [] s = tt
    dedup-Distinct (x ∷ xs) s = (dedup_after-fresh x xs s, dedup_after-Distinct x xs s)

    dedup_after-Sorted : (a : A) (xs : List A) → Sorted le (a ∷ xs) → Sorted le (dedup_after a xs)
    unfolding dedup_after
    dedup_after-Sorted a [] s = tt
    dedup_after-Sorted a (x ∷ xs) s = elim (Bool-cases (e.beq a x)) [
      | inl t ↦ rw t (dedup_after-Sorted x xs s.1)
      | inr f ↦
          rw f (dedup_after-below x xs (λ y. le x y ≡ true) s.1.0, dedup_after-Sorted x xs s.1)
    ]

    pub dedup-Sorted : (xs : List A) → Sorted le xs → Sorted le (dedup xs)
    unfolding dedup
    dedup-Sorted [] s = tt
    dedup-Sorted (x ∷ xs) s =
        (dedup_after-below x xs (λ y. le x y ≡ true) s.0, dedup_after-Sorted x xs s)
