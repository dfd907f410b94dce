-- ===== src/Domain/State/Valid/Identifiers.antt =====
-- `unique_ids` of src-tauri/src/domain/state.rs.
use veyra.Base.{
  ◌≡◌, ◌↔◌, ◌⊎◌, inl, inr, refl, List, [], ◌∷◌, true, ok, Bool-cases, Member, All, Distinct,
  contains, contains_iff, contains_no, no_contains, arith,
}
use veyra.Base.Text.{Text, text_eq, present}
use veyra.Domain.State.{unique_from, unique_ids}

-- Identifiers that are present and pairwise distinct.
abbrev pub IsIdentifierList : List Text → Type 0
IsIdentifierList ids = All (λ id. present id ≡ true) ids × Distinct ids

-- The set that the loop ends with.
pub collect : List Text → List Text → List Text
collect seen [] = seen
collect seen (id ∷ ids) = collect (id ∷ seen) ids

pub Member-collect :
    (seen ids : List Text) (a : Text) → Member a (collect seen ids) ↔ (Member a seen ⊎ Member a ids)
unfolding collect
Member-collect seen [] a = (λ m. inl m, λ m. elim m [ inl s ↦ s | inr n ↦ absurd n ])
Member-collect seen (id ∷ ids) a = (
  λ m. elim ((Member-collect (id ∷ seen) ids a).0 m) [
    | inl s ↦ elim s [ inl e ↦ inr (inl e) | inr n ↦ inl n ]
    | inr n ↦ inr (inr n)
  ],
  λ m.
      (Member-collect (id ∷ seen) ids a).1
        (elim m [ inl s ↦ inl (inr s) | inr n ↦ elim n [ inl e ↦ inl (inl e) | inr k ↦ inr k ] ]),
)

abbrev Fresh : List Text → List Text → Type 0
Fresh seen [] = Unit
Fresh seen (id ∷ ids) = (present id ≡ true) × (¬ Member id seen) × Fresh (id ∷ seen) ids

unique_from_sound :
    (seen ids r : List Text) → unique_from seen ids ≡ ok r → (r ≡ collect seen ids) × Fresh seen ids
unfolding unique_from collect
unique_from_sound seen [] r h = (ground arith, tt)
unique_from_sound seen (id ∷ ids) r h = elim (Bool-cases (present id)) [
  | inr e ↦ cc (let k = rw e at h in k)
  | inl e ↦ elim (Bool-cases (contains seen id)) [
    | inl c ↦ cc (rw (e, c) at h)
    | inr c ↦
        let (q, fresh) = unique_from_sound (id ∷ seen) ids r (rw (e, c) at h) in
        (q, (e, contains_no seen id c, fresh))
  ]
]

unique_from_complete :
    (seen ids : List Text) → Fresh seen ids → unique_from seen ids ≡ ok (collect seen ids)
unfolding unique_from collect
unique_from_complete seen [] f = refl
unique_from_complete seen (id ∷ ids) f =
    rw (f.0, no_contains seen id f.1) (unique_from_complete (id ∷ seen) ids f.2)

Fresh-outside :
    (seen ids : List Text) → Fresh seen ids → (a : Text) → Member a seen → ¬ Member a ids
Fresh-outside seen [] f a m n = n
Fresh-outside seen (id ∷ ids) f a m (inl e) = f.1 (rw e m)
Fresh-outside seen (id ∷ ids) f a m (inr n) = Fresh-outside (id ∷ seen) ids f.2 a (inr m) n

Fresh-IsIdentifierList : (seen ids : List Text) → Fresh seen ids → IsIdentifierList ids
Fresh-IsIdentifierList seen [] f = (tt, tt)
Fresh-IsIdentifierList seen (id ∷ ids) f =
    let (p, d) = Fresh-IsIdentifierList (id ∷ seen) ids f.2 in
    ((f.0, p), (Fresh-outside (id ∷ seen) ids f.2 id (inl refl), d))

IsIdentifierList-Fresh :
    (seen ids : List Text)
    → IsIdentifierList ids
    → ((a : Text) → Member a ids → ¬ Member a seen)
    → Fresh seen ids
IsIdentifierList-Fresh seen [] v h = tt
IsIdentifierList-Fresh seen (id ∷ ids) v h = (
  v.0.0,
  h id (inl refl),
  IsIdentifierList-Fresh (id ∷ seen) ids (v.0.1, v.1.1)
      λ a m n. elim n [ inl e ↦ v.1.0 (rw e m) | inr s ↦ h a (inr m) s ],
)

-- The set of `unique_ids`.
abbrev pub id_set : List Text → List Text
id_set ids = collect [] ids

pub Member-id_set : (ids : List Text) (a : Text) → Member a (id_set ids) ↔ Member a ids
Member-id_set ids a = (
  λ m. elim ((Member-collect [] ids a).0 m) [ inl n ↦ absurd n | inr n ↦ n ],
  λ m. (Member-collect [] ids a).1 (inr m),
)

pub unique_ids_sound :
    (ids r : List Text) → unique_ids ids ≡ ok r → (r ≡ id_set ids) × IsIdentifierList ids
unfolding unique_ids
unique_ids_sound ids r h =
    let (q, f) = unique_from_sound [] ids r h in (q, Fresh-IsIdentifierList [] ids f)

pub unique_ids_complete :
    (ids : List Text) → IsIdentifierList ids → unique_ids ids ≡ ok (id_set ids)
unfolding unique_ids
unique_ids_complete ids v =
    unique_from_complete [] ids (IsIdentifierList-Fresh [] ids v (λ a m n. n))

-- A look-up in the set is a look-up in the list.
pub contains-id_set : (ids : List Text) (a : Text) → contains (id_set ids) a ≡ contains ids a
contains-id_set ids a = elim (Bool-cases (contains ids a)) [
  | inl t ↦
      rw t ((contains_iff (id_set ids) a).1 ((Member-id_set ids a).1 ((contains_iff ids a).0 t)))
  | inr f ↦ rw f (no_contains (id_set ids) a (λ m. contains_no ids a f ((Member-id_set ids a).0 m)))
]
