-- ===== src/Base/Outcome.antt =====
-- `Result<T, E>`, with `?` as bind, and the helpers of `Option` that the code uses.
use mathlib.Core.Path.{◌≡◌, refl}
use mathlib.Core.Bool.{Bool, true, false}
use mathlib.Core.Option.{Option, none, some}
use mathlib.Core.Logic.{◌↔◌}
use mathlib.Core.List.{List, [], ◌∷◌}
use veyra.Base.Membership.{All}

pub data Result {κ} (T : Type κ) (E : Type 0) : Type κ where
  err : E → Result T E
  ok : T → Result T E

infixl 5 ◌>>=◌ ◌>>◌
-- `m?`, with the rest of the block
abbrev pub ◌>>=◌ {ℓ κ} :
    {E : Type 0} {T : Type ℓ} {U : Type κ} → Result T E → (T → Result U E) → Result U E
◌>>=◌ (err e) rest = err e
◌>>=◌ (ok v) rest = rest v

abbrev pub ◌>>◌ {κ} : {E : Type 0} {U : Type κ} → Result (Unit {0}) E → Result U E → Result U E
◌>>◌ first rest = first >>= (λ _. rest)

-- `if test { return Err(e) }`
abbrev pub fail_if : {E : Type 0} → Bool → E → Result (Unit {0}) E
fail_if true e = err e
fail_if false e = ok tt

-- `option.ok_or(e)`
abbrev pub ok_or {ℓ} : {A : Type ℓ} {E : Type 0} → Option A → E → Result A E
ok_or none e = err e
ok_or (some a) e = ok a

-- `result.map(f)`
abbrev pub map_ok {ℓ κ} : {A : Type ℓ} {B : Type κ} {E : Type 0} → (A → B) → Result A E → Result B E
map_ok f (ok a) = ok (f a)
map_ok f (err e) = err e

-- `result.map_err(f)`
abbrev pub map_err {ℓ} : {A : Type ℓ} {E F : Type 0} → Result A E → (E → F) → Result A F
map_err (ok a) f = ok a
map_err (err e) f = err (f e)

abbrev pub is_err {ℓ} : {A : Type ℓ} {E : Type 0} → Result A E → Bool
is_err (ok a) = false
is_err (err e) = true

abbrev pub is_some {ℓ} : {A : Type ℓ} → Option A → Bool
is_some none = false
is_some (some a) = true

-- `option.is_some_and(test)` and `option.is_none_or(test)`
abbrev pub is_some_and {ℓ} : {A : Type ℓ} → Option A → (A → Bool) → Bool
is_some_and none p = false
is_some_and (some a) p = p a

abbrev pub is_none_or {ℓ} : {A : Type ℓ} → Option A → (A → Bool) → Bool
is_none_or none p = true
is_none_or (some a) p = p a

-- A step that passed, with its value.
pub >>=-eq-ok {ℓ κ} :
    {E : Type 0} {T : Type ℓ} {U : Type κ} (step : Result T E) (rest : T → Result U E) {end : U}
    → (step >>= rest) ≡ ok end
    → (v : T) × (step ≡ ok v) × (rest v ≡ ok end)
>>=-eq-ok (err e) rest p = cc
>>=-eq-ok (ok v) rest p = (v, refl, p)

-- A mapped result that passed, with its value.
pub map_ok-eq-ok {ℓ κ} :
    {E : Type 0} {T : Type ℓ} {U : Type κ} (f : T → U) (m : Result T E) {end : U}
    → map_ok f m ≡ ok end
    → (v : T) × (m ≡ ok v) × (f v ≡ end)
map_ok-eq-ok f (err e) p = cc
map_ok-eq-ok f (ok v) p = (v, refl, cc)

pub ok-inj {ℓ} : {E : Type 0} {T : Type ℓ} (a b : T) → ◌≡◌ {A = Result T E} (ok a) (ok b) → a ≡ b
ok-inj a b h = cc

-- A guard that was passed.
pub fail_if-eq-ok {ℓ} :
    {B : Type ℓ} {E : Type 0} (t : Bool) (e : E) (k : Result B E) {b : B}
    → (fail_if t e >> k) ≡ ok b
    → (t ≡ false) × (k ≡ ok b)
fail_if-eq-ok true e k h = cc
fail_if-eq-ok false e k h = (refl, h)

-- A unit step that passed.
pub >>-eq-ok {ℓ} :
    {B : Type ℓ} {E : Type 0} (m : Result (Unit {0}) E) (k : Result B E) {b : B}
    → (m >> k) ≡ ok b
    → (m ≡ ok tt) × (k ≡ ok b)
>>-eq-ok (ok tt) k h = (refl, h)
>>-eq-ok (err e) k h = cc

-- `for x in xs { f(x)?; }`
unfoldable pub for_each {ℓ} :
    {A : Type ℓ} {E : Type 0} → (A → Result (Unit {0}) E) → List A → Result (Unit {0}) E
for_each f [] = ok tt
for_each f (x ∷ xs) = f x >> for_each f xs

-- The loop ends without an error exactly when every round does.
pub for_each_iff :
    {A E : Type 0} (f : A → Result (Unit {0}) E) (xs : List A)
    → (for_each f xs ≡ ok tt) ↔ All (λ x. f x ≡ ok tt) xs
unfolding for_each
for_each_iff f [] = (λ _. tt, λ _. refl)
for_each_iff f (x ∷ xs) = (
  λ h. let (l, r) = >>-eq-ok (f x) (for_each f xs) h in (l, (for_each_iff f xs).0 r),
  λ h. rw h.0 ((for_each_iff f xs).1 h.1),
)

pub fail_if_iff : {E : Type 0} (t : Bool) (e : E) → (fail_if t e ≡ ok tt) ↔ (t ≡ false)
fail_if_iff true e = (λ h. cc, λ h. cc)
fail_if_iff false e = (λ _. refl, λ _. refl)

pub >>_iff {ℓ} :
    {B : Type ℓ} {E : Type 0} (m : Result (Unit {0}) E) (k : Result B E) (b : B)
    → ((m >> k) ≡ ok b) ↔ ((m ≡ ok tt) × (k ≡ ok b))
>>_iff (ok tt) k b = (λ h. (refl, h), λ h. h.1)
>>_iff (err e) k b = (λ h. cc, λ h. cc)
