-- ===== src/Storage/Json.antt =====
-- The JSON documents (`serde_json::Value`) that src-tauri/src/storage/migration.rs rewrites. An
-- object is the list of its entries, whose keys differ; only looking up, inserting and removing is
-- used of it.
use veyra.Base.{
  ℕ, ◌≡◌, refl, Option, none, some, Bool, true, false, Bool-cases, inl, inr, if◌then◌else◌, arith,
  Result, ok, ◌>>=◌,
}
use veyra.Base.Text.{Text, text_beq, text_beq_sound}

mutual
  pub data Value : Type 0 where
    null : Value
    bool : Bool → Value
    unsigned : ℕ → Value
    -- a negative number or one with a fraction or an exponent, as it is written
    number : Text → Value
    string : Text → Value
    array : Items → Value
    object : Entries → Value

  pub data Items : Type 0 where
    nil : Items
    cons : Value → Items → Items

  pub data Entries : Type 0 where
    end : Entries
    entry : Text → Value → Entries → Entries

-- `Map::get`, `Map::insert` and `Map::remove`
unfoldable pub get : Text → Entries → Option Value
get k end = none
get k (entry j v rest) = let found = get k rest in if text_beq j k then some v else found

unfoldable pub insert : Text → Value → Entries → Entries
insert k w end = entry k w end
insert k w (entry j v rest) =
    let inserted = insert k w rest in if text_beq j k then entry j w rest else entry j v inserted

unfoldable pub remove : Text → Entries → Entries
remove k end = end
remove k (entry j v rest) =
    let removed = remove k rest in if text_beq j k then rest else entry j v removed

-- `Value::as_object`, `as_array`, `as_str` and `as_u64`
unfoldable pub as_object : Value → Option Entries
as_object (object o) = some o
as_object v = none

unfoldable pub as_array : Value → Option Items
as_array (array xs) = some xs
as_array v = none

unfoldable pub as_str : Value → Option Text
as_str (string s) = some s
as_str v = none

unfoldable pub as_u64 : Value → Option ℕ
as_u64 (unsigned n) = some n
as_u64 v = none

-- `document.get(key)`: nothing where the document is not an object
unfoldable pub get_in : Text → Value → Option Value
unfolding get as_object
get_in k (object o) = get k o
get_in k v = none

-- `for item in array { edit(item)?; }`, where `edit` rewrites the item
unfoldable pub edit_each : {E : Type 0} → (Value → Result Value E) → Items → Result Items E
edit_each edit nil = ok nil
edit_each edit (cons v rest) = do w ← edit v; edited ← edit_each edit rest; ok (cons w edited)

pub get-insert :
    (k : Text) (w : Value) (o : Entries) → text_beq k k ≡ true → get k (insert k w o) ≡ some w
unfolding get insert
get-insert k w end h = rw h refl
get-insert k w (entry j v rest) h = elim (Bool-cases (text_beq j k)) [
  | inl t ↦ ground (arith, get-insert k w rest)
  | inr t ↦ ground (arith, get-insert k w rest)
]

same-key : (j k i : Text) → j ≡ k → text_beq k i ≡ false → text_beq j i ≡ false
same-key j k i e h = rw e h

pub get-insert_other :
    (k i : Text) (w : Value) (o : Entries) → text_beq k i ≡ false → get i (insert k w o) ≡ get i o
unfolding get insert
get-insert_other k i w end h = rw h refl
get-insert_other k i w (entry j v rest) h = elim (Bool-cases (text_beq j k)) [
  | inl t ↦ ground (arith, same-key j k i (text_beq_sound j k t) h)
  | inr t ↦ ground (arith, get-insert_other k i w rest)
]
