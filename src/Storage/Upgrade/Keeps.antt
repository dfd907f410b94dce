-- ===== src/Storage/Upgrade/Keeps.antt =====
-- What an upgrade of src-tauri/src/storage/migration.rs writes: the next version, and no entry beside
-- those named here.
use veyra.Base.{
  ℕ, ◌≡◌, refl, ◌∙◌, subst, ◌||◌, if◌then◌else◌, List, [], ◌∷◌, some, Bool, true, false, Result, ok,
  ok_or, >>=-eq-ok, map_ok-eq-ok, ok-inj, nat_beq, contains,
}
use veyra.Base.Text.{Text, text, text_beq, text_beq_complete, text_eq}
use veyra.Storage.Error.{StateStoreError, invalid_stored_state}
use veyra.Storage.Json.{
  Value, unsigned, array, nil, object, Entries, get, insert, as_object, as_array, get_in, edit_each,
  get-insert, get-insert_other,
}
use veyra.Storage.OldNode.{edit_object}
use veyra.Storage.Upgrade.{
  schema_version_key, subscriptions_key, nodes_key, edit_array, add_pools_and_routes,
  migrate_v1_to_v2, migrate_v2_to_v3, migrate_v3_to_v4, migrate_v4_to_v5, migrate_v5_to_v6,
}

-- The entries of the document that the upgrade from a version writes.
unfoldable pub written : ℕ → List Text
written version =
    if nat_beq version 1
    then text "routes" ∷ text "pools" ∷ schema_version_key ∷ []
    else if nat_beq version 2
    then text "default_target" ∷ schema_version_key ∷ nodes_key ∷ []
    else if nat_beq version 3
    then schema_version_key ∷ subscriptions_key ∷ []
    else if nat_beq version 4
    then schema_version_key
      ∷ text "active_configuration_generation"
      ∷ text "active_subscription_id"
      ∷ subscriptions_key
      ∷ []
    else if nat_beq version 5
    then schema_version_key ∷ subscriptions_key ∷ []
    else []

-- An edit of an object: nothing is written but under the keys.
record Writes (keys : List Text) (o o' : Entries) : Type 0 where
  kept : (k : Text) → contains keys k ≡ false → get k o' ≡ get k o

beside : (a b : Bool) → (a || b) ≡ false → (a ≡ false) × (b ≡ false)
beside true b h = cc
beside false b h = (refl, h)

insert-Writes :
    (k : Text) (v : Value) {keys : List Text} {o o' : Entries}
    → Writes keys o o'
    → Writes (k ∷ keys) o (insert k v o')
unfolding contains
insert-Writes k v {keys} {o'} w = record {
  kept = λ i h.
      let (other, rest) = beside (text_beq k i) (contains keys i) h in
      get-insert_other k i v o' other ∙ w.kept i rest;
}

same-Writes : (o : Entries) → Writes [] o o
same-Writes o = record { kept = λ k h. refl }

edit_array-Writes :
    (key : Text) (edit : Value → Result Value StateStoreError) (o : Entries) {o' : Entries}
    → edit_array key edit o ≡ ok o'
    → Writes (key ∷ []) o o'
unfolding edit_array
edit_array-Writes key edit o h =
    let (found, _, h1) = >>=-eq-ok (ok_or (get key o) invalid_stored_state) _ h in
    let (items, _, h2) = >>=-eq-ok (ok_or (as_array found) invalid_stored_state) _ h1 in
    let (edited, _, h3) = >>=-eq-ok (edit_each edit items) _ h2 in
    subst (Writes (key ∷ []) o) (ok-inj _ _ h3) (insert-Writes key (array edited) (same-Writes o))

-- A document after an upgrade: the next version stands in it, and nothing else is written but under
-- the keys.
pub record Upgraded (next : ℕ) (keys : List Text) (document upgraded : Value) : Type 0 where
  pub version : get_in schema_version_key upgraded ≡ some (unsigned next)
  pub kept : (k : Text) → contains keys k ≡ false → get_in k upgraded ≡ get_in k document

-- An edit of the document that writes the next version.
record Sets (next : ℕ) (keys : List Text) (o o' : Entries) : Type 0 where
  writes : Writes keys o o'
  version : get schema_version_key o' ≡ some (unsigned next)

version-Sets :
    (next : ℕ) {keys : List Text} {o o' : Entries}
    → Writes keys o o'
    → Sets next (schema_version_key ∷ keys) o (insert schema_version_key (unsigned next) o')
version-Sets next {o'} w = record {
  writes = insert-Writes schema_version_key (unsigned next) w;
  version =
      get-insert schema_version_key (unsigned next) o'
        (text_beq_complete schema_version_key schema_version_key refl);
}

insert-Sets :
    (k : Text) (v : Value) {next : ℕ} {keys : List Text} {o o' : Entries}
    → text_beq k schema_version_key ≡ false
    → Sets next keys o o'
    → Sets next (k ∷ keys) o (insert k v o')
insert-Sets k v {o'} other w = record {
  writes = insert-Writes k v w.writes;
  version = get-insert_other k schema_version_key v o' other ∙ w.version;
}

edit_object-Upgraded :
    (next : ℕ) (keys : List Text) (edit : Entries → Result Entries StateStoreError)
    (document upgraded : Value)
    → edit_object edit document ≡ ok upgraded
    → ((o o' : Entries) → edit o ≡ ok o' → Sets next keys o o')
    → Upgraded next keys document upgraded
unfolding edit_object as_object get_in
edit_object-Upgraded next keys edit (object o) upgraded h means =
    let (o', e, f) = map_ok-eq-ok object (edit o) h in
    let w = means o o' e in
    subst (Upgraded next keys (object o)) f (record { version = w.version; kept = w.writes.kept })
edit_object-Upgraded next keys edit Value.null upgraded h means = cc
edit_object-Upgraded next keys edit (Value.bool b) upgraded h means = cc
edit_object-Upgraded next keys edit (unsigned n) upgraded h means = cc
edit_object-Upgraded next keys edit (Value.number n) upgraded h means = cc
edit_object-Upgraded next keys edit (Value.string s) upgraded h means = cc
edit_object-Upgraded next keys edit (array xs) upgraded h means = cc

-- An edit that ends in inserts.
ends :
    {next : ℕ} {keys : List Text} {o a b : Entries}
    → Sets next keys o a
    → ◌≡◌ {A = Result Entries StateStoreError} (ok a) (ok b)
    → Sets next keys o b
ends {next} {keys} {o} w h = subst (Sets next keys o) (ok-inj _ _ h) w

pub migrate_v1_to_v2-Upgraded :
    (document upgraded : Value)
    → migrate_v1_to_v2 document ≡ ok upgraded
    → Upgraded 2 (written 1) document upgraded
unfolding migrate_v1_to_v2 add_pools_and_routes written text_beq
migrate_v1_to_v2-Upgraded document upgraded h =
    edit_object-Upgraded 2 (written 1) add_pools_and_routes document upgraded h (λ o o' e.
      ends
        (insert-Sets _ (array nil) refl
          (insert-Sets _ (array nil) refl (version-Sets 2 (same-Writes o))))
        e)

pub migrate_v2_to_v3-Upgraded :
    (document upgraded : Value)
    → migrate_v2_to_v3 document ≡ ok upgraded
    → Upgraded 3 (written 2) document upgraded
unfolding migrate_v2_to_v3 written text_beq
migrate_v2_to_v3-Upgraded document upgraded h =
    edit_object-Upgraded 3 (written 2) _ document upgraded h (λ o o' e.
      let (edited, p, q) = >>=-eq-ok (edit_array nodes_key _ o) _ e in
      ends (insert-Sets _ _ refl (version-Sets 3 (edit_array-Writes nodes_key _ o p))) q)

pub migrate_v3_to_v4-Upgraded :
    (document upgraded : Value)
    → migrate_v3_to_v4 document ≡ ok upgraded
    → Upgraded 4 (written 3) document upgraded
unfolding migrate_v3_to_v4 written
migrate_v3_to_v4-Upgraded document upgraded h =
    edit_object-Upgraded 4 (written 3) _ document upgraded h (λ o o' e.
      let (edited, p, q) = >>=-eq-ok (edit_array subscriptions_key _ o) _ e in
      ends (version-Sets 4 (edit_array-Writes subscriptions_key _ o p)) q)

-- The version stands first in what is written from version 4, after the two settings.
pub migrate_v4_to_v5-Upgraded :
    (document upgraded : Value)
    → migrate_v4_to_v5 document ≡ ok upgraded
    → Upgraded 5 (written 4) document upgraded
unfolding migrate_v4_to_v5 written
migrate_v4_to_v5-Upgraded document upgraded h =
    edit_object-Upgraded 5 (written 4) _ document upgraded h (λ o o' e.
      let (edited, p, q) = >>=-eq-ok (edit_array subscriptions_key _ o) _ e in
      ends
        (version-Sets 5
          (insert-Writes _ _ (insert-Writes _ _ (edit_array-Writes subscriptions_key _ o p))))
        q)

pub migrate_v5_to_v6-Upgraded :
    (document upgraded : Value)
    → migrate_v5_to_v6 document ≡ ok upgraded
    → Upgraded 6 (written 5) document upgraded
unfolding migrate_v5_to_v6 written
migrate_v5_to_v6-Upgraded document upgraded h =
    edit_object-Upgraded 6 (written 5) _ document upgraded h (λ o o' e.
      let (edited, p, q) = >>=-eq-ok (edit_array subscriptions_key _ o) _ e in
      ends (version-Sets 6 (edit_array-Writes subscriptions_key _ o p)) q)
