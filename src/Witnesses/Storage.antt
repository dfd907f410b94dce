-- ===== src/Witnesses/Storage.antt =====
-- Witnesses for the snapshot store of src-tauri/src/storage. The format here writes the version and the
-- generation of an otherwise empty state as two bytes.
use veyra.Base.{ℕ, ◌≡◌, refl, List, [], ◌∷◌, Option, none, some, true, false, ok, arith, for_each}
use veyra.Base.Text.{Text, text, text_beq, present, trim, is_whitespace}
use veyra.Domain.Types
use veyra.Domain.Types.{
  AppState, RouteTarget, Subscription, Provider, ProxyNode, NodePool, RoutePolicy,
  current_schema_version,
}
use veyra.Storage.Error.{invalid_json, is_recoverable}
use veyra.Domain.State.{validate, unique_ids, validate_target}
use veyra.Storage.Json.{
  Value, cons, null, unsigned, string, array, object, nil, end, entry, get, as_u64, get_in,
}
use veyra.Storage.Files.{Bytes, Files, works, fails, World}
use veyra.Storage.Files.Logic.{After}
use veyra.Storage.Migration.{version_of, migrate_on, migrate_to_current}
use veyra.Storage.Migration.Ends.{migrate_on-migrate_to_current}
use veyra.Storage.Migration.Migrated.{Migrated, migrate_to_current-Migrated}
use veyra.Storage.Codec.{StoredState, stored_of, Serde, decode}
use veyra.Storage.Codec.Reads.{ReadsBack}
use veyra.Storage.Store.{save, load}
use veyra.Storage.Store.Saved.{Saved, NotSaved, save-Saved}
use veyra.Storage.Store.Loaded.{Loaded, load-Loaded}
use veyra.Storage.Store.Calm.{calm, load-save, load-recover}
use veyra.Routing.Manager.Snapshots.{snapshot_store, kept}
use veyra.Routing.Manager.Serves.{Serves, snapshot_store-Serves}

abbrev write_fields :
    ℕ
    → RouteTarget
    → Option Text
    → ℕ
    → List Subscription
    → List Provider
    → List ProxyNode
    → List NodePool
    → List RoutePolicy
    → Option Bytes
write_fields v RouteTarget.unconfigured none g [] [] [] [] [] = some (v ∷ g ∷ [])
write_fields v _ _ g _ _ _ _ _ = none

abbrev write : StoredState → Option Bytes
write s =
    write_fields s.schema_version s.default_target s.active_subscription_id
      s.active_configuration_generation s.subscriptions s.providers s.nodes s.pools s.routes

abbrev document_of : ℕ → ℕ → Value
document_of v g = object (
    entry (text "schema_version") (unsigned v) (
      entry (text "active_configuration_generation") (unsigned g)
        (entry (text "subscriptions") (array nil) (entry (text "nodes") (array nil) end))))

abbrev read_text : Bytes → Option Value
read_text (v ∷ g ∷ []) = some (document_of v g)
read_text _ = none

abbrev state_from : Option ℕ → Option Value → Option StoredState
state_from (some v) (some (unsigned g)) = some (record {
  schema_version = v;
  default_target = RouteTarget.unconfigured;
  active_subscription_id = none;
  active_configuration_generation = g;
  subscriptions = [];
  providers = [];
  nodes = [];
  pools = [];
  routes = [];
})
state_from _ _ = none

two_bytes : Serde
unfolding version_of get_in
two_bytes = record {
  from_slice = read_text;
  from_value = λ d. state_from (version_of d) (get_in (text "active_configuration_generation") d);
  to_vec_pretty = write;
}

two_bytes-ReadsBack : ReadsBack two_bytes
unfolding two_bytes version_of get_in get as_u64 text_beq
two_bytes-ReadsBack = record {
  reads = λ s b h.
      go s.schema_version s.default_target s.active_subscription_id
        s.active_configuration_generation s.subscriptions s.providers s.nodes s.pools s.routes b h;
}
  where
    Read : StoredState → Bytes → Type 0
    Read s b =
        (d : Value) × (read_text b ≡ some d)
        × (version_of d ≡ some s.schema_version)
        × (state_from (version_of d) (get_in (text "active_configuration_generation") d) ≡ some s)

    go :
        (v : ℕ) (t : RouteTarget) (a : Option Text) (g : ℕ) (s : List Subscription)
        (p : List Provider) (n : List ProxyNode) (o : List NodePool) (r : List RoutePolicy)
        (b : Bytes)
        → write_fields v t a g s p n o r ≡ some b
        → Read
            (record {
              schema_version = v;
              default_target = t;
              active_subscription_id = a;
              active_configuration_generation = g;
              subscriptions = s;
              providers = p;
              nodes = n;
              pools = o;
              routes = r;
            })
            b
    go v RouteTarget.unconfigured none g [] [] [] [] [] [] h = cc
    go v RouteTarget.unconfigured none g [] [] [] [] [] (c ∷ []) h = cc
    go v RouteTarget.unconfigured none g [] [] [] [] [] (c ∷ e ∷ []) h =
        (document_of c e, refl, cc, cc)
    go v RouteTarget.unconfigured none g [] [] [] [] [] (c ∷ e ∷ f ∷ b) h = cc
    go v RouteTarget.unconfigured none g [] [] [] [] (x ∷ r) b h = cc
    go v RouteTarget.unconfigured none g [] [] [] (x ∷ o) r b h = cc
    go v RouteTarget.unconfigured none g [] [] (x ∷ n) o r b h = cc
    go v RouteTarget.unconfigured none g [] (x ∷ p) n o r b h = cc
    go v RouteTarget.unconfigured none g (x ∷ s) p n o r b h = cc
    go v RouteTarget.unconfigured (some x) g s p n o r b h = cc
    go v (RouteTarget.pool x) a g s p n o r b h = cc
    go v RouteTarget.direct a g s p n o r b h = cc
    go v RouteTarget.block a g s p n o r b h = cc

abbrev sample : AppState
sample = record Types.empty { active_configuration_generation = 5 }

-- A first state file, with a backup, and calls of which the sixth fails.
abbrev old_files : Files
old_files = record {
  snapshots = record {
    current = some (6 ∷ 1 ∷ []);
    backup = none;
    pre_migration = none;
    corrupt = none;
  };
  temporary = none;
  sibling_temporary = none;
}

abbrev failing : World
failing = record { files = old_files; fates = works ∷ works ∷ works ∷ works ∷ works ∷ fails 1 ∷ [] }

save-Saved_example :
    After
      (λ _ d. Saved two_bytes sample old_files.snapshots d.snapshots)
      (λ d. NotSaved two_bytes old_files.snapshots d.snapshots)
      (save two_bytes sample failing)
save-Saved_example = save-Saved two_bytes sample failing

load-Loaded_example :
    After
      (λ state d. Loaded two_bytes state old_files.snapshots d.snapshots)
      (λ d. d.snapshots.current ≡ old_files.snapshots.current)
      (load two_bytes failing)
load-Loaded_example = load-Loaded two_bytes two_bytes-ReadsBack failing

abbrev saved_world : World
saved_world = calm (record {
  snapshots = record {
    current = some (6 ∷ 5 ∷ []);
    backup = some (6 ∷ 1 ∷ []);
    pre_migration = none;
    corrupt = none;
  };
  temporary = none;
  sibling_temporary = none;
})

load-save_example : load two_bytes saved_world ≡ (ok sample, saved_world)
unfolding save two_bytes validate unique_ids validate_target for_each
load-save_example = load-save two_bytes two_bytes-ReadsBack sample (calm old_files) saved_world refl

-- The state file is broken and the backup is of version 6.
abbrev broken_files : Files
broken_files = record {
  snapshots = record {
    current = some (7 ∷ []);
    backup = some (6 ∷ 5 ∷ []);
    pre_migration = none;
    corrupt = none;
  };
  temporary = none;
  sibling_temporary = none;
}

load-recover_example :
    ((load two_bytes (calm broken_files)).0 ≡ ok sample)
    × ((load two_bytes (calm broken_files)).1.files.snapshots
        ≡ record broken_files.snapshots { current = some (6 ∷ 5 ∷ []); corrupt = some (7 ∷ []) })
unfolding two_bytes decode is_recoverable text_beq validate unique_ids validate_target for_each
    stored_of
load-recover_example =
    load-recover two_bytes broken_files (7 ∷ []) (6 ∷ 5 ∷ []) (6 ∷ 5 ∷ []) invalid_json sample false
      refl refl refl refl refl refl

-- A document of version 2 with a node and without subscriptions.
abbrev old_node : Value
old_node = object (
    entry (text "protocol") (string (text "socks5"))
      (entry (text "credentials") (object (entry (text "kind") (string (text "none")) end)) end))

abbrev old_document : Value
old_document = object (
    entry (text "schema_version") (unsigned 2) (
      entry (text "nodes") (array (cons old_node nil))
        (entry (text "subscriptions") (array nil) (entry (text "pools") (array nil) end))))

migrate_on-migrate_to_current_example :
    migrate_on 9 old_document ≡ some (migrate_to_current old_document)
migrate_on-migrate_to_current_example = migrate_on-migrate_to_current 9 old_document (omega arith)

abbrev new_node : Value
new_node = object (
    entry (text "protocol") (string (text "socks")) (
      entry (text "options")
        (object (
          entry (text "kind") (string (text "socks")) (
            entry (text "version") (unsigned 5)
              (entry (text "username") null (entry (text "password") null end)))))
        end))

abbrev new_document : Value
new_document = object (
    entry (text "schema_version") (unsigned 6) (
      entry (text "nodes") (array (cons new_node nil)) (
        entry (text "subscriptions") (array nil) (
          entry (text "pools") (array nil) (
            entry (text "default_target")
              (object (entry (text "kind") (string (text "unconfigured")) end))
              (entry (text "active_subscription_id") null
                (entry (text "active_configuration_generation") (unsigned 0) end)))))))

migrate_to_current-Migrated_example : Migrated old_document new_document true
unfolding migrate_to_current text_beq present trim is_whitespace
migrate_to_current-Migrated_example =
    migrate_to_current-Migrated old_document new_document true refl

snapshot_store-Serves_example : Serves (snapshot_store two_bytes) (kept two_bytes)
snapshot_store-Serves_example = snapshot_store-Serves two_bytes two_bytes-ReadsBack
