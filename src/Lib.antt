-- ===== src/Lib.antt =====
-- Veyra, a desktop client that compiles subscriptions, pools and routes into a configuration of a
-- proxy core, runs the core, and points the proxy setting of the system to it.
--
-- The parts, and the code that each models:
--   Domain, for src-tauri/src/domain/state.rs. The persisted state (`AppState`) with its subscriptions,
--     providers, nodes, pools and routes; `AppState::validate` is `validate`, which runs the checks of
--     the code in the order of the code; `AppState::resolve_pool_members` is
--     `resolve_pool_members`; `RuntimeIntent::from_state` is `from_state`. Sets and maps that the code
--     builds to look identifiers up are lists.
--   Sidecar, for src-tauri/src/singbox/runtime.rs. `SidecarRuntime` owns at most one instance of the
--     core; each method is a function of its name from the runtime to a result and the next runtime.
--     The trait `SidecarPort` is a record of calls over a state of the port, an argument.
--   SystemProxy, for src-tauri/src/platform/windows/system_proxy.rs and recovery.rs beside it. Each
--     method of `WindowsSystemProxy` is an action on the state of the port and of the record store,
--     which keeps what it has changed when it fails, as `?` does.
--   Supervisor, for src-tauri/src/application/runtime.rs. `RuntimeSupervisor` couples the two; its
--     calls are `activate_system_proxy` and `deactivate_system_proxy`. The compiler and the generator of
--     secrets are arguments.
--   Routing, for src-tauri/src/application/proxy_routing.rs. `apply_mutation` is the function of its
--     name, an `expect`, an `unreachable!` or an insertion out of range being an outcome of its own; `mutate` is
--     `ProxyRoutingManager::mutate` up to where the access gate is given up, and its reply says what
--     the code does next. `canonical_runtime_apply_state`, `selectors` and `settle_manual_outcome` are
--     what the snapshot and a manual selection report of the runtime, each return of the first being a
--     function that gives an answer or none. The store of the state is an argument, which
--     Routing.Manager.Serves fills with that of Storage; the URL parser and the random bytes are
--     arguments.
--   Selection, for src-tauri/src/application/selected_subscription.rs. `project_selected_runtime` builds
--     the intent that is run, from the active subscription and the pools of the state.
--   Provider, for src-tauri/src/subscription/normalize.rs and
--     src-tauri/src/application/provider_replacement.rs. `normalize_nodes` gives the nodes of a
--     subscription identifiers that do not depend on their names; `apply_provider_replacement` swaps the
--     nodes of a provider. What serde_json writes of a node is an argument.
--   Schedule, for `SubscriptionManager::due_subscription_ids` of
--     src-tauri/src/application/subscription_management.rs. The store, the gate and the deadlines of
--     the process are arguments.
--   Compiler, for src-tauri/src/singbox/compiler.rs. `compile` takes the intent of Domain to the closed
--     `Document` of the core, `Compiler.Managed.validate` is the check of a document, and `finalize`
--     binds it to the secret of a run. Traffic says what the core does with the rules.
--   Storage, for src-tauri/src/storage. `load` and `save` are the methods of `JsonStateStore` of these
--     names, as acts on the state file, its backup, its two copies and the temporary files; each call of
--     std::fs takes the next of a list of fates, by which it works or fails. `migrate_to_current`
--     upgrades a JSON document. What serde derives, and the JSON text, are arguments.
--   Base holds what the parts share: the integers, texts as lists of characters, the results, and the
--     lemmas on lists. Witnesses holds the data of the tests.
--
-- Bounds and fuel: every loop of the code is a recursion on a list, but for the migration, whose fuel
-- is the current version, of which each round makes up one. The decimal digits of a port
-- number recur on fuel, one more than the number, which is at least the digits it has; the 64 bits of a
-- hash and its 16 hexadecimal digits are recursions on those numbers. The fields of fixed
-- width are natural numbers: the decoder rejects a number out of range, and the only arithmetic on
-- them is `checked_add` of revisions and generations, whose bound is written out, the saturating
-- arithmetic on the times of Schedule, and the multiplication of the hash, which wraps at 2 ^ 64.
--
-- Not modelled: the mutexes (each call runs alone; a poisoned mutex is not considered), threads, the
-- network, the calls of the operating system but those of the snapshot files, the parser of
-- subscriptions, the writes of subscriptions, the worker that observes a running core, and the front
-- end.
pub mod Base
pub mod Domain
pub mod Sidecar
pub mod SystemProxy
pub mod Supervisor
pub mod Routing
pub mod Selection
pub mod Provider
pub mod Schedule
pub mod Compiler
pub mod Storage
pub mod Witnesses
