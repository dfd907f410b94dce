-- ===== src/Witnesses/Provider.antt =====
-- A provider with one new node, for the theorems on src-tauri/src/subscription/normalize.rs and
-- src-tauri/src/application/provider_replacement.rs.
use veyra.Base.{
  ◌≡◌, ◌↔◌, refl, [], ◌∷◌, Option, none, some, true, ok, err, Result, map, Distinct, All, any,
  contains, retain, flat_map, bool_beq, decide_beq, list_beq, all, for_each, ℕ_discrete,
}
use veyra.Base.Text.{Text, text, text_beq, present, trim, is_whitespace}
use veyra.Domain.Types.{
  AppState, ProxyProtocol, ProtocolOptions, RouteTarget, ProxyProtocol-discrete, ProxyNode-discrete,
}
use veyra.Domain.Options.{
  has_required_values, is_compatible_with, tls_is_valid, variant_matches, has_valid_early_data,
}
use veyra.Domain.Subscriptions.{update_policy_is_valid, validate_subscription}
use veyra.Domain.State.{
  validate, unique_ids, validate_node, validate_pool, validate_provider, validate_route,
  validate_target,
}
use veyra.Domain.State.Decision.{validate_iff}
use veyra.Provider.{
  ProxyNodeDraft, Material, node_id, node_of, normalize_nodes, Service, replace,
  apply_provider_replacement, hex_digits, stable_hash, hash_bytes, bytes, xor_bits,
}
use veyra.Provider.Normalized.{IsUsable, normalize_nodes_iff}
use veyra.Provider.Replaced.{
  IsReplaced, apply_provider_replacement-IsReplaced, SaveKeeps, IsInStep, replace-IsInStep,
}
use veyra.Witnesses.Domain.{demo, demo_valid}

-- The identity material by the server alone.
abbrev by_server : Material → Text
by_server material = material.server

abbrev draft : ProxyNodeDraft
draft = record {
  name = text "Fresh";
  protocol = ProxyProtocol.trojan;
  server = text "b.example";
  port = 443;
  options = ProtocolOptions.trojan (text "secret");
  transport = none;
  tls = none;
}

normalize_nodes_iff_example :
    (normalize_nodes by_server (text "p") (draft ∷ [])
      ≡ ok (node_of by_server (text "p") draft ∷ []))
    ↔ (((node_of by_server (text "p") draft ∷ []) ≡ map (node_of by_server (text "p")) (draft ∷ []))
        × All IsUsable (draft ∷ [])
        × Distinct (map (node_id by_server (text "p")) (draft ∷ [])))
normalize_nodes_iff_example =
    normalize_nodes_iff by_server (text "p") (draft ∷ []) (node_of by_server (text "p") draft ∷ [])

-- `demo` without the pool that names its node.
abbrev bare : AppState
bare = record demo { pools = []; routes = []; default_target = RouteTarget.direct }

abbrev save : AppState → Option AppState → Result (Unit {0}) (Unit {0}) × Option AppState
save s d = (ok tt, some s)

abbrev kept : Option AppState → Option AppState
kept d = d

save-SaveKeeps : SaveKeeps save kept
save-SaveKeeps = record { save_ok = λ s d h. refl; save_err = λ s d e h. never s d e h }
  where
    never :
        (s : AppState) (d : Option AppState) (e : Unit {0})
        → ◌≡◌ {A = Result (Unit {0}) (Unit {0})} (ok tt) (err e)
        → some s ≡ d
    never s d e h = cc

abbrev in_memory : Service (Option AppState)
in_memory = record { disk = some demo; state = demo }

replace-IsInStep_example :
    IsInStep kept
      (replace save by_server (text "p") (record { nodes = draft ∷ []; skipped = [] }) in_memory).1
replace-IsInStep_example =
    replace-IsInStep save kept save-SaveKeeps by_server (text "p")
      (record { nodes = draft ∷ []; skipped = [] }) in_memory
      (record { valid = (validate_iff demo).0 demo_valid; stored = refl })

abbrev fresh_nodes : AppState
fresh_nodes = record bare { nodes = node_of by_server (text "p") draft ∷ [] }

replaced :
    apply_provider_replacement by_server bare
      (text "p")
      (record { nodes = draft ∷ []; skipped = [] })
    ≡ ok (fresh_nodes, true)
unfolding apply_provider_replacement any text_beq normalize_nodes present trim is_whitespace
    contains validate unique_ids retain node_id hex_digits stable_hash hash_bytes bytes flat_map
    xor_bits bool_beq decide_beq list_beq all for_each has_required_values is_compatible_with
    tls_is_valid variant_matches validate_node validate_pool validate_provider validate_route
    validate_target update_policy_is_valid validate_subscription ProxyProtocol-discrete
    ProxyNode-discrete has_valid_early_data ℕ_discrete
replaced = refl

apply_provider_replacement-IsReplaced_example :
    IsReplaced by_server (text "p") bare (draft ∷ []) fresh_nodes true
apply_provider_replacement-IsReplaced_example =
    apply_provider_replacement-IsReplaced by_server (text "p") bare
      (record { nodes = draft ∷ []; skipped = [] }) fresh_nodes true replaced
