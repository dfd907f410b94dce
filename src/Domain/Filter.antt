-- ===== src/Domain/Filter.antt =====
-- `NodeFilter::validate` and `NodeFilter::matches` in src-tauri/src/domain/state.rs.
use veyra.Base.{
  List, ◌++◌, Bool, ◌&&◌, ◌||◌, not, all, any, find, contains, is_empty, is_none_or, ◌==◌, Result,
  fail_if,
}
use veyra.Base.Text.{text_eq, to_ascii_lowercase, contains_text}
use veyra.Domain.Types.{NodeFilter, ProviderId, ProxyNode, StateValidationError, invalid_filter}
use veyra.Domain.Options.{protocol_eq}

unfoldable pub validate_filter :
    NodeFilter → ProviderId → List ProxyNode → Result (Unit {0}) StateValidationError
validate_filter f provider_id nodes =
    fail_if
      (any
          (λ id.
            is_none_or (find (λ node. node.id == id) nodes)
              (λ node. not (node.provider_id == provider_id)))
          (f.include_node_ids ++ f.exclude_node_ids)
        || any (λ id. contains f.exclude_node_ids id) f.include_node_ids)
      invalid_filter

unfoldable pub matches : NodeFilter → ProxyNode → Bool
matches f node =
    let name = to_ascii_lowercase node.name in
    (is_empty f.regions || any (λ region. contains_text name (to_ascii_lowercase region)) f.regions)
    && (is_empty f.protocols || contains f.protocols node.protocol)
    && (is_empty f.include_keywords
        || all (λ keyword. contains_text name (to_ascii_lowercase keyword)) f.include_keywords)
    && not (any (λ keyword. contains_text name (to_ascii_lowercase keyword)) f.exclude_keywords)
    && (is_empty f.include_node_ids || contains f.include_node_ids node.id)
    && not (contains f.exclude_node_ids node.id)
