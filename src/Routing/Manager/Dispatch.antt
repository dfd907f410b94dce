-- ===== src/Routing/Manager/Dispatch.antt =====
-- Every mutation of `ProxyRoutingManager::mutate`, src-tauri/src/application/proxy_routing.rs, but the
-- application of the configuration edits the state.
use veyra.Base.{◌≡◌, refl, ◌⊎◌, inl, inr, ℕ, List, Option}
use veyra.Base.Text.{Text}
use veyra.Domain.Types.{AppState}
use veyra.Routing.Types.{
  ProxyRoutingMutation, create_custom_pool, update_custom_pool, delete_custom_pool,
  set_manual_selection, set_default_target, create_route, update_route, delete_route,
  reorder_routes, apply_configuration,
}
use veyra.Routing.Input.{Url}
use veyra.Routing.Mutation.{apply_mutation}
use veyra.Routing.Mutation.Totality.{IsEdit}
use veyra.Routing.Manager.{StateStore, Manager, finish, dispatch}

pub IsEdit-or_apply :
    (mutation : ProxyRoutingMutation) → (mutation ≡ apply_configuration) ⊎ IsEdit mutation
IsEdit-or_apply (create_custom_pool _ _ _ _) = inr tt
IsEdit-or_apply (update_custom_pool _ _ _ _ _) = inr tt
IsEdit-or_apply (delete_custom_pool _) = inr tt
IsEdit-or_apply (set_manual_selection _ _) = inr tt
IsEdit-or_apply (set_default_target _) = inr tt
IsEdit-or_apply (create_route _ _ _ _ _) = inr tt
IsEdit-or_apply (update_route _ _ _ _ _) = inr tt
IsEdit-or_apply (delete_route _) = inr tt
IsEdit-or_apply (reorder_routes _) = inr tt
IsEdit-or_apply apply_configuration = inl refl

pub dispatch_edit :
    {Disk : Type 0} (S : StateStore Disk) (parse : Text → Option Url) (random : Option (List ℕ))
    (mutation : ProxyRoutingMutation) (s : AppState) (current : ℕ) (m : Manager Disk)
    → IsEdit mutation
    → dispatch S parse random mutation s current m
      ≡ finish S parse random mutation current m (apply_mutation parse random mutation s)
unfolding dispatch
dispatch_edit S parse random (create_custom_pool _ _ _ _) s current m e = refl
dispatch_edit S parse random (update_custom_pool _ _ _ _ _) s current m e = refl
dispatch_edit S parse random (delete_custom_pool _) s current m e = refl
dispatch_edit S parse random (set_manual_selection _ _) s current m e = refl
dispatch_edit S parse random (set_default_target _) s current m e = refl
dispatch_edit S parse random (create_route _ _ _ _ _) s current m e = refl
dispatch_edit S parse random (update_route _ _ _ _ _) s current m e = refl
dispatch_edit S parse random (delete_route _) s current m e = refl
dispatch_edit S parse random (reorder_routes _) s current m e = refl
dispatch_edit S parse random apply_configuration s current m e = absurd e
