-- ===== src/Rpc/Router.antt =====
-- src/core/rpc_handle_router.cc and src/include/smf/rpc_service.h
use smurf.Prelude.{ℕ, ◌≡◌, refl, sym, Option, none, some, List, [], ◌∷◌, ◌++◌, Bytes}

-- rpc_service, over the type of its handles; `none` is a null pointer.
pub record Service {ℓ} (H : Type ℓ) : Type ℓ where
  pub service_name : Bytes
  pub service_id : ℕ
  pub method_for_request_id : ℕ → Option H

module _ {ℓ} {H : Type ℓ} where
  unfoldable pub register_service : List (Service H) → Service H → List (Service H)
  register_service services s = services ++ (s ∷ [])

  -- `x` if it is not null, and otherwise what the rest of the loop returns
  abbrev pub or_else : Option H → Option H → Option H
  or_else none y = y
  or_else (some h) y = some h

  unfoldable pub get_handle_for_request : List (Service H) → ℕ → Option H
  get_handle_for_request [] id = none
  get_handle_for_request (p ∷ services) id =
      or_else (p.method_for_request_id id) (get_handle_for_request services id)

  or_else-none : (x : Option H) → or_else x none ≡ x
  or_else-none none = refl
  or_else-none (some h) = refl

  or_else_assoc : (x y z : Option H) → or_else (or_else x y) z ≡ or_else x (or_else y z)
  or_else_assoc none y z = refl
  or_else_assoc (some h) y z = refl

  -- A service that is registered later is asked only for the requests that none before it handles.
  pub get_handle-register :
      (services : List (Service H)) (s : Service H) (id : ℕ)
      → get_handle_for_request (register_service services s) id
        ≡ or_else (get_handle_for_request services id) (s.method_for_request_id id)
  unfolding register_service get_handle_for_request
  get_handle-register [] s id = or_else-none (s.method_for_request_id id)
  get_handle-register (p ∷ services) s id = rw (get_handle-register services s id) (
      sym (
        or_else_assoc (p.method_for_request_id id) (get_handle_for_request services id)
          (s.method_for_request_id id)))
