-- ===== src/ServiceRegistry.antt =====
-- boost_asio/service_registry.hpp, service_registry.cc and the functions of
-- service_registry_helpers.hpp that hand on to them. The map from keys to services is a list in the
-- order of the keys; a key stands for its place in the order of strings, and a service for its
-- address.
pub mod Laws
pub mod Context
mod Tests
use boost_asio.Base.{
  ℕ, ◌==◌, ltb, if◌then◌else◌, Bool, true, false, Option, none, some, List, [], ◌∷◌, map,
}

abbrev pub Services : Type 0
Services = List (ℕ × ℕ)

-- `services_.find(key)`: the service, if there is one
pub find : Services → ℕ → Option ℕ
find [] key = none
find (entry ∷ m) key = if entry.0 == key then some entry.1 else find m key

-- `services_[key] = service`
pub assign : Services → ℕ → ℕ → Services
assign [] key service = (key, service) ∷ []
assign (entry ∷ m) key service =
    if ltb key entry.0
    then (key, service) ∷ entry ∷ m
    else if entry.0 == key
    then (key, service) ∷ m
    else entry ∷ assign m key service

-- What `use_service` gives: the service, the map, and the new service if it is deleted.
pub record Used : Type 0 where
  pub service : ℕ
  pub services : Services
  pub deleted : Option ℕ

-- After the mutex is locked again, with a new service.
pub settle : Services → ℕ → ℕ → Used
settle m key new_service = elim (find m key) [
  | none ↦ record { service = new_service; services = assign m key new_service; deleted = none }
  | some service ↦ record { service = service; services = m; deleted = some new_service }
]

-- Both overloads of `use_service`. While the mutex is released the service is constructed:
-- `construct` gives its address and the map as it is by then, since its constructor and other
-- threads may use services.
pub use_service : (construct : Services → ℕ × Services) → Services → ℕ → Used
use_service construct m key = elim (find m key) [
  | some service ↦ record { service = service; services = m; deleted = none }
  | none ↦ settle (construct m).1 key (construct m).0
]

-- `add_service`; `none` is the assertion that fails on a key that is there.
pub add_service : Services → ℕ → ℕ → Option Services
add_service m key new_service = elim (find m key) [
  | none ↦ some (assign m key new_service)
  | some service ↦ none
]

-- `make_service` of service_registry_helpers.hpp, and `add_impl` of io_context.cc: the new service,
-- if it is added, and the map.
pub make_service : Services → ℕ → ℕ → Option (ℕ × Services)
make_service m key new_service = elim (add_service m key new_service) [
  | none ↦ none
  | some m' ↦ some (new_service, m')
]

pub has_service : Services → ℕ → Bool
has_service m key = elim (find m key) [ none ↦ false | some service ↦ true ]

-- The services whose `shutdown` is called, in order.
pub shutdown_services : Services → List ℕ
shutdown_services = map (λ entry. entry.1)

-- The services that are deleted, in order, and the map.
pub destroy_services : Services → List ℕ × Services
destroy_services m = (map (λ entry. entry.1) m, [])
