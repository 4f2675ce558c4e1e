-- ===== src/ServiceRegistry/Tests.antt =====
-- A registry with one service, to which another thread adds the same key, or another one.
use boost_asio.Base.{ℕ, ◌≡◌, ◌⊎◌, none, some, [], ◌∷◌, arith}
use boost_asio.ServiceRegistry.{Services, find, assign, use_service}
use boost_asio.ServiceRegistry.Laws.{Settles, use_service_once}

abbrev one_service : Services
one_service = (2, 20) ∷ []

-- Service 50 is constructed while another thread adds service 51 for key 5.
abbrev raced : Services → ℕ × Services
unfolding assign
raced m = (50, assign m 5 51)

use_service_once_example :
    let r = use_service raced one_service 5 in
    (((find one_service 5 ≡ some r.service) × (r.services ≡ one_service) × (r.deleted ≡ none))
      ⊎ ((find one_service 5 ≡ none) × Settles (raced one_service).1 5 50 2 r))
    × (find r.services 5 ≡ some r.service)
    × (use_service raced r.services 5
        ≡ record { service = r.service; services = r.services; deleted = none })
unfolding assign
use_service_once_example = use_service_once raced raced one_service 5 2 (ground arith)
