-- ===== src/ServiceRegistry/Laws.antt =====
-- boost_asio/service_registry.hpp keeps one service for a key.
use boost_asio.Base.{
  ℕ, ◌<◌, ◌≡◌, refl, ◌≢◌, ◌⊎◌, ◌==◌, ltb, if◌then◌else◌, true, none, some, [], ◌∷◌, arith,
  Option-cases, Bool-cases, if_both, inl, inr,
}
use mathlib.Core.Path.{subst}
use boost_asio.ServiceRegistry.{
  Services, find, assign, Used, settle, use_service, add_service, make_service, has_service,
}

find-assign : (m : Services) (key service : ℕ) → find (assign m key service) key ≡ some service
unfolding find assign
find-assign [] key service = ground arith
find-assign (entry ∷ m) key service = ground (arith, find-assign m key service)

find-assign-other :
    (m : Services) (key service other : ℕ)
    → other ≢ key
    → find (assign m key service) other ≡ find m other
unfolding find assign
find-assign-other [] key service other h = ground arith
find-assign-other (entry ∷ m) key service other h =
    ground (arith, find-assign-other m key service other h)

-- Every key of the map is above `low`.
abbrev pub AllAbove : ℕ → Services → Type 0
AllAbove low [] = Unit
AllAbove low (entry ∷ m) = (low < entry.0) × AllAbove low m

-- The keys are in order, each once.
abbrev pub IsSorted : Services → Type 0
IsSorted [] = Unit
IsSorted (entry ∷ m) = AllAbove entry.0 m × IsSorted m

AllAbove-trans : {low high : ℕ} (m : Services) → low < high → AllAbove high m → AllAbove low m
AllAbove-trans [] lt h = tt
AllAbove-trans (entry ∷ m) lt h = (omega (arith, h.0), AllAbove-trans m lt h.1)

assign-AllAbove :
    (low : ℕ) (m : Services) (key service : ℕ)
    → low < key
    → AllAbove low m
    → AllAbove low (assign m key service)
unfolding assign
assign-AllAbove low [] key service lt h = (lt, tt)
assign-AllAbove low (entry ∷ m) key service lt h =
    if_both (AllAbove low) (ltb key entry.0) (lt, h)
      (if_both (AllAbove low) (entry.0 == key) (lt, h.1)
        (h.0, assign-AllAbove low m key service lt h.1))

pub assign-IsSorted :
    (m : Services) (key service : ℕ) → IsSorted m → IsSorted (assign m key service)
unfolding assign
assign-IsSorted [] key service h = (tt, tt)
assign-IsSorted (entry ∷ m) key service h = elim (Bool-cases (ltb key entry.0)) [
  | inl below ↦
      let lt : key < entry.0 = ground (arith, below) in rw below ((lt, AllAbove-trans m lt h.0), h)
  | inr not_below ↦ rw not_below (elim (Bool-cases (entry.0 == key)) [
    | inl same ↦
        let e : entry.0 ≡ key = ground (arith, same) in
        rw same (subst (λ k. AllAbove k m) e h.0, h.1)
    | inr differs ↦
        let lt : entry.0 < key = ground (arith, not_below, differs) in
        rw differs (assign-AllAbove entry.0 m key service lt h.0, assign-IsSorted m key service h.1)
  ])
]

-- `services_[key] = service` keeps the keys in order, each once; it gives the key its service, and
-- leaves every other key as it was.
pub assign_lem :
    (m : Services) (key service other : ℕ)
    → IsSorted m
    → other ≢ key
    → IsSorted (assign m key service)
      × (find (assign m key service) key ≡ some service)
      × (find (assign m key service) other ≡ find m other)
assign_lem m key service other h ne = (
  assign-IsSorted m key service h,
  find-assign m key service,
  find-assign-other m key service other ne,
)

use_service-found :
    (construct : Services → ℕ × Services) (m : Services) (key service : ℕ)
    → find m key ≡ some service
    → use_service construct m key ≡ record { service = service; services = m; deleted = none }
unfolding use_service
use_service-found construct m key service e = rw (e, use_service) refl

use_service-late :
    (construct : Services → ℕ × Services) (m : Services) (key service : ℕ)
    → find m key ≡ none
    → find (construct m).1 key ≡ some service
    → use_service construct m key
      ≡ record { service = service; services = (construct m).1; deleted = some (construct m).0 }
unfolding use_service settle
use_service-late construct m key service e p = rw (e, use_service) (rw (p, settle) refl)

use_service-new :
    (construct : Services → ℕ × Services) (m : Services) (key : ℕ)
    → find m key ≡ none
    → find (construct m).1 key ≡ none
    → use_service construct m key ≡ record {
      service = (construct m).0;
      services = assign (construct m).1 key (construct m).0;
      deleted = none;
    }
unfolding use_service settle
use_service-new construct m key e p = rw (e, use_service) (rw (p, settle) refl)

use_service_finds :
    (construct : Services → ℕ × Services) (m : Services) (key : ℕ)
    → find (use_service construct m key).services key ≡ some (use_service construct m key).service
use_service_finds construct m key = elim (Option-cases (find m key)) [
  | inr p ↦ rw (use_service-found construct m key p.0 p.1) p.1
  | inl absent ↦ elim (Option-cases (find (construct m).1 key)) [
    | inr p ↦ rw (use_service-late construct m key p.0 absent p.1) p.1
    | inl still ↦
        rw (use_service-new construct m key absent still)
          (find-assign (construct m).1 key (construct m).0)
  ]
]

-- What `use_service` returns of a key that was missing, where `m'` is the registry as it is when the
-- mutex is locked again.
abbrev pub Settles : Services → ℕ → ℕ → ℕ → Used → Type 0
Settles m' key new_service other r =
    (r.deleted ≡ (if has_service m' key then some new_service else none))
    × (some r.service ≡ (if has_service m' key then find m' key else some new_service))
    × (find r.services other ≡ find m' other)

use_service-Settles :
    (construct : Services → ℕ × Services) (m : Services) (key other : ℕ)
    → find m key ≡ none
    → other ≢ key
    → Settles (construct m).1 key (construct m).0 other (use_service construct m key)
unfolding has_service
use_service-Settles construct m key other absent ne =
    elim (Option-cases (find (construct m).1 key)) [
      | inr p ↦
          rw (use_service-late construct m key p.0 absent p.1)
            (rw (p.1, has_service) refl, rw (p.1, has_service) refl, refl)
      | inl still ↦ rw (use_service-new construct m key absent still) (
        rw (still, has_service) refl,
        rw (still, has_service) refl,
        find-assign-other (construct m).1 key (construct m).0 other ne,
      )
    ]

-- If the registry has a service for the key, `use_service` returns it, constructs none and changes
-- nothing. If not, then whatever the constructor and other threads add while the mutex is released:
-- if the key has a service by the time that the mutex is locked again, that one is returned and the
-- new one is deleted; otherwise the new one is returned and none is deleted; the entry of another
-- key stays as it is by then. Either way the registry has the returned service for the key, and a
-- further call for the key returns the same service, constructs none and changes nothing.
pub use_service_once :
    (construct construct' : Services → ℕ × Services) (m : Services) (key other : ℕ)
    → other ≢ key
    → let r = use_service construct m key in
      (((find m key ≡ some r.service) × (r.services ≡ m) × (r.deleted ≡ none))
        ⊎ ((find m key ≡ none) × Settles (construct m).1 key (construct m).0 other r))
      × (find r.services key ≡ some r.service)
      × (use_service construct' r.services key
          ≡ record { service = r.service; services = r.services; deleted = none })
use_service_once construct construct' m key other ne =
    let found = use_service_finds construct m key in
    (
      elim (Option-cases (find m key)) [
        | inr p ↦ inl (rw (use_service-found construct m key p.0 p.1) (p.1, refl, refl))
        | inl absent ↦ inr (absent, use_service-Settles construct m key other absent ne)
      ],
      found,
      use_service-found construct' (use_service construct m key).services key _ found,
    )

-- `add_service` succeeds exactly on a key that `has_service` denies, and then `has_service` holds.
pub add_service_lem :
    (m : Services) (key service : ℕ)
    → (add_service m key service
        ≡ (if has_service m key then none else some (assign m key service)))
      × (has_service (assign m key service) key ≡ true)
unfolding add_service has_service
add_service_lem m key service = (ground arith, rw (find-assign m key service, has_service) refl)

-- `make_service` gives a service just if its key is new. It is then the one that was made, and
-- `use_service` of the key finds it from then on, constructs nothing and leaves the map as it is.
pub use_service-make_service :
    (construct : Services → ℕ × Services) (m m' : Services) (key new_service result : ℕ)
    → make_service m key new_service ≡ some (result, m')
    → (find m key ≡ none)
      × (result ≡ new_service)
      × (has_service m' key ≡ true)
      × (use_service construct m' key
          ≡ record { service = new_service; services = m'; deleted = none })
unfolding make_service add_service has_service use_service
use_service-make_service construct m m' key new_service result h =
    ground (arith, find-assign m key new_service)

-- The first service of a new registry is added.
pub make_service-first :
    (key new_service : ℕ)
    → make_service [] key new_service ≡ some (new_service, (key, new_service) ∷ [])
unfolding make_service add_service find assign
make_service-first key new_service = refl
