-- ===== src/ServiceRegistry/Context.antt =====
-- The life of the services of an execution context: boost_asio/execution_context.cc over the
-- registry, with any threads in `use_service` and `add_service` before. A service is its number in
-- the order in which services are constructed.
pub mod Laws
mod Tests
use boost_asio.Base.{ℕ, suc, ◌≡◌, if◌then◌else◌, Option, none, some, List, [], ◌∷◌, ◌++◌}
use boost_asio.ServiceRegistry.{
  Services, find, assign, Used, settle, add_service, shutdown_services, destroy_services,
}

pub record Context : Type 0 where
  pub services : Services
  pub pending : List (ℕ × ℕ)  -- keys and services of threads that have not locked the mutex again
  pub deleted : List ℕ
  pub constructed : ℕ

abbrev pub new_context : Context
new_context = record { services = []; pending = []; deleted = []; constructed = 0 }

abbrev pub deleted_by : Option ℕ → List ℕ → List ℕ
deleted_by none l = l
deleted_by (some service) l = service ∷ l

-- A thread at the end of `use_service`, behind its second `lock`.
abbrev pub after_settle : Context → List (ℕ × ℕ) → Used → Context
after_settle c pending u = record c {
  services = u.services;
  pending = pending;
  deleted = deleted_by u.deleted c.deleted;
}

pub data ContextStep (c : Context) : Context → Type 0 where
  -- `use_service` finds no service, unlocks the mutex and constructs one
  begin_use :
      (key : ℕ)
      → find c.services key ≡ none
      → ContextStep c
          (record c { pending = (key, c.constructed) ∷ c.pending; constructed = suc c.constructed })
  finish_use :
      (before after : List (ℕ × ℕ)) (key service : ℕ)
      → c.pending ≡ before ++ (key, service) ∷ after
      → ContextStep c (after_settle c (before ++ after) (settle c.services key service))
  -- `add_service` of a new service
  add :
      (key : ℕ) {services : Services}
      → add_service c.services key c.constructed ≡ some services
      → ContextStep c (record c { services = services; constructed = suc c.constructed })

pub data ContextReach : Context → Type 0 where
  here : ContextReach new_context
  next : {c c' : Context} → ContextReach c → ContextStep c c' → ContextReach c'

-- What `~execution_context` does to services, in order.
pub data Act : Type 0 where
  shut_down delete : ℕ → Act

abbrev pub acts : (ℕ → Act) → List ℕ → List Act
acts act [] = []
acts act (s ∷ l) = act s ∷ acts act l

pub destroy_context : Services → List Act × Services
destroy_context m =
    let (gone, m') = destroy_services m in
    (acts shut_down (shutdown_services m) ++ acts delete gone, m')
