-- ===== src/ServiceRegistry/Context/Tests.antt =====
-- Two threads use the same service at once: the service of the one that is late is deleted.
use boost_asio.Base.{◌+◌, ◌≡◌, refl, ltb, if◌then◌else◌, [], ◌∷◌, total}
use boost_asio.ServiceRegistry.{find, assign, settle}
use boost_asio.ServiceRegistry.Laws.{IsSorted}
use boost_asio.ServiceRegistry.Context.{
  Context, begin_use, finish_use, ContextReach, shut_down, delete, destroy_context,
}
use boost_asio.ServiceRegistry.Context.Laws.{is_one, destroy_context-once}

abbrev raced : Context
raced = record { services = (3, 1) ∷ []; pending = []; deleted = 0 ∷ []; constructed = 2 }

raced_reached : ContextReach raced
unfolding find assign settle
raced_reached =
    ContextReach.next
      (ContextReach.next
        (ContextReach.next (ContextReach.next ContextReach.here (begin_use 3 refl))
          (begin_use 3 refl))
        (finish_use [] ((3, 0) ∷ []) 3 1 refl))
      (finish_use [] [] 3 0 refl)

destroy_context-once_example :
    ((destroy_context raced.services).0 ≡ shut_down 1 ∷ delete 1 ∷ [])
    × IsSorted ((3, 1) ∷ [])
    × (total (is_one 0) (0 ∷ []) + total (is_one 0) (1 ∷ []) ≡ (if ltb 0 2 then 1 else 0))
destroy_context-once_example = destroy_context-once 0 raced_reached refl
