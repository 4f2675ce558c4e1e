-- ===== src/Event/Tests.antt =====
-- A thread that nobody wakes.
use boost_asio.Base.{ℕ, suc, ◌≡◌, refl, none, []}
use boost_asio.Event.{Event, wait_for_usec, is_set}
use boost_asio.Event.Waiting.{wait_for_usec_never}

abbrev unset_event : Event
unset_event = record { state = 0; notices = [] }

-- The world counts the rounds.
abbrev no_one : Event × ℕ → Event × ℕ
no_one (e, n) = (e, suc n)

wait_for_usec_never_example : wait_for_usec no_one 5 (unset_event, 0) ≡ none
unfolding is_set
wait_for_usec_never_example = wait_for_usec_never no_one 5 (unset_event, 0) (λ y h. h) refl
