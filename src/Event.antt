-- ===== src/Event.antt =====
-- boost_asio/event.hpp: the word `state_` beside a condition variable. Bit 0 says that the event is
-- set; the rest counts the threads in `wait`, two for each. What is called on the condition variable
-- is kept in `notices`, latest first. Each operation is entered with the mutex locked, and returns
-- whether it is still locked.
pub mod Laws
pub mod Waiting
mod Tests
use boost_asio.Base.{
  ℕ, zero, suc, ◌+◌, ◌-◌, ◌%◌, ◌==◌, ltb, if◌then◌else◌, Bool, true, false, not, Option, none, some,
  List, [], ◌∷◌, size_mod,
}

pub data Notice : Type 0 where
  notify_one notify_all : Notice

pub record Event : Type 0 where
  pub state : ℕ
  pub notices : List Notice

unfoldable pub new_event : Event
new_event = record { state = 0; notices = [] }

-- `state_ |= 1`
abbrev pub set_bit : ℕ → ℕ
set_bit state = state - state % 2 + 1

-- `state_ &= ~std::size_t(1)`
abbrev pub clear_bit : ℕ → ℕ
clear_bit state = state - state % 2

unfoldable pub signal_all : Event → Event × Bool
signal_all e = (record { state = set_bit e.state; notices = notify_all ∷ e.notices }, true)

unfoldable pub signal : Event → Event × Bool
unfolding signal_all
signal e = signal_all e

unfoldable pub unlock_and_signal_one : Event → Event × Bool
unlock_and_signal_one e =
    let have_waiters = ltb 1 (set_bit e.state) in
    (
      record {
        state = set_bit e.state;
        notices = if have_waiters then notify_one ∷ e.notices else e.notices;
      },
      false,
    )

-- The event, and what the function returns: true if it unlocked the mutex, which is then not held.
unfoldable pub maybe_unlock_and_signal_one : Event → Event × Bool
maybe_unlock_and_signal_one e =
    let have_waiters = ltb 1 (set_bit e.state) in
    if have_waiters
    then (record { state = set_bit e.state; notices = notify_one ∷ e.notices }, true)
    else (record e { state = set_bit e.state }, false)

unfoldable pub clear : Event → Event
clear e = record e { state = clear_bit e.state }

-- the test of the loops in `wait` and `wait_for_usec`
unfoldable pub is_set : Event → Bool
is_set e = e.state % 2 == 1

-- the constructor and the destructor of `waiter`, on either side of the blocking call
unfoldable pub add_waiter : Event → Event
add_waiter e = record e { state = (e.state + 2) % size_mod }

unfoldable pub drop_waiter : Event → Event
drop_waiter e = record e { state = (e.state + size_mod - 2) % size_mod }

-- The loops of `wait` and `wait_for_usec`, on fuel. `block` is `cond_.wait(lock)` or
-- `cond_.wait_for(lock, usec)`: what other threads do to the event and to the rest while the lock
-- is released.
module _ {W : Type 0} (block : Event × W → Event × W) where
  unfoldable pub wait : ℕ → Event × W → Option (Event × W)
  wait zero (e, w) = none
  wait (suc fuel) (e, w) =
      let woken = block (add_waiter e, w) in
      let rest = wait fuel (drop_waiter woken.0, woken.1) in
      if not (is_set e) then rest else some (e, w)

  -- with the result of the function
  unfoldable pub wait_for_usec : ℕ → Event × W → Option (Bool × Event × W)
  wait_for_usec zero (e, w) = none
  wait_for_usec (suc fuel) (e, w) =
      let woken = block (add_waiter e, w) in
      let rest = wait_for_usec fuel (drop_waiter woken.0, woken.1) in
      if not (is_set e) then rest else some (is_set e, e, w)
