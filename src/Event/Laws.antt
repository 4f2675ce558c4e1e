-- ===== src/Event/Laws.antt =====
-- `state_` of boost_asio/event.hpp read as a flag and a count of waiters.
use boost_asio.Base.{
  ℕ, suc, ◌+◌, ◌*◌, ◌^◌, ◌<◌, ◌≡◌, ltb, if◌then◌else◌, Bool, true, false, ◌∷◌, arith,
}
use boost_asio.Event.{
  Event, notify_one, signal_all, unlock_and_signal_one, maybe_unlock_and_signal_one, clear, is_set,
  add_waiter, drop_waiter,
}

abbrev pub to_bit : Bool → ℕ
to_bit true = 1
to_bit false = 0

-- The word stands for a number of waiting threads and a flag.
abbrev pub Reads : Event → ℕ → Bool → Type 0
Reads e waiters flag = e.state ≡ 2 * waiters + to_bit flag

pub is_set-Reads : (e : Event) (w : ℕ) (b : Bool) → Reads e w b → is_set e ≡ b
unfolding is_set
is_set-Reads e w true h = ground arith
is_set-Reads e w false h = ground arith

pub signal_all-Reads : (e : Event) (w : ℕ) (b : Bool) → Reads e w b → Reads (signal_all e).0 w true
unfolding signal_all
signal_all-Reads e w true h = omega arith
signal_all-Reads e w false h = omega arith

pub unlock_and_signal_one-Reads :
    (e : Event) (w : ℕ) (b : Bool) → Reads e w b → Reads (unlock_and_signal_one e).0 w true
unfolding unlock_and_signal_one
unlock_and_signal_one-Reads e w true h = omega arith
unlock_and_signal_one-Reads e w false h = omega arith

pub maybe_unlock_and_signal_one-Reads :
    (e : Event) (w : ℕ) (b : Bool) → Reads e w b → Reads (maybe_unlock_and_signal_one e).0 w true
unfolding maybe_unlock_and_signal_one
maybe_unlock_and_signal_one-Reads e w true h = ground arith
maybe_unlock_and_signal_one-Reads e w false h = ground arith

pub clear-Reads : (e : Event) (w : ℕ) (b : Bool) → Reads e w b → Reads (clear e) w false
unfolding clear
clear-Reads e w true h = omega arith
clear-Reads e w false h = omega arith

pub add_waiter-Reads :
    (e : Event) (w : ℕ) (b : Bool) → suc w < 2 ^ 63 → Reads e w b → Reads (add_waiter e) (suc w) b
unfolding add_waiter
add_waiter-Reads e w true lt h = omega arith
add_waiter-Reads e w false lt h = omega arith

pub drop_waiter-Reads :
    (e : Event) (w : ℕ) (b : Bool) → suc w < 2 ^ 63 → Reads e (suc w) b → Reads (drop_waiter e) w b
unfolding drop_waiter
drop_waiter-Reads e w true lt h = omega arith
drop_waiter-Reads e w false lt h = omega arith

-- Where the word stands for `waiters` threads, `maybe_unlock_and_signal_one` sets the event, keeps
-- the count, notifies one thread and unlocks the mutex if somebody waits, and does neither if
-- nobody does.
pub maybe_unlock_and_signal_one_lem :
    (e : Event) (waiters : ℕ) (flag : Bool)
    → Reads e waiters flag
    → let r = maybe_unlock_and_signal_one e in
      Reads r.0 waiters true
      × (r.1 ≡ ltb 0 waiters)
      × (r.0.notices ≡ (if ltb 0 waiters then notify_one ∷ e.notices else e.notices))
unfolding maybe_unlock_and_signal_one
maybe_unlock_and_signal_one_lem e w b h =
    (maybe_unlock_and_signal_one-Reads e w b h, branch w b h, notices w b h)
  where
    branch : (w : ℕ) (b : Bool) → Reads e w b → (maybe_unlock_and_signal_one e).1 ≡ ltb 0 w
    branch w true h = ground arith
    branch w false h = ground arith

    notices :
        (w : ℕ) (b : Bool)
        → Reads e w b
        → (maybe_unlock_and_signal_one e).0.notices
          ≡ (if ltb 0 w then notify_one ∷ e.notices else e.notices)
    notices w true h = ground arith
    notices w false h = ground arith
