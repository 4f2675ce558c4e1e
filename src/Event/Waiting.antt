-- ===== src/Event/Waiting.antt =====
-- When the loops of boost_asio/event.hpp end.
use mathlib.Core.Option.{map}
use boost_asio.Base.{Bool-cases, inl, inr, ℕ, zero, suc, ◌≡◌, refl, ◌∙◌, true, false, none, arith}
use boost_asio.Event.{Event, is_set, add_waiter, drop_waiter, wait, wait_for_usec}

add_waiter-is_set : (e : Event) → is_set (add_waiter e) ≡ is_set e
unfolding is_set add_waiter
add_waiter-is_set e = ground arith

drop_waiter-is_set : (e : Event) → is_set (drop_waiter e) ≡ is_set e
unfolding is_set drop_waiter
drop_waiter-is_set e = ground arith

module _ {W : Type 0} (block : Event × W → Event × W) where
  -- One round of the loops.
  abbrev round : Event × W → Event × W
  round (e, w) = let woken = block (add_waiter e, w) in (drop_waiter woken.0, woken.1)

  -- `wait_for_usec` gives what `wait` gives, with true, whatever happens while the lock is
  -- released: that its time is up makes no difference.
  wait_for_usec-wait :
      (fuel : ℕ) (x : Event × W)
      → wait_for_usec block fuel x ≡ map (λ y. (true, y.0, y.1)) (wait block fuel x)
  unfolding wait wait_for_usec
  wait_for_usec-wait zero x = refl
  wait_for_usec-wait (suc fuel) (e, w) = elim (Bool-cases (is_set e)) [
    | inl h ↦ rw h refl
    | inr h ↦ rw h (wait_for_usec-wait fuel (round (e, w)))
  ]

  -- If the event is not set, and whoever runs while the lock is released never sets it,
  -- `wait_for_usec` returns on no fuel, although its time is up in every round.
  pub wait_for_usec_never :
      (fuel : ℕ) (x : Event × W)
      → ((y : Event × W) → is_set y.0 ≡ false → is_set (block y).0 ≡ false)
      → is_set x.0 ≡ false
      → wait_for_usec block fuel x ≡ none
  unfolding wait_for_usec
  wait_for_usec_never zero x never unset_now = refl
  wait_for_usec_never (suc fuel) (e, w) never unset_now =
      let woken : is_set (block (add_waiter e, w)).0 ≡ false =
        never (add_waiter e, w) (add_waiter-is_set e ∙ unset_now) in
      rw unset_now (wait_for_usec_never fuel (round (e, w)) never (drop_waiter-is_set _ ∙ woken))
