-- ===== src/OpQueue/Laws.antt =====
-- What the queues of boost_asio/op_queue.hpp promise: first in, first out.
use boost_asio.Base.{
  ℕ, zero, suc, ◌≡◌, refl, ◌∙◌, ◌↔◌, Option, none, some, List, [], ◌∷◌, ◌++◌, append_assoc,
  append-nil, arith,
}
use mathlib.Core.Option
use boost_asio.OpQueue.{front, back, push, pop, push_queue, push_converted, drain_into}

abbrev pub or_else {ℓ} : {A : Type ℓ} → Option A → A → A
or_else none v = v
or_else (some x) v = x

module _ {ℓ} {A : Type ℓ} where
  -- After a push the new entry is the back, and the front is the old front, or the new entry if the
  -- queue was empty; popping the front of a queue that was not empty commutes with the push.
  pub front-push :
      (q : List A) (v : A)
      → (back (push q v) ≡ some v)
        × (front (push q v) ≡ some (or_else (front q) v))
        × (pop (push q v) ≡ some (or_else (Option.map (λ r. push r v) (pop q)) []))
  unfolding front push back pop
  front-push [] v = (refl, refl, refl)
  front-push (x ∷ []) v = (refl, refl, refl)
  front-push (x ∷ y ∷ q) v = ((front-push (y ∷ q) v).0, refl, refl)

  -- Popping the entries of a queue one by one and pushing each to another queue does what the
  -- splice does: they stand there last, in order, and the first queue is empty.
  pub drain_into-push_queue :
      (q ops : List A)
      → (drain_into q ops ≡ ([], (push_queue ops q).0)) × ((push_queue ops q).1 ≡ [])
  unfolding drain_into push_queue push
  drain_into-push_queue [] ops = (simp append-nil, refl)
  drain_into-push_queue (v ∷ q) ops =
      ((drain_into-push_queue q (ops ++ v ∷ [])).0 ∙ simp append_assoc, refl)

  pub push_converted-zero : (c q : List A) → push_converted 0 c q ≡ none
  unfolding push_converted
  push_converted-zero c q = refl

  pub push_converted-nil : (fuel : ℕ) (c : List A) → push_converted (suc fuel) c [] ≡ some c
  unfolding push_converted front
  push_converted-nil fuel c = refl

  pub push_converted_loops :
      (fuel : ℕ) (c : List A) (v : A) (q : List A) → push_converted fuel c (v ∷ q) ≡ none
  unfolding push_converted front
  push_converted_loops zero c v q = refl
  push_converted_loops (suc fuel) c v q = push_converted_loops fuel (push c v) v q

  -- The loop of the converting `push` ends exactly when its argument is empty.
  pub push_converted_ends :
      (c q : List A) → ((fuel : ℕ) × (r : List A) × (push_converted fuel c q ≡ some r)) ↔ (q ≡ [])
  unfolding push_converted front
  push_converted_ends c [] = ((λ _. refl), λ _. (1, c, refl))
  push_converted_ends c (v ∷ q) =
      ((λ h. ground (arith, push_converted_loops h.0 c v q, h.2)), λ e. ground arith)
