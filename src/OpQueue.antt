-- ===== src/OpQueue.antt =====
-- boost_asio/op_queue.hpp: a `std::queue` of pointers over a `std::list`. The head of the list is
-- the front; `none` is the null pointer that `front` and `back` return on an empty queue.
pub mod Laws
use boost_asio.Base.{ℕ, zero, suc, Bool, true, false, ◌||◌, Option, none, some, List, [], ◌∷◌, ◌++◌}

module _ {ℓ} {A : Type ℓ} where
  unfoldable pub front : List A → Option A
  front [] = none
  front (x ∷ q) = some x

  pub back : List A → Option A
  back [] = none
  back (x ∷ []) = some x
  back (x ∷ y ∷ q) = back (y ∷ q)

  -- `std::queue::push`, the overload that the class keeps
  unfoldable pub push : List A → A → List A
  push q v = q ++ v ∷ []

  -- `std::queue::pop`; on an empty list it is undefined behaviour, `none`.
  unfoldable pub pop : List A → Option (List A)
  pop [] = none
  pop (x ∷ q) = some q

  -- `push(op_queue& q)`: this queue and `q` afterwards.
  unfoldable pub push_queue : List A → List A → List A × List A
  push_queue c q = (c ++ q, [])

  unfoldable pub is_enqueued : (A → A → Bool) → List A → A → Bool
  is_enqueued same [] v = false
  is_enqueued same (x ∷ q) v = same x v || is_enqueued same q v

  -- The template `push(op_queue<U>& q)`: `while (auto v = q.front()) this->push(v)`, on fuel; this
  -- queue when the loop ends.
  pub push_converted : ℕ → List A → List A → Option (List A)
  push_converted zero c q = none
  push_converted (suc fuel) c q = elim (front q) [
    | none ↦ some c
    | some v ↦ push_converted fuel (push c v) q
  ]

  -- `while (T* v = q.front()) { q.pop(); ops.push(v); }`: the queues `q` and `ops` when the loop
  -- ends. Each round takes one entry off `q`.
  unfoldable pub drain_into : List A → List A → List A × List A
  drain_into [] ops = ([], ops)
  drain_into (v ∷ q) ops = drain_into q (push ops v)
