-- ===== src/CallStack.antt =====
-- boost_asio/call_stack.hpp: the contexts that a thread is inside of, innermost first. The list is
-- what hangs off the thread's `top_`; the tail of a context is its `next_`.
pub mod Laws
mod Tests
use boost_asio.Base.{ℕ, ◌==◌, if◌then◌else◌, Option, none, some, List, [], ◌∷◌}

-- `call_stack::context`, without its link
pub record Context {ℓ} (V : Type ℓ) : Type ℓ where
  pub key : ℕ
  pub value : V

module _ {ℓ} {V : Type ℓ} where
  -- the constructor `context(Key* k, Value& v)`, which makes itself the top
  pub enter : List (Context V) → ℕ → V → List (Context V)
  enter top k v = record { key = k; value = v } ∷ top

  -- the destructor: `top_ = next_`
  pub leave : List (Context V) → List (Context V)
  leave [] = []
  leave (c ∷ next) = next

  pub contains : ℕ → List (Context V) → Option V
  contains k [] = none
  contains k (elem ∷ next) = if elem.key == k then some elem.value else contains k next

  -- from a context and what lies below it
  pub next_by_key : Context V → List (Context V) → Option V
  next_by_key c [] = none
  next_by_key c (elem ∷ next) = if elem.key == c.key then some elem.value else next_by_key c next

  pub top : List (Context V) → Option V
  top [] = none
  top (c ∷ next) = some c.value
