-- ===== src/CallStack/Laws.antt =====
-- Which context boost_asio/call_stack.hpp finds.
use boost_asio.Base.{ℕ, ◌≡◌, refl, ◌↔◌, ◌≢◌, none, some, List, [], ◌∷◌, ◌++◌, arith}
use boost_asio.CallStack.{Context, enter, leave, contains, next_by_key}

module _ {ℓ} {V : Type ℓ} where
  -- No context of the list belongs to the key.
  abbrev pub IsAbsent : ℕ → List (Context V) → Type 0
  IsAbsent k [] = Unit
  IsAbsent k (c ∷ cs) = (c.key ≢ k) × IsAbsent k cs

  contains-below :
      (k : ℕ) (inner outer : List (Context V))
      → IsAbsent k inner
      → contains k (inner ++ outer) ≡ contains k outer
  unfolding contains
  contains-below k [] outer h = refl
  contains-below k (c ∷ cs) outer h = ground (arith, contains-below k cs outer h.1)

  next_by_key-contains :
      (c : Context V) (next : List (Context V)) → next_by_key c next ≡ contains c.key next
  unfolding next_by_key contains
  next_by_key-contains c [] = refl
  next_by_key-contains c (e ∷ next) = ground (arith, next_by_key-contains c next)

  -- Inside any contexts of other keys, `contains` finds the value that the innermost context of
  -- the key was entered with, `next_by_key` of that context finds the one that it hides, and
  -- leaving it brings that one back.
  pub contains_innermost :
      (k : ℕ) (v : V) (inner outer : List (Context V))
      → IsAbsent k inner
      → (contains k (inner ++ enter outer k v) ≡ some v)
        × (next_by_key (record { key = k; value = v }) outer ≡ contains k (leave (enter outer k v)))
  unfolding contains enter leave
  contains_innermost k v inner outer h = (
    ground (arith, contains-below k inner (record { key = k; value = v } ∷ outer) h),
    next_by_key-contains (record { key = k; value = v }) outer,
  )

  -- `contains` answers null exactly when the thread is in no context of the key.
  pub contains-none : (k : ℕ) (cs : List (Context V)) → (contains k cs ≡ none) ↔ IsAbsent k cs
  unfolding contains
  contains-none k [] = ((λ _. tt), λ _. refl)
  contains-none k (c ∷ cs) = (
    (λ e. ((λ q. ground arith), (contains-none k cs).0 (ground arith))),
    λ h. ground (arith, (contains-none k cs).1 h.1),
  )
