-- ===== src/Buffer/Laws.antt =====
-- Bounds and emptiness of the arrays of boost_asio/buffer_sequence_adapter.hpp.
use boost_asio.Base.{
  ℕ, zero, suc, ◌+◌, ◌%◌, ◌≤◌, ◌<◌, ◌≡◌, refl, ap, ◌∙◌, ltb, true, false, List, [], ◌∷◌, ◌++◌,
  length, take, total, append-nil, append_assoc, size_mod, arith,
}
use boost_asio.Buffer.{Buffer, max_buffers, Adapter, add_buffer, init, empty_adapter}

abbrev pub size : Buffer → ℕ
size b = b.size

-- What the loop of `init` does from an adapter with `count` buffers.
init-take :
    (a : Adapter) (bs : List Buffer) (room : ℕ)
    → a.count + room ≡ max_buffers
    → a.total_buffer_size < size_mod
    → ((init a bs).buffers ≡ a.buffers ++ take room bs)
      × ((init a bs).count ≡ a.count + length (take room bs))
      × ((init a bs).total_buffer_size
          ≡ (a.total_buffer_size + total size (take room bs)) % size_mod)
unfolding init add_buffer
init-take a [] zero h lt = (simp append-nil, omega arith, omega arith)
init-take a [] (suc room) h lt = (simp append-nil, omega arith, omega arith)
init-take a (b ∷ bs) zero h lt =
    let full : ltb a.count max_buffers ≡ false = ground arith in
    rw full (simp append-nil, omega arith, omega arith)
init-take a (b ∷ bs) (suc room) h lt =
    let free : ltb a.count max_buffers ≡ true = ground arith in
    let (buffers, count, sizes) = init-take (add_buffer a b) bs room (omega arith) (omega arith) in
    rw free (
      buffers ∙ append_assoc a.buffers (b ∷ []) (take room bs),
      omega (arith, count),
      omega (arith, sizes),
    )

length-take-le : (n : ℕ) (bs : List Buffer) → length (take n bs) ≤ n
length-take-le zero bs = omega arith
length-take-le (suc n) [] = omega arith
length-take-le (suc n) (b ∷ bs) = omega (arith, length-take-le n bs)

-- The array gets the first 16 buffers of a sequence, or all if there are fewer, and never more than
-- it has room for; the total is the sum of their sizes modulo 2 ^ 64.
pub init_lem :
    (bs : List Buffer)
    → ((init empty_adapter bs).buffers ≡ take max_buffers bs)
      × ((init empty_adapter bs).count ≡ length (init empty_adapter bs).buffers)
      × ((init empty_adapter bs).count ≤ 16)
      × ((init empty_adapter bs).total_buffer_size ≡ total size (take max_buffers bs) % size_mod)
init_lem bs =
    let (buffers, count, sizes) = init-take empty_adapter bs max_buffers refl (omega arith) in
    (
      buffers,
      omega (arith, count, ap length buffers),
      omega (arith, count, length-take-le max_buffers bs),
      omega (arith, sizes),
    )
