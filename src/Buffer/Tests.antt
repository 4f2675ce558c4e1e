-- ===== src/Buffer/Tests.antt =====
-- Three pieces of memory, the first of them empty.
use boost_asio.Base.{ℕ, ◌≤◌, ◌%◌, ◌≡◌, List, [], ◌∷◌, length, take, total, size_mod}
use boost_asio.Buffer.{Buffer, max_buffers, init, empty_adapter}
use boost_asio.Buffer.Laws.{init_lem, size}

abbrev piece : ℕ → ℕ → Buffer
piece address size = record { address = address; size = size }

abbrev pieces : List Buffer
pieces = piece 64 0 ∷ piece 128 10 ∷ piece 256 5 ∷ []

init_lem_example :
    ((init empty_adapter pieces).buffers ≡ take max_buffers pieces)
    × ((init empty_adapter pieces).count ≡ length (init empty_adapter pieces).buffers)
    × ((init empty_adapter pieces).count ≤ 16)
    × ((init empty_adapter pieces).total_buffer_size
        ≡ total size (take max_buffers pieces) % size_mod)
init_lem_example = init_lem pieces
