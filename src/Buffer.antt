-- ===== src/Buffer.antt =====
-- boost_asio/buffer.hpp and boost_asio/buffer_sequence_adapter.hpp: a piece of memory by its
-- address and size, and the array of at most 16 of them that a system call gets.
pub mod Laws
mod Tests
use boost_asio.Base.{
  ℕ, zero, suc, ◌+◌, ◌-◌, ◌%◌, ◌==◌, ltb, if◌then◌else◌, Bool, true, false, not, ◌&&◌, List, [],
  ◌∷◌, ◌++◌, size_mod,
}

-- `mutable_buffer` and `const_buffer`; an `iovec` of the array has the same two members.
pub record Buffer : Type 0 where
  pub address : ℕ
  pub size : ℕ

-- `Buffer()`
abbrev pub null_buffer : Buffer
null_buffer = record { address = 0; size = 0 }

-- `operator+=`
unfoldable pub advance : Buffer → ℕ → Buffer
advance b n =
    let offset = if ltb n b.size then n else b.size in
    record { address = b.address + offset; size = b.size - offset }

-- `max_buffers`, with `max_iov_len`
abbrev pub max_iov_len : ℕ
max_iov_len = 16

abbrev pub max_buffers : ℕ
max_buffers = if ltb 64 max_iov_len then 64 else max_iov_len

-- The entries of `buffers_` that are written, in order, `count_` and `total_buffer_size_`.
pub record Adapter : Type 0 where
  pub buffers : List Buffer
  pub count : ℕ
  pub total_buffer_size : ℕ

-- `init_native_buffer(buffers_[count_], buffer)` with what the loop counts
unfoldable pub add_buffer : Adapter → Buffer → Adapter
add_buffer a b = record {
  buffers = a.buffers ++ b ∷ [];
  count = suc a.count;
  total_buffer_size = (a.total_buffer_size + b.size) % size_mod;
}

-- the loop of `init`
unfoldable pub init : Adapter → List Buffer → Adapter
init a [] = a
init a (b ∷ bs) = let rest = init (add_buffer a b) bs in if ltb a.count max_buffers then rest else a

abbrev pub empty_adapter : Adapter
empty_adapter = record { buffers = []; count = 0; total_buffer_size = 0 }

unfoldable pub all_empty : Adapter → Bool
all_empty a = a.total_buffer_size == 0

-- the loop of `first(begin, end)`
unfoldable pub first : List Buffer → Buffer
first [] = null_buffer
first (b ∷ bs) = let rest = first bs in if not (b.size == 0) then b else rest
