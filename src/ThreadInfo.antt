-- ===== src/ThreadInfo.antt =====
-- boost_asio/thread_info_base.hpp and the calls of it in boost_asio/recycling_allocator.hpp: a
-- thread keeps one block of 1024 bytes and lends it to one small allocation at a time. The address
-- that `::operator new` gives is an argument.
pub mod Laws
use boost_asio.Base.{
  ℕ, suc, ◌*◌, ◌%◌, ltb, if◌then◌else◌, Bool, true, false, not, ◌&&◌, Option, none, some, size_mod,
}

-- A pointer: the block of the thread at hand, or an address of the heap (or of another thread's
-- block).
pub data Pointer : Type 0 where
  storage : Pointer
  heap : ℕ → Pointer

pub record ThreadInfoBase : Type 0 where
  pub in_use : Bool

unfoldable pub new_thread_info : ThreadInfoBase
new_thread_info = record { in_use = false }

-- `sizeof(storage_)`
abbrev pub storage_size : ℕ
storage_size = 1024

abbrev pub is_storage : Pointer → Bool
is_storage storage = true
is_storage (heap a) = false

-- The thread's record may be null: then the heap serves.
unfoldable pub allocate : Option ThreadInfoBase → ℕ → ℕ → Option ThreadInfoBase × Pointer
allocate none size fresh = (none, heap fresh)
allocate (some t) size fresh =
    if not t.in_use && ltb size storage_size
    then (some (record { in_use = true }), storage)
    else (some t, heap fresh)

-- The thread afterwards, and the pointer that goes to `::operator delete`, if one does.
unfoldable pub deallocate :
    Option ThreadInfoBase → Pointer → ℕ → Option ThreadInfoBase × Option Pointer
deallocate none p size = (none, some p)
deallocate (some t) p size =
    if is_storage p && ltb size storage_size
    then (some (record { in_use = false }), none)
    else (some t, some p)

-- `recycling_allocator<T>::allocate(n)` and `deallocate(p, n)`, on the record that the thread's
-- call stack has on top
unfoldable pub recycling_allocate :
    ℕ → Option ThreadInfoBase → ℕ → ℕ → Option ThreadInfoBase × Pointer
recycling_allocate size_of_type top n fresh = allocate top (size_of_type * n % size_mod) fresh

unfoldable pub recycling_deallocate :
    ℕ → Option ThreadInfoBase → Pointer → ℕ → Option ThreadInfoBase × Option Pointer
recycling_deallocate size_of_type top p n = deallocate top p (size_of_type * n % size_mod)
