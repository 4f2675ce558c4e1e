-- ===== src/ThreadInfo/Laws.antt =====
-- The block of boost_asio/thread_info_base.hpp is lent to one allocation at a time and comes back.
use boost_asio.Base.{ℕ, ◌<◌, ◌≡◌, refl, ◌↔◌, false, Option, none, some, arith}
use boost_asio.ThreadInfo.{
  Pointer, storage, heap, ThreadInfoBase, storage_size, allocate, deallocate, recycling_allocate,
  recycling_deallocate,
}

-- The pointers that go to `::operator delete` when `p` is given back.
abbrev pub deleted : Pointer → Option Pointer
deleted storage = none
deleted (heap a) = some (heap a)

-- What `recycling_allocator` allocates it can give back: with an allocation of the same number of
-- elements the thread's record is as before, and `::operator delete` gets exactly what
-- `::operator new` gave, whichever thread record was on top, or none.
pub recycling_deallocate-recycling_allocate :
    (size_of_type n fresh : ℕ) (top : Option ThreadInfoBase)
    → let r = recycling_allocate size_of_type top n fresh in
      recycling_deallocate size_of_type r.0 r.1 n ≡ (top, deleted r.1)
unfolding recycling_deallocate recycling_allocate allocate deallocate
recycling_deallocate-recycling_allocate k n fresh none = refl
recycling_deallocate-recycling_allocate k n fresh (some (t)) = ground arith

-- A request gets the thread's block exactly when nobody has it and the request is below its size.
pub allocate-storage_iff :
    (t : ThreadInfoBase) (size fresh : ℕ)
    → ((allocate (some t) size fresh).1 ≡ storage) ↔ ((t.in_use ≡ false) × (size < storage_size))
unfolding allocate
allocate-storage_iff t size fresh =
    ((λ e. (ground arith, ground arith)), λ h. ground (arith, h.0, h.1))

-- Once the block is lent every request goes to the heap and changes nothing, until a pointer to the
-- block is given back with the size that it was asked for.
pub allocate_once :
    (t : ThreadInfoBase) (size fresh size' fresh' : ℕ)
    → t.in_use ≡ false
    → size < storage_size
    → let r = allocate (some t) size fresh in
      (r.1 ≡ storage)
      × (allocate r.0 size' fresh' ≡ (r.0, heap fresh'))
      × (deallocate r.0 storage size ≡ (some t, none))
unfolding allocate deallocate
allocate_once t size fresh size' fresh' u lt = (ground arith, ground arith, ground arith)
