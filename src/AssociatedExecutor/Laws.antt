-- ===== src/AssociatedExecutor/Laws.antt =====
-- Which executor `make_work_guard` of boost_asio/executor_work_guard.hpp guards.
use boost_asio.Base.{if◌then◌else◌, false, ◌≡◌, none, some, arith}
use boost_asio.AssociatedExecutor.{
  ExecutorType, is_executor, Associating, get_associated_executor, make_work_guard,
}

-- For a `T` that is no executor itself, `get_associated_executor` gives the executor that
-- `make_work_guard` guards, where that is an executor, and refuses the program otherwise.
pub get_associated_executor-make_work_guard :
    (self : ExecutorType) (t : Associating) (ex : ExecutorType)
    → is_executor self ≡ false
    → get_associated_executor t ex ≡ elim (make_work_guard self t ex) [
      | none ↦ none
      | some e ↦ if is_executor e then some e else none
    ]
unfolding get_associated_executor make_work_guard
get_associated_executor-make_work_guard self t ex h = ground arith
