-- ===== src/AssociatedExecutor.antt =====
-- The templates that choose the executor of a handler: boost_asio/is_executor.hpp,
-- boost_asio/associated_executor.hpp and `make_work_guard` of boost_asio/executor_work_guard.hpp. A
-- type is what the templates ask of it, and a program that a `static_assert` rejects is `none`.
pub mod Laws
use boost_asio.Base.{if◌then◌else◌, Bool, true, false, ◌&&◌, ◌≡◌, Option, none, some}

-- Which of the names that `is_executor_class` looks for a class has.
pub record Members : Type 0 where
  pub context : Bool
  pub on_work_started : Bool
  pub on_work_finished : Bool
  pub dispatch : Bool
  pub post : Bool
  pub defer : Bool

unfoldable pub is_executor_class : Members → Bool
is_executor_class m =
    m.context && m.on_work_started && m.on_work_finished && m.dispatch && m.post && m.defer

-- A type that stands where an executor may.
pub data ExecutorType : Type 0 where
  class_with : Members → ExecutorType
  no_class : ExecutorType

unfoldable pub is_executor : ExecutorType → Bool
is_executor (class_with m) = is_executor_class m
is_executor no_class = false

-- A type as `associated_executor` sees it: its `executor_type`, whether it has a member function
-- `get_executor`, and whether it converts to `execution_context&`.
pub record Associating : Type 0 where
  pub executor_type : Option ExecutorType
  pub has_get_executor : Bool
  pub is_context : Bool

-- `get_associated_executor` with an executor that is used if the type has none.
unfoldable pub get_associated_executor : Associating → ExecutorType → Option ExecutorType
get_associated_executor t ex = elim t.executor_type [
  | none ↦ if is_executor ex then some ex else none
  | some own ↦ if t.is_context && t.has_get_executor && is_executor own then some own else none
]

-- The executor whose guard `make_work_guard(t, e)` makes, given `T` as an executor and as a type
-- with an associated one.
unfoldable pub make_work_guard : ExecutorType → Associating → ExecutorType → Option ExecutorType
make_work_guard self t e = if is_executor self then some self else elim t.executor_type [
  | none ↦ some e
  | some own ↦ if t.is_context && t.has_get_executor then some own else none
]
