-- ===== src/SystemContext.antt =====
-- boost_asio/thread_group.hpp, system_context.hpp and system_context.cpp. A thread of the group is
-- given by whether it is joinable.
pub mod Laws
pub mod Global
mod Tests
use boost_asio.Base.{
  ℕ, zero, suc, ◌*◌, ◌%◌, ◌^◌, ◌==◌, ltb, if◌then◌else◌, Bool, true, false, not, ◌||◌, Option, none,
  some, List, [], ◌∷◌, ◌++◌,
}
use boost_asio.Scheduler.{
  Operation, handler, ThreadInfo, Scheduler, Memory, work_started, work_finished, stop,
}
use boost_asio.Scheduler.Run.{Environment, returned, thrown, stuck, no_fuel, run}

-- the loop of `create_threads`
unfoldable pub create_threads : ℕ → List Bool → List Bool
create_threads zero threads = threads
create_threads (suc n) threads = create_threads n (threads ++ true ∷ [])

-- The loop of `join`, which asks a joinable thread once more whether it is joinable.
unfoldable pub join_threads : List Bool → List Bool
join_threads [] = []
join_threads (t ∷ ts) = t ∷ join_threads ts

-- What the destructors of the threads do: that of a joinable one calls `std::terminate`.
unfoldable pub terminates : List Bool → Bool
terminates [] = false
terminates (t ∷ ts) = t || terminates ts

-- `~thread_group`
unfoldable pub destroy_group : List Bool → Bool
destroy_group threads = terminates (join_threads threads)

pub record SystemContext : Type 0 where
  pub sched : Scheduler
  pub threads : List Bool

-- `num_threads`, given `hardware_concurrency()`: an unsigned int as an int, 2 if it is 0; a negative
-- number makes no thread.
unfoldable pub num_threads : ℕ → ℕ
num_threads hardware =
    let n = hardware * 2 % 2 ^ 32 in if n == 0 then 2 else if ltb n (2 ^ 31) then n else 0

-- The scheduler that `use_service` makes: `new Service(owner_)` leaves the hint at its default, 1.
unfoldable pub context_scheduler : Memory → Scheduler
context_scheduler m = boost_asio.Scheduler.construct m 1

-- How a thread of the context ends: its function returns, or an exception leaves it, which
-- terminates the program.
pub data ThreadEnd (W : Type 0) : Type 0 where
  ended : Scheduler → W → ThreadEnd W
  terminated : ThreadEnd W

-- `thread_function::operator()`; `none` is a thread that does not end, or for which the fuel is used
-- up.
unfoldable pub thread_function :
    {W : Type 0} → Environment W → ℕ → ℕ → Scheduler → W → Option (ThreadEnd W)
thread_function env rounds fuel s w = elim (run env rounds fuel s w) [
  | returned n s' w' ↦ some (ended s' w')
  | thrown n s' w' ↦ some terminated
  | stuck ↦ none
  | no_fuel ↦ none
]

-- `system_context::system_context()`, given the scheduler that `use_service` makes
unfoldable pub construct : Scheduler → ℕ → SystemContext
construct s hardware = record {
  sched = work_started s;
  threads = create_threads (num_threads hardware) [];
}

unfoldable pub stop_context : SystemContext → SystemContext
stop_context c = record c { sched = stop c.sched }

unfoldable pub join : SystemContext → SystemContext
join c = record { sched = work_finished c.sched; threads = join_threads c.threads }

-- `~system_context`: the scheduler after its body, and whether destroying `threads_` terminates the
-- program.
unfoldable pub destroy : SystemContext → Scheduler × Bool
destroy c = let s = stop (work_finished c.sched) in (s, destroy_group (join_threads c.threads))
