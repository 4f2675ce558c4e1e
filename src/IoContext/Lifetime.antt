-- ===== src/IoContext/Lifetime.antt =====
-- boost_asio/io_context.cc: an io_context from its constructor to the end of `run`, with operations
-- that are posted to its scheduler in between. The program has no other way to post them: `post`,
-- `defer` and `dispatch` of the executor name a member of executor_op that it does not have, and no
-- program that uses them compiles.
pub mod Laws
mod Tests
use boost_asio.Base.{ℕ, ◌+◌, ◌%◌, ◌^◌, ◌==◌, Bool, false, not, Option, none, some, List, [], ◌∷◌}
use boost_asio.Base.Ends.{Ends, returns, throws, undefined, throw_error}
use boost_asio.Scheduler.{handler, Scheduler, Memory, construct, post_immediate_completion}
use boost_asio.Scheduler.Run.{Environment, RunResult, returned, thrown, stuck, no_fuel, run}
use boost_asio.ServiceRegistry.{Services, make_service}

-- Its services, with the key of the scheduler's class, and `impl_`.
pub record IoContext : Type 0 where
  pub services : Services
  pub impl : Scheduler

-- `add_impl`, into the registry of the new context; the address of the scheduler is given.
unfoldable pub add_impl : ℕ → ℕ → Scheduler → Ends IoContext
add_impl key address s = elim (make_service [] key address) [
  | none ↦ undefined
  | some r ↦ returns (record { services = r.1; impl = s })
]

-- `io_context(concurrency_hint)`
unfoldable pub io_context_hint : ℕ → ℕ → Memory → ℕ → Ends IoContext
io_context_hint key address m concurrency_hint = add_impl key address (construct m concurrency_hint)

-- `io_context()`: `1 + std::thread::hardware_concurrency()` is unsigned.
unfoldable pub io_context_default : ℕ → ℕ → Memory → ℕ → Ends IoContext
io_context_default key address m hardware_concurrency =
    add_impl key address (construct m ((1 + hardware_concurrency) % 2 ^ 32))

-- EDEADLK, which `lock()` throws for a mutex that is held
abbrev pub deadlock : ℕ
deadlock = 35

-- `ec` behind `impl_.run(ec)`, which clears it and hands it on as a const reference
abbrev pub run_error : ℕ
run_error = 0

-- `io_context::run`; `none` is a call that does not return, or one for which the fuel is used up.
unfoldable pub io_run :
    {W : Type 0} → Environment W → ℕ → ℕ → IoContext → W → Option (Ends (ℕ × IoContext × W))
io_run env rounds fuel c w = elim (run env rounds fuel c.impl w) [
  | returned n s w' ↦
      some (throw_error (not (run_error == 0)) run_error (returns (n, record c { impl = s }, w')))
  | thrown n s w' ↦ some (throws deadlock)
  | stuck ↦ none
  | no_fuel ↦ none
]

-- Operations that are posted to the scheduler of the context from outside of `run`, one after the
-- other.
pub post_each : List ℕ → Scheduler → Scheduler
post_each [] s = s
post_each (a ∷ ops) s = post_each ops (post_immediate_completion s none (handler a) false).0
