-- ===== src/IoContext.antt =====
-- boost_asio/executor_work_guard.hpp with the executor of boost_asio/io_context.hpp, whose
-- `on_work_started` and `on_work_finished` are those of the scheduler.
pub mod Laws
pub mod Lifetime
mod Tests
use boost_asio.Base.{
  ℕ, if◌then◌else◌, Bool, true, false, Option, none, some, List, [], ◌∷◌, ◌++◌, get_elem?, set,
}
use boost_asio.Scheduler.{
  handler, ThreadInfo, Scheduler, can_dispatch, post_immediate_completion, work_started,
  work_finished,
}

-- A scheduler and the guards on it, each by its `owns_`; the one that is destroyed stays with false.
pub record Guarded : Type 0 where
  pub sched : Scheduler
  pub guards : List Bool

-- the constructors, the destructor and `reset`
pub data GuardCall : Type 0 where
  make : GuardCall
  copy move destroy reset : ℕ → GuardCall

unfoldable pub started_if : Bool → Scheduler → Scheduler
started_if owns s = if owns then work_started s else s

unfoldable pub finished_if : Bool → Scheduler → Scheduler
finished_if owns s = if owns then work_finished s else s

-- A call on a guard that there is not changes nothing.
unfoldable pub call_guard : Guarded → GuardCall → Guarded
call_guard g make = record { sched = work_started g.sched; guards = true ∷ g.guards }
call_guard g (copy i) = elim (get_elem? g.guards i) [
  | none ↦ g
  | some owns ↦ record { sched = started_if owns g.sched; guards = owns ∷ g.guards }
]
call_guard g (move i) = elim (get_elem? g.guards i) [
  | none ↦ g
  | some owns ↦ record g { guards = owns ∷ set g.guards i false }
]
call_guard g (destroy i) = elim (get_elem? g.guards i) [
  | none ↦ g
  | some owns ↦ record { sched = finished_if owns g.sched; guards = set g.guards i false }
]
call_guard g (reset i) = elim (get_elem? g.guards i) [
  | none ↦ g
  | some owns ↦ record g { sched = finished_if owns g.sched }
]

pub call_guards : Guarded → List GuardCall → Guarded
call_guards g [] = g
call_guards g (c ∷ cs) = call_guards (call_guard g c) cs
