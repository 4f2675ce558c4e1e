-- ===== src/Joined/Drained.antt =====
-- What the count of work of boost_asio/scheduler.cc says of the reactor's queues.
use boost_asio.Base.{ℕ, inl, inr, []}
use mathlib.Core.Path.{subst}
use boost_asio.Reactor.{Kernel}
use boost_asio.System.{Reach}
use boost_asio.System.Drained.{start_system}
use boost_asio.Joined.{Joined, system, JoinedReach}
use boost_asio.Joined.Refines.{JoinedStep-Step}

-- The scheduler and the reactor together, from no threads and no descriptors; the members that the
-- scheduler's constructor leaves uninitialised hold 0 and false.
abbrev pub start_joined : {W : Type 0} → ℕ → W → Joined W
start_joined hint w = record {
  sched = (start_system hint).sched;
  threads = [];
  guards = 0;
  descriptors = [];
  world = w;
}

module _ {W : Type 0} (k : Kernel W) where
  -- Whatever the scheduler and the reactor reach together, System reaches: its count of operations
  -- that wait is the sum of the descriptors' queues.
  pub JoinedReach-Reach : {j j' : Joined W} → JoinedReach k j j' → Reach (system j) (system j')
  JoinedReach-Reach JoinedReach.here = Reach.here
  JoinedReach-Reach {j} (JoinedReach.next r st) = elim (JoinedStep-Step k st) [
    | inl one ↦ Reach.next (JoinedReach-Reach r) one
    | inr same ↦ subst (Reach (system j)) same (JoinedReach-Reach r)
  ]
