-- ===== src/Joined/Conserved.antt =====
-- The handlers and the reactor's operations, over boost_asio/scheduler.cc and
-- boost_asio/epoll_reactor.cc together: what a step begins and what it finishes.
pub mod Moves
pub mod Laws
use boost_asio.Base.{ℕ, ◌+◌, List, [], ◌∷◌, ◌++◌, total}
use boost_asio.Reactor.{ReactorOp, PerType, DescriptorState, Kernel}
use boost_asio.Reactor.Io.Laws.{addresses}
use boost_asio.System.Conserved.{count, held, posted_by_step, finished_by_step}
use boost_asio.Joined.{Joined, system, JoinedStep, JoinedReach}

-- How often the operation at an address waits at a descriptor.
abbrev pub waits_in : ℕ → PerType (List ReactorOp) → ℕ
waits_in x q =
    count x (addresses q.read) + count x (addresses q.write) + count x (addresses q.except)

abbrev pub waits_at : ℕ → DescriptorState → ℕ
waits_at x d = waits_in x d.op_queue

module _ {W : Type 0} where
  -- How often it waits, is queued or is running.
  abbrev pub joined_held : ℕ → Joined W → ℕ
  joined_held x j = held x (system j) + total (waits_at x) j.descriptors

module _ {W : Type 0} {k : Kernel W} where
  -- The handlers that are posted, and the operations that are given to `start_op`.
  abbrev pub begun_by : {j j' : Joined W} → JoinedStep k j j' → List ℕ
  begun_by (JoinedStep.other st same) = posted_by_step st
  begun_by (JoinedStep.start i a d q at_i at_d) = q.op.address ∷ []
  begun_by (JoinedStep.start_outside d q at_d) = q.op.address ∷ []
  begun_by _ = []

  abbrev pub finished_by : {j j' : Joined W} → JoinedStep k j j' → List ℕ
  finished_by (JoinedStep.other st same) = finished_by_step st
  finished_by _ = []

  -- All of them on the way to a state, the latest first.
  abbrev pub begun : {j j' : Joined W} → JoinedReach k j j' → List ℕ
  begun JoinedReach.here = []
  begun (JoinedReach.next r st) = begun_by st ++ begun r

  abbrev pub joined_finished : {j j' : Joined W} → JoinedReach k j j' → List ℕ
  joined_finished JoinedReach.here = []
  joined_finished (JoinedReach.next r st) = finished_by st ++ joined_finished r
