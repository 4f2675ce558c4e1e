-- ===== src/Joined.antt =====
-- The scheduler of boost_asio/scheduler.cc and the descriptors of boost_asio/epoll_reactor.cc
-- together: the threads of System, and in place of its counter of waiting operations the
-- descriptors with their queues. A thread that runs a descriptor_state calls `do_complete`;
-- handlers and threads outside register descriptors, start operations on them, cancel them and
-- deregister descriptors.
--
-- `do_complete` is a step where it is defined, which it is not if `perform_io` completes nothing.
-- `register_internal_descriptor` and `deregister_internal_descriptor` are no steps: nothing in the
-- program calls them, and the first puts an operation into a queue without `work_started`.
--
-- A descriptor_state is its place in a list. In a scheduler for several threads `cancel_ops` and
-- `deregister_descriptor` do the same in whichever thread they are called.
pub mod Moves
pub mod Refines
pub mod Drained
pub mod Conserved
mod Tests
use boost_asio.Base.{
  ℕ, ◌+◌, ◌≡◌, Bool, true, Option, none, some, List, [], ◌∷◌, ◌++◌, length, total, get_elem?, set,
}
use boost_asio.Scheduler.{handler, descriptor, ThreadInfo, Scheduler}
use boost_asio.Reactor.{
  Events, OpType, ReactorOp, DescriptorState, Kernel, Started, start_op, register_descriptor,
}
use boost_asio.Reactor.Io.{Completed, do_complete}
use boost_asio.Reactor.Closing.{Closed, cancel_ops, deregister_descriptor}
use boost_asio.System.{in_operation, Thread, System, Step, or_same}

-- The operations that wait at a descriptor.
abbrev pub queued : DescriptorState → ℕ
queued d = length d.op_queue.read + length d.op_queue.write + length d.op_queue.except

pub record Joined (W : Type 0) : Type 0 where
  pub sched : Scheduler
  pub threads : List Thread
  pub guards : ℕ
  pub descriptors : List DescriptorState
  pub world : W

-- What System keeps of it.
abbrev pub system : {W : Type 0} → Joined W → System
system j = record {
  sched = j.sched;
  threads = j.threads;
  outside = record { guards = j.guards; pending = total queued j.descriptors };
}

module _ {W : Type 0} where
  -- What the functions of the reactor leave, put back where they were called.
  abbrev pub after_complete : Joined W → ℕ → ℕ → ThreadInfo → ReactorOp → Completed W → Joined W
  after_complete j i d t op r = record j {
    sched = r.sched;
    threads =
        set j.threads i
          (record { pc = in_operation (handler op.address); info = or_same t r.thread });
    descriptors = set j.descriptors d r.state;
    world = r.world;
  }

  abbrev pub after_start : Joined W → ℕ → List Thread → Started W → Joined W
  after_start j d threads r = record j {
    sched = r.sched;
    threads = threads;
    descriptors = set j.descriptors d r.state;
    world = r.world;
  }

  abbrev pub after_closing : Joined W → ℕ → DescriptorState → Closed W → Joined W
  after_closing j d s r = record j {
    sched = r.sched;
    descriptors = set j.descriptors d s;
    world = r.world;
  }

-- How a call of `start_op` is made.
pub record Request : Type 0 where
  pub ty : OpType
  pub op : ReactorOp
  pub is_continuation : Bool
  pub allow_speculative : Bool

module _ {W : Type 0} (k : Kernel W) where
  abbrev pub request : Joined W → Option ThreadInfo → DescriptorState → Request → Started W
  request j t s q =
      start_op k (record { sched = j.sched; thread = t; is_continuation = q.is_continuation }) s
        q.ty q.op q.allow_speculative j.world

  pub data JoinedStep (j : Joined W) : Joined W → Type 0 where
    -- what leaves the descriptors alone
    other :
        {y : System}
        → Step (system j) y
        → y.outside.pending ≡ total queued j.descriptors
        → JoinedStep j
            (record j { sched = y.sched; threads = y.threads; guards = y.outside.guards })
    -- `do_complete`, where it is defined: its thread is in the operation that it runs.
    complete :
        (i d : ℕ) (events : Events) {t : ThreadInfo} {s : DescriptorState} {op : ReactorOp}
        {r : Completed W}
        → get_elem? j.threads i ≡ some (record { pc = in_operation (descriptor d); info = t })
        → get_elem? j.descriptors d ≡ some s
        → do_complete k true events j.sched (some t) s j.world ≡ some r
        → r.runs ≡ some op
        → JoinedStep j (after_complete j i d t op r)
    -- `start_op`, called by the handler `a`
    start :
        (i a d : ℕ) (q : Request) {t : ThreadInfo} {s : DescriptorState}
        → get_elem? j.threads i ≡ some (record { pc = in_operation (handler a); info = t })
        → get_elem? j.descriptors d ≡ some s
        → JoinedStep j (
            after_start j d
              (set j.threads i (record {
                pc = in_operation (handler a);
                info = or_same t (request j (some t) s q).thread;
              }))
              (request j (some t) s q))
    -- `start_op`, called outside of `run`
    start_outside :
        (d : ℕ) (q : Request) {s : DescriptorState}
        → get_elem? j.descriptors d ≡ some s
        → JoinedStep j (after_start j d j.threads (request j none s q))
    cancel :
        (d : ℕ) {s s' : DescriptorState}
        → get_elem? j.descriptors d ≡ some s
        → (cancel_ops j.sched none (some s) j.world).state ≡ some s'
        → JoinedStep j (after_closing j d s' (cancel_ops j.sched none (some s) j.world))
    -- a descriptor that is not shut down yet
    deregister :
        (d : ℕ) (closing : Bool) {s s' : DescriptorState}
        → get_elem? j.descriptors d ≡ some s
        → (deregister_descriptor k j.sched none (some s) closing j.world).state ≡ some s'
        → JoinedStep j
            (after_closing j d s' (deregister_descriptor k j.sched none (some s) closing j.world))
    register :
        (fd : ℕ)
        → JoinedStep j (record j {
          descriptors = j.descriptors ++ (register_descriptor k fd j.world).0 ∷ [];
          world = (register_descriptor k fd j.world).2;
        })

  pub data JoinedReach (j : Joined W) : Joined W → Type 0 where
    here : JoinedReach j j
    next : {l m : Joined W} → JoinedReach j l → JoinedStep l m → JoinedReach j m
