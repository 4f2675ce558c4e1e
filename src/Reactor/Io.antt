-- ===== src/Reactor/Io.antt =====
-- The part of boost_asio/epoll_reactor.cc that runs when descriptors are ready:
-- `epoll_reactor::run`, `descriptor_state::perform_io` with its cleanup, and
-- `descriptor_state::do_complete`.
pub mod Laws
pub mod Delivery
use boost_asio.Base.{
  ℕ, zero, suc, ◌+◌, ◌-◌, ◌/◌, ◌%◌, ◌^◌, ◌==◌, ltb, if◌then◌else◌, Bool, true, false, not, ◌&&◌,
  ◌||◌, Option, none, some, List, [], ◌∷◌, ◌++◌, map,
}
use boost_asio.OpQueue.{front, push, pop, is_enqueued}
use boost_asio.Scheduler.{
  Operation, task_operation, handler, descriptor, ThreadInfo, Scheduler, compensating_work_started,
  post_deferred_completions,
}
use boost_asio.Reactor.{
  Events, no_events, either, OpType, read_op, write_op, except_op, Status, not_done, done,
  done_and_exhausted, ReactorOp, PerType, at, put, DescriptorState, Kernel, no_ops,
}

-- The queue of one type after the inner loop: what is left, what was completed in order, and whether
-- the last one exhausted the descriptor.
pub record Drained (W : Type 0) : Type 0 where
  pub left : List ReactorOp
  pub completed : List ReactorOp
  pub exhausted : Bool
  pub world : W

abbrev pub performed : ReactorOp → ℕ → ℕ → ReactorOp
performed op ec bytes = record op { ec = ec; bytes_transferred = bytes }

module _ {W : Type 0} where
  -- One round, with what the rest of the loop gives from the state `w`.
  unfoldable pub after_perform :
      ReactorOp → List ReactorOp → (W → Drained W) → Status × ℕ × ℕ × W → Drained W
  after_perform op q rest (not_done, ec, bytes, w) = record {
    left = performed op ec bytes ∷ q;
    completed = [];
    exhausted = false;
    world = w;
  }
  after_perform op q rest (done, ec, bytes, w) =
      let r = rest w in record r { completed = performed op ec bytes ∷ r.completed }
  after_perform op q rest (done_and_exhausted, ec, bytes, w) = record {
    left = q;
    completed = performed op ec bytes ∷ [];
    exhausted = true;
    world = w;
  }

  -- `while (reactor_op* op = op_queue_[j].front())`
  unfoldable pub perform_queue : Kernel W → List ReactorOp → W → Drained W
  perform_queue k [] w = record { left = []; completed = []; exhausted = false; world = w }
  perform_queue k (op ∷ q) w = after_perform op q (perform_queue k q) (k.perform op w)

-- `events & (flag[j] | EPOLLERR | EPOLLHUP)`
abbrev pub is_flagged : Events → OpType → Bool
is_flagged e read_op = e.epollin || (e.epollerr || e.epollhup)
is_flagged e write_op = e.epollout || (e.epollerr || e.epollhup)
is_flagged e except_op = e.epollpri || (e.epollerr || e.epollhup)

-- A descriptor with the operations that were completed so far.
pub record Progress (W : Type 0) : Type 0 where
  pub state : DescriptorState
  pub ops : List ReactorOp
  pub world : W

module _ {W : Type 0} (k : Kernel W) where
  -- one round of `for (int j = max_ops - 1; j >= 0; --j)`
  unfoldable pub perform_type : Events → OpType → Progress W → Progress W
  perform_type events ty p =
      let r = perform_queue k (at p.state.op_queue ty) p.world in
      if is_flagged events ty
      then record {
        state = record p.state {
          op_queue = put p.state.op_queue ty r.left;
          try_speculative = put p.state.try_speculative ty (not r.exhausted);
        };
        ops = p.ops ++ r.completed;
        world = r.world;
      }
      else p

  -- the loop, from except_op down to read_op
  unfoldable pub perform_all : Events → DescriptorState → W → Progress W
  perform_all events d w = perform_type events read_op (
      perform_type events write_op
        (perform_type events except_op (record { state = d; ops = []; world = w })))

-- `perform_io` up to its cleanup: the descriptor, the first operation, and what `io_cleanup.ops_`
-- holds after its `pop`.
pub record Performed (W : Type 0) : Type 0 where
  pub state : DescriptorState
  pub first_op : Option ReactorOp
  pub ops : List ReactorOp
  pub world : W

-- `io_cleanup.ops_.pop()` is undefined (`none`) on an empty queue.
unfoldable pub take_first : {W : Type 0} → Progress W → Option (Performed W)
take_first p = elim (pop p.ops) [
  | none ↦ none
  | some ops ↦ some (record { state = p.state; first_op = front p.ops; ops = ops; world = p.world })
]

unfoldable pub perform_io :
    {W : Type 0} → Kernel W → Events → DescriptorState → W → Option (Performed W)
perform_io k events d w = take_first (perform_all k events d w)

abbrev pub handlers : List ReactorOp → List Operation
handlers = map (λ op. handler op.address)

-- `~perform_io_cleanup_on_block_exit`
unfoldable pub io_cleanup :
    Scheduler
    → Option ThreadInfo
    → Option ReactorOp
    → List ReactorOp
    → Scheduler × Option ThreadInfo
io_cleanup s t none ops = (s, compensating_work_started t)
io_cleanup s t (some op) [] = (s, t)
io_cleanup s t (some op) (o ∷ ops) =
    let r = post_deferred_completions s t (handlers (o ∷ ops)) in (r.0, r.1)

pub record Completed (W : Type 0) : Type 0 where
  pub sched : Scheduler
  pub thread : Option ThreadInfo
  pub state : DescriptorState
  pub runs : Option ReactorOp  -- the operation whose `complete` is called, with error `ec` and 0 bytes
  pub world : W

-- `do_complete` from where `perform_io` is called, with the cleanup that ends `perform_io`
unfoldable pub after_perform_io :
    {W : Type 0} → Scheduler → Option ThreadInfo → Option (Performed W) → Option (Completed W)
after_perform_io s t none = none
after_perform_io s t (some p) =
    let r = io_cleanup s t p.first_op p.ops in
    some (record { sched = r.0; thread = r.1; state = p.state; runs = p.first_op; world = p.world })

-- `do_complete`, called by the scheduler (`owner`) or by `destroy`; `none` is undefined.
unfoldable pub do_complete :
    {W : Type 0}
    → Kernel W
    → (owner : Bool) → Events
    → Scheduler
    → Option ThreadInfo
    → DescriptorState
    → W
    → Option (Completed W)
do_complete k false events s t d w =
    some (record { sched = s; thread = t; state = d; runs = none; world = w })
do_complete k true events s t d w = after_perform_io s t (perform_io k events d w)

-- A long is here a sign and a magnitude; an int is its 32-bit pattern.
pub data Microseconds : Type 0 where
  negative : Microseconds
  usec : ℕ → Microseconds

-- The timeout of `epoll_wait` in milliseconds; -1 waits without end.
pub timeout : Microseconds → ℕ
timeout negative = 2 ^ 32 - 1
timeout (usec zero) = 0
timeout (usec (suc n)) = (n / 1000 + 1) % 2 ^ 32

-- An entry of the array that `epoll_wait` fills.
pub data Ready : Type 0 where
  interrupter : Ready
  ready : ℕ → Events → Ready

abbrev pub same_operation : Operation → Operation → Bool
same_operation (descriptor a) (descriptor b) = a == b
same_operation (handler a) (handler b) = a == b
same_operation task_operation task_operation = true
same_operation _ _ = false

-- `task_result_` of the descriptors
abbrev pub Results : Type 0
Results = ℕ → Events

abbrev pub set_result : Results → ℕ → Events → Results
set_result r d e j = if j == d then e else r j

-- `set_ready_events` and `add_ready_events`
unfoldable pub run_event : Ready → List Operation → Results → List Operation × Results
run_event interrupter ops r = (ops, r)
run_event (ready d e) ops r =
    if not (is_enqueued same_operation ops (descriptor d))
    then (push ops (descriptor d), set_result r d e)
    else (ops, set_result r d (either (r d) e))

-- `epoll_reactor::run`, from what `epoll_wait` has found: at most 128 entries
unfoldable pub run : List Ready → List Operation → Results → List Operation × Results
run [] ops r = (ops, r)
run (e ∷ events) ops r = let (ops', r') = run_event e ops r in run events ops' r'
