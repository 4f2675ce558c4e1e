-- ===== src/Scheduler.antt =====
-- boost_asio/scheduler.hpp and scheduler.cc, with the operations of scheduler_operation.hpp and the
-- per-thread record of scheduler_thread_info.hpp. Here are the operations that post work, wake
-- threads and stop; the child Run has the loop that runs handlers.
--
-- Each operation is one function on the scheduler's state. What lies between locking and unlocking
-- the mutex happens at once, so the mutex is no field; where a function takes or leaves the lock
-- held that is part of its result.
pub mod Run
pub mod Fields
pub mod Posting
pub mod Running
pub mod Order
mod Tests
use boost_asio.Base.{
  ℕ, suc, ◌+◌, ◌-◌, ◌%◌, ◌==◌, if◌then◌else◌, Bool, true, false, not, ◌&&◌, ◌||◌, Option, none,
  some, List, [], ◌∷◌, size_mod,
}
use boost_asio.OpQueue.{push, push_queue}
use boost_asio.Event.{Event, new_event, signal_all, maybe_unlock_and_signal_one}

-- `scheduler_operation*`: the scheduler's own `task_operation_`, an operation with a handler (an
-- executor_op or a reactor_op), or a descriptor_state of the reactor; the last two by address.
pub data Operation : Type 0 where
  task_operation : Operation
  handler : ℕ → Operation
  descriptor : ℕ → Operation

-- `scheduler_thread_info`
pub record ThreadInfo : Type 0 where
  pub private_op_queue : List Operation
  pub private_outstanding_work : ℕ

pub record Scheduler : Type 0 where
  pub one_thread : Bool
  pub concurrency_hint : ℕ
  pub wakeup_event : Event
  pub task : Bool  -- `task_` is not null
  pub task_interrupted : Bool
  pub outstanding_work : ℕ
  pub op_queue : List Operation
  pub stopped : Bool
  pub shut_down : Bool
  pub interrupts : ℕ  -- calls of `task_->interrupt()` so far

-- The members that no initialiser sets: they hold what the memory held.
pub record Memory : Type 0 where
  pub task : Bool
  pub task_interrupted : Bool
  pub outstanding_work : ℕ
  pub stopped : Bool
  pub shut_down : Bool

-- `scheduler::scheduler(ctx, concurrency_hint)`
unfoldable pub construct : Memory → ℕ → Scheduler
construct m hint = record {
  one_thread = hint == 1;
  concurrency_hint = hint;
  wakeup_event = new_event;
  task = m.task;
  task_interrupted = m.task_interrupted;
  outstanding_work = m.outstanding_work;
  op_queue = [];
  stopped = m.stopped;
  shut_down = m.shut_down;
  interrupts = 0;
}

-- `task_interrupted_ = true; task_->interrupt();`
unfoldable pub interrupt_task : Scheduler → Scheduler
interrupt_task s = record s { task_interrupted = true; interrupts = suc s.interrupts }

unfoldable pub stop_all_threads : Scheduler → Scheduler
stop_all_threads s =
    let woken = record s { stopped = true; wakeup_event = (signal_all s.wakeup_event).0 } in
    if not s.task_interrupted && s.task then interrupt_task woken else woken

unfoldable pub stop : Scheduler → Scheduler
stop s = stop_all_threads s

unfoldable pub restart : Scheduler → Scheduler
restart s = record s { stopped = false }

unfoldable pub work_started : Scheduler → Scheduler
work_started s = record s { outstanding_work = (s.outstanding_work + 1) % size_mod }

-- `--outstanding_work_`, an atomic step of its own
unfoldable pub decrement_work : Scheduler → Scheduler
decrement_work s = record s { outstanding_work = (s.outstanding_work + size_mod - 1) % size_mod }

unfoldable pub work_finished : Scheduler → Scheduler
work_finished s = let s' = decrement_work s in if s'.outstanding_work == 0 then stop s' else s'

-- `thread_call_stack::contains(this)` is the argument: null outside of `run`.
unfoldable pub can_dispatch : Option ThreadInfo → Bool
can_dispatch none = false
can_dispatch (some t) = true

-- The null pointer is dereferenced outside of `run`: `none`.
unfoldable pub compensating_work_started : Option ThreadInfo → Option ThreadInfo
compensating_work_started none = none
compensating_work_started (some t) =
    some (record t { private_outstanding_work = suc t.private_outstanding_work })

-- The scheduler, and whether the lock is still held. The condition `&task_interrupted_ && task_`
-- takes the address of the flag, which is never null.
unfoldable pub wake_one_thread_and_unlock : Scheduler → Scheduler × Bool
wake_one_thread_and_unlock s =
    let (e, unlocked) = maybe_unlock_and_signal_one s.wakeup_event in
    let signalled = record s { wakeup_event = e } in
    let address_is_set : Bool = true in
    if unlocked
    then (signalled, false)
    else ((if address_is_set && s.task then interrupt_task signalled else signalled), false)

-- `op_queue_.push(op); wake_one_thread_and_unlock(lock);`
unfoldable pub enqueue_and_wake : Scheduler → Operation → Scheduler
enqueue_and_wake s op = (wake_one_thread_and_unlock (record s { op_queue = push s.op_queue op })).0

unfoldable pub do_dispatch : Scheduler → Operation → Scheduler
do_dispatch s op = enqueue_and_wake (work_started s) op

-- The scheduler and the record of the calling thread, if it is inside `run`.
unfoldable pub post_immediate_completion :
    Scheduler → Option ThreadInfo → Operation → Bool → Scheduler × Option ThreadInfo
post_immediate_completion s none op is_continuation = (enqueue_and_wake (work_started s) op, none)
post_immediate_completion s (some t) op is_continuation =
    if s.one_thread || is_continuation
    then (
      s,
      some (record {
        private_op_queue = push t.private_op_queue op;
        private_outstanding_work = suc t.private_outstanding_work;
      }),
    )
    else (enqueue_and_wake (work_started s) op, some t)

unfoldable pub post_deferred_completion :
    Scheduler → Option ThreadInfo → Operation → Scheduler × Option ThreadInfo
post_deferred_completion s none op = (enqueue_and_wake s op, none)
post_deferred_completion s (some t) op =
    if s.one_thread
    then (s, some (record t { private_op_queue = push t.private_op_queue op }))
    else (enqueue_and_wake s op, some t)

-- `op_queue_.push(ops); wake_one_thread_and_unlock(lock);`
unfoldable pub splice_and_wake : Scheduler → List Operation → Scheduler
splice_and_wake s ops =
    (wake_one_thread_and_unlock (record s { op_queue = (push_queue s.op_queue ops).0 })).0

-- The caller's queue comes back too. `ops.push(private_op_queue)` moves the thread's queue into the
-- caller's.
unfoldable pub post_deferred_completions :
    Scheduler → Option ThreadInfo → List Operation → Scheduler × Option ThreadInfo × List Operation
post_deferred_completions s none ops = (splice_and_wake s ops, none, [])
post_deferred_completions s (some t) ops =
    if s.one_thread
    then (
      s,
      some (record t { private_op_queue = (push_queue ops t.private_op_queue).1 }),
      (push_queue ops t.private_op_queue).0,
    )
    else (splice_and_wake s ops, some t, [])

-- `ops2.push(ops)`: the caller's queue, and the local one that goes out of scope.
pub abandon_operations : List Operation → List Operation × List Operation
abandon_operations ops = ((push_queue [] ops).1, (push_queue [] ops).0)

-- The loop of `shutdown`: the operations that are destroyed, in order.
pub destroy_operations : List Operation → List Operation
destroy_operations [] = []
destroy_operations (task_operation ∷ q) = destroy_operations q
destroy_operations (handler a ∷ q) = handler a ∷ destroy_operations q
destroy_operations (descriptor a ∷ q) = descriptor a ∷ destroy_operations q

pub shutdown : Scheduler → Scheduler × List Operation
shutdown s =
    (record s { shut_down = true; op_queue = []; task = false }, destroy_operations s.op_queue)

unfoldable pub init_task : Scheduler → Scheduler
init_task s =
    if not s.shut_down && not s.task
    then enqueue_and_wake (record s { task = true }) task_operation
    else s
