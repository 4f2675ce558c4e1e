-- ===== src/Scheduler/Posting.antt =====
-- What posting, waking and shutting down do in boost_asio/scheduler.cc.
use boost_asio.Base.{
  ℕ, suc, ◌+◌, ◌≡◌, refl, ◌≢◌, ltb, if◌then◌else◌, Bool, true, false, not, ◌&&◌, some, List, [],
  ◌∷◌, ◌++◌, length, total, arith,
}
use boost_asio.OpQueue.{push_queue}
use boost_asio.Event.{notify_one}
use boost_asio.Event.Laws.{Reads, maybe_unlock_and_signal_one_lem}
use boost_asio.Scheduler.{
  Operation, task_operation, handler, descriptor, ThreadInfo, Scheduler, interrupt_task,
  wake_one_thread_and_unlock, splice_and_wake, post_deferred_completions, destroy_operations,
  shutdown, init_task,
}

-- Where the event's word stands for `waiters` threads: `wake_one_thread_and_unlock` always unlocks
-- and sets the event. If somebody waits it notifies one thread and does not touch the task; if
-- nobody waits it interrupts the task when there is one, also when it is interrupted already.
pub wake_one_thread_and_unlock_lem :
    (s : Scheduler) (waiters : ℕ) (flag : Bool)
    → Reads s.wakeup_event waiters flag
    → let r = wake_one_thread_and_unlock s in
      (r.1 ≡ false)
      × Reads r.0.wakeup_event waiters true
      × (r.0.wakeup_event.notices
          ≡ (if ltb 0 waiters then notify_one ∷ s.wakeup_event.notices else s.wakeup_event.notices))
      × (r.0.interrupts
          ≡ (if not (ltb 0 waiters) && s.task then suc s.interrupts else s.interrupts))
      × (r.0.op_queue ≡ s.op_queue)
      × (r.0.outstanding_work ≡ s.outstanding_work)
unfolding wake_one_thread_and_unlock interrupt_task
wake_one_thread_and_unlock_lem s w b h =
    let (reads, unlocked, notices) = maybe_unlock_and_signal_one_lem s.wakeup_event w b h in
    ground arith

-- In a scheduler for one thread, deferred completions posted from inside `run` are lost: the
-- scheduler is as it was, the thread's own queue is empty, and the operations of both stand in the
-- caller's queue, which goes out of scope.
pub post_deferred_completions_loses :
    (s : Scheduler) (t : ThreadInfo) (ops : List Operation)
    → s.one_thread ≡ true
    → post_deferred_completions s (some t) ops
      ≡ (s, some (record t { private_op_queue = [] }), ops ++ t.private_op_queue)
unfolding post_deferred_completions push_queue
post_deferred_completions_loses s t ops h = ground arith

-- In a scheduler for several threads, deferred completions posted from inside `run` go behind the
-- scheduler's queue, in order, and leave the caller's queue empty; the event is set, and the counts
-- of work and the thread's record stay.
pub post_deferred_completions_lem :
    (s : Scheduler) (t : ThreadInfo) (ops : List Operation) (waiters : ℕ) (flag : Bool)
    → s.one_thread ≡ false
    → Reads s.wakeup_event waiters flag
    → let r = post_deferred_completions s (some t) ops in
      (r.0.op_queue ≡ s.op_queue ++ ops)
      × (r.0.outstanding_work ≡ s.outstanding_work)
      × Reads r.0.wakeup_event waiters true
      × (r.1 ≡ some t)
      × (r.2 ≡ [])
unfolding post_deferred_completions splice_and_wake push_queue
post_deferred_completions_lem s t ops w b h reads =
    let (_, set, _, _, queue, work) =
      wake_one_thread_and_unlock_lem (record s { op_queue = s.op_queue ++ ops }) w b reads in
    (ground arith, ground arith, ground arith, ground arith, ground arith)

-- No operation but the scheduler's own `task_operation_`.
abbrev pub HasNoTask : List Operation → Type 0
HasNoTask [] = Unit
HasNoTask (o ∷ q) = (o ≢ task_operation) × HasNoTask q

destroyed : (q : List Operation) → HasNoTask (destroy_operations q)
unfolding destroy_operations
destroyed [] = tt
destroyed (task_operation ∷ q) = destroyed q
destroyed (handler a ∷ q) = ((λ e. cc), destroyed q)
destroyed (descriptor a ∷ q) = ((λ e. cc), destroyed q)

abbrev pub is_task : Operation → ℕ
is_task task_operation = 1
is_task (handler a) = 0
is_task (descriptor a) = 0

destroyed_count : (q : List Operation) → length (destroy_operations q) + total is_task q ≡ length q
unfolding destroy_operations
destroyed_count [] = omega arith
destroyed_count (task_operation ∷ q) = omega (arith, destroyed_count q)
destroyed_count (handler a ∷ q) = omega (arith, destroyed_count q)
destroyed_count (descriptor a ∷ q) = omega (arith, destroyed_count q)

-- `shutdown` empties the queue, forgets the task, and destroys as many operations as were queued
-- besides `task_operation_`, which it never destroys; an `init_task` that follows does nothing.
pub shutdown_lem :
    (s : Scheduler)
    → let r = shutdown s in
      (r.0.op_queue ≡ [])
      × (r.0.task ≡ false)
      × (init_task r.0 ≡ r.0)
      × HasNoTask r.1
      × (length r.1 + total is_task s.op_queue ≡ length s.op_queue)
unfolding shutdown init_task
shutdown_lem s = (refl, refl, refl, destroyed s.op_queue, destroyed_count s.op_queue)
