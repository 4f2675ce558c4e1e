-- ===== src/Scheduler/Fields.antt =====
-- What the operations of boost_asio/scheduler.cc do to the queue, the counts and the flags: the
-- facts that the invariants of the threads use with the operations shut.
use boost_asio.Base.{
  ℕ, ◌+◌, ◌%◌, ◌≡◌, refl, if◌then◌else◌, Bool, true, false, List, [], ◌∷◌, ◌++◌, total, size_mod,
  arith,
}
use boost_asio.OpQueue.{push, push_queue}
use boost_asio.Event.{maybe_unlock_and_signal_one}
use boost_asio.Scheduler.{
  Operation, task_operation, handler, descriptor, ThreadInfo, Scheduler, interrupt_task, stop,
  stop_all_threads, wake_one_thread_and_unlock, enqueue_and_wake, splice_and_wake,
}
use boost_asio.Scheduler.Run.{
  Turn, quit, sleep, run_task, run_operation, look, next_turn, take_operation, leave_queue,
  flush_work,
}

-- The fields that no waking or stopping touches.
pub record Same (s s' : Scheduler) : Type 0 where
  pub queue : s'.op_queue ≡ s.op_queue
  pub work : s'.outstanding_work ≡ s.outstanding_work
  pub single : s'.one_thread ≡ s.one_thread
  pub tasked : s'.task ≡ s.task

pub stop-Same : (s : Scheduler) → Same s (stop s)
unfolding stop stop_all_threads interrupt_task
stop-Same s = ground arith

pub wake-Same : (s : Scheduler) → Same s (wake_one_thread_and_unlock s).0
unfolding wake_one_thread_and_unlock interrupt_task maybe_unlock_and_signal_one
wake-Same s = ground arith

pub enqueue_and_wake-Same :
    (s : Scheduler) (o : Operation)
    → Same (record s { op_queue = s.op_queue ++ o ∷ [] }) (enqueue_and_wake s o)
unfolding enqueue_and_wake push
enqueue_and_wake-Same s o = wake-Same (record s { op_queue = s.op_queue ++ o ∷ [] })

pub splice_and_wake-Same :
    (s : Scheduler) (ops : List Operation)
    → Same (record s { op_queue = s.op_queue ++ ops }) (splice_and_wake s ops)
unfolding splice_and_wake push_queue
splice_and_wake-Same s ops = wake-Same (record s { op_queue = s.op_queue ++ ops })

pub leave_queue-Same : (s : Scheduler) (more : Bool) → Same s (leave_queue s more)
unfolding leave_queue
leave_queue-Same s more = ground arith

-- What a turn takes off the queue, by a weight of operations.
abbrev pub turn_weight : (Operation → ℕ) → Turn → ℕ
turn_weight f quit = 0
turn_weight f sleep = 0
turn_weight f (run_task more) = f task_operation
turn_weight f (run_operation o) = f o

pub record Takes (s s' : Scheduler) (f : Operation → ℕ) (turn : Turn) : Type 0 where
  pub queue : total f s'.op_queue + turn_weight f turn ≡ total f s.op_queue
  pub work : s'.outstanding_work ≡ s.outstanding_work
  pub single : s'.one_thread ≡ s.one_thread
  pub tasked : s'.task ≡ s.task

take_operation-Takes :
    (f : Operation → ℕ) (s : Scheduler) (o : Operation) (rest : List Operation)
    → s.op_queue ≡ o ∷ rest
    → Takes s (take_operation s o rest).0 f (take_operation s o rest).1
unfolding take_operation leave_queue
take_operation-Takes f s task_operation rest h = ground arith
take_operation-Takes f s (handler a) rest h = ground arith
take_operation-Takes f s (descriptor a) rest h = ground arith

look-Takes :
    (f : Operation → ℕ) (s : Scheduler) (q : List Operation)
    → s.op_queue ≡ q
    → Takes s (look s q).0 f (look s q).1
unfolding look
look-Takes f s [] h = ground arith
look-Takes f s (o ∷ rest) h = take_operation-Takes f s o rest h

pub next_turn-Takes :
    (f : Operation → ℕ) (s : Scheduler) → Takes s (next_turn s).0 f (next_turn s).1
unfolding next_turn
next_turn-Takes f s = next s.stopped refl
  where
    next :
        (b : Bool)
        → s.stopped ≡ b
        → Takes s
            (if b then (s, quit) else look s s.op_queue).0
            f
            (if b then (s, quit) else look s s.op_queue).1
    next true e = ground arith
    next false e = look-Takes f s s.op_queue refl

-- `flush_work` moves the thread's count to the shared one.
pub record Flushes (s s' : Scheduler) (t t' : ThreadInfo) : Type 0 where
  pub queue : s'.op_queue ≡ s.op_queue
  pub private_queue : t'.private_op_queue ≡ t.private_op_queue
  pub work :
      (s'.outstanding_work + t'.private_outstanding_work) % size_mod
      ≡ (s.outstanding_work + t.private_outstanding_work) % size_mod
  pub single : s'.one_thread ≡ s.one_thread
  pub tasked : s'.task ≡ s.task

pub flush_work-Flushes :
    (s : Scheduler) (t : ThreadInfo) → Flushes s (flush_work s t).0 t (flush_work s t).1
unfolding flush_work
flush_work-Flushes s t = ground arith
