-- ===== src/System/Wakeup.antt =====
-- The event word of boost_asio/event.hpp counts the threads that are blocked in `run`, and is set
-- while there is something to run.
use boost_asio.Base.{
  ℕ, suc, ◌+◌, ◌/◌, ◌%◌, ◌^◌, ◌≤◌, ◌<◌, ◌≡◌, refl, ◌∙◌, if◌then◌else◌, Bool, true, false, some,
  List, [], ◌∷◌, set, arith,
}
use boost_asio.OpQueue.{push, push_queue}
use boost_asio.Event.{
  is_set, add_waiter, drop_waiter, clear, signal_all, unlock_and_signal_one,
  maybe_unlock_and_signal_one,
}
use boost_asio.Event.Laws.{to_bit}
use boost_asio.Scheduler.{
  Operation, task_operation, handler, descriptor, ThreadInfo, Scheduler, stop, stop_all_threads,
  interrupt_task, restart, work_started, decrement_work, do_dispatch, post_immediate_completion,
  post_deferred_completions, init_task, enqueue_and_wake, splice_and_wake,
  wake_one_thread_and_unlock,
}
use boost_asio.Scheduler.Run.{
  quit, look, take_operation, leave_queue, next_turn, flush_work, requeue_private,
}
use boost_asio.System.{
  Pc, waiting, threw, Outside, after_turn, head, wake, left_pc, Call, Calls, dispatches, guards,
  unguards, starts, halts, resumes, inits,
}

abbrev pub blocked : Pc → ℕ
blocked waiting = 1
blocked _ = 0

abbrev pub thrown : Pc → ℕ
thrown threw = 1
thrown _ = 0

abbrev pub has_entries : List Operation → ℕ
has_entries [] = 0
has_entries (o ∷ q) = 1

-- The word counts `waiters` threads; it is set in a stopped scheduler, and while the queue has
-- entries, unless a thread has left `run` by an exception.
pub record Awake (s : Scheduler) (waiters thrown : ℕ) : Type 0 where
  pub single : s.one_thread ≡ false
  pub counted : s.wakeup_event.state / 2 ≡ waiters
  pub stopped_set : to_bit s.stopped ≤ s.wakeup_event.state % 2
  pub queue_set : has_entries s.op_queue ≤ s.wakeup_event.state % 2 + thrown

-- What holds behind every operation that signals.
pub record Signalled (s s' : Scheduler) : Type 0 where
  pub single : s'.one_thread ≡ s.one_thread
  pub counted : s'.wakeup_event.state / 2 ≡ s.wakeup_event.state / 2
  pub is_set : s'.wakeup_event.state % 2 ≡ 1

pub Signalled-Awake :
    {s s' : Scheduler} {w k : ℕ}
    → Signalled s s'
    → s.one_thread ≡ false
    → s.wakeup_event.state / 2 ≡ w
    → Awake s' w k
Signalled-Awake {s} {s'} g one h = record {
  single = g.single ∙ one;
  counted = g.counted ∙ h;
  stopped_set = ground (arith, g.is_set);
  queue_set = ground (arith, g.is_set);
}

pub stop-Signalled : (s : Scheduler) → Signalled s (stop s)
unfolding stop stop_all_threads interrupt_task signal_all
stop-Signalled s = ground arith

wake_one-Signalled : (s : Scheduler) → Signalled s (wake_one_thread_and_unlock s).0
unfolding wake_one_thread_and_unlock interrupt_task maybe_unlock_and_signal_one
wake_one-Signalled s = ground arith

pub enqueue_and_wake-Signalled :
    (s : Scheduler) (o : Operation) → Signalled s (enqueue_and_wake s o)
unfolding enqueue_and_wake
enqueue_and_wake-Signalled s o =
    let g = wake_one-Signalled (record s { op_queue = push s.op_queue o }) in
    record { single = g.single; counted = g.counted; is_set = g.is_set }

pub splice_and_wake-Signalled :
    (s : Scheduler) (q : List Operation) → Signalled s (splice_and_wake s q)
unfolding splice_and_wake
splice_and_wake-Signalled s q =
    let g = wake_one-Signalled (record s { op_queue = (push_queue s.op_queue q).0 }) in
    record { single = g.single; counted = g.counted; is_set = g.is_set }

-- A turn that runs something leaves the event set if more is queued.
take_operation-Awake :
    (s : Scheduler) (o : Operation) (rest : List Operation) (w k : ℕ)
    → s.one_thread ≡ false
    → s.wakeup_event.state / 2 ≡ w
    → s.stopped ≡ false
    → let r = after_turn (take_operation s o rest) in Awake r.0 (w + blocked r.1) (k + thrown r.1)
unfolding after_turn take_operation leave_queue unlock_and_signal_one
take_operation-Awake s task_operation rest w k one h run = ground arith
take_operation-Awake s (handler a) rest w k one h run = ground arith
take_operation-Awake s (descriptor a) rest w k one h run = ground arith

look-Awake :
    (s : Scheduler) (q : List Operation) (w k : ℕ)
    → s.one_thread ≡ false
    → s.wakeup_event.state / 2 ≡ w
    → s.stopped ≡ false
    → s.op_queue ≡ q
    → suc w < 2 ^ 63
    → let r = after_turn (look s q) in Awake r.0 (w + blocked r.1) (k + thrown r.1)
unfolding after_turn look clear add_waiter
look-Awake s [] w k one h run e lt = ground arith
look-Awake s (o ∷ rest) w k one h run e lt = take_operation-Awake s o rest w k one h run

quit-Awake :
    (s : Scheduler) (w k : ℕ)
    → s.one_thread ≡ false
    → s.wakeup_event.state / 2 ≡ w
    → to_bit s.stopped ≤ s.wakeup_event.state % 2
    → s.stopped ≡ true
    → Awake s (w + 0) (k + 0)
quit-Awake s w k one h set e = ground arith

dropped_count :
    (s : Scheduler) (w k : ℕ)
    → Awake s (suc w) k
    → suc w < 2 ^ 62
    → (drop_waiter s.wakeup_event).state / 2 ≡ w
unfolding drop_waiter
dropped_count s w k a lt = omega arith

dropped_set :
    (s : Scheduler) (w k : ℕ)
    → Awake s (suc w) k
    → suc w < 2 ^ 62
    → to_bit s.stopped ≤ (drop_waiter s.wakeup_event).state % 2
unfolding drop_waiter
dropped_set s w k a lt = omega arith

again-Awake :
    (s : Scheduler) (w k : ℕ)
    → Awake s (suc w) k
    → suc w < 2 ^ 62
    → Awake (record s { wakeup_event = add_waiter (drop_waiter s.wakeup_event) }) (w + 1) (k + 0)
unfolding drop_waiter add_waiter
again-Awake s w k a lt = record {
  single = a.single;
  counted = omega arith;
  stopped_set = omega arith;
  queue_set = omega arith;
}

pub head-Awake :
    (s : Scheduler) (w k : ℕ)
    → s.one_thread ≡ false
    → s.wakeup_event.state / 2 ≡ w
    → to_bit s.stopped ≤ s.wakeup_event.state % 2
    → suc w < 2 ^ 63
    → Awake (head s).0 (w + blocked (head s).1) (k + thrown (head s).1)
unfolding head next_turn after_turn
head-Awake s w k one h flag lt = go s.stopped refl
  where
    go :
        (b : Bool)
        → s.stopped ≡ b
        → let r = after_turn (if b then (s, quit) else look s s.op_queue) in
          Awake r.0 (w + blocked r.1) (k + thrown r.1)
    go true e = quit-Awake s w k one h flag e
    go false e = look-Awake s s.op_queue w k one h e refl lt

pub wake-Awake :
    (s : Scheduler) (w k : ℕ)
    → Awake s (suc w) k
    → suc w < 2 ^ 62
    → Awake (wake s).0 (w + blocked (wake s).1) (k + thrown (wake s).1)
unfolding wake
wake-Awake s w k a lt = go (is_set (drop_waiter s.wakeup_event))
  where
    dropped : Scheduler
    dropped = record s { wakeup_event = drop_waiter s.wakeup_event }

    go :
        (b : Bool)
        → let r =
            if b
            then head dropped
            else (record dropped { wakeup_event = add_waiter dropped.wakeup_event }, waiting) in
          Awake r.0 (w + blocked r.1) (k + thrown r.1)
    go true =
        head-Awake dropped w k a.single (dropped_count s w k a lt) (dropped_set s w k a lt)
          (omega arith)
    go false = again-Awake s w k a lt

-- The operations that leave the event, the flags and the queue alone.
pub record Quiet (s s' : Scheduler) : Type 0 where
  pub single : s'.one_thread ≡ s.one_thread
  pub event : s'.wakeup_event.state ≡ s.wakeup_event.state
  pub stopped : s'.stopped ≡ s.stopped
  pub queue : s'.op_queue ≡ s.op_queue

pub Quiet-Awake : {s s' : Scheduler} {w k : ℕ} → Quiet s s' → Awake s w k → Awake s' w k
Quiet-Awake q a = ground arith

pub flush_work-Quiet : (s : Scheduler) (t : ThreadInfo) → Quiet s (flush_work s t).0
unfolding flush_work
flush_work-Quiet s t = ground arith

pub Calls-Awake :
    {s s' : Scheduler} {c : Call} {w w' : Outside} (n k : ℕ)
    → Calls s c w s' w'
    → Awake s n k
    → Awake s' n k
unfolding do_dispatch work_started decrement_work restart init_task
Calls-Awake {s} n k (dispatches a) v =
    Signalled-Awake (enqueue_and_wake-Signalled (work_started s) (handler a)) v.single v.counted
Calls-Awake n k guards v = ground arith
Calls-Awake n k (unguards m h) v = ground arith
Calls-Awake n k starts v = ground arith
Calls-Awake {s} n k halts v = Signalled-Awake (stop-Signalled s) v.single v.counted
Calls-Awake n k resumes v = ground arith
Calls-Awake {s} n k inits v =
    ground (arith, enqueue_and_wake-Signalled (record s { task = true }) task_operation)

pub post-Awake :
    (s : Scheduler) (t : ThreadInfo) (o : Operation) (c : Bool) (n k : ℕ)
    → Awake s n k
    → Awake (post_immediate_completion s (some t) o c).0 n k
unfolding post_immediate_completion work_started
post-Awake s t o c n k v = ground (arith, enqueue_and_wake-Signalled (work_started s) o)

pub io-Awake :
    (s : Scheduler) (t : ThreadInfo) (q : List Operation) (n k : ℕ)
    → Awake s n k
    → Awake (post_deferred_completions s (some t) q).0 n k
unfolding post_deferred_completions
io-Awake s t q n k v = ground (arith, splice_and_wake-Signalled s q)

pub leave-Awake :
    (s : Scheduler) (t : ThreadInfo) (n k : ℕ)
    → Awake s n k
    → let r = requeue_private s t in
      Awake r.0 (n + blocked (left_pc r.2)) (k + thrown (left_pc r.2))
unfolding requeue_private push_queue
leave-Awake s t n k v = ground arith
