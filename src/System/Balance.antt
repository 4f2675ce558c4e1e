-- ===== src/System/Balance.antt =====
-- The count of outstanding work in boost_asio/scheduler.cc agrees with the work there is.
use boost_asio.Base.{
  ℕ, suc, ◌+◌, ◌%◌, ◌≡◌, refl, ap, ◌∙◌, Bool, true, false, none, some, List, [], ◌∷◌, ◌++◌, map,
  length, total, total-append, total-set, size_mod, arith, Bool-cases, inl, inr,
}
use boost_asio.Event.{is_set, drop_waiter}
use boost_asio.OpQueue.{push, push_queue}
use boost_asio.Scheduler.{
  Operation, task_operation, handler, descriptor, ThreadInfo, Scheduler, restart, work_started,
  decrement_work, do_dispatch, post_immediate_completion, post_deferred_completions,
  compensating_work_started, init_task,
}
use boost_asio.Scheduler.Run.{Turn, next_turn, requeue_task, requeue_private}
use boost_asio.Scheduler.Fields.{
  Same, stop-Same, enqueue_and_wake-Same, splice_and_wake-Same, turn_weight, next_turn-Takes,
  flush_work-Flushes,
}
use boost_asio.System.{
  Pc, entering, in_operation, flushed, Thread, Outside, after_turn, head, wake, Call, Calls,
  dispatches, guards, unguards, starts, halts, resumes, inits, or_same, Move, System, Step,
}

-- A queued handler is a unit of work; a descriptor_state and the task are none.
abbrev pub weight : Operation → ℕ
weight task_operation = 0
weight (handler a) = 1
weight (descriptor a) = 0

-- The work that a thread has in hand.
abbrev pub busy : Pc → ℕ
busy (in_operation o) = weight o
busy flushed = 1
busy _ = 0

-- What is counted, and what there is.
abbrev pub supply : Scheduler → ThreadInfo → ℕ
supply s t = s.outstanding_work + t.private_outstanding_work

abbrev pub demand : Scheduler → Pc → ThreadInfo → Outside → ℕ
demand s p t w =
    total weight s.op_queue + (total weight t.private_op_queue + busy p) + (w.guards + w.pending)

-- A step of the scheduler and a thread changes both alike.
record Balanced (s : Scheduler) (p : Pc) (t : ThreadInfo) (w : Outside) (s' : Scheduler) (p' : Pc)
    (t' : ThreadInfo) (w' : Outside) : Type 0 where
  even : (supply s' t' + demand s p t w) % size_mod ≡ (supply s t + demand s' p' t' w') % size_mod
  single : s'.one_thread ≡ s.one_thread

pub total-descriptors : (ready : List ℕ) → total weight (map descriptor ready) ≡ 0
total-descriptors [] = refl
total-descriptors (d ∷ ready) = omega (arith, total-descriptors ready)

total-handlers : (ops : List ℕ) → total weight (map handler ops) ≡ length ops
total-handlers [] = refl
total-handlers (a ∷ ops) = omega (arith, total-handlers ops)

busy-after_turn :
    (s : Scheduler) (turn : Turn) → busy (after_turn (s, turn)).1 ≡ turn_weight weight turn
unfolding after_turn
busy-after_turn s turn = ground arith

after_turn-Same : (s : Scheduler) (turn : Turn) → Same s (after_turn (s, turn)).0
unfolding after_turn
after_turn-Same s turn = ground arith

-- The head of the loop takes from the queue what the thread then has in hand.
record Heads (s s' : Scheduler) (p : Pc) : Type 0 where
  queue : total weight s'.op_queue + busy p ≡ total weight s.op_queue
  work : s'.outstanding_work ≡ s.outstanding_work
  single : s'.one_thread ≡ s.one_thread

head-Heads : (s : Scheduler) → Heads s (head s).0 (head s).1
unfolding head
head-Heads s = ground (
  arith,
  next_turn-Takes weight s,
  busy-after_turn (next_turn s).0 (next_turn s).1,
  after_turn-Same (next_turn s).0 (next_turn s).1,
)

wake-Heads : (s : Scheduler) → Heads s (wake s).0 (wake s).1
unfolding wake
wake-Heads s = elim (Bool-cases (is_set (drop_waiter s.wakeup_event))) [
  | inl e ↦
      let h = head-Heads (record s { wakeup_event = drop_waiter s.wakeup_event }) in
      rw (e, wake) (record { queue = h.queue; work = h.work; single = h.single })
  | inr e ↦ rw (e, wake) (record { queue = omega arith; work = refl; single = refl })
]

-- The calls that stand at no particular thread.
Calls-Balanced :
    {s s' : Scheduler} {c : Call} {w w' : Outside} (p : Pc) (t : ThreadInfo)
    → Calls s c w s' w'
    → Balanced s p t w s' p t w'
unfolding do_dispatch work_started decrement_work restart init_task
Calls-Balanced {s} p t (dispatches a) = ground (
  arith,
  enqueue_and_wake-Same (work_started s) (handler a),
  total-append weight s.op_queue (handler a ∷ []),
)
Calls-Balanced p t guards = ground arith
Calls-Balanced p t (unguards n h) = ground arith
Calls-Balanced p t starts = ground arith
Calls-Balanced {s} p t halts = ground (arith, stop-Same s)
Calls-Balanced p t resumes = ground arith
Calls-Balanced {s} p t inits = ground (
  arith,
  enqueue_and_wake-Same (record s { task = true }) task_operation,
  total-append weight s.op_queue (task_operation ∷ []),
)

post-Balanced :
    (s : Scheduler) (p : Pc) (t : ThreadInfo) (w : Outside) (b : ℕ) (c : Bool)
    → let r = post_immediate_completion s (some t) (handler b) c in
      Balanced s p t w r.0 p (or_same t r.1) w
unfolding post_immediate_completion work_started push
post-Balanced s p t w b c = ground (
  arith,
  enqueue_and_wake-Same (work_started s) (handler b),
  total-append weight s.op_queue (handler b ∷ []),
  total-append weight t.private_op_queue (handler b ∷ []),
)

io-Balanced :
    (s : Scheduler) (t : ThreadInfo) (w : Outside) (d a n : ℕ) (ops : List ℕ)
    → s.one_thread ≡ false
    → w.pending ≡ suc (length ops) + n
    → let r = post_deferred_completions s (some t) (map handler ops) in
      Balanced s
        (in_operation (descriptor d))
        t
        w
        r.0
        (in_operation (handler a))
        (or_same t r.1)
        (record w { pending = n })
unfolding post_deferred_completions
io-Balanced s t w d a n ops one h = ground (
  arith,
  splice_and_wake-Same s (map handler ops),
  total-append weight s.op_queue (map handler ops),
  total-handlers ops,
)

-- A step of a thread, in a scheduler for several threads, changes the count and the work alike.
Move-Balanced :
    {s : Scheduler} {t : ThreadInfo} {w : Outside} {p : Pc} {s' : Scheduler} {p' : Pc}
    {t' : ThreadInfo} {w' : Outside}
    → s.one_thread ≡ false
    → Move s t w p s' p' t' w'
    → Balanced s p t w s' p' t' w'
unfolding requeue_task requeue_private decrement_work push push_queue compensating_work_started
Move-Balanced {s} one Move.look = ground (arith, head-Heads s)
Move-Balanced {s} one Move.wakes = ground (arith, wake-Heads s)
Move-Balanced {t} one (Move.poll ready) =
    ground (
      arith,
      total-append weight t.private_op_queue (map descriptor ready),
      total-descriptors ready,
    )
Move-Balanced {s} {t} one Move.flush_task = ground (arith, flush_work-Flushes s t)
Move-Balanced {s} {t} one Move.requeue = ground (
  arith,
  head-Heads (record s {
    task_interrupted = true;
    op_queue = (s.op_queue ++ t.private_op_queue) ++ task_operation ∷ [];
  }),
  total-append weight s.op_queue t.private_op_queue,
  total-append weight (s.op_queue ++ t.private_op_queue) (task_operation ∷ []),
)
Move-Balanced {t} one (Move.calls a c) = Calls-Balanced (in_operation (handler a)) t c
Move-Balanced {s} {t} {w} one (Move.post a b c) = post-Balanced s (in_operation (handler a)) t w b c
Move-Balanced {s} {t} {w} one (Move.io d a b n ops h) = io-Balanced s t w d a n (b ∷ ops) one h
Move-Balanced one (Move.io_one d a n h) = ground (arith, h)
Move-Balanced {s} {t} one (Move.flush a) = ground (arith, flush_work-Flushes s t)
Move-Balanced one Move.finish = ground arith
Move-Balanced {s} one Move.stops = ground (arith, stop-Same s)
Move-Balanced {s} {t} one Move.leave =
    ground (arith, total-append weight s.op_queue t.private_op_queue)

abbrev pub thread_count : Thread → ℕ
thread_count th = th.info.private_outstanding_work

abbrev pub thread_weight : Thread → ℕ
thread_weight th = total weight th.info.private_op_queue + busy th.pc

-- All the work there is: queued handlers, what the threads have, work guards, and operations that
-- wait in the reactor.
abbrev pub all_work : System → ℕ
all_work y =
    total weight y.sched.op_queue
    + total thread_weight y.threads
    + (y.outside.guards + y.outside.pending)

pub record IsBalanced (y : System) : Type 0 where
  pub single : y.sched.one_thread ≡ false
  pub even :
      (y.sched.outstanding_work + total thread_count y.threads) % size_mod ≡ all_work y % size_mod

outside_post-Balanced :
    (s : Scheduler) (b : ℕ) (c : Bool) (t : ThreadInfo) (w : Outside)
    → Balanced s entering t w (post_immediate_completion s none (handler b) c).0 entering t w
unfolding post_immediate_completion work_started
outside_post-Balanced s b c t w = ground (
  arith,
  enqueue_and_wake-Same (work_started s) (handler b),
  total-append weight s.op_queue (handler b ∷ []),
)

-- Every step of a thread in `run`, or of one outside, keeps the books of a scheduler for several
-- threads, modulo 2 ^ 64: the shared count of work and the threads' own counts together are the
-- handlers that are queued or begun, the work guards, and the operations that wait in the reactor.
pub Step-IsBalanced : {y z : System} → Step y z → IsBalanced y → IsBalanced z
unfolding post_deferred_completions
Step-IsBalanced {y} (Step.move i {p} {p'} {t} {t'} at m) v =
    let b = Move-Balanced v.single m in
    let old : Thread = record { pc = p; info = t } in
    let new : Thread = record { pc = p'; info = t' } in
    record {
      single = b.single ∙ v.single;
      even = omega (
        arith,
        b.even,
        v.even,
        total-set thread_count y.threads i old new at,
        total-set thread_weight y.threads i old new at,
      );
    }
Step-IsBalanced {y} (Step.outside_call c) v =
    let b =
      Calls-Balanced entering (record { private_op_queue = []; private_outstanding_work = 0 }) c in
    record { single = b.single ∙ v.single; even = omega (arith, b.even, v.even) }
Step-IsBalanced {y} (Step.outside_post a c) v =
    let b =
      outside_post-Balanced y.sched a c
        (record { private_op_queue = []; private_outstanding_work = 0 }) y.outside in
    record { single = b.single ∙ v.single; even = omega (arith, b.even, v.even) }
Step-IsBalanced {y} (Step.outside_cancel n ops h) v =
    let same = splice_and_wake-Same y.sched (map handler ops) in
    record {
      single = same.single ∙ v.single;
      even = omega (
        arith,
        same.work,
        ap (total weight) same.queue,
        v.even,
        total-append weight y.sched.op_queue (map handler ops),
        total-handlers ops,
      );
    }
Step-IsBalanced (Step.enter h) v = record { single = v.single; even = omega (arith, v.even) }
Step-IsBalanced {y} (Step.enter_idle h) v =
    let same = stop-Same y.sched in
    record {
      single = same.single ∙ v.single;
      even = omega (arith, same.work, ap (total weight) same.queue, v.even);
    }
