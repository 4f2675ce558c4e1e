-- ===== src/System/Task.antt =====
-- At most one thread at a time runs the reactor: `task_operation_` of boost_asio/scheduler.cc is a
-- baton.
use boost_asio.Base.{
  ℕ, zero, suc, ◌+◌, ◌≤◌, ◌<◌, ◌≡◌, refl, ap, ◌∙◌, ◌≢◌, Bool, true, false, none, some, List, [],
  ◌∷◌, ◌++◌, map, total, total-append, total-set, le-total, get_elem?, arith, Bool-cases, inl, inr,
}
use native.Mathlib.Decide.{ℕ_discrete}
use boost_asio.Event.{is_set, drop_waiter}
use boost_asio.Event.Laws.{to_bit}
use boost_asio.OpQueue.{push, push_queue}
use boost_asio.Scheduler.{
  task_operation, handler, descriptor, ThreadInfo, Scheduler, restart, work_started, decrement_work,
  do_dispatch, post_immediate_completion, post_deferred_completions, compensating_work_started,
  init_task, construct,
}
use boost_asio.Scheduler.Run.{Turn, next_turn, requeue_task, requeue_private}
use boost_asio.Scheduler.Posting.{is_task}
use boost_asio.Scheduler.Fields.{
  Same, stop-Same, enqueue_and_wake-Same, splice_and_wake-Same, turn_weight, next_turn-Takes,
  flush_work-Flushes,
}
use boost_asio.System.{
  Pc, entering, in_task, task_flushed, in_operation, Thread, Outside, after_turn, head, wake, Call,
  Calls, dispatches, guards, unguards, starts, halts, resumes, inits, or_same, Move, System, Step,
  Reach,
}
use boost_asio.System.Drained.{start_system}

-- A thread has the baton from the turn that takes it until `~task_cleanup` puts it back.
abbrev pub runs_task : Pc → ℕ
runs_task in_task = 1
runs_task task_flushed = 1
runs_task (in_operation o) = is_task o
runs_task _ = 0

abbrev pub batons : Scheduler → Pc → ThreadInfo → ℕ
batons s p t = total is_task s.op_queue + (total is_task t.private_op_queue + runs_task p)

record Kept (s : Scheduler) (p : Pc) (t : ThreadInfo) (s' : Scheduler) (p' : Pc) (t' : ThreadInfo)
    : Type 0 where
  even : batons s' p' t' + to_bit s.task ≡ batons s p t + to_bit s'.task
  single : s'.one_thread ≡ s.one_thread

total-descriptors : (ready : List ℕ) → total is_task (map descriptor ready) ≡ 0
total-descriptors [] = refl
total-descriptors (d ∷ ready) = omega (arith, total-descriptors ready)

total-handlers : (ops : List ℕ) → total is_task (map handler ops) ≡ 0
total-handlers [] = refl
total-handlers (a ∷ ops) = omega (arith, total-handlers ops)

runs_task-after_turn :
    (s : Scheduler) (turn : Turn) → runs_task (after_turn (s, turn)).1 ≡ turn_weight is_task turn
unfolding after_turn
runs_task-after_turn s turn = ground arith

after_turn-Same : (s : Scheduler) (turn : Turn) → Same s (after_turn (s, turn)).0
unfolding after_turn
after_turn-Same s turn = ground arith

record Heads (s s' : Scheduler) (p : Pc) : Type 0 where
  queue : total is_task s'.op_queue + runs_task p ≡ total is_task s.op_queue
  tasked : s'.task ≡ s.task
  single : s'.one_thread ≡ s.one_thread

head-Heads : (s : Scheduler) → Heads s (head s).0 (head s).1
unfolding head
head-Heads s = ground (
  arith,
  next_turn-Takes is_task s,
  runs_task-after_turn (next_turn s).0 (next_turn s).1,
  after_turn-Same (next_turn s).0 (next_turn s).1,
)

wake-Heads : (s : Scheduler) → Heads s (wake s).0 (wake s).1
unfolding wake
wake-Heads s = elim (Bool-cases (is_set (drop_waiter s.wakeup_event))) [
  | inl e ↦
      let h = head-Heads (record s { wakeup_event = drop_waiter s.wakeup_event }) in
      rw (e, wake) (record { queue = h.queue; tasked = h.tasked; single = h.single })
  | inr e ↦ rw (e, wake) (record { queue = omega arith; tasked = refl; single = refl })
]

-- The calls that stand at no particular thread.
Calls-Kept :
    {s s' : Scheduler} {c : Call} {w w' : Outside} (p : Pc) (t : ThreadInfo)
    → Calls s c w s' w'
    → Kept s p t s' p t
unfolding do_dispatch work_started decrement_work restart init_task
Calls-Kept {s} p t (dispatches a) = ground (
  arith,
  enqueue_and_wake-Same (work_started s) (handler a),
  total-append is_task s.op_queue (handler a ∷ []),
)
Calls-Kept p t guards = ground arith
Calls-Kept p t (unguards n h) = ground arith
Calls-Kept p t starts = ground arith
Calls-Kept {s} p t halts = ground (arith, stop-Same s)
Calls-Kept p t resumes = ground arith
Calls-Kept {s} p t inits = ground (
  arith,
  enqueue_and_wake-Same (record s { task = true }) task_operation,
  total-append is_task s.op_queue (task_operation ∷ []),
)

post-Kept :
    (s : Scheduler) (p : Pc) (t : ThreadInfo) (b : ℕ) (c : Bool)
    → let r = post_immediate_completion s (some t) (handler b) c in Kept s p t r.0 p (or_same t r.1)
unfolding post_immediate_completion work_started push
post-Kept s p t b c = ground (
  arith,
  enqueue_and_wake-Same (work_started s) (handler b),
  total-append is_task s.op_queue (handler b ∷ []),
  total-append is_task t.private_op_queue (handler b ∷ []),
)

io-Kept :
    (s : Scheduler) (t : ThreadInfo) (d a : ℕ) (ops : List ℕ)
    → s.one_thread ≡ false
    → let r = post_deferred_completions s (some t) (map handler ops) in
      Kept s (in_operation (descriptor d)) t r.0 (in_operation (handler a)) (or_same t r.1)
unfolding post_deferred_completions
io-Kept s t d a ops one = ground (
  arith,
  splice_and_wake-Same s (map handler ops),
  total-append is_task s.op_queue (map handler ops),
  total-handlers ops,
)

-- A step of a thread, in a scheduler for several threads, makes or loses a baton only with the task.
Move-Kept :
    {s : Scheduler} {t : ThreadInfo} {w : Outside} {p : Pc} {s' : Scheduler} {p' : Pc}
    {t' : ThreadInfo} {w' : Outside}
    → s.one_thread ≡ false
    → Move s t w p s' p' t' w'
    → Kept s p t s' p' t'
unfolding requeue_task requeue_private decrement_work push push_queue compensating_work_started
Move-Kept {s} one Move.look = ground (arith, head-Heads s)
Move-Kept {s} one Move.wakes = ground (arith, wake-Heads s)
Move-Kept {t} one (Move.poll ready) =
    ground (
      arith,
      total-append is_task t.private_op_queue (map descriptor ready),
      total-descriptors ready,
    )
Move-Kept {s} {t} one Move.flush_task = ground (arith, flush_work-Flushes s t)
Move-Kept {s} {t} one Move.requeue = ground (
  arith,
  head-Heads (record s {
    task_interrupted = true;
    op_queue = (s.op_queue ++ t.private_op_queue) ++ task_operation ∷ [];
  }),
  total-append is_task s.op_queue t.private_op_queue,
  total-append is_task (s.op_queue ++ t.private_op_queue) (task_operation ∷ []),
)
Move-Kept {t} one (Move.calls a c) = Calls-Kept (in_operation (handler a)) t c
Move-Kept {s} {t} one (Move.post a b c) = post-Kept s (in_operation (handler a)) t b c
Move-Kept {s} {t} one (Move.io d a b n ops h) = io-Kept s t d a (b ∷ ops) one
Move-Kept one (Move.io_one d a n h) = ground arith
Move-Kept {s} {t} one (Move.flush a) = ground (arith, flush_work-Flushes s t)
Move-Kept one Move.finish = ground arith
Move-Kept {s} one Move.stops = ground (arith, stop-Same s)
Move-Kept {s} {t} one Move.leave =
    ground (arith, total-append is_task s.op_queue t.private_op_queue)

abbrev pub thread_batons : Thread → ℕ
thread_batons th = total is_task th.info.private_op_queue + runs_task th.pc

-- There is one baton once the scheduler has its task, and none before.
record HasBaton (y : System) : Type 0 where
  single : y.sched.one_thread ≡ false
  even : total is_task y.sched.op_queue + total thread_batons y.threads ≡ to_bit y.sched.task

abbrev new_info : ThreadInfo
new_info = record { private_op_queue = []; private_outstanding_work = 0 }

outside_post-Kept :
    (s : Scheduler) (b : ℕ) (c : Bool)
    → Kept s entering new_info (post_immediate_completion s none (handler b) c).0 entering new_info
unfolding post_immediate_completion work_started
outside_post-Kept s b c = ground (
  arith,
  enqueue_and_wake-Same (work_started s) (handler b),
  total-append is_task s.op_queue (handler b ∷ []),
)

Step-HasBaton : {y z : System} → Step y z → HasBaton y → HasBaton z
unfolding post_deferred_completions
Step-HasBaton {y} (Step.move i {p} {p'} {t} {t'} at m) v =
    let b = Move-Kept v.single m in
    let old : Thread = record { pc = p; info = t } in
    let new : Thread = record { pc = p'; info = t' } in
    record {
      single = b.single ∙ v.single;
      even = omega (arith, b.even, v.even, total-set thread_batons y.threads i old new at);
    }
Step-HasBaton (Step.outside_call c) v =
    let b = Calls-Kept entering new_info c in
    record { single = b.single ∙ v.single; even = omega (arith, b.even, v.even) }
Step-HasBaton {y} (Step.outside_post a c) v =
    let b = outside_post-Kept y.sched a c in
    record { single = b.single ∙ v.single; even = omega (arith, b.even, v.even) }
Step-HasBaton {y} (Step.outside_cancel n ops h) v =
    let same = splice_and_wake-Same y.sched (map handler ops) in
    record {
      single = same.single ∙ v.single;
      even = omega (
        arith,
        ap to_bit same.tasked,
        ap (total is_task) same.queue,
        v.even,
        total-append is_task y.sched.op_queue (map handler ops),
        total-handlers ops,
      );
    }
Step-HasBaton (Step.enter h) v = record { single = v.single; even = omega (arith, v.even) }
Step-HasBaton {y} (Step.enter_idle h) v =
    let same = stop-Same y.sched in
    record {
      single = same.single ∙ v.single;
      even = omega (arith, ap to_bit same.tasked, ap (total is_task) same.queue, v.even);
    }

Reach-HasBaton : {y z : System} → Reach y z → HasBaton y → HasBaton z
Reach-HasBaton Reach.here v = v
Reach-HasBaton (Reach.next r st) v = Step-HasBaton st (Reach-HasBaton r v)

start-HasBaton : (hint : ℕ) → 1 < hint → HasBaton (start_system hint)
unfolding construct
start-HasBaton hint h = record { single = ground arith; even = refl }

-- Two entries of a list weigh no more than the list.
two-le-total :
    (f : Thread → ℕ) (ths : List Thread) (i j : ℕ) (x y : Thread)
    → get_elem? ths i ≡ some x
    → get_elem? ths j ≡ some y
    → i ≢ j
    → f x + f y ≤ total f ths
two-le-total f [] i j x y p q h = ground arith
two-le-total f (z ∷ ths) zero zero x y p q h = absurd (h refl)
two-le-total f (z ∷ ths) zero (suc j) x y p q h = ground (arith, le-total f ths j y q)
two-le-total f (z ∷ ths) (suc i) zero x y p q h = ground (arith, le-total f ths i x p)
two-le-total f (z ∷ ths) (suc i) (suc j) x y p q h =
    omega (arith, two-le-total f ths i j x y p q (λ e. h (ap suc e)))

to_bit-le : (b : Bool) → to_bit b ≤ 1
to_bit-le true = omega arith
to_bit-le false = omega arith

-- In every state that can be reached from a scheduler for several threads whose uninitialised
-- members held 0 and false in memory, two threads are never in `task_->run` together.
pub Reach-one_task :
    {hint : ℕ} {y : System} (i j : ℕ) {t u : ThreadInfo}
    → 1 < hint
    → Reach (start_system hint) y
    → get_elem? y.threads i ≡ some (record { pc = in_task; info = t })
    → get_elem? y.threads j ≡ some (record { pc = in_task; info = u })
    → i ≡ j
Reach-one_task {hint} {y} i j {t} {u} many r at_i at_j = elim (ℕ_discrete i j) [
  | yes e ↦ e
  | no ne ↦
      let v = Reach-HasBaton r (start-HasBaton hint many) in
      absurd (
        omega (
          arith,
          v.even,
          to_bit-le y.sched.task,
          two-le-total thread_batons y.threads i j (record { pc = in_task; info = t })
              (record { pc = in_task; info = u }) at_i at_j ne,
        ))
]
