-- ===== src/System/Conserved/Moves.antt =====
-- What one step of boost_asio/scheduler.cc does to the operations that are queued or running.
use boost_asio.Base.{
  ℕ, ◌+◌, ◌≡◌, refl, Bool, true, false, none, some, List, [], ◌∷◌, ◌++◌, map, total, total-append,
  arith, Bool-cases, inl, inr,
}
use boost_asio.Event.{is_set, drop_waiter}
use boost_asio.OpQueue.{push, push_queue}
use boost_asio.Scheduler.{
  task_operation, handler, descriptor, ThreadInfo, Scheduler, restart, work_started, decrement_work,
  do_dispatch, post_immediate_completion, post_deferred_completions, compensating_work_started,
  init_task,
}
use boost_asio.Scheduler.Run.{Turn, next_turn, requeue_task, requeue_private}
use boost_asio.Scheduler.Fields.{
  stop-Same, enqueue_and_wake-Same, splice_and_wake-Same, turn_weight, next_turn-Takes,
  flush_work-Flushes,
}
use boost_asio.System.{
  Pc, in_operation, Outside, after_turn, head, wake, Call, Calls, dispatches, guards, unguards,
  starts, halts, resumes, inits, or_same, Move,
}
use boost_asio.System.Conserved.{
  count, copies, carried, posted_by_call, posted_by_move, finished_by_move,
}

-- The copies of an operation that a scheduler and a thread hold.
abbrev pub together : ℕ → Scheduler → Pc → ThreadInfo → ℕ
together x s p t = total (copies x) s.op_queue + (total (copies x) t.private_op_queue + carried x p)

total-descriptors : (x : ℕ) (ready : List ℕ) → total (copies x) (map descriptor ready) ≡ 0
total-descriptors x [] = refl
total-descriptors x (d ∷ ready) = omega (arith, total-descriptors x ready)

pub total-handlers : (x : ℕ) (ops : List ℕ) → total (copies x) (map handler ops) ≡ count x ops
total-handlers x [] = refl
total-handlers x (a ∷ ops) = omega (arith, total-handlers x ops)

after_turn-carried :
    (x : ℕ) (s : Scheduler) (turn : Turn)
    → (carried x (after_turn (s, turn)).1 ≡ turn_weight (copies x) turn)
      × ((after_turn (s, turn)).0.op_queue ≡ s.op_queue)
unfolding after_turn
after_turn-carried x s turn = ground arith

head-carried :
    (x : ℕ) (s : Scheduler)
    → total (copies x) (head s).0.op_queue + carried x (head s).1 ≡ total (copies x) s.op_queue
unfolding head
head-carried x s =
    ground
      (arith, next_turn-Takes (copies x) s, after_turn-carried x (next_turn s).0 (next_turn s).1)

wake-carried :
    (x : ℕ) (s : Scheduler)
    → total (copies x) (wake s).0.op_queue + carried x (wake s).1 ≡ total (copies x) s.op_queue
unfolding wake
wake-carried x s = elim (Bool-cases (is_set (drop_waiter s.wakeup_event))) [
  | inl e ↦ rw (e, wake) (head-carried x (record s { wakeup_event = drop_waiter s.wakeup_event }))
  | inr e ↦ rw (e, wake) (omega arith)
]

pub Calls-conserve :
    (x : ℕ) {s s' : Scheduler} {c : Call} {w w' : Outside} (k : Calls s c w s' w')
    → total (copies x) s'.op_queue ≡ total (copies x) s.op_queue + count x (posted_by_call k)
unfolding do_dispatch work_started decrement_work restart init_task
Calls-conserve x {s} (dispatches a) = ground (
  arith,
  enqueue_and_wake-Same (work_started s) (handler a),
  total-append (copies x) s.op_queue (handler a ∷ []),
)
Calls-conserve x guards = omega arith
Calls-conserve x (unguards n h) = omega arith
Calls-conserve x starts = omega arith
Calls-conserve x {s} halts = ground (arith, stop-Same s)
Calls-conserve x resumes = omega arith
Calls-conserve x {s} inits = ground (
  arith,
  enqueue_and_wake-Same (record s { task = true }) task_operation,
  total-append (copies x) s.op_queue (task_operation ∷ []),
)

pub post-conserve :
    (x : ℕ) (s : Scheduler) (b : ℕ) (c : Bool)
    → total (copies x) (post_immediate_completion s none (handler b) c).0.op_queue
      ≡ total (copies x) s.op_queue + count x (b ∷ [])
unfolding post_immediate_completion work_started
post-conserve x s b c = ground (
  arith,
  enqueue_and_wake-Same (work_started s) (handler b),
  total-append (copies x) s.op_queue (handler b ∷ []),
)

pub post_inside-conserve :
    (x : ℕ) (s : Scheduler) (p : Pc) (t : ThreadInfo) (b : ℕ) (c : Bool)
    → let r = post_immediate_completion s (some t) (handler b) c in
      together x r.0 p (or_same t r.1) ≡ together x s p t + count x (b ∷ [])
unfolding post_immediate_completion work_started push
post_inside-conserve x s p t b c = ground (
  arith,
  enqueue_and_wake-Same (work_started s) (handler b),
  total-append (copies x) s.op_queue (handler b ∷ []),
  total-append (copies x) t.private_op_queue (handler b ∷ []),
)

pub io-conserve :
    (x : ℕ) (s : Scheduler) (t : ThreadInfo) (d a : ℕ) (ops : List ℕ)
    → s.one_thread ≡ false
    → let r = post_deferred_completions s (some t) (map handler ops) in
      together x r.0 (in_operation (handler a)) (or_same t r.1)
      ≡ together x s (in_operation (descriptor d)) t + count x (a ∷ ops)
unfolding post_deferred_completions
io-conserve x s t d a ops one = ground (
  arith,
  splice_and_wake-Same s (map handler ops),
  total-append (copies x) s.op_queue (map handler ops),
  total-handlers x ops,
)

-- A move, in a scheduler for several threads.
pub Move-conserve :
    (x : ℕ) {s : Scheduler} {t : ThreadInfo} {w : Outside} {p : Pc} {s' : Scheduler} {p' : Pc}
    {t' : ThreadInfo} {w' : Outside} (m : Move s t w p s' p' t' w')
    → s.one_thread ≡ false
    → together x s' p' t' + count x (finished_by_move m)
      ≡ together x s p t + count x (posted_by_move m)
unfolding requeue_task requeue_private decrement_work push push_queue compensating_work_started
Move-conserve x {s} Move.look one = ground (arith, head-carried x s)
Move-conserve x {s} Move.wakes one = ground (arith, wake-carried x s)
Move-conserve x {t = t} (Move.poll ready) one = ground (
  arith,
  total-append (copies x) t.private_op_queue (map descriptor ready),
  total-descriptors x ready,
)
Move-conserve x {s} {t} Move.flush_task one = ground (arith, flush_work-Flushes s t)
Move-conserve x {s} {t} Move.requeue one = ground (
  arith,
  head-carried x (record s {
    task_interrupted = true;
    op_queue = (s.op_queue ++ t.private_op_queue) ++ task_operation ∷ [];
  }),
  total-append (copies x) s.op_queue t.private_op_queue,
  total-append (copies x) (s.op_queue ++ t.private_op_queue) (task_operation ∷ []),
)
Move-conserve x {s} (Move.calls a c) one = ground (arith, Calls-conserve x c)
Move-conserve x {s} {t} (Move.post a b c) one =
    omega (arith, post_inside-conserve x s (in_operation (handler a)) t b c)
Move-conserve x {s} {t} (Move.io d a b n ops h) one =
    omega (arith, io-conserve x s t d a (b ∷ ops) one)
Move-conserve x (Move.io_one d a n h) one = omega arith
Move-conserve x {s} {t} (Move.flush a) one = ground (arith, flush_work-Flushes s t)
Move-conserve x Move.finish one = ground arith
Move-conserve x {s} Move.stops one = ground (arith, stop-Same s)
Move-conserve x {s} {t} Move.leave one =
    ground (arith, total-append (copies x) s.op_queue t.private_op_queue)
