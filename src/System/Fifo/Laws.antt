-- ===== src/System/Fifo/Laws.antt =====
-- The queue of boost_asio/scheduler.cc is first in, first out, whichever threads put and take.
use boost_asio.Base.{
  ℕ, ◌<◌, ◌≡◌, refl, sym, ap, ◌∙◌, if◌then◌else◌, Bool, true, false, some, List, [], ◌∷◌, ◌++◌, map,
  arith, append-nil, append_assoc, Bool-cases, inl, inr,
}
use boost_asio.Event.{is_set, drop_waiter}
use boost_asio.OpQueue.{push, push_queue}
use boost_asio.Scheduler.{
  Operation, task_operation, handler, descriptor, ThreadInfo, Scheduler, construct, restart,
  work_started, decrement_work, do_dispatch, post_immediate_completion, post_deferred_completions,
  init_task,
}
use boost_asio.Scheduler.Run.{
  take_operation, leave_queue, look, next_turn, requeue_task, requeue_private,
}
use boost_asio.Scheduler.Fields.{
  stop-Same, enqueue_and_wake-Same, splice_and_wake-Same, flush_work-Flushes,
}
use boost_asio.System.{
  Pc, Outside, after_turn, head, wake, Call, Calls, dispatches, guards, unguards, starts, halts,
  resumes, inits, Move, System, Step, Reach,
}
use boost_asio.System.Balance.{IsBalanced, Step-IsBalanced}
use boost_asio.System.Drained.{start_system, start-Books}
use boost_asio.System.Fifo.{
  put_by_call, put_by_move, taken_at, taken_by_move, put_by_step, taken_by_step, put_on, taken_off,
}

take_operation-order :
    (s : Scheduler) (o : Operation) (rest : List Operation)
    → let r = after_turn (take_operation s o rest) in taken_at r.1 ++ r.0.op_queue ≡ o ∷ rest
unfolding take_operation leave_queue after_turn
take_operation-order s task_operation rest = ground arith
take_operation-order s (handler a) rest = ground arith
take_operation-order s (descriptor a) rest = ground arith

look-order :
    (s : Scheduler) (q : List Operation)
    → s.op_queue ≡ q
    → let r = after_turn (look s q) in taken_at r.1 ++ r.0.op_queue ≡ q
unfolding look after_turn
look-order s [] h = h
look-order s (o ∷ rest) h = take_operation-order s o rest

head-order : (s : Scheduler) → taken_at (head s).1 ++ (head s).0.op_queue ≡ s.op_queue
unfolding head next_turn after_turn
head-order s = elim (Bool-cases s.stopped) [
  | inl e ↦ simp e refl
  | inr e ↦ simp e (look-order s s.op_queue refl)
]

wake-order : (s : Scheduler) → taken_at (wake s).1 ++ (wake s).0.op_queue ≡ s.op_queue
unfolding wake
wake-order s = elim (Bool-cases (is_set (drop_waiter s.wakeup_event))) [
  | inl e ↦ rw (e, wake) (head-order (record s { wakeup_event = drop_waiter s.wakeup_event }))
  | inr e ↦ rw (e, wake) refl
]

Calls-order :
    {s s' : Scheduler} {c : Call} {w w' : Outside} (k : Calls s c w s' w')
    → s'.op_queue ≡ s.op_queue ++ put_by_call k
unfolding do_dispatch work_started decrement_work restart init_task
Calls-order {s} (dispatches a) = (enqueue_and_wake-Same (work_started s) (handler a)).queue
Calls-order guards = sym (append-nil _)
Calls-order (unguards n h) = sym (append-nil _)
Calls-order starts = sym (append-nil _)
Calls-order {s} halts = (stop-Same s).queue ∙ sym (append-nil _)
Calls-order resumes = sym (append-nil _)
Calls-order {s} inits =
    ground (
      arith,
      enqueue_and_wake-Same (record s { task = true }) task_operation,
      append-nil s.op_queue,
    )

post-order :
    (s : Scheduler) (t : ThreadInfo) (b : ℕ) (c : Bool)
    → s.one_thread ≡ false
    → (post_immediate_completion s (some t) (handler b) c).0.op_queue
      ≡ s.op_queue ++ (if c then [] else handler b ∷ [])
unfolding post_immediate_completion work_started
post-order s t b c one =
    ground (arith, enqueue_and_wake-Same (work_started s) (handler b), append-nil s.op_queue)

io-order :
    (s : Scheduler) (t : ThreadInfo) (ops : List Operation)
    → s.one_thread ≡ false
    → (post_deferred_completions s (some t) ops).0.op_queue ≡ s.op_queue ++ ops
unfolding post_deferred_completions
io-order s t ops one = ground (arith, splice_and_wake-Same s ops)

Move-order :
    {s : Scheduler} {t : ThreadInfo} {w : Outside} {p : Pc} {s' : Scheduler} {p' : Pc}
    {t' : ThreadInfo} {w' : Outside} (m : Move s t w p s' p' t' w')
    → s.one_thread ≡ false
    → taken_by_move m ++ s'.op_queue ≡ s.op_queue ++ put_by_move m
unfolding requeue_task requeue_private decrement_work push push_queue
Move-order {s} Move.look one = head-order s ∙ sym (append-nil _)
Move-order {s} Move.wakes one = wake-order s ∙ sym (append-nil _)
Move-order (Move.poll ready) one = sym (append-nil _)
Move-order {s} {t} Move.flush_task one = (flush_work-Flushes s t).queue ∙ sym (append-nil _)
Move-order {s} {t} Move.requeue one =
    head-order (record s {
      task_interrupted = true;
      op_queue = (s.op_queue ++ t.private_op_queue) ++ task_operation ∷ [];
    })
    ∙ append_assoc s.op_queue t.private_op_queue (task_operation ∷ [])
Move-order (Move.calls a c) one = Calls-order c
Move-order {s} {t} (Move.post a b c) one = post-order s t b c one
Move-order {s} {t} (Move.io d a b n ops h) one = io-order s t (map handler (b ∷ ops)) one
Move-order (Move.io_one d a n h) one = sym (append-nil _)
Move-order {s} {t} (Move.flush a) one = (flush_work-Flushes s t).queue ∙ sym (append-nil _)
Move-order Move.finish one = sym (append-nil _)
Move-order {s} Move.stops one = (stop-Same s).queue ∙ sym (append-nil _)
Move-order {s} {t} Move.leave one = ground (arith, append-nil s.op_queue)

Step-order :
    {y z : System} (st : Step y z)
    → y.sched.one_thread ≡ false
    → taken_by_step st ++ z.sched.op_queue ≡ y.sched.op_queue ++ put_by_step st
unfolding post_immediate_completion work_started post_deferred_completions
Step-order (Step.move i at m) one = Move-order m one
Step-order (Step.outside_call c) one = Calls-order c
Step-order {y} (Step.outside_post a c) one =
    (enqueue_and_wake-Same (work_started y.sched) (handler a)).queue
Step-order {y} (Step.outside_cancel n ops h) one =
    (splice_and_wake-Same y.sched (map handler ops)).queue
Step-order (Step.enter h) one = sym (append-nil _)
Step-order {y} (Step.enter_idle h) one = (stop-Same y.sched).queue ∙ sym (append-nil _)

Reach-order :
    {y z : System} (r : Reach y z)
    → IsBalanced y
    → IsBalanced z × (taken_off r ++ z.sched.op_queue ≡ y.sched.op_queue ++ put_on r)
Reach-order {y} Reach.here v = (v, sym (append-nil _))
Reach-order {y} {z} (Reach.next {z = x} r st) v =
    let (balanced, even) = Reach-order r v in
    (
      Step-IsBalanced st balanced,
      append_assoc (taken_off r) (taken_by_step st) z.sched.op_queue
          ∙ ap (λ q. taken_off r ++ q) (Step-order st balanced.single)
          ∙ sym (append_assoc (taken_off r) x.sched.op_queue (put_by_step st))
          ∙ ap (λ q. q ++ put_by_step st) even
          ∙ append_assoc y.sched.op_queue (put_on r) (put_by_step st),
    )

-- Along every run from a scheduler for several threads whose uninitialised members held 0 and false
-- in memory, in whatever order the threads step: the operations that threads have taken off the
-- shared queue, in the order in which they took them, and then those that are still on it, are the
-- operations that were put on it, in that order. The task is among the operations, and what a
-- thread queues for itself counts from when a cleanup puts it there.
pub Reach-fifo :
    {hint : ℕ} {y : System} (r : Reach (start_system hint) y)
    → 1 < hint
    → taken_off r ++ y.sched.op_queue ≡ put_on r
unfolding construct
Reach-fifo {hint} r many = (Reach-order r (start-Books hint many).balanced).1
