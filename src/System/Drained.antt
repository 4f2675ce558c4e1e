-- ===== src/System/Drained.antt =====
-- A count of zero in boost_asio/scheduler.cc means that there is no work: what a thread has counted
-- for itself belongs to operations in its own queue.
use boost_asio.Base.{
  ℕ, ◌+◌, ◌≤◌, ◌<◌, ◌≡◌, refl, if◌then◌else◌, Bool, true, false, some, List, [], ◌∷◌, map, total,
  total-append, All, All-get_elem?, All-set, size_mod, arith, Bool-cases, inl, inr,
}
use boost_asio.Event.{is_set, drop_waiter}
use boost_asio.OpQueue.{push, push_queue}
use boost_asio.Scheduler.{
  Operation, handler, descriptor, ThreadInfo, Scheduler, Memory, construct,
  post_immediate_completion, post_deferred_completions, compensating_work_started,
}
use boost_asio.Scheduler.Run.{Turn, next_turn, flush_work, requeue_task, requeue_private}
use boost_asio.System.{
  Pc, entering, in_operation, flushed, stopping, leaving, Thread, Outside, after_turn, head, wake,
  left_pc, or_same, Move, System, Step, Reach,
}
use boost_asio.System.Balance.{
  weight, thread_count, thread_weight, all_work, IsBalanced, Step-IsBalanced, total-descriptors,
}

-- What a thread's own count says about its own queue.
abbrev pub IsLocal : Pc → ThreadInfo → Type 0
IsLocal (in_operation o) t = t.private_outstanding_work ≡ total weight t.private_op_queue
IsLocal flushed t = t.private_outstanding_work ≡ 0
IsLocal stopping t = t.private_outstanding_work ≡ 0
IsLocal leaving t = t.private_outstanding_work ≡ 0
IsLocal _ t = (t.private_outstanding_work ≡ 0) × (total weight t.private_op_queue ≡ 0)

after_turn-IsLocal :
    (s : Scheduler) (turn : Turn) (t : ThreadInfo)
    → t.private_outstanding_work ≡ 0
    → total weight t.private_op_queue ≡ 0
    → IsLocal (after_turn (s, turn)).1 t
unfolding after_turn
after_turn-IsLocal s turn t c q = ground arith

head-IsLocal :
    (s : Scheduler) (t : ThreadInfo)
    → t.private_outstanding_work ≡ 0
    → total weight t.private_op_queue ≡ 0
    → IsLocal (head s).1 t
unfolding head
head-IsLocal s t c q = after_turn-IsLocal (next_turn s).0 (next_turn s).1 t c q

wake-IsLocal :
    (s : Scheduler) (t : ThreadInfo)
    → t.private_outstanding_work ≡ 0
    → total weight t.private_op_queue ≡ 0
    → IsLocal (wake s).1 t
unfolding wake
wake-IsLocal s t c q = elim (Bool-cases (is_set (drop_waiter s.wakeup_event))) [
  | inl e ↦
      rw (e, wake) (head-IsLocal (record s { wakeup_event = drop_waiter s.wakeup_event }) t c q)
  | inr e ↦ rw (e, wake) (c, q)
]

post-IsLocal :
    (s : Scheduler) (t : ThreadInfo) (b : ℕ) (c : Bool)
    → t.private_outstanding_work ≡ total weight t.private_op_queue
    → let t' = or_same t (post_immediate_completion s (some t) (handler b) c).1 in
      t'.private_outstanding_work ≡ total weight t'.private_op_queue
unfolding post_immediate_completion push
post-IsLocal s t b c h = ground (arith, total-append weight t.private_op_queue (handler b ∷ []))

io-IsLocal :
    (s : Scheduler) (t : ThreadInfo) (ops : List Operation)
    → s.one_thread ≡ false
    → or_same t (post_deferred_completions s (some t) ops).1 ≡ t
unfolding post_deferred_completions
io-IsLocal s t ops one = ground arith

finish-IsLocal :
    (b : Bool) (t : ThreadInfo)
    → t.private_outstanding_work ≡ 0
    → IsLocal (if b then stopping else leaving) t
finish-IsLocal true t h = h
finish-IsLocal false t h = h

leave-IsLocal :
    (s : Scheduler) (t : ThreadInfo)
    → t.private_outstanding_work ≡ 0
    → IsLocal (left_pc (requeue_private s t).2) (requeue_private s t).1
unfolding requeue_private push_queue
leave-IsLocal s t h = ground arith

flush_work-empties :
    (s : Scheduler) (t : ThreadInfo) → (flush_work s t).1.private_outstanding_work ≡ 0
unfolding flush_work
flush_work-empties s t = refl

Move-IsLocal :
    {s : Scheduler} {t : ThreadInfo} {w : Outside} {p : Pc} {s' : Scheduler} {p' : Pc}
    {t' : ThreadInfo} {w' : Outside}
    → s.one_thread ≡ false
    → Move s t w p s' p' t' w'
    → IsLocal p t
    → IsLocal p' t'
unfolding requeue_task requeue_private push push_queue compensating_work_started flush_work
Move-IsLocal {s} {t} one Move.look h = head-IsLocal s t h.0 h.1
Move-IsLocal {s} {t} one Move.wakes h = wake-IsLocal s t h.0 h.1
Move-IsLocal {t} one (Move.poll ready) h =
    ground (
      arith,
      total-append weight t.private_op_queue (map descriptor ready),
      total-descriptors ready,
    )
Move-IsLocal one Move.flush_task h = (refl, h.1)
Move-IsLocal {s} {t} one Move.requeue h =
    head-IsLocal (requeue_task s t).0 (requeue_task s t).1 h.0 refl
Move-IsLocal one (Move.calls a c) h = h
Move-IsLocal {s} {t} one (Move.post a b c) h = post-IsLocal s t b c h
Move-IsLocal {s} {t} one (Move.io d a b n ops e) h =
    ground (arith, io-IsLocal s t (map handler (b ∷ ops)) one)
Move-IsLocal one (Move.io_one d a n e) h = h
Move-IsLocal one (Move.flush a) h = refl
Move-IsLocal {s} {t} one Move.finish h = finish-IsLocal _ t h
Move-IsLocal one Move.stops h = h
Move-IsLocal {s} {t} one Move.leave h = leave-IsLocal s t h

abbrev pub ThreadIsLocal : Thread → Type 0
ThreadIsLocal th = IsLocal th.pc th.info

pub record Books (y : System) : Type 0 where
  pub balanced : IsBalanced y
  pub local : All ThreadIsLocal y.threads

Step-Books : {y z : System} → Step y z → Books y → Books z
Step-Books {y} (Step.move i {p} {p'} {t} {t'} at m) v = record {
  balanced = Step-IsBalanced (Step.move i at m) v.balanced;
  local =
      All-set ThreadIsLocal y.threads i (record { pc = p'; info = t' }) v.local
        (Move-IsLocal v.balanced.single m (All-get_elem? ThreadIsLocal y.threads i v.local at));
}
Step-Books (Step.outside_call c) v = record {
  balanced = Step-IsBalanced (Step.outside_call c) v.balanced;
  local = v.local;
}
Step-Books (Step.outside_post a c) v = record {
  balanced = Step-IsBalanced (Step.outside_post a c) v.balanced;
  local = v.local;
}
Step-Books (Step.outside_cancel n ops h) v = record {
  balanced = Step-IsBalanced (Step.outside_cancel n ops h) v.balanced;
  local = v.local;
}
Step-Books (Step.enter h) v = record {
  balanced = Step-IsBalanced (Step.enter h) v.balanced;
  local = ((refl, refl), v.local);
}
Step-Books (Step.enter_idle h) v = record {
  balanced = Step-IsBalanced (Step.enter_idle h) v.balanced;
  local = v.local;
}

pub Reach-Books : {y z : System} → Reach y z → Books y → Books z
Reach-Books Reach.here v = v
Reach-Books (Reach.next r st) v = Step-Books st (Reach-Books r v)

-- What the members that the constructor of the scheduler leaves uninitialised hold in memory: 0 and
-- false, as a scheduler is meant to start.
abbrev pub cleared : Memory
cleared = record {
  task = false;
  task_interrupted = false;
  outstanding_work = 0;
  stopped = false;
  shut_down = false;
}

-- A scheduler that is constructed in such memory, without threads, guards and operations.
abbrev pub start_system : ℕ → System
start_system hint = record {
  sched = construct cleared hint;
  threads = [];
  outside = record { guards = 0; pending = 0 };
}

pub start-Books : (hint : ℕ) → 1 < hint → Books (start_system hint)
unfolding construct
start-Books hint h = record { balanced = record { single = ground arith; even = refl }; local = tt }

-- The operations that a thread has begun and that still count.
abbrev pub in_hand : Thread → ℕ
in_hand th = elim th.pc [ in_operation o ↦ weight o | flushed ↦ 1 | _ ↦ 0 ]

IsLocal-in_hand :
    (p : Pc) (t : ThreadInfo)
    → IsLocal p t
    → thread_count (record { pc = p; info = t }) + in_hand (record { pc = p; info = t })
      ≤ thread_weight (record { pc = p; info = t })
IsLocal-in_hand entering t h = omega arith
IsLocal-in_hand p t h = omega arith

total-in_hand :
    (ths : List Thread)
    → All ThreadIsLocal ths
    → total thread_count ths + total in_hand ths ≤ total thread_weight ths
total-in_hand [] h = omega arith
total-in_hand (th ∷ ths) h = omega (arith, IsLocal-in_hand th.pc th.info h.0, total-in_hand ths h.1)

pub Reach-drained :
    {hint : ℕ} {y : System}
    → 1 < hint
    → Reach (start_system hint) y
    → all_work y < size_mod
    → y.sched.outstanding_work ≡ 0
    → (total weight y.sched.op_queue ≡ 0)
      × (total in_hand y.threads ≡ 0)
      × (y.outside.guards ≡ 0)
      × (y.outside.pending ≡ 0)
Reach-drained {hint} {y} many r fits zero_count =
    let v = Reach-Books r (start-Books hint many) in
    omega (arith, v.balanced.even, total-in_hand y.threads v.local)
