-- ===== src/System/Blocked.antt =====
-- In every reachable state the event word of boost_asio/event.hpp counts the threads that are
-- blocked in `run` of boost_asio/scheduler.cc, and no blocked thread sleeps through queued work.
use boost_asio.Base.{
  ℕ, zero, suc, ◌+◌, ◌-◌, ◌/◌, ◌%◌, ◌^◌, ◌≤◌, ◌<◌, ◌≡◌, refl, ap, ◌≢◌, ◌==◌, if◌then◌else◌, Bool,
  true, false, none, some, List, [], ◌∷◌, map, length, total, total-set, le-total, get_elem?, set,
  arith,
}
use boost_asio.OpQueue.{push, push_queue}
use boost_asio.Event.{Event, new_event, is_set, drop_waiter}
use boost_asio.Event.Laws.{to_bit}
use boost_asio.Scheduler.{
  Operation, handler, ThreadInfo, Scheduler, construct, work_started, decrement_work,
  post_immediate_completion, post_deferred_completions,
}
use boost_asio.Scheduler.Run.{requeue_task}
use boost_asio.System.{
  Pc, waiting, Thread, Outside, head, wake, Move, System, Step, Reach, stopping, leaving,
}
use boost_asio.System.Drained.{start_system}
use boost_asio.System.Wakeup.{
  blocked, thrown, has_entries, Awake, Signalled, Signalled-Awake, stop-Signalled, head-Awake,
  wake-Awake, Quiet-Awake, flush_work-Quiet, Calls-Awake, post-Awake, io-Awake, leave-Awake,
  enqueue_and_wake-Signalled, splice_and_wake-Signalled,
}

finished-blocked :
    (b : Bool)
    → (blocked (if b then stopping else leaving) ≡ 0)
      × (thrown (if b then stopping else leaving) ≡ 0)
finished-blocked true = (refl, refl)
finished-blocked false = (refl, refl)

resize : {s : Scheduler} {w w' k k' : ℕ} → w ≡ w' → k ≡ k' → Awake s w k → Awake s w' k'
resize e f v = ground arith

-- `n` other threads are blocked, `k` have thrown.
Move-Awake :
    {s : Scheduler} {t : ThreadInfo} {w : Outside} {p : Pc} {s' : Scheduler} {p' : Pc}
    {t' : ThreadInfo} {w' : Outside} (n k : ℕ)
    → Move s t w p s' p' t' w'
    → suc n < 2 ^ 62
    → Awake s (n + blocked p) (k + thrown p)
    → Awake s' (n + blocked p') (k + thrown p')
unfolding requeue_task decrement_work push push_queue
Move-Awake {s} n k Move.look lt v =
    head-Awake s n k v.single (omega (arith, v.counted)) v.stopped_set (omega arith)
Move-Awake {s} n k Move.wakes lt v = wake-Awake s n k (resize (omega arith) (omega arith) v) lt
Move-Awake n k (Move.poll ready) lt v = v
Move-Awake {s} {t} n k Move.flush_task lt v = Quiet-Awake (flush_work-Quiet s t) v
Move-Awake {s} {t} n k Move.requeue lt v =
    head-Awake (requeue_task s t).0 n k v.single (omega (arith, v.counted)) v.stopped_set
      (omega arith)
Move-Awake n k (Move.calls a c) lt v = Calls-Awake _ _ c v
Move-Awake {s} {t} n k (Move.post a b c) lt v = post-Awake s t _ _ _ _ v
Move-Awake {s} {t} n k (Move.io d a b m ops e) lt v = io-Awake s t _ _ _ v
Move-Awake n k (Move.io_one d a m e) lt v = v
Move-Awake {s} {t} n k (Move.flush a) lt v = Quiet-Awake (flush_work-Quiet s t) v
Move-Awake {s} n k Move.finish lt v =
    let (b, c) = finished-blocked ((decrement_work s).outstanding_work == 0) in
    resize (omega (arith, b)) (omega (arith, c))
      (Quiet-Awake (record { single = refl; event = refl; stopped = refl; queue = refl }) v)
Move-Awake {s} n k Move.stops lt v = Signalled-Awake (stop-Signalled s) v.single v.counted
Move-Awake {s} {t} n k Move.leave lt v = leave-Awake s t n k (resize (omega arith) (omega arith) v)

abbrev pub thread_blocked : Thread → ℕ
thread_blocked th = blocked th.pc

abbrev pub thread_thrown : Thread → ℕ
thread_thrown th = thrown th.pc

abbrev SystemAwake : System → Type 0
SystemAwake y = Awake y.sched (total thread_blocked y.threads) (total thread_thrown y.threads)

blocked-le : (p : Pc) → blocked p ≤ 1
blocked-le p = ground arith

total-blocked-le : (ths : List Thread) → total thread_blocked ths ≤ length ths
total-blocked-le [] = omega arith
total-blocked-le (th ∷ ths) = omega (arith, blocked-le th.pc, total-blocked-le ths)

length-set : (ths : List Thread) (i : ℕ) (th : Thread) → length (set ths i th) ≡ length ths
length-set [] i th = refl
length-set (x ∷ ths) zero th = refl
length-set (x ∷ ths) (suc i) th = ap suc (length-set ths i th)

outside_post-Signalled :
    (s : Scheduler) (a : ℕ) (c : Bool)
    → Signalled s (post_immediate_completion s none (handler a) c).0
unfolding post_immediate_completion work_started
outside_post-Signalled s a c =
    let g = enqueue_and_wake-Signalled (work_started s) (handler a) in
    record { single = g.single; counted = g.counted; is_set = g.is_set }

-- Threads only ever join, so a bound on their number holds before the step too.
Step-length : {y z : System} → Step y z → length y.threads ≤ length z.threads
Step-length {y} (Step.move i {p'} {t'} at m) =
    omega (arith, length-set y.threads i (record { pc = p'; info = t' }))
Step-length (Step.outside_call c) = omega arith
Step-length (Step.outside_post a c) = omega arith
Step-length (Step.outside_cancel n ops h) = omega arith
Step-length (Step.enter h) = omega arith
Step-length (Step.enter_idle h) = omega arith

Step-SystemAwake :
    {y z : System} → Step y z → length y.threads < 2 ^ 61 → SystemAwake y → SystemAwake z
unfolding post_deferred_completions
Step-SystemAwake {y} (Step.move i {p} {p'} {t} {t'} at m) lt v =
    let old : Thread = record { pc = p; info = t } in
    let new : Thread = record { pc = p'; info = t' } in
    let b = total-set thread_blocked y.threads i old new at in
    let c = total-set thread_thrown y.threads i old new at in
    let b_le = le-total thread_blocked y.threads i old at in
    let c_le = le-total thread_thrown y.threads i old at in
    resize (omega (arith, b, b_le)) (omega (arith, c, c_le)) (
      Move-Awake (total thread_blocked y.threads - blocked p)
        (total thread_thrown y.threads - thrown p) m (omega (arith, total-blocked-le y.threads))
        (resize (omega (arith, b_le)) (omega (arith, c_le)) v))
Step-SystemAwake (Step.outside_call c) lt v = Calls-Awake _ _ c v
Step-SystemAwake {y} (Step.outside_post a c) lt v =
    Signalled-Awake (outside_post-Signalled y.sched a c) v.single v.counted
Step-SystemAwake {y} (Step.outside_cancel n ops h) lt v =
    Signalled-Awake (splice_and_wake-Signalled y.sched (map handler ops)) v.single v.counted
Step-SystemAwake (Step.enter h) lt v = resize (omega arith) (omega arith) v
Step-SystemAwake {y} (Step.enter_idle h) lt v =
    Signalled-Awake (stop-Signalled y.sched) v.single v.counted

Reach-SystemAwake :
    {y z : System} → Reach y z → length z.threads < 2 ^ 61 → SystemAwake y → SystemAwake z
Reach-SystemAwake Reach.here lt v = v
Reach-SystemAwake (Reach.next {z} r st) lt v =
    let before : length z.threads < 2 ^ 61 = omega (arith, Step-length st) in
    Step-SystemAwake st before (Reach-SystemAwake r before v)

start-SystemAwake : (hint : ℕ) → 1 < hint → SystemAwake (start_system hint)
unfolding construct new_event
start-SystemAwake hint h = record {
  single = ground arith;
  counted = refl;
  stopped_set = omega arith;
  queue_set = omega arith;
}

-- In every state that threads, handlers, work guards and the reactor can reach from a scheduler for
-- several threads whose uninitialised members held 0 and false in memory, with less than 2 ^ 61
-- threads: half of the event's word is the number of threads that are blocked in `run`, and the
-- event is set if the scheduler is stopped.
pub Reach-blocked :
    {hint : ℕ} {y : System}
    → 1 < hint
    → Reach (start_system hint) y
    → length y.threads < 2 ^ 61
    → (y.sched.wakeup_event.state / 2 ≡ total thread_blocked y.threads)
      × (to_bit y.sched.stopped ≤ y.sched.wakeup_event.state % 2)
Reach-blocked {hint} many r lt =
    let v = Reach-SystemAwake r lt (start-SystemAwake hint many) in (v.counted, v.stopped_set)

wake_set :
    (s : Scheduler)
    → is_set (drop_waiter s.wakeup_event) ≡ true
    → wake s ≡ head (record s { wakeup_event = drop_waiter s.wakeup_event })
unfolding wake
wake_set s h = rw (h, wake)

drop_waiter_set :
    (e : Event)
    → 1 ≤ e.state % 2
    → 1 ≤ e.state / 2
    → e.state / 2 < 2 ^ 62
    → is_set (drop_waiter e) ≡ true
unfolding is_set drop_waiter
drop_waiter_set e h k lt = ground arith

has_entries-le : (q : List Operation) → q ≢ [] → 1 ≤ has_entries q
has_entries-le [] h = absurd (h refl)
has_entries-le (o ∷ q) h = omega arith

-- In every state that can be reached from a scheduler for several threads whose uninitialised
-- members held 0 and false in memory, with less than 2 ^ 61 threads: if operations are queued and
-- no thread has left `run` by an exception, a blocked thread that wakes leaves `event::wait` and
-- looks at the queue: it does not block again.
pub Reach-wakes :
    {hint : ℕ} {y : System} (i : ℕ) {t : ThreadInfo}
    → 1 < hint
    → Reach (start_system hint) y
    → length y.threads < 2 ^ 61
    → y.sched.op_queue ≢ []
    → total thread_thrown y.threads ≡ 0
    → get_elem? y.threads i ≡ some (record { pc = waiting; info = t })
    → wake y.sched ≡ head (record y.sched { wakeup_event = drop_waiter y.sched.wakeup_event })
Reach-wakes {hint} {y} i {t} many r lt queued none_thrown at =
    let v = Reach-SystemAwake r lt (start-SystemAwake hint many) in
    let some_blocked = le-total thread_blocked y.threads i (record { pc = waiting; info = t }) at in
    let set = has_entries-le y.sched.op_queue queued in
    wake_set y.sched (
      drop_waiter_set y.sched.wakeup_event (omega (arith, set, v.queue_set))
        (omega (arith, v.counted)) (omega (arith, v.counted, total-blocked-le y.threads)))
