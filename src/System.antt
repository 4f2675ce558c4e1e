-- ===== src/System.antt =====
-- The threads that are inside `scheduler::run` (boost_asio/scheduler.cc), interleaved with each
-- other and with threads outside: what happens while the mutex is held is one step, and so is each
-- access to the atomic count of work. A blocked thread may wake at any time. A handler posts,
-- dispatches, starts and ends work, stops, restarts and calls `init_task`, any number of times; the
-- reactor (boost_asio/epoll_reactor.cc) finds any descriptors ready. `shutdown` is not among the
-- steps.
pub mod Balance
pub mod Drained
pub mod Task
pub mod Wakeup
pub mod Blocked
pub mod Conserved
pub mod Fifo
mod Tests
use boost_asio.Base.{
  ℕ, zero, suc, ◌+◌, ◌==◌, if◌then◌else◌, Bool, true, false, ◌≡◌, ◌≢◌, Option, none, some, List, [],
  ◌∷◌, ◌++◌, map, length, get_elem?, set,
}
use boost_asio.Event.{is_set, add_waiter, drop_waiter}
use boost_asio.Scheduler.{
  Operation, task_operation, handler, descriptor, ThreadInfo, Scheduler, stop, restart,
  work_started, decrement_work, do_dispatch, post_immediate_completion, post_deferred_completion,
  post_deferred_completions, init_task,
}
use boost_asio.Scheduler.Run.{
  Turn, quit, sleep, run_task, run_operation, next_turn, flush_work, requeue_task, requeue_private,
}

-- Where a thread stands in `run`.
pub data Pc : Type 0 where
  entering : Pc  -- about to lock the mutex and to look at the head of the loop in `do_run_one`
  waiting : Pc  -- blocked in `wakeup_event_.wait`
  in_task : Pc  -- in `task_->run`
  task_flushed : Pc  -- in `~task_cleanup`, about to lock
  in_operation : Operation → Pc  -- in `o->complete`
  flushed : Pc  -- in `~work_cleanup`, about to call `work_finished`
  stopping : Pc  -- in `work_finished`, about to call `stop`
  leaving : Pc  -- in `~work_cleanup`, about to look at its own queue
  returned : Pc  -- `run` has returned
  threw : Pc  -- `run` has thrown

pub record Thread : Type 0 where
  pub pc : Pc
  pub info : ThreadInfo

-- Work that is counted, and that is in no queue: `guards` work guards, and `pending` operations in
-- the reactor's queues.
pub record Outside : Type 0 where
  pub guards : ℕ
  pub pending : ℕ

-- From the head of the loop, with the lock held.
unfoldable pub after_turn : Scheduler × Turn → Scheduler × Pc
after_turn (s, quit) = (s, returned)
after_turn (s, sleep) = (record s { wakeup_event = add_waiter s.wakeup_event }, waiting)
after_turn (s, run_task more) = (s, in_task)
after_turn (s, run_operation o) = (s, in_operation o)

unfoldable pub head : Scheduler → Scheduler × Pc
head s = after_turn (next_turn s)

-- A blocked thread has the lock again: out of the loop in `event::wait` if the event is set, and
-- around it once more if not.
pub wake : Scheduler → Scheduler × Pc
wake s =
    let s' = record s { wakeup_event = drop_waiter s.wakeup_event } in
    if is_set s'.wakeup_event
    then head s'
    else (record s' { wakeup_event = add_waiter s'.wakeup_event }, waiting)

-- `work_finished` behind its decrement
abbrev pub finished_pc : Scheduler → Pc
finished_pc s = if s.outstanding_work == 0 then stopping else leaving

-- Behind `~work_cleanup`: `run` locks again, and throws if the lock is held.
abbrev pub left_pc : Bool → Pc
left_pc true = threw
left_pc false = entering

-- The calls that do not depend on the thread they are made in.
pub data Call : Type 0 where
  dispatch : ℕ → Call  -- do_dispatch
  guard : Call  -- work_started, by a work guard
  unguard : Call  -- the decrement of work_finished, by a work guard
  start : Call  -- work_started, by `start_op` of the reactor
  halt : Call  -- stop
  resume : Call  -- restart
  init : Call  -- init_task

-- What a call takes from and adds to the work outside, as far as there is some.
pub data Calls (s : Scheduler) : Call → Outside → Scheduler → Outside → Type 0 where
  dispatches : (a : ℕ) {w : Outside} → Calls s (dispatch a) w (do_dispatch s (handler a)) w
  guards : {w : Outside} → Calls s guard w (work_started s) (record w { guards = suc w.guards })
  unguards :
      {w : Outside} (n : ℕ)
      → w.guards ≡ suc n
      → Calls s unguard w (decrement_work s) (record w { guards = n })
  starts : {w : Outside} → Calls s start w (work_started s) (record w { pending = suc w.pending })
  halts : {w : Outside} → Calls s halt w (stop s) w
  resumes : {w : Outside} → Calls s resume w (restart s) w
  inits : {w : Outside} → Calls s init w (init_task s) w

abbrev pub or_same : ThreadInfo → Option ThreadInfo → ThreadInfo
or_same t none = t
or_same t (some t') = t'

-- One step of a thread inside `run`.
pub data Move (s : Scheduler) (t : ThreadInfo) (w : Outside)
    : Pc → Scheduler → Pc → ThreadInfo → Outside → Type 0 where
  look : Move s t w entering (head s).0 (head s).1 t w
  wakes : Move s t w waiting (wake s).0 (wake s).1 t w
  poll :
      (ready : List ℕ)
      → Move s t w in_task s in_task
          (record t { private_op_queue = t.private_op_queue ++ map descriptor ready })
          w
  flush_task : Move s t w in_task (flush_work s t).0 task_flushed (flush_work s t).1 w
  requeue :
      Move s t w task_flushed
        (head (requeue_task s t).0).0
        (head (requeue_task s t).0).1
        (requeue_task s t).1
        w
  calls :
      (a : ℕ) {c : Call} {s' : Scheduler} {w' : Outside}
      → Calls s c w s' w'
      → Move s t w (in_operation (handler a)) s' (in_operation (handler a)) t w'
  post :
      (a b : ℕ) (is_continuation : Bool)
      → Move s t w
          (in_operation (handler a))
          (post_immediate_completion s (some t) (handler b) is_continuation).0
          (in_operation (handler a))
          (or_same t (post_immediate_completion s (some t) (handler b) is_continuation).1)
          w
  -- `perform_io` completes `b` and `ops` beside `a`, and `a` runs at once. Where it completes
  -- nothing its cleanup is undefined, and there is no step.
  io :
      (d a b n : ℕ) (ops : List ℕ)
      → w.pending ≡ suc (length (b ∷ ops)) + n
      → Move s t w
          (in_operation (descriptor d))
          (post_deferred_completions s (some t) (map handler (b ∷ ops))).0
          (in_operation (handler a))
          (or_same t (post_deferred_completions s (some t) (map handler (b ∷ ops))).1)
          (record w { pending = n })
  io_one :
      (d a n : ℕ)
      → w.pending ≡ suc n
      → Move s t w
          (in_operation (descriptor d))
          s
          (in_operation (handler a))
          t
          (record w { pending = n })
  flush :
      (a : ℕ)
      → Move s t w (in_operation (handler a)) (flush_work s t).0 flushed (flush_work s t).1 w
  finish : Move s t w flushed (decrement_work s) (finished_pc (decrement_work s)) t w
  stops : Move s t w stopping (stop s) leaving t w
  leave :
      Move s t w leaving
        (requeue_private s t).0
        (left_pc (requeue_private s t).2)
        (requeue_private s t).1
        w

pub record System : Type 0 where
  pub sched : Scheduler
  pub threads : List Thread
  pub outside : Outside

pub data Step (y : System) : System → Type 0 where
  move :
      (i : ℕ) {p p' : Pc} {t t' : ThreadInfo} {s' : Scheduler} {w' : Outside}
      → get_elem? y.threads i ≡ some (record { pc = p; info = t })
      → Move y.sched t y.outside p s' p' t' w'
      → Step y (record {
        sched = s';
        threads = set y.threads i (record { pc = p'; info = t' });
        outside = w';
      })
  -- a call by a thread that is not in `run`
  outside_call :
      {c : Call} {s' : Scheduler} {w' : Outside}
      → Calls y.sched c y.outside s' w'
      → Step y (record y { sched = s'; outside = w' })
  outside_post :
      (a : ℕ) (is_continuation : Bool)
      → Step y (record y {
        sched = (post_immediate_completion y.sched none (handler a) is_continuation).0;
      })
  -- a completion that the reactor gives back to a cancelled operation
  outside_cancel :
      (n : ℕ) (ops : List ℕ)
      → y.outside.pending ≡ length ops + n
      → Step y (record y {
        sched = (post_deferred_completions y.sched none (map handler ops)).0;
        outside = record { guards = y.outside.guards; pending = n };
      })
  -- a thread calls `run` while work is outstanding
  enter :
      y.sched.outstanding_work ≢ 0
      → Step y (record y {
        threads =
            record {
              pc = entering;
              info = record { private_op_queue = []; private_outstanding_work = 0 };
            }
            ∷ y.threads;
      })
  -- a thread calls `run` and finds no work
  enter_idle : y.sched.outstanding_work ≡ 0 → Step y (record y { sched = stop y.sched })

pub data Reach (y : System) : System → Type 0 where
  here : Reach y y
  next : {z u : System} → Reach y z → Step z u → Reach y u
