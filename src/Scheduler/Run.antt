-- ===== src/Scheduler/Run.antt =====
-- The part of boost_asio/scheduler.cc that runs handlers: `do_run_one`, the cleanups that leave its
-- blocks, and `run`.
use boost_asio.Base.{
  ℕ, zero, suc, ◌+◌, ◌-◌, ◌%◌, ◌==◌, ltb, if◌then◌else◌, Bool, true, false, not, ◌&&◌, Option, none,
  some, List, [], ◌∷◌, size_mod,
}
use boost_asio.OpQueue.{push, push_queue}
use boost_asio.Event.{unlock_and_signal_one, clear}
use boost_asio.Scheduler.{
  Operation, task_operation, handler, descriptor, ThreadInfo, Scheduler, stop, work_finished,
}

-- What one round of the loop in `do_run_one` has found under the lock: to return 0, to wait with the
-- lock held, or to run the task or an operation with the lock released.
pub data Turn : Type 0 where
  quit : Turn
  sleep : Turn
  run_task : (more_handlers : Bool) → Turn
  run_operation : Operation → Turn

abbrev pub is_empty : List Operation → Bool
is_empty [] = true
is_empty (o ∷ q) = false

-- `if (more_handlers && !one_thread_) wakeup_event_.unlock_and_signal_one(lock); else
-- lock.unlock();`
unfoldable pub leave_queue : Scheduler → Bool → Scheduler
leave_queue s more_handlers =
    if more_handlers && not s.one_thread
    then record s { wakeup_event = (unlock_and_signal_one s.wakeup_event).0 }
    else s

-- A round that takes the operation `o` off the queue and leaves `rest`.
unfoldable pub take_operation : Scheduler → Operation → List Operation → Scheduler × Turn
take_operation s task_operation rest =
    let more_handlers = not (is_empty rest) in
    (
      leave_queue (record s { op_queue = rest; task_interrupted = more_handlers }) more_handlers,
      run_task more_handlers,
    )
take_operation s (handler a) rest =
    (leave_queue (record s { op_queue = rest }) (not (is_empty rest)), run_operation (handler a))
take_operation s (descriptor a) rest =
    (leave_queue (record s { op_queue = rest }) (not (is_empty rest)), run_operation (descriptor a))

-- A round up to where it blocks or releases the lock, on the queue at hand.
unfoldable pub look : Scheduler → List Operation → Scheduler × Turn
look s [] = (record s { wakeup_event = clear s.wakeup_event }, sleep)
look s (o ∷ rest) = take_operation s o rest

unfoldable pub next_turn : Scheduler → Scheduler × Turn
next_turn s = if s.stopped then (s, quit) else look s s.op_queue

-- The first half of both cleanups: the thread's private count goes to the shared one.
unfoldable pub flush_work : Scheduler → ThreadInfo → Scheduler × ThreadInfo
flush_work s t = (
  (if ltb 0 t.private_outstanding_work
      then record s {
        outstanding_work = (s.outstanding_work + t.private_outstanding_work) % size_mod;
      }
      else s),
  record t { private_outstanding_work = 0 },
)

-- The second half of `~task_cleanup`, which takes the lock.
unfoldable pub requeue_task : Scheduler → ThreadInfo → Scheduler × ThreadInfo
requeue_task s t = (
  record s {
    op_queue = push (push_queue s.op_queue t.private_op_queue).0 task_operation;
    task_interrupted = true;
  },
  record t { private_op_queue = (push_queue s.op_queue t.private_op_queue).1 },
)

-- `~task_cleanup`: the lock is held afterwards.
unfoldable pub task_cleanup : Scheduler → ThreadInfo → Scheduler × ThreadInfo
task_cleanup s t = let (s', t') = flush_work s t in requeue_task s' t'

-- The end of `~work_cleanup`, with whether the lock is held afterwards: it is taken only if the
-- thread's own queue has entries.
unfoldable pub requeue_private : Scheduler → ThreadInfo → Scheduler × ThreadInfo × Bool
requeue_private s t =
    if not (is_empty t.private_op_queue)
    then (
      record s { op_queue = (push_queue s.op_queue t.private_op_queue).0 },
      record t { private_op_queue = (push_queue s.op_queue t.private_op_queue).1 },
      true,
    )
    else (s, t, false)

-- `~work_cleanup`
unfoldable pub work_cleanup : Scheduler → ThreadInfo → Scheduler × ThreadInfo × Bool
work_cleanup s t = let (s', t') = flush_work s t in requeue_private (work_finished s') t'

-- What the scheduler calls and this code does not implement: the handlers (`complete`, which runs in
-- the thread whose record it gets), the reactor's `run` (with whether more handlers wait, onto the
-- thread's own queue), and what the other threads have done when a wait returns, if it does. `W` is
-- the state that these keep.
pub record Environment (W : Type 0) : Type 0 where
  pub complete : Operation → Scheduler → ThreadInfo → W → Scheduler × ThreadInfo × W
  pub task_run : Bool → List Operation → W → List Operation × W
  pub wait : Scheduler → W → Option (Scheduler × W)

-- How a call of `do_run_one` ends.
pub data Outcome (W : Type 0) : Type 0 where
  done_one : Scheduler → ThreadInfo → W → (owns_lock : Bool) → Outcome W  -- it returns 1
  done_none : Scheduler → ThreadInfo → W → Outcome W  -- it returns 0
  blocked : Outcome W  -- a wait never returns
  out_of_fuel : Outcome W

-- How a call of `run` ends: it returns the count, or `lock.lock()` throws `std::system_error` since
-- the lock is held already.
pub data RunResult (W : Type 0) : Type 0 where
  returned : ℕ → Scheduler → W → RunResult W
  thrown : ℕ → Scheduler → W → RunResult W
  stuck : RunResult W
  no_fuel : RunResult W

-- `if (n != max) ++n;`
unfoldable pub count_one : ℕ → ℕ
count_one n = if n == size_mod - 1 then n else suc n

module _ {W : Type 0} (env : Environment W) where
  -- the block that runs an operation, up to `return 1`
  unfoldable pub complete_operation : Operation → Scheduler → ThreadInfo → W → Outcome W
  complete_operation o s t w =
      let (s', t', w') = env.complete o s t w in
      let (s'', t'', owns) = work_cleanup s' t' in done_one s'' t'' w' owns

  -- the block that runs the task, back to the head of the loop
  unfoldable pub complete_task : Bool → Scheduler → ThreadInfo → W → Scheduler × ThreadInfo × W
  complete_task more_handlers s t w =
      let (ops, w') = env.task_run more_handlers t.private_op_queue w in
      let (s', t') = task_cleanup s (record t { private_op_queue = ops }) in (s', t', w')

  -- What follows a round; `again` is the head of the loop.
  unfoldable pub act :
      (Scheduler → ThreadInfo → W → Outcome W) → Scheduler × Turn → ThreadInfo → W → Outcome W
  act again (s, quit) t w = done_none s t w
  act again (s, sleep) t w = elim (env.wait s w) [ none ↦ blocked | some (s', w') ↦ again s' t w' ]
  act again (s, run_task more) t w = let (s', t', w') = complete_task more s t w in again s' t' w'
  act again (s, run_operation o) t w = complete_operation o s t w

  -- `do_run_one`, entered with the lock held
  unfoldable pub do_run_one : ℕ → Scheduler → ThreadInfo → W → Outcome W
  do_run_one zero s t w = out_of_fuel
  do_run_one (suc fuel) s t w = act (do_run_one fuel) (next_turn s) t w

  -- the body and the step of the `for` loop in `run`, after a call of `do_run_one`: `again` is the
  -- loop
  unfoldable pub step_loop :
      (ℕ → Scheduler → ThreadInfo → W → RunResult W) → ℕ → Outcome W → RunResult W
  step_loop again n (done_one s t w true) = thrown (count_one n) s w
  step_loop again n (done_one s t w false) = again (count_one n) s t w
  step_loop again n (done_none s t w) = returned n s w
  step_loop again n blocked = stuck
  step_loop again n out_of_fuel = no_fuel

  -- the loop of `run`, entered with the lock held; `rounds` is its fuel and `fuel` that of each call
  unfoldable pub run_loop : ℕ → ℕ → ℕ → Scheduler → ThreadInfo → W → RunResult W
  run_loop zero fuel n s t w = no_fuel
  run_loop (suc rounds) fuel n s t w = step_loop (run_loop rounds fuel) n (do_run_one fuel s t w)

  unfoldable pub run : ℕ → ℕ → Scheduler → W → RunResult W
  run rounds fuel s w =
      let loop =
        run_loop rounds fuel 0 s (record { private_op_queue = []; private_outstanding_work = 0 })
          w in
      if s.outstanding_work == 0 then returned 0 (stop s) w else loop
