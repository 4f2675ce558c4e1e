-- ===== src/Scheduler/Running.antt =====
-- How `run` of boost_asio/scheduler.cc ends: on a stopped scheduler, without work, and after a
-- handler that leaves operations in its thread's own queue.
use boost_asio.Base.{
  ℕ, suc, ◌≡◌, refl, ap, ◌≢◌, ◌==◌, true, false, not, List, [], ◌∷◌, inl, inr, arith, Bool-cases,
}
use boost_asio.Scheduler.{
  Operation, handler, ThreadInfo, Scheduler, stop, stop_all_threads, interrupt_task,
}
use boost_asio.Scheduler.Run.{
  requeue_private, work_cleanup, Environment, done_one, returned, thrown, count_one,
  complete_operation, act, do_run_one, step_loop, run_loop, run, is_empty, leave_queue, flush_work,
}
use boost_asio.Scheduler.Order.{new_thread, next_turn-handler, run_loop-stopped}

stop_fields :
    (s : Scheduler)
    → ((stop s).stopped ≡ true)
      × ((stop s).op_queue ≡ s.op_queue)
      × ((stop s).outstanding_work ≡ s.outstanding_work)
unfolding stop stop_all_threads interrupt_task
stop_fields s = ground arith

-- The scheduler while the operation at the head of its queue runs.
abbrev pub taken : Scheduler → List Operation → Scheduler
taken s rest = leave_queue (record s { op_queue = rest }) (not (is_empty rest))

work_cleanup-holds :
    (s : Scheduler) (t : ThreadInfo) → t.private_op_queue ≢ [] → (work_cleanup s t).2 ≡ true
unfolding work_cleanup requeue_private flush_work
work_cleanup-holds s t h = ground arith

count_one-zero : count_one 0 ≡ 1
unfolding count_one
count_one-zero = refl

module _ {W : Type 0} (env : Environment W) where
  -- A scheduler that is stopped, or has no outstanding work, runs nothing: `run` returns 0, the
  -- queue, the handlers' state and the count of work are as they were, and the scheduler is stopped.
  pub run-stopped :
      (rounds fuel : ℕ) (s : Scheduler) (w : W)
      → (s.stopped ≡ false → s.outstanding_work ≡ 0)
      → (s' : Scheduler) × (run env (suc rounds) (suc fuel) s w ≡ returned 0 s' w)
        × (s'.stopped ≡ true)
        × (s'.op_queue ≡ s.op_queue)
        × (s'.outstanding_work ≡ s.outstanding_work)
  unfolding run
  run-stopped rounds fuel s w h = elim (Bool-cases (s.outstanding_work == 0)) [
    | inl idle ↦
        let (stopped, queue, work) = stop_fields s in (stop s, rw (idle, run), stopped, queue, work)
    | inr busy ↦
        let stopped : s.stopped ≡ true = ground arith in
        (
          s,
          rw (busy, run) (run_loop-stopped (λ o w. w) rounds fuel 0 s new_thread env w stopped),
          stopped,
          refl,
          refl,
        )
  ]

  complete_operation-holds :
      (a : ℕ) (s : Scheduler) (w : W) (s' : Scheduler) (t' : ThreadInfo) (w' : W)
      → env.complete (handler a) s new_thread w ≡ (s', t', w')
      → t'.private_op_queue ≢ []
      → complete_operation env (handler a) s new_thread w
        ≡ done_one (work_cleanup s' t').0 (work_cleanup s' t').1 w' true
  unfolding complete_operation
  complete_operation-holds a s w s' t' w' left nonempty =
      rw (left, complete_operation) (rw (work_cleanup-holds s' t' nonempty))

  -- If the scheduler is not stopped and has outstanding work, and the first handler leaves
  -- operations in its thread's own queue, `run` does not go on with them: it counts the handler,
  -- and `lock.lock()` throws, since `~work_cleanup` holds the lock.
  pub run-throws :
      (rounds fuel a : ℕ) (s : Scheduler) (rest : List Operation) (w : W) (s' : Scheduler)
      (t' : ThreadInfo) (w' : W)
      → s.stopped ≡ false
      → s.op_queue ≡ handler a ∷ rest
      → s.outstanding_work ≢ 0
      → env.complete (handler a) (taken s rest) new_thread w ≡ (s', t', w')
      → t'.private_op_queue ≢ []
      → run env (suc rounds) (suc fuel) s w ≡ thrown 1 (work_cleanup s' t').0 w'
  unfolding run run_loop step_loop do_run_one act
  run-throws rounds fuel a s rest w s' t' w' running queue busy left nonempty =
      let works : (s.outstanding_work == 0) ≡ false = ground arith in
      rw (works, run)
        (rw (next_turn-handler s a rest running queue) (
          rw (complete_operation-holds a (taken s rest) w s' t' w' left nonempty)
            (ap (λ n. thrown n (work_cleanup s' t').0 w') count_one-zero)))
