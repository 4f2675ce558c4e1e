-- ===== src/Scheduler/Order.antt =====
-- What `run` of boost_asio/scheduler.cc does with the handlers that are queued.
use boost_asio.Base.{
  ℕ, suc, ◌+◌, ◌<◌, ◌≡◌, ap, ◌∙◌, ◌==◌, Bool, true, false, not, none, List, [], ◌∷◌, map, length,
  size_mod, arith,
}
use boost_asio.Scheduler.{
  Operation, handler, ThreadInfo, Scheduler, stop, stop_all_threads, interrupt_task, work_finished,
  decrement_work,
}
use boost_asio.Scheduler.Run.{
  run_operation, take_operation, look, next_turn, flush_work, requeue_private, work_cleanup,
  Environment, done_one, done_none, returned, complete_operation, act, step_loop, count_one,
  do_run_one, run_loop, run, leave_queue, is_empty,
}

abbrev pub new_thread : ThreadInfo
new_thread = record { private_op_queue = []; private_outstanding_work = 0 }

-- Handlers that only change their own state, by `f`; nothing else wakes a waiting thread.
abbrev pub plain : {W : Type 0} → (Operation → W → W) → Environment W
plain f = record {
  complete = λ o s t w. (s, t, f o w);
  task_run = λ more ops w. (ops, w);
  wait = λ s w. none;
}

-- The scheduler once the block of one operation is left, `rest` being what it has not taken.
after_one : Scheduler → List Operation → Scheduler
after_one s rest = work_finished (leave_queue (record s { op_queue = rest }) (not (is_empty rest)))

leave_queue_fields :
    (s : Scheduler) (more : Bool)
    → ((leave_queue s more).op_queue ≡ s.op_queue)
      × ((leave_queue s more).outstanding_work ≡ s.outstanding_work)
      × ((leave_queue s more).stopped ≡ s.stopped)
unfolding leave_queue
leave_queue_fields s more = ground arith

work_finished_more :
    (s : Scheduler) (k : ℕ)
    → suc k < size_mod
    → s.outstanding_work ≡ suc (suc k)
    → ((work_finished s).op_queue ≡ s.op_queue)
      × ((work_finished s).outstanding_work ≡ suc k)
      × ((work_finished s).stopped ≡ s.stopped)
unfolding work_finished decrement_work
work_finished_more s k lt h = ground arith

work_finished_last :
    (s : Scheduler)
    → s.outstanding_work ≡ 1
    → ((work_finished s).op_queue ≡ s.op_queue)
      × ((work_finished s).outstanding_work ≡ 0)
      × ((work_finished s).stopped ≡ true)
unfolding work_finished decrement_work stop stop_all_threads interrupt_task
work_finished_last s h = ground arith

pub next_turn-handler :
    (s : Scheduler) (a : ℕ) (rest : List Operation)
    → s.stopped ≡ false
    → s.op_queue ≡ handler a ∷ rest
    → next_turn s ≡ (
      leave_queue (record s { op_queue = rest }) (not (is_empty rest)),
      run_operation (handler a),
    )
unfolding next_turn look take_operation
next_turn-handler s a rest running queue = ground arith

after_one_more :
    (s : Scheduler) (rest : List Operation) (k : ℕ)
    → suc k < size_mod
    → s.outstanding_work ≡ suc (suc k)
    → ((after_one s rest).op_queue ≡ rest)
      × ((after_one s rest).outstanding_work ≡ suc k)
      × ((after_one s rest).stopped ≡ s.stopped)
unfolding after_one
after_one_more s rest k lt h =
    let left = leave_queue_fields (record s { op_queue = rest }) (not (is_empty rest)) in
    let done = work_finished_more _ k lt (left.1 ∙ h) in (done.0 ∙ left.0, done.1, done.2 ∙ left.2)

after_one_last :
    (s : Scheduler) (rest : List Operation)
    → s.outstanding_work ≡ 1
    → ((after_one s rest).op_queue ≡ rest)
      × ((after_one s rest).outstanding_work ≡ 0)
      × ((after_one s rest).stopped ≡ true)
unfolding after_one
after_one_last s rest h =
    let left = leave_queue_fields (record s { op_queue = rest }) (not (is_empty rest)) in
    let done = work_finished_last _ (left.1 ∙ h) in (done.0 ∙ left.0, done.1, done.2)

count_one-lt : (n : ℕ) → suc n < size_mod → count_one n ≡ suc n
unfolding count_one
count_one-lt n h = ground arith

module _ {W : Type 0} (f : Operation → W → W) where
  do_run_one-plain :
      (fuel : ℕ) (s : Scheduler) (a : ℕ) (rest : List Operation) (w : W)
      → s.stopped ≡ false
      → s.op_queue ≡ handler a ∷ rest
      → do_run_one (plain f) (suc fuel) s new_thread w
        ≡ done_one (after_one s rest) new_thread (f (handler a) w) false
  unfolding do_run_one act after_one complete_operation work_cleanup flush_work requeue_private
  do_run_one-plain fuel s a rest w running queue = rw (next_turn-handler s a rest running queue)

  do_run_one-stopped :
      (fuel : ℕ) (s : Scheduler) (t : ThreadInfo) (env : Environment W) (w : W)
      → s.stopped ≡ true
      → do_run_one env (suc fuel) s t w ≡ done_none s t w
  unfolding do_run_one act next_turn
  do_run_one-stopped fuel s t env w h = ground arith

  -- The handlers of a queue, run in order.
  abbrev pub run_each : List ℕ → W → W
  run_each [] w = w
  run_each (a ∷ rest) w = run_each rest (f (handler a) w)

  run_loop-handler :
      (rounds fuel n : ℕ) (s : Scheduler) (a : ℕ) (rest : List Operation) (w : W)
      → suc n < size_mod
      → s.stopped ≡ false
      → s.op_queue ≡ handler a ∷ rest
      → run_loop (plain f) (suc rounds) (suc fuel) n s new_thread w
        ≡ run_loop
            (plain f)
            rounds
            (suc fuel)
            (suc n)
            (after_one s rest)
            new_thread
            (f (handler a) w)
  unfolding run_loop step_loop
  run_loop-handler rounds fuel n s a rest w fits running queue =
      rw (do_run_one-plain fuel s a rest w running queue) (rw (count_one-lt n fits))

  pub run_loop-stopped :
      (rounds fuel n : ℕ) (s : Scheduler) (t : ThreadInfo) (env : Environment W) (w : W)
      → s.stopped ≡ true
      → run_loop env (suc rounds) (suc fuel) n s t w ≡ returned n s w
  unfolding run_loop step_loop
  run_loop-stopped rounds fuel n s t env w h = rw (do_run_one-stopped fuel s t env w h)

  -- What is left of a loop over a queue of handlers that are all the work there is.
  run_loop-plain :
      (a : ℕ) (ops : List ℕ) (rounds fuel n : ℕ) (s : Scheduler) (w : W)
      → s.op_queue ≡ map handler (a ∷ ops)
      → s.stopped ≡ false
      → s.outstanding_work ≡ suc (length ops)
      → n + suc (length ops) < size_mod
      → (s' : Scheduler) × (run_loop
            (plain f)
            (suc (suc (length ops)) + rounds)
            (suc fuel)
            n
            s
            new_thread
            w
          ≡ returned (n + suc (length ops)) s' (run_each (a ∷ ops) w))
        × (s'.stopped ≡ true)
        × (s'.outstanding_work ≡ 0)
        × (s'.op_queue ≡ [])
  run_loop-plain a [] rounds fuel n s w queue running work fits =
      let (empty, none_left, stopped) = after_one_last s [] work in
      let one : 2 + rounds ≡ suc (suc rounds) = omega arith in
      let count : n + 1 ≡ suc n = omega arith in
      (
        after_one s [],
        rw (one, count)
            (run_loop-handler (suc rounds) fuel n s a [] w (omega arith) running queue
              ∙ run_loop-stopped rounds fuel (suc n) (after_one s []) new_thread (plain f)
                  (f (handler a) w) stopped),
        stopped,
        none_left,
        empty,
      )
  run_loop-plain a (b ∷ ops) rounds fuel n s w queue running work fits =
      let k = length ops in
      let (rest, left, same) = after_one_more s (map handler (b ∷ ops)) k (omega arith) work in
      let later =
        run_loop-plain b ops rounds fuel (suc n) (after_one s (map handler (b ∷ ops)))
          (f (handler a) w) rest (same ∙ running) left (omega arith) in
      let one : suc (suc (suc k)) + rounds ≡ suc (suc (suc k) + rounds) = omega arith in
      let count : n + suc (suc k) ≡ suc n + suc k = omega arith in
      (
        later.0,
        rw (one, count)
            (run_loop-handler (suc (suc k) + rounds) fuel n s a (map handler (b ∷ ops)) w
                (omega arith) running queue
              ∙ later.1),
        later.2,
        later.3,
        later.4,
      )

  -- If the scheduler is not stopped, its queue holds only handlers that leave the scheduler alone,
  -- at least one and less than 2 ^ 64, and the count of outstanding work is their number, then
  -- `run` runs each of them once, in the order in which they were queued, returns how many, and
  -- stops the scheduler with no work and nothing queued. Two rounds of `run` more than there are
  -- further handlers are enough.
  pub run-plain :
      (a : ℕ) (ops : List ℕ) (rounds fuel : ℕ) (s : Scheduler) (w : W)
      → s.op_queue ≡ map handler (a ∷ ops)
      → s.stopped ≡ false
      → s.outstanding_work ≡ suc (length ops)
      → suc (length ops) < size_mod
      → (s' : Scheduler) × (run (plain f) (suc (suc (length ops)) + rounds) (suc fuel) s w
          ≡ returned (suc (length ops)) s' (run_each (a ∷ ops) w))
        × (s'.stopped ≡ true)
        × (s'.outstanding_work ≡ 0)
        × (s'.op_queue ≡ [])
  unfolding run
  run-plain a ops rounds fuel s w queue running work fits =
      let loop = run_loop-plain a ops rounds fuel 0 s w queue running work (omega arith) in
      let count : 0 + suc (length ops) ≡ suc (length ops) = omega arith in
      let busy : (s.outstanding_work == 0) ≡ false = ground arith in
      (
        loop.0,
        rw (busy, run) (loop.1 ∙ ap (λ m. returned m loop.0 (run_each (a ∷ ops) w)) count),
        loop.2,
        loop.3,
        loop.4,
      )
