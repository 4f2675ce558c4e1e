-- ===== src/IoContext/Lifetime/Laws.antt =====
-- An io_context of boost_asio/io_context.cc runs what is posted to its scheduler.
use boost_asio.Base.{
  ℕ, suc, ◌+◌, ◌%◌, ◌^◌, ◌<◌, ◌≡◌, refl, sym, ap, ◌∙◌, true, false, some, List, [], ◌∷◌, ◌++◌, map,
  length, size_mod, arith, append-nil, append_assoc,
}
use boost_asio.Base.Ends.{returns, throw_error}
use boost_asio.Scheduler.{
  Operation, handler, Scheduler, Memory, construct, work_started, enqueue_and_wake,
  wake_one_thread_and_unlock, interrupt_task, post_immediate_completion,
}
use boost_asio.Event.{maybe_unlock_and_signal_one}
use boost_asio.Scheduler.Fields.{enqueue_and_wake-Same}
use boost_asio.Scheduler.Run.{Environment, returned, run}
use boost_asio.Scheduler.Order.{plain, run_each, run-plain}
use boost_asio.ServiceRegistry.Laws.{make_service-first}
use boost_asio.IoContext.Lifetime.{IoContext, add_impl, io_context_default, io_run, post_each}

-- What posting one operation from outside of `run` does.
abbrev queue_one : ℕ → Scheduler → Scheduler
queue_one a s = enqueue_and_wake (work_started s) (handler a)

queue_one-stopped : (a : ℕ) (s : Scheduler) → (queue_one a s).stopped ≡ s.stopped
unfolding enqueue_and_wake work_started wake_one_thread_and_unlock interrupt_task
    maybe_unlock_and_signal_one
queue_one-stopped a s = ground arith

-- What posting some operations leaves.
record Queued (s s' : Scheduler) (ops : List ℕ) : Type 0 where
  queue : s'.op_queue ≡ s.op_queue ++ map handler ops
  work : s'.outstanding_work ≡ s.outstanding_work + length ops
  stopped : s'.stopped ≡ s.stopped

post_each-Queued :
    (ops : List ℕ) (s : Scheduler)
    → s.outstanding_work + length ops < size_mod
    → Queued s (post_each ops s) ops
unfolding post_each work_started post_immediate_completion
post_each-Queued [] s fits = record {
  queue = sym (append-nil _);
  work = omega arith;
  stopped = refl;
}
post_each-Queued (a ∷ ops) s fits =
    let one = enqueue_and_wake-Same (work_started s) (handler a) in
    let work1 : (queue_one a s).outstanding_work ≡ suc s.outstanding_work =
      omega (arith, one.work, fits) in
    let left = post_each-Queued ops (queue_one a s) (omega (arith, fits, work1)) in
    record {
      queue =
          left.queue
          ∙ ap (λ q. q ++ map handler ops) one.queue
          ∙ append_assoc s.op_queue (handler a ∷ []) (map handler ops);
      work = omega (arith, left.work, work1);
      stopped = left.stopped ∙ queue_one-stopped a s;
    }

abbrev pub run_handler : {W : Type 0} → (ℕ → W → W) → Operation → W → W
run_handler f (handler a) w = f a w
run_handler f _ w = w

-- The states that the handlers leave, one after the other.
abbrev pub each_in_turn : {W : Type 0} → (ℕ → W → W) → List ℕ → W → W
each_in_turn f [] w = w
each_in_turn f (a ∷ ops) w = each_in_turn f ops (f a w)

run_each-handlers :
    {W : Type 0} (f : ℕ → W → W) (ops : List ℕ) (w : W)
    → run_each (run_handler f) ops w ≡ each_in_turn f ops w
run_each-handlers f [] w = refl
run_each-handlers f (a ∷ ops) w = run_each-handlers f ops (f a w)

io_run-returned :
    {W : Type 0} (env : Environment W) (rounds fuel : ℕ) (c : IoContext) (w : W) {n : ℕ}
    {s : Scheduler} {w' : W}
    → run env rounds fuel c.impl w ≡ returned n s w'
    → io_run env rounds fuel c w ≡ some (returns (n, record c { impl = s }, w'))
unfolding io_run throw_error
io_run-returned env rounds fuel c w e = rw (e, io_run) refl

-- An io_context whose scheduler's members were 0 and false in memory, made for any number of
-- threads: the constructor returns it. If operations, at least one and fewer than 2 ^ 64, are then
-- posted to its scheduler by `post_immediate_completion` from outside of `run`, and only change
-- their own state, `run` of the io_context returns: it has run each of them once, in the order in
-- which they were posted, gives their number, and leaves the scheduler stopped, with no work and
-- nothing queued.
pub io_run-post_each :
    {W : Type 0} (f : ℕ → W → W) (key address cores a rounds fuel : ℕ) (ops : List ℕ) (m : Memory)
    (w : W)
    → m.outstanding_work ≡ 0
    → m.stopped ≡ false
    → suc (length ops) < size_mod
    → (made : IoContext) × (ended : IoContext) × (io_context_default key address m cores
        ≡ returns made)
      × (io_run
            (plain (run_handler f))
            (suc (suc (length ops)) + rounds)
            (suc fuel)
            (record made { impl = post_each (a ∷ ops) made.impl })
            w
          ≡ some (returns (suc (length ops), ended, each_in_turn f (a ∷ ops) w)))
      × (ended.impl.stopped ≡ true)
      × (ended.impl.outstanding_work ≡ 0)
      × (ended.impl.op_queue ≡ [])
unfolding io_context_default add_impl construct
io_run-post_each f key address cores a rounds fuel ops m w work running fits =
    let s = construct m ((1 + cores) % 2 ^ 32) in
    let made : IoContext = record { services = (key, address) ∷ []; impl = s } in
    let posted = post_each (a ∷ ops) s in
    let left = post_each-Queued (a ∷ ops) s (omega (arith, work, fits)) in
    let (s', ran, stopped, idle, empty) =
      run-plain (run_handler f) a ops rounds fuel posted w left.queue (left.stopped ∙ running)
        (omega (arith, left.work, work)) fits in
    (
      made,
      record made { impl = s' },
      rw (make_service-first key address, add_impl) refl,
      io_run-returned (plain (run_handler f)) (suc (suc (length ops)) + rounds) (suc fuel)
          (record made { impl = posted }) w
          (ran ∙ ap (returned (suc (length ops)) s') (run_each-handlers f (a ∷ ops) w)),
      stopped,
      idle,
      empty,
    )
