-- ===== src/Reactor/Io/Delivery.antt =====
-- Where the operations go that a ready descriptor of boost_asio/epoll_reactor.cc completes, and
-- which descriptors the reactor hands to the scheduler.
use boost_asio.Base.{
  ℕ, ◌+◌, ◌≤◌, ◌≡◌, refl, sym, ap, ◌∙◌, ◌⊎◌, inl, inr, ◌==◌, if◌then◌else◌, true, false, Option,
  none, some, List, [], ◌∷◌, ◌++◌, append-nil, total, total-append, min, arith,
}
use boost_asio.OpQueue.{front, pop, push, push_queue, is_enqueued}
use boost_asio.Scheduler.{
  Operation, task_operation, handler, descriptor, ThreadInfo, Scheduler, post_deferred_completions,
}
use mathlib.Core.Option.{none-ne-some, some-injective}
use boost_asio.Scheduler.Fields.{splice_and_wake-Same}
use boost_asio.Reactor.{Events, ReactorOp, DescriptorState, Kernel}
use boost_asio.Reactor.Io.{
  Progress, perform_all, take_first, perform_io, handlers, io_cleanup, Completed, after_perform_io,
  do_complete, Ready, interrupter, ready, same_operation, Results, run_event, run,
}

-- What `do_complete` leaves behind a `perform_io` that completed `op` and then `posted`.
abbrev pub completed_first :
    {W : Type 0}
    → Scheduler
    → Option ThreadInfo
    → Progress W
    → ReactorOp
    → List ReactorOp
    → Completed W
completed_first s t p op posted =
    let r = io_cleanup s t (some op) posted in
    record { sched = r.0; thread = r.1; state = p.state; runs = some op; world = p.world }

list_cases :
    (ops : List ReactorOp)
    → (ops ≡ []) ⊎ (op : ReactorOp) × (posted : List ReactorOp) × (ops ≡ op ∷ posted)
list_cases [] = inl refl
list_cases (op ∷ posted) = inr (op, posted, refl)

io_cleanup-Posts :
    (s : Scheduler) (t : ThreadInfo) (op : ReactorOp) (posted : List ReactorOp)
    → s.one_thread ≡ false
    → let r = io_cleanup s (some t) (some op) posted in
      (r.0.op_queue ≡ s.op_queue ++ handlers posted)
      × (r.0.outstanding_work ≡ s.outstanding_work)
      × (r.1 ≡ some t)
unfolding io_cleanup post_deferred_completions
io_cleanup-Posts s t op [] one = (sym (append-nil s.op_queue), refl, refl)
io_cleanup-Posts s t op (o ∷ ops) one =
    let same = splice_and_wake-Same s (handlers (o ∷ ops)) in
    (ground (arith, same), ground (arith, same), ground arith)

take_first-some :
    {W : Type 0} (p : Progress W) (op : ReactorOp) (posted : List ReactorOp)
    → p.ops ≡ op ∷ posted
    → take_first p
      ≡ some (record { state = p.state; first_op = some op; ops = posted; world = p.world })
unfolding take_first front pop
take_first-some p op posted h = rw h refl

module _ {W : Type 0} (k : Kernel W) where
  pub do_complete-some :
      (events : Events) (s : Scheduler) (t : Option ThreadInfo) (d : DescriptorState) (w : W)
      (op : ReactorOp) (posted : List ReactorOp)
      → let p = perform_all k events d w in
        p.ops ≡ op ∷ posted
        → do_complete k true events s t d w ≡ some (completed_first s t p op posted)
  unfolding do_complete perform_io after_perform_io
  do_complete-some events s t d w op posted h =
      ap (after_perform_io s t) (take_first-some (perform_all k events d w) op posted h)

  -- With nothing completed `io_cleanup.ops_.pop()` is called on an empty queue, which is undefined.
  pub do_complete-none :
      (events : Events) (s : Scheduler) (t : Option ThreadInfo) (d : DescriptorState) (w : W)
      → (perform_all k events d w).ops ≡ []
      → do_complete k true events s t d w ≡ none
  unfolding do_complete perform_io take_first after_perform_io pop
  do_complete-none events s t d w h = rw h refl

  -- Where `do_complete` has a result, it ran the first operation that was completed.
  pub do_complete-first :
      (events : Events) (s : Scheduler) (t : Option ThreadInfo) (d : DescriptorState) (w : W)
      {r : Completed W}
      → do_complete k true events s t d w ≡ some r
      → (op : ReactorOp) × (posted : List ReactorOp) × ((perform_all k events d w).ops
          ≡ op ∷ posted)
        × (r ≡ completed_first s t (perform_all k events d w) op posted)
  do_complete-first events s t d w e = elim (list_cases (perform_all k events d w).ops) [
    | inl h ↦ absurd (none-ne-some _ (sym (do_complete-none events s t d w h) ∙ e))
    | inr (op, posted, h) ↦
        (op, posted, h, some-injective _ _ (sym e ∙ do_complete-some events s t d w op posted h))
  ]

  -- The same, given the operation that it ran.
  pub do_complete-runs :
      (events : Events) (s : Scheduler) (t : Option ThreadInfo) (d : DescriptorState) (w : W)
      {r : Completed W} {op : ReactorOp}
      → do_complete k true events s t d w ≡ some r
      → r.runs ≡ some op
      → (posted : List ReactorOp) × ((perform_all k events d w).ops ≡ op ∷ posted)
        × (r ≡ completed_first s t (perform_all k events d w) op posted)
  do_complete-runs events s t d w e runs =
      let p = perform_all k events d w in
      let (first, posted, done, same) = do_complete-first events s t d w e in
      let is_first = some-injective _ _ (sym (ap (λ r. r.runs) same) ∙ runs) in
      (
        posted,
        done ∙ ap (λ o. o ∷ posted) is_first,
        same ∙ ap (λ o. completed_first s t p o posted) is_first,
      )

  -- In a scheduler for one thread, with `do_complete` called inside `run`, where `perform_io` has
  -- completed at least two operations: the first runs, and the others are in no queue afterwards,
  -- since the scheduler is as before and the thread's own queue is empty, whatever it held.
  pub do_complete_loses :
      (events : Events) (s : Scheduler) (t : ThreadInfo) (d : DescriptorState) (w : W)
      (op b : ReactorOp) (rest : List ReactorOp)
      → s.one_thread ≡ true
      → (perform_all k events d w).ops ≡ op ∷ b ∷ rest
      → (r : Completed W) × (do_complete k true events s (some t) d w ≡ some r)
        × (r.runs ≡ some op)
        × (r.sched ≡ s)
        × (r.thread ≡ some (record t { private_op_queue = [] }))
  unfolding io_cleanup post_deferred_completions push_queue
  do_complete_loses events s t d w op b rest one h = (
    completed_first s (some t) (perform_all k events d w) op (b ∷ rest),
    do_complete-some events s (some t) d w op (b ∷ rest) h,
    refl,
    ground arith,
    ground arith,
  )

  -- In a scheduler for several threads, with `do_complete` called inside `run`. Where `perform_io`
  -- has completed an operation, the first that it completed runs at once, the others are posted
  -- behind the scheduler's queue, in order, and the shared count of work, the thread's own count
  -- and its own queue stay. Where it has completed none, the code pops an empty queue, and its
  -- behaviour is undefined.
  pub do_complete_all :
      (events : Events) (s : Scheduler) (t : ThreadInfo) (d : DescriptorState) (w : W)
      → s.one_thread ≡ false
      → let ops = (perform_all k events d w).ops in
        let result = do_complete k true events s (some t) d w in
        ((ops ≡ []) × (result ≡ none))
        ⊎ (r : Completed W) × (op : ReactorOp) × (posted : List ReactorOp) × (result ≡ some r)
          × (ops ≡ op ∷ posted)
          × (r.runs ≡ some op)
          × (r.sched.op_queue ≡ s.op_queue ++ handlers posted)
          × (r.sched.outstanding_work ≡ s.outstanding_work)
          × (r.thread ≡ some t)
  do_complete_all events s t d w one =
      let p = perform_all k events d w in
      elim (list_cases p.ops) [
        | inl h ↦ inl (h, do_complete-none events s (some t) d w h)
        | inr (op, posted, h) ↦ inr (
          completed_first s (some t) p op posted,
          op,
          posted,
          do_complete-some events s (some t) d w op posted h,
          h,
          refl,
          (io_cleanup-Posts s t op posted one).0,
          (io_cleanup-Posts s t op posted one).1,
          (io_cleanup-Posts s t op posted one).2,
        )
      ]

-- How often a descriptor stands in a queue, and how often the kernel has reported it.
abbrev pub is_descriptor : ℕ → Operation → ℕ
is_descriptor d (descriptor a) = if a == d then 1 else 0
is_descriptor d (handler a) = 0
is_descriptor d task_operation = 0

abbrev pub reported : ℕ → Ready → ℕ
reported d interrupter = 0
reported d (ready a e) = if a == d then 1 else 0

abbrev pub is_other : Operation → ℕ
is_other (descriptor a) = 0
is_other (handler a) = 1
is_other task_operation = 1

is_enqueued-total :
    (ops : List Operation) (d : ℕ)
    → is_enqueued same_operation ops (descriptor d)
      ≡ (if total (is_descriptor d) ops == 0 then false else true)
unfolding is_enqueued
is_enqueued-total [] d = refl
is_enqueued-total (task_operation ∷ ops) d = ground (arith, is_enqueued-total ops d)
is_enqueued-total (handler a ∷ ops) d = ground (arith, is_enqueued-total ops d)
is_enqueued-total (descriptor a ∷ ops) d = ground (arith, is_enqueued-total ops d)

run_event-once :
    (e : Ready) (ops : List Operation) (r : Results) (d : ℕ)
    → total (is_descriptor d) ops ≤ 1
    → total (is_descriptor d) (run_event e ops r).0
      ≡ min 1 (total (is_descriptor d) ops + reported d e)
unfolding run_event push
run_event-once interrupter ops r d h = omega arith
run_event-once (ready a e) ops r d h =
    ground (arith, is_enqueued-total ops a, total-append (is_descriptor d) ops (descriptor a ∷ []))

run_event-others :
    (e : Ready) (ops : List Operation) (r : Results)
    → total is_other (run_event e ops r).0 ≡ total is_other ops
unfolding run_event push
run_event-others interrupter ops r = refl
run_event-others (ready a e) ops r = ground (arith, total-append is_other ops (descriptor a ∷ []))

-- However often the kernel reports a descriptor, `epoll_reactor::run` leaves it in the queue once if
-- it was there once or was reported, and not at all if neither; it adds no other operation.
pub run-once :
    (events : List Ready) (ops : List Operation) (r : Results) (d : ℕ)
    → total (is_descriptor d) ops ≤ 1
    → (total (is_descriptor d) (run events ops r).0
        ≡ min 1 (total (is_descriptor d) ops + total (reported d) events))
      × (total is_other (run events ops r).0 ≡ total is_other ops)
unfolding run
run-once [] ops r d h = (omega arith, refl)
run-once (e ∷ events) ops r d h =
    let step = run_event-once e ops r d h in
    let (ops', r') = run_event e ops r in
    let rest = run-once events ops' r' d (omega (arith, step)) in
    (omega (arith, step, rest.0), rest.1 ∙ run_event-others e ops r)
