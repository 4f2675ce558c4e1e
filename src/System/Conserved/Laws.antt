-- ===== src/System/Conserved/Laws.antt =====
-- Along every run of boost_asio/scheduler.cc the handlers balance.
use mathlib.Core.Path.{subst}
use boost_asio.Base.{
  ℕ, ◌+◌, ◌≤◌, ◌<◌, ◌≡◌, refl, ap, false, List, [], ◌∷◌, map, total, total-append, total-set,
  size_mod, All, arith,
}
use boost_asio.Scheduler.{
  Operation, task_operation, handler, descriptor, ThreadInfo, construct, post_deferred_completions,
}
use boost_asio.Scheduler.Fields.{stop-Same, splice_and_wake-Same}
use boost_asio.System.{Pc, returned, Thread, System, Step, Reach}
use boost_asio.System.Balance.{weight, all_work, IsBalanced, Step-IsBalanced}
use boost_asio.System.Drained.{
  start_system, IsLocal, ThreadIsLocal, Reach-Books, start-Books, Reach-drained,
}
use boost_asio.System.Conserved.{
  count, same, copies, carried, held_by, held, posted_by_step, finished_by_step, posted, finished,
}
use boost_asio.System.Conserved.Moves.{total-handlers, Calls-conserve, post-conserve, Move-conserve}

pub Step-conserve :
    (x : ℕ) {y z : System} (st : Step y z)
    → y.sched.one_thread ≡ false
    → held x z + count x (finished_by_step st) ≡ held x y + count x (posted_by_step st)
unfolding post_deferred_completions
Step-conserve x {y} (Step.move i {p} {p'} {t} {t'} at m) one =
    let old : Thread = record { pc = p; info = t } in
    let new : Thread = record { pc = p'; info = t' } in
    omega (arith, Move-conserve x m one, total-set (held_by x) y.threads i old new at)
Step-conserve x (Step.outside_call c) one = omega (arith, Calls-conserve x c)
Step-conserve x {y} (Step.outside_post a c) one = omega (arith, post-conserve x y.sched a c)
Step-conserve x {y} (Step.outside_cancel n ops h) one =
    let spliced = splice_and_wake-Same y.sched (map handler ops) in
    omega (
      arith,
      ap (total (copies x)) spliced.queue,
      total-append (copies x) y.sched.op_queue (map handler ops),
      total-handlers x ops,
    )
Step-conserve x (Step.enter h) one = omega arith
Step-conserve x {y} (Step.enter_idle h) one =
    let stopped = stop-Same y.sched in omega (arith, ap (total (copies x)) stopped.queue)

Reach-conserve :
    (x : ℕ) {y z : System} (r : Reach y z)
    → IsBalanced y
    → IsBalanced z × (held x z + count x (finished r) ≡ held x y + count x (posted r))
Reach-conserve x Reach.here v = (v, refl)
Reach-conserve x (Reach.next r st) v =
    let (balanced, even) = Reach-conserve x r v in
    (
      Step-IsBalanced st balanced,
      omega (
        arith,
        even,
        Step-conserve x st balanced.single,
        total-append (same x) (posted_by_step st) (posted r),
        total-append (same x) (finished_by_step st) (finished r),
      ),
    )

-- Along every run from a scheduler for several threads, whatever the threads, the handlers and the
-- reactor do and in whatever order: each handler has been finished as often as it was posted, less
-- the times it is queued, in the queue that the threads share or in one of their own, or running.
-- So no handler is lost, and none is run more often than it was posted.
pub Reach-conserved :
    {hint : ℕ} {y : System} (x : ℕ) (r : Reach (start_system hint) y)
    → 1 < hint
    → (count x (finished r) + held x y ≡ count x (posted r))
      × (count x (finished r) ≤ count x (posted r))
unfolding construct
Reach-conserved {hint} x r many =
    let (_, even) = Reach-conserve x r (start-Books hint many).balanced in
    (omega (arith, even), omega (arith, even))

copies-le-weight : (x : ℕ) (o : Operation) → copies x o ≤ weight o
copies-le-weight x task_operation = omega arith
copies-le-weight x (handler a) = ground arith
copies-le-weight x (descriptor d) = omega arith

pub total-copies-le : (x : ℕ) (q : List Operation) → total (copies x) q ≤ total weight q
total-copies-le x [] = omega arith
total-copies-le x (o ∷ q) = omega (arith, copies-le-weight x o, total-copies-le x q)

-- A thread that has returned holds nothing.
returned-held_one :
    (x : ℕ) (p : Pc) (t : ThreadInfo)
    → p ≡ returned
    → IsLocal p t
    → total (copies x) t.private_op_queue + carried x p ≡ 0
returned-held_one x p t e h =
    let (_, nothing) = subst (λ u. IsLocal u t) e h in
    rw e (omega (arith, nothing, total-copies-le x t.private_op_queue))

pub returned-held :
    (x : ℕ) (ths : List Thread)
    → All ThreadIsLocal ths
    → All (λ th. th.pc ≡ returned) ths
    → total (held_by x) ths ≡ 0
returned-held x [] h q = refl
returned-held x (th ∷ ths) h q =
    omega (arith, returned-held_one x th.pc th.info q.0 h.0, returned-held x ths h.1 q.1)

-- Along every run from a scheduler for several threads: if every thread has returned from `run`, and
-- the count of outstanding work is 0 where less than 2 ^ 64 units of work were there, then each
-- handler has been finished exactly as often as it was posted.
pub Reach-completes :
    {hint : ℕ} {y : System} (x : ℕ) (r : Reach (start_system hint) y)
    → 1 < hint
    → all_work y < size_mod
    → y.sched.outstanding_work ≡ 0
    → All (λ th. th.pc ≡ returned) y.threads
    → count x (finished r) ≡ count x (posted r)
Reach-completes {hint} {y} x r many fits idle left =
    let (queue, _, _, _) = Reach-drained many r fits idle in
    let v = Reach-Books r (start-Books hint many) in
    omega (
      arith,
      (Reach-conserved x r many).0,
      queue,
      total-copies-le x y.sched.op_queue,
      returned-held x y.threads v.local left,
    )
