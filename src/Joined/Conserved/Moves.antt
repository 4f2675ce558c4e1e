-- ===== src/Joined/Conserved/Moves.antt =====
-- What the functions of boost_asio/epoll_reactor.cc do to the operations that wait, are queued or
-- run.
use boost_asio.Base.{
  ℕ, ◌+◌, ◌≡◌, refl, ap, Bool, false, none, some, List, [], ◌∷◌, ◌++◌, map, total, total-append,
  arith,
}
use boost_asio.Scheduler.{
  handler, descriptor, ThreadInfo, Scheduler, work_started, post_deferred_completions,
}
use boost_asio.Scheduler.Fields.{splice_and_wake-Same}
use boost_asio.Reactor.{
  Events, OpType, read_op, write_op, except_op, ReactorOp, PerType, at, put, DescriptorState,
  Kernel, Started,
}
use boost_asio.Reactor.Io.{handlers, io_cleanup, perform_all}
use boost_asio.Reactor.Io.Laws.{addresses, perform_all_splits}
use boost_asio.Reactor.Laws.{Handled, immediate, queued}
use boost_asio.Reactor.Closing.{take_types}
use boost_asio.Reactor.Closing.Laws.{cleared, take_types-eq}
use boost_asio.System.{Pc, in_operation, or_same}
use boost_asio.System.Conserved.{same, count, copies}
use boost_asio.System.Conserved.Moves.{
  together, total-handlers, post-conserve, post_inside-conserve, io-conserve,
}
use boost_asio.Joined.Moves.{handlers-addresses}
use boost_asio.Joined.Conserved.{waits_in, waits_at}

count-addresses :
    (x : ℕ) (p q : List ReactorOp)
    → count x (addresses (p ++ q)) ≡ count x (addresses p) + count x (addresses q)
count-addresses x [] q = omega arith
count-addresses x (op ∷ p) q = omega (arith, count-addresses x p q)

count_parts :
    (x : ℕ) (p left q : List ReactorOp)
    → addresses (p ++ left) ≡ addresses q
    → count x (addresses p) + count x (addresses left) ≡ count x (addresses q)
count_parts x p left q e = omega (arith, count-addresses x p left, ap (count x) e)

-- `perform_io` takes off the queues what it completes.
pub perform_all-conserve :
    {W : Type 0} (k : Kernel W) (x : ℕ) (events : Events) (s : DescriptorState) (w : W)
    → let p = perform_all k events s w in
      count x (addresses p.ops) + waits_at x p.state ≡ waits_at x s
perform_all-conserve k x events s w =
    let p = perform_all k events s w in
    let (a, b, c, ops, e, wr, r, _, _, _) = perform_all_splits k events s w in
    omega (
      arith,
      ap (λ q. count x (addresses q)) ops,
      count-addresses x (a ++ b) c,
      count-addresses x a b,
      count_parts x a p.state.op_queue.except s.op_queue.except e,
      count_parts x b p.state.op_queue.write s.op_queue.write wr,
      count_parts x c p.state.op_queue.read s.op_queue.read r,
    )

-- The cleanup of `perform_io` queues them, but for the first, which runs.
pub io_cleanup-conserve :
    (x : ℕ) (s : Scheduler) (t : ThreadInfo) (d : ℕ) (op : ReactorOp) (ops : List ReactorOp)
    → s.one_thread ≡ false
    → let r = io_cleanup s (some t) (some op) ops in
      together x r.0 (in_operation (handler op.address)) (or_same t r.1)
      ≡ together x s (in_operation (descriptor d)) t + count x (addresses (op ∷ ops))
unfolding io_cleanup
io_cleanup-conserve x s t d op [] one = omega arith
io_cleanup-conserve x s t d op (b ∷ ops) one =
    rw (handlers-addresses ops) (io-conserve x s t d op.address (b.address ∷ addresses ops) one)

waits_in-put :
    (x : ℕ) (q : PerType (List ReactorOp)) (ty : OpType) (op : ReactorOp)
    → waits_in x (put q ty (at q ty ++ op ∷ [])) ≡ waits_in x q + count x (op.address ∷ [])
waits_in-put x q read_op op = omega (arith, count-addresses x q.read (op ∷ []))
waits_in-put x q write_op op = omega (arith, count-addresses x q.write (op ∷ []))
waits_in-put x q except_op op = omega (arith, count-addresses x q.except (op ∷ []))

module _ {W : Type 0} (x : ℕ) (s : Scheduler) (address : ℕ) (is_continuation : Bool)
    (st : DescriptorState) (ty : OpType) (r : Started W) where
  -- `start_op` in a handler
  pub started-conserve :
      (t : ThreadInfo) (p : Pc)
      → Handled
          (record { sched = s; thread = some t; is_continuation = is_continuation })
          st
          ty
          address
          r
      → together x r.sched p (or_same t r.thread) + waits_at x r.state
        ≡ together x s p t + waits_at x st + count x (address ∷ [])
  unfolding work_started
  started-conserve t p (immediate op e f q eq) = omega (
    arith,
    ap (λ y. together x y.0 p (or_same t y.1)) eq,
    post_inside-conserve x s p t address is_continuation,
    ap (waits_in x) q,
  )
  started-conserve t p (queued op e f q eq thread) = omega (
    arith,
    ap (λ s'. total (copies x) s'.op_queue) eq,
    ap (λ t'. total (copies x) (or_same t t').private_op_queue) thread,
    ap (waits_in x) q,
    waits_in-put x st.op_queue ty op,
    ap (same x) e,
  )

  -- The same outside of `run`.
  pub started_outside-conserve :
      Handled
        (record { sched = s; thread = none; is_continuation = is_continuation })
        st
        ty
        address
        r
      → total (copies x) r.sched.op_queue + waits_at x r.state
        ≡ total (copies x) s.op_queue + waits_at x st + count x (address ∷ [])
  unfolding work_started
  started_outside-conserve (immediate op e f q eq) = omega (
    arith,
    ap (λ y. total (copies x) y.0.op_queue) eq,
    post-conserve x s address is_continuation,
    ap (waits_in x) q,
  )
  started_outside-conserve (queued op e f q eq thread) = omega (
    arith,
    ap (λ s'. total (copies x) s'.op_queue) eq,
    ap (waits_in x) q,
    waits_in-put x st.op_queue ty op,
    ap (same x) e,
  )

count-cleared :
    (x : ℕ) (q : List ReactorOp) → count x (addresses (map cleared q)) ≡ count x (addresses q)
count-cleared x [] = refl
count-cleared x (op ∷ q) = omega (arith, count-cleared x q)

-- Giving all operations of a descriptor back queues them.
pub given_back-conserve :
    (x : ℕ) (s : Scheduler) (q : PerType (List ReactorOp))
    → total (copies x) (post_deferred_completions s none (handlers (take_types q))).0.op_queue
      ≡ total (copies x) s.op_queue + waits_in x q
unfolding post_deferred_completions
given_back-conserve x s q =
    let spliced = splice_and_wake-Same s (handlers (take_types q)) in
    omega (
      arith,
      ap (total (copies x)) spliced.queue,
      total-append (copies x) s.op_queue (handlers (take_types q)),
      ap (total (copies x)) (handlers-addresses (take_types q)),
      total-handlers x (addresses (take_types q)),
      ap (λ ops. count x (addresses ops)) (take_types-eq q),
      count-addresses x (map cleared q.read ++ map cleared q.write) (map cleared q.except),
      count-addresses x (map cleared q.read) (map cleared q.write),
      count-cleared x q.read,
      count-cleared x q.write,
      count-cleared x q.except,
    )
