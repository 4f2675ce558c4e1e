-- ===== src/Joined/Conserved/Laws.antt =====
-- Along every run of boost_asio/scheduler.cc with boost_asio/epoll_reactor.cc the handlers and
-- operations balance.
use boost_asio.Base.{
  ℕ, ◌+◌, ◌≤◌, ◌<◌, ◌≡◌, refl, sym, ap, Bool, true, false, none, some, [], ◌∷◌, ◌++◌, total,
  total-append, total-set, get_elem?, set, arith,
}
use boost_asio.Scheduler.{handler, descriptor, ThreadInfo, construct}
use boost_asio.Reactor.{Events, ReactorOp, DescriptorState, Kernel, register_descriptor}
use boost_asio.Reactor.Io.{perform_all, Completed, do_complete}
use boost_asio.Reactor.Io.Delivery.{completed_first, do_complete-runs}
use boost_asio.Reactor.Io.Laws.{addresses}
use boost_asio.Reactor.Laws.{start_op-Handled}
use boost_asio.Reactor.Closing.{no_queues, give_back, take_types, cancel_ops, deregister_descriptor}
use boost_asio.Reactor.Closing.Laws.{deregister_descriptor-live}
use boost_asio.System.{in_operation, Thread, or_same}
use boost_asio.System.Drained.{start-Books, Reach-Books}
use boost_asio.System.Conserved.{same, count, held_by}
use boost_asio.System.Conserved.Laws.{Step-conserve}
use boost_asio.Joined.{
  Joined, Request, request, after_complete, after_start, after_closing, JoinedStep, JoinedReach,
}
use boost_asio.Joined.Refines.{closed_state, deregistered_state}
use boost_asio.Joined.Drained.{start_joined, JoinedReach-Reach}
use boost_asio.Joined.Conserved.{
  waits_in, waits_at, joined_held, begun_by, finished_by, begun, joined_finished,
}
use boost_asio.Joined.Conserved.Moves.{
  perform_all-conserve, io_cleanup-conserve, started-conserve, started_outside-conserve,
  given_back-conserve,
}

module _ {W : Type 0} (k : Kernel W) (x : ℕ) where
  complete-conserve :
      (j : Joined W) (i d : ℕ) (events : Events) (t : ThreadInfo) (s : DescriptorState)
      (op : ReactorOp) (r : Completed W)
      → j.sched.one_thread ≡ false
      → get_elem? j.threads i ≡ some (record { pc = in_operation (descriptor d); info = t })
      → get_elem? j.descriptors d ≡ some s
      → do_complete k true events j.sched (some t) s j.world ≡ some r
      → r.runs ≡ some op
      → joined_held x (after_complete j i d t op r) ≡ joined_held x j
  complete-conserve j i d events t s op r one at_i at_d e runs =
      let p = perform_all k events s j.world in
      let (ops, done, same_result) = do_complete-runs k events j.sched (some t) s j.world e runs in
      let c = completed_first j.sched (some t) p op ops in
      let before : Thread = record { pc = in_operation (descriptor d); info = t } in
      let after : Thread = record {
        pc = in_operation (handler op.address);
        info = or_same t c.thread;
      } in
      rw same_result (
        omega (
          arith,
          total-set (held_by x) j.threads i before after at_i,
          total-set (waits_at x) j.descriptors d s p.state at_d,
          perform_all-conserve k x events s j.world,
          ap (λ q. count x (addresses q)) done,
          io_cleanup-conserve x j.sched t d op ops one,
        ))

  start-conserve :
      (j : Joined W) (i a d : ℕ) (q : Request) (t : ThreadInfo) (s : DescriptorState)
      → get_elem? j.threads i ≡ some (record { pc = in_operation (handler a); info = t })
      → get_elem? j.descriptors d ≡ some s
      → let r = request k j (some t) s q in
        joined_held x (
          after_start j d
            (set j.threads i (record { pc = in_operation (handler a); info = or_same t r.thread }))
            r)
        ≡ joined_held x j + count x (q.op.address ∷ [])
  start-conserve j i a d q t s at_i at_d =
      let r = request k j (some t) s q in
      let before : Thread = record { pc = in_operation (handler a); info = t } in
      let after : Thread = record { pc = in_operation (handler a); info = or_same t r.thread } in
      omega (
        arith,
        total-set (held_by x) j.threads i before after at_i,
        total-set (waits_at x) j.descriptors d s r.state at_d,
        started-conserve x j.sched q.op.address q.is_continuation s q.ty r t
            (in_operation (handler a))
            (start_op-Handled k _ s q.ty q.op q.allow_speculative j.world),
      )

  start_outside-conserve :
      (j : Joined W) (d : ℕ) (q : Request) (s : DescriptorState)
      → get_elem? j.descriptors d ≡ some s
      → joined_held x (after_start j d j.threads (request k j none s q))
        ≡ joined_held x j + count x (q.op.address ∷ [])
  start_outside-conserve j d q s at_d =
      let r = request k j none s q in
      omega (
        arith,
        total-set (waits_at x) j.descriptors d s r.state at_d,
        started_outside-conserve x j.sched q.op.address q.is_continuation s q.ty r
            (start_op-Handled k _ s q.ty q.op q.allow_speculative j.world),
      )

  -- A descriptor that has lost its operations, which are given back.
  emptied-conserve :
      (j : Joined W) (d : ℕ) (s s' : DescriptorState) (w : W)
      → get_elem? j.descriptors d ≡ some s
      → s'.op_queue ≡ no_queues
      → joined_held x (after_closing j d s' (give_back j.sched none s' (take_types s.op_queue) w))
        ≡ joined_held x j
  unfolding give_back
  emptied-conserve j d s s' w at_d empty = omega (
    arith,
    total-set (waits_at x) j.descriptors d s s' at_d,
    ap (waits_in x) empty,
    given_back-conserve x j.sched s.op_queue,
  )

  cancel-conserve :
      (j : Joined W) (d : ℕ) (s s' : DescriptorState)
      → get_elem? j.descriptors d ≡ some s
      → (cancel_ops j.sched none (some s) j.world).state ≡ some s'
      → joined_held x (after_closing j d s' (cancel_ops j.sched none (some s) j.world))
        ≡ joined_held x j
  unfolding cancel_ops give_back
  cancel-conserve j d s s' at_d e =
      emptied-conserve j d s s' j.world at_d (sym (ap (λ r. r.op_queue) (closed_state e)))

  deregister-conserve :
      (j : Joined W) (d : ℕ) (closing : Bool) (s s' : DescriptorState)
      → get_elem? j.descriptors d ≡ some s
      → (deregister_descriptor k j.sched none (some s) closing j.world).state ≡ some s'
      → joined_held x
          (after_closing j d s' (deregister_descriptor k j.sched none (some s) closing j.world))
        ≡ joined_held x j
  unfolding give_back
  deregister-conserve j d closing s s' at_d e =
      let (alive, empty) = deregistered_state k j closing s s' e in
      rw (deregister_descriptor-live k j.sched none s closing j.world alive)
        (emptied-conserve j d s s' j.world at_d empty)

  registered_waits : (fd : ℕ) (w : W) → waits_at x (register_descriptor k fd w).0 ≡ 0
  unfolding register_descriptor
  registered_waits fd w = ground arith

  register-conserve :
      (j : Joined W) (fd : ℕ)
      → total (waits_at x) (j.descriptors ++ (register_descriptor k fd j.world).0 ∷ [])
        ≡ total (waits_at x) j.descriptors
  register-conserve j fd = omega (
    arith,
    total-append (waits_at x) j.descriptors ((register_descriptor k fd j.world).0 ∷ []),
    registered_waits fd j.world,
  )

  JoinedStep-conserve :
      {j j' : Joined W} (st : JoinedStep k j j')
      → j.sched.one_thread ≡ false
      → joined_held x j' + count x (finished_by st) ≡ joined_held x j + count x (begun_by st)
  JoinedStep-conserve (JoinedStep.other st same_work) one = omega (arith, Step-conserve x st one)
  JoinedStep-conserve {j} (JoinedStep.complete i d events {t} {s} {op} {r} at_i at_d e runs) one =
      omega (arith, complete-conserve j i d events t s op r one at_i at_d e runs)
  JoinedStep-conserve {j} (JoinedStep.start i a d q {t} {s} at_i at_d) one =
      omega (arith, start-conserve j i a d q t s at_i at_d)
  JoinedStep-conserve {j} (JoinedStep.start_outside d q {s} at_d) one =
      omega (arith, start_outside-conserve j d q s at_d)
  JoinedStep-conserve {j} (JoinedStep.cancel d {s} {s'} at_d e) one =
      omega (arith, cancel-conserve j d s s' at_d e)
  JoinedStep-conserve {j} (JoinedStep.deregister d closing {s} {s'} at_d e) one =
      omega (arith, deregister-conserve j d closing s s' at_d e)
  JoinedStep-conserve {j} (JoinedStep.register fd) one = omega (arith, register-conserve j fd)

  JoinedReach-conserve :
      {hint : ℕ} {w : W} {j : Joined W} (r : JoinedReach k (start_joined hint w) j)
      → 1 < hint
      → joined_held x j + count x (joined_finished r) ≡ count x (begun r)
  unfolding construct
  JoinedReach-conserve JoinedReach.here many = refl
  JoinedReach-conserve {hint} (JoinedReach.next r st) many =
      let books = Reach-Books (JoinedReach-Reach k r) (start-Books hint many) in
      omega (
        arith,
        JoinedReach-conserve r many,
        JoinedStep-conserve st books.balanced.single,
        total-append (same x) (begun_by st) (begun r),
        total-append (same x) (finished_by st) (joined_finished r),
      )

  -- Along every run of the scheduler, for several threads and with the members that its constructor
  -- leaves uninitialised 0 and false in memory, and the reactor together, in whatever order the
  -- threads, the handlers and the kernel act, as long as each ready descriptor completes an
  -- operation, without which the code is undefined, and `register_internal_descriptor`, which
  -- nothing calls, is not used: each handler that was posted, and each operation that was given to
  -- `start_op`, has been finished as often as it was begun, less the times it waits at a
  -- descriptor, is queued in the shared queue or in that of a thread, or runs. So none is lost
  -- between the descriptors and the threads, also if it is cancelled or its descriptor is
  -- deregistered, and none runs more often than it was begun.
  pub JoinedReach-conserved :
      {hint : ℕ} {w : W} {j : Joined W} (r : JoinedReach k (start_joined hint w) j)
      → 1 < hint
      → (count x (joined_finished r) + joined_held x j ≡ count x (begun r))
        × (count x (joined_finished r) ≤ count x (begun r))
  JoinedReach-conserved r many =
      (omega (arith, JoinedReach-conserve r many), omega (arith, JoinedReach-conserve r many))
