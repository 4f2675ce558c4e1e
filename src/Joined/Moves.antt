-- ===== src/Joined/Moves.antt =====
-- Each function of the reactor does to the scheduler what a step of System does.
use boost_asio.Base.{
  ℕ, suc, ◌+◌, ◌≡◌, refl, sym, ap, Bool, none, some, List, [], ◌∷◌, ◌++◌, map, length,
  length-append, arith,
}
use mathlib.Core.Path.{subst}
use boost_asio.Scheduler.{
  handler, descriptor, ThreadInfo, Scheduler, work_started, post_immediate_completion,
  post_deferred_completions,
}
use boost_asio.Reactor.{
  Events, OpType, read_op, write_op, except_op, ReactorOp, PerType, at, put, DescriptorState,
  Kernel, Started,
}
use boost_asio.Reactor.Io.{handlers, io_cleanup, perform_all}
use boost_asio.Reactor.Io.Laws.{addresses, perform_all_splits}
use boost_asio.Reactor.Laws.{Handled, immediate, queued}
use boost_asio.Reactor.Closing.{take_types}
use boost_asio.Reactor.Closing.Laws.{cleared, take_types-eq}
use boost_asio.System.{in_operation, Outside, System, starts, Move, Step, or_same}
use boost_asio.Joined

length-addresses : (q : List ReactorOp) → length (addresses q) ≡ length q
length-addresses [] = refl
length-addresses (op ∷ q) = ap suc (length-addresses q)

pub handlers-addresses : (q : List ReactorOp) → handlers q ≡ map handler (addresses q)
handlers-addresses [] = refl
handlers-addresses (op ∷ q) = ap (◌∷◌ (handler op.address)) (handlers-addresses q)

length_parts :
    (x left q : List ReactorOp)
    → addresses (x ++ left) ≡ addresses q
    → length x + length left ≡ length q
length_parts x left q e =
    omega
      (arith, length-append x left, length-addresses (x ++ left), length-addresses q, ap length e)

module _ {W : Type 0} (k : Kernel W) where
  -- `perform_io` takes off the queues what it completes.
  pub queued-perform_all :
      (events : Events) (s : DescriptorState) (w : W)
      → length (perform_all k events s w).ops + Joined.queued (perform_all k events s w).state
        ≡ Joined.queued s
  queued-perform_all events s w =
      let p = perform_all k events s w in
      let (x, y, z, ops, e, wr, r, _, _, _) = perform_all_splits k events s w in
      omega (
        arith,
        ap length ops,
        length-append (x ++ y) z,
        length-append x y,
        length_parts x p.state.op_queue.except s.op_queue.except e,
        length_parts y p.state.op_queue.write s.op_queue.write wr,
        length_parts z p.state.op_queue.read s.op_queue.read r,
      )

-- The cleanup of `perform_io` is the step of System that takes as many operations from the reactor.
pub io_cleanup-Move :
    (s : Scheduler) (t : ThreadInfo) (o : Outside) (d m : ℕ) (op : ReactorOp) (ops : List ReactorOp)
    → o.pending ≡ suc (length ops) + m
    → let r = io_cleanup s (some t) (some op) ops in
      Move s t o
        (in_operation (descriptor d))
        r.0
        (in_operation (handler op.address))
        (or_same t r.1)
        (record o { pending = m })
unfolding io_cleanup
io_cleanup-Move s t o d m op [] h = Move.io_one d op.address m (omega (arith, h))
io_cleanup-Move s t o d m op (b ∷ ops) h =
    rw (handlers-addresses ops)
      (Move.io d op.address b.address m (addresses ops) (rw (length-addresses ops) h))

abbrev pub waiting : PerType (List ReactorOp) → ℕ
waiting q = length q.read + length q.write + length q.except

waiting-put :
    (q : PerType (List ReactorOp)) (ty : OpType) (op : ReactorOp)
    → waiting (put q ty (at q ty ++ op ∷ [])) ≡ suc (waiting q)
waiting-put q read_op op = omega (arith, length-append q.read (op ∷ []))
waiting-put q write_op op = omega (arith, length-append q.write (op ∷ []))
waiting-put q except_op op = omega (arith, length-append q.except (op ∷ []))

module _ {W : Type 0} where
  -- `start_op` in a handler is the step that posts, or the one that starts work in the reactor.
  pub started-Move :
      (s : Scheduler) (t : ThreadInfo) (o : Outside) (a m address : ℕ) (is_continuation : Bool)
      (st : DescriptorState) (ty : OpType) (r : Started W)
      → Handled
          (record { sched = s; thread = some t; is_continuation = is_continuation })
          st
          ty
          address
          r
      → m + Joined.queued st ≡ o.pending + Joined.queued r.state
      → Move s t o
          (in_operation (handler a))
          r.sched
          (in_operation (handler a))
          (or_same t r.thread)
          (record o { pending = m })
  started-Move s t o a m address c st ty r (immediate op e f q same) h =
      subst
        (λ x.
          Move s t o (in_operation (handler a)) x.0 (in_operation (handler a)) (or_same t x.1)
            (record o { pending = m }))
        (sym same)
        (subst
          (λ n.
            Move s t o (in_operation (handler a))
              (post_immediate_completion s (some t) (handler address) c).0
              (in_operation (handler a))
              (or_same t (post_immediate_completion s (some t) (handler address) c).1)
              (record o { pending = n }))
          (omega (arith, h, ap waiting q)) (Move.post a address c))
  started-Move s t o a m address c st ty r (queued op e f q same thread) h =
      rw (same, thread)
        (subst
          (λ n.
            Move s t o (in_operation (handler a)) (work_started s) (in_operation (handler a)) t
              (record o { pending = n }))
          (omega (arith, h, ap waiting q, waiting-put st.op_queue ty op)) (Move.calls a starts))

  -- The same outside of `run`.
  pub started-Step :
      (y : System) (m address : ℕ) (is_continuation : Bool) (st : DescriptorState) (ty : OpType)
      (r : Started W)
      → Handled
          (record { sched = y.sched; thread = none; is_continuation = is_continuation })
          st
          ty
          address
          r
      → m + Joined.queued st ≡ y.outside.pending + Joined.queued r.state
      → Step y (record y { sched = r.sched; outside = record y.outside { pending = m } })
  started-Step y m address c st ty r (immediate op e f q same) h =
      subst (λ x. Step y (record y { sched = x.0; outside = record y.outside { pending = m } }))
        (sym same)
        (subst
          (λ n. Step y (record y {
            sched = (post_immediate_completion y.sched none (handler address) c).0;
            outside = record y.outside { pending = n };
          }))
          (omega (arith, h, ap waiting q)) (Step.outside_post address c))
  started-Step y m address c st ty r (queued op e f q same thread) h = rw same (
      subst
        (λ n.
          Step y
            (record y { sched = work_started y.sched; outside = record y.outside { pending = n } }))
        (omega (arith, h, ap waiting q, waiting-put st.op_queue ty op)) (Step.outside_call starts))

length-cleared : (q : List ReactorOp) → length (map cleared q) ≡ length q
length-cleared [] = refl
length-cleared (op ∷ q) = ap suc (length-cleared q)

length-take_types : (q : PerType (List ReactorOp)) → length (take_types q) ≡ waiting q
length-take_types q = omega (
  arith,
  ap length (take_types-eq q),
  length-append (map cleared q.read ++ map cleared q.write) (map cleared q.except),
  length-append (map cleared q.read) (map cleared q.write),
  length-cleared q.read,
  length-cleared q.write,
  length-cleared q.except,
)

-- Giving all operations of a descriptor back is the step that cancels as many.
pub given_back-Step :
    (y : System) (q : PerType (List ReactorOp)) (m : ℕ)
    → y.outside.pending ≡ waiting q + m
    → Step y (record y {
      sched = (post_deferred_completions y.sched none (handlers (take_types q))).0;
      outside = record y.outside { pending = m };
    })
given_back-Step y q m h = rw (handlers-addresses (take_types q)) (
    Step.outside_cancel m (addresses (take_types q))
      (omega (arith, h, length-addresses (take_types q), length-take_types q)))
