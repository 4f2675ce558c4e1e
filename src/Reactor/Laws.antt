-- ===== src/Reactor/Laws.antt =====
-- What `start_op` of boost_asio/epoll_reactor.cc does with an operation.
use boost_asio.Base.{
  ℕ, ◌≡◌, refl, ap, ◌≢◌, ◌==◌, if◌then◌else◌, Bool, false, not, ◌&&◌, ◌||◌, [], ◌∷◌, ◌++◌, arith,
  Bool-cases, if_both, inl, inr,
}
use boost_asio.OpQueue.{push}
use boost_asio.Scheduler.{handler, work_started, post_immediate_completion}
use boost_asio.Reactor.{
  no_events, either, is_none, only_out, OpType, read_op, write_op, except_op, Status, not_done,
  done, done_and_exhausted, ReactorOp, not_supported, at, put, DescriptorState, ctl_mod, Kernel,
  waits, posted, Started, Caller, post_op, queue_op, ask_for_out, after_attempt, attempted, attempt,
  register_interest, start_locked, start_op, no_ops, is_write, is_read,
}

-- An operation is handled if it is posted with all queues as they were, or if it is the last in
-- its queue, the others being as they were, and counted as work. Its result may have been set.
pub data Handled {W : Type 0} (c : Caller) (d : DescriptorState) (ty : OpType) (address : ℕ)
    (r : Started W) : Type 0 where
  immediate :
      (op : ReactorOp)
      → op.address ≡ address
      → r.fate ≡ posted op
      → r.state.op_queue ≡ d.op_queue
      → (r.sched, r.thread)
        ≡ post_immediate_completion c.sched c.thread (handler address) c.is_continuation
      → Handled c d ty address r
  queued :
      (op : ReactorOp)
      → op.address ≡ address
      → r.fate ≡ waits
      → r.state.op_queue ≡ put d.op_queue ty (at d.op_queue ty ++ op ∷ [])
      → r.sched ≡ work_started c.sched
      → r.thread ≡ c.thread
      → Handled c d ty address r

module _ {W : Type 0} (k : Kernel W) where
  post_op-Handled :
      (c : Caller) (d d' : DescriptorState) (ty : OpType) (op : ReactorOp) (w : W)
      → d'.op_queue ≡ d.op_queue
      → Handled c d ty op.address (post_op c d' op w)
  unfolding post_op
  post_op-Handled c d d' ty op w h = immediate op refl refl h refl

  queue_op-Handled :
      (c : Caller) (d d' : DescriptorState) (ty : OpType) (op : ReactorOp) (w : W)
      → d'.op_queue ≡ d.op_queue
      → Handled c d ty op.address (queue_op c d' ty op w)
  unfolding queue_op push
  queue_op-Handled c d d' ty op w h =
      queued op refl refl (ap (λ q. put q ty (at q ty ++ op ∷ [])) h) refl refl

  ask_for_out-Handled :
      (c : Caller) (d : DescriptorState) (op : ReactorOp) (w : W)
      → Handled c d write_op op.address (ask_for_out k c d op w)
  unfolding ask_for_out
  ask_for_out-Handled c d op w =
      let r = k.epoll_ctl ctl_mod d.descriptor (either d.registered_events only_out) w in
      elim (Bool-cases (r.0 == 0)) [
        | inl e ↦ rw (e, ask_for_out) (queue_op-Handled c d _ write_op op r.1 refl)
        | inr e ↦
            rw (e, ask_for_out) (post_op-Handled c d d write_op (record op { ec = r.0 }) r.1 refl)
      ]

  after_attempt-Handled :
      (c : Caller) (d : DescriptorState) (ty : OpType) (op : ReactorOp) (w : W)
      → Handled c d ty op.address (after_attempt k c d ty op w)
  unfolding after_attempt
  after_attempt-Handled c d ty op w = elim (Bool-cases (is_none d.registered_events)) [
    | inl e ↦
        rw (e, after_attempt) (post_op-Handled c d d ty (record op { ec = not_supported }) w refl)
    | inr e ↦ rw (e, after_attempt) (asked ty)
  ]
    where
      asked :
          (ty : OpType)
          → Handled c d ty op.address (
              if is_write ty && not d.registered_events.epollout
              then ask_for_out k c d op w
              else queue_op c d ty op w)
      asked read_op = queue_op-Handled c d d read_op op w refl
      asked except_op = queue_op-Handled c d d except_op op w refl
      asked write_op = elim (Bool-cases (not d.registered_events.epollout)) [
        | inl e ↦ rw e (ask_for_out-Handled c d op w)
        | inr e ↦ rw e (queue_op-Handled c d d write_op op w refl)
      ]

  attempted-Handled :
      (c : Caller) (d : DescriptorState) (ty : OpType) (op : ReactorOp) (s : Status) (w : W)
      → Handled c d ty op.address (attempted k c d ty op s w)
  unfolding attempted
  attempted-Handled c d ty op not_done w = after_attempt-Handled c d ty op w
  attempted-Handled c d ty op done w = post_op-Handled c d d ty op w refl
  attempted-Handled c d ty op done_and_exhausted w = post_op-Handled c d _ ty op w (ground arith)

  attempt-Handled :
      (c : Caller) (d : DescriptorState) (ty : OpType) (op : ReactorOp) (w : W)
      → Handled c d ty op.address (attempt k c d ty op w)
  unfolding attempt
  attempt-Handled c d ty op w =
      let (status, ec, bytes, w') = k.perform op w in
      elim (Bool-cases (at d.try_speculative ty)) [
        | inl e ↦
            rw (e, attempt)
              (attempted-Handled c d ty (record op { ec = ec; bytes_transferred = bytes }) status
                w')
        | inr e ↦ rw (e, attempt) (after_attempt-Handled c d ty op w)
      ]

  register_interest-Handled :
      (c : Caller) (d : DescriptorState) (ty : OpType) (op : ReactorOp) (w : W)
      → Handled c d ty op.address (register_interest k c d ty op w)
  unfolding register_interest
  register_interest-Handled c d ty op w = elim (Bool-cases (is_none d.registered_events)) [
    | inl e ↦
        rw (e, register_interest)
          (post_op-Handled c d d ty (record op { ec = not_supported }) w refl)
    | inr e ↦ rw (e, register_interest) (queue_op-Handled c d _ ty op _ (ground arith))
  ]

  -- Whatever the state of the descriptor and the answers of the kernel: `start_op` posts the
  -- operation once and changes no queue, or puts it last in the queue of its type, changes no other
  -- queue and counts it as work.
  pub start_op-Handled :
      (c : Caller) (d : DescriptorState) (ty : OpType) (op : ReactorOp) (allow_speculative : Bool)
      (w : W)
      → Handled c d ty op.address (start_op k c d ty op allow_speculative w)
  unfolding start_op start_locked
  start_op-Handled c d ty op allow w =
      if_both (Handled c d ty op.address) d.shut_down (post_op-Handled c d d ty op w refl) (
        if_both (Handled c d ty op.address) (no_ops (at d.op_queue ty))
          (if_both (Handled c d ty op.address)
            (allow && (not (is_read ty) || no_ops d.op_queue.except)) (attempt-Handled c d ty op w)
            (register_interest-Handled c d ty op w))
          (queue_op-Handled c d d ty op w refl))

  -- Operations of one type keep their order: on a descriptor that is not shut down, behind a queue
  -- that is not empty, `start_op` tries nothing, asks the kernel nothing, puts the operation last
  -- and changes nothing else in the descriptor.
  pub start_op_in_order :
      (c : Caller) (d : DescriptorState) (ty : OpType) (op : ReactorOp) (allow_speculative : Bool)
      (w : W)
      → d.shut_down ≡ false
      → at d.op_queue ty ≢ []
      → let r = start_op k c d ty op allow_speculative w in
        (r.fate ≡ waits)
        × (r.world ≡ w)
        × (r.state ≡ record d { op_queue = put d.op_queue ty (at d.op_queue ty ++ op ∷ []) })
  unfolding start_op start_locked queue_op push
  start_op_in_order c d ty op allow w alive waiting =
      let nonempty : no_ops (at d.op_queue ty) ≡ false = ground arith in
      (ground arith, ground arith, ground arith)

  -- On a descriptor that is not shut down, is registered without EPOLLOUT and has no reads or
  -- writes queued, a write that may not be tried at once clears the registration and waits, and a
  -- read that follows and may not be tried at once is refused as not supported.
  pub start_op_forgets :
      (c c' : Caller) (d : DescriptorState) (op op' : ReactorOp) (w w' : W)
      → d.shut_down ≡ false
      → d.op_queue.write ≡ []
      → d.op_queue.read ≡ []
      → is_none d.registered_events ≡ false
      → d.registered_events.epollout ≡ false
      → let r = start_op k c d write_op op false w in
        (r.fate ≡ waits)
        × (r.state.registered_events ≡ no_events)
        × ((start_op k c' r.state read_op op' false w').fate
            ≡ posted (record op' { ec = not_supported }))
  unfolding start_op start_locked register_interest queue_op post_op push
  start_op_forgets c c' d op op' w w' alive writes reads registered out =
      (ground arith, ground arith, ground arith)
