-- ===== src/Joined/Refines.antt =====
-- Every step of the scheduler and the reactor together is a step of System.
use boost_asio.Base.{
  ℕ, ◌+◌, ◌≡◌, sym, ap, Bool, true, false, none, some, List, [], ◌∷◌, ◌++◌, ◌⊎◌, length, total,
  total-append, total-set, get_elem?, set, arith, Bool-cases, inl, inr,
}
use mathlib.Core.Path.{subst}
use mathlib.Core.Option.{some-injective}
use boost_asio.Scheduler.{handler, descriptor, ThreadInfo, post_deferred_completions}
use boost_asio.Reactor.{Events, ReactorOp, DescriptorState, Kernel, register_descriptor}
use boost_asio.Reactor.Io.{handlers, perform_all, Completed, do_complete}
use boost_asio.Reactor.Io.Delivery.{do_complete-runs}
use boost_asio.Reactor.Laws.{start_op-Handled}
use boost_asio.Reactor.Closing.{no_queues, give_back, take_types, cancel_ops, deregister_descriptor}
use boost_asio.Reactor.Closing.Laws.{deregister_descriptor-live}
use boost_asio.System.{in_operation, Step, or_same}
use boost_asio.Joined
use boost_asio.Joined.{Joined}
use boost_asio.Joined.Moves.{
  queued-perform_all, io_cleanup-Move, waiting, started-Move, started-Step, given_back-Step,
}

-- What the entry of a descriptor changes in the sum.
total-queued :
    (ds : List DescriptorState) (d : ℕ) (s s' : DescriptorState)
    → get_elem? ds d ≡ some s
    → total Joined.queued (set ds d s') + Joined.queued s
      ≡ total Joined.queued ds + Joined.queued s'
total-queued ds d s s' at_d = total-set Joined.queued ds d s s' at_d

pub closed_state : {s s' : DescriptorState} → some s ≡ some s' → s ≡ s'
closed_state e = some-injective _ _ e

module _ {W : Type 0} (k : Kernel W) where
  complete-Step :
      (j : Joined W) (i d : ℕ) (events : Events) (t : ThreadInfo) (s : DescriptorState)
      (op : ReactorOp) (r : Completed W)
      → get_elem? j.threads i ≡ some (record { pc = in_operation (descriptor d); info = t })
      → get_elem? j.descriptors d ≡ some s
      → do_complete k true events j.sched (some t) s j.world ≡ some r
      → r.runs ≡ some op
      → Step (Joined.system j) (Joined.system (Joined.after_complete j i d t op r))
  complete-Step j i d events t s op r at_i at_d e runs =
      let p = perform_all k events s j.world in
      let (ops, done, same) = do_complete-runs k events j.sched (some t) s j.world e runs in
      rw same (
        Step.move i at_i (
          io_cleanup-Move j.sched t (Joined.system j).outside d
            (total Joined.queued (set j.descriptors d p.state)) op ops
            (omega (
              arith,
              ap length done,
              queued-perform_all k events s j.world,
              total-queued j.descriptors d s p.state at_d,
            ))))

  start-Step :
      (j : Joined W) (i a d : ℕ) (q : Joined.Request) (t : ThreadInfo) (s : DescriptorState)
      → get_elem? j.threads i ≡ some (record { pc = in_operation (handler a); info = t })
      → get_elem? j.descriptors d ≡ some s
      → Step (Joined.system j) (
          Joined.system (
            Joined.after_start j d
              (set j.threads i (record {
                pc = in_operation (handler a);
                info = or_same t (Joined.request k j (some t) s q).thread;
              }))
              (Joined.request k j (some t) s q)))
  start-Step j i a d q t s at_i at_d =
      let r = Joined.request k j (some t) s q in
      Step.move i at_i (
        started-Move j.sched t (Joined.system j).outside a
          (total Joined.queued (set j.descriptors d r.state)) q.op.address q.is_continuation s q.ty
          r (start_op-Handled k _ s q.ty q.op q.allow_speculative j.world)
          (total-queued j.descriptors d s r.state at_d))

  start_outside-Step :
      (j : Joined W) (d : ℕ) (q : Joined.Request) (s : DescriptorState)
      → get_elem? j.descriptors d ≡ some s
      → Step
          (Joined.system j)
          (Joined.system (Joined.after_start j d j.threads (Joined.request k j none s q)))
  start_outside-Step j d q s at_d =
      let r = Joined.request k j none s q in
      started-Step (Joined.system j) (total Joined.queued (set j.descriptors d r.state))
        q.op.address q.is_continuation s q.ty r
        (start_op-Handled k _ s q.ty q.op q.allow_speculative j.world)
        (total-queued j.descriptors d s r.state at_d)

  -- A descriptor that has lost its operations, which are given back.
  emptied-Step :
      (j : Joined W) (d : ℕ) (s s' : DescriptorState)
      → get_elem? j.descriptors d ≡ some s
      → s'.op_queue ≡ no_queues
      → Step (Joined.system j) (record (Joined.system j) {
        sched = (post_deferred_completions j.sched none (handlers (take_types s.op_queue))).0;
        outside = record (Joined.system j).outside {
          pending = total Joined.queued (set j.descriptors d s');
        };
      })
  emptied-Step j d s s' at_d empty =
      given_back-Step (Joined.system j) s.op_queue (total Joined.queued (set j.descriptors d s'))
        (omega (arith, total-queued j.descriptors d s s' at_d, ap waiting empty))

  cancel-Step :
      (j : Joined W) (d : ℕ) (s s' : DescriptorState)
      → get_elem? j.descriptors d ≡ some s
      → (cancel_ops j.sched none (some s) j.world).state ≡ some s'
      → Step
          (Joined.system j)
          (Joined.system (Joined.after_closing j d s' (cancel_ops j.sched none (some s) j.world)))
  unfolding cancel_ops give_back
  cancel-Step j d s s' at_d e =
      emptied-Step j d s s' at_d (sym (ap (λ r. r.op_queue) (closed_state e)))

  pub deregistered_state :
      (j : Joined W) (closing : Bool) (s s' : DescriptorState)
      → (deregister_descriptor k j.sched none (some s) closing j.world).state ≡ some s'
      → (s.shut_down ≡ false) × (s'.op_queue ≡ no_queues)
  unfolding deregister_descriptor give_back
  deregistered_state j closing s s' e = elim (Bool-cases s.shut_down) [
    | inl dead ↦ (ground arith, ground arith)
    | inr alive ↦ (alive, sym (ap (λ r. r.op_queue) (closed_state (rw alive at e))))
  ]

  deregister-Step :
      (j : Joined W) (d : ℕ) (closing : Bool) (s s' : DescriptorState)
      → get_elem? j.descriptors d ≡ some s
      → (deregister_descriptor k j.sched none (some s) closing j.world).state ≡ some s'
      → Step (Joined.system j) (
          Joined.system (
            Joined.after_closing j d s'
              (deregister_descriptor k j.sched none (some s) closing j.world)))
  unfolding give_back
  deregister-Step j d closing s s' at_d e =
      let (alive, empty) = deregistered_state j closing s s' e in
      rw (deregister_descriptor-live k j.sched none s closing j.world alive)
        (emptied-Step j d s s' at_d empty)

  registered_queues : (fd : ℕ) (w : W) → Joined.queued (register_descriptor k fd w).0 ≡ 0
  unfolding register_descriptor
  registered_queues fd w = ground arith

  register-same :
      (j : Joined W) (fd : ℕ)
      → total Joined.queued (j.descriptors ++ (register_descriptor k fd j.world).0 ∷ [])
        ≡ total Joined.queued j.descriptors
  unfolding register_descriptor
  register-same j fd = omega (
    arith,
    total-append Joined.queued j.descriptors ((register_descriptor k fd j.world).0 ∷ []),
    registered_queues fd j.world,
  )

  -- Every step of the scheduler and the reactor together, where `do_complete` is defined and with
  -- `register_internal_descriptor` left out, is one step of System, or leaves what System sees
  -- unchanged: a state of both is seen as one of System whose count of waiting operations is the sum
  -- of the lengths of the queues of the descriptors.
  pub JoinedStep-Step :
      {j j' : Joined W}
      → Joined.JoinedStep k j j'
      → Step (Joined.system j) (Joined.system j') ⊎ (Joined.system j ≡ Joined.system j')
  JoinedStep-Step {j} (Joined.JoinedStep.other {y} st same) = inl (
      subst (λ n. Step (Joined.system j) (record y { outside = record y.outside { pending = n } }))
        same st)
  JoinedStep-Step {j} (Joined.JoinedStep.complete i d events {t} {s} {op} {r} at_i at_d e runs) =
      inl (complete-Step j i d events t s op r at_i at_d e runs)
  JoinedStep-Step {j} (Joined.JoinedStep.start i a d q {t} {s} at_i at_d) =
      inl (start-Step j i a d q t s at_i at_d)
  JoinedStep-Step {j} (Joined.JoinedStep.start_outside d q {s} at_d) =
      inl (start_outside-Step j d q s at_d)
  JoinedStep-Step {j} (Joined.JoinedStep.cancel d {s} {s'} at_d e) =
      inl (cancel-Step j d s s' at_d e)
  JoinedStep-Step {j} (Joined.JoinedStep.deregister d closing {s} {s'} at_d e) =
      inl (deregister-Step j d closing s s' at_d e)
  JoinedStep-Step {j} (Joined.JoinedStep.register fd) = inr (
      ap
        (λ n. record (Joined.system j) {
          outside = record (Joined.system j).outside { pending = n };
        })
        (sym (register-same j fd)))
