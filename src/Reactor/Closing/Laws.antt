-- ===== src/Reactor/Closing/Laws.antt =====
-- What cancelling and deregistering in boost_asio/epoll_reactor.cc give back, and when they hang.
use boost_asio.Base.{
  ℕ, zero, suc, ◌≡◌, refl, sym, ◌∙◌, ◌↔◌, Bool, true, false, Option, none, some, List, [], ◌∷◌,
  ◌++◌, map, append_assoc, append-nil, arith, All,
}
use boost_asio.OpQueue.{push}
use boost_asio.OpQueue.Laws.{push_converted-zero, push_converted-nil, push_converted_loops}
use boost_asio.Scheduler.{ThreadInfo, Scheduler, post_deferred_completions}
use boost_asio.Scheduler.Fields.{splice_and_wake-Same}
use boost_asio.Reactor.{no_events, ReactorOp, PerType, DescriptorState, ctl_del, Kernel}
use boost_asio.Reactor.Io.{handlers}
use boost_asio.Reactor.Closing.{
  take_all, take_types, no_queues, Closed, give_back, cancel_ops, forget, deregister_descriptor,
  push_types, deregister_internal_descriptor, shutdown,
}

-- An operation that reports success.
abbrev pub cleared : ReactorOp → ReactorOp
cleared op = record op { ec = 0 }

take_all-eq : (q ops : List ReactorOp) → take_all q ops ≡ ops ++ map cleared q
unfolding take_all push
take_all-eq [] ops = sym (append-nil ops)
take_all-eq (op ∷ q) ops =
    take_all-eq q (ops ++ cleared op ∷ []) ∙ append_assoc ops (cleared op ∷ []) (map cleared q)

pub take_types-eq :
    (q : PerType (List ReactorOp))
    → take_types q ≡ (map cleared q.read ++ map cleared q.write) ++ map cleared q.except
unfolding take_types
take_types-eq q = simp take_all-eq

module _ {W : Type 0} where
  -- In a scheduler for several threads `cancel_ops`, called inside or outside of `run`, empties the
  -- descriptor's queues and posts every operation once, reads before writes before the others, each
  -- type in order, behind the scheduler's queue; the count of work stays. Each operation reports
  -- success: its error is cleared.
  pub cancel_ops_lem :
      (s : Scheduler) (t : Option ThreadInfo) (d : DescriptorState) (w : W)
      → s.one_thread ≡ false
      → let r = cancel_ops s t (some d) w in
        let q = d.op_queue in
        (r.given_back ≡ (map cleared q.read ++ map cleared q.write) ++ map cleared q.except)
        × (r.state ≡ some (record d { op_queue = no_queues }))
        × (r.sched.op_queue ≡ s.op_queue ++ handlers r.given_back)
        × (r.sched.outstanding_work ≡ s.outstanding_work)
        × (r.world ≡ w)
  unfolding cancel_ops give_back post_deferred_completions
  cancel_ops_lem s none d w one =
      let same = splice_and_wake-Same s (handlers (take_types d.op_queue)) in
      (take_types-eq d.op_queue, refl, same.queue, same.work, refl)
  cancel_ops_lem s (some t) d w one =
      let same = splice_and_wake-Same s (handlers (take_types d.op_queue)) in
      (take_types-eq d.op_queue, refl, ground (arith, same), ground (arith, same), refl)

abbrev pub IsQueueless : DescriptorState → Type 0
IsQueueless d = (d.op_queue.read ≡ []) × (d.op_queue.write ≡ []) × (d.op_queue.except ≡ [])

-- With any fuel the three loops end only on empty queues; there one round of each is enough.
push_types-some :
    (fuel : ℕ) (a b c : List ReactorOp) {ops : List ReactorOp}
    → push_types fuel (record { read = a; write = b; except = c }) ≡ some ops
    → (a ≡ []) × (b ≡ []) × (c ≡ [])
unfolding push_types
push_types-some fuel (o ∷ a) b c h = ground (arith, push_converted_loops fuel [] o a)
push_types-some zero [] b c h = ground (arith, push_converted-zero {A = ReactorOp} [] [])
push_types-some (suc fuel) [] (o ∷ b) c h =
    ground
      (arith, push_converted-nil {A = ReactorOp} fuel [], push_converted_loops (suc fuel) [] o b)
push_types-some (suc fuel) [] [] (o ∷ c) h =
    ground
      (arith, push_converted-nil {A = ReactorOp} fuel [], push_converted_loops (suc fuel) [] o c)
push_types-some (suc fuel) [] [] [] h = (refl, refl, refl)

push_types-empty :
    (q : PerType (List ReactorOp))
    → (q.read ≡ []) × (q.write ≡ []) × (q.except ≡ [])
    → push_types 1 q ≡ some []
unfolding push_types
push_types-empty q h = ground (arith, push_converted-nil {A = ReactorOp} 0 [])

shutdown-first :
    (fuel : ℕ) (d : DescriptorState) (ds : List DescriptorState) {r : List (List ReactorOp)}
    → shutdown fuel (d ∷ ds) ≡ some r
    → (ops : List ReactorOp) × (push_types fuel d.op_queue ≡ some ops)
unfolding shutdown
shutdown-first fuel d ds h = ground arith

shutdown-rest :
    (fuel : ℕ) (d : DescriptorState) (ds : List DescriptorState) {r : List (List ReactorOp)}
    → shutdown fuel (d ∷ ds) ≡ some r
    → (rest : List (List ReactorOp)) × (shutdown fuel ds ≡ some rest)
unfolding shutdown
shutdown-rest fuel d ds h = ground arith

shutdown-some :
    (fuel : ℕ) (ds : List DescriptorState) {r : List (List ReactorOp)}
    → shutdown fuel ds ≡ some r
    → All IsQueueless ds
unfolding shutdown
shutdown-some fuel [] h = tt
shutdown-some fuel (d ∷ ds) h =
    let (ops, e) = shutdown-first fuel d ds h in
    let (rest, f) = shutdown-rest fuel d ds h in
    (
      push_types-some fuel d.op_queue.read d.op_queue.write d.op_queue.except e,
      shutdown-some fuel ds f,
    )

shutdown-empty :
    (ds : List DescriptorState)
    → All IsQueueless ds
    → (r : List (List ReactorOp)) × (shutdown 1 ds ≡ some r)
unfolding shutdown
shutdown-empty [] h = ([], refl)
shutdown-empty (d ∷ ds) h =
    let (rest, e) = shutdown-empty ds h.1 in
    ([] ∷ rest, rw (push_types-empty d.op_queue h.0, shutdown) (rw (e, shutdown)))

module _ {W : Type 0} (k : Kernel W) where
  pub deregister_descriptor-live :
      (s : Scheduler) (t : Option ThreadInfo) (d : DescriptorState) (closing : Bool) (w : W)
      → d.shut_down ≡ false
      → deregister_descriptor k s t (some d) closing w
        ≡ give_back s t
            (record d { op_queue = no_queues; descriptor = none; shut_down = true })
            (take_types d.op_queue)
            (forget k d closing w)
  unfolding deregister_descriptor
  deregister_descriptor-live s t d closing w alive = ground arith

  -- Deregistering twice gives each operation back once: the first call of `deregister_descriptor`
  -- on a live descriptor posts all of them and marks it shut down without a descriptor number, and a
  -- second call posts nothing, asks the kernel nothing and makes the pointer null.
  pub deregister_descriptor_twice :
      (s s' : Scheduler) (t t' : Option ThreadInfo) (d : DescriptorState) (closing closing' : Bool)
      (w w' : W)
      → d.shut_down ≡ false
      → let r = deregister_descriptor k s t (some d) closing w in
        let r' = deregister_descriptor k s' t' r.state closing' w' in
        (r.given_back ≡ take_types d.op_queue)
        × (r.state ≡ some (record d { op_queue = no_queues; descriptor = none; shut_down = true }))
        × (r'.given_back ≡ [])
        × (r'.state ≡ none)
        × (r'.sched ≡ s')
        × (r'.world ≡ w')
  unfolding deregister_descriptor give_back
  deregister_descriptor_twice s s' t t' d closing closing' w w' alive =
      let first = deregister_descriptor-live s t d closing w alive in
      (rw first, rw first, rw first, rw first, rw first, rw first)

  deregister_internal_descriptor-some :
      (fuel : ℕ) (s : Scheduler) (t : Option ThreadInfo) (d : DescriptorState) (w : W)
      {r : Closed W}
      → d.shut_down ≡ false
      → deregister_internal_descriptor k fuel s t (some d) w ≡ some r
      → (ops : List ReactorOp) × (push_types fuel d.op_queue ≡ some ops)
  unfolding deregister_internal_descriptor
  deregister_internal_descriptor-some fuel s t d w alive h = ground arith

  -- `deregister_internal_descriptor` ends on a live descriptor exactly if no operation is queued:
  -- with one, the loop of the converting `push` never takes it off.
  pub deregister_internal_descriptor_ends :
      (s : Scheduler) (t : Option ThreadInfo) (d : DescriptorState) (w : W)
      → d.shut_down ≡ false
      → ((fuel : ℕ) × (r : Closed W) × (deregister_internal_descriptor k fuel s t (some d) w
            ≡ some r))
        ↔ IsQueueless d
  unfolding deregister_internal_descriptor
  deregister_internal_descriptor_ends s t d w alive = (
    (λ h.
        let (ops, e) = deregister_internal_descriptor-some h.0 s t d w alive h.2 in
        push_types-some h.0 d.op_queue.read d.op_queue.write d.op_queue.except e),
    λ q.
        let none_queued = push_types-empty d.op_queue q in
        (
          1,
          give_back s t (record d { descriptor = none; shut_down = true }) []
              (k.epoll_ctl ctl_del d.descriptor no_events w).1,
          ground arith,
        ),
  )

-- `shutdown` of the reactor ends exactly if no operation is queued at any descriptor.
pub shutdown_ends :
    (ds : List DescriptorState)
    → ((fuel : ℕ) × (r : List (List ReactorOp)) × (shutdown fuel ds ≡ some r)) ↔ All IsQueueless ds
shutdown_ends ds =
    (λ h. shutdown-some h.0 ds h.2, λ q. (1, (shutdown-empty ds q).0, (shutdown-empty ds q).1))
