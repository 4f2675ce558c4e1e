-- ===== src/Reactor/Closing.antt =====
-- How boost_asio/epoll_reactor.cc gives operations back that have not completed: `cancel_ops`, and
-- deregistering a descriptor, and `shutdown`.
pub mod Laws
use boost_asio.Base.{
  ℕ, zero, suc, if◌then◌else◌, Bool, true, false, not, Option, none, some, List, [], ◌∷◌, ◌++◌, map,
}
use boost_asio.OpQueue.{push, push_converted}
use boost_asio.Scheduler.{Operation, handler, ThreadInfo, Scheduler, post_deferred_completions}
use boost_asio.Reactor.{
  Events, no_events, is_none, ReactorOp, PerType, DescriptorState, Control, ctl_del, Kernel,
}
use boost_asio.Reactor.Io.{handlers}

-- `while (reactor_op* op = q.front()) { op->ec_ = std::error_code(); q.pop(); ops.push(op); }`: the
-- queue is empty afterwards.
unfoldable pub take_all : List ReactorOp → List ReactorOp → List ReactorOp
take_all [] ops = ops
take_all (op ∷ q) ops = take_all q (push ops (record op { ec = 0 }))

-- the loop over the three types of operation
unfoldable pub take_types : PerType (List ReactorOp) → List ReactorOp
take_types q = take_all q.except (take_all q.write (take_all q.read []))

abbrev pub no_queues : PerType (List ReactorOp)
no_queues = record { read = []; write = []; except = [] }

pub record Closed (W : Type 0) : Type 0 where
  pub sched : Scheduler
  pub thread : Option ThreadInfo
  pub state : Option DescriptorState  -- `none`: `descriptor_data` is null
  pub given_back : List ReactorOp  -- the operations that were posted, with their results
  pub world : W

module _ {W : Type 0} where
  unfoldable pub give_back :
      Scheduler → Option ThreadInfo → DescriptorState → List ReactorOp → W → Closed W
  give_back s t d ops w =
      let r = post_deferred_completions s t (handlers ops) in
      record { sched = r.0; thread = r.1; state = some d; given_back = ops; world = w }

  unfoldable pub cancel_ops : Scheduler → Option ThreadInfo → Option DescriptorState → W → Closed W
  cancel_ops s t none w = record { sched = s; thread = t; state = none; given_back = []; world = w }
  cancel_ops s t (some d) w =
      give_back s t (record d { op_queue = no_queues }) (take_types d.op_queue) w

module _ {W : Type 0} (k : Kernel W) where
  -- the call of `epoll_ctl` in `deregister_descriptor`
  unfoldable pub forget : DescriptorState → (closing : Bool) → W → W
  forget d closing w =
      if closing
      then w
      else if not (is_none d.registered_events)
      then (k.epoll_ctl ctl_del d.descriptor no_events w).1
      else w

  unfoldable pub deregister_descriptor :
      Scheduler → Option ThreadInfo → Option DescriptorState → (closing : Bool) → W → Closed W
  deregister_descriptor s t none closing w = record {
    sched = s;
    thread = t;
    state = none;
    given_back = [];
    world = w;
  }
  deregister_descriptor s t (some d) closing w =
      if d.shut_down
      then record { sched = s; thread = t; state = none; given_back = []; world = w }
      else give_back s t (record d { op_queue = no_queues; descriptor = none; shut_down = true })
          (take_types d.op_queue) (forget d closing w)

-- `ops.push(op_queue_[i])` for each type, by the converting `push` of op_queue.hpp, on fuel; `none`
-- if a loop does not end
unfoldable pub push_types : ℕ → PerType (List ReactorOp) → Option (List ReactorOp)
push_types fuel q = elim (push_converted fuel [] q.read) [
  | none ↦ none
  | some a ↦ elim (push_converted fuel a q.write) [
    | none ↦ none
    | some b ↦ push_converted fuel b q.except
  ]
]

module _ {W : Type 0} (k : Kernel W) where
  unfoldable pub deregister_internal_descriptor :
      ℕ → Scheduler → Option ThreadInfo → Option DescriptorState → W → Option (Closed W)
  deregister_internal_descriptor fuel s t none w =
      some (record { sched = s; thread = t; state = none; given_back = []; world = w })
  deregister_internal_descriptor fuel s t (some d) w =
      let w' = (k.epoll_ctl ctl_del d.descriptor no_events w).1 in
      if d.shut_down
      then some (record { sched = s; thread = t; state = none; given_back = []; world = w })
      else elim (push_types fuel d.op_queue) [
        | none ↦ none
        | some ops ↦ some (give_back s t (record d { descriptor = none; shut_down = true }) ops w')
      ]

-- `epoll_reactor::shutdown` over the registered descriptors, which it deletes: it collects their
-- operations, or does not end.
unfoldable pub shutdown : ℕ → List DescriptorState → Option (List (List ReactorOp))
shutdown fuel [] = some []
shutdown fuel (d ∷ ds) = elim (push_types fuel d.op_queue) [
  | none ↦ none
  | some ops ↦ elim (shutdown fuel ds) [ none ↦ none | some rest ↦ some (ops ∷ rest) ]
]
