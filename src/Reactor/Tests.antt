-- ===== src/Reactor/Tests.antt =====
-- A kernel whose operations always finish, descriptors with and without operations, and schedulers.
use boost_asio.Base.{
  ℕ, suc, ◌≡◌, refl, ◌↔◌, ◌⊎◌, true, false, some, none, List, [], ◌∷◌, ◌++◌, total, arith, All,
}
use boost_asio.Scheduler.{handler, descriptor, ThreadInfo, Scheduler, construct}
use boost_asio.Reactor.{
  Events, no_events, registration, only_out, read_op, write_op, done, ReactorOp, DescriptorState,
  Kernel, Caller, start_op,
}
use boost_asio.Reactor.Laws.{Handled, start_op-Handled, start_op_forgets}
use boost_asio.Reactor.Io.{
  ready, interrupter, run, handlers, Completed, do_complete, perform_all, perform_type,
  perform_queue, after_perform,
}
use boost_asio.Reactor.Io.Laws.{addresses, perform_all_splits}
use boost_asio.Reactor.Io.Delivery.{do_complete_all, do_complete_loses, is_descriptor, run-once}
use boost_asio.Reactor.Closing.{cancel_ops, no_queues, shutdown}
use boost_asio.Reactor.Closing.Laws.{IsQueueless, cancel_ops_lem, shutdown_ends}

-- Each operation moves 8 bytes, and the kernel counts the calls.
abbrev counting : Kernel ℕ
counting = record { perform = λ op w. (done, 0, 8, suc w); epoll_ctl = λ c fd e w. (0, suc w) }

abbrev multi : Scheduler
unfolding construct
multi =
    construct
      (record {
        task = true;
        task_interrupted = false;
        outstanding_work = 0;
        stopped = false;
        shut_down = false;
      })
      4

abbrev caller : Caller
unfolding construct
caller = record { sched = multi; thread = none; is_continuation = false }

abbrev in_run : ThreadInfo
in_run = record { private_op_queue = []; private_outstanding_work = 0 }

abbrev op : ℕ → ReactorOp
op a = record { address = a; ec = 0; bytes_transferred = 0 }

-- A fresh descriptor, and one with two reads and a write waiting.
abbrev idle : DescriptorState
idle = record {
  descriptor = some 5;
  registered_events = registration;
  op_queue = no_queues;
  try_speculative = record { read = true; write = true; except = true };
  shut_down = false;
}

abbrev busy : DescriptorState
busy = record idle { op_queue = record { read = op 1 ∷ op 2 ∷ []; write = op 3 ∷ []; except = [] } }

start_op-Handled_example :
    Handled caller idle read_op 7 (start_op counting caller idle read_op (op 7) true 0)
unfolding construct
start_op-Handled_example = start_op-Handled counting caller idle read_op (op 7) true 0

start_op_forgets_example :
    (start_op counting caller idle write_op (op 7) false 0).state.registered_events ≡ no_events
unfolding construct
start_op_forgets_example =
    (start_op_forgets counting caller caller idle (op 7) (op 8) 0 0 refl refl refl refl refl).1

-- both reads and the write complete: the descriptor reports an error
abbrev all_ready : Events
all_ready = record no_events { epollerr = true }

perform_all_splits_example :
    let p = perform_all counting all_ready busy 0 in
    (x y z : List ReactorOp) × (p.ops ≡ (x ++ y) ++ z)
    × (addresses (x ++ p.state.op_queue.except) ≡ [])
    × (addresses (y ++ p.state.op_queue.write) ≡ 3 ∷ [])
    × (addresses (z ++ p.state.op_queue.read) ≡ 1 ∷ 2 ∷ [])
    × (x ≡ x)
    × (y ≡ y)
    × (z ≡ z)
perform_all_splits_example = perform_all_splits counting all_ready busy 0

do_complete_all_example :
    let ops = (perform_all counting all_ready busy 0).ops in
    let result = do_complete counting true all_ready multi (some in_run) busy 0 in
    ((ops ≡ []) × (result ≡ none))
    ⊎ (r : Completed ℕ) × (op : ReactorOp) × (posted : List ReactorOp) × (result ≡ some r)
      × (ops ≡ op ∷ posted)
      × (r.runs ≡ some op)
      × (r.sched.op_queue ≡ handlers posted)
      × (r.sched.outstanding_work ≡ 0)
      × (r.thread ≡ some in_run)
unfolding construct
do_complete_all_example = do_complete_all counting all_ready multi in_run busy 0 refl

-- A scheduler for one thread, whose thread has queued handler 9 for itself.
abbrev single : Scheduler
unfolding construct
single = record multi { one_thread = true; concurrency_hint = 1 }

abbrev with_handler : ThreadInfo
with_handler = record { private_op_queue = handler 9 ∷ []; private_outstanding_work = 1 }

abbrev moved : ℕ → ReactorOp
moved a = record { address = a; ec = 0; bytes_transferred = 8 }

do_complete_loses_example :
    (r : Completed ℕ) × (do_complete counting true all_ready single (some with_handler) busy 0
      ≡ some r)
    × (r.runs ≡ some (moved 3))
    × (r.sched ≡ single)
    × (r.thread ≡ some (record { private_op_queue = []; private_outstanding_work = 1 }))
unfolding construct perform_all perform_type perform_queue after_perform
do_complete_loses_example =
    do_complete_loses counting all_ready single with_handler busy 0 (moved 3) (moved 1)
      (moved 2 ∷ []) refl refl

-- Descriptor 2 is reported twice while descriptor 1 is in the queue.
run-once_example :
    total
      (is_descriptor 2)
      (run
        (ready 2 registration ∷ interrupter ∷ ready 2 only_out ∷ [])
        (descriptor 1 ∷ [])
        (λ d. no_events)).0
    ≡ 1
run-once_example =
    (run-once (ready 2 registration ∷ interrupter ∷ ready 2 only_out ∷ []) (descriptor 1 ∷ [])
      (λ d. no_events) 2 (ground arith)).0

cancel_ops_lem_example :
    let r = cancel_ops {W = ℕ} multi none (some busy) 0 in
    (r.given_back ≡ op 1 ∷ op 2 ∷ op 3 ∷ [])
    × (r.state ≡ some (record busy { op_queue = no_queues }))
    × (r.sched.op_queue ≡ handlers r.given_back)
    × (r.sched.outstanding_work ≡ 0)
    × (r.world ≡ 0)
unfolding construct
cancel_ops_lem_example = cancel_ops_lem multi none busy 0 refl

shutdown_ends_example :
    ((fuel : ℕ) × (r : List (List ReactorOp)) × (shutdown fuel (idle ∷ busy ∷ []) ≡ some r))
    ↔ All IsQueueless (idle ∷ busy ∷ [])
shutdown_ends_example = shutdown_ends (idle ∷ busy ∷ [])
