-- ===== src/Joined/Tests.antt =====
-- A read that waits at a descriptor, until a thread in `run` polls, completes it and runs its
-- handler.
use boost_asio.Base.{ℕ, suc, ◌≤◌, ◌≡◌, refl, ◌⊎◌, true, false, some, [], ◌∷◌, arith}
use boost_asio.OpQueue.{front, pop, push, push_queue}
use boost_asio.Event.{new_event, signal_all, maybe_unlock_and_signal_one}
use boost_asio.Scheduler.{
  construct, work_started, decrement_work, post_immediate_completion, enqueue_and_wake,
  wake_one_thread_and_unlock, init_task, interrupt_task, stop, stop_all_threads, ThreadInfo,
  post_deferred_completions, splice_and_wake,
}
use boost_asio.Scheduler.Run.{
  next_turn, look, take_operation, leave_queue, flush_work, requeue_task, requeue_private,
}
use boost_asio.Reactor.{
  registration, read_op, done, Kernel, DescriptorState, register_descriptor, start_op, start_locked,
  register_interest, queue_op,
}
use boost_asio.Reactor.Io.{
  Completed, do_complete, perform_io, take_first, after_perform_io, io_cleanup, perform_all,
  perform_type, perform_queue, after_perform, performed,
}
use boost_asio.System.{Step, Move, Calls, after_turn, head}
use boost_asio.Joined.{Joined, system, Request, JoinedStep, JoinedReach, after_complete}
use boost_asio.Joined.Refines.{JoinedStep-Step}
use boost_asio.System.Conserved.{count}
use boost_asio.Joined.Drained.{start_joined}
use boost_asio.Joined.Conserved.{joined_held, joined_finished}
use boost_asio.Joined.Conserved.Laws.{JoinedReach-conserved}

abbrev new_thread : ThreadInfo
new_thread = record { private_op_queue = []; private_outstanding_work = 0 }

-- Each operation moves 8 bytes, and the kernel counts the calls.
abbrev counting : Kernel ℕ
counting = record { perform = λ op w. (done, 0, 8, suc w); epoll_ctl = λ c fd e w. (0, suc w) }

abbrev read_request : Request
read_request = record {
  ty = read_op;
  op = record { address = 7; ec = 0; bytes_transferred = 0 };
  is_continuation = false;
  allow_speculative = false;
}

abbrev start_here : Joined ℕ
start_here = start_joined 4 0

-- Descriptor 0 is registered, and the read waits there.
abbrev waiting_read : (j : Joined ℕ) × JoinedReach counting start_here j
unfolding construct new_event post_immediate_completion work_started enqueue_and_wake
    wake_one_thread_and_unlock init_task interrupt_task maybe_unlock_and_signal_one head after_turn
    next_turn look take_operation leave_queue flush_work requeue_task decrement_work push push_queue
    register_descriptor start_op start_locked register_interest queue_op do_complete perform_io
    take_first after_perform_io io_cleanup perform_all perform_type perform_queue after_perform
    front pop post_deferred_completions splice_and_wake
waiting_read = (
  _,
  JoinedReach.next (JoinedReach.next JoinedReach.here (JoinedStep.register 5))
      (JoinedStep.start_outside 0 read_request refl),
)

-- A thread takes the task and finds the descriptor ready.
abbrev polled : (j : Joined ℕ) × JoinedReach counting start_here j
unfolding construct new_event post_immediate_completion work_started enqueue_and_wake
    wake_one_thread_and_unlock init_task interrupt_task maybe_unlock_and_signal_one head after_turn
    next_turn look take_operation leave_queue flush_work requeue_task decrement_work push push_queue
    register_descriptor start_op start_locked register_interest queue_op do_complete perform_io
    take_first after_perform_io io_cleanup perform_all perform_type perform_queue after_perform
    front pop post_deferred_completions splice_and_wake
polled = (
  _,
  JoinedReach.next
      (JoinedReach.next
        (JoinedReach.next
          (JoinedReach.next waiting_read.1 (JoinedStep.other (Step.outside_call Calls.inits) refl))
          (JoinedStep.other (Step.enter (ground arith)) refl))
        (JoinedStep.other (Step.move 0 refl Move.look) refl))
      (JoinedStep.other (Step.move 0 refl (Move.poll (0 ∷ []))) refl),
)

-- It takes the descriptor off the queue.
abbrev ready_descriptor : (j : Joined ℕ) × JoinedReach counting start_here j
unfolding construct new_event post_immediate_completion work_started enqueue_and_wake
    wake_one_thread_and_unlock init_task interrupt_task maybe_unlock_and_signal_one head after_turn
    next_turn look take_operation leave_queue flush_work requeue_task decrement_work push push_queue
    register_descriptor start_op start_locked register_interest queue_op do_complete perform_io
    take_first after_perform_io io_cleanup perform_all perform_type perform_queue after_perform
    front pop post_deferred_completions splice_and_wake
ready_descriptor = (
  _,
  JoinedReach.next
      (JoinedReach.next polled.1 (JoinedStep.other (Step.move 0 refl Move.flush_task) refl))
      (JoinedStep.other (Step.move 0 refl Move.requeue) refl),
)

abbrev busy_descriptor : DescriptorState
busy_descriptor = record {
  descriptor = some 5;
  registered_events = registration;
  op_queue = record { read = read_request.op ∷ []; write = []; except = [] };
  try_speculative = record { read = true; write = true; except = true };
  shut_down = false;
}

-- The read completes, its handler runs, and its work is finished.
abbrev finished : (j : Joined ℕ) × JoinedReach counting start_here j
unfolding construct new_event post_immediate_completion work_started enqueue_and_wake
    wake_one_thread_and_unlock init_task interrupt_task maybe_unlock_and_signal_one head after_turn
    next_turn look take_operation leave_queue flush_work requeue_task decrement_work push push_queue
    register_descriptor start_op start_locked register_interest queue_op do_complete perform_io
    take_first after_perform_io io_cleanup perform_all perform_type perform_queue after_perform
    front pop post_deferred_completions splice_and_wake
finished = (
  _,
  JoinedReach.next
      (JoinedReach.next
        (JoinedReach.next ready_descriptor.1
          (JoinedStep.complete 0 0 registration refl refl refl refl))
        (JoinedStep.other (Step.move 0 refl (Move.flush 7)) refl))
      (JoinedStep.other (Step.move 0 refl Move.finish) refl),
)

-- What `do_complete` of descriptor 0 leaves.
abbrev read_done :
    (r : Completed ℕ) × (do_complete counting true registration ready_descriptor.0.sched
        (some new_thread)
        busy_descriptor
        ready_descriptor.0.world
      ≡ some r)
unfolding construct new_event post_immediate_completion work_started enqueue_and_wake
    wake_one_thread_and_unlock init_task interrupt_task maybe_unlock_and_signal_one head after_turn
    next_turn look take_operation leave_queue flush_work requeue_task decrement_work push push_queue
    register_descriptor start_op start_locked register_interest queue_op do_complete perform_io
    take_first after_perform_io io_cleanup perform_all perform_type perform_queue after_perform
    front pop post_deferred_completions splice_and_wake
read_done = (_, refl)

-- The read completes: a step of the thread in System.
JoinedStep-Step_example :
    let j = ready_descriptor.0 in
    let j' = after_complete j 0 0 new_thread (performed read_request.op 0 8) read_done.0 in
    Step (system j) (system j') ⊎ (system j ≡ system j')
unfolding construct new_event post_immediate_completion work_started enqueue_and_wake
    wake_one_thread_and_unlock init_task interrupt_task maybe_unlock_and_signal_one head after_turn
    next_turn look take_operation leave_queue flush_work requeue_task decrement_work push push_queue
    register_descriptor start_op start_locked register_interest queue_op do_complete perform_io
    take_first after_perform_io io_cleanup perform_all perform_type perform_queue after_perform
    front pop post_deferred_completions splice_and_wake
JoinedStep-Step_example = JoinedStep-Step counting {j = ready_descriptor.0} (
    JoinedStep.complete 0 0 registration {t = new_thread} {s = busy_descriptor} refl refl
      read_done.1 refl)

-- The thread stops the scheduler and returns.
abbrev ended : (j : Joined ℕ) × JoinedReach counting start_here j
unfolding construct new_event post_immediate_completion work_started enqueue_and_wake
    wake_one_thread_and_unlock init_task interrupt_task maybe_unlock_and_signal_one head after_turn
    next_turn look take_operation leave_queue flush_work requeue_task decrement_work push push_queue
    register_descriptor start_op start_locked register_interest queue_op do_complete perform_io
    take_first after_perform_io io_cleanup perform_all perform_type perform_queue after_perform
    front pop post_deferred_completions splice_and_wake stop stop_all_threads signal_all
    requeue_private
ended = (
  _,
  JoinedReach.next
      (JoinedReach.next
        (JoinedReach.next finished.1 (JoinedStep.other (Step.move 0 refl Move.stops) refl))
        (JoinedStep.other (Step.move 0 refl Move.leave) refl))
      (JoinedStep.other (Step.move 0 refl Move.look) refl),
)

JoinedReach-conserved_example :
    (joined_held 7 waiting_read.0 ≡ 1) × (count 7 (joined_finished waiting_read.1) ≤ 1)
unfolding construct new_event post_immediate_completion work_started enqueue_and_wake
    wake_one_thread_and_unlock init_task interrupt_task maybe_unlock_and_signal_one head after_turn
    next_turn look take_operation leave_queue flush_work requeue_task decrement_work push push_queue
    register_descriptor start_op start_locked register_interest queue_op do_complete perform_io
    take_first after_perform_io io_cleanup perform_all perform_type perform_queue after_perform
    front pop post_deferred_completions splice_and_wake
JoinedReach-conserved_example = JoinedReach-conserved counting 7 waiting_read.1 (ground arith)
