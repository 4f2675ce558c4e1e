-- ===== src/System/Tests.antt =====
-- Threads that run a handler and the task, step by step, in a scheduler for several threads.
use boost_asio.Base.{ℕ, ◌≡◌, refl, false, ◌/◌, arith}
use boost_asio.OpQueue.{push}
use boost_asio.Event.{new_event, drop_waiter, maybe_unlock_and_signal_one}
use boost_asio.Scheduler.{
  construct, work_started, decrement_work, post_immediate_completion, enqueue_and_wake,
  wake_one_thread_and_unlock, init_task, interrupt_task,
}
use boost_asio.Scheduler.Run.{next_turn, look, take_operation, leave_queue, flush_work}
use boost_asio.System.{System, Step, Reach, Move, Calls, after_turn, head, wake}
use boost_asio.System.Balance.{IsBalanced}
use boost_asio.System.Drained.{start_system}
use boost_asio.System.Task.{Reach-one_task}
use boost_asio.System.Blocked.{Reach-blocked, Reach-wakes}

-- A thread outside posts handler 7.
abbrev posted : (y : System) × Reach (start_system 4) y
posted = (_, Reach.next Reach.here (Step.outside_post 7 false))

-- A thread enters `run` and takes the handler.
abbrev taken_up : (y : System) × Reach (start_system 4) y
unfolding construct new_event post_immediate_completion work_started enqueue_and_wake
    wake_one_thread_and_unlock init_task interrupt_task maybe_unlock_and_signal_one
taken_up =
    (_, Reach.next (Reach.next posted.1 (Step.enter (ground arith))) (Step.move 0 refl Move.look))

-- It has run the handler, and the count of work is 0.
abbrev finished : (y : System) × Reach (start_system 4) y
unfolding construct new_event post_immediate_completion work_started enqueue_and_wake
    wake_one_thread_and_unlock init_task interrupt_task maybe_unlock_and_signal_one head after_turn
    next_turn look take_operation leave_queue flush_work decrement_work push
finished = (
  _,
  Reach.next (Reach.next taken_up.1 (Step.move 0 refl (Move.flush 7)))
      (Step.move 0 refl Move.finish),
)

-- The scheduler has its task and a work guard, and a thread runs the task.
abbrev polling : (y : System) × Reach (start_system 4) y
unfolding construct new_event post_immediate_completion work_started enqueue_and_wake
    wake_one_thread_and_unlock init_task interrupt_task maybe_unlock_and_signal_one head after_turn
    next_turn look take_operation leave_queue flush_work decrement_work push
polling = (
  _,
  Reach.next
      (Reach.next
        (Reach.next (Reach.next Reach.here (Step.outside_call Calls.inits))
          (Step.outside_call Calls.guards))
        (Step.enter (ground arith)))
      (Step.move 0 refl Move.look),
)

Reach-one_task_example : ◌≡◌ {A = ℕ} 0 0
unfolding construct new_event post_immediate_completion work_started enqueue_and_wake
    wake_one_thread_and_unlock init_task interrupt_task maybe_unlock_and_signal_one head after_turn
    next_turn look take_operation leave_queue flush_work decrement_work push
Reach-one_task_example = Reach-one_task 0 0 (ground arith) polling.1 refl refl

-- A thread finds no work in a scheduler with a work guard, and blocks; handler 7 is posted.
abbrev blocked : (y : System) × Reach (start_system 4) y
unfolding construct new_event post_immediate_completion work_started enqueue_and_wake
    wake_one_thread_and_unlock init_task interrupt_task maybe_unlock_and_signal_one head after_turn
    next_turn look take_operation leave_queue flush_work decrement_work push
blocked = (
  _,
  Reach.next
      (Reach.next (Reach.next Reach.here (Step.outside_call Calls.guards))
        (Step.enter (ground arith)))
      (Step.move 0 refl Move.look),
)

abbrev blocked_and_posted : (y : System) × Reach (start_system 4) y
unfolding construct new_event post_immediate_completion work_started enqueue_and_wake
    wake_one_thread_and_unlock init_task interrupt_task maybe_unlock_and_signal_one head after_turn
    next_turn look take_operation leave_queue flush_work decrement_work push
blocked_and_posted = (_, Reach.next blocked.1 (Step.outside_post 7 false))

Reach-blocked_example : blocked.0.sched.wakeup_event.state / 2 ≡ 1
unfolding construct new_event post_immediate_completion work_started enqueue_and_wake
    wake_one_thread_and_unlock init_task interrupt_task maybe_unlock_and_signal_one head after_turn
    next_turn look take_operation leave_queue flush_work decrement_work push
Reach-blocked_example = (Reach-blocked (ground arith) blocked.1 (ground arith)).0

Reach-wakes_example :
    wake blocked_and_posted.0.sched
    ≡ head (record blocked_and_posted.0.sched {
      wakeup_event = drop_waiter blocked_and_posted.0.sched.wakeup_event;
    })
unfolding construct new_event post_immediate_completion work_started enqueue_and_wake
    wake_one_thread_and_unlock init_task interrupt_task maybe_unlock_and_signal_one head after_turn
    next_turn look take_operation leave_queue flush_work decrement_work push
Reach-wakes_example =
    Reach-wakes 0 (ground arith) blocked_and_posted.1 (ground arith) (ground arith) refl refl

start-IsBalanced : IsBalanced (start_system 4)
unfolding construct
start-IsBalanced = record { single = refl; even = refl }
