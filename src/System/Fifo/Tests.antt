-- ===== src/System/Fifo/Tests.antt =====
-- Two handlers, one of which a thread has taken, and which has posted a third.
use boost_asio.Base.{◌≡◌, refl, false, true, [], ◌∷◌, ◌++◌, arith}
use boost_asio.OpQueue.{push}
use boost_asio.Event.{new_event, maybe_unlock_and_signal_one}
use boost_asio.Scheduler.{
  handler, construct, work_started, post_immediate_completion, enqueue_and_wake,
  wake_one_thread_and_unlock,
}
use boost_asio.Scheduler.Run.{next_turn, look, take_operation, leave_queue}
use boost_asio.System.{System, Step, Reach, Move, after_turn, head}
use boost_asio.System.Drained.{start_system}
use boost_asio.System.Fifo.Laws.{Reach-fifo}

abbrev two_posted : (y : System) × Reach (start_system 4) y
two_posted =
    (_, Reach.next (Reach.next Reach.here (Step.outside_post 7 false)) (Step.outside_post 8 true))

abbrev third_posted : (y : System) × Reach (start_system 4) y
unfolding construct new_event post_immediate_completion work_started enqueue_and_wake
    wake_one_thread_and_unlock maybe_unlock_and_signal_one head after_turn next_turn look
    take_operation leave_queue push
third_posted = (
  _,
  Reach.next
      (Reach.next (Reach.next two_posted.1 (Step.enter (ground arith)))
        (Step.move 0 refl Move.look))
      (Step.move 0 refl (Move.post 7 9 false)),
)

Reach-fifo_example :
    (handler 7 ∷ []) ++ third_posted.0.sched.op_queue ≡ handler 7 ∷ handler 8 ∷ handler 9 ∷ []
unfolding construct new_event post_immediate_completion work_started enqueue_and_wake
    wake_one_thread_and_unlock maybe_unlock_and_signal_one head after_turn next_turn look
    take_operation leave_queue push
Reach-fifo_example = Reach-fifo third_posted.1 (ground arith)
