-- ===== src/Scheduler/Tests.antt =====
-- Schedulers for four threads at concrete states: with handlers, and with a waiting thread.
use boost_asio.Base.{ℕ, ◌≡◌, refl, true, false, none, List, [], ◌∷◌, ◌++◌, arith}
use boost_asio.Event.{notify_one}
use boost_asio.Scheduler.{
  Operation, handler, Scheduler, Memory, construct, wake_one_thread_and_unlock,
}
use boost_asio.Scheduler.Run.{Environment, returned, thrown, run, work_cleanup}
use boost_asio.Scheduler.Posting.{wake_one_thread_and_unlock_lem}
use boost_asio.Scheduler.Order.{plain, run-plain}
use boost_asio.Scheduler.Running.{taken, run-throws}

abbrev quiet : Memory
quiet = record {
  task = true;
  task_interrupted = false;
  outstanding_work = 0;
  stopped = false;
  shut_down = false;
}

abbrev for_four : Scheduler
unfolding construct
for_four = construct quiet 4

abbrev with_handlers : Scheduler
unfolding construct
with_handlers = record for_four { op_queue = handler 1 ∷ handler 2 ∷ []; outstanding_work = 2 }

-- It notes which handlers ran.
abbrev note : Operation → List Operation → List Operation
note o w = w ++ o ∷ []

run-plain_example :
    (s' : Scheduler) × (run (plain note) 3 1 with_handlers []
      ≡ returned 2 s' (handler 1 ∷ handler 2 ∷ []))
    × (s'.stopped ≡ true)
    × (s'.outstanding_work ≡ 0)
    × (s'.op_queue ≡ [])
unfolding construct
run-plain_example = run-plain note 1 (2 ∷ []) 0 0 with_handlers [] refl refl refl (ground arith)

-- The handler posts a completion for its own thread.
abbrev posting : Environment ℕ
posting = record {
  complete = λ o s t w. (s, record t { private_op_queue = handler 5 ∷ [] }, w);
  task_run = λ more ops w. (ops, w);
  wait = λ s w. none;
}

run-throws_example :
    run posting 1 1 with_handlers 0
    ≡ thrown 1
        (work_cleanup
          (taken with_handlers (handler 2 ∷ []))
          (record { private_op_queue = handler 5 ∷ []; private_outstanding_work = 0 })).0
        0
unfolding construct
run-throws_example =
    run-throws posting 0 0 1 with_handlers (handler 2 ∷ []) 0 (taken with_handlers (handler 2 ∷ []))
      (record { private_op_queue = handler 5 ∷ []; private_outstanding_work = 0 }) 0 refl refl
      (ground arith) refl (ground arith)

abbrev one_waiter : Scheduler
unfolding construct
one_waiter = record for_four { wakeup_event = record { state = 2; notices = [] } }

wake_one_thread_and_unlock_lem_example :
    (wake_one_thread_and_unlock one_waiter).0.wakeup_event.notices ≡ notify_one ∷ []
unfolding construct
wake_one_thread_and_unlock_lem_example = (wake_one_thread_and_unlock_lem one_waiter 1 false refl).2
