-- ===== src/IoContext/Tests.antt =====
-- A scheduler for four threads, and a guard that is made, copied, and whose copy is destroyed.
use boost_asio.Base.{◌+◌, ◌%◌, ◌≡◌, refl, false, List, [], ◌∷◌, total, size_mod}
use boost_asio.Scheduler.{Scheduler, construct}
use boost_asio.IoContext.{Guarded, GuardCall, make, copy, move, destroy, call_guards}
use boost_asio.IoContext.Laws.{one_if, call_guards-IsKept}

abbrev idle : Scheduler
unfolding construct
idle =
    construct
      (record {
        task = false;
        task_interrupted = false;
        outstanding_work = 5;
        stopped = false;
        shut_down = false;
      })
      4

abbrev unguarded : Guarded
unfolding construct
unguarded = record { sched = idle; guards = [] }

abbrev calls : List GuardCall
calls = make ∷ copy 0 ∷ move 1 ∷ destroy 0 ∷ []

call_guards-IsKept_example :
    ((call_guards unguarded calls).sched.outstanding_work + 0) % size_mod
    ≡ (5 + total one_if (call_guards unguarded calls).guards) % size_mod
unfolding construct
call_guards-IsKept_example = call_guards-IsKept unguarded calls (refl, (refl, (refl, (refl, tt))))
