-- ===== src/SystemContext/Tests.antt =====
-- A context on a machine of four processors that is joined, stopped and destroyed.
use boost_asio.SystemContext.Global.{by_flag, zeroed, destroy_global, globals, globals-once}
use boost_asio.Base.{
  ◌*◌, ◌==◌, ◌≡◌, if◌then◌else◌, true, false, List, [], ◌∷◌, length, arith, All, some,
}
use boost_asio.Scheduler.{Scheduler, Memory}
use boost_asio.SystemContext.{construct, destroy, context_scheduler}
use boost_asio.SystemContext.Laws.{
  Use, use_stop, use_join, use_context, IsRunning, destroy-terminates,
}

abbrev cleared : Memory
cleared = record {
  task = false;
  task_interrupted = false;
  outstanding_work = 0;
  stopped = false;
  shut_down = false;
}

abbrev idle : Scheduler
idle = context_scheduler cleared

abbrev uses : List Use
uses = use_join ∷ use_stop ∷ []

destroy-terminates_example :
    let c = use_context (construct idle 4) uses in
    (length c.threads ≡ (if 4 == 0 then 2 else 2 * 4))
    × IsRunning c.threads
    × ((destroy c).1 ≡ true)
    × ((destroy (construct idle 4)).0.stopped ≡ true)
    × ((destroy (construct idle 4)).0.outstanding_work ≡ 0)
unfolding context_scheduler boost_asio.Scheduler.construct
destroy-terminates_example = destroy-terminates idle 4 uses (omega arith) (omega arith)

globals-once_example :
    let r = globals by_flag 3 by_flag.fresh zeroed in
    (r.0.1.constructed ≡ 1) × All (λ p. p ≡ some 0) r.1 × ((destroy_global r.0.1).deleted ≡ 0 ∷ [])
globals-once_example = globals-once by_flag 2
