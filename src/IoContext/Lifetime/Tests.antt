-- ===== src/IoContext/Lifetime/Tests.antt =====
-- Two operations that are posted to the scheduler of a new io_context.
use boost_asio.Base.{ℕ, ◌≡◌, refl, true, false, some, List, [], ◌∷◌, ◌++◌, arith}
use boost_asio.Base.Ends.{returns}
use boost_asio.Scheduler.{Memory}
use boost_asio.Scheduler.Order.{plain}
use boost_asio.IoContext.Lifetime.{IoContext, io_context_default, io_run, post_each}
use boost_asio.IoContext.Lifetime.Laws.{run_handler, io_run-post_each}

abbrev clear : Memory
clear = record {
  task = false;
  task_interrupted = false;
  outstanding_work = 0;
  stopped = false;
  shut_down = false;
}

-- It notes which handlers ran.
abbrev note : ℕ → List ℕ → List ℕ
note a w = w ++ a ∷ []

io_run-post_each_example :
    (made : IoContext) × (ended : IoContext) × (io_context_default 1 5 clear 8 ≡ returns made)
    × (io_run
          (plain (run_handler note))
          3
          1
          (record made { impl = post_each (3 ∷ 4 ∷ []) made.impl })
          []
        ≡ some (returns (2, ended, 3 ∷ 4 ∷ [])))
    × (ended.impl.stopped ≡ true)
    × (ended.impl.outstanding_work ≡ 0)
    × (ended.impl.op_queue ≡ [])
io_run-post_each_example =
    io_run-post_each note 1 5 8 3 0 0 (4 ∷ []) clear [] refl refl (ground arith)
