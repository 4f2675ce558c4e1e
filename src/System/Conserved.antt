-- ===== src/System/Conserved.antt =====
-- Operations with a handler are neither lost nor run twice, however the threads of
-- boost_asio/scheduler.cc interleave. Here is what a step posts and what it finishes.
pub mod Moves
pub mod Laws
use boost_asio.Base.{ℕ, ◌+◌, ◌==◌, if◌then◌else◌, List, [], ◌∷◌, ◌++◌, total}
use boost_asio.Scheduler.{Operation, task_operation, handler, descriptor, ThreadInfo, Scheduler}
use boost_asio.System.{
  Pc, in_operation, Thread, Outside, Call, Calls, dispatches, Move, System, Step, Reach,
}

-- How often an address stands in a list.
abbrev pub same : ℕ → ℕ → ℕ
same x a = if a == x then 1 else 0

abbrev pub count : ℕ → List ℕ → ℕ
count x = total (same x)

-- The handlers that a call, a move and a step give to the scheduler, and those that they finish.
abbrev pub posted_by_call :
    {s s' : Scheduler} {c : Call} {w w' : Outside} → Calls s c w s' w' → List ℕ
posted_by_call (dispatches a) = a ∷ []
posted_by_call _ = []

abbrev pub posted_by_move :
    {s : Scheduler} {t : ThreadInfo} {w : Outside} {p : Pc} {s' : Scheduler} {p' : Pc}
    {t' : ThreadInfo} {w' : Outside}
    → Move s t w p s' p' t' w'
    → List ℕ
posted_by_move (Move.calls a c) = posted_by_call c
posted_by_move (Move.post a b c) = b ∷ []
posted_by_move (Move.io d a b n ops h) = a ∷ b ∷ ops
posted_by_move (Move.io_one d a n h) = a ∷ []
posted_by_move _ = []

abbrev pub finished_by_move :
    {s : Scheduler} {t : ThreadInfo} {w : Outside} {p : Pc} {s' : Scheduler} {p' : Pc}
    {t' : ThreadInfo} {w' : Outside}
    → Move s t w p s' p' t' w'
    → List ℕ
finished_by_move (Move.flush a) = a ∷ []
finished_by_move _ = []

abbrev pub posted_by_step : {y z : System} → Step y z → List ℕ
posted_by_step (Step.move i at m) = posted_by_move m
posted_by_step (Step.outside_call c) = posted_by_call c
posted_by_step (Step.outside_post a c) = a ∷ []
posted_by_step (Step.outside_cancel n ops h) = ops
posted_by_step _ = []

abbrev pub finished_by_step : {y z : System} → Step y z → List ℕ
finished_by_step (Step.move i at m) = finished_by_move m
finished_by_step _ = []

-- All that was posted and finished on the way to a state, the latest first.
abbrev pub posted : {y z : System} → Reach y z → List ℕ
posted Reach.here = []
posted (Reach.next r st) = posted_by_step st ++ posted r

abbrev pub finished : {y z : System} → Reach y z → List ℕ
finished Reach.here = []
finished (Reach.next r st) = finished_by_step st ++ finished r

-- The operation with the handler at `x`.
abbrev pub copies : ℕ → Operation → ℕ
copies x task_operation = 0
copies x (handler a) = same x a
copies x (descriptor d) = 0

-- In the hand of a thread, and in its own queue.
abbrev pub carried : ℕ → Pc → ℕ
carried x (in_operation o) = copies x o
carried x _ = 0

abbrev pub held_by : ℕ → Thread → ℕ
held_by x th = total (copies x) th.info.private_op_queue + carried x th.pc

-- How often the handler at `x` is queued or running.
abbrev pub held : ℕ → System → ℕ
held x y = total (copies x) y.sched.op_queue + total (held_by x) y.threads
