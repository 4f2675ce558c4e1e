-- ===== src/System/Fifo.antt =====
-- The shared queue of boost_asio/scheduler.cc seen from outside: what each step puts on it and what
-- a thread takes off it, however the threads interleave.
pub mod Laws
mod Tests
use boost_asio.Base.{ℕ, if◌then◌else◌, Bool, not, ◌&&◌, List, [], ◌∷◌, ◌++◌, map}
use boost_asio.Scheduler.{Operation, task_operation, handler, descriptor, ThreadInfo, Scheduler}
use boost_asio.System.{
  Pc, in_task, in_operation, Outside, Call, Calls, dispatches, inits, Move, System, Step, Reach,
}

abbrev pub put_by_call :
    {s s' : Scheduler} {c : Call} {w w' : Outside} → Calls s c w s' w' → List Operation
put_by_call (dispatches a) = handler a ∷ []
put_by_call {s} inits = if not s.shut_down && not s.task then task_operation ∷ [] else []
put_by_call _ = []

-- A continuation goes to the thread's own queue, which a cleanup puts on the shared one later.
abbrev pub put_by_move :
    {s : Scheduler} {t : ThreadInfo} {w : Outside} {p : Pc} {s' : Scheduler} {p' : Pc}
    {t' : ThreadInfo} {w' : Outside}
    → Move s t w p s' p' t' w'
    → List Operation
put_by_move {t = t} Move.requeue = t.private_op_queue ++ task_operation ∷ []
put_by_move (Move.calls a c) = put_by_call c
put_by_move (Move.post a b is_continuation) = if is_continuation then [] else handler b ∷ []
put_by_move (Move.io d a b n ops h) = map handler (b ∷ ops)
put_by_move {t = t} Move.leave = t.private_op_queue
put_by_move _ = []

-- What a thread that has looked at the queue holds now.
abbrev pub taken_at : Pc → List Operation
taken_at (in_operation o) = o ∷ []
taken_at in_task = task_operation ∷ []
taken_at _ = []

abbrev pub taken_by_move :
    {s : Scheduler} {t : ThreadInfo} {w : Outside} {p : Pc} {s' : Scheduler} {p' : Pc}
    {t' : ThreadInfo} {w' : Outside}
    → Move s t w p s' p' t' w'
    → List Operation
taken_by_move {p' = p'} Move.look = taken_at p'
taken_by_move {p' = p'} Move.wakes = taken_at p'
taken_by_move {p' = p'} Move.requeue = taken_at p'
taken_by_move _ = []

abbrev pub put_by_step : {y z : System} → Step y z → List Operation
put_by_step (Step.move i at m) = put_by_move m
put_by_step (Step.outside_call c) = put_by_call c
put_by_step (Step.outside_post a c) = handler a ∷ []
put_by_step (Step.outside_cancel n ops h) = map handler ops
put_by_step _ = []

abbrev pub taken_by_step : {y z : System} → Step y z → List Operation
taken_by_step (Step.move i at m) = taken_by_move m
taken_by_step _ = []

-- In the order in which it happened.
abbrev pub put_on : {y z : System} → Reach y z → List Operation
put_on Reach.here = []
put_on (Reach.next r st) = put_on r ++ put_by_step st

abbrev pub taken_off : {y z : System} → Reach y z → List Operation
taken_off Reach.here = []
taken_off (Reach.next r st) = taken_off r ++ taken_by_step st
