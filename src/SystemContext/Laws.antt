-- ===== src/SystemContext/Laws.antt =====
-- How the threads of boost_asio/thread_group.hpp end.
use boost_asio.Base.{
  ℕ, zero, suc, ◌+◌, ◌*◌, ◌^◌, ◌<◌, ◌≡◌, refl, ap, ◌∙◌, Bool, true, List, [], ◌∷◌, ◌++◌, length,
  All, if_both, not, ◌&&◌, length-append, ◌==◌, if◌then◌else◌, size_mod, arith,
}
use boost_asio.Scheduler.{
  Scheduler, stop, stop_all_threads, interrupt_task, work_started, work_finished,
}
use boost_asio.Scheduler.Fields.{stop-Same}
use boost_asio.IoContext.Laws.{work_finished-work}
use boost_asio.SystemContext.{
  create_threads, join_threads, terminates, destroy_group, SystemContext, num_threads, construct,
  join, destroy, stop_context,
}

join_threads-same : (threads : List Bool) → join_threads threads ≡ threads
unfolding join_threads
join_threads-same [] = refl
join_threads-same (t ∷ ts) = ap (t ∷◌) (join_threads-same ts)

-- What the owner of a context does with it before it is destroyed.
pub data Use : Type 0 where
  use_stop use_join : Use

abbrev pub use_context : SystemContext → List Use → SystemContext
use_context c [] = c
use_context c (use_stop ∷ us) = use_context (stop_context c) us
use_context c (use_join ∷ us) = use_context (join c) us

use_context-threads : (c : SystemContext) (us : List Use) → (use_context c us).threads ≡ c.threads
unfolding stop_context join
use_context-threads c [] = refl
use_context-threads c (use_stop ∷ us) = use_context-threads (stop_context c) us
use_context-threads c (use_join ∷ us) =
    use_context-threads (join c) us ∙ join_threads-same c.threads

-- Every thread of the group is joinable.
abbrev pub IsRunning : List Bool → Type 0
IsRunning threads = All (λ t. t ≡ true) threads

IsRunning-append : (threads : List Bool) → IsRunning threads → IsRunning (threads ++ true ∷ [])
IsRunning-append [] h = (refl, tt)
IsRunning-append (t ∷ ts) h = (h.0, IsRunning-append ts h.1)

create_threads-IsRunning :
    (n : ℕ) (threads : List Bool) → IsRunning threads → IsRunning (create_threads n threads)
unfolding create_threads
create_threads-IsRunning zero threads h = h
create_threads-IsRunning (suc n) threads h =
    create_threads-IsRunning n (threads ++ true ∷ []) (IsRunning-append threads h)

length-create_threads :
    (n : ℕ) (threads : List Bool) → length (create_threads n threads) ≡ length threads + n
unfolding create_threads
length-create_threads zero threads = omega arith
length-create_threads (suc n) threads =
    omega (arith, length-create_threads n (threads ++ true ∷ []), length-append threads (true ∷ []))

terminates-IsRunning :
    (threads : List Bool) → IsRunning threads → 0 < length threads → terminates threads ≡ true
unfolding terminates
terminates-IsRunning [] h lt = ground arith
terminates-IsRunning (t ∷ ts) h lt = rw h.0 refl

context_lem :
    (threads : List Bool) (n : ℕ) (rest : List Bool)
    → IsRunning threads
    → length threads ≡ n
    → 0 < n
    → rest ≡ threads
    → (length rest ≡ n) × IsRunning rest × (destroy_group (join_threads rest) ≡ true)
unfolding destroy_group
context_lem threads n rest h l lt e = rw e (
  l,
  h,
  rw (join_threads-same threads, join_threads-same threads)
      (terminates-IsRunning threads h (omega (arith, l))),
)

stop-stopped : (s : Scheduler) → (stop s).stopped ≡ true
unfolding stop stop_all_threads interrupt_task
stop-stopped s =
    if_both (λ (x : Scheduler). x.stopped ≡ true) (not s.task_interrupted && s.task) refl refl

work_finished-work_started :
    (s : Scheduler)
    → s.outstanding_work < size_mod
    → (work_finished (work_started s)).outstanding_work ≡ s.outstanding_work
unfolding work_started
work_finished-work_started s lt = omega (arith, work_finished-work (work_started s))

-- A context on a machine of fewer than 2 ^ 30 processors makes twice as many threads as processors,
-- or 2 where their number is not known, and however often it is stopped and joined all of them stay
-- joinable: destroying it terminates the program. Without a call of `join`, and with less than 2 ^
-- 64 units of work, the body of the destructor stops the scheduler and takes back just the unit of
-- work that the constructor began.
pub destroy-terminates :
    (s : Scheduler) (hardware : ℕ) (us : List Use)
    → hardware < 2 ^ 30
    → s.outstanding_work < size_mod
    → let c = use_context (construct s hardware) us in
      (length c.threads ≡ (if hardware == 0 then 2 else 2 * hardware))
      × IsRunning c.threads
      × ((destroy c).1 ≡ true)
      × ((destroy (construct s hardware)).0.stopped ≡ true)
      × ((destroy (construct s hardware)).0.outstanding_work ≡ s.outstanding_work)
unfolding construct destroy num_threads
destroy-terminates s hardware us lt work =
    let (count, running, ends) =
      context_lem (construct s hardware).threads (num_threads hardware)
        (use_context (construct s hardware) us).threads
        (create_threads-IsRunning (num_threads hardware) [] tt)
        (omega (arith, length-create_threads (num_threads hardware) [])) (ground arith)
        (use_context-threads (construct s hardware) us) in
    (
      count ∙ ground arith,
      running,
      ends,
      stop-stopped _,
      (stop-Same _).work ∙ work_finished-work_started s work,
    )
