-- ===== src/IoContext/Laws.antt =====
-- What guards of the executor of boost_asio/io_context.hpp count.
use boost_asio.Base.{
  ℕ, ◌+◌, ◌-◌, ◌%◌, ◌≡◌, refl, if◌then◌else◌, Bool, true, false, none, some, List, [], ◌∷◌,
  get_elem?, total, total-set, size_mod, arith, All, Option-cases, inl, inr,
}
use boost_asio.Scheduler.{Scheduler, work_started, work_finished, decrement_work}
use boost_asio.Scheduler.Fields.{stop-Same}
use boost_asio.IoContext.{
  Guarded, GuardCall, make, copy, move, destroy, reset, started_if, finished_if, call_guard,
  call_guards,
}

abbrev pub one_if : Bool → ℕ
one_if owns = if owns then 1 else 0

pub work_finished-work :
    (s : Scheduler)
    → (work_finished s).outstanding_work ≡ (s.outstanding_work + size_mod - 1) % size_mod
unfolding work_finished decrement_work
work_finished-work s = let same = stop-Same (decrement_work s) in ground (arith, same)

finished_if-work :
    (owns : Bool) (s : Scheduler)
    → ((finished_if owns s).outstanding_work + one_if owns) % size_mod
      ≡ s.outstanding_work % size_mod
unfolding finished_if
finished_if-work true s = omega (arith, work_finished-work s)
finished_if-work false s = omega arith

started_if-work :
    (owns : Bool) (s : Scheduler)
    → (started_if owns s).outstanding_work % size_mod
      ≡ (s.outstanding_work + one_if owns) % size_mod
unfolding started_if work_started
started_if-work true s = omega arith
started_if-work false s = omega arith

abbrev pub is_reset : GuardCall → Bool
is_reset make = false
is_reset (copy i) = false
is_reset (move i) = false
is_reset (destroy i) = false
is_reset (reset i) = true

-- The work that the guards do not count stays.
abbrev IsKept : Guarded → Guarded → Type 0
IsKept g g' =
    (g'.sched.outstanding_work + total one_if g.guards) % size_mod
    ≡ (g.sched.outstanding_work + total one_if g'.guards) % size_mod

call_guard-none :
    (g : Guarded) (i : ℕ)
    → get_elem? g.guards i ≡ none
    → (call_guard g (copy i) ≡ g) × (call_guard g (move i) ≡ g) × (call_guard g (destroy i) ≡ g)
unfolding call_guard
call_guard-none g i h = (rw (h, call_guard), rw (h, call_guard), rw (h, call_guard))

call_guard-some :
    (g : Guarded) (i : ℕ) (owns : Bool)
    → get_elem? g.guards i ≡ some owns
    → IsKept g (call_guard g (copy i))
      × IsKept g (call_guard g (move i))
      × IsKept g (call_guard g (destroy i))
unfolding call_guard
call_guard-some g i owns h =
    let cleared = total-set one_if g.guards i owns false h in
    (
      rw (h, call_guard) (omega (arith, started_if-work owns g.sched)),
      rw (h, call_guard) (omega (arith, cleared)),
      rw (h, call_guard) (omega (arith, cleared, finished_if-work owns g.sched)),
    )

same-IsKept : (g : Guarded) {g' : Guarded} → g' ≡ g → IsKept g g'
same-IsKept g e = ground (arith, e)

call_guard-IsKept : (g : Guarded) (c : GuardCall) → is_reset c ≡ false → IsKept g (call_guard g c)
unfolding call_guard work_started
call_guard-IsKept g make h = omega arith
call_guard-IsKept g (copy i) h = elim (Option-cases (get_elem? g.guards i)) [
  | inl e ↦ same-IsKept g (call_guard-none g i e).0
  | inr p ↦ (call_guard-some g i p.0 p.1).0
]
call_guard-IsKept g (move i) h = elim (Option-cases (get_elem? g.guards i)) [
  | inl e ↦ same-IsKept g (call_guard-none g i e).1
  | inr p ↦ (call_guard-some g i p.0 p.1).1
]
call_guard-IsKept g (destroy i) h = elim (Option-cases (get_elem? g.guards i)) [
  | inl e ↦ same-IsKept g (call_guard-none g i e).2
  | inr p ↦ (call_guard-some g i p.0 p.1).2
]
call_guard-IsKept g (reset i) h = ground arith

-- However guards are made, copied, moved and destroyed, the count of outstanding work, less one for
-- each guard that owns work, stays (modulo 2 ^ 64), if none is reset.
pub call_guards-IsKept :
    (g : Guarded) (cs : List GuardCall)
    → All (λ c. is_reset c ≡ false) cs
    → let g' = call_guards g cs in
      (g'.sched.outstanding_work + total one_if g.guards) % size_mod
      ≡ (g.sched.outstanding_work + total one_if g'.guards) % size_mod
unfolding call_guards
call_guards-IsKept g [] h = refl
call_guards-IsKept g (c ∷ cs) h =
    omega (arith, call_guard-IsKept g c h.0, call_guards-IsKept (call_guard g c) cs h.1)

-- A guard that owns work, is reset and then destroyed, finishes its work twice: the count of work is
-- two less (modulo 2 ^ 64).
pub reset_then_destroy :
    (g : Guarded) (i : ℕ)
    → get_elem? g.guards i ≡ some true
    → ((call_guards g (reset i ∷ destroy i ∷ [])).sched.outstanding_work + 2) % size_mod
      ≡ g.sched.outstanding_work % size_mod
unfolding call_guards call_guard finished_if
reset_then_destroy g i h =
    let reset_one : call_guard g (reset i) ≡ record g { sched = work_finished g.sched } =
      rw (h, call_guard) refl in
    rw reset_one (
      rw (h, call_guard)
        (omega (arith, work_finished-work g.sched, work_finished-work (work_finished g.sched))))
