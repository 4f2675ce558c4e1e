-- ===== src/Interrupter/Tests.antt =====
-- An eventfd as a kernel with the counter and the number of interruptions still to come.
use boost_asio.Base.{ℕ, ◌+◌, ◌-◌, ◌≡◌, refl, ltb, ◌==◌, if◌then◌else◌, false, some, arith}
use boost_asio.Base.Int.{pos, negsuc}
use boost_asio.SocketOps.{Os, Syscall, would_block, interrupted}
use boost_asio.Interrupter.{interrupt, reset}
use boost_asio.Interrupter.Laws.{done, again, IsEventfd, interrupts, reset-interrupts}

abbrev World : Type 0
World = ℕ × ℕ

abbrev world_count : World → ℕ
world_count w = w.0

abbrev eventfd_write : Syscall World
eventfd_write os =
    if ltb os.world.0 18446744073709551614
    then (pos 8, record os { world = (os.world.0 + 1, os.world.1) })
    else (negsuc 0, record os { errno = would_block })

abbrev eventfd_read : Syscall World
eventfd_read os =
    if ltb 0 os.world.1
    then (negsuc 0, record { errno = interrupted; world = (os.world.0, os.world.1 - 1) })
    else if os.world.0 == 0
    then (negsuc 0, record os { errno = would_block })
    else (pos 8, record os { world = (0, os.world.1) })

kernel-IsEventfd : IsEventfd world_count eventfd_write eventfd_read
kernel-IsEventfd = record {
  write_adds = λ os. ground arith;
  read_clears = λ os whole. (ground (arith, whole), ground (arith, whole));
  read_keeps = λ os broken. ground (arith, broken);
}

-- The counter is 0 and one read will be interrupted.
abbrev quiet : Os World
quiet = record { errno = 0; world = (0, 1) }

-- Two interrupts; the first read is interrupted, the second gives the counter, and the third fails.
reset-interrupts_example :
    (reset 3 eventfd_read (interrupts eventfd_write 2 quiet)
      ≡ some (ltb 0 2, record { errno = 0; world = (0, 0) }))
    × (reset 3 eventfd_read (record { errno = 0; world = (0, 0) })
        ≡ some (false, record { errno = would_block; world = (0, 0) }))
unfolding interrupt
reset-interrupts_example =
    reset-interrupts world_count eventfd_write eventfd_read 2 1 0 3 quiet
      (pos 8, record { errno = 0; world = (0, 0) })
      (negsuc 0, record { errno = would_block; world = (0, 0) }) kernel-IsEventfd (λ e. refl)
      (again refl (done refl)) (done refl) (omega arith)
