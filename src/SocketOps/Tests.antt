-- ===== src/SocketOps/Tests.antt =====
-- A kernel that gives its answers from a list, each with the errno it sets.
use boost_asio.Base.{
  ℕ, suc, ◌≡◌, refl, ap, ◌⊎◌, ◌==◌, if◌then◌else◌, true, false, some, List, [], ◌∷◌, arith,
}
use boost_asio.Base.Int.{ℤ, pos, negsuc}
use boost_asio.SocketOps.{
  Os, Syscall, Ret, bad_file_descriptor, would_block, interrupted, invalid_socket,
}
use boost_asio.SocketOps.Calls.{close}
use boost_asio.SocketOps.Calls.Laws.{Closing, close_calls}
use boost_asio.SocketOps.Transfer.{recv, send, sync_recv, sync_send, non_blocking_send}
use boost_asio.SocketOps.Transfer.Laws.{ready, wait, sync_recv-Waits}
use boost_asio.SocketOps.Options.{
  setsockopt, success, custom_socket_option_level, enable_connection_aborted_option,
}
use boost_asio.SocketOps.Options.Laws.{getsockopt-setsockopt}

-- The answers still to come: results with what they set errno to.
abbrev Script : Type 0
Script = List (ℤ × ℕ)

abbrev answer : Syscall Script
answer os = elim os.world [
  | [] ↦ (pos 0, os)
  | a ∷ rest ↦ (a.0, record { errno = a.1; world = rest })
]

abbrev scripted : Script → Os Script
scripted answers = record { errno = 0; world = answers }

abbrev fails : ℕ → ℤ × ℕ
fails errno = (negsuc 0, errno)

-- A kernel whose first `::close` fails with EIO and whose next ones succeed. Its state is the number
-- of calls and the mode of the descriptor.
abbrev close_once_more : Syscall (ℕ × ℤ)
close_once_more os =
    if os.world.0 == 0
    then (negsuc 0, record { errno = 5; world = (suc os.world.0, os.world.1) })
    else (pos 0, record os { world = (suc os.world.0, os.world.1) })

close_once_more-counts :
    (os : Os (ℕ × ℤ)) → (close_once_more os).1.world ≡ (suc os.world.0, os.world.1)
close_once_more-counts os = ground arith

abbrev failing : Closing (ℕ × ℤ)
failing = record {
  sys_close = close_once_more;
  get_flags = λ os. (os.world.1, os);
  set_flags = λ flags os. (pos 0, record os { world = (os.world.0, flags) });
  closes = λ w. w.0;
  mode = λ w. w.1;
  close_counts = λ os. ap (λ w. w.0) (close_once_more-counts os);
  close_keeps = λ os. ap (λ w. w.1) (close_once_more-counts os);
  get_counts = λ os. refl;
  get_keeps = λ os. refl;
  set_counts = λ flags os. refl;
  set_sets = λ flags os. refl;
}

-- not called yet, with O_RDWR and O_NONBLOCK
abbrev non_blocking_mode : Os (ℕ × ℤ)
non_blocking_mode = record { errno = 0; world = (0, pos 2050) }

close_calls_example :
    let (r, state) =
      close failing.get_flags failing.set_flags failing.sys_close (pos 3) 18 non_blocking_mode in
    (r.os.world.0 ≡ 2) × (state ≡ 16) × (r.os.world.1 ≡ pos 2) × ((true ≡ true) ⊎ (r.ec ≡ 11))
close_calls_example = close_calls failing (pos 3) 18 non_blocking_mode

-- EAGAIN, a poll that reports the socket, and 8 bytes.
abbrev once_more : Script
once_more = fails 11 ∷ (pos 1, 0) ∷ (pos 8, 0) ∷ []

abbrev last_answer : Os Script
last_answer = record { errno = 0; world = (pos 8, 0) ∷ [] }

sync_recv-Waits_example :
    sync_recv 2 answer (λ n. answer) (pos 3) 17 false (scripted once_more)
    ≡ some (record { value = pos 8; ec = 0; os = record { errno = 0; world = [] } })
unfolding recv boost_asio.SocketOps.Transfer.poll boost_asio.SocketOps.checked
    boost_asio.SocketOps.error_wrapper boost_asio.SocketOps.clear_last_error
    boost_asio.SocketOps.clear_current_error
sync_recv-Waits_example =
    sync_recv-Waits answer (λ n. answer) (pos 3) 17 1 2 false (scripted once_more) last_answer refl
      refl (wait refl refl refl ready) (ground arith) refl

getsockopt-setsockopt_example :
    (setsockopt
      (λ n. answer)
      (pos 3)
      4
      custom_socket_option_level
      enable_connection_aborted_option
      (pos 0)
      4
      (scripted [])).0
    ≡ success (scripted [])
getsockopt-setsockopt_example =
    (getsockopt-setsockopt (λ n. answer) (λ n os. (answer os, (pos 0, n))) (pos 3) 4 (pos 0) (pos 9)
      (scripted []) refl).0
