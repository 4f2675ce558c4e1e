-- ===== src/Reactor/Lifetime/Tests.antt =====
-- A kernel that keeps the open descriptors as a list, in which 3 is open; `eventfd` gives 5, and
-- `epoll_create1` fails.
use boost_asio.Base.{refl, ap, List, [], ◌∷◌}
use boost_asio.Base.Int.{ℤ, pos, negsuc}
use boost_asio.SocketOps.{Os, Syscall}
use boost_asio.Reactor.Lifetime.{Calls, construct}
use boost_asio.Reactor.Lifetime.Laws.{IsDocumented, IsSound, construct-IsSound}

abbrev drop_first : List ℤ → List ℤ
drop_first [] = []
drop_first (fd ∷ rest) = rest

abbrev does_nothing : Syscall (List ℤ)
does_nothing os = (pos 0, os)

abbrev failing : Calls (List ℤ)
failing = record {
  eventfd = λ os. (pos 5, record os { world = pos 5 ∷ os.world });
  epoll_create = λ os. (negsuc 0, record os { errno = 24 });
  epoll_ctl = λ op epoll_fd fd events. does_nothing;
  write = λ fd. does_nothing;
  close = λ fd os. (pos 0, record os { world = drop_first os.world });
}

abbrev held : List ℤ → List ℤ
held fds = fds

failing-IsDocumented : IsDocumented failing held
failing-IsDocumented = record {
  eventfd_opens = λ os. refl;
  epoll_create_opens = λ os. refl;
  epoll_ctl_keeps = λ op epoll_fd fd events os. refl;
  write_keeps = λ fd os. refl;
  close_closes = λ fd rest os opened. ap drop_first opened;
}

abbrev one_open : Os (List ℤ)
one_open = record { errno = 0; world = pos 3 ∷ [] }

construct-IsSound_example : IsSound failing held (pos 3 ∷ []) (construct failing one_open)
construct-IsSound_example = construct-IsSound failing held failing-IsDocumented one_open
