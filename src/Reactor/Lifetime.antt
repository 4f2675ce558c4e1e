-- ===== src/Reactor/Lifetime.antt =====
-- The constructor, the destructor and `interrupt` of boost_asio/epoll_reactor.cc: the descriptors
-- that a reactor holds. The calls of the kernel are parameters.
pub mod Laws
mod Tests
use boost_asio.Base.{ℕ, if◌then◌else◌, Bool, true, false}
use boost_asio.Base.Int.{ℤ, is_negative, is_minus_one}
use boost_asio.Base.Ends.{Ends, returns, throws, undefined, throw_error}
use boost_asio.SocketOps.{Os, Syscall}
use boost_asio.Reactor.{Events, no_events, Control, ctl_add, ctl_mod}

-- The calls; `epoll_ctl` gets the descriptor of the epoll and the other one.
pub record Calls (W : Type 0) : Type 0 where
  pub eventfd : Syscall W
  pub epoll_create : Syscall W
  pub epoll_ctl : Control → ℤ → ℤ → Events → Syscall W
  pub write : ℤ → Syscall W
  pub close : ℤ → Syscall W

-- `interrupter_.fd_` and `epoll_fd_`
pub record Descriptors : Type 0 where
  pub interrupter_fd : ℤ
  pub epoll_fd : ℤ

-- EPOLLIN | EPOLLERR | EPOLLET
abbrev pub interrupter_events : Events
interrupter_events = record no_events { epollin = true; epollerr = true; epollet = true }

module _ {W : Type 0} (c : Calls W) where
  unfoldable pub do_epoll_create : Os W → Ends ℤ × Os W
  do_epoll_create os =
      let r = c.epoll_create os in (throw_error (is_negative r.0) r.1.errno (returns r.0), r.1)

  -- The constructor behind `do_epoll_create`; where that throws the interrupter is destroyed.
  unfoldable pub add_interrupter : ℤ → Ends ℤ × Os W → Ends Descriptors × Os W
  add_interrupter fd (returns epoll_fd, os) =
      let os' = (c.epoll_ctl ctl_add epoll_fd fd interrupter_events os).1 in
      (
        returns (record { interrupter_fd = fd; epoll_fd = epoll_fd }),
        boost_asio.Interrupter.interrupt (c.write fd) os',
      )
  add_interrupter fd (throws ec, os) =
      (throws ec, boost_asio.Interrupter.close_descriptors c.close fd os)
  add_interrupter fd (undefined, os) = (undefined, os)

  -- The constructor behind that of the interrupter.
  unfoldable pub add_epoll : Ends ℤ × Os W → Ends Descriptors × Os W
  add_epoll (returns fd, os) = add_interrupter fd (do_epoll_create os)
  add_epoll (throws ec, os) = (throws ec, os)
  add_epoll (undefined, os) = (undefined, os)

  -- `epoll_reactor::epoll_reactor`
  unfoldable pub construct : Os W → Ends Descriptors × Os W
  construct os = add_epoll (boost_asio.Interrupter.open_descriptors c.eventfd os)

  -- `~epoll_reactor`, and then that of the interrupter
  unfoldable pub destroy : Descriptors → Os W → Os W
  destroy d os =
      let os' = if is_minus_one d.epoll_fd then os else (c.close d.epoll_fd os).1 in
      boost_asio.Interrupter.close_descriptors c.close d.interrupter_fd os'

  -- `interrupt`
  unfoldable pub interrupt : Descriptors → Os W → Os W
  interrupt d os = (c.epoll_ctl ctl_mod d.epoll_fd d.interrupter_fd interrupter_events os).1
