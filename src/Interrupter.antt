-- ===== src/Interrupter.antt =====
-- boost_asio/select_interrupter.hpp and select_interrupter.cc: the descriptor by which a thread in
-- `epoll_wait` is woken. The calls of the kernel are parameters; the object is its `fd_`.
pub mod Laws
mod Tests
use boost_asio.Base.{ℕ, zero, suc, ◌==◌, if◌then◌else◌, Bool, not, ◌&&◌, Option, none, some}
use boost_asio.Base.Int.{ℤ, negsuc, is_negative, is_positive, is_minus_one}
use boost_asio.Base.Ends.{Ends, returns, throws, throw_error}
use boost_asio.SocketOps.{Os, Syscall, interrupted}

module _ {W : Type 0} where
  -- `open_descriptors`: the new `fd_`, or errno
  unfoldable pub open_descriptors : Syscall W → Os W → Ends ℤ × Os W
  open_descriptors sys_eventfd os =
      let r = sys_eventfd os in (throw_error (is_negative r.0) r.1.errno (returns r.0), r.1)

  -- `close_descriptors`
  unfoldable pub close_descriptors : (ℤ → Syscall W) → ℤ → Os W → Os W
  close_descriptors sys_close fd os = if is_minus_one fd then os else (sys_close fd os).1

  -- `recreate`
  unfoldable pub recreate : (ℤ → Syscall W) → Syscall W → ℤ → Os W → Ends ℤ × Os W
  recreate sys_close sys_eventfd fd os =
      open_descriptors sys_eventfd (close_descriptors sys_close fd os)

  -- `interrupt`: `::write` of the number 1, whose result is thrown away
  unfoldable pub interrupt : Syscall W → Os W → Os W
  interrupt sys_write os = (sys_write os).1

  abbrev pub is_interrupted : ℤ × Os W → Bool
  is_interrupted r = is_negative r.0 && (r.1.errno == interrupted)

  -- `reset`, on fuel
  unfoldable pub reset : ℕ → Syscall W → Os W → Option (Bool × Os W)
  reset zero sys_read os = none
  reset (suc fuel) sys_read os =
      let r = sys_read (record os { errno = 0 }) in
      let rest = reset fuel sys_read r.1 in
      if is_interrupted r then rest else some (is_positive r.0, r.1)
