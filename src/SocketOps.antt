-- ===== src/SocketOps.antt =====
-- boost_asio/socket_ops.hpp and socket_ops.cc: the wrappers of the system calls. Here is the error
-- handling that they share; the children have the calls, the transfer loops, the socket options, the
-- byte order and addresses as text.
--
-- A system call is a parameter: it takes the kernel's state and errno and gives its result with
-- both afterwards. A `std::error_code` is its errno value in the generic category, 0 for none;
-- EWOULDBLOCK is EAGAIN, as on Linux. A descriptor or an int result is an integer, and the flags of
-- a socket's `state_type` are the bits of a 32-bit word.
pub mod Calls
pub mod Transfer
pub mod Options
pub mod ByteOrder
pub mod Inet
mod Tests
use boost_asio.Base.{ℕ, ◌+◌, ◌-◌, ◌/◌, ◌%◌, ◌==◌, if◌then◌else◌, Bool, true, false}
use boost_asio.Base.Int.{ℤ, negsuc}

-- The kernel's state with the thread's errno.
pub record Os (W : Type 0) : Type 0 where
  pub errno : ℕ
  pub world : W

-- A system call with its arguments given.
abbrev pub Syscall : Type 0 → Type 0
Syscall W = Os W → ℤ × Os W

-- What a wrapper gives: its result, the error code and the system.
pub record Ret (W : Type 0) : Type 0 where
  pub value : ℤ
  pub ec : ℕ
  pub os : Os W

abbrev pub invalid_socket : ℤ
invalid_socket = negsuc 0

abbrev pub socket_error_retval : ℤ
socket_error_retval = negsuc 0

-- the error numbers that the code names
abbrev pub interrupted : ℕ
interrupted = 4

abbrev pub bad_file_descriptor : ℕ
bad_file_descriptor = 9

abbrev pub would_block : ℕ
would_block = 11

abbrev pub not_enough_memory : ℕ
not_enough_memory = 12

abbrev pub invalid_argument : ℕ
invalid_argument = 22

abbrev pub invalid_seek : ℕ
invalid_seek = 29

-- the flags of `state_type` that are tested, by their place
abbrev pub has_flag : ℕ → ℕ → Bool
has_flag state value = state / value % 2 == 1

abbrev pub user_set_non_blocking : ℕ
user_set_non_blocking = 1

abbrev pub enable_connection_aborted : ℕ
enable_connection_aborted = 4

abbrev pub user_set_linger : ℕ
user_set_linger = 8

abbrev pub stream_oriented : ℕ
stream_oriented = 16

-- `state |= value`, for one flag
abbrev pub raise_flag : ℕ → ℕ → ℕ
raise_flag state value = if has_flag state value then state else state + value

-- `state &= ~non_blocking`, the two lowest bits
abbrev pub clear_non_blocking : ℕ → ℕ
clear_non_blocking state = state - state % 4

unfoldable pub clear_current_error : Bool → ℕ → ℕ
clear_current_error flag ec = if flag then 0 else ec

module _ {W : Type 0} where
  unfoldable pub clear_last_error : Os W → Os W
  clear_last_error os = record os { errno = 0 }

  -- the system after a call, with the call's errno as the error code
  unfoldable pub error_wrapper : ℤ × Os W → Ret W
  error_wrapper (value, os) = record { value = value; ec = os.errno; os = os }

  -- `clear_last_error(); result = error_wrapper(call, ec); clear_current_error(ok(result), ec);`
  unfoldable pub checked : (ℤ → Bool) → Syscall W → Os W → Ret W
  checked ok call os =
      let r = error_wrapper (call (clear_last_error os)) in
      record r { ec = clear_current_error (ok r.value) r.ec }

  -- the result for `invalid_socket`, which asks the kernel nothing
  unfoldable pub refused : Os W → Ret W
  refused os = record { value = socket_error_retval; ec = bad_file_descriptor; os = os }
