-- ===== src/SocketOps/Options.antt =====
-- `setsockopt` and `getsockopt` of boost_asio/socket_ops.cc. A level, an option and the socket's
-- state are 32-bit words, and an option's value is the int that its buffer holds.
pub mod Laws
use boost_asio.Base.{ℕ, suc, ◌+◌, ◌-◌, ◌/◌, ◌^◌, ◌==◌, if◌then◌else◌, Bool, true, not, ◌&&◌, ◌||◌}
use boost_asio.Base.Int.{ℤ, pos, negsuc, is_zero, is_minus_one}
use boost_asio.SocketOps.{
  Os, Syscall, Ret, refused, invalid_argument, enable_connection_aborted, user_set_linger, has_flag,
  raise_flag, clear_current_error, clear_last_error, error_wrapper, socket_error_retval,
}
use boost_asio.SocketOps.Calls.{sock_len}

-- `custom_socket_option_level` (0xA5100000) and its options
abbrev pub custom_socket_option_level : ℕ
custom_socket_option_level = 2769289216

abbrev pub enable_connection_aborted_option : ℕ
enable_connection_aborted_option = 1

abbrev pub always_fail_option : ℕ
always_fail_option = 2

-- SOL_SOCKET, SO_SNDBUF, SO_RCVBUF and SO_LINGER
abbrev pub sol_socket : ℕ
sol_socket = 1

abbrev pub so_sndbuf : ℕ
so_sndbuf = 7

abbrev pub so_rcvbuf : ℕ
so_rcvbuf = 8

abbrev pub so_linger : ℕ
so_linger = 13

-- `state |= ~value`: every bit but the flag's, which stays.
unfoldable pub raise_others : ℕ → ℕ → ℕ
raise_others state value = if has_flag state value then 2 ^ 32 - 1 else 2 ^ 32 - 1 - value

-- `*optval /= 2`, which cuts towards 0.
abbrev pub half : ℤ → ℤ
half (pos n) = pos (n / 2)
half (negsuc n) = if n == 0 then pos 0 else negsuc (suc n / 2 - 1)

-- A call of the kernel's `getsockopt`: with the length it gives its result, the value and the
-- length.
abbrev pub GetCall : Type 0 → Type 0
GetCall W = ℕ → Os W → (ℤ × Os W) × (ℤ × ℕ)

module _ {W : Type 0} where
  -- the two results that need no kernel
  unfoldable pub invalid : Os W → Ret W
  invalid os = record { value = socket_error_retval; ec = invalid_argument; os = os }

  unfoldable pub success : Os W → Ret W
  success os = record { value = pos 0; ec = 0; os = os }

  -- `setsockopt`: the result and the state
  unfoldable pub setsockopt : (ℕ → Syscall W) → ℤ → ℕ → ℕ → ℕ → ℤ → ℕ → Os W → Ret W × ℕ
  setsockopt sys sockfd state level optname optval optlen os =
      let linger = (level == sol_socket) && (optname == so_linger) in
      let state' = if linger then raise_flag state user_set_linger else state in
      let r = error_wrapper (sys (sock_len optlen) (clear_last_error os)) in
      if is_minus_one sockfd
      then (refused os, state)
      else if (level == custom_socket_option_level) && (optname == always_fail_option)
      then (invalid os, state)
      else if (level == custom_socket_option_level) && (optname == enable_connection_aborted_option)
      then if not (optlen == 4)
        then (invalid os, state)
        else if not (is_zero optval)
        then (success os, raise_flag state enable_connection_aborted)
        else (success os, raise_others state enable_connection_aborted)
      else (record r { ec = if is_zero r.value then 0 else r.ec }, state')

  -- `getsockopt`: the result, the value and the length
  unfoldable pub getsockopt :
      GetCall W → ℤ → ℕ → ℕ → ℕ → (optval : ℤ) (optlen : ℕ) → Os W → Ret W × (ℤ × ℕ)
  getsockopt sys sockfd state level optname optval optlen os =
      let call = sys (sock_len optlen) (clear_last_error os) in
      let r = error_wrapper call.0 in
      let doubled =
        is_zero r.value
        && (level == sol_socket)
        && (call.1.1 == 4)
        && ((optname == so_sndbuf) || (optname == so_rcvbuf)) in
      if is_minus_one sockfd
      then (refused os, (optval, optlen))
      else if (level == custom_socket_option_level) && (optname == always_fail_option)
      then (invalid os, (optval, optlen))
      else if (level == custom_socket_option_level) && (optname == enable_connection_aborted_option)
      then if not (optlen == 4) then (invalid os, (optval, optlen)) else (
        success os,
        (if has_flag state enable_connection_aborted then pos 1 else pos 0, optlen),
      )
      else (
        record r { ec = clear_current_error (is_zero r.value) r.ec },
        (if doubled then half call.1.0 else call.1.0, call.1.1),
      )
