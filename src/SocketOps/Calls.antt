-- ===== src/SocketOps/Calls.antt =====
-- The wrappers of boost_asio/socket_ops.cc around one system call each, and `close`. What they hand
-- to the kernel besides the descriptor is in the parameter.
pub mod Laws
use boost_asio.Base.{
  ℕ, ◌-◌, ◌/◌, ◌%◌, ◌^◌, ◌==◌, if◌then◌else◌, Bool, true, false, not, ◌&&◌, ◌||◌, Option, none,
  some,
}
use boost_asio.Base.Int.{ℤ, pos, negsuc, is_zero, is_negative, is_positive, is_minus_one}
use boost_asio.SocketOps.{
  Os, Syscall, Ret, socket_error_retval, would_block, not_enough_memory, clear_non_blocking,
  clear_last_error, clear_current_error, error_wrapper, checked, refused,
}

-- `SockLenType` is 32 bits wide.
abbrev pub sock_len : ℕ → ℕ
sock_len n = n % 2 ^ 32

-- A call that gets a length by pointer and writes it back.
abbrev pub LenCall : Type 0 → Type 0
LenCall W = ℤ → ℕ → Os W → (ℤ × Os W) × ℕ

-- `flags & ~O_NONBLOCK` of flags that are not negative
abbrev pub clear_o_nonblock : ℤ → ℤ
clear_o_nonblock (pos n) = pos (if n / 2048 % 2 == 1 then n - 2048 else n)
clear_o_nonblock (negsuc n) = negsuc n

module _ {W : Type 0} where
  -- `socket(af, type, protocol, ec)`, with the arguments in `sys_socket`
  pub socket : Syscall W → Os W → Ret W
  socket sys_socket os = checked (λ sockfd. not (is_minus_one sockfd)) sys_socket os

  -- `call_getpeername` and `call_getsockname`, with the length
  pub call_with_len : LenCall W → ℤ → ℕ → Os W → (ℤ × Os W) × ℕ
  call_with_len sys sockfd addrlen os = sys sockfd (sock_len addrlen) os

  -- `call_accept`, whose length may be null
  pub call_accept :
      (ℤ → Option ℕ → Os W → (ℤ × Os W) × ℕ) → ℤ → Option ℕ → Os W → (ℤ × Os W) × Option ℕ
  call_accept sys_accept sockfd none os = ((sys_accept sockfd none os).0, none)
  call_accept sys_accept sockfd (some n) os =
      let r = sys_accept sockfd (some (sock_len n)) os in (r.0, some r.1)

  pub accept : (ℤ → Option ℕ → Os W → (ℤ × Os W) × ℕ) → ℤ → Option ℕ → Os W → Ret W × Option ℕ
  accept sys_accept sockfd addrlen os =
      let r = call_accept sys_accept sockfd addrlen (clear_last_error os) in
      let e = error_wrapper r.0 in
      if is_minus_one sockfd
      then (refused os, addrlen)
      else (record e { ec = clear_current_error (not (is_minus_one e.value)) e.ec }, r.1)

  pub bind : (ℤ → ℕ → Syscall W) → ℤ → ℕ → Os W → Ret W
  bind sys_bind sockfd addrlen os =
      if is_minus_one sockfd
      then refused os
      else checked is_zero (sys_bind sockfd (sock_len addrlen)) os

  pub shutdown : (ℤ → ℕ → Syscall W) → ℤ → ℕ → Os W → Ret W
  shutdown sys_shutdown sockfd what os =
      if is_minus_one sockfd then refused os else checked is_zero (sys_shutdown sockfd what) os

  pub listen : (ℤ → ℕ → Syscall W) → ℤ → ℕ → Os W → Ret W
  listen sys_listen sockfd backlog os =
      if is_minus_one sockfd then refused os else checked is_zero (sys_listen sockfd backlog) os

  pub connect : (ℤ → ℕ → Syscall W) → ℤ → ℕ → Os W → Ret W
  connect sys_connect sockfd addrlen os =
      let r = checked is_zero (sys_connect sockfd (sock_len addrlen)) os in
      if is_minus_one sockfd
      then refused os
      else if is_positive r.value && (r.ec == would_block)
      then record r { ec = not_enough_memory }
      else r

  pub getpeername : LenCall W → ℤ → ℕ → Os W → Ret W × ℕ
  getpeername sys sockfd addrlen os =
      let r = call_with_len sys sockfd addrlen (clear_last_error os) in
      let e = error_wrapper r.0 in
      if is_minus_one sockfd
      then (refused os, addrlen)
      else (record e { ec = clear_current_error (is_zero e.value) e.ec }, r.1)

  pub getsockname : LenCall W → ℤ → ℕ → Os W → Ret W × ℕ
  getsockname sys sockfd addrlen os =
      let r = call_with_len sys sockfd addrlen (clear_last_error os) in
      let e = error_wrapper r.0 in
      if is_minus_one sockfd
      then (refused os, addrlen)
      else (record e { ec = clear_current_error (is_zero e.value) e.ec }, r.1)

  -- The rest of `close` after a first `::close` that failed with another error than EAGAIN: the
  -- flags, and a second `::close`.
  pub close_again : (get_flags : Syscall W) → (set_flags : ℤ → Syscall W) → Syscall W → Os W → Ret W
  close_again get_flags set_flags sys_close os =
      let r = get_flags os in
      let os' = if is_negative r.0 then r.1 else (set_flags (clear_o_nonblock r.0) r.1).1 in
      error_wrapper (sys_close (clear_last_error os'))

  -- `close`: the result and the state's flags. The condition after the first call is
  -- `ec != operation_would_block || ec != resource_unavailable_try_again`, one number on Linux.
  pub close :
      (get_flags : Syscall W) → (set_flags : ℤ → Syscall W) → Syscall W → ℤ → ℕ → Os W → Ret W × ℕ
  close get_flags set_flags sys_close sockfd state os =
      let first = error_wrapper (sys_close (clear_last_error os)) in
      let again = close_again get_flags set_flags sys_close first.os in
      if is_minus_one sockfd
      then (record { value = pos 0; ec = 0; os = os }, state)
      else if not (is_zero first.value)
          && (not (first.ec == would_block) || not (first.ec == would_block))
      then (
        record again { ec = clear_current_error (is_zero again.value) again.ec },
        clear_non_blocking state,
      )
      else (record first { ec = clear_current_error (is_zero first.value) first.ec }, state)
