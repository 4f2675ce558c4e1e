-- ===== src/SocketOps/Transfer.antt =====
-- The transfers of boost_asio/socket_ops.cc: `recv`, `send`, the polls, and the loops around them. A
-- loop runs on fuel and gives `none` when that is used up. The buffers are in the parameters.
pub mod Laws
use boost_asio.Base.{
  ℕ, zero, suc, ◌==◌, if◌then◌else◌, Bool, true, false, not, ◌&&◌, ◌||◌, Option, none, some,
}
use boost_asio.Base.Int.{ℤ, pos, negsuc, is_zero, is_negative, is_positive, is_minus_one, or_zero}
use boost_asio.SocketOps.{
  Os, Syscall, Ret, refused, checked, would_block, invalid_seek, interrupted, user_set_non_blocking,
  stream_oriented, has_flag, raise_flag, clear_current_error, clear_last_error, error_wrapper,
}

-- MSG_NOSIGNAL
abbrev pub no_signal : ℕ
no_signal = 16384

-- What `non_blocking_send` gives: whether the operation is over, the error, and the bytes.
pub record Sent (W : Type 0) : Type 0 where
  pub done : Bool
  pub ec : ℕ
  pub bytes_transferred : ℕ
  pub os : Os W

module _ {W : Type 0} where
  -- `recv`; `::recvmsg` is the parameter
  unfoldable pub recv : Syscall W → Os W → Ret W
  recv sys_recvmsg os = checked is_zero sys_recvmsg os

  -- `send` with its flags; `::sendmsg` is the parameter
  unfoldable pub send : (ℕ → Syscall W) → ℕ → Os W → Ret W
  send sys_sendmsg flags os = checked is_zero (sys_sendmsg (raise_flag flags no_signal)) os

  -- The body that `poll_read`, `poll_write` and `poll_error` have in common; `::poll` on the events
  -- of each is the parameter, with the timeout. `msec` is not used.
  unfoldable pub poll : (ℤ → Syscall W) → ℤ → ℕ → Os W → Ret W
  poll sys_poll sockfd state os =
      let timeout = if has_flag state user_set_non_blocking then pos 0 else negsuc 0 in
      let r = error_wrapper (sys_poll timeout (clear_last_error os)) in
      let ec = clear_current_error true r.ec in
      if is_minus_one sockfd then refused os else record r {
        ec = if is_zero r.value && has_flag state user_set_non_blocking then would_block else ec;
      }

  -- The loop of `sync_recv`.
  unfoldable pub recv_loop : ℕ → Syscall W → (ℤ → Syscall W) → ℤ → ℕ → Os W → Option (Ret W)
  recv_loop zero sys_recvmsg sys_poll sockfd state os = none
  recv_loop (suc fuel) sys_recvmsg sys_poll sockfd state os =
      let bytes = recv sys_recvmsg os in
      let polled = poll sys_poll sockfd 0 bytes.os in
      let rest = recv_loop fuel sys_recvmsg sys_poll sockfd state polled.os in
      let stream = has_flag state stream_oriented in
      if is_positive bytes.value
      then some bytes
      else if stream && is_zero bytes.value
      then some (record bytes { value = pos 0; ec = invalid_seek })
      else if stream && (not (bytes.ec == would_block) || not (bytes.ec == would_block))
      then some (record bytes { value = pos 0 })
      else if is_negative polled.value
      then some (record polled { value = pos 0 })
      else rest

  unfoldable pub sync_recv :
      ℕ → Syscall W → (ℤ → Syscall W) → ℤ → ℕ → (all_empty : Bool) → Os W → Option (Ret W)
  sync_recv fuel sys_recvmsg sys_poll sockfd state all_empty os =
      if is_minus_one sockfd
      then some (record (refused os) { value = pos 0 })
      else if all_empty && has_flag state stream_oriented
      then some (record { value = pos 0; ec = 0; os = os })
      else recv_loop fuel sys_recvmsg sys_poll sockfd state os

  -- The loop of `sync_send`.
  unfoldable pub send_loop :
      ℕ → (ℕ → Syscall W) → (ℤ → Syscall W) → ℤ → ℕ → ℕ → Os W → Option (Ret W)
  send_loop zero sys_sendmsg sys_poll sockfd state flags os = none
  send_loop (suc fuel) sys_sendmsg sys_poll sockfd state flags os =
      let bytes = send sys_sendmsg flags os in
      let polled = poll sys_poll sockfd 0 bytes.os in
      let rest = send_loop fuel sys_sendmsg sys_poll sockfd state flags polled.os in
      if not (is_negative bytes.value)
      then some bytes
      else if has_flag state user_set_non_blocking
          || (not (bytes.ec == would_block) && not (bytes.ec == would_block))
      then some (record bytes { value = pos 0 })
      else if is_negative polled.value
      then some (record polled { value = pos 0 })
      else rest

  unfoldable pub sync_send :
      ℕ → (ℕ → Syscall W) → (ℤ → Syscall W) → ℤ → ℕ → ℕ → Os W → Option (Ret W)
  sync_send fuel sys_sendmsg sys_poll sockfd state flags os =
      if is_minus_one sockfd
      then some (record (refused os) { value = pos 0 })
      else send_loop fuel sys_sendmsg sys_poll sockfd state flags os

  -- `non_blocking_send`, given what `bytes_transferred` holds before.
  unfoldable pub non_blocking_send : ℕ → (ℕ → Syscall W) → ℕ → ℕ → Os W → Option (Sent W)
  non_blocking_send zero sys_sendmsg flags transferred os = none
  non_blocking_send (suc fuel) sys_sendmsg flags transferred os =
      let bytes = send sys_sendmsg flags os in
      let rest = non_blocking_send fuel sys_sendmsg flags transferred bytes.os in
      if bytes.ec == interrupted
      then rest
      else if (bytes.ec == would_block) || (bytes.ec == would_block)
      then some
          (record { done = false; ec = bytes.ec; bytes_transferred = transferred; os = bytes.os })
      else some (record {
        done = true;
        ec = clear_current_error (not (is_negative bytes.value)) bytes.ec;
        bytes_transferred = or_zero bytes.value;
        os = bytes.os;
      })
