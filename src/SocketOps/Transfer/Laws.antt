-- ===== src/SocketOps/Transfer/Laws.antt =====
-- How many rounds the loops of boost_asio/socket_ops.cc take.
use boost_asio.Base.{
  ℕ, zero, suc, ◌<◌, ◌≡◌, Bool-cases, inl, inr, refl, ◌≢◌, ◌==◌, ◌&&◌, if◌then◌else◌, Bool, true,
  false, not, Option, some, arith,
}
use boost_asio.Base.Int.{ℤ, pos, negsuc, is_zero, is_negative, is_positive, is_minus_one, or_zero}
use boost_asio.SocketOps.{
  Os, Syscall, Ret, would_block, interrupted, user_set_non_blocking, stream_oriented, has_flag,
  clear_current_error,
}
use boost_asio.SocketOps.Transfer.{
  recv, send, poll, recv_loop, sync_recv, send_loop, sync_send, non_blocking_send,
}

not_positive : (z : ℤ) → is_negative z ≡ true → is_positive z ≡ false
not_positive (pos n) negative = ground arith
not_positive (negsuc n) negative = refl

not_zero : (z : ℤ) → is_negative z ≡ true → is_zero z ≡ false
not_zero (pos n) negative = ground arith
not_zero (negsuc n) negative = refl

module _ {W : Type 0} where
  -- `Waits k os os'`: from `os`, `recv` fails with EAGAIN and the poll succeeds, `k` times, which
  -- leads to `os'`.
  pub data Waits (sys_recvmsg : Syscall W) (sys_poll : ℤ → Syscall W) (sockfd : ℤ)
      : ℕ → Os W → Os W → Type 0 where
    ready : {os : Os W} → Waits sys_recvmsg sys_poll sockfd zero os os
    wait :
        {n : ℕ} {os os' : Os W}
        → is_negative (recv sys_recvmsg os).value ≡ true
        → (recv sys_recvmsg os).ec ≡ would_block
        → is_negative (poll sys_poll sockfd 0 (recv sys_recvmsg os).os).value ≡ false
        → Waits sys_recvmsg sys_poll sockfd n
            (poll sys_poll sockfd 0 (recv sys_recvmsg os).os).os
            os'
        → Waits sys_recvmsg sys_poll sockfd (suc n) os os'

  -- `Interrupted k os os'`: `send` is interrupted `k` times from `os`, which leads to `os'`.
  pub data Interrupted (sys_sendmsg : ℕ → Syscall W) (flags : ℕ) : ℕ → Os W → Os W → Type 0 where
    sent : {os : Os W} → Interrupted sys_sendmsg flags zero os os
    again :
        {n : ℕ} {os os' : Os W}
        → (send sys_sendmsg flags os).ec ≡ interrupted
        → Interrupted sys_sendmsg flags n (send sys_sendmsg flags os).os os'
        → Interrupted sys_sendmsg flags (suc n) os os'

  recv_loop-Waits :
      (sys_recvmsg : Syscall W) (sys_poll : ℤ → Syscall W) (sockfd : ℤ) (state k fuel : ℕ)
      (os os' : Os W)
      → Waits sys_recvmsg sys_poll sockfd k os os'
      → k < fuel
      → is_positive (recv sys_recvmsg os').value ≡ true
      → recv_loop fuel sys_recvmsg sys_poll sockfd state os ≡ some (recv sys_recvmsg os')
  unfolding recv_loop
  recv_loop-Waits sys_recvmsg sys_poll sockfd state k zero os os' waits enough got = ground arith
  recv_loop-Waits sys_recvmsg sys_poll sockfd state zero (suc fuel) os _ ready enough got = rw got
  recv_loop-Waits sys_recvmsg sys_poll sockfd state (suc k) (suc fuel) os os'
        (wait failed ec polled rest) enough got =
      let next =
        recv_loop-Waits sys_recvmsg sys_poll sockfd state k fuel _ os' rest (omega arith) got in
      elim (Bool-cases (has_flag state stream_oriented)) [
        | inl p ↦ rw (not_positive _ failed, not_zero _ failed, ec, polled, p) next
        | inr p ↦ rw (not_positive _ failed, not_zero _ failed, ec, polled, p) next
      ]

  -- `sync_recv` waits on a valid socket as long as `recv` fails with EAGAIN and the poll succeeds,
  -- also if the user asked for a non-blocking socket: after k such rounds it gives what the next
  -- `recv` got, if that got bytes. Fuel above k is enough. The socket is none of a stream, or its
  -- buffers are not all empty.
  pub sync_recv-Waits :
      (sys_recvmsg : Syscall W) (sys_poll : ℤ → Syscall W) (sockfd : ℤ) (state k fuel : ℕ)
      (all_empty : Bool) (os os' : Os W)
      → is_minus_one sockfd ≡ false
      → (all_empty && has_flag state stream_oriented) ≡ false
      → Waits sys_recvmsg sys_poll sockfd k os os'
      → k < fuel
      → is_positive (recv sys_recvmsg os').value ≡ true
      → sync_recv fuel sys_recvmsg sys_poll sockfd state all_empty os ≡ some (recv sys_recvmsg os')
  unfolding sync_recv
  sync_recv-Waits sys_recvmsg sys_poll sockfd state k fuel all_empty os os' valid filled waits
        enough got =
      rw (valid, filled)
        (recv_loop-Waits sys_recvmsg sys_poll sockfd state k fuel os os' waits enough got)

  sent_cases :
      (value : ℤ) (ec : ℕ) (os : Os W)
      → if◌then◌else◌ {A = Option (Ret W)}
          (not (is_negative value))
          (some (record { value = value; ec = ec; os = os }))
          (some (record { value = pos 0; ec = ec; os = os }))
        ≡ some (record { value = pos (or_zero value); ec = ec; os = os })
  sent_cases (pos n) ec os = refl
  sent_cases (negsuc n) ec os = refl

  -- `sync_send` on a valid socket that the user made non-blocking asks the kernel once and returns
  -- what that gave, 0 bytes if it failed.
  pub sync_send_once :
      (fuel : ℕ) (sys_sendmsg : ℕ → Syscall W) (sys_poll : ℤ → Syscall W) (sockfd : ℤ)
      (state flags : ℕ) (os : Os W)
      → is_minus_one sockfd ≡ false
      → has_flag state user_set_non_blocking ≡ true
      → sync_send (suc fuel) sys_sendmsg sys_poll sockfd state flags os
        ≡ some (record (send sys_sendmsg flags os) {
          value = pos (or_zero (send sys_sendmsg flags os).value);
        })
  unfolding sync_send send_loop
  sync_send_once fuel sys_sendmsg sys_poll sockfd state flags os valid asked =
      rw (valid, asked) (sent_cases _ _ _)

  -- If `send` is interrupted k times and not the next time, `non_blocking_send` returns with fuel
  -- above k. It is done unless the last `send` would block; then it has the bytes, and an error just
  -- if that `send` failed.
  pub non_blocking_send-Interrupted :
      (sys_sendmsg : ℕ → Syscall W) (flags transferred k fuel : ℕ) (os os' : Os W)
      → Interrupted sys_sendmsg flags k os os'
      → k < fuel
      → (send sys_sendmsg flags os').ec ≢ interrupted
      → let last = send sys_sendmsg flags os' in
        non_blocking_send fuel sys_sendmsg flags transferred os
        ≡ some (
            if last.ec == would_block
            then record {
              done = false;
              ec = would_block;
              bytes_transferred = transferred;
              os = last.os;
            }
            else record {
              done = true;
              ec = if is_negative last.value then last.ec else 0;
              bytes_transferred = or_zero last.value;
              os = last.os;
            })
  unfolding non_blocking_send clear_current_error
  non_blocking_send-Interrupted sys_sendmsg flags transferred k zero os os' tries enough last =
      ground arith
  non_blocking_send-Interrupted sys_sendmsg flags transferred zero (suc fuel) os _ sent enough
        last =
      ground arith
  non_blocking_send-Interrupted sys_sendmsg flags transferred (suc k) (suc fuel) os os'
        (again ec rest) enough last =
      rw ec (
        non_blocking_send-Interrupted sys_sendmsg flags transferred k fuel _ os' rest (omega arith)
          last)
