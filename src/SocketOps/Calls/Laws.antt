-- ===== src/SocketOps/Calls/Laws.antt =====
-- The errors that the wrappers of boost_asio/socket_ops.cc report.
use boost_asio.Base.{
  ℕ, suc, ◌+◌, ◌%◌, ◌^◌, ◌≡◌, refl, ap, ◌∙◌, ◌⊎◌, inl, inr, ◌==◌, if◌then◌else◌, Bool, true, false,
  not, ◌&&◌, ◌||◌, Option, Bool-cases, arith,
}
use boost_asio.Base.Int.{ℤ, pos, negsuc, is_zero, is_negative, is_positive, is_minus_one}
use boost_asio.SocketOps.{
  Os, Syscall, Ret, invalid_socket, bad_file_descriptor, would_block, not_enough_memory,
  clear_non_blocking, clear_last_error, clear_current_error, error_wrapper, checked, refused,
}
use boost_asio.SocketOps.Calls.{
  LenCall, accept, bind, shutdown, listen, connect, getpeername, getsockname, close, close_again,
  clear_o_nonblock,
}

module _ {W : Type 0} where
  -- On the invalid socket no wrapper asks the kernel or touches errno: each returns -1 with "bad
  -- file descriptor", and leaves a length as it was; `close` alone succeeds, and keeps the flags.
  pub invalid_socket_refused :
      (sys_accept : ℤ → Option ℕ → Os W → (ℤ × Os W) × ℕ) (sys : ℤ → ℕ → Syscall W)
      (sys_len : LenCall W) (sys_close get_flags : Syscall W) (set_flags : ℤ → Syscall W) (n : ℕ)
      (addrlen : Option ℕ) (os : Os W)
      → let error : Ret W = record { value = negsuc 0; ec = bad_file_descriptor; os = os } in
        (accept sys_accept invalid_socket addrlen os ≡ (error, addrlen))
        × (bind sys invalid_socket n os ≡ error)
        × (shutdown sys invalid_socket n os ≡ error)
        × (listen sys invalid_socket n os ≡ error)
        × (connect sys invalid_socket n os ≡ error)
        × (getpeername sys_len invalid_socket n os ≡ (error, n))
        × (getsockname sys_len invalid_socket n os ≡ (error, n))
        × (close get_flags set_flags sys_close invalid_socket n os
            ≡ (record { value = pos 0; ec = 0; os = os }, n))
  unfolding accept bind shutdown listen connect getpeername getsockname close refused
  invalid_socket_refused sys_accept sys sys_len sys_close get_flags set_flags n addrlen os =
      (refl, refl, refl, refl, refl, refl, refl, refl)

  -- On a valid socket `bind` gives the kernel's result for the length cut to 32 bits, called with
  -- errno 0, and reports no error if that is 0 and the errno that the call left if not; so do
  -- `listen` and `shutdown` with their argument, and `connect`, unless a positive result comes with
  -- EAGAIN, which is reported as "not enough memory".
  pub checked_lem :
      (sys : ℤ → ℕ → Syscall W) (sockfd : ℤ) (n : ℕ) (os : Os W)
      → is_minus_one sockfd ≡ false
      → let call = λ (m : ℕ). sys sockfd m (record os { errno = 0 }) in
        let error = λ (m : ℕ). if is_zero (call m).0 then 0 else (call m).1.errno in
        let expected = λ (m : ℕ).
          let r : Ret W = record { value = (call m).0; ec = error m; os = (call m).1 } in r in
        let len = n % 2 ^ 32 in
        (bind sys sockfd n os ≡ expected len)
        × (listen sys sockfd n os ≡ expected n)
        × (shutdown sys sockfd n os ≡ expected n)
        × (connect sys sockfd n os ≡ (
            if is_positive (call len).0 && (error len == would_block)
            then record (expected len) { ec = not_enough_memory }
            else expected len))
  unfolding bind listen shutdown connect checked error_wrapper clear_last_error clear_current_error
  checked_lem sys sockfd n os valid = (rw valid, rw valid, rw valid, rw valid)

-- What the calls of `close` do to a kernel that counts the calls of `::close` and has the flags of
-- the descriptor's mode.
pub record Closing (W : Type 0) : Type 0 where
  pub sys_close : Syscall W
  pub get_flags : Syscall W
  pub set_flags : ℤ → Syscall W
  pub closes : W → ℕ
  pub mode : W → ℤ
  pub close_counts : (os : Os W) → closes (sys_close os).1.world ≡ suc (closes os.world)
  pub close_keeps : (os : Os W) → mode (sys_close os).1.world ≡ mode os.world
  pub get_counts : (os : Os W) → closes (get_flags os).1.world ≡ closes os.world
  pub get_keeps : (os : Os W) → mode (get_flags os).1.world ≡ mode os.world
  pub set_counts : (flags : ℤ) (os : Os W) → closes (set_flags flags os).1.world ≡ closes os.world
  pub set_sets : (flags : ℤ) (os : Os W) → mode (set_flags flags os).1.world ≡ flags

module _ {W : Type 0} (kernel : Closing W) where
  abbrev first_close : Os W → ℤ × Os W
  first_close os = kernel.sys_close (record os { errno = 0 })

  -- A valid socket whose first `::close` fails with another error than EAGAIN.
  abbrev pub is_retried : ℤ → Os W → Bool
  is_retried sockfd os =
      let (n, os') = first_close os in
      not (is_minus_one sockfd) && (not (is_zero n) && not (os'.errno == would_block))

  again_lem :
      (os : Os W)
      → let flags = kernel.get_flags os in
        let r = close_again kernel.get_flags kernel.set_flags kernel.sys_close os in
        (kernel.closes r.os.world ≡ suc (kernel.closes os.world))
        × (kernel.mode r.os.world
            ≡ (if is_negative flags.0 then kernel.mode os.world else clear_o_nonblock flags.0))
  unfolding close_again error_wrapper clear_last_error
  again_lem os =
      let (flags, os1) = kernel.get_flags os in
      let os2 = (kernel.set_flags (clear_o_nonblock flags) os1).1 in
      elim (Bool-cases (is_negative flags)) [
        | inl failed ↦ rw failed (
          kernel.close_counts (record os1 { errno = 0 }) ∙ ap suc (kernel.get_counts os),
          kernel.close_keeps (record os1 { errno = 0 }) ∙ kernel.get_keeps os,
        )
        | inr got ↦ rw got (
          kernel.close_counts (record os2 { errno = 0 })
              ∙ ap suc (kernel.set_counts (clear_o_nonblock flags) os1 ∙ kernel.get_counts os),
          kernel.close_keeps (record os2 { errno = 0 })
              ∙ kernel.set_sets (clear_o_nonblock flags) os1,
        )
      ]

  -- Over a kernel that counts the calls of `::close`, that sets the mode of the descriptor as it is
  -- asked to and does not change it otherwise: `close` calls `::close` not at all on the invalid
  -- socket, where it succeeds; once, if that call succeeds or fails with EAGAIN, which it then
  -- reports; and twice if it fails with any other error. In that case alone it clears the
  -- non-blocking flags of the state, and O_NONBLOCK of the descriptor's mode, if the mode can be
  -- read.
  pub close_calls :
      (sockfd : ℤ) (state : ℕ) (os : Os W)
      → let (n, os1) = first_close os in
        let (r, state') =
          close kernel.get_flags kernel.set_flags kernel.sys_close sockfd state os in
        let flags = (kernel.get_flags os1).0 in
        let retried = is_retried sockfd os in
        (kernel.closes r.os.world
          ≡ kernel.closes os.world + (if is_minus_one sockfd then 0 else if retried then 2 else 1))
        × (state' ≡ (if retried then clear_non_blocking state else state))
        × (kernel.mode r.os.world ≡ (
            if retried && not (is_negative flags)
            then clear_o_nonblock flags
            else kernel.mode os.world))
        × ((retried ≡ true)
            ⊎ (r.ec ≡ (if is_minus_one sockfd || is_zero n then 0 else would_block)))
  unfolding close error_wrapper clear_last_error clear_current_error
  close_calls sockfd state os =
      let (n, os1) = first_close os in
      let again = again_lem os1 in
      let counted = kernel.close_counts (record os { errno = 0 }) in
      let kept = kernel.close_keeps (record os { errno = 0 }) in
      elim (Bool-cases (is_minus_one sockfd)) [
        | inl invalid ↦ rw invalid (omega arith, refl, refl, inr refl)
        | inr valid ↦ elim (Bool-cases (is_zero n)) [
          | inl closed ↦ rw (valid, closed) (omega (arith, counted), refl, kept, inr refl)
          | inr failed ↦ elim (Bool-cases (os1.errno == would_block)) [
            | inl busy ↦
                rw (valid, failed, busy)
                  (omega (arith, counted), refl, kept, inr (ground (arith, busy)))
            | inr other ↦
                rw (valid, failed, other)
                  (omega (arith, again.0, counted), refl, ground (arith, again.1, kept), inl refl)
          ]
        ]
      ]
