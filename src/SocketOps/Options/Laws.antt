-- ===== src/SocketOps/Options/Laws.antt =====
-- The option that boost_asio/socket_ops.cc keeps itself, "enable connection aborted".
use boost_asio.Base.{
  ℕ, ◌≡◌, refl, if◌then◌else◌, true, false, not, ◌||◌, arith, Bool-cases, inl, inr,
}
use boost_asio.Base.Int.{ℤ, pos, is_zero, is_minus_one}
use boost_asio.SocketOps.{
  Os, Syscall, has_flag, raise_flag, enable_connection_aborted, user_set_non_blocking,
  user_set_linger, stream_oriented,
}
use boost_asio.SocketOps.Options.{
  GetCall, setsockopt, getsockopt, raise_others, success, custom_socket_option_level,
  enable_connection_aborted_option,
}

raise_own :
    (s : ℕ) → has_flag (raise_flag s enable_connection_aborted) enable_connection_aborted ≡ true
raise_own s = ground arith

-- Raising the flag keeps the others.
raise_keeps :
    (s : ℕ)
    → (has_flag (raise_flag s enable_connection_aborted) user_set_non_blocking
        ≡ has_flag s user_set_non_blocking)
      × (has_flag (raise_flag s enable_connection_aborted) user_set_linger
          ≡ has_flag s user_set_linger)
      × (has_flag (raise_flag s enable_connection_aborted) stream_oriented
          ≡ has_flag s stream_oriented)
raise_keeps s = (ground arith, ground arith, ground arith)

-- Raising every flag but this one keeps this one.
raise_others_flag :
    (s : ℕ)
    → let s' = raise_others s enable_connection_aborted in
      (has_flag s' enable_connection_aborted ≡ has_flag s enable_connection_aborted)
      × (has_flag s' user_set_non_blocking ≡ true)
      × (has_flag s' user_set_linger ≡ true)
      × (has_flag s' stream_oriented ≡ true)
unfolding raise_others
raise_others_flag s = elim (Bool-cases (has_flag s enable_connection_aborted)) [
  | inl p ↦ rw p (refl, refl, refl, refl)
  | inr p ↦ rw p (refl, refl, refl, refl)
]

module _ {W : Type 0} where
  -- On a valid socket, setting "enable connection aborted" to `v` and reading it back asks the
  -- kernel nothing and reports no error. The value read is 1 if `v` is not 0; if `v` is 0, it is
  -- what the flag was before: the flag is never cleared. The non-blocking, linger and stream flags
  -- are raised if `v` is 0, and kept if not.
  pub getsockopt-setsockopt :
      (sys : ℕ → Syscall W) (sys_get : GetCall W) (sockfd : ℤ) (state : ℕ) (v w : ℤ) (os : Os W)
      → is_minus_one sockfd ≡ false
      → let set =
          setsockopt sys sockfd state custom_socket_option_level enable_connection_aborted_option v
            4 os in
        let old = has_flag state in
        (set.0 ≡ success os)
        × (getsockopt sys_get sockfd set.1 custom_socket_option_level
              enable_connection_aborted_option w 4 os
            ≡ (
              success os,
              (if not (is_zero v) || old enable_connection_aborted then pos 1 else pos 0, 4),
            ))
        × (has_flag set.1 user_set_non_blocking ≡ (is_zero v || old user_set_non_blocking))
        × (has_flag set.1 user_set_linger ≡ (is_zero v || old user_set_linger))
        × (has_flag set.1 stream_oriented ≡ (is_zero v || old stream_oriented))
  unfolding setsockopt getsockopt
  getsockopt-setsockopt sys sys_get sockfd state v w os valid = elim (Bool-cases (is_zero v)) [
    | inl p ↦
        let (own, block, linger, stream) = raise_others_flag state in
        (
          rw (valid, p),
          rw (valid, p, own),
          rw (valid, p, block),
          rw (valid, p, linger),
          rw (valid, p, stream),
        )
    | inr p ↦
        let (block, linger, stream) = raise_keeps state in
        (
          rw (valid, p),
          rw (valid, p, raise_own state),
          rw (valid, p, block),
          rw (valid, p, linger),
          rw (valid, p, stream),
        )
  ]
