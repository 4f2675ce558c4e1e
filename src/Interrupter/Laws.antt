-- ===== src/Interrupter/Laws.antt =====
-- What boost_asio/select_interrupter.cc gives over an eventfd.
use boost_asio.Base.{
  ℕ, zero, suc, ◌+◌, ◌<◌, ◌≡◌, refl, ap, ◌∙◌, ltb, if◌then◌else◌, true, false, ◌==◌, some, arith,
}
use boost_asio.Base.Int.{ℤ, pos, negsuc}
use boost_asio.SocketOps.{Os, Syscall}
use boost_asio.Interrupter.{interrupt, is_interrupted, reset}

module _ {W : Type 0} where
  -- `Reads k os r`: from `os` the read is interrupted `k` times, and then ends with `r`.
  pub data Reads (sys_read : Syscall W) : ℕ → Os W → ℤ × Os W → Type 0 where
    done :
        {os : Os W}
        → is_interrupted (sys_read (record os { errno = 0 })) ≡ false
        → Reads sys_read zero os (sys_read (record os { errno = 0 }))
    again :
        {k : ℕ} {os : Os W} {r : ℤ × Os W}
        → is_interrupted (sys_read (record os { errno = 0 })) ≡ true
        → Reads sys_read k (sys_read (record os { errno = 0 })).1 r
        → Reads sys_read (suc k) os r

  -- What is documented of a non-blocking eventfd with the counter `count`: a write adds 1, unless
  -- the counter is at its largest value; a read that is interrupted changes nothing, and any other
  -- reads 8 bytes and clears the counter, or fails with EAGAIN where it is 0.
  pub record IsEventfd (count : W → ℕ) (sys_write sys_read : Syscall W) : Type 0 where
    pub write_adds :
        (os : Os W)
        → count (sys_write os).1.world ≡ (
            if ltb (count os.world) 18446744073709551614
            then count os.world + 1
            else count os.world)
    pub read_clears :
        (os : Os W)
        → is_interrupted (sys_read os) ≡ false
        → ((sys_read os).0 ≡ (if count os.world == 0 then negsuc 0 else pos 8))
          × (count (sys_read os).1.world ≡ 0)
    pub read_keeps :
        (os : Os W)
        → is_interrupted (sys_read os) ≡ true
        → count (sys_read os).1.world ≡ count os.world

  reset-Reads :
      (count : W → ℕ) (sys_write sys_read : Syscall W) (k fuel : ℕ) (os : Os W) (r : ℤ × Os W)
      → IsEventfd count sys_write sys_read
      → Reads sys_read k os r
      → k < fuel
      → (reset fuel sys_read os ≡ some (ltb 0 (count os.world), r.1)) × (count r.1.world ≡ 0)
  unfolding reset
  reset-Reads count w sys_read k zero os r doc reads enough = ground arith
  reset-Reads count w sys_read zero (suc fuel) os _ doc (done whole) enough =
      let (value, cleared) = doc.read_clears (record os { errno = 0 }) whole in
      (rw whole (ground (arith, value)), cleared)
  reset-Reads count w sys_read (suc k) (suc fuel) os r doc (again broken rest) enough =
      let next = sys_read (record os { errno = 0 }) in
      let same = doc.read_keeps (record os { errno = 0 }) broken in
      let (value, cleared) = reset-Reads count w sys_read k fuel next.1 r doc rest (omega arith) in
      (rw broken (value ∙ ap (λ n. some (ltb 0 n, r.1)) same), cleared)

  -- As many calls of `interrupt`.
  abbrev pub interrupts : Syscall W → ℕ → Os W → Os W
  interrupts sys_write zero os = os
  interrupts sys_write (suc n) os = interrupt sys_write (interrupts sys_write n os)

  interrupted_count :
      (count : W → ℕ) (sys_write sys_read : Syscall W) (n : ℕ) (os : Os W)
      → IsEventfd count sys_write sys_read
      → 0 < count (interrupts sys_write (suc n) os).world
  unfolding interrupt
  interrupted_count count w sys_read n os doc = ground (arith, doc.write_adds (interrupts w n os))

  -- Over an eventfd as documented: after any number of calls of `interrupt`, at least one, `reset`
  -- gives true and the next `reset` gives false, however often their reads are interrupted, if the
  -- fuel is above the number of interruptions. Without a call of `interrupt`, and with the counter
  -- at 0, both give false.
  pub reset-interrupts :
      (count : W → ℕ) (sys_write sys_read : Syscall W) (n k k' fuel : ℕ) (os : Os W)
      (r r' : ℤ × Os W)
      → IsEventfd count sys_write sys_read
      → (n ≡ 0 → count os.world ≡ 0)
      → Reads sys_read k (interrupts sys_write n os) r
      → Reads sys_read k' r.1 r'
      → k + k' < fuel
      → (reset fuel sys_read (interrupts sys_write n os) ≡ some (ltb 0 n, r.1))
        × (reset fuel sys_read r.1 ≡ some (false, r'.1))
  reset-interrupts count w sys_read zero k k' fuel os r r' doc start reads reads' enough =
      let (value, cleared) = reset-Reads count w sys_read k fuel os r doc reads (omega arith) in
      let (value', _) = reset-Reads count w sys_read k' fuel r.1 r' doc reads' (omega arith) in
      (
        value ∙ ap (λ n. some (ltb 0 n, r.1)) (start refl),
        value' ∙ ap (λ n. some (ltb 0 n, r'.1)) cleared,
      )
  reset-interrupts count w sys_read (suc n) k k' fuel os r r' doc start reads reads' enough =
      let positive : true ≡ ltb 0 (suc n) = ground arith in
      let up : ltb 0 (count (interrupts w (suc n) os).world) ≡ true =
        ground (arith, interrupted_count count w sys_read n os doc) in
      let (value, cleared) =
        reset-Reads count w sys_read k fuel (interrupts w (suc n) os) r doc reads (omega arith) in
      let (value', _) = reset-Reads count w sys_read k' fuel r.1 r' doc reads' (omega arith) in
      (
        value ∙ ap (λ b. some (b, r.1)) (up ∙ positive),
        value' ∙ ap (λ n. some (ltb 0 n, r'.1)) cleared,
      )
