-- ===== src/Reactor/Lifetime/Laws.antt =====
-- A reactor of boost_asio/epoll_reactor.cc leaks no descriptor.
use mathlib.Core.Path.{subst}
use boost_asio.Base.{
  ℕ, ◌≡◌, refl, sym, ap, ◌∙◌, ◌⊎◌, inl, inr, if◌then◌else◌, false, List, ◌∷◌, Bool-cases, arith,
}
use boost_asio.Base.Int.{ℤ, pos, negsuc, is_negative, is_minus_one}
use boost_asio.Base.Ends.{Ends, returns, throws, throw_error}
use boost_asio.SocketOps.{Os}
use boost_asio.Interrupter.{open_descriptors, close_descriptors}
use boost_asio.Reactor.{Events, Control}
use boost_asio.Reactor.Lifetime.{
  Calls, Descriptors, do_epoll_create, add_interrupter, add_epoll, construct, destroy, interrupt,
}

not_minus_one : (z : ℤ) → is_negative z ≡ false → is_minus_one z ≡ false
not_minus_one (pos n) h = refl
not_minus_one (negsuc n) h = ground (arith, h)

module _ {W : Type 0} (c : Calls W) (held : W → List ℤ) where
  -- What is documented of the calls: `eventfd` and `epoll_create1` open the descriptor that they
  -- return, if it is not negative, `close` closes the one that it is given, here the one opened
  -- last, and the other calls open and close none.
  pub record IsDocumented : Type 0 where
    pub eventfd_opens :
        (os : Os W)
        → held (c.eventfd os).1.world ≡ (
            if is_negative (c.eventfd os).0
            then held os.world
            else (c.eventfd os).0 ∷ held os.world)
    pub epoll_create_opens :
        (os : Os W)
        → held (c.epoll_create os).1.world ≡ (
            if is_negative (c.epoll_create os).0
            then held os.world
            else (c.epoll_create os).0 ∷ held os.world)
    pub epoll_ctl_keeps :
        (op : Control) (epoll_fd fd : ℤ) (events : Events) (os : Os W)
        → held (c.epoll_ctl op epoll_fd fd events os).1.world ≡ held os.world
    pub write_keeps : (fd : ℤ) (os : Os W) → held (c.write fd os).1.world ≡ held os.world
    pub close_closes :
        (fd : ℤ) (rest : List ℤ) (os : Os W)
        → held os.world ≡ fd ∷ rest
        → held (c.close fd os).1.world ≡ rest

  -- What the constructor ends with, where the descriptors `before` were open: it has thrown and
  -- they are open again, or it gives a reactor that holds just two more, which `interrupt` keeps
  -- and the destructor closes.
  abbrev pub IsSound : List ℤ → Ends Descriptors × Os W → Type 0
  IsSound before r =
      ((ec : ℕ) × (r.0 ≡ throws ec) × (held r.1.world ≡ before))
      ⊎ ((d : Descriptors) × (r.0 ≡ returns d)
          × (held r.1.world ≡ d.epoll_fd ∷ d.interrupter_fd ∷ before)
          × (held (interrupt c d r.1).world ≡ held r.1.world)
          × (held (destroy c d (interrupt c d r.1)).world ≡ before))

  close_descriptors-held :
      (doc : IsDocumented) (fd : ℤ) (rest : List ℤ) (os : Os W)
      → is_negative fd ≡ false
      → held os.world ≡ fd ∷ rest
      → held (close_descriptors c.close fd os).world ≡ rest
  unfolding close_descriptors
  close_descriptors-held doc fd rest os whole opened =
      rw (not_minus_one fd whole) (doc.close_closes fd rest os opened)

  destroy-held :
      (doc : IsDocumented) (d : Descriptors) (rest : List ℤ) (os : Os W)
      → is_negative d.interrupter_fd ≡ false
      → is_negative d.epoll_fd ≡ false
      → held os.world ≡ d.epoll_fd ∷ d.interrupter_fd ∷ rest
      → held (destroy c d os).world ≡ rest
  unfolding destroy
  destroy-held doc d rest os whole whole' opened = rw (not_minus_one d.epoll_fd whole') (
      close_descriptors-held doc d.interrupter_fd rest (c.close d.epoll_fd os).1 whole
        (doc.close_closes d.epoll_fd (d.interrupter_fd ∷ rest) os opened))

  -- both descriptors are open
  built :
      (doc : IsDocumented) (fd epoll_fd : ℤ) (rest : List ℤ) (os : Os W)
      → is_negative fd ≡ false
      → is_negative epoll_fd ≡ false
      → held os.world ≡ epoll_fd ∷ fd ∷ rest
      → IsSound rest (add_interrupter c fd (returns epoll_fd, os))
  unfolding add_interrupter interrupt boost_asio.Interrupter.interrupt
  built doc fd epoll_fd rest os whole whole' opened =
      let d : Descriptors = record { interrupter_fd = fd; epoll_fd = epoll_fd } in
      let r = add_interrupter c fd (returns epoll_fd, os) in
      let two = doc.write_keeps fd _ ∙ doc.epoll_ctl_keeps _ epoll_fd fd _ os ∙ opened in
      let kept = doc.epoll_ctl_keeps _ epoll_fd fd _ r.1 in
      inr (d, refl, two, kept, destroy-held doc d rest _ whole whole' (kept ∙ two))

  -- The interrupter is open.
  with_interrupter :
      (doc : IsDocumented) (fd : ℤ) (rest : List ℤ) (os : Os W)
      → is_negative fd ≡ false
      → held os.world ≡ fd ∷ rest
      → IsSound rest (add_interrupter c fd (do_epoll_create c os))
  unfolding do_epoll_create add_interrupter throw_error
  with_interrupter doc fd rest os whole opened =
      let made = doc.epoll_create_opens os in
      let os' = (c.epoll_create os).1 in
      elim (Bool-cases (is_negative (c.epoll_create os).0)) [
        | inl failed ↦
            let result : do_epoll_create c os ≡ (throws os'.errno, os') = rw failed refl in
            subst (λ x. IsSound rest (add_interrupter c fd x)) (sym result)
              (inl (
                os'.errno,
                refl,
                close_descriptors-held doc fd rest os' whole (rw failed at made ∙ opened),
              ))
        | inr got ↦
            let result : do_epoll_create c os ≡ (returns (c.epoll_create os).0, os') =
              rw got refl in
            subst (λ x. IsSound rest (add_interrupter c fd x)) (sym result)
              (built doc fd (c.epoll_create os).0 rest os' whole got
                (rw got at made ∙ ap ((c.epoll_create os).0 ∷◌) opened))
      ]

  -- Over calls of the kernel that open and close descriptors as documented: the constructor of a
  -- reactor either throws, and then the descriptors are open that were open before, or it gives a
  -- reactor that holds just two more, its interrupter and its epoll; `interrupt` keeps them, and the
  -- destructor closes both.
  pub construct-IsSound :
      (doc : IsDocumented) (os : Os W) → IsSound (held os.world) (construct c os)
  unfolding construct add_epoll open_descriptors throw_error
  construct-IsSound doc os =
      let made = doc.eventfd_opens os in
      let os' = (c.eventfd os).1 in
      elim (Bool-cases (is_negative (c.eventfd os).0)) [
        | inl failed ↦
            let result : open_descriptors c.eventfd os ≡ (throws os'.errno, os') = rw failed refl in
            subst (λ x. IsSound (held os.world) (add_epoll c x)) (sym result)
              (inl (os'.errno, refl, rw failed at made))
        | inr got ↦
            let result : open_descriptors c.eventfd os ≡ (returns (c.eventfd os).0, os') =
              rw got refl in
            subst (λ x. IsSound (held os.world) (add_epoll c x)) (sym result)
              (with_interrupter doc (c.eventfd os).0 (held os.world) os' got (rw got at made))
      ]
