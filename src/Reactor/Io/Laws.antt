-- ===== src/Reactor/Io/Laws.antt =====
-- What is completed, and in which order, when a descriptor of boost_asio/epoll_reactor.cc is ready.
use boost_asio.Base.{
  ℕ, ◌≡◌, refl, ap, sym, ◌∙◌, if◌then◌else◌, List, [], ◌∷◌, ◌++◌, map, append-nil, Bool-cases, inl,
  inr,
}
use boost_asio.Reactor.{
  Events, OpType, read_op, write_op, except_op, Status, not_done, done, done_and_exhausted,
  ReactorOp, PerType, at, put, DescriptorState, Kernel,
}
use boost_asio.Reactor.Io.{
  Drained, after_perform, perform_queue, is_flagged, Progress, perform_type, perform_all,
}

-- The operations by their addresses, in order.
abbrev pub addresses : List ReactorOp → List ℕ
addresses = map (λ op. op.address)

abbrev except : PerType (List ReactorOp) → List ReactorOp
except q = q.except

abbrev write : PerType (List ReactorOp) → List ReactorOp
write q = q.write

module _ {W : Type 0} (k : Kernel W) where
  after_perform-keeps :
      (op : ReactorOp) (q : List ReactorOp) (rest : W → Drained W) (r : Status × ℕ × ℕ × W)
      → ((w : W) → addresses ((rest w).completed ++ (rest w).left) ≡ addresses q)
      → let d = after_perform op q rest r in
        addresses (d.completed ++ d.left) ≡ op.address ∷ addresses q
  unfolding after_perform
  after_perform-keeps op q rest (not_done, ec, bytes, w) h = refl
  after_perform-keeps op q rest (done, ec, bytes, w) h = ap (◌∷◌ op.address) (h w)
  after_perform-keeps op q rest (done_and_exhausted, ec, bytes, w) h = refl

  -- A queue splits into the operations that were completed, the oldest first, and the rest.
  perform_queue-keeps :
      (q : List ReactorOp) (w : W)
      → addresses ((perform_queue k q w).completed ++ (perform_queue k q w).left) ≡ addresses q
  unfolding perform_queue
  perform_queue-keeps [] w = refl
  perform_queue-keeps (op ∷ q) w =
      after_perform-keeps op q (perform_queue k q) (k.perform op w) (perform_queue-keeps q)

  -- What one round of `perform_io` completes, by the type of operation.
  abbrev pub completed_of : Events → OpType → Progress W → List ReactorOp
  completed_of events ty p =
      if is_flagged events ty
      then (perform_queue k (at p.state.op_queue ty) p.world).completed
      else []

  record Part (events : Events) (ty : OpType) (p p' : Progress W) (x : List ReactorOp)
      : Type 0 where
    ops : p'.ops ≡ p.ops ++ x
    kept : addresses (x ++ at p'.state.op_queue ty) ≡ addresses (at p.state.op_queue ty)
    others : p'.state.op_queue ≡ put p.state.op_queue ty (at p'.state.op_queue ty)
    flagged : x ≡ (if is_flagged events ty then x else [])

  at-put :
      (a : PerType (List ReactorOp)) (ty : OpType) (v : List ReactorOp) → at (put a ty v) ty ≡ v
  at-put a read_op v = refl
  at-put a write_op v = refl
  at-put a except_op v = refl

  put-at : (a : PerType (List ReactorOp)) (ty : OpType) → a ≡ put a ty (at a ty)
  put-at a read_op = refl
  put-at a write_op = refl
  put-at a except_op = refl

  perform_type-Part :
      (events : Events) (ty : OpType) (p : Progress W)
      → Part events ty p (perform_type k events ty p) (completed_of events ty p)
  unfolding perform_type
  perform_type-Part events ty p = elim (Bool-cases (is_flagged events ty)) [
    | inl e ↦
        let r = perform_queue k (at p.state.op_queue ty) p.world in
        rw (e, perform_type)
          (record {
            ops = refl;
            kept =
                rw (at-put p.state.op_queue ty r.left)
                  (perform_queue-keeps (at p.state.op_queue ty) p.world);
            others = rw (at-put p.state.op_queue ty r.left);
            flagged = rw e;
          })
    | inr e ↦
        rw (e, perform_type)
          (record {
            ops = sym (append-nil p.ops);
            kept = refl;
            others = put-at p.state.op_queue ty;
            flagged = rw e;
          })
  ]

  -- `perform_io` completes a first part of each queue whose event is flagged, nothing of another:
  -- all the completed operations of the except queue stand before those of the write queue, and
  -- these before those of the read queue, each in the order of their queue, and what is not
  -- completed is still queued, in order.
  pub perform_all_splits :
      (events : Events) (d : DescriptorState) (w : W)
      → let p = perform_all k events d w in
        (x y z : List ReactorOp) × (p.ops ≡ (x ++ y) ++ z)
        × (addresses (x ++ p.state.op_queue.except) ≡ addresses d.op_queue.except)
        × (addresses (y ++ p.state.op_queue.write) ≡ addresses d.op_queue.write)
        × (addresses (z ++ p.state.op_queue.read) ≡ addresses d.op_queue.read)
        × (x ≡ (if is_flagged events except_op then x else []))
        × (y ≡ (if is_flagged events write_op then y else []))
        × (z ≡ (if is_flagged events read_op then z else []))
  unfolding perform_all
  perform_all_splits events d w =
      let p₀ : Progress W = record { state = d; ops = []; world = w } in
      let p₁ = perform_type k events except_op p₀ in
      let p₂ = perform_type k events write_op p₁ in
      let a = perform_type-Part events except_op p₀ in
      let b = perform_type-Part events write_op p₁ in
      let c = perform_type-Part events read_op p₂ in
      let x = completed_of events except_op p₀ in
      let y = completed_of events write_op p₁ in
      let z = completed_of events read_op p₂ in
      let same_except = ap except c.others ∙ ap except b.others in
      (
        x,
        y,
        z,
        cc (a.ops, b.ops, c.ops),
        ap (λ (q : List ReactorOp). addresses (x ++ q)) same_except ∙ a.kept,
        ap (λ (q : List ReactorOp). addresses (y ++ q)) (ap write c.others)
            ∙ (b.kept ∙ ap (λ (q : PerType (List ReactorOp)). addresses q.write) a.others),
        c.kept
            ∙ (ap (λ (q : PerType (List ReactorOp)). addresses q.read) b.others
                ∙ ap (λ (q : PerType (List ReactorOp)). addresses q.read) a.others),
        a.flagged,
        b.flagged,
        c.flagged,
      )
