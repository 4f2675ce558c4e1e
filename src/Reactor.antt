-- ===== src/Reactor.antt =====
-- boost_asio/epoll_reactor.hpp and epoll_reactor.cc, with reactor_op.hpp: descriptors, their queues
-- of operations, and `start_op`. The children Io and Closing have what happens when a descriptor is
-- ready and when it is cancelled or deregistered.
--
-- The kernel and the operations' own work are parameters (`Kernel`) over a state `W` of theirs. A
-- `uint32_t` of events is the record of the bits that the code names. A reactor_op is held by
-- value: it is in one queue at a time. `std::error_code` is its errno value in the generic
-- category, 0 for none.
pub mod Io
pub mod Closing
pub mod Lifetime
pub mod Laws
mod Tests
use boost_asio.Base.{
  ℕ, zero, suc, ◌+◌, ◌==◌, if◌then◌else◌, Bool, true, false, not, ◌&&◌, ◌||◌, Option, none, some,
  List, [], ◌∷◌,
}
use boost_asio.OpQueue.{push}
use boost_asio.Scheduler.{
  Operation, handler, ThreadInfo, Scheduler, work_started, post_immediate_completion,
}
use boost_asio.Scheduler.Run.{is_empty}

pub record Events : Type 0 where
  pub epollin : Bool
  pub epollpri : Bool
  pub epollout : Bool
  pub epollerr : Bool
  pub epollhup : Bool
  pub epollet : Bool

abbrev pub no_events : Events
no_events = record {
  epollin = false;
  epollpri = false;
  epollout = false;
  epollerr = false;
  epollhup = false;
  epollet = false;
}

-- `|`, `&` and the test against 0
abbrev pub either : Events → Events → Events
either a b = record {
  epollin = a.epollin || b.epollin;
  epollpri = a.epollpri || b.epollpri;
  epollout = a.epollout || b.epollout;
  epollerr = a.epollerr || b.epollerr;
  epollhup = a.epollhup || b.epollhup;
  epollet = a.epollet || b.epollet;
}

abbrev pub both : Events → Events → Events
both a b = record {
  epollin = a.epollin && b.epollin;
  epollpri = a.epollpri && b.epollpri;
  epollout = a.epollout && b.epollout;
  epollerr = a.epollerr && b.epollerr;
  epollhup = a.epollhup && b.epollhup;
  epollet = a.epollet && b.epollet;
}

abbrev pub is_none : Events → Bool
is_none e = not (e.epollin || e.epollpri || e.epollout || e.epollerr || e.epollhup || e.epollet)

abbrev pub only_out : Events
only_out = record no_events { epollout = true }

-- `EPOLLIN | EPOLLERR | EPOLLHUP | EPOLLPRI | EPOLLET`
abbrev pub registration : Events
registration = record {
  epollin = true;
  epollpri = true;
  epollout = false;
  epollerr = true;
  epollhup = true;
  epollet = true;
}

pub data OpType : Type 0 where
  read_op write_op except_op : OpType  -- connect_op is write_op

pub data Status : Type 0 where
  not_done done done_and_exhausted : Status

pub record ReactorOp : Type 0 where
  pub address : ℕ
  pub ec : ℕ
  pub bytes_transferred : ℕ

-- the error numbers that the code names
abbrev pub bad_file_descriptor : ℕ
bad_file_descriptor = 9

abbrev pub not_supported : ℕ
not_supported = 95

abbrev pub eperm : ℕ
eperm = 1

-- An array with an entry for each type of operation.
pub record PerType {ℓ} (A : Type ℓ) : Type ℓ where
  pub read : A
  pub write : A
  pub except : A

module _ {ℓ} {A : Type ℓ} where
  abbrev pub at : PerType A → OpType → A
  at a read_op = a.read
  at a write_op = a.write
  at a except_op = a.except

  abbrev pub put : PerType A → OpType → A → PerType A
  put a read_op v = record a { read = v }
  put a write_op v = record a { write = v }
  put a except_op v = record a { except = v }

pub record DescriptorState : Type 0 where
  pub descriptor : Option ℕ  -- `none` is -1
  pub registered_events : Events
  pub op_queue : PerType (List ReactorOp)
  pub try_speculative : PerType Bool
  pub shut_down : Bool

pub data Control : Type 0 where
  ctl_add ctl_mod ctl_del : Control

-- The operation's own function, which reports through the operation's error and count, and
-- `epoll_ctl`, which gives 0 or an errno value.
pub record Kernel (W : Type 0) : Type 0 where
  pub perform : ReactorOp → W → Status × ℕ × ℕ × W
  pub epoll_ctl : Control → Option ℕ → Events → W → ℕ × W

-- What becomes of an operation: it waits in its queue, or it is posted with its result.
pub data Fate : Type 0 where
  waits : Fate
  posted : ReactorOp → Fate

pub record Started (W : Type 0) : Type 0 where
  pub sched : Scheduler
  pub thread : Option ThreadInfo
  pub state : DescriptorState
  pub fate : Fate
  pub world : W

-- Who calls: the scheduler, the record of the thread if it is in `run`, and `is_continuation`.
pub record Caller : Type 0 where
  pub sched : Scheduler
  pub thread : Option ThreadInfo
  pub is_continuation : Bool

module _ {W : Type 0} where
  unfoldable pub post_op : Caller → DescriptorState → ReactorOp → W → Started W
  post_op c d op w =
      let r = post_immediate_completion c.sched c.thread (handler op.address) c.is_continuation in
      record { sched = r.0; thread = r.1; state = d; fate = posted op; world = w }

  -- `op_queue_[op_type].push(op); scheduler_.work_started();`
  unfoldable pub queue_op : Caller → DescriptorState → OpType → ReactorOp → W → Started W
  queue_op c d ty op w = record {
    sched = work_started c.sched;
    thread = c.thread;
    state = record d { op_queue = put d.op_queue ty (push (at d.op_queue ty) op) };
    fate = waits;
    world = w;
  }

abbrev pub is_write : OpType → Bool
is_write read_op = false
is_write write_op = true
is_write except_op = false

abbrev pub is_read : OpType → Bool
is_read read_op = true
is_read write_op = false
is_read except_op = false

abbrev pub no_ops : List ReactorOp → Bool
no_ops [] = true
no_ops (o ∷ q) = false

module _ {W : Type 0} (k : Kernel W) where
  -- `epoll_ctl(EPOLL_CTL_MOD)` for a write, behind a speculative attempt
  unfoldable pub ask_for_out : Caller → DescriptorState → ReactorOp → W → Started W
  ask_for_out c d op w =
      let events = either d.registered_events only_out in
      let (errno, w') = k.epoll_ctl ctl_mod d.descriptor events w in
      if errno == 0
      then queue_op c (record d { registered_events = either d.registered_events events }) write_op
          op w'
      else post_op c d (record op { ec = errno }) w'

  -- from `if (descriptor_data->registered_events_ == 0)` in the speculative branch
  unfoldable pub after_attempt : Caller → DescriptorState → OpType → ReactorOp → W → Started W
  after_attempt c d ty op w =
      if is_none d.registered_events
      then post_op c d (record op { ec = not_supported }) w
      else if is_write ty && not d.registered_events.epollout
      then ask_for_out c d op w
      else queue_op c d ty op w

  -- after `op->perform()`
  unfoldable pub attempted : Caller → DescriptorState → OpType → ReactorOp → Status → W → Started W
  attempted c d ty op not_done w = after_attempt c d ty op w
  attempted c d ty op done w = post_op c d op w
  attempted c d ty op done_and_exhausted w =
      post_op c
        (if not (is_none d.registered_events)
          then record d { try_speculative = put d.try_speculative ty false }
          else d)
        op w

  unfoldable pub attempt : Caller → DescriptorState → OpType → ReactorOp → W → Started W
  attempt c d ty op w =
      let (status, ec, bytes, w') = k.perform op w in
      if at d.try_speculative ty
      then attempted c d ty (record op { ec = ec; bytes_transferred = bytes }) status w'
      else after_attempt c d ty op w

  -- the branches for an operation that may not be tried at once
  unfoldable pub register_interest : Caller → DescriptorState → OpType → ReactorOp → W → Started W
  register_interest c d ty op w =
      if is_none d.registered_events
      then post_op c d (record op { ec = not_supported }) w
      else (let d' =
            if is_write ty
            then record d { registered_events = both d.registered_events only_out }
            else d in
          let r = k.epoll_ctl ctl_mod d.descriptor (either d'.registered_events only_out) w in
          queue_op c d' ty op r.1)

  -- the descriptor's state, locked and not shut down
  unfoldable pub start_locked :
      Caller → DescriptorState → OpType → ReactorOp → (allow_speculative : Bool) → W → Started W
  start_locked c d ty op allow_speculative w =
      if no_ops (at d.op_queue ty)
      then (if allow_speculative && (not (is_read ty) || no_ops d.op_queue.except)
          then attempt c d ty op w
          else register_interest c d ty op w)
      else queue_op c d ty op w

  -- `start_op` on a descriptor that there is
  unfoldable pub start_op :
      Caller → DescriptorState → OpType → ReactorOp → (allow_speculative : Bool) → W → Started W
  start_op c d ty op allow_speculative w =
      if d.shut_down then post_op c d op w else start_locked c d ty op allow_speculative w

  -- `register_descriptor`: the new state and the result. The new state's members that are not set
  -- there do not matter: the queues are empty.
  unfoldable pub register_descriptor : ℕ → W → DescriptorState × ℕ × W
  register_descriptor fd w =
      let fresh : DescriptorState = record {
        descriptor = some fd;
        registered_events = registration;
        op_queue = record { read = []; write = []; except = [] };
        try_speculative = record { read = true; write = true; except = true };
        shut_down = false;
      } in
      let (errno, w') = k.epoll_ctl ctl_add (some fd) registration w in
      if errno == 0
      then (fresh, 0, w')
      else if errno == eperm
      then (record fresh { registered_events = no_events }, 0, w')
      else (fresh, errno, w')

  unfoldable pub register_internal_descriptor : OpType → ℕ → ReactorOp → W → DescriptorState × ℕ × W
  register_internal_descriptor ty fd op w =
      let queues : PerType (List ReactorOp) = record { read = []; write = []; except = [] } in
      let fresh : DescriptorState = record {
        descriptor = some fd;
        registered_events = registration;
        op_queue = put queues ty (op ∷ []);
        try_speculative = record { read = true; write = true; except = true };
        shut_down = false;
      } in
      let (errno, w') = k.epoll_ctl ctl_add (some fd) registration w in (fresh, errno, w')

-- `start_op` where `descriptor_data` is null
unfoldable pub start_op_null : Caller → ReactorOp → Scheduler × Option ThreadInfo × ReactorOp
start_op_null c op =
    let r = post_immediate_completion c.sched c.thread (handler op.address) c.is_continuation in
    (r.0, r.1, record op { ec = bad_file_descriptor })
