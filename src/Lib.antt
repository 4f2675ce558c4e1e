-- ===== src/Lib.antt =====
-- boost_asio: a model of the scheduler, the reactor, executors, addresses and the socket operations
-- of this repository's reduced version of Boost.Asio (folder boost_asio/), and what holds of them.
--
-- The parts and their files:
--
-- - Base: the names that the other modules share; Base/Tests has the Boolean tests on numbers and
--   the conditional, Base/Lists lists over the native numbers, Base/Int integers.
-- - OpQueue: op_queue.hpp, the queue that every other part keeps its operations in.
-- - CallStack: call_stack.hpp, by which a call finds the record of the thread that it is made in.
-- - Event: event.hpp, what a thread without work waits on; Event/Waiting has when its loops end.
-- - ThreadInfo: thread_info_base.hpp and recycling_allocator.hpp, the block that a thread recycles.
-- - Scheduler: scheduler.hpp, scheduler.cc and scheduler_operation.hpp. The scheduler's members are
--   the record `Scheduler`, and each member function is a function on it: posting, waking, stopping
--   and shutdown in Scheduler, `run`, `do_run_one`, `task_cleanup` and `work_cleanup` in
--   Scheduler/Run. The handlers, the reactor and the other threads are the record `Environment`.
--   Scheduler/Fields, Posting, Running and Order have the proofs.
-- - System: threads in `scheduler::run` interleaved with each other, with handlers, with work
--   guards and with the reactor, as a step relation that is made of the functions of Scheduler.
--   System/Balance and Drained follow the count of work, System/Task the task, System/Wakeup and
--   Blocked the event. System/Conserved counts what is posted and finished, System/Fifo lists what
--   is put on the shared queue and taken off it.
-- - IoContext: the work guards of executor_work_guard.hpp with the executor of io_context.hpp.
--   IoContext/Lifetime has io_context.cc, from the constructor to the end of `run`.
-- - AssociatedExecutor: how is_executor.hpp, associated_executor.hpp and `make_work_guard` choose an
--   executor. A type is what the templates ask of it.
-- - ServiceRegistry: service_registry.hpp and service_registry.cc, by which the scheduler and the
--   reactor of a context are found. ServiceRegistry/Context has execution_context.cc, with the
--   threads that use and add services as a step relation.
-- - Reactor: epoll_reactor.hpp, epoll_reactor.cc and reactor_op.hpp. `start_op` and registering
--   stand in Reactor, readiness (`run`, `perform_io`, `do_complete`) in Reactor/Io, cancelling,
--   deregistering and shutdown in Reactor/Closing, the constructor and destructor in
--   Reactor/Lifetime. It posts to the Scheduler.
-- - Joined: the threads of System with the descriptors and functions of Reactor, which refine the
--   steps of System (Joined/Moves and Refines); Joined/Drained has what follows for both.
--   Joined/Conserved counts the handlers and operations that are begun and finished.
-- - SocketOps: socket_ops.hpp and socket_ops.cc. The calls stand in SocketOps/Calls, the transfer
--   loops in SocketOps/Transfer, the socket options in SocketOps/Options, the byte order in
--   SocketOps/ByteOrder and addresses as text in SocketOps/Inet.
-- - Address, Endpoint: address_v4.hpp, address_v6.hpp and address.hpp; endpoint.hpp and
--   basic_endpoint.hpp. They take the byte order as the interface `ByteOrder` and use Base/Ends for
--   throw_error.hpp.
-- - Buffer: buffer.hpp and buffer_sequence_adapter.hpp.
-- - SystemContext: thread_group.hpp and system_context.cpp; SystemContext/Global has global.hpp.
-- - Interrupter: select_interrupter.cc, over an eventfd.
--
-- What is not in the repository is a parameter: the kernel (`Kernel` of Reactor, `Calls` of
-- Reactor/Lifetime, the system calls of SocketOps and Interrupter), the C library (`Library` of
-- SocketOps/Inet), the handlers and the waits of a thread (`Environment` of Scheduler/Run), and
-- `std::call_once` (`CallOnce` of SystemContext/Global).
--
-- Numbers: a `std::size_t` is a number modulo 2 ^ 64 where it is counted up or down, and an int or a
-- uint32_t is 32 bits wide. A mutex is no field: what happens while it is held is one step.
--
-- The constructor of the scheduler leaves task_, task_interrupted_, outstanding_work_, stopped_ and
-- shutdown_ uninitialised; what they hold in memory is the record `Memory`. The step relations of
-- System and Joined start from a scheduler where they hold 0 and false. An undefined result of the
-- code is `none` or `undefined` in the model, and no step of a relation.
--
-- Fuel: `run` and `do_run_one` run on fuel, and so do the converting `push` of op_queue.hpp, the
-- transfer loops, `reset` of the interrupter and the waits of event.hpp. A handler at the head of
-- the queue takes one round of `do_run_one` and one of `run`, and the end of the loop takes one
-- more; the other loops take a round for each interrupted or blocked call.
--
-- Not modelled: what no program can use, since the compiler rejects it. `post`, `dispatch` and
-- `defer` of the executors (io_context.hpp, system_executor.hpp) name `op::ptr`, a member that
-- executor_op does not have, so neither they nor post.hpp, work_dispatcher.hpp and the operations
-- of executor_op.hpp can be instantiated; the constructor and `all_empty` of
-- buffer_sequence_adapter.hpp do not parse. Operations are posted by the functions of scheduler.hpp
-- that these would call.
--
-- Not modelled either: the socket objects and their services, which are declarations and templates
-- that do not compile, the hooks of handlers, async_result.hpp, associated_allocator.hpp, output to
-- the console, and main.cc. Memory orderings other than sequential consistency and the freeing of
-- descriptors are left out too. `register_internal_descriptor` and `deregister_internal_descriptor`
-- of epoll_reactor.hpp stand in Reactor and Reactor/Closing, but are no steps of Joined: nothing in
-- the program calls them, and the first puts an operation into a queue without counting it as work.
pub mod Base
pub mod OpQueue
pub mod CallStack
pub mod Event
pub mod ThreadInfo
pub mod Scheduler
pub mod System
pub mod IoContext
pub mod ServiceRegistry
pub mod Reactor
pub mod Joined
pub mod SocketOps
pub mod Address
pub mod Endpoint
pub mod Buffer
pub mod SystemContext
pub mod Interrupter
pub mod AssociatedExecutor
