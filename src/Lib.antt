-- ===== src/Lib.antt =====
-- rFaaS, a platform for serverless functions over RDMA: its resource manager, the manager on a node,
-- the workers that run functions, the client that invokes them, and the parts of the RDMA library
-- that these rest on.
--
-- A client asks the resource manager for cores and memory; the manager leases them on an executor
-- node that has registered with it. On the node a worker thread polls its receive queue for
-- invocations, which are RDMA writes with an immediate value, runs the function, answers with an
-- immediate value, and bills the measured times by remote additions to counters of its manager.
--
--   Common             names of the libraries, Boolean tests, lists and maps over the native
--                      numbers, integers, and lemmas on bits
--   Rdmalib            PrivateData: rdmalib/include/rdmalib/connection.hpp, `PrivateData`
--                      Queue: rdmalib/lib/queue.cpp, `RecvWorkCompletions`
--                      Listener: rdmalib/lib/rdmalib.cpp, `RDMAPassive`
--                      Buffer: rdmalib/lib/buffer.cpp, `impl::Buffer`
--                      Connection: rdmalib/lib/connection.cpp, `Connection`
--                      Active: rdmalib/lib/rdmalib.cpp, `RDMAActive`
--   ResourceManager    Messages: server/common/messages.hpp
--                      Executor, Executors: server/resource_manager/executor.cpp
--                      Db: server/resource_manager/db.cpp, `ExecutorDB`; Db/Ledger is the specification
--                      that its leases refine
--                      Http: server/resource_manager/http.cpp, `HTTPHandler`
--                      Manager: server/resource_manager/manager.cpp, the handlers of the threads
--                      System: the same file, the threads together with their queues; a run of steps
--                      is an interleaving
--   ExecutorManager    Leases, Manager: server/executor_manager/manager.cpp
--                      Client: server/executor_manager/client.cpp, executor_process.cpp
--                      Spawn: server/executor_manager/executor_process.cpp, the command line of a process
--                      System: server/executor_manager/manager.cpp, the listener and the rounds of the
--                      other thread in its two modes
--   Worker             Message, Thread: server/executor/fast_executor.cpp
--                      Accounting: server/executor/fast_executor.hpp
--                      Options: server/executor/opts.cpp
--                      Life: server/executor/fast_executor.cpp, `thread_work` and `allocate_threads`
--   Client             Submission, Invocation: rfaas/include/rfaas/executor.hpp
--                      Futures, Callbacks: rfaas/include/rfaas/executor.hpp, rfaas/lib/executor.cpp
--                      Execution: the same files, calls on one worker and on all, `poll_queue`,
--                      `deallocate`
--                      Allocation: rfaas/lib/executor.cpp, the loops of `executor::allocate`
--                      Connections: rfaas/lib/connection.cpp, the connections to both managers
--                      Lease: rfaas/include/rfaas/client.hpp, leases from the resource manager
--   Tests              concrete runs
--
-- Functions keep the names of the source. State is passed explicitly: an operation takes the state
-- and gives the next one beside its result. A `uint32_t` or `uint64_t` is a number below its power of
-- two, with `%` where the source wraps around; an `int` is an integer, and no sum of them is cut to
-- 32 bits; a string is the list of its bytes. `std::shared_ptr` is a reference into a store of
-- objects, alive as long as a table holds it. Undefined behaviour is an explicit result: a shift by
-- the width of its type gives `none`, as does a read past the end of a buffer, and what `open_lease`
-- reads through a reference to an erased list entry is an argument.
--
-- Outside code is a parameter: the verbs and the device (`Verbs`), the clock and the loaded functions
-- (`Platform`), the network order (`NetworkOrder`), the parser of command lines (`OptionParser`), and
-- which remote additions the device takes; what the parsers of JSON and of HTTP found, what a poll, a
-- wait for events and `fork` returned and which address `mmap` gave are arguments. Loops are structural
-- recursion, except the loop over the completions of a poll in `Thread::hot`, which runs on fuel because
-- it need not end; where it ends, one unit more than the length of the poll is enough.
--
-- A disconnection is queued with the number of its queue pair, where the source queues a pointer to the
-- connection and reads the number later.
--
-- Not modelled: the configuration of queue pairs, start and end of processes and threads, the HTTP server
-- itself, what callbacks do, command lines of other programs, settings, JSON files and logging.
pub mod Common
pub mod Rdmalib
pub mod ResourceManager
pub mod ExecutorManager
pub mod Worker
pub mod Client
pub mod Tests
