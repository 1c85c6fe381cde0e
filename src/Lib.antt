-- ===== src/Lib.antt =====
-- Verification library of becomeasystemsengineer: NetForge, a key-value server with a write-ahead
-- log (capstone/reference), and a matching engine (capstone/matching/solution-reference).
--
-- The parts and how they interact. A client sends a frame; `recv_frame` reads it, `parse_command`
-- makes a command of its payload, `Server::execute` appends a mutation to the log, applies it to the
-- store and answers with another frame; at the start `Wal::recover` replays the log. Apart from
-- this, `MatchingEngine` hands an order to the `OrderBook` of its symbol.
--
-- Prelude: lists, bytes, integers and association lists over the native numbers.
-- Matching: Order is order.hpp; OrderBook is order_book.hpp and order_book.cpp, with `submit`,
-- `cancel` and the loop of `submit` as `sweep`; Engine is engine.hpp and engine.cpp. OrderBook.Queue
-- is the specification, price-time priority on a flat queue. Ingress is ingress_queue.hpp;
-- Ingress.Threads interleaves the accesses of its callers. MockData is the generator of
-- mock_data.cpp.
-- Posix: the system calls as a record. Every part of the server is modelled over any value of it;
-- the laws of streams, sinks and files are what POSIX documents, and the theorems name them.
-- Protocol: Text and Command are the parser of protocol.cpp, Frame and Io its frames and loops.
-- Store, UniqueFd, Wal: store.cpp, unique_fd.hpp and wal.cpp. Wal.Log is the specification, the log
-- as a list of mutations.
-- Packet: packet.cpp. BlockingQueue and ThreadPool: blocking_queue.hpp and thread_pool.cpp, with the
-- interleavings of the threads as sequences of steps. Workers that find nothing wait on `not_empty_`
-- until a notification. ThreadPool.Draining and ThreadPool.Stopping are the shutdown;
-- Server.Statistics is the reading of the counters between the steps of the pool.
-- ParallelSum: mix, sum_range and parallel_sum of labs/parallelism/reference.cpp.
-- Sockets: the calls that set up connections as a record, and their laws; Sockets.Transfers has the
-- loops of Protocol.Io on any descriptor.
-- Server: `execute` of server.cpp; Server.Starting is the constructor, Server.Listening
-- `open_listener` and `run`, Server.Handling a connection; Server.Restart serves requests one after
-- the other and restarts. The descriptors of the accept loop are those of its own thread; the threads
-- of the pool have theirs.
-- Bench: the workers and percentiles of apps/bench_main.cpp. Arguments: the numbers on the command
-- lines of the programs.
-- Client: client.cpp, with `connect_with_timeout` and the loop of `request` over the addresses.
--
-- Conventions. A `std::uint64_t` is a native number, a `std::int64_t` is ℤ; the sequence number wraps
-- at 2 ^ 64. What a method does under a lock is one step. State is passed on explicitly; `none` stands for a
-- call that does not return or is undefined in C++, and for an exception.
--
-- Fuel. The loop of `submit` runs on `rounds`, more than the orders that rest on the other side. The
-- loops over system calls run on fuel that is above the bytes to transfer plus the signals that still
-- interrupt; `recover` makes one round for each record and one for the end.
--
-- Not modelled: the waiters of `not_full_` and their notifications, the Redis and Kafka edges of the matching engine, the files of mock orders, the
-- rest of the programs around the library, tests, exercises and fixtures.
pub mod Prelude
pub mod Matching
pub mod Posix
pub mod Sockets
pub mod Protocol
pub mod Store
pub mod UniqueFd
pub mod Wal
pub mod Server
pub mod Client
pub mod Bench
pub mod Arguments
pub mod Packet
pub mod BlockingQueue
pub mod ThreadPool
pub mod ParallelSum
mod Tests
