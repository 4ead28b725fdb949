-- ===== src/Lib.antt =====
-- DistributedDB, a single-node key-value database with a write-ahead log and a network server.
--
-- Parts and files. A client (src/network/client.cpp) sends messages of a binary protocol
-- (src/network/protocol.cpp) over TCP. The server (src/network/server.cpp) has one handler for each
-- connection, which reads a message, runs one transaction of the database for it and writes the
-- response. The database (src/core/persistent_database.cpp) keeps its data in a hash map, and logs
-- each change to a write-ahead log (src/storage/wal.cpp), from which it recovers its data.
--
-- - Prelude, Prelude/...: Booleans, lists and results that the parts share.
-- - Bytes/...: integers as little-endian bytes (the `memcpy` of the source, on a little-endian host),
--   comparison, decimal text and search of strings.
-- - Table, Table/...: `std::unordered_map<std::string, std::string>` as a list of entries, a new key
--   last. The standard leaves the order of iteration open; only scans depend on it.
-- - Wal/Record: `WALRecord`. Wal/File: `log_file_`, an `ofstream` over a device that may take only a
--   part of what it is given. Wal/Reader: the loop of `read_all_records`. Wal/Log: `WriteAheadLog`,
--   each method a function from the log to the log and its result. Wal/RecordLaws, RecordParse,
--   ReaderLaws, FileLaws, Crash, Append and Accepted: theorems.
-- - Protocol/Message: `Message`. Protocol/MessageLaws and MessageParse: theorems.
-- - Database/State, Transaction and Engine: `PersistentTransaction` and `PersistentDatabase`; a
--   transaction refers to the data and to the log of its database, so its methods are functions from
--   the database to the database. Database/Operations, Fits, Synced, Durability, Restart, Elsewhere,
--   Loss, Compaction, ScanLaws, ScanOrder, Restore and Keys: theorems.
-- - Server/Request: `process_request_sync`, `handle_request` and `process_request`.
--   Server/Connection: `ConnectionHandler`, a machine with one pending operation.
--   Server/Accept: `DatabaseServer`, its accepts and its counter. Server/Pool: its worker threads
--   and their queue, a relation of steps. Server/Spec: what the server promises, as operations of a
--   plain map; Server/Refinement, Promise and Served: theorems on it. Server/Overlap: requests that
--   threads process at once, in steps; Server/OverlapAlone, OverlapStand, OverlapWork and
--   OverlapReach: theorems on it. Server/RequestLaws, History,
--   Responses, ConnectionLaws, AcceptLaws, StopLaws, Untouched, PoolTally, PoolLaws, PoolProgress,
--   PoolStop, PoolEnd and PoolTaken: theorems.
-- - Client/Scan: how `DatabaseClient::scan` reads its response. Client/Call: `DatabaseClient` over a
--   socket that is a parameter. Client/Link: the socket of a connection that loses nothing, with the
--   server's handler at its other end. Client/ScanRound, ScanLaws, ScanAnswer,
--   ScanFuel, ScanLink, LinkLaws, Session and Serving: theorems. Client/Contract: what a client may
--   expect, as operations of a plain map; Client/Keeping, Promise and Durable: theorems on it.
--   Client/Flight: clients of one server whose calls overlap; Client/FlightServer, FlightClient,
--   FlightReach and FlightSoon: theorems on them. Client/Crowd and CrowdLaws: the same where the
--   calls come one after the other. Client/Stale: a client that gave up on a response.
--   Client/Forged: quotes in the text of a scan.
--   Client/Offline and Broken: a client without a connection, and one whose socket fails.
-- - Programs/Demo: src/main.cpp. Programs/Shell: src/client_main.cpp. Programs/Bench: one client
--   thread of src/benchmark_main.cpp. Programs/Joint: all its threads on one server, a relation of
--   steps, each one call of `put` or `get`. Programs/BenchMain: its `main` and what it prints.
--   Programs/Daemon: src/server_main.cpp up to the threads of its `io_context`, and its signal
--   handler. Programs/Names, Threads, DemoLaws, ShellLaws, BenchLaws, JointLaws, JointReach,
--   JointCalls, JointEnd, JointResult, DaemonLaws and SignalLaws: theorems. Programs/Whole: the
--   server program and a client. Programs/Service: the server program and any number of clients.
-- - Storage/BTree and Operation: what include/storage/btree.h and include/storage/transaction.h define
--   and not only declare. Storage/BTreeLaws: theorems.
-- - Examples/...: the theorems at concrete inputs, and tests.
--
-- State and environment. Methods that run under one lock are one step. The clock, the device, the
-- success of opening a file and the completions of Asio are arguments of the operation that meets
-- them. In Server/Pool, a step is what one thread does without a chance for another to interfere; a
-- request is processed in one step and its callback is another, and a worker may wake without a
-- notification. In Programs/Joint, a call with its request and its response is one step. In Client/Flight, it is the
-- sending of the request, each completion of the server's handler, in which it processes a request,
-- and the reading of the response. In Server/Overlap, a request is a step for each call of its
-- transaction: `begin_transaction` increments an atomic counter, and the others hold a lock. In the
-- programs, the success of a connection or of a `bind`, and the number of processors, are arguments.
-- Whether the joins of the worker threads in `stop` return is an argument of the signal handler, since
-- Server/PoolStop and PoolEnd show that they may and that they may not.
-- A call that waits for a lock that its own caller holds is `deadlock`; an exception is `throw`.
--
-- Responses. `write_response` gives Asio buffers of its local variables, whose memory is freed when it
-- returns, though Asio asks for buffers that stay valid until the write has ended. What the socket
-- takes before that, of the up to 64 KiB that Asio tries to send there, is sent as it was; the rest is
-- read from freed memory. So in Client/Link what is sent for the bytes of a response is a parameter of
-- the connection, `link_over`, and theorems on answers that a client reads have the hypothesis
-- `IsSending` (responses of up to a given size are sent as they were) or the condition `IsIntact` on
-- a step. `link` is the connection whose responses are all sent as they were; Programs/Joint, whose
-- responses are a few bytes, stands on it.
--
-- Numbers and fuel. Counters and lengths are natural numbers with their wrap-around written out, 64
-- bits for `size_t` and `uint64_t`. The reader's loop has as fuel the number of bytes of the file, of
-- which each round takes four or more; the client's loop has one more than the length of the text, on
-- which each round moves forward by more than one; a decimal number has at most 20 digits.
--
-- Not modelled: lines printed on time and on the state of a connection, `std::cerr`, the
-- destructors of the global objects of src/server_main.cpp, memory exhaustion, a failure to create
-- the log's directory, connections that lose bytes while several clients call, and `BTree`,
-- `ACIDTransaction` and `TransactionManager` of include/storage, which are declared only: nothing
-- implements or uses them.
pub mod Prelude
pub mod Bytes
pub mod Table
pub mod Wal
pub mod Protocol
pub mod Database
pub mod Server
pub mod Client
pub mod Programs
pub mod Storage
pub mod Examples
