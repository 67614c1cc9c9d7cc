-- ===== src/Lib.antt =====
-- Verification library of pp_dSCache, a sharded key-value cache: a master that knows which server has
-- which of 16384 slots, servers that keep one LRU store for themselves and one for each server that
-- they back up, and the event-driven network library that both stand on.
--
-- The parts and their files:
--   Cache/Db: server/Db.h and server/Db.cc. `get_kv`, `del_kv`, `set_kv` and the operations on slots
--     are `getKV`, `delKV`, `setKV` and theirs; `refresh`, `make_room` and `add_entry` are the parts
--     of `setKV` and `getKV` that stand for themselves. `Spec` is the abstract cache, `Invariant` says
--     how the list, the map and the multimap of slots point to one another, `Refine`, `Insert` and
--     `History` relate the operations and their histories to it.
--   Cache/LruMap: server/lruMap.h and server/lruMap.cc, with the names of the source.
--   Cache/Nodes: `std::list` with iterators as the identities of nodes, for both stores.
--   Server: server/DbServer.h and server/DbServer.cc. `Message` builds the request format, `Requests`
--     follows a request down to the store.
--   Master: master/PpMaster.h and master/PpMaster.cc, with `resetSlots` in Reset, and in RwLock
--     master/RWLock.h.
--   Net/Buffer: master/net/Buffer.h, Buffer.cc and Endian.h.
--   Net/Channel: master/net/Channel.h and Channel.cc.
--   Net/Connection: master/net/TcpConnection.h and TcpConnection.cc, in the thread of the loop, with a
--     history of the bytes that the socket took and of the callbacks.
--   Net/Connector: master/net/Connector.h and Connector.cc, with a history of the sockets that it opens,
--     closes and hands over. `try_connect` is `connect`, `connecting_to` is `connecting`, `handle_errno`
--     is the `switch` of `connect`. `Account` counts the sockets of a history, `Backoff` is about delays.
--   Net/TimerQueue: master/net/TimerQueue.h, TimerQueue.cc, Timer.h and Timer.cc. A timer is its address,
--     and the memory is a table of the timers that are alive. `Sync` says how the two sets and the memory
--     agree; `Canceling`, `Adding`, `Expiry` (over `Bound`), `Noting`, `Resetting` and `Firing` follow the
--     calls, what is due, what callbacks cancel, `reset` and `handleRead`.
--   Net/EventLoop: master/net/EventLoop.h and EventLoop.cc. `go_on` is the next step of `loop`, `test_quit`,
--     `poll`, `swap_functors` and `call_functor` are its parts, and other threads act between its steps.
--     The event descriptor is a counter, which a write raises and a read sets to 0.
--   Net/Poller: master/net/Poller.h and Poller.cc: the abstract poller, the channels as pollers see them.
--     Poll is master/net/poller/PollPoller.cc, Epoll is EPollPoller.cc over the kernel's interest list.
--     `Sync` and `Removal` follow the entries through each call, `Refine` and `Watch` relate the calls
--     to the abstract poller, `Track` and `Calls` do so for epoll, `Same` compares the two, and `Active`
--     is `fillActiveChannels` of both.
--   Net/TcpServer: master/net/TcpServer.h and TcpServer.cc, with the connections that are open and those
--     that are to be removed, by their numbers.
--   Net/LoopPool: master/net/EventLoopThreadPool.h and EventLoopThreadPool.cc.
--   Threads/BoundedQueue: master/base/BoundedBlockingQueue.h, as attempts of threads in any order.
--   Threads/Pool: master/base/ThreadPool.h and ThreadPool.cc, as steps of workers and callers, which are
--     counted by the point where they stand; `Steps` is what each step keeps, `Waits` what follows of
--     histories. A notification moves one sleeping thread to the notified
--     ones, which test again when they go on.
--   Time/Date: master/base/Date.h and Date.cc; `Calendar` is the independent calendar.
--   Logging/Stream: master/base/LogStream.h and LogStream.cc. `format_pointer` and `format_double` are
--     the operators of pointers and doubles, `convert_loop` is the loop that `convert` and `convertHex`
--     have in common; `Digits` is about the texts of numbers, `Room` about the buffer.
--   Time/Zone: master/base/TimeZone.cc: the conversions to and from UTC, over the dates of `Time/Date`;
--     in `Local` the transitions and the local times, about which `Search` is, and in `File` the reader
--     of zone files, in a monad of the bytes that are left. `Written` reads the parts of a file back,
--     `Whole` the whole of it, and `Missing` is about files that cannot be read.
--   Logging/Async: master/base/AsyncLogging.h and AsyncLogging.cc. `begin_round`, `collect` and `write_out`
--     are the parts of a round of `threadFunc`, between which other threads log. `Kept` says how the
--     buffers and the lines agree, `Rounds` follows histories, `Stop` is about the end.
--   Logging/File: master/base/LogFile.h and LogFile.cc, and AppendFile of FileUtil.cc, with the files that
--     were closed; `Whole` is about all files together.
--   Base: faults, lists, numbers, tables and text. A `Result` is a value, or how the code fails: an
--     exception of the standard library, or `undefined` for undefined behaviour and failed assertions.
--
-- How they interact: a server hands each request, under its mutex, to one of its stores (`Server`
-- over `Cache/Db`); the master answers with the address of a slot's server, whose slots it keeps in
-- bitsets of the same kind as the stores (`Master` over `Cache/Db`). A connection reads into one
-- buffer and writes from another (`Net/Connection` over `Net/Buffer`), and a connector, whose attempts
-- timers repeat, waits with a channel until its socket can be written (`Net/Connector` over `Net/Channel`).
-- The connections of a server get the loops of its pool in turn (`Net/TcpServer` over `Net/LoopPool`).
-- A poller knows the channels by their descriptors (`Net/Poller`); what it does with a call of
-- `Channel::update` or `Channel::remove` is its abstract poller's step. The log keeps its lines in buffers
-- of the size of `Logging/Stream`'s and gives them to a log file (`Logging/Async`, `Logging/File`).
--
-- Conventions: an `int` is an integer `ℤ`, a descriptor that is open is a number, and `to_size` is the
-- conversion to `size_t`. A byte is a number below 256, and text is a list of bytes. `std::set` is the
-- sorted list of its elements. A map that the code reads and writes through `operator[]` alone is a
-- function with default values. A `std::unique_ptr` is an option. The loop over the digits of a
-- number runs on fuel, one round more than the number, which theorems show to be enough; every other
-- loop is a recursion on a list or a count. Code outside the repository is a parameter
-- (`to_ip_port` of an address, the outcomes of `readv`, `write` and the other socket calls, the interest
-- list of epoll, `gmtime_r` and `timegm`, what `fwrite` takes, the texts of `snprintf`, what callbacks
-- do), and so is what
-- `mapItor->first` gives in `setKV` where `mapItor` is `map_.end()`: theorems take the undefined
-- behaviour there that the standard says.
--
-- Not modelled: `set_vector_bits` of the master, which is defined twice and called nowhere; of the
-- network library in master/net and master/base, the client, the acceptor, sockets and addresses,
-- threads, latches and conditions, the texts of the logger, and times of day as text; master/net/http,
-- protobuf, inspect and protorpc, which are copies of another project's library; drafts and tests.
pub mod Base
pub mod Cache
pub mod Server
pub mod Master
pub mod Net
pub mod Threads
pub mod Time
pub mod Logging
