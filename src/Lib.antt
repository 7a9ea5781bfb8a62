-- ===== src/Lib.antt =====
-- A model of MOBAN: the library deps/common, the network library plugins/Muduo, and the FTP server
-- example/miniftpd, which stands on both.
--
-- The parts, and where the program has them:
--   Prelude         lists, options and numbers that the parts share; `add_size` and `sub_size` are
--                   the arithmetic of `size_t`, which wraps at 2 ^ 64
--   Buffer          plugins/Muduo/muduo/net/buffer.h and buffer.cpp: readerIndex_, writeIndex_ and
--                   the vector, `append`, `retrieve`, `prepend`, `makeSpace`, `readFd` and the rest
--   Channel         Channel.cpp and EpollPoller.cpp beside it: `events_`, `index_`, and what
--                   `channels_` and the kernel hold for one descriptor
--   Connection      TcpConnection.cpp beside it: the life cycle (Connection), sending, receiving
--                   and closing (Connection/Transfer), over a Buffer in each direction and a Channel,
--                   and what may happen to it from its beginning to its end (Connection/Life)
--   BoundedQueue    deps/common/base/bounded_blocking_queue.h; Spec is the queue that it promises
--   Strings         deps/common/utilities/string_utils.h and string_utils.cpp
--   Config          deps/common/config: Value is config_value.cpp, Json is config_json.cpp and
--                   config_parser.cpp, Lookup is config.cpp, and Lookup/Typed its typed reads
--   Ftp/Session     example/miniftpd/src/ftp_session.cpp: Command is the control connection, over a
--                   Buffer, Deliveries the pieces that its bytes come in, and Transfer the data
--                   connection and the work of the disk pool
--   Timers          TimerQueue.cpp and Timer.cpp beside TcpConnection.cpp: the two sets of timers
--                   over Pairs, the heap of timers, and the callbacks that add and cancel timers
--   EventLoop       EventLoop.cpp beside it: the phases of `loop`, the functors that wait and the
--                   wakeups; RoundRobin is EventLoopThreadPool.cpp, Thread is
--                   EventLoopThread.cpp, and Turn one turn with `poll` of EpollPoller.cpp
--   TcpServer       TcpServer.cpp beside it: the names of connections, the map of those that are open,
--                   the start with its threads, and the loop that RoundRobin gives each
--   TcpClient       TcpClient.cpp beside it, over Connector; Histories are its rounds of the loop
--   Acceptor        Acceptor.cpp beside it, and `accept` of socketOps.cpp
--   Connector       Connector.cpp beside it: connecting, the retries and their delay
--   ThreadPool      deps/common/base/thread_pool.h and thread_pool.cpp
--   BlockingQueue   deps/common/base/blocking_queue.h; DiskPool is example/miniftpd/src/thread_pool.h
--                   over it
--   Latch           deps/common/base/count_down_latch.h
--   Files           deps/common/utilities/file_utils.cpp: Loops are the loops over read and write,
--                   Names the names of temporary files, Replace writing and replacing a file
--   Sysutils        example/miniftpd_c/src/sysutils.cpp, and CStrings str.cpp beside it
--
-- A function of the source is a definition with its name in snake_case. A method takes the object
-- and returns the new one; what it throws is in its result, a failed assertion is `none`, and a call
-- that sleeps is an outcome of its own. What is outside is an argument: the answers of `::write` and
-- `readv`, of `open`, `stat` and `readdir`, of the disk pool, of the JSON parser, and of the
-- arithmetic of floating point (`Libc`, and the type `Double` of Config). A connection keeps the
-- bytes that the kernel took and the callbacks it called, and a session keeps its effects, in order.
--
-- Threads are interleaved in explicit steps: what one does under a mutex is a step, a task of a pool
-- is two (its beginning and its return), and a call of `queueInLoop` or `quit` from another thread is
-- two as well (the functor or the flag, and the wakeup). A loop that repeats a system call recurs on
-- the list of the answers to it, and has not returned where the list is used up.
--
-- Loops take fuel where they are not structural. `split` and `replace_all` have one more than the
-- length of the input, and each round but the last takes a delimiter, which is not empty, off it;
-- their theorems show that they come to their end. The loop of `find` in Lookup has one more than the
-- length of the path, and each round takes a dot off it. `on_message` has the number of readable
-- bytes, and each round takes a line's end off them. `to_string` has one more than the number.
--
-- Not modelled: the locks inside a step, and the order of memory; calls of `shutdown` and
-- `forceClose` in another thread than the loop's while the loop closes the connection; a removal
-- that is left when a TcpServer is destroyed; the passing of time within one operation of a
-- TimerQueue; the user's callbacks, which are only recorded, but for those of timers and the calls
-- in a message callback; what is logged; the wrappers of sockets, which only call the kernel; the
-- lines of LIST, which need `stat` and `localtime_r`; the callbacks that the threads of a server
-- begin with; the wrappers of `std::filesystem`, and the lack of memory; in sysutils.cpp the
-- passing of descriptors and the settings of sockets; times before 1970 and the overflow of
-- `int64_t` microseconds; the text of timestamps and the log; the headers for graphics processors
-- in deps/common/di; and the copies of other projects in deps/third_party.
pub mod Prelude
pub mod Buffer
pub mod BoundedQueue
pub mod Strings
pub mod Config
pub mod Channel
pub mod Connection
pub mod Ftp
pub mod Pairs
pub mod Acceptor
pub mod TcpServer
pub mod TcpClient
pub mod Timers
pub mod ThreadPool
pub mod BlockingQueue
pub mod DiskPool
pub mod Latch
pub mod Files
pub mod Connector
pub mod EventLoop
pub mod Sysutils
pub mod CStrings
