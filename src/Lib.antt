-- ===== src/Lib.antt =====
-- moony, a TCP server library of the reactor kind: each thread runs one event loop, a loop waits on
-- one epoll instance, and each descriptor has a channel that calls back when the loop reports events.
-- A tcp_connection owns a channel and two buffers; a pool of threads supplies the loops. A tcp_server
-- accepts connections in its base loop, names them, hands each to a loop, and keeps them by name.
--
-- Which file models what, and where it stands:
--   Buffer         net/buffer: the class `buffer`. Its children hold what makes a buffer valid
--                  (Valid), the room that `ensure_writeable_bytes` makes (Room), the bytes as a
--                  sequence (Content), the queue that a client sees (Fifo) and the descriptors
--                  (ReadFd).
--   Epoll          what is used of sys/epoll.h, as a parameter with the laws of epoll_ctl(2);
--                  Epoll/Table fills it with an association list.
--   Channel        net/channel: events, tie, and the order of the callbacks (Dispatch).
--   Poller         net/poller, with `channel::update` and `remove` and the functions of
--                  net/event_loop through which they go. One channel with the map and the interest
--                  list (Sync), many channels over any sequence of calls (Interest), `poll_wait`
--                  (Wait), and how a channel is given up (Retire).
--   EventLoop      net/event_loop: the queue of functors, `quit`, and the eventfd, which is a
--                  parameter with the behaviour of eventfd(2) and is filled by Counting. System runs
--                  the loop's thread against any number of others, one access to the shared members
--                  at a time; Wakeup, Order and Quit are about its reachable states. Round has the
--                  channels that a round calls. Wiring has the constructor and the destructor,
--                  which put the wakeup channel on the poller.
--   CurrentThread  base/current_thread: the cache of a thread's number.
--   TimeStamp      base/time_stamp: a time and its text (Print), over a parameter for localtime.
--   Logger         base/logger: the macros and the lines that they print (Lines), over a text for the
--                  time.
--   BaseThread     base/base_thread: a thread object from its constructor to its destructor (Life).
--   EventLoopThread  net/event_loop_thread: the owner against the new thread, one access to the shared
--                  members at a time, with the condition variable; Start has what `start_loop`
--                  returns, Stuck how it and the destructor can wait for ever.
--   ThreadPool     net/event_loop_thread_pool, where the start of an event_loop_thread is one step.
--   InetAddress    net/inetaddress: addresses and their texts (Print), over a parameter for
--                  arpa/inet.h; InetAddress/Local fills it.
--   Socket         net/socket: the options of a descriptor and the calls on it, over a parameter for
--                  the kernel's sockets; Socket/Plain fills it.
--   Acceptor       net/acceptor, over the sockets: the listening channel, and what becomes of an
--                  accepted descriptor.
--   TcpConnection  net/tcp_connection: a connection (`Conn`) with its poller, its loop and the
--                  history of what it did (`World`). Members has its data, the constructor and the
--                  setters, Sound the invariant and the output as a stream, Post what may end a call
--                  of it, Output, Attempt, Send and Write the sending side, Session any sequence of
--                  both, Report and Events what epoll reports for it, Logged the members that only
--                  log, Closing, Graceful and Drain what follows a `shutdown`, Read and End the
--                  receiving side, Threads the calls from other threads, Queued and Turn what they
--                  leave for the loop and its turns over it, Open and Close the ends of its life.
--   TcpServer      net/tcp_server: the connections by name and the jobs for the loops. Construct has
--                  the constructor, First the first `start`, Names the names, Posted a job on its way,
--                  Accept, Remove and Destroy the operations, Run any sequence of them, and Handoff a
--                  new connection in the loop that it was given. Jobs runs the base loop's thread
--                  against the loops that take its jobs; Ordered, Orderly, Kept and Lives are about
--                  the order of those jobs.
--   EchoServer     sample/sample.cc, over the whole: what the program does with a message (Echo), any
--                  callbacks of a connection (Session), one from its start to its end (Life), and
--                  `main` up to the loop that it enters (Main, Listening, Up).
--   Prelude        lists, maps as association lists, integers, text and failures that the parts
--                  share.
--
-- A class is a record, an enum a data type, and a method a function from the object before to the
-- object after. The objects that a method reaches by pointers are passed and returned with it.
-- Where the code would read or write outside its storage, throw, or call `exit`, the function stops
-- with a value of `Stop`. What the kernel answers is an argument, with any value that the manual
-- page allows. `size_t` is a natural number with its wrap-around written out; a vector's largest size
-- is 2^63 - 1 bytes. The loops are recursions on lists or on a count, and the event loop is a step
-- relation. Fuel serves only the digits of a number `n`: `n + 1` rounds, and each divides by ten.
--
-- Not modelled: allocation that fails; most of the lines that the parts log; the clock, which is a
-- call of the system. A callback that is set is a flag, and one of the user's is
-- recorded as called: what it does to the objects in turn is a further call of their methods. The
-- callback for messages is an argument instead, since the write callback follows it in one report.
pub mod Prelude
pub mod Buffer
pub mod Epoll
pub mod Channel
pub mod Poller
pub mod EventLoop
pub mod CurrentThread
pub mod TimeStamp
pub mod Logger
pub mod BaseThread
pub mod EventLoopThread
pub mod ThreadPool
pub mod InetAddress
pub mod Socket
pub mod Acceptor
pub mod TcpConnection
pub mod TcpServer
pub mod EchoServer
