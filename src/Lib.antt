-- ===== src/Lib.antt =====
-- A verification library for the core of libuv, of its Unix port, and parts of its Windows port.
--
-- Parts, each a tree of modules named for a source file's subject:
--   Heap        src/heap-inl.h, the binary min-heap. A node is its payload; the links down are a
--               tree, and the links up are the list of frames around a place. `heap_insert`,
--               `heap_remove` and `heap_dequeue` are functions on `struct heap`.
--   Handle      src/uv-common.h, the flags of a handle, and the macros that keep `active_handles` and
--               the count of active requests.
--   Timer       src/timer.c, on top of Heap and Handle: a loop's memory of timers, the heap that
--               orders them, and the local queue of `uv__run_timers`.
--   Watcher     src/unix/loop-watcher.c, the prepare, check and idle handles, on top of Handle.
--   Io          src/unix/core.c: the watchers of file descriptors, `uv__io_start` and its kin. The array
--               `loop->watchers` is a function with its number of entries, and can be freed.
--   Stream      src/unix/stream.c: the write queue of a stream, the callbacks of its writes, its
--               shutdown and its end. The kernel, which takes some of the bytes that it is given or
--               refuses, is a parameter.
--   Closing     src/unix/core.c: `uv_close` to the close callback. `Types` is what the types of handles
--               do when they stop. Fs-poll handles, which close a timer of their own first, are left
--               out.
--   Loop        src/unix/core.c: `uv_run`, over a record of the phases of a turn.
--   Threadpool  src/threadpool.c: each critical section is a function on the shared variables, and
--               the interleavings of the threads, in a process that does not fork, are sequences of such
--               steps (`Threadpool/Steps`).
--   Async       src/unix/async.c: the atomic operations on the `pending` of one handle, and their
--               interleavings. `int` does not overflow with fewer than 2^30 senders.
--   Barrier     src/thread-common.c: the stretches of `uv_barrier_wait` between two waits are functions
--               on the barrier, and the interleavings of the threads sequences of such steps.
--   Inet        src/inet.c: addresses from and to text, with `uv__strscpy` of Text.
--   Text        src/strscpy.c and src/strtok.c.
--   Idna        src/idna.c, the UTF-8 decoder and the translation of host names.
--   Wtf8        src/idna.c, the conversions between UTF-16 and WTF-8.
--   CommandLine src/win/process.c: the command line that a program on Windows is started with, and the
--               documented rules that take it apart (`CommandLine/Parser`).
--   SearchPath  src/win/process.c: the search for a program's file on Windows, over any file system.
--   Signal      src/unix/signal.c: the handles, the tree of the started ones, the disposition of each
--               signal and the pipes of the loops, less the dispatch of the caught signals. What is
--               used of include/uv/tree.h, a copy of another project's, is the parameter `RbTree`
--               (`Signal/Tree`), which a sorted list meets (`Signal/Lists`).
--   Queue       src/queue.h: the links of the nodes, changed write by write (`Queue/Links`), and a view of
--               all queues as disjoint lists of nodes (`Queue/Rings`), which the links refine. The other
--               parts take these lists for their queues.
--   Errno, Prelude   the error codes, and the shared lists, tests and notation.
--
-- A function of the source keeps its name, without `uv__` where the source has that prefix. A C
-- string is the list of its bytes before the NUL. Unsigned integers are natural numbers, with the
-- wrap-around written out where the code relies on it. A fault, such as a read through a null
-- link, is `none`. Loops that are not structural take fuel: 32 rounds for the bits of an
-- `unsigned int` in Heap, one more than the number of elements, bytes or units in Timer, Watcher,
-- Wtf8, SearchPath, and where Io and Stream call callbacks, and the value that is divided in
-- Idna, where each round divides it by ten at least. The fuel of `uv_run` is the caller's: it
-- bounds the turns of a loop that may run for ever. In Stream 33 rounds are enough for a stream
-- that does not block.
--
-- Not modelled: system calls, the threads and locks themselves, the operating systems' pollers, and
-- most of the port to Windows, which is glue to its interfaces. What a callback of the user does is
-- a parameter. Of uv_run the phases are a parameter too: no one state of all parts fills them.
pub mod Prelude
pub mod Errno
pub mod Queue
pub mod Handle
pub mod Text
pub mod Inet
pub mod Io
pub mod Stream
pub mod Idna
pub mod Wtf8
pub mod Threadpool
pub mod Heap
pub mod Timer
pub mod Watcher
pub mod Loop
pub mod Barrier
pub mod Async
pub mod Signal
pub mod Closing
pub mod CommandLine
pub mod SearchPath
