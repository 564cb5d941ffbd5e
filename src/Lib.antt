-- ===== src/Lib.antt =====
-- learning_cpp: programs of the repository that keep a state of their own.
--
-- Invert models invert/. Node has the structs and the comparator of invert.hpp, Sort its std::sort,
-- Disk the files, Table the class InvertTable with its methods under their own names in snake case;
-- Groups, Build, Lookup, Create, Persist, Answers, Distinct and Reload prove what the methods do.
-- Creator is the class of invertCreator.cpp, which hands the collected triples to a table.
--
-- Invert2 models invert_table/, an earlier version with two weights. Node, Maps and Table are
-- invert_table.h, ZTable is z_invert_table.h, a table in memory, and Creator is invert_table_creator.hpp,
-- which sorts what it has collected and hands it to the create of a table. Build, Distinct, Persist,
-- Answers, Create and Reload prove what the table's methods do, Creator/Orders and Creator/Filled what
-- comes of the creator. The files are those of Invert/Disk.
--
-- Http models ad_system/server3/, a web server on Boost.Asio. Chars and Request have the character
-- classes and the data; Parser is request_parser, a state machine that consumes a byte at a time, and
-- its loop; Uri is url_decode; Reply has reply and mime_types, with a client that reads the replies below it; Handler is request_handler; Connection is
-- connection, whose reads drive the parser and whose writes send the reply. The modules below them prove
-- what they do. A connection gives the parser each piece that a read brings, and the handler the request
-- that the parser has filled.
--
-- Market models produce_consume/. Ring is the ring buffer of all four programs with ProduceItem and
-- ConsumeItem; below it, Contents and Refines compare it with a queue. Threads has the threads of program
-- 04 as turns under a schedule, with Invariant, Progress and Ends. A mutex makes a region one turn, and a
-- wait on a condition variable ends the turn; the holder of a counter's mutex is recorded with the place
-- that it has reached.
--
-- LruCache models the class of c++11/LRUCache.cpp, with an id of a list's element for an iterator: Nodes
-- has the lemmas on the list, Refines compares an operation with one on a list of entries, and Runs and
-- Recent are about sequences of calls.
--
-- Exp models exp_小流量控制/exp.h and exp.cpp, settings that are read from a file: its lines fill the maps,
-- and the getters look them up. Getters has the getters, Typed is about the types of the values, Trim about the texts; Sections is a
-- file of sections, and Maps, Lines and Loaded are about what the getters give for one.
--
-- Pools models zl_threadpool/. Cpp03 is ThreadPoolCpp03/ThreadPool.cpp, with workers, the mutex and the
-- pool's owner under a schedule: Order is about the tasks, Exclusion about the mutex, Stop and Return
-- about stop(). ThreadPoolCpp98 has the same functions. Simple has the linked lists of
-- 01_simple_threadPool/threadPool.cpp in a store of items, and Links and Unlink say what becomes of them;
-- Simple/Threads has the pool's functions and its threads, Jobs the order of the jobs, Wakeups the waits
-- and Marks and Ends nThreadPoolDestory.
--
-- Reactor models Linux_Net/Reactor/02_epoll_loop.c, an echo server on epoll: the callbacks and the turns of
-- main's loop, with what the system answers as an input of a turn and the calls that it is given as a
-- record. Slots, Conserved, Safe, Runs and Turns lead to the invariant of the loop, Echo to what is sent.
--
-- FileCp models file_cp/: Threads is mult_thread_cp.c, whose threads copy a byte at a turn under a schedule,
-- while another adds up what they have done and draws the progress bar. Parts and Started are about the
-- division of the file, Display and BarTurns about the bar, and Copied about the result; Processes is mult_process_cp.c, with the
-- processes in any order and what they lose.
--
-- Wrap models the reads and writes of Linux_Net/Reactor/wrap.c, of which the other programs of Linux_Net
-- have copies: Exchange is about Readn and Writen, Lines about Readline. What arrives and what the system
-- takes are lists of the answers to its calls.
--
-- Philosophers models philosopher哲学家就餐/, the threads and the processes with the second fork as a
-- parameter: Forks is about who holds the forks, Turns about schedules, Meals and Fifth about what comes of them. EpollServer models
-- Linux_Net/04.使用epoll函数提高服务器处理能力/server.cpp, and Buffer and Shared are about the buffer of all clients;
-- PollServer models Linux_Net/03.使用poll函数提高服务器处理能力/server.cpp, and Forgotten what becomes of its
-- clients.
--
-- Charset models ad_system/common/encode_convert.cpp: Utf8 and Gbk are the two tests of a text, with their
-- languages in Sequences and Pairs, and Convert is ConvertCore, with iconv as a parameter.
--
-- Prelude passes on the library's names and has the lists, the integers and the texts that they share,
-- and in Runs the runs of a list that is ordered by a key.
--
-- A file is an array of bytes or of structs, or it is missing. A call through a null pointer, back() of an
-- empty vector, an element behind a vector's or a buffer's end and an iterator of an erased element are an
-- outcome `none`, and a reference into a destroyed map is an outcome of its own in Exp. The ints of the
-- parser, the total weights of Invert2 and the size in mult_process_cp.c wrap at 32 bits; of
-- mult_thread_cp.c, no file of two gigabytes or more is modelled, since its ints are at most the size. A wait
-- on a condition variable may end without a signal in Market and in Pools/Cpp03, but not in
-- Pools/Simple/Threads. Every function
-- recurses on its input, but the outer loop of the test for GBK has one unit of fuel for each byte and one
-- more, since each turn but the last takes a byte, and the client of the
-- replies has one for each byte, since a header line has more than one. The file system, the worker that the handler calls,
-- boost::lexical_cast, tolower, atoi, atof, iconv, the root of a total weight and what the
-- system answers to the servers, reads and writes are parameters.
--
-- Not modelled: the threads of the web server, since a connection's handlers run on one strand; the other
-- pools, of which 02_thread_pool and 03_ThreadPool are projects of others; the other samples of sockets, and
-- those of the language and of libraries, which keep no state of their own; and what boost/, libevent/ and
-- the build directories copy or generate.
mod Prelude
pub mod Invert
pub mod Invert2
mod Tests
pub mod Http
pub mod Market
pub mod LruCache
pub mod Exp
pub mod FileCp
pub mod Pools
pub mod Reactor
pub mod Wrap
pub mod EpollServer
pub mod PollServer
pub mod Philosophers
pub mod Charset
