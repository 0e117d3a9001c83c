-- ===== src/Lib.antt =====
-- A model of the coevent module: Lua coroutines that wait for sockets, over an event loop. The C code
-- of the module is in src/. A cosocket is a socket with a coroutine that may wait for it; the methods
-- of a cosocket (src/coevent.c) either answer at once or suspend the coroutine, and handlers that the
-- event loop calls resume it. Idle connections are kept in a pool (src/connection-pool.c), which also
-- counts the connections of each key and holds the cosockets that wait for one.
--
-- Which file models what:
--   Prelude                the names that all files share, with lists measured by native numbers
--   ReadBuf                the chain of received chunks and lua_co_read_ (src/coevent.c)
--   ReadBuf/Scan           the search for a line end
--   ReadBuf/Copy           the copy out of the chunks
--   ReadBuf/Refine         lua_co_read_ against the text that the chunks hold
--   ReadBuf/Fill           the receive loop of cosocket_be_read
--   Pool                   src/connection-pool.c and connection-pool.h
--   Pool/Counters          the counters of the keys
--   Pool/Stock             how often a socket stands in the pool
--   Pool/Conserve          clearing the old generation, and taking a connection out
--   Pool/Clear, Pool/Taken  what clearing closes, and what a search moves
--   Pool/Release           putting a connection back, and closing an idle one
--   Pool/Limit             how many connections of a key are kept
--   Pool/Waiting           serving a cosocket that waits
--   Cosocket               cosocket_t and what its handlers share
--   Cosocket/Close         timeout_handle, _lua_co_close, close, setkeepalive, settimeout, __gc
--   Cosocket/Close/Given, Cosocket/Close/Timeout  where closing gives the socket
--   Cosocket/Connect       _be_connect, be_connect, cosocket_be_ssl_connected
--   Cosocket/Connect/Method  the method connect (lua_co_connect)
--   Cosocket/Send          cosocket_be_write and send (lua_co_send)
--   Cosocket/Receive       cosocket_be_read and read (lua_co_read)
--   LuaTable               lua_calc_strlen_in_table and lua_copy_str_in_table (src/lua-util.c)
--   Popen                  processes opened by popen (src/coevent.c)
--   Popen/Life             how often their pipe is closed
--   Objects                tcp, udp, setpeername and udp's send (src/coevent.c)
--   Objects/Peer           the sockets of setpeername
--   Resolver               src/lua-resolver.c
--   Resolver/Query         the packet of a query
--   Resolver/Reply         the addresses in a reply
--   Resolver/Loop          the loop over the answers of any message
--   Sleep                  _lua_sleep, sleep and check_lua_sleep_timeouts (src/lua-util.c)
--   Sleep/Turns            what coroutines do to the sleepers while they run
--   Sleep/Bucket, Sleep/Walk  the walk over a bucket
--   Sleep/Check            the check of all buckets that are due
--   Threads                the keys of coroutines, wait, create, spawn, resume (src/lua-uthread.c)
--   Threads/Keys           the tree of keys after a write
--   Threads/Entered        whom wait waits for
--   Threads/Waits          what wait counts
--   Threads/Wakes          whom the end of a coroutine resumes
--   Swop                   lua_f_coroutine_swop and the queue in coevnet_module_do_other_jobs
--   Escape                 cosocket_lua_f_escape (src/lua-util.c)
--   Loop                   coevnet_module_do_other_jobs, _do_other_jobs, startloop (src/coevent.c)
--   Loop/Fair              whose turn it is among those that gave way
--   Files                  the data of src/lua-eio.c: arguments, requests, values
--   Files/Octal            "%o", atoi and oct2decimal; Files/Octal/Inverse the one against the other
--   Files/Paths            the functions of the table eio: mkdir to open
--   Files/Handles          the methods of an open file, and in Files/Handles/Life its closings
--   Files/Done             the callbacks; Files/Done/Names and Files/Done/Modes on readdir and stat
--   Files/Calls            all calls and all callbacks in a program
--   Files/Calls/Answered   how a call ends
--   Files/Calls/Steps      the steps of a program, and what holds at any time
--   Files/Calls/Resumed    what a callback does with its coroutine
--   Files/Calls/Waits      that it holds, and that whoever waits is resumed
--   Logs                   src/lua-log.c
--   Logs/Room              what is written, and the room for it
--   Logs/Handle            the log files
--   Codecs                 src/lua-md5.c, src/lua-sha1.c, src/lua-base64.c, src/lua-escape.c
--   Codecs/Hex             the text of a digest
--   Monip                  lua-libs/lua-monip/lua-monip.c
--   Monip/Split            the pieces of its answer
--   Monip/Scan, Monip/Range  the search in the index
--   Monip/Find             what it returns
-- The children of a module hold its theorems, and the files named Examples run them.
--
-- How state and operations correspond: cosocket_t is the record Cosocket, the global arrays of the
-- pool are the record Pool, with a function from an index to a list for each array of linked lists;
-- a handler is a function on a World, which is the cosocket, the pool and the calls made outside.
-- A definition has the name of the C function that it models. Where a handler resumes a coroutine,
-- the part up to the resumption is a function of its own (be_read_state, be_write_state,
-- be_connect_state, timeout_state), and what Lua then does is a parameter (Resume).
--
-- What comes from outside is an argument: the results of recv, send, SSL_read and SSL_write are lists,
-- in order, and a list that ends stands for EAGAIN; malloc, se_add, se_be_read, se_be_write, se_connect,
-- SSL_new and the clock are arguments, and so is the hash fnv1a_32 of the merry library. Theorems on
-- loops over recv and send assume that these take no more bytes than they are offered.
--
-- The state of the sleepers is the record Wheel, which also holds what coroutines will do while they
-- run, in order (turns), and who was woken. The tree of keys is a list of keys (Threads). A process
-- is a World with the number of calls of pclose.
--
-- Bounds: most loops are structural recursion over lists or over a number of buckets. Fuel stands for
-- the rounds of these: the labels of a name, with one more than it has bytes; the answers of a
-- message, with one more than it has bytes behind the question, as each round takes some; the sleepers of a bucket, with as many
-- as it holds and as will come; and the buckets of a check, with as many ticks as the clock goes on.
-- A size_t or unsigned long that the code decrements or increments is counted modulo 2 ^ 64; lengths of
-- buffers in memory are not wrapped, but the one length that the code lets fall below zero is an
-- outcome of its own (fault). The pointers of linked lists are not modelled: a list is a List.
--
-- The jobs between events (Loop) take the check of the sleepers and the coroutines that run as an
-- interface, Others, with the law that nobody takes a coroutine out of the queue of swop; a call of
-- swop keeps it. What is logged is a line with the room of its buffer (Logs), and the digests and
-- codecs are functions that an argument holds (Codecs).
--
-- Files: a call of the thread pool is a request, a value that a method gives out, and a request that is
-- done is a reply, an argument of the callback; the system is what makes the replies. A program is the
-- set of coroutines that are suspended, the requests that are not done and the handles that Lua has.
-- Numbers are printed with as many rounds as their value, which is more than their digits; the search
-- in the index has one round more than there are bytes, and each entry takes eight; the split of a
-- text has one round more than there are bytes. The search counts modulo 2 ^ 32, as the code does.
--
-- Not modelled: the merry library, libeio, OpenSSL and Lua themselves, which are not in the
-- repository; the registration of the functions with Lua, the functions that only read the clock, and
-- the callback that copies a password; and, under lua-libs, the libraries that are copies of other
-- projects and the hash functions and checksums, which the module does not call.
mod Prelude
pub mod ReadBuf
pub mod Pool
pub mod LuaTable
pub mod Escape
pub mod Files
pub mod Logs
pub mod Codecs
pub mod Loop
pub mod Monip
pub mod Swop
pub mod Resolver
pub mod Sleep
pub mod Popen
pub mod Threads
pub mod Objects
pub mod Cosocket
