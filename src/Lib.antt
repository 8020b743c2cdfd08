-- ===== src/Lib.antt =====
-- TSF4G, a framework for servers that talk through shared memory.
--
-- A tbus is a ring in shared memory with one process that writes packets and one that reads them.
-- tbusapi puts callbacks over two of them. tconnd accepts connections of clients, cuts their
-- streams of bytes into packets and passes them to its server over a tbus, as messages of the
-- socket interface protocol (sip); the server reads them with tconnapi. A client in C reads the
-- packets of a connection with tsocketapi.
--
-- Which file models which code:
--
--   * Errors: the codes of `tlibc_error_code_t`, by tutils/source/tlibc_string.c.
--   * Tbus: tbus/source/tbus.c and tbus/include/tbus.h. A `Tbus` holds the four words of `tbus_t` and
--     the bytes of `buff` as a function of their offset. `send_begin`, `send_end`, `read_begin` and
--     `read_end` are the functions of the same names with `tbus_` in front; `peek` is the static one.
--     Tbus/Position describes the places a reader and a writer can be at. Tbus/Send, Tbus/SendEnd,
--     Tbus/Peek, Tbus/Read and Tbus/Release have the laws of one operation each. Tbus/Channel is
--     the two processes on one ring: a step relation whose steps are the calls of either side and the
--     writer's stores, in any order. A call is one step: the ring is used through volatile words, and
--     no model of memory that is weaker is assumed here.
--   * Tbusapi: tbusapi/source/tbusapi.c, with the client's callbacks and its encoder as parameters.
--   * Frames: the packets of a stream, two bytes of length and the bytes. Frames/Streams shows that
--     every stream of bytes is whole packets and a partial one.
--   * Sip: the messages of tutils/include/sip.h, as the bytes that stores to the fields leave and from
--     which loads take them. An x86 layout is assumed: eight bytes of alignment for
--     `uint64_t`, least significant byte first, as where TSF4G_BIGENDIAN is not defined.
--   * Tconnd: the global variables of tconnd, and the kernel as it uses it: a record of operations over
--     a state of its own, a parameter throughout. A call that is repeated while it is interrupted is
--     one operation. Sockets are named by their ids in the pool; the intrusive lists hold ids. Taking
--     an entry out of a list that does not have it changes nothing.
--   * Tconnd/Sockets: tconnd/source/tconnd_socket.c but for `tconnd_socket_recv`; Sockets/Deletion and
--     Sockets/Pushes say what a deletion and an operation of the server change.
--   * Tconnd/Queues: the invariant of the two queues of tconnd, one of connections that wait to be
--     accepted and one of those with part of a packet; Tconnd/Timely: the bounds of their times, and a
--     connection that joins; Tconnd/Steady: what leaves the connections alone.
--   * Tconnd/Cut: `tconnd_socket_recv` of tconnd_socket.c from the bytes that `recv` gave to its end, as
--     what is sent on and what is kept; Tconnd/Receive: the whole function on the state, with
--     Receive/Parts and Receive/Buffers for the package buffers and Receive/Outcomes and
--     Receive/Arrivals for what a call comes to. Tconnd/Notice: the messages to the server;
--     Tconnd/Outbox: how they enter the ring.
--   * Tconnd/Listen: `tconnd_listen` of tconnd/source/tconnd_listen.c.
--   * Tconnd/Input: `process_input_tbus` of tconnd/source/tconnd_tbus.c. Input/Writable is the
--     invariant of the list of sockets to flush, Input/Messages and Input/Flushing its two loops.
--   * Tconnd/Expiry: tconnd/source/tconnd_timer.c, `tconnd_timer_on_tick` and `tconnd_timer_process`.
--     Expiry/Closing is what is closed, Expiry/Due the whole function.
--   * Tconnd/Epoll: `tconnd_epool_proc` of tconnd/source/tconnd_epoll.c. Epoll/Supply counts the package
--     buffers, Epoll/Rounds is what holds between two sockets, Epoll/Serving and Epoll/Loop the loop.
--     It is studied with enough package buffers: without one, it deletes a connection that its loop
--     may still come to.
--   * Tconnapi: `tconnapi_on_recv` of tconnapi/source/tconnapi.c, as the calls of its callbacks.
--     Tconnapi/Respond: `tconnapi_encode` and the three functions that send a response;
--     Respond/Broadcast: how `process_input_tbus` takes what they write; Respond/Sending: a call from
--     the server to the connections.
--   * Socketapi: tsocketapi/source/socketapi.c, `socketapi_process` and `socketapi_close`, with what
--     the kernel returns as a parameter, and what a `memcpy` of ranges that overlap leaves.
--   * Timer: tutils/source/tlibc_timer.c. The five vectors are one function from a vector and an index
--     to a list of entries; the shifts are divisions. Timer/Place is `tlibc_timer_push`'s choice of a
--     slot, Timer/Slots and Timer/Cascade what pushes and cascades do to the lists, Timer/Drain which
--     slots a tick drains, Timer/Fire its loop over callbacks, and Timer/Expire the whole tick.
--     A callback is what it pushes, a parameter. `jiffies` is assumed 2^32 below its wrap.
--   * Hash: tutils/source/tlibc_hash.c. Hash/Table is the invariant of the counters and of the list of
--     used buckets, Hash/Lookup and Hash/Removal the view of the table as a list of heads for a key.
--   * Mempool: tutils/include/tlibc_mempool.h. Units are named by their ids; Mempool/Handles has the
--     callers' uses as a step relation, a unit being taken only while serial numbers are left.
--   * Tapp: `on_signal` and `tapp_loop` of tapp/source/tapp.c; Tapp/Options:
--     `tapp_load_config`, with what `getopt_long` and the XML reader give as parameters. Work
--     functions and `usleep` are parameters; signals may set the flags while a function runs.
--     Tapp/Rounds is a round over the functions and Tapp/Idle the sleeps of the loop.
--   * Tlog: tlog/source/appender/tlog_appender_rolling_file.c. The files are part of the state,
--     as numbers in place of names; calls on them may fail. Tlog/Backups says how long a renamed file stays.
--
-- Loops take fuel and return an option. `send_begin` turns at most once, so that its fuel is two.
-- The loops over packets take one more than the bytes there are, since each turn consumes two at
-- least. A tick takes a limit on the callbacks that it calls, since a callback can keep it busy for
-- ever. Each theorem says what is returned, so that the fuel is enough.
--
-- Not modelled: the calls of shmget, recv, send, epoll and the like, whose results are parameters;
-- the text of the log; the reading of the configuration from XML; the functions that only set up or release what
-- the kernel gives; `tapp_spawn`, which stores the results of threads where there is
-- no room for them; the options of tbusmgr; the other appenders of the log.
pub mod Prelude
pub mod Errors
pub mod Tbus
pub mod Tbusapi
pub mod Frames
pub mod Sip
pub mod Tconnd
pub mod Tconnapi
pub mod Socketapi
pub mod Timer
pub mod Hash
pub mod Mempool
mod Tests
pub mod Tapp
pub mod Tlog
