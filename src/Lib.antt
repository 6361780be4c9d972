-- ===== src/Lib.antt =====
-- A verification library for the multi-threaded HTTP forward proxy of this repository: `http.hpp`,
-- `lru_cache.hpp` and `server_phase5.cpp`; the programs that measure it, `origin_server.cpp` and
-- `benchmark.cpp`; and the parts of `server_phase3.cpp` and `server_phase4.cpp` that it replaced.
--
-- The program. An event loop accepts connections and pushes a task for each readable one on a
-- queue; a pool of threads pops the tasks. A task runs `handle_ready` on its connection: it drains
-- the socket into the buffer of the connection, parses every complete request, and serves each by
-- `serve_one_request`: access control first, then routing, then the sharded LRU cache, and on a miss
-- the upstream, whose answer goes to the client and perhaps into the cache. Every request is logged.
-- The load generator writes requests to the proxy and reads the answers, and the origin server is
-- the upstream that answers them; an older pool, cache and handler are kept beside the new ones.
--
-- The files. Bytes are numbers and a std::string is a list of them. A 64-bit counter keeps its
-- wrap-around.
-- - Base: what the other files share; Base/Int has the signed numbers, Base/Eq the keys of a map.
-- - Text: `to_lower`, `trim`, `wildcard_match` of http.hpp, and the std::string searches they and the
--   parsers call. Number: `strtol`, `atoi`, `std::to_string` as the C and C++ libraries define them.
-- - Request, Response, Routing, Acl, AccessLog: the parts of http.hpp by these names. A parser is one
--   function for each block of the source, down to its early returns. An `unordered_map` of headers
--   is an association list with distinct keys. The configuration is read by `load_string`.
-- - Lru: `LRUCache` of lru_cache.hpp. A list iterator is the number of a node, so that the index and
--   the list are two structures that an invariant ties together (Lru/Valid); Lru/Refine compares
--   each member function with a list of entries, Lru/History with the history of all calls.
-- - Lru/Sharded: `ShardedLRUCache`. `round_up_pow2` returns nothing where its loop does not end.
-- - Tasks: `TaskQueue` of server_phase5.cpp; Tasks/Pool: `ThreadPool` as a relation of steps that
--   interleave the event loop and the workers, with the sleep in `cv_.wait` and the notifications.
-- - Proxy/State: the parts of `Stats`, `Options`, `Conn` and the globals that requests use.
--   Proxy/Send: `send_all`. Proxy/Fetch: `fetch_upstream`. Proxy/Serve: `serve_one_request`.
--   Proxy/Handle: `handle_ready`. Proxy/EventLoop: the loop of `main` as steps, with a connection in
--   one of three places: armed in epoll, queued, or at a worker.
-- - Message: messages of HTTP as they are printed, a start line, fields, a blank line and a body, and
--   how the searches and line readers of the parsers see them. Request/Fields and Response/Fields
--   read printed messages back, Response/RoundTrip those of `build_response`; Proxy/Fetch/Delivery
--   follows the reading loop of `fetch_upstream` over an answer that comes in pieces.
-- - Origin: `handle`, `send_all` and the answers of origin_server.cpp.
-- - Benchmark: the request and `read_one_response` of benchmark.cpp; Benchmark/Through takes a
--   request of the load generator through the proxy to the origin and back.
-- - Phases/Pool: `TaskQueue` and `ThreadPool` of server_phase3.cpp, which server_phase4.cpp repeats,
--   as steps that tell the test in `cv.wait` from the sleep behind it. Phases/Cache: `LRUCache` of
--   server_phase4.cpp; Phases/Handler: its `handle_request`.
-- - Startup: the command line, the number of workers, `load_file`.
-- - Files named Tests run the definitions on small inputs and apply the theorems to them.
--
-- Parameters. What the system calls return is an argument: a list of `recv` results, a list of
-- `send` and `poll` results, the link to an upstream, the clock and its formatting, the hash of a
-- key, the `max_size` of a vector, and how a file opens and reads. A mutex makes each member
-- function one step, but for the waiting and the notifications of the task queues. Memory does not
-- run out. Where a list of `recv` results ends, a non-blocking read would block and a blocking read
-- times out.
--
-- Fuel. The loops of `handle_ready` get one more round than there are bytes, those of
-- `chunked_body_complete` one more than the text has, that of the origin's `handle` one more than its
-- buffer has, `body += "x"` as much as the size of the body, and the loop of `round_up_pow2` gets 64:
-- each as much as the loop of the program needs, where it ends. `std::to_string` prints at most 20
-- digits, as many as a `size_t` has.
--
-- Not modelled: the system calls of the event loops and the listeners, and the statistics printed;
-- the hit rate, the Zipf draw and the latencies, which are doubles; the command lines of the origin
-- and the load generator, and the threads of the latter; the echo loops of server_base_version.cpp
-- and server_phase2.cpp, and the handler of server_phase3.cpp, which print what they read; and the
-- tests.
pub mod Base
pub mod Text
pub mod Number
pub mod Message
pub mod Request
pub mod Response
pub mod Routing
pub mod Acl
pub mod Lru
pub mod Tasks
pub mod AccessLog
pub mod Startup
pub mod Proxy
pub mod Origin
pub mod Phases
pub mod Benchmark
