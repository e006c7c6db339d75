-- ===== src/Lib.antt =====
-- smf: a remote procedure call framework over seastar, and smfc, the compiler that writes its
-- services and clients from a flatbuffers schema.
--
-- The program. A client (src/core/rpc_client.cc) makes a letter with a header of 16 bytes
-- (src/core/rpc.fbs, src/core/rpc_envelope.cc), lets its outgoing filters change it
-- (src/include/smf/rpc_filter.h, src/core/lz4_filter.cc, src/core/zstd_filter.cc) and writes it. The
-- server (src/core/rpc_server.cc) reads the header and then the payload
-- (src/core/rpc_recv_context.cc), takes memory for it from a semaphore, finds the handle of the
-- request (src/core/rpc_handle_router.cc), and answers in the background. The client gives each reply
-- to the call of its session. smfc (src/smfc) prints the classes that the two sides use.
--
-- The files.
-- - Prelude: shared names, Boolean tests, lists over the native numbers, texts as lists of bytes.
-- - Future: the result of an asynchronous call, a value or an exception.
-- - Rpc/Header, Rpc/Letter: the header and its bytes, rpc_letter and rpc_envelope.
-- - Rpc/Io: seastar's streams, as parameters with their documented laws.
-- - Rpc/Connection, Rpc/Recv: rpc_connection, and parse_header and parse_payload of
--   rpc_recv_context; Rpc/Recv/Accepts, Rpc/Recv/RoundTrip and Rpc/Recv/Stream hold the theorems.
-- - Rpc/Router: rpc_handle_router.
-- - Codec, Filter: src/core/compression.cc over the lz4 and zstd libraries, which are parameters
--   with laws, and the filters on top of it.
-- - Server: State has the records of the server, its connections and requests, and
--   cleanup_dispatch_rpc; Dispatch has dispatch_rpc and do_dispatch_rpc; Session has
--   handle_one_client_session and handle_client_connection; Session/Serve and Session/Served follow
--   one request to its reply.
-- - Client: State has the record of the client and fail_outstanding_futures; Calls has the other
--   methods; Slots and Linked are lemmas on the slots and on their link to the calls. Calls/Spec is
--   the abstract machine of the calls, Calls/Refines its refinement, Calls/Trip one call and its
--   reply.
-- - System: a client and a server that are joined by the two streams of a connection.
-- - Reconnect: src/include/smf/reconnect_client.h, over the model of the client.
-- - Smfc: Printer is src/smfc/smf_printer.h, Schema the services and methods, Cpp the functions of
--   src/smfc/cpp_generator.cc, each as the list of calls that it makes on the printer, and so Go and
--   Python of src/smfc/go_generator.cc and src/smfc/python_generator.cc.
--   Flags, Codegen and Driver are the flags of src/smfc/main.cc, src/smfc/codegen.cc and the main
--   function, over the flatbuffers parser and the file system as parameters. Plain has what makes a
--   text free of escape characters, and each generator a module Plain on the values it fills in.
-- - Histogram: src/core/histogram.cc and src/include/smf/histogram.h, over the HdrHistogram library
--   as a parameter, and src/include/smf/unique_histogram_adder.h; Logform is the histogram that goes
--   to seastar's metrics.
-- - LoadGenerator: the counting of requests of src/include/smf/load_generator.h and of the channels
--   of src/include/smf/load_channel.h.
-- - Tests: concrete streams, libraries and schedules, with an instance of each theorem.
--
-- State and concurrency. The asynchronous code is cut where its waits matter to others. The server
-- and the client are records; an event says which fiber goes on, or that a timer fires first, and
-- `run` takes a list of events, so a theorem on every list is one on every interleaving of these
-- steps. The client's reads are steps for the header and the payload, also past their timeout and
-- after their connection was replaced, and one step where nothing comes between. reconnect() is one
-- step, in which the queued writes and a read that was not given up come to their end before the
-- gate is open again, and the outgoing filters of a call run at once. A call of a library that the
-- source awaits is the state after it beside its result. What a filter or a handler returns is
-- arbitrary.
--
-- Numbers. Counters and sessions wrap at the width of their types. The semaphore is modelled by the
-- sums of what was asked for and of what was given back; that a waiting fiber is granted its units
-- is an event.
--
-- Fuel. Only the substitution of smf_printer::print runs on fuel. Half the number of escape
-- characters in the template and one round more are enough where the values have none of their own;
-- no template of the three generators needs more than 8. `to_string` has 20 digits, as many as the
-- largest 64-bit number.
--
-- Not modelled: sockets, TLS itself, timers, the registration of metrics and logging, which are
-- input and output; the printing of histograms and their percentiles, which is in the HdrHistogram
-- library; the clients of the load generator, and its requests per second, in floating point.
pub mod LoadGenerator
pub mod Histogram
pub mod Prelude
pub mod Future
pub mod Rpc
pub mod Codec
pub mod Filter
pub mod Server
pub mod Client
pub mod Reconnect
pub mod Smfc
pub mod System
pub mod Tests
