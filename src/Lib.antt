-- ===== src/Lib.antt =====
-- libcold: a C++ library of coroutines, timers, logs, HTTP and RPC, in the directory cold/.
--
-- The parts that are modelled, each with its file here and its source:
--
--   TimerQueue          cold/time/TimerQueue.h, TimerQueue.cpp: the timers of an event loop. The
--                       heap is a list, the std::map of places a function; add_timer,
--                       cancel_timer, update_timer, handle_timeout, and the loops fixup and fix_down.
--   Crypto              cold/util/Crypto.h: base64_encode, base64_decode.
--   Rpc.Codec           cold/net/rpc/RpcCodec.h over cold/net/Endian.h: parse_message,
--                       take_message, write_message. Rpc.Channel uses it.
--   Rpc.Channel         cold/net/rpc/RpcChannel.cpp, RpcServer.cpp: the read loop do_rpc, the two
--                       ends of a call (do_server_rpc, call_method, do_client_rpc).
--   WebSocketParser     cold/net/http/WebSocketParser.cpp: do_parse over parse_bytes, parse_length,
--                       check_length, finish_frame and merge_frames; parse; make_frame.
--   StringUtils         cold/util/StringUtils.h: split_to_views.
--   Router              cold/net/http/Router.h: the tries of filters and servlets; insert, try_match,
--                       match_chain. A std::map of children is the list of its entries.
--   Http.Url            cold/net/http/HttpCommon.h: url_encode, url_decode.
--   Http.Status         the same file: the table of status codes and messages.
--   Http.Response       cold/net/http/HttpResponse.h, RawHttpResponse.h: the response, make_headers.
--   Http.Request        cold/net/http/HttpRequest.h, HttpRequest.cpp, RawHttpRequest.h: parse_kv and
--                       decode_url_and_body.
--   Http.RequestParser  cold/net/http/HttpRequestParser.h, HttpRequestParser.cpp: the callbacks of
--                       llhttp (callback, execute); the calls that llhttp makes are the input.
--   Http.Session        cold/net/http/HttpSession.h, HttpRequest.cpp: the manager of the sessions,
--                       which it shares with its clients, and request_session.
--   Http.Dispatcher     cold/net/http/DispatcherServlet.h, ServletContext.h: do_dispatcher over the
--                       Router, and forward_to.
--   AsyncMutex          cold/coro/AsyncMutex.h: await_suspend, try_lock, unlock, as the steps of an
--                       interleaving.
--   Http.Server         cold/net/http/HttpServer.cpp, HttpServer.h: do_http, the loop of a connection,
--                       over Http.RequestParser and Http.Dispatcher.
--   Http.StaticFile     cold/net/http/StaticFileBody.h, StaticFileServlet.h: the constructor, its
--                       headers and the servlet; the file system is a parameter.
--   Log                 cold/log/LogCommon.h: a record, and its level.
--   Log.Formatter       cold/log/LogFormatter.h, LogFormatter.cpp: compile_pattern and format_sequence.
--   Log.LocalTime       the same file, LocalTimeFormatter: the text of a time with its cache; and
--                       Time::Exploded of cold/time/Time.cpp. localtime_r is a parameter.
--   Log.Sinks           cold/log/sinks, cold/log/LogSinkFactory.h: sink, flush, make_sink.
--   Log.Logger          cold/log/Logger.h, Logger.cpp: sink_it, log, over Log.Sinks.
--   Log.Manager         cold/log/Logger.cpp: the main logger that the configuration describes, and
--                       the registry of loggers.
--   IoWatcher           cold/coro/IoWatcher.h, IoWatcher.cpp: listen_read_event, listen_write_event,
--                       the three stop_listening functions, watch_io; the kernel's set of descriptors
--                       is the interface Epoll.
--   WebSocket           cold/net/http/WebSocket.h, WebSocket.cpp: send, close, ping, write_done and
--                       read_done, over WebSocketParser; WebSocket.Steps interleaves them, and
--                       WebSocket.Handshake is cold/net/http/WebSocketServer.cpp.
--   Sockets             cold/net/IoAwaitable.h and the two awaitables of cold/coro/Io.h: the awaited
--                       calls; Sockets.Stream is ReadN and WriteN of cold/net/TcpSocket.h, and
--                       Sockets.Owner cold/net/BasicSocket.cpp, over IoWatcher.
--   ConditionVariable   cold/coro/ConditionVariable.h over AsyncMutex: wait, notify_one, notify_all. The
--                       loop of notify_all takes a round for each waiter; without rounds left it is
--                       unfinished.
--   IoService           cold/coro/IoService.cpp: the rounds of Start, over TimerQueue and IoWatcher.
--   IoServicePool       cold/coro/IoServicePool.cpp: the choice of an event loop.
--   Base                lists, byte strings, std::map and integers in network order, for all parts.
--
-- A byte is a number below 256 and a string the list of its bytes. Sizes are numbers without a
-- bound, as memory is; sums of uint64_t that can wrap are written with their remainder. A loop of
-- the source is a recursion on its input where it walks one, and else takes fuel: fixup_loop as
-- many rounds as the place it starts from, fix_down_loop and timeout_loop as many as there are
-- nodes; the theorems about fixup, fix_down and handle_timeout show that this is enough, since
-- they state the end of the loop and not its return. parse_loop, split_loop and parse_kv_loop
-- have one round more than there are bytes, each round takes a byte at least, and their theorems
-- state the results for all inputs that they are about. write_rounds and read_rounds have one
-- round for each turn of the coroutine, and start_loop one for each time at which the loop looks
-- at the clock. A read of a list at an index is guarded by the tests of the source. An assertion
-- that fails, or an exception that nothing catches, is an outcome of its own.
--
-- Not modelled: frames of coroutines (cold/coro/Task.h); the calls of the system on sockets and
-- files, which are an interface or arguments; TLS; threads and locks; the accepting server
-- (cold/net/Acceptor.cpp) and AsyncIO (cold/coro/Io.h); how JSON is read; the copies of other
-- libraries in third_party. Where code calls one of these its results are arguments.
pub mod AsyncMutex
pub mod Base
pub mod ConditionVariable
pub mod Crypto
pub mod Http
pub mod IoService
pub mod IoServicePool
pub mod IoWatcher
pub mod Log
pub mod Router
pub mod Rpc
pub mod Sockets
pub mod StringUtils
pub mod TimerQueue
pub mod WebSocket
pub mod WebSocketParser
