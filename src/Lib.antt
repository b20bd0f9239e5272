-- ===== src/Lib.antt =====
-- The relay proxy: it takes requests of web servers, written as URL parameters behind a length, and
-- passes each on, by its request type, to a server of the site that the type belongs to, over a pool
-- of connections. Statistics of failed calls make a site switch to its next data centre (IDC).
--
-- Parts, and the files that model them:
-- - Policy: `src/time_count_policy.cpp`, calls in a period of time. `Policy/Window` counts the calls
--   that a policy admits.
-- - Frequency: `src/frequency_control.cpp`, the limits of an address and a request type.
--   `Frequency/Interval` counts what they admit.
-- - Stats: `src/switch_key_stats.h`, the statistics of one key (`SwitchKeyStats`) and the pool of
--   them (`SwitchStatsPool`). `Stats/Decision` is the decision to switch in exact arithmetic,
--   `Stats/Latch` the statistics over time, `Stats/Shared` keys that share an id, and
--   `Stats/Rounding` what is asked of `float`.
-- - HaSite: `src/hasite_conf.cpp`, the nodes of each server. `HaSite/Order` is the order of the IDCs,
--   `HaSite/Nodes` the answers of `get`, `HaSite/Reading` the sites that a configuration gives.
-- - Api: the bookkeeping of a connection in `api/api_base.cpp`.
-- - Pool: `api/api_pool.cpp`. `Pool/Invariant` and
--   `Pool/Service` are the soundness of a pool, `Pool/Leases` and `Pool/History` who holds which
--   connection, `Pool/Switching` the switch to another IDC, and `Pool/Factor` the number of switches.
-- - SwitchMgr: `src/switch_mgr.cpp`, which counts requests and errors in both statistics and tells a
--   pool to switch. `SwitchMgr/Outcome` is what `trySwitch` may change.
-- - Url: `base/trpc_url_param_map.cpp`. `Url/Escape` and `Url/Params` are its round trips.
-- - Socket: `sys/socket_base.cpp`, the reads and writes of `sys/trpc_socket_opt.cpp`, and the framing
--   of `api/relay_api.cpp` and `src/client_socket.cpp`. `Socket/Receive`, `Socket/Head`,
--   `Socket/Framing` and `Socket/Arrival` are about receiving, `Socket/Send` about sending.
-- - Text: `base/trpc_comm_func.cpp`, white space and `split`, with `strtok_r` and `atoi` as the readers
--   of lines use them. `Text/Split` is the round trip of `split`.
-- - Access: `src/access_control.cpp` and `src/service_authorize_access.cpp`, who may ask for what.
--   `Access/Lines` is about a line of the first file, `Access/Sorted` about the search in the second.
-- - Rules: `src/service_fixed_control_rule.cpp` and `src/service_request_control.cpp`, limits by the
--   values in a request. `Rules/Bound` counts the requests that pass, `Rules/Keys` says what a check
--   leaves alone.
-- - Package: `api/trpc_package.cpp`, the packages of the middle protocol. `Package/RoundTrip` is about
--   their encoding.
-- - Routing: the thread of a connection (`_choose_thread` of `src/relay_server.cpp`, in
--   `Routing/Threads`) and the key of a request (`_gen_request_key` of `src/client_socket.cpp`, in
--   `Routing/Keys`).
-- - Events: `sys/event_queue.cpp` and `sys/event_base.cpp`, the queue of events with its pointers
--   (`Events/Links`, `Events/Queue` and `Events/Removal` say what list the pointers hold,
--   `Events/Sorted` that a sorted insertion is one into that list), and `Events/Monitor`,
--   `sys/epoll_monitor.cpp`: its map of descriptors (`Events/Monitor/Allocated`,
--   `Events/Monitor/Watched`, `Events/Monitor/Refused`) and the rounds of the loop (`Events/Monitor/Rounds`).
-- - Calls: the state machine of a connection to a server, `api/api_base.cpp` with `api/relay_api.cpp`
--   and `api/middle_api.cpp`. `Calls/Phases`, `Calls/Cycle` and `Calls/Completion` follow a call over a
--   relay connection, `Calls/Kept`, `Calls/Login` and `Calls/Session` the login of a middle
--   connection; `Calls/Numbers` and `Calls/First` are what the server needs of a step.
-- - Client: `src/client_socket.cpp`, the request and the answer of a client, with the escaping of codes
--   of `src/errcode_escape_conf.cpp`. `Client/Answers` is about both.
-- - Server: `src/relay_server.cpp`, the handlers of the events, composed of Access, Frequency,
--   Rules, Routing, Calls, Client and SwitchMgr. `Server/Watch` and `Server/Calling` follow the connection to
--   the server, `Server/Rounds` and `Server/Clients` the client, and `Server/Accepting` has a client
--   that is accepted and handed to its thread.
-- - Conf: the readers of the configuration, `sys/trpc_config.cpp`, `src/request_type_conf.cpp`
--   (`Conf/RequestTypes`), `src/core_server_conf.cpp` with the pools of the sites (`Conf/Servers`,
--   `Conf/Entries`),
--   `src/switch_stats_conf.h`, `src/errcode_escape_conf.cpp` and `src/detail_info_service_conf.cpp`.
-- - System: `sys/trpc_key_value_conf.cpp` and `src/system_conf.cpp`, the configuration of the system.
--   `System/Keys` is about the ranges of request types that it gives.
-- - Admin: `src/relay_mgr_command.cpp` and the loop of its thread in `src/relay_server.cpp`.
--   `Admin/Intervals` is about when a command runs.
-- - Base: lists over the native numbers, C integers, byte strings, ordered maps and exceptions.
-- The files named Examples hold runs of the code at fixed inputs.
--
-- How the code is read: a method is a function from the object's state to the next state and the
-- value returned; an exception, a failed assertion or a call through a null pointer is a value of
-- `Exception`. A call that holds a lock is one step, so that calls of several threads are a
-- sequence of calls; this is also how `CFrequencyControl::check` and `check_rule` are read, which
-- count under a read lock and accept that concurrent calls may lose a count. The clock is an
-- argument. `std::map` is a list of entries in the order of their keys. An `int` is a `ℤ`, which
-- wraps where the model writes out that it does (the counters of the policies and the statistics,
-- sums and products of the configuration), or the number of its bits where only those matter
-- (`_switch_factor`, the fields of a package, sequence numbers); elsewhere the values of the code
-- are taken to fit. The answers of the operating system (`check_tcp_ok`, `read`, `write`) are
-- arguments, and so is the `float` arithmetic of the statistics, with the laws of rounding as
-- hypotheses where a theorem needs them.
--
-- Bounds and fuel: packets have at most 31996 bytes, as `_recv_head` demands; `CRelayApi::_encode`
-- does not check this again, and has no buffer of its own in the model. The loop of `parseUrl`
-- runs on fuel, one more than the length of the text, since every round but the last takes a
-- separator. The turns of the event loop are a list, whose length a theorem bounds. The queue of
-- events is walked on fuel, for which the number of its events is enough.
--
-- Not modelled: log output, the opening of files and the XML parser of the configuration (`fgets`,
-- TinyXML), start-up, locks and threads, and the system calls themselves. Texts of the
-- configuration are taken to fit the fields that they are copied to. The handlers of the server
-- hold the manager of the switches, with the pools that it tells; the connection that `get_api`
-- gives is an argument of theirs.
pub mod Base
pub mod Policy
pub mod Frequency
pub mod Stats
pub mod HaSite
pub mod Api
pub mod Pool
pub mod SwitchMgr
pub mod Url
pub mod Socket
pub mod Text
pub mod Access
pub mod Rules
pub mod Package
pub mod Routing
pub mod Events
pub mod Calls
pub mod Client
pub mod Conf
pub mod Admin
pub mod System
pub mod Server
