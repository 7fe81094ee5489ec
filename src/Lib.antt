-- ===== src/Lib.antt =====
-- shapeware: a model of the services of this repository, components that the shape launcher starts
-- and binds to each other, and theorems about them.
--
-- The parts, the files that model them, and the code they are translated from:
--
-- - Base, Text, StdMap: shared names, lemmas and types. Text is `std::string` as a list of bytes;
--   Base/Int the C++ `int`, without its range, and its conversion to `size_t`; StdMap `std::map`
--   over a comparison of keys, as the list of its entries in the order of an iteration.
-- - Properties: the configuration of a component, as the shape framework gives it.
-- - TaskQueue: the queue of MqMessageService/TaskQueue.h. `push_to_queue`, `stop_queue` and
--   `size` are pushToQueue, stopQueue and size; `worker_step` is one step of the thread that runs
--   worker(). `Step` has one case for each thing a thread can do, and `Reach` any number of them in
--   any order. A wake-up of the condition variable without a push changes nothing, since wait has a
--   predicate.
-- - TaskQueue2: the queue of include/TaskQueue2.h, likewise. Its worker waits with a timeout, so
--   the model lets it go on from `waiting` at any time.
-- - MqMessage: MqMessageService/MqMessageService.cpp. MqMessage/Service has the members of Imp, the
--   listening thread, `connect` and `send_to`; MqMessage/Posix the functions openMqRead to writeMq
--   over a system that is a parameter; MqMessage/Channel the service with its TaskQueue, whose
--   worker calls `send_to`, and its listening thread, in any order of their steps.
-- - Mqtt: MqttService/MqttService.cpp. Mqtt/State has the members of Imp; Mqtt/Config modify and
--   the launch service; Mqtt/Connection create, connect, disconnect, destroy and the callbacks
--   about the connection; Mqtt/Handlers the registration of handlers; Mqtt/Subscription and
--   Mqtt/Publish the requests to the broker and their callbacks; Mqtt/Receive msgarrvd; Mqtt/Topic
--   tokenizeTopic of include/mqtt_utils.h and the matching of topics to filters. Mqtt/Run puts the
--   requests of clients and the callbacks of the library together, in any order.
-- - Websocket: WebsocketCppService/WebsocketCppService.cpp and the server that it uses.
--   Websocket/Callbacks is what the server calls, Websocket/Sending sendMessage, Websocket/Control
--   start, stop, activate and the reading of the configuration. Websocket/Server is
--   WebsocketCppService/WsServer.h, the handlers that it installs in websocketpp and its calls of it,
--   Websocket/Tls the modes and the context of WebsocketCppService/WsServerTls.cpp,
--   Websocket/LogStream WebsocketCppService/LogStream.cpp.
-- - WebsocketClient: WebsocketCppClientService/WebsocketCppClientService.cpp: what websocketpp
--   calls, and what clients ask for, in any order.
-- - ZeroMq: ZeroMqService/ZeroMqService.cpp. ZeroMq/State has the members of Imp and the
--   operations of clients: `begin_open` and `begin_close` are open and close up to their waits,
--   `open_returns` and `close_returns` the conditions of these waits. ZeroMq/Worker has workerReq
--   and workerRep, and ZeroMq/Config modify and activate.
-- - Fleet: AwsFleetProv/AwsFleetProv.cpp, a client of the MQTT service. Fleet/State has the members
--   of Imp, the state of the MQTT service, the files, and the local variables of worker and
--   makeProvisioning; Fleet/Messages the functions that are given to the MQTT service;
--   Fleet/Requests what the worker asks of it; Fleet/Worker worker and makeProvisioning, whose
--   steps go from one wait to the next, and launchProvisioning; Fleet/Config modify, activate,
--   deactivate and the queries; Fleet/Mkdir the class Mkdir. Fleet/Run puts the steps of the worker
--   and the callbacks of the Paho library, by way of the MQTT service, together in any order.
-- - Rest: getFile of CurlRestApiService/CurlRestApiService.cpp; CppRest: getFile of
--   CppRestService/CppRestService.cpp.
-- - Command: the registry of CommandService/CommandService.cpp (Command/Service) and the thread
--   runThd of CommandLineService/CommandLineService.cpp (Command/Line), which finds its commands
--   there.
-- - Syslog: SyslogLogger/SyslogLogger.cpp, with the conversions of levels as a parameter.
-- - MsgCmd: examples/MsgCmd/MsgCmd.cpp and examples/MsgCmdEcho/MsgCmdEcho.cpp. MsgCmd/Typed goes from
--   a line at the command line by way of Command and MsgCmd to the queue of MqMessage, MsgCmd/Echo
--   has MqMessage with the handler of MsgCmdEcho, MsgCmd/Duplex both components, connected by two
--   message services as examples/MsgCmd/README.md and its configuration say, with failing openings,
--   writes and reads, and with deactivations.
--
-- An operation takes the state of its service and returns what it leaves, the calls that it makes,
-- as events in their order, and what it throws. The Paho library, websocketpp, ZeroMQ, libcurl,
-- cpprestsdk, OpenSSL, rapidjson and the shape framework are not in the repository: a call of them
-- is an event, and what they answer is an argument, so that a theorem holds whatever they answer.
-- A `std::function` is known by a number, and does not call its service back within the call,
-- where the service may hold a mutex; those of AwsFleetProv and MsgCmdEcho have a definition each. Operations
-- that lock a mutex are one step. Traces are left out.
--
-- Fuel: `tokenize_loop` gets one more than the length of the topic, and each of its rounds removes
-- a byte, so that its case without fuel is never reached. `run_worker` of TaskQueue takes a number
-- of steps, as that of MqMessage/Channel does; `steps_left` many are enough for the worker to come
-- to rest.
--
-- Not modelled: the start-up program, tests, build scripts and the branches for Windows. Of
-- AwsFleetProv, the joins of its thread are left out, and the making of the folder of the
-- certificates is an event in its runs, with Fleet/Mkdir on its own.
--
-- Taken together in one step: the report of a provisioning and the `disconnect` and `destroy` after
-- it, with the callbacks of their waits as arguments; `stop` of the websocket service, with the join
-- of its thread. A notification of a condition variable is the flag that its wait tests. `do_cmd` of Command ends
-- with the flag that quits the loop, without the signal that the code raises after it; `fclose` in
-- Rest is taken to succeed. Websocket/Sending lists the connections that `send` is called for;
-- where it throws, Websocket/Server/Broadcast says what is left out.
pub mod Base
pub mod Text
pub mod StdMap
pub mod Properties
pub mod TaskQueue
pub mod TaskQueue2
pub mod Mqtt
pub mod Websocket
pub mod Command
pub mod CppRest
pub mod Fleet
pub mod MqMessage
pub mod MsgCmd
pub mod Rest
pub mod Syslog
pub mod WebsocketClient
pub mod ZeroMq
