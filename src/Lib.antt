-- ===== src/Lib.antt =====
-- A model of the JavaScript of sse-broadcast-benchmark, with the theorems that make it correct.
--
-- node.js/server.js is a server of Server-Sent Events: clients connect to /sse, a POST to
-- /broadcast is written to all of them, and /connections tells how many they are.
-- stats-reporter/report.js runs beside a server and measures it, for which it sends timestamps
-- through the same broadcast. bench/bench.js connects many clients to a server, probes it, and
-- keeps a table of results.
--
-- Js/Text, Js/Number and Js/Regex: strings as lists of UTF-16 code units, with the methods that
--   the sources call; decimal numbers; the regular expression of handlePostRequest.
--
-- Server/State, Server/Log: clients, numClients, the listeners for the event end, and the calls
--   on sockets, in order.
--
-- Server/Response: writeHead, writeConnectionCount, writeCorsOptions, writeClientError, write404.
--   Server/Clients: initSseClient, removeClient, broadcast. Server/Dispatch: handleRequest.
--   Server/Post: handlePostRequest. Server/Connection: the connection handler with parseData.
--   Server/World: the event loop, which accepts connections, delivers chunks and ends in any
--   order. Server/Hub: what the server promises to its subscribers, as a state with three
--   operations, which the program refines step by step. Server/Args: getArgs and the start.
--
-- Reporter/Timestamp: sendTimestampBroadcast of stats-reporter/report.js. Reporter/Delivery: the
--   closure fetchDeliveryTiming, its stream and its timers. Reporter/Start: the checks of the
--   options, and the process that is watched or spawned. Reporter/Args: the table of
--   stats-reporter/args.js, and how report.js reads its options. Reporter/Gather: gatherStats
--   with its tasks getSystemInfo, getNetworkTiming and getConnectionCount, and reportStats.
--   Reporter/Count: how getConnectionCount reads its body.
--
-- Bench/Sampling: the loop of bench/bench.js that opens the clients. Bench/Probes:
--   getResponseTime and the end of the benchmark. Bench/Report: printReport, with its statistics
--   and its file of results. Bench/Program: the program as a whole, its start and the handlers of
--   clients, probes and timers in any order. Bench/Args: the table of bench/args.js, and how
--   bench.js reads its options. Js/Argparse: what the tables hold.
--
-- The proofs stand in the modules below those that declare the functions; the modules named Tests
-- run the model and apply the theorems at concrete inputs.
--
-- A socket is a number. What the code asks of a socket is an entry of a log, so that what a
-- client is sent is what the log holds for it. A string literal of the source is written by its
-- characters. numClients is an integer, as in the source. The loops recur on the list or on the
-- count of rounds, and take no fuel, except for the digits of a number n, where n + 1 rounds are
-- enough: parse_digits-show says that what is printed reads back.
--
-- How a Buffer becomes a string is the platform's: the parameter decode, with the laws IsDecoder
-- of UTF-8. What the event loop delivers is IsAllowed: a socket connects once, sends chunks of at
-- least one byte, and ends once. An error of a socket, to which the code does not listen, ends
-- the process, so that no state comes after it. What the platform does with a write to a socket
-- that has gone is not modelled, nor is console output. async.parallel is a parameter with the
-- laws IsParallel, and so is the way in which JavaScript makes a number of a text. What
-- usage.lookup and request answer are events. argparse is a parameter, with what is documented of
-- it for a command line of one or two options as a hypothesis. JSON, the text of a file size, and
-- the arithmetic of the system loads, which are floating point numbers (Doubles in
-- Bench/Report/Loads), are parameters of the report.
--
-- Not modelled: what the forked processes of --cluster do beside one another; the servers in
-- other languages, which follow the same rules independently; test.js, which checks these rules
-- over HTTP with a third-party library; the texts of the help and of the messages in the console.
pub mod Common
pub mod Js
pub mod Server
pub mod Reporter
pub mod Bench
