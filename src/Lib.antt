-- ===== src/Lib.antt =====
-- fion: an HTTP server library in C++ (headers/, sources/).
--
-- The parts and how they interact. `Server` accepts connections and hands each descriptor to the
-- `PoolManager`, which gives it to the next `Pool`. A pool owns the `Client`s of its
-- `ConnectionPool` and watches their descriptors with its `Poller`. On a read event the client
-- appends the bytes to its request `Buffer`; when the request is complete, the pool cuts it into a
-- start line, fields and a body, makes a `Request` of them, asks the `Router` for a handler, and
-- sends the `Response` before it closes the connection.
--
-- Which file models what (each names the code at its top):
--   Prelude           tests, lists, outcomes of code that throws, the values of `int`
--   Text              std::string as a list of bytes: find, substr, getline, stoi, stoull
--   Dict              std::map<std::string, T> as a list in the order of the keys
--   Http/Version, Method, Status, Headers, Url, Request, Response
--                     headers/http and sources/http, one module for a class
--   Routing           headers/Handler.hpp, Route.hpp, Router.hpp; sources/Route.cpp, Router.cpp
--   Network/Buffer, Client, ConnectionPool, Pool, EventLoop, Poller, Listener, PoolManager,
--   Network/ThreadPool, Server, Ownership (the moves of three classes)
--                     headers/network and sources/network, one module for a class; the two
--                     versions of the poller are Poller/Epoll and Poller/Kqueue, and the thread of
--                     a pool is Pool/Lifecycle
--   Logging           headers/logging and sources/logging
--   Application       headers/Application.hpp and sources/Application.cpp
--   Examples          examples/simple_application/sources/main.cpp
--   Tests             concrete runs, and the theorems at them
-- Below a module stand its theorems, in modules named for what they prove. State is a record, an
-- operation is a function from a state to a state, and what the code mutates is what the function
-- returns. Names are those of the code, in snake case (`parseFromRaw` is `parse_from_raw`).
--
-- Numbers. `size_t` is a natural number where the code cannot wrap; the count of the fields' text in
-- `process_request`, which wraps for a request without fields, and `stoull` are modulo 2^64; `stoi`
-- has the range of a 32-bit `int`, and a port is cast to 16 bits. The only fuel is that of
-- `splitPath`: the length of the path and one more, which Routing/Split shows to be enough.
--
-- Exceptions are values of `Result`, with the classes that the code throws or lets through.
--
-- Parameters. The matcher of `std::regex`, the handlers and the middleware of the application, and the
-- answers of `recv`, `send`, `epoll_wait` and the calls on the listening socket are arguments of the
-- definitions that use them. `epoll_ctl` and `kevent` are parameters of the poller with what their
-- manuals say as hypotheses, which Tests/Polling fulfils by small kernels. A handler returns a response
-- or throws an exception of `std::exception`; a null response is outside the model.
--
-- Threads. What a mutex guards is one step. `ThreadPool` has a step relation in which the calls from
-- outside and the turns of its workers come in any order; its tasks are names, and they end. The
-- thread of a pool and the thread that starts and stops it are a step relation too. What the accept
-- thread and the loop of a pool read from their flags are arguments. The accept thread adds clients to
-- a pool while the thread of the pool handles events; in the model these are whole steps.
--
-- Abstract specifications. Http/Headers/Refines has the map from names to values that the fields are;
-- Network/Pool/Isolation the machine of one connection, which knows of no other; and
-- Network/Poller/Epoll/Interest relates the poller over a kernel to the set of watched descriptors
-- that the model of the pool keeps.
--
-- Not modelled: the calls of the logger; the waiting loop of `Application::run` and the signal handlers
-- of the example, which only call `stop`; examples/readme_test.cpp, whose handler and routes are among
-- those of the other example.
pub mod Prelude
pub mod Text
pub mod Dict
pub mod Http
pub mod Routing
pub mod Network
pub mod Logging
pub mod Application
pub mod Examples
pub mod Tests
