-- ===== src/Lib.antt =====
-- A model of the taxi service: a C++ program on userver that keeps users, drivers and rides in
-- PostgreSQL and serves them over HTTP.
--
-- The parts, from the bottom up:
--   Models       src/models/*.hpp: the structs that the storage returns.
--   Database     schema.sql and the SQL statements of src/storage/taxi_storage.cpp. A table is a list
--                of rows with the newest first and the next value of its identity column (Rows); a
--                statement is a function on the tables (Users, Drivers, Rides), with the constraints of
--                the schema as exceptions. Invariant says when the tables are well-formed.
--   Storage      src/storage/taxi_storage.cpp, the class TaxiStorage. CreateUser is create_user, and
--                so on for each method. A method that may throw returns `ok` or `throws` with the state
--                it leaves. AcceptRide and CompleteRide run in a transaction, which is rolled back
--                unless a row comes back. Login and IsTokenValid use tokens_ and next_token_id_, a map
--                and an `int` that wraps around.
--   Performance  src/performance/simple_performance.hpp: ResponseCache (Cache) and
--                FixedWindowRateLimiter (Limiter). The clocks are arguments.
--   Http         what the handlers use of userver: requests, responses, JSON, and the state that all
--                handlers share.
--   Handlers     src/handlers/*.cpp: HandleRequestThrow of the eight handlers that use TaxiStorage.
--   Mongo        src/handlers/mongo_users_*.cpp: the two handlers that keep users in MongoDB, over a
--                collection that is a parameter (Create, Get).
--   Middlewares  src/middlewares/auth_middleware.cpp: AuthMiddleware::HandleRequest around the next
--                handler.
--   Service      configs/static_config.yaml and src/main.cpp: a request of a route goes through the
--                middleware to the handler, one request at a time. userver chooses the handler by
--                method and path; here a request may go to any handler, and theorems hold for each.
--   Concurrent   the same requests as tasks, several at once: a request accesses the server one lock or
--                one statement at a time (Task, Writers, Readers, Requests), and World has the requests
--                that are going on, which arrive and take turns in any order. Alone compares a task
--                that nothing interrupts with the handler of Handlers, Accesses counts the accesses,
--                Everywhere lists the calls that handlers make, History keeps the databases that there
--                were, and Tokens, Logins and Rides follow the tokens, the users and the rides.
--   Components   src/main.cpp, src/storage/taxi_storage_component.cpp, the constructors and schemas of
--                src/handlers/*.cpp and configs/static_config.yaml: the components, what each finds,
--                and how userver builds them (Own, Config, Start, Rounds,
--                Completes).
--   Base         tests, integers, exceptions, maps, ordering and decimal numbers that these share.
--   Tests        the theorems at concrete inputs.
--
-- A request goes through the middleware to a handler; the handler asks the storage, and reads, writes
-- or invalidates the cache; the storage runs one statement. In Service a request is one step. In
-- Concurrent other requests may come between two of its accesses; the server is all that requests
-- share, and each has its own response.
--
-- Parameters: userver's JSON (parse, members, print) and SQL's `lower` are fields of `Userver`, of
-- which nothing is assumed; so are MongoDB's collection and JSON in `MongoLibrary`. The schemas of
-- userver's base classes, and what their constructors find, are fields of `Bases`. The next handler
-- of the middleware is an argument, and so are all clocks; the readings of a request's clocks are
-- free of the order in which requests take turns. `Double` is an argument of hit_rate.
--
-- Numbers: an SQL INTEGER and a C++ `int` are integers, with the bound where the code can reach it:
-- identity columns end at 2147483647, next_token_id_ wraps around, the counters of the cache are
-- kept modulo 2^64, and std::stoi refuses what an `int` does not hold. The counts of the rate
-- limiter stay at or below the limit and need no bound; the limit is not negative and no time is
-- before the epoch, as for its only caller, rides_get.cpp. Printing a number (Base/Decimal) runs on
-- fuel, one more than the number: each step drops a digit, so the fuel does not run out. All other
-- recursion is structural.
--
-- Not modelled: userver's own components; indexes; network and pool failures of the database; text
-- that PostgreSQL refuses (a NUL, bytes that are not UTF-8); the Python event service; the MongoDB
-- handlers under interleaving. Statements, transactions and methods that hold a mutex are atomic
-- steps. A violation of several constraints at once gives the first in the order of the model. One
-- PostgreSQL host is configured (configs/config_vars*.yaml, dbconnection), so a read of kSlave sees
-- what kMaster has written; a replica that lags is not modelled.
pub mod Base
pub mod Models
pub mod Database
pub mod Storage
pub mod Performance
pub mod Http
pub mod Handlers
pub mod Middlewares
pub mod Service
pub mod Components
pub mod Concurrent
pub mod Mongo
mod Tests
