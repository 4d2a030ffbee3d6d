-- ===== src/Lib.antt =====
-- A model of public-cpp-laravel, a C++ web framework after Laravel, and what is proved of it.
--
-- The program. A connection's bytes are read up to a whole request, which is parsed and goes to
-- `Kernel::handle`; it asks the router for the first route that answers and runs its handler inside
-- the global and the route's own middleware. Handlers use sessions (an in-memory store with a time to
-- live, behind a cookie, with a token against forged forms), authentication on top of them, signed
-- tokens, validation, static files, and a database connection with a job queue and a scheduler over
-- it. A WebSocket connection takes an accepted socket over, completes the handshake and exchanges
-- messages of frames.
--
-- Files and what they model:
--   Websocket/Frame.antt: include/websocket.hpp, with `encode_text`, `encode_binary`, `encode_close`,
--     `encode_pong`, `decode` and `parse_frame`. `parse_frame` is cut into `header`, `read_length`,
--     `read_body` and `read_payload`, in the order of the code. The lemmas stand in Websocket/Frame:
--     Wire (the wire format), Masking, RoundTrip, Encoders, Stream (partial buffers), Decode.
--     Websocket/Accept.antt is `base64` and `accept_key`, with Accept/Decoded.
--   Websocket/Connection.antt: `ws::Connection` of include/websocket_server.hpp. `next_frame` is the
--     inner loop of `receive`, `on_frame` the body of its outer loop, `receive_loop` the outer loop.
--     Lemmas: Chunks (how the network cuts the bytes), Progress (it returns), Client and Messages
--     (what it does for a client that keeps to RFC 6455). Websocket/Opening.antt is the constructor
--     and the settings, with Opening/Origins; Websocket/Terminal.antt is `run_terminal`, with
--     Terminal/Dialogue.
--   Server: src/http_server.cpp. Server/Reading.antt is `read_request`, Server/Request.antt
--     `parse_http_request`, Server/Response.antt the text of a response, Server/Client.antt
--     `handle_client`; lemmas in Reading/Whole, Reading/Bounds, Request/RoundTrip and Client/Served.
--   Http/Messages.antt and Http/Url.antt: include/http.hpp. Http/Pipeline.antt: include/pipeline.hpp
--     and src/pipeline.cpp. Http/Router.antt: include/router.hpp, include/router_contract.hpp and
--     src/router.cpp. Http/Kernel.antt: src/kernel.cpp and include/service_provider.hpp; the router
--     reaches the kernel through the record `RouterContract`. Lemmas: Url/RoundTrip, Pipeline/Order,
--     Router/Selection, Kernel/Outcomes.
--   Session/Store.antt: `ArraySessionStore` of include/session.hpp, with the lemmas
--     of Store/Laws, Store/Renaming and Store/Sweep. Session/Handle.antt: `csprng_hex` and the other
--     methods of `Session`. Session/Hash.antt: include/hash.hpp, with Hash/Verify, and
--     Session/Pbkdf2.antt: include/pbkdf2_hash.hpp, with Pbkdf2/Accepted.
--     Session/Auth.antt: include/auth.hpp and the login part of include/http_auth.hpp, with
--     Auth/Login. Session/Csrf.antt: the session cookie and the form token of include/http_auth.hpp,
--     with Csrf/Continues and Csrf/Verified.
--   Token.antt: include/token.hpp, `sign`, `verify` and the middleware; Token/Base64 its base64url,
--     Token/Json its extractors, Token/Payload the claims, Token/Verify what is accepted, with Verify/Hmac.
--     Token/Personal.antt: include/personal_access_token.hpp, with Personal/Issue.
--   Database/Value.antt: the values and rows of include/database.hpp. Database/Memory.antt:
--     `MemoryConnection` of src/database.cpp but its queries, which are Database/Select.antt, with
--     Memory/Claim, Memory/Rows, Select/Order and Select/Pages. Database/Queue.antt:
--     include/db_queue.hpp, with Queue/Workers, Queue/Attempts and Queue/Retries.
--     Database/Repository.antt: include/repository.hpp and include/relations.hpp, with
--     Repository/Hydrated, Pages and Relations. Database/Schema.antt and Database/Migration.antt:
--     include/schema.hpp and include/migration.hpp, with Migration/Rerun.
--   Queue.antt: include/queue.hpp, with Queue/Retried. Events.antt: include/events.hpp, with
--     Events/Deferred. Broadcast.antt: include/broadcast.hpp. Gate.antt: include/gate.hpp, with
--     Gate/Registered. Config.antt: include/config.hpp, with Config/EnvRoundTrip.
--   Scheduler.antt: include/scheduler.hpp, with Scheduler/Once.
--   Static.antt: include/static_files.hpp, with Static/Ranges (`parse_range`), Slice and
--     Resolve. Static/Mount.antt is `mount`, with Mount/Reached.
--   Validation.antt: include/validation.hpp, with Validation/Errors, Parts and Rules (what
--     the rules mean).
--   View.antt: include/view.hpp, with View/Search (indices) and View/Render (`render_impl`, cut into
--     its directives), and the lemmas of View/Escape, Positions, Template,
--     Shows and Unclosed.
--   Container.antt: include/container.hpp and include/container_contract.hpp, with
--     Container/Balance, Once and Ranked (bindings without cycles).
--   Cache.antt: include/cache.hpp, with Cache/Laws. Cache/Throttle.antt: the rate limiter `throttle`
--     of include/http_auth.hpp over that cache, with Throttle/Window.
--   Prelude.antt and Prelude: names, tests, texts, bits, maps and integers that the others share.
--   Tests.antt and Tests: concrete inputs.
--
-- Conventions. A `std::string` is the list of its bytes; a map is an association list; machine words
-- keep their wrap-around at 2 ^ 64, and signed 64-bit integers are unbounded, since their overflow is
-- undefined. A `double` is a number: NaN is left out. An exception is a value of the result (`none`,
-- `threw`, `exception`). A method that holds a mutex for its whole body is one step on
-- the state. The clock, the random salts, tokens and session ids are arguments. `std::regex`, the
-- number conversions of the C++ library, `double`, SHA-1, SHA-256, PBKDF2, `std::filesystem` and the
-- local time are parameters.
--
-- Bounds. `receive` runs on fuel, one round for each byte that it may still read and one more; each
-- round takes at least two bytes. The limit on a message is taken to leave room for a frame's header
-- below 2 ^ 63, the most that a string holds; the code's default is one mebibyte. The rate limiter's
-- count is an `int`, so a window is followed for fewer than 2 ^ 31 requests. The loop over the items
-- of a list in JSON has fuel for each byte between the brackets, of which every round takes one at
-- least. Resolving from the container has fuel for the calls that are open at once, of which a type
-- needs as many as its rank and one. A template is rendered on fuel for the rounds of a loop and for
-- the depth of the recursion.
--
-- Not modelled: the sockets and threads of the server and the WebSocket hub, SQLite, mail, the livewire
-- components, the facade, and the code generators, examples and bindings. The handlers, tasks,
-- migrations, models, factories and listeners of an application are parameters.
mod Prelude
pub mod Validation
pub mod Websocket
pub mod Http
pub mod Session
pub mod Database
pub mod Container
pub mod Cache
pub mod Server
pub mod Scheduler
pub mod Static
pub mod View
pub mod Queue
pub mod Events
pub mod Config
pub mod Gate
pub mod Broadcast
pub mod Token
mod Tests
