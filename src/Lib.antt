-- ===== src/Lib.antt =====
-- The backend of tldr-tv (backend/src), as far as requests, accounts, sessions, quotas and billing go.
--
-- A request reaches `handle` of backend/src/routes.rs, which dispatches it to one handler. A handler
-- checks the session (a signed token in a cookie), for a change also the CSRF token, reads and writes
-- the SQLite tables through the pool of backend/src/db.rs, asks the Stripe worker, and answers a JSON
-- value. Three in-memory stores of backend/src/stores.rs stand beside the tables: CSRF tokens, failed
-- sign-ins, and request times per address. A background thread sweeps them.
--
-- Prelude holds what the modules share: tests, lists, texts, signed integers, and `Exec`, code that
-- changes a state and may stop early.
-- HashMap stands for `HashMap`: an association list with distinct keys (`IsMap`).
-- Stores, Stores/Csrf, Stores/Lockout, Stores/RateLimit and Stores/Eviction are
-- backend/src/stores.rs: a store is its map, a method a function from map to map, and the clock an
-- argument. Stores/Eviction has the heap that selects the oldest entries.
-- Validation is backend/src/validation.rs.
-- Article is the test of backend/src/article.rs that a URL is public.
-- Json is the value type of backend/src/json.rs with its accessors, Json/Parser with Json/Parser/Scan
-- its parser, Json/Print its serializer; Json/Float is `f64` and Json/Decimal its decimal text, both of
-- the standard library. The parser's state is the input that is left.
-- Crypto, Crypto/Base64 and Crypto/Sha256 are backend/src/crypto.rs: machine words are numbers below
-- 2 ^ 32, and a hasher is a record with its buffer.
-- Auth is backend/src/auth.rs: signed session tokens.
-- Stripe and Stripe/Retry are backend/src/stripe.rs: the check of webhook signatures, the form encoding,
-- the retries and the circuit breaker. The replies of the network are a list, a request takes no time, and
-- the circuit breaker is private to the call.
-- Http has the requests, responses and cookies of backend/src/http.rs, Http/Percent its percent encoding
-- with the lossy UTF-8 decoder of the standard library, and Http/Wire the cookies, query parameters and
-- request targets as they are read and written. Http/Reader reads a request from a connection: the bytes
-- that will still come, and whether the peer then closes, waits or fails. Http/Writer writes a response,
-- or a file that grows while it is sent, given what each poll of the file sees.
-- Http/Connection is the loop over the requests of a connection.
-- Kdf is backend/src/kdf.rs: stored password hashes, with PBKDF2 and scrypt in Kdf/Scrypt.
-- Environment is backend/src/config.rs: `Env` is the process environment, and `Dir` the .env files of the
-- backend directory with how their changes end. A path may be absent,
-- a link, a directory, unreadable or a file.
-- StripeWorker is backend/src/stripe_worker.rs: the job queue, two threads, deadlines, replies and lost
-- channels as one state; a thread tests a deadline and begins its call at one instant, and may die in
-- the call. StripeWorker/Steps lets callers, threads, the client and the clock take steps in any order.
-- Db, Db/Statements and Db/Pool are the account, usage and webhook operations of backend/src/db.rs.
-- The tables are lists of rows; a list of faults says which statements the driver fails. A
-- transaction puts back the tables that it found.
-- Routes and its children are backend/src/routes.rs: `App` is the fixed part of `AppState`
-- (backend/src/state.rs) with the environment, `World` what a request may change, and a handler a
-- function of both. Routes/Session, Routes/Account, Routes/Signin, Routes/Profile, Routes/Usage,
-- Routes/Billing, Routes/Webhook and Routes/Dispatch have the handlers.
--
-- The other files prove what is stated below. The loops of the heap run on fuel: a sift-up from
-- index i has i rounds, since each round lowers the index, and a sift-down has as many rounds as the
-- heap has entries, since each raises it. Decimal digits and bit counts run on a bound of their own
-- input. The JSON parser has four units of fuel for a byte and four more: a call or a round takes one,
-- and at most three come between two bytes. The hasher's loop has as many rounds as bytes, of which
-- each takes 64. A call to Stripe counts its retries down from four. PBKDF2 has a round for each byte
-- of the key at most, and reading a request has a unit for each byte and one more, of which a line or
-- a chunk takes one. The placeholders of a configuration text have a round for each character.
--
-- Interfaces: the routes take the JSON parser, the tokens of backend/src/auth.rs and the check of
-- webhook signatures of backend/src/stripe.rs (all three modelled apart, as are the look-up of a
-- cookie and the passwords of backend/src/kdf.rs), the calls to Stripe through backend/src/stripe_worker.rs and Unicode
-- lower-casing as fields of `App`. The clock stands still while a request is served.
--
-- Not modelled: logging, which changes no state; the accept loop, the static files and
-- the dates of backend/src/http.rs; the logger and the dates of backend/src/config.rs; the
-- verifier of bcrypt hashes in backend/src/kdf.rs, which is a port of another project and a parameter
-- of Kdf; the foreign-function layers to SQLite and libcurl;
-- the typed calls and the mock of backend/src/stripe.rs; the blocking of the connection
-- pool; the guides and media of backend/src/guides.rs and backend/src/guide_ai.rs, and the rest of
-- backend/src/article.rs; i64 overflow in the difference of limit and usage, which the stored counts
-- do not reach.

mod Prelude
pub mod HashMap
pub mod Stores
pub mod Validation
pub mod Json
pub mod Db
pub mod Crypto
pub mod Http
pub mod Auth
pub mod Stripe
pub mod Kdf
pub mod StripeWorker
pub mod Environment
pub mod Routes
pub mod Article
