-- ===== src/Lib.antt =====
-- mosquitto-rs: an asynchronous MQTT client over the C library libmosquitto.
--
-- The program has three layers. `Mosq` (mosquitto-rs/src/lowlevel.rs) wraps a handle of the C
-- library: a method converts its arguments, calls C and turns the result code into an `Error`
-- (mosquitto-rs/src/error.rs). `Client` (mosquitto-rs/src/client.rs) owns a `Mosq` and a `Handler`
-- that it shares with the callbacks: a request registers a sender under the id that C gave it, a
-- callback hands the broker's answer to that sender, and events go to one unbounded channel.
-- `MqttRouter` (mosquitto-rs/src/router.rs) subscribes to the topic of a route and dispatches
-- messages to handlers, whose arguments extractors take from the message. The build script
-- (libmosquitto-sys/build.rs) compiles the C library or links an installed one.
--
-- Files:
-- - Base: shared names, lists, results, the integers of C (`to_c_int` is `try_into::<c_int>`,
--   `as_u32` the cast) and their decimal texts, and UTF-8 as `str::from_utf8` and
--   `to_string_lossy` read it. Texts are lists of code points, byte strings lists of bytes.
-- - Sys: libmosquitto-sys/src/lib.rs. Codes holds its enumerations and constants; Library is the C
--   library as a parameter, a record of the functions that are called over a state `World`. A
--   function that is registered with it is a name, a `Trampoline`.
-- - Channel: the crate `async-channel` as a parameter (`Channel`), with its documented behaviour
--   (`Documented`): a send is taken if a receiver is left and there is room, a receive gives the
--   oldest item, or says that the channel is empty, or that it is empty and its sender gone. A
--   sender here is the only one of its channel, as in the client.
-- - Error: `Error::from_err` and `Error::result`, with the map `ERRMAP` as a list of entries (Codes),
--   and the texts of errors (Text, Told).
-- - Lowlevel: lowlevel.rs. Status (ids, codes, `QoS`), Strings (`CString`, durations), Io (a
--   method takes the state of the process and returns a result with the new one; `?` is the
--   monad's bind), Mosq (constructors, `Drop`, registration of callbacks), Network and Options
--   (the methods), Callbacks (the functions that C calls, and `bridge_logs`), Calls (when a method
--   calls C at all), Init (`INIT`), Registration (the functions that C is given), Version (the text
--   of a version). Guarded is the C library with guards on its arguments; with
--   Arguments, Agreement and Bounds it says what a method may hand to C.
-- - Client: client.rs. Data and State (messages, events, `Handler`; a `State` is the handler with
--   the process and the stores of channels), Callbacks (`impl Callbacks for Handler`), Requests
--   (the asynchronous methods: what each does up to its `await`, and its poll), Setup
--   (constructors and setters). Futures specifies the futures by three phases; Runs is the
--   relation of all steps; Acknowledge, Assign, Elsewhere and Keeps say what single steps do to a
--   future, Progress and Invariant what runs do. Incoming specifies the stream of events, Stream
--   and Ended are about it, Delivery puts the trampolines of Callbacks in front of it, Registered
--   the constructor that registers them, Settings is about `set_option`, Start about the
--   constructors. Connect is about `connect`
--   and the callback that answers it; Connecting specifies its future, Unmoved, Connected and
--   Outcome show that the program follows that, Slot is about the sender in the handler,
--   Reconnect about `connect` after the end of the stream. Debug is
--   the text of a message that `{:?}` prints, Printed says that it identifies the message.
-- - Router: router.rs. Topic (`route_to_topic`), Levels and Matching (routes and subscriptions
--   level by level, the broker's by the rules of MQTT 3.1.1), Request and Extract (extractors and handlers of any number of arguments, of
--   which the source's macro makes those of 1 to 16), Deserialize (`parse_deser`), Dispatch,
--   Handling, Subscribing, Table, Params and Routing (`MqttRouter` with any number of routes, and what
--   they subscribe to; `matchit` is the parameter `Matchit`, `serde_json` and `anyhow` the parameter
--   `Crates`).
-- - BuildScript: libmosquitto-sys/build.rs. Cargo (environment, and the calls of the crate `cc` and
--   printed lines as a list of actions), Vendored and System (the two `main` functions, by
--   feature), Texts (searches in texts), Linking and Installed (what the scripts ask for).
-- - Examples: mosquitto-rs/examples/publish.rs. Publish (its callbacks and `main`) and Counting
--   (what it counts). mosquitto-rs/examples/publish_async.rs:
--   Async (its future, one function for each part between two awaits) with Rounds (the turns of the
--   C library's thread and of the polls, and the specifications), Streams, Stages, Answers,
--   Invariant and Advance (one round), Finishing (whole runs).
-- - Tests: concrete parameters that meet the hypotheses, and the theorems at concrete inputs.
--
-- Loops are structural recursion. The decoder of UTF-8 runs on fuel, the number of bytes, and
-- takes at least one byte in each round. A `c_int` is a `ℤ` that C's functions are handed only in
-- its range; 64-bit sizes and durations are natural numbers.
--
-- Steps are atomic where the code holds a lock: a request and a callback both lock `mids`, so none
-- comes between the call of C and the entry in the map. `connect` gives its lock back before it calls
-- C, and is one step all the same: that a connection is reported between the two is not modelled.
-- The functions that C calls make a client of the handle and forget it (`mem::forget`); what a `Drop`
-- of it would do is not modelled. Nor are: which route is preferred if several match, a callback that C makes from
-- inside a call that the same callback makes (the code drops such a call's result), the memory
-- behind pointers, Windows as the host, the texts of `RouterError`, `{:#?}`, the
-- generated declarations, the crate root, which passes names on, and the integration test,
-- which repeats the asynchronous example on a server of the environment.
pub mod Base
pub mod Sys
pub mod Error
pub mod Lowlevel
pub mod Channel
pub mod Client
pub mod Router
pub mod BuildScript
pub mod Examples
pub mod Tests
