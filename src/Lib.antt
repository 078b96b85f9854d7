-- ===== src/Lib.antt =====
-- shamichan: an imageboard, with a server in Rust and a client in Rust compiled for the browser.
--
-- The client and the server speak through websockets in binary streams of messages. A message has a
-- type and a payload; streams are compressed and may be joined into vectors. The server keeps a
-- registry of its clients, which tells the feeds of the threads and of the thread index whom to send
-- to; the sets of clients are handed out as versioned snapshots, and encoded messages are cached.
-- The feeds are actors that a scheduler runs on a thread pool, one batch of messages at a time.
-- Post bodies are trees that a parser makes of the text, and an edit of an open post travels as a
-- patch between two trees. The client keeps one connection, defers what can not be sent yet, mirrors
-- the posts it is told of in the state of the app, and sends the edits of the one post that its form
-- holds; it shows timestamps relative to now and schedules when each is to be shown anew.
--
-- Files and the code they are about:
--   Prelude      shared names, Boolean tests, lists, and equality of keys
--   PostBody     common/src/payloads/post_body.rs: Node::diff and Node::patch (Diff), TextPatch
--                (Text), and Node += (Append)
--   Codec        common/src/codec.rs and common/src/message_types.rs: Escaper and Encoder (Encoder),
--                MessageSplitter (Splitter), Decoder (Decoder), MessageType (MessageType); the
--                theorems on whole streams are in Chunks, those on vectors in Vector
--   Collections  common/src/util.rs: SetMap and DoubleSetMap, over HashMap and HashSet of the
--                standard library as lists
--   Server       server/src/util.rs: SnapshotSource (Snapshot), MessageCacher (MessageCacher);
--                server/src/registry.rs: the handlers of Registry (Registry);
--                server/src/mt_context.rs: the actor scheduler and its task (MtContext)
--                server/src/client/message_handler.rs: the messages of a client, their order (Messages),
--                the handshake, the posts and their closing (Client);
--                server/src/body/links.rs: the cache of post locations (Locations);
--                server/src/body: the parser of post bodies (Body: Commands, Links, Fragment with
--                urls.rs, Formatting)
--   Decimal      decimal numbers as they are printed and parsed
--   Payloads     common/src/payloads/mod.rs: posts, threads and requests
--   Feeds        server/src/feeds: the cached pages and threads (Bundle, of thread/page.rs and
--                index/threads.rs), the writer of a thread (Writer, of thread/writer.rs; Last5, of
--                thread/last_5.rs), the index feed (Index, of index/mod.rs) and the thread feed
--                (Thread, of thread/mod.rs); server/src/body/persist_open.rs: BodyFlusher
--                (BodyFlusher)
--   Timer        client/src/time: queue.rs (Queue), scheduler.rs (RelativeTime, Scheduler)
--   Client       client/src: the paths of locations (Location, of state/location.rs), the state of the
--                app and its agent (State, of state/state.rs and state/agent.rs), the websocket
--                connection (Connection, of connection.rs), the agent of the post form (Posting, of
--                post/posting.rs) and the form itself (Posting.Form)
--   Examples     the theorems at concrete inputs
--
-- Correspondence. A struct is a record and an enum a data type with the source's names. A method
-- that changes its receiver returns the receiver after the call; a handler of an actor also returns
-- what it sends. An address is a number, a character its code point, a byte its value, and a String
-- its list of characters. Fixed-width integers are natural numbers with the wrap-around of `as`
-- written out; a signed number is an integer, or in the codec its bit pattern.
--
-- Parameters. The deflate library is a pair of functions, `deflate` and `inflate`; what is relied on
-- is that inflating gives back what was deflated, in some chunks. bincode enters as the pieces that
-- a serializer writes and as a function that deserializes bytes. The clock, the global state of the
-- client and the addresses of started feeds are arguments. Of an actor that the scheduler runs, the
-- handling of a message enters by its outcome: the actor goes on, stops or terminates. The handlers of
-- the feeds and of a client's messages have an environment: the answers of the database and of the
-- registry, the encoders, the parser of bodies, the signatures and the random numbers, each a
-- function, with none where the code returns an error. The parser of bodies has one too: the known
-- locations of posts, the configured links, the URLs, the patterns of embeds and the highlighter. The
-- client's agents meet the browser and the state of the app as an argument of each turn.
--
-- Fuel. The splitter has a round for each byte, and the escaper too; the decoder has one for each
-- byte and one more, since each element of a vector takes at least its four length bytes. The
-- scheduler's loop has one round for each tick that is due and one more. The formatting tags take
-- five rounds for each character and one for each level that is left. The fuel is proved enough
-- where a theorem speaks of the result.
--
-- Not modelled: the views of the client, the database, the configuration, the web server, the image
-- service and the unported Go code, which are I/O over libraries. The feeds and the handler of a
-- client take the parser of post bodies as a function.
-- That the registry answers a feed's pulse with an error, and that the connection loses an edit of the
-- open post while it is down, are not modelled either.
pub mod Prelude
pub mod PostBody
pub mod Codec
pub mod Collections
pub mod Server
pub mod Timer
pub mod Payloads
pub mod Feeds
pub mod Decimal
pub mod Client
pub mod Examples
