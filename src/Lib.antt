-- ===== src/Lib.antt =====
-- The feeds service: channels with posts, comments and likes, which one owner publishes and which
-- users subscribe to, over the Carrier network.
--
-- The program. src/feeds.c holds the service's tables in memory (channels by id and by name, the
-- active subscribers, the nodes that notifications go to) and a handler per request. A handler
-- checks the DID module and the access token, then its own conditions; it makes the calls of
-- src/db.cpp, each one SQLite transaction, changes the tables, enqueues notifications for the nodes
-- of the channel's active subscribers (or of the owner) and last the response. src/obj.h has the
-- objects that pass between them, and src/cmdhandler/LegacyMethod.cpp the table of handlers.
-- src/msgq.cpp hands the messages to a peer to the transport one at a time, the next when a receipt
-- for the last has come. src/massdata carries binary messages over a stream session to a peer:
-- SessionParser.cpp frames a head and a body and finds them again in the chunks that come in.
--
-- The files.
--   Obj: src/obj.h and the error codes of src/err.h.
--   Db: src/db.cpp. Db/Tables has the tables as lists of rows, and one record of them all;
--     Db/Channels, Db/Posts and Db/Comments have one function for each C function, by its name.
--     Db/Frames says what a write leaves alone, Db/Lookup how a write changes a lookup, and
--     Db/RoundTrips which writes take each other back.
--   Feeds: src/feeds.c. Feeds/State has the tables, the messages and the notification loops;
--     Feeds/Channels, Posts, Comments, Likes and Subscriptions have one function for each handler
--     hdl_..._req, by its name, as a do block over the results ret (a response), quit (the bare
--     return), fail (goto finally with an error) and abort; Feeds/Init has feeds_init.
--     Feeds/Dispatch has the table of handlers, and runs of requests, departures of peers and
--     broadcasts of statistics.
--   Feeds/Rules: for each handler, when it keeps a predicate of the state: what has been tested at
--     the place where it writes. Feeds/Outbox: what the notification loops append.
--   Feeds/Sync: the channels in memory against those of the database.
--   Feeds/Transactions: the database alone: each event is one transaction at most, and the
--     invariants that follow.
--   Feeds/Requests: who may ask for what, and who is told.
--   Msgq: src/msgq.cpp. Msgq/Defs has one function for each C function, by its name, and runs of
--     calls and receipts; Msgq/Invariant what links the table, the queue objects and the receipts;
--     Msgq/Spec the queue of a peer from outside, Msgq/Fifo its order, Msgq/Drain its progress.
--   Session: src/massdata. Session/Defs has the parser (unpack, unpack_protocol for unpackProtocol,
--     unpack_body_data for unpackBodyData) and receive for onReceivedData, Session/Sender what is
--     written for a message; Session/Frames the bytes of a message, Session/Expects and Receiver
--     the parser on such bytes, Session/Faults and Rejected the parser on headers that go wrong,
--     Session/Rounds and Ends that its loop ends.
--   Db/Listings: the queries db_iter_chans, db_iter_posts and db_iter_cmts of src/db.cpp, and
--     Db/Listed which rows they list; Db/Shown what a list of posts may show, apart from the code.
--     Feeds/Reads: hdl_get_my_chans_req, hdl_get_chans_req, hdl_get_posts_req and hdl_get_cmts_req
--     of src/feeds.c, Feeds/Reads/Pages the loop that splits rows into responses.
--   Rpc: src/rpc.c. Rpc/Objects has the objects of MessagePack and the ways to read a field
--     (map_nxt_val for map_nxt_val_str and the others), Rpc/Unmarshal one function for each C
--     function unmarshal_..._req, by its name, as a do block of its reads in their order,
--     Rpc/Parsers the two tables and rpc_unmarshal_req. Rpc/Valid says what a request may be
--     relied on for, and Rpc/Sound and Rpc/Tables that each row of the tables ensures it;
--     Rpc/Encoded is the encoding of a request, and how each function reads it. Rpc/Requested,
--     RoundTrip and Faults have the theorems on all messages. Rpc/Marshal has one function for
--     each rpc_marshal_..._notif and rpc_marshal_..._resp that the requests that write use, by
--     its name; Marshal/Objects says which tokens are an object, Marshal/Messages which messages
--     are marshalled into one, and Marshal/Posts and Unblocked what that means for the handlers.
--   Prelude: names of the library, Boolean tests, 64-bit counters, tables of rows, slices of lists.
--   Tests: a small service, and each theorem on it.
--
-- How the code is modelled.
--   A table of a database or of memory is a list of rows with a key among their fields; the order
--   in which rows or entries come is not modelled. A pointer from a table into another is the key
--   of the object that it points to. The list `aspcs` of a channel is shared by the old and the new
--   object of an update.
--   A call of the database carries its transaction out or fails and changes nothing: which, is a
--   parameter for each call (Env.db_ok), so that the theorems hold whichever calls fail. UNIQUE,
--   PRIMARY KEY and AUTOINCREMENT are modelled; foreign keys are not enforced, since the code does
--   not turn them on. A failure to allocate memory and to marshal a message are parameters too.
--   Integers of 64 bits are natural numbers, and counters wrap at 2^64 (inc64, dec64); SQLite's
--   change to floating point beyond 2^63 is not modelled. A null string is "", but for the
--   reasons of a report. One request reads the clock once, and its statements once.
--   The check of an access token (src/auth.c, over a JWT library) is a function from the token to
--   its user. What uninitialised memory holds, where the code reads it, is a parameter.
--   The one recursion on a budget is the loop of feeds_init: a budget of as many rounds as there
--   are rows is enough, and a smaller one stands for an iteration that ends early.
--
--   A queue object is known by a number that is never used again, since a send that awaits its
--   receipt holds on to the object after it has left the table. A receipt comes only where a send
--   that the transport has taken awaits one; its state is not looked at, as in the code. One call
--   runs at a time: the calls between threads, which the code does not guard, are not modelled.
--   The order in which SQLite gives the rows of a listing is a parameter, with the property that it
--   has the rows it is given and no others. A listing is prepared and stepped through as a whole,
--   or fails. MAX_CONTENT_LEN depends on a header of Carrier and is a parameter.
--   Bytes are numbers, and a chunk of a session has fewer than 2^31 of them. Of the file that
--   collects a body its bytes are kept. The loop of unpack runs on fuel of the chunk's length and
--   two, and that of sendData on the length of its data, since each slice takes a byte or more. The
--   size of a stream that sendData sends is kept in 32 bits with a sign, as in the code; its index,
--   which overflows above 2^31 - 2048 bytes, is not modelled there.
--
--   A message is the object that the MessagePack library decodes from it; a message that it
--   cannot decode is answered like one that is no map. A string has no zero byte. The memory of a
--   request is allocated or not as a parameter says; how the strings are laid out in it is not
--   modelled. A null pointer that is followed and a write past the end of an array are results of
--   their own. A message is marshalled into a list of tokens, one for each call that packs
--   something; of its strings only the reasons of a report may be a null pointer.
--
-- Not modelled: the other requests that only read (get_...) and their listings in src/db.cpp, the
-- migrations of db_init, the marshalling of their responses and of those on accounts, sign-in and
-- binary data, and the unmarshalling of notifications, which nothing calls (src/rpc.c), sign-in
-- and DIDs (src/auth.c, src/did.c; of db_upsert_user, which they call, only the function itself),
-- configuration, the process and its callbacks (src/main.cpp), the life cycle of the sessions and
-- what is done with their messages (src/massdata), the second generation of command handlers
-- (src/cmdhandler), the release of memory, and libraries under deps.
pub mod Prelude
pub mod Obj
pub mod Db
pub mod Feeds
pub mod Msgq
pub mod Rpc
pub mod Session
pub mod Tests
