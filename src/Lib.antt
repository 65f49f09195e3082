-- ===== src/Lib.antt =====
-- Mini-IM, the server of a desktop messenger: the Python code under server/.
--
-- A client talks to the server in frames (server/protocol/codec.py), each an envelope with one
-- request. The services (server/services) answer requests. They keep all their state in SQLite
-- tables (server/storage/sqlite/schema.sql) behind repositories (server/storage/repo). Each write
-- appends to the streams of sync events, one stream for each user, which clients read in pages and
-- confirm; a write goes through the durable requests of control_write_repo.py, so that a client
-- may send it again.
--
-- Where the parts are modelled:
--   Prelude, Text              Booleans, lists and the methods of `str`
--   Protocol                   the messages of proto/ that are built or stored
--   Codec                      server/protocol/codec.py
--   Storage.Db, Storage.Sql    the tables of schema.sql, ordering and nullable columns
--   Storage.SyncEvent          server/storage/repo/sync_event.py
--   Storage.ReadState          server/storage/repo/read_state.py
--   Storage.MessageIntent      server/storage/repo/message_intent.py
--   Storage.MessageRepo        server/storage/repo/message_repo.py
--   Storage.ControlWrite       server/storage/repo/control_write_repo.py
--   Storage.ConversationRepo   server/storage/repo/conversation_repo.py
--   Storage.DeliveryRepo       server/storage/repo/delivery_repo.py
--   Storage.SyncRepo           server/storage/repo/sync_repo.py
--   Storage.FileRepo           server/storage/repo/file_repo.py
--   Storage.WriteQueue         server/storage/sqlite/write_queue.py
--   Storage.Transaction        server/storage/sqlite/db.py (`transaction`)
--   Services                   server/services: auth, message, delivery, conversation, control,
--                              sync and file (service.py)
--   Quic.Upload                server/quic/upload.py, over the dictionaries of Quic.Dict
--   Quic.Download              server/quic/download.py
--   Quic.Hub                   server/quic/server.py (`OnlineSessionHub`)
--   Quic.Receive               server/quic/server.py (the upload streams of `MiniImQuicProtocol`)
-- Below a module with definitions, the modules with other names hold proofs. `Examples` holds
-- tests, and the theorems at inputs that meet their hypotheses.
--
-- State. A `Db` is one record with the list of rows of each table, the latest insert first. An
-- operation takes the state and returns its result with the new state; an SQL statement is a
-- filter, an update of the rows that a test picks, or an insert, and ORDER BY is a sort. A column
-- that may be NULL is an option. `issued` counts the identifiers that were drawn, and is not a
-- table: a transaction that raises gives the tables of the state before it, but does not take
-- identifiers back. An exception is a value of the result. What `transaction` does for it, nested
-- ones included, is modelled over tables of any type. The constraints that the schema adds to what
-- the statements test (foreign keys, primary keys of drawn identifiers) are not modelled.
--
-- Files. The store of files is a function from paths to contents. A write of a chunk may fail
-- after any number of bytes; the environment chooses. The read of a download sees the files
-- of its moment, or fails. Leases of uploads are objects that two dictionaries share: they stand in
-- a store under addresses, which `is` compares.
--
-- Time. A reading of the clock is an argument.
--
-- Parameters. What the server calls and does not implement is a field of `Env` or an argument:
-- uuid4, SHA-256, SHA-1, JSON, pathlib, `str.lower`, `bytes.decode`, the protobuf encoding of
-- requests, and the decimal digits of a number. The connection of aioquic is a type with the calls
-- the server makes. The payload column of a sync event holds the message that it encodes.
--
-- Numbers. The integers are unsigned on the wire or never negative, so they are natural numbers;
-- what the code does with a cursor outside a column's range or a size outside four bytes is
-- written out.
--
-- Concurrency. All writes run on one event loop through the queue of write_queue.py. Its runs are
-- sequences of steps: a call, a round of the worker, its end, a cancellation, or `stop`. The task
-- of the downloads takes steps from one await to the next, and between them the other calls of its
-- scheduler and changes of the transport come in any order. An upload stream is followed through the
-- data that arrives on it, its timer and its queued flushes, in any order; nothing else uses the
-- tables, the files and the leases in between.
--
-- Loops. The loops over rows are recursion on the list. The loop of the decoder is recursion on
-- fuel, the length of its buffer, which is enough since a round takes at least four bytes off it.
-- The loop of `_flush_upload_buffer` has one round more than there are bytes in its buffer, and a
-- round that goes on takes at least one byte off it.
--
-- Not modelled: the dispatch of envelopes, the overload and the end of a connection, and asyncio
-- (the rest of server/quic/server.py, and endpoint.py), the guard that server/quic/download.py puts
-- on the frames of aioquic, the offline maintenance of files (server/services/file/maintenance.py), the set-up of the connection
-- (server/storage/sqlite/db.py), the lock files (server/storage/access.py), the migrations of old
-- databases, and the clients.
pub mod Prelude
pub mod Protocol
pub mod Text
pub mod Codec
pub mod Storage
pub mod Services
pub mod Quic
mod Examples
