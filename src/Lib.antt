-- ===== src/Lib.antt =====
-- A verification library for the Redis server in src/ (C++23).
--
-- The program: a connection parses RESP commands (src/resp.cpp) and hands them to one worker, the
-- command processor (src/command_processor.cpp), which looks the command up in a table and runs
-- its handler (src/commands.cpp, src/rlist.cpp, src/rstream.cpp) on the keyspace
-- (src/database.cpp). Lists, streams and expiry live in the keyspace; the handlers check and parse
-- arguments (src/utils/time.cpp) and make the reply, which src/resp.cpp serialises.
--
-- The files, and the code each is about:
--   Prelude        bytes, Booleans, integers of 64 bits, maps and lists for all modules;
--                  Prelude/Expected has std::expected.
--   Numeric        std::to_string and std::from_chars, as the program uses them.
--   Resp           src/resp.cpp: read_line, parse_length, parse_command and serialize_command; its
--                  loop over the arguments is a recursion on the announced count. Resp/Reply has the
--                  replies and serialize_response; Resp/Framing, Resp/Consumed and Resp/RoundTrip
--                  have what is proved.
--   Streams        src/rstream_types.hpp: identifiers, entries and read requests.
--   Database       src/database.cpp: the state (_entries, _key_revisions, _next_revision), lazy
--                  expiration, SET, GET, TYPE, KEYS. Its children: Lists, Counters, StreamOps and
--                  Reads have the other operations; Actions names them all; Expiry, Revisions,
--                  Validity, Spec and Refinement have what is proved about them.
--   Handlers       src/commands.cpp, src/rlist.cpp, src/rstream.cpp and src/utils/time.cpp, one
--                  function for each handler, which returns the reply and the database.
--   Processor      src/command_processor.cpp: the table of commands and `dispatch` (Processor/Table),
--                  and which commands are logged and replicated in which form (Processor/Log).
--                  Processor/Transactions has WATCH, UNWATCH, MULTI, DISCARD and EXEC;
--                  Processor/Deadlines the deadlines of the clients that wait and their expiry.
--                  Processor/Loading has what a snapshot does to the keyspace;
--                  Processor/Subscriptions SUBSCRIBE, UNSUBSCRIBE, PUBLISH and the registration of
--                  clients; Processor/Access AUTH and ACL (src/acl.hpp); Processor/Commands
--                  `process_command`; Processor/Tasks `process_task`, which guards, runs, logs,
--                  replicates and answers a command, and what a connection in src/server.cpp
--                  does with one; Processor/Departure the unregistration of a
--                  client, with the commands that it waits for.
--   Pubsub         src/pubsub.cpp: the queue of frames of a connection and its event descriptor.
--                  Pubsub/Wakeup has the steps of the worker, which queues frames, between those of
--                  send_pending_pubsub_frames in src/server.cpp, which sends them.
--   Aof            src/aof.cpp: read_commands, append and sync. What a file holds and what write(2) and
--                  fsync(2) return are arguments. Aof/Manifest has the manifest and open.
--   Rdb            src/rdb.cpp: the reader of lengths and strings, the walk over opcodes, read_file.
--                  Rdb/Format has the file format, as what a writer may write.
--   ServerConfig   src/server_config.cpp: the command-line options and their checks.
--
-- How state and failure are modelled: each operation takes the database and returns it, with the
-- value of its std::expected as `ok` or `err`, and `fault` where the C++ standard gives no meaning
-- (a range of iterators in the wrong order, the increment of the largest integer). An operation that
-- reads a clock takes what it read; a handler takes all its readings as a `Clock`, and a loop that
-- reads one anew takes a function from its rounds to the readings. The unordered_map is an
-- association list, so the order of KEYS is the order of insertion here and unspecified in the
-- program. Signed arithmetic on the steady clock wraps around, as compilers do it. A std::weak_ptr
-- to a session is a number: the sessions that live are a map from such numbers, so a number without
-- an entry is a pointer that locks to nothing. The file system (`Disk`, `Environment`, `File`), the
-- memory that a reserve gets, the calls on descriptors (`Call`), and the hash of a password are
-- arguments.
--
-- Recursion: the loops over arguments, keys, requests and queued commands are structural, and that
-- of append follows the results of write(2). The loop of read_commands has the length of the file as
-- fuel, and each round consumes a byte; so has the loop of the snapshot reader, where each round reads a
-- marker. The binary searches halve the length of the range, with that
-- length as fuel, and the digits of a number are found with the number as fuel: each step makes its
-- measure smaller, so the fuel is enough, and the entries of a range or the text of a number would
-- be wrong if it were not.
--
-- Not modelled: sockets, threads and poll loops (src/server.cpp, src/main.cpp); of the command processor
-- the serving of clients that wait in BLPOP, XREAD and WAIT, to which `process_task` hands over, the
-- sessions and acknowledgements of replicas (src/replication.cpp), the start from the log and the loop
-- of the worker, which are left for an extension; SHA-256 (src/utils/sha256.cpp), a call of OpenSSL;
-- parsing of floating-point numbers, an interface (`Doubles`) that BLPOP takes as a parameter.
mod Prelude
pub mod Numeric
pub mod Resp
pub mod Streams
pub mod Database
pub mod Handlers
pub mod Processor
pub mod Aof
pub mod Rdb
pub mod Pubsub
pub mod ServerConfig
