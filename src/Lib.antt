-- ===== src/Lib.antt =====
-- The draft Raft library and its key-value server (raft/ and server/).
--
-- A server keeps a log in a memory-mapped file, takes part in elections, replicates its log to the
-- other members of the cluster when it leads and follows the leader's calls when it does not, changes
-- the membership by configuration entries in the log, and hands committed entries to an application,
-- here a key-value store that clients reach by text commands.
--
-- - Base: the names that all modules share; texts are lists of bytes, numbers are natural numbers.
-- - Log (raft/entry_logger.hpp, the error codes of raft/mapped_file.hpp): `EntryLogger` is the class
--   `entry_logger`. Log/Entry has the records `log_entry` and `states` and `make_log_entry`; Log/Memory
--   the bytes of the file seen as the records that can be read at each offset, with the writes
--   `memcpy`, `memmove` and of an end marker; Log/Room the growth of the files (`grow_ldbs`,
--   `grow_stat`). Log has `append`, `chop`, `drop` (as `drop_upto`), `copy`, `operator[]` (as `lookup`)
--   and the queries. Log/View says which list of entries a log stands for (`Rep`); Log/Chains,
--   Log/Lookup, Log/Rewind, Log/Append, Log/Chop and Log/Made hold the proofs, and Log/Copy, Log/Shift,
--   Log/Dropped and Log/Drop those on `drop`. Log/Reopen has `init`, which reads the files again, and
--   `to_string`, with the proofs in Log/Reopen/Recover and Log/Reopen/Print. The answers of the system to remapping
--   and syncing a file are the parameter `Os`, one answer for each size and the same for both files and
--   through a call; Log/Map is the class `mapped_file` itself, with the
--   answers of the system calls as the record `Kernel`, and its proofs are in Log/Map/Shape.
-- - Raft (raft/raft_impl.hpp, raft/raft_rpc.hpp, raft/raft_base.hpp, raft/raft.proto): the record
--   `Raft` of Raft/Types is the state of `raft_impl`, and a handler maps it to the state that it
--   leaves; messages, replies, timers and the saving of the vote are effects, a list in the order of
--   the calls. Raft/Cluster and Raft/Configure have the members and their addresses, Raft/Replicate
--   the requests that a leader fills, Raft/Commit `adjust_commit_index`, Raft/Election the elections,
--   Raft/Member `add_server`, `del_server`, `leadership_transfer` and `on_append_entries`,
--   Raft/Respond `apply_log_committed`, Raft/Settings what `init` reads of the configuration,
--   Raft/Startup `load_config` and `bootstrap_cluster_config`, Raft/Transfer the transfer of data as
--   the leader makes it and the timers, Raft/Files the bytes of its files, Raft/Rpc the calls of
--   raft_rpc.hpp. The proofs are in Raft/Commit (Bounds, Majority, Forward), Raft/Election (Roles,
--   Ballots), Raft/Replicate (Requests), Raft/Member (Votes, Requests) and Raft/Rpc (Vote, Advance, Stand,
--   Steps and Once for the votes; Follow, Skip, Store and Total for the log of a follower).
--   Raft/Safety has all servers of a cluster, whose handlers run tick by tick in any order; the
--   answers to calls are those that the servers gave, and Raft/Growth how a leader's log may change.
--   A result `none` is a place where the source reads through a null pointer, past the index table or
--   off a record, or does not end.
-- - Command (server/command_parser.hpp): the parser of commands, with the source's states.
-- - Storage (server/storage_server.hpp): the record `Server` is the state of `storage_server`;
--   sessions are objects with a number. Storage has the handlers of a session and
--   `on_log_entry_committed`, Storage/Input what `apply` reads with `std::istringstream`,
--   Storage/Snapshot the snapshot and the callback for transferred data. What the server asks of raft
--   is the record `RaftView`. Storage/Steps has the steps, each a call that sockets or raft make; the
--   proofs are in Storage/Execute (the text of an entry), Storage/Calls, Storage/Waiting,
--   Storage/Agree and Storage/Runs (replicas), Storage/Replies and Storage/Restore (the snapshot).
-- - Client (client/raft_client.hpp): the client of the store, with its queue of commands
--   (Client/Ready, Client/Order) and the redirect to the leader (Client/Redirect).
-- - Table: `std::unordered_map` of texts, as Storage and Config use it.
-- - Config (raft/config_parser.hpp): the pairs of a configuration file, of which Boost.Program_options
--   makes the options; that library is a parameter. The proofs are in Config/Pairs.
-- - Queue (raft/concurrent_queue.hpp): the queue between threads, with its proof in Queue/Fifo.
-- - Http (raft/config_server.hpp, raft/config_client.cpp, raft/raft_impl.hpp): the dispatch of
--   requests and the targets of the client, with `replace_all` and `str_toupper` of raft/utils.hpp.
--   Http/Serve has `confirm`, `handle_request` and the handlers, which call those of Raft/Member; the
--   proofs are in Http/Append and Http/Dots (what the server finds in the client's target), Http/Sent
--   (from the client to the log) and Http/Quiet.
-- - Numbers: `std::stol` and `is_ipv4` (raft/entry_iterator.hpp).
-- - Endian and Split (raft/utils.hpp): byte order, and splitting a text.
--
-- Fuel: `grow_until` has two more than the bytes that are asked for, which is enough as each round
-- grows the file; `rewind` and `last_cfg_upto` have one more than the index they start from, which is
-- enough on a well-formed log as each configuration entry points to a lower index; `scan` has one
-- round for each index of its range; `read_infos` and `print_entries` have one more than the bytes of
-- the file, which is enough as each record has a size. Machine integers: terms wrap at 2^64 in an
-- election, the old commit index is cut to 32 bits; sizes and indices are taken not to reach 2^64.
--
-- Not modelled: the padding of an entry, the threads and sockets of a server and of its storage
-- server (with the fork that takes a snapshot), the permissions of transferred files, the tool that
-- prints entries, the messages and connections of the HTTP server for configuration and its page of
-- the states, the program log and the ids of requests. Each handler runs as one step; the source runs
-- them under one lock or on one thread.
pub mod Base
pub mod Client
pub mod Command
pub mod Config
pub mod Endian
pub mod Http
pub mod Log
pub mod Numbers
pub mod Queue
pub mod Raft
pub mod Split
pub mod Storage
pub mod Table
