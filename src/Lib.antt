-- ===== src/Lib.antt =====
-- gokv: a key/value store on an append-only log, and the nodes that replicate it.
--
-- The program. internal/engine keeps the data: a log of records in data files (record.go, datafile.go),
-- an index of the newest record of each key (store.go, skiplist.go), recovery of the index from the
-- files, and compaction. internal/proto frames the messages. internal/node serves requests, elects a
-- leader and replicates its log to the followers. client sends the requests.
--
-- The files. Each names the code that it models.
-- - Prelude: Boolean tests, lists, fixed-width integers as bytes, keys and their order.
-- - Engine.Record: record.go. `encode` is appendRecord on an empty buffer, `next_record` one round of
--   scanFile, `scan_file` the whole of it, `clear_batch_flags` clearBatchFlags.
-- - Engine.Index: the map `keys` and the skip list `order` of store.go as one ascending list of keys
--   with entries; `apply_recovered` and `index_apply` are applyRecovered and indexApplyLocked. Walk is
--   the walk in chunks that Scan and SnapshotRecords share.
-- - Engine.Files: the data files, with the bytes on disk apart from the append offset `size`.
-- - Engine.Store: the state of a Store, its errors; Append has the write path from appendLocked to the
--   observers, Methods has Put, Delete and BatchPut, Reads has Get, Scan has Scan and
--   ScanSlice, Reset has Reset, Housekeeping has Sync. Sound holds the invariant, and the store as a
--   map from keys to values.
-- - Engine.Compact: Compact of compact.go. Copy, Copied and CopyAll are about phase one, Steps and
--   Repoint about phase two, Drop about the files that go, Refine and Reclaim about the whole.
-- - Engine.Snapshot: SnapshotRecords and rawRecord of compact.go; Engine.Since: RecordsSince.
-- - Engine.Recover: scanIntoIndex. Groups says what logs the write path makes, Agree compares the
--   rebuilt index with the running one, Crash cuts a batch short.
-- - Engine.Hint: the hint files of datafile.go, and buildHint of compact.go.
-- - Engine.Open: Open and recover. Replayed is about directories with hints, Unfinished about a batch
--   that has no end; Located, Scanned, Indexed, Admitted and Alive are about data files of any bytes.
-- - Engine.Replica: ApplyRaw, on what a leader sends and on any bytes.
-- - Proto: proto.go, frames, the encoder and the decoder; Wire has the opcodes and statuses.
-- - Node: the state of a node. Election has election.go with the epoch and the session start of
--   replication.go, its Campaign startElection in steps and its Steps the runs of a node; Serve has the
--   requests of node.go and the frames that client.go makes, Range the range
--   request from the client's frame to its loop over the reply, CatchUp what catchUp sends a
--   follower, Session both sides of a session until the live stream, Streams the live streams with
--   fanout.
-- - Client: the connection of client.go and the loop of call.
-- - Tests: concrete inputs for the theorems.
--
-- How it is modelled. Numbers are natural numbers; wrap-around is written out as `% 2 ^ 32` and
-- `% 2 ^ 64`, and int64 values that can be negative are two's complement patterns. Bytes are numbers,
-- strings and slices lists of them. A method takes the state and returns the new state with its
-- result. What the operating system answers to the calls of one write is an argument (`Io`): the
-- clock, and for each call whether it succeeds, for WriteAt also how much it wrote and whether the
-- Truncate that follows a failure worked. The checksum of hash/crc32 is a parameter of which only the
-- range of its results is known. The answers of the peers in an election are an argument, and so is
-- the text of an error. `wmu` and `mu` are not modelled: a method runs as one step, but
-- the runs of a node have startElection in its steps, with others between them. In `get_attempts` the
-- index and the files of each attempt are arguments, since a compaction may run between them, and so
-- is in `scan` what it finds at each lock (`Moments`). A compaction itself runs with no writer between
-- its steps.
--
-- Fuel. The loop of scanFile has as fuel one more than the bytes of the file, and that of ApplyRaw one
-- more than the bytes of the buffer; every round takes a record of 30 bytes at least, so neither runs
-- out. The loop of Scan and SnapshotRecords over the chunks has as fuel the number of chunks; on an
-- index that does not change, one more than its keys is enough.
--
-- Bounds. A live store needs a file id and sequence numbers that do not wrap; a batch has fewer than
-- 2 ^ 32 bytes, since writeLocked keeps offsets in a uint32.
--
-- Not modelled: the names of files and the tidying of hints, the manifest, the lock file, statistics,
-- the levels of the skip list, timers, followLoop, and the background goroutine of a store.
pub mod Prelude
pub mod Engine
pub mod Proto
pub mod Node
pub mod Client
pub mod Tests
