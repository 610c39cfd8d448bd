-- ===== src/Lib.antt =====
-- Verification of Dattaniddhi, an embedded vector database written in Go.
--
-- The program keeps named collections of vectors. A collection (internal/collection) owns an index
-- (internal/index) of normalized vectors (internal/vector), maps between external and internal ids,
-- the payloads, and a write-ahead log (internal/store/wal). Insert and Delete write a record to the
-- log first and change the memory then; opening a collection replays the log.
--
-- The files and the code:
--   Prelude   names shared by all files: Boolean tests and lists over native numbers, Go's `int` as
--             a 64-bit pattern (Words), value-or-error results (Results), Go's maps as association
--             lists (Maps).
--   Wal       internal/store/wal. Format: the constants of wal.go and the errors. Bytes: integers
--             in little-endian order. Header, Record, Payload: the encoders and decoders of
--             segment.go, record.go, decoder.go and payload_ops.go (encodeSegmentHeader is
--             encode_segment_header, and so on). Crc: crc32.ChecksumIEEE, bit by bit. Names: the
--             file names of segments. Disk: a directory as a list of entries. Scanner:
--             scanSegmentFile of scanner.go, with one round as scan_record. Log: AppendInsert,
--             AppendDelete, rotateSegment and Close of wal.go. Open: NewWAL, getLatestSegmentID and
--             getLatestLSN of wal.go, getAllSegment and Recover of recovery.go, with Open/Total
--             about their loops. History: the abstract view of a directory as segments with
--             entries, and what the operations do to it: Numbers follows the log sequence numbers.
--             Log/Bounds is about the counted size, Crc/Detects about altered bytes,
--             Scanner/Altered about altered records, Payload/Sound and Scanner/Genuine about what
--             is decoded, History/Torn, Oversized, Restarts and Headless about logs in disorder.
--             History/Listing and History/Sizes are about the order of files and their lengths.
--   Floats    floating-point arithmetic, an argument of what uses it. float32 is its bit pattern.
--   Vector    internal/vector: NewVector, Normalize, validateValues and the similarities. Sums: the
--             similarities as sums.
--   Index     internal/index: IndexConfig, LinearIndex with Add, Delete, Get and Size, and the
--             factory; constants of internal/types. Search: (li *LinearIndex) Search, with the
--             order in which a Go map is read and slices.SortFunc as arguments; what these and
--             cmp.Compare document is Library in Search/Best. Contract: the interface VectorIndex
--             of index.go. Strings: String of internal/types/indextype.go.
--   Json      encoding/json, an argument, with its round trip as a named hypothesis (JsonLaws).
--   Collection  internal/collection: Insert, Delete and Get of collection.go, LoadState of
--             recovery.go. Recoverable: a collection whose log gives its memory. Matched: the maps
--             and the index belong together. Failures: operations that return an error. Config: the
--             configuration file of config.go. Lifecycle: CreateCollection, OpenCollection and
--             Close. Search: Search of a collection. Runs: inserts, deletes and reopenings in any
--             order. Runs/Ready: what Search needs of the memory. Runs/Attempts: calls of which any
--             may fail. Unsynced: an Insert whose Sync fails. Uncompensated: an Insert that the
--             index refuses. LastWord: LoadState against the last record about an identifier.
--             Reloads: LoadState twice.
--   Registry  internal/ingest/registry.go: GetOrCreateIndex, with the factory as an argument.
--   Command   cmd/vectordb/main.go: the collection is created or opened, and closed in the end.
--
-- State is passed explicitly: an operation takes the WAL or the collection and returns it beside its
-- result. The mutexes make each operation one step. What the operating system answers to a call
-- (a short write, a refused creation, close or sync) is an argument, Answers, and the paths of
-- these errors are paths of the model; NothingFails says that no call is refused. What uuid.NewString
-- returns is an argument of Insert.
--
-- Bounds: file sizes, log sequence numbers and ids are taken modulo 2 ^ 64 and length fields modulo
-- 2 ^ 32 or 2 ^ 16, as in the code. The loops of scanSegmentFile and getLatestLSN run on fuel, one
-- round for each byte of the file and one more. A round takes 36 bytes at least.
--
-- Not modelled: errors of MkdirAll, Stat, Seek, ReadDir and of reads of bytes that are there, and
-- the refusal to open a segment file that exists; Chmod, with which rotateSegment makes the old
-- segment read-only, so that files have no permissions here; the file-name order of ReadDir, which
-- Recover does not rely on (History/Listing); the ticker of SyncEverySec, which only calls Sync;
-- log lines and the wait for a signal; the interfaces of internal/embedder and ingest.go, which
-- nothing implements. LoadState returns no collection with an error, since its caller drops it.
pub mod Collection
pub mod Command
pub mod Floats
pub mod Index
pub mod Json
pub mod Prelude
pub mod Registry
pub mod Vector
pub mod Wal
