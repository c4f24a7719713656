-- ===== src/Lib.antt =====
-- A model of the core of amind, a memory database for agents, and what is proved of it.
--
-- The program keeps memory records. Each gets an id from the generator (src/core/snowflake.cpp)
-- and moves through phases (src/core/memory_record.cpp). The memory store
-- (src/memory/memory_store.cpp) holds the records in a cache over a log-structured engine of sorted
-- tables (src/lsm): it writes some changes at once, marks others as dirty and writes those before
-- it evicts. Which memory was derived from which is kept by the lineage index
-- (src/lineage/lineage_index.cpp); when a memory is removed, the coordinator
-- (src/coordinator/remove_coordinator.cpp) marks its record and lets the propagator
-- (src/lineage/propagator.cpp) invalidate what depended on it. The graph store
-- (src/graph/graph_store.cpp) holds typed edges between memories, the resolver
-- (src/conflict/conflict_resolver.cpp) decides between two memories that conflict, the queue and
-- the executor (src/async) run slow work later, and the session manager
-- (src/session/session_manager.cpp) keeps conversations. The log of src/storage/wal.cpp and its
-- recovery (src/storage/recovery.cpp) replay writes after a crash, and pages of files are cached
-- (src/storage/page_cache.cpp).
--
-- Prelude        shared names and tests, bits, ids, maps, bytes and files; the library's own lemmas
-- Snowflake      SnowflakeGenerator: nextId is `next_id`, over the list of the clock's readings
-- Record         MemoryRecord and the enums of src/core/types.h with their names
-- Conflict       ConflictResolver: resolve and its six levels, with the judge as a field
-- Traversal      what the breadth-first walks share: the queue with its visited set
-- Lineage        LineageIndex: `Maps` is its three containers, `wal` the entries of its log
-- Propagator     LineagePropagator: propagate, over any state that the callback changes
-- Coordinator    RemoveCoordinator: remove; `Store` holds what its three callbacks act on
-- Graph          GraphStore: `Adjacency` is its two maps, `wal` the entries of its log
-- Async          TaskQueue and TaskExecutor: one step for each critical section
-- Session        SessionManager: one function for each critical section
-- Bloom          BloomFilter of the storage engine (src/lsm/bloom_filter.cpp), with the hash function
--                as a parameter
-- Lsm            the storage engine (src/lsm): Block is the builder and the search of block.cpp,
--                SsTable the writer and the reader of a table, MemTable the memtable over the
--                bottom chain of the skip list, Merge the loop of compactLevel, Manifest the
--                manifest, Levels the state of LSMEngine with its log and the parts of
--                compactLevel, Engine its operations, and Log the log of lsm_wal.cpp in bytes
-- Wal            WriteAheadLog (src/storage/wal.cpp) in bytes, and WalRecovery
--                (src/storage/recovery.cpp) over its files
-- MemoryStore    MemoryStore: Parts is the interface of the engine, the codec of records, the vector
--                index and the floats, Operations the requests on one record, and Decay, Evict,
--                Init and Lists the other operations
-- PageCache      PageCache (src/storage/page_cache.cpp), with what its loader reads and its flusher
--                writes as a disk
--
-- Each file beside a folder holds a component's definitions; the files in the folder hold its
-- theorems, and Tests applies them at concrete inputs. Some files in the folders hold definitions
-- too: Record/Names, Lineage/Descend, Session/Summary, Wal/Recovery, Wal/History, Lsm/Log/Replay
-- and those of MemoryStore named above.
--
-- Ids, times and counters are natural numbers with their wrap-around written out where the code's
-- type wraps; floats that are only copied are natural numbers too. Hash maps and sets are lists,
-- whose order stands for the order in which the container happens to be walked. A mutex makes a
-- function one step; where the code leaves a critical section and enters another, these are two
-- functions, and the theorems about interleavings are about any sequence of them. The three walks
-- (propagate, traverse, getTransitiveDescendants) run on fuel: one round more than there are
-- listed children or edges, and one more where the start is in the queue, which is enough, since
-- no id enters the queue twice. The two binary searches run on one round more than the list has
-- entries, and the merge on one more than the cursors have left. The readers of the two logs run on
-- as many rounds as the file has bytes, since a round that goes on has consumed a byte at least.
--
-- The memtable and the tables on disk form layers: `get` reads the memtable, then the tables of
-- the levels 0, 1 and 2 in the order of the lists, and takes an empty value for a removed key. A
-- flush writes the memtable as the first table of level 0, a compaction merges a level into one
-- table and appends it to the next level. `IsEngine` says that the memtable is sorted, that each
-- table is the map of some rising entries, and that the values of both fit a block; the engine's
-- theorems assume it, and show that it stays. A reader refuses a block of more than 64 MiB:
-- `get_value_throws` and `merge_throws` say when a lookup and a merge throw on one, and `get_value`
-- is the answer of a lookup that does not. A block of more than 2 GB, which LZ4 does not compress,
-- is out of the model; such a value is too large for the theorems.
--
-- The memory store stands on an interface (`Backend`), of which its theorems assume no law. The log
-- of src/storage and the log of the engine take CRC32C as a parameter, any function into 32 bits; a
-- crash leaves some first bytes of the file that was being written. Of the lineage log only the
-- width of the number of parents is modelled: an entry with more is taken to fail its checksum. A
-- write to a cached page that is shorter than the data runs past its end in the C++; `overlay`
-- keeps the length there, and the theorem on writes asks for a page that is long enough.
--
-- Not modelled: the contents of the files that the logs of lineage, graph and sessions write, log
-- messages and reasons, thread joins, the bytes of a record, of a block and of the index of a
-- table (with LZ4), the start of the storage engine (the tables that it opens, the replay of its
-- log and the flush after it), its flush thread, mapped files, the pages of listMemories, the file
-- and the filtered search of the vector index, retrieval, capture, the gate, the servers and the
-- clients (src/vector, src/retrieval, src/capture, src/gate, src/server, src/provider, src/sdk),
-- which the modelled parts do not call or call through the parameters and callbacks above.
pub mod Prelude
pub mod Snowflake
pub mod Record
pub mod Conflict
pub mod Traversal
pub mod Lineage
pub mod Propagator
pub mod Coordinator
pub mod Graph
pub mod Async
pub mod Session
pub mod Bloom
pub mod Lsm
pub mod MemoryStore
pub mod Wal
pub mod PageCache
