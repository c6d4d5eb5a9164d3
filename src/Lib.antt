-- ===== src/Lib.antt =====
-- OnvaKV: a key-value store whose entries are appended to a file, indexed by key and authenticated by
-- a Merkle tree of twigs. Each entry points to the next key, so the entries form a chain.
--
-- The parts and how they interact. A block of operations is collected as hot entries and applied by
-- update of onvakv.go: its first loop sets the NextKeys, its second loop stores the changed entries
-- through the data tree (datatree/tree.go), which writes them to the entry file
-- (datatree/entryfile.go) on a file of blocks (datatree/hpfile.go), and sets their positions in the
-- index tree (indextree/indextree.go).
--
-- Base: the shared names, comparisons, lists, integers and little-endian words.
-- Types: the records of types/types.go. A nil slice and an empty one are the same list; HotEntry has a
-- flag for a nil value. EntryPtr is the entry itself: no two hot entries share it.
-- EntryFile, for datatree/entryfile.go: Encode has EntryToBytes and what it calls, Decode has
-- EntryFromBytes, recoverMagicBytes and the accessors of raw bytes, File the reads of a record from a
-- file that is a parameter. An index out of range and a panic are `none`. EntryToBytes has two branches
-- in the code; without places the second writes the bytes of the first, so there is one here. The fuel
-- of getAllPos and of recoverMagicBytes is more than the length of the bytes, which grows by no round.
-- HpFile, for datatree/hpfile.go: Disk has the operations over the files of the directory, PreReader
-- the read-ahead buffer. Opening, writing and removing a file succeed; what the code refuses is an
-- error and where it panics is a panic. The loop of Truncate runs at most once per file, which is its
-- fuel. View says what a reader will find once the buffer is written.
-- EntryStore: the entry file on the file of blocks, written and read back. A read with withBuf goes
-- through the read-ahead buffer, and the second read of a record meets the buffer that the first has left.
-- OnvaKv, for onvakv.go: Link is the first loop of update, with the sorted slice of hot entries as a
-- zipper, Apply the second loop. Stores has the interfaces of the index tree and of the data tree
-- with the laws that the loop relies on: the data tree takes serial numbers in their order,
-- deactivates those of active twigs, and keeps what it wrote, which ReadEntry finds after the flush
-- at the end of the block. The mock of datatree/mock_datatree.go, which forgets deactivated entries,
-- has other laws. The parallel collection and sorting of the hot entries is not modelled: update
-- starts from the sorted slice.
-- MetaDb, for metadb/metadb.go: Fields has every operation, over a key-value store with batches that is
-- a parameter; numbers wrap as an int64 does.
-- Store, for store/: Cache is store/cache.go over the B-tree, which is a parameter, Layers are
-- store/trunk.go and store/multi.go over the root, which is a parameter. Values are raw bytes, objects,
-- the nil value of an object that is lent out, or deletions; reads return what the code puts in a
-- pointer. Prefix is store/prefix.go. Merge is store/mergeiter.go: an iterator is the list of the items
-- that are left, and the loop that skips deleted items takes one off in each round, so that the count of
-- the items plus one is enough fuel. Sorted has the order of keys, independent of the code's comparison.
-- Rabbit, for store/rabbit, over the trunk of Store and the hash function, which is a parameter: Cached
-- is the cached value with its bytes, Multi are SimpleCacheStore and SimpleMultiStore, Operations is
-- rabbit.go. The map of the cache is a list of entries with distinct keys. Go ranges over a map in any
-- order; the scan at Close takes the order of the list. A change through a pointer into the map is a new
-- entry under its key. find has MaxFindDepth rounds and panics behind them, as the code does. Cells, Walk,
-- Counts, Live, Represents and what builds on them are the proofs, which read the slots as a map of keys.
-- TwigFile, for datatree/twigmtfile.go: Operations over the HPFile and a checksum, which is a parameter.
-- Tree, for datatree/tree.go and datatree/hasher.go, over the hash function, which is a parameter: Hasher
-- has the jobs and Run, Youngest the Merkle tree of the youngest twig with the loops of
-- syncMT4YoungestTwig, Bits and Twig the active bits and the hashes over them, State the tree with
-- activation and appendEntry, Nodes the positions and levels, Upper the stages of syncMT above the
-- leaves, EndBlock the end of a block, Prune and EdgeNodes the pruning, with EdgeNodesToBytes and
-- BytesToEdgeNodes of datatree/load_dump.go. A fixed array is a function from its indices; the maps are
-- functions from their keys. The loops over the rows run 11 times, as base goes from 2048 to 2, and
-- those over the levels from the first level above the twigs to calcMaxLevel; row_jobs has half of base
-- rounds, as the index grows by two. bit_length has 64 rounds for a number of 64 bits.
-- Proof, for datatree/proof.go: Path has the bytes of a proof path, Check and Get the functions of these
-- names. Serial numbers that reach the tree are not negative.
-- Tests: the theorems on concrete inputs.
--
-- Not modelled: the dump, the loading and the recovery of the tree; the index tree,
-- the iterators of the stores but for the merging one, and the root store; opening a directory that has
-- files; locks, goroutines and failures of the operating system; the B-trees, which are copies of libraries, and
-- RocksDB, which is a third-party package.
pub mod Base
pub mod Types
pub mod ByteSlices
pub mod EntryFile
pub mod OnvaKv
pub mod HpFile
pub mod EntryStore
pub mod Tests
pub mod Store
pub mod TwigFile
pub mod Tree
pub mod Proof
pub mod MetaDb
pub mod Rabbit
