-- ===== src/Lib.antt =====
-- FishStore: a store that ingests records, indexes them by hash chains of key pointers, and keeps
-- them in a log that is part in memory and part on disk.
--
-- The parts, and how they interact. A thread gets an id (Thread, of src/core/thread.h) and protects
-- itself in the epoch framework (Epoch, of src/core/light_epoch.h), whose drain list holds actions
-- until no thread with an id above 0 is left in their epoch. It allocates space at the tail of the log (Log, of
-- src/core/persistent_memory_malloc.h) at an address (Address, of src/core/address.h), writes a record
-- there (Record, of src/core/record.h and src/core/auto_ptr.h), finds the entry for the hash of each
-- property (KeyHash, of src/core/key_hash.h and src/core/utility.h) in the index (Bucket, of
-- src/core/hash_bucket.h, and Index, of src/core/fishstore.h: FindEntry, FindTentativeEntry,
-- HasConflictingEntry, FindOrCreateEntry), and links the record's key pointers into the hash chains
-- (Chain, of InternalInsert). The index is a table of buckets (HashTable, of src/core/hash_table.h,
-- which writes and reads a batch of chunks, Batch, with the results of src/core/status.h) with overflow
-- buckets from an allocator of fixed pages (Pages, of src/core/malloc_fixed_page_size.h). Properties are
-- computed by PSFs, which are registered with the names of their fields and switched on and off by
-- parser actions (Registry, of src/core/psf.h, of src/jit/ezpsf.h, of src/jit/datatypes/types.h, and of
-- AcquireFieldID, the Make calls and ParserStateApplyActions); the operators of their expressions have
-- types, casts and instructions (Expr, of src/jit/ast/expr_ast.h). Checkpoints, garbage collection, growth
-- of the index and parser shifts are actions that pass through phases (System, of src/core/phase.h and
-- src/core/state_transitions.h; Actions, of GlobalMoveToNextState and of the calls that start an
-- action). Each thread follows them (Special, of HandleSpecialPhases and of
-- src/core/internal_contexts.h), splits chunks of the table when it grows (Grow, of
-- SplitHashTableBuckets, AddHashEntry and TraceBackForOtherChainStart and of src/core/grow_state.h) and
-- cleans chunks of it in garbage collection (Clean, of CleanHashTableBuckets and of
-- src/core/gc_state.h); a checkpoint uses locks on hashes (Locks, of src/core/checkpoint_locks.h).
-- Full pages of the log are written to its file and closed (Log.Flush, of AsyncFlushPages, OnPagesClosed
-- and ShiftFlushedUntilAddress, with the log's construction). A read or a scan follows a hash chain in
-- memory (Query, of InternalRead, InternalScan and TraceBackForMatch), and a read then on disk
-- (Query.Disk, of AsyncGetFromDiskCallback and InternalContinuePendingRead and of
-- src/core/async_result_types.h); a full scan goes over the pages of the log (Query.Full, of
-- InternalFullScan, AsyncFullScanFromDiskCallback and InternalContinuePendingScan). A request that goes to
-- disk is counted by its thread until its callback runs (Query.Pending, of HandleOperationStatus, the
-- Issue calls and CompleteIoPendingRequests).
--
-- How the code is modelled. A function of the model has the name of the C++ function in snake case.
-- State is a record that a function takes and gives back; a packed word is a number with its
-- bit-fields taken by division and remainder, and wraps at 2^64 or 2^32 where the code's integers do.
-- Loops of compare-exchanges take the values that other threads leave in the word as a list, or are
-- steps of a relation on shared states (Log.Tail, Log.Page, Locks.Exclusion, Chain.Moves) whose
-- reachable states are all interleavings. Flushes with their callbacks (Log.Flushing) and requests with
-- their responses (Query.Outstanding) are steps, too, each of which runs on its own. The calls of Epoch,
-- Thread, Index, Pages, Grow, Clean, Special, Registry and Query and the shifts of Log run on their own,
-- one after another. The answers of the
-- disk, of the loader of libraries and of the compiler of EzPsf are arguments. Tests holds runs at
-- concrete values.
--
-- Bounds and fuel. A scan of the epoch table or of the thread ids takes its number of rounds from the
-- table's size, so the fuel is the loop's bound. Registering an action repeats passes over the drain
-- list, and finding or creating an entry repeats rounds; both take fuel. One pass is enough where a
-- slot is free, and one round where no other thread left a tentative entry; the code spins otherwise.
-- A trace along a hash chain has 2^48 rounds, one more than the addresses that lie below another and
-- are not null; a trace goes down at each step. A thread that follows the phases takes rounds, and at the end
-- of a growth the states of the store that it sees as it waits. A read or a scan in memory has more
-- rounds than the address of its entry, a request on disk three reads for each address and three more,
-- and a shift of the flushed address more rounds than the buffer has pages. A full scan has as many rounds
-- as pages, and in a page more than its 2^25 addresses. A loop that polls a counter takes the
-- values it reads as a list.
--
-- What is not modelled: the device and the files, which are input and output; memory allocation; the
-- scan of a chain on disk, whose reads grow; CompletePending and the retry of requests; the recovery of
-- the log and the reads and writes of its pages for checkpoints; the files that name checkpoints,
-- fields and PSFs; LoadPSFLibrary, which is a call of the system's loader; DumpDistribution, which prints; the
-- evaluation of PSFs and the rest of their compiler; the parser adapters, which call other libraries.
-- Assertions are not modelled. Of the tail, NewPage takes every page of the buffer as allocated.
-- SpinWaitForSafeToReclaim waits for other threads and has no model.
pub mod Base
pub mod Address
pub mod KeyHash
pub mod Bucket
pub mod System
pub mod Locks
pub mod Record
pub mod Log
pub mod Pages
pub mod Grow
pub mod Clean
pub mod Batch
pub mod HashTable
pub mod Index
pub mod Chain
pub mod Actions
pub mod Query
pub mod Special
pub mod Registry
pub mod Expr
pub mod Thread
pub mod Epoch
pub mod Tests
