-- ===== src/Lib.antt =====
-- A verification library for parts of hdfdata, a block explorer back end. Each part is a
-- translation of the Go source into functions and records, with the theorems that make it correct.
--
-- Parts, and the source that each models:
--
--   Semver: semver/semver.go. `Semver`, `Compatible` (compatible), `AnyCompatible`, `String`
--   (to_string) and `ParseVersionStr` (parse_version_str) over texts that are lists of bytes.
--   TicketPool: stakedb/ticketpool.go. The cursor over the chain of pool diffs: `advance`, `retreat`,
--   `advanceTo`, `retreatTo`, `AdvanceToTip`, `Pool` (pool_at), `Trim`, `Append`
--   (append_and_store), `AppendAndAdvancePool` and `LoadAllPoolDiffs`.
--   AddressRows: the functions on an address's rows of db/dbtypes/types.go and db/cache/addresscache.go.
--   AddressRows/Cached models `addressRows`, `creditAddressRows` and the others of the cache, whose
--   pages the explorer shows; AddressRows/Merging models `MergeRows`, `MergeRowsCompact`,
--   `MergeRowsCompactRange` and `CountMergedRowsCompact`, which the cache calls for merged views;
--   AddressRows/Stored the functions on rows as stored in the database that do the same, such as
--   `SliceAddressRows` and `MergeRowsRange`, and the conversions between the types of rows.
--   BlockGate: rpcutils/blockgate.go, with `GetBlock` and `GetBlockByHash` of rpcutils/rpcclient.go.
--   `updateToBlock` (update_to_block), `rotateIn` (rotate_in, expire, pop_oldest), `signalHeight`,
--   `signalHash`, `WaitForHeight`, `WaitForHash` and the getters. BlockGate/Window has the abstract
--   view, the list of all blocks ever stored, of which the gate holds a window; BlockGate/Channels
--   and BlockGate/Waits the wait channels; BlockGate/Calls any sequence of calls.
--   CacheItem: `AddressCacheItem` of db/cache/addresscache.go, which keeps one address's data at one
--   block and pages its rows by AddressRows; its setters, accessors and `Transactions`.
--   AddressCache: `AddressCache` of db/cache/addresscache.go, the map of items with its limits, whose
--   items are those of CacheItem. AddressCache/Purge has the two loops of `purgeRowsToFit`,
--   AddressCache/Methods the methods that store and clear, AddressCache/Reads those that read and count
--   hits and misses. `addCacheItem` is
--   add_cache_item, `setCacheItemRows` set_cache_item_rows and so on; the part of `StoreBalance`,
--   `StoreUTXOs` and `StoreHistoryChart` after their checks is store_datum.
--   AddressCache/Histories has sequences of calls as step relations.
--   CacheLock: `CacheLock` of db/cache/addresscache.go, with the two halves of a done function as two
--   steps that others may come between.
--   BlockCache: api/types/apicache.go. BlockCache/Queue has `CachedBlock` and `BlockPriorityQueue`,
--   BlockCache/Changes its operations (insert_block is `Insert`, update_block `UpdateBlock`, and so
--   on), over Go's container/heap written out in BlockCache/Heap; BlockCache itself, with
--   BlockCache/Reads, `APICache`, whose map and queue each keep their own copy of a block. BlockCache/Histories has sequences of calls.
--   Prefetch: rpcutils/prefetcher.go. The steps of the callers of `GetBlockData`, of the goroutines that it
--   starts and of the fetcher are those of Step, in any order and each at a time; the node's answers
--   depend on the time.
--   ChainWalk: of rpcutils/rpcclient.go, `CommonAncestor`, `OrphanedTipLength`, whose context may be done
--   at any height, and `sideChainTips`.
--   Mixing: txhelpers/cspp.go, `IsMixTx` and `IsMixedSplitTx`.
--   Base: shared tests on numbers, lists over the native numbers, and signed integers.
--
-- Exported Go methods take a mutex and are each one step of the state here; only
-- `UpdateToNextBlock` lets its lock go between the read of the height and the update, so that its
-- step here has a height read at any time before. A method returns the new state beside its
-- result; errors are values, an index out of range is the result `panic`, and a loop that Go
-- writes with `for` takes fuel, with `diverged` as the result when it runs out. The fuel of `Pool`
-- and its relatives is the tip plus one for a loop that advances and the cursor plus one for a
-- loop that retreats; the theorems show that these suffice on valid states. The loops of
-- `purgeRowsToFit` take one more than the number of items, and give `none` when it runs out: see
-- AddressCache/Clearing and AddressCache/Lost. `CommonAncestor` bounds its loop itself, and
-- `OrphanedTipLength` goes down from the tip to height 0. The loops of container/heap take the
-- index plus one, or the number of elements, see BlockCache/Fuel. Go visits a map in any order,
-- which is a parameter that permutes the keys, with the one hypothesis that it yields the keys of
-- the map.
--
-- Heights and lengths are unbounded numbers: the chain's heights are far below the range of int64.
-- Amounts (uint64) and the count of merged rows (int32, here as its bits) wrap around. Log
-- messages are left out. chainhash.NewHashFromStr is a parameter without hypotheses, and the clock
-- is an argument. The badger database is a parameter, a function that writes one diff and may
-- fail; what its iterator yields is a list of items.
--
-- Not modelled: the web server, its routes and templates, the PostgreSQL queries, the exchange
-- bots, the RPC and websocket clients, and other code that is input and output around libraries;
-- PROJECT.json lists each with the reason.
pub mod Base
pub mod Semver
pub mod TicketPool
pub mod AddressRows
pub mod BlockGate
pub mod CacheItem
pub mod AddressCache
pub mod BlockCache
pub mod Prefetch
pub mod ChainWalk
pub mod CacheLock
pub mod Mixing
