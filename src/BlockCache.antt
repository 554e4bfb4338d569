-- ===== src/BlockCache.antt =====
-- api/types/apicache.go: `APICache`, the cache of block summaries and stake infos of the API. A hash is a
-- number, and NewHashFromStr of chainhash a parameter. The blocks of the map are not those of the queue:
-- each store makes two copies. Each method is one step, which reads the clock once. The counters of hits
-- and misses are unbounded. What is left out: the goroutine that reheaps now and then, the getters of
-- one field, and the utilization in percent, a float.
use hdfdata.Base.{
  ℕ, ◌+◌, ◌-◌, Bool, true, false, not, Option, none, some, List, [], ◌∷◌, ℤ, pos, negsuc, ltb,
  if◌then◌else◌, length, Dict, find, put, del,
}
pub mod Heap
pub mod Shuffle
pub mod Queue
pub mod Changes
pub mod Insert
pub mod Synced
pub mod Stores
pub mod Histories
pub mod Fuel
pub mod Heights
pub mod Lookup
pub mod Reads
mod Tests
use Changes.{insert_block, remove_block}
use Queue.{
  HashText, BlockDataBasic, StakeInfoExtended, CachedBlock, BlockPriorityQueue, Inserted, access,
  new_cached_block, new_block_priority_queue, set_less_fn,
}

abbrev pub Hash : Type 0
Hash = ℕ

-- `blockCache` is the embedded map, `is_enabled` false before it is set.
pub record ApiCache (Basic Stake : Type 0) : Type 0 where
  pub is_enabled : Bool
  pub capacity : ℕ
  pub block_cache : Dict (CachedBlock Basic Stake)
  pub mainchain_blocks : Dict Hash
  pub expire_queue : BlockPriorityQueue Basic Stake
  pub hits : ℕ
  pub misses : ℕ

-- An entry of a map by int64, whose keys are all heights of blocks.
abbrev pub find_at : {A : Type 0} → ℤ → Dict A → Option A
find_at (pos h) d = find h d
find_at (negsuc h) d = none

abbrev pub del_at : {A : Type 0} → ℤ → Dict A → Dict A
del_at (pos h) d = del h d
del_at (negsuc h) d = d

module _ {Basic Stake : Type 0} where
  unfoldable pub new_api_cache : ℕ → ApiCache Basic Stake
  new_api_cache capacity = record {
    is_enabled = false;
    capacity = capacity;
    block_cache = [];
    mainchain_blocks = [];
    expire_queue = new_block_priority_queue capacity;
    hits = 0;
    misses = 0;
  }

  unfoldable pub set_less :
      (CachedBlock Basic Stake → CachedBlock Basic Stake → Bool)
      → ApiCache Basic Stake
      → ApiCache Basic Stake
  set_less less c = record c { expire_queue = set_less_fn less c.expire_queue }

  unfoldable pub enable : ApiCache Basic Stake → ApiCache Basic Stake
  enable c = record c { is_enabled = true }

  unfoldable pub disable : ApiCache Basic Stake → ApiCache Basic Stake
  disable c = record c { is_enabled = false }

  -- `getCachedBlockByHash`: the block after its access.
  unfoldable pub get_cached_block_by_hash :
      ℕ → Hash → ApiCache Basic Stake → ApiCache Basic Stake × Option (CachedBlock Basic Stake)
  get_cached_block_by_hash now hash c = elim (find hash c.block_cache) [
    | none ↦ (record c { misses = c.misses + 1 }, none)
    | some b ↦ (
      record c {
        block_cache = put hash (access now b) c.block_cache;
        expire_queue = record (c.expire_queue) { needs_reheap = true; last_access = now };
        hits = c.hits + 1;
      },
      some (access now b),
    )
  ]

  -- What `StoreBlockSummary` and `StoreStakeInfo` do with the result of `Insert`.
  unfoldable pub after_insert :
      Hash
      → ℕ
      → CachedBlock Basic Stake
      → BlockPriorityQueue Basic Stake
      → Inserted Hash
      → ApiCache Basic Stake
      → ApiCache Basic Stake
  after_insert hash height b queue result c =
      let cleared : Dict (CachedBlock Basic Stake) = elim result.removed [
        | none ↦ c.block_cache
        | some gone ↦ del gone c.block_cache
      ] in
      let cleared_heights : Dict Hash = elim result.removed [
        | none ↦ c.mainchain_blocks
        | some gone ↦ del_at result.removed_height c.mainchain_blocks
      ] in
      record c {
        expire_queue = queue;
        block_cache = if result.added then put hash b cleared else cleared;
        mainchain_blocks =
            if result.added then put height hash cleared_heights else cleared_heights;
      }

  module _ (new_hash_from_str : HashText → Option Hash) where
    -- The end of `StoreBlockSummary` and `StoreStakeInfo`, for a block that is not in the map; `none` for a
    -- panic.
    unfoldable pub store_new :
        ℕ
        → Hash
        → ℕ
        → Option (BlockDataBasic Basic)
        → Option (StakeInfoExtended Stake)
        → ApiCache Basic Stake
        → Option (ApiCache Basic Stake)
    store_new now hash height summary stake_info c = elim (new_cached_block summary stake_info) [
      | none ↦ none
      | some b ↦ elim (insert_block new_hash_from_str now summary stake_info c.expire_queue) [
        | none ↦ none
        | some (queue, result) ↦ some (after_insert hash height (access now b) queue result c)
      ]
    ]

    unfoldable pub store_block_summary :
        ℕ → BlockDataBasic Basic → ApiCache Basic Stake → Option (ApiCache Basic Stake)
    store_block_summary now summary c =
        if not c.is_enabled then some c else elim (new_hash_from_str summary.hash) [
          | none ↦ none
          | some hash ↦ elim (find hash c.block_cache) [
            | none ↦ store_new now hash summary.height (some summary) none c
            | some b ↦ elim b.summary [
              | none ↦ some (record c {
                block_cache = put hash (record b { summary = some summary }) c.block_cache;
              })
              | some there ↦ some c
            ]
          ]
        ]

    unfoldable pub store_stake_info :
        ℕ → StakeInfoExtended Stake → ApiCache Basic Stake → Option (ApiCache Basic Stake)
    store_stake_info now info c =
        if not c.is_enabled then some c else elim (new_hash_from_str info.hash) [
          | none ↦ none
          | some hash ↦ elim (find hash c.block_cache) [
            | none ↦ store_new now hash info.fee_height none (some info) c
            | some b ↦ elim b.stake_info [
              | none ↦ some (record c {
                block_cache = put hash (record b { stake_info = some info }) c.block_cache;
              })
              | some there ↦ some c
            ]
          ]
        ]

    -- `removeCachedBlock`, `none` for a panic: a hash that parses is not deleted, and one that does not is a
    -- nil dereference.
    unfoldable pub remove_cached_block :
        Option (CachedBlock Basic Stake) → ApiCache Basic Stake → Option (ApiCache Basic Stake)
    remove_cached_block none c = some c
    remove_cached_block (some b) c = elim (new_hash_from_str b.hash) [
      | none ↦ none
      | some hash ↦ some (record c {
        expire_queue = remove_block b c.expire_queue;
        mainchain_blocks = del b.height c.mainchain_blocks;
      })
    ]

    unfoldable pub remove_cached_block_by_height :
        ℕ → ℤ → ApiCache Basic Stake → Option (ApiCache Basic Stake)
    remove_cached_block_by_height now height c = elim (find_at height c.mainchain_blocks) [
      | none ↦ some c
      | some hash ↦ let (c', b) = get_cached_block_by_hash now hash c in remove_cached_block b c'
    ]
