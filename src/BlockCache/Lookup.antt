-- ===== src/BlockCache/Lookup.antt =====
-- What is read from `APICache` of api/types/apicache.go after a store.
use hdfdata.BlockCache.Queue.{
  HashText, BlockDataBasic, CachedBlock, access, check_block_height_hash, new_cached_block,
  update_min_max,
}
use hdfdata.BlockCache.Changes.{insert_given, insert_block, push_block}
use hdfdata.BlockCache.{
  ApiCache, Hash, after_insert, store_new, store_block_summary, get_cached_block_by_hash,
}
use hdfdata.BlockCache.Reads.{
  get_cached_block_by_hash_str, get_block_summary_by_hash, get_block_hash, block_hash,
}
use hdfdata.Base.{
  ℕ, ◌≡◌, ◌<◌, refl, true, false, not, Option, none, some, pos, negsuc, arith, leb, ◌==◌, ==_refl,
  length, find, find-put,
}

module _ {Basic Stake : Type 0} (new_hash_from_str : HashText → Option Hash) where
  -- When a summary whose hash parses is stored in an enabled cache that has room in its queue and no block of that hash,
  -- the store succeeds, and in the cache that it leaves, whatever the clock says at the read, the summary is read back by
  -- its hash, and its hash by its height.
  pub store_block_summary-get_block_summary_by_hash :
      (now later : ℕ) (summary : BlockDataBasic Basic) (hash : Hash) (c : ApiCache Basic Stake)
      → c.is_enabled ≡ true
      → new_hash_from_str summary.hash ≡ some hash
      → find hash c.block_cache ≡ none
      → length c.expire_queue.bh < c.expire_queue.capacity
      → (c' : ApiCache Basic Stake) × (store_block_summary new_hash_from_str now summary c
          ≡ some c')
        × ((get_block_summary_by_hash new_hash_from_str later summary.hash c').1 ≡ some summary)
        × (get_block_hash (pos summary.height) c' ≡ some hash)
  unfolding store_block_summary store_new insert_block insert_given after_insert new_cached_block
      check_block_height_hash get_block_summary_by_hash get_cached_block_by_hash_str
      get_cached_block_by_hash get_block_hash block_hash access
  store_block_summary-get_block_summary_by_hash now later summary hash c on parsed fresh room =
      let positive : (c.expire_queue.capacity == 0) ≡ false = ground (arith, room) in
      let space : leb c.expire_queue.capacity (length c.expire_queue.bh) ≡ false =
        ground (arith, room) in
      let enabled : not c.is_enabled ≡ false = rw on refl in
      let new : CachedBlock Basic Stake = record {
        height = summary.height;
        hash = summary.hash;
        summary = some summary;
        stake_info = none;
        accesses = 0;
        access_time = 0;
        heap_idx = none;
      } in
      (
        after_insert hash summary.height (access now new)
            (record (update_min_max summary.height (push_block now new c.expire_queue)) {
              last_access = now;
            })
            (record { added = true; removed = none; removed_height = negsuc 0 }) c,
        rw
            (
              store_block_summary, enabled, parsed, fresh, store_new, insert_block, insert_given,
              positive, space,
            )
            refl,
        rw
            (
              get_block_summary_by_hash,
              enabled,
              get_cached_block_by_hash_str,
              parsed,
              get_cached_block_by_hash,
              find-put hash hash (access now new) c.block_cache,
              ==_refl hash,
            )
            refl,
        rw (get_block_hash, enabled, find-put summary.height summary.height, ==_refl summary.height)
            refl,
      )
