-- ===== src/BlockCache/Tests.antt =====
-- A cache of api/types/apicache.go with room for two blocks, and its theorems there.
use hdfdata.BlockCache.Heap.{
  less_at, swap, up, smaller_child, down, fix_heap, push_heap, init_loop, init_heap, remove_heap,
}
use hdfdata.BlockCache.Histories.{
  Reach, new, called, switched, summary_stored, Reach-queued, Reach-mainchain, Reach-IsSynced,
}
use hdfdata.BlockCache.Insert.{queued}
use hdfdata.BlockCache.Lookup.{store_block_summary-get_block_summary_by_hash}
use hdfdata.BlockCache.Shuffle.{one}
use hdfdata.BlockCache.Stores.{remove_cached_block_kept}
use hdfdata.BlockCache.Synced.{is_hash}
use hdfdata.BlockCache.Queue.{
  HashText, BlockDataBasic, CachedBlock, BlockPriorityQueue, access, check_block_height_hash,
  new_cached_block, less_by_access_count, less_by_access_time, less_by_height,
  make_less_by_access_time_then_count, new_block_priority_queue, set_less_fn, set_heap_idx,
  update_min_max, rescan_loop, rescan_min_max, rescan_min_max_for_update, not_inserted,
  rescan_min_max_for_remove,
}
use hdfdata.BlockCache.Changes.{
  push_block, update_block, insert_given, insert_block, remove_block, remove_index,
}
use hdfdata.BlockCache.{
  ApiCache, Hash, new_api_cache, enable, disable, get_cached_block_by_hash, after_insert, store_new,
  store_block_summary, store_stake_info, remove_cached_block, remove_cached_block_by_height,
}
use hdfdata.BlockCache.Reads.{
  get_cached_block_by_hash_str, get_block_summary_by_hash, get_block_hash, block_hash,
  get_cached_block_by_height, get_block_summary, get_block_size,
}
use hdfdata.Base.{
  ℕ, ◌+◌, ◌*◌, ◌≡◌, ◌≤◌, refl, true, false, Option, none, some, List, [], ◌∷◌, pos, negsuc, arith,
  ◌==◌, if◌then◌else◌, length, Distinct, find, keys, member,
}

program : Unit {0}
unfolding less_at swap up smaller_child down fix_heap push_heap init_loop init_heap remove_heap
    access check_block_height_hash new_cached_block less_by_access_count less_by_access_time
    less_by_height make_less_by_access_time_then_count new_block_priority_queue set_less_fn
    set_heap_idx update_min_max rescan_loop rescan_min_max rescan_min_max_for_update push_block
    update_block not_inserted insert_given insert_block remove_block remove_index
    rescan_min_max_for_remove new_api_cache enable disable get_cached_block_by_hash after_insert
    store_new store_block_summary store_stake_info remove_cached_block remove_cached_block_by_height
    get_cached_block_by_hash_str get_block_summary_by_hash get_block_hash block_hash
    get_cached_block_by_height get_block_summary get_block_size
program = tt

-- A text is the hash of its number, but for the text 0.
abbrev parse : HashText → Option Hash
parse t = if t == 0 then none else some t

abbrev block_at : ℕ → BlockDataBasic ℕ
block_at h = record { height = h; size = 2147483649; hash = h + 100; others = h }

abbrev Cache : Type 0
Cache = ApiCache ℕ ℕ

abbrev after_stores : List ℕ → Cache → Option Cache
after_stores [] c = some c
after_stores (h ∷ hs) c = elim (store_block_summary parse (h * 1000000000) (block_at h) c) [
  | none ↦ none
  | some c' ↦ after_stores hs c'
]

-- Block 3 has taken the place of block 1 of the three in turn.
three_blocks :
    (c : Cache) × (after_stores (1 ∷ 2 ∷ 3 ∷ []) (enable (new_api_cache 2)) ≡ some c)
    × (keys c.block_cache ≡ 102 ∷ 103 ∷ [])
    × (find 1 c.mainchain_blocks ≡ none)
    × (find 3 c.mainchain_blocks ≡ some 103)
    × (c.expire_queue.min_height ≡ 1)
    × ((get_block_size 0 (pos 3) c).1 ≡ negsuc 2147483646)
unfolding program
three_blocks = (_, refl, refl, refl, refl, refl, refl)

abbrev copy_of : ℕ → Option ℕ → CachedBlock ℕ ℕ
copy_of h idx = record {
  height = h;
  hash = h + 100;
  summary = some (block_at h);
  stake_info = none;
  accesses = 1;
  access_time = 1000000000;
  heap_idx = idx;
}

abbrev one_block : Cache
one_block = record {
  is_enabled = true;
  capacity = 2;
  block_cache = (101, copy_of 1 none) ∷ [];
  mainchain_blocks = (1, 101) ∷ [];
  expire_queue = record {
    bh = copy_of 1 (some 0) ∷ [];
    capacity = 2;
    needs_reheap = false;
    min_height = 1;
    max_height = pos 1;
    less_fn = make_less_by_access_time_then_count 1;
    last_access = 1000000000;
  };
  hits = 0;
  misses = 0;
}

stored_one : Reach parse 2 one_block
unfolding program
stored_one = called (called new (switched true refl)) (summary_stored 1000000000 (block_at 1) refl)

Reach-queued_example :
    (length one_block.block_cache ≤ 2)
    × Distinct (keys one_block.block_cache)
    × ((x : Hash)
        → queued (λ t h. is_hash parse x t) one_block.expire_queue ≡ one (member x (101 ∷ [])))
Reach-queued_example = Reach-queued parse 2 one_block stored_one

Reach-mainchain_example : (b : CachedBlock ℕ ℕ) × (find 101 one_block.block_cache ≡ some b)
Reach-mainchain_example = Reach-mainchain parse 2 one_block 1 101 stored_one refl

store_block_summary-get_block_summary_by_hash_example :
    (c : Cache) × (store_block_summary parse 2000000000 (block_at 2) one_block ≡ some c)
    × ((get_block_summary_by_hash parse 3000000000 102 c).1 ≡ some (block_at 2))
    × (get_block_hash (pos 2) c ≡ some 102)
store_block_summary-get_block_summary_by_hash_example =
    store_block_summary-get_block_summary_by_hash parse 2000000000 3000000000 (block_at 2) 102
      one_block refl refl refl (omega arith)

remove_cached_block_kept_example :
    remove_cached_block parse (some (copy_of 1 none)) one_block
    ≡ some (record one_block { mainchain_blocks = [] })
remove_cached_block_kept_example =
    remove_cached_block_kept parse 101 (copy_of 1 none) one_block (Reach-IsSynced parse stored_one)
      refl

-- The queue after its other block was removed, whose height was 5.
abbrev after_removal : BlockPriorityQueue ℕ ℕ
after_removal = record (one_block.expire_queue) { max_height = pos 5 }
