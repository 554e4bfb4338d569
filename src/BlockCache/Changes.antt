-- ===== src/BlockCache/Changes.antt =====
-- The operations of `BlockPriorityQueue` of api/types/apicache.go that add, update and remove blocks.
use hdfdata.BlockCache.Queue.{
  HashText, BlockDataBasic, StakeInfoExtended, CachedBlock, BlockPriorityQueue, Inserted,
  not_inserted, max_uint32, access, check_block_height_hash, new_cached_block, set_heap_idx,
  update_min_max, rescan_loop, rescan_min_max_for_remove, rescan_min_max_for_update,
}
use hdfdata.BlockCache.Heap.{set_elem, fix_heap, push_heap, init_heap, remove_heap}
use hdfdata.Base.{
  ℕ, suc, ◌+◌, Bool, true, false, ◌&&◌, Option, none, some, List, [], ◌∷◌, pos, negsuc, ltb, leb,
  ◌==◌, if◌then◌else◌, length, get_elem?,
}

module _ {Basic Stake : Type 0} where
  -- `heap.Push` with the `Push` of the queue, of data that has been checked.
  unfoldable pub push_block :
      ℕ → CachedBlock Basic Stake → BlockPriorityQueue Basic Stake → BlockPriorityQueue Basic Stake
  push_block now b pq =
      let widened = update_min_max b.height pq in
      record widened {
        bh =
            push_heap pq.less_fn set_heap_idx
              (record (access now b) { heap_idx = some (length pq.bh) }) pq.bh;
        last_access = now;
      }

  -- `UpdateBlock` of the block at an index of the queue. `heap.Fix` at -1 does nothing.
  unfoldable pub update_block :
      ℕ
      → ℕ
      → Option (BlockDataBasic Basic)
      → Option (StakeInfoExtended Stake)
      → BlockPriorityQueue Basic Stake
      → BlockPriorityQueue Basic Stake
  update_block now i summary stake_info pq = elim (get_elem? pq.bh i) [
    | none ↦ pq
    | some b ↦ elim (check_block_height_hash summary stake_info) [
      | none ↦ pq
      | some (height_added, hash) ↦
          let b' : CachedBlock Basic Stake = record {
            height = height_added;
            hash = hash;
            summary = summary;
            stake_info = stake_info;
            accesses = 1;
            access_time = now;
            heap_idx = b.heap_idx;
          } in
          let changed : List (CachedBlock Basic Stake) = set_elem i b' pq.bh in
          let fixed : List (CachedBlock Basic Stake) = elim b.heap_idx [
            | none ↦ changed
            | some at ↦ fix_heap pq.less_fn set_heap_idx at changed
          ] in
          record (rescan_min_max_for_update height_added b.height (record pq { bh = fixed })) {
            last_access = now;
          }
    ]
  ]

  module _ {Hash : Type 0} (new_hash_from_str : HashText → Option Hash) where
    -- `Insert` of a block of which something is given, `none` for a panic.
    unfoldable pub insert_given :
        ℕ
        → Option (BlockDataBasic Basic)
        → Option (StakeInfoExtended Stake)
        → BlockPriorityQueue Basic Stake
        → Option (BlockPriorityQueue Basic Stake × Inserted Hash)
    insert_given now summary stake_info pq =
        if pq.capacity == 0
        then some (pq, not_inserted)
        else if leb pq.capacity (length pq.bh)
        then elim (new_cached_block summary stake_info) [
          | none ↦ none
          | some new ↦ elim (get_elem? pq.bh 0) [
            | none ↦ none
            | some top ↦
                if pq.less_fn top (record (access now new) { heap_idx = some 0 })
                then some (
                  update_block now 0 summary stake_info pq,
                  record {
                    added = true;
                    removed = new_hash_from_str top.hash;
                    removed_height = pos top.height;
                  },
                )
                else some (pq, not_inserted)
          ]
        ]
        else elim (new_cached_block summary stake_info) [
          | none ↦ some (pq, not_inserted)
          | some new ↦ some (
            record (update_min_max new.height (push_block now new pq)) { last_access = now },
            record { added = true; removed = none; removed_height = negsuc 0 },
          )
        ]

    unfoldable pub insert_block :
        ℕ
        → Option (BlockDataBasic Basic)
        → Option (StakeInfoExtended Stake)
        → BlockPriorityQueue Basic Stake
        → Option (BlockPriorityQueue Basic Stake × Inserted Hash)
    insert_block now none none pq = some (pq, not_inserted)
    insert_block now none (some info) pq = insert_given now none (some info) pq
    insert_block now (some summary) stake_info pq = insert_given now (some summary) stake_info pq

  unfoldable pub remove_index : ℕ → BlockPriorityQueue Basic Stake → BlockPriorityQueue Basic Stake
  remove_index i pq = elim (get_elem? pq.bh i) [
    | none ↦ pq
    | some b ↦
        rescan_min_max_for_remove b.height
          (record pq { bh = remove_heap pq.less_fn set_heap_idx i pq.bh })
  ]

  unfoldable pub remove_block :
      CachedBlock Basic Stake → BlockPriorityQueue Basic Stake → BlockPriorityQueue Basic Stake
  remove_block b pq = elim b.heap_idx [
    | none ↦ pq
    | some i ↦
        let removed = remove_index i pq in
        elim (get_elem? pq.bh i) [
          | none ↦ pq
          | some there ↦ if ltb 0 i && there.hash == b.hash then removed else pq
        ]
  ]

  -- The blocks that `ResetHeap` copies.
  unfoldable pub reset_blocks :
      ℕ → ℕ → List (CachedBlock Basic Stake) → List (CachedBlock Basic Stake)
  reset_blocks now i [] = []
  reset_blocks now i (b ∷ bs) =
      record b { heap_idx = some i; accesses = 1; access_time = now } ∷ reset_blocks now (suc i) bs

  unfoldable pub reset_heap :
      ℕ
      → List (CachedBlock Basic Stake)
      → BlockPriorityQueue Basic Stake
      → BlockPriorityQueue Basic Stake
  reset_heap now bs pq =
      let emptied : BlockPriorityQueue Basic Stake = record pq {
        max_height = negsuc 0;
        min_height = max_uint32;
      } in
      record (rescan_loop bs emptied) {
        bh = init_heap pq.less_fn set_heap_idx (reset_blocks now 0 bs);
        needs_reheap = false;
      }

  unfoldable pub reheap : BlockPriorityQueue Basic Stake → BlockPriorityQueue Basic Stake
  reheap pq = record pq { needs_reheap = false; bh = init_heap pq.less_fn set_heap_idx pq.bh }

  -- `doesNeedReheap` at a time, which is seven seconds past the last access.
  unfoldable pub does_need_reheap : ℕ → BlockPriorityQueue Basic Stake → Bool
  does_need_reheap now pq = pq.needs_reheap && ltb (pq.last_access + 7000000000) now
