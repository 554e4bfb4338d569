-- ===== src/BlockCache/Queue.antt =====
-- `CachedBlock` and `BlockPriorityQueue` of api/types/apicache.go. A block in the queue is reached
-- through the queue only, which makes its own copies. The mutex is held by every exported
-- method, which is one step and reads the clock once: the time is an argument, in nanoseconds. Heights are those of uint32.
use hdfdata.Base.{
  ℕ, ◌+◌, ◌-◌, ◌*◌, Bool, false, ◌&&◌, ◌||◌, Option, none, some, List, [], ◌∷◌, ℤ, pos, negsuc, ltb,
  leb, ◌==◌, ltb_ℤ, eqb_ℤ, if◌then◌else◌,
}

-- A hash in hexadecimal, which is only compared and parsed: the number that its bytes spell.
abbrev pub HashText : Type 0
HashText = ℕ

-- The fields that the cache reads, and the others.
pub record BlockDataBasic (Basic : Type 0) : Type 0 where
  pub height : ℕ
  pub size : ℕ
  pub hash : HashText
  pub others : Basic

-- `fee_height` is `Feeinfo.Height`.
pub record StakeInfoExtended (Stake : Type 0) : Type 0 where
  pub hash : HashText
  pub fee_height : ℕ
  pub others : Stake

-- A heap index of -1 is `none`.
pub record CachedBlock (Basic Stake : Type 0) : Type 0 where
  pub height : ℕ
  pub hash : HashText
  pub summary : Option (BlockDataBasic Basic)
  pub stake_info : Option (StakeInfoExtended Stake)
  pub accesses : ℕ
  pub access_time : ℕ
  pub heap_idx : Option ℕ

pub record BlockPriorityQueue (Basic Stake : Type 0) : Type 0 where
  pub bh : List (CachedBlock Basic Stake)
  pub capacity : ℕ
  pub needs_reheap : Bool
  pub min_height : ℕ
  pub max_height : ℤ
  pub less_fn : CachedBlock Basic Stake → CachedBlock Basic Stake → Bool
  pub last_access : ℕ

-- What `Insert` returns: whether the block was added, and the hash and height of one removed.
pub record Inserted (Hash : Type 0) : Type 0 where
  pub added : Bool
  pub removed : Option Hash
  pub removed_height : ℤ

unfoldable pub not_inserted : {Hash : Type 0} → Inserted Hash
not_inserted = record { added = false; removed = none; removed_height = negsuc 0 }

abbrev pub max_uint32 : ℕ
max_uint32 = 4294967295

module _ {Basic Stake : Type 0} where
  unfoldable pub access : ℕ → CachedBlock Basic Stake → CachedBlock Basic Stake
  access now b = record b { accesses = b.accesses + 1; access_time = now }

  -- The height and hash of what is given, `none` for a mismatch. Both nil is a nil dereference, which
  -- the callers rule out, and is `none` too.
  unfoldable pub check_block_height_hash :
      Option (BlockDataBasic Basic) → Option (StakeInfoExtended Stake) → Option (ℕ × HashText)
  check_block_height_hash none none = none
  check_block_height_hash none (some st) = some (st.fee_height, st.hash)
  check_block_height_hash (some s) none = some (s.height, s.hash)
  check_block_height_hash (some s) (some st) =
      if s.height == st.fee_height && s.hash == st.hash then some (s.height, s.hash) else none

  unfoldable pub new_cached_block :
      Option (BlockDataBasic Basic)
      → Option (StakeInfoExtended Stake)
      → Option (CachedBlock Basic Stake)
  new_cached_block summary stake_info = elim (check_block_height_hash summary stake_info) [
    | none ↦ none
    | some (height, hash) ↦ some (record {
      height = height;
      hash = hash;
      summary = summary;
      stake_info = stake_info;
      accesses = 0;
      access_time = 0;
      heap_idx = none;
    })
  ]

  unfoldable pub less_by_height : CachedBlock Basic Stake → CachedBlock Basic Stake → Bool
  less_by_height bi bj = ltb bi.height bj.height

  unfoldable pub less_by_access_count : CachedBlock Basic Stake → CachedBlock Basic Stake → Bool
  less_by_access_count bi bj = ltb bi.accesses bj.accesses

  unfoldable pub less_by_access_time : CachedBlock Basic Stake → CachedBlock Basic Stake → Bool
  less_by_access_time bi bj = ltb bi.access_time bj.access_time

  unfoldable pub less_by_access_count_then_height :
      CachedBlock Basic Stake → CachedBlock Basic Stake → Bool
  less_by_access_count_then_height bi bj =
      if bi.accesses == bj.accesses then less_by_height bi bj else less_by_access_count bi bj

  -- A positive number of milliseconds; Go's quotient of the difference is 0 when the times are
  -- closer than that.
  unfoldable pub make_less_by_access_time_then_count :
      ℕ → CachedBlock Basic Stake → CachedBlock Basic Stake → Bool
  make_less_by_access_time_then_count millis bi bj =
      if ltb (bi.access_time - bj.access_time + (bj.access_time - bi.access_time))
        (millis * 1000000)
      then less_by_access_count bi bj
      else less_by_access_time bi bj

  unfoldable pub new_block_priority_queue : ℕ → BlockPriorityQueue Basic Stake
  new_block_priority_queue capacity = record {
    bh = [];
    capacity = capacity;
    needs_reheap = false;
    min_height = max_uint32;
    max_height = negsuc 0;
    less_fn = make_less_by_access_time_then_count 1;
    last_access = 0;
  }

  unfoldable pub set_less_fn :
      (CachedBlock Basic Stake → CachedBlock Basic Stake → Bool)
      → BlockPriorityQueue Basic Stake
      → BlockPriorityQueue Basic Stake
  set_less_fn less pq = record pq { less_fn = less }

  -- What `Swap` tells a block.
  unfoldable pub set_heap_idx : ℕ → CachedBlock Basic Stake → CachedBlock Basic Stake
  set_heap_idx i b = record b { heap_idx = some i }

  unfoldable pub update_min_max :
      ℕ → BlockPriorityQueue Basic Stake → BlockPriorityQueue Basic Stake
  update_min_max h pq = record pq {
    max_height = if ltb_ℤ pq.max_height (pos h) then pos h else pq.max_height;
    min_height = if ltb h pq.min_height then h else pq.min_height;
  }

  unfoldable pub rescan_loop :
      List (CachedBlock Basic Stake)
      → BlockPriorityQueue Basic Stake
      → BlockPriorityQueue Basic Stake
  rescan_loop [] pq = pq
  rescan_loop (b ∷ bs) pq = rescan_loop bs (update_min_max b.height pq)

  unfoldable pub rescan_min_max : BlockPriorityQueue Basic Stake → BlockPriorityQueue Basic Stake
  rescan_min_max pq = rescan_loop pq.bh pq

  unfoldable pub rescan_min_max_for_remove :
      ℕ → BlockPriorityQueue Basic Stake → BlockPriorityQueue Basic Stake
  rescan_min_max_for_remove height pq =
      if height == pq.min_height || eqb_ℤ (pos height) pq.max_height then rescan_min_max pq else pq

  unfoldable pub rescan_min_max_for_update :
      ℕ → ℕ → BlockPriorityQueue Basic Stake → BlockPriorityQueue Basic Stake
  rescan_min_max_for_update height_add height_remove pq = update_min_max height_add (
      if (height_remove == pq.min_height && leb height_remove height_add)
        || (eqb_ℤ (pos height_remove) pq.max_height && leb height_add height_remove)
      then rescan_min_max pq
      else pq)
