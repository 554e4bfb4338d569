-- ===== src/BlockCache/Reads.antt =====
-- The methods of `APICache` of api/types/apicache.go that read.
use hdfdata.BlockCache.Queue.{HashText, BlockDataBasic, StakeInfoExtended, CachedBlock}
use hdfdata.BlockCache.{ApiCache, Hash, find_at, get_cached_block_by_hash}
use hdfdata.Base.{ℕ, ◌-◌, not, Option, none, some, ℤ, pos, negsuc, ltb, if◌then◌else◌}

-- The conversion of a uint32 to int32.
abbrev pub to_int32 : ℕ → ℤ
to_int32 n = if ltb n 2147483648 then pos n else negsuc (4294967295 - n)

module _ {Basic Stake : Type 0} where
  module _ (new_hash_from_str : HashText → Option Hash) where
    unfoldable pub get_cached_block_by_hash_str :
        ℕ
        → HashText
        → ApiCache Basic Stake
        → ApiCache Basic Stake × Option (CachedBlock Basic Stake)
    get_cached_block_by_hash_str now text c = elim (new_hash_from_str text) [
      | none ↦ (c, none)
      | some hash ↦ get_cached_block_by_hash now hash c
    ]

    unfoldable pub get_stake_info_by_hash :
        ℕ
        → HashText
        → ApiCache Basic Stake
        → ApiCache Basic Stake × Option (StakeInfoExtended Stake)
    get_stake_info_by_hash now text c =
        if not c.is_enabled
        then (c, none)
        else let (c', b) = get_cached_block_by_hash_str now text c in
          (c', elim b [ none ↦ none | some there ↦ there.stake_info ])

    unfoldable pub get_block_summary_by_hash :
        ℕ → HashText → ApiCache Basic Stake → ApiCache Basic Stake × Option (BlockDataBasic Basic)
    get_block_summary_by_hash now text c =
        if not c.is_enabled
        then (c, none)
        else let (c', b) = get_cached_block_by_hash_str now text c in
          (c', elim b [ none ↦ none | some there ↦ there.summary ])

  unfoldable pub block_hash : ℤ → ApiCache Basic Stake → Option Hash
  block_hash height c = find_at height c.mainchain_blocks

  -- `GetBlockHash`, `none` for the empty string.
  unfoldable pub get_block_hash : ℤ → ApiCache Basic Stake → Option Hash
  get_block_hash height c = if not c.is_enabled then none else block_hash height c

  unfoldable pub get_cached_block_by_height :
      ℕ → ℤ → ApiCache Basic Stake → ApiCache Basic Stake × Option (CachedBlock Basic Stake)
  get_cached_block_by_height now height c = elim (find_at height c.mainchain_blocks) [
    | none ↦ (c, none)
    | some hash ↦ get_cached_block_by_hash now hash c
  ]

  unfoldable pub get_block_size : ℕ → ℤ → ApiCache Basic Stake → ApiCache Basic Stake × ℤ
  get_block_size now height c =
      if not c.is_enabled
      then (c, negsuc 0)
      else let (c', b) = get_cached_block_by_height now height c in
        (
          c',
          elim b [
            | none ↦ negsuc 0
            | some there ↦ elim there.summary [ none ↦ negsuc 0 | some s ↦ to_int32 s.size ]
          ],
        )

  unfoldable pub get_block_summary :
      ℕ → ℤ → ApiCache Basic Stake → ApiCache Basic Stake × Option (BlockDataBasic Basic)
  get_block_summary now height c =
      if not c.is_enabled
      then (c, none)
      else let (c', b) = get_cached_block_by_height now height c in
        (c', elim b [ none ↦ none | some there ↦ there.summary ])

  unfoldable pub get_stake_info :
      ℕ → ℤ → ApiCache Basic Stake → ApiCache Basic Stake × Option (StakeInfoExtended Stake)
  get_stake_info now height c =
      if not c.is_enabled
      then (c, none)
      else let (c', b) = get_cached_block_by_height now height c in
        (c', elim b [ none ↦ none | some there ↦ there.stake_info ])
