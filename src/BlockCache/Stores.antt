-- ===== src/BlockCache/Stores.antt =====
-- The operations of `APICache` in api/types/apicache.go keep its map and its queue together.
use hdfdata.BlockCache.Insert.{insert_given-Outcome}
use hdfdata.BlockCache.Queue.{
  HashText, BlockDataBasic, StakeInfoExtended, CachedBlock, access, check_block_height_hash,
  new_cached_block,
}
use hdfdata.BlockCache.Changes.{insert_given, insert_block, remove_block}
use hdfdata.BlockCache.Synced.{IsSynced, after_insert-IsSynced}
use hdfdata.BlockCache.{
  ApiCache, Hash, after_insert, store_new, store_block_summary, store_stake_info,
  get_cached_block_by_hash, remove_cached_block,
}
use hdfdata.Base.{
  ℕ, ◌≡◌, refl, sym, ◌∙◌, ap, inl, inr, Bool, true, not, Option, none, some, arith, ◌==◌, ==_iff,
  Bool-cases, Option-cases, length, find, put, del, keys, member, find-put, member-keys,
  member-keys-put, put-Distinct, length-put,
}

module _ {Basic Stake : Type 0} (new_hash_from_str : HashText → Option Hash) where
  -- Data of one block, and the block made of it.
  abbrev pub SetsBlock :
      HashText → ℕ → Option (BlockDataBasic Basic) → Option (StakeInfoExtended Stake) → Type 0
  SetsBlock text height summary stake_info =
      (new : CachedBlock Basic Stake) × (new_cached_block summary stake_info ≡ some new)
      × (new.hash ≡ text)
      × (new.height ≡ height)
      × (new.heap_idx ≡ none)

  -- A new block is stored: there is no panic, and the map and the queue stay together.
  store_new-IsSynced :
      (now : ℕ) (hash : Hash) (new : CachedBlock Basic Stake)
      (summary : Option (BlockDataBasic Basic)) (stake_info : Option (StakeInfoExtended Stake))
      (c : ApiCache Basic Stake)
      → IsSynced new_hash_from_str c
      → find hash c.block_cache ≡ none
      → new_hash_from_str new.hash ≡ some hash
      → new.heap_idx ≡ none
      → new_cached_block summary stake_info ≡ some new
      → insert_block new_hash_from_str now summary stake_info c.expire_queue
        ≡ insert_given new_hash_from_str now summary stake_info c.expire_queue
      → (c' : ApiCache Basic Stake) × (store_new new_hash_from_str now hash new.height summary
            stake_info c
          ≡ some c')
        × IsSynced new_hash_from_str c'
  unfolding store_new
  store_new-IsSynced now hash new summary stake_info c s fresh parsed idle made given =
      let (pq, result, ends, outcome) =
        insert_given-Outcome new_hash_from_str now summary stake_info new c.expire_queue made in
      (
        after_insert hash new.height (access now new) pq result c,
        rw (store_new, made, given, ends) refl,
        after_insert-IsSynced new_hash_from_str now c hash new s fresh parsed idle pq result
            outcome,
      )

  -- The setting of a field of a block in the map that keeps its hash and its place.
  write_block-IsSynced :
      (hash : Hash) (b b' : CachedBlock Basic Stake) (c c' : ApiCache Basic Stake)
      → IsSynced new_hash_from_str c
      → find hash c.block_cache ≡ some b
      → b'.hash ≡ b.hash
      → b'.heap_idx ≡ b.heap_idx
      → c'.capacity ≡ c.capacity
      → c'.expire_queue.bh ≡ c.expire_queue.bh
      → c'.expire_queue.capacity ≡ c.expire_queue.capacity
      → c'.mainchain_blocks ≡ c.mainchain_blocks
      → c'.block_cache ≡ put hash b' c.block_cache
      → IsSynced new_hash_from_str c'
  write_block-IsSynced hash b b' c c' s there same_hash same_idx same_cap same_bh same_queue_cap
        same_main written =
      let present : member hash (keys c.block_cache) ≡ true =
        member-keys hash c.block_cache ∙ rw there refl in
      record {
        queue_capacity = same_queue_cap ∙ s.queue_capacity ∙ sym same_cap;
        queue_le = omega (arith, ap length same_bh, same_cap, s.queue_le);
        distinct = rw written (put-Distinct hash b' c.block_cache s.distinct);
        same_length =
            rw (written, same_bh)
              (ground (arith, length-put hash b' c.block_cache, present, s.same_length));
        cached_queued = λ x.
            rw (written, same_bh)
              (ground (
                arith,
                member-keys-put x hash b' c.block_cache,
                s.cached_queued x,
                ==_iff x hash,
                present,
              ));
        parsed = rw same_bh s.parsed;
        mainchain_queued = λ h x e. rw same_bh (s.mainchain_queued h x (rw same_main at e));
        own_copies = λ x d e. elim (Bool-cases (x == hash)) [
          | inl t ↦
              let same : b' ≡ d = cc (rw (written, find-put x hash b' c.block_cache, t) at e) in
              let (known, idle) = s.own_copies hash b there in
              rw (← same, (==_iff x hash).0 t, same_hash, same_idx) (known, idle)
          | inr f ↦ s.own_copies x d (rw (written, find-put x hash b' c.block_cache, f) at e)
        ];
      }

  pub switched-IsSynced :
      (enabled : Bool) (c : ApiCache Basic Stake)
      → IsSynced new_hash_from_str c
      → IsSynced new_hash_from_str (record c { is_enabled = enabled })
  switched-IsSynced enabled c s = record {
    queue_capacity = s.queue_capacity;
    queue_le = s.queue_le;
    distinct = s.distinct;
    same_length = s.same_length;
    cached_queued = s.cached_queued;
    parsed = s.parsed;
    mainchain_queued = s.mainchain_queued;
    own_copies = s.own_copies;
  }

  pub get_cached_block_by_hash-IsSynced :
      (now : ℕ) (hash : Hash) (c : ApiCache Basic Stake)
      → IsSynced new_hash_from_str c
      → IsSynced new_hash_from_str (get_cached_block_by_hash now hash c).0
  unfolding get_cached_block_by_hash access
  get_cached_block_by_hash-IsSynced now hash c s = elim (Option-cases (find hash c.block_cache)) [
    | inl gone ↦
        rw (get_cached_block_by_hash, gone)
          (record {
            queue_capacity = s.queue_capacity;
            queue_le = s.queue_le;
            distinct = s.distinct;
            same_length = s.same_length;
            cached_queued = s.cached_queued;
            parsed = s.parsed;
            mainchain_queued = s.mainchain_queued;
            own_copies = s.own_copies;
          })
    | inr (b, there) ↦
        rw (get_cached_block_by_hash, there)
          (write_block-IsSynced hash b (access now b) c _ s there refl refl refl refl refl refl
            refl)
  ]

  -- A summary whose hash parses is stored, or is there already, or its block is not worth it: there is no panic, and the
  -- map and the queue stay together.
  pub store_block_summary-IsSynced :
      (now : ℕ) (summary : BlockDataBasic Basic) (hash : Hash) (c : ApiCache Basic Stake)
      → IsSynced new_hash_from_str c
      → new_hash_from_str summary.hash ≡ some hash
      → (c' : ApiCache Basic Stake) × (store_block_summary new_hash_from_str now summary c
          ≡ some c')
        × IsSynced new_hash_from_str c'
  unfolding store_block_summary insert_block new_cached_block check_block_height_hash
  store_block_summary-IsSynced now summary hash c s parsed = elim (Bool-cases (not c.is_enabled)) [
    | inl off ↦ (c, rw (store_block_summary, off) refl, s)
    | inr on ↦ elim (Option-cases (find hash c.block_cache)) [
      | inl fresh ↦
          let (c', ends, s') =
            store_new-IsSynced now hash _ (some summary) none c s fresh parsed refl refl refl in
          (c', rw (store_block_summary, on, parsed, fresh) ends, s')
      | inr (b, there) ↦ elim (Option-cases b.summary) [
        | inr (old, set) ↦ (c, rw (store_block_summary, on, parsed, there, set) refl, s)
        | inl unset ↦ (
          record c { block_cache = put hash (record b { summary = some summary }) c.block_cache },
          rw (store_block_summary, on, parsed, there, unset) refl,
          write_block-IsSynced hash b (record b { summary = some summary }) c _ s there refl refl
              refl refl refl refl refl,
        )
      ]
    ]
  ]

  -- Likewise a stake info.
  pub store_stake_info-IsSynced :
      (now : ℕ) (info : StakeInfoExtended Stake) (hash : Hash) (c : ApiCache Basic Stake)
      → IsSynced new_hash_from_str c
      → new_hash_from_str info.hash ≡ some hash
      → (c' : ApiCache Basic Stake) × (store_stake_info new_hash_from_str now info c ≡ some c')
        × IsSynced new_hash_from_str c'
  unfolding store_stake_info insert_block new_cached_block check_block_height_hash
  store_stake_info-IsSynced now info hash c s parsed = elim (Bool-cases (not c.is_enabled)) [
    | inl off ↦ (c, rw (store_stake_info, off) refl, s)
    | inr on ↦ elim (Option-cases (find hash c.block_cache)) [
      | inl fresh ↦
          let (c', ends, s') =
            store_new-IsSynced now hash _ none (some info) c s fresh parsed refl refl refl in
          (c', rw (store_stake_info, on, parsed, fresh) ends, s')
      | inr (b, there) ↦ elim (Option-cases b.stake_info) [
        | inr (old, set) ↦ (c, rw (store_stake_info, on, parsed, there, set) refl, s)
        | inl unset ↦ (
          record c { block_cache = put hash (record b { stake_info = some info }) c.block_cache },
          rw (store_stake_info, on, parsed, there, unset) refl,
          write_block-IsSynced hash b (record b { stake_info = some info }) c _ s there refl refl
              refl refl refl refl refl,
        )
      ]
    ]
  ]

  -- A block that the cache has returned is not removed by `RemoveCachedBlock`: it stays in the map and in the queue, and only
  -- what the main chain has at its height goes.
  pub remove_cached_block_kept :
      (hash : Hash) (b : CachedBlock Basic Stake) (c : ApiCache Basic Stake)
      → IsSynced new_hash_from_str c
      → find hash c.block_cache ≡ some b
      → remove_cached_block new_hash_from_str (some b) c
        ≡ some (record c { mainchain_blocks = del b.height c.mainchain_blocks })
  unfolding remove_cached_block remove_block
  remove_cached_block_kept hash b c s there =
      let (known, idle) = s.own_copies hash b there in
      rw (remove_cached_block, known, remove_block, idle) refl
