-- ===== src/BlockCache/Insert.antt =====
-- What `BlockPriorityQueue.Insert` of api/types/apicache.go does to the blocks of the queue.
use hdfdata.BlockCache.Heap.{set_elem, fix_heap}
use hdfdata.BlockCache.Shuffle.{one, count, count-set_elem, count-fix_heap, count-push_heap}
use hdfdata.BlockCache.Queue.{
  HashText, BlockDataBasic, StakeInfoExtended, CachedBlock, BlockPriorityQueue, Inserted, access,
  check_block_height_hash, new_cached_block, set_heap_idx, update_min_max, rescan_loop,
  rescan_min_max, rescan_min_max_for_update, not_inserted,
}
use hdfdata.BlockCache.Changes.{push_block, update_block, insert_given}
use hdfdata.Base.{
  ℕ, ◌+◌, ◌≡◌, ◌<◌, refl, ◌∙◌, ap, inl, inr, Bool, true, ◌&&◌, ◌||◌, Option, none, some, List, [],
  ◌∷◌, pos, negsuc, arith, leb, ◌==◌, eqb_ℤ, Bool-cases, Option-cases, length, get_elem?,
  get_elem?-lt,
}

module _ {Basic Stake : Type 0} where
  rescan_loop-bh :
      (bs : List (CachedBlock Basic Stake)) (pq : BlockPriorityQueue Basic Stake)
      → ((rescan_loop bs pq).bh ≡ pq.bh) × ((rescan_loop bs pq).capacity ≡ pq.capacity)
  unfolding rescan_loop update_min_max
  rescan_loop-bh [] pq = (refl, refl)
  rescan_loop-bh (b ∷ bs) pq = rescan_loop-bh bs (update_min_max b.height pq)

  rescan_min_max_for_update-bh :
      (added removed : ℕ) (pq : BlockPriorityQueue Basic Stake)
      → ((rescan_min_max_for_update added removed pq).bh ≡ pq.bh)
        × ((rescan_min_max_for_update added removed pq).capacity ≡ pq.capacity)
  unfolding rescan_min_max_for_update rescan_min_max update_min_max
  rescan_min_max_for_update-bh added removed pq =
      elim (Bool-cases (
        (removed == pq.min_height && leb removed added)
        || (eqb_ℤ (pos removed) pq.max_height && leb added removed))) [
          | inl t ↦ rw (rescan_min_max_for_update, t) (rescan_loop-bh pq.bh pq)
          | inr f ↦ rw (rescan_min_max_for_update, f) (refl, refl)
        ]

  -- A test of hash and height.
  abbrev pub named : (HashText → ℕ → Bool) → CachedBlock Basic Stake → Bool
  named q b = q b.hash b.height

  -- The number of blocks of the queue with a hash and height that pass a test.
  abbrev pub queued : (HashText → ℕ → Bool) → BlockPriorityQueue Basic Stake → ℕ
  queued q pq = count (named q) pq.bh

  pub name_of : Option (CachedBlock Basic Stake) → Option (ℕ × HashText)
  name_of none = none
  name_of (some b) = some (b.height, b.hash)

  pub checked_of_new :
      (summary : Option (BlockDataBasic Basic)) (stake_info : Option (StakeInfoExtended Stake))
      (new : CachedBlock Basic Stake)
      → new_cached_block summary stake_info ≡ some new
      → check_block_height_hash summary stake_info ≡ some (new.height, new.hash)
  unfolding new_cached_block name_of
  checked_of_new summary stake_info new e =
      elim (Option-cases (check_block_height_hash summary stake_info)) [
        | inl mismatch ↦ absurd (ground (arith, mismatch, e))
        | inr ((height, hash), agreed) ↦ agreed ∙ ap name_of (rw (new_cached_block, agreed) at e)
      ]

  -- What `UpdateBlock` of a block at its own place does to the queue.
  update_block-queued :
      (now i height : ℕ) (hash : HashText) (summary : Option (BlockDataBasic Basic))
      (stake_info : Option (StakeInfoExtended Stake)) (b : CachedBlock Basic Stake)
      (pq : BlockPriorityQueue Basic Stake) (q : HashText → ℕ → Bool)
      → get_elem? pq.bh i ≡ some b
      → check_block_height_hash summary stake_info ≡ some (height, hash)
      → (queued q (update_block now i summary stake_info pq) + one (q b.hash b.height)
          ≡ queued q pq + one (q hash height))
        × ((update_block now i summary stake_info pq).capacity ≡ pq.capacity)
  unfolding update_block set_heap_idx
  update_block-queued now i height hash summary stake_info b pq q there agreed =
      let b' : CachedBlock Basic Stake = record {
        height = height;
        hash = hash;
        summary = summary;
        stake_info = stake_info;
        accesses = 1;
        access_time = now;
        heap_idx = b.heap_idx;
      } in
      let changed = count-set_elem (named q) i b b' pq.bh there in
      elim (Option-cases b.heap_idx) [
        | inl nowhere ↦
            let (same, cap) =
              rescan_min_max_for_update-bh height b.height
                (record pq { bh = set_elem i b' pq.bh }) in
            rw (update_block, there, agreed, nowhere, same) (changed, cap)
        | inr (at, known) ↦
            let fixed =
              count-fix_heap pq.less_fn set_heap_idx (named q) (λ j a. refl) at
                (set_elem i b' pq.bh) in
            let (same, cap) =
              rescan_min_max_for_update-bh height b.height
                (record pq { bh = fix_heap pq.less_fn set_heap_idx at (set_elem i b' pq.bh) }) in
            rw (update_block, there, agreed, known, same) (omega (arith, fixed, changed), cap)
      ]

module _ {Basic Stake Hash : Type 0} (new_hash_from_str : HashText → Option Hash) where
  -- How an insertion ends: it leaves the queue as it was, or adds the new block, or puts it in the place of the
  -- first one.
  pub data Outcome (new : CachedBlock Basic Stake) (pq pq' : BlockPriorityQueue Basic Stake)
      : Inserted Hash → Type 0 where
    unchanged : pq' ≡ pq → Outcome new pq pq' not_inserted
    grown :
        length pq.bh < pq.capacity
        → ((q : HashText → ℕ → Bool) → queued q pq' ≡ queued q pq + one (q new.hash new.height))
        → pq'.capacity ≡ pq.capacity
        → Outcome new pq pq' (record { added = true; removed = none; removed_height = negsuc 0 })
    replaced :
        (top : CachedBlock Basic Stake)
        → get_elem? pq.bh 0 ≡ some top
        → ((q : HashText → ℕ → Bool)
            → queued q pq' + one (q top.hash top.height)
              ≡ queued q pq + one (q new.hash new.height))
        → pq'.capacity ≡ pq.capacity
        → Outcome new pq pq' (record {
          added = true;
          removed = new_hash_from_str top.hash;
          removed_height = pos top.height;
        })

  abbrev pub InsertEnd :
      ℕ
      → Option (BlockDataBasic Basic)
      → Option (StakeInfoExtended Stake)
      → CachedBlock Basic Stake
      → BlockPriorityQueue Basic Stake
      → Type 0
  InsertEnd now summary stake_info new pq =
      (pq' : BlockPriorityQueue Basic Stake) × (result : Inserted Hash) × (insert_given
          new_hash_from_str now summary stake_info pq
        ≡ some (pq', result))
      × Outcome new pq pq' result

  push_block-queued :
      (now : ℕ) (new : CachedBlock Basic Stake) (pq : BlockPriorityQueue Basic Stake)
      (q : HashText → ℕ → Bool)
      → queued q (push_block now new pq) ≡ queued q pq + one (q new.hash new.height)
  unfolding push_block set_heap_idx access
  push_block-queued now new pq q =
      count-push_heap pq.less_fn set_heap_idx (named q) (λ j a. refl)
        (record (access now new) { heap_idx = some (length pq.bh) }) pq.bh

  pub insert_given-Outcome :
      (now : ℕ) (summary : Option (BlockDataBasic Basic))
      (stake_info : Option (StakeInfoExtended Stake)) (new : CachedBlock Basic Stake)
      (pq : BlockPriorityQueue Basic Stake)
      → new_cached_block summary stake_info ≡ some new
      → InsertEnd now summary stake_info new pq
  unfolding insert_given update_min_max push_block
  insert_given-Outcome now summary stake_info new pq made = elim (Bool-cases (pq.capacity == 0)) [
    | inl closed ↦ (pq, not_inserted, rw (insert_given, closed) refl, unchanged refl)
    | inr opened ↦ elim (Bool-cases (leb pq.capacity (length pq.bh))) [
      | inr room ↦ (
        record (update_min_max new.height (push_block now new pq)) { last_access = now },
        record { added = true; removed = none; removed_height = negsuc 0 },
        rw (insert_given, opened, room, made) refl,
        grown (ground (arith, room)) (push_block-queued now new pq) refl,
      )
      | inl full ↦
          let (top, there) = get_elem?-lt pq.bh 0 (ground (arith, opened, full)) in
          elim (Bool-cases (pq.less_fn top (record (access now new) { heap_idx = some 0 }))) [
            | inr low ↦ (
              pq,
              not_inserted,
              rw (insert_given, opened, full, made, there, low) refl,
              unchanged refl,
            )
            | inl high ↦
                let ends =
                  update_block-queued now 0 new.height new.hash summary stake_info top pq in
                let agreed = checked_of_new summary stake_info new made in
                (
                  update_block now 0 summary stake_info pq,
                  record {
                    added = true;
                    removed = new_hash_from_str top.hash;
                    removed_height = pos top.height;
                  },
                  rw (insert_given, opened, full, made, there, high) refl,
                  replaced top there (λ q. (ends q there agreed).0)
                      (ends (λ h n. true) there agreed).1,
                )
          ]
    ]
  ]
