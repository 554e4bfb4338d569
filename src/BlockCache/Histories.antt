-- ===== src/BlockCache/Histories.antt =====
-- Sequences of calls of `APICache` in api/types/apicache.go.
use mathlib.Core.Path.{subst}
use hdfdata.BlockCache.Shuffle.{one, count, count-init_heap}
use hdfdata.BlockCache.Queue.{
  HashText, BlockDataBasic, StakeInfoExtended, CachedBlock, set_heap_idx, set_less_fn,
  new_block_priority_queue,
}
use hdfdata.BlockCache.Changes.{reheap}
use hdfdata.BlockCache.Insert.{named, queued}
use hdfdata.BlockCache.Synced.{IsSynced, is_hash, is_bad, count-all}
use hdfdata.BlockCache.Stores.{
  get_cached_block_by_hash-IsSynced, store_block_summary-IsSynced, store_stake_info-IsSynced,
  remove_cached_block_kept, switched-IsSynced,
}
use hdfdata.BlockCache.{
  ApiCache, Hash, store_block_summary, store_stake_info, get_cached_block_by_hash, new_api_cache,
  remove_cached_block, enable, disable, set_less,
}
use hdfdata.Base.{
  ℕ, ◌≡◌, ◌≤◌, refl, ◌∙◌, inl, inr, Bool, true, false, not, ◌&&◌, Option, some, List, [], ◌∷◌,
  arith, ◌==◌, if◌then◌else◌, Bool-cases, Option-cases, length, find, del, keys, Distinct, member,
  find-del, member-keys,
}

module _ {A : Type 0} where
  -- A test that more elements pass.
  count-weaken :
      (xs : List A) (p q : A → Bool) → ((a : A) → one (p a) ≤ one (q a)) → count p xs ≤ count q xs
  count-weaken [] p q h = omega arith
  count-weaken (x ∷ xs) p q h = omega (arith, h x, count-weaken xs p q h)

module _ {Basic Stake : Type 0} (new_hash_from_str : HashText → Option Hash) where
  -- A call of a method, or a reheap by `WatchPriorityQueue`. A block is removed after it was found.
  pub data CallStep (c c' : ApiCache Basic Stake) : Type 0 where
    summary_stored :
        (now : ℕ) (summary : BlockDataBasic Basic)
        → store_block_summary new_hash_from_str now summary c ≡ some c'
        → CallStep c c'
    info_stored :
        (now : ℕ) (info : StakeInfoExtended Stake)
        → store_stake_info new_hash_from_str now info c ≡ some c'
        → CallStep c c'
    read : (now : ℕ) (hash : Hash) → (get_cached_block_by_hash now hash c).0 ≡ c' → CallStep c c'
    removed :
        (hash : Hash) (b : CachedBlock Basic Stake)
        → find hash c.block_cache ≡ some b
        → remove_cached_block new_hash_from_str (some b) c ≡ some c'
        → CallStep c c'
    switched : (enabled : Bool) → (if enabled then enable c else disable c) ≡ c' → CallStep c c'
    less_set :
        (less : CachedBlock Basic Stake → CachedBlock Basic Stake → Bool)
        → set_less less c ≡ c'
        → CallStep c c'
    reheaped : record c { expire_queue = reheap c.expire_queue } ≡ c' → CallStep c c'

  stored-IsSynced :
      (c1 c' : ApiCache Basic Stake) (r : Option (ApiCache Basic Stake))
      → r ≡ some c1
      → IsSynced new_hash_from_str c1
      → r ≡ some c'
      → IsSynced new_hash_from_str c'
  stored-IsSynced c1 c' r e s e' =
      let same : c1 ≡ c' = cc in subst (IsSynced new_hash_from_str) same s

  removed-IsSynced :
      (height : ℕ) (c : ApiCache Basic Stake)
      → IsSynced new_hash_from_str c
      → IsSynced new_hash_from_str (record c { mainchain_blocks = del height c.mainchain_blocks })
  removed-IsSynced height c s = record {
    queue_capacity = s.queue_capacity;
    queue_le = s.queue_le;
    distinct = s.distinct;
    same_length = s.same_length;
    cached_queued = s.cached_queued;
    parsed = s.parsed;
    mainchain_queued = λ h x e. elim (Bool-cases (h == height)) [
      | inl t ↦ absurd (ground (arith, find-del h height c.mainchain_blocks, t, e))
      | inr f ↦ s.mainchain_queued h x (ground (arith, find-del h height c.mainchain_blocks, f, e))
    ];
    own_copies = s.own_copies;
  }

  less_set-IsSynced :
      (less : CachedBlock Basic Stake → CachedBlock Basic Stake → Bool) (c : ApiCache Basic Stake)
      → IsSynced new_hash_from_str c
      → IsSynced new_hash_from_str (set_less less c)
  unfolding set_less set_less_fn
  less_set-IsSynced less c s = record {
    queue_capacity = s.queue_capacity;
    queue_le = s.queue_le;
    distinct = s.distinct;
    same_length = s.same_length;
    cached_queued = s.cached_queued;
    parsed = s.parsed;
    mainchain_queued = s.mainchain_queued;
    own_copies = s.own_copies;
  }

  reheaped-IsSynced :
      (c : ApiCache Basic Stake)
      → IsSynced new_hash_from_str c
      → IsSynced new_hash_from_str (record c { expire_queue = reheap c.expire_queue })
  unfolding reheap set_heap_idx
  reheaped-IsSynced c s =
      let same = λ (q : HashText → ℕ → Bool).
        count-init_heap c.expire_queue.less_fn set_heap_idx (named q) (λ j a. refl)
          c.expire_queue.bh in
      let same_length : length (reheap c.expire_queue).bh ≡ length c.expire_queue.bh = omega (
        arith,
        same (λ t n. true),
        count-all c.expire_queue.bh,
        count-all (reheap c.expire_queue).bh,
      ) in
      record {
        queue_capacity = s.queue_capacity;
        queue_le = omega (arith, same_length, s.queue_le);
        distinct = s.distinct;
        same_length = omega (arith, same_length, s.same_length);
        cached_queued = λ x. same (λ t n. is_hash new_hash_from_str x t) ∙ s.cached_queued x;
        parsed = same (λ t n. is_bad new_hash_from_str t) ∙ s.parsed;
        mainchain_queued = λ h x e. omega (
          arith,
          same (λ t n. is_hash new_hash_from_str x t && n == h),
          s.mainchain_queued h x e,
        );
        own_copies = s.own_copies;
      }

  CallStep-IsSynced :
      (c c' : ApiCache Basic Stake)
      → CallStep c c'
      → IsSynced new_hash_from_str c
      → IsSynced new_hash_from_str c'
  unfolding store_block_summary store_stake_info enable disable
  CallStep-IsSynced c c' (summary_stored now summary e) s =
      elim (Option-cases (new_hash_from_str summary.hash)) [
        | inr (hash, parsed) ↦
            let (c1, e1, s1) =
              store_block_summary-IsSynced new_hash_from_str now summary hash c s parsed in
            stored-IsSynced c1 c' _ e1 s1 e
        | inl bad ↦ elim (Bool-cases (not c.is_enabled)) [
          | inl off ↦ stored-IsSynced c c' _ (rw (store_block_summary, off) refl) s e
          | inr on ↦ absurd (ground (arith, bad, on, e))
        ]
      ]
  CallStep-IsSynced c c' (info_stored now info e) s =
      elim (Option-cases (new_hash_from_str info.hash)) [
        | inr (hash, parsed) ↦
            let (c1, e1, s1) =
              store_stake_info-IsSynced new_hash_from_str now info hash c s parsed in
            stored-IsSynced c1 c' _ e1 s1 e
        | inl bad ↦ elim (Bool-cases (not c.is_enabled)) [
          | inl off ↦ stored-IsSynced c c' _ (rw (store_stake_info, off) refl) s e
          | inr on ↦ absurd (ground (arith, bad, on, e))
        ]
      ]
  CallStep-IsSynced c c' (read now hash e) s =
      subst (IsSynced new_hash_from_str) e
        (get_cached_block_by_hash-IsSynced new_hash_from_str now hash c s)
  CallStep-IsSynced c c' (removed hash b there e) s =
      stored-IsSynced (record c { mainchain_blocks = del b.height c.mainchain_blocks }) c' _
        (remove_cached_block_kept new_hash_from_str hash b c s there)
        (removed-IsSynced b.height c s) e
  CallStep-IsSynced c c' (switched true e) s =
      subst (IsSynced new_hash_from_str) e (switched-IsSynced new_hash_from_str true c s)
  CallStep-IsSynced c c' (switched false e) s =
      subst (IsSynced new_hash_from_str) e (switched-IsSynced new_hash_from_str false c s)
  CallStep-IsSynced c c' (less_set less e) s =
      subst (IsSynced new_hash_from_str) e (less_set-IsSynced less c s)
  CallStep-IsSynced c c' (reheaped e) s =
      subst (IsSynced new_hash_from_str) e (reheaped-IsSynced c s)

  -- The caches that calls lead to, from a new one of a capacity.
  pub data Reach (capacity : ℕ) : ApiCache Basic Stake → Type 0 where
    new : Reach capacity (new_api_cache capacity)
    called : {c c' : ApiCache Basic Stake} → Reach capacity c → CallStep c c' → Reach capacity c'

  pub Reach-IsSynced :
      {capacity : ℕ} {c : ApiCache Basic Stake} → Reach capacity c → IsSynced new_hash_from_str c
  unfolding new_api_cache new_block_priority_queue
  Reach-IsSynced new = record {
    queue_capacity = refl;
    queue_le = omega arith;
    distinct = tt;
    same_length = refl;
    cached_queued = λ x. refl;
    parsed = refl;
    mainchain_queued = λ h x e. absurd (ground (arith, e));
    own_copies = λ x b e. absurd (ground (arith, e));
  }
  Reach-IsSynced (called {c} {c'} r step) = CallStep-IsSynced c c' step (Reach-IsSynced r)

  -- Whatever calls are made on a cache, it holds at most as many blocks as its capacity, under different hashes, and those
  -- are the blocks of its queue: a hash has one block in the queue when it is cached, and none when it is not.
  pub Reach-queued :
      (capacity : ℕ) (c : ApiCache Basic Stake)
      → Reach capacity c
      → (length c.block_cache ≤ c.capacity)
        × Distinct (keys c.block_cache)
        × ((x : Hash)
            → queued (λ t h. is_hash new_hash_from_str x t) c.expire_queue
              ≡ one (member x (keys c.block_cache)))
  Reach-queued capacity c r =
      let s = Reach-IsSynced r in
      (omega (arith, s.same_length, s.queue_le), s.distinct, s.cached_queued)

  -- Whatever calls are made on a cache, a height that the main chain has leads to a block that is cached.
  pub Reach-mainchain :
      (capacity : ℕ) (c : ApiCache Basic Stake) (height : ℕ) (hash : Hash)
      → Reach capacity c
      → find height c.mainchain_blocks ≡ some hash
      → (b : CachedBlock Basic Stake) × (find hash c.block_cache ≡ some b)
  Reach-mainchain capacity c height hash r e =
      let s = Reach-IsSynced r in
      let seen = s.mainchain_queued height hash e in
      let more =
        count-weaken c.expire_queue.bh
          (named (λ t n. is_hash new_hash_from_str hash t && n == height))
          (named (λ t n. is_hash new_hash_from_str hash t)) (λ b. ground arith) in
      elim (Option-cases (find hash c.block_cache)) [
        | inr found ↦ found
        | inl gone ↦
            absurd (
              ground
                (arith, seen, more, s.cached_queued hash, member-keys hash c.block_cache, gone))
      ]
