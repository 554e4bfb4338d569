-- ===== src/BlockCache/Synced.antt =====
-- How the map of `APICache` in api/types/apicache.go and its queue go together, and that a store keeps it so.
use hdfdata.BlockCache.Shuffle.{one, count}
use hdfdata.BlockCache.Insert.{Outcome, unchanged, grown, replaced, queued, named}
use hdfdata.BlockCache.Queue.{
  HashText, CachedBlock, BlockPriorityQueue, Inserted, access, not_inserted,
}
use hdfdata.BlockCache.{ApiCache, Hash, after_insert}
use hdfdata.Base.{
  ℕ, zero, suc, ◌+◌, ◌≡◌, ◌≤◌, ◌<◌, refl, sym, ◌∙◌, ap, inl, inr, Bool, true, false, ◌&&◌, Option,
  none, some, List, [], ◌∷◌, arith, ◌==◌, ==_iff, ==_refl, Bool-cases, Option-cases, length,
  get_elem?, member, Distinct, Dict, find, put, del, keys, find-put, find-del, member-keys,
  member-keys-put, member-keys-del, put-Distinct, del-Distinct, length-put, length-del,
}

module _ {A : Type 0} where
  pub count-all : (xs : List A) → count (λ _. true) xs ≡ length xs
  count-all [] = refl
  count-all (x ∷ xs) = omega (arith, count-all xs)

  pub count-get_elem? :
      (p : A → Bool) (i : ℕ) (a : A) (xs : List A)
      → get_elem? xs i ≡ some a
      → one (p a) ≤ count p xs
  count-get_elem? p i a [] e = absurd (ground arith)
  count-get_elem? p zero a (x ∷ xs) e = let same : x ≡ a = cc e in rw (← same) (omega arith)
  count-get_elem? p (suc i) a (x ∷ xs) e = omega (arith, count-get_elem? p i a xs e)

module _ (new_hash_from_str : HashText → Option Hash) where
  -- Whether a hash in hexadecimal is that of a block.
  abbrev pub is_hash : Hash → HashText → Bool
  is_hash x text = elim (new_hash_from_str text) [ none ↦ false | some y ↦ y == x ]

  abbrev pub is_bad : HashText → Bool
  is_bad text = elim (new_hash_from_str text) [ none ↦ true | some y ↦ false ]

module _ {Basic Stake : Type 0} (new_hash_from_str : HashText → Option Hash) where
  -- The map has one block for each that is queued, under its hash, and no more than the capacity; the main chain
  -- has blocks of the queue only, at their heights.
  pub record IsSynced (c : ApiCache Basic Stake) : Type 0 where
    pub queue_capacity : c.expire_queue.capacity ≡ c.capacity
    pub queue_le : length c.expire_queue.bh ≤ c.capacity
    pub distinct : Distinct (keys c.block_cache)
    pub same_length : length c.block_cache ≡ length c.expire_queue.bh
    pub cached_queued :
        (x : Hash)
        → queued (λ t h. is_hash new_hash_from_str x t) c.expire_queue
          ≡ one (member x (keys c.block_cache))
    pub parsed : queued (λ t h. is_bad new_hash_from_str t) c.expire_queue ≡ 0
    pub mainchain_queued :
        (h : ℕ) (x : Hash)
        → find h c.mainchain_blocks ≡ some x
        → 0 < queued (λ t n. is_hash new_hash_from_str x t && n == h) c.expire_queue
    pub own_copies :
        (x : Hash) (b : CachedBlock Basic Stake)
        → find x c.block_cache ≡ some b
        → (new_hash_from_str b.hash ≡ some x) × (b.heap_idx ≡ none)

  module _ (now : ℕ) (c : ApiCache Basic Stake) (hash : Hash) (new : CachedBlock Basic Stake)
      (s : IsSynced c) (fresh : find hash c.block_cache ≡ none)
      (parsed : new_hash_from_str new.hash ≡ some hash) (idle : new.heap_idx ≡ none) where
    -- The map and the main chain of a cache without the block that has left its queue, for which the new one came.
    record Cleared (d : Dict (CachedBlock Basic Stake)) (m : Dict Hash)
        (pq : BlockPriorityQueue Basic Stake) : Type 0 where
      queue_capacity : pq.capacity ≡ c.capacity
      queue_le : length pq.bh ≤ c.capacity
      distinct : Distinct (keys d)
      absent : member hash (keys d) ≡ false
      one_longer : suc (length d) ≡ length pq.bh
      cached_queued :
          (x : Hash)
          → queued (λ t h. is_hash new_hash_from_str x t) pq
            ≡ one (member x (keys d)) + one (hash == x)
      all_parsed : queued (λ t h. is_bad new_hash_from_str t) pq ≡ 0
      mainchain_queued :
          (h : ℕ) (x : Hash)
          → find h m ≡ some x
          → 0 < queued (λ t n. is_hash new_hash_from_str x t && n == h) pq
      new_queued : 0 < queued (λ t n. is_hash new_hash_from_str hash t && n == new.height) pq
      old_copies :
          (x : Hash) (b : CachedBlock Basic Stake)
          → find x d ≡ some b
          → find x c.block_cache ≡ some b

    Cleared-IsSynced :
        (d : Dict (CachedBlock Basic Stake)) (m : Dict Hash) (pq : BlockPriorityQueue Basic Stake)
        → Cleared d m pq
        → IsSynced (record c {
          expire_queue = pq;
          block_cache = put hash (access now new) d;
          mainchain_blocks = put new.height hash m;
        })
    unfolding access
    Cleared-IsSynced d m pq k = record {
      queue_capacity = k.queue_capacity;
      queue_le = k.queue_le;
      distinct = put-Distinct hash (access now new) d k.distinct;
      same_length = ground (arith, length-put hash (access now new) d, k.absent, k.one_longer);
      cached_queued = λ x. ground (
        arith,
        k.cached_queued x,
        ==_iff hash x,
        ==_iff x hash,
        k.absent,
        member-keys-put x hash (access now new) d,
      );
      parsed = k.all_parsed;
      mainchain_queued = λ h x e. elim (Bool-cases (h == new.height)) [
        | inl t ↦
            let same : hash ≡ x = cc (rw (find-put h new.height hash m, t) at e) in
            rw (← same, (==_iff h new.height).0 t) k.new_queued
        | inr f ↦ k.mainchain_queued h x (rw (find-put h new.height hash m, f) at e)
      ];
      own_copies = λ x b e. elim (Bool-cases (x == hash)) [
        | inl t ↦
            let same : access now new ≡ b = cc (rw (find-put x hash (access now new) d, t) at e) in
            rw (← same) (parsed ∙ ap some (sym ((==_iff x hash).0 t)), idle)
        | inr f ↦
            s.own_copies x b (k.old_copies x b (rw (find-put x hash (access now new) d, f) at e))
      ];
    }

    absent : member hash (keys c.block_cache) ≡ false
    absent = member-keys hash c.block_cache ∙ rw fresh refl

    new_hit : (x : Hash) → is_hash new_hash_from_str x new.hash ≡ (hash == x)
    new_hit x = rw (is_hash, parsed) refl

    new_good : is_bad new_hash_from_str new.hash ≡ false
    new_good = rw (is_bad, parsed) refl

    grown-Cleared :
        (pq : BlockPriorityQueue Basic Stake)
        → length c.expire_queue.bh < c.expire_queue.capacity
        → ((q : HashText → ℕ → Bool)
            → queued q pq ≡ queued q c.expire_queue + one (q new.hash new.height))
        → pq.capacity ≡ c.expire_queue.capacity
        → Cleared c.block_cache c.mainchain_blocks pq
    grown-Cleared pq room added kept =
        let longer : length pq.bh ≡ suc (length c.expire_queue.bh) =
          omega (arith, added (λ t n. true), count-all pq.bh, count-all c.expire_queue.bh) in
        record {
          queue_capacity = kept ∙ s.queue_capacity;
          queue_le = omega (arith, longer, room, s.queue_capacity);
          distinct = s.distinct;
          absent = absent;
          one_longer = omega (arith, longer, s.same_length);
          cached_queued = λ x.
              ground
                (arith, added (λ t h. is_hash new_hash_from_str x t), new_hit x, s.cached_queued x);
          all_parsed =
              ground (arith, added (λ t h. is_bad new_hash_from_str t), new_good, s.parsed);
          mainchain_queued = λ h x e. omega (
            arith,
            added (λ t n. is_hash new_hash_from_str x t && n == h),
            s.mainchain_queued h x e,
          );
          new_queued = ground (
            arith,
            added (λ t n. is_hash new_hash_from_str hash t && n == new.height),
            new_hit hash,
            ==_refl hash,
            ==_refl new.height,
          );
          old_copies = λ x b e. e;
        }

    replaced-Cleared :
        (pq : BlockPriorityQueue Basic Stake) (top : CachedBlock Basic Stake) (gone : Hash)
        → get_elem? c.expire_queue.bh 0 ≡ some top
        → new_hash_from_str top.hash ≡ some gone
        → ((q : HashText → ℕ → Bool)
            → queued q pq + one (q top.hash top.height)
              ≡ queued q c.expire_queue + one (q new.hash new.height))
        → pq.capacity ≡ c.expire_queue.capacity
        → Cleared (del gone c.block_cache) (del top.height c.mainchain_blocks) pq
    replaced-Cleared pq top gone there known moved kept =
        let same : length pq.bh ≡ length c.expire_queue.bh =
          omega (arith, moved (λ t n. true), count-all pq.bh, count-all c.expire_queue.bh) in
        let old_hit : (x : Hash) → is_hash new_hash_from_str x top.hash ≡ (gone == x) =
          λ x. rw (is_hash, known) refl in
        let old_good : is_bad new_hash_from_str top.hash ≡ false = rw (is_bad, known) refl in
        let at_top =
          λ (q : HashText → ℕ → Bool). count-get_elem? (named q) 0 top c.expire_queue.bh there in
        let cached : member gone (keys c.block_cache) ≡ true = ground (
          arith,
          at_top (λ t h. is_hash new_hash_from_str gone t),
          old_hit gone,
          ==_refl gone,
          s.cached_queued gone,
        ) in
        record {
          queue_capacity = kept ∙ s.queue_capacity;
          queue_le = omega (arith, same, s.queue_le);
          distinct = del-Distinct gone c.block_cache s.distinct;
          absent = ground (arith, member-keys-del hash gone c.block_cache, absent);
          one_longer =
              omega (arith, same, s.same_length, length-del gone c.block_cache s.distinct cached);
          cached_queued = λ x. ground (
            arith,
            moved (λ t h. is_hash new_hash_from_str x t),
            new_hit x,
            old_hit x,
            s.cached_queued x,
            member-keys-del x gone c.block_cache,
            ==_iff gone x,
            ==_iff x gone,
            cached,
          );
          all_parsed =
              ground
                (arith, moved (λ t h. is_bad new_hash_from_str t), new_good, old_good, s.parsed);
          mainchain_queued = λ h x e. elim (Bool-cases (h == top.height)) [
            | inl t ↦ absurd (ground (arith, find-del h top.height c.mainchain_blocks, t, e))
            | inr f ↦
                let apart : (top.height == h) ≡ false =
                  ground (arith, f, ==_iff top.height h, ==_iff h top.height) in
                ground (
                  arith,
                  moved (λ t n. is_hash new_hash_from_str x t && n == h),
                  apart,
                  s.mainchain_queued h x (rw (find-del h top.height c.mainchain_blocks, f) at e),
                )
          ];
          new_queued = ground (
            arith,
            moved (λ t n. is_hash new_hash_from_str hash t && n == new.height),
            new_hit hash,
            ==_refl hash,
            ==_refl new.height,
            at_top (λ t n. is_hash new_hash_from_str hash t && n == new.height),
          );
          old_copies = λ x b e. ground (arith, find-del x gone c.block_cache, e);
        }

    pub after_insert-IsSynced :
        (pq : BlockPriorityQueue Basic Stake) (result : Inserted Hash)
        → Outcome new_hash_from_str new c.expire_queue pq result
        → IsSynced (after_insert hash new.height (access now new) pq result c)
    unfolding after_insert not_inserted
    after_insert-IsSynced pq result (unchanged e) = rw e s
    after_insert-IsSynced pq result (grown room added kept) =
        Cleared-IsSynced c.block_cache c.mainchain_blocks pq (grown-Cleared pq room added kept)
    after_insert-IsSynced pq result (replaced top there moved kept) =
        elim (Option-cases (new_hash_from_str top.hash)) [
          | inl bad ↦ absurd (
              ground (
                arith,
                bad,
                count-get_elem? (named (λ t h. is_bad new_hash_from_str t)) 0 top c.expire_queue.bh
                    there,
                s.parsed,
              ))
          | inr (gone, known) ↦ rw known (
              Cleared-IsSynced (del gone c.block_cache) (del top.height c.mainchain_blocks) pq
                (replaced-Cleared pq top gone there known moved kept))
        ]
