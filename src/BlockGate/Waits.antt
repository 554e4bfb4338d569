-- ===== src/BlockGate/Waits.antt =====
-- `WaitForHeight`, `WaitForHash` and the signals of `updateToBlock` in rpcutils/blockgate.go.
use hdfdata.Base.{
  ◌≡◌, ◌⊎◌, refl, ◌∙◌, ap, inl, inr, Bool, false, Option, some, List, [], ◌∷◌, ◌++◌, map, arith, ℤ,
  pos, ltb_ℤ, eqb_ℤ, eqb_ℤ_iff, ◌==◌, ==_iff, ==_refl, if◌then◌else◌, Bool-cases, Option-cases,
}
use hdfdata.BlockGate.Maps.{set, unset}
use hdfdata.BlockGate.Channels.{
  IsSound, signal-IsSound, waiting_at, waiting_at-signal, sends-signal, waiting_at-register,
}
use hdfdata.BlockGate.{
  Hash, Chan, HeightHashPair, BlockGate, BlockFetcher, ok, err, GateError, get_block_failed,
  wrong_height, wrong_hash, register, expire, pop_oldest, rotate_in, signal_height, signal_hash,
  store_block, get_block, update_to_block, wait_for_height,
}

module _ {K V : Type 0} (same : K → K → Bool) where
  unwaited-set :
      (k j : K) (v x : V) (m : K → Option V) (waits : K → List Chan)
      → ((i : K) (y : V) → m i ≡ some y → waits i ≡ [])
      → set same k v m j ≡ some x
      → (if same j k then [] else waits j) ≡ []
  unfolding set
  unwaited-set k j v x m waits served e = elim (Bool-cases (same j k)) [
    | inl t ↦ rw t refl
    | inr f ↦ rw f (served j x (ground (arith, f)))
  ]

module _ {Block : Type 0} where
  -- The channels are sound, and no channel waits for a block that is cached.
  pub record IsServed (g : BlockGate Block) : Type 0 where
    pub heights_sound : IsSound g.height_waiters
    pub hashes_sound : IsSound g.hash_waiters
    pub heights_served :
        (h : ℤ) (hash : Hash) → g.hash_at_height h ≡ some hash → waiting_at g.height_waiters h ≡ []
    pub hashes_served :
        (hash : Hash) (b : Block)
        → g.block_with_hash hash ≡ some b
        → waiting_at g.hash_waiters hash ≡ []

  -- A gate that has lost some of the cache of another, and nothing else.
  record Keeps (new old : BlockGate Block) : Type 0 where
    heights : (k : ℤ) (x : Hash) → new.hash_at_height k ≡ some x → old.hash_at_height k ≡ some x
    blocks :
        (k : Hash) (b : Block) → new.block_with_hash k ≡ some b → old.block_with_hash k ≡ some b
    height_waits : new.height_waiters ≡ old.height_waiters
    hash_waits : new.hash_waiters ≡ old.hash_waiters

  expire-Keeps : (q : List HeightHashPair) (g : BlockGate Block) → Keeps (expire q g) g
  unfolding expire pop_oldest unset
  expire-Keeps [] g = record {
    heights = λ k x e. e;
    blocks = λ k b e. e;
    height_waits = refl;
    hash_waits = refl;
  }
  expire-Keeps (p ∷ q) g = record {
    heights = λ k x e. ground arith;
    blocks = λ k b e. ground arith;
    height_waits = ground arith;
    hash_waits = ground arith;
  }

  -- What `rotateIn` leaves in the maps was there.
  rotate_in-Keeps : (h : ℤ) (hash : Hash) (g : BlockGate Block) → Keeps (rotate_in h hash g) g
  unfolding rotate_in
  rotate_in-Keeps h hash g =
      let q = g.expire_queue.q ++ record { height = h; hash = hash } ∷ [] in
      let k =
        expire-Keeps q (record g { expire_queue = record { q = q; cap = g.expire_queue.cap } }) in
      record {
        heights = k.heights;
        blocks = k.blocks;
        height_waits = k.height_waits;
        hash_waits = k.hash_waits;
      }

  pub store_block-IsServed :
      (h : ℤ) (hash : Hash) (b : Block) (g : BlockGate Block)
      → IsServed g
      → IsServed (store_block h hash b g)
  unfolding store_block signal_height signal_hash set
  store_block-IsServed h hash b g s =
      let keeps = rotate_in-Keeps h hash (record g {
        height = h;
        hash_at_height = set eqb_ℤ h hash g.hash_at_height;
        block_with_hash = set ◌==◌ hash b g.block_with_hash;
      }) in
      record {
        heights_sound =
            rw keeps.height_waits
              (signal-IsSound eqb_ℤ eqb_ℤ_iff h hash g.height_waiters s.heights_sound);
        hashes_sound =
            rw keeps.hash_waits (signal-IsSound ◌==◌ ==_iff hash h g.hash_waiters s.hashes_sound);
        heights_served = λ k x e. rw keeps.height_waits (
            waiting_at-signal eqb_ℤ eqb_ℤ_iff h k hash g.height_waiters
            ∙ unwaited-set eqb_ℤ h k hash x g.hash_at_height (waiting_at g.height_waiters)
                s.heights_served (keeps.heights k x e));
        hashes_served = λ k c e. rw keeps.hash_waits (
            waiting_at-signal ◌==◌ ==_iff hash k h g.hash_waiters
            ∙ unwaited-set ◌==◌ hash k b c g.block_with_hash (waiting_at g.hash_waiters)
                s.hashes_served (keeps.blocks k c e));
      }

  -- Storing a block sends its hash to all channels that wait for its height, its height to all that
  -- wait for its hash, each in the order of the calls, and leaves none of them waiting.
  pub store_block-sends :
      (h : ℤ) (hash : Hash) (b : Block) (g : BlockGate Block)
      → ((store_block h hash b g).height_waiters.sends
          ≡ g.height_waiters.sends ++ map (λ c. (c, hash)) (waiting_at g.height_waiters h))
        × ((store_block h hash b g).hash_waiters.sends
            ≡ g.hash_waiters.sends ++ map (λ c. (c, h)) (waiting_at g.hash_waiters hash))
        × (waiting_at (store_block h hash b g).height_waiters h ≡ [])
        × (waiting_at (store_block h hash b g).hash_waiters hash ≡ [])
  unfolding store_block signal_height signal_hash
  store_block-sends h hash b g =
      let keeps = rotate_in-Keeps h hash (record g {
        height = h;
        hash_at_height = set eqb_ℤ h hash g.hash_at_height;
        block_with_hash = set ◌==◌ hash b g.block_with_hash;
      }) in
      (
        rw keeps.height_waits (sends-signal eqb_ℤ eqb_ℤ_iff h hash g.height_waiters),
        rw keeps.hash_waits (sends-signal ◌==◌ ==_iff hash h g.hash_waiters),
        rw keeps.height_waits (
            waiting_at-signal eqb_ℤ eqb_ℤ_iff h h hash g.height_waiters
            ∙ ap (λ t. if t then [] else waiting_at g.height_waiters h) ((eqb_ℤ_iff h h).1 refl)),
        rw keeps.hash_waits (
            waiting_at-signal ◌==◌ ==_iff hash hash h g.hash_waiters
            ∙ ap (λ t. if t then [] else waiting_at g.hash_waiters hash) (==_refl hash)),
      )

module _ {Block MsgBlock : Type 0} (new_block : MsgBlock → Block) (block_height : Block → ℤ)
    (block_hash : Block → Hash) where
  -- How `updateToBlock` ends.
  pub update_to_block-cases :
      (h : ℤ) (client : BlockFetcher MsgBlock) (g : BlockGate Block)
      → ((e : GateError) × (update_to_block new_block block_height block_hash h client g
            ≡ (g, err e)))
        ⊎ ((b : Block) × (block_height b ≡ h)
            × (update_to_block new_block block_height block_hash h client g
                ≡ (store_block h (block_hash b) b g, ok b)))
  unfolding update_to_block
  update_to_block-cases h client g =
      elim (Option-cases (get_block new_block block_height block_hash h client)) [
        | inl e ↦ inl (get_block_failed, rw (update_to_block, e) refl)
        | inr ((b, hash), e) ↦ elim (Bool-cases (eqb_ℤ (block_height b) h)) [
          | inr other ↦ inl (wrong_height, rw (update_to_block, e, other) refl)
          | inl same ↦ elim (Bool-cases (hash == block_hash b)) [
            | inr other ↦ inl (wrong_hash, rw (update_to_block, e, same, other) refl)
            | inl twin ↦ inr (
              b,
              (eqb_ℤ_iff (block_height b) h).0 same,
              rw (update_to_block, e, same, twin, (==_iff hash (block_hash b)).0 twin) refl,
            )
          ]
        ]
      ]

  module _ (h : ℤ) (client : BlockFetcher MsgBlock) (g : BlockGate Block) where
    -- Waiting for a height that is cached returns a new channel, and its hash is sent to that channel
    -- alone.
    pub wait_for_height_cached :
        (hash : Hash)
        → IsServed g
        → ltb_ℤ h (pos 0) ≡ false
        → g.hash_at_height h ≡ some hash
        → ((wait_for_height new_block block_height block_hash h client g).1
            ≡ some g.height_waiters.made)
          × ((wait_for_height new_block block_height block_hash h client g).0.height_waiters.sends
              ≡ g.height_waiters.sends ++ (g.height_waiters.made, hash) ∷ [])
    unfolding wait_for_height signal_height register
    wait_for_height_cached hash s sign cached =
        let queued : waiting_at (register eqb_ℤ h g.height_waiters) h ≡ g.height_waiters.made ∷ [] =
          waiting_at-register eqb_ℤ eqb_ℤ_iff h h g.height_waiters
          ∙ ap
              (λ t.
                if t
                then waiting_at g.height_waiters h ++ g.height_waiters.made ∷ []
                else waiting_at g.height_waiters h)
              ((eqb_ℤ_iff h h).1 refl)
          ∙ ap (λ cs. cs ++ g.height_waiters.made ∷ []) (s.heights_served h hash cached) in
        (
          rw (wait_for_height, sign, cached) refl,
          rw (wait_for_height, sign, cached)
              (sends-signal eqb_ℤ eqb_ℤ_iff h hash (register eqb_ℤ h g.height_waiters)
                ∙ ap (λ cs. g.height_waiters.sends ++ map (λ c. (c, hash)) cs) queued),
        )
