-- ===== src/BlockGate/Delivery.antt =====
-- What the channels returned by `WaitForHeight` and `WaitForHash` of rpcutils/blockgate.go receive.
use hdfdata.Base.{
  ◌≡◌, refl, ◌∙◌, ap, true, false, none, some, [], ◌∷◌, ◌++◌, map, ℤ, pos, ltb_ℤ, leb_ℤ, eqb_ℤ,
  eqb_ℤ_iff, ◌==◌, ==_iff, ==_refl, if◌then◌else◌,
}
use hdfdata.BlockGate.Channels.{waiting_at, waiting_at-register}
use hdfdata.BlockGate.Waits.{store_block-sends}
use hdfdata.BlockGate.{
  Hash, BlockGate, BlockFetcher, ok, register, store_block, get_block, update_to_block,
  wait_for_height, wait_for_hash, after_update,
}

module _ {Block MsgBlock : Type 0} (new_block : MsgBlock → Block) (block_height : Block → ℤ)
    (block_hash : Block → Hash) where
  update_to_block-ok :
      (h : ℤ) (client : BlockFetcher MsgBlock) (g : BlockGate Block) (b : Block)
      → get_block new_block block_height block_hash h client ≡ some (b, block_hash b)
      → block_height b ≡ h
      → update_to_block new_block block_height block_hash h client g
        ≡ (store_block h (block_hash b) b g, ok b)
  unfolding update_to_block
  update_to_block-ok h client g b answer height =
      rw (update_to_block, answer, (eqb_ℤ_iff (block_height b) h).1 height, ==_refl (block_hash b))
        refl

  module _ (h : ℤ) (client : BlockFetcher MsgBlock) (g : BlockGate Block) where
    registered :
        waiting_at (register eqb_ℤ h g.height_waiters) h
        ≡ waiting_at g.height_waiters h ++ g.height_waiters.made ∷ []
    registered =
        waiting_at-register eqb_ℤ eqb_ℤ_iff h h g.height_waiters
        ∙ ap
            (λ t.
              if t
              then waiting_at g.height_waiters h ++ g.height_waiters.made ∷ []
              else waiting_at g.height_waiters h)
            ((eqb_ℤ_iff h h).1 refl)

    -- Waiting for a height that is not cached and is above the height to fetch to returns a new
    -- channel. When `updateToBlock` then stores the block of that height, the block's hash is sent to
    -- every channel that waits for the height, and to the new channel last.
    pub wait_for_height_delivered :
        (later : BlockFetcher MsgBlock) (b : Block)
        → ltb_ℤ h (pos 0) ≡ false
        → g.hash_at_height h ≡ none
        → leb_ℤ h g.fetch_to_height ≡ false
        → get_block new_block block_height block_hash h later ≡ some (b, block_hash b)
        → block_height b ≡ h
        → ((wait_for_height new_block block_height block_hash h client g).1
            ≡ some g.height_waiters.made)
          × ((update_to_block new_block block_height block_hash h later
                (wait_for_height new_block block_height block_hash h client
                  g).0).0.height_waiters.sends
              ≡ g.height_waiters.sends
                ++ map
                    (λ c. (c, block_hash b))
                    (waiting_at g.height_waiters h ++ g.height_waiters.made ∷ []))
    unfolding wait_for_height register
    wait_for_height_delivered later b sign absent above answer height =
        let queued = record g { height_waiters = register eqb_ℤ h g.height_waiters } in
        (
          rw (wait_for_height, sign, absent, above) refl,
          rw
              (
                wait_for_height,
                sign,
                absent,
                above,
                update_to_block-ok h later queued b answer height,
              )
              ((store_block-sends h (block_hash b) b queued).0
                ∙ ap (λ cs. g.height_waiters.sends ++ map (λ c. (c, block_hash b)) cs) registered),
        )

    -- Waiting for a height that is not cached and is not above the height to fetch to asks the node
    -- for the block at once, and when the node gives it, its hash is sent to the new channel and to
    -- every channel that waited for the height before.
    pub wait_for_height_fetched :
        (b : Block)
        → ltb_ℤ h (pos 0) ≡ false
        → g.hash_at_height h ≡ none
        → leb_ℤ h g.fetch_to_height ≡ true
        → get_block new_block block_height block_hash h client ≡ some (b, block_hash b)
        → block_height b ≡ h
        → ((wait_for_height new_block block_height block_hash h client g).1
            ≡ some g.height_waiters.made)
          × ((wait_for_height new_block block_height block_hash h client g).0.height_waiters.sends
              ≡ g.height_waiters.sends
                ++ map
                    (λ c. (c, block_hash b))
                    (waiting_at g.height_waiters h ++ g.height_waiters.made ∷ []))
    unfolding wait_for_height register after_update
    wait_for_height_fetched b sign absent below answer height =
        let queued = record g { height_waiters = register eqb_ℤ h g.height_waiters } in
        (
          rw
              (
                wait_for_height,
                sign,
                absent,
                below,
                update_to_block-ok h client queued b answer height,
              )
              refl,
          rw
              (
                wait_for_height,
                sign,
                absent,
                below,
                update_to_block-ok h client queued b answer height,
              )
              ((store_block-sends h (block_hash b) b queued).0
                ∙ ap (λ cs. g.height_waiters.sends ++ map (λ c. (c, block_hash b)) cs) registered),
        )

    -- Waiting for a hash that is not cached returns a new channel, and when `updateToBlock` then
    -- stores the block of that hash, its height is sent to every channel that waits for the hash.
    pub wait_for_hash_delivered :
        (b : Block)
        → g.block_with_hash (block_hash b) ≡ none
        → get_block new_block block_height block_hash h client ≡ some (b, block_hash b)
        → block_height b ≡ h
        → ((wait_for_hash new_block block_height block_hash (block_hash b) g).1
            ≡ g.hash_waiters.made)
          × ((update_to_block new_block block_height block_hash h client
                (wait_for_hash new_block block_height block_hash
                  (block_hash b)
                  g).0).0.hash_waiters.sends
              ≡ g.hash_waiters.sends
                ++ map
                    (λ c. (c, h))
                    (waiting_at g.hash_waiters (block_hash b) ++ g.hash_waiters.made ∷ []))
    unfolding wait_for_hash register
    wait_for_hash_delivered b absent answer height =
        let queued = record g { hash_waiters = register ◌==◌ (block_hash b) g.hash_waiters } in
        (
          rw (wait_for_hash, absent) refl,
          rw (wait_for_hash, absent, update_to_block-ok h client queued b answer height)
              ((store_block-sends h (block_hash b) b queued).1
                ∙ ap (λ cs. g.hash_waiters.sends ++ map (λ c. (c, h)) cs)
                    (waiting_at-register ◌==◌ ==_iff (block_hash b) (block_hash b) g.hash_waiters
                      ∙ ap
                          (λ t.
                            if t
                            then waiting_at g.hash_waiters (block_hash b)
                              ++ g.hash_waiters.made ∷ []
                            else waiting_at g.hash_waiters (block_hash b))
                          (==_refl (block_hash b)))),
        )
