-- ===== src/BlockGate/Calls.antt =====
-- Any sequence of calls of the methods of rpcutils/blockgate.go.
use hdfdata.Base.{
  ℕ, ◌≡◌, refl, inl, inr, Option, none, some, List, [], ◌∷◌, ◌++◌, ℤ, pos, ltb_ℤ, leb_ℤ, eqb_ℤ,
  suc_ℤ, ◌==◌, Bool-cases, Option-cases,
}
use hdfdata.BlockGate.Channels.{no_waiters-IsSound}
use hdfdata.BlockGate.Queued.{
  registered_height-IsServed, registered_hash-IsServed, signalled_height-IsServed,
  signalled_hash-IsServed,
}
use hdfdata.BlockGate.Updates.{store_block-Represents, new_block_gate-Represents}
use hdfdata.BlockGate.Waits.{IsServed, store_block-IsServed, update_to_block-cases}
use hdfdata.BlockGate.Window.{Represents}
use hdfdata.BlockGate.{
  Hash, Chan, Waiters, BlockGate, BlockFetcher, Outcome, ok, err, best_block_failed, register,
  signal, no_waiters, new_block_gate, set_fetch_to_height, signal_height, signal_hash,
  update_to_block, update_to_next_block, update_to_best_block, wait_for_height, wait_for_hash,
  after_update,
}

-- A call of a method that changes the gate, with the node's answers while it runs. That of `UpdateToNextBlock` has the
-- height that it has read before the calls between.
pub data Call (MsgBlock : Type 0) : Type 0 where
  fetch_to : ℤ → Call MsgBlock
  update : ℤ → BlockFetcher MsgBlock → Call MsgBlock
  update_next : ℤ → BlockFetcher MsgBlock → Call MsgBlock
  update_best : BlockFetcher MsgBlock → Call MsgBlock
  wait_height : ℤ → BlockFetcher MsgBlock → Call MsgBlock
  wait_hash : Hash → Call MsgBlock

module _ {Block : Type 0} where
  after_update-gate : (c : Chan) (r : BlockGate Block × Outcome Block) → (after_update c r).0 ≡ r.0
  unfolding after_update
  after_update-gate c (g, ok b) = refl
  after_update-gate c (g, err e) = refl

module _ {Block MsgBlock : Type 0} (new_block : MsgBlock → Block) (block_height : Block → ℤ)
    (block_hash : Block → Hash) where
  -- The gate after a call, and after a sequence of calls.
  unfoldable pub call : Call MsgBlock → BlockGate Block → BlockGate Block
  call (fetch_to h) g = set_fetch_to_height h g
  call (update h client) g = (update_to_block new_block block_height block_hash h client g).0
  call (update_next height client) g =
      (update_to_next_block new_block block_height block_hash height client g).0
  call (update_best client) g = (update_to_best_block new_block block_height block_hash client g).0
  call (wait_height h client) g = (wait_for_height new_block block_height block_hash h client g).0
  call (wait_hash hash) g = (wait_for_hash new_block block_height block_hash hash g).0

  unfoldable pub calls : List (Call MsgBlock) → BlockGate Block → BlockGate Block
  calls [] g = g
  calls (c ∷ cs) g = calls cs (call c g)

  -- The gate holds the last of some sequence of stored blocks, and its waiters are served.
  pub record IsCoherent (g : BlockGate Block) : Type 0 where
    pub stored : List Block
    pub represents : Represents block_height block_hash stored g
    pub served : IsServed g

  update_to_block-IsCoherent :
      (h : ℤ) (client : BlockFetcher MsgBlock) (g : BlockGate Block)
      → IsCoherent g
      → IsCoherent (update_to_block new_block block_height block_hash h client g).0
  update_to_block-IsCoherent h client g i =
      elim (update_to_block-cases new_block block_height block_hash h client g) [
        | inl (e, kept) ↦ rw kept i
        | inr (b, height, stored) ↦
            rw (stored, ← height)
              (record {
                stored = i.stored ++ b ∷ [];
                represents =
                    store_block-Represents block_height block_hash i.stored b g i.represents;
                served = store_block-IsServed (block_height b) (block_hash b) b g i.served;
              })
      ]

  queued-IsCoherent :
      (g : BlockGate Block) (heights : Waiters ℤ Hash) (hashes : Waiters Hash ℤ)
      → IsCoherent g
      → IsServed (record g { height_waiters = heights; hash_waiters = hashes })
      → IsCoherent (record g { height_waiters = heights; hash_waiters = hashes })
  queued-IsCoherent g heights hashes i served = record {
    stored = i.stored;
    represents = record {
      held = record {
        queue = i.represents.held.queue;
        heights = i.represents.held.heights;
        blocks = i.represents.held.blocks;
      };
      best = i.represents.best;
    };
    served = served;
  }

  wait_for_height-IsCoherent :
      (h : ℤ) (client : BlockFetcher MsgBlock) (g : BlockGate Block)
      → IsCoherent g
      → IsCoherent (wait_for_height new_block block_height block_hash h client g).0
  unfolding wait_for_height signal_height after_update
  wait_for_height-IsCoherent h client g i = elim (Bool-cases (ltb_ℤ h (pos 0))) [
    | inl below ↦ rw (wait_for_height, below) i
    | inr sign ↦ elim (Option-cases (g.hash_at_height h)) [
      | inr (hash, e) ↦
          rw (wait_for_height, sign, e)
            (queued-IsCoherent g (signal eqb_ℤ h hash (register eqb_ℤ h g.height_waiters))
              g.hash_waiters i (signalled_height-IsServed h hash g i.served))
      | inl e ↦
          let queued = record g { height_waiters = register eqb_ℤ h g.height_waiters } in
          let waits : IsCoherent queued =
            queued-IsCoherent g (register eqb_ℤ h g.height_waiters) g.hash_waiters i
              (registered_height-IsServed h g e i.served) in
          elim (Bool-cases (leb_ℤ h g.fetch_to_height)) [
            | inr above ↦ rw (wait_for_height, sign, e, above) waits
            | inl fetch ↦
                rw
                  (
                    wait_for_height,
                    sign,
                    e,
                    fetch,
                    after_update-gate g.height_waiters.made
                        (update_to_block new_block block_height block_hash h client queued),
                  )
                  (update_to_block-IsCoherent h client queued waits)
          ]
    ]
  ]

  wait_for_hash-IsCoherent :
      (hash : Hash) (g : BlockGate Block)
      → IsCoherent g
      → IsCoherent (wait_for_hash new_block block_height block_hash hash g).0
  unfolding wait_for_hash signal_hash
  wait_for_hash-IsCoherent hash g i = elim (Option-cases (g.block_with_hash hash)) [
    | inr (b, e) ↦
        rw (wait_for_hash, e)
          (queued-IsCoherent g g.height_waiters
            (signal ◌==◌ hash (block_height b) (register ◌==◌ hash g.hash_waiters)) i
            (signalled_hash-IsServed hash (block_height b) g i.served))
    | inl e ↦
        rw (wait_for_hash, e)
          (queued-IsCoherent g g.height_waiters (register ◌==◌ hash g.hash_waiters) i
            (registered_hash-IsServed hash g e i.served))
  ]

  -- `UpdateToBestBlock` after the node's answer.
  best_answer-IsCoherent :
      (answer : Option (Hash × ℤ)) (client : BlockFetcher MsgBlock) (g : BlockGate Block)
      → IsCoherent g
      → IsCoherent
          (elim answer as (λ _. BlockGate Block × Outcome Block) [
            | none ↦ (g, err best_block_failed)
            | some (_, h) ↦ update_to_block new_block block_height block_hash h client g
          ]).0
  best_answer-IsCoherent none client g i = i
  best_answer-IsCoherent (some (hash, h)) client g i = update_to_block-IsCoherent h client g i

  call-IsCoherent : (c : Call MsgBlock) (g : BlockGate Block) → IsCoherent g → IsCoherent (call c g)
  unfolding call set_fetch_to_height update_to_next_block update_to_best_block
  call-IsCoherent (fetch_to h) g i = record {
    stored = i.stored;
    represents = record {
      held = record {
        queue = i.represents.held.queue;
        heights = i.represents.held.heights;
        blocks = i.represents.held.blocks;
      };
      best = i.represents.best;
    };
    served = record {
      heights_sound = i.served.heights_sound;
      hashes_sound = i.served.hashes_sound;
      heights_served = i.served.heights_served;
      hashes_served = i.served.hashes_served;
    };
  }
  call-IsCoherent (update h client) g i = update_to_block-IsCoherent h client g i
  call-IsCoherent (update_next height client) g i =
      update_to_block-IsCoherent (suc_ℤ height) client g i
  call-IsCoherent (update_best client) g i = best_answer-IsCoherent client.get_best_block client g i
  call-IsCoherent (wait_height h client) g i = wait_for_height-IsCoherent h client g i
  call-IsCoherent (wait_hash hash) g i = wait_for_hash-IsCoherent hash g i

  calls-keep :
      (cs : List (Call MsgBlock)) (g : BlockGate Block) → IsCoherent g → IsCoherent (calls cs g)
  unfolding calls
  calls-keep [] g i = i
  calls-keep (c ∷ cs) g i = calls-keep cs (call c g) (call-IsCoherent c g i)

  -- After any calls on a gate just made, whatever the node answers and whatever height a call for the next block has
  -- read, the gate holds the last of some
  -- sequence of stored blocks, as many as its capacity allows, and its height is that of the last;
  -- each channel that waits does so for one key that is not cached, and was not sent to; and no
  -- channel was sent to twice, so that a send never finds a channel's buffer of one full.
  pub calls-IsCoherent :
      (capacity : ℕ) (cs : List (Call MsgBlock)) → IsCoherent (calls cs (new_block_gate capacity))
  unfolding new_block_gate no_waiters
  calls-IsCoherent capacity cs = calls-keep cs (new_block_gate capacity) (record {
    stored = [];
    represents = new_block_gate-Represents block_height block_hash capacity;
    served = record {
      heights_sound = no_waiters-IsSound;
      hashes_sound = no_waiters-IsSound;
      heights_served = λ h hash e. refl;
      hashes_served = λ hash b e. refl;
    };
  })
