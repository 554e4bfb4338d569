-- ===== src/BlockGate/Tests.antt =====
-- Runs of rpcutils/blockgate.go against a node with a short chain, and its theorems there. A block is
-- its height with its hash.
use hdfdata.Base.{
  ℕ, ◌+◌, ◌-◌, ◌≡◌, ◌<◌, refl, inl, true, false, leb_ℤ, Option, none, some, List, [], ◌∷◌, ◌++◌,
  map, arith, ℤ, pos, negsuc,
}
use hdfdata.BlockGate.Maps.{set, unset}
use hdfdata.BlockGate.Window.{Represents}
use hdfdata.BlockGate.Channels.{waiting_at, no_waiters-IsSound}
use hdfdata.BlockGate.Waits.{IsServed}
use hdfdata.BlockGate.Delivery.{wait_for_height_delivered}
use hdfdata.BlockGate.Updates.{
  new_block_gate-Represents, store_block-Represents, update_to_block-Represents,
  update_to_block_errors,
}
use hdfdata.BlockGate.Calls.{
  Call, fetch_to, update_next, wait_height, wait_hash, call, calls, IsCoherent, calls-IsCoherent,
}
use hdfdata.BlockGate.{
  Hash, BlockGate, BlockFetcher, ok, err, GateError, no_waiters, register, signal, hash_in_queue,
  height_in_queue, new_block_gate, set_fetch_to_height, signal_height, signal_hash, pop_oldest,
  expire, rotate_in, store_block, best_block, best_block_hash, cached_block, after_update,
  get_block, update_to_block, update_to_next_block, wait_for_height, wait_for_hash,
}

program : Unit {0}
unfolding set unset no_waiters register signal hash_in_queue height_in_queue new_block_gate
    set_fetch_to_height signal_height signal_hash pop_oldest expire rotate_in store_block best_block
    best_block_hash cached_block after_update get_block update_to_block update_to_next_block
    wait_for_height wait_for_hash call calls
program = tt

abbrev TestBlock : Type 0
TestBlock = ℤ × Hash

abbrev as_block : TestBlock → TestBlock
as_block b = b

abbrev height_of : TestBlock → ℤ
height_of b = b.0

abbrev hash_of : TestBlock → Hash
hash_of b = b.1

-- The block of height n has the hash n + 100.
abbrev chain_hash : ℤ → Option Hash
chain_hash (pos n) = some (n + 100)
chain_hash (negsuc n) = none

abbrev node : BlockFetcher TestBlock
node = record {
  get_best_block = some (102, pos 2);
  get_block_hash = chain_hash;
  get_block = λ h. some (pos (h - 100), h);
}

abbrev fresh : ℕ → BlockGate TestBlock
fresh capacity = new_block_gate capacity

-- The gate of a capacity with the block of height 5.
abbrev holding : ℕ → BlockGate TestBlock
holding capacity = store_block (pos 5) 105 (pos 5, 105) (fresh capacity)

-- The last call for the next block has read the height 0 before the one for block 1 was done.
abbrev script : List (Call TestBlock)
script =
    wait_height (pos 1) node
    ∷ update_next (negsuc 0) node
    ∷ update_next (pos 0) node
    ∷ wait_hash 101
    ∷ update_next (pos 1) node
    ∷ fetch_to (pos 9)
    ∷ wait_height (pos 7) node
    ∷ update_next (pos 0) node
    ∷ []

-- What the script sends, and the heights in the queue at its end.
script_sends :
    ((calls as_block height_of hash_of script (fresh 2)).height_waiters.sends
      ≡ (0, 101) ∷ (1, 107) ∷ [])
    × ((calls as_block height_of hash_of script (fresh 2)).hash_waiters.sends ≡ (0, pos 1) ∷ [])
    × (map (λ p. p.height) (calls as_block height_of hash_of script (fresh 2)).expire_queue.q
        ≡ pos 7 ∷ pos 1 ∷ [])
unfolding program
script_sends = (refl, refl, refl)

calls-IsCoherent_example :
    IsCoherent as_block height_of hash_of
      (calls as_block height_of hash_of script (new_block_gate 2))
calls-IsCoherent_example = calls-IsCoherent as_block height_of hash_of 2 script

fresh-Represents : Represents height_of hash_of [] (fresh 2)
fresh-Represents = new_block_gate-Represents height_of hash_of 2

node_gives : get_block as_block height_of hash_of (pos 5) node ≡ some ((pos 5, 105), 105)
unfolding program
node_gives = refl

update_to_block-Represents_example :
    ((update_to_block as_block height_of hash_of (pos 5) node (fresh 2)).1 ≡ ok (pos 5, 105))
    × Represents height_of hash_of
        ([] ++ (pos 5, 105) ∷ [])
        (update_to_block as_block height_of hash_of (pos 5) node (fresh 2)).0
update_to_block-Represents_example =
    update_to_block-Represents as_block height_of hash_of (pos 5) node (fresh 2) [] (pos 5, 105)
      fresh-Represents node_gives refl

node_refuses : get_block as_block height_of hash_of (negsuc 3) node ≡ none
unfolding program
node_refuses = refl

update_to_block_errors_example :
    (e : GateError) × (update_to_block as_block height_of hash_of (negsuc 3) node (fresh 2)
      ≡ (fresh 2, err e))
update_to_block_errors_example =
    update_to_block_errors as_block height_of hash_of (negsuc 3) node (fresh 2) (pos 5, 105) 105
      (inl node_refuses)

holding-Represents :
    (capacity : ℕ) → Represents height_of hash_of ([] ++ (pos 5, 105) ∷ []) (holding capacity)
holding-Represents capacity =
    store_block-Represents height_of hash_of [] (pos 5, 105) (fresh capacity)
      (new_block_gate-Represents height_of hash_of capacity)

room : 0 < (holding 2).expire_queue.cap
unfolding program
room = omega arith

no_room : (holding 0).expire_queue.cap ≡ 0
unfolding program
no_room = refl

fresh-IsServed : IsServed (fresh 2)
unfolding program
fresh-IsServed = record {
  heights_sound = no_waiters-IsSound;
  hashes_sound = no_waiters-IsSound;
  heights_served = λ h hash e. refl;
  hashes_served = λ hash b e. refl;
}

five_cached : (holding 2).hash_at_height (pos 5) ≡ some 105
unfolding program
five_cached = refl

five_absent : (fresh 2).hash_at_height (pos 5) ≡ none
unfolding program
five_absent = refl

five_above : leb_ℤ (pos 5) (fresh 2).fetch_to_height ≡ false
unfolding program
five_above = refl

wait_for_height_delivered_example :
    ((wait_for_height as_block height_of hash_of (pos 5) node (fresh 2)).1
      ≡ some (fresh 2).height_waiters.made)
    × ((update_to_block as_block height_of hash_of
          (pos 5)
          node
          (wait_for_height as_block height_of hash_of
            (pos 5)
            node
            (fresh 2)).0).0.height_waiters.sends
        ≡ (fresh 2).height_waiters.sends
          ++ map
              (λ c. (c, 105))
              (waiting_at (fresh 2).height_waiters (pos 5) ++ (fresh 2).height_waiters.made ∷ []))
wait_for_height_delivered_example =
    wait_for_height_delivered as_block height_of hash_of (pos 5) node (fresh 2) node (pos 5, 105)
      refl five_absent five_above node_gives refl

-- The gate that fetches blocks up to the height 9.
abbrev fetching : BlockGate TestBlock
fetching = set_fetch_to_height (pos 9) (fresh 2)

five_absent_fetching : fetching.hash_at_height (pos 5) ≡ none
unfolding program
five_absent_fetching = refl

five_below : leb_ℤ (pos 5) fetching.fetch_to_height ≡ true
unfolding program
five_below = refl

hash_absent : (fresh 2).block_with_hash 105 ≡ none
unfolding program
hash_absent = refl
