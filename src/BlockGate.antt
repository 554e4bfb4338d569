-- ===== src/BlockGate.antt =====
-- rpcutils/blockgate.go: the block cache with its expiration queue and the channels that wait for a
-- block. Each exported method holds the mutex, so it is one step from a state to a state, but for the
-- read of the height in `UpdateToNextBlock`, which comes before. The node's
-- answers while a call runs are an argument of the call, a `BlockFetcher` whose `none` is an RPC
-- error, and may differ from call to call. A block and `dcrutil.NewBlock` are parameters. A hash is
-- the number that its bytes spell; heights are int64, far below its bounds; the capacity given to
-- `NewBlockGate` is not negative. What is printed is left out.
use hdfdata.Base.{
  ℕ, suc, ◌+◌, Bool, true, false, not, Option, none, some, List, [], ◌∷◌, ◌++◌, map, ℤ, pos, negsuc,
  ltb_ℤ, leb_ℤ, eqb_ℤ, suc_ℤ, ltb, ◌==◌, if◌then◌else◌, length,
}
pub mod Maps
pub mod Window
pub mod Updates
pub mod Channels
pub mod Waits
pub mod Delivery
pub mod Queued
pub mod Calls
mod Tests
use Maps.{set, unset}

abbrev pub Hash : Type 0
Hash = ℕ

-- A wait channel, named by the number of channels of its kind made before it.
abbrev pub Chan : Type 0
Chan = ℕ

pub record HeightHashPair : Type 0 where
  pub height : ℤ
  pub hash : Hash

pub record HeightHashQueue : Type 0 where
  pub q : List HeightHashPair
  pub cap : ℕ

-- `heightWaiters` or `hashWaiters`: the map, with the number of channels made so far and the sends
-- that the signalling goroutines make, oldest first.
pub record Waiters (K V : Type 0) : Type 0 where
  pub waiting : K → Option (List Chan)
  pub made : ℕ
  pub sends : List (Chan × V)

pub record BlockGate (Block : Type 0) : Type 0 where
  pub height : ℤ
  pub fetch_to_height : ℤ
  pub hash_at_height : ℤ → Option Hash
  pub block_with_hash : Hash → Option Block
  pub height_waiters : Waiters ℤ Hash
  pub hash_waiters : Waiters Hash ℤ
  pub expire_queue : HeightHashQueue

-- The node's answers, `none` for an error.
pub record BlockFetcher (MsgBlock : Type 0) : Type 0 where
  pub get_best_block : Option (Hash × ℤ)
  pub get_block_hash : ℤ → Option Hash
  pub get_block : Hash → Option MsgBlock

pub data GateError : Type 0 where
  get_block_failed wrong_height wrong_hash best_block_failed : GateError
  hash_not_found block_not_found : GateError

pub data Outcome (A : Type 0) : Type 0 where
  ok : A → Outcome A
  err : GateError → Outcome A

unfoldable pub hash_in_queue : List HeightHashPair → Hash → Bool
hash_in_queue [] h = false
hash_in_queue (p ∷ q) h = if p.hash == h then true else hash_in_queue q h

unfoldable pub height_in_queue : List HeightHashPair → ℤ → Bool
height_in_queue [] h = false
height_in_queue (p ∷ q) h = if eqb_ℤ p.height h then true else height_in_queue q h

-- The channels stored at a key; indexing a Go map without the key gives nil.
abbrev pub chans_at : Option (List Chan) → List Chan
chans_at none = []
chans_at (some cs) = cs

module _ {K V : Type 0} where
  unfoldable pub no_waiters : Waiters K V
  no_waiters = record { waiting = λ k. none; made = 0; sends = [] }

  module _ (same : K → K → Bool) where
    -- Makes a channel and queues it.
    unfoldable pub register : K → Waiters K V → Waiters K V
    register k ws = record ws {
      waiting = set same k (chans_at (ws.waiting k) ++ ws.made ∷ []) ws.waiting;
      made = ws.made + 1;
    }

    -- `signalHash` and `signalHeight`
    unfoldable pub signal : K → V → Waiters K V → Waiters K V
    signal k v ws = elim (ws.waiting k) [
      | none ↦ ws
      | some cs ↦ record ws {
        waiting = unset same k ws.waiting;
        sends = ws.sends ++ map (λ c. (c, v)) cs;
      }
    ]

module _ {Block : Type 0} where
  unfoldable pub new_block_gate : ℕ → BlockGate Block
  new_block_gate capacity = record {
    height = negsuc 0;
    fetch_to_height = negsuc 0;
    hash_at_height = λ h. none;
    block_with_hash = λ h. none;
    height_waiters = no_waiters;
    hash_waiters = no_waiters;
    expire_queue = record { q = []; cap = capacity };
  }

  unfoldable pub set_fetch_to_height : ℤ → BlockGate Block → BlockGate Block
  set_fetch_to_height h g = record g { fetch_to_height = h }

  unfoldable pub signal_height : ℤ → Hash → BlockGate Block → BlockGate Block
  signal_height h hash g = record g { height_waiters = signal eqb_ℤ h hash g.height_waiters }

  unfoldable pub signal_hash : Hash → ℤ → BlockGate Block → BlockGate Block
  signal_hash hash h g = record g { hash_waiters = signal ◌==◌ hash h g.hash_waiters }

  -- The pop of `rotateIn`, for the oldest entry and the rest of the queue.
  unfoldable pub pop_oldest :
      HeightHashPair → List HeightHashPair → BlockGate Block → BlockGate Block
  pop_oldest oldest rest g = record g {
    expire_queue = record { q = rest; cap = g.expire_queue.cap };
    block_with_hash =
        if hash_in_queue rest oldest.hash
        then g.block_with_hash
        else unset ◌==◌ oldest.hash g.block_with_hash;
    hash_at_height =
        if height_in_queue rest oldest.height
        then g.hash_at_height
        else unset eqb_ℤ oldest.height g.hash_at_height;
  }

  -- `rotateIn` after its append, with the queue `q`.
  unfoldable pub expire : List HeightHashPair → BlockGate Block → BlockGate Block
  expire [] g = g
  expire (oldest ∷ rest) g =
      if ltb g.expire_queue.cap (length (oldest ∷ rest)) then pop_oldest oldest rest g else g

  unfoldable pub rotate_in : ℤ → Hash → BlockGate Block → BlockGate Block
  rotate_in h hash g =
      let q = g.expire_queue.q ++ record { height = h; hash = hash } ∷ [] in
      expire q (record g { expire_queue = record { q = q; cap = g.expire_queue.cap } })

  -- The part of `updateToBlock` after its checks.
  unfoldable pub store_block : ℤ → Hash → Block → BlockGate Block → BlockGate Block
  store_block h hash block g = signal_hash hash h (
      signal_height h hash (
        rotate_in h hash (record g {
          height = h;
          hash_at_height = set eqb_ℤ h hash g.hash_at_height;
          block_with_hash = set ◌==◌ hash block g.block_with_hash;
        })))

  -- The hash, the height, and whether there is an error.
  unfoldable pub best_block_hash : BlockGate Block → Outcome (Hash × ℤ)
  best_block_hash g = elim (g.hash_at_height g.height) [
    | none ↦ err hash_not_found
    | some hash ↦ ok (hash, g.height)
  ]

  -- The block, nil when it is not there, and the error. A hash that is not found is the zero hash.
  unfoldable pub best_block : BlockGate Block → Option Block × Option GateError
  best_block g = elim (g.hash_at_height g.height) [
    | none ↦ elim (g.block_with_hash 0) [
      | none ↦ (none, some block_not_found)
      | some b ↦ (some b, some hash_not_found)
    ]
    | some hash ↦ elim (g.block_with_hash hash) [
      | none ↦ (none, some block_not_found)
      | some b ↦ (some b, none)
    ]
  ]

  unfoldable pub cached_block : Hash → BlockGate Block → Outcome Block
  cached_block hash g = elim (g.block_with_hash hash) [ none ↦ err block_not_found | some b ↦ ok b ]

  -- How `WaitForHeight` ends after `updateToBlock`.
  unfoldable pub after_update :
      Chan → BlockGate Block × Outcome Block → BlockGate Block × Option Chan
  after_update c (g, ok b) = (g, some c)
  after_update c (g, err e) = (g, none)

module _ {Block MsgBlock : Type 0} (new_block : MsgBlock → Block) (block_height : Block → ℤ)
    (block_hash : Block → Hash) where
  -- `GetBlock` of rpcutils/rpcclient.go
  unfoldable pub get_block : ℤ → BlockFetcher MsgBlock → Option (Block × Hash)
  get_block h client = elim (client.get_block_hash h) [
    | none ↦ none
    | some hash ↦ elim (client.get_block hash) [ none ↦ none | some m ↦ some (new_block m, hash) ]
  ]

  -- `GetBlockByHash` of rpcutils/rpcclient.go
  unfoldable pub get_block_by_hash : Hash → BlockFetcher MsgBlock → Option Block
  get_block_by_hash hash client = elim (client.get_block hash) [
    | none ↦ none
    | some m ↦ some (new_block m)
  ]

  -- `updateToBlock`
  unfoldable pub update_to_block :
      ℤ → BlockFetcher MsgBlock → BlockGate Block → BlockGate Block × Outcome Block
  update_to_block h client g = elim (get_block h client) [
    | none ↦ (g, err get_block_failed)
    | some (block, hash) ↦
        if not (eqb_ℤ (block_height block) h)
        then (g, err wrong_height)
        else if not (hash == block_hash block)
        then (g, err wrong_hash)
        else (store_block h hash block g, ok block)
  ]

  -- `UpdateToNextBlock`, where `height` is the gate's when it is read, under a lock that is let go before the update: the
  -- gate that is updated may have another one by then.
  unfoldable pub update_to_next_block :
      ℤ → BlockFetcher MsgBlock → BlockGate Block → BlockGate Block × Outcome Block
  update_to_next_block height client g = update_to_block (suc_ℤ height) client g

  unfoldable pub update_to_best_block :
      BlockFetcher MsgBlock → BlockGate Block → BlockGate Block × Outcome Block
  update_to_best_block client g = elim client.get_best_block [
    | none ↦ (g, err best_block_failed)
    | some (_, h) ↦ update_to_block h client g
  ]

  -- `Block`
  unfoldable pub block : Hash → BlockFetcher MsgBlock → BlockGate Block → Outcome Block
  block hash client g = elim (cached_block hash g) [
    | ok b ↦ ok b
    | err _ ↦ elim (get_block_by_hash hash client) [ none ↦ err get_block_failed | some b ↦ ok b ]
  ]

  unfoldable pub wait_for_height :
      ℤ → BlockFetcher MsgBlock → BlockGate Block → BlockGate Block × Option Chan
  wait_for_height h client g =
      let queued = record g { height_waiters = register eqb_ℤ h g.height_waiters } in
      let c = g.height_waiters.made in
      if ltb_ℤ h (pos 0) then (g, none) else elim (g.hash_at_height h) [
        | some hash ↦ (signal_height h hash queued, some c)
        | none ↦
            if leb_ℤ h g.fetch_to_height
            then after_update c (update_to_block h client queued)
            else (queued, some c)
      ]

  unfoldable pub wait_for_hash : Hash → BlockGate Block → BlockGate Block × Chan
  wait_for_hash hash g =
      let queued = record g { hash_waiters = register ◌==◌ hash g.hash_waiters } in
      let c = g.hash_waiters.made in
      elim (g.block_with_hash hash) [
        | some b ↦ (signal_hash hash (block_height b) queued, c)
        | none ↦ (queued, c)
      ]
