-- ===== src/Prefetch.antt =====
-- rpcutils/prefetcher.go: `BlockPrefetchClient`, which fetches the block after the one asked for. The node is
-- a parameter: its calls, which may answer differently at each time, and what the source reads of its
-- blocks and headers. A time is a number. A hash is a number, 0
-- the zero hash; a hash in hexadecimal too, 0 the empty text. The counters are unbounded. `Stop`
-- and the two pass-through calls are left out.
use hdfdata.Base.{
  ℕ, ◌+◌, Bool, true, false, not, ◌&&◌, ◌||◌, Option, none, some, List, [], ◌∷◌, ◌++◌, ltb, ◌==◌,
  if◌then◌else◌, length, ◌≡◌, ◌≤◌,
}
pub mod Transparent
pub mod Blocked
mod Tests

abbrev pub Hash : Type 0
Hash = ℕ

abbrev pub HashText : Type 0
HashText = ℕ

-- The calls of the node, which may fail and whose answers depend on the time, and the parts of what it returns.
pub record Node (Block Header : Type 0) : Type 0 where
  pub get_block : ℕ → Hash → Option Block
  pub get_block_header_verbose : ℕ → Hash → Option Header
  pub block_hash : Block → Hash
  pub block_height : Block → ℕ
  pub hash : Header → HashText
  pub next_hash : Header → HashText
  pub new_hash_from_str : HashText → Option Hash

pub record BlockData (Block Header : Type 0) : Type 0 where
  pub height : ℕ
  pub hash : Hash
  pub msg_block : Option Block
  pub header_result : Option Header

-- `locked_for` is the text that a goroutine of `GetBlockData`, which holds the mutex, is to retarget to, and none when
-- the mutex is free; `taken` is the hash that the fetcher has received and waits for the mutex with.
pub record BlockPrefetchClient (Block Header : Type 0) : Type 0 where
  pub retarget_chan : List Hash
  pub current : BlockData Block Header
  pub next : BlockData Block Header
  pub hits : ℕ
  pub misses : ℕ
  pub locked_for : Option HashText
  pub taken : Option Hash

-- What `GetBlockData` returns: a block and a header, which may be nil, an error, or a panic.
pub data Reply (Block Header : Type 0) : Type 0 where
  got : Option Block → Option Header → Reply Block Header
  failed panicked : Reply Block Header

-- The capacity of the channel.
abbrev pub chan_capacity : ℕ
chan_capacity = 10

module _ {Block Header : Type 0} where
  -- `new(blockData)`
  unfoldable pub blank : BlockData Block Header
  blank = record { height = 0; hash = 0; msg_block = none; header_result = none }

  unfoldable pub new_block_prefetch_client : BlockPrefetchClient Block Header
  new_block_prefetch_client = record {
    retarget_chan = [];
    current = blank;
    next = blank;
    hits = 0;
    misses = 0;
    locked_for = none;
    taken = none;
  }

  unfoldable pub have_block_height : ℕ → BlockPrefetchClient Block Header → Bool
  have_block_height height p = p.next.height == height || p.current.height == height

  unfoldable pub have_block_hash : Hash → BlockPrefetchClient Block Header → Bool
  have_block_hash hash p = p.next.hash == hash || p.current.hash == hash

  module _ (f : Node Block Header) where
    unfoldable pub store_next :
        Block → Header → BlockPrefetchClient Block Header → BlockPrefetchClient Block Header
    store_next block header p = record p {
      current = p.next;
      next = record {
        height = f.block_height block;
        hash = f.block_hash block;
        msg_block = some block;
        header_result = some header;
      };
    }

    unfoldable pub retrieve_block_and_header_result : ℕ → Hash → Option (Block × Header)
    retrieve_block_and_header_result now hash = elim (f.get_block now hash) [
      | none ↦ none
      | some block ↦ elim (f.get_block_header_verbose now hash) [
        | none ↦ none
        | some header ↦ some (block, header)
      ]
    ]

    unfoldable pub retrieve_and_store_next :
        ℕ → Hash → BlockPrefetchClient Block Header → BlockPrefetchClient Block Header
    retrieve_and_store_next now hash p =
        if have_block_hash hash p then p else elim (retrieve_block_and_header_result now hash) [
          | none ↦ p
          | some (block, header) ↦ store_next block header p
        ]

    -- `GetBlockData` up to the start of its goroutine, with the mutex free.
    unfoldable pub get_block_data :
        ℕ
        → Hash
        → BlockPrefetchClient Block Header
        → BlockPrefetchClient Block Header × Reply Block Header
    get_block_data now hash p =
        if p.current.hash == hash
        then (record p { hits = p.hits + 1 }, got p.current.msg_block p.current.header_result)
        else if p.next.hash == hash
        then elim p.next.header_result [
          | none ↦ (p, panicked)
          | some header ↦ (
            record p { hits = p.hits + 1; locked_for = some (f.next_hash header) },
            got p.next.msg_block (some header),
          )
        ]
        else elim (retrieve_block_and_header_result now hash) [
          | none ↦ (record p { misses = p.misses + 1 }, failed)
          | some (block, header) ↦ (
            record p { misses = p.misses + 1; locked_for = some (f.next_hash header) },
            got (some block) (some header),
          )
        ]

    -- Whether a header is there and has a hash.
    unfoldable pub is_header_of : HashText → Option Header → Bool
    is_header_of text none = false
    is_header_of text (some header) = text == f.hash header

    -- The hash that `retarget` sends, `none` when it returns before.
    unfoldable pub retarget_hash : HashText → BlockPrefetchClient Block Header → Option Hash
    retarget_hash text p =
        if text == 0
          || is_header_of text p.next.header_result
          || is_header_of text p.current.header_result
        then none
        else f.new_hash_from_str text

    -- `retargetAndUnlock`, `none` while the channel is full and the send waits.
    unfoldable pub retarget_and_unlock :
        HashText → BlockPrefetchClient Block Header → Option (BlockPrefetchClient Block Header)
    retarget_and_unlock text p = elim (retarget_hash text p) [
      | none ↦ some (record p { locked_for = none })
      | some hash ↦
          if ltb (length p.retarget_chan) chan_capacity
          then some (record p { retarget_chan = p.retarget_chan ++ hash ∷ []; locked_for = none })
          else none
    ]

    -- The steps of the callers, of their goroutines and of the fetcher at a time.
    pub data Step (now : ℕ) (p p' : BlockPrefetchClient Block Header) : Type 0 where
      asked :
          (hash : Hash) → p.locked_for ≡ none → (get_block_data now hash p).0 ≡ p' → Step now p p'
      retargeted :
          (text : HashText)
          → p.locked_for ≡ some text
          → retarget_and_unlock text p ≡ some p'
          → Step now p p'
      received :
          (hash : Hash) (rest : List Hash)
          → p.taken ≡ none
          → p.retarget_chan ≡ hash ∷ rest
          → record p { retarget_chan = rest; taken = some hash } ≡ p'
          → Step now p p'
      fetched :
          (hash : Hash)
          → p.taken ≡ some hash
          → p.locked_for ≡ none
          → record (retrieve_and_store_next now hash p) { taken = none } ≡ p'
          → Step now p p'

    -- The clients that there are after steps of which the last was at a time, and none at a later one.
    pub data Reach : ℕ → BlockPrefetchClient Block Header → Type 0 where
      start : Reach 0 new_block_prefetch_client
      after :
          {since now : ℕ} {p p' : BlockPrefetchClient Block Header}
          → Reach since p
          → since ≤ now
          → Step now p p'
          → Reach now p'
