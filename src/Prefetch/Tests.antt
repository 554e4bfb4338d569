-- ===== src/Prefetch/Tests.antt =====
-- A node of a hundred blocks, that is lost at time 50, behind the client of rpcutils/prefetcher.go, and the theorems
-- there.
use hdfdata.Prefetch.Blocked.{client_blocked}
use hdfdata.Prefetch.Transparent.{Answered, reply_of, get_block_data-reply}
use hdfdata.Prefetch.{
  Hash, Node, BlockData, BlockPrefetchClient, got, blank, new_block_prefetch_client,
  have_block_hash, store_next, retrieve_block_and_header_result, retrieve_and_store_next,
  get_block_data, is_header_of, retarget_hash, retarget_and_unlock, Step, asked, retargeted,
  received, fetched, Reach, start, after,
}
use hdfdata.Base.{
  ℕ, ◌+◌, ◌≡◌, ◌⊎◌, refl, true, false, none, some, [], ◌∷◌, arith, ltb, if◌then◌else◌,
}

program : Unit {0}
unfolding blank new_block_prefetch_client have_block_hash store_next
    retrieve_block_and_header_result retrieve_and_store_next get_block_data is_header_of
    retarget_hash retarget_and_unlock
program = tt

-- Blocks are their hashes, each follows the one before it, and a header has the time at which it was asked for. From time
-- 50 the node is not reached.
abbrev StampedHeader : Type 0
StampedHeader = ℕ × ℕ

abbrev node : Node ℕ StampedHeader
node = record {
  get_block = λ now h. if ltb now 50 then if ltb h 100 then some h else none else none;
  get_block_header_verbose =
      λ now h. if ltb now 50 then if ltb h 100 then some (h, now) else none else none;
  block_hash = λ b. b;
  block_height = λ b. b;
  hash = λ header. header.0;
  next_hash = λ header. header.0 + 1;
  new_hash_from_str = λ t. some t;
}

answers :
    (now : ℕ) (h : Hash) (block : ℕ) → node.get_block now h ≡ some block → node.block_hash block ≡ h
answers now h block e = ground (arith, e)

abbrev Client : Type 0
Client = BlockPrefetchClient ℕ StampedHeader

abbrev fetched_data : ℕ → ℕ → BlockData ℕ StampedHeader
fetched_data h now = record {
  height = h;
  hash = h;
  msg_block = some h;
  header_result = some (h, now);
}

-- Block 5 was asked for, and block 6 fetched after it, at time 3.
abbrev prefetched : Client
prefetched = record (new_block_prefetch_client {Block = ℕ} {Header = StampedHeader}) {
  next = fetched_data 6 3;
  current = blank;
  misses = 1;
}

-- One more step at the same time.
afterwards :
    {since : ℕ} {p p' : Client} → Reach node since p → Step node since p p' → Reach node since p'
afterwards r s = after r (omega arith) s

prefetched_six : Reach node 3 prefetched
unfolding program
prefetched_six =
    let r0 = after {now = 0} start (omega arith) (asked 5 refl refl) in
    let r1 = after {now = 1} r0 (omega arith) (retargeted 6 refl refl) in
    let r2 = after {now = 2} r1 (omega arith) (received 6 [] refl refl refl) in
    after r2 (omega arith) (fetched 6 refl refl refl)

-- At time 60 the node would not answer, and the client has what it was told at time 3.
get_block_data-reply_example :
    ((have_block_hash 6 prefetched ≡ false)
      × ((get_block_data node 60 6 prefetched).1
          ≡ reply_of node (retrieve_block_and_header_result node 60 6)))
    ⊎ ((have_block_hash 6 prefetched ≡ true)
        × (block : ℕ) × (header : StampedHeader) × Answered node 3 6 block header
        × ((get_block_data node 60 6 prefetched).1 ≡ got (some block) (some header)))
unfolding program
get_block_data-reply_example =
    get_block_data-reply node answers 3 60 6 prefetched prefetched_six (omega arith) (omega arith)

stale_reply : (get_block_data node 60 6 prefetched).1 ≡ got (some 6) (some (6, 3))
unfolding program
stale_reply = refl

-- Ten hashes wait in the channel, one with the fetcher, and one with a caller's goroutine.
abbrev crowded : Client
crowded = record (new_block_prefetch_client {Block = ℕ} {Header = StampedHeader}) {
  misses = 12;
  retarget_chan = 20 ∷ 21 ∷ 22 ∷ 23 ∷ 24 ∷ 25 ∷ 26 ∷ 27 ∷ 28 ∷ 29 ∷ [];
  taken = some 19;
  locked_for = some 30;
}

-- Twelve callers in turn, of whom each gets the mutex before the fetcher does.
crowding : Reach node 0 crowded
unfolding program
crowding =
    let r18 =
      afterwards (afterwards (afterwards start (asked 18 refl refl)) (retargeted 19 refl refl))
        (received 19 [] refl refl refl) in
    let r19 = afterwards (afterwards r18 (asked 19 refl refl)) (retargeted 20 refl refl) in
    let r20 = afterwards (afterwards r19 (asked 20 refl refl)) (retargeted 21 refl refl) in
    let r21 = afterwards (afterwards r20 (asked 21 refl refl)) (retargeted 22 refl refl) in
    let r22 = afterwards (afterwards r21 (asked 22 refl refl)) (retargeted 23 refl refl) in
    let r23 = afterwards (afterwards r22 (asked 23 refl refl)) (retargeted 24 refl refl) in
    let r24 = afterwards (afterwards r23 (asked 24 refl refl)) (retargeted 25 refl refl) in
    let r25 = afterwards (afterwards r24 (asked 25 refl refl)) (retargeted 26 refl refl) in
    let r26 = afterwards (afterwards r25 (asked 26 refl refl)) (retargeted 27 refl refl) in
    let r27 = afterwards (afterwards r26 (asked 27 refl refl)) (retargeted 28 refl refl) in
    let r28 = afterwards (afterwards r27 (asked 28 refl refl)) (retargeted 29 refl refl) in
    afterwards r28 (asked 29 refl refl)

client_blocked_example : ¬ Step node 7 crowded prefetched
unfolding program
client_blocked_example =
    client_blocked node 7 30 30 19 crowded prefetched refl refl (omega arith) refl
