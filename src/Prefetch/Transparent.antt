-- ===== src/Prefetch/Transparent.antt =====
-- What `GetBlockData` of rpcutils/prefetcher.go replies, of a node whose answers change.
use mathlib.Core.Path.{subst}
use hdfdata.Prefetch.{
  Hash, HashText, Node, BlockData, BlockPrefetchClient, Reply, got, failed, blank, have_block_hash,
  store_next, retrieve_block_and_header_result, retrieve_and_store_next, get_block_data,
  retarget_hash, retarget_and_unlock, Step, asked, retargeted, received, fetched, Reach, start,
  after, new_block_prefetch_client, chan_capacity,
}
use hdfdata.Base.{
  ℕ, ◌≡◌, ◌≢◌, ◌≤◌, ◌⊎◌, refl, inl, inr, true, false, Option, none, some, [], ◌∷◌, ◌++◌, arith, ltb,
  ◌==◌, ==_iff, Bool-cases, Option-cases, length,
}

module _ {Block Header : Type 0} (f : Node Block Header) where
  -- At any time, a node's answer to a request for a block is the block of that hash.
  abbrev pub AnswersHash : Type 0
  AnswersHash =
      (now : ℕ) (h : Hash) (block : Block) → f.get_block now h ≡ some block → f.block_hash block ≡ h

  -- At some time that is not later, a block and a header were the node's answer for a hash.
  abbrev pub Answered : ℕ → Hash → Block → Header → Type 0
  Answered now h block header =
      (then_at : ℕ) × (then_at ≤ now)
      × (retrieve_block_and_header_result f then_at h ≡ some (block, header))

  -- Data that is blank, or what was the node's answer for its hash at some time that is not later.
  abbrev pub IsFetched : ℕ → BlockData Block Header → Type 0
  IsFetched now d =
      ((d.hash ≡ 0) × (d.header_result ≡ none))
      ⊎ ((block : Block) × (header : Header) × Answered now d.hash block header
          × (d.msg_block ≡ some block)
          × (d.header_result ≡ some header))

  -- What an answer of the node makes the reply.
  abbrev pub reply_of : Option (Block × Header) → Reply Block Header
  reply_of none = failed
  reply_of (some (block, header)) = got (some block) (some header)

  IsFetched-later :
      {since now : ℕ} (d : BlockData Block Header)
      → since ≤ now
      → IsFetched since d
      → IsFetched now d
  IsFetched-later d later (inl empty) = inl empty
  IsFetched-later d later (inr (block, header, (t, before, found), b, hd)) =
      inr (block, header, (t, omega (arith, before, later), found), b, hd)

  module _ (answers : AnswersHash) where
    retrieve-hash :
        (now : ℕ) (h : Hash) (block : Block) (header : Header)
        → retrieve_block_and_header_result f now h ≡ some (block, header)
        → f.block_hash block ≡ h
    unfolding retrieve_block_and_header_result
    retrieve-hash now h block header e = elim (Option-cases (f.get_block now h)) [
      | inl bad ↦ absurd (ground (arith, bad, e))
      | inr (b, found) ↦ elim (Option-cases (f.get_block_header_verbose now h)) [
        | inl bad ↦ absurd (ground (arith, found, bad, e))
        | inr (hd, found') ↦
            let same : b ≡ block = cc (rw (retrieve_block_and_header_result, found, found') at e) in
            rw (← same) (answers now h b found)
      ]
    ]

    retrieve_and_store_next-IsFetched :
        (now : ℕ) (h : Hash) (p : BlockPrefetchClient Block Header)
        → IsFetched now p.current
        → IsFetched now p.next
        → IsFetched now (retrieve_and_store_next f now h p).current
          × IsFetched now (retrieve_and_store_next f now h p).next
    unfolding retrieve_and_store_next store_next
    retrieve_and_store_next-IsFetched now h p c n = elim (Bool-cases (have_block_hash h p)) [
      | inl had ↦ rw (retrieve_and_store_next, had) (c, n)
      | inr new ↦ elim (Option-cases (retrieve_block_and_header_result f now h)) [
        | inl bad ↦ rw (retrieve_and_store_next, new, bad) (c, n)
        | inr ((block, header), found) ↦
            let same = retrieve-hash now h block header found in
            let at_now : now ≤ now = omega arith in
            rw (retrieve_and_store_next, new, found)
              (n, inr (block, header, (now, at_now, rw same found), refl, refl))
      ]
    ]

    -- The data of a client.
    abbrev AreFetched : ℕ → BlockPrefetchClient Block Header → Type 0
    AreFetched now p = IsFetched now p.current × IsFetched now p.next

    asked-IsFetched :
        (now : ℕ) (h : Hash) (p : BlockPrefetchClient Block Header)
        → AreFetched now p
        → AreFetched now (get_block_data f now h p).0
    unfolding get_block_data
    asked-IsFetched now h p both = elim (Bool-cases (p.current.hash == h)) [
      | inl t ↦ rw (get_block_data, t) both
      | inr not_current ↦ elim (Bool-cases (p.next.hash == h)) [
        | inl t ↦ elim (Option-cases p.next.header_result) [
          | inl nil ↦ rw (get_block_data, not_current, t, nil) both
          | inr (header, there) ↦ rw (get_block_data, not_current, t, there) both
        ]
        | inr not_next ↦ elim (Option-cases (retrieve_block_and_header_result f now h)) [
          | inl bad ↦ rw (get_block_data, not_current, not_next, bad) both
          | inr ((block, header), found) ↦ rw (get_block_data, not_current, not_next, found) both
        ]
      ]
    ]

    retargeted-IsFetched :
        (now : ℕ) (text : HashText) (p p' : BlockPrefetchClient Block Header)
        → AreFetched now p
        → retarget_and_unlock f text p ≡ some p'
        → AreFetched now p'
    unfolding retarget_and_unlock
    retargeted-IsFetched now text p p' both e = elim (Option-cases (retarget_hash f text p)) [
      | inl none_new ↦
          let same : record p { locked_for = none } ≡ p' =
            cc (rw (retarget_and_unlock, none_new) at e) in
          subst (AreFetched now) same both
      | inr (h, fresh) ↦ elim (Bool-cases (ltb (length p.retarget_chan) chan_capacity)) [
        | inl room ↦
            let same : record p { retarget_chan = p.retarget_chan ++ h ∷ []; locked_for = none }
                ≡ p' =
              cc (rw (retarget_and_unlock, fresh, room) at e) in
            subst (AreFetched now) same both
        | inr full ↦ absurd (ground (arith, fresh, full, e))
      ]
    ]

    Step-IsFetched :
        (now : ℕ) (p p' : BlockPrefetchClient Block Header)
        → Step f now p p'
        → AreFetched now p
        → AreFetched now p'
    Step-IsFetched now p p' (asked h free e) both =
        subst (AreFetched now) e (asked-IsFetched now h p both)
    Step-IsFetched now p p' (retargeted text held e) both =
        retargeted-IsFetched now text p p' both e
    Step-IsFetched now p p' (received h rest idle there e) both = subst (AreFetched now) e both
    Step-IsFetched now p p' (fetched h there free e) both =
        subst (AreFetched now) e (retrieve_and_store_next-IsFetched now h p both.0 both.1)

    Reach-IsFetched :
        {now : ℕ} {p : BlockPrefetchClient Block Header} → Reach f now p → AreFetched now p
    unfolding new_block_prefetch_client blank
    Reach-IsFetched start = (inl (refl, refl), inl (refl, refl))
    Reach-IsFetched (after {since} {now} {p} {p'} r later s) =
        let (c, n) = Reach-IsFetched r in
        Step-IsFetched now p p' s
          (IsFetched-later p.current later c, IsFetched-later p.next later n)

    fetched_reply :
        (now : ℕ) (h : Hash) (d : BlockData Block Header)
        → h ≢ 0
        → (d.hash == h) ≡ true
        → IsFetched now d
        → (block : Block) × (header : Header) × (d.msg_block ≡ some block)
          × (d.header_result ≡ some header)
          × Answered now h block header
    fetched_reply now h d nonzero t (inl (zero_hash, nil)) =
        absurd (nonzero (ground (arith, t, zero_hash)))
    fetched_reply now h d nonzero t (inr (block, header, (s, before, found), b, hd)) =
        (block, header, b, hd, (s, before, rw ((==_iff d.hash h).0 t) at found))

    -- Of a node that answers a request for a block, at any time, with the block of that hash, let steps have led to a
    -- client, and a block whose hash is not zero be asked for at a time after them. When the client does not have that
    -- hash, the reply is what the node answers now: its block and header, or its error. When the client has it, the reply
    -- is a block and a header that were the node's answer for that hash at some time not after the last of those steps.
    pub get_block_data-reply :
        (since now : ℕ) (h : Hash) (p : BlockPrefetchClient Block Header)
        → Reach f since p
        → since ≤ now
        → h ≢ 0
        → ((have_block_hash h p ≡ false)
            × ((get_block_data f now h p).1 ≡ reply_of (retrieve_block_and_header_result f now h)))
          ⊎ ((have_block_hash h p ≡ true)
              × (block : Block) × (header : Header) × Answered since h block header
              × ((get_block_data f now h p).1 ≡ got (some block) (some header)))
    unfolding get_block_data have_block_hash
    get_block_data-reply since now h p r later nonzero =
        let (c, n) = Reach-IsFetched r in
        elim (Bool-cases (p.current.hash == h)) [
          | inl t ↦
              let (block, header, b, hd, found) = fetched_reply since h p.current nonzero t c in
              inr (ground (arith, t), block, header, found, rw (get_block_data, t, b, hd) refl)
          | inr not_current ↦ elim (Bool-cases (p.next.hash == h)) [
            | inl t ↦
                let (block, header, b, hd, found) = fetched_reply since h p.next nonzero t n in
                inr (
                  ground (arith, t),
                  block,
                  header,
                  found,
                  rw (get_block_data, not_current, t, hd, b) refl,
                )
            | inr not_next ↦ inl (
              ground (arith, not_current, not_next),
              elim (Option-cases (retrieve_block_and_header_result f now h)) [
                | inl bad ↦ rw (get_block_data, not_current, not_next, bad) refl
                | inr ((block, header), found) ↦
                    rw (get_block_data, not_current, not_next, found) refl
              ],
            )
          ]
        ]
