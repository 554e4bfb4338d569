-- ===== src/BlockGate/Updates.antt =====
-- `updateToBlock` of rpcutils/blockgate.go, and what the cache's getters return after it.
use mathlib.Core.List.{map-append}
use mathlib.Core.Path.{subst}
use hdfdata.Base.{
  ℕ, suc, ◌+◌, ◌≡◌, ◌≢◌, ◌<◌, ◌⊎◌, refl, sym, ◌∙◌, ap, inl, inr, true, none, some, List, [], ◌∷◌,
  ◌++◌, map, arith, ℤ, eqb_ℤ, eqb_ℤ_iff, ltb, ◌==◌, ==_iff, ==_refl, length, drop_of_length-le,
  Bool-cases, length-append,
}
use hdfdata.BlockGate.Maps.{newest-append}
use hdfdata.BlockGate.Window.{
  Holds, Represents, pair_of, last_height, last_height-append, last_n, length-last_n, last_n-snoc,
  last_n-append_short, last_n-append_full, pushed, pushed-Holds, pop_oldest-Holds,
}
use hdfdata.BlockGate.{
  Hash, BlockGate, BlockFetcher, ok, err, GateError, get_block_failed, wrong_height, wrong_hash,
  block_not_found, hash_not_found, expire, pop_oldest, rotate_in, signal_height, signal_hash,
  store_block, get_block, update_to_block, best_block, best_block_hash, cached_block,
  new_block_gate,
}

module _ {Block : Type 0} (block_height : Block → ℤ) (block_hash : Block → Hash) where
  length-map-pair_of :
      (w : List Block) → length (map (pair_of block_height block_hash) w) ≡ length w
  length-map-pair_of [] = refl
  length-map-pair_of (b ∷ w) = ap suc (length-map-pair_of w)

  expire-Represents :
      (stored : List Block) (b y : Block) (rest : List Block) (g : BlockGate Block)
      → Represents block_height block_hash stored g
      → last_n g.expire_queue.cap stored ++ b ∷ [] ≡ y ∷ rest
      → Represents block_height block_hash (stored ++ b ∷ []) (
          expire
            (map (pair_of block_height block_hash) (y ∷ rest))
            (pushed block_height block_hash b g))
  unfolding expire pop_oldest
  expire-Represents stored b y rest g r e =
      let full : Holds block_height block_hash (y ∷ rest) (pushed block_height block_hash b g) =
        rw (← e)
          (pushed-Holds block_height block_hash b (last_n g.expire_queue.cap stored) g r.held) in
      let size : length (last_n g.expire_queue.cap stored) + 1 ≡ suc (length rest) =
        omega (arith, length-append (last_n g.expire_queue.cap stored) (b ∷ []), ap length e) in
      let window = length-last_n g.expire_queue.cap stored in
      let best : block_height b ≡ last_height block_height block_hash (stored ++ b ∷ []) =
        sym (last_height-append block_height block_hash stored b) in
      elim (Bool-cases (ltb g.expire_queue.cap (suc (length rest)))) [
        | inl over ↦
            rw (length-map-pair_of rest, over)
              (record {
                held =
                    rw
                      (last_n-append_full g.expire_queue.cap stored b y rest
                        (ground (arith, size, window)) e)
                      (pop_oldest-Holds block_height block_hash y rest
                        (pushed block_height block_hash b g) full);
                best = best;
              })
        | inr fits ↦
            rw (length-map-pair_of rest, fits)
              (record {
                held =
                    rw
                      (last_n-append_short g.expire_queue.cap stored b
                          (ground (arith, size, window))
                        ∙ e)
                      full;
                best = best;
              })
      ]

  snoc-cases :
      (w : List Block) (b : Block) → (y : Block) × (rest : List Block) × (w ++ b ∷ [] ≡ y ∷ rest)
  snoc-cases [] b = (b, [], refl)
  snoc-cases (y ∷ w) b = (y, w ++ b ∷ [], refl)

  pub store_block-Represents :
      (stored : List Block) (b : Block) (g : BlockGate Block)
      → Represents block_height block_hash stored g
      → Represents block_height block_hash
          (stored ++ b ∷ [])
          (store_block (block_height b) (block_hash b) b g)
  unfolding store_block rotate_in signal_height signal_hash
  store_block-Represents stored b g r =
      let (y, rest, e) = snoc-cases (last_n g.expire_queue.cap stored) b in
      let queue : g.expire_queue.q ++ pair_of block_height block_hash b ∷ []
          ≡ map (pair_of block_height block_hash) (y ∷ rest) =
        ap (λ q. q ++ pair_of block_height block_hash b ∷ []) r.held.queue
        ∙ sym (
            map-append (pair_of block_height block_hash) (last_n g.expire_queue.cap stored)
              (b ∷ []))
        ∙ ap (map (pair_of block_height block_hash)) e in
      let s : Represents block_height block_hash (stored ++ b ∷ []) (
          expire (g.expire_queue.q ++ pair_of block_height block_hash b ∷ [])
            (pushed block_height block_hash b g)) =
        subst
          (λ q.
            Represents block_height block_hash (stored ++ b ∷ [])
              (expire q (pushed block_height block_hash b g)))
          (sym queue) (expire-Represents stored b y rest g r e) in
      record {
        held = record { queue = s.held.queue; heights = s.held.heights; blocks = s.held.blocks };
        best = s.best;
      }

  -- A gate just made represents no stored block.
  pub new_block_gate-Represents :
      (capacity : ℕ) → Represents block_height block_hash [] (new_block_gate capacity)
  unfolding new_block_gate
  new_block_gate-Represents capacity =
      let e : last_n {A = Block} capacity [] ≡ [] = drop_of_length-le _ [] (omega arith) in
      record {
        held = record { queue = rw e refl; heights = λ k. rw e refl; blocks = λ k. rw e refl };
        best = refl;
      }

  -- With room for at least one block, `BestBlock` returns the last block that was stored, without an
  -- error; `BestBlockHash` returns its hash and height; and its hash finds it in the cache.
  pub best_block-Represents :
      (stored : List Block) (b : Block) (g : BlockGate Block)
      → Represents block_height block_hash (stored ++ b ∷ []) g
      → 0 < g.expire_queue.cap
      → (best_block g ≡ (some b, none))
        × (best_block_hash g ≡ ok (block_hash b, block_height b))
        × (cached_block (block_hash b) g ≡ ok b)
  unfolding best_block best_block_hash cached_block
  best_block-Represents stored b g r room =
      let height : g.height ≡ block_height b =
        r.best ∙ last_height-append block_height block_hash stored b in
      let (front, e) = last_n-snoc g.expire_queue.cap stored b room in
      let at_height : g.hash_at_height (block_height b) ≡ some (block_hash b) =
        r.held.heights (block_height b)
        ∙ rw e (
            rw
              (
                newest-append eqb_ℤ block_height (block_height b) front b,
                (eqb_ℤ_iff (block_height b) (block_height b)).1 refl,
              )
              refl) in
      let with_hash : g.block_with_hash (block_hash b) ≡ some b =
        r.held.blocks (block_hash b)
        ∙ rw e (
            rw (newest-append ◌==◌ block_hash (block_hash b) front b, ==_refl (block_hash b))
              refl) in
      (
        rw (best_block, height, at_height, with_hash) refl,
        rw (best_block_hash, height, at_height) (ap (λ x. ok (block_hash b, x)) height),
        rw (cached_block, with_hash) refl,
      )

  -- With no room, nothing is ever cached: `BestBlock`, `BestBlockHash` and the look-up of any hash fail.
  pub best_block_no_room :
      (stored : List Block) (hash : Hash) (g : BlockGate Block)
      → Represents block_height block_hash stored g
      → g.expire_queue.cap ≡ 0
      → (best_block g ≡ (none, some block_not_found))
        × (best_block_hash g ≡ err hash_not_found)
        × (cached_block hash g ≡ err block_not_found)
  unfolding best_block best_block_hash cached_block
  best_block_no_room stored hash g r zero_cap =
      let e : last_n g.expire_queue.cap stored ≡ [] =
        drop_of_length-le _ stored (omega (arith, zero_cap)) in
      let no_hash : g.hash_at_height g.height ≡ none = r.held.heights g.height ∙ rw e refl in
      let no_block : (h : Hash) → g.block_with_hash h ≡ none = λ h. r.held.blocks h ∙ rw e refl in
      (
        rw (best_block, no_hash, no_block 0) refl,
        rw (best_block_hash, no_hash) refl,
        rw (cached_block, no_block hash) refl,
      )

module _ {Block MsgBlock : Type 0} (new_block : MsgBlock → Block) (block_height : Block → ℤ)
    (block_hash : Block → Hash) (h : ℤ) (client : BlockFetcher MsgBlock) (g : BlockGate Block) where
  -- When the node answers with a block of the height asked for and of the hash that it gave,
  -- `updateToBlock` returns that block, and a gate that represents the blocks `stored` then
  -- represents them followed by it.
  pub update_to_block-Represents :
      (stored : List Block) (b : Block)
      → Represents block_height block_hash stored g
      → get_block new_block block_height block_hash h client ≡ some (b, block_hash b)
      → block_height b ≡ h
      → ((update_to_block new_block block_height block_hash h client g).1 ≡ ok b)
        × Represents block_height block_hash
            (stored ++ b ∷ [])
            (update_to_block new_block block_height block_hash h client g).0
  unfolding update_to_block
  update_to_block-Represents stored b r answer height =
      let same_height : eqb_ℤ (block_height b) h ≡ true = (eqb_ℤ_iff (block_height b) h).1 height in
      rw (update_to_block, answer, same_height, ==_refl (block_hash b))
        (refl, rw (← height) (store_block-Represents block_height block_hash stored b g r))

  -- When the node fails to give the block, gives one of another height, or gives one of another hash
  -- than it named, `updateToBlock` returns an error and leaves the gate as it was.
  pub update_to_block_errors :
      (b : Block) (hash : Hash)
      → (get_block new_block block_height block_hash h client ≡ none)
        ⊎ ((get_block new_block block_height block_hash h client ≡ some (b, hash))
            × ((block_height b ≢ h) ⊎ (hash ≢ block_hash b)))
      → (e : GateError) × (update_to_block new_block block_height block_hash h client g
          ≡ (g, err e))
  unfolding update_to_block
  update_to_block_errors b hash (inl e) = (get_block_failed, rw (update_to_block, e) refl)
  update_to_block_errors b hash (inr (e, bad)) = elim (Bool-cases (eqb_ℤ (block_height b) h)) [
    | inr other ↦ (wrong_height, rw (update_to_block, e, other) refl)
    | inl same ↦ elim (Bool-cases (hash == block_hash b)) [
      | inr other ↦ (wrong_hash, rw (update_to_block, e, same, other) refl)
      | inl twin ↦ absurd (elim bad [
        | inl n ↦ n ((eqb_ℤ_iff (block_height b) h).0 same)
        | inr n ↦ n ((==_iff hash (block_hash b)).0 twin)
      ])
    ]
  ]
