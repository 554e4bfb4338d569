-- ===== src/BlockCache/Heights.antt =====
-- `RescanMinMax` of api/types/apicache.go, which rescans without starting afresh.
use hdfdata.BlockCache.Queue.{
  CachedBlock, BlockPriorityQueue, update_min_max, rescan_loop, rescan_min_max,
}
use hdfdata.Base.{
  ℕ, ◌≡◌, ◌≤◌, refl, ◌∙◌, ap, true, false, List, [], ◌∷◌, pos, arith, ltb, ltb_ℤ, leb_ℤ,
}

module _ {Basic Stake : Type 0} where
  -- Heights within the least and the greatest that a queue has.
  abbrev pub Within : List (CachedBlock Basic Stake) → BlockPriorityQueue Basic Stake → Type 0
  Within [] pq = Unit
  Within (b ∷ bs) pq =
      (pq.min_height ≤ b.height) × (leb_ℤ (pos b.height) pq.max_height ≡ true) × Within bs pq

  update_min_max-Within :
      (h : ℕ) (pq : BlockPriorityQueue Basic Stake)
      → pq.min_height ≤ h
      → leb_ℤ (pos h) pq.max_height ≡ true
      → update_min_max h pq ≡ pq
  unfolding update_min_max
  update_min_max-Within h pq low high =
      let keep_low : ltb h pq.min_height ≡ false = ground (arith, low) in
      let keep_high : ltb_ℤ pq.max_height (pos h) ≡ false = ground (arith, high) in
      rw (update_min_max, keep_low, keep_high) refl

  rescan_loop-Within :
      (bs : List (CachedBlock Basic Stake)) (pq : BlockPriorityQueue Basic Stake)
      → Within bs pq
      → rescan_loop bs pq ≡ pq
  unfolding rescan_loop
  rescan_loop-Within [] pq w = refl
  rescan_loop-Within (b ∷ bs) pq w =
      ap (rescan_loop bs) (update_min_max-Within b.height pq w.0 w.1) ∙ rescan_loop-Within bs pq w.2

  -- A rescan of a queue whose heights lie within the least and the greatest that it has changes nothing: neither is moved
  -- inwards, whichever block was removed before.
  pub rescan_min_max-Within :
      (pq : BlockPriorityQueue Basic Stake) → Within pq.bh pq → rescan_min_max pq ≡ pq
  unfolding rescan_min_max
  rescan_min_max-Within pq w = rescan_loop-Within pq.bh pq w
