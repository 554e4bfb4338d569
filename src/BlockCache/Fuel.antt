-- ===== src/BlockCache/Fuel.antt =====
-- The fuel of `up` and `down` in Go's container/heap, as api/types/apicache.go uses them, is enough.
use hdfdata.BlockCache.Heap.{less_at, swap, up, smaller_child, down}
use hdfdata.Base.{
  ℕ, zero, suc, ◌+◌, ◌-◌, ◌*◌, ◌/◌, ◌≡◌, ◌≤◌, ◌<◌, refl, ◌∙◌, ap, inl, inr, Bool, true, false, not,
  ◌&&◌, ◌||◌, List, arith, ltb, leb, ◌==◌, if◌then◌else◌, Bool-cases,
}

module _ {A : Type 0} (less : A → A → Bool) (set_index : ℕ → A → A) where
  up_enough :
      (fuel j : ℕ) (xs : List A)
      → j ≤ fuel
      → up less set_index (suc fuel) j xs ≡ up less set_index fuel j xs
  unfolding up
  up_enough zero j xs h =
      let stop : ((j - 1) / 2 == j) ≡ true = ground (arith, h) in rw (up, stop) refl
  up_enough (suc fuel) j xs h =
      let i : ℕ = (j - 1) / 2 in
      ap (λ rest. if i == j || not (less_at less set_index j i xs) then xs else rest)
        (up_enough fuel i (swap less set_index i j xs) (omega (arith, h)))

  smaller_child_gt : (i n : ℕ) (xs : List A) → i < smaller_child less set_index i n xs
  unfolding smaller_child
  smaller_child_gt i n xs =
      elim (Bool-cases (ltb (2 * i + 2) n && less_at less set_index (2 * i + 2) (2 * i + 1) xs)) [
        | inl t ↦ rw (smaller_child, t) (omega arith)
        | inr f ↦ rw (smaller_child, f) (omega arith)
      ]

  down_enough :
      (fuel i n : ℕ) (xs : List A)
      → n ≤ i + fuel
      → down less set_index (suc fuel) i n xs ≡ down less set_index fuel i n xs
  unfolding down
  down_enough zero i n xs h =
      let stop : leb n (2 * i + 1) ≡ true = ground (arith, h) in rw (down, stop) refl
  down_enough (suc fuel) i n xs h =
      let j : ℕ = smaller_child less set_index i n xs in
      ap
        (λ rest.
          if leb n (2 * i + 1) || not (less_at less set_index j i xs)
          then (xs, false)
          else (rest.0, true))
        (down_enough fuel j n (swap less set_index i j xs)
          (omega (arith, h, smaller_child_gt i n xs)))

  -- The two loops of the heap end within their fuel, the index plus one and the number of elements: more fuel leads to
  -- the same heap.
  pub heap_loops_end :
      (extra i n : ℕ) (xs : List A)
      → (up less set_index (extra + suc i) i xs ≡ up less set_index (suc i) i xs)
        × (down less set_index (extra + n) i n xs ≡ down less set_index n i n xs)
  heap_loops_end zero i n xs =
      let none_up : 0 + suc i ≡ suc i = omega arith in
      let none_down : 0 + n ≡ n = omega arith in
      (ap (λ f. up less set_index f i xs) none_up, ap (λ f. down less set_index f i n xs) none_down)
  heap_loops_end (suc extra) i n xs =
      let (more_up, more_down) = heap_loops_end extra i n xs in
      let one_up : suc extra + suc i ≡ suc (extra + suc i) = omega arith in
      let one_down : suc extra + n ≡ suc (extra + n) = omega arith in
      (
        ap (λ f. up less set_index f i xs) one_up
            ∙ up_enough (extra + suc i) i xs (omega arith)
            ∙ more_up,
        ap (λ f. down less set_index f i n xs) one_down
            ∙ down_enough (extra + n) i n xs (omega arith)
            ∙ more_down,
      )
