-- ===== src/BlockCache/Heap.antt =====
-- Go's container/heap over a list, as api/types/apicache.go uses it: `Less` compares two elements and
-- `Swap` also tells the elements their new positions.
use hdfdata.Base.{
  ℕ, zero, suc, ◌+◌, ◌-◌, ◌*◌, ◌/◌, Bool, true, false, not, ◌&&◌, ◌||◌, none, some, List, [], ◌∷◌,
  ◌++◌, ltb, leb, ◌==◌, if◌then◌else◌, length, get_elem?, take,
}

abbrev pub set_elem {ℓ} : {A : Type ℓ} → ℕ → A → List A → List A
set_elem i y [] = []
set_elem zero y (x ∷ xs) = y ∷ xs
set_elem (suc i) y (x ∷ xs) = x ∷ set_elem i y xs

module _ {A : Type 0} (less : A → A → Bool) (set_index : ℕ → A → A) where
  -- `h.Less(i, j)`, where both are in range.
  unfoldable pub less_at : ℕ → ℕ → List A → Bool
  less_at i j xs = elim (get_elem? xs i) [
    | none ↦ false
    | some a ↦ elim (get_elem? xs j) [ none ↦ false | some b ↦ less a b ]
  ]

  -- `h.Swap(i, j)`, where both are in range.
  unfoldable pub swap : ℕ → ℕ → List A → List A
  swap i j xs = elim (get_elem? xs i) [
    | none ↦ xs
    | some a ↦ elim (get_elem? xs j) [
      | none ↦ xs
      | some b ↦ set_elem j (set_index j a) (set_elem i (set_index i b) xs)
    ]
  ]

  -- `up`, with fuel of one more than the index.
  unfoldable pub up : ℕ → ℕ → List A → List A
  up zero j xs = xs
  up (suc fuel) j xs =
      let i : ℕ = (j - 1) / 2 in
      let rest = up fuel i (swap i j xs) in if i == j || not (less_at j i xs) then xs else rest

  -- The smaller child of `i` among the first `n`, where it has one.
  unfoldable pub smaller_child : ℕ → ℕ → List A → ℕ
  smaller_child i n xs =
      if ltb (2 * i + 2) n && less_at (2 * i + 2) (2 * i + 1) xs then 2 * i + 2 else 2 * i + 1

  -- `down`, with fuel of the length, and whether it has moved the element.
  unfoldable pub down : ℕ → ℕ → ℕ → List A → List A × Bool
  down zero i n xs = (xs, false)
  down (suc fuel) i n xs =
      let j : ℕ = smaller_child i n xs in
      let rest = down fuel j n (swap i j xs) in
      if leb n (2 * i + 1) || not (less_at j i xs) then (xs, false) else (rest.0, true)

  -- `heap.Fix`
  unfoldable pub fix_heap : ℕ → List A → List A
  fix_heap i xs =
      let (ys, moved) = down (length xs) i (length xs) xs in if moved then ys else up (suc i) i ys

  -- `heap.Push` of an element that the heap's `Push` appends.
  unfoldable pub push_heap : A → List A → List A
  push_heap a xs = up (suc (length xs)) (length xs) (xs ++ a ∷ [])

  -- The loop of `heap.Init` over the indices below the first argument, downwards.
  unfoldable pub init_loop : ℕ → List A → List A
  init_loop zero xs = xs
  init_loop (suc i) xs = init_loop i (down (length xs) i (length xs) xs).0

  unfoldable pub init_heap : List A → List A
  init_heap xs = init_loop (length xs / 2) xs

  -- `heap.Remove` of an index in range, whose `Pop` cuts the last element off.
  unfoldable pub remove_heap : ℕ → List A → List A
  remove_heap i xs =
      let n : ℕ = length xs - 1 in
      let swapped = swap i n xs in
      let (ys, moved) = down n i n swapped in
      take n (if n == i then xs else if moved then ys else up (suc i) i ys)
