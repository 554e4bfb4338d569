-- ===== src/BlockCache/Shuffle.antt =====
-- The operations of Go's container/heap only reorder: they keep the number of elements that pass any test
-- that does not look at positions.
use hdfdata.BlockCache.Heap.{
  set_elem, less_at, swap, up, smaller_child, down, fix_heap, push_heap, init_loop, init_heap,
}
use hdfdata.Base.{
  ℕ, zero, suc, ◌+◌, ◌-◌, ◌*◌, ◌/◌, ◌≡◌, refl, ◌∙◌, inl, inr, Bool, not, ◌||◌, some, List, [], ◌∷◌,
  ◌++◌, arith, leb, ◌==◌, if◌then◌else◌, Bool-cases, Option-cases, length, get_elem?,
}

abbrev pub one : Bool → ℕ
one b = if b then 1 else 0

module _ {A : Type 0} (p : A → Bool) where
  -- How many elements pass a test.
  abbrev pub count : List A → ℕ
  count [] = 0
  count (x ∷ xs) = one (p x) + count xs

  pub count-append : (xs ys : List A) → count (xs ++ ys) ≡ count xs + count ys
  count-append [] ys = omega arith
  count-append (x ∷ xs) ys = omega (arith, count-append xs ys)

  pub count-set_elem :
      (i : ℕ) (x y : A) (xs : List A)
      → get_elem? xs i ≡ some x
      → count (set_elem i y xs) + one (p x) ≡ count xs + one (p y)
  count-set_elem i x y [] e = absurd (ground arith)
  count-set_elem zero x y (z ∷ xs) e = let same : z ≡ x = cc e in rw (← same) (omega arith)
  count-set_elem (suc i) x y (z ∷ xs) e = omega (arith, count-set_elem i x y xs e)

module _ {A : Type 0} where
  pub get_elem?-set_elem :
      (i j : ℕ) (x y : A) (xs : List A)
      → get_elem? xs i ≡ some x
      → get_elem? (set_elem i y xs) j ≡ (if j == i then some y else get_elem? xs j)
  get_elem?-set_elem i j x y [] e = absurd (ground arith)
  get_elem?-set_elem zero zero x y (z ∷ xs) e = refl
  get_elem?-set_elem zero (suc j) x y (z ∷ xs) e = ground arith
  get_elem?-set_elem (suc i) zero x y (z ∷ xs) e = ground arith
  get_elem?-set_elem (suc i) (suc j) x y (z ∷ xs) e =
      ground (arith, get_elem?-set_elem i j x y xs e)

module _ {A : Type 0} (less : A → A → Bool) (set_index : ℕ → A → A) where
  module _ (p : A → Bool) (blind : (i : ℕ) (a : A) → p (set_index i a) ≡ p a) where
    count-swapped :
        (i j : ℕ) (a b : A) (xs : List A)
        → get_elem? xs i ≡ some a
        → get_elem? xs j ≡ some b
        → count p (set_elem j (set_index j a) (set_elem i (set_index i b) xs)) ≡ count p xs
    count-swapped i j a b xs at_i at_j =
        let first = count-set_elem p i a (set_index i b) xs at_i in
        elim (Bool-cases (j == i)) [
          | inl t ↦
              let middle : get_elem? (set_elem i (set_index i b) xs) j ≡ some (set_index i b) =
                get_elem?-set_elem i j a (set_index i b) xs at_i ∙ rw t refl in
              let second =
                count-set_elem p j (set_index i b) (set_index j a) (set_elem i (set_index i b) xs)
                  middle in
              ground (arith, first, second, blind i b, blind j a)
          | inr f ↦
              let middle : get_elem? (set_elem i (set_index i b) xs) j ≡ some b =
                get_elem?-set_elem i j a (set_index i b) xs at_i ∙ rw f at_j in
              let second =
                count-set_elem p j b (set_index j a) (set_elem i (set_index i b) xs) middle in
              ground (arith, first, second, blind i b, blind j a)
        ]

    count-swap : (i j : ℕ) (xs : List A) → count p (swap less set_index i j xs) ≡ count p xs
    unfolding swap
    count-swap i j xs = elim (Option-cases (get_elem? xs i)) [
      | inl gone ↦ rw (swap, gone) refl
      | inr (a, there) ↦ elim (Option-cases (get_elem? xs j)) [
        | inl gone ↦ rw (swap, there, gone) refl
        | inr (b, there') ↦ rw (swap, there, there') (count-swapped i j a b xs there there')
      ]
    ]

    count-up : (fuel j : ℕ) (xs : List A) → count p (up less set_index fuel j xs) ≡ count p xs
    unfolding up
    count-up zero j xs = refl
    count-up (suc fuel) j xs =
        let i : ℕ = (j - 1) / 2 in
        elim (Bool-cases (i == j || not (less_at less set_index j i xs))) [
          | inl stop ↦ rw (up, stop) refl
          | inr go ↦ rw (up, go) (count-up fuel i (swap less set_index i j xs) ∙ count-swap i j xs)
        ]

    count-down :
        (fuel i n : ℕ) (xs : List A) → count p (down less set_index fuel i n xs).0 ≡ count p xs
    unfolding down
    count-down zero i n xs = refl
    count-down (suc fuel) i n xs =
        let j : ℕ = smaller_child less set_index i n xs in
        elim (Bool-cases (leb n (2 * i + 1) || not (less_at less set_index j i xs))) [
          | inl stop ↦ rw (down, stop) refl
          | inr go ↦
              rw (down, go) (count-down fuel j n (swap less set_index i j xs) ∙ count-swap i j xs)
        ]

    pub count-fix_heap : (i : ℕ) (xs : List A) → count p (fix_heap less set_index i xs) ≡ count p xs
    unfolding fix_heap
    count-fix_heap i xs =
        let down_same = count-down (length xs) i (length xs) xs in
        elim (Bool-cases (down less set_index (length xs) i (length xs) xs).1) [
          | inl moved ↦ rw (fix_heap, moved) down_same
          | inr still ↦
              rw (fix_heap, still)
                (count-up (suc i) i (down less set_index (length xs) i (length xs) xs).0
                  ∙ down_same)
        ]

    pub count-push_heap :
        (a : A) (xs : List A) → count p (push_heap less set_index a xs) ≡ count p xs + one (p a)
    unfolding push_heap
    count-push_heap a xs =
        omega
          (arith, count-up (suc (length xs)) (length xs) (xs ++ a ∷ []), count-append p xs (a ∷ []))

    count-init_loop : (i : ℕ) (xs : List A) → count p (init_loop less set_index i xs) ≡ count p xs
    unfolding init_loop
    count-init_loop zero xs = refl
    count-init_loop (suc i) xs =
        count-init_loop i (down less set_index (length xs) i (length xs) xs).0
        ∙ count-down (length xs) i (length xs) xs

    pub count-init_heap : (xs : List A) → count p (init_heap less set_index xs) ≡ count p xs
    unfolding init_heap
    count-init_heap xs = count-init_loop (length xs / 2) xs
