-- ===== src/Mixing/Denominations.antt =====
-- What `IsMixTx` of txhelpers/cspp.go finds.
use hdfdata.Mixing.{VisitOrder, count_at, in_split_point_map, mixed_outs, largest_mix, is_mix_tx}
use hdfdata.Base.{
  ℕ, suc, ◌+◌, ◌/◌, ◌≡◌, ◌≤◌, ◌<◌, ◌⊎◌, refl, sym, ◌∙◌, ap, inl, inr, Bool, true, false, ◌||◌, List,
  [], ◌∷◌, arith, ltb, leb, ◌==◌, ==_iff, if◌then◌else◌, Bool-cases, Option-cases, length, member,
  Dict, find, put, keys, find-put, member-keys,
}

-- How many outputs have a value.
abbrev pub outs_of : ℕ → List ℕ → ℕ
outs_of v [] = 0
outs_of v (x ∷ xs) = if v == x then suc (outs_of v xs) else outs_of v xs

-- The outputs of a denomination.
abbrev pub mixed_outs_of : ℕ → List ℕ → ℕ
mixed_outs_of v xs = if in_split_point_map v then outs_of v xs else 0

mixed_outs-count :
    (v : ℕ) (split : Bool) (xs : List ℕ) (counts : Dict ℕ)
    → in_split_point_map v ≡ split
    → count_at v (mixed_outs xs counts) ≡ count_at v counts + (if split then outs_of v xs else 0)
unfolding mixed_outs
mixed_outs-count v split [] counts e = ground arith
mixed_outs-count v split (x ∷ xs) counts e = elim (Bool-cases (in_split_point_map x)) [
  | inl t ↦
      let ih = mixed_outs-count v split xs (put x (count_at x counts + 1) counts) e in
      elim (Bool-cases (v == x)) [
        | inl same ↦
            let eq : v ≡ x = (==_iff v x).0 same in
            let on : split ≡ true = sym e ∙ rw eq t in
            let before : count_at v (put x (count_at x counts + 1) counts) ≡ count_at x counts + 1 =
              rw (find-put v x (count_at x counts + 1) counts, same) refl in
            rw (mixed_outs, t, on, same)
              (omega (arith, rw on at ih, before, ap (λ k. count_at k counts) eq))
        | inr other ↦
            let before : count_at v (put x (count_at x counts + 1) counts) ≡ count_at v counts =
              rw (find-put v x (count_at x counts + 1) counts, other) refl in
            rw (mixed_outs, t, other)
              (ih ∙ ap (λ k. k + (if split then outs_of v xs else 0)) before)
      ]
  | inr f ↦
      let ih = mixed_outs-count v split xs counts e in
      elim (Bool-cases (v == x)) [
        | inl same ↦
            let off : split ≡ false = sym e ∙ rw ((==_iff v x).0 same) f in
            rw (mixed_outs, f, off) (rw off at ih)
        | inr other ↦ rw (mixed_outs, f, other) ih
      ]
]

module _ (counts : Dict ℕ) where
  -- The best of a loop: none yet, or a denomination that three or more outputs have.
  abbrev pub IsMix : ℕ → ℕ → Type 0
  IsMix d n = ((d ≡ 0) × (n ≡ 0)) ⊎ ((3 ≤ count_at d counts) × (n ≡ count_at d counts))

  IsLargest : List ℕ → ℕ → ℕ × ℕ → Type 0
  IsLargest vs d r =
      IsMix r.0 r.1 × (d ≤ r.0) × ((v : ℕ) → member v vs ≡ true → 3 ≤ count_at v counts → v ≤ r.0)

  largest_mix-IsLargest :
      (vs : List ℕ) (d n : ℕ) → IsMix d n → IsLargest vs d (largest_mix counts vs d n)
  unfolding largest_mix IsLargest
  largest_mix-IsLargest [] d n m = (m, omega arith, λ v i. absurd (ground (arith, i)))
  largest_mix-IsLargest (x ∷ xs) d n m = elim (Bool-cases (ltb (count_at x counts) 3)) [
    | inl few ↦
        let (mix, above, all) = largest_mix-IsLargest xs d n m in
        rw (largest_mix, few)
          (
            mix,
            above,
            λ v i h. elim (Bool-cases (v == x)) [
              | inl t ↦ absurd (ground (arith, few, h, (==_iff v x).0 t))
              | inr f ↦ all v (ground (arith, i, f)) h
            ],
          )
    | inr many ↦ elim (Bool-cases (ltb d x)) [
      | inl larger ↦
          let (mix, above, all) =
            largest_mix-IsLargest xs x (count_at x counts) (inr (ground (arith, many), refl)) in
          rw (largest_mix, many, larger)
            (
              mix,
              ground (arith, above, larger),
              λ v i h. elim (Bool-cases (v == x)) [
                | inl t ↦ ground (arith, above, (==_iff v x).0 t)
                | inr f ↦ all v (ground (arith, i, f)) h
              ],
            )
      | inr smaller ↦
          let (mix, above, all) = largest_mix-IsLargest xs d n m in
          rw (largest_mix, many, smaller)
            (
              mix,
              above,
              λ v i h. elim (Bool-cases (v == x)) [
                | inl t ↦ ground (arith, above, smaller, (==_iff v x).0 t)
                | inr f ↦ all v (ground (arith, i, f)) h
              ],
            )
    ]
  ]

count-member : (v : ℕ) (counts : Dict ℕ) → 0 < count_at v counts → member v (keys counts) ≡ true
count-member v counts h = elim (Option-cases (find v counts)) [
  | inl gone ↦ absurd (ground (arith, h, gone))
  | inr (n, there) ↦ member-keys v counts ∙ rw there refl
]

-- A transaction with three or more inputs and outputs, in whatever order Go visits its map: no denomination that three
-- or more outputs have is larger than the one returned, which is such a denomination with its count, or 0 when there is
-- none; and it is a mix when that count is at least half of the outputs, rounded down.
pub is_mix_tx-largest :
    (order : VisitOrder) (tx_out : List ℕ) (num_tx_in : ℕ)
    → ((ks : List ℕ) (k : ℕ) → member k (order ks) ≡ member k ks)
    → 3 ≤ length tx_out
    → 3 ≤ num_tx_in
    → (mix_denom : ℕ) × (mix_count : ℕ) × (is_mix_tx order tx_out num_tx_in
        ≡ (leb (length tx_out / 2) mix_count, mix_denom, mix_count))
      × ((v : ℕ) → 3 ≤ mixed_outs_of v tx_out → v ≤ mix_denom)
      × (((mix_denom ≡ 0) × (mix_count ≡ 0))
          ⊎ ((3 ≤ mixed_outs_of mix_denom tx_out) × (mix_count ≡ mixed_outs_of mix_denom tx_out)))
unfolding is_mix_tx IsLargest
is_mix_tx-largest order tx_out num_tx_in is_order outs ins =
    let counts = mixed_outs tx_out [] in
    let (mix, _, all) = largest_mix-IsLargest counts (order (keys counts)) 0 0 (inl (refl, refl)) in
    let enough : (ltb (length tx_out) 3 || ltb num_tx_in 3) ≡ false = ground arith in
    let counted = λ (v : ℕ). mixed_outs-count v (in_split_point_map v) tx_out [] refl in
    let r = largest_mix counts (order (keys counts)) 0 0 in
    (
      r.0,
      r.1,
      rw (is_mix_tx, enough) refl,
      λ v h.
          let seen : 3 ≤ count_at v counts = omega (arith, h, counted v) in
          all v (is_order (keys counts) v ∙ count-member v counts (omega (arith, seen))) seen,
      elim mix [
        | inl none_mixed ↦ inl none_mixed
        | inr (many, count) ↦
            inr (omega (arith, many, counted r.0), omega (arith, count, counted r.0))
      ],
    )
