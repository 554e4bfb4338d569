-- ===== src/ChainWalk/Fork.antt =====
-- That `CommonAncestor` of rpcutils/rpcclient.go finds the block where two chains fork.
use hdfdata.ChainWalk.{
  Hash, Header, found, max_ancestor_chain_length, ancestor_loop, common_ancestor,
}
use hdfdata.Base.{
  ℕ, zero, suc, ◌+◌, ◌≡◌, ◌≢◌, ◌≤◌, ◌<◌, ◌⊎◌, refl, inl, inr, true, false, Option, some, List, [],
  ◌∷◌, arith, ltb, ◌==◌, ==_iff, ==_refl, Bool-cases, length, member,
}

-- A list turned round onto another.
abbrev pub reverse_onto : List Hash → List Hash → List Hash
reverse_onto [] chain = chain
reverse_onto (h ∷ hs) chain = reverse_onto hs (h ∷ chain)

module _ (get_block : Hash → Option Header) (p : Hash) (base : ℕ) where
  -- The blocks from one down to the child of a block `p` at a height, each with its parent next and one higher than it.
  abbrev pub IsDescent : Hash → List Hash → Type 0
  IsDescent top [] = top ≡ p
  IsDescent top (h ∷ hs) =
      (top ≡ h)
      × ((x : Header) × (get_block top ≡ some x)
          × (x.height ≡ suc (base + length hs))
          × IsDescent x.prev_block hs)

  -- No block of the first is in the second, and none has the zero hash.
  abbrev pub IsApart : List Hash → List Hash → Type 0
  IsApart us vs = (k : Hash) → member k us ≡ true → (member k vs ≡ false) × (k ≢ 0)

  parents_apart :
      (us vs : List Hash) (a b : Hash)
      → IsDescent a us
      → IsDescent b vs
      → IsApart us vs
      → p ≢ 0
      → length us ≡ length vs
      → ((a == 0) ≡ false)
        × (((us ≡ []) × (vs ≡ []) × ((a == b) ≡ true)) ⊎ ((0 < length us) × ((a == b) ≡ false)))
  parents_apart [] [] a b da db apart nonzero same =
      (ground (arith, da, nonzero), inl (refl, refl, ground (arith, da, db, ==_refl p)))
  parents_apart [] (l ∷ ls) a b da db apart nonzero same = absurd (omega (arith, same))
  parents_apart (k ∷ ks) [] a b da db apart nonzero same = absurd (omega (arith, same))
  parents_apart (k ∷ ks) (l ∷ ls) a b da db apart nonzero same =
      let (outside, k_nonzero) = apart k (rw (==_refl k) refl) in
      (
        ground (arith, da.0, k_nonzero),
        inr (omega arith, ground (arith, da.0, db.0, outside, ==_iff k l)),
      )

  ancestor_loop-found :
      (left : ℕ) (a b : Hash) (us vs chain_a chain_b : List Hash)
      → IsDescent a us
      → IsDescent b vs
      → IsApart us vs
      → p ≢ 0
      → 0 < length us
      → 0 < length vs
      → length us + length vs ≤ left
      → ancestor_loop get_block left a b chain_a chain_b
        ≡ found p (reverse_onto us chain_a) (reverse_onto vs chain_b)
  unfolding ancestor_loop
  ancestor_loop-found left a b [] vs chain_a chain_b da db apart nonzero la lb enough =
      absurd (omega (arith, la))
  ancestor_loop-found left a b (k ∷ ks) [] chain_a chain_b da db apart nonzero la lb enough =
      absurd (omega (arith, lb))
  ancestor_loop-found zero a b (k ∷ ks) (l ∷ ls) chain_a chain_b da db apart nonzero la lb enough =
      absurd (omega (arith, enough))
  ancestor_loop-found (suc left) a b (k ∷ ks) (l ∷ ls) chain_a chain_b
        (ea, (x, there_x, height_x, dx)) (eb, (y, there_y, height_y, dy)) apart nonzero la lb
        enough =
      elim (Bool-cases (ltb y.height x.height)) [
        | inl higher ↦
            rw (ancestor_loop, there_x, there_y, higher, ← ea)
              (ancestor_loop-found left x.prev_block b ks (l ∷ ls) (a ∷ chain_a) chain_b dx
                (eb, (y, there_y, height_y, dy)) (λ j m. apart j (ground (arith, m))) nonzero
                (ground (arith, higher, height_x, height_y)) lb (omega (arith, enough)))
        | inr not_higher ↦ elim (Bool-cases (ltb x.height y.height)) [
          | inl lower ↦
              rw (ancestor_loop, there_x, there_y, not_higher, lower, ← eb)
                (ancestor_loop-found left a y.prev_block (k ∷ ks) ls chain_a (b ∷ chain_b)
                  (ea, (x, there_x, height_x, dx)) dy
                  (λ j m.
                    let (outside, k_nonzero) = apart j m in (ground (arith, outside), k_nonzero))
                  nonzero la (ground (arith, lower, height_x, height_y)) (omega (arith, enough)))
          | inr level ↦
              let same : length ks ≡ length ls =
                ground (arith, not_higher, level, height_x, height_y) in
              let lower_apart : IsApart ks ls = λ j m.
                let (outside, j_nonzero) = apart j (ground (arith, m)) in
                (ground (arith, outside), j_nonzero) in
              let (inside, cases) =
                parents_apart ks ls x.prev_block y.prev_block dx dy lower_apart nonzero same in
              elim cases [
                | inl (none_a, none_b, met) ↦
                    let base_a : x.prev_block ≡ p = rw none_a at dx in
                    rw
                      (
                        ancestor_loop,
                        there_x,
                        there_y,
                        not_higher,
                        level,
                        inside,
                        met,
                        none_a,
                        none_b,
                        base_a,
                        ← ea,
                        ← eb,
                      )
                      refl
                | inr (more, unmet) ↦
                    rw
                      (
                        ancestor_loop,
                        there_x,
                        there_y,
                        not_higher,
                        level,
                        inside,
                        unmet,
                        ← ea,
                        ← eb,
                      )
                      (ancestor_loop-found left x.prev_block y.prev_block ks ls (a ∷ chain_a)
                        (b ∷ chain_b) dx dy lower_apart nonzero more (omega (arith, more, same))
                        (omega (arith, enough)))
              ]
        ]
      ]

  -- Two chains on a block that share no block, none of which nor the block below has the zero hash, whose heights are
  -- one more than their parents', and which have at most 8192 blocks together: the block below them is found, with the
  -- two chains from the lowest block up.
  pub common_ancestor-found :
      (a b : Hash) (us vs : List Hash)
      → IsDescent a us
      → IsDescent b vs
      → IsApart us vs
      → p ≢ 0
      → 0 < length us
      → 0 < length vs
      → length us + length vs ≤ 8192
      → common_ancestor get_block a b ≡ found p (reverse_onto us []) (reverse_onto vs [])
  unfolding common_ancestor
  common_ancestor-found a b us vs da db apart nonzero la lb enough =
      ancestor_loop-found max_ancestor_chain_length a b us vs [] [] da db apart nonzero la lb enough
