-- ===== src/ChainWalk/Ancestor.antt =====
-- What `CommonAncestor` of rpcutils/rpcclient.go finds.
use hdfdata.ChainWalk.{
  Hash, Header, found, max_ancestor_chain_length, ancestor_loop, common_ancestor,
}
use hdfdata.Base.{
  ℕ, zero, suc, ◌≡◌, ◌<◌, refl, sym, inl, inr, Option, some, List, [], ◌∷◌, arith, ltb, ◌==◌,
  ==_iff, Bool-cases, Option-cases, length,
}

-- The last hash of a chain on a block, that block itself when the chain is empty.
abbrev pub last_on : Hash → List Hash → Hash
last_on p [] = p
last_on p (h ∷ hs) = last_on h hs

module _ (get_block : Hash → Option Header) where
  -- A chain of which the first block has the given parent, and each other the one before it.
  abbrev pub IsLinked : Hash → List Hash → Type 0
  IsLinked p [] = Unit
  IsLinked p (h ∷ hs) = ((x : Header) × (get_block h ≡ some x) × (x.prev_block ≡ p)) × IsLinked h hs

  -- Chains from a common parent up to two blocks.
  abbrev pub IsAncestry : Hash → Hash → Hash → List Hash → List Hash → Type 0
  IsAncestry tip_a tip_b p chain_a chain_b =
      IsLinked p chain_a
      × IsLinked p chain_b
      × (last_on p chain_a ≡ tip_a)
      × (last_on p chain_b ≡ tip_b)
      × (0 < length chain_a)
      × (0 < length chain_b)

  found_pair :
      (p q : Hash) (ca cb da db : List Hash)
      → found p ca cb ≡ found q da db
      → (p ≡ q) × (ca ≡ da) × (cb ≡ db)
  found_pair p q ca cb da db e = (cc, cc, cc)

  ancestor_loop-IsAncestry :
      (tip_a tip_b : Hash) (left : ℕ) (hash_a hash_b p : Hash) (chain_a chain_b ca cb : List Hash)
      → IsLinked hash_a chain_a
      → IsLinked hash_b chain_b
      → last_on hash_a chain_a ≡ tip_a
      → last_on hash_b chain_b ≡ tip_b
      → ancestor_loop get_block left hash_a hash_b chain_a chain_b ≡ found p ca cb
      → IsAncestry tip_a tip_b p ca cb
  unfolding ancestor_loop
  ancestor_loop-IsAncestry tip_a tip_b zero hash_a hash_b p chain_a chain_b ca cb la lb ta tb e =
      absurd (ground (arith, e))
  ancestor_loop-IsAncestry tip_a tip_b (suc left) hash_a hash_b p chain_a chain_b ca cb la lb ta tb
        e =
      elim (Option-cases (get_block hash_a)) [
        | inl gone ↦ absurd (ground (arith, gone, e))
        | inr (a, there_a) ↦ elim (Option-cases (get_block hash_b)) [
          | inl gone ↦ absurd (ground (arith, there_a, gone, e))
          | inr (b, there_b) ↦ elim (Bool-cases (ltb b.height a.height)) [
            | inl higher ↦
                ancestor_loop-IsAncestry tip_a tip_b left a.prev_block hash_b p (hash_a ∷ chain_a)
                  chain_b ca cb ((a, there_a, refl), la) lb ta tb
                  (rw (ancestor_loop, there_a, there_b, higher) at e)
            | inr not_higher ↦ elim (Bool-cases (ltb a.height b.height)) [
              | inl lower ↦
                  ancestor_loop-IsAncestry tip_a tip_b left hash_a b.prev_block p chain_a
                    (hash_b ∷ chain_b) ca cb la ((b, there_b, refl), lb) ta tb
                    (rw (ancestor_loop, there_a, there_b, not_higher, lower) at e)
              | inr level ↦ elim (Bool-cases (a.prev_block == 0)) [
                | inl genesis ↦ absurd (
                    ground (
                      arith,
                      rw (ancestor_loop, there_a, there_b, not_higher, level, genesis) at e,
                    ))
                | inr inside ↦ elim (Bool-cases (a.prev_block == b.prev_block)) [
                  | inl met ↦
                      let (same_p, same_a, same_b) =
                        found_pair a.prev_block p (hash_a ∷ chain_a) (hash_b ∷ chain_b) ca cb (
                          rw (ancestor_loop, there_a, there_b, not_higher, level, inside, met) at
                            e) in
                      let same : b.prev_block ≡ a.prev_block =
                        sym ((==_iff a.prev_block b.prev_block).0 met) in
                      rw (← same_p, ← same_a, ← same_b)
                        (
                          ((a, there_a, refl), la),
                          ((b, there_b, same), lb),
                          ta,
                          tb,
                          omega arith,
                          omega arith,
                        )
                  | inr apart ↦
                      ancestor_loop-IsAncestry tip_a tip_b left a.prev_block b.prev_block p
                        (hash_a ∷ chain_a) (hash_b ∷ chain_b) ca cb ((a, there_a, refl), la)
                        ((b, there_b, refl), lb) ta tb
                        (rw (ancestor_loop, there_a, there_b, not_higher, level, inside, apart) at
                          e)
                ]
              ]
            ]
          ]
        ]
      ]

  -- A common ancestor that is found is a block below both: the two chains that come with it start at blocks whose parent it
  -- is, go from parent to child, and end at the two blocks that were asked for, which are in them.
  pub common_ancestor-IsAncestry :
      (hash_a hash_b p : Hash) (chain_a chain_b : List Hash)
      → common_ancestor get_block hash_a hash_b ≡ found p chain_a chain_b
      → IsAncestry hash_a hash_b p chain_a chain_b
  unfolding common_ancestor
  common_ancestor-IsAncestry hash_a hash_b p chain_a chain_b e =
      ancestor_loop-IsAncestry hash_a hash_b max_ancestor_chain_length hash_a hash_b p [] [] chain_a
        chain_b tt tt refl refl e
