-- ===== src/ChainWalk/Orphaned.antt =====
-- What `OrphanedTipLength` of rpcutils/rpcclient.go counts.
use hdfdata.ChainWalk.{
  Hash, Orphans, orphaned, no_common, orphaned_pass, orphaned_loop, orphaned_tip_length,
}
use hdfdata.Base.{
  ℕ, zero, suc, ◌-◌, ◌≡◌, ◌≢◌, ◌≤◌, ◌<◌, ◌⊎◌, ◌∙◌, ap, inl, inr, Bool, true, sym, Option, some,
  arith, ◌==◌, ==_iff, Bool-cases, Option-cases,
}

module _ (done : ℕ → Bool) (db_hash : ℕ → Option Hash) (node_hash : ℕ → Option Hash)
    (tip_height : ℕ) where
  -- At a height, the database and the node have the same block, or have different ones.
  abbrev pub Agrees : ℕ → Type 0
  Agrees h = (d : Hash) × (db_hash h ≡ some d) × (node_hash h ≡ some d)

  abbrev pub Differs : ℕ → Type 0
  Differs h = (d : Hash) × (n : Hash) × (db_hash h ≡ some d) × (node_hash h ≡ some n) × (n ≢ d)

  orphans_inj : (m n : ℕ) → orphaned m ≡ orphaned n → m ≡ n
  orphans_inj m n e = cc

  -- What a count may come from at a height: the same block there, or a context that is done by then.
  abbrev Ended : ℕ → ℕ → Type 0
  Ended h n = (Agrees h × (tip_height - h ≡ n)) ⊎ ((done h ≡ true) × (n ≡ 0))

  -- A pass that ends in a count has ended the loop, or was left for those below.
  orphaned_pass-inv :
      (h n : ℕ) (lower : Orphans)
      → orphaned_pass done db_hash node_hash tip_height h lower ≡ orphaned n
      → Ended h n ⊎ (Differs h × (lower ≡ orphaned n))
  unfolding orphaned_pass
  orphaned_pass-inv h n lower e = elim (Bool-cases (done h)) [
    | inl stop ↦ inl (inr (stop, sym (orphans_inj 0 n (rw (orphaned_pass, stop) at e))))
    | inr on ↦ elim (Option-cases (db_hash h)) [
      | inl gone ↦ absurd (ground (arith, rw (orphaned_pass, on, gone) at e))
      | inr (d, there_d) ↦ elim (Option-cases (node_hash h)) [
        | inl gone ↦ absurd (ground (arith, rw (orphaned_pass, on, there_d, gone) at e))
        | inr (x, there_x) ↦ elim (Bool-cases (x == d)) [
          | inl same ↦ inl (
              inl (
                (d, there_d, there_x ∙ ap some ((==_iff x d).0 same)),
                orphans_inj (tip_height - h) n
                    (rw (orphaned_pass, on, there_d, there_x, same) at e),
              ))
          | inr other ↦ inr (
            (d, x, there_d, there_x, λ t. ground (arith, other, t)),
            rw (orphaned_pass, on, there_d, there_x, other) at e,
          )
        ]
      ]
    ]
  ]

  Fork : ℕ → ℕ → Type 0
  Fork h n = (c : ℕ) × (c ≤ h) × Ended c n × ((m : ℕ) → c < m → m ≤ h → Differs m)

  orphaned_loop-Fork :
      (h n : ℕ) → orphaned_loop done db_hash node_hash tip_height h ≡ orphaned n → Fork h n
  unfolding orphaned_loop Fork
  orphaned_loop-Fork zero n e = elim (orphaned_pass-inv zero n no_common e) [
    | inl ended ↦ (zero, omega arith, ended, λ m above below. absurd (omega (arith, above, below)))
    | inr (_, none_common) ↦ absurd (ground (arith, none_common))
  ]
  orphaned_loop-Fork (suc h) n e =
      elim (orphaned_pass-inv (suc h) n (orphaned_loop done db_hash node_hash tip_height h) e) [
        | inl ended ↦
            (suc h, omega arith, ended, λ m above below. absurd (omega (arith, above, below)))
        | inr (differs, lower) ↦
            let (c, below_h, ended, above_c) = orphaned_loop-Fork h n lower in
            (
              c,
              omega (arith, below_h),
              ended,
              λ m above below. elim (Bool-cases (m == suc h)) [
                | inl t ↦ rw ((==_iff m (suc h)).0 t) differs
                | inr f ↦ above_c m above (ground (arith, f, below))
              ],
            )
      ]

  -- A count of orphaned blocks that is returned is how far the tip is above the highest block, at most at the tip's
  -- height, that the database and the node share, and at every height between they have different blocks; or it is 0, and
  -- the context was done at some height, at most the tip's, above which, up to the tip, they have different blocks.
  pub orphaned_tip_length-greatest :
      (n : ℕ)
      → orphaned_tip_length done db_hash node_hash tip_height ≡ orphaned n
      → ((n ≤ tip_height)
          × Agrees (tip_height - n)
          × ((m : ℕ) → tip_height - n < m → m ≤ tip_height → Differs m))
        ⊎ ((n ≡ 0)
            × (c : ℕ) × (c ≤ tip_height)
            × (done c ≡ true)
            × ((m : ℕ) → c < m → m ≤ tip_height → Differs m))
  unfolding orphaned_tip_length Fork
  orphaned_tip_length-greatest n e =
      let (c, below, ended, above_c) = orphaned_loop-Fork tip_height n e in
      elim ended [
        | inl (agrees, count) ↦
            let common : tip_height - n ≡ c = omega (arith, below, count) in
            inl (omega (arith, count), rw common agrees, rw common above_c)
        | inr (stop, none_counted) ↦ inr (none_counted, c, below, stop, above_c)
      ]
