-- ===== src/ChainWalk/Tests.antt =====
-- Two chains that fork above block 5, and the theorems of the walks of rpcutils/rpcclient.go there.
use hdfdata.ChainWalk.Ancestor.{IsAncestry, common_ancestor-IsAncestry}
use hdfdata.ChainWalk.Fork.{common_ancestor-found}
use hdfdata.ChainWalk.Orphaned.{Agrees, Differs, orphaned_tip_length-greatest}
use hdfdata.ChainWalk.{
  Hash, Header, found, ancestor_loop, common_ancestor, orphaned, orphaned_pass, orphaned_loop,
  orphaned_tip_length, active, valid_fork, invalid, is_side_status, side_chain_tips,
}
use hdfdata.Base.{
  ℕ, ◌-◌, ◌≡◌, ◌≤◌, ◌<◌, ◌≢◌, ◌⊎◌, refl, true, false, Option, none, some, [], ◌∷◌, arith, ◌==◌,
  if◌then◌else◌, member,
}

-- Blocks 6 and 7 on block 5, at height 10, and block 8 on it.
abbrev get_block : Hash → Option Header
get_block h =
    if h == 6
    then some (record { height = 11; prev_block = 5 })
    else if h == 7
    then some (record { height = 12; prev_block = 6 })
    else if h == 8
    then some (record { height = 11; prev_block = 5 })
    else none

fork_at_five : common_ancestor get_block 7 8 ≡ found 5 (6 ∷ 7 ∷ []) (8 ∷ [])
unfolding common_ancestor ancestor_loop
fork_at_five = refl

common_ancestor-IsAncestry_example : IsAncestry get_block 7 8 5 (6 ∷ 7 ∷ []) (8 ∷ [])
common_ancestor-IsAncestry_example =
    common_ancestor-IsAncestry get_block 7 8 5 (6 ∷ 7 ∷ []) (8 ∷ []) fork_at_five

apart : (k : Hash) → member k (7 ∷ 6 ∷ []) ≡ true → (member k (8 ∷ []) ≡ false) × (k ≢ 0)
apart k m = (ground (arith, m), ground (arith, m))

common_ancestor-found_example : common_ancestor get_block 7 8 ≡ found 5 (6 ∷ 7 ∷ []) (8 ∷ [])
common_ancestor-found_example =
    common_ancestor-found get_block 5 10 7 8 (7 ∷ 6 ∷ []) (8 ∷ [])
      (
        refl,
        (
          record { height = 12; prev_block = 6 },
          refl,
          refl,
          (refl, (record { height = 11; prev_block = 5 }, refl, refl, refl)),
        ),
      )
      (refl, (record { height = 11; prev_block = 5 }, refl, refl, refl)) apart (omega arith)
      (omega arith) (omega arith) (omega arith)

-- The node has left the database's chain at height 12.
abbrev node_hash : ℕ → Option Hash
node_hash h = some (if h == 12 then 70 else h)

orphaned_tip_length-greatest_example :
    ((1 ≤ 12)
      × Agrees (λ h. false) (λ h. some h) node_hash 12 (12 - 1)
      × ((m : ℕ) → 12 - 1 < m → m ≤ 12 → Differs (λ h. false) (λ h. some h) node_hash 12 m))
    ⊎ ((◌≡◌ {A = ℕ} 1 0)
        × (c : ℕ) × (c ≤ 12)
        × (false ≡ true)
        × ((m : ℕ) → c < m → m ≤ 12 → Differs (λ h. false) (λ h. some h) node_hash 12 m))
unfolding orphaned_tip_length orphaned_loop orphaned_pass
orphaned_tip_length-greatest_example =
    orphaned_tip_length-greatest (λ h. false) (λ h. some h) node_hash 12 1 refl

-- The context is done at once: no block is counted, though the tips differ.
stopped_at_once : orphaned_tip_length (λ h. true) (λ h. some h) node_hash 12 ≡ orphaned 0
unfolding orphaned_tip_length orphaned_loop orphaned_pass
stopped_at_once = refl

side_tips : side_chain_tips (λ t. t) (active ∷ valid_fork ∷ invalid ∷ []) ≡ valid_fork ∷ []
unfolding side_chain_tips is_side_status
side_tips = refl
