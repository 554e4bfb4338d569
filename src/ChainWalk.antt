-- ===== src/ChainWalk.antt =====
-- The walks down the chain of rpcutils/rpcclient.go: `CommonAncestor` and `OrphanedTipLength`, with `sideChainTips`. The
-- node is a parameter: its headers by hash, and its hashes by height. A hash is a number, 0 the zero hash; an
-- error keeps its kind only.
use hdfdata.Base.{
  ℕ, zero, suc, ◌+◌, ◌-◌, Bool, true, false, not, ◌||◌, Option, none, some, List, [], ◌∷◌, ltb,
  ◌==◌, if◌then◌else◌, select,
}
pub mod Ancestor
pub mod Fork
pub mod Orphaned
mod Tests

abbrev pub Hash : Type 0
Hash = ℕ

-- The fields of a block's header that the walk reads.
pub record Header : Type 0 where
  pub height : ℕ
  pub prev_block : Hash

abbrev pub max_ancestor_chain_length : ℕ
max_ancestor_chain_length = 8192

-- What `CommonAncestor` returns: the ancestor and the two chains, `ErrAncestorAtGenesis` with the chains,
-- `ErrAncestorMaxChainLength`, or a failed call of the node.
pub data Ancestry : Type 0 where
  found : Hash → List Hash → List Hash → Ancestry
  at_genesis : List Hash → List Hash → Ancestry
  max_chain_length no_block : Ancestry

module _ (get_block : Hash → Option Header) where
  -- The loop, while its length is the first argument less than the greatest.
  unfoldable pub ancestor_loop : ℕ → Hash → Hash → List Hash → List Hash → Ancestry
  ancestor_loop zero hash_a hash_b chain_a chain_b = max_chain_length
  ancestor_loop (suc left) hash_a hash_b chain_a chain_b = elim (get_block hash_a) [
    | none ↦ no_block
    | some a ↦ elim (get_block hash_b) [
      | none ↦ no_block
      | some b ↦
          let down_a = ancestor_loop left a.prev_block hash_b (hash_a ∷ chain_a) chain_b in
          let down_b = ancestor_loop left hash_a b.prev_block chain_a (hash_b ∷ chain_b) in
          let down_both =
            ancestor_loop left a.prev_block b.prev_block (hash_a ∷ chain_a) (hash_b ∷ chain_b) in
          if ltb b.height a.height
          then down_a
          else if ltb a.height b.height
          then down_b
          else if a.prev_block == 0
          then at_genesis (hash_a ∷ chain_a) (hash_b ∷ chain_b)
          else if a.prev_block == b.prev_block
          then found a.prev_block (hash_a ∷ chain_a) (hash_b ∷ chain_b)
          else down_both
    ]
  ]

  unfoldable pub common_ancestor : Hash → Hash → Ancestry
  common_ancestor hash_a hash_b = ancestor_loop max_ancestor_chain_length hash_a hash_b [] []

-- What `OrphanedTipLength` returns: a length, which is 0 also when the context was done, or an error: a block that the database or the node
-- does not have, or no common block down to the first.
pub data Orphans : Type 0 where
  orphaned : ℕ → Orphans
  no_db_block no_node_block no_common : Orphans

-- Hashes in hexadecimal are compared: the database's is given as the hash that it is the text of.
module _ (done : ℕ → Bool) (db_hash : ℕ → Option Hash) (node_hash : ℕ → Option Hash)
    (tip_height : ℕ) where
  -- One pass of the loop at a common height, where `done` says whether the context is done by then, in which case the
  -- count is 0, and
  -- `lower` is what the passes below return.
  unfoldable pub orphaned_pass : ℕ → Orphans → Orphans
  orphaned_pass common_height lower =
      if done common_height then orphaned 0 else elim (db_hash common_height) [
        | none ↦ no_db_block
        | some d ↦ elim (node_hash common_height) [
          | none ↦ no_node_block
          | some n ↦ if n == d then orphaned (tip_height - common_height) else lower
        ]
      ]

  unfoldable pub orphaned_loop : ℕ → Orphans
  orphaned_loop zero = orphaned_pass zero no_common
  orphaned_loop (suc h) = orphaned_pass (suc h) (orphaned_loop h)

  unfoldable pub orphaned_tip_length : Orphans
  orphaned_tip_length = orphaned_loop tip_height

-- The status of a tip, of which two are those of a side chain.
pub data TipStatus : Type 0 where
  active valid_fork valid_headers headers_only invalid other : TipStatus

unfoldable pub is_side_status : TipStatus → Bool
is_side_status active = false
is_side_status valid_fork = true
is_side_status valid_headers = true
is_side_status headers_only = false
is_side_status invalid = false
is_side_status other = false

-- `sideChainTips`, of tips that have a status.
unfoldable pub side_chain_tips : {Tip : Type 0} → (Tip → TipStatus) → List Tip → List Tip
side_chain_tips status all_tips = select (λ t. is_side_status (status t)) all_tips
