-- ===== src/AddressCache/Purge.antt =====
-- The two loops of `purgeRowsToFit` of db/cache/addresscache.go, over items of which only the number of
-- rows matters. Go visits a map in any order: the order of each visit is a parameter.
use hdfdata.Base.{
  ℕ, zero, suc, ◌+◌, Bool, ◌&&◌, Option, none, some, List, [], ◌∷◌, ltb, leb, ◌==◌, if◌then◌else◌,
  length, Dict, find, del, keys, sum_of, weight,
}

abbrev pub Address : Type 0
Address = ℕ

-- The order in which a `range` visits the keys of a map. The first number tells the visits apart.
abbrev pub VisitOrder : Type 0
VisitOrder = ℕ → List Address → List Address

-- One visit of the keys by an inner loop of `purgeRowsToFit`: it leaves the outer loop, it ends
-- without a deletion, or it deletes a key.
pub data Visit : Type 0 where
  leave nothing : Visit
  purge : Address → Visit

-- The inner loop over the addresses, where `alone` says that the map has one entry.
unfoldable pub visit_addrs : Address → Bool → List Address → Visit
visit_addrs project alone [] = nothing
visit_addrs project alone (k ∷ ks) =
    let rest = visit_addrs project alone ks in
    if k == project then (if alone then leave else rest) else purge k

module _ {V : Type 0} (rows_in : V → ℕ) where
  -- The loop `clearingaddrs`; `none` when its fuel has run out.
  unfoldable pub purge_addrs : VisitOrder → Address → ℕ → ℕ → Dict V → Option (Dict V)
  purge_addrs order project cap_addr zero d = none
  purge_addrs order project cap_addr (suc fuel) d =
      let again = purge_addrs order project cap_addr fuel d in
      if leb cap_addr (length d)
      then elim (visit_addrs project (length d == 1) (order fuel (keys d))) [
        | leave ↦ some d
        | nothing ↦ again
        | purge k ↦ purge_addrs order project cap_addr fuel (del k d)
      ]
      else some d

  -- The inner loop over the items with rows.
  unfoldable pub visit_rows : Address → Bool → Dict V → List Address → Visit
  visit_rows project alone d [] = nothing
  visit_rows project alone d (k ∷ ks) =
      let rest = visit_rows project alone d ks in
      if weight rows_in (find k d) == 0
      then rest
      else if k == project
      then (if alone then leave else rest)
      else purge k

  -- The loop `clearing`, where the number of rows to make room for is `num_new` less
  -- `already_stored`; `none` when its fuel has run out.
  unfoldable pub purge_rows : VisitOrder → Address → ℕ → ℕ → ℕ → ℕ → Dict V → Option (Dict V)
  purge_rows order project row_cap num_new already_stored zero d = none
  purge_rows order project row_cap num_new already_stored (suc fuel) d =
      let again = purge_rows order project row_cap num_new already_stored fuel d in
      if ltb 0 (sum_of rows_in d) && ltb (row_cap + already_stored) (sum_of rows_in d + num_new)
      then elim (visit_rows project (length d == 1) d (order fuel (keys d))) [
        | leave ↦ some d
        | nothing ↦ again
        | purge k ↦ purge_rows order project row_cap num_new already_stored fuel (del k d)
      ]
      else some d
