-- ===== src/AddressRows/Merging.antt =====
-- db/dbtypes/types.go: the functions that merge the rows of one transaction into one. The map from
-- hashes to merged rows holds pointers to the elements of the output slice, so it is read here as a
-- search of that slice, and an update through a pointer as an update in place. Amounts are uint64;
-- the count of merged rows, an int32, is the number below 2^32 with the same bits, and wraps.
use hdfdata.Base.{
  ℕ, ◌+◌, ◌%◌, ◌^◌, Bool, false, not, ◌||◌, Option, none, some, List, [], ◌∷◌, ◌++◌, ltb, ◌==◌,
  if◌then◌else◌, length, member,
}
use hdfdata.AddressRows.{
  Text, Hash, Slice, AddressRow, unix, AddressRowCompact, AddressRowMerged, AddrTxnViewType, merged,
  merged_credit, merged_debit,
}

-- The closure `wrongDirection`, `none` for a view that is not merged.
unfoldable pub wrong_direction : AddrTxnViewType → Option (Bool → Bool)
wrong_direction merged = some (λ funding. false)
wrong_direction merged_credit = some (λ funding. not funding)
wrong_direction merged_debit = some (λ funding. funding)
wrong_direction _ = none

unfoldable pub add_uint64 : ℕ → ℕ → ℕ
add_uint64 a b = (a + b) % 2 ^ 64

-- The sum of two int32, as the number below 2^32 with its bits.
unfoldable pub add_int32 : ℕ → ℕ → ℕ
add_int32 a b = (a + b) % 2 ^ 32

unfoldable pub start_merged : AddressRowCompact → AddressRowMerged
start_merged r = record {
  address = r.address;
  tx_block_time = r.tx_block_time;
  tx_hash = r.tx_hash;
  atoms_credit = if r.is_funding then r.value else 0;
  atoms_debit = if r.is_funding then 0 else r.value;
  merged_count = 1;
  tx_type = r.tx_type;
  valid_main_chain = r.valid_main_chain;
}

unfoldable pub update_merged : AddressRowCompact → AddressRowMerged → AddressRowMerged
update_merged r m = record m {
  atoms_credit = if r.is_funding then add_uint64 m.atoms_credit r.value else m.atoms_credit;
  atoms_debit = if r.is_funding then m.atoms_debit else add_uint64 m.atoms_debit r.value;
  merged_count = add_int32 m.merged_count 1;
}

-- `hashMap[hash]`
unfoldable pub find_merged : Hash → List AddressRowMerged → Option AddressRowMerged
find_merged h [] = none
find_merged h (m ∷ ms) = if m.tx_hash == h then some m else find_merged h ms

-- The update of the merged row with the hash of `r`.
unfoldable pub update_found : AddressRowCompact → List AddressRowMerged → List AddressRowMerged
update_found r [] = []
update_found r (m ∷ ms) =
    if m.tx_hash == r.tx_hash then update_merged r m ∷ ms else m ∷ update_found r ms

-- The body of the loop of `MergeRowsCompact`.
unfoldable pub merge_row : AddressRowCompact → List AddressRowMerged → List AddressRowMerged
merge_row r ms = elim (find_merged r.tx_hash ms) [
  | none ↦ ms ++ start_merged r ∷ []
  | some _ ↦ update_found r ms
]

unfoldable pub merge_loop : List AddressRowMerged → List AddressRowCompact → List AddressRowMerged
merge_loop ms [] = ms
merge_loop ms (r ∷ rows) = merge_loop (merge_row r ms) rows

unfoldable pub merge_rows_compact : List AddressRowCompact → List AddressRowMerged
merge_rows_compact rows = merge_loop [] rows

-- The variables of the loop of `MergeRowsCompactRange`.
pub record RangeState : Type 0 where
  pub skipped : ℕ
  pub seen : List Hash
  pub rows_out : List AddressRowMerged

unfoldable pub range_start : RangeState
range_start = record { skipped = 0; seen = []; rows_out = [] }

-- The body of that loop, for a row of the right direction.
unfoldable pub range_row : ℕ → ℕ → AddressRowCompact → RangeState → RangeState
range_row n offset r st = elim (find_merged r.tx_hash st.rows_out) [
  | some _ ↦ record st { rows_out = update_found r st.rows_out }
  | none ↦
      if length st.rows_out == n
      then st
      else if ltb st.skipped offset
      then (if member r.tx_hash st.seen
          then st
          else record st { skipped = st.skipped + 1; seen = r.tx_hash ∷ st.seen })
      else record st { rows_out = st.rows_out ++ start_merged r ∷ [] }
]

unfoldable pub range_loop : (Bool → Bool) → ℕ → ℕ → RangeState → List AddressRowCompact → RangeState
range_loop wrong n offset st [] = st
range_loop wrong n offset st (r ∷ rows) =
    range_loop wrong n offset (if wrong r.is_funding then st else range_row n offset r st) rows

unfoldable pub merge_rows_compact_range :
    List AddressRowCompact → ℕ → ℕ → AddrTxnViewType → Slice AddressRowMerged
merge_rows_compact_range rows n offset view = elim (wrong_direction view) [
  | none ↦ none
  | some wrong ↦
      if (n == 0) || (length rows == 0)
      then some []
      else some (range_loop wrong n offset range_start rows).rows_out
]

-- The loop of `CountMergedRowsCompact`: the number, and the hashes seen.
unfoldable pub count_merged_loop : (Bool → Bool) → ℕ → List Hash → List AddressRowCompact → ℕ
count_merged_loop wrong num found [] = num
count_merged_loop wrong num found (r ∷ rows) =
    let fresh = not (wrong r.is_funding || member r.tx_hash found) in
    count_merged_loop wrong (if fresh then num + 1 else num)
      (if fresh then r.tx_hash ∷ found else found) rows

unfoldable pub count_merged_rows_compact : List AddressRowCompact → AddrTxnViewType → Option ℕ
count_merged_rows_compact rows view = elim (wrong_direction view) [
  | none ↦ none
  | some wrong ↦ some (count_merged_loop wrong 0 [] rows)
]

-- What a merged row takes from a stored one.
unfoldable pub compact_of : Hash → AddressRow → AddressRowCompact
compact_of h r = record {
  address = r.address;
  tx_block_time = unix r.tx_block_time;
  matching_tx_hash = 0;
  tx_hash = h;
  tx_vin_vout_index = r.tx_vin_vout_index;
  tx_type = r.tx_type;
  valid_main_chain = r.valid_main_chain;
  is_funding = r.is_funding;
  value = r.value;
}

-- The functions on rows as stored in the database parse each hash by `NewHashFromStr` of the
-- chainhash package, here a parameter.
module _ (new_hash_from_str : Text → Option Hash) where
  -- A row with a bad hash is passed over.
  unfoldable pub merge_stored : AddressRow → List AddressRowMerged → List AddressRowMerged
  merge_stored r ms = elim (new_hash_from_str r.tx_hash) [
    | none ↦ ms
    | some h ↦ merge_row (compact_of h r) ms
  ]

  -- `MergeRows`, `none` for its error.
  unfoldable pub merge_rows_loop :
      List AddressRowMerged → List AddressRow → Option (List AddressRowMerged)
  merge_rows_loop ms [] = some ms
  merge_rows_loop ms (r ∷ rows) =
      let rest = merge_rows_loop (merge_stored r ms) rows in
      if r.merged_count == 0 then rest else none

  unfoldable pub merge_rows : List AddressRow → Option (List AddressRowMerged)
  merge_rows rows = merge_rows_loop [] rows
