-- ===== src/AddressRows/Stored.antt =====
-- db/dbtypes/types.go: the functions on rows as stored in the database that merge a range of them,
-- count the merged ones, cut a page of any view, and convert between the types of rows. Parsing and
-- printing a hash are calls of the chainhash package, here parameters; `none` from the parser is its
-- nil result.
use hdfdata.Base.{
  ℕ, ◌+◌, ◌-◌, ◌^◌, ltb, Bool, true, false, not, ◌&&◌, ◌||◌, Option, none, some, List, [], ◌∷◌, map,
  ℤ, pos, pos_part, ltb_ℤ, leb, ◌==◌, if◌then◌else◌, length,
}
use hdfdata.AddressRows.Merging.{wrong_direction, RangeState, range_start, range_row, compact_of}
use hdfdata.AddressRows.{
  Text, Hash, Slice, AddressRow, AddressRowCompact, AddressRowMerged, AddrTxnViewType,
  new_time_def_from_unix, all, credit, debit, merged, merged_credit, merged_debit, unspent, unknown,
  is_net_funding, net_value, slice_address_rows_all, slice_address_credit_rows,
  slice_address_debit_rows, slice_address_unspent_credit_rows,
}

unfoldable pub same_text : Text → Text → Bool
same_text [] [] = true
same_text (x ∷ xs) (y ∷ ys) = (x == y) && same_text xs ys
same_text _ _ = false

unfoldable pub member_text : Text → List Text → Bool
member_text h [] = false
member_text h (x ∷ xs) = if same_text h x then true else member_text h xs

-- The loop of `CountMergedRows`: the number, and the hashes seen; `none` for its error.
unfoldable pub count_stored_loop : (Bool → Bool) → ℕ → List Text → List AddressRow → Option ℕ
count_stored_loop wrong num found [] = some num
count_stored_loop wrong num found (r ∷ rows) =
    let fresh = not (wrong r.is_funding || member_text r.tx_hash found) in
    let rest =
      count_stored_loop wrong (if fresh then num + 1 else num)
        (if fresh then r.tx_hash ∷ found else found) rows in
    if r.merged_count == 0 then rest else none

unfoldable pub count_merged_rows : List AddressRow → AddrTxnViewType → Option ℕ
count_merged_rows rows view = elim (wrong_direction view) [
  | none ↦ none
  | some wrong ↦ count_stored_loop wrong 0 [] rows
]

module _ (new_hash_from_str : Text → Option Hash) where
  -- The body of the loop of `MergeRowsRange`, for a row of the right direction that is not merged.
  unfoldable pub range_stored : ℕ → ℕ → AddressRow → RangeState → RangeState
  range_stored n offset r st = elim (new_hash_from_str r.tx_hash) [
    | none ↦ st
    | some h ↦ range_row n offset (compact_of h r) st
  ]

  unfoldable pub range_stored_loop :
      (Bool → Bool) → ℕ → ℕ → RangeState → List AddressRow → Option RangeState
  range_stored_loop wrong n offset st [] = some st
  range_stored_loop wrong n offset st (r ∷ rows) =
      let passed = range_stored_loop wrong n offset st rows in
      let rest = range_stored_loop wrong n offset (range_stored n offset r st) rows in
      if wrong r.is_funding then passed else if r.merged_count == 0 then rest else none

  -- `MergeRowsRange` for a count and an offset that are not negative, `none` for its error.
  unfoldable pub merge_rows_range :
      List AddressRow → ℕ → ℕ → AddrTxnViewType → Option (List AddressRowMerged)
  merge_rows_range rows n offset view = elim (wrong_direction view) [
    | none ↦ none
    | some wrong ↦
        if (n == 0) || (length rows == 0)
        then some []
        else elim (range_stored_loop wrong n offset range_start rows) [
          | none ↦ none
          | some st ↦ some st.rows_out
        ]
  ]

  -- The compact form of a row, and of many: `none` when a matching hash that does not parse is
  -- dereferenced, and the nil slice when a transaction hash does not parse.
  unfoldable pub compact_row : Hash → Hash → AddressRow → AddressRowCompact
  compact_row h matching r = record (compact_of h r) { matching_tx_hash = matching }

  unfoldable pub push_compact :
      AddressRowCompact → Option (Slice AddressRowCompact) → Option (Slice AddressRowCompact)
  push_compact c none = none
  push_compact c (some none) = some none
  push_compact c (some (some cs)) = some (some (c ∷ cs))

  unfoldable pub compact_rows : List AddressRow → Option (Slice AddressRowCompact)
  compact_rows [] = some (some [])
  compact_rows (r ∷ rows) =
      let rest = compact_rows rows in
      elim (new_hash_from_str r.tx_hash) [
        | none ↦ some none
        | some h ↦ elim (new_hash_from_str r.matching_tx_hash) [
          | none ↦ none
          | some matching ↦ push_compact (compact_row h matching r) rest
        ]
      ]

-- The conversion of an int32, given by its bits, to a uint64: its sign is extended.
unfoldable pub uint64_of_int32 : ℕ → ℕ
uint64_of_int32 bits = if ltb bits (2 ^ 31) then bits else bits + (2 ^ 64 - 2 ^ 32)

module _ (hash_string : Hash → Text) where
  unfoldable pub uncompact_row : AddressRowCompact → AddressRow
  uncompact_row r = record {
    address = r.address;
    valid_main_chain = r.valid_main_chain;
    matching_tx_hash = if r.matching_tx_hash == 0 then [] else hash_string r.matching_tx_hash;
    is_funding = r.is_funding;
    tx_block_time = new_time_def_from_unix r.tx_block_time;
    tx_hash = hash_string r.tx_hash;
    tx_vin_vout_index = r.tx_vin_vout_index;
    value = r.value;
    vin_vout_db_id = 0;
    merged_count = 0;
    tx_type = r.tx_type;
    atoms_credit = 0;
    atoms_debit = 0;
  }

  unfoldable pub uncompact_rows : List AddressRowCompact → List AddressRow
  uncompact_rows = map uncompact_row

  unfoldable pub uncompact_merged_row : AddressRowMerged → AddressRow
  uncompact_merged_row r = record {
    address = r.address;
    valid_main_chain = r.valid_main_chain;
    matching_tx_hash = [];
    is_funding = is_net_funding r;
    tx_block_time = new_time_def_from_unix r.tx_block_time;
    tx_hash = hash_string r.tx_hash;
    tx_vin_vout_index = 0;
    value = net_value r;
    vin_vout_db_id = 0;
    merged_count = uint64_of_int32 r.merged_count;
    tx_type = r.tx_type;
    atoms_credit = 0;
    atoms_debit = 0;
  }

  unfoldable pub uncompact_merged_rows : List AddressRowMerged → List AddressRow
  uncompact_merged_rows = map uncompact_merged_row

  module _ (new_hash_from_str : Text → Option Hash) where
    -- The merged views of `SliceAddressRows`.
    unfoldable pub slice_merged :
        List AddressRow → ℕ → ℕ → AddrTxnViewType → Option (Slice AddressRow)
    slice_merged rows n offset view = elim (merge_rows_range new_hash_from_str rows n offset view) [
      | none ↦ none
      | some ms ↦ some (some (uncompact_merged_rows ms))
    ]

    -- The switch of `SliceAddressRows`.
    unfoldable pub slice_view :
        List AddressRow → ℕ → ℕ → AddrTxnViewType → Option (Slice AddressRow)
    slice_view rows n offset all = some (slice_address_rows_all (some rows) n offset)
    slice_view rows n offset credit = some (slice_address_credit_rows (some rows) n offset)
    slice_view rows n offset debit = some (slice_address_debit_rows (some rows) n offset)
    slice_view rows n offset merged = slice_merged rows n offset merged
    slice_view rows n offset merged_credit = slice_merged rows n offset merged_credit
    slice_view rows n offset merged_debit = slice_merged rows n offset merged_debit
    slice_view rows n offset unspent = some (slice_address_unspent_credit_rows (some rows) n offset)
    slice_view rows n offset unknown = none

    -- `SliceAddressRows`, `none` for its error. A nil slice of rows has the length 0.
    unfoldable pub slice_address_rows :
        List AddressRow → ℤ → ℤ → AddrTxnViewType → Option (Slice AddressRow)
    slice_address_rows rows n offset view =
        if ltb_ℤ offset (pos 0) || ltb_ℤ n (pos 0)
        then none
        else if (pos_part n == 0) || (length rows == 0) || leb (length rows) (pos_part offset)
        then some (some [])
        else slice_view rows (pos_part n) (pos_part offset) view
