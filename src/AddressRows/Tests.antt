-- ===== src/AddressRows/Tests.antt =====
-- Runs of the functions on address rows, and their theorems on a short history.
use hdfdata.Base.{
  ◌%◌, ◌^◌, ◌≡◌, ◌<◌, refl, ltb, Bool, true, false, not, Option, none, some, List, [], ◌∷◌, map,
  arith, pos, length, take, drop, select, member, Distinct,
}
use hdfdata.AddressRows.Cached.{
  is_unspent_compact, address_rows, credit_address_rows, unspent_credit_address_rows,
  debit_address_rows,
}
use hdfdata.AddressRows.Conversion.{compact_rows-uncompact_rows}
use hdfdata.AddressRows.Stored.{compact_rows, uncompact_rows, uint64_of_int32}
use hdfdata.AddressRows.Window.{elems}
use hdfdata.AddressRows.Hashes.{merge_rows_compact-hashes, hashes}
use hdfdata.AddressRows.Merged.{
  merge_rows_compact-amounts, credits, debits, appearances, credit_of, debit_of, count_of, is_some,
}
use hdfdata.AddressRows.Merging.{
  wrong_direction, add_uint64, add_int32, start_merged, update_merged, find_merged, update_found,
  merge_row, merge_loop, merge_rows_compact, range_start, range_row, range_loop,
  merge_rows_compact_range, count_merged_loop, count_merged_rows_compact,
}
use hdfdata.AddressRows.Paging.{cached_address_rows-window}
use hdfdata.AddressRows.Range.{merge_rows_compact_range-first}
use hdfdata.AddressRows.{
  Text, Hash, AddressRow, AddressRowCompact, AddressRowMerged, new_time_def_from_unix, merged,
  merged_credit, count_rows, page_loop, page_rows, is_unspent, slice_address_unspent_credit_rows,
}

program : Unit {0}
unfolding wrong_direction add_uint64 add_int32 start_merged update_merged find_merged update_found
    merge_row merge_loop merge_rows_compact range_start range_row range_loop
    merge_rows_compact_range count_merged_loop count_merged_rows_compact count_rows page_loop
    page_rows is_unspent slice_address_unspent_credit_rows
program = tt

abbrev stored : Bool → Text → Text → AddressRow
stored funding hash matching = record {
  address = 68 ∷ [];
  valid_main_chain = true;
  matching_tx_hash = matching;
  is_funding = funding;
  tx_block_time = new_time_def_from_unix (pos 1454954400);
  tx_hash = hash;
  tx_vin_vout_index = 0;
  value = 5;
  vin_vout_db_id = 1;
  merged_count = 0;
  tx_type = pos 0;
  atoms_credit = 0;
  atoms_debit = 0;
}

-- A spent credit, an unspent one, and the debit that spends the first.
abbrev history : List AddressRow
history =
    stored true (49 ∷ []) (51 ∷ [])
    ∷ stored true (50 ∷ []) []
    ∷ stored false (51 ∷ []) (49 ∷ [])
    ∷ []

abbrev compact : Hash → Bool → AddressRowCompact
compact hash funding = record {
  address = 68 ∷ [];
  tx_block_time = pos 1454954400;
  matching_tx_hash = 0;
  tx_hash = hash;
  tx_vin_vout_index = 0;
  tx_type = pos 0;
  valid_main_chain = true;
  is_funding = funding;
  value = 5;
}

abbrev rows : List AddressRowCompact
rows = compact 1 true ∷ compact 2 true ∷ compact 1 false ∷ []

abbrev first_byte : Text → Option Hash
first_byte [] = none
first_byte (c ∷ _) = some c

-- The page of one unspent credit of the history is the spent one.
unspent_page :
    slice_address_unspent_credit_rows (some history) 20 0
    ≡ some (stored true (49 ∷ []) (51 ∷ []) ∷ [])
unfolding program
unspent_page = refl

second_page :
    merge_rows_compact_range rows 20 1 merged
    ≡ some (start_merged (compact 2 true) ∷ start_merged (compact 1 false) ∷ [])
unfolding program
second_page = refl

abbrev merged_once : List AddressRowMerged
merged_once = start_merged (compact 1 true) ∷ start_merged (compact 2 false) ∷ []

cached_address_rows-window_example :
    (elems (address_rows (some rows) 2 1) ≡ take 2 (drop 1 rows))
    × (elems (credit_address_rows (some rows) 2 1)
        ≡ take 2 (drop 1 (select (λ r. r.is_funding) rows)))
    × (elems (debit_address_rows (some rows) 2 1)
        ≡ take 2 (drop 1 (select (λ r. not r.is_funding) rows)))
    × (elems (unspent_credit_address_rows (some rows) 2 1)
        ≡ take 2 (drop 1 (select is_unspent_compact rows)))
cached_address_rows-window_example = cached_address_rows-window rows 2 1 (omega arith)

one_unspent : 0 < length (select is_unspent history)
unfolding program
one_unspent = omega arith

merge_rows_compact-amounts_example :
    (credit_of (find_merged 1 (merge_rows_compact rows)) ≡ credits 1 rows % 2 ^ 64)
    × (debit_of (find_merged 1 (merge_rows_compact rows)) ≡ debits 1 rows % 2 ^ 64)
    × (count_of (find_merged 1 (merge_rows_compact rows)) ≡ appearances 1 rows % 2 ^ 32)
    × (is_some (find_merged 1 (merge_rows_compact rows)) ≡ ltb 0 (appearances 1 rows))
merge_rows_compact-amounts_example =
    merge_rows_compact-amounts 1 rows (omega arith, (omega arith, (omega arith, tt)))

-- The count of a merged row wraps to the least int32, whose sign is then extended.
count_wraps :
    ((update_merged
        (compact 1 true)
        (record (start_merged (compact 1 true)) { merged_count = 2147483647 })).merged_count
      ≡ 2147483648)
    × (uint64_of_int32 2147483648 ≡ 18446744071562067968)
unfolding program uint64_of_int32
count_wraps = (refl, refl)

merge_rows_compact-hashes_example :
    Distinct (hashes (merge_rows_compact rows))
    × ((h : Hash)
        → member h (hashes (merge_rows_compact rows)) ≡ member h (map (λ r. r.tx_hash) rows))
merge_rows_compact-hashes_example = merge_rows_compact-hashes rows

merged_direction : wrong_direction merged ≡ some (λ funding. false)
unfolding program
merged_direction = refl

credit_direction : wrong_direction merged_credit ≡ some (λ funding. not funding)
unfolding program
credit_direction = refl

-- A row that is merged already.
abbrev merged_row : AddressRow
merged_row = record (stored true (49 ∷ []) []) { merged_count = 2 }

merge_rows_compact_range-first_example :
    merge_rows_compact_range rows 1 0 merged
    ≡ some (take 1 (merge_rows_compact (select (λ r. not false) rows)))
merge_rows_compact_range-first_example =
    merge_rows_compact_range-first rows 1 merged (λ funding. false) merged_direction

abbrev print_hash : Hash → Text
print_hash h = h ∷ []

-- Reads what `print_hash` prints.
abbrev read_hash : Text → Option Hash
read_hash [] = some 0
read_hash (c ∷ _) = some c

compact_rows-uncompact_rows_example :
    compact_rows read_hash (uncompact_rows print_hash rows) ≡ some (some rows)
compact_rows-uncompact_rows_example =
    compact_rows-uncompact_rows read_hash print_hash rows (λ h. refl) refl
