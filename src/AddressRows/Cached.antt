-- ===== src/AddressRows/Cached.antt =====
-- db/cache/addresscache.go: the functions that count the compact and merged rows of an address and
-- cut a page of them.
use hdfdata.Base.{
  ℕ, Bool, not, ◌&&◌, Option, none, some, List, [], ◌∷◌, ◌++◌, leb, ltb, ◌==◌, if◌then◌else◌,
  length, replicate,
}
use hdfdata.AddressRows.{
  Slice, AddressRow, AddressRowCompact, AddressRowMerged, is_net_funding, count_rows, page_loop,
  page_rows, page_all, count_credit_debit_rows,
}

unfoldable pub count_credit_debit_rows_compact : List AddressRowCompact → ℕ × ℕ
count_credit_debit_rows_compact rows =
    (count_rows (λ r. r.is_funding) rows, count_rows (λ r. not r.is_funding) rows)

-- `IsZeroHash` holds of the hash 0.
abbrev pub is_unspent_compact : AddressRowCompact → Bool
is_unspent_compact r = r.is_funding && (r.matching_tx_hash == 0)

unfoldable pub count_unspent_credit_rows_compact : List AddressRowCompact → ℕ
count_unspent_credit_rows_compact rows = count_rows is_unspent_compact rows

unfoldable pub count_credit_debit_rows_merged : List AddressRowMerged → ℕ × ℕ
count_credit_debit_rows_merged rows =
    (count_rows is_net_funding rows, count_rows (λ r. not (is_net_funding r)) rows)

unfoldable pub address_rows : Slice AddressRowCompact → ℕ → ℕ → Slice AddressRowCompact
address_rows = page_all

unfoldable pub address_rows_merged : Slice AddressRowMerged → ℕ → ℕ → Slice AddressRowMerged
address_rows_merged = page_all

unfoldable pub credit_address_rows : Slice AddressRowCompact → ℕ → ℕ → Slice AddressRowCompact
credit_address_rows = page_rows (λ r. r.is_funding) (λ r. r.is_funding)

unfoldable pub credit_address_rows_merged : Slice AddressRowMerged → ℕ → ℕ → Slice AddressRowMerged
credit_address_rows_merged = page_rows is_net_funding is_net_funding

unfoldable pub unspent_credit_address_rows :
    Slice AddressRowCompact → ℕ → ℕ → Slice AddressRowCompact
unspent_credit_address_rows = page_rows is_unspent_compact is_unspent_compact

-- The pages of debits do not return nil when the offset is past the last debit.
module _ {A : Type 0} where
  unfoldable pub page_debits : (A → Bool) → Slice A → ℕ → ℕ → Slice A
  page_debits p none n offset = none
  page_debits p (some rows) n offset =
      let num = count_rows p rows in
      if leb (length rows) offset
      then some []
      else some (page_loop p (if ltb num n then num else n) offset 0 [] rows)

unfoldable pub debit_address_rows : Slice AddressRowCompact → ℕ → ℕ → Slice AddressRowCompact
debit_address_rows = page_debits (λ r. not r.is_funding)

unfoldable pub debit_address_rows_merged : Slice AddressRowMerged → ℕ → ℕ → Slice AddressRowMerged
debit_address_rows_merged = page_debits (λ r. not (is_net_funding r))

-- The loops of `AllCreditAddressRows` and `AllDebitAddressRows`. The elements are pointers: `none`
-- is nil.
unfoldable pub append_rows :
    (AddressRow → Bool) → List (Option AddressRow) → List AddressRow → List (Option AddressRow)
append_rows p out [] = out
append_rows p out (r ∷ rows) = append_rows p (if p r then out ++ some r ∷ [] else out) rows

-- `make([]*AddressRow, 0, numCreditRows)`
unfoldable pub all_credit_address_rows : List AddressRow → List (Option AddressRow)
all_credit_address_rows rows =
    if (count_credit_debit_rows rows).0 == 0 then [] else append_rows (λ r. r.is_funding) [] rows

-- `make([]*AddressRow, numDebitRows)`: a slice of that many nil pointers, to which is appended.
unfoldable pub all_debit_address_rows : List AddressRow → List (Option AddressRow)
all_debit_address_rows rows =
    let num = (count_credit_debit_rows rows).1 in
    if num == 0
    then replicate num none
    else append_rows (λ r. not r.is_funding) (replicate num none) rows
