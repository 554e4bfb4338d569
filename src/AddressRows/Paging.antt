-- ===== src/AddressRows/Paging.antt =====
-- What the pages of db/dbtypes/types.go and db/cache/addresscache.go hold: a window of the rows of
-- one kind.
use mathlib.Core.List.{append-nil, append_assoc}
use hdfdata.Base.{
  ℕ, ◌≡◌, ◌<◌, sym, ◌∙◌, inl, inr, Bool, not, Option, none, some, List, [], ◌∷◌, ◌++◌, map, arith,
  ltb, ◌==◌, if◌then◌else◌, Bool-cases, length, take, drop, select, replicate,
}
use hdfdata.AddressRows.Cached.{
  is_unspent_compact, address_rows, address_rows_merged, credit_address_rows,
  credit_address_rows_merged, unspent_credit_address_rows, debit_address_rows,
  debit_address_rows_merged, append_rows, all_credit_address_rows, all_debit_address_rows,
}
use hdfdata.AddressRows.Window.{
  elems, count_rows-select, page_rows-window, page_debits-window, page_all-window,
  page_rows_unlimited, page_rows-mixed, nil_of_length,
}
use hdfdata.AddressRows.{
  AddressRow, AddressRowCompact, AddressRowMerged, is_net_funding, is_unspent, count_rows,
  count_credit_debit_rows, slice_address_rows_all, slice_address_credit_rows,
  slice_address_unspent_credit_rows, slice_address_debit_rows,
}

-- The pages of credits, of debits and of all rows, over the rows as stored in the database, are
-- windows of at most `n` rows, for a positive `n`: the rows of that kind, in order, after the first
-- `offset` of them.
pub slice_address_rows-window :
    (rows : List AddressRow) (n offset : ℕ)
    → 0 < n
    → (elems (slice_address_rows_all (some rows) n offset) ≡ take n (drop offset rows))
      × (elems (slice_address_credit_rows (some rows) n offset)
          ≡ take n (drop offset (select (λ r. r.is_funding) rows)))
      × (elems (slice_address_debit_rows (some rows) n offset)
          ≡ take n (drop offset (select (λ r. not r.is_funding) rows)))
unfolding slice_address_rows_all slice_address_credit_rows slice_address_debit_rows
slice_address_rows-window rows n offset h = (
  page_all-window rows n offset,
  page_rows-window _ rows n offset h,
  page_rows-window _ rows n offset h,
)

-- For a positive count `n`, the pages of the cached rows are the rows of a kind, in order, after the first
-- `offset` of them, at most `n`: of all compact rows, of the credits, of the debits, and of the credits
-- that are unspent.
pub cached_address_rows-window :
    (rows : List AddressRowCompact) (n offset : ℕ)
    → 0 < n
    → (elems (address_rows (some rows) n offset) ≡ take n (drop offset rows))
      × (elems (credit_address_rows (some rows) n offset)
          ≡ take n (drop offset (select (λ r. r.is_funding) rows)))
      × (elems (debit_address_rows (some rows) n offset)
          ≡ take n (drop offset (select (λ r. not r.is_funding) rows)))
      × (elems (unspent_credit_address_rows (some rows) n offset)
          ≡ take n (drop offset (select is_unspent_compact rows)))
unfolding address_rows credit_address_rows debit_address_rows unspent_credit_address_rows
cached_address_rows-window rows n offset h = (
  page_all-window rows n offset,
  page_rows-window _ rows n offset h,
  page_debits-window _ rows n offset h,
  page_rows-window _ rows n offset h,
)

-- For a positive count, the pages of the cached merged rows are windows of all of them, of the net credits and of the
-- others.
pub merged_address_rows-window :
    (rows : List AddressRowMerged) (n offset : ℕ)
    → 0 < n
    → (elems (address_rows_merged (some rows) n offset) ≡ take n (drop offset rows))
      × (elems (credit_address_rows_merged (some rows) n offset)
          ≡ take n (drop offset (select is_net_funding rows)))
      × (elems (debit_address_rows_merged (some rows) n offset)
          ≡ take n (drop offset (select (λ r. not (is_net_funding r)) rows)))
unfolding address_rows_merged credit_address_rows_merged debit_address_rows_merged
merged_address_rows-window rows n offset h = (
  page_all-window rows n offset,
  page_rows-window _ rows n offset h,
  page_debits-window _ rows n offset h,
)

-- A page asked for with the count 0 is not empty: every credit after the offset is in it.
pub credit_address_rows_unlimited :
    (rows : List AddressRowCompact) (offset : ℕ)
    → elems (credit_address_rows (some rows) 0 offset)
      ≡ drop offset (select (λ r. r.is_funding) rows)
unfolding credit_address_rows
credit_address_rows_unlimited rows offset = page_rows_unlimited _ rows offset

-- The page of unspent credits of the rows as stored in the database, while there are more than
-- `offset` unspent credits and `n` is positive, is a window of all credits, the spent ones among
-- them: only its length is bounded by the number of unspent credits.
pub slice_address_unspent_credit_rows-window :
    (rows : List AddressRow) (n offset : ℕ)
    → 0 < n
    → offset < length (select is_unspent rows)
    → elems (slice_address_unspent_credit_rows (some rows) n offset)
      ≡ take
          (if ltb (length (select is_unspent rows)) n then length (select is_unspent rows) else n)
          (drop offset (select (λ r. r.is_funding) rows))
unfolding slice_address_unspent_credit_rows
slice_address_unspent_credit_rows-window rows n offset h k =
    page_rows-mixed is_unspent (λ r. r.is_funding) rows n offset h k

append_rows-select :
    (p : AddressRow → Bool) (out : List (Option AddressRow)) (rows : List AddressRow)
    → append_rows p out rows ≡ out ++ map some (select p rows)
unfolding append_rows
append_rows-select p out [] = sym (append-nil out)
append_rows-select p out (r ∷ rows) = elim (Bool-cases (p r)) [
  | inl t ↦ rw t (append_rows-select p (out ++ some r ∷ []) rows ∙ append_assoc out (some r ∷ []) _)
  | inr f ↦ rw f (append_rows-select p out rows)
]

append_rows_guarded :
    (p : AddressRow → Bool) (out : List (Option AddressRow)) (rows : List AddressRow)
    → (if count_rows p rows == 0 then out else append_rows p out rows)
      ≡ out ++ map some (select p rows)
append_rows_guarded p out rows = elim (Bool-cases (count_rows p rows == 0)) [
  | inl z ↦
      let e : select p rows ≡ [] =
        nil_of_length (select p rows) (ground (arith, count_rows-select p rows)) in
      rw (z, e) (sym (append-nil out))
  | inr nz ↦ rw nz (append_rows-select p out rows)
]

-- `AllCreditAddressRows` returns the credits. `AllDebitAddressRows` returns the debits behind as many
-- nil pointers.
pub all_address_rows :
    (rows : List AddressRow)
    → (all_credit_address_rows rows ≡ map some (select (λ r. r.is_funding) rows))
      × (all_debit_address_rows rows
          ≡ replicate (length (select (λ r. not r.is_funding) rows)) none
            ++ map some (select (λ r. not r.is_funding) rows))
unfolding all_credit_address_rows all_debit_address_rows count_credit_debit_rows
all_address_rows rows = (
  append_rows_guarded (λ r. r.is_funding) [] rows,
  rw (← count_rows-select (λ r. not r.is_funding) rows) (
      append_rows_guarded (λ r. not r.is_funding)
        (replicate (count_rows (λ r. not r.is_funding) rows) none) rows),
)
