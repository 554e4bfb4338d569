-- ===== src/AddressRows/Range.antt =====
-- `MergeRowsCompactRange` of db/dbtypes/types.go against merging all rows.
use hdfdata.Base.{
  ℕ, zero, suc, ◌≡◌, ◌≢◌, ◌≤◌, refl, sym, ◌∙◌, ap, inl, inr, Bool, false, not, none, some, List, [],
  ◌∷◌, ◌++◌, arith, ◌==◌, Bool-cases, Option-cases, length, take, select, length-append,
  take-append_le, take_of_length-le,
}
use hdfdata.AddressRows.Merging.{
  wrong_direction, start_merged, update_merged, find_merged, update_found, merge_row, merge_loop,
  merge_rows_compact, RangeState, range_start, range_row, range_loop, merge_rows_compact_range,
}
use hdfdata.AddressRows.{Hash, AddressRowCompact, AddressRowMerged, AddrTxnViewType, merged}

take-update_found :
    (n : ℕ) (r : AddressRowCompact) (ms : List AddressRowMerged)
    → update_found r (take n ms) ≡ take n (update_found r ms)
unfolding update_found
take-update_found zero r ms = refl
take-update_found (suc n) r [] = refl
take-update_found (suc n) r (m ∷ ms) = ground (arith, take-update_found n r ms)

update_found_absent :
    (r : AddressRowCompact) (ms : List AddressRowMerged)
    → find_merged r.tx_hash ms ≡ none
    → update_found r ms ≡ ms
unfolding update_found find_merged
update_found_absent r [] e = refl
update_found_absent r (m ∷ ms) e = ground (arith, update_found_absent r ms)

find_merged-take :
    (n : ℕ) (h : Hash) (ms : List AddressRowMerged) (m : AddressRowMerged)
    → find_merged h (take n ms) ≡ some m
    → find_merged h ms ≡ some m
unfolding find_merged
find_merged-take zero h ms m e = absurd (ground arith)
find_merged-take (suc n) h [] m e = absurd (ground arith)
find_merged-take (suc n) h (x ∷ ms) m e = ground (arith, find_merged-take n h ms m)

length-take-le : (n : ℕ) (ms : List AddressRowMerged) → length (take n ms) ≤ length ms
length-take-le zero ms = omega arith
length-take-le (suc n) [] = omega arith
length-take-le (suc n) (m ∷ ms) = omega (arith, length-take-le n ms)

length-take-le_count : (n : ℕ) (ms : List AddressRowMerged) → length (take n ms) ≤ n
length-take-le_count zero ms = omega arith
length-take-le_count (suc n) [] = omega arith
length-take-le_count (suc n) (m ∷ ms) = omega (arith, length-take-le_count n ms)

take_all_of_length-ne :
    (n : ℕ) (ms : List AddressRowMerged) → length (take n ms) ≢ n → take n ms ≡ ms
take_all_of_length-ne zero ms h = absurd (h refl)
take_all_of_length-ne (suc n) [] h = refl
take_all_of_length-ne (suc n) (m ∷ ms) h =
    ap (◌∷◌ m) (take_all_of_length-ne n ms (λ e. h (ap suc e)))

-- What the range keeps after one more row, while nothing is to be skipped.
abbrev kept : List AddressRowMerged → RangeState
kept ms = record { skipped = 0; seen = []; rows_out = ms }

range_row-take :
    (n : ℕ) (r : AddressRowCompact) (ms : List AddressRowMerged)
    → range_row n 0 r (kept (take n ms)) ≡ kept (take n (merge_row r ms))
unfolding range_row merge_row
range_row-take n r ms = elim (Option-cases (find_merged r.tx_hash (take n ms))) [
  | inr (m, e) ↦
      rw (e, find_merged-take n r.tx_hash ms m e, range_row, merge_row)
        (ap kept (take-update_found n r ms))
  | inl e ↦ elim (Bool-cases (length (take n ms) == n)) [
    | inl full ↦ elim (Option-cases (find_merged r.tx_hash ms)) [
      | inl fresh ↦
          rw (e, full, fresh, range_row, merge_row)
            (ap kept (
              sym (
                take-append_le n ms (start_merged r ∷ [])
                  (ground (arith, full, length-take-le n ms)))))
      | inr (m, old) ↦
          rw (e, full, old, range_row, merge_row)
            (ap kept (sym (update_found_absent r (take n ms) e) ∙ take-update_found n r ms))
    ]
    | inr room ↦
        let whole : take n ms ≡ ms = take_all_of_length-ne n ms (ground (arith, room)) in
        let fresh : find_merged r.tx_hash ms ≡ none = rw whole at e in
        let space : (length ms == n) ≡ false = rw whole at room in
        let bound : length ms ≤ n = rw whole at (length-take-le_count n ms) in
        let fits : take n (ms ++ start_merged r ∷ []) ≡ ms ++ start_merged r ∷ [] =
          take_of_length-le n (ms ++ start_merged r ∷ [])
            (ground (arith, space, bound, length-append ms (start_merged r ∷ []))) in
        ground (arith, whole, fresh, space, fits)
  ]
]

range_loop-take :
    (wrong : Bool → Bool) (n : ℕ) (ms : List AddressRowMerged) (rows : List AddressRowCompact)
    → range_loop wrong n 0 (kept (take n ms)) rows
      ≡ kept (take n (merge_loop ms (select (λ r. not (wrong r.is_funding)) rows)))
unfolding range_loop merge_loop
range_loop-take wrong n ms [] = refl
range_loop-take wrong n ms (r ∷ rows) = elim (Bool-cases (wrong r.is_funding)) [
  | inl w ↦ rw w (range_loop-take wrong n ms rows)
  | inr w ↦ rw (w, range_row-take n r ms) (range_loop-take wrong n (merge_row r ms) rows)
]

-- The first page of merged rows of a merged view is the first `n` of the rows that merging gives for
-- the rows of that view's direction: rows past the page are still merged into its rows.
pub merge_rows_compact_range-first :
    (rows : List AddressRowCompact) (n : ℕ) (view : AddrTxnViewType) (wrong : Bool → Bool)
    → wrong_direction view ≡ some wrong
    → merge_rows_compact_range rows n 0 view
      ≡ some (take n (merge_rows_compact (select (λ r. not (wrong r.is_funding)) rows)))
unfolding merge_rows_compact_range merge_rows_compact range_start
merge_rows_compact_range-first rows zero view wrong e = ground (arith, e)
merge_rows_compact_range-first [] (suc n) view wrong e = unfold merge_loop in ground (arith, e)
merge_rows_compact_range-first (r ∷ rows) (suc n) view wrong e =
    ground (arith, e, range_loop-take wrong (suc n) [] (r ∷ rows))

-- A later page can show a transaction that an earlier page has shown, with a part of its amounts:
-- when a transaction with a row on each side of another one is skipped by the offset 1, the page has
-- the other transaction and then the skipped one, begun anew at its second row. Merging all rows has
-- two merged rows, so that only the other one is left after the first.
pub merge_rows_compact_range_repeats :
    (a b c : AddressRowCompact) (n : ℕ)
    → a.tx_hash ≡ c.tx_hash
    → a.tx_hash ≢ b.tx_hash
    → (merge_rows_compact_range (a ∷ b ∷ c ∷ []) (suc (suc n)) 1 merged
        ≡ some (start_merged b ∷ start_merged c ∷ []))
      × (merge_rows_compact (a ∷ b ∷ c ∷ [])
          ≡ update_merged c (start_merged a) ∷ start_merged b ∷ [])
unfolding merge_rows_compact_range merge_rows_compact merge_loop merge_row range_loop range_row
    range_start wrong_direction find_merged update_found start_merged update_merged
merge_rows_compact_range_repeats a b c n e d = (ground arith, ground arith)
