-- ===== src/AddressRows/Conversion.antt =====
-- The functions of db/dbtypes/types.go on stored rows against those on compact rows.
use hdfdata.Base.{
  ℕ, ◌≡◌, refl, sym, ◌∙◌, ap, inl, inr, Bool, false, not, ◌||◌, Option, none, some, List, [], ◌∷◌,
  arith, pos, ◌==◌, ==_iff, if◌then◌else◌, length, ltb_ℤ, take, drop, select, leb, ◌<◌, Bool-cases,
  Option-cases,
}
use mathlib.Core.Option
use hdfdata.AddressRows.Window.{elems}
use hdfdata.AddressRows.Paging.{slice_address_rows-window}
use hdfdata.AddressRows.Hashes.{AllUnmerged, parsed}
use hdfdata.AddressRows.Merging.{
  wrong_direction, RangeState, range_start, range_row, range_loop, merge_rows_compact_range,
  compact_of,
}
use hdfdata.AddressRows.Stored.{
  range_stored, range_stored_loop, merge_rows_range, compact_row, push_compact, compact_rows,
  uncompact_row, uncompact_rows, uncompact_merged_rows, slice_merged, slice_view,
  slice_address_rows,
}
use hdfdata.AddressRows.{
  Text, Hash, AddressRow, AddressRowCompact, AddrTxnViewType, unix, new_time_def,
  new_time_def_from_unix, all, credit, debit, merged, unknown,
}

-- No rows give no merged rows, so that the test for them is one for the count alone.
guard_compact :
    (wrong : Bool → Bool) (n offset : ℕ) (rows : List AddressRowCompact)
    → (if (n == 0) || (length rows == 0)
        then some []
        else some (range_loop wrong n offset range_start rows).rows_out)
      ≡ (if n == 0 then some [] else some (range_loop wrong n offset range_start rows).rows_out)
unfolding range_loop range_start
guard_compact wrong n offset [] = ground arith
guard_compact wrong n offset (r ∷ rows) = ground arith

module _ (new_hash_from_str : Text → Option Hash) where
  guard_stored :
      (wrong : Bool → Bool) (n offset : ℕ) (rows : List AddressRow)
      → (if (n == 0) || (length rows == 0)
          then some []
          else some
              (range_loop wrong n offset range_start (parsed new_hash_from_str rows)).rows_out)
        ≡ (if n == 0
            then some []
            else some
                (range_loop wrong n offset range_start (parsed new_hash_from_str rows)).rows_out)
  unfolding range_loop range_start
  guard_stored wrong n offset [] = ground arith
  guard_stored wrong n offset (r ∷ rows) = ground arith

  range_stored_loop-range_loop :
      (wrong : Bool → Bool) (n offset : ℕ) (st : RangeState) (rows : List AddressRow)
      → AllUnmerged rows
      → range_stored_loop new_hash_from_str wrong n offset st rows
        ≡ some (range_loop wrong n offset st (parsed new_hash_from_str rows))
  unfolding range_stored_loop range_stored range_loop compact_of
  range_stored_loop-range_loop wrong n offset st [] u = refl
  range_stored_loop-range_loop wrong n offset st (r ∷ rows) u =
      elim (Option-cases (new_hash_from_str r.tx_hash)) [
        | inl bad ↦ ground (arith, bad, range_stored_loop-range_loop wrong n offset st rows u.1)
        | inr (h, good) ↦ elim (Bool-cases (wrong r.is_funding)) [
          | inl w ↦ ground (arith, good, w, range_stored_loop-range_loop wrong n offset st rows u.1)
          | inr w ↦ ground (
            arith,
            good,
            w,
            range_stored_loop-range_loop wrong n offset (range_row n offset (compact_of h r) st)
                rows u.1,
          )
        ]
      ]

  -- Merging a range of stored rows, none of which is merged already, is merging the same range of the
  -- compact form of those whose hash parses.
  pub merge_rows_range-compact :
      (rows : List AddressRow) (n offset : ℕ) (view : AddrTxnViewType)
      → AllUnmerged rows
      → merge_rows_range new_hash_from_str rows n offset view
        ≡ merge_rows_compact_range (parsed new_hash_from_str rows) n offset view
  unfolding merge_rows_range merge_rows_compact_range
  merge_rows_range-compact rows n offset view u = elim (Option-cases (wrong_direction view)) [
    | inl e ↦ rw (merge_rows_range, merge_rows_compact_range, e) refl
    | inr (wrong, e) ↦
        let loop = range_stored_loop-range_loop wrong n offset range_start rows u in
        rw (merge_rows_range, merge_rows_compact_range, e, loop)
          (guard_stored wrong n offset rows
            ∙ sym (guard_compact wrong n offset (parsed new_hash_from_str rows)))
  ]

  module _ (hash_string : Hash → Text) where
    -- When printed hashes parse to themselves and the empty text parses to the zero hash, `CompactRows`
    -- undoes `UncompactRows`.
    pub compact_rows-uncompact_rows :
        (rows : List AddressRowCompact)
        → ((h : Hash) → new_hash_from_str (hash_string h) ≡ some h)
        → new_hash_from_str [] ≡ some 0
        → compact_rows new_hash_from_str (uncompact_rows hash_string rows) ≡ some (some rows)
    unfolding compact_rows uncompact_rows uncompact_row push_compact compact_row compact_of unix
        new_time_def_from_unix new_time_def
    compact_rows-uncompact_rows [] round zero_hash = refl
    compact_rows-uncompact_rows (r ∷ rows) round zero_hash =
        let matching : new_hash_from_str
              (if r.matching_tx_hash == 0 then [] else hash_string r.matching_tx_hash)
            ≡ some r.matching_tx_hash =
          elim (Bool-cases (r.matching_tx_hash == 0)) [
            | inl z ↦ rw z (zero_hash ∙ ap some (sym ((==_iff r.matching_tx_hash 0).0 z)))
            | inr nz ↦ rw nz (round r.matching_tx_hash)
          ] in
        rw
          (
            compact_rows,
            round r.tx_hash,
            matching,
            compact_rows-uncompact_rows rows round zero_hash,
          )
          refl

module _ (hash_string : Hash → Text) (new_hash_from_str : Text → Option Hash) where
  slice_address_rows-view :
      (rows : List AddressRow) (n offset : ℕ) (view : AddrTxnViewType)
      → 0 < n
      → offset < length rows
      → slice_address_rows hash_string new_hash_from_str rows (pos n) (pos offset) view
        ≡ slice_view hash_string new_hash_from_str rows n offset view
  unfolding slice_address_rows
  slice_address_rows-view rows n offset view positive within =
      let guard : ((n == 0) || (length rows == 0) || leb (length rows) offset) ≡ false =
        ground arith in
      let sign : (ltb_ℤ (pos offset) (pos 0) || ltb_ℤ (pos n) (pos 0)) ≡ false = ground arith in
      rw (slice_address_rows, sign, guard) refl

  elems-slice_merged :
      (rows : List AddressRow) (n offset : ℕ) (view : AddrTxnViewType)
      → Option.map elems (slice_merged hash_string new_hash_from_str rows n offset view)
        ≡ Option.map
            (uncompact_merged_rows hash_string)
            (merge_rows_range new_hash_from_str rows n offset view)
  unfolding slice_merged
  elems-slice_merged rows n offset view =
      elim (Option-cases (merge_rows_range new_hash_from_str rows n offset view)) [
        | inl e ↦ rw (slice_merged, e) refl
        | inr (ms, e) ↦ rw (slice_merged, e) refl
      ]

  -- `SliceAddressRows` with a positive count and an offset within the rows gives, for the views of all
  -- rows, of credits and of debits, the window of the rows of that kind; for a merged view, the
  -- uncompacted rows of the merged range of the compact rows, when no row is merged already; and for
  -- an unknown view an error.
  pub slice_address_rows-views :
      (rows : List AddressRow) (n offset : ℕ)
      → 0 < n
      → offset < length rows
      → AllUnmerged rows
      → (Option.map elems
            (slice_address_rows hash_string new_hash_from_str rows (pos n) (pos offset) all)
          ≡ some (take n (drop offset rows)))
        × (Option.map elems
              (slice_address_rows hash_string new_hash_from_str rows (pos n) (pos offset) credit)
            ≡ some (take n (drop offset (select (λ r. r.is_funding) rows))))
        × (Option.map elems
              (slice_address_rows hash_string new_hash_from_str rows (pos n) (pos offset) debit)
            ≡ some (take n (drop offset (select (λ r. not r.is_funding) rows))))
        × (Option.map elems
              (slice_address_rows hash_string new_hash_from_str rows (pos n) (pos offset) merged)
            ≡ Option.map
                (uncompact_merged_rows hash_string)
                (merge_rows_compact_range (parsed new_hash_from_str rows) n offset merged))
        × (slice_address_rows hash_string new_hash_from_str rows (pos n) (pos offset) unknown
            ≡ none)
  unfolding slice_view
  slice_address_rows-views rows n offset positive within u =
      let (w_all, w_credit, w_debit) = slice_address_rows-window rows n offset positive in
      let view = slice_address_rows-view rows n offset in
      (
        ap (Option.map elems) (view all positive within) ∙ ap some w_all,
        ap (Option.map elems) (view credit positive within) ∙ ap some w_credit,
        ap (Option.map elems) (view debit positive within) ∙ ap some w_debit,
        ap (Option.map elems) (view merged positive within)
            ∙ elems-slice_merged rows n offset merged
            ∙ ap (Option.map (uncompact_merged_rows hash_string))
                (merge_rows_range-compact new_hash_from_str rows n offset merged u),
        view unknown positive within,
      )
