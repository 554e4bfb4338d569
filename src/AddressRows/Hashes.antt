-- ===== src/AddressRows/Hashes.antt =====
-- Which transactions the merged rows of db/dbtypes/types.go are of, and how many they are.
use mathlib.Core.List.{map-append}
use hdfdata.Base.{
  ℕ, suc, ◌+◌, ◌≡◌, refl, sym, ◌∙◌, ap, inl, inr, Bool, true, false, not, Option, none, some, List,
  [], ◌∷◌, ◌++◌, map, arith, ◌==◌, if◌then◌else◌, Bool-cases, Option-cases, length, select, member,
  Distinct, length-append, ==_iff, ◌≢◌,
}
use hdfdata.AddressRows.Merging.{
  wrong_direction, start_merged, update_merged, find_merged, update_found, merge_row, merge_loop,
  merge_rows_compact, count_merged_loop, count_merged_rows_compact, compact_of, merge_stored,
  merge_rows_loop, merge_rows,
}
use hdfdata.AddressRows.{
  Text, Hash, AddressRow, AddressRowCompact, AddressRowMerged, AddrTxnViewType,
}

-- The rows are not merged ones.
abbrev pub AllUnmerged : List AddressRow → Type 0
AllUnmerged [] = Unit
AllUnmerged (r ∷ rows) = (r.merged_count ≡ 0) × AllUnmerged rows

abbrev pub hashes : List AddressRowMerged → List Hash
hashes = map (λ m. m.tx_hash)

hashes-update_found :
    (r : AddressRowCompact) (ms : List AddressRowMerged) → hashes (update_found r ms) ≡ hashes ms
unfolding update_found update_merged
hashes-update_found r [] = refl
hashes-update_found r (m ∷ ms) = ground (arith, hashes-update_found r ms)

length-hashes : (ms : List AddressRowMerged) → length (hashes ms) ≡ length ms
length-hashes [] = refl
length-hashes (m ∷ ms) = ap suc (length-hashes ms)

member-find_merged :
    (h : Hash) (ms : List AddressRowMerged) (m : AddressRowMerged)
    → find_merged h ms ≡ some m
    → member h (hashes ms) ≡ true
unfolding find_merged
member-find_merged h [] m e = absurd (ground arith)
member-find_merged h (x ∷ ms) m e = ground (arith, member-find_merged h ms m)

member-find_merged-none :
    (h : Hash) (ms : List AddressRowMerged) → find_merged h ms ≡ none → member h (hashes ms) ≡ false
unfolding find_merged
member-find_merged-none h [] e = refl
member-find_merged-none h (x ∷ ms) e = ground (arith, member-find_merged-none h ms)

hashes-merge_row :
    (r : AddressRowCompact) (ms : List AddressRowMerged)
    → hashes (merge_row r ms)
      ≡ (if member r.tx_hash (hashes ms) then hashes ms else hashes ms ++ r.tx_hash ∷ [])
unfolding merge_row start_merged
hashes-merge_row r ms = elim (Option-cases (find_merged r.tx_hash ms)) [
  | inl e ↦
      rw (e, merge_row, member-find_merged-none r.tx_hash ms e)
        (map-append (λ m. m.tx_hash) ms (start_merged r ∷ []))
  | inr (m, e) ↦ rw (e, merge_row, member-find_merged r.tx_hash ms m e) (hashes-update_found r ms)
]

member-snoc :
    (h x : Hash) (xs : List Hash) → member h (xs ++ x ∷ []) ≡ (if h == x then true else member h xs)
member-snoc h x [] = refl
member-snoc h x (y ∷ xs) = ground (arith, member-snoc h x xs)

Distinct-snoc :
    (x : Hash) (xs : List Hash) → Distinct xs → member x xs ≡ false → Distinct (xs ++ x ∷ [])
Distinct-snoc x [] d e = (refl, tt)
Distinct-snoc x (y ∷ xs) d e =
    (ground (arith, member-snoc y x xs), Distinct-snoc x xs d.1 (ground arith))

hashes-merge_loop :
    (ms : List AddressRowMerged) (rows : List AddressRowCompact)
    → Distinct (hashes ms)
    → Distinct (hashes (merge_loop ms rows))
      × ((h : Hash)
          → member h (hashes (merge_loop ms rows))
            ≡ (if member h (hashes ms) then true else member h (map (λ r. r.tx_hash) rows)))
unfolding merge_loop
hashes-merge_loop ms [] d = (d, λ h. ground arith)
hashes-merge_loop ms (r ∷ rows) d =
    let step = hashes-merge_row r ms in
    elim (Bool-cases (member r.tx_hash (hashes ms))) [
      | inl old ↦
          let e : hashes (merge_row r ms) ≡ hashes ms = step ∙ rw old in
          let (d', all) = hashes-merge_loop (merge_row r ms) rows (rw e d) in
          (d', λ h. all h ∙ rw e (ground (arith, ==_iff h r.tx_hash, old)))
      | inr fresh ↦
          let e : hashes (merge_row r ms) ≡ hashes ms ++ r.tx_hash ∷ [] = step ∙ rw fresh in
          let (d', all) =
            hashes-merge_loop (merge_row r ms) rows
              (rw e (Distinct-snoc r.tx_hash (hashes ms) d fresh)) in
          (d', λ h. all h ∙ rw e (ground (arith, member-snoc h r.tx_hash (hashes ms))))
    ]

-- The merged rows are one for each transaction: no hash is there twice, and a hash is there exactly
-- when some row has it.
pub merge_rows_compact-hashes :
    (rows : List AddressRowCompact)
    → Distinct (hashes (merge_rows_compact rows))
      × ((h : Hash)
          → member h (hashes (merge_rows_compact rows)) ≡ member h (map (λ r. r.tx_hash) rows))
unfolding merge_rows_compact
merge_rows_compact-hashes rows = hashes-merge_loop [] rows tt

same_members-length :
    (n : ℕ) (found : List Hash) (ms : List AddressRowMerged) (rows : List AddressRowCompact)
    (wrong : Bool → Bool)
    → ((h : Hash) → member h found ≡ member h (hashes ms))
    → n ≡ length ms
    → count_merged_loop wrong n found rows
      ≡ length (merge_loop ms (select (λ r. not (wrong r.is_funding)) rows))
unfolding count_merged_loop merge_loop
same_members-length n found ms [] wrong same e = e
same_members-length n found ms (r ∷ rows) wrong same e =
    let step = hashes-merge_row r ms in
    let grown = length-hashes (merge_row r ms) in
    elim (Bool-cases (wrong r.is_funding)) [
      | inl w ↦ rw w (same_members-length n found ms rows wrong same e)
      | inr w ↦ elim (Bool-cases (member r.tx_hash found)) [
        | inl old ↦
            let q : hashes (merge_row r ms) ≡ hashes ms = step ∙ rw (sym (same r.tx_hash) ∙ old) in
            rw (w, old)
              (same_members-length n found (merge_row r ms) rows wrong (λ h. same h ∙ rw q)
                (e ∙ sym (length-hashes ms) ∙ ap length (sym q) ∙ grown))
        | inr fresh ↦
            let q : hashes (merge_row r ms) ≡ hashes ms ++ r.tx_hash ∷ [] =
              step ∙ rw (sym (same r.tx_hash) ∙ fresh) in
            rw (w, fresh)
              (same_members-length (n + 1) (r.tx_hash ∷ found) (merge_row r ms) rows wrong
                (λ h. rw (same h, q) (sym (member-snoc h r.tx_hash (hashes ms))))
                (omega (
                  arith,
                  grown,
                  ap length q,
                  length-append (hashes ms) (r.tx_hash ∷ []),
                  length-hashes ms,
                )))
      ]
    ]

-- The count of merged rows of a merged view is the number of rows that merging gives for the rows of
-- that view's direction.
pub count_merged_rows_compact-length :
    (rows : List AddressRowCompact) (view : AddrTxnViewType) (wrong : Bool → Bool)
    → wrong_direction view ≡ some wrong
    → count_merged_rows_compact rows view
      ≡ some (length (merge_rows_compact (select (λ r. not (wrong r.is_funding)) rows)))
unfolding count_merged_rows_compact merge_rows_compact
count_merged_rows_compact-length rows view wrong e =
    rw (e, count_merged_rows_compact)
      (ap some (same_members-length 0 [] [] rows wrong (λ h. refl) refl))

module _ (new_hash_from_str : Text → Option Hash) where
  -- The stored rows whose hash parses.
  abbrev pub parsed : List AddressRow → List AddressRowCompact
  parsed [] = []
  parsed (r ∷ rows) = elim (new_hash_from_str r.tx_hash) [
    | none ↦ parsed rows
    | some h ↦ compact_of h r ∷ parsed rows
  ]

  merge_rows_loop-merge_loop :
      (ms : List AddressRowMerged) (rows : List AddressRow)
      → AllUnmerged rows
      → merge_rows_loop new_hash_from_str ms rows ≡ some (merge_loop ms (parsed rows))
  unfolding merge_rows_loop merge_stored merge_loop
  merge_rows_loop-merge_loop ms [] u = refl
  merge_rows_loop-merge_loop ms (r ∷ rows) u = elim (Option-cases (new_hash_from_str r.tx_hash)) [
    | inl bad ↦ ground (arith, bad, merge_rows_loop-merge_loop ms rows u.1)
    | inr (h, good) ↦
        ground (arith, good, merge_rows_loop-merge_loop (merge_row (compact_of h r) ms) rows u.1)
  ]

  merge_rows_loop_fails :
      (ms : List AddressRowMerged) (rows more : List AddressRow) (bad : AddressRow)
      → bad.merged_count ≢ 0
      → merge_rows_loop new_hash_from_str ms (rows ++ bad ∷ more) ≡ none
  unfolding merge_rows_loop
  merge_rows_loop_fails ms [] more bad b = ground arith
  merge_rows_loop_fails ms (r ∷ rows) more bad b =
      ground (arith, merge_rows_loop_fails (merge_stored new_hash_from_str r ms) rows more bad b)

  -- Merging rows as stored in the database, none of which is merged already, is merging the compact
  -- form of those whose hash parses; one merged row anywhere makes it fail.
  pub merge_rows-compact :
      (rows more : List AddressRow) (bad : AddressRow)
      → AllUnmerged rows
      → bad.merged_count ≢ 0
      → (merge_rows new_hash_from_str rows ≡ some (merge_rows_compact (parsed rows)))
        × (merge_rows new_hash_from_str (rows ++ bad ∷ more) ≡ none)
  unfolding merge_rows merge_rows_compact
  merge_rows-compact rows more bad u b =
      (merge_rows_loop-merge_loop [] rows u, merge_rows_loop_fails [] rows more bad b)
