-- ===== src/AddressRows/Merged.antt =====
-- What the merged rows of db/dbtypes/types.go hold: one row for each transaction, in the order of
-- first appearance, with the sums of its credits and its debits.
use hdfdata.Base.{
  ℕ, ◌+◌, ◌%◌, ◌^◌, ◌≡◌, ◌<◌, refl, ◌∙◌, inl, inr, Bool, true, false, ltb, ◌||◌, Option, none, some,
  List, [], ◌∷◌, ◌++◌, arith, ◌==◌, if◌then◌else◌, Bool-cases, Option-cases, ==_iff,
}
use hdfdata.AddressRows.Merging.{
  add_uint64, add_int32, start_merged, update_merged, find_merged, update_found, merge_row,
  merge_loop, merge_rows_compact,
}
use hdfdata.AddressRows.{Hash, AddressRowCompact, AddressRowMerged}

-- The values are of type uint64.
abbrev pub AllUint64 : List AddressRowCompact → Type 0
AllUint64 [] = Unit
AllUint64 (r ∷ rows) = (r.value < 2 ^ 64) × AllUint64 rows

-- The sum of the credits of a transaction, of its debits, and the number of its rows.
abbrev pub credits : Hash → List AddressRowCompact → ℕ
credits h [] = 0
credits h (r ∷ rows) =
    (if r.tx_hash == h then (if r.is_funding then r.value else 0) else 0) + credits h rows

abbrev pub debits : Hash → List AddressRowCompact → ℕ
debits h [] = 0
debits h (r ∷ rows) =
    (if r.tx_hash == h then (if r.is_funding then 0 else r.value) else 0) + debits h rows

abbrev pub appearances : Hash → List AddressRowCompact → ℕ
appearances h [] = 0
appearances h (r ∷ rows) = (if r.tx_hash == h then 1 else 0) + appearances h rows

-- The amounts of a merged row; a transaction that has none has no amounts.
abbrev pub credit_of : Option AddressRowMerged → ℕ
credit_of none = 0
credit_of (some m) = m.atoms_credit

abbrev pub debit_of : Option AddressRowMerged → ℕ
debit_of none = 0
debit_of (some m) = m.atoms_debit

abbrev pub count_of : Option AddressRowMerged → ℕ
count_of none = 0
count_of (some m) = m.merged_count

-- Whether there is a merged row.
abbrev pub is_some : Option AddressRowMerged → Bool
is_some none = false
is_some (some _) = true

find_merged-append :
    (h : Hash) (ms : List AddressRowMerged) (m : AddressRowMerged)
    → find_merged h ms ≡ none
    → find_merged h (ms ++ m ∷ []) ≡ (if m.tx_hash == h then some m else none)
unfolding find_merged
find_merged-append h [] m e = refl
find_merged-append h (x ∷ ms) m e = elim (Bool-cases (x.tx_hash == h)) [
  | inl t ↦ absurd (ground arith)
  | inr f ↦ rw f (find_merged-append h ms m (ground arith))
]

find_merged-append_ne :
    (h : Hash) (ms : List AddressRowMerged) (m : AddressRowMerged)
    → (m.tx_hash == h) ≡ false
    → find_merged h (ms ++ m ∷ []) ≡ find_merged h ms
unfolding find_merged
find_merged-append_ne h [] m e = rw e
find_merged-append_ne h (x ∷ ms) m e = ground (arith, find_merged-append_ne h ms m e)

find_merged-update_found :
    (h : Hash) (r : AddressRowCompact) (ms : List AddressRowMerged) (m : AddressRowMerged)
    → find_merged r.tx_hash ms ≡ some m
    → find_merged h (update_found r ms)
      ≡ (if r.tx_hash == h then some (update_merged r m) else find_merged h ms)
unfolding find_merged update_found update_merged
find_merged-update_found h r [] m e = absurd (ground arith)
find_merged-update_found h r (x ∷ ms) m e = ground (arith, find_merged-update_found h r ms m)

-- The row of a transaction after one more row is merged.
abbrev merge_option : AddressRowCompact → Option AddressRowMerged → AddressRowMerged
merge_option r none = start_merged r
merge_option r (some m) = update_merged r m

find_merged-merge_row :
    (h : Hash) (r : AddressRowCompact) (ms : List AddressRowMerged)
    → find_merged h (merge_row r ms)
      ≡ (if r.tx_hash == h then some (merge_option r (find_merged h ms)) else find_merged h ms)
unfolding merge_row start_merged
find_merged-merge_row h r ms = elim (Option-cases (find_merged r.tx_hash ms)) [
  | inl e ↦ elim (Bool-cases (r.tx_hash == h)) [
    | inl t ↦
        let q : find_merged h ms ≡ none = rw ((==_iff r.tx_hash h).0 t) at e in
        rw (e, merge_row, t, q) (find_merged-append h ms (start_merged r) q ∙ rw t)
    | inr f ↦ rw (e, merge_row, f) (find_merged-append_ne h ms (start_merged r) f)
  ]
  | inr (m, e) ↦ elim (Bool-cases (r.tx_hash == h)) [
    | inl t ↦
        let q : find_merged h ms ≡ some m = rw ((==_iff r.tx_hash h).0 t) at e in
        rw (e, merge_row, t, q) (find_merged-update_found h r ms m e ∙ rw t)
    | inr f ↦ rw (e, merge_row, f) (find_merged-update_found h r ms m e ∙ rw f)
  ]
]

-- The credits after one more row.
credit_of-merge_row :
    (h : Hash) (r : AddressRowCompact) (ms : List AddressRowMerged)
    → r.value < 2 ^ 64
    → credit_of (find_merged h ms) < 2 ^ 64
    → credit_of (find_merged h (merge_row r ms))
      ≡ (credit_of (find_merged h ms)
          + (if r.tx_hash == h then (if r.is_funding then r.value else 0) else 0))
        % 2 ^ 64
unfolding start_merged update_merged add_uint64
credit_of-merge_row h r ms v c = ground (arith, find_merged-merge_row h r ms)

debit_of-merge_row :
    (h : Hash) (r : AddressRowCompact) (ms : List AddressRowMerged)
    → r.value < 2 ^ 64
    → debit_of (find_merged h ms) < 2 ^ 64
    → debit_of (find_merged h (merge_row r ms))
      ≡ (debit_of (find_merged h ms)
          + (if r.tx_hash == h then (if r.is_funding then 0 else r.value) else 0))
        % 2 ^ 64
unfolding start_merged update_merged add_uint64
debit_of-merge_row h r ms v c = ground (arith, find_merged-merge_row h r ms)

count_of-merge_row :
    (h : Hash) (r : AddressRowCompact) (ms : List AddressRowMerged)
    → count_of (find_merged h ms) < 2 ^ 32
    → count_of (find_merged h (merge_row r ms))
      ≡ (count_of (find_merged h ms) + (if r.tx_hash == h then 1 else 0)) % 2 ^ 32
unfolding start_merged update_merged add_int32
count_of-merge_row h r ms c = ground (arith, find_merged-merge_row h r ms)

add_mod : (a b c : ℕ) → ((a + b) % 2 ^ 64 + c) % 2 ^ 64 ≡ (a + (b + c)) % 2 ^ 64
add_mod a b c = omega arith

add_mod_32 : (a b c : ℕ) → ((a + b) % 2 ^ 32 + c) % 2 ^ 32 ≡ (a + (b + c)) % 2 ^ 32
add_mod_32 a b c = omega arith

credit_of-merge_loop :
    (h : Hash) (ms : List AddressRowMerged) (rows : List AddressRowCompact)
    → AllUint64 rows
    → credit_of (find_merged h ms) < 2 ^ 64
    → credit_of (find_merged h (merge_loop ms rows))
      ≡ (credit_of (find_merged h ms) + credits h rows) % 2 ^ 64
unfolding merge_loop
credit_of-merge_loop h ms [] v c = omega arith
credit_of-merge_loop h ms (r ∷ rows) v c =
    let step = credit_of-merge_row h r ms v.0 c in
    credit_of-merge_loop h (merge_row r ms) rows v.1 (omega (arith, step))
    ∙ rw step (
        add_mod (credit_of (find_merged h ms))
          (if r.tx_hash == h then (if r.is_funding then r.value else 0) else 0) (credits h rows))

debit_of-merge_loop :
    (h : Hash) (ms : List AddressRowMerged) (rows : List AddressRowCompact)
    → AllUint64 rows
    → debit_of (find_merged h ms) < 2 ^ 64
    → debit_of (find_merged h (merge_loop ms rows))
      ≡ (debit_of (find_merged h ms) + debits h rows) % 2 ^ 64
unfolding merge_loop
debit_of-merge_loop h ms [] v c = omega arith
debit_of-merge_loop h ms (r ∷ rows) v c =
    let step = debit_of-merge_row h r ms v.0 c in
    debit_of-merge_loop h (merge_row r ms) rows v.1 (omega (arith, step))
    ∙ rw step (
        add_mod (debit_of (find_merged h ms))
          (if r.tx_hash == h then (if r.is_funding then 0 else r.value) else 0) (debits h rows))

count_of-merge_loop :
    (h : Hash) (ms : List AddressRowMerged) (rows : List AddressRowCompact)
    → count_of (find_merged h ms) < 2 ^ 32
    → count_of (find_merged h (merge_loop ms rows))
      ≡ (count_of (find_merged h ms) + appearances h rows) % 2 ^ 32
unfolding merge_loop
count_of-merge_loop h ms [] c = omega arith
count_of-merge_loop h ms (r ∷ rows) c =
    let step = count_of-merge_row h r ms c in
    count_of-merge_loop h (merge_row r ms) rows (omega (arith, step))
    ∙ rw step (
        add_mod_32 (count_of (find_merged h ms)) (if r.tx_hash == h then 1 else 0)
          (appearances h rows))

-- A merged row that is there stays, and one that is not comes with the first row of its transaction.
is_some_merged-merge_loop :
    (h : Hash) (ms : List AddressRowMerged) (rows : List AddressRowCompact)
    → is_some (find_merged h (merge_loop ms rows))
      ≡ is_some (find_merged h ms) || ltb 0 (appearances h rows)
unfolding merge_loop
is_some_merged-merge_loop h ms [] = ground arith
is_some_merged-merge_loop h ms (r ∷ rows) =
    is_some_merged-merge_loop h (merge_row r ms) rows ∙ ground (arith, find_merged-merge_row h r ms)

-- Merging rows with uint64 values gives each transaction the sum of its credits and the sum of its
-- debits, modulo 2^64, and a count that is the number of its rows modulo 2^32. It has a merged row exactly when it has a
-- row.
pub merge_rows_compact-amounts :
    (h : Hash) (rows : List AddressRowCompact)
    → AllUint64 rows
    → (credit_of (find_merged h (merge_rows_compact rows)) ≡ credits h rows % 2 ^ 64)
      × (debit_of (find_merged h (merge_rows_compact rows)) ≡ debits h rows % 2 ^ 64)
      × (count_of (find_merged h (merge_rows_compact rows)) ≡ appearances h rows % 2 ^ 32)
      × (is_some (find_merged h (merge_rows_compact rows)) ≡ ltb 0 (appearances h rows))
unfolding merge_rows_compact find_merged
merge_rows_compact-amounts h rows v = (
  omega (arith, credit_of-merge_loop h [] rows v (omega arith)),
  omega (arith, debit_of-merge_loop h [] rows v (omega arith)),
  omega (arith, count_of-merge_loop h [] rows (omega arith)),
  is_some_merged-merge_loop h [] rows,
)
