-- ===== src/AddressRows/Window.antt =====
-- The loops that cut a page of rows, in db/dbtypes/types.go and db/cache/addresscache.go: what they
-- put out is a window of the rows selected.
use mathlib.Core.List.{append-nil, append_assoc}
use hdfdata.Base.{
  ℕ, zero, suc, ◌+◌, ◌-◌, ◌≡◌, ◌≤◌, ◌<◌, refl, sym, ◌∙◌, inl, inr, Bool, true, false, none, some,
  List, [], ◌∷◌, ◌++◌, arith, ltb, leb, ◌==◌, if◌then◌else◌, Bool-cases, length, take, drop, select,
  length-append, take_of_length-le, drop_of_length-le, length-drop, length-drop-le,
  length-select-le, tests,
}
use hdfdata.AddressRows.Cached.{page_debits}
use hdfdata.AddressRows.{Slice, count_rows, page_loop, page_rows, page_all}

-- The elements of a slice; a nil slice has none.
abbrev pub elems : {A : Type 0} → Slice A → List A
elems none = []
elems (some xs) = xs

module _ {A : Type 0} where
  pub count_rows-select :
      (p : A → Bool) (rows : List A) → count_rows p rows ≡ length (select p rows)
  unfolding count_rows
  count_rows-select p [] = refl
  count_rows-select p (r ∷ rows) = elim (Bool-cases (p r)) [
    | inl t ↦ rw t (omega (arith, count_rows-select p rows))
    | inr f ↦ rw f (count_rows-select p rows)
  ]

  drop-nil : (k : ℕ) → drop {A = A} k [] ≡ []
  drop-nil zero = refl
  drop-nil (suc k) = refl

  take-drop-nil : (m k : ℕ) → take {A = A} m (drop k []) ≡ []
  take-drop-nil zero k = refl
  take-drop-nil (suc m) zero = refl
  take-drop-nil (suc m) (suc k) = refl

  -- The loop with `n` above the rows in the output: a window of the rows selected.
  page_loop-window :
      (p : A → Bool) (n offset skipped : ℕ) (out rows : List A)
      → length out < n
      → page_loop p n offset skipped out rows
        ≡ out ++ take (n - length out) (drop (offset - skipped) (select p rows))
  unfolding page_loop
  page_loop-window p n offset skipped out [] h =
      rw (take-drop-nil (n - length out) (offset - skipped)) (sym (append-nil out))
  page_loop-window p n offset skipped out (r ∷ rows) h = elim (Bool-cases (p r)) [
    | inr pass ↦ rw pass (page_loop-window p n offset skipped out rows h)
    | inl keep ↦ elim (Bool-cases (ltb skipped offset)) [
      | inl early ↦
          let e : offset - skipped ≡ suc (offset - (skipped + 1)) = omega tests in
          rw (keep, early, e) (page_loop-window p n offset (skipped + 1) out rows h)
      | inr late ↦
          let e : offset - skipped ≡ 0 = omega tests in
          let l = length-append out (r ∷ []) in
          elim (Bool-cases (length (out ++ r ∷ []) == n)) [
            | inl full ↦
                let m : n - length out ≡ 1 = ground (arith, l, full) in rw (keep, late, full, e, m)
            | inr room ↦
                let m : n - length out ≡ suc (n - length (out ++ r ∷ [])) =
                  ground (arith, l, room) in
                rw (keep, late, room, e, m)
                  (page_loop-window p n offset skipped (out ++ r ∷ []) rows
                      (ground (arith, l, room))
                    ∙ rw e (append_assoc out (r ∷ []) _))
          ]
    ]
  ]

  -- With `n` at most the rows in the output already, the loop never breaks.
  page_loop-all :
      (p : A → Bool) (n offset skipped : ℕ) (out rows : List A)
      → n ≤ length out
      → page_loop p n offset skipped out rows ≡ out ++ drop (offset - skipped) (select p rows)
  unfolding page_loop
  page_loop-all p n offset skipped out [] h =
      rw (drop-nil (offset - skipped)) (sym (append-nil out))
  page_loop-all p n offset skipped out (r ∷ rows) h = elim (Bool-cases (p r)) [
    | inr pass ↦ rw pass (page_loop-all p n offset skipped out rows h)
    | inl keep ↦ elim (Bool-cases (ltb skipped offset)) [
      | inl early ↦
          let e : offset - skipped ≡ suc (offset - (skipped + 1)) = omega tests in
          rw (keep, early, e) (page_loop-all p n offset (skipped + 1) out rows h)
      | inr late ↦
          let e : offset - skipped ≡ 0 = omega tests in
          let l = length-append out (r ∷ []) in
          let room : (length (out ++ r ∷ []) == n) ≡ false = ground (arith, l) in
          rw (keep, late, room, e)
            (page_loop-all p n offset skipped (out ++ r ∷ []) rows (omega (arith, l))
              ∙ rw e (append_assoc out (r ∷ []) _))
    ]
  ]

  take_min :
      (n num : ℕ) (xs : List A)
      → length xs ≤ num
      → take (if ltb num n then num else n) xs ≡ take n xs
  take_min n num xs h = elim (Bool-cases (ltb num n)) [
    | inl t ↦ rw (t, take_of_length-le num xs h) (sym (take_of_length-le n xs (omega tests)))
    | inr f ↦ rw f
  ]

  page_loop-from_start :
      (p : A → Bool) (n offset : ℕ) (rows : List A)
      → 0 < n
      → page_loop p n offset 0 [] rows ≡ take n (drop offset (select p rows))
  page_loop-from_start p n offset rows h =
      let a : n - 0 ≡ n = omega arith in
      let b : offset - 0 ≡ offset = omega arith in
      page_loop-window p n offset 0 [] rows h ∙ rw (a, b)

  -- Past the last row that passes there is nothing.
  window_past :
      (p : A → Bool) (rows : List A) (n offset : ℕ)
      → length (select p rows) ≤ offset
      → [] ≡ take n (drop offset (select p rows))
  window_past p rows n offset h =
      rw (drop_of_length-le offset (select p rows) h) (sym (take-drop-nil n 0))

  -- The count that the loop is given makes no difference to the window.
  page_loop-count :
      (p : A → Bool) (n offset : ℕ) (rows : List A)
      → 0 < n
      → 0 < count_rows p rows
      → page_loop p (if ltb (count_rows p rows) n then count_rows p rows else n) offset 0 [] rows
        ≡ take n (drop offset (select p rows))
  page_loop-count p n offset rows h k =
      page_loop-from_start p (if ltb (count_rows p rows) n then count_rows p rows else n) offset
        rows (ground arith)
      ∙ take_min n (count_rows p rows) (drop offset (select p rows))
          (omega (arith, length-drop-le offset (select p rows), count_rows-select p rows))

  -- The rows of a page, for a positive count: the first `n` of those that pass, after `offset` of them.
  pub page_rows-window :
      (p : A → Bool) (rows : List A) (n offset : ℕ)
      → 0 < n
      → elems (page_rows p p (some rows) n offset) ≡ take n (drop offset (select p rows))
  unfolding page_rows
  page_rows-window p rows n offset h =
      let num = count_rows-select p rows in
      elim (Bool-cases (leb (length rows) offset)) [
        | inl past ↦ rw past (window_past p rows n offset (omega (tests, length-select-le p rows)))
        | inr within ↦ elim (Bool-cases (leb (count_rows p rows) offset)) [
          | inl none_left ↦ rw (within, none_left) (window_past p rows n offset (omega tests))
          | inr some_left ↦
              rw (within, some_left) (page_loop-count p n offset rows h (ground arith))
        ]
      ]

  pub page_debits-window :
      (p : A → Bool) (rows : List A) (n offset : ℕ)
      → 0 < n
      → elems (page_debits p (some rows) n offset) ≡ take n (drop offset (select p rows))
  unfolding page_debits
  page_debits-window p rows n offset h =
      let num = count_rows-select p rows in
      elim (Bool-cases (leb (length rows) offset)) [
        | inl past ↦ rw past (window_past p rows n offset (omega (tests, length-select-le p rows)))
        | inr within ↦ elim (Bool-cases (count_rows p rows == 0)) [
          | inl no_debit ↦
              let z : count_rows p rows ≡ 0 = ground arith in
              rw (within, z)
                (page_loop-all p (if ltb 0 n then 0 else n) offset 0 [] rows (ground arith)
                  ∙ drop_of_length-le (offset - 0) (select p rows) (omega arith)
                  ∙ window_past p rows n offset (omega arith))
          | inr some_debit ↦ rw within (page_loop-count p n offset rows h (ground arith))
        ]
      ]

  pub page_all-window :
      (rows : List A) (n offset : ℕ)
      → elems (page_all (some rows) n offset) ≡ take n (drop offset rows)
  unfolding page_all
  page_all-window rows n offset =
      let left = length-drop offset rows in
      elim (Bool-cases (leb (length rows) offset)) [
        | inl past ↦
            rw (past, drop_of_length-le offset rows (omega tests)) (sym (take-drop-nil n 0))
        | inr within ↦ elim (Bool-cases (ltb (length rows) (offset + n))) [
          | inl short ↦
              let some_left : ltb offset (length rows) ≡ true = ground arith in
              rw
                (
                  within,
                  short,
                  some_left,
                  take_of_length-le (length rows - offset) (drop offset rows) (omega arith),
                )
                (sym (take_of_length-le n (drop offset rows) (omega (tests, left))))
          | inr whole ↦ elim (Bool-cases (ltb offset (offset + n))) [
            | inl positive ↦
                let e : offset + n - offset ≡ n = omega arith in rw (within, whole, positive, e)
            | inr empty ↦ let e : n ≡ 0 = omega tests in rw (within, whole, empty) (rw e)
          ]
        ]
      ]

  pub page_rows_unlimited :
      (p : A → Bool) (rows : List A) (offset : ℕ)
      → elems (page_rows p p (some rows) 0 offset) ≡ drop offset (select p rows)
  unfolding page_rows
  page_rows_unlimited p rows offset =
      let num = count_rows-select p rows in
      let b : offset - 0 ≡ offset = omega arith in
      elim (Bool-cases (leb (length rows) offset)) [
        | inl past ↦ rw past (
            sym (drop_of_length-le offset (select p rows) (omega (tests, length-select-le p rows))))
        | inr within ↦ elim (Bool-cases (leb (count_rows p rows) offset)) [
          | inl none_left ↦
              rw (within, none_left) (sym (drop_of_length-le offset (select p rows) (omega tests)))
          | inr some_left ↦
              rw (within, some_left)
                (page_loop-all p (if ltb (count_rows p rows) 0 then count_rows p rows else 0) offset
                    0 [] rows (ground arith)
                  ∙ rw b)
        ]
      ]

  pub page_rows-mixed :
      (counted kept : A → Bool) (rows : List A) (n offset : ℕ)
      → 0 < n
      → offset < length (select counted rows)
      → elems (page_rows counted kept (some rows) n offset)
        ≡ take
            (if ltb (length (select counted rows)) n then length (select counted rows) else n)
            (drop offset (select kept rows))
  unfolding page_rows
  page_rows-mixed counted kept rows n offset h k =
      let within : leb (length rows) offset ≡ false =
        ground (arith, length-select-le counted rows) in
      let num = count_rows-select counted rows in
      let some_left : leb (length (select counted rows)) offset ≡ false = ground arith in
      rw (within, num, some_left) (page_loop-from_start kept _ offset rows (ground arith))

  pub nil_of_length : (xs : List A) → length xs ≡ 0 → xs ≡ []
  nil_of_length [] h = refl
  nil_of_length (x ∷ xs) h = absurd (omega arith)
