-- ===== src/AddressCache/Clearing.antt =====
-- The loop `clearing` of `purgeRowsToFit` in db/cache/addresscache.go: when it ends, and when not.
use hdfdata.AddressCache.Purging.{
  IsOrder, IsPurged, IsPurged-refl, IsPurged-del, only_project, sum_only,
}
use hdfdata.AddressCache.Purge.{
  Address, VisitOrder, Visit, leave, nothing, purge, visit_rows, purge_rows,
}
use hdfdata.AddressCache.Visits.{RowsSeen, visit_rows-RowsSeen}
use hdfdata.Base.{
  ℕ, zero, suc, ◌+◌, ◌≡◌, ◌≢◌, ◌≤◌, ◌<◌, ◌⊎◌, refl, sym, ◌∙◌, ap, inl, inr, Bool, true, false, ◌&&◌,
  none, some, List, [], ◌∷◌, arith, ltb, leb, ◌==◌, ==_iff, ==_refl, Bool-cases, length, member,
  Distinct, Dict, find, del, keys, sum_of, weight, sum_of-del, member-keys-del, find-del,
  del-Distinct, length-del,
}

module _ {V : Type 0} (rows_in : V → ℕ) (project : Address)
    (row_cap num_new already_stored : ℕ) where
  -- The rows of the project's item are too many for the new ones to fit, and some other item has none.
  abbrev pub IsStuck : Dict V → Type 0
  IsStuck d =
      (0 < weight rows_in (find project d))
      × (row_cap + already_stored < weight rows_in (find project d) + num_new)
      × ((j : Address) × (member j (keys d) ≡ true)
          × ((j == project) ≡ false)
          × (weight rows_in (find j d) ≡ 0))

  -- The project's item has no rows, or leaves room for the new ones, or every other item has rows.
  abbrev pub IsClearable : Dict V → Type 0
  IsClearable d =
      (weight rows_in (find project d) ≡ 0)
      ⊎ ((weight rows_in (find project d) + num_new ≤ row_cap + already_stored)
          ⊎ ((j : Address)
              → member j (keys d) ≡ true
              → (j == project) ≡ false
              → weight rows_in (find j d) ≢ 0))

  -- The new rows fit, or no rows are left, or nothing but the project's item is.
  abbrev pub RowsFit : Dict V → Type 0
  RowsFit d =
      (sum_of rows_in d + num_new ≤ row_cap + already_stored)
      ⊎ ((sum_of rows_in d ≡ 0) ⊎ ((length d ≡ 1) × (member project (keys d) ≡ true)))

  over_cap : Dict V → Bool
  over_cap d =
      ltb 0 (sum_of rows_in d) && ltb (row_cap + already_stored) (sum_of rows_in d + num_new)

  IsClearable-del :
      (k : Address) (d : Dict V) → (k == project) ≡ false → IsClearable d → IsClearable (del k d)
  IsClearable-del k d f (inl z) = inl (ground (arith, z, find-del project k d, ==_iff project k, f))
  IsClearable-del k d f (inr (inl room)) =
      inr (inl (ground (arith, room, find-del project k d, ==_iff project k, f)))
  IsClearable-del k d f (inr (inr others)) = inr (
      inr (λ j m g.
        let kept : (j == k) ≡ false = ground (arith, member-keys-del j k d, m) in
        rw (find-del j k d, kept) (others j (ground (arith, member-keys-del j k d, m, kept)) g)))

  RowsFit-room : (d : Dict V) → over_cap d ≡ false → RowsFit d
  unfolding over_cap
  RowsFit-room d fits = elim (Bool-cases (ltb 0 (sum_of rows_in d))) [
    | inl some_rows ↦ inl (ground (arith, fits, some_rows))
    | inr no_rows ↦ inr (inl (ground (arith, no_rows)))
  ]

  -- While there are too many rows and the items are clearable, a visit finds something.
  nothing_unclearable :
      (d : Dict V)
      → Distinct (keys d)
      → IsClearable d
      → over_cap d ≡ true
      → ¬ RowsSeen rows_in project (length d == 1) d (keys d) nothing
  unfolding over_cap
  nothing_unclearable d h c over seen =
      let none_else : (k : Address)
          → member k (keys d) ≡ true
          → (k == project) ≡ false
          → weight rows_in (find k d) ≡ 0 =
        λ k m f. elim (seen k m) [ inl z ↦ z | inr (e, _) ↦ absurd (ground (arith, e, f)) ] in
      let total : sum_of rows_in d ≡ weight rows_in (find project d) =
        sum_only rows_in project d h none_else in
      elim c [
        | inl z ↦ ground (arith, over, total, z)
        | inr (inl room) ↦ ground (arith, over, total, room)
        | inr (inr others) ↦
            let all : (k : Address) → member k (keys d) ≡ true → k ≡ project = λ k m.
              elim (Bool-cases (k == project)) [
                | inl t ↦ (==_iff k project).0 t
                | inr f ↦ absurd (others k m f (none_else k m f))
              ] in
            elim (only_project rows_in project d h all) [
              | inl z ↦ ground (arith, over, ap (sum_of rows_in) z)
              | inr (one, there) ↦ elim (seen project there) [
                | inl z ↦ ground (arith, over, total, z)
                | inr (_, many) ↦ ground (arith, one, many)
              ]
            ]
      ]

  module _ (order : VisitOrder) (is_order : IsOrder order) where
    abbrev pub RowsEnd : ℕ → Dict V → Type 0
    RowsEnd fuel d =
        (d' : Dict V) × (purge_rows rows_in order project row_cap num_new already_stored fuel d
          ≡ some d')
        × IsPurged rows_in project d d'
        × RowsFit d'

    purge_rows_step :
        (fuel : ℕ) (d : Dict V) (v : Visit)
        → Distinct (keys d)
        → IsClearable d
        → over_cap d ≡ true
        → ((k : Address)
            → member k (keys d) ≡ true
            → (k == project) ≡ false
            → RowsEnd fuel (del k d))
        → visit_rows rows_in project (length d == 1) d (order fuel (keys d)) ≡ v
        → RowsSeen rows_in project (length d == 1) d (order fuel (keys d)) v
        → RowsEnd (suc fuel) d
    unfolding purge_rows over_cap
    purge_rows_step fuel d leave h c over ih e seen = (
      d,
      rw (purge_rows, over, e) refl,
      IsPurged-refl rows_in project d h,
      inr (inr ((==_iff (length d) 1).0 seen.0, sym (is_order fuel (keys d) project) ∙ seen.1)),
    )
    purge_rows_step fuel d nothing h c over ih e seen =
        absurd (nothing_unclearable d h c over (λ k m. seen k (is_order fuel (keys d) k ∙ m)))
    purge_rows_step fuel d (purge k) h c over ih e seen =
        let (d', ends, purged, fit) = ih k (sym (is_order fuel (keys d) k) ∙ seen.0) seen.1 in
        (
          d',
          rw (purge_rows, over, e, ends) refl,
          IsPurged-del rows_in project k d d' seen.1 purged,
          fit,
        )

    pub purge_rows-ends :
        (fuel : ℕ) (d : Dict V)
        → Distinct (keys d)
        → IsClearable d
        → length d < fuel
        → RowsEnd fuel d
    unfolding purge_rows over_cap
    purge_rows-ends zero d h c f = absurd (omega arith)
    purge_rows-ends (suc fuel) d h c f = elim (Bool-cases (over_cap d)) [
      | inr fits ↦
          (d, rw (purge_rows, fits) refl, IsPurged-refl rows_in project d h, RowsFit-room d fits)
      | inl over ↦
          purge_rows_step fuel d _ h c over
            (λ k m g.
              purge_rows-ends fuel (del k d) (del-Distinct k d h) (IsClearable-del k d g c)
                (omega (arith, length-del k d h m)))
            refl (visit_rows-RowsSeen rows_in project (length d == 1) d (order fuel (keys d)))
    ]

    IsStuck-del :
        (k : Address) (d : Dict V)
        → (k == project) ≡ false
        → weight rows_in (find k d) ≢ 0
        → IsStuck d
        → IsStuck (del k d)
    IsStuck-del k d f some_rows (rows, over, (j, there, other, none_there)) =
        let kept : (j == k) ≡ false = elim (Bool-cases (j == k)) [
          | inl t ↦ absurd (some_rows (rw ((==_iff j k).0 t) at none_there))
          | inr g ↦ g
        ] in
        let same : find project (del k d) ≡ find project d =
          ground (arith, find-del project k d, ==_iff project k, f) in
        (
          rw same rows,
          rw same over,
          (
            j,
            ground (arith, member-keys-del j k d, kept, there),
            other,
            rw (find-del j k d, kept) none_there,
          ),
        )

    over_cap_of_stuck : (d : Dict V) → Distinct (keys d) → IsStuck d → over_cap d ≡ true
    unfolding over_cap
    over_cap_of_stuck d h s = ground (arith, s.0, s.1, sum_of-del rows_in project d h)

    two_of_stuck :
        (d : Dict V) → IsStuck d → member project (keys d) ≡ true → (length d == 1) ≡ true → ⊥
    two_of_stuck [] s there one = ground arith
    two_of_stuck (e ∷ []) (rows, over, (j, here, other, none_there)) there one =
        ground (arith, here, there, other, ==_iff j e.0, ==_iff project e.0, ==_iff j project)
    two_of_stuck (e ∷ f ∷ d) s there one = ground arith

    purge_rows_stuck_step :
        (fuel : ℕ) (d : Dict V) (v : Visit)
        → Distinct (keys d)
        → IsStuck d
        → ((k : Address)
            → (k == project) ≡ false
            → weight rows_in (find k d) ≢ 0
            → purge_rows rows_in order project row_cap num_new already_stored fuel (del k d) ≡ none)
        → purge_rows rows_in order project row_cap num_new already_stored fuel d ≡ none
        → visit_rows rows_in project (length d == 1) d (order fuel (keys d)) ≡ v
        → RowsSeen rows_in project (length d == 1) d (order fuel (keys d)) v
        → purge_rows rows_in order project row_cap num_new already_stored (suc fuel) d ≡ none
    unfolding purge_rows over_cap
    purge_rows_stuck_step fuel d leave h s later again e seen =
        absurd (two_of_stuck d s (sym (is_order fuel (keys d) project) ∙ seen.1) seen.0)
    purge_rows_stuck_step fuel d nothing h s later again e seen =
        let over = over_cap_of_stuck d h s in rw (purge_rows, over, e) again
    purge_rows_stuck_step fuel d (purge k) h s later again e seen =
        let over = over_cap_of_stuck d h s in rw (purge_rows, over, e) (later k seen.1 seen.2)

    pub purge_rows-stuck :
        (fuel : ℕ) (d : Dict V)
        → Distinct (keys d)
        → IsStuck d
        → purge_rows rows_in order project row_cap num_new already_stored fuel d ≡ none
    unfolding purge_rows
    purge_rows-stuck zero d h s = refl
    purge_rows-stuck (suc fuel) d h s =
        purge_rows_stuck_step fuel d _ h s
          (λ k f w. purge_rows-stuck fuel (del k d) (del-Distinct k d h) (IsStuck-del k d f w s))
          (purge_rows-stuck fuel d h s) refl
          (visit_rows-RowsSeen rows_in project (length d == 1) d (order fuel (keys d)))

  -- Either some other item of the keys has no rows, or all have.
  search_rowless :
      (d : Dict V) (ks : List Address)
      → ((j : Address) × (member j ks ≡ true)
          × ((j == project) ≡ false)
          × (weight rows_in (find j d) ≡ 0))
        ⊎ ((j : Address)
            → member j ks ≡ true
            → (j == project) ≡ false
            → weight rows_in (find j d) ≢ 0)
  search_rowless d [] = inr (λ j m f. absurd (ground arith))
  search_rowless d (k ∷ ks) = elim (search_rowless d ks) [
    | inl (j, m, f, z) ↦ inl (j, ground (arith, m), f, z)
    | inr all ↦ elim (Bool-cases (k == project)) [
      | inl t ↦ inr (λ j m f.
          all j (ground (arith, m, f, t, ==_iff j k, ==_iff k project, ==_iff j project)) f)
      | inr g ↦ elim (Bool-cases (weight rows_in (find k d) == 0)) [
        | inl z ↦ inl (k, rw (==_refl k) refl, g, (==_iff (weight rows_in (find k d)) 0).0 z)
        | inr nz ↦ inr (λ j m f. elim (Bool-cases (j == k)) [
          | inl t ↦ rw ((==_iff j k).0 t) (ground (arith, nz))
          | inr h ↦ all j (ground (arith, m, h)) f
        ])
      ]
    ]
  ]

  pub IsClearable-IsStuck : (d : Dict V) → IsClearable d ⊎ IsStuck d
  IsClearable-IsStuck d = elim (Bool-cases (weight rows_in (find project d) == 0)) [
    | inl z ↦ inl (inl ((==_iff (weight rows_in (find project d)) 0).0 z))
    | inr nz ↦
        elim (Bool-cases
          (leb (weight rows_in (find project d) + num_new) (row_cap + already_stored))) [
            | inl room ↦ inl (inr (inl (ground (arith, room))))
            | inr over ↦ elim (search_rowless d (keys d)) [
              | inl found ↦ inr (ground (arith, nz), ground (arith, over), found)
              | inr all ↦ inl (inr (inr all))
            ]
          ]
  ]
