-- ===== src/AddressCache/Purging.antt =====
-- When the loops of `purgeRowsToFit` of db/cache/addresscache.go end, and what they leave.
use hdfdata.AddressCache.Purge.{
  Address, VisitOrder, Visit, leave, nothing, purge, visit_addrs, purge_addrs,
}
use hdfdata.AddressCache.Visits.{AddrsSeen, visit_addrs-AddrsSeen}
use hdfdata.Base.{
  ℕ, zero, suc, ◌≡◌, ◌≤◌, ◌<◌, ◌⊎◌, refl, sym, ◌∙◌, ap, inl, inr, true, false, none, some, List, [],
  ◌∷◌, arith, leb, ◌==◌, ==_iff, ==_refl, Bool-cases, length, member, Distinct, Dict, find, del,
  keys, sum_of, weight, member-keys, find-del, del-Distinct, length-del, length-del-le,
  sum_of-del-le,
}

-- Every visit sees the keys that there are.
abbrev pub IsOrder : VisitOrder → Type 0
IsOrder order = (n : ℕ) (ks : List Address) (k : Address) → member k (order n ks) ≡ member k ks

module _ {V : Type 0} (rows_in : V → ℕ) (project : Address) where
  -- Items of which some were deleted, but not the project's.
  pub record IsPurged (old new : Dict V) : Type 0 where
    pub distinct : Distinct (keys new)
    pub project_kept : find project new ≡ find project old
    pub no_new : (k : Address) → (find k new ≡ find k old) ⊎ (find k new ≡ none)
    pub shorter : length new ≤ length old
    pub fewer_rows : sum_of rows_in new ≤ sum_of rows_in old

  pub IsPurged-refl : (d : Dict V) → Distinct (keys d) → IsPurged d d
  IsPurged-refl d h = record {
    distinct = h;
    project_kept = refl;
    no_new = λ k. inl refl;
    shorter = omega arith;
    fewer_rows = omega arith;
  }

  pub IsPurged-del :
      (k : Address) (d new : Dict V)
      → (k == project) ≡ false
      → IsPurged (del k d) new
      → IsPurged d new
  IsPurged-del k d new f p = record {
    distinct = p.distinct;
    project_kept = p.project_kept ∙ ground (arith, find-del project k d, ==_iff project k, f);
    no_new = λ j. elim (p.no_new j) [
      | inr n ↦ inr n
      | inl e ↦ elim (Bool-cases (j == k)) [
        | inl t ↦ inr (e ∙ ground (arith, find-del j k d, t))
        | inr g ↦ inl (e ∙ ground (arith, find-del j k d, g))
      ]
    ];
    shorter = omega (arith, p.shorter, length-del-le {0} k d);
    fewer_rows = omega (arith, p.fewer_rows, sum_of-del-le rows_in k d);
  }

  pub only_project :
      (d : Dict V)
      → Distinct (keys d)
      → ((k : Address) → member k (keys d) ≡ true → k ≡ project)
      → (d ≡ []) ⊎ ((length d ≡ 1) × (member project (keys d) ≡ true))
  only_project [] h all = inl refl
  only_project (e ∷ []) h all = inr (refl, ground (arith, all e.0 (rw (==_refl e.0) refl)))
  only_project (e ∷ f ∷ d) h all =
      absurd
        (ground (arith, all e.0 (rw (==_refl e.0) refl), all f.0 (ground (arith, ==_refl f.0))))

  pub sum_only :
      (d : Dict V)
      → Distinct (keys d)
      → ((k : Address)
          → member k (keys d) ≡ true
          → (k == project) ≡ false
          → weight rows_in (find k d) ≡ 0)
      → sum_of rows_in d ≡ weight rows_in (find project d)
  sum_only [] h none_else = refl
  sum_only (e ∷ d) h none_else =
      let ih =
        sum_only d h.1
          (λ k m f. ground (arith, none_else k (ground (arith, m)) f, h.0, ==_iff k e.0, m)) in
      elim (Bool-cases (e.0 == project)) [
        | inl t ↦ ground (arith, ih, t, h.0, ==_iff e.0 project, member-keys project d)
        | inr f ↦
            ground (
              arith,
              ih,
              f,
              none_else e.0 (rw (==_refl e.0) refl) f,
              ==_refl e.0,
              ==_iff e.0 project,
            )
      ]

  module _ (order : VisitOrder) (is_order : IsOrder order) where
    -- The addresses that fit: room for one more, or the project's alone.
    abbrev pub AddrsFit : ℕ → Dict V → Type 0
    AddrsFit cap_addr d =
        (length d < cap_addr) ⊎ ((length d ≡ 1) × (member project (keys d) ≡ true))

    abbrev pub AddrsEnd : ℕ → ℕ → Dict V → Type 0
    AddrsEnd cap_addr fuel d =
        (d' : Dict V) × (purge_addrs rows_in order project cap_addr fuel d ≡ some d')
        × IsPurged d d'
        × AddrsFit cap_addr d'

    purge_addrs_step :
        (cap_addr fuel : ℕ) (d : Dict V) (v : Visit)
        → 0 < cap_addr
        → Distinct (keys d)
        → length d < suc fuel
        → leb cap_addr (length d) ≡ true
        → ((k : Address) → member k (keys d) ≡ true → AddrsEnd cap_addr fuel (del k d))
        → visit_addrs project (length d == 1) (order fuel (keys d)) ≡ v
        → AddrsSeen project (length d == 1) (order fuel (keys d)) v
        → AddrsEnd cap_addr (suc fuel) d
    unfolding purge_addrs
    purge_addrs_step cap_addr fuel d leave c h f over ih e seen = (
      d,
      rw (purge_addrs, over, e) refl,
      IsPurged-refl d h,
      inr ((==_iff (length d) 1).0 seen.0, sym (is_order fuel (keys d) project) ∙ seen.1),
    )
    purge_addrs_step cap_addr fuel d nothing c h f over ih e seen =
        absurd (elim (only_project d h (λ k m. seen.1 k (is_order fuel (keys d) k ∙ m))) [
          | inl z ↦ ground (arith, ap length z, over)
          | inr (one, there) ↦ elim seen.0 [
            | inl many ↦ ground (arith, one, many)
            | inr gone ↦ ground (arith, is_order fuel (keys d) project, there, gone)
          ]
        ])
    purge_addrs_step cap_addr fuel d (purge k) c h f over ih e seen =
        let (d', ends, purged, fit) = ih k (sym (is_order fuel (keys d) k) ∙ seen.0) in
        (d', rw (purge_addrs, over, e, ends) refl, IsPurged-del k d d' seen.1 purged, fit)

    pub purge_addrs-ends :
        (cap_addr fuel : ℕ) (d : Dict V)
        → 0 < cap_addr
        → Distinct (keys d)
        → length d < fuel
        → AddrsEnd cap_addr fuel d
    unfolding purge_addrs
    purge_addrs-ends cap_addr zero d c h f = absurd (omega arith)
    purge_addrs-ends cap_addr (suc fuel) d c h f = elim (Bool-cases (leb cap_addr (length d))) [
      | inr fits ↦ (d, rw (purge_addrs, fits) refl, IsPurged-refl d h, inl (ground (arith, fits)))
      | inl over ↦
          purge_addrs_step cap_addr fuel d _ c h f over
            (λ k m.
              purge_addrs-ends cap_addr fuel (del k d) c (del-Distinct k d h)
                (omega (arith, length-del k d h m)))
            refl (visit_addrs-AddrsSeen project (length d == 1) (order fuel (keys d)))
    ]
