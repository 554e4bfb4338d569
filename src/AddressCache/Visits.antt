-- ===== src/AddressCache/Visits.antt =====
-- What one visit of the keys in `purgeRowsToFit` of db/cache/addresscache.go finds, in any order.
use mathlib.Core.Path.{subst}
use hdfdata.AddressCache.Purge.{Address, Visit, leave, nothing, purge, visit_addrs, visit_rows}
use hdfdata.Base.{
  ℕ, ◌≡◌, ◌≢◌, ◌⊎◌, refl, ◌∙◌, inl, inr, Bool, true, false, List, [], ◌∷◌, arith, ◌==◌, ==_iff,
  ==_refl, Bool-cases, member, Dict, find, weight,
}

module _ (project : Address) (alone : Bool) where
  -- What a visit of the addresses says of the keys that it has seen.
  abbrev pub AddrsSeen : List Address → Visit → Type 0
  AddrsSeen ks leave = (alone ≡ true) × (member project ks ≡ true)
  AddrsSeen ks nothing =
      ((alone ≡ false) ⊎ (member project ks ≡ false))
      × ((k : Address) → member k ks ≡ true → k ≡ project)
  AddrsSeen ks (purge k) = (member k ks ≡ true) × ((k == project) ≡ false)

  AddrsSeen-project :
      (x : Address) (ks : List Address) (v : Visit)
      → x ≡ project
      → alone ≡ false
      → AddrsSeen ks v
      → AddrsSeen (x ∷ ks) v
  AddrsSeen-project x ks leave e u s = (s.0, ground arith)
  AddrsSeen-project x ks nothing e u s = (
    inl u,
    λ k m. elim (Bool-cases (k == x)) [
      | inl t ↦ (==_iff k x).0 t ∙ e
      | inr f ↦ s.1 k (ground (arith, f))
    ],
  )
  AddrsSeen-project x ks (purge k) e u s = (ground arith, s.1)

  pub visit_addrs-AddrsSeen : (ks : List Address) → AddrsSeen ks (visit_addrs project alone ks)
  unfolding visit_addrs
  visit_addrs-AddrsSeen [] = (inr refl, λ k m. absurd (ground arith))
  visit_addrs-AddrsSeen (x ∷ ks) = elim (Bool-cases (x == project)) [
    | inr f ↦ rw (visit_addrs, f) (rw (==_refl x) refl, f)
    | inl t ↦
        let e : x ≡ project = (==_iff x project).0 t in
        elim (Bool-cases alone) [
          | inl u ↦ rw (visit_addrs, t, u) (refl, ground (arith, e))
          | inr u ↦
              subst (AddrsSeen (x ∷ ks)) (rw (visit_addrs, t, u) refl) (
                AddrsSeen-project x ks (visit_addrs project alone ks) e u
                  (visit_addrs-AddrsSeen ks))
        ]
  ]

module _ {V : Type 0} (rows_in : V → ℕ) (project : Address) (alone : Bool) (d : Dict V) where
  -- The number of rows of a key.
  abbrev pub rows_at : Address → ℕ
  rows_at k = weight rows_in (find k d)

  -- What a visit of the items says of the keys that it has seen.
  abbrev pub RowsSeen : List Address → Visit → Type 0
  RowsSeen ks leave = (alone ≡ true) × (member project ks ≡ true)
  RowsSeen ks nothing =
      (k : Address) → member k ks ≡ true → (rows_at k ≡ 0) ⊎ ((k ≡ project) × (alone ≡ false))
  RowsSeen ks (purge k) = (member k ks ≡ true) × ((k == project) ≡ false) × (rows_at k ≢ 0)

  RowsSeen-passed :
      (x : Address) (ks : List Address) (v : Visit)
      → (rows_at x ≡ 0) ⊎ ((x ≡ project) × (alone ≡ false))
      → RowsSeen ks v
      → RowsSeen (x ∷ ks) v
  RowsSeen-passed x ks leave passed s = (s.0, ground arith)
  RowsSeen-passed x ks nothing passed s = λ k m. elim (Bool-cases (k == x)) [
    | inl t ↦ rw (← (==_iff k x).0 t) at passed
    | inr f ↦ s k (ground (arith, f))
  ]
  RowsSeen-passed x ks (purge k) passed s = (ground arith, s.1, s.2)

  pub visit_rows-RowsSeen :
      (ks : List Address) → RowsSeen ks (visit_rows rows_in project alone d ks)
  unfolding visit_rows
  visit_rows-RowsSeen [] = λ k m. absurd (ground arith)
  visit_rows-RowsSeen (x ∷ ks) =
      let ih = visit_rows-RowsSeen ks in
      let v = visit_rows rows_in project alone d ks in
      elim (Bool-cases (rows_at x == 0)) [
        | inl z ↦
            subst (RowsSeen (x ∷ ks)) (rw (visit_rows, z) refl)
              (RowsSeen-passed x ks v (inl ((==_iff (rows_at x) 0).0 z)) ih)
        | inr nz ↦ elim (Bool-cases (x == project)) [
          | inr f ↦ rw (visit_rows, nz, f) (rw (==_refl x) refl, f, ground (arith, nz))
          | inl t ↦
              let e : x ≡ project = (==_iff x project).0 t in
              elim (Bool-cases alone) [
                | inl u ↦ rw (visit_rows, nz, t, u) (refl, ground (arith, e))
                | inr u ↦
                    subst (RowsSeen (x ∷ ks)) (rw (visit_rows, nz, t, u) refl)
                      (RowsSeen-passed x ks v (inr (e, u)) ih)
              ]
        ]
      ]
