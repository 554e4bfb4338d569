-- ===== src/AddressCache/Stores.antt =====
-- The stores of `AddressCache` in db/cache/addresscache.go: when they end, and what they keep.
use mathlib.Core.Path.{subst}
use hdfdata.AddressCache.Clearing.{
  IsClearable, IsClearable-IsStuck, purge_rows-ends, purge_rows-stuck,
}
use hdfdata.AddressCache.Purge.{VisitOrder}
use hdfdata.AddressCache.Purging.{IsOrder, IsPurged, IsPurged-refl, purge_addrs-ends}
use hdfdata.AddressCache.{AddressCache, Items, rows_in, purge_loops, purge_rows_to_fit}
use hdfdata.Base.{
  ℕ, suc, ◌+◌, ◌≡◌, ◌≤◌, ◌<◌, refl, ◌∙◌, inl, inr, Bool, true, false, ◌&&◌, ◌||◌, Option, some,
  arith, ltb, leb, Bool-cases, length, Distinct, keys, sum_of, member-keys,
}

pub some_pair :
    {A B : Type 0} (a c : A) (b d : B)
    → ◌≡◌ {A = Option (A × B)} (some (a, b)) (some (c, d))
    → (a ≡ c) × (b ≡ d)
some_pair a c b d e = (cc, cc)

module _ {Balance Utxo Charts : Type 0} (order : VisitOrder) where
  module _ (is_order : IsOrder order) (num_new already_stored : ℕ)
      (ac : AddressCache Balance Utxo Charts) where
    IsPurged-trans :
        (d e f : Items Balance Utxo Charts)
        → IsPurged rows_in ac.project_address d e
        → IsPurged rows_in ac.project_address e f
        → IsPurged rows_in ac.project_address d f
    IsPurged-trans d e f p q = record {
      distinct = q.distinct;
      project_kept = q.project_kept ∙ p.project_kept;
      no_new = λ k. elim (q.no_new k) [
        | inr n ↦ inr n
        | inl s ↦ elim (p.no_new k) [ inl t ↦ inl (s ∙ t) | inr t ↦ inr (s ∙ t) ]
      ];
      shorter = omega (arith, p.shorter, q.shorter);
      fewer_rows = omega (arith, p.fewer_rows, q.fewer_rows);
    }

    IsClearable-IsPurged :
        (d e : Items Balance Utxo Charts)
        → IsPurged rows_in ac.project_address d e
        → IsClearable rows_in ac.project_address ac.cap num_new already_stored d
        → IsClearable rows_in ac.project_address ac.cap num_new already_stored e
    IsClearable-IsPurged d e p (inl z) = inl (rw (p.project_kept) z)
    IsClearable-IsPurged d e p (inr (inl room)) = inr (inl (rw (p.project_kept) room))
    IsClearable-IsPurged d e p (inr (inr others)) = inr (
        inr (λ j m f. elim (p.no_new j) [
          | inl same ↦
              rw same (others j (ground (arith, member-keys j e, member-keys j d, m, same)) f)
          | inr gone ↦ absurd (ground (arith, member-keys j e, m, gone))
        ]))

    -- The purge for new rows ends when the project's item has no rows, or leaves room for them, or
    -- every other item has rows: it deletes items only, not the project's, and when it says that there
    -- is space, the rows that are left fit with the new ones and there is room for one more address.
    pub purge_rows_to_fit-ends :
        0 < ac.cap
        → 0 < ac.cap_addr
        → Distinct (keys ac.a)
        → IsClearable rows_in ac.project_address ac.cap num_new already_stored ac.a
        → (d : Items Balance Utxo Charts) × (have_space : Bool) × (purge_rows_to_fit order num_new
              already_stored ac
            ≡ some (d, have_space))
          × IsPurged rows_in ac.project_address ac.a d
          × (have_space
              ≡ leb (sum_of rows_in d + num_new) (ac.cap + already_stored)
                && ltb (length d) ac.cap_addr)
    unfolding purge_rows_to_fit purge_loops
    purge_rows_to_fit-ends c ca h clearable =
        let (d, addrs_end, purged, _) =
          purge_addrs-ends rows_in ac.project_address order is_order ac.cap_addr (suc (length ac.a))
            ac.a ca h (omega arith) in
        let (e, rows_end, purged', _) =
          purge_rows-ends rows_in ac.project_address ac.cap num_new already_stored order is_order
            (suc (length d)) d purged.distinct (IsClearable-IsPurged ac.a d purged clearable)
            (omega arith) in
        let guard : (ltb ac.cap 1 || ltb ac.cap_addr 1) ≡ false = ground arith in
        (
          e,
          _,
          rw (purge_rows_to_fit, guard, purge_loops, addrs_end, rows_end) refl,
          IsPurged-trans ac.a d e purged purged',
          refl,
        )

    -- What is known of a purge that has ended.
    pub purge_rows_to_fit-inv :
        (d : Items Balance Utxo Charts) (have_space : Bool)
        → Distinct (keys ac.a)
        → purge_rows_to_fit order num_new already_stored ac ≡ some (d, have_space)
        → IsPurged rows_in ac.project_address ac.a d
          × (have_space ≡ true
              → (sum_of rows_in d + num_new ≤ ac.cap + already_stored) × (length d < ac.cap_addr))
    unfolding purge_rows_to_fit purge_loops
    purge_rows_to_fit-inv d s h e = elim (Bool-cases (ltb ac.cap 1 || ltb ac.cap_addr 1)) [
      | inl closed ↦
          let (kept, no_space) = some_pair ac.a d false s (rw (purge_rows_to_fit, closed) at e) in
          (
            subst (IsPurged rows_in ac.project_address ac.a) kept
                (IsPurged-refl rows_in ac.project_address ac.a h),
            λ t. absurd (ground (arith, no_space, t)),
          )
      | inr opened ↦
          let (d1, addrs_end, purged, _) =
            purge_addrs-ends rows_in ac.project_address order is_order ac.cap_addr
              (suc (length ac.a)) ac.a (ground (arith, opened)) h (omega arith) in
          elim (IsClearable-IsStuck rows_in ac.project_address ac.cap num_new already_stored d1) [
            | inr stuck ↦
                let never =
                  purge_rows-stuck rows_in ac.project_address ac.cap num_new already_stored order
                    is_order (suc (length d1)) d1 purged.distinct stuck in
                absurd (ground (arith, opened, addrs_end, never, e))
            | inl clearable ↦
                let (d2, rows_end, purged', _) =
                  purge_rows-ends rows_in ac.project_address ac.cap num_new already_stored order
                    is_order (suc (length d1)) d1 purged.distinct clearable (omega arith) in
                let (same, space) =
                  some_pair d2 d
                    (leb (sum_of rows_in d2 + num_new) (ac.cap + already_stored)
                      && ltb (length d2) ac.cap_addr)
                    s (rw (purge_rows_to_fit, opened, purge_loops, addrs_end, rows_end) at e) in
                (
                  subst (IsPurged rows_in ac.project_address ac.a) same
                      (IsPurged-trans ac.a d1 d2 purged purged'),
                  λ t. rw (← same) (ground (arith, space, t)),
                )
          ]
    ]
