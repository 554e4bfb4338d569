-- ===== src/AddressCache/Limits.antt =====
-- The limits of `AddressCache` in db/cache/addresscache.go, over every sequence of its calls.
use mathlib.Core.Path.{subst}
use hdfdata.AddressCache.Stores.{some_pair, purge_rows_to_fit-inv}
use hdfdata.AddressCache.Purge.{Address, VisitOrder}
use hdfdata.AddressCache.Purging.{IsOrder}
use hdfdata.AddressCache.{
  AddressCache, Items, rows_in, purge_rows_to_fit, add_cache_item, write_item, current_item,
  item_at, same_rows, set_cache_item_rows,
}
use hdfdata.AddressCache.Methods.{store_datum}
use hdfdata.Base.{
  ℕ, ◌≡◌, ◌≤◌, refl, ◌∙◌, inl, inr, Bool, true, false, ◌||◌, some, List, arith, ltb, ◌==◌, ==_iff,
  if◌then◌else◌, Bool-cases, Option-cases, length, Distinct, find, put, keys, weight, member-keys,
  find-put, put-Distinct, length-put,
}
use hdfdata.AddressRows.{AddressRowCompact}
use hdfdata.CacheItem.{BlockId, AddressCacheItem}

module _ {Balance Utxo Charts : Type 0} where
  -- The keys of the map are distinct, and no more than the limit.
  pub record IsValid (ac : AddressCache Balance Utxo Charts) : Type 0 where
    pub distinct : Distinct (keys ac.a)
    pub addrs_le : length ac.a ≤ ac.cap_addr

  -- What a store for an address does to a cache: it stays valid, its limits stay, and the project's
  -- item stays unless the store is for it.
  pub record Keeps (addr : Address) (old new : AddressCache Balance Utxo Charts) : Type 0 where
    pub valid : IsValid new
    pub same_cap : new.cap ≡ old.cap
    pub same_cap_addr : new.cap_addr ≡ old.cap_addr
    pub same_project : new.project_address ≡ old.project_address
    pub project_kept :
        (addr == old.project_address) ≡ false
        → find old.project_address new.a ≡ find old.project_address old.a

  pub Keeps-refl :
      (addr : Address) (ac : AddressCache Balance Utxo Charts) → IsValid ac → Keeps addr ac ac
  Keeps-refl addr ac v = record {
    valid = v;
    same_cap = refl;
    same_cap_addr = refl;
    same_project = refl;
    project_kept = λ f. refl;
  }

  module _ (order : VisitOrder) (is_order : IsOrder order) where
    purged-Keeps :
        (num_new already_stored : ℕ) (addr : Address) (ac : AddressCache Balance Utxo Charts)
        (d : Items Balance Utxo Charts) (have_space : Bool)
        → IsValid ac
        → purge_rows_to_fit order num_new already_stored ac ≡ some (d, have_space)
        → Keeps addr ac (record ac { a = d })
    purged-Keeps num_new already_stored addr ac d s v e =
        let (purged, _) =
          purge_rows_to_fit-inv order is_order num_new already_stored ac d s v.distinct e in
        record {
          valid = record {
            distinct = purged.distinct;
            addrs_le = omega (arith, v.addrs_le, purged.shorter);
          };
          same_cap = refl;
          same_cap_addr = refl;
          same_project = refl;
          project_kept = λ f. purged.project_kept;
        }

    -- An item put into the map after a purge that has made space.
    put_if_space-Keeps :
        (num_new already_stored : ℕ) (addr : Address) (aci : AddressCacheItem Balance Utxo Charts)
        (ac : AddressCache Balance Utxo Charts) (d : Items Balance Utxo Charts) (have_space : Bool)
        → IsValid ac
        → purge_rows_to_fit order num_new already_stored ac ≡ some (d, have_space)
        → Keeps addr ac (record ac { a = if have_space then put addr aci d else d })
    put_if_space-Keeps num_new already_stored addr aci ac d false v e =
        purged-Keeps num_new already_stored addr ac d false v e
    put_if_space-Keeps num_new already_stored addr aci ac d true v e =
        let k = purged-Keeps num_new already_stored addr ac d true v e in
        let (_, space) =
          purge_rows_to_fit-inv order is_order num_new already_stored ac d true v.distinct e in
        record {
          valid = record {
            distinct = put-Distinct addr aci d k.valid.distinct;
            addrs_le = ground (arith, (space refl).1, length-put addr aci d);
          };
          same_cap = refl;
          same_cap_addr = refl;
          same_project = refl;
          project_kept = λ f.
              ground
                (arith, find-put ac.project_address addr aci d, ==_iff ac.project_address addr, f)
              ∙ k.project_kept f;
        }

    add_cache_item-Keeps :
        (addr : Address) (aci : AddressCacheItem Balance Utxo Charts)
        (ac ac' : AddressCache Balance Utxo Charts) (ok : Bool)
        → IsValid ac
        → add_cache_item order addr aci ac ≡ some (ac', ok)
        → Keeps addr ac ac'
    unfolding add_cache_item
    add_cache_item-Keeps addr aci ac ac' ok v e =
        elim (Bool-cases (ltb ac.cap 1 || ltb ac.cap_addr 1)) [
          | inl closed ↦
              let (same, _) = some_pair ac ac' false ok (rw (add_cache_item, closed) at e) in
              subst (Keeps addr ac) same (Keeps-refl addr ac v)
          | inr opened ↦
              elim (Option-cases
                (purge_rows_to_fit order (rows_in aci) (weight rows_in (find addr ac.a)) ac)) [
                  | inl never ↦ absurd (ground (arith, opened, never, e))
                  | inr ((d, have_space), ended) ↦
                      let (same, _) =
                        some_pair (record ac { a = if have_space then put addr aci d else d }) ac'
                          have_space ok (rw (add_cache_item, opened, ended) at e) in
                      subst (Keeps addr ac) same (
                        put_if_space-Keeps (rows_in aci) (weight rows_in (find addr ac.a)) addr aci
                          ac d have_space v ended)
                ]
        ]

  pub write_item-Keeps :
      (addr : Address)
      (f : AddressCacheItem Balance Utxo Charts → AddressCacheItem Balance Utxo Charts)
      (ac : AddressCache Balance Utxo Charts)
      → IsValid ac
      → Keeps addr ac (record ac { a = write_item addr f ac.a })
  unfolding write_item
  write_item-Keeps addr f ac v = elim (Option-cases (find addr ac.a)) [
    | inl gone ↦ rw (write_item, gone) (Keeps-refl addr ac v)
    | inr (aci, there) ↦
        rw (write_item, there)
          (record {
            valid = record {
              distinct = put-Distinct addr (f aci) ac.a v.distinct;
              addrs_le =
                  ground
                    (arith, length-put addr (f aci) ac.a, member-keys addr ac.a, there, v.addrs_le);
            };
            same_cap = refl;
            same_cap_addr = refl;
            same_project = refl;
            project_kept = λ g. ground (
              arith,
              find-put ac.project_address addr (f aci) ac.a,
              ==_iff ac.project_address addr,
              g,
            );
          })
  ]

  Keeps-trans :
      (addr : Address) (ac ac1 ac2 : AddressCache Balance Utxo Charts)
      → Keeps addr ac ac1
      → Keeps addr ac1 ac2
      → Keeps addr ac ac2
  Keeps-trans addr ac ac1 ac2 p q = record {
    valid = q.valid;
    same_cap = q.same_cap ∙ p.same_cap;
    same_cap_addr = q.same_cap_addr ∙ p.same_cap_addr;
    same_project = q.same_project ∙ p.same_project;
    project_kept =
        λ f. rw p.same_project at (q.project_kept (rw p.same_project f)) ∙ p.project_kept f;
  }

  module _ (order : VisitOrder) (is_order : IsOrder order) (addr : Address) (b : BlockId) where
    pub store_datum-Keeps :
        (f : AddressCacheItem Balance Utxo Charts → AddressCacheItem Balance Utxo Charts)
        (ac ac' : AddressCache Balance Utxo Charts) (ok : Bool)
        → IsValid ac
        → store_datum order addr b f ac ≡ some (ac', ok)
        → Keeps addr ac ac'
    unfolding store_datum
    store_datum-Keeps f ac ac' ok v e = elim (Option-cases (current_item addr b ac.a)) [
      | inl gone ↦
          add_cache_item-Keeps order is_order addr (f (item_at b)) ac ac' ok v
            (rw (store_datum, gone) at e)
      | inr (aci, there) ↦
          let (same, _) =
            some_pair (record ac { a = write_item addr f ac.a }) ac' true ok
              (rw (store_datum, there) at e) in
          subst (Keeps addr ac) same (write_item-Keeps addr f ac v)
    ]

    write_if_space-Keeps :
        (rows : List AddressRowCompact) (aci : AddressCacheItem Balance Utxo Charts)
        (ac : AddressCache Balance Utxo Charts) (d : Items Balance Utxo Charts) (have_space : Bool)
        → IsValid ac
        → purge_rows_to_fit order (length rows) (rows_in aci) ac ≡ some (d, have_space)
        → Keeps addr ac (record ac {
          a = if have_space then write_item addr (λ x. record x { rows = some rows }) d else d;
        })
    write_if_space-Keeps rows aci ac d false v e =
        purged-Keeps order is_order (length rows) (rows_in aci) addr ac d false v e
    write_if_space-Keeps rows aci ac d true v e =
        let k = purged-Keeps order is_order (length rows) (rows_in aci) addr ac d true v e in
        Keeps-trans addr ac (record ac { a = d })
          (record ac { a = write_item addr (λ x. record x { rows = some rows }) d }) k
          (write_item-Keeps addr (λ x. record x { rows = some rows }) (record ac { a = d }) k.valid)

    pub set_cache_item_rows-Keeps :
        (rows : List AddressRowCompact) (ac ac' : AddressCache Balance Utxo Charts) (ok : Bool)
        → IsValid ac
        → set_cache_item_rows order addr rows b ac ≡ some (ac', ok)
        → Keeps addr ac ac'
    unfolding set_cache_item_rows
    set_cache_item_rows-Keeps rows ac ac' ok v e =
        elim (Bool-cases (ltb ac.cap 1 || ltb ac.cap_addr 1)) [
          | inl closed ↦
              let (same, _) = some_pair ac ac' false ok (rw (set_cache_item_rows, closed) at e) in
              subst (Keeps addr ac) same (Keeps-refl addr ac v)
          | inr opened ↦ elim (Option-cases (current_item addr b ac.a)) [
            | inl gone ↦
                add_cache_item-Keeps order is_order addr (record (item_at b) { rows = some rows })
                  ac ac' ok v (rw (set_cache_item_rows, opened, gone) at e)
            | inr (aci, there) ↦ elim (Bool-cases (same_rows rows aci)) [
              | inl set_before ↦
                  let (same, _) =
                    some_pair ac ac' true ok
                      (rw (set_cache_item_rows, opened, there, set_before) at e) in
                  subst (Keeps addr ac) same (Keeps-refl addr ac v)
              | inr fresh ↦
                  elim (Option-cases (purge_rows_to_fit order (length rows) (rows_in aci) ac)) [
                    | inl never ↦ absurd (ground (arith, opened, there, fresh, never, e))
                    | inr ((d, have_space), ended) ↦
                        let (same, _) =
                          some_pair
                            (record ac {
                              a =
                                  if have_space
                                  then write_item addr (λ x. record x { rows = some rows }) d
                                  else d;
                            })
                            ac' have_space ok
                            (rw (set_cache_item_rows, opened, there, fresh, ended) at e) in
                        subst (Keeps addr ac) same
                          (write_if_space-Keeps rows aci ac d have_space v ended)
                  ]
            ]
          ]
        ]
