-- ===== src/AddressCache/Capacity.antt =====
-- What the stores of `AddressCache` in db/cache/addresscache.go put into the cache: how many rows there
-- are after them, and what is read back.
use mathlib.Core.Path.{subst}
use hdfdata.AddressCache.Limits.{IsValid}
use hdfdata.AddressCache.Stores.{some_pair, purge_rows_to_fit-inv}
use hdfdata.AddressCache.Purge.{Address, VisitOrder}
use hdfdata.AddressCache.Purging.{IsOrder}
use hdfdata.AddressCache.Reads.{
  address_cache_item, cached_balance, cached_utxos, cached_rows, elements,
}
use hdfdata.AddressCache.{
  Stored, slice_length, AddressCache, Items, rows_in, add_cache_item, purge_rows_to_fit, write_item,
  current_item, item_at, set_cache_item_rows,
}
use hdfdata.AddressCache.Methods.{store_rows_compact, store_datum, store_balance, store_utxos}
use hdfdata.AddressRows.{Slice, AddressRowCompact}
use hdfdata.Base.{
  ◌+◌, ◌≡◌, ◌≤◌, refl, ◌∙◌, ap, inl, inr, true, false, not, ◌&&◌, ◌||◌, Option, none, some, arith,
  ltb, ◌==◌, ==_iff, ==_refl, Bool-cases, Option-cases, find, put, sum_of, weight, find-put,
  sum_of-put,
}
use hdfdata.CacheItem.{
  BlockId, AddressCacheItem, get_balance, get_utxos, get_rows, with_block, block_id,
}

module _ {Balance Utxo Charts : Type 0} (order : VisitOrder) where
  -- How a store that put its item ends: after a purge that made space.
  add_cache_item-inv :
      (addr : Address) (aci : AddressCacheItem Balance Utxo Charts)
      (ac ac' : AddressCache Balance Utxo Charts)
      → add_cache_item order addr aci ac ≡ some (ac', true)
      → (d : Items Balance Utxo Charts) × (purge_rows_to_fit order
            (rows_in aci)
            (weight rows_in (find addr ac.a))
            ac
          ≡ some (d, true))
        × (record ac { a = put addr aci d } ≡ ac')
  unfolding add_cache_item
  add_cache_item-inv addr aci ac ac' e = elim (Bool-cases (ltb ac.cap 1 || ltb ac.cap_addr 1)) [
    | inl closed ↦
        let (_, refused) = some_pair ac ac' false true (rw (add_cache_item, closed) at e) in
        absurd (ground (arith, refused))
    | inr opened ↦
        elim (Option-cases
          (purge_rows_to_fit order (rows_in aci) (weight rows_in (find addr ac.a)) ac)) [
            | inl never ↦ absurd (ground (arith, opened, never, e))
            | inr ((d, false), ended) ↦
                let (_, refused) =
                  some_pair (record ac { a = d }) ac' false true
                    (rw (add_cache_item, opened, ended) at e) in
                absurd (ground (arith, refused))
            | inr ((d, true), ended) ↦
                let (same, _) =
                  some_pair (record ac { a = put addr aci d }) ac' true true
                    (rw (add_cache_item, opened, ended) at e) in
                (d, ended, same)
          ]
  ]

  -- An item that was added is in the map.
  add_cache_item-find :
      (addr : Address) (aci : AddressCacheItem Balance Utxo Charts)
      (ac ac' : AddressCache Balance Utxo Charts)
      → add_cache_item order addr aci ac ≡ some (ac', true)
      → find addr ac'.a ≡ some aci
  add_cache_item-find addr aci ac ac' e =
      let (d, _, same) = add_cache_item-inv addr aci ac ac' e in
      subst (λ c. find addr c.a ≡ some aci) same
        (ground (arith, find-put addr addr aci d, ==_refl addr))

  -- When an item was added to a cache without repeated addresses, its rows are at most the capacity and
  -- the rows that were stored for the address before; so the capacity is kept when the address was new.
  pub add_cache_item-rows_le :
      (addr : Address) (aci : AddressCacheItem Balance Utxo Charts)
      (ac ac' : AddressCache Balance Utxo Charts)
      → IsOrder order
      → IsValid ac
      → add_cache_item order addr aci ac ≡ some (ac', true)
      → sum_of rows_in ac'.a ≤ ac'.cap + weight rows_in (find addr ac.a)
  add_cache_item-rows_le addr aci ac ac' is_order v e =
      let (d, ended, same) = add_cache_item-inv addr aci ac ac' e in
      let (_, space) =
        purge_rows_to_fit-inv order is_order (rows_in aci) (weight rows_in (find addr ac.a)) ac d
          true v.distinct ended in
      subst (λ c. sum_of rows_in c.a ≤ c.cap + weight rows_in (find addr ac.a)) same
        (omega (arith, sum_of-put rows_in addr aci d, (space refl).0))

  refused_store :
      (ac ac' : AddressCache Balance Utxo Charts)
      → ◌≡◌ {A = Stored Balance Utxo Charts} (some (ac, false)) (some (ac', true))
      → ⊥
  refused_store ac ac' e =
      let (_, refused) = some_pair ac ac' false true e in ground (arith, refused)

  module _ (addr : Address) (b : BlockId) (ac ac' : AddressCache Balance Utxo Charts) where
    -- The current item is for the block.
    current_item-inv :
        (aci : AddressCacheItem Balance Utxo Charts)
        → current_item addr b ac.a ≡ some aci
        → (find addr ac.a ≡ some aci) × (aci.hash ≡ b.hash)
    unfolding current_item
    current_item-inv aci e = elim (Option-cases (find addr ac.a)) [
      | inl gone ↦ absurd (ground (arith, gone, e))
      | inr (x, there) ↦ elim (Bool-cases (x.hash == b.hash)) [
        | inr f ↦ absurd (ground (arith, there, f, e))
        | inl t ↦
            let same : x ≡ aci = cc (rw (current_item, there, t) at e) in
            (there ∙ ap some same, rw (← same) ((==_iff x.hash b.hash).0 t))
      ]
    ]

    -- What a successful store of a datum leaves under the address.
    store_datum-find :
        (f : AddressCacheItem Balance Utxo Charts → AddressCacheItem Balance Utxo Charts)
        → store_datum order addr b f ac ≡ some (ac', true)
        → (x : AddressCacheItem Balance Utxo Charts) × (find addr ac'.a ≡ some (f x))
          × (x.hash ≡ b.hash)
    unfolding store_datum write_item item_at
    store_datum-find f e = elim (Option-cases (current_item addr b ac.a)) [
      | inl gone ↦ (
        item_at b,
        add_cache_item-find addr (f (item_at b)) ac ac' (rw (store_datum, gone) at e),
        refl,
      )
      | inr (aci, there) ↦
          let (found, hash) = current_item-inv aci there in
          let (same, _) =
            some_pair (record ac { a = write_item addr f ac.a }) ac' true true
              (rw (store_datum, there) at e) in
          (
            aci,
            subst (λ c. find addr c.a ≡ some (f aci)) same
                (rw (write_item, found)
                  (ground (arith, find-put addr addr (f aci) ac.a, ==_refl addr))),
            hash,
          )
    ]

    -- A balance that was stored is read back with a block of the same hash, where a nil balance was
    -- replaced by one of the address alone.
    pub store_balance-cached_balance :
        (empty_balance : Address → Balance) (balance : Option Balance)
        → store_balance empty_balance order addr balance (some b) ac ≡ some (ac', true)
        → (id : BlockId) × ((cached_balance addr ac').1
            ≡ some (elim balance as (λ _. Balance) [ none ↦ empty_balance addr | some x ↦ x ], id))
          × (id.hash ≡ b.hash)
    unfolding store_balance cached_balance address_cache_item get_balance with_block block_id
    store_balance-cached_balance empty_balance balance e =
        elim (Bool-cases (ltb ac.cap 1 || ltb ac.cap_addr 1)) [
          | inl closed ↦ absurd (refused_store ac ac' (rw (store_balance, closed) at e))
          | inr opened ↦
              let (x, found, hash) =
                store_datum-find
                  (λ x. record x {
                    balance =
                        some (elim balance as (λ _. Balance) [
                          | none ↦ empty_balance addr
                          | some y ↦ y
                        ]);
                  })
                  (rw (store_balance, opened) at e) in
              (block_id x, rw (cached_balance, address_cache_item, found) refl, hash)
        ]

    -- Unspent outputs that were stored are read back with a block of the same hash; nil is read back
    -- as no outputs.
    pub store_utxos-cached_utxos :
        (utxos : Slice Utxo)
        → store_utxos order addr utxos (some b) ac ≡ some (ac', true)
        → (id : BlockId) × ((cached_utxos addr ac').1 ≡ some (elements utxos, id))
          × (id.hash ≡ b.hash)
    unfolding store_utxos cached_utxos address_cache_item get_utxos with_block block_id
    store_utxos-cached_utxos utxos e = elim (Bool-cases (ltb ac.cap 1 || ltb ac.cap_addr 1)) [
      | inl closed ↦ absurd (refused_store ac ac' (rw (store_utxos, closed) at e))
      | inr opened ↦
          elim (Bool-cases
            (ltb ac.max_utxos_per_addr (slice_length utxos) && not (addr == ac.project_address))) [
              | inl many ↦ absurd (refused_store ac ac' (rw (store_utxos, opened, many) at e))
              | inr few ↦
                  let (x, found, hash) =
                    store_datum-find (λ x. record x { utxos = some (elements utxos) })
                      (rw (store_utxos, opened, few) at e) in
                  (block_id x, rw (cached_utxos, address_cache_item, found) refl, hash)
            ]
    ]

    -- Rows that were stored for an address that had no item of the block are read back with that block;
    -- nil is read back as no rows.
    pub store_rows_compact-cached_rows :
        (rows : Slice AddressRowCompact)
        → current_item addr b ac.a ≡ none
        → store_rows_compact order addr rows (some b) ac ≡ some (ac', true)
        → (cached_rows addr ac').1 ≡ some (elements rows, b)
    unfolding store_rows_compact set_cache_item_rows cached_rows address_cache_item get_rows
        with_block block_id item_at
    store_rows_compact-cached_rows rows fresh e =
        elim (Bool-cases (ltb ac.cap 1 || ltb ac.cap_addr 1)) [
          | inl closed ↦ absurd (refused_store ac ac' (rw (store_rows_compact, closed) at e))
          | inr opened ↦
              let found =
                add_cache_item-find addr (record (item_at b) { rows = some (elements rows) }) ac ac'
                  (rw (store_rows_compact, set_cache_item_rows, opened, fresh) at e) in
              rw (cached_rows, address_cache_item, found) refl
        ]
