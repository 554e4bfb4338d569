-- ===== src/AddressCache/Lost.antt =====
-- Where `purgeRowsToFit` of db/cache/addresscache.go deletes the item that `setCacheItemRows` is to
-- write.
use hdfdata.AddressCache.Clearing.{IsStuck, purge_rows-stuck}
use hdfdata.AddressCache.Purge.{Address, VisitOrder, purge_addrs, purge_rows}
use hdfdata.AddressCache.Purging.{IsOrder, purge_addrs-ends}
use hdfdata.AddressCache.{
  AddressCache, Items, rows_in, purge_loops, purge_rows_to_fit, write_item, current_item, same_rows,
  set_cache_item_rows,
}
use hdfdata.AddressCache.Methods.{store_rows_compact}
use hdfdata.AddressRows.{AddressRowCompact}
use hdfdata.Base.{
  ℕ, ◌+◌, ◌≡◌, ◌≤◌, ◌<◌, refl, ◌∙◌, ap, inl, inr, true, false, ◌||◌, none, some, List, [], ◌∷◌,
  arith, ltb, leb, ◌==◌, ==_refl, length, Distinct, find, keys, member-keys,
}
use hdfdata.CacheItem.{BlockId, AddressCacheItem}

module _ {Balance Utxo Charts : Type 0} (order : VisitOrder) (is_order : IsOrder order) where
  no_addresses : (d : Items Balance Utxo Charts) → length d < 1 → d ≡ []
  no_addresses [] h = refl
  no_addresses (e ∷ d) h = absurd (omega arith)

  -- The purge of a full cache of one address, not the project's, leaves nothing.
  purge_addrs-alone :
      (project addr : Address) (aci : AddressCacheItem Balance Utxo Charts)
      → (project == addr) ≡ false
      → purge_addrs rows_in order project 1 2 ((addr, aci) ∷ []) ≡ some []
  purge_addrs-alone project addr aci other =
      let d : Items Balance Utxo Charts = (addr, aci) ∷ [] in
      let (d', ends, purged, fit) =
        purge_addrs-ends rows_in project order is_order 1 2 d (omega arith) (refl, tt)
          (omega arith) in
      elim fit [
        | inl none_left ↦ ends ∙ ap some (no_addresses d' none_left)
        | inr (_, there) ↦
            let gone : find project d ≡ none = rw other refl in
            absurd (ground (arith, member-keys project d', there, purged.project_kept ∙ gone))
      ]

  -- A cache with a positive capacity of rows and room for one address, which holds one item, with the
  -- block's hash, of an address that is not the project's and with no rows cached or another number of rows: a
  -- store of rows of that address and block, no more of them than the capacity of rows and the rows of that item
  -- together, reports success in whatever order Go visits its map, but leaves an empty cache, since its purge
  -- deletes the item that it then writes to.
  pub store_rows_compact_lost :
      (addr : Address) (b : BlockId) (rows : List AddressRowCompact)
      (aci : AddressCacheItem Balance Utxo Charts) (ac : AddressCache Balance Utxo Charts)
      → (ac.project_address == addr) ≡ false
      → 0 < ac.cap
      → ac.cap_addr ≡ 1
      → ac.a ≡ (addr, aci) ∷ []
      → aci.hash ≡ b.hash
      → same_rows rows aci ≡ false
      → length rows ≤ ac.cap + rows_in aci
      → store_rows_compact order addr (some rows) (some b) ac ≡ some (record ac { a = [] }, true)
  unfolding store_rows_compact set_cache_item_rows current_item purge_rows_to_fit purge_loops
      purge_rows write_item
  store_rows_compact_lost addr b rows aci ac other c one alone hash fresh room =
      let opened : (ltb ac.cap 1 || ltb ac.cap_addr 1) ≡ false = ground arith in
      let current : current_item addr b ac.a ≡ some aci =
        rw (alone, current_item, ==_refl addr, hash, ==_refl b.hash) refl in
      let purged : purge_rows_to_fit order (length rows) (rows_in aci) ac ≡ some ([], true) =
        rw
          (
            purge_rows_to_fit,
            opened,
            purge_loops,
            alone,
            one,
            purge_addrs-alone ac.project_address addr aci other,
          )
          (ground (arith, room)) in
      rw (store_rows_compact, set_cache_item_rows, opened, current, fresh, purged) refl

  -- A cache that has room for another address, whose project's item has too many rows for the new ones to
  -- fit while some other item has none: the purge never ends, whatever the fuel of its row loop.
  pub purge_never_ends :
      (num_new already_stored fuel : ℕ) (ac : AddressCache Balance Utxo Charts)
      → 0 < ac.cap_addr
      → length ac.a < ac.cap_addr
      → Distinct (keys ac.a)
      → IsStuck rows_in ac.project_address ac.cap num_new already_stored ac.a
      → (purge_addrs rows_in order ac.project_address ac.cap_addr 1 ac.a ≡ some ac.a)
        × (purge_rows rows_in order ac.project_address ac.cap num_new already_stored fuel ac.a
            ≡ none)
  unfolding purge_addrs
  purge_never_ends num_new already_stored fuel ac c room h stuck =
      let fits : leb ac.cap_addr (length ac.a) ≡ false = ground arith in
      (
        rw (purge_addrs, fits) refl,
        purge_rows-stuck rows_in ac.project_address ac.cap num_new already_stored order is_order
            fuel ac.a h stuck,
      )
