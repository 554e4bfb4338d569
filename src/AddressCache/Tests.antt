-- ===== src/AddressCache/Tests.antt =====
-- A small cache of db/cache/addresscache.go, and its theorems there.
use hdfdata.AddressCache.Capacity.{add_cache_item-rows_le, store_balance-cached_balance}
use hdfdata.AddressCache.Histories.{
  Reach, made, project_set, stored, rows_stored, balance_stored, Reach-addrs_le, OtherStores, here,
  after, project_never_purged,
}
use hdfdata.AddressCache.Limits.{IsValid}
use hdfdata.AddressCache.Lost.{store_rows_compact_lost, purge_never_ends}
use hdfdata.AddressCache.Purge.{VisitOrder, visit_addrs, visit_rows, purge_addrs, purge_rows}
use hdfdata.AddressCache.Purging.{IsOrder, IsPurged}
use hdfdata.AddressCache.Reads.{
  row_hit, address_cache_item, cached_balance, cached_utxos, cached_rows,
}
use hdfdata.AddressCache.Stores.{purge_rows_to_fit-ends}
use hdfdata.AddressCache.{
  AddressCache, Items, hit, rows_in, new_address_cache, no_counts, cache_length, purge_loops,
  purge_rows_to_fit, add_cache_item, write_item, current_item, item_at, same_rows,
  set_cache_item_rows,
}
use hdfdata.AddressCache.Methods.{
  store_rows_compact, store_datum, store_balance, store_utxos, clear, clear_all, clear_each,
  clear_utxos, store_history_chart, set_chart, is_known, and_known,
}
use hdfdata.AddressRows.{AddressRowCompact}
use hdfdata.Base.{
  ℕ, ◌+◌, ◌≡◌, ◌≤◌, refl, inl, inr, Bool, true, false, ◌&&◌, none, some, List, [], ◌∷◌, ◌++◌, pos,
  arith, ltb, leb, length, Distinct, find, keys, sum_of,
}
use hdfdata.CacheItem.{
  BlockId, AddressCacheItem, chart_unknown, new_item, clear_history, get_balance, get_utxos,
  get_rows, with_block, block_id,
}

abbrev Cache : Type 0
Cache = AddressCache ℕ ℕ ℕ

program : Unit {0}
unfolding visit_addrs visit_rows purge_addrs purge_rows hit row_hit address_cache_item
    cached_balance cached_utxos cached_rows new_address_cache no_counts cache_length purge_loops
    purge_rows_to_fit add_cache_item write_item current_item item_at same_rows set_cache_item_rows
    store_rows_compact store_datum store_balance store_utxos clear clear_all clear_each clear_utxos
    new_item clear_history get_balance get_utxos get_rows with_block block_id
program = tt

-- Keys in the order of the list.
abbrev in_order : VisitOrder
in_order n ks = ks

in_order-IsOrder : IsOrder in_order
in_order-IsOrder n ks k = refl

abbrev tip : BlockId
tip = record { hash = 11; height = pos 1 }

abbrev row : AddressRowCompact
row = record {
  tx_hash = 5;
  matching_tx_hash = 0;
  tx_block_time = pos 3;
  tx_vin_vout_index = 0;
  value = 9;
  tx_type = pos 0;
  is_funding = true;
  valid_main_chain = true;
  address = [];
}

abbrev no_item : AddressCacheItem ℕ ℕ ℕ
no_item = item_at tip

-- Room for three rows and two addresses.
abbrev empty_cache : Cache
empty_cache = record (new_address_cache 3 2 1000) { project_address = 7 }

-- Two rows for the project's address 7.
abbrev one_address : Cache
one_address = record empty_cache {
  a = (7, record (item_at tip) { rows = some (row ∷ row ∷ []) }) ∷ [];
}

-- And a balance for address 8.
abbrev two_addresses : Cache
two_addresses = record one_address {
  a =
      (7, record (item_at tip) { rows = some (row ∷ row ∷ []) })
      ∷ (8, record (item_at tip) { balance = some 4 })
      ∷ [];
}

rows_of_project :
    store_rows_compact in_order 7 (some (row ∷ row ∷ [])) (some tip) empty_cache
    ≡ some (one_address, true)
unfolding program
rows_of_project = refl

balance_of_other :
    store_balance (λ a. 0) in_order 8 (some 4) (some tip) one_address ≡ some (two_addresses, true)
unfolding program
balance_of_other = refl

-- A chart of an unknown kind is refused, but after an item for it was made.
unknown_chart :
    store_history_chart 0 in_order 8 chart_unknown 0 (some 4) (some tip) one_address
    ≡ some (record one_address { a = one_address.a ++ (8, item_at tip) ∷ [] }, false)
unfolding program store_history_chart set_chart is_known and_known
unknown_chart = refl

reached : Reach 3 2 1000 two_addresses
unfolding program
reached =
    stored 8
      (stored 7 (project_set 7 made)
        (rows_stored in_order (some (row ∷ row ∷ [])) (some tip) true in_order-IsOrder refl))
      (balance_stored (λ a. 0) in_order (some 4) (some tip) true in_order-IsOrder refl)

Reach-addrs_le_example : (length two_addresses.a ≤ 2) × Distinct (keys two_addresses.a)
Reach-addrs_le_example = Reach-addrs_le 3 2 1000 two_addresses reached

one_address-IsValid : IsValid one_address
unfolding program
one_address-IsValid = record { distinct = (refl, tt); addrs_le = omega arith }

two_addresses-IsValid : IsValid two_addresses
unfolding program
two_addresses-IsValid = record { distinct = (refl, (refl, tt)); addrs_le = omega arith }

-- Two stores of a balance for other addresses, of which the second purges the first.
other_stores : OtherStores one_address (record two_addresses {
  a =
      (7, record (item_at tip) { rows = some (row ∷ row ∷ []) })
      ∷ (9, record (item_at tip) { balance = some 0 })
      ∷ [];
})
unfolding program
other_stores =
    after 9
      (after 8 here refl
        (balance_stored (λ a. 0) in_order (some 4) (some tip) true in_order-IsOrder refl))
      refl (balance_stored (λ a. 0) in_order none (some tip) true in_order-IsOrder refl)

project_never_purged_example :
    find 7 (
      (7, record (item_at tip) { rows = some (row ∷ row ∷ []) })
      ∷ (9, record (item_at tip) { balance = some 0 })
      ∷ [])
    ≡ find 7 one_address.a
unfolding program
project_never_purged_example = project_never_purged one_address _ one_address-IsValid other_stores

purge_rows_to_fit-ends_example :
    (d : Items ℕ ℕ ℕ) × (have_space : Bool) × (purge_rows_to_fit in_order 1 0 two_addresses
      ≡ some (d, have_space))
    × IsPurged rows_in 7 two_addresses.a d
    × (have_space ≡ leb (sum_of rows_in d + 1) (3 + 0) && ltb (length d) 2)
unfolding program
purge_rows_to_fit-ends_example =
    purge_rows_to_fit-ends in_order in_order-IsOrder 1 0 two_addresses (omega arith) (omega arith)
      two_addresses-IsValid.distinct (inr (inl (omega arith)))

-- A third address would fit, but the project's two rows leave no room for two new ones, and address 8 has
-- no rows to clear.
abbrev three_places : Cache
three_places = record two_addresses { cap_addr = 3 }

purge_never_ends_example :
    (purge_addrs rows_in in_order 7 3 1 three_places.a ≡ some three_places.a)
    × (purge_rows rows_in in_order 7 3 2 0 1000 three_places.a ≡ none)
unfolding program
purge_never_ends_example =
    purge_never_ends in_order in_order-IsOrder 2 0 1000 three_places (omega arith) (omega arith)
      two_addresses-IsValid.distinct (omega arith, omega arith, (8, refl, refl, refl))

-- The two rows of address 8 are deleted to make room for its own new item, and are taken to be free
-- afterwards: three rows are allowed to be five.
abbrev stale : Cache
stale = record empty_cache {
  cap_addr = 1;
  a = (8, record (item_at tip) { hash = 10; rows = some (row ∷ row ∷ []) }) ∷ [];
}

abbrev five_rows : List AddressRowCompact
five_rows = row ∷ row ∷ row ∷ row ∷ row ∷ []

abbrev over_full : Cache
over_full = record stale { a = (8, record (item_at tip) { rows = some five_rows }) ∷ [] }

rows_over_cap :
    store_rows_compact in_order 8 (some five_rows) (some tip) stale ≡ some (over_full, true)
unfolding program
rows_over_cap = refl

add_cache_item-rows_le_example : 5 ≤ 3 + 2
unfolding program
add_cache_item-rows_le_example =
    add_cache_item-rows_le in_order 8 (record (item_at tip) { rows = some five_rows }) stale
      over_full in_order-IsOrder (record { distinct = (refl, tt); addrs_le = omega arith }) refl

store_balance-cached_balance_example :
    (id : BlockId) × ((cached_balance 8 two_addresses).1 ≡ some (4, id)) × (id.hash ≡ 11)
unfolding program
store_balance-cached_balance_example =
    store_balance-cached_balance in_order 8 tip one_address two_addresses (λ a. 0) (some 4) refl

store_rows_compact_lost_example :
    store_rows_compact in_order 8 (some (row ∷ [])) (some tip) over_full
    ≡ some (record over_full { a = [] }, true)
unfolding program
store_rows_compact_lost_example =
    store_rows_compact_lost in_order in_order-IsOrder 8 tip (row ∷ [])
      (record (item_at tip) { rows = some five_rows }) over_full refl (omega arith) refl refl refl
      refl (omega arith)
