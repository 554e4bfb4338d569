-- ===== src/AddressCache/Reads.antt =====
-- The methods of `AddressCache` in db/cache/addresscache.go that read an item, and count hits and
-- misses.
use hdfdata.AddressCache.Purge.{Address}
use hdfdata.AddressCache.{AddressCache, CacheMetrics, hit, miss}
use hdfdata.AddressRows.Stored.{uncompact_rows, uncompact_merged_rows}
use hdfdata.AddressRows.{
  Hash, Slice, Text, AddressRow, AddressRowCompact, AddressRowMerged, AddrTxnViewType, is_merged,
}
use hdfdata.Base.{ℕ, Bool, true, false, Option, none, some, List, [], ℤ, negsuc, find, length}
use hdfdata.CacheItem.{
  BlockId, AddressCacheItem, AddressRowSlice, compact_slice, merged_slice, HistoryChart,
  get_balance, get_utxos, get_rows, num_rows, history_chart, transactions,
}

-- The metrics after a hit or a miss of one kind.
unfoldable pub row_hit : CacheMetrics → CacheMetrics
row_hit m = record m { row_metrics = hit m.row_metrics }

unfoldable pub row_miss : CacheMetrics → CacheMetrics
row_miss m = record m { row_metrics = miss m.row_metrics }

unfoldable pub utxo_hit : CacheMetrics → CacheMetrics
utxo_hit m = record m { utxo_metrics = hit m.utxo_metrics }

unfoldable pub utxo_miss : CacheMetrics → CacheMetrics
utxo_miss m = record m { utxo_metrics = miss m.utxo_metrics }

unfoldable pub balance_hit : CacheMetrics → CacheMetrics
balance_hit m = record m { balance_metrics = hit m.balance_metrics }

unfoldable pub balance_miss : CacheMetrics → CacheMetrics
balance_miss m = record m { balance_metrics = miss m.balance_metrics }

unfoldable pub history_hit : CacheMetrics → CacheMetrics
history_hit m = record m { history_metrics = hit m.history_metrics }

unfoldable pub history_miss : CacheMetrics → CacheMetrics
history_miss m = record m { history_metrics = miss m.history_metrics }

-- The type switches of `TransactionsMerged` and `TransactionsCompact`, `none` for their errors.
unfoldable pub as_merged :
    Option (AddressRowSlice × Option BlockId) → Option (Slice AddressRowMerged × Option BlockId)
as_merged none = none
as_merged (some (merged_slice rs, b)) = some (rs, b)
as_merged (some (compact_slice rs, b)) = none

unfoldable pub as_compact :
    Option (AddressRowSlice × Option BlockId) → Option (Slice AddressRowCompact × Option BlockId)
as_compact none = none
as_compact (some (compact_slice rs, b)) = some (rs, b)
as_compact (some (merged_slice rs, b)) = none

-- The elements of a slice; nil has none.
abbrev pub elements : {A : Type 0} → Slice A → List A
elements none = []
elements (some xs) = xs

module _ (hash_string : Hash → Text) where
  -- The conversion of a page: its rows, and the block that the item names.
  unfoldable pub uncompact_page :
      Bool
      → Option (Slice AddressRowMerged × Option BlockId)
      → Option (Slice AddressRowCompact × Option BlockId)
      → Option (List AddressRow × Option BlockId)
  uncompact_page true (some (rs, b)) compact =
      some (uncompact_merged_rows hash_string (elements rs), b)
  uncompact_page true none compact = none
  uncompact_page false merged (some (rs, b)) = some (uncompact_rows hash_string (elements rs), b)
  uncompact_page false merged none = none

module _ {Balance Utxo Charts : Type 0} where
  unfoldable pub address_cache_item :
      Address → AddressCache Balance Utxo Charts → Option (AddressCacheItem Balance Utxo Charts)
  address_cache_item addr ac = find addr ac.a

  -- The cache with other metrics.
  abbrev pub counted :
      (CacheMetrics → CacheMetrics)
      → AddressCache Balance Utxo Charts
      → AddressCache Balance Utxo Charts
  counted f ac = record ac { cache_metrics = f ac.cache_metrics }

  -- `AddressCache.Balance`; an item without a balance counts as a hit.
  unfoldable pub cached_balance :
      Address
      → AddressCache Balance Utxo Charts
      → AddressCache Balance Utxo Charts × Option (Balance × BlockId)
  cached_balance addr ac = elim (address_cache_item addr ac) [
    | none ↦ (counted balance_miss ac, none)
    | some aci ↦ (counted balance_hit ac, get_balance aci)
  ]

  unfoldable pub cached_utxos :
      Address
      → AddressCache Balance Utxo Charts
      → AddressCache Balance Utxo Charts × Option (List Utxo × BlockId)
  cached_utxos addr ac = elim (address_cache_item addr ac) [
    | none ↦ (counted utxo_miss ac, none)
    | some aci ↦ (counted utxo_hit ac, get_utxos aci)
  ]

  unfoldable pub cached_rows :
      Address
      → AddressCache Balance Utxo Charts
      → AddressCache Balance Utxo Charts × Option (List AddressRowCompact × BlockId)
  cached_rows addr ac = elim (address_cache_item addr ac) [
    | none ↦ (counted row_miss ac, none)
    | some aci ↦ (counted row_hit ac, get_rows aci)
  ]

  -- `AddressCache.HistoryChart`; an item without the chart counts as a miss.
  unfoldable pub cached_history_chart :
      Address
      → HistoryChart
      → ℕ
      → AddressCache Balance Utxo Charts
      → AddressCache Balance Utxo Charts × Option (Charts × BlockId)
  cached_history_chart addr chart g ac = elim (address_cache_item addr ac) [
    | none ↦ (counted history_miss ac, none)
    | some aci ↦ elim (history_chart chart g aci) [
      | none ↦ (counted history_miss ac, none)
      | some found ↦ (counted history_hit ac, some found)
    ]
  ]

  unfoldable pub cached_num_rows : Address → AddressCache Balance Utxo Charts → ℤ × Option BlockId
  cached_num_rows addr ac = elim (address_cache_item addr ac) [
    | none ↦ (negsuc 0, none)
    | some aci ↦ num_rows aci
  ]

  unfoldable pub num_addresses : AddressCache Balance Utxo Charts → ℕ
  num_addresses ac = length ac.a

  unfoldable pub transactions_merged :
      Address
      → ℤ
      → ℤ
      → AddrTxnViewType
      → AddressCache Balance Utxo Charts
      → AddressCache Balance Utxo Charts × Option (Slice AddressRowMerged × Option BlockId)
  transactions_merged addr n offset view ac = elim (address_cache_item addr ac) [
    | none ↦ (counted row_miss ac, some (none, none))
    | some aci ↦ (counted row_hit ac, as_merged (transactions n offset view aci))
  ]

  unfoldable pub transactions_compact :
      Address
      → ℤ
      → ℤ
      → AddrTxnViewType
      → AddressCache Balance Utxo Charts
      → AddressCache Balance Utxo Charts × Option (Slice AddressRowCompact × Option BlockId)
  transactions_compact addr n offset view ac = elim (address_cache_item addr ac) [
    | none ↦ (counted row_miss ac, some (none, none))
    | some aci ↦ (counted row_hit ac, as_compact (transactions n offset view aci))
  ]

  module _ (hash_string : Hash → Text) where
    -- `AddressCache.Transactions`, `none` for its error.
    unfoldable pub cached_transactions_of :
        Address
        → ℤ
        → ℤ
        → AddrTxnViewType
        → AddressCache Balance Utxo Charts
        → AddressCache Balance Utxo Charts × Option (List AddressRow × Option BlockId)
    cached_transactions_of addr n offset view ac = elim (is_merged view) [
      | none ↦ (ac, none)
      | some true ↦
          let (ac', page) = transactions_merged addr n offset view ac in
          (ac', uncompact_page hash_string true page none)
      | some false ↦
          let (ac', page) = transactions_compact addr n offset view ac in
          (ac', uncompact_page hash_string false none page)
    ]
