-- ===== src/AddressCache/Methods.antt =====
-- The methods of `AddressCache` in db/cache/addresscache.go that store and clear.
use hdfdata.AddressCache.Purge.{Address, VisitOrder}
use hdfdata.AddressCache.{
  AddressCache, Items, Stored, slice_length, item_at, current_item, write_item, add_cache_item,
  set_cache_item_rows,
}
use hdfdata.Base.{
  ℕ, Bool, true, false, not, ◌&&◌, ◌||◌, Option, none, some, List, [], ◌∷◌, ltb, leb, ◌==◌,
  if◌then◌else◌, length, del,
}
use hdfdata.AddressRows.Stored.{compact_rows}
use hdfdata.AddressRows.{Hash, Slice, Text, AddressRow, AddressRowCompact}
use hdfdata.CacheItem.{
  BlockId, AddressCacheItem, HistoryChart, txs_type, amount_flow, chart_unknown, num_intervals,
}

unfoldable pub set_at : {A : Type 0} → ℕ → A → (ℕ → Option A) → ℕ → Option A
set_at g x f i = if i == g then some x else f i

-- Whether the switch on the chart does not end in its default case, which returns false.
unfoldable pub is_known : HistoryChart → Bool
is_known txs_type = true
is_known amount_flow = true
is_known chart_unknown = false

module _ {Balance Utxo Charts : Type 0} where
  -- `StoreRowsCompact`; a nil block is `none`.
  unfoldable pub store_rows_compact :
      VisitOrder
      → Address
      → Slice AddressRowCompact
      → Option BlockId
      → AddressCache Balance Utxo Charts
      → Stored Balance Utxo Charts
  store_rows_compact order addr rows none ac = some (ac, false)
  store_rows_compact order addr rows (some b) ac =
      if ltb ac.cap 1 || ltb ac.cap_addr 1
      then some (ac, false)
      else set_cache_item_rows order addr (elim rows [ none ↦ [] | some rs ↦ rs ]) b ac

  -- `StoreRows`. A panic of `CompactRows` is `none` too. Rows with a bad hash become a nil slice,
  -- which is stored as no rows.
  unfoldable pub store_rows :
      (Text → Option Hash)
      → VisitOrder
      → Address
      → Slice AddressRow
      → Option BlockId
      → AddressCache Balance Utxo Charts
      → Stored Balance Utxo Charts
  store_rows new_hash_from_str order addr rows none ac = some (ac, false)
  store_rows new_hash_from_str order addr none (some b) ac =
      if ltb ac.cap 1 || ltb ac.cap_addr 1
      then some (ac, false)
      else store_rows_compact order addr (some []) (some b) ac
  store_rows new_hash_from_str order addr (some rows) (some b) ac =
      if ltb ac.cap 1 || ltb ac.cap_addr 1
      then some (ac, false)
      else elim (compact_rows new_hash_from_str rows) [
        | none ↦ none
        | some compact ↦ store_rows_compact order addr compact (some b) ac
      ]

  -- The setting of one datum that the store methods share: in the current item, or in a new one.
  unfoldable pub store_datum :
      VisitOrder
      → Address
      → BlockId
      → (AddressCacheItem Balance Utxo Charts → AddressCacheItem Balance Utxo Charts)
      → AddressCache Balance Utxo Charts
      → Stored Balance Utxo Charts
  store_datum order addr b f ac = elim (current_item addr b ac.a) [
    | none ↦ add_cache_item order addr (f (item_at b)) ac
    | some aci ↦ some (record ac { a = write_item addr f ac.a }, true)
  ]

  -- The field of a chart.
  unfoldable pub set_chart :
      HistoryChart
      → ℕ
      → Charts
      → AddressCacheItem Balance Utxo Charts
      → AddressCacheItem Balance Utxo Charts
  set_chart txs_type g cd d = record d {
    history = record (d.history) { type_by_interval = set_at g cd d.history.type_by_interval };
  }
  set_chart amount_flow g cd d = record d {
    history = record (d.history) {
      amt_flow_by_interval = set_at g cd d.history.amt_flow_by_interval;
    };
  }
  set_chart chart_unknown g cd d = d

  unfoldable pub and_known : Bool → Stored Balance Utxo Charts → Stored Balance Utxo Charts
  and_known known none = none
  and_known known (some (ac, ok)) = some (ac, ok && known)

  -- `StoreHistoryChart`, where `empty_charts` is the zero `ChartsData`. The item is put into the map
  -- before the chart is set through its pointer.
  unfoldable pub store_history_chart :
      Charts
      → VisitOrder
      → Address
      → HistoryChart
      → ℕ
      → Option Charts
      → Option BlockId
      → AddressCache Balance Utxo Charts
      → Stored Balance Utxo Charts
  store_history_chart empty_charts order addr chart g cd none ac = some (ac, false)
  store_history_chart empty_charts order addr chart g cd (some b) ac =
      if ltb ac.cap 1 || ltb ac.cap_addr 1
      then some (ac, false)
      else if leb num_intervals g
      then some (ac, false)
      else let data_set : Charts = elim cd [ none ↦ empty_charts | some x ↦ x ] in
        and_known (is_known chart) (store_datum order addr b (set_chart chart g data_set) ac)

  -- `StoreBalance`, where `empty_balance` is the balance with an address only.
  unfoldable pub store_balance :
      (Address → Balance)
      → VisitOrder
      → Address
      → Option Balance
      → Option BlockId
      → AddressCache Balance Utxo Charts
      → Stored Balance Utxo Charts
  store_balance empty_balance order addr balance none ac = some (ac, false)
  store_balance empty_balance order addr balance (some b) ac =
      if ltb ac.cap 1 || ltb ac.cap_addr 1
      then some (ac, false)
      else let bal : Balance = elim balance [ none ↦ empty_balance addr | some x ↦ x ] in
        store_datum order addr b (λ x. record x { balance = some bal }) ac

  unfoldable pub store_utxos :
      VisitOrder
      → Address
      → Slice Utxo
      → Option BlockId
      → AddressCache Balance Utxo Charts
      → Stored Balance Utxo Charts
  store_utxos order addr utxos none ac = some (ac, false)
  store_utxos order addr utxos (some b) ac =
      if ltb ac.cap 1 || ltb ac.cap_addr 1
      then some (ac, false)
      else if ltb ac.max_utxos_per_addr (slice_length utxos) && not (addr == ac.project_address)
      then some (ac, false)
      else let us : List Utxo = elim utxos [ none ↦ [] | some xs ↦ xs ] in
        store_datum order addr b (λ x. record x { utxos = some us }) ac

  unfoldable pub clear_utxos :
      Address → AddressCache Balance Utxo Charts → AddressCache Balance Utxo Charts
  clear_utxos addr ac = record ac { a = write_item addr (λ x. record x { utxos = none }) ac.a }

  unfoldable pub clear_rows :
      Address → AddressCache Balance Utxo Charts → AddressCache Balance Utxo Charts
  clear_rows addr ac = record ac { a = write_item addr (λ x. record x { rows = none }) ac.a }

  unfoldable pub clear_all : AddressCache Balance Utxo Charts → AddressCache Balance Utxo Charts × ℕ
  clear_all ac = (record ac { a = [] }, length ac.a)

  unfoldable pub clear_each : List Address → Items Balance Utxo Charts → Items Balance Utxo Charts
  clear_each [] d = d
  clear_each (k ∷ ks) d = clear_each ks (del k d)

  -- `Clear`; nil clears everything.
  unfoldable pub clear :
      Slice Address → AddressCache Balance Utxo Charts → AddressCache Balance Utxo Charts × ℕ
  clear none ac = clear_all ac
  clear (some addrs) ac = (record ac { a = clear_each addrs ac.a }, length addrs)
