-- ===== src/CacheItem.antt =====
-- db/cache/addresscache.go: `AddressCacheItem`, what the cache keeps for one address at one block.
-- Each exported method holds the item's mutex and is one step. The types of a balance, of an unspent
-- output and of a chart's data are parameters: the item stores them and returns them. A hash is a
-- number, 0 the zero hash; a Go pointer or slice is `none` when it is nil.
use hdfdata.AddressRows.Cached.{
  address_rows, credit_address_rows, debit_address_rows, unspent_credit_address_rows,
}
use hdfdata.AddressRows.Merging.{merge_rows_compact_range}
use hdfdata.AddressRows.{
  Hash, Slice, AddressRowCompact, AddressRowMerged, AddrTxnViewType, is_merged, all, credit, debit,
  merged, merged_credit, merged_debit, unspent, unknown,
}
use hdfdata.Base.{
  ℕ, Bool, true, false, ◌||◌, Option, none, some, List, [], ◌∷◌, ℤ, pos, negsuc, pos_part, ltb_ℤ,
  leb, ◌==◌, if◌then◌else◌, length,
}
pub mod Current
pub mod Views
mod Tests

pub record BlockId : Type 0 where
  pub hash : Hash
  pub height : ℤ

-- `TxHistory`: for each of the two kinds of chart, the data at each grouping.
pub record TxHistory (Charts : Type 0) : Type 0 where
  pub type_by_interval : ℕ → Option Charts
  pub amt_flow_by_interval : ℕ → Option Charts

pub record AddressCacheItem (Balance Utxo Charts : Type 0) : Type 0 where
  pub balance : Option Balance
  pub rows : Slice AddressRowCompact
  pub utxos : Slice Utxo
  pub history : TxHistory Charts
  pub height : ℤ
  pub hash : Hash

-- `dbtypes.NumIntervals`
abbrev pub num_intervals : ℕ
num_intervals = 5

pub data HistoryChart : Type 0 where
  txs_type amount_flow chart_unknown : HistoryChart

-- What `Transactions` returns as its interface value.
pub data AddressRowSlice : Type 0 where
  compact_slice : Slice AddressRowCompact → AddressRowSlice
  merged_slice : Slice AddressRowMerged → AddressRowSlice

-- The slice type of a view, as a constructor of `AddressRowSlice` over a slice that is empty or nil.
unfoldable pub no_rows : Bool → Bool → AddressRowSlice
no_rows true true = merged_slice none
no_rows true false = merged_slice (some [])
no_rows false true = compact_slice none
no_rows false false = compact_slice (some [])

-- The switch of `Transactions` on the view, for rows that are cached.
unfoldable pub view_rows : List AddressRowCompact → ℕ → ℕ → AddrTxnViewType → Option AddressRowSlice
view_rows rs n offset all = some (compact_slice (address_rows (some rs) n offset))
view_rows rs n offset credit = some (compact_slice (credit_address_rows (some rs) n offset))
view_rows rs n offset debit = some (compact_slice (debit_address_rows (some rs) n offset))
view_rows rs n offset merged = some (merged_slice (merge_rows_compact_range rs n offset merged))
view_rows rs n offset merged_credit =
    some (merged_slice (merge_rows_compact_range rs n offset merged_credit))
view_rows rs n offset merged_debit =
    some (merged_slice (merge_rows_compact_range rs n offset merged_debit))
view_rows rs n offset unspent =
    some (compact_slice (unspent_credit_address_rows (some rs) n offset))
view_rows rs n offset unknown = none

unfoldable pub cached_transactions :
    List AddressRowCompact
    → ℕ
    → ℕ
    → AddrTxnViewType
    → Bool
    → BlockId
    → Option (AddressRowSlice × Option BlockId)
cached_transactions rs n offset view is_m b =
    if (n == 0) || (length rs == 0) || leb (length rs) offset
    then some (no_rows is_m false, some b)
    else elim (view_rows rs n offset view) [ none ↦ none | some out ↦ some (out, some b) ]

unfoldable pub clear_history : {Charts : Type 0} → TxHistory Charts
clear_history = record { type_by_interval = λ g. none; amt_flow_by_interval = λ g. none }

module _ {Balance Utxo Charts : Type 0} where
  -- `&AddressCacheItem{}`
  unfoldable pub new_item : AddressCacheItem Balance Utxo Charts
  new_item = record {
    balance = none;
    rows = none;
    utxos = none;
    history = clear_history;
    height = pos 0;
    hash = 0;
  }

  unfoldable pub block_id : AddressCacheItem Balance Utxo Charts → BlockId
  block_id d = record { hash = d.hash; height = d.height }

  unfoldable pub set_block :
      BlockId → AddressCacheItem Balance Utxo Charts → AddressCacheItem Balance Utxo Charts
  set_block b d = if b.hash == d.hash then d else record {
    balance = none;
    rows = none;
    utxos = none;
    history = clear_history;
    height = b.height;
    hash = b.hash;
  }

  unfoldable pub set_rows :
      BlockId
      → Slice AddressRowCompact
      → AddressCacheItem Balance Utxo Charts
      → AddressCacheItem Balance Utxo Charts
  set_rows b rs d = record (set_block b d) { rows = rs }

  unfoldable pub set_utxos :
      BlockId
      → Slice Utxo
      → AddressCacheItem Balance Utxo Charts
      → AddressCacheItem Balance Utxo Charts
  set_utxos b us d = record (set_block b d) { utxos = us }

  unfoldable pub set_balance :
      BlockId
      → Option Balance
      → AddressCacheItem Balance Utxo Charts
      → AddressCacheItem Balance Utxo Charts
  set_balance b x d = record (set_block b d) { balance = x }

  -- A datum with the block that it is valid at; nil for both when it is not cached.
  unfoldable pub with_block :
      {A : Type 0} → Option A → AddressCacheItem Balance Utxo Charts → Option (A × BlockId)
  with_block none d = none
  with_block (some a) d = some (a, block_id d)

  unfoldable pub get_balance : AddressCacheItem Balance Utxo Charts → Option (Balance × BlockId)
  get_balance d = with_block d.balance d

  unfoldable pub get_utxos : AddressCacheItem Balance Utxo Charts → Option (List Utxo × BlockId)
  get_utxos d = with_block d.utxos d

  unfoldable pub get_rows :
      AddressCacheItem Balance Utxo Charts → Option (List AddressRowCompact × BlockId)
  get_rows d = with_block d.rows d

  -- The number of rows, -1 when they are not cached.
  unfoldable pub num_rows : AddressCacheItem Balance Utxo Charts → ℤ × Option BlockId
  num_rows d = elim d.rows [
    | none ↦ (negsuc 0, none)
    | some rs ↦ (pos (length rs), some (block_id d))
  ]

  unfoldable pub history_chart :
      HistoryChart → ℕ → AddressCacheItem Balance Utxo Charts → Option (Charts × BlockId)
  history_chart txs_type g d =
      if leb num_intervals g then none else with_block (d.history.type_by_interval g) d
  history_chart amount_flow g d =
      if leb num_intervals g then none else with_block (d.history.amt_flow_by_interval g) d
  history_chart chart_unknown g d = none

  -- `Transactions` of an item, `none` for its error.
  unfoldable pub transactions :
      ℤ
      → ℤ
      → AddrTxnViewType
      → AddressCacheItem Balance Utxo Charts
      → Option (AddressRowSlice × Option BlockId)
  transactions n offset view d =
      if ltb_ℤ offset (pos 0) || ltb_ℤ n (pos 0) then none else elim (is_merged view) [
        | none ↦ none
        | some is_m ↦ elim d.rows [
          | none ↦ some (no_rows is_m true, none)
          | some rs ↦ cached_transactions rs (pos_part n) (pos_part offset) view is_m (block_id d)
        ]
      ]
