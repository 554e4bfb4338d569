-- ===== src/AddressCache.antt =====
-- db/cache/addresscache.go: `AddressCache`, the map from addresses to items, with its limits on
-- addresses and rows. Every method holds the cache's mutex while it writes and is one step. An
-- address is only compared, and is the number that its bytes spell, 0 for the empty text. Capacities
-- and groupings are not negative. Go visits a map in any order: the order of each visit
-- is a parameter, which permutes the keys. `AddressBalance`, whose amounts are floats, is stored
-- and returned only, and is a parameter with the balance that has nothing but an address; so are the
-- types of an unspent output and of charts. Log messages and the reporter are left out.
use hdfdata.Base.{
  ℕ, zero, suc, ◌+◌, ◌/◌, Bool, true, false, not, ◌&&◌, ◌||◌, Option, none, some, List, [], ◌∷◌, ℤ,
  pos, negsuc, ltb, leb, ◌==◌, if◌then◌else◌, length, Dict, find, put, del, keys, sum_of, weight,
}
pub mod Purge
pub mod Methods
pub mod Visits
pub mod Purging
pub mod Clearing
pub mod Stores
pub mod Limits
pub mod Histories
pub mod Capacity
pub mod Lost
mod Tests
use Purge.{Address, VisitOrder, purge_addrs, purge_rows}
use hdfdata.AddressRows.Stored.{compact_rows}
use hdfdata.AddressRows.{Hash, Slice, Text, AddressRow, AddressRowCompact}
use hdfdata.CacheItem.{
  BlockId, TxHistory, AddressCacheItem, HistoryChart, txs_type, amount_flow, new_item,
  num_intervals,
}
pub mod Reads

pub record CacheCounts : Type 0 where
  pub hits : ℕ
  pub misses : ℕ

unfoldable pub hit : CacheCounts → CacheCounts
hit c = record c { hits = c.hits + 1 }

unfoldable pub miss : CacheCounts → CacheCounts
miss c = record c { misses = c.misses + 1 }

pub record CacheMetrics : Type 0 where
  pub row_metrics : CacheCounts
  pub utxo_metrics : CacheCounts
  pub balance_metrics : CacheCounts
  pub history_metrics : CacheCounts

pub record AddressCache (Balance Utxo Charts : Type 0) : Type 0 where
  pub a : Dict (AddressCacheItem Balance Utxo Charts)
  pub cap : ℕ
  pub cap_addr : ℕ
  pub max_utxos_per_addr : ℕ
  pub cache_metrics : CacheMetrics
  pub project_address : Address

-- `len` of a slice that may be nil.
abbrev pub slice_length : {A : Type 0} → Slice A → ℕ
slice_length none = 0
slice_length (some xs) = length xs

abbrev pub approx_txn_out_size : ℕ
approx_txn_out_size = 180

unfoldable pub no_counts : CacheCounts
no_counts = record { hits = 0; misses = 0 }

abbrev pub Items : Type 0 → Type 0 → Type 0 → Type 0
Items Balance Utxo Charts = Dict (AddressCacheItem Balance Utxo Charts)

-- How a store ends: the cache and whether it has stored, or `none` when a loop does not end.
abbrev pub Stored : Type 0 → Type 0 → Type 0 → Type 0
Stored Balance Utxo Charts = Option (AddressCache Balance Utxo Charts × Bool)

module _ {Balance Utxo Charts : Type 0} where
  abbrev pub rows_in : AddressCacheItem Balance Utxo Charts → ℕ
  rows_in d = slice_length d.rows

  abbrev pub utxos_in : AddressCacheItem Balance Utxo Charts → ℕ
  utxos_in d = slice_length d.utxos

  unfoldable pub new_address_cache : ℕ → ℕ → ℕ → AddressCache Balance Utxo Charts
  new_address_cache row_capacity address_capacity utxo_capacity_bytes = record {
    a = [];
    cap = row_capacity;
    cap_addr = address_capacity;
    max_utxos_per_addr =
        if ltb 0 address_capacity
        then utxo_capacity_bytes / approx_txn_out_size / address_capacity
        else 0;
    cache_metrics = record {
      row_metrics = no_counts;
      utxo_metrics = no_counts;
      balance_metrics = no_counts;
      history_metrics = no_counts;
    };
    project_address = 0;
  }

  -- `length`: the addresses, the rows and the unspent outputs.
  unfoldable pub cache_length : AddressCache Balance Utxo Charts → ℕ × ℕ × ℕ
  cache_length ac = (length ac.a, sum_of rows_in ac.a, sum_of utxos_in ac.a)

  -- The two loops one after the other.
  unfoldable pub purge_loops :
      VisitOrder → ℕ → ℕ → AddressCache Balance Utxo Charts → Option (Items Balance Utxo Charts)
  purge_loops order num_new already_stored ac =
      elim (purge_addrs rows_in order ac.project_address ac.cap_addr (suc (length ac.a)) ac.a) [
        | none ↦ none
        | some d ↦
            purge_rows rows_in order ac.project_address ac.cap num_new already_stored
              (suc (length d)) d
      ]

  -- `purgeRowsToFit` of `num_new` less `already_stored` rows: the items that are left, and whether
  -- there is space; `none` when a loop does not end.
  unfoldable pub purge_rows_to_fit :
      VisitOrder
      → ℕ
      → ℕ
      → AddressCache Balance Utxo Charts
      → Option (Items Balance Utxo Charts × Bool)
  purge_rows_to_fit order num_new already_stored ac =
      if ltb ac.cap 1 || ltb ac.cap_addr 1
      then some (ac.a, false)
      else elim (purge_loops order num_new already_stored ac) [
        | none ↦ none
        | some d ↦ some (
          d,
          leb (sum_of rows_in d + num_new) (ac.cap + already_stored) && ltb (length d) ac.cap_addr,
        )
      ]

  unfoldable pub add_cache_item :
      VisitOrder
      → Address
      → AddressCacheItem Balance Utxo Charts
      → AddressCache Balance Utxo Charts
      → Stored Balance Utxo Charts
  add_cache_item order addr aci ac =
      if ltb ac.cap 1 || ltb ac.cap_addr 1
      then some (ac, false)
      else elim (purge_rows_to_fit order (rows_in aci) (weight rows_in (find addr ac.a)) ac) [
        | none ↦ none
        | some (d, have_space) ↦
            some (record ac { a = if have_space then put addr aci d else d }, have_space)
      ]

  -- The write through the pointer to the item of an address, which has no effect on the map once the
  -- item is no longer in it.
  unfoldable pub write_item :
      Address
      → (AddressCacheItem Balance Utxo Charts → AddressCacheItem Balance Utxo Charts)
      → Items Balance Utxo Charts
      → Items Balance Utxo Charts
  write_item addr f d = elim (find addr d) [ none ↦ d | some aci ↦ put addr (f aci) d ]

  -- The item of an address if it is there and for the block.
  unfoldable pub current_item :
      Address → BlockId → Items Balance Utxo Charts → Option (AddressCacheItem Balance Utxo Charts)
  current_item addr b d = elim (find addr d) [
    | none ↦ none
    | some aci ↦ if aci.hash == b.hash then some aci else none
  ]

  -- A new item for a block.
  unfoldable pub item_at : BlockId → AddressCacheItem Balance Utxo Charts
  item_at b = record new_item { height = b.height; hash = b.hash }

  -- Whether `aci.rows` is set to as many rows.
  unfoldable pub same_rows : List AddressRowCompact → AddressCacheItem Balance Utxo Charts → Bool
  same_rows rows aci = elim aci.rows [ none ↦ false | some old ↦ length old == length rows ]

  unfoldable pub set_cache_item_rows :
      VisitOrder
      → Address
      → List AddressRowCompact
      → BlockId
      → AddressCache Balance Utxo Charts
      → Stored Balance Utxo Charts
  set_cache_item_rows order addr rows b ac =
      if ltb ac.cap 1 || ltb ac.cap_addr 1
      then some (ac, false)
      else elim (current_item addr b ac.a) [
        | none ↦ add_cache_item order addr (record (item_at b) { rows = some rows }) ac
        | some aci ↦
            if same_rows rows aci
            then some (ac, true)
            else elim (purge_rows_to_fit order (length rows) (rows_in aci) ac) [
              | none ↦ none
              | some (d, have_space) ↦ some (
                record ac {
                  a =
                      if have_space
                      then write_item addr (λ x. record x { rows = some rows }) d
                      else d;
                },
                have_space,
              )
            ]
      ]
