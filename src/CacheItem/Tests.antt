-- ===== src/CacheItem/Tests.antt =====
-- An item of db/cache/addresscache.go over two blocks, and its theorem there.
use mathlib.Core.Option
use hdfdata.AddressRows.{is_merged, merged_credit}
use hdfdata.CacheItem.Views.{is_merged_slice, transactions-type}
use hdfdata.Base.{ℕ, ◌≡◌, refl, none, some, true, List, [], ◌∷◌, pos, negsuc}
use hdfdata.CacheItem.Current.{
  SetCall, rows_set, balance_set, set_call, item_after, newest_hash, last_rows, last_utxos,
  last_balance, item_after-Current,
}
use hdfdata.CacheItem.{
  BlockId, new_item, clear_history, block_id, set_block, set_rows, set_utxos, set_balance,
  with_block, get_rows, get_balance, num_rows, transactions, AddressRowSlice,
}

program : Unit {0}
unfolding set_call item_after new_item clear_history block_id set_block set_rows set_utxos
    set_balance with_block get_rows get_balance num_rows
program = tt

abbrev block_one : BlockId
block_one = record { hash = 11; height = pos 1 }

abbrev block_two : BlockId
block_two = record { hash = 12; height = pos 2 }

-- Rows and a balance at the first block, then a balance at the second; the newest call first.
abbrev history : List (SetCall ℕ ℕ)
history =
    balance_set block_two (some 7)
    ∷ balance_set block_one (some 5)
    ∷ rows_set block_one (some [])
    ∷ []

second_block :
    (get_balance (item_after {Charts = ℕ} history) ≡ some (7, block_two))
    × (get_rows (item_after {Charts = ℕ} history) ≡ none)
    × (num_rows (item_after {Charts = ℕ} history) ≡ (negsuc 0, none))
unfolding program
second_block = (refl, refl, refl)

item_after-Current_example :
    ((item_after {Charts = ℕ} history).hash ≡ newest_hash history)
    × ((item_after {Charts = ℕ} history).rows ≡ last_rows (newest_hash history) history)
    × ((item_after {Charts = ℕ} history).utxos ≡ last_utxos (newest_hash history) history)
    × ((item_after {Charts = ℕ} history).balance ≡ last_balance (newest_hash history) history)
item_after-Current_example = item_after-Current ℕ history

known : is_merged merged_credit ≡ some true
unfolding is_merged
known = refl

transactions-type_example :
    (out : AddressRowSlice) × (transactions
        (pos 20)
        (pos 0)
        merged_credit
        (item_after {Charts = ℕ} history)
      ≡ some (
        out,
        Option.map
            (λ rs. block_id (item_after {Charts = ℕ} history))
            (item_after {Charts = ℕ} history).rows,
      ))
    × (is_merged_slice out ≡ true)
transactions-type_example =
    transactions-type (pos 20) (pos 0) merged_credit true (item_after {Charts = ℕ} history) refl
      known
