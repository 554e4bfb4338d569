-- ===== src/CacheItem/Views.antt =====
-- The rows that `Transactions` of db/cache/addresscache.go returns are of the view's type.
use hdfdata.AddressRows.{
  AddressRowCompact, AddrTxnViewType, is_merged, all, credit, debit, merged, merged_credit,
  merged_debit, unspent, unknown,
}
use hdfdata.Base.{
  ◌≡◌, refl, inl, inr, Bool, true, false, some, List, arith, ℤ, pos, pos_part, ltb_ℤ, ◌||◌,
  Option-cases, Bool-cases, ℕ, ◌==◌, leb, length,
}
use mathlib.Core.Option
use hdfdata.CacheItem.{
  BlockId, AddressCacheItem, AddressRowSlice, compact_slice, merged_slice, no_rows, view_rows,
  cached_transactions, transactions, block_id,
}

abbrev pub is_merged_slice : AddressRowSlice → Bool
is_merged_slice (compact_slice rs) = false
is_merged_slice (merged_slice rs) = true

no_rows-type : (is_m missing : Bool) → is_merged_slice (no_rows is_m missing) ≡ is_m
unfolding no_rows
no_rows-type true true = refl
no_rows-type true false = refl
no_rows-type false true = refl
no_rows-type false false = refl

view_rows-type :
    (rs : List AddressRowCompact) (n offset : ℕ) (view : AddrTxnViewType) (is_m : Bool)
    → is_merged view ≡ some is_m
    → (out : AddressRowSlice) × (view_rows rs n offset view ≡ some out)
      × (is_merged_slice out ≡ is_m)
unfolding view_rows is_merged
view_rows-type rs n offset all is_m e = (_, refl, ground arith)
view_rows-type rs n offset credit is_m e = (_, refl, ground arith)
view_rows-type rs n offset debit is_m e = (_, refl, ground arith)
view_rows-type rs n offset merged is_m e = (_, refl, ground arith)
view_rows-type rs n offset merged_credit is_m e = (_, refl, ground arith)
view_rows-type rs n offset merged_debit is_m e = (_, refl, ground arith)
view_rows-type rs n offset unspent is_m e = (_, refl, ground arith)
view_rows-type rs n offset unknown is_m e = absurd (ground arith)

cached_transactions-type :
    (rs : List AddressRowCompact) (n offset : ℕ) (view : AddrTxnViewType) (is_m : Bool)
    (b : BlockId)
    → is_merged view ≡ some is_m
    → (out : AddressRowSlice) × (cached_transactions rs n offset view is_m b ≡ some (out, some b))
      × (is_merged_slice out ≡ is_m)
unfolding cached_transactions
cached_transactions-type rs n offset view is_m b e =
    elim (Bool-cases ((n == 0) || (length rs == 0) || leb (length rs) offset)) [
      | inl t ↦ (no_rows is_m false, rw (cached_transactions, t) refl, no_rows-type is_m false)
      | inr f ↦
          let (out, found, type) = view_rows-type rs n offset view is_m e in
          (out, rw (cached_transactions, f, found) refl, type)
    ]

module _ {Balance Utxo Charts : Type 0} where
  -- `Transactions` with a count and an offset that are not negative, and a view that is known, returns
  -- no error and rows of the view's type, merged or compact; and it names the item's block exactly
  -- when the item has rows.
  pub transactions-type :
      (n offset : ℤ) (view : AddrTxnViewType) (is_m : Bool)
      (d : AddressCacheItem Balance Utxo Charts)
      → (ltb_ℤ offset (pos 0) || ltb_ℤ n (pos 0)) ≡ false
      → is_merged view ≡ some is_m
      → (out : AddressRowSlice) × (transactions n offset view d
          ≡ some (out, Option.map (λ rs. block_id d) d.rows))
        × (is_merged_slice out ≡ is_m)
  unfolding transactions
  transactions-type n offset view is_m d sign e = elim (Option-cases d.rows) [
    | inl missing ↦
        (no_rows is_m true, rw (transactions, sign, e, missing) refl, no_rows-type is_m true)
    | inr (rs, there) ↦
        let (out, found, type) =
          cached_transactions-type rs (pos_part n) (pos_part offset) view is_m (block_id d) e in
        (out, ground (arith, sign, e, there, found), type)
  ]
