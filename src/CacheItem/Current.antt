-- ===== src/CacheItem/Current.antt =====
-- An `AddressCacheItem` of db/cache/addresscache.go never mixes the data of two blocks.
use hdfdata.AddressRows.{Hash, Slice, AddressRowCompact}
use hdfdata.Base.{
  ◌≡◌, refl, sym, inl, inr, false, Option, none, List, [], ◌∷◌, arith, ◌==◌, if◌then◌else◌,
  Bool-cases, ==_iff, ==_refl,
}
use hdfdata.CacheItem.{
  BlockId, AddressCacheItem, new_item, set_block, set_rows, set_utxos, set_balance,
}

-- A call of one of the setters.
pub data SetCall (Balance Utxo : Type 0) : Type 0 where
  rows_set : BlockId → Slice AddressRowCompact → SetCall Balance Utxo
  utxos_set : BlockId → Slice Utxo → SetCall Balance Utxo
  balance_set : BlockId → Option Balance → SetCall Balance Utxo

module _ {Balance Utxo Charts : Type 0} where
  unfoldable pub set_call :
      SetCall Balance Utxo
      → AddressCacheItem Balance Utxo Charts
      → AddressCacheItem Balance Utxo Charts
  set_call (rows_set b rs) d = set_rows b rs d
  set_call (utxos_set b us) d = set_utxos b us d
  set_call (balance_set b x) d = set_balance b x d

  -- The item after a sequence of calls on a new one, the newest call first.
  unfoldable pub item_after : List (SetCall Balance Utxo) → AddressCacheItem Balance Utxo Charts
  item_after [] = new_item
  item_after (c ∷ older) = set_call c (item_after older)

module _ {Balance Utxo : Type 0} where
  abbrev pub call_block : SetCall Balance Utxo → BlockId
  call_block (rows_set b rs) = b
  call_block (utxos_set b us) = b
  call_block (balance_set b x) = b

  -- The hash of the block of the newest call, the zero hash without one.
  abbrev pub newest_hash : List (SetCall Balance Utxo) → Hash
  newest_hash [] = 0
  newest_hash (c ∷ older) = (call_block c).hash

  -- What the newest calls, as long as they are for the block of the hash, have set last.
  abbrev pub last_rows : Hash → List (SetCall Balance Utxo) → Slice AddressRowCompact
  last_rows h [] = none
  last_rows h (rows_set b rs ∷ older) = if b.hash == h then rs else none
  last_rows h (utxos_set b us ∷ older) = if b.hash == h then last_rows h older else none
  last_rows h (balance_set b x ∷ older) = if b.hash == h then last_rows h older else none

  abbrev pub last_utxos : Hash → List (SetCall Balance Utxo) → Slice Utxo
  last_utxos h [] = none
  last_utxos h (rows_set b rs ∷ older) = if b.hash == h then last_utxos h older else none
  last_utxos h (utxos_set b us ∷ older) = if b.hash == h then us else none
  last_utxos h (balance_set b x ∷ older) = if b.hash == h then last_utxos h older else none

  abbrev pub last_balance : Hash → List (SetCall Balance Utxo) → Option Balance
  last_balance h [] = none
  last_balance h (rows_set b rs ∷ older) = if b.hash == h then last_balance h older else none
  last_balance h (utxos_set b us ∷ older) = if b.hash == h then last_balance h older else none
  last_balance h (balance_set b x ∷ older) = if b.hash == h then x else none

module _ {Balance Utxo : Type 0} (Charts : Type 0) where
  hash-item_after :
      (cs : List (SetCall Balance Utxo)) → (item_after {Charts = Charts} cs).hash ≡ newest_hash cs
  unfolding item_after set_call new_item set_rows set_utxos set_balance set_block
  hash-item_after [] = refl
  hash-item_after (rows_set b x ∷ older) =
      ground (arith, ==_iff b.hash (item_after {Charts = Charts} older).hash)
  hash-item_after (utxos_set b x ∷ older) =
      ground (arith, ==_iff b.hash (item_after {Charts = Charts} older).hash)
  hash-item_after (balance_set b x ∷ older) =
      ground (arith, ==_iff b.hash (item_after {Charts = Charts} older).hash)

  last_rows_other :
      (h : Hash) (cs : List (SetCall Balance Utxo))
      → (newest_hash cs == h) ≡ false
      → last_rows h cs ≡ none
  last_rows_other h [] f = refl
  last_rows_other h (rows_set b x ∷ older) f = rw f refl
  last_rows_other h (utxos_set b x ∷ older) f = rw f refl
  last_rows_other h (balance_set b x ∷ older) f = rw f refl

  rows-set_block :
      (b : BlockId) (cs : List (SetCall Balance Utxo))
      → (item_after {Charts = Charts} cs).rows ≡ last_rows (newest_hash cs) cs
      → (set_block b (item_after {Charts = Charts} cs)).rows ≡ last_rows b.hash cs
  unfolding set_block
  rows-set_block b cs e = elim (Bool-cases (b.hash == newest_hash cs)) [
    | inl t ↦ rw (hash-item_after cs, set_block, t, (==_iff b.hash (newest_hash cs)).0 t) e
    | inr f ↦
        rw (hash-item_after cs, set_block, f) (sym (last_rows_other b.hash cs (ground (arith, f))))
  ]

  rows-item_after :
      (cs : List (SetCall Balance Utxo))
      → (item_after {Charts = Charts} cs).rows ≡ last_rows (newest_hash cs) cs
  unfolding item_after set_call new_item set_rows set_utxos set_balance
  rows-item_after [] = refl
  rows-item_after (rows_set b x ∷ older) = rw (==_refl b.hash) refl
  rows-item_after (utxos_set b x ∷ older) =
      rw (==_refl b.hash) (rows-set_block b older (rows-item_after older))
  rows-item_after (balance_set b x ∷ older) =
      rw (==_refl b.hash) (rows-set_block b older (rows-item_after older))

  last_utxos_other :
      (h : Hash) (cs : List (SetCall Balance Utxo))
      → (newest_hash cs == h) ≡ false
      → last_utxos h cs ≡ none
  last_utxos_other h [] f = refl
  last_utxos_other h (rows_set b x ∷ older) f = rw f refl
  last_utxos_other h (utxos_set b x ∷ older) f = rw f refl
  last_utxos_other h (balance_set b x ∷ older) f = rw f refl

  utxos-set_block :
      (b : BlockId) (cs : List (SetCall Balance Utxo))
      → (item_after {Charts = Charts} cs).utxos ≡ last_utxos (newest_hash cs) cs
      → (set_block b (item_after {Charts = Charts} cs)).utxos ≡ last_utxos b.hash cs
  unfolding set_block
  utxos-set_block b cs e = elim (Bool-cases (b.hash == newest_hash cs)) [
    | inl t ↦ rw (hash-item_after cs, set_block, t, (==_iff b.hash (newest_hash cs)).0 t) e
    | inr f ↦
        rw (hash-item_after cs, set_block, f) (sym (last_utxos_other b.hash cs (ground (arith, f))))
  ]

  utxos-item_after :
      (cs : List (SetCall Balance Utxo))
      → (item_after {Charts = Charts} cs).utxos ≡ last_utxos (newest_hash cs) cs
  unfolding item_after set_call new_item set_rows set_utxos set_balance
  utxos-item_after [] = refl
  utxos-item_after (rows_set b x ∷ older) =
      rw (==_refl b.hash) (utxos-set_block b older (utxos-item_after older))
  utxos-item_after (utxos_set b x ∷ older) = rw (==_refl b.hash) refl
  utxos-item_after (balance_set b x ∷ older) =
      rw (==_refl b.hash) (utxos-set_block b older (utxos-item_after older))

  last_balance_other :
      (h : Hash) (cs : List (SetCall Balance Utxo))
      → (newest_hash cs == h) ≡ false
      → last_balance h cs ≡ none
  last_balance_other h [] f = refl
  last_balance_other h (rows_set b x ∷ older) f = rw f refl
  last_balance_other h (utxos_set b x ∷ older) f = rw f refl
  last_balance_other h (balance_set b x ∷ older) f = rw f refl

  balance-set_block :
      (b : BlockId) (cs : List (SetCall Balance Utxo))
      → (item_after {Charts = Charts} cs).balance ≡ last_balance (newest_hash cs) cs
      → (set_block b (item_after {Charts = Charts} cs)).balance ≡ last_balance b.hash cs
  unfolding set_block
  balance-set_block b cs e = elim (Bool-cases (b.hash == newest_hash cs)) [
    | inl t ↦ rw (hash-item_after cs, set_block, t, (==_iff b.hash (newest_hash cs)).0 t) e
    | inr f ↦
        rw (hash-item_after cs, set_block, f)
          (sym (last_balance_other b.hash cs (ground (arith, f))))
  ]

  balance-item_after :
      (cs : List (SetCall Balance Utxo))
      → (item_after {Charts = Charts} cs).balance ≡ last_balance (newest_hash cs) cs
  unfolding item_after set_call new_item set_rows set_utxos set_balance
  balance-item_after [] = refl
  balance-item_after (rows_set b x ∷ older) =
      rw (==_refl b.hash) (balance-set_block b older (balance-item_after older))
  balance-item_after (utxos_set b x ∷ older) =
      rw (==_refl b.hash) (balance-set_block b older (balance-item_after older))
  balance-item_after (balance_set b x ∷ older) = rw (==_refl b.hash) refl

  -- After any calls of the setters, newest first, an item returns as its rows, its unspent outputs and
  -- its balance what was set last for the block of the newest call since the calls have been for that
  -- block, and it names that block's hash: data of an earlier block is never returned.
  pub item_after-Current :
      (cs : List (SetCall Balance Utxo))
      → ((item_after {Charts = Charts} cs).hash ≡ newest_hash cs)
        × ((item_after {Charts = Charts} cs).rows ≡ last_rows (newest_hash cs) cs)
        × ((item_after {Charts = Charts} cs).utxos ≡ last_utxos (newest_hash cs) cs)
        × ((item_after {Charts = Charts} cs).balance ≡ last_balance (newest_hash cs) cs)
  item_after-Current cs =
      (hash-item_after cs, rows-item_after cs, utxos-item_after cs, balance-item_after cs)
