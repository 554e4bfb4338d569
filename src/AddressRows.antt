-- ===== src/AddressRows.antt =====
-- db/dbtypes/types.go: the rows of an address's transaction history, and the functions that count
-- them and cut a page of them. A hash is the number that its bytes spell, and 0 is the unset hash;
-- a text is the list of its bytes; the time of a compact or merged row is its Unix seconds. A Go slice is `none` when it is nil.
-- Counts and offsets are not negative: `SliceAddressRows` and `Transactions` refuse such arguments.
use hdfdata.Base.{
  ℕ, zero, suc, ◌+◌, ◌-◌, Bool, true, false, not, ◌&&◌, Option, none, some, List, [], ◌∷◌, ◌++◌, ℤ,
  ltb, leb, ◌==◌, if◌then◌else◌, length, take, drop,
}
pub mod Cached
pub mod Window
pub mod Paging
pub mod Merging
pub mod Merged
pub mod Hashes
pub mod Range
pub mod Stored
pub mod Conversion
mod Tests

abbrev pub Text : Type 0
Text = List ℕ

abbrev pub Hash : Type 0
Hash = ℕ

abbrev pub Slice : Type 0 → Type 0
Slice A = Option (List A)

-- A `time.Time`: an instant, as Unix seconds and the nanoseconds after them.
pub record Time : Type 0 where
  pub seconds : ℤ
  pub nanoseconds : ℕ

-- A time whose zone is UTC, which its instant does not show.
pub record TimeDef : Type 0 where
  pub t : Time

-- `TimeDef.UNIX`
unfoldable pub unix : TimeDef → ℤ
unix d = d.t.seconds

unfoldable pub new_time_def : Time → TimeDef
new_time_def time = record { t = time }

-- `NewTimeDefFromUNIX`
unfoldable pub new_time_def_from_unix : ℤ → TimeDef
new_time_def_from_unix seconds_since =
    new_time_def (record { seconds = seconds_since; nanoseconds = 0 })

pub record AddressRow : Type 0 where
  pub address : Text
  pub valid_main_chain : Bool
  pub matching_tx_hash : Text
  pub is_funding : Bool
  pub tx_block_time : TimeDef
  pub tx_hash : Text
  pub tx_vin_vout_index : ℕ
  pub value : ℕ
  pub vin_vout_db_id : ℕ
  pub merged_count : ℕ
  pub tx_type : ℤ
  pub atoms_credit : ℕ
  pub atoms_debit : ℕ

pub record AddressRowCompact : Type 0 where
  pub address : Text
  pub tx_block_time : ℤ
  pub matching_tx_hash : Hash
  pub tx_hash : Hash
  pub tx_vin_vout_index : ℕ
  pub tx_type : ℤ
  pub valid_main_chain : Bool
  pub is_funding : Bool
  pub value : ℕ

pub record AddressRowMerged : Type 0 where
  pub address : Text
  pub tx_block_time : ℤ
  pub tx_hash : Hash
  pub atoms_credit : ℕ
  pub atoms_debit : ℕ
  pub merged_count : ℕ
  pub tx_type : ℤ
  pub valid_main_chain : Bool

-- `AddressRowMerged.IsFunding`
abbrev pub is_net_funding : AddressRowMerged → Bool
is_net_funding r = ltb r.atoms_debit r.atoms_credit

-- `AddressRowMerged.Value`
pub net_value : AddressRowMerged → ℕ
net_value r =
    if ltb r.atoms_debit r.atoms_credit
    then r.atoms_credit - r.atoms_debit
    else r.atoms_debit - r.atoms_credit

pub data AddrTxnViewType : Type 0 where
  all credit debit merged_debit merged_credit merged unspent unknown : AddrTxnViewType

-- `AddrTxnViewType.IsMerged`, `none` for its error.
unfoldable pub is_merged : AddrTxnViewType → Option Bool
is_merged all = some false
is_merged credit = some false
is_merged debit = some false
is_merged unspent = some false
is_merged merged = some true
is_merged merged_credit = some true
is_merged merged_debit = some true
is_merged unknown = none

is_empty : Text → Bool
is_empty [] = true
is_empty (_ ∷ _) = false

-- A row that is a credit and is not matched by a spending input.
pub is_unspent : AddressRow → Bool
unfolding is_empty
is_unspent r = r.is_funding && is_empty r.matching_tx_hash

module _ {A : Type 0} where
  -- The counting loops.
  pub count_rows : (A → Bool) → List A → ℕ
  count_rows p [] = 0
  count_rows p (r ∷ rows) = let n = count_rows p rows in if p r then n + 1 else n

  -- The selecting loops: rows that fail the test are passed over, then `offset` rows are skipped,
  -- and the loop breaks when the output has `n` rows.
  pub page_loop : (A → Bool) → ℕ → ℕ → ℕ → List A → List A → List A
  page_loop p n offset skipped out [] = out
  page_loop p n offset skipped out (r ∷ rows) =
      let passed = page_loop p n offset skipped out rows in
      let skip = page_loop p n offset (skipped + 1) out rows in
      let more = page_loop p n offset skipped (out ++ r ∷ []) rows in
      if not (p r)
      then passed
      else if ltb skipped offset
      then skip
      else if length (out ++ r ∷ []) == n
      then out ++ r ∷ []
      else more

  -- A page of the rows that pass `kept`, at most as many as pass `counted`.
  pub page_rows : (A → Bool) → (A → Bool) → Slice A → ℕ → ℕ → Slice A
  page_rows counted kept none n offset = none
  page_rows counted kept (some rows) n offset =
      let num = count_rows counted rows in
      if leb (length rows) offset
      then some []
      else if leb num offset
      then none
      else some (page_loop kept (if ltb num n then num else n) offset 0 [] rows)

  -- A page of all rows: `rows[offset:end]`.
  pub page_all : Slice A → ℕ → ℕ → Slice A
  page_all none n offset = none
  page_all (some rows) n offset =
      let end = if ltb (length rows) (offset + n) then length rows else offset + n in
      if leb (length rows) offset
      then some []
      else if ltb offset end
      then some (take (end - offset) (drop offset rows))
      else some []

pub count_credit_debit_rows : List AddressRow → ℕ × ℕ
count_credit_debit_rows rows =
    (count_rows (λ r. r.is_funding) rows, count_rows (λ r. not r.is_funding) rows)

pub count_unspent_credit_rows : List AddressRow → ℕ
count_unspent_credit_rows rows = count_rows is_unspent rows

pub slice_address_rows_all : Slice AddressRow → ℕ → ℕ → Slice AddressRow
slice_address_rows_all = page_all

pub slice_address_credit_rows : Slice AddressRow → ℕ → ℕ → Slice AddressRow
slice_address_credit_rows = page_rows (λ r. r.is_funding) (λ r. r.is_funding)

-- The rows are counted by one test and selected by another.
pub slice_address_unspent_credit_rows : Slice AddressRow → ℕ → ℕ → Slice AddressRow
slice_address_unspent_credit_rows = page_rows is_unspent (λ r. r.is_funding)

pub slice_address_debit_rows : Slice AddressRow → ℕ → ℕ → Slice AddressRow
slice_address_debit_rows = page_rows (λ r. not r.is_funding) (λ r. not r.is_funding)
