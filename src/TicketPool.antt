-- ===== src/TicketPool.antt =====
-- stakedb/ticketpool.go: the live ticket pool as a cursor over a chain of diffs. A ticket hash is
-- the number that its bytes spell; the Go map of hashes is a list that an insertion keeps without
-- repetition; `cursor`, `tip` and the lengths are never negative and are plain numbers, the heights
-- that callers give are integers. The mutex serialises the exported methods, so each is one step.
use hdfdata.Base.{
  ℕ, zero, suc, ◌+◌, ◌-◌, Bool, true, false, ◌||◌, Option, none, some, List, [], ◌∷◌, ◌++◌, ℤ, pos,
  negsuc, ltb_ℤ, eqb_ℤ, ltb, ◌==◌, if◌then◌else◌, length, get_elem?, take,
}
pub mod HashSet
pub mod Replay
pub mod Moves
pub mod Travel
pub mod Growth
pub mod Loading
mod Tests
use HashSet.{Hash, insert_all, delete_all}

pub record PoolDiff : Type 0 where
  pub ins : List Hash
  pub outs : List Hash

pub record TicketPool : Type 0 where
  pub cursor : ℕ
  pub tip : ℕ
  pub diffs : List PoolDiff
  pub pool : List Hash

pub data PoolError : Type 0 where
  cursor_at_tip cursor_at_genesis pool_size past_tip invalid_cursor not_connected : PoolError
  does_not_build store_failed : PoolError

-- How a call ends: a result, an error value, an index out of range, or a loop whose fuel ran out.
pub data Outcome {ℓ} (A : Type ℓ) : Type ℓ where
  ok : A → Outcome A
  err : PoolError → Outcome A
  panic diverged : Outcome A

-- Go on with the state and the result of a call that succeeded.
abbrev pub then_do {ℓ κ} :
    {A : Type ℓ} {B : Type κ}
    → TicketPool × Outcome A
    → (A → TicketPool → TicketPool × Outcome B)
    → TicketPool × Outcome B
then_do (tp, ok a) f = f a tp
then_do (tp, err e) f = (tp, err e)
then_do (tp, panic) f = (tp, panic)
then_do (tp, diverged) f = (tp, diverged)

-- `applyDiff`; what it logs when a size is not the one expected is left out.
pub apply_diff : List Hash → List Hash → List Hash → List Hash
apply_diff ins outs pool = delete_all outs (insert_all ins pool)

pub max_cursor : TicketPool → ℕ
max_cursor tp = if tp.tip == 0 then 0 else tp.tip - 1

-- The body of `advance` at the diff `d`. The expected size is a signed number in the source: its
-- test `len(pool) != init + in - out` has `out` on the other side here.
pub advance_by : PoolDiff → TicketPool → TicketPool × Outcome (Unit {0})
advance_by d tp =
    let pool' = apply_diff d.ins d.outs tp.pool in
    let tp' = record tp { cursor = tp.cursor + 1; pool = pool' } in
    if length pool' + length d.outs == length tp.pool + length d.ins
    then (tp', ok tt)
    else (tp', err pool_size)

pub advance : TicketPool → TicketPool × Outcome (Unit {0})
advance tp =
    if ltb (max_cursor tp) tp.cursor
    then (tp, err cursor_at_tip)
    else elim (get_elem? tp.diffs tp.cursor) [ none ↦ (tp, panic) | some d ↦ advance_by d tp ]

pub retreat_by : PoolDiff → TicketPool → TicketPool × Outcome (Unit {0})
retreat_by d tp =
    let pool' = apply_diff d.outs d.ins tp.pool in
    let tp' = record tp { cursor = tp.cursor - 1; pool = pool' } in
    if length pool' + length d.ins == length tp.pool + length d.outs
    then (tp', ok tt)
    else (tp', err pool_size)

pub retreat : TicketPool → TicketPool × Outcome (Unit {0})
retreat tp =
    if tp.cursor == 0
    then (tp, err cursor_at_genesis)
    else elim (get_elem? tp.diffs (tp.cursor - 1)) [ none ↦ (tp, panic) | some d ↦ retreat_by d tp ]

-- `for height > tp.cursor { advance }`
pub advance_while : ℕ → ℤ → TicketPool → TicketPool × Outcome (Unit {0})
advance_while zero height tp = (tp, diverged)
advance_while (suc fuel) height tp =
    let rest = then_do (advance tp) (λ _ tp'. advance_while fuel height tp') in
    if ltb_ℤ (pos tp.cursor) height then rest else (tp, ok tt)

-- `for tp.cursor > height { retreat }`
pub retreat_while : ℕ → ℤ → TicketPool → TicketPool × Outcome (Unit {0})
retreat_while zero height tp = (tp, diverged)
retreat_while (suc fuel) height tp =
    let rest = then_do (retreat tp) (λ _ tp'. retreat_while fuel height tp') in
    if ltb_ℤ height (pos tp.cursor) then rest else (tp, ok tt)

-- The rounds given to a loop that advances: no height above the tip is asked for.
abbrev pub advance_fuel : TicketPool → ℕ
advance_fuel tp = tp.tip + 1

-- The rounds given to a loop that retreats: the last of them may fail at the genesis.
abbrev pub retreat_fuel : TicketPool → ℕ
retreat_fuel tp = tp.cursor + 1

pub advance_to : ℤ → TicketPool → TicketPool × Outcome (Unit {0})
advance_to height tp =
    if ltb_ℤ (pos tp.tip) height
    then (tp, err past_tip)
    else advance_while (advance_fuel tp) height tp

pub retreat_to : ℤ → TicketPool → TicketPool × Outcome (Unit {0})
retreat_to height tp =
    if ltb_ℤ height (pos 0) || ltb_ℤ (pos tp.tip) height
    then (tp, err invalid_cursor)
    else retreat_while (retreat_fuel tp) height tp

-- `AdvanceToTip`: the cursor is returned beside the error.
pub advance_to_tip : TicketPool → TicketPool × Outcome ℕ
advance_to_tip tp = then_do (advance_to (pos tp.tip) tp) (λ _ tp'. (tp', ok tp'.cursor))

pub current_pool : TicketPool → List Hash × ℕ
current_pool tp = (tp.pool, tp.cursor)

-- `Pool`
pub pool_at : ℤ → TicketPool → TicketPool × Outcome (List Hash)
pool_at height tp =
    if ltb_ℤ (pos tp.tip) height
    then (tp, err not_connected)
    else then_do (advance_while (advance_fuel tp) height tp) (λ _ tp'.
      then_do (retreat_while (retreat_fuel tp') height tp')
        (λ _ tp''. (tp'', ok (current_pool tp'').0)))

-- The unexported `append`.
pub append_diff : PoolDiff → TicketPool → TicketPool
append_diff d tp = record tp { tip = tp.tip + 1; diffs = tp.diffs ++ d ∷ [] }

-- The last diff, and the diffs before it.
pub split_last : PoolDiff → List PoolDiff → List PoolDiff × PoolDiff
split_last d [] = ([], d)
split_last d (e ∷ ds) = let (front, last) = split_last e ds in (d ∷ front, last)

-- The cut that `trim` makes after the retreat.
pub cut_last : TicketPool → TicketPool × Outcome (ℕ × PoolDiff)
cut_last tp = elim tp.diffs [
  | [] ↦ (tp, panic)
  | d ∷ ds ↦ (record tp { diffs = (split_last d ds).0 }, ok (tp.tip, (split_last d ds).1))
]

-- `trim` logs an error of `retreatTo` and goes on; a panic there ends it.
pub trim_after : TicketPool × Outcome (Unit {0}) → TicketPool × Outcome (ℕ × PoolDiff)
trim_after (tp, ok _) = cut_last tp
trim_after (tp, err _) = cut_last tp
trim_after (tp, panic) = (tp, panic)
trim_after (tp, diverged) = (tp, diverged)

pub trim : TicketPool → TicketPool × Outcome (ℕ × PoolDiff)
trim tp =
    if (tp.tip == 0) || (length tp.diffs == 0)
    then (tp, ok (tp.tip, record { ins = []; outs = [] }))
    else let shorter = record tp { tip = tp.tip - 1 } in
      if ltb (max_cursor shorter) shorter.cursor
      then trim_after (retreat_to (pos (max_cursor shorter)) shorter)
      else cut_last shorter

-- The on-disk database is badger's: `store` is its transaction that writes one diff, `none` when it
-- fails.
module _ {ℓ} {Db : Type ℓ} (store : PoolDiff → ℤ → Db → Option Db) where
  -- `Append`, over the pool and its database.
  pub append_and_store : PoolDiff → ℤ → TicketPool × Db → (TicketPool × Db) × Outcome (Unit {0})
  append_and_store d height (tp, db) =
      if eqb_ℤ height (pos (tp.tip + 1))
      then elim (store d height db) [
        | none ↦ ((append_diff d tp, db), err store_failed)
        | some db' ↦ ((append_diff d tp, db'), ok tt)
      ]
      else ((tp, db), err does_not_build)

  -- `AppendAndAdvancePool`
  pub append_and_advance : PoolDiff → ℤ → TicketPool × Db → (TicketPool × Db) × Outcome (Unit {0})
  append_and_advance d height (tp, db) =
      if eqb_ℤ height (pos (tp.tip + 1))
      then elim (store d height db) [
        | none ↦ ((append_diff d tp, db), err store_failed)
        | some db' ↦ let (tp', o) = advance (append_diff d tp) in ((tp', db'), o)
      ]
      else ((tp, db), err does_not_build)

-- What the badger iterator gives for a key: its height, and the diff that the value decodes to.
abbrev pub Item : Type 0
Item = ℕ × Option PoolDiff

pub data Loaded : Type 0 where
  loaded : List PoolDiff → Loaded
  decode_failed : List PoolDiff → Loaded
  bad_height : ℕ → ℕ → Loaded

-- The loop of `LoadAllPoolDiffs` over the items in key order.
pub load_from : ℕ → List PoolDiff → List Item → Loaded
load_from last_height acc [] =
    if length acc == 0
    then loaded acc
    else if length acc == last_height
    then loaded acc
    else bad_height last_height (length acc)
load_from last_height acc ((height, none) ∷ items) = decode_failed acc
load_from last_height acc ((height, some d) ∷ items) =
    let rest = load_from height (acc ++ d ∷ []) items in
    if last_height + 1 == height then rest else bad_height height last_height

pub load_all_pool_diffs : List Item → Loaded
load_all_pool_diffs items = load_from 0 [] items

-- The end of `NewTicketPool`: no diff is applied yet.
pub new_ticket_pool : List PoolDiff → TicketPool
new_ticket_pool ds = record { cursor = 0; tip = length ds; diffs = ds; pool = [] }
