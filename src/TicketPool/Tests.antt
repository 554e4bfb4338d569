-- ===== src/TicketPool/Tests.antt =====
-- Runs of stakedb/ticketpool.go over a chain of three blocks, and its theorems there.
use Prim.Native.Nat.{min}
use hdfdata.Base.{◌+◌, ◌-◌, ◌≡◌, refl, ◌↔◌, Option, none, some, List, [], ◌∷◌, ◌++◌, arith, ℤ, pos}
use hdfdata.TicketPool.Growth.{append_store_failed, append_and_advance-ok, trim-ok}
use hdfdata.TicketPool.HashSet.{Hash, member, insert, delete, insert_all, delete_all, Distinct}
use hdfdata.TicketPool.Loading.{number_from, load_all_pool_diffs-number_from}
use hdfdata.TicketPool.Moves.{Moved}
use hdfdata.TicketPool.Replay.{live, Fits, IsChain, IsValid}
use hdfdata.TicketPool.Travel.{pool_at-live, retreat-advance}
use hdfdata.TicketPool.{
  PoolDiff, TicketPool, ok, err, store_failed, does_not_build, loaded, bad_height, apply_diff,
  max_cursor, advance, advance_by, retreat, retreat_by, advance_while, retreat_while, advance_to,
  retreat_to, advance_to_tip, pool_at, current_pool, append_diff, trim, trim_after, cut_last,
  split_last, append_and_store, append_and_advance, load_from, load_all_pool_diffs, new_ticket_pool,
}

program : Unit {0}
unfolding insert delete insert_all delete_all apply_diff max_cursor advance advance_by retreat
    retreat_by advance_while retreat_while advance_to retreat_to advance_to_tip pool_at current_pool
    append_diff trim trim_after cut_last split_last append_and_store append_and_advance load_from
    load_all_pool_diffs new_ticket_pool
program = tt

abbrev one : PoolDiff
one = record { ins = 11 ∷ 12 ∷ []; outs = [] }

abbrev two : PoolDiff
two = record { ins = 13 ∷ []; outs = 11 ∷ [] }

abbrev three : PoolDiff
three = record { ins = 14 ∷ []; outs = 13 ∷ 12 ∷ [] }

abbrev chain : List PoolDiff
chain = one ∷ two ∷ []

-- The pool at the genesis.
abbrev start : TicketPool
start = record { cursor = 0; tip = 2; diffs = chain; pool = [] }

-- The pool at its tip.
abbrev top : TicketPool
top = record { cursor = 2; tip = 2; diffs = chain; pool = 13 ∷ 12 ∷ [] }

-- A database that keeps what it is given, and one that always fails.
abbrev keep : PoolDiff → ℤ → List PoolDiff → Option (List PoolDiff)
keep d height db = some (d ∷ db)

abbrev broken : PoolDiff → ℤ → List PoolDiff → Option (List PoolDiff)
broken d height db = none

pool_at_two : pool_at (pos 2) start ≡ (top, ok (13 ∷ 12 ∷ []))
unfolding program
pool_at_two = refl

trim-top : trim top ≡ (record { cursor = 0; tip = 1; diffs = one ∷ []; pool = [] }, ok (1, two))
unfolding program
trim-top = refl

load_gap : load_all_pool_diffs ((1, some one) ∷ (3, some two) ∷ []) ≡ bad_height 3 1
unfolding program
load_gap = refl

one-Fits : Fits one (λ h. live [] h)
one-Fits = record {
  ins_distinct = (refl, (refl, tt));
  outs_distinct = tt;
  ins_new = λ h m. refl;
  outs_there = λ h m. absurd (ground arith);
}

two-Fits : Fits two (λ h. live (one ∷ []) h)
two-Fits = record {
  ins_distinct = (refl, tt);
  outs_distinct = (refl, tt);
  ins_new = λ h m. ground arith;
  outs_there = λ h m. ground arith;
}

three-Fits : Fits three (live chain)
three-Fits = record {
  ins_distinct = (refl, tt);
  outs_distinct = (refl, (refl, tt));
  ins_new = λ h m. ground arith;
  outs_there = λ h m. ground arith;
}

chain-IsChain : IsChain chain
chain-IsChain = (one-Fits, (two-Fits, tt))

start-IsValid : IsValid start
start-IsValid = record {
  tip_length = refl;
  cursor_le_tip = omega arith;
  pool_distinct = tt;
  pool_live = λ h. refl;
  chain = chain-IsChain;
}

top-IsValid : IsValid top
top-IsValid = record {
  tip_length = refl;
  cursor_le_tip = omega arith;
  pool_distinct = (refl, (refl, tt));
  pool_live = λ h. ground arith;
  chain = chain-IsChain;
}

pool_at-live_example :
    (tp' : TicketPool) × (tickets : List Hash) × (pool_at (pos 1) start ≡ (tp', ok tickets))
    × Moved start 1 tp'
    × Distinct tickets
    × ((h : Hash) → member h tickets ≡ live (one ∷ []) h)
pool_at-live_example = pool_at-live 1 start start-IsValid (omega arith)

retreat-advance_example :
    (tp1 : TicketPool) × (tp2 : TicketPool) × (advance start ≡ (tp1, ok tt))
    × (retreat tp1 ≡ (tp2, ok tt))
    × (tp2.cursor ≡ 0)
    × ((h : Hash) → member h tp2.pool ≡ member h [])
retreat-advance_example = retreat-advance start start-IsValid (omega arith)

append_store_failed_example :
    (tp' : TicketPool) × (append_and_store broken three (pos (2 + 1)) (top, [])
      ≡ ((tp', []), err store_failed))
    × (append_and_advance broken three (pos (2 + 1)) (top, []) ≡ ((tp', []), err store_failed))
    × (tp'.diffs ≡ chain ++ three ∷ [])
    × ((store' : PoolDiff → ℤ → List PoolDiff → Option (List PoolDiff)) (d' : PoolDiff)
          (db' : List PoolDiff)
        → (append_and_store store' d' (pos (2 + 1)) (tp', db') ≡ ((tp', db'), err does_not_build))
          × (append_and_advance store' d' (pos (2 + 1)) (tp', db')
              ≡ ((tp', db'), err does_not_build)))
append_store_failed_example = append_store_failed broken three top [] refl

append_and_advance-ok_example :
    (tp' : TicketPool) × (append_and_advance keep three (pos (2 + 1)) (top, [])
      ≡ ((tp', three ∷ []), ok tt))
    × IsValid tp'
    × (tp'.diffs ≡ chain ++ three ∷ [])
    × (tp'.cursor ≡ tp'.tip)
    × ((h : Hash) → member h tp'.pool ≡ live (chain ++ three ∷ []) h)
append_and_advance-ok_example =
    append_and_advance-ok keep three top [] (three ∷ []) top-IsValid refl three-Fits refl

trim-ok_example :
    (tp' : TicketPool) × (undo : PoolDiff) × (trim top ≡ (tp', ok (2 - 1, undo)))
    × IsValid tp'
    × (tp'.tip + 1 ≡ 2)
    × (tp'.diffs ++ undo ∷ [] ≡ chain)
    × (tp'.cursor ≡ min 2 (2 - 2))
trim-ok_example = trim-ok top top-IsValid (omega arith)

load_all_pool_diffs-number_from_example :
    (load_all_pool_diffs ((1, some one) ∷ (2, some two) ∷ []) ≡ loaded chain)
    ↔ ((1, some one) ∷ (2, some two) ∷ [] ≡ number_from 0 chain)
load_all_pool_diffs-number_from_example =
    load_all_pool_diffs-number_from ((1, some one) ∷ (2, some two) ∷ []) chain
