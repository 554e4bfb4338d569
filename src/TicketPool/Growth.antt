-- ===== src/TicketPool/Growth.antt =====
-- How the chain of stakedb/ticketpool.go grows and is cut: `Append`, `AppendAndAdvancePool`, `Trim`.
use Prim.Native.Nat.{min}
use hdfdata.Base.{
  ℕ, zero, suc, ◌+◌, ◌-◌, ◌≡◌, ◌≤◌, ◌<◌, refl, sym, ◌∙◌, ap, inl, inr, true, false, ◌||◌, Option,
  none, some, List, [], ◌∷◌, ◌++◌, arith, ℤ, pos, ltb, eqb_ℤ, ltb_ℤ, ◌==◌, length, length-append,
  take-append_le, take-length, Bool-cases,
}
use hdfdata.TicketPool.HashSet.{Hash, member}
use hdfdata.TicketPool.Moves.{Moved, advance-ok}
use hdfdata.TicketPool.Replay.{live, Fits, IsValid, IsChain-snoc, IsChain-front}
use hdfdata.TicketPool.Travel.{retreat_while-ok}
use hdfdata.TicketPool.{
  PoolDiff, TicketPool, Outcome, ok, err, panic, diverged, store_failed, does_not_build, then_do,
  retreat, retreat_by, retreat_while, retreat_to, append_diff, split_last, cut_last, trim_after,
  trim, max_cursor, append_and_store, append_and_advance,
}

append_diff-IsValid :
    (d : PoolDiff) (tp : TicketPool)
    → IsValid tp
    → Fits d (live tp.diffs)
    → IsValid (append_diff d tp)
unfolding append_diff
append_diff-IsValid d tp v fits = record {
  tip_length = omega (arith, v.tip_length, length-append tp.diffs (d ∷ []));
  cursor_le_tip = omega (arith, v.cursor_le_tip);
  pool_distinct = v.pool_distinct;
  pool_live = λ h. rw (
    v.pool_live h,
    take-append_le tp.cursor tp.diffs (d ∷ []) (omega (arith, v.cursor_le_tip, v.tip_length)),
  );
  chain = IsChain-snoc tp.diffs d v.chain fits;
}

eqb_self : (n : ℕ) → eqb_ℤ (pos n) (pos n) ≡ true
eqb_self n = ground arith

module _ {ℓ} {Db : Type ℓ} (store : PoolDiff → ℤ → Db → Option Db) where
  module _ (d : PoolDiff) (tp : TicketPool) (db : Db) where
    -- `Append` of a diff that fits a valid pool, at the height after the tip, when the database takes
    -- it, succeeds: the chain has the diff at its end, and the pool stays valid with its cursor and
    -- its tickets.
    pub append_and_store-ok :
        (db' : Db)
        → IsValid tp
        → Fits d (live tp.diffs)
        → store d (pos (tp.tip + 1)) db ≡ some db'
        → (tp' : TicketPool) × (append_and_store store d (pos (tp.tip + 1)) (tp, db)
            ≡ ((tp', db'), ok tt))
          × IsValid tp'
          × (tp'.diffs ≡ tp.diffs ++ d ∷ [])
          × (tp'.cursor ≡ tp.cursor)
          × (tp'.pool ≡ tp.pool)
    unfolding append_and_store append_diff
    append_and_store-ok db' v fits e = (
      append_diff d tp,
      rw (eqb_self (tp.tip + 1), e),
      append_diff-IsValid d tp v fits,
      refl,
      refl,
      refl,
    )

    -- When the database fails, both `Append` and `AppendAndAdvancePool` at the height after the tip
    -- return its error with the diff left in the chain: either call again, with any diff at the same
    -- height, is then refused, whatever the database has become and does.
    pub append_store_failed :
        store d (pos (tp.tip + 1)) db ≡ none
        → (tp' : TicketPool) × (append_and_store store d (pos (tp.tip + 1)) (tp, db)
            ≡ ((tp', db), err store_failed))
          × (append_and_advance store d (pos (tp.tip + 1)) (tp, db) ≡ ((tp', db), err store_failed))
          × (tp'.diffs ≡ tp.diffs ++ d ∷ [])
          × ((store' : PoolDiff → ℤ → Db → Option Db) (d' : PoolDiff) (db' : Db)
              → (append_and_store store' d' (pos (tp.tip + 1)) (tp', db')
                  ≡ ((tp', db'), err does_not_build))
                × (append_and_advance store' d' (pos (tp.tip + 1)) (tp', db')
                    ≡ ((tp', db'), err does_not_build)))
    unfolding append_and_store append_and_advance append_diff
    append_store_failed e =
        let again : eqb_ℤ (pos (tp.tip + 1)) (pos (tp.tip + 1 + 1)) ≡ false = ground arith in
        (
          append_diff d tp,
          rw (eqb_self (tp.tip + 1), e),
          rw (eqb_self (tp.tip + 1), e),
          refl,
          λ store' d' db'. (rw again, rw again),
        )

    -- `AppendAndAdvancePool` on a valid pool whose cursor is at the tip, with a diff that fits, when
    -- the database takes it: it succeeds, and the pool, valid, is at the new tip with exactly the
    -- tickets that are live there.
    pub append_and_advance-ok :
        (db' : Db)
        → IsValid tp
        → tp.cursor ≡ tp.tip
        → Fits d (live tp.diffs)
        → store d (pos (tp.tip + 1)) db ≡ some db'
        → (tp' : TicketPool) × (append_and_advance store d (pos (tp.tip + 1)) (tp, db)
            ≡ ((tp', db'), ok tt))
          × IsValid tp'
          × (tp'.diffs ≡ tp.diffs ++ d ∷ [])
          × (tp'.cursor ≡ tp'.tip)
          × ((h : Hash) → member h tp'.pool ≡ live (tp.diffs ++ d ∷ []) h)
    unfolding append_and_advance append_diff
    append_and_advance-ok db' v top fits e =
        let grown = append_diff-IsValid d tp v fits in
        let (tp', run, m) = advance-ok (append_diff d tp) grown (omega arith) in
        let end : tp'.cursor ≡ tp'.tip = m.cursor_at ∙ omega (arith, m.tip_kept) in
        let size : tp'.cursor ≡ length (tp.diffs ++ d ∷ []) = end ∙ m.tip_kept ∙ grown.tip_length in
        (
          tp',
          rw (eqb_self (tp.tip + 1), e, run),
          m.valid,
          m.diffs_kept,
          end,
          λ h. rw (m.valid.pool_live h, size, m.diffs_kept, take-length (tp.diffs ++ d ∷ [])),
        )

-- `split_last` parts a list at its end.
pub split_last-append :
    (d : PoolDiff) (ds : List PoolDiff) → (split_last d ds).0 ++ (split_last d ds).1 ∷ [] ≡ d ∷ ds
unfolding split_last
split_last-append d [] = refl
split_last-append d (e ∷ ds) = ap (◌∷◌ d) (split_last-append e ds)

-- A result with another tip in its state.
abbrev with_tip : {A : Type 0} → ℕ → TicketPool × Outcome A → TicketPool × Outcome A
with_tip t r = (record (r.0) { tip = t }, r.1)

then_do-with_tip :
    (t : ℕ) (r : TicketPool × Outcome (Unit {0}))
    (f : Unit {0} → TicketPool → TicketPool × Outcome (Unit {0}))
    → ((tp : TicketPool) → f tt (record tp { tip = t }) ≡ with_tip t (f tt tp))
    → then_do (with_tip t r) f ≡ with_tip t (then_do r f)
then_do-with_tip t (tp, ok a) f h = h tp
then_do-with_tip t (tp, err e) f h = refl
then_do-with_tip t (tp, panic) f h = refl
then_do-with_tip t (tp, diverged) f h = refl

-- `retreat` does not read the tip.
retreat-with_tip :
    (t : ℕ) (tp : TicketPool) → retreat (record tp { tip = t }) ≡ with_tip t (retreat tp)
unfolding retreat retreat_by
retreat-with_tip t tp = ground arith

retreat_while-with_tip :
    (fuel : ℕ) (height : ℤ) (t : ℕ) (tp : TicketPool)
    → retreat_while fuel height (record tp { tip = t }) ≡ with_tip t (retreat_while fuel height tp)
unfolding retreat_while
retreat_while-with_tip zero height t tp = refl
retreat_while-with_tip (suc fuel) height t tp = elim (Bool-cases (ltb_ℤ height (pos tp.cursor))) [
  | inl more ↦
      rw (more, retreat-with_tip t tp)
        (then_do-with_tip t (retreat tp) (λ _ tp'. retreat_while fuel height tp')
          (retreat_while-with_tip fuel height t))
  | inr done ↦ rw done
]

max_cursor-eq : (tp : TicketPool) → max_cursor tp ≡ tp.tip - 1
unfolding max_cursor
max_cursor-eq tp = ground arith

trim_after-ok :
    (t : ℕ) (tp : TicketPool) (r : TicketPool × Outcome (Unit {0}))
    → r ≡ (tp, ok tt)
    → trim_after (with_tip t r) ≡ cut_last (record tp { tip = t })
unfolding trim_after
trim_after-ok t tp r e = rw e

-- The state that `trim` works on before the cut: the tip is lowered, and the cursor with it.
lowered :
    (tp : TicketPool)
    → IsValid tp
    → 0 < tp.tip
    → (tp' : TicketPool) × (trim tp ≡ cut_last (record tp' { tip = tp.tip - 1 }))
      × Moved tp (min tp.cursor (tp.tip - 1 - 1)) tp'
unfolding trim retreat_to
lowered tp v h =
    let low = tp.tip - 1 - 1 in
    let enough : tp.cursor - low < tp.cursor + 1 = omega arith in
    let some_diff : ((tp.tip == 0) || (length tp.diffs == 0)) ≡ false =
      ground (arith, v.tip_length) in
    let mc : max_cursor (record tp { tip = tp.tip - 1 }) ≡ low = max_cursor-eq _ in
    let in_range : (ltb_ℤ (pos low) (pos 0) || ltb_ℤ (pos (tp.tip - 1)) (pos low)) ≡ false =
      ground arith in
    elim (Bool-cases (ltb low tp.cursor)) [
      | inl beyond ↦
          let (tp', run, m) = retreat_while-ok (tp.cursor + 1) low tp v enough in
          (
            tp',
            rw
                (
                  some_diff,
                  mc,
                  beyond,
                  in_range,
                  retreat_while-with_tip (tp.cursor + 1) (pos low) (tp.tip - 1) tp,
                )
                (trim_after-ok (tp.tip - 1) tp' (retreat_while (tp.cursor + 1) (pos low) tp) run),
            m,
          )
      | inr within ↦
          let le : tp.cursor ≤ low = ground (arith, within) in
          (
            tp,
            rw (some_diff, mc, within),
            record { valid = v; cursor_at = omega arith; tip_kept = refl; diffs_kept = refl },
          )
    ]

cons_of_pos :
    (xs : List PoolDiff) → 0 < length xs → (d : PoolDiff) × (ds : List PoolDiff) × (xs ≡ d ∷ ds)
cons_of_pos [] h = elim h [ ]
cons_of_pos (d ∷ ds) h = (d, ds, refl)

cut_last-cons :
    (tp : TicketPool) (d : PoolDiff) (ds : List PoolDiff)
    → tp.diffs ≡ d ∷ ds
    → cut_last tp ≡ (record tp { diffs = (split_last d ds).0 }, ok (tp.tip, (split_last d ds).1))
unfolding cut_last
cut_last-cons tp d ds e = ground (arith, e)

cut-IsValid :
    (tp : TicketPool) (front : List PoolDiff) (last : PoolDiff) (t : ℕ)
    → IsValid tp
    → front ++ last ∷ [] ≡ tp.diffs
    → t + 1 ≡ tp.tip
    → tp.cursor < tp.tip
    → IsValid (record tp { tip = t; diffs = front })
cut-IsValid tp front last t v e et lt =
    let size : tp.tip ≡ length front + 1 =
      v.tip_length ∙ ap length (sym e) ∙ length-append front (last ∷ []) in
    record {
      tip_length = omega arith;
      cursor_le_tip = omega arith;
      pool_distinct = v.pool_distinct;
      pool_live =
          λ h. v.pool_live h ∙ rw (← e, take-append_le tp.cursor front (last ∷ []) (omega arith));
      chain = IsChain-front front (last ∷ []) (rw e v.chain);
    }

-- `Trim` on a valid pool with a diff to remove succeeds. It returns the new tip and the removed
-- diff, which was the last one. The pool stays valid, so that it has exactly the tickets that are
-- live at its cursor, which is brought back to two below the old tip if it stood beyond that.
pub trim-ok :
    (tp : TicketPool)
    → IsValid tp
    → 0 < tp.tip
    → (tp' : TicketPool) × (undo : PoolDiff) × (trim tp ≡ (tp', ok (tp.tip - 1, undo)))
      × IsValid tp'
      × (tp'.tip + 1 ≡ tp.tip)
      × (tp'.diffs ++ undo ∷ [] ≡ tp.diffs)
      × (tp'.cursor ≡ min tp.cursor (tp.tip - 2))
trim-ok tp v h =
    let (tp1, run, m) = lowered tp v h in
    let (d, ds, e) = cons_of_pos tp1.diffs (omega (arith, m.valid.tip_length, m.tip_kept)) in
    let whole = split_last-append d ds in
    let at : tp1.cursor ≡ min tp.cursor (tp.tip - 1 - 1) = m.cursor_at in
    let tip : tp1.tip ≡ tp.tip = m.tip_kept in
    (
      record tp1 { tip = tp.tip - 1; diffs = (split_last d ds).0 },
      (split_last d ds).1,
      run ∙ cut_last-cons (record tp1 { tip = tp.tip - 1 }) d ds e,
      cut-IsValid tp1 (split_last d ds).0 (split_last d ds).1 (tp.tip - 1) m.valid (whole ∙ sym e)
          (omega arith) (omega arith),
      omega arith,
      whole ∙ sym e ∙ m.diffs_kept,
      omega arith,
    )
