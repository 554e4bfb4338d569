-- ===== src/TicketPool/Travel.antt =====
-- The loops of stakedb/ticketpool.go that move the cursor: `advanceTo`, `retreatTo`, `AdvanceToTip`
-- and `Pool`.
use Prim.Native.Nat.{min, max}
use hdfdata.Base.{
  ℕ, zero, suc, ◌+◌, ◌-◌, ◌≡◌, ◌≤◌, ◌<◌, refl, ◌∙◌, inl, inr, true, false, List, arith, pos, negsuc,
  ltb_ℤ, Bool-cases, ==_iff, ◌==◌, take, take-length,
}
use hdfdata.TicketPool.HashSet.{Hash, member, Distinct}
use hdfdata.TicketPool.Moves.{Moved, advance-ok, retreat-ok}
use hdfdata.TicketPool.Replay.{live, IsValid}
use hdfdata.TicketPool.{
  TicketPool, ok, err, not_connected, cursor_at_genesis, invalid_cursor, advance, retreat,
  advance_while, retreat_while, advance_to, retreat_to, advance_to_tip, pool_at, current_pool,
}

Moved-trans : (a b c : TicketPool) (i j k : ℕ) → Moved a i b → Moved b j c → j ≡ k → Moved a k c
Moved-trans a b c i j k m n e = record {
  valid = n.valid;
  cursor_at = n.cursor_at ∙ e;
  tip_kept = n.tip_kept ∙ m.tip_kept;
  diffs_kept = n.diffs_kept ∙ m.diffs_kept;
}

-- With enough fuel the loop of `advanceTo` ends without error at the greater of the cursor and the
-- target.
pub advance_while-ok :
    (fuel target : ℕ) (tp : TicketPool)
    → IsValid tp
    → target ≤ tp.tip
    → target - tp.cursor < fuel
    → (tp' : TicketPool) × (advance_while fuel (pos target) tp ≡ (tp', ok tt))
      × Moved tp (max tp.cursor target) tp'
unfolding advance_while
advance_while-ok zero target tp v le enough = elim enough [ ]
advance_while-ok (suc fuel) target tp v le enough =
    elim (Bool-cases (ltb_ℤ (pos tp.cursor) (pos target))) [
      | inl more ↦
          let lt : tp.cursor < target = ground (arith, more) in
          let (tp1, run1, m1) = advance-ok tp v (omega arith) in
          let at : tp1.cursor ≡ suc tp.cursor = m1.cursor_at in
          let tip : tp1.tip ≡ tp.tip = m1.tip_kept in
          let (tp2, run2, m2) =
            advance_while-ok fuel target tp1 m1.valid (omega arith) (omega arith) in
          (
            tp2,
            rw (more, run1) run2,
            Moved-trans tp tp1 tp2 (suc tp.cursor) (max tp1.cursor target) (max tp.cursor target) m1
                m2 (omega arith),
          )
      | inr done ↦
          let le' : target ≤ tp.cursor = ground (arith, done) in
          (
            tp,
            rw done,
            record { valid = v; cursor_at = omega arith; tip_kept = refl; diffs_kept = refl },
          )
    ]

-- With enough fuel the loop of `retreatTo` ends without error at the lesser of the cursor and the
-- target.
pub retreat_while-ok :
    (fuel target : ℕ) (tp : TicketPool)
    → IsValid tp
    → tp.cursor - target < fuel
    → (tp' : TicketPool) × (retreat_while fuel (pos target) tp ≡ (tp', ok tt))
      × Moved tp (min tp.cursor target) tp'
unfolding retreat_while
retreat_while-ok zero target tp v enough = elim enough [ ]
retreat_while-ok (suc fuel) target tp v enough =
    elim (Bool-cases (ltb_ℤ (pos target) (pos tp.cursor))) [
      | inl more ↦
          let lt : target < tp.cursor = ground (arith, more) in
          let (tp1, run1, m1) = retreat-ok tp v (tp.cursor - 1) (omega arith) in
          let at : tp1.cursor ≡ tp.cursor - 1 = m1.cursor_at in
          let (tp2, run2, m2) = retreat_while-ok fuel target tp1 m1.valid (omega arith) in
          (
            tp2,
            rw (more, run1) run2,
            Moved-trans tp tp1 tp2 (tp.cursor - 1) (min tp1.cursor target) (min tp.cursor target) m1
                m2 (omega arith),
          )
      | inr done ↦
          let le' : tp.cursor ≤ target = ground (arith, done) in
          (
            tp,
            rw done,
            record { valid = v; cursor_at = omega arith; tip_kept = refl; diffs_kept = refl },
          )
    ]

not_past : (a b : ℕ) → a ≤ b → ltb_ℤ (pos b) (pos a) ≡ false
not_past a b h = ground arith

-- `Pool` at a connected height of a valid pool succeeds wherever the cursor stands: it ends with
-- the cursor at that height, in a valid pool over the same diffs, and returns, each once, exactly
-- the tickets that are live after that many blocks.
pub pool_at-live :
    (height : ℕ) (tp : TicketPool)
    → IsValid tp
    → height ≤ tp.tip
    → (tp' : TicketPool) × (tickets : List Hash) × (pool_at (pos height) tp ≡ (tp', ok tickets))
      × Moved tp height tp'
      × Distinct tickets
      × ((h : Hash) → member h tickets ≡ live (take height tp.diffs) h)
unfolding pool_at current_pool
pool_at-live height tp v le =
    let (tp1, run1, m1) = advance_while-ok (tp.tip + 1) height tp v le (omega arith) in
    let (tp2, run2, m2) = retreat_while-ok (tp1.cursor + 1) height tp1 m1.valid (omega arith) in
    let at : tp1.cursor ≡ max tp.cursor height = m1.cursor_at in
    let m : Moved tp height tp2 =
      Moved-trans tp tp1 tp2 (max tp.cursor height) (min tp1.cursor height) height m1 m2
        (omega arith) in
    (
      tp2,
      tp2.pool,
      rw (not_past height tp.tip le, run1, run2),
      m,
      m2.valid.pool_distinct,
      λ h. rw (m2.valid.pool_live h, m.cursor_at, m.diffs_kept),
    )

advance_while-negative :
    (fuel n : ℕ) (tp : TicketPool) → 0 < fuel → advance_while fuel (negsuc n) tp ≡ (tp, ok tt)
unfolding advance_while
advance_while-negative zero n tp h = elim h [ ]
advance_while-negative (suc fuel) n tp h =
    let low : ltb_ℤ (pos tp.cursor) (negsuc n) ≡ false = ground arith in rw low

retreat_while-negative :
    (fuel n : ℕ) (tp : TicketPool)
    → IsValid tp
    → tp.cursor < fuel
    → (tp' : TicketPool) × (retreat_while fuel (negsuc n) tp ≡ (tp', err cursor_at_genesis))
      × Moved tp 0 tp'
unfolding retreat_while
retreat_while-negative zero n tp v enough = elim enough [ ]
retreat_while-negative (suc fuel) n tp v enough = elim (Bool-cases (tp.cursor == 0)) [
  | inl bottom ↦
      let at : tp.cursor ≡ 0 = (==_iff tp.cursor 0).0 bottom in
      (
        tp,
        unfold retreat in rw (more, bottom),
        record { valid = v; cursor_at = at; tip_kept = refl; diffs_kept = refl },
      )
  | inr above ↦
      let pos_cursor : 0 < tp.cursor = ground (arith, above) in
      let (tp1, run1, m1) = retreat-ok tp v (tp.cursor - 1) (omega arith) in
      let at : tp1.cursor ≡ tp.cursor - 1 = m1.cursor_at in
      let (tp2, run2, m2) = retreat_while-negative fuel n tp1 m1.valid (omega arith) in
      (tp2, rw (more, run1) run2, Moved-trans tp tp1 tp2 (tp.cursor - 1) 0 0 m1 m2 refl)
]
  where
    more : ltb_ℤ (negsuc n) (pos tp.cursor) ≡ true
    more = ground arith

-- The errors of `Pool`: above the tip of any pool it fails and changes nothing; at a negative height
-- of a valid pool it fails too, and leaves the pool rewound to the genesis.
pub pool_at_errors :
    (tp : TicketPool) (above n : ℕ)
    → IsValid tp
    → tp.tip < above
    → (pool_at (pos above) tp ≡ (tp, err not_connected))
      × ((tp' : TicketPool) × (pool_at (negsuc n) tp ≡ (tp', err cursor_at_genesis))
          × Moved tp 0 tp')
unfolding pool_at
pool_at_errors tp above n v lt =
    let (tp', run, m) = retreat_while-negative (tp.cursor + 1) n tp v (omega arith) in
    let past : ltb_ℤ (pos tp.tip) (pos above) ≡ true = ground arith in
    let low : ltb_ℤ (pos tp.tip) (negsuc n) ≡ false = ground arith in
    (rw past, (tp', rw (low, advance_while-negative (tp.tip + 1) n tp (omega arith), run), m))

-- `AdvanceToTip` on a valid pool succeeds: it ends at the tip, with every ticket live there.
pub advance_to_tip-ok :
    (tp : TicketPool)
    → IsValid tp
    → (tp' : TicketPool) × (advance_to_tip tp ≡ (tp', ok tp.tip))
      × Moved tp tp.tip tp'
      × ((h : Hash) → member h tp'.pool ≡ live tp.diffs h)
unfolding advance_to_tip advance_to
advance_to_tip-ok tp v =
    let (tp', run, m) = advance_while-ok (tp.tip + 1) tp.tip tp v (omega arith) (omega arith) in
    let at : tp'.cursor ≡ tp.tip = m.cursor_at ∙ omega (arith, v.cursor_le_tip) in
    (
      tp',
      rw (not_past tp.tip tp.tip (omega arith), run, at),
      record { valid = m.valid; cursor_at = at; tip_kept = m.tip_kept; diffs_kept = m.diffs_kept },
      λ h. rw (m.valid.pool_live h, at, m.diffs_kept, v.tip_length, take-length tp.diffs),
    )

-- `retreatTo` on a valid pool: within the tip it succeeds at the lesser of the cursor and the
-- height, and any other height is refused with the pool unchanged.
pub retreat_to_outcome :
    (tp : TicketPool) (height n : ℕ)
    → IsValid tp
    → height ≤ tp.tip
    → ((tp' : TicketPool) × (retreat_to (pos height) tp ≡ (tp', ok tt))
        × Moved tp (min tp.cursor height) tp')
      × (retreat_to (negsuc n) tp ≡ (tp, err invalid_cursor))
      × (retreat_to (pos (suc (tp.tip + n))) tp ≡ (tp, err invalid_cursor))
unfolding retreat_to
retreat_to_outcome tp height n v le =
    let (tp', run, m) = retreat_while-ok (tp.cursor + 1) height tp v (omega arith) in
    ((tp', ground (arith, run), m), ground arith, ground arith)

-- A step forward and a step back succeed on a valid pool below its tip, and restore the cursor and
-- the set of live tickets.
pub retreat-advance :
    (tp : TicketPool)
    → IsValid tp
    → tp.cursor < tp.tip
    → (tp1 : TicketPool) × (tp2 : TicketPool) × (advance tp ≡ (tp1, ok tt))
      × (retreat tp1 ≡ (tp2, ok tt))
      × (tp2.cursor ≡ tp.cursor)
      × ((h : Hash) → member h tp2.pool ≡ member h tp.pool)
retreat-advance tp v lt =
    let (tp1, run1, m1) = advance-ok tp v lt in
    let (tp2, run2, m2) = retreat-ok tp1 m1.valid tp.cursor m1.cursor_at in
    (
      tp1,
      tp2,
      run1,
      run2,
      m2.cursor_at,
      λ h. rw (m2.valid.pool_live h, m2.cursor_at, m2.diffs_kept, m1.diffs_kept, v.pool_live h),
    )
