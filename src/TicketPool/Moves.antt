-- ===== src/TicketPool/Moves.antt =====
-- One step of the cursor of stakedb/ticketpool.go: `advance` and `retreat`.
use hdfdata.Base.{
  ℕ, suc, ◌+◌, ◌-◌, ◌≡◌, ◌<◌, refl, ◌∙◌, true, false, ◌||◌, some, List, arith, if◌then◌else◌,
  length, get_elem?, take, take-suc, get_elem?-lt, ==_iff,
}
use hdfdata.TicketPool.HashSet.{
  Hash, member, Distinct, insert_all, member-insert_all, member-delete_all, insert_all-Distinct,
  delete_all-Distinct, length-insert_all, length-delete_all,
}
use hdfdata.TicketPool.Replay.{live_step, live, Fits, IsValid, live-snoc, Fits-get_elem?}
use hdfdata.TicketPool.{
  PoolDiff, TicketPool, ok, apply_diff, max_cursor, advance, advance_by, retreat, retreat_by,
}

pub member-apply_diff :
    (ins outs pool : List Hash) (h : Hash)
    → member h (apply_diff ins outs pool)
      ≡ (if member h outs then false else if member h ins then true else member h pool)
unfolding apply_diff
member-apply_diff ins outs pool h =
    ground (arith, member-delete_all h outs (insert_all ins pool), member-insert_all h ins pool)

apply_diff-Distinct :
    (ins outs pool : List Hash) → Distinct pool → Distinct (apply_diff ins outs pool)
unfolding apply_diff
apply_diff-Distinct ins outs pool d =
    delete_all-Distinct outs (insert_all ins pool) (insert_all-Distinct ins pool d)

-- The size that the source expects.
length-apply_diff :
    (ins outs pool : List Hash)
    → Distinct ins
    → Distinct outs
    → Distinct pool
    → ((h : Hash) → member h ins ≡ true → member h pool ≡ false)
    → ((h : Hash) → member h outs ≡ true → (member h pool || member h ins) ≡ true)
    → length (apply_diff ins outs pool) + length outs ≡ length pool + length ins
unfolding apply_diff
length-apply_diff ins outs pool di do' dp new there =
    length-delete_all outs (insert_all ins pool) do' (insert_all-Distinct ins pool dp)
      (λ h m. ground (arith, member-insert_all h ins pool, there h))
    ∙ length-insert_all ins pool di new

-- What a move of the cursor gives: a valid pool at the new cursor over the same diffs.
pub record Moved (tp : TicketPool) (cursor : ℕ) (tp' : TicketPool) : Type 0 where
  pub valid : IsValid tp'
  pub cursor_at : tp'.cursor ≡ cursor
  pub tip_kept : tp'.tip ≡ tp.tip
  pub diffs_kept : tp'.diffs ≡ tp.diffs

after_advance : TicketPool → PoolDiff → TicketPool
after_advance tp d = record tp { cursor = tp.cursor + 1; pool = apply_diff d.ins d.outs tp.pool }

after_retreat : TicketPool → PoolDiff → TicketPool
after_retreat tp d = record tp { cursor = tp.cursor - 1; pool = apply_diff d.outs d.ins tp.pool }

module _ (tp : TicketPool) (d : PoolDiff) (v : IsValid tp) where
  advance_by-ok :
      tp.cursor < tp.tip
      → get_elem? tp.diffs tp.cursor ≡ some d
      → (advance_by d tp ≡ (after_advance tp d, ok tt))
        × Moved tp (suc tp.cursor) (after_advance tp d)
  unfolding advance_by after_advance
  advance_by-ok lt e = (
    rw ((==_iff _ _).1 size),
    record {
      valid = record {
        tip_length = v.tip_length;
        cursor_le_tip = omega arith;
        pool_distinct = apply_diff-Distinct d.ins d.outs tp.pool v.pool_distinct;
        pool_live = λ h.
            let next : tp.cursor + 1 ≡ suc tp.cursor = omega arith in
            rw (
              next,
              take-suc tp.diffs tp.cursor d e,
              live-snoc (take tp.cursor tp.diffs) d h,
              member-apply_diff d.ins d.outs tp.pool h,
              v.pool_live h,
            );
        chain = v.chain;
      };
      cursor_at = omega arith;
      tip_kept = refl;
      diffs_kept = refl;
    },
  )
    where
      fits : Fits d (live (take tp.cursor tp.diffs))
      fits = Fits-get_elem? tp.diffs tp.cursor d v.chain e

      size :
          length (apply_diff d.ins d.outs tp.pool) + length d.outs ≡ length tp.pool + length d.ins
      size =
          length-apply_diff d.ins d.outs tp.pool fits.ins_distinct fits.outs_distinct
            v.pool_distinct (λ h m. v.pool_live h ∙ fits.ins_new h m)
            (λ h m. rw (v.pool_live h) (fits.outs_there h m))

  retreat_by-ok :
      (c : ℕ)
      → tp.cursor ≡ suc c
      → get_elem? tp.diffs c ≡ some d
      → (retreat_by d tp ≡ (after_retreat tp d, ok tt)) × Moved tp c (after_retreat tp d)
  unfolding retreat_by after_retreat
  retreat_by-ok c ec e = (
    rw ((==_iff _ _).1 size),
    record {
      valid = record {
        tip_length = v.tip_length;
        cursor_le_tip = omega arith;
        pool_distinct = apply_diff-Distinct d.outs d.ins tp.pool v.pool_distinct;
        pool_live = λ h.
            let back : tp.cursor - 1 ≡ c = omega arith in
            rw back (
              ground (
                arith,
                member-apply_diff d.outs d.ins tp.pool h,
                now h,
                fits.ins_new h,
                fits.outs_there h,
              ));
        chain = v.chain;
      };
      cursor_at = omega arith;
      tip_kept = refl;
      diffs_kept = refl;
    },
  )
    where
      fits : Fits d (live (take c tp.diffs))
      fits = Fits-get_elem? tp.diffs c d v.chain e

      now : (h : Hash) → member h tp.pool ≡ live_step d h (live (take c tp.diffs) h)
      now h = rw (v.pool_live h, ec, take-suc tp.diffs c d e) (live-snoc (take c tp.diffs) d h)

      size :
          length (apply_diff d.outs d.ins tp.pool) + length d.ins ≡ length tp.pool + length d.outs
      size =
          length-apply_diff d.outs d.ins tp.pool fits.outs_distinct fits.ins_distinct
            v.pool_distinct (λ h m. ground (arith, now h)) (λ h m. ground (arith, now h))

module _ (tp : TicketPool) (v : IsValid tp) where
  -- Below the tip of a valid pool `advance` succeeds: the size is the one expected.
  pub advance-ok :
      tp.cursor < tp.tip
      → (tp' : TicketPool) × (advance tp ≡ (tp', ok tt)) × Moved tp (suc tp.cursor) tp'
  unfolding advance max_cursor
  advance-ok lt =
      let (d, e) = get_elem?-lt tp.diffs tp.cursor (omega arith) in
      let (run, moved) = advance_by-ok tp d v lt e in
      (after_advance tp d, ground (arith, e, run), moved)

  -- Above the genesis of a valid pool `retreat` succeeds.
  pub retreat-ok :
      (c : ℕ)
      → tp.cursor ≡ suc c
      → (tp' : TicketPool) × (retreat tp ≡ (tp', ok tt)) × Moved tp c tp'
  unfolding retreat
  retreat-ok c ec =
      let (d, e) = get_elem?-lt tp.diffs c (omega arith) in
      let (run, moved) = retreat_by-ok tp d v c ec e in
      let back : tp.cursor - 1 ≡ c = omega arith in
      (after_retreat tp d, ground (arith, e, run, back), moved)
