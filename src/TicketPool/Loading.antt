-- ===== src/TicketPool/Loading.antt =====
-- `LoadAllPoolDiffs` and the start of `NewTicketPool` of stakedb/ticketpool.go.
use mathlib.Core.List.{append-nil, append_assoc}
use hdfdata.Base.{
  ℕ, ◌+◌, ◌≡◌, refl, sym, ◌∙◌, ap, inl, inr, ◌↔◌, none, some, List, [], ◌∷◌, ◌++◌, arith, ◌==◌,
  ==_iff, ==_refl, Bool-cases, length, length-append,
}
use hdfdata.TicketPool.Replay.{IsChain, IsValid}
use hdfdata.TicketPool.{PoolDiff, Item, loaded, load_from, load_all_pool_diffs, new_ticket_pool}

-- The items of a database that holds a chain: the diffs at the heights that follow `n`.
abbrev pub number_from : ℕ → List PoolDiff → List Item
number_from n [] = []
number_from n (d ∷ ds) = (n + 1, some d) ∷ number_from (n + 1) ds

load_from-number_from :
    (n : ℕ) (acc ds : List PoolDiff)
    → length acc ≡ n
    → load_from n acc (number_from n ds) ≡ loaded (acc ++ ds)
unfolding load_from
load_from-number_from n acc [] e = rw (append-nil acc) (ground (arith, e))
load_from-number_from n acc (d ∷ ds) e = rw (==_refl (n + 1)) (
    load_from-number_from (n + 1) (acc ++ d ∷ []) ds (omega (arith, length-append acc (d ∷ []), e))
    ∙ ap loaded (append_assoc acc (d ∷ []) ds))

load_from_sound :
    (n : ℕ) (acc : List PoolDiff) (items : List Item) (ds : List PoolDiff)
    → load_from n acc items ≡ loaded ds
    → (rest : List PoolDiff) × (ds ≡ acc ++ rest) × (items ≡ number_from n rest)
unfolding load_from
load_from_sound n acc [] ds h = ([], rw (append-nil acc) (ground arith), refl)
load_from_sound n acc ((height, none) ∷ items) ds h = absurd (ground arith)
load_from_sound n acc ((height, some d) ∷ items) ds h = elim (Bool-cases (n + 1 == height)) [
  | inl t ↦
      let (rest, e, f) = load_from_sound height (acc ++ d ∷ []) items ds (ground arith) in
      (
        d ∷ rest,
        e ∙ append_assoc acc (d ∷ []) rest,
        let at : n + 1 ≡ height = (==_iff (n + 1) height).0 t in
            ap (◌∷◌ (height, some d)) f ∙ ap (λ k. (k, some d) ∷ number_from k rest) (sym at),
      )
  | inr f ↦ absurd (ground arith)
]

-- Loading succeeds exactly when the database holds the diffs of a chain at the heights 1, 2, 3, and
-- so on without a gap, each of which decodes; and it gives those diffs in order.
pub load_all_pool_diffs-number_from :
    (items : List Item) (ds : List PoolDiff)
    → (load_all_pool_diffs items ≡ loaded ds) ↔ (items ≡ number_from 0 ds)
unfolding load_all_pool_diffs
load_all_pool_diffs-number_from items ds = (
  λ h. let (rest, e, f) = load_from_sound 0 [] items ds h in rw e f,
  λ h. rw h (load_from-number_from 0 [] ds refl),
)

-- The pool made of a chain of diffs that fit is valid, at the genesis, with its tip at their number.
pub new_ticket_pool-IsValid :
    (ds : List PoolDiff)
    → IsChain ds
    → IsValid (new_ticket_pool ds)
      × ((new_ticket_pool ds).cursor ≡ 0)
      × ((new_ticket_pool ds).tip ≡ length ds)
unfolding new_ticket_pool
new_ticket_pool-IsValid ds c = (
  record {
    tip_length = refl;
    cursor_le_tip = omega arith;
    pool_distinct = tt;
    pool_live = λ h. refl;
    chain = c;
  },
  refl,
  refl,
)
