-- ===== src/TicketPool/Replay.antt =====
-- The live tickets of a chain of diffs, and the invariant that ties a `TicketPool` of
-- stakedb/ticketpool.go to them.
use mathlib.Core.Option.{some-injective}
use mathlib.Core.Path.{subst}
use hdfdata.Base.{
  ℕ, zero, suc, ◌≡◌, ◌≤◌, refl, Bool, true, false, ◌||◌, some, List, [], ◌∷◌, ◌++◌, arith,
  if◌then◌else◌, length, get_elem?, take,
}
use hdfdata.TicketPool.HashSet.{Hash, member, Distinct}
use hdfdata.TicketPool.{PoolDiff, TicketPool}

-- Whether a ticket is live after a diff: a block takes its `outs` away last.
abbrev pub live_step : PoolDiff → Hash → Bool → Bool
live_step d h b = if member h d.outs then false else if member h d.ins then true else b

abbrev pub live_from : List PoolDiff → Hash → Bool → Bool
live_from [] h b = b
live_from (d ∷ ds) h b = live_from ds h (live_step d h b)

-- Whether a ticket is live at the end of a chain of diffs that starts at an empty pool.
abbrev pub live : List PoolDiff → Hash → Bool
live ds h = live_from ds h false

-- A diff fits a pool: the tickets that come in are new, those that go out are there, and each is
-- named once.
pub record Fits (d : PoolDiff) (is_live : Hash → Bool) : Type 0 where
  pub ins_distinct : Distinct d.ins
  pub outs_distinct : Distinct d.outs
  pub ins_new : (h : Hash) → member h d.ins ≡ true → is_live h ≡ false
  pub outs_there : (h : Hash) → member h d.outs ≡ true → (is_live h || member h d.ins) ≡ true

abbrev pub IsChainFrom : List PoolDiff → (Hash → Bool) → Type 0
IsChainFrom [] f = Unit
IsChainFrom (d ∷ ds) f = Fits d f × IsChainFrom ds (λ h. live_step d h (f h))

-- Every diff fits the pool of the diffs before it.
abbrev pub IsChain : List PoolDiff → Type 0
IsChain ds = IsChainFrom ds (λ h. false)

pub record IsValid (tp : TicketPool) : Type 0 where
  pub tip_length : tp.tip ≡ length tp.diffs
  pub cursor_le_tip : tp.cursor ≤ tp.tip
  pub pool_distinct : Distinct tp.pool
  pub pool_live : (h : Hash) → member h tp.pool ≡ live (take tp.cursor tp.diffs) h
  pub chain : IsChain tp.diffs

live_from-append :
    (ds es : List PoolDiff) (h : Hash) (b : Bool)
    → live_from (ds ++ es) h b ≡ live_from es h (live_from ds h b)
live_from-append [] es h b = refl
live_from-append (d ∷ ds) es h b = live_from-append ds es h (live_step d h b)

pub live-snoc :
    (ds : List PoolDiff) (d : PoolDiff) (h : Hash)
    → live (ds ++ d ∷ []) h ≡ live_step d h (live ds h)
live-snoc ds d h = live_from-append ds (d ∷ []) h false

Fits-get_elem?_from :
    (ds : List PoolDiff) (f : Hash → Bool) (i : ℕ) (d : PoolDiff)
    → IsChainFrom ds f
    → get_elem? ds i ≡ some d
    → Fits d (λ h. live_from (take i ds) h (f h))
Fits-get_elem?_from [] f i d c e = absurd (ground arith)
Fits-get_elem?_from (x ∷ ds) f zero d c e = subst (λ y. Fits y f) (some-injective x d e) c.0
Fits-get_elem?_from (x ∷ ds) f (suc i) d c e =
    Fits-get_elem?_from ds (λ h. live_step x h (f h)) i d c.1 e

pub Fits-get_elem? :
    (ds : List PoolDiff) (i : ℕ) (d : PoolDiff)
    → IsChain ds
    → get_elem? ds i ≡ some d
    → Fits d (live (take i ds))
Fits-get_elem? ds = Fits-get_elem?_from ds (λ h. false)

IsChainFrom-snoc :
    (ds : List PoolDiff) (f : Hash → Bool) (d : PoolDiff)
    → IsChainFrom ds f
    → Fits d (λ h. live_from ds h (f h))
    → IsChainFrom (ds ++ d ∷ []) f
IsChainFrom-snoc [] f d c fits = (fits, tt)
IsChainFrom-snoc (x ∷ ds) f d c fits =
    (c.0, IsChainFrom-snoc ds (λ h. live_step x h (f h)) d c.1 fits)

pub IsChain-snoc :
    (ds : List PoolDiff) (d : PoolDiff) → IsChain ds → Fits d (live ds) → IsChain (ds ++ d ∷ [])
IsChain-snoc ds = IsChainFrom-snoc ds (λ h. false)

IsChainFrom-front :
    (ds es : List PoolDiff) (f : Hash → Bool) → IsChainFrom (ds ++ es) f → IsChainFrom ds f
IsChainFrom-front [] es f c = tt
IsChainFrom-front (d ∷ ds) es f c = (c.0, IsChainFrom-front ds es (λ h. live_step d h (f h)) c.1)

pub IsChain-front : (ds es : List PoolDiff) → IsChain (ds ++ es) → IsChain ds
IsChain-front ds es = IsChainFrom-front ds es (λ h. false)
