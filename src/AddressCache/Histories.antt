-- ===== src/AddressCache/Histories.antt =====
-- Sequences of calls of `AddressCache` in db/cache/addresscache.go.
use mathlib.Core.Path.{subst}
use hdfdata.AddressCache.Limits.{
  IsValid, Keeps, Keeps-refl, set_cache_item_rows-Keeps, store_datum-Keeps, write_item-Keeps,
}
use hdfdata.AddressCache.Stores.{some_pair}
use hdfdata.AddressCache.Reads.{counted}
use hdfdata.AddressCache.Purge.{Address, VisitOrder}
use hdfdata.AddressCache.Purging.{IsOrder}
use hdfdata.AddressCache.{AddressCache, CacheMetrics, Items, Stored, new_address_cache}
use hdfdata.AddressCache.Methods.{
  store_rows_compact, store_utxos, store_balance, store_history_chart, clear_rows, clear_utxos,
  is_known, and_known, clear, clear_all, clear_each,
}
use hdfdata.Base.{
  ℕ, ◌≡◌, ◌≤◌, refl, ◌∙◌, ap, ◌&&◌, Bool, true, false, Option, none, some, List, [], ◌∷◌, arith,
  ◌==◌, if◌then◌else◌, length, Distinct, find, del, del-Distinct, length-del-le, keys,
}
use hdfdata.AddressRows.{Slice, AddressRowCompact}
use hdfdata.CacheItem.{BlockId, HistoryChart}

module _ {Balance Utxo Charts : Type 0} where
  -- A call that stores or clears data of one address and ends, with any order of the map.
  pub data StoreStep (addr : Address) (ac ac' : AddressCache Balance Utxo Charts) : Type 0 where
    rows_stored :
        (order : VisitOrder) (rows : Slice AddressRowCompact) (b : Option BlockId) (ok : Bool)
        → IsOrder order
        → store_rows_compact order addr rows b ac ≡ some (ac', ok)
        → StoreStep addr ac ac'
    utxos_stored :
        (order : VisitOrder) (utxos : Slice Utxo) (b : Option BlockId) (ok : Bool)
        → IsOrder order
        → store_utxos order addr utxos b ac ≡ some (ac', ok)
        → StoreStep addr ac ac'
    balance_stored :
        (empty_balance : Address → Balance) (order : VisitOrder) (balance : Option Balance)
        (b : Option BlockId) (ok : Bool)
        → IsOrder order
        → store_balance empty_balance order addr balance b ac ≡ some (ac', ok)
        → StoreStep addr ac ac'
    chart_stored :
        (empty_charts : Charts) (order : VisitOrder) (chart : HistoryChart) (g : ℕ)
        (cd : Option Charts) (b : Option BlockId) (ok : Bool)
        → IsOrder order
        → store_history_chart empty_charts order addr chart g cd b ac ≡ some (ac', ok)
        → StoreStep addr ac ac'
    rows_cleared : clear_rows addr ac ≡ ac' → StoreStep addr ac ac'
    utxos_cleared : clear_utxos addr ac ≡ ac' → StoreStep addr ac ac'

  guarded-Keeps :
      (addr : Address) (ac ac' : AddressCache Balance Utxo Charts) (ok closed : Bool)
      (r : Stored Balance Utxo Charts)
      → IsValid ac
      → (r ≡ some (ac', ok) → Keeps addr ac ac')
      → (if closed then some (ac, false) else r) ≡ some (ac', ok)
      → Keeps addr ac ac'
  guarded-Keeps addr ac ac' ok true r v opened e =
      subst (Keeps addr ac) (some_pair ac ac' false ok e).0 (Keeps-refl addr ac v)
  guarded-Keeps addr ac ac' ok false r v opened e = opened e

  and_known-Keeps :
      (addr : Address) (ac ac' : AddressCache Balance Utxo Charts) (ok known : Bool)
      (r : Stored Balance Utxo Charts)
      → ((ok' : Bool) → r ≡ some (ac', ok') → Keeps addr ac ac')
      → and_known known r ≡ some (ac', ok)
      → Keeps addr ac ac'
  unfolding and_known
  and_known-Keeps addr ac ac' ok known none stored e = absurd (ground (arith, e))
  and_known-Keeps addr ac ac' ok known (some (ac1, ok1)) stored e =
      stored ok1 (ap (λ x. some (x, ok1)) (some_pair ac1 ac' (ok1 && known) ok e).0)

  pub StoreStep-Keeps :
      (addr : Address) (ac ac' : AddressCache Balance Utxo Charts)
      → StoreStep addr ac ac'
      → IsValid ac
      → Keeps addr ac ac'
  unfolding store_rows_compact store_utxos store_balance store_history_chart clear_rows clear_utxos
  StoreStep-Keeps addr ac ac' (rows_stored order rows none ok o e) v =
      subst (Keeps addr ac) (some_pair ac ac' false ok e).0 (Keeps-refl addr ac v)
  StoreStep-Keeps addr ac ac' (rows_stored order rows (some b) ok o e) v =
      guarded-Keeps addr ac ac' ok _ _ v (set_cache_item_rows-Keeps order o addr b _ ac ac' ok v) e
  StoreStep-Keeps addr ac ac' (utxos_stored order utxos none ok o e) v =
      subst (Keeps addr ac) (some_pair ac ac' false ok e).0 (Keeps-refl addr ac v)
  StoreStep-Keeps addr ac ac' (utxos_stored order utxos (some b) ok o e) v =
      guarded-Keeps addr ac ac' ok _ _ v
        (guarded-Keeps addr ac ac' ok _ _ v (store_datum-Keeps order o addr b _ ac ac' ok v)) e
  StoreStep-Keeps addr ac ac' (balance_stored empty_balance order balance none ok o e) v =
      subst (Keeps addr ac) (some_pair ac ac' false ok e).0 (Keeps-refl addr ac v)
  StoreStep-Keeps addr ac ac' (balance_stored empty_balance order balance (some b) ok o e) v =
      guarded-Keeps addr ac ac' ok _ _ v (store_datum-Keeps order o addr b _ ac ac' ok v) e
  StoreStep-Keeps addr ac ac' (chart_stored empty_charts order chart g cd none ok o e) v =
      subst (Keeps addr ac) (some_pair ac ac' false ok e).0 (Keeps-refl addr ac v)
  StoreStep-Keeps addr ac ac' (chart_stored empty_charts order chart g cd (some b) ok o e) v =
      guarded-Keeps addr ac ac' ok _ _ v
        (guarded-Keeps addr ac ac' ok _ _ v (
          and_known-Keeps addr ac ac' ok (is_known chart) _
            (λ ok'. store_datum-Keeps order o addr b _ ac ac' ok' v)))
        e
  StoreStep-Keeps addr ac ac' (rows_cleared e) v =
      subst (Keeps addr ac) e (write_item-Keeps addr (λ x. record x { rows = none }) ac v)
  StoreStep-Keeps addr ac ac' (utxos_cleared e) v =
      subst (Keeps addr ac) e (write_item-Keeps addr (λ x. record x { utxos = none }) ac v)

  -- The caches that calls lead to, from one just made.
  pub data Reach (row_cap addr_cap utxo_bytes : ℕ) : AddressCache Balance Utxo Charts → Type 0 where
    made : Reach row_cap addr_cap utxo_bytes (new_address_cache row_cap addr_cap utxo_bytes)
    project_set :
        {ac : AddressCache Balance Utxo Charts} (p : Address)
        → Reach row_cap addr_cap utxo_bytes ac
        → Reach row_cap addr_cap utxo_bytes (record ac { project_address = p })
    stored :
        {ac ac' : AddressCache Balance Utxo Charts} (addr : Address)
        → Reach row_cap addr_cap utxo_bytes ac
        → StoreStep addr ac ac'
        → Reach row_cap addr_cap utxo_bytes ac'
    cleared :
        {ac : AddressCache Balance Utxo Charts} (addrs : Slice Address)
        → Reach row_cap addr_cap utxo_bytes ac
        → Reach row_cap addr_cap utxo_bytes (clear addrs ac).0
    read :
        {ac : AddressCache Balance Utxo Charts} (f : CacheMetrics → CacheMetrics)
        → Reach row_cap addr_cap utxo_bytes ac
        → Reach row_cap addr_cap utxo_bytes (counted f ac)

  clear_each-keeps :
      (addrs : List Address) (d : Items Balance Utxo Charts)
      → Distinct (keys d)
      → Distinct (keys (clear_each addrs d)) × (length (clear_each addrs d) ≤ length d)
  unfolding clear_each
  clear_each-keeps [] d h = (h, omega arith)
  clear_each-keeps (k ∷ ks) d h =
      let (h', shorter) = clear_each-keeps ks (del k d) (del-Distinct k d h) in
      (h', omega (arith, shorter, length-del-le {0} k d))

  clear-IsValid :
      (addrs : Slice Address) (ac : AddressCache Balance Utxo Charts)
      → IsValid ac
      → IsValid (clear addrs ac).0 × ((clear addrs ac).0.cap_addr ≡ ac.cap_addr)
  unfolding clear clear_all
  clear-IsValid none ac v = (record { distinct = tt; addrs_le = omega arith }, refl)
  clear-IsValid (some addrs) ac v =
      let (h, shorter) = clear_each-keeps addrs ac.a v.distinct in
      (record { distinct = h; addrs_le = omega (arith, shorter, v.addrs_le) }, refl)

  Reach-IsValid :
      {row_cap addr_cap utxo_bytes : ℕ} {ac : AddressCache Balance Utxo Charts}
      → Reach row_cap addr_cap utxo_bytes ac
      → IsValid ac × (ac.cap_addr ≡ addr_cap)
  unfolding new_address_cache
  Reach-IsValid made = (record { distinct = tt; addrs_le = omega arith }, refl)
  Reach-IsValid (project_set p r) =
      let (v, e) = Reach-IsValid r in (record { distinct = v.distinct; addrs_le = v.addrs_le }, e)
  Reach-IsValid (stored {ac} {ac'} addr r st) =
      let (v, e) = Reach-IsValid r in
      let k = StoreStep-Keeps addr ac ac' st v in (k.valid, k.same_cap_addr ∙ e)
  Reach-IsValid (cleared {ac} addrs r) =
      let (v, e) = Reach-IsValid r in let (v', e') = clear-IsValid addrs ac v in (v', e' ∙ e)
  Reach-IsValid (read f r) =
      let (v, e) = Reach-IsValid r in (record { distinct = v.distinct; addrs_le = v.addrs_le }, e)

  -- Whatever calls are made on a cache, in whatever order Go visits its map, it never has more
  -- addresses than its capacity, and no address twice.
  pub Reach-addrs_le :
      (row_cap addr_cap utxo_bytes : ℕ) (ac : AddressCache Balance Utxo Charts)
      → Reach row_cap addr_cap utxo_bytes ac
      → (length ac.a ≤ addr_cap) × Distinct (keys ac.a)
  Reach-addrs_le row_cap addr_cap utxo_bytes ac r =
      let (v, e) = Reach-IsValid r in (omega (arith, v.addrs_le, e), v.distinct)

  -- Stores for other addresses, one after the other.
  pub data OtherStores (ac : AddressCache Balance Utxo Charts)
      : AddressCache Balance Utxo Charts → Type 0 where
    here : OtherStores ac ac
    after :
        {ac1 ac2 : AddressCache Balance Utxo Charts} (addr : Address)
        → OtherStores ac ac1
        → (addr == ac.project_address) ≡ false
        → StoreStep addr ac1 ac2
        → OtherStores ac ac2

  -- What stores for other addresses keep: the cache stays valid, and so does its project's item.
  OtherStores-keep :
      {ac ac' : AddressCache Balance Utxo Charts}
      → OtherStores ac ac'
      → IsValid ac
      → IsValid ac'
        × (ac'.project_address ≡ ac.project_address)
        × (find ac.project_address ac'.a ≡ find ac.project_address ac.a)
  OtherStores-keep here v = (v, refl, refl)
  OtherStores-keep {ac} (after {ac1} {ac2} addr s f st) v =
      let (v1, p1, e1) = OtherStores-keep s v in
      let k = StoreStep-Keeps addr ac1 ac2 st v1 in
      (k.valid, k.same_project ∙ p1, rw p1 at (k.project_kept (rw p1 f)) ∙ e1)

  -- The item of the project's address is never purged: stores and clears for other addresses, as many
  -- as there are, leave it as it was, in whatever order Go visits the map.
  pub project_never_purged :
      (ac ac' : AddressCache Balance Utxo Charts)
      → IsValid ac
      → OtherStores ac ac'
      → find ac.project_address ac'.a ≡ find ac.project_address ac.a
  project_never_purged ac ac' v s = (OtherStores-keep s v).2
