-- ===== src/CacheLock.antt =====
-- `CacheLock` of db/cache/addresscache.go, the lock for each address that a caller tries before it updates the
-- cache. A channel is the number of its making. Each done function is called once: its `delete` and its `close` are
-- two steps, between which others run.
use hdfdata.Base.{
  ℕ, ◌+◌, ◌≡◌, Bool, true, false, Option, none, some, List, [], ◌∷◌, ◌==◌, if◌then◌else◌, Dict,
  find, put, del,
}
pub mod Owned
pub mod Exclusion
mod Tests

abbrev pub Address : Type 0
Address = ℕ

abbrev pub Chan : Type 0
Chan = ℕ

-- Where a channel is: not made yet, its lock held for an address, its lock released by the first half of the done
-- function, or closed by the second.
pub data Phase : Type 0 where
  unmade leaving closed : Phase
  holding : Address → Phase

pub record CacheLock : Type 0 where
  pub addrs : Dict Chan
  pub made : ℕ
  pub phase : Chan → Phase

unfoldable pub set_phase : Chan → Phase → (Chan → Phase) → Chan → Phase
set_phase c x phase k = if k == c then x else phase k

unfoldable pub new_cache_lock : CacheLock
new_cache_lock = record { addrs = []; made = 0; phase = λ c. unmade }

-- `hold`
unfoldable pub hold : Address → CacheLock → CacheLock
hold addr cl = record {
  addrs = put addr cl.made cl.addrs;
  made = cl.made + 1;
  phase = set_phase cl.made (holding addr) cl.phase;
}

-- `TryLock`: the channel to wait for when another caller has the lock, none when this one has got it.
unfoldable pub try_lock : Address → CacheLock → CacheLock × Option Chan
try_lock addr cl = elim (find addr cl.addrs) [
  | none ↦ (hold addr cl, none)
  | some wait ↦ (cl, some wait)
]

-- `done`, the first half of a done function.
unfoldable pub release : Address → Chan → CacheLock → CacheLock
release addr c cl = record {
  addrs = del addr cl.addrs;
  made = cl.made;
  phase = set_phase c leaving cl.phase;
}

-- The second half.
unfoldable pub close_chan : Chan → CacheLock → CacheLock
close_chan c cl = record { addrs = cl.addrs; made = cl.made; phase = set_phase c closed cl.phase }

pub data Step (cl cl' : CacheLock) : Type 0 where
  tried : (addr : Address) → (try_lock addr cl).0 ≡ cl' → Step cl cl'
  released :
      (addr : Address) (c : Chan)
      → cl.phase c ≡ holding addr
      → release addr c cl ≡ cl'
      → Step cl cl'
  chan_closed : (c : Chan) → cl.phase c ≡ leaving → close_chan c cl ≡ cl' → Step cl cl'

pub data Reach : CacheLock → Type 0 where
  start : Reach new_cache_lock
  after : {cl cl' : CacheLock} → Reach cl → Step cl cl' → Reach cl'
