-- ===== src/CacheLock/Tests.antt =====
-- Two callers of `CacheLock` of db/cache/addresscache.go for address 5, and its theorems there.
use hdfdata.CacheLock.Exclusion.{lock_exclusive, try_lock-holder, waiter_released}
use hdfdata.CacheLock.{
  Chan, CacheLock, unmade, closed, holding, set_phase, new_cache_lock, hold, try_lock, release,
  Step, tried, Reach, start, after,
}
use hdfdata.Base.{◌≡◌, ◌↔◌, refl, none, some, [], ◌∷◌, ◌==◌, if◌then◌else◌, find}

program : Unit {0}
unfolding set_phase new_cache_lock hold try_lock release
program = tt

abbrev locked : CacheLock
locked = record { addrs = (5, 0) ∷ []; made = 1; phase = λ k. if k == 0 then holding 5 else unmade }

first_caller : Reach locked
unfolding program
first_caller = after start (tried 5 refl)

second_caller : (try_lock 5 locked).1 ≡ some 0
unfolding program
second_caller = refl

lock_exclusive_example : ◌≡◌ {A = Chan} 0 0
unfolding program
lock_exclusive_example = lock_exclusive locked 5 0 0 first_caller refl refl

try_lock-holder_example :
    ((c : Chan) → ((try_lock 5 locked).1 ≡ some c) ↔ (locked.phase c ≡ holding 5))
    × ((try_lock 5 locked).1 ≡ none → (try_lock 5 locked).0.phase 1 ≡ holding 5)
try_lock-holder_example = try_lock-holder locked 5 first_caller

waiter_released_example :
    (cl1 : CacheLock) × (cl2 : CacheLock) × Step locked cl1
    × Step cl1 cl2
    × (find 5 cl1.addrs ≡ none)
    × (cl2.phase 0 ≡ closed)
    × ((cl3 : CacheLock) → Step cl2 cl3 → cl3.phase 0 ≡ closed)
waiter_released_example = waiter_released locked 5 0 first_caller second_caller
