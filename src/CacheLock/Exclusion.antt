-- ===== src/CacheLock/Exclusion.antt =====
-- That `CacheLock` of db/cache/addresscache.go excludes callers of one address from each other, and lets those that
-- wait go.
use hdfdata.CacheLock.Owned.{IsOwned, set_phase-same, set_phase-other, some_inj, Reach-IsOwned}
use mathlib.Core.Path.{subst}
use hdfdata.CacheLock.{
  Address, Chan, leaving, closed, holding, CacheLock, hold, try_lock, release, close_chan, Step,
  tried, released, chan_closed, Reach, after,
}
use hdfdata.Base.{
  ◌≡◌, ◌↔◌, refl, sym, ◌∙◌, inl, inr, false, none, some, arith, ◌==◌, ==_iff, ==_refl, Bool-cases,
  Option-cases, find, find-del,
}

-- At most one caller holds the lock of an address: two channels whose locks are held for one address are the same.
pub lock_exclusive :
    (cl : CacheLock) (a : Address) (c d : Chan)
    → Reach cl
    → cl.phase c ≡ holding a
    → cl.phase d ≡ holding a
    → c ≡ d
lock_exclusive cl a c d r first second =
    let o = Reach-IsOwned r in some_inj c d (sym (o.is_held a c first) ∙ o.is_held a d second)

-- A caller that tries the lock of an address is told to wait for a channel exactly when that channel's lock is held for the
-- address, and else gets the lock with a new channel.
pub try_lock-holder :
    (cl : CacheLock) (a : Address)
    → Reach cl
    → ((c : Chan) → ((try_lock a cl).1 ≡ some c) ↔ (cl.phase c ≡ holding a))
      × ((try_lock a cl).1 ≡ none → (try_lock a cl).0.phase cl.made ≡ holding a)
unfolding try_lock hold
try_lock-holder cl a r =
    let o = Reach-IsOwned r in
    elim (Option-cases (find a cl.addrs)) [
      | inl free ↦
          rw (try_lock, free)
            (
              λ c. (
                λ e. absurd (ground (arith, e)),
                λ held. absurd (ground (arith, free, o.is_held a c held)),
              ),
              λ e. set_phase-same cl.made (holding a) cl.phase,
            )
      | inr (wait, busy) ↦
          rw (try_lock, busy)
            (
              λ c. (λ e. o.has_holder a c (busy ∙ e), λ held. sym busy ∙ o.is_held a c held),
              λ e. absurd (ground (arith, e)),
            )
    ]

closed_stays :
    (c : Chan) (cl cl' : CacheLock)
    → IsOwned cl
    → Step cl cl'
    → cl.phase c ≡ closed
    → cl'.phase c ≡ closed
unfolding try_lock hold release close_chan
closed_stays c cl cl' o (tried a e) shut = elim (Option-cases (find a cl.addrs)) [
  | inr (wait, busy) ↦ subst (λ k. k.phase c ≡ closed) (rw (try_lock, busy) at e) shut
  | inl free ↦
      let apart : (c == cl.made) ≡ false = elim (Bool-cases (c == cl.made)) [
        | inl t ↦ absurd (ground (arith, shut, o.fresh c (ground (arith, t))))
        | inr f ↦ f
      ] in
      subst (λ k. k.phase c ≡ closed) (rw (try_lock, free) at e)
        (set_phase-other cl.made c (holding a) cl.phase apart ∙ shut)
]
closed_stays c cl cl' o (released a d held e) shut =
    subst (λ k. k.phase c ≡ closed) e
      (elim (Bool-cases (c == d)) [
        | inl t ↦ absurd (ground (arith, shut, held, (==_iff c d).0 t))
        | inr f ↦ set_phase-other d c leaving cl.phase f ∙ shut
      ])
closed_stays c cl cl' o (chan_closed d left e) shut =
    subst (λ k. k.phase c ≡ closed) e
      (elim (Bool-cases (c == d)) [
        | inl t ↦ absurd (ground (arith, shut, left, (==_iff c d).0 t))
        | inr f ↦ set_phase-other d c closed cl.phase f ∙ shut
      ])

-- A channel that a caller was told to wait for can be closed in two steps, those of its holder's done function, and
-- the address is free after the first; no next step opens it again.
pub waiter_released :
    (cl : CacheLock) (a : Address) (c : Chan)
    → Reach cl
    → (try_lock a cl).1 ≡ some c
    → (cl1 : CacheLock) × (cl2 : CacheLock) × Step cl cl1
      × Step cl1 cl2
      × (find a cl1.addrs ≡ none)
      × (cl2.phase c ≡ closed)
      × ((cl3 : CacheLock) → Step cl2 cl3 → cl3.phase c ≡ closed)
unfolding release close_chan
waiter_released cl a c r busy =
    let held = ((try_lock-holder cl a r).0 c).0 busy in
    let cl1 = release a c cl in
    let left : cl1.phase c ≡ leaving = set_phase-same c leaving cl.phase in
    let cl2 = close_chan c cl1 in
    let first : Step cl cl1 = released a c held refl in
    let second : Step cl1 cl2 = chan_closed c left refl in
    let done : cl2.phase c ≡ closed = set_phase-same c closed cl1.phase in
    (
      cl1,
      cl2,
      first,
      second,
      ground (arith, find-del a a cl.addrs, ==_refl a),
      done,
      λ cl3 s. closed_stays c cl2 cl3 (Reach-IsOwned (after (after r first) second)) s done,
    )
