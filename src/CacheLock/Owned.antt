-- ===== src/CacheLock/Owned.antt =====
-- The map of `CacheLock` in db/cache/addresscache.go and the locks that are held, at every step.
use mathlib.Core.Path.{subst}
use hdfdata.CacheLock.{
  Address, Chan, Phase, unmade, leaving, closed, holding, CacheLock, set_phase, new_cache_lock,
  hold, try_lock, release, close_chan, tried, released, chan_closed, Reach, start, after,
}
use hdfdata.Base.{
  ℕ, ◌≡◌, ◌≤◌, refl, sym, ◌∙◌, inl, inr, false, Option, none, some, arith, ◌==◌, ==_iff, ==_refl,
  Bool-cases, Option-cases, find, find-put, find-del,
}

-- The map has the channels whose locks are held, under their addresses, and those to come are unmade.
pub record IsOwned (cl : CacheLock) : Type 0 where
  pub has_holder : (a : Address) (c : Chan) → find a cl.addrs ≡ some c → cl.phase c ≡ holding a
  pub is_held : (a : Address) (c : Chan) → cl.phase c ≡ holding a → find a cl.addrs ≡ some c
  pub fresh : (c : Chan) → cl.made ≤ c → cl.phase c ≡ unmade

pub set_phase-same : (c : Chan) (x : Phase) (phase : Chan → Phase) → set_phase c x phase c ≡ x
unfolding set_phase
set_phase-same c x phase = rw (set_phase, ==_refl c) refl

pub set_phase-other :
    (c k : Chan) (x : Phase) (phase : Chan → Phase)
    → (k == c) ≡ false
    → set_phase c x phase k ≡ phase k
unfolding set_phase
set_phase-other c k x phase f = rw (set_phase, f) refl

holding_inj : (a b : Address) → holding a ≡ holding b → a ≡ b
holding_inj a b e = cc

pub some_inj : (a b : ℕ) → ◌≡◌ {A = Option ℕ} (some a) (some b) → a ≡ b
some_inj a b e = cc

hold-IsOwned :
    (a : Address) (cl : CacheLock) → IsOwned cl → find a cl.addrs ≡ none → IsOwned (hold a cl)
unfolding hold
hold-IsOwned a cl o free = record {
  has_holder = λ b c e. elim (Bool-cases (b == a)) [
    | inl t ↦
        let same : cl.made ≡ c = some_inj cl.made c (rw (find-put b a cl.made cl.addrs, t) at e) in
        rw (← same, (==_iff b a).0 t) (set_phase-same cl.made (holding a) cl.phase)
    | inr f ↦
        let before = o.has_holder b c (rw (find-put b a cl.made cl.addrs, f) at e) in
        elim (Bool-cases (c == cl.made)) [
          | inl t ↦ absurd (ground (arith, before, o.fresh c (ground (arith, t))))
          | inr g ↦ set_phase-other cl.made c (holding a) cl.phase g ∙ before
        ]
  ];
  is_held = λ b c e. elim (Bool-cases (c == cl.made)) [
    | inl t ↦
        let same : a ≡ b =
          holding_inj a b (
            sym (set_phase-same cl.made (holding a) cl.phase) ∙ rw ((==_iff c cl.made).0 t) at e) in
        ground (arith, find-put b a cl.made cl.addrs, same, ==_refl b, t)
    | inr f ↦
        let before = o.is_held b c (sym (set_phase-other cl.made c (holding a) cl.phase f) ∙ e) in
        elim (Bool-cases (b == a)) [
          | inl t ↦ absurd (ground (arith, before, free, (==_iff b a).0 t))
          | inr g ↦ rw (find-put b a cl.made cl.addrs, g) before
        ]
  ];
  fresh = λ c le.
      set_phase-other cl.made c (holding a) cl.phase (ground (arith, le))
      ∙ o.fresh c (omega (arith, le));
}

release-IsOwned :
    (a : Address) (c : Chan) (cl : CacheLock)
    → IsOwned cl
    → cl.phase c ≡ holding a
    → IsOwned (release a c cl)
unfolding release
release-IsOwned a c cl o held = record {
  has_holder = λ b d e. elim (Bool-cases (b == a)) [
    | inl t ↦ absurd (ground (arith, rw (find-del b a cl.addrs, t) at e))
    | inr f ↦
        let before = o.has_holder b d (rw (find-del b a cl.addrs, f) at e) in
        elim (Bool-cases (d == c)) [
          | inl t ↦
              let same : b ≡ a = holding_inj b a (sym before ∙ rw ((==_iff d c).0 t) held) in
              absurd (ground (arith, f, same))
          | inr g ↦ set_phase-other c d leaving cl.phase g ∙ before
        ]
  ];
  is_held = λ b d e. elim (Bool-cases (d == c)) [
    | inl t ↦
        absurd
          (ground (arith, sym (set_phase-same c leaving cl.phase) ∙ rw ((==_iff d c).0 t) at e))
    | inr f ↦
        let before = o.is_held b d (sym (set_phase-other c d leaving cl.phase f) ∙ e) in
        elim (Bool-cases (b == a)) [
          | inl t ↦
              let same : d ≡ c =
                some_inj d c (sym before ∙ rw ((==_iff b a).0 t) (o.is_held a c held)) in
              absurd (ground (arith, f, same))
          | inr g ↦ rw (find-del b a cl.addrs, g) before
        ]
  ];
  fresh = λ d le. elim (Bool-cases (d == c)) [
    | inl t ↦ absurd (ground (arith, held, o.fresh d le, (==_iff d c).0 t))
    | inr f ↦ set_phase-other c d leaving cl.phase f ∙ o.fresh d le
  ];
}

close_chan-IsOwned :
    (c : Chan) (cl : CacheLock) → IsOwned cl → cl.phase c ≡ leaving → IsOwned (close_chan c cl)
unfolding close_chan
close_chan-IsOwned c cl o left = record {
  has_holder = λ b d e.
      let before = o.has_holder b d e in
      elim (Bool-cases (d == c)) [
        | inl t ↦ absurd (ground (arith, before, left, (==_iff d c).0 t))
        | inr g ↦ set_phase-other c d closed cl.phase g ∙ before
      ];
  is_held = λ b d e. elim (Bool-cases (d == c)) [
    | inl t ↦
        absurd (ground (arith, sym (set_phase-same c closed cl.phase) ∙ rw ((==_iff d c).0 t) at e))
    | inr f ↦ o.is_held b d (sym (set_phase-other c d closed cl.phase f) ∙ e)
  ];
  fresh = λ d le. elim (Bool-cases (d == c)) [
    | inl t ↦ absurd (ground (arith, left, o.fresh d le, (==_iff d c).0 t))
    | inr f ↦ set_phase-other c d closed cl.phase f ∙ o.fresh d le
  ];
}

pub Reach-IsOwned : {cl : CacheLock} → Reach cl → IsOwned cl
unfolding new_cache_lock try_lock
Reach-IsOwned start = record {
  has_holder = λ a c e. absurd (ground (arith, e));
  is_held = λ a c e. absurd (ground (arith, e));
  fresh = λ c le. refl;
}
Reach-IsOwned (after {cl} {cl'} r (tried a e)) = elim (Option-cases (find a cl.addrs)) [
  | inl free ↦ subst IsOwned (rw (try_lock, free) at e) (hold-IsOwned a cl (Reach-IsOwned r) free)
  | inr (wait, busy) ↦ subst IsOwned (rw (try_lock, busy) at e) (Reach-IsOwned r)
]
Reach-IsOwned (after {cl} {cl'} r (released a c held e)) =
    subst IsOwned e (release-IsOwned a c cl (Reach-IsOwned r) held)
Reach-IsOwned (after {cl} {cl'} r (chan_closed c left e)) =
    subst IsOwned e (close_chan-IsOwned c cl (Reach-IsOwned r) left)
