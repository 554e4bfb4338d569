-- ===== src/BlockGate/Queued.antt =====
-- The gate of rpcutils/blockgate.go with one more wait channel, queued or signalled at once.
use hdfdata.Base.{
  ◌≡◌, ◌↔◌, refl, ◌∙◌, ap, inl, inr, Bool, true, Option, none, some, List, [], arith, ℤ, eqb_ℤ,
  eqb_ℤ_iff, ◌==◌, ==_iff, if◌then◌else◌, Bool-cases,
}
use hdfdata.BlockGate.Channels.{
  register-IsSound, signal-IsSound, waiting_at, waiting_at-signal, waiting_at-register,
}
use hdfdata.BlockGate.Waits.{IsServed}
use hdfdata.BlockGate.{Hash, Chan, Waiters, BlockGate, register, signal}

module _ {K V : Type 0} (same : K → K → Bool)
    (same_iff : (a b : K) → (same a b ≡ true) ↔ (a ≡ b)) where
  served_elsewhere :
      (k j : K) (x : V) (m : K → Option V) (new old : List Chan)
      → m k ≡ none
      → m j ≡ some x
      → old ≡ []
      → (if same j k then new else old) ≡ []
  served_elsewhere k j x m new old absent e o = elim (Bool-cases (same j k)) [
    | inl t ↦ absurd (let q = ap m ((same_iff j k).0 t) in ground (arith, absent, e, q))
    | inr f ↦ rw f o
  ]

module _ {K V : Type 0} (same : K → K → Bool)
    (same_iff : (a b : K) → (same a b ≡ true) ↔ (a ≡ b)) where
  served_at_once :
      (k j : K) (v : V) (ws : Waiters K V)
      → waiting_at ws j ≡ []
      → waiting_at (signal same k v (register same k ws)) j ≡ []
  served_at_once k j v ws o =
      waiting_at-signal same same_iff k j v (register same k ws)
      ∙ ap (λ cs. if same j k then [] else cs) (waiting_at-register same same_iff k j ws)
      ∙ elim (Bool-cases (same j k)) [ inl t ↦ rw t refl | inr f ↦ rw f o ]

module _ {Block : Type 0} where
  pub registered_height-IsServed :
      (h : ℤ) (g : BlockGate Block)
      → g.hash_at_height h ≡ none
      → IsServed g
      → IsServed (record g { height_waiters = register eqb_ℤ h g.height_waiters })
  registered_height-IsServed h g absent s = record {
    heights_sound = register-IsSound eqb_ℤ eqb_ℤ_iff h g.height_waiters s.heights_sound;
    hashes_sound = s.hashes_sound;
    heights_served = λ k x e.
        waiting_at-register eqb_ℤ eqb_ℤ_iff h k g.height_waiters
        ∙ served_elsewhere eqb_ℤ eqb_ℤ_iff h k x g.hash_at_height _ _ absent e
            (s.heights_served k x e);
    hashes_served = s.hashes_served;
  }

  pub registered_hash-IsServed :
      (hash : Hash) (g : BlockGate Block)
      → g.block_with_hash hash ≡ none
      → IsServed g
      → IsServed (record g { hash_waiters = register ◌==◌ hash g.hash_waiters })
  registered_hash-IsServed hash g absent s = record {
    heights_sound = s.heights_sound;
    hashes_sound = register-IsSound ◌==◌ ==_iff hash g.hash_waiters s.hashes_sound;
    heights_served = s.heights_served;
    hashes_served = λ k b e.
        waiting_at-register ◌==◌ ==_iff hash k g.hash_waiters
        ∙ served_elsewhere ◌==◌ ==_iff hash k b g.block_with_hash _ _ absent e
            (s.hashes_served k b e);
  }

  pub signalled_height-IsServed :
      (h : ℤ) (hash : Hash) (g : BlockGate Block)
      → IsServed g
      → IsServed
          (record g { height_waiters = signal eqb_ℤ h hash (register eqb_ℤ h g.height_waiters) })
  signalled_height-IsServed h hash g s = record {
    heights_sound =
        signal-IsSound eqb_ℤ eqb_ℤ_iff h hash (register eqb_ℤ h g.height_waiters)
          (register-IsSound eqb_ℤ eqb_ℤ_iff h g.height_waiters s.heights_sound);
    hashes_sound = s.hashes_sound;
    heights_served =
        λ k x e. served_at_once eqb_ℤ eqb_ℤ_iff h k hash g.height_waiters (s.heights_served k x e);
    hashes_served = s.hashes_served;
  }

  pub signalled_hash-IsServed :
      (hash : Hash) (h : ℤ) (g : BlockGate Block)
      → IsServed g
      → IsServed
          (record g { hash_waiters = signal ◌==◌ hash h (register ◌==◌ hash g.hash_waiters) })
  signalled_hash-IsServed hash h g s = record {
    heights_sound = s.heights_sound;
    hashes_sound =
        signal-IsSound ◌==◌ ==_iff hash h (register ◌==◌ hash g.hash_waiters)
          (register-IsSound ◌==◌ ==_iff hash g.hash_waiters s.hashes_sound);
    heights_served = s.heights_served;
    hashes_served =
        λ k b e. served_at_once ◌==◌ ==_iff hash k h g.hash_waiters (s.hashes_served k b e);
  }
