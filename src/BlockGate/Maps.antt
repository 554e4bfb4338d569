-- ===== src/BlockGate/Maps.antt =====
-- The Go maps of rpcutils/blockgate.go as functions from keys, and the map that a list of items
-- spells when each item overwrites what an earlier one of its key has stored.
use hdfdata.Base.{
  ◌≡◌, ◌↔◌, refl, inl, inr, Bool, true, false, Option, none, some, List, [], ◌∷◌, ◌++◌, arith,
  if◌then◌else◌, Bool-cases, Option-cases,
}
use mathlib.Core.Option

module _ {K V : Type 0} (same : K → K → Bool) where
  unfoldable pub set : K → V → (K → Option V) → K → Option V
  set k v m q = if same q k then some v else m q

  -- `delete`
  unfoldable pub unset : K → (K → Option V) → K → Option V
  unset k m q = if same q k then none else m q

module _ {K B : Type 0} (same : K → K → Bool) (key : B → K) where
  -- The last item with the key.
  abbrev pub newest : K → List B → Option B
  newest k [] = none
  newest k (b ∷ w) = elim (newest k w) [
    | some c ↦ some c
    | none ↦ if same k (key b) then some b else none
  ]

  pub newest-append :
      (k : K) (w : List B) (b : B)
      → newest k (w ++ b ∷ []) ≡ (if same k (key b) then some b else newest k w)
  newest-append k [] b = refl
  newest-append k (c ∷ w) b = ground (arith, newest-append k w b)

  -- Some item has the key.
  abbrev pub has : K → List B → Bool
  has k [] = false
  has k (b ∷ w) = if same (key b) k then true else has k w

  module _ (same_iff : (a b : K) → (same a b ≡ true) ↔ (a ≡ b)) where
    same_sym : (a b : K) → same a b ≡ same b a
    same_sym a b = ground (arith, same_iff a b, same_iff b a)

    newest-has : (k : K) (w : List B) → has k w ≡ false → newest k w ≡ none
    newest-has k [] h = refl
    newest-has k (b ∷ w) h = ground (arith, newest-has k w, same_sym k (key b))

    has-newest : (k : K) (w : List B) → has k w ≡ true → (b : B) × (newest k w ≡ some b)
    has-newest k [] h = absurd (ground arith)
    has-newest k (b ∷ w) h = elim (Option-cases (newest k w)) [
      | inr (c, e) ↦ (c, rw e refl)
      | inl e ↦ elim (Bool-cases (same (key b) k)) [
        | inl t ↦ (b, rw (e, same_sym k (key b), t) refl)
        | inr f ↦ absurd (let (c, e') = has-newest k w (ground arith) in ground arith)
      ]
    ]

  module _ {V : Type 0} (value : B → V) where
    -- The map holds, at each key, the value of the last item with it.
    abbrev pub Tracks : (K → Option V) → List B → Type 0
    Tracks m w = (k : K) → m k ≡ Option.map value (newest k w)

    pub Tracks-set :
        (m : K → Option V) (w : List B) (b : B)
        → Tracks m w
        → Tracks (set same (key b) (value b) m) (w ++ b ∷ [])
    unfolding set
    Tracks-set m w b t k = ground (arith, newest-append k w b, t k)

    module _ (same_iff : (a b : K) → (same a b ≡ true) ↔ (a ≡ b)) where
      -- Dropping the first item, and its key unless a later item has it.
      pub Tracks-unset :
          (m : K → Option V) (w : List B) (b : B)
          → Tracks m (b ∷ w)
          → Tracks (if has (key b) w then m else unset same (key b) m) w
      unfolding unset
      Tracks-unset m w b t k = elim (Bool-cases (has (key b) w)) [
        | inl later ↦ elim (Option-cases (newest k w)) [
          | inr (c, e) ↦ ground (arith, t k)
          | inl e ↦ elim (Bool-cases (same k (key b))) [
            | inl s ↦
                let (c, e') = has-newest same_iff (key b) w later in
                absurd (ground (arith, (same_iff k (key b)).0 s))
            | inr s ↦ ground (arith, t k)
          ]
        ]
        | inr gone ↦ ground (arith, t k, newest-has same_iff (key b) w gone, same_iff k (key b))
      ]
