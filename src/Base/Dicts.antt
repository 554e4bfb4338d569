-- ===== src/Base/Dicts.antt =====
-- A Go map keyed by numbers as a list of entries, with the laws of its operations and of a sum over
-- its values.
use Prim.Native.Nat.{ℕ, suc, ◌+◌, ◌≤◌}
use mathlib.Core.Path.{◌≡◌, refl}
use mathlib.Core.Bool.{Bool, true, false}
use mathlib.Core.List.{List, [], ◌∷◌}
use mathlib.Core.Option.{Option, none, some}
use native.Mathlib.Omega.{arith}
use hdfdata.Base.Tests.{◌==◌, if◌then◌else◌, ==_iff}
use hdfdata.Base.Lists.{length}
use hdfdata.Base.Members.{member, Distinct}

abbrev pub Dict {ℓ} : Type ℓ → Type ℓ
Dict V = List (ℕ × V)

module _ {ℓ} {V : Type ℓ} where
  abbrev pub find : ℕ → Dict V → Option V
  find k [] = none
  find k (e ∷ d) = if k == e.0 then some e.1 else find k d

  -- `d[k] = v`, where a key that is not there becomes the last.
  abbrev pub put : ℕ → V → Dict V → Dict V
  put k v [] = (k, v) ∷ []
  put k v (e ∷ d) = let rest = put k v d in if k == e.0 then (k, v) ∷ d else e ∷ rest

  -- `delete(d, k)`
  abbrev pub del : ℕ → Dict V → Dict V
  del k [] = []
  del k (e ∷ d) = let rest = del k d in if k == e.0 then rest else e ∷ rest

  abbrev pub keys : Dict V → List ℕ
  keys [] = []
  keys (e ∷ d) = e.0 ∷ keys d

  -- The sum of a weight over the values.
  abbrev pub sum_of : (V → ℕ) → Dict V → ℕ
  sum_of w [] = 0
  sum_of w (e ∷ d) = w e.1 + sum_of w d

  -- The weight of a value, 0 of one that is not there.
  abbrev pub weight : (V → ℕ) → Option V → ℕ
  weight w none = 0
  weight w (some v) = w v

  pub find-put :
      (j k : ℕ) (v : V) (d : Dict V) → find j (put k v d) ≡ (if j == k then some v else find j d)
  find-put j k v [] = ground arith
  find-put j k v (e ∷ d) = ground (arith, find-put j k v d)

  pub find-del : (j k : ℕ) (d : Dict V) → find j (del k d) ≡ (if j == k then none else find j d)
  find-del j k [] = ground arith
  find-del j k (e ∷ d) = ground (arith, find-del j k d)

  pub member-keys :
      (k : ℕ) (d : Dict V)
      → member k (keys d) ≡ elim (find k d) as (λ _. Bool) [ none ↦ false | some _ ↦ true ]
  member-keys k [] = refl
  member-keys k (e ∷ d) = ground (arith, member-keys k d)

  pub member-keys-put :
      (j k : ℕ) (v : V) (d : Dict V)
      → member j (keys (put k v d)) ≡ (if j == k then true else member j (keys d))
  member-keys-put j k v [] = ground arith
  member-keys-put j k v (e ∷ d) = ground (arith, member-keys-put j k v d)

  pub member-keys-del :
      (j k : ℕ) (d : Dict V)
      → member j (keys (del k d)) ≡ (if j == k then false else member j (keys d))
  member-keys-del j k [] = ground arith
  member-keys-del j k (e ∷ d) = ground (arith, member-keys-del j k d)

  pub put-Distinct : (k : ℕ) (v : V) (d : Dict V) → Distinct (keys d) → Distinct (keys (put k v d))
  put-Distinct k v [] h = (refl, tt)
  put-Distinct k v (e ∷ d) h =
      ground (arith, put-Distinct k v d h.1, member-keys-put e.0 k v d, ==_iff k e.0)

  pub del-Distinct : (k : ℕ) (d : Dict V) → Distinct (keys d) → Distinct (keys (del k d))
  del-Distinct k [] h = tt
  del-Distinct k (e ∷ d) h = ground (arith, del-Distinct k d h.1, member-keys-del e.0 k d)

  pub del_absent : (k : ℕ) (d : Dict V) → member k (keys d) ≡ false → del k d ≡ d
  del_absent k [] h = refl
  del_absent k (e ∷ d) h = ground (arith, del_absent k d)

  pub length-del :
      (k : ℕ) (d : Dict V)
      → Distinct (keys d)
      → member k (keys d) ≡ true
      → suc (length (del k d)) ≡ length d
  length-del k [] h m = absurd (ground arith)
  length-del k (e ∷ d) h m = ground (arith, length-del k d h.1, del_absent k d, ==_iff k e.0)

  pub length-put :
      (k : ℕ) (v : V) (d : Dict V)
      → length (put k v d) ≡ (if member k (keys d) then length d else suc (length d))
  length-put k v [] = refl
  length-put k v (e ∷ d) = ground (arith, length-put k v d)

  pub sum_of-del :
      (w : V → ℕ) (k : ℕ) (d : Dict V)
      → Distinct (keys d)
      → sum_of w (del k d) + weight w (find k d) ≡ sum_of w d
  sum_of-del w k [] h = refl
  sum_of-del w k (e ∷ d) h = ground (arith, sum_of-del w k d h.1, del_absent k d, ==_iff k e.0)

  pub sum_of-put :
      (w : V → ℕ) (k : ℕ) (v : V) (d : Dict V)
      → sum_of w (put k v d) + weight w (find k d) ≡ sum_of w d + w v
  sum_of-put w k v [] = omega arith
  sum_of-put w k v (e ∷ d) = ground (arith, sum_of-put w k v d)

  pub length-del-le : (k : ℕ) (d : Dict V) → length (del k d) ≤ length d
  length-del-le k [] = omega arith
  length-del-le k (e ∷ d) = ground (arith, length-del-le k d)

  pub sum_of-del-le : (w : V → ℕ) (k : ℕ) (d : Dict V) → sum_of w (del k d) ≤ sum_of w d
  sum_of-del-le w k [] = omega arith
  sum_of-del-le w k (e ∷ d) = ground (arith, sum_of-del-le w k d)
