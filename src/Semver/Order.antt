-- ===== src/Semver/Order.antt =====
-- What `Compatible` and `AnyCompatible` of semver/semver.go decide.
use hdfdata.Base.{◌<◌, ◌≤◌, ◌≡◌, ◌↔◌, ◌⊎◌, inl, inr, true, List, [], ◌∷◌, arith, Bool-cases}
use hdfdata.Semver.{Semver, compatible, any_compatible}

-- The versions that a required one admits: the same major, and not older.
abbrev pub Admits : Semver → Semver → Type 0
Admits r a =
    (r.major ≡ a.major) × ((r.minor < a.minor) ⊎ ((r.minor ≡ a.minor) × (r.patch ≤ a.patch)))

to : (r a : Semver) → compatible r a ≡ true → Admits r a
unfolding compatible
to r a h = ground arith

from : (r a : Semver) → Admits r a → compatible r a ≡ true
unfolding compatible
from r a h = ground arith

-- `compatible` holds exactly of an equal major version with a later minor one, or with the same
-- minor version and no earlier patch.
pub compatible-Admits : (r a : Semver) → (compatible r a ≡ true) ↔ Admits r a
compatible-Admits r a = (to r a, from r a)

-- Compatibility is a preorder: every version serves for itself, and what serves for a version
-- that serves for another serves for that one.
pub compatible_preorder :
    (r a b : Semver)
    → (compatible r r ≡ true)
      × (compatible r a ≡ true → compatible a b ≡ true → compatible r b ≡ true)
unfolding compatible
compatible_preorder r a b = (ground arith, λ h k. ground arith)

-- Some version of the list admits `a`.
abbrev pub SomeAdmits : List Semver → Semver → Type 0
SomeAdmits [] a = ⊥
SomeAdmits (v ∷ vs) a = Admits v a ⊎ SomeAdmits vs a

any_to : (vs : List Semver) (a : Semver) → any_compatible vs a ≡ true → SomeAdmits vs a
unfolding any_compatible
any_to [] a h = cc
any_to (v ∷ vs) a h = elim (Bool-cases (compatible v a)) [
  | inl t ↦ inl (to v a t)
  | inr f ↦ inr (any_to vs a (ground arith))
]

any_from : (vs : List Semver) (a : Semver) → SomeAdmits vs a → any_compatible vs a ≡ true
unfolding any_compatible
any_from [] a h = elim h [ ]
any_from (v ∷ vs) a (inl h) = rw (from v a h)
any_from (v ∷ vs) a (inr h) = ground (arith, any_from vs a h)

-- A version is compatible with a list exactly when some version of the list admits it; the loop's
-- early exit loses none.
pub any_compatible-SomeAdmits :
    (vs : List Semver) (a : Semver) → (any_compatible vs a ≡ true) ↔ SomeAdmits vs a
any_compatible-SomeAdmits vs a = (any_to vs a, any_from vs a)
