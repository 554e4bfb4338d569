-- ===== src/TicketPool/HashSet.antt =====
-- The Go map `map[chainhash.Hash]struct{}` of stakedb/ticketpool.go as a list without repetition.
pub use hdfdata.Base.{member, Distinct}
use hdfdata.Base.{
  ℕ, suc, ◌+◌, ◌≡◌, refl, ◌∙◌, inl, inr, true, false, List, [], ◌∷◌, arith, ◌==◌, if◌then◌else◌,
  length, Bool-cases, ==_iff,
}

abbrev pub Hash : Type 0
Hash = ℕ

unfoldable pub insert : Hash → List Hash → List Hash
insert h p = if member h p then p else h ∷ p

unfoldable pub delete : Hash → List Hash → List Hash
delete h [] = []
delete h (x ∷ xs) = let rest = delete h xs in if h == x then rest else x ∷ rest

unfoldable pub insert_all : List Hash → List Hash → List Hash
insert_all [] p = p
insert_all (x ∷ xs) p = insert_all xs (insert x p)

unfoldable pub delete_all : List Hash → List Hash → List Hash
delete_all [] p = p
delete_all (x ∷ xs) p = delete_all xs (delete x p)

pub member-insert :
    (h x : Hash) (p : List Hash) → member h (insert x p) ≡ (if h == x then true else member h p)
unfolding insert
member-insert h x p = ground arith

pub member-delete :
    (h x : Hash) (p : List Hash) → member h (delete x p) ≡ (if h == x then false else member h p)
unfolding delete
member-delete h x [] = ground arith
member-delete h x (y ∷ p) = ground (arith, member-delete h x p)

pub member-insert_all :
    (h : Hash) (xs p : List Hash)
    → member h (insert_all xs p) ≡ (if member h xs then true else member h p)
unfolding insert_all
member-insert_all h [] p = refl
member-insert_all h (x ∷ xs) p =
    ground (arith, member-insert_all h xs (insert x p), member-insert h x p)

pub member-delete_all :
    (h : Hash) (xs p : List Hash)
    → member h (delete_all xs p) ≡ (if member h xs then false else member h p)
unfolding delete_all
member-delete_all h [] p = refl
member-delete_all h (x ∷ xs) p =
    ground (arith, member-delete_all h xs (delete x p), member-delete h x p)

insert-Distinct : (x : Hash) (p : List Hash) → Distinct p → Distinct (insert x p)
unfolding insert
insert-Distinct x p d = elim (Bool-cases (member x p)) [ inl t ↦ rw t d | inr f ↦ rw f (f, d) ]

delete-Distinct : (x : Hash) (p : List Hash) → Distinct p → Distinct (delete x p)
unfolding delete
delete-Distinct x [] d = tt
delete-Distinct x (y ∷ p) d = elim (Bool-cases (x == y)) [
  | inl t ↦ rw t (delete-Distinct x p d.1)
  | inr f ↦ rw f (ground (arith, member-delete y x p), delete-Distinct x p d.1)
]

pub insert_all-Distinct : (xs p : List Hash) → Distinct p → Distinct (insert_all xs p)
unfolding insert_all
insert_all-Distinct [] p d = d
insert_all-Distinct (x ∷ xs) p d = insert_all-Distinct xs (insert x p) (insert-Distinct x p d)

pub delete_all-Distinct : (xs p : List Hash) → Distinct p → Distinct (delete_all xs p)
unfolding delete_all
delete_all-Distinct [] p d = d
delete_all-Distinct (x ∷ xs) p d = delete_all-Distinct xs (delete x p) (delete-Distinct x p d)

delete_absent : (x : Hash) (p : List Hash) → member x p ≡ false → delete x p ≡ p
unfolding delete
delete_absent x [] h = refl
delete_absent x (y ∷ p) h = ground (arith, delete_absent x p)

length-delete :
    (x : Hash) (p : List Hash) → Distinct p → member x p ≡ true → length (delete x p) + 1 ≡ length p
unfolding delete
length-delete x [] d h = cc
length-delete x (y ∷ p) d h = ground (arith, length-delete x p d.1, delete_absent x p, ==_iff x y)

length-insert_new :
    (x : Hash) (p : List Hash) → member x p ≡ false → length (insert x p) ≡ suc (length p)
unfolding insert
length-insert_new x p h = rw h

-- Inserting tickets that are new and named once makes the pool longer by their number.
pub length-insert_all :
    (xs p : List Hash)
    → Distinct xs
    → ((h : Hash) → member h xs ≡ true → member h p ≡ false)
    → length (insert_all xs p) ≡ length p + length xs
unfolding insert_all
length-insert_all [] p d new = omega arith
length-insert_all (x ∷ xs) p d new =
    length-insert_all xs (insert x p) d.1 (λ h m. ground (arith, member-insert h x p, new h))
    ∙ omega (arith, length-insert_new x p (new x (ground arith)))

-- Deleting tickets that are there and named once makes the pool shorter by their number.
pub length-delete_all :
    (xs p : List Hash)
    → Distinct xs
    → Distinct p
    → ((h : Hash) → member h xs ≡ true → member h p ≡ true)
    → length (delete_all xs p) + length xs ≡ length p
unfolding delete_all
length-delete_all [] p d e there = omega arith
length-delete_all (x ∷ xs) p d e there = omega (
  arith,
  length-delete_all xs (delete x p) d.1 (delete-Distinct x p e)
      (λ h m. ground (arith, member-delete h x p, there h)),
  length-delete x p e (there x (ground arith)),
)
